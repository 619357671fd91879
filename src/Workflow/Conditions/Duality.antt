-- ===== src/Workflow/Conditions/Duality.antt =====
-- The conditions come in pairs: `unless` is the negation of `if`, `until` that of `while`.
use honeydipper.Common.{inl, inr, Bool-cases, ap, not, ◌≡◌, refl, List, [], ◌∷◌, String}
use honeydipper.Outcome.{Outcome-cases, done}
use honeydipper.Value.{Fields, null}
use honeydipper.Dipper.Condition.{negate}
use honeydipper.Workflow.Types.{Session, Settings, Message, Env, workflow, Branches, build_env_data}
use honeydipper.Workflow.Conditions.{
  check_condition, check_loop_condition, is_truthy, if_loop, if_any_loop, unless_loop,
  unless_all_loop, while_loop, while_any_loop, until_loop, until_all_loop,
}

-- The settings with no condition at all, and with one list of conditions.
abbrev pub unconditional : Settings → Settings
unconditional s = record s {
  if_match = null;
  unless_match = null;
  while_match = null;
  until_match = null;
  if_all = [];
  if_any = [];
  unless_any = [];
  unless_all = [];
  while_all = [];
  while_any = [];
  until_any = [];
  until_all = [];
}

pub data Kind : Type 0 where
  if_all if_any unless_any unless_all while_all while_any until_any until_all : Kind

abbrev pub only : Kind → List String → Settings → Settings
only if_all cs s = record (unconditional s) { if_all = cs }
only if_any cs s = record (unconditional s) { if_any = cs }
only unless_any cs s = record (unconditional s) { unless_any = cs }
only unless_all cs s = record (unconditional s) { unless_all = cs }
only while_all cs s = record (unconditional s) { while_all = cs }
only while_any cs s = record (unconditional s) { while_any = cs }
only until_any cs s = record (unconditional s) { until_any = cs }
only until_all cs s = record (unconditional s) { until_all = cs }

unless_loop-not : (cs : List String) → unless_loop cs ≡ not (if_any_loop cs)
unfolding unless_loop if_any_loop
unless_loop-not [] = refl
unless_loop-not (c ∷ cs) = elim (Bool-cases (is_truthy c)) [
  | inl e ↦ rw (unless_loop, if_any_loop, e) refl
  | inr e ↦ rw (unless_loop, if_any_loop, e) (unless_loop-not cs)
]

unless_all_loop-not : (cs : List String) → unless_all_loop cs ≡ not (if_loop cs)
unfolding unless_all_loop if_loop
unless_all_loop-not [] = refl
unless_all_loop-not (c ∷ cs) = elim (Bool-cases (is_truthy c)) [
  | inl e ↦ rw (unless_all_loop, if_loop, e) (unless_all_loop-not cs)
  | inr e ↦ rw (unless_all_loop, if_loop, e) refl
]

until_loop-negate :
    (env : Env) (env_data : Fields) (cs : List String)
    → until_loop env env_data cs ≡ negate (while_any_loop env env_data cs)
unfolding until_loop while_any_loop
until_loop-negate env env_data [] = refl
until_loop-negate env env_data (c ∷ cs) = elim (Outcome-cases (env.interpolate_str c env_data)) [
  | inr (f, p) ↦ rw p refl
  | inl (c', p) ↦ elim (Bool-cases (is_truthy c')) [
    | inl e ↦ rw (p, e) refl
    | inr e ↦ rw (p, e) (until_loop-negate env env_data cs)
  ]
]

until_all_loop-negate :
    (env : Env) (env_data : Fields) (cs : List String)
    → until_all_loop env env_data cs ≡ negate (while_loop env env_data cs)
unfolding until_all_loop while_loop
until_all_loop-negate env env_data [] = refl
until_all_loop-negate env env_data (c ∷ cs) =
    elim (Outcome-cases (env.interpolate_str c env_data)) [
      | inr (f, p) ↦ rw p refl
      | inl (c', p) ↦ elim (Bool-cases (is_truthy c')) [
        | inl e ↦ rw (p, e) (until_all_loop-negate env env_data cs)
        | inr e ↦ rw (p, e) refl
      ]
    ]

module _ (env : Env) (w : Session) (s : Settings) (steps threads : Branches) (msg : Message) where
  -- The session with the given conditions alone.
  abbrev pub having : Kind → List String → Session
  having k cs = record w { flow = workflow (only k cs s) steps threads }

  -- For every list of conditions with an entry, in a workflow that has no other condition: Unless
  -- gives the negation of what IfAny gives, UnlessAll that of If, Until that of WhileAny, and
  -- UntilAll that of While; a panic of the interpolation is the same in both.
  pub duality :
      (c : String) (cs : List String)
      → (check_condition env (having unless_any (c ∷ cs))
          ≡ negate (check_condition env (having if_any (c ∷ cs))))
        × (check_condition env (having unless_all (c ∷ cs))
            ≡ negate (check_condition env (having if_all (c ∷ cs))))
        × (check_loop_condition env (having until_any (c ∷ cs)) msg
            ≡ negate (check_loop_condition env (having while_any (c ∷ cs)) msg))
        × (check_loop_condition env (having until_all (c ∷ cs)) msg
            ≡ negate (check_loop_condition env (having while_all (c ∷ cs)) msg))
  unfolding check_condition check_loop_condition build_env_data
  duality c cs = (
    ap done (unless_loop-not (c ∷ cs)),
    ap done (unless_all_loop-not (c ∷ cs)),
    until_loop-negate env (build_env_data w msg) (c ∷ cs),
    until_all_loop-negate env (build_env_data w msg) (c ∷ cs),
  )
