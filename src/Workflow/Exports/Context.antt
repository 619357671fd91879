-- ===== src/Workflow/Exports/Context.antt =====
-- What merging exports into the context of a session leaves as it was (mergeContext).
use honeydipper.Common.{◌≢◌, subst, Option, List, [], ◌∷◌, ◌≡◌, refl, ap, inl, inr}
use honeydipper.Outcome.{Fault, Outcome, done, panic, Outcome-cases}
use honeydipper.Value.{Fields, obj}
use honeydipper.Workflow.Types.{Session, Env, State}
use honeydipper.Workflow.Exports.{
  settings, process_no_export, append_export, take_export, merge_context,
}

-- The two are at the same place of the same workflow.
pub record Kept (w u : Session) : Type 0 where
  pub flow : u.flow ≡ w.flow
  pub else_branch : u.taken_else ≡ w.taken_else
  pub hook : u.current_hook ≡ w.current_hook
  pub current : u.current ≡ w.current
  pub iteration : u.iteration ≡ w.iteration
  pub iteration_out : u.iteration_out ≡ w.iteration_out

Kept-refl : (w : Session) → Kept w w
Kept-refl w = record {
  flow = refl;
  else_branch = refl;
  hook = refl;
  current = refl;
  iteration = refl;
  iteration_out = refl;
}

panic≢done :
    {A : Type 0} {s t : State} {a : A} {e : Fault}
    → ◌≢◌ {A = Outcome A × State} (panic e, s) (done a, t)
panic≢done h = cc

module _ (env : Env) where
  abbrev merged : Option Fields → Fields → State → State
  merged ctx export s = record s {
    self = record s.self {
      ctx = ctx;
      exported =
          append_export s.self.exported (process_no_export (settings s.self.flow).no_export export);
    };
  }

  pub merge_context-Kept :
      (exports : List Fields) (s u : State)
      → merge_context env exports s ≡ (done tt, u)
      → Kept s.self u.self
  unfolding merge_context take_export
  merge_context-Kept [] s u h = subst (λ t. Kept s.self t.self) (ap (λ p. p.1) h) (Kept-refl s.self)
  merge_context-Kept (export ∷ exports) s u h =
      elim (Outcome-cases (env.merge_map s.self.ctx (obj export))) [
        | inr (e, p) ↦ absurd (panic≢done (rw (merge_context, p) at h))
        | inl (ctx, p) ↦
            let k =
              merge_context-Kept exports (merged ctx export s) u (rw (merge_context, p) at h) in
            record {
              flow = k.flow;
              else_branch = k.else_branch;
              hook = k.hook;
              current = k.current;
              iteration = k.iteration;
              iteration_out = k.iteration_out;
            }
      ]

  -- Exports can be merged into any context.
  abbrev pub Mergeable : Type 0
  Mergeable =
      (ctx : Option Fields) (fs : Fields)
      → (r : Option Fields) × (env.merge_map ctx (obj fs) ≡ done r)

  pub merge_context-done :
      (exports : List Fields) (s : State)
      → Mergeable
      → (u : State) × (merge_context env exports s ≡ (done tt, u))
  unfolding merge_context take_export
  merge_context-done [] s h = (s, refl)
  merge_context-done (export ∷ exports) s h =
      let (ctx, p) = h s.self.ctx export in
      let (u, e) = merge_context-done exports (merged ctx export s) h in
      (u, rw (merge_context, p) e)
