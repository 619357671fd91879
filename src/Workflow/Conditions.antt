-- ===== src/Workflow/Conditions.antt =====
-- internal/workflow/condition.go: whether a workflow runs at all, and whether a loop goes on.
pub mod Duality
use honeydipper.Common.{
  ℕ, ◌<◌, Bool, true, false, not, ◌&&◌, ◌||◌, Option, none, some, List, [], ◌∷◌, String, ltb,
  length, if◌then◌else◌, all, any, map,
}
use honeydipper.Outcome.{Outcome, done, panic, reflect_misuse, ◌>>=◌}
use honeydipper.Text.{codes, codes_eq, trim_space, to_lower}
use honeydipper.Value.{Value, null, obj, Fields, is_null}
use honeydipper.Dipper.Condition.{compare_all, negate}
use honeydipper.Workflow.Types.{Session, Settings, Message, Env, settings, build_env_data, or_end}
use honeydipper.Workflow.Predicates.{is_listed, reflect_len}

-- isTruthy: the texts that stand for false, whatever their case and the space around them.
unfoldable pub is_truthy : String → Bool
unfolding trim_space to_lower
is_truthy s =
    let c = map to_lower (trim_space (codes s)) in
    not (
      codes_eq c []
      || codes_eq c (codes "false")
      || codes_eq c (codes "nil")
      || codes_eq c (codes "0")
      || codes_eq c (codes "{}")
      || codes_eq c (codes "[]")
      || codes_eq c (codes "<no value>"))

-- The four loops of checkCondition. If: the first condition that is false decides.
unfoldable pub if_loop : List String → Bool
if_loop [] = true
if_loop (c ∷ cs) = if not (is_truthy c) then false else if_loop cs

-- IfAny
unfoldable pub if_any_loop : List String → Bool
if_any_loop [] = false
if_any_loop (c ∷ cs) = if is_truthy c then true else if_any_loop cs

-- Unless
unfoldable pub unless_loop : List String → Bool
unless_loop [] = true
unless_loop (c ∷ cs) = if is_truthy c then false else unless_loop cs

-- UnlessAll
unfoldable pub unless_all_loop : List String → Bool
unless_all_loop [] = false
unless_all_loop (c ∷ cs) = if not (is_truthy c) then true else unless_all_loop cs

module _ (env : Env) where
  -- `dipper.CompareAll(w.ctx, criterion)`: a nil context is a map without entries.
  abbrev match_ctx : Session → Value → Outcome Bool
  match_ctx w criterion = compare_all env.re_match criterion (obj (or_end w.ctx))

  abbrev unless_matched : Session → Value → Outcome Bool
  unless_matched w criterion = do
    n ← reflect_len criterion
    if ltb 0 n then negate (match_ctx w criterion) else done true

  -- checkCondition
  unfoldable pub check_condition : Session → Outcome Bool
  unfolding if_loop if_any_loop unless_loop unless_all_loop
  check_condition w =
      let wf = settings w.flow in
      if is_listed wf.if_all
      then done (if_loop wf.if_all)
      else if is_listed wf.if_any
      then done (if_any_loop wf.if_any)
      else if is_listed wf.unless_any
      then done (unless_loop wf.unless_any)
      else if is_listed wf.unless_all
      then done (unless_all_loop wf.unless_all)
      else if not (is_null wf.if_match)
      then match_ctx w wf.if_match
      else if not (is_null wf.unless_match)
      then unless_matched w wf.unless_match
      else done true

  -- The four loops of checkLoopCondition, which interpolate the conditions one by one until the
  -- answer is known. While:
  unfoldable pub while_loop : Fields → List String → Outcome Bool
  while_loop env_data [] = done true
  while_loop env_data (c ∷ cs) = do
    c' ← env.interpolate_str c env_data
    if not (is_truthy c') then done false else while_loop env_data cs

  -- WhileAny
  unfoldable pub while_any_loop : Fields → List String → Outcome Bool
  while_any_loop env_data [] = done false
  while_any_loop env_data (c ∷ cs) = do
    c' ← env.interpolate_str c env_data
    if is_truthy c' then done true else while_any_loop env_data cs

  -- Until
  unfoldable pub until_loop : Fields → List String → Outcome Bool
  until_loop env_data [] = done true
  until_loop env_data (c ∷ cs) = do
    c' ← env.interpolate_str c env_data
    if is_truthy c' then done false else until_loop env_data cs

  -- UntilAll
  unfoldable pub until_all_loop : Fields → List String → Outcome Bool
  until_all_loop env_data [] = done false
  until_all_loop env_data (c ∷ cs) = do
    c' ← env.interpolate_str c env_data
    if not (is_truthy c') then done true else until_all_loop env_data cs

  -- UntilMatch: no scenario, or an empty one, lets the loop go on.
  abbrev until_scenario : Session → Value → Outcome Bool
  until_scenario w null = done true
  until_scenario w scenario = unless_matched w scenario

  -- checkLoopCondition
  unfoldable pub check_loop_condition : Session → Message → Outcome Bool
  unfolding while_loop while_any_loop until_loop until_all_loop
  check_loop_condition w msg =
      let wf = settings w.flow in
      let env_data = build_env_data w msg in
      if not (is_null wf.while_match)
      then (do scenario ← env.interpolate wf.while_match env_data; match_ctx w scenario)
      else if not (is_null wf.until_match)
      then (do scenario ← env.interpolate wf.until_match env_data; until_scenario w scenario)
      else if is_listed wf.while_all
      then while_loop env_data wf.while_all
      else if is_listed wf.while_any
      then while_any_loop env_data wf.while_any
      else if is_listed wf.until_any
      then until_loop env_data wf.until_any
      else if is_listed wf.until_all
      then until_all_loop env_data wf.until_all
      else done true
