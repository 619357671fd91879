-- ===== src/Workflow/Execute.antt =====
-- internal/workflow/execute.go: how a session begins, a round of its loop and the items of its list.
-- `again` is continueExec, which a workflow that does nothing calls at once, `start` creates and
-- executes a child session, and `act` is executeAction.
pub mod Saved
use Prim.Native.String.{◌++◌ as str_append}
use honeydipper.Common.{
  ℕ, zero, suc, ◌+◌, is_some, Bool, true, false, not, ◌&&◌, ◌||◌, Option, none, some, List, [], ◌∷◌,
  String, str_eq, ltb, ◌==◌, if◌then◌else◌,
}
use honeydipper.Common.Int.{pos, negsuc}
use honeydipper.Outcome.{Outcome, done, panic, Fault, nil_map, workflow_error, reflect_misuse}
use honeydipper.Text.{is_empty}
use honeydipper.Text.Number.{atoi}
use honeydipper.Value.{Value, null, int, str, list, Fields, get, put, is_null, item_at}
use honeydipper.Dipper.IdMap.{id_map_put}
use honeydipper.Dipper.MapData.{must_number}
use honeydipper.Workflow.Types.{
  Session, Settings, Message, Env, Child, Store, settings, status, continue_session, run_round,
  run_else, run_item, or_end,
}
use honeydipper.Workflow.Handler.{Handler, self, update, perform, lift, skip, when, ◌>>=◌, ◌>>◌}
use honeydipper.Workflow.Predicates.{is_loop, is_iteration, len_of_iterate, reflect_len}
use honeydipper.Workflow.Conditions.{check_condition, check_loop_condition}
use honeydipper.Workflow.Hooks.{fire_hook}

-- Success
abbrev pub success : Message
success = record { channel = ""; subject = ""; labels = ("status", "success") ∷ []; payload = null }

-- m[key] = value panics on a nil map.
abbrev set_in : String → Value → Option Fields → Outcome (Option Fields)
set_in key value none = panic nil_map
set_in key value (some fs) = done (some (put key value fs))

abbrev pub set_ctx : String → Value → Handler (Unit {0})
set_ctx key value = do
  w ← self
  ctx ← lift (set_in key value w.ctx)
  update (λ u. record u { ctx = ctx })

-- A hook that runs holds the rest back.
abbrev pub unless_hooked : Handler (Unit {0}) → Handler (Unit {0})
unless_hooked m = do w ← self; if is_empty w.current_hook then m else skip

-- save: a session without an ID gets one. A full store keeps the program in the loop of IDMapPut.
abbrev put_session : Session → Store → Outcome (String × Store)
put_session w t = elim (id_map_put w.address t.sessions) [
  | none ↦ panic Fault.out_of_fuel
  | some (key, sessions) ↦ done (key, record t { sessions = sessions })
]

unfoldable pub save : Handler (Unit {0})
save s =
    if is_empty s.self.id
    then elim (put_session s.self s.store) [
      | done (key, t) ↦ (done tt, record { self = record s.self { id = key }; store = t })
      | panic e ↦ (panic e, s)
    ]
    else (done tt, s)

-- reflect.Value.Index, on a list.
abbrev pub item_of : ℕ → Value → Outcome Value
item_of i (list xs) = elim (item_at i xs) [ none ↦ panic reflect_misuse | some v ↦ done v ]
item_of i v = panic reflect_misuse

module _ (env : Env) (start : Child → Handler (Unit {0})) (act : Message → Handler (Unit {0})) where
  -- A session that starts anew has no resume token yet.
  abbrev new_token : Session → String
  new_token w =
      str_append env.daemon_id
        (str_append "/" (str_append (settings w.flow).name (str_append "/" w.id)))

  abbrev give_token : Session → Session
  give_token w =
      if is_some (get "resume_token" (or_end w.ctx))
      then w
      else record w { ctx = some (put "resume_token" (str (new_token w)) (or_end w.ctx)) }

  -- Fires a hook, and goes on unless a hook runs.
  abbrev hooked : String → Message → Handler (Unit {0}) → Handler (Unit {0})
  hooked name msg m = do fire_hook start name msg; unless_hooked m

  abbrev set_current : Settings → Value → Handler (Unit {0})
  set_current wf item = do
    set_ctx "current" item
    when (not (is_empty wf.iterate_as)) (set_ctx wf.iterate_as item)

  -- launchIteration
  unfoldable pub launch_iteration : Message → Handler (Unit {0})
  unfolding fire_hook
  launch_iteration msg = do
    w ← self
    let wf = settings w.flow
    item ← lift (item_of w.iteration wf.iterate)
    set_current wf item
    if w.loop_count == 0 && w.iteration == 0
        then hooked "on_first_item" msg (hooked "on_item" msg (act msg))
        else hooked "on_item" msg (act msg)

  -- The number of items that run at the same time; a pool has to be a positive number.
  unfoldable pub pool_count : Settings → ℕ → Outcome ℕ
  pool_count wf n =
      if is_empty wf.iterate_pool then done n else elim (must_number (atoi wf.iterate_pool)) [
        | done (pos k) ↦
            if k == 0 || n == 0 then panic workflow_error else done (if ltb k n then k else n)
        | done (negsuc k) ↦ panic workflow_error
        | panic e ↦ panic e
      ]

  abbrev pub launch_items : ℕ → ℕ → ℕ → Handler (Unit {0})
  launch_items address i zero = skip
  launch_items address i (suc k) = do perform (run_item address i); launch_items address (i + 1) k

  -- launchParallelIterations
  unfoldable pub launch_parallel_iterations : Message → Handler (Unit {0})
  unfolding pool_count
  launch_parallel_iterations msg = do
    w ← self
    let wf = settings w.flow
    n ← lift (reflect_len wf.iterate_parallel)
    k ← lift (pool_count wf n)
    update (λ u. record u { orig_msg = some msg })
    launch_items w.address 0 k

  -- executeIteration
  unfoldable pub execute_iteration : Message → Handler (Unit {0})
  unfolding launch_iteration launch_parallel_iterations is_iteration
  execute_iteration msg = do
    w ← self
    let wf = settings w.flow
    if not (is_iteration wf) then act msg else do
      update (λ u. record u { current = 0 })
      if not (is_null wf.iterate) then launch_iteration msg else launch_parallel_iterations msg

  abbrev begin_items : Message → Handler (Unit {0})
  begin_items msg = do update give_token; execute_iteration msg

  abbrev begin_round : Message → Handler (Unit {0})
  begin_round msg = do update (λ u. record u { iteration = 0; current = 0 }); begin_items msg

  -- executeRound
  unfoldable pub execute_round : Message → Handler (Unit {0})
  unfolding execute_iteration is_loop
  execute_round msg = do
    w ← self
    if not (is_loop (settings w.flow)) then begin_items msg else do
      set_ctx "loop_count" (int (pos w.loop_count))
      if w.loop_count == 0
          then hooked "on_first_round" msg (hooked "on_round" msg (begin_round msg))
          else hooked "on_round" msg (begin_round msg)

module _ (again : Message → List Fields → Handler (Unit {0})) where
  -- noop
  unfoldable pub noop : Message → Handler (Unit {0})
  noop msg = do
    w ← self
    let msg' = if str_eq (status msg) "success" then msg else success
    if not (is_empty w.id) then again msg' [] else perform (continue_session w.parent msg' [])

  abbrev noop_for_parent : Message → Handler (Unit {0})
  noop_for_parent msg = do w ← self; if is_empty w.parent then skip else noop msg
  -- A session without an ID is saved in a goroutine first, which runs the round.

module _ (env : Env) (start : Child → Handler (Unit {0}))
    (again : Message → List Fields → Handler (Unit {0})) (act : Message → Handler (Unit {0})) where
  abbrev begin : Message → Handler (Unit {0})
  begin msg = do
    update (λ u. record u { loop_count = 0 })
    w ← self
    if is_empty w.id then perform (run_round w.address msg) else execute_round env start act msg

  abbrev has_items : Settings → Outcome Bool
  has_items wf =
      if is_iteration wf
      then elim (len_of_iterate wf) [ done n ↦ done (ltb 0 n) | panic e ↦ panic e ]
      else done true

  abbrev take_else : Value → Message → Handler (Unit {0})
  take_else null msg = noop_for_parent again msg
  take_else branch msg = do
    flow ← lift (env.decode branch)
    update (λ u. record u { taken_else = some flow })
    w ← self
    perform (run_else w.address flow msg)

  abbrev both_conditions : Session → Message → Outcome Bool
  both_conditions w msg = elim (check_condition env w) [
    | done true ↦ check_loop_condition env w msg
    | done false ↦ done false
    | panic e ↦ panic e
  ]

  -- execute
  unfoldable pub execute : Message → Handler (Unit {0})
  unfolding noop execute_round check_condition check_loop_condition
  execute msg = do
    fire_hook start "on_session" msg
    unless_hooked do
      w ← self
      b ← lift (both_conditions w msg)
      if not b then take_else (settings w.flow).else_branch msg else do
        some_items ← lift (has_items (settings w.flow))
        if some_items then begin msg else noop_for_parent again msg
