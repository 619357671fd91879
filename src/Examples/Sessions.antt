-- ===== src/Examples/Sessions.antt =====
-- Sessions of small workflows.
use honeydipper.Common.{
  arith, true, Option, none, some, List, [], ◌∷◌, String, ◌≡◌, ◌≢◌, refl, str_eq,
}
use honeydipper.Common.Assoc.{lookup}
use honeydipper.Outcome.{Outcome, done, panic, Fault, type_assertion}
use honeydipper.Text.Number.{atoi}
use honeydipper.Value.{Value, null, str, list, obj, nil, cons, Fields, end, field, get, put}
use honeydipper.Dipper.Condition.{negate}
use honeydipper.Dipper.IdMap.{id_map_get}
use honeydipper.Dipper.MapData.{get_map_data, walk, step}
use honeydipper.Text.Split.{split}
use honeydipper.Workflow.Types.{
  Session, Workflow, workflow, Branches, unset, given, also, stop, Message, Env, Store, State,
  Child, run_item,
}
use honeydipper.Workflow.Handler.{Handler, skip, ◌>>◌}
use honeydipper.Workflow.Hooks.{blank}
use honeydipper.Workflow.Conditions.{check_condition, check_loop_condition}
use honeydipper.Workflow.Conditions.Duality.{
  duality, having, if_any, if_all, unless_any, unless_all, while_any, while_all, until_any,
  until_all,
}
use honeydipper.Workflow.Exports.{merge_context, process_no_export, process_export}
use honeydipper.Workflow.Exports.Hidden.{get-process_no_export}
use honeydipper.Workflow.Continue.{next_thread, next_complete}
use honeydipper.Workflow.Continue.Threads.{routes, routes-threads, WaitsForThreads}
use honeydipper.Workflow.Complete.{complete}
use honeydipper.Workflow.Complete.Leaves.{complete-Left, Left}
use honeydipper.Workflow.Session.{new_session}
use honeydipper.Workflow.Wait.{start_wait}
use honeydipper.Workflow.Wait.Keeps.{start_wait-keeps}
use honeydipper.Workflow.Run.{continue_once}
use honeydipper.Workflow.Run.Steps.{RunsSteps, continue_once-steps, next_or_end, timer_off}
use honeydipper.Workflow.Run.Pool.{HasPool, pool-starts, returns}
use honeydipper.Workflow.Execute.{launch_parallel_iterations}
use honeydipper.Workflow.Store.{new_store, resume}
use honeydipper.Dipper.IdMap.Fresh.{IsValid}
use honeydipper.Workflow.Store.Once.{resume_once}

program : Unit {0}
unfolding new_session lookup process_export complete id_map_get atoi get put get_map_data walk split
    step
program = tt

-- Interpolation that leaves everything as it is, and merging that overrides.
abbrev pub overlay : Fields → Fields → Fields
overlay dst end = dst
overlay dst (field k v fs) = overlay (put k v dst) fs

abbrev pub merge : Option Fields → Value → Outcome (Option Fields)
merge dst null = done dst
merge none (obj fs) = done (some (overlay end fs))
merge (some dst) (obj fs) = done (some (overlay dst fs))
merge dst v = panic Fault.merge_failed

abbrev pub env : Env
env = record {
  interpolate = λ v d. done v;
  interpolate_str = λ s d. done s;
  merge_map = merge;
  export_function = λ f d. done (none, d);
  re_match = str_eq;
  decode = λ v. panic type_assertion;
  is_duration = λ s. true;
  describe = λ e. "panic";
  daemon_id = "daemon";
  contexts = end;
  named_workflow = λ s. none;
}

abbrev pub leaf : Workflow
leaf = workflow blank unset unset

abbrev pub two : Branches
two = given (also leaf (also leaf stop))

abbrev pub message : String → Message
message s = record { channel = ""; subject = ""; labels = ("status", s) ∷ []; payload = null }

-- The session `1` at address 0, a child of `9`.
abbrev session : Workflow → Session
session flow = record (new_session 0 "9" "event" flow) {
  id = "1";
  ctx = some (field "resume_token" (str "t1") end);
}

abbrev store : Store
store = record new_store {
  sessions = record { entries = ("1", 0) ∷ []; counter = 2 };
  suspended = ("t0", "7") ∷ [];
}

abbrev running : Workflow → State
running flow = record { self = session flow; store = store }

abbrev start : Child → Handler (Unit {0})
start c = skip

abbrev by_name : String → Message → Handler (Unit {0})
by_name name msg = skip

abbrev again : Message → List Fields → Handler (Unit {0})
again msg exports = skip

get-process_no_export_example :
    get "token-" (process_no_export ("token" ∷ []) (field "token-" null (field "name" null end)))
    ≡ none
get-process_no_export_example =
    get-process_no_export ("token" ∷ []) "token-" (field "token-" null (field "name" null end))

threads-WaitsForThreads : WaitsForThreads 2 (session (workflow blank unset two))
unfolding program
threads-WaitsForThreads = record {
  no_else = refl;
  no_steps = refl;
  threads = refl;
  no_items = refl;
  sequential = refl;
  no_loop = refl;
}

routes-threads_example :
    (routes env (message "success" ∷ message "failure" ∷ []) (running (workflow blank unset two))).0
    ≡ done (next_thread ∷ next_complete ∷ [])
unfolding program
routes-threads_example =
    routes-threads env 1 (message "success") (message "failure" ∷ [])
      (running (workflow blank unset two)) threads-WaitsForThreads refl (refl, (refl, tt))

-- The second of two steps starts after the first one, and after an error none does.
abbrev steps_state : State
steps_state = running (workflow blank two unset)

steps-RunsSteps : RunsSteps (session (workflow blank two unset))
unfolding program
steps-RunsSteps = record {
  no_else = refl;
  no_threads = refl;
  no_items = refl;
  sequential = refl;
  no_loop = refl;
}

abbrev one_export : List Fields
one_export = field "result" (str "ok") end ∷ []

-- The session after the export of the step that has returned.
abbrev merged_state : State
merged_state =
    (merge_context env one_export (timer_off env start by_name by_name again steps_state)).1

continue_once-steps_example :
    continue_once env start by_name by_name again (message "success") one_export steps_state
    ≡ next_or_end env start by_name by_name again (some leaf) (message "success") merged_state
unfolding program merge_context
continue_once-steps_example =
    continue_once-steps env start by_name by_name again (message "success") one_export steps_state
      merged_state steps-RunsSteps refl refl refl

-- After the exports the session is as it was, but for the saved message.
abbrev exported_state : State
exported_state = record (running leaf) {
  self = record (session leaf) { saved_msg = some (message "success") };
}

complete-Left_example :
    Left
      (running leaf)
      exported_state.self
      (message "success")
      (complete env start (message "success") (running leaf)).1
unfolding program
complete-Left_example =
    complete-Left env start (message "success") (message "success") (running leaf) exported_state
      refl refl refl refl refl

abbrev parallel : Workflow
parallel =
    workflow
      (record blank {
        iterate_parallel = list (cons (str "a") (cons (str "b") (cons (str "c") nil)));
        iterate_pool = "2";
      })
      unset unset

abbrev unpooled : Workflow
unpooled =
    workflow
      (record blank {
        iterate_parallel = list (cons (str "a") (cons (str "b") (cons (str "c") nil)));
      })
      unset unset

parallel-HasPool : HasPool 2 3 (session parallel)
unfolding program
parallel-HasPool = record { named = refl; size = refl; items = refl; parallel = refl }

pool-starts_example :
    ((launch_parallel_iterations env start (λ msg. skip) (message "success")
        >> returns env start (λ msg. skip) by_name by_name again 2)
      (running parallel)).1.store.effects
    ≡ run_item 0 0 ∷ run_item 0 1 ∷ run_item 0 2 ∷ []
unfolding program
pool-starts_example =
    pool-starts env start (λ msg. skip) by_name by_name again 1 2 (message "success")
      (running parallel) parallel-HasPool refl

start_wait-keeps_example : lookup "t0" (start_wait env (running leaf)).1.store.suspended ≡ some "7"
unfolding program
start_wait-keeps_example = start_wait-keeps env (running leaf) "t0" "7" refl

resume_once_example :
    (resume "t0" (message "error") (resume "t0" (message "success") store)
      ≡ resume "t0" (message "success") store)
    × ((other : String)
        → "t0" ≢ other
        → lookup other (resume "t0" (message "success") store).suspended
          ≡ lookup other store.suspended)
resume_once_example = resume_once "t0" (message "success") (message "error") store

duality_example :
    (check_condition env
        (having env (session leaf) blank unset unset (message "success") unless_any ("1" ∷ []))
      ≡ negate (
          check_condition env
            (having env (session leaf) blank unset unset (message "success") if_any ("1" ∷ []))))
    × (check_condition env
          (having env (session leaf) blank unset unset (message "success") unless_all ("1" ∷ []))
        ≡ negate (
            check_condition env
              (having env (session leaf) blank unset unset (message "success") if_all ("1" ∷ []))))
    × (check_loop_condition env
          (having env (session leaf) blank unset unset (message "success") until_any ("1" ∷ []))
          (message "success")
        ≡ negate (
            check_loop_condition env
              (having env (session leaf) blank unset unset (message "success") while_any ("1" ∷ []))
              (message "success")))
    × (check_loop_condition env
          (having env (session leaf) blank unset unset (message "success") until_all ("1" ∷ []))
          (message "success")
        ≡ negate (
            check_loop_condition env
              (having env (session leaf) blank unset unset (message "success") while_all ("1" ∷ []))
              (message "success")))
duality_example = duality env (session leaf) blank unset unset (message "success") "1" []

-- A child that is not saved yet, beside a session that is.
abbrev unsaved : State
unsaved = record (running leaf) { self = record (session leaf) { address = 1; id = "" } }

store-IsValid : IsValid store.sessions
store-IsValid = record { in_range = omega arith }
