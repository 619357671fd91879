-- ===== src/Workflow/Store.antt =====
-- internal/workflow/store.go: the session store.
pub mod Once
pub mod Queries
use Prim.Native.String.{◌++◌ as str_append}
use honeydipper.Common.{
  ℕ, zero, suc, Bool, true, false, ◌&&◌, Option, none, some, is_some, List, [], ◌∷◌, ◌++◌, String,
  str_eq, if◌then◌else◌, length,
}
use honeydipper.Common.Assoc.{Assoc, lookup, delete, insert}
use honeydipper.Outcome.{Outcome, done, panic, Fault, type_assertion}
use honeydipper.Text.{is_empty}
use honeydipper.Value.{Value, null, str, obj, Fields, end, field, get, put}
use honeydipper.Dipper.IdMap.{IdMap, empty, id_map_get}
use honeydipper.Dipper.MapData.{get_map_data, must_get_map_data}
use honeydipper.Workflow.Types.{
  Session, Settings, Workflow, Message, Env, Store, State, Effect, settings, label,
  continue_session as to_continue, emit_result,
}
use honeydipper.Workflow.Handler.{
  Handler, self, update, update_store, perform, lift, skip, raise, rescue, ◌>>=◌, ◌>>◌,
}
use honeydipper.Workflow.Complete.{on_error}
use honeydipper.Workflow.Session.{new_session}
use honeydipper.Workflow.Prepare.{prepare}
use honeydipper.Workflow.Children.{run_child, execute_session, continue_exec, write_back}
use honeydipper.Workflow.Spawn.{safe, guarded}

-- NewSessionStore
abbrev pub new_store : Store
new_store = record { sessions = empty; suspended = []; heap = []; effects = [] }

abbrev pub session_at : ℕ → List Session → Option Session
session_at i [] = none
session_at zero (w ∷ ws) = some w
session_at (suc i) (w ∷ ws) = session_at i ws

-- A handler runs on the session at an address, which is written back.
abbrev pub finished : Outcome (Unit {0}) × State → Store
finished r = write_back r.1.self r.1.store

unfoldable pub run_at : ℕ → Handler (Unit {0}) → Store → Store
run_at address m t = elim (session_at address t.heap) [
  | none ↦ t
  | some w ↦ finished (m (record { self = w; store = t }))
]

abbrev pub emit : Effect → Store → Store
emit e t = record t { effects = t.effects ++ e ∷ [] }

-- mapstructure.Decode into map[string]string: every label is a text, or nothing is taken.
abbrev as_labels : Fields → Option (Assoc String)
as_labels end = some []
as_labels (field key (str value) fs) = elim (as_labels fs) [
  | none ↦ none
  | some labels ↦ some ((key, value) ∷ labels)
]
as_labels (field key value fs) = none

abbrev pub resume_labels : Option Value → Assoc String
resume_labels (some (obj fs)) = elim (as_labels fs) [ none ↦ [] | some labels ↦ labels ]
resume_labels v = []

abbrev or_null : Option Value → Value
or_null none = null
or_null (some v) = v

abbrev pub resumed_message : Message → Message
resumed_message msg = record {
  channel = "";
  subject = "return";
  labels = resume_labels (get_map_data msg.payload "labels");
  payload = or_null (get_map_data msg.payload "payload");
}

-- ResumeSession: a token is used once.
abbrev pub resume_with : Option String → String → Message → Store → Store
resume_with none token msg t = t
resume_with (some id) token msg t =
    emit (to_continue id (resumed_message msg) [])
      (record t { suspended = delete token t.suspended })

unfoldable pub resume : String → Message → Store → Store
resume token msg t = resume_with (lookup token t.suspended) token msg t

-- The sessions in the order of their entries.
abbrev pub all_sessions : Assoc ℕ → List Session → List Session
all_sessions [] heap = []
all_sessions ((id, address) ∷ rest) heap = elim (session_at address heap) [
  | none ↦ all_sessions rest heap
  | some w ↦ w ∷ all_sessions rest heap
]

abbrev pub keep : (Session → Bool) → List Session → List Session
keep test [] = []
keep test (w ∷ ws) = let rest = keep test ws in if test w then w ∷ rest else rest

-- ByEventID and GetEvents
abbrev pub by_event_id : String → Store → List Session
by_event_id event_id t =
    keep (λ w. is_empty w.parent && str_eq w.event_id event_id)
      (all_sessions t.sessions.entries t.heap)

abbrev pub get_events : Store → List Session
get_events t = keep (λ w. is_empty w.parent) (all_sessions t.sessions.entries t.heap)

-- Len
abbrev pub len : Store → ℕ
len t = length t.sessions.entries

module _ (env : Env) (fuel : ℕ) where
  -- ContinueSession: an ID that is not in the store is a failed type assertion, which is recovered.
  unfoldable pub continue_session : String → Message → List Fields → Store → Store
  unfolding run_at on_error continue_exec
  continue_session id msg exports t = elim (id_map_get id t.sessions) [
    | none ↦ t
    | some address ↦ run_at address (guarded env fuel (continue_exec env fuel msg exports)) t
  ]

  abbrev begin : Message → Option Fields → Handler (Unit {0})
  unfolding prepare
  begin msg ctx = do prepare env msg none ctx; execute_session env fuel msg

  abbrev create : Message → Workflow → Handler (Unit {0}) → Store → Outcome (Unit {0}) × State
  unfolding new_session
  create msg flow m t =
      let w = new_session (length t.heap) "" (label "eventID" msg) flow in
      m (record { self = w; store = record t { heap = t.heap ++ w ∷ [] } })

  -- StartSession; the session of the main loop is watched.
  unfoldable pub start_session : Workflow → Message → Option Fields → Store → Store
  unfolding begin create
  start_session flow msg ctx t = finished (
      create msg flow
        (do
          update (λ w. record w { watched = str_eq (settings flow).call_workflow "reserved/main" })
          safe (begin msg ctx))
        t)

  abbrev with_output : Value → Outcome Fields
  with_output (obj fs) =
      done (if is_some (get "_output" fs) then fs else put "_output" (obj end) fs)
  with_output v = panic type_assertion

  abbrev dynamic_ctx : Message → Outcome Fields
  dynamic_ctx msg = elim (must_get_map_data msg.payload "data") [
    | done v ↦ with_output v
    | panic e ↦ panic e
  ]

  abbrev creation_error : Fault → Fields
  creation_error e =
      field "status" (str "error")
        (field "error" (str (str_append "creating session: " (env.describe e))) end)

  -- A panic is the result of a dynamic session.
  abbrev or_emit : Message → Handler (Unit {0}) → Handler (Unit {0})
  or_emit msg m = rescue m (λ e. perform (emit_result (label "eventID" msg) (creation_error e)))

  -- StartDynamicSession
  unfoldable pub start_dynamic_session : Message → Value → Store → Store
  unfolding begin create
  start_dynamic_session msg data_in t = elim (env.decode data_in) [
    | panic e ↦ emit (emit_result (label "eventID" msg) (creation_error e)) t
    | done flow ↦ elim (dynamic_ctx msg) [
      | panic e ↦ emit (emit_result (label "eventID" msg) (creation_error e)) t
      | done ctx ↦ finished (create msg flow (or_emit msg (begin msg (some ctx))) t)
    ]
  ]
