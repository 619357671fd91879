-- ===== src/Workflow/Types.antt =====
-- The data of internal/workflow: workflows (internal/config/schema.go), messages (pkg/dipper/comm.go),
-- sessions and their store.
use honeydipper.Common.{ℕ, zero, suc, Bool, true, false, Option, none, some, List, [], ◌∷◌, String}
use honeydipper.Common.Assoc.{Assoc, lookup}
use honeydipper.Dipper.IdMap.{IdMap}
use honeydipper.Outcome.{Outcome, Fault}
use honeydipper.Value.{Value, null, str, obj, Fields, end, field}

-- config.Function, as far as sessions read it. A nil map is none.
pub record Function : Type 0 where
  pub driver : String
  pub raw_action : String
  pub target_system : String
  pub target_function : String
  pub parameters : Option Fields

-- config.Workflow without its steps and threads. Fields that are spelled like a keyword of the
-- model's language have a longer name: if_all is If, else_branch is Else.
pub record Settings : Type 0 where
  pub name : String
  pub description : String
  pub context : String
  pub contexts : Value
  pub locals : Value
  pub if_match : Value
  pub unless_match : Value
  pub while_match : Value
  pub until_match : Value
  pub if_all : List String
  pub if_any : List String
  pub unless_any : List String
  pub unless_all : List String
  pub while_all : List String
  pub while_any : List String
  pub until_any : List String
  pub until_all : List String
  pub else_branch : Value
  pub iterate : Value
  pub iterate_parallel : Value
  pub iterate_pool : String
  pub iterate_as : String
  pub retry : String
  pub backoff : String
  pub on_error : String
  pub on_failure : String
  pub call_workflow : String
  pub function : Function
  pub call_function : String
  pub call_driver : String
  pub wait : String
  pub detach : Bool
  pub switch : String
  pub cases : Fields
  pub default_branch : Value
  pub export_always : Fields
  pub export_on_success : Fields
  pub export_on_failure : Fields
  pub export_on_error : Fields
  pub no_export : List String

-- config.Workflow. The steps and the threads are slices: nil, or a list that may be empty.
mutual
  pub data Workflow : Type 0 where
    workflow : Settings → Branches → Branches → Workflow

  pub data Branches : Type 0 where
    unset : Branches
    given : Workflows → Branches

  pub data Workflows : Type 0 where
    also : Workflow → Workflows → Workflows
    stop : Workflows

abbrev pub settings : Workflow → Settings
settings (workflow s steps threads) = s

abbrev pub steps_of : Workflow → Branches
steps_of (workflow s steps threads) = steps

abbrev pub threads_of : Workflow → Branches
threads_of (workflow s steps threads) = threads

abbrev pub count_all : Workflows → ℕ
count_all stop = 0
count_all (also w ws) = suc (count_all ws)

-- len(slice)
abbrev pub branch_count : Branches → ℕ
branch_count unset = 0
branch_count (given ws) = count_all ws

abbrev pub workflow_at : ℕ → Workflows → Option Workflow
workflow_at n stop = none
workflow_at zero (also w ws) = some w
workflow_at (suc n) (also w ws) = workflow_at n ws

abbrev pub branch_at : ℕ → Branches → Option Workflow
branch_at n unset = none
branch_at n (given ws) = workflow_at n ws

-- slice != nil
abbrev pub is_set : Branches → Bool
is_set unset = false
is_set (given ws) = true

-- dipper.Message, as far as sessions read it.
pub record Message : Type 0 where
  pub channel : String
  pub subject : String
  pub labels : Assoc String
  pub payload : Value

-- msg.Labels[key]: a label that is missing reads as the empty text.
abbrev or_empty : Option String → String
or_empty none = ""
or_empty (some s) = s

abbrev pub label : String → Message → String
label key msg = or_empty (lookup key msg.labels)

abbrev pub status : Message → String
status = label "status"

-- workflow.Session. The parent is an ID, and the session's own place in memory is its address.
pub record Session : Type 0 where
  pub address : ℕ
  pub id : String
  pub event_id : String
  pub flow : Workflow
  pub current : ℕ
  pub iteration : ℕ
  pub iteration_out : Option Message
  pub loop_count : ℕ
  pub parent : String
  pub ctx : Option Fields
  pub event : Fields
  pub exported : List Fields
  pub taken_else : Option Workflow
  pub in_fly : Option Function
  pub loaded_contexts : List String
  pub current_hook : String
  pub saved_msg : Option Message
  pub orig_msg : Option Message
  pub performing : String
  pub is_hook : Bool
  -- cancelFunc != nil: somebody watches the session
  pub watched : Bool

-- A child session that a handler creates and executes: its workflow, the message, what is put into
-- its context before it runs, and whether it loses the resume token.
pub record Child : Type 0 where
  pub child_flow : Workflow
  pub child_msg : Message
  pub extra : Fields
  pub drops_token : Bool

-- What a handler hands to goroutines and to the outside.
pub data Effect : Type 0 where
  -- go store.ContinueSession(id, msg, exports)
  continue_session : String → Message → List Fields → Effect
  -- go executeRound / executeHook / the else branch, on the session at this address once it is saved
  run_round : ℕ → Message → Effect
  run_hook : ℕ → String → Message → Value → Effect
  run_else : ℕ → Workflow → Message → Effect
  -- go launchParallelIteration(i); go with one thread of the session at this address
  run_item : ℕ → ℕ → Effect
  run_thread : ℕ → ℕ → Workflow → Message → Effect
  -- go with the timer of a wait: before it is armed, and while it runs
  start_timer : ℕ → String → Effect
  await : ℕ → String → Message → Effect
  -- go child.execute(msg), for a detached child
  run_detached : ℕ → Message → Effect
  -- go store.ResumeSession(token, msg)
  resume_session : String → Message → Effect
  -- Helper.SendMessage and Helper.EmitResult
  send_message : Message → Effect
  emit_result : String → Fields → Effect
  -- cancelFunc, which wakes the watchers
  cancel : Effect

-- workflow.SessionStore, with the effects of the handler that runs, in their order.
pub record Store : Type 0 where
  pub sessions : IdMap ℕ
  pub suspended : Assoc String
  -- the sessions by their address
  pub heap : List Session
  pub effects : List Effect

pub record State : Type 0 where
  pub self : Session
  pub store : Store

abbrev labels_obj : Assoc String → Fields
labels_obj [] = end
labels_obj ((k, v) ∷ m) = field k (str v) (labels_obj m)

-- A nil map is read as an empty one.
abbrev pub or_end : Option Fields → Fields
or_end none = end
or_end (some fs) = fs

abbrev or_map : Value → Value
or_map null = obj end
or_map v = v

-- buildEnvData
unfoldable pub build_env_data : Session → Message → Fields
build_env_data w msg = field "data" (or_map msg.payload) (
    field "labels" (obj (labels_obj msg.labels))
      (field "event" (obj w.event) (field "ctx" (obj (or_end w.ctx)) end)))

-- What the sessions use of other packages: interpolation and merging (pkg/dipper), the export of
-- function contexts (internal/config), regexp, mapstructure, and how a panic reads in a label.
pub record Env : Type 0 where
  pub interpolate : Value → Fields → Outcome Value
  pub interpolate_str : String → Fields → Outcome String
  pub merge_map : Option Fields → Value → Outcome (Option Fields)
  -- ExportFunctionContext also leaves entries in the data that it is given
  pub export_function : Function → Fields → Outcome (Option Fields × Fields)
  pub re_match : String → String → Bool
  pub decode : Value → Outcome Workflow
  -- time.ParseDuration succeeds
  pub is_duration : String → Bool
  pub describe : Fault → String
  pub daemon_id : String
  -- the configuration: DataSet.Contexts, and DataSet.Workflows by name
  pub contexts : Fields
  pub named_workflow : String → Option Workflow
