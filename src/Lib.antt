-- ===== src/Lib.antt =====
-- Honeydipper is an event-driven orchestration daemon: services exchange messages over an event
-- bus, rules map events to workflows, and sessions run the workflows. This library models the part
-- of it that decides what happens: the helpers on maps, conditions, messages and calls that
-- everything else uses, the resolution of triggers and functions, the services with their drivers,
-- and the sessions with their store. The code is in Go. A function that may panic returns an
-- `Outcome`, its value or the reason of the panic.
--
--   Common, Text, Value, Outcome: numbers, maps, texts with the parts of packages strings and strconv
--     that the code uses, and the values of an interface{} as decoded YAML and JSON. A map is a list of
--     entries in the order of a range over it; a lemma that quantifies over the list covers each order.
--   Dipper: pkg/dipper. MapData and LockMap, Copy and Merge are mapUtils.go (GetMapData and its typed
--     forms, LockGetMap, LockSetMap, LockCheckDeleteMap, DeepCopy, MergeMap), Condition is condition.go
--     (Compare, CompareMap, CompareAll), IdMap is idmap.go. Message is comm.go: its child Wire has
--     SendMessage and FetchMessage on the bytes of a stream, Scan what they use of fmt.Fscanln. Command is
--     commandHandler.go: the parent has Return and ReturnError, Attempts the retries, Router the choice of
--     the command and its limits. Rpc is rpc.go: the parent is the caller's side, Provider the other side,
--     Machine the steps that calls and returns take in any order. Interpolate is interpolation.go
--     (InterpolateStr, InterpolateDollarStr, Interpolate), Recursive is Recursive of mapUtils.go.
--   Workflow: internal/workflow.
--     Types: Session of session.go, SessionStore of store.go, and what they read of config.Workflow
--       (internal/config/schema.go) and dipper.Message (pkg/dipper/comm.go).
--     Handler: methods of a session as functions on the session and the store that may panic; what was
--       changed before a panic stays changed, and a deferred recover sees it.
--     Session and Prepare are session.go, Predicates its questions on a workflow, Conditions is
--       condition.go, Hooks is hooks.go.
--     Execute, Wait, Action and Calls are execute.go (execute, executeRound, executeIteration; startWait
--       and its timer; executeAction and what it chooses from; the calls of functions and drivers).
--     Continue, Complete, Exports and Run are continue.go (routeNext; complete and its hooks; the
--       exports; continueAfterHook and continueExec).
--     Children creates children and ties the handlers together, Spawn has the bodies of the goroutines,
--     Store is store.go.
--   Api: internal/api. Requests is the part of store.go and request.go that pairs calls with their ACKs
--     and returns, Responses is response.go and the reply of HandleHTTPRequest. A channel is the phase
--     of the request: a send on a channel that is nil blocks for ever, and the signal says so.
--   Config: internal/config. The parent has the types of schema.go, Collapse is collapsed_trigger.go
--     (CollapseTrigger, ExportContext), Export is function_export.go. Stages is ResetStage and
--     AdvanceStage of config.go with the wait groups of pkg/dipper/sync.go: `enter` up to the unlock
--     before the wait, `proceed` after it. Fleet has the services that call it, as steps in any order.
--     Systems is extendAllSystems of config.go with mergeSystem and addSubsystem.
--   Service: internal/service and internal/driver. Rules is engine.go (buildRuleMap, createSessions),
--     Receiver is receiver.go, Operator is operator.go (collapseFunction, handleEventbusCommand), Drivers
--     is the runtime of a driver and NewDriver, Features is loadFeature of service.go with hotReload and
--     coldReload, Boot its passes over the features (loadRequiredFeatures and the others, Reload) and
--     what is expected of drivers, Messages what a service does with messages, timeouts, closed streams,
--     broadcasts and draining.
--   Drivers: drivers/cmd. Webhook is webhook/main.go: the parent is the extraction of a request
--     (pkg/dipper/web.go), Signature the verification, Handler the options and hookHandler. AuthSimple is
--     auth-simple/main.go. Decides has what both use of tests that may panic.
--   Examples: instances of the theorems, and runs on small inputs; Runs takes a workflow from its start
--     to the result that it emits.
--
-- How the parts work together: a handler works on its own session and on the store, which has the
-- sessions by ID, the tokens of the waits, the sessions by address, and the list of the effects:
-- the goroutines that were started and the messages that were sent. An effect is run later, by
-- `spawn` for a goroutine on a session and by the functions of Store for the others, in any order.
-- The conditions are those of Dipper.Condition, the IDs those of Dipper.IdMap. The engine collapses
-- the triggers of all rules with Config.Collapse and compares events by Dipper.Condition; what it
-- starts are the sessions of Workflow. The operator collapses functions and sends calls to drivers,
-- whose side is Dipper.Command and Dipper.Rpc. A pass of Boot takes the loading of a feature as a
-- parameter, which load_feature of Features fills.
--
-- Fuel: mergeModifier recurses on maps and takes their depth as fuel, which suffices. The scan of
-- IDMapPut has one unit for each of its counters, so that it runs out exactly when the loop would
-- come round to its beginning. Sessions call each other without bound (a `while` that does nothing
-- recurses for ever in the code too), so Children takes fuel, one unit for each nested call. That
-- it runs out is no panic, so no deferred function recovers from it. The theorems on continueExec
-- are about `continue_once`, one call of it, and take what it calls as a parameter, so they hold
-- for any fuel.
--
-- Interpolation takes fuel for each text that leads to another, collapsing for each trigger or
-- function that leads to another, and extending for each system that has another one as its base; all
-- go on for ever in the code when these lead round in a circle.
-- A command is repeated at most as often as its label `retry` says, which is the fuel of its attempts.
--
-- Parameters: what a command or an RPC handler does, whether its timer fires first and whether a
-- second reply comes; encoding/json;
-- interpolation (Go templates, YAML), mergo, regexp, mapstructure, time.ParseDuration
-- and the export of function contexts, all in `Env` or as arguments. int32 counters are numbers
-- without a bound: each is below the length of a list. Locks make the operations under them
-- atomic.
--
-- Also parameters: HMAC, bcrypt, the bytes of a text and the clock; what reflect.DeepEqual says, whether a process starts, and how values are shown.
--
-- Not modelled: that maps and workflows are shared by reference between sessions, but for the
-- context in the data of an interpolation; times, logging and metrics; and the components of the
-- repository besides those above: the other drivers under drivers/cmd, the commands under cmd, the reading
-- of configuration from repositories, logging and cryptography. The header lines of a message on the
-- wire are taken to be ASCII with decimal numbers, as SendMessage writes them for such names.
mod Common
pub mod Text
pub mod Outcome
pub mod Value
pub mod Dipper
pub mod Workflow
pub mod Api
pub mod Config
pub mod Service
pub mod Drivers
mod Examples
