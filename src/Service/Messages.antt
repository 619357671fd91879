-- ===== src/Service/Messages.antt =====
-- internal/service/service.go: what a service does with the messages of its drivers.
use Prim.Native.String.{◌++◌ as str_append}
use honeydipper.Common.{
  ℕ, zero, suc, Bool, true, false, ◌&&◌, Option, none, some, List, [], ◌∷◌, String, str_eq,
  if◌then◌else◌, not, length,
}
use honeydipper.Common.Assoc.{Assoc, lookup, insert, delete, has, read}
use honeydipper.Common.Groups.{or_nil}
use honeydipper.Outcome.{Outcome, done, panic, ◌>>=◌, nil_pointer}
use honeydipper.Value.{Value}
use honeydipper.Dipper.MapData.{get_map_data, is_truthy}
use honeydipper.Dipper.Rpc.{Mail}
use honeydipper.Service.Drivers.{alive, crashed, stopped, is_crashed, is_stopped, Runtime}
use honeydipper.Service.Features.{Service, Loaded, set_state}
use honeydipper.Service.Boot.{
  Timeout, quit, roll_back, mark_crashed, try_again, Expect, Node, report_alive, load_failed_driver,
  retry_driver,
}

-- "%s:%s:%s" of the channel, the subject and the name of the driver.
abbrev pub expect_key : String → String → String → String
expect_key channel subject name =
    str_append channel (str_append ":" (str_append subject (str_append ":" name)))

report_all : List Expect → Node → Node
report_all [] n = n
report_all (e ∷ es) n = report_all es (report_alive e.feature n)

-- process: what was expected is taken off the list, and its functions run.
unfoldable pub meet_expects : String → Node → Node
unfolding report_all
meet_expects key n =
    report_all (or_nil (lookup key n.expects)) (record n { expects = delete key n.expects })

-- process: the key of the responders and the transformers.
abbrev pub message_key : String → String → String
message_key channel subject = str_append channel (str_append ":" subject)

-- The transformers one after the other: one that returns nil ends the way of the message.
unfoldable pub transform : List (Mail → Option Mail) → Mail → Option Mail
transform [] m = some m
transform (f ∷ fs) m = elim (f m) [ none ↦ none | some next ↦ transform fs next ]

-- The messages that the router makes of a message; none: it has not come so far, or there is no
-- router.
abbrev routed_by : Option (Mail → List (String × Mail)) → Option Mail → List (String × Mail)
routed_by none m = []
routed_by (some route) none = []
routed_by (some route) (some m) = route m

unfoldable pub route_message :
    Assoc (List (Mail → Option Mail))
    → Option (Mail → List (String × Mail))
    → Mail
    → List (String × Mail)
route_message transformers route m =
    routed_by route (transform (or_nil (lookup (message_key m.channel m.subject) transformers)) m)

-- The timer of addExpect: the entry that is still expected is not found in a list of several, as the
-- source compares the addresses of two copies; the only one of a list is deleted.
drop_expect : String → List Expect → Node → Node
drop_expect key (e ∷ f ∷ es) n = n
drop_expect key es n = record n { expects = delete key n.expects }

-- except(): a state is set through the map, which panics when the feature is not there.
timed_out : Expect → Node → Timeout → Node
timed_out e n quit = record n { quitting = true }
timed_out e n roll_back =
    if has e.feature (n.service).runtimes
    then record n { service = set_state e.feature crashed n.service; rolled_back = true }
    else n
timed_out e n mark_crashed = record n { service = set_state e.feature crashed n.service }
timed_out e n (try_again d count) = retry_driver d count n

unfoldable pub expect_timeout : String → Expect → Node → Node
unfolding drop_expect timed_out
expect_timeout key e n = elim (lookup key n.expects) [
  | none ↦ n
  | some es ↦ timed_out e (drop_expect key es n) e.on_timeout
]

-- serviceLoop, when the stream of a driver is closed: only a driver that was alive is loaded again.
unfoldable pub stream_closed : (String → Service → Loaded) → Runtime → Node → Node
stream_closed load d n =
    let silenced =
      if str_eq d.feature "emitter"
      then record n { service = record (n.service) { emitting = false } }
      else n in
    elim d.state [ alive ↦ load_failed_driver load d 0 silenced | _ ↦ silenced ]

-- getDriverRuntime(feature).SendMessage(m): the feature that gets the message; a feature that is not
-- loaded is a nil pointer.
unfoldable pub send_to : String → Mail → Service → Outcome (String × Mail)
send_to feature m s = if has feature s.runtimes then done (feature, m) else panic nil_pointer

-- handleRPCCall
unfoldable pub handle_rpc_call : Runtime → Mail → Service → Outcome (String × Mail)
handle_rpc_call source m s =
    send_to (read "feature" m.labels)
      (record m { labels = insert "caller" source.feature m.labels }) s

-- handleRPCReturn: a return for the service itself, or one that is passed on.
pub data Return : Type 0 where
  for_service : Mail → Return
  passed_on : String → Mail → Return

unfoldable pub handle_rpc_return : Mail → Service → Outcome Return
handle_rpc_return m s =
    if str_eq (read "caller" m.labels) "-"
    then done (for_service m)
    else do (feature, sent) ← send_to (read "caller" m.labels) m s; done (passed_on feature sent)

-- handleReload: what a broadcast makes a service do.
pub data Reloading : Type 0 where
  not_ours ignored refresh : Reloading
  drain_after : Bool → Reloading

for_daemon : Option String → String → Bool
for_daemon none id = true
for_daemon (some wanted) id = str_eq wanted id

is_forced : Option Value → Bool
is_forced none = false
is_forced (some v) = is_truthy v

-- The master service refreshes the configuration, or ends the process after it has drained.
unfoldable pub handle_reload : String → Bool → Assoc String → Value → Reloading
unfolding for_daemon is_forced
handle_reload id is_master labels payload =
    if not (for_daemon (lookup "daemonID" labels) id)
    then not_ours
    else if is_forced (get_map_data payload "force")
    then drain_after is_master
    else if is_master
    then refresh
    else ignored

-- Draining: the services that are asked to stop, and how many are waited for.
pub record Draining : Type 0 where
  pub service : Service
  pub waiting : ℕ

-- d.State != DriverFailed && d.State != DriverStopped
abbrev pub is_running : Runtime → Bool
is_running r = not (is_crashed r.state) && not (is_stopped r.state)

unfoldable pub running : Assoc Runtime → List String
running [] = []
running ((feature, r) ∷ rest) = if is_running r then feature ∷ running rest else running rest

-- Drain: the features that are sent the message `stop`, and the wait group.
unfoldable pub drain : Service → List String × Draining
drain s = (running s.runtimes, record { service = s; waiting = length (running s.runtimes) })

-- drainingGroup.Done(): a group that is not there, or has nothing left to wait for, panics.
done_one : ℕ → Service → Outcome Draining
done_one zero s = panic nil_pointer
done_one (suc n) s = done (record { service = s; waiting = n })

-- handleDriverStop: a driver counts once.
unfoldable pub driver_stopped : String → Draining → Outcome Draining
unfolding done_one
driver_stopped feature d = elim (lookup feature (d.service).runtimes) [
  | none ↦ done d
  | some r ↦
      if is_stopped r.state
      then done d
      else done_one d.waiting (set_state feature stopped d.service)
]
