-- ===== src/Dipper/Command/Once.antt =====
-- A call that is routed to a command is answered once.
use honeydipper.Common.{
  ℕ, ◌+◌, Option, none, some, String, ◌≡◌, refl, ◌∙◌, ap, Bool-cases, Option-cases, inl, inr,
  length, if◌then◌else◌, ◌≢◌,
}
use honeydipper.Common.Int.{to_bits}
use honeydipper.Common.Assoc.{Assoc, lookup, has, read}
use honeydipper.Dipper.Command.{Provider, Reply, Returned, return_value, return_error, error_reply}
use honeydipper.Dipper.Command.Attempts.{Command, Event, replied, timed_out, final_reply}
use honeydipper.Dipper.Command.Judge.{answer, returned_for}
use honeydipper.Dipper.Command.Retries.{attempts-Ran}
use honeydipper.Dipper.Command.Router.{
  Limits, limits, invalid, unpack_labels, Routed, panics, runs, start, router,
}

-- How many messages the caller gets; none: the attempts run out of fuel, or the last one waits for its
-- second reply for ever.
sent_by : Option Returned → Option ℕ
sent_by none = none
sent_by (some r) = some (length r.sent)

unfoldable pub answers : Routed → Option ℕ
unfolding sent_by
answers (panics text r) = some (length r.sent)
answers (runs none) = none
answers (runs (some t)) = sent_by t.returned

-- One answer to a call that names a session, and none to another.
abbrev pub expected : Assoc String → ℕ
expected labels = if has "sessionID" labels then 1 else 0

return_value-once :
    (p : Provider) (call : Assoc String) (r : Reply)
    → length (return_value p call r).sent ≡ expected call
unfolding return_value
return_value-once p call r = elim (Bool-cases (has "sessionID" call)) [
  | inl e ↦ rw (return_value, e) refl
  | inr e ↦ rw (return_value, e) refl
]

return_error-once :
    (p : Provider) (call : Assoc String) (text : String)
    → length (return_error p call text).sent ≡ expected call
unfolding return_error
return_error-once p call text = return_value-once p call (error_reply text)

-- The command puts a second reply into the channel if its first one asks for it.
abbrev pub Settles : Event → Type 0
Settles (replied first second) = final_reply first second ≢ none
Settles timed_out = Unit

returned_for-once :
    (p : Provider) (labels : Assoc String) (o : Option Reply)
    → o ≢ none
    → sent_by (returned_for p labels o) ≡ some (expected labels)
unfolding sent_by
returned_for-once p labels none h = absurd (h refl)
returned_for-once p labels (some reply) h = ap some (return_value-once p labels reply)

answer-once :
    (p : Provider) (labels : Assoc String) (e : Event)
    → Settles e
    → sent_by (answer p labels e) ≡ some (expected labels)
unfolding sent_by
answer-once p labels (replied first second) h =
    returned_for-once p labels (final_reply first second) h
answer-once p labels timed_out h = ap some (return_error-once p labels "timeout")

start-once :
    (p : Provider) (f : Command) (labels : Assoc String) (l : Limits)
    → ((n : ℕ) → Settles (f labels n))
    → answers (start p f labels l) ≡ some (expected labels)
unfolding start sent_by answers
start-once p f labels (invalid text) h = ap some (return_error-once p labels text)
start-once p f labels (limits retry timeout backoff) h =
    let (t, e, ran) = attempts-Ran p f labels retry (to_bits backoff) in
    rw e (
      ap sent_by ran.answers
      ∙ answer-once p labels (f labels (0 + length t.pauses)) (h (0 + length t.pauses)))

-- A call that names a session gets exactly one return and any other call gets none: for an unknown
-- method, for limits that are no numbers, and after the attempts, which end. The command may reply,
-- fail, panic or be late as it likes, but puts a second reply into the channel whenever its first
-- one has the label `no-timeout`: the attempt waits for that one without a timer.
pub router-once :
    (p : Provider) (commands : Assoc Command) (labels : Assoc String)
    → ((f : Command)
        → lookup (read "method" labels) commands ≡ some f
        → (n : ℕ) → Settles (f labels n))
    → answers (router p commands labels) ≡ some (expected labels)
unfolding router answers
router-once p commands labels h = elim (Option-cases (lookup (read "method" labels) commands)) [
  | inl (f, e) ↦ rw (router, e) (start-once p f labels (unpack_labels labels) (h f e))
  | inr e ↦ rw (router, e) (ap some (return_error-once p labels _))
]
