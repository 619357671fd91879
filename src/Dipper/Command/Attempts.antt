-- ===== src/Dipper/Command/Attempts.antt =====
-- pkg/dipper/commandHandler.go: the attempts at a command, which are repeated with a growing pause
-- when the command fails.
use honeydipper.Common.{
  ℕ, zero, suc, ◌*◌, ◌^◌, ◌%◌, Bool, true, false, ◌||◌, not, Option, none, some, List, [], ◌∷◌,
  String, str_eq, ltb, if◌then◌else◌,
}
use honeydipper.Common.Int.{ℤ, pos, negsuc}
use honeydipper.Common.Assoc.{Assoc, lookup, has}
use honeydipper.Dipper.Command.{success, Provider, Reply, Returned, return_value, return_error}

-- What comes of one attempt: the command puts replies into the channel (a panic of the command is
-- put there as a reply with the label `error`), or the timer fires first. The second reply is read
-- only when the first asks for it; none: it never comes.
pub data Event : Type 0 where
  replied : Reply → Option Reply → Event
  timed_out : Event

-- MessageHandler, run with a copy of the labels, at the attempt of that number.
abbrev pub Command : Type 0
Command = Assoc String → ℕ → Event

-- commandWrapper: the retries that are left and the next pause, an int64 by its 64 bits.
pub record Wrapper : Type 0 where
  pub labels : Assoc String
  pub retry : ℤ
  pub backoff : ℕ

-- time.Sleep(w.backoff * time.Millisecond) in nanoseconds: a negative pause is none.
abbrev pub pause : ℕ → ℕ
pause backoff = let p = backoff * 1000000 % 2 ^ 64 in if ltb p (2 ^ 63) then p else 0

-- if _, ok := reply.Labels["no-timeout"]; ok { reply = <-m.Reply }
abbrev pub final_reply : Reply → Option Reply → Option Reply
final_reply first second = if has "no-timeout" first.labels then second else some first

abbrev pub failing_status : Option String → Bool
failing_status none = false
failing_status (some s) = not (str_eq s success)

-- hasError || (ok && status != SUCCESS)
unfoldable pub is_failing : Assoc String → Bool
unfolding failing_status
is_failing labels = has "error" labels || failing_status (lookup "status" labels)

-- What an attempt ends in: another attempt after a pause, or the return to the caller. An attempt
-- without a timer may also wait for its second reply for ever.
pub data Next : Type 0 where
  again : ℕ → Wrapper → Next
  finished : Returned → Next
  waiting : Next

-- The retries when `w.retry > 0`, and w.retry--.
unfoldable pub retry_or : Provider → ℤ → Wrapper → Reply → Next
retry_or p (pos (suc n)) w reply =
    again (pause w.backoff) (record w { retry = pos n; backoff = w.backoff * 2 % 2 ^ 64 })
retry_or p (pos zero) w reply = finished (return_value p w.labels reply)
retry_or p (negsuc n) w reply = finished (return_value p w.labels reply)

unfoldable pub judge : Provider → Wrapper → Reply → Next
judge p w reply = elim (is_failing reply.labels) [
  | true ↦ retry_or p w.retry w reply
  | false ↦ finished (return_value p w.labels reply)
]

-- The receive from m.Reply blocks until the second reply comes.
unfoldable pub judge_final : Provider → Wrapper → Option Reply → Next
judge_final p w none = waiting
judge_final p w (some reply) = judge p w reply

-- commandWrapper.attempt
unfoldable pub attempt : Provider → Wrapper → Event → Next
unfolding judge_final
attempt p w (replied first second) = judge_final p w (final_reply first second)
attempt p w timed_out = finished (return_error p w.labels "timeout")

-- The pauses between the attempts, and what is returned at the end; none: the last attempt waits for
-- its second reply for ever.
pub record Trace : Type 0 where
  pub pauses : List ℕ
  pub returned : Option Returned

abbrev pub paused : ℕ → Option Trace → Option Trace
paused n none = none
paused n (some t) = some (record { pauses = n ∷ t.pauses; returned = t.returned })

-- All attempts from that of number `n` on: each `again` starts the next. none: out of fuel.
unfoldable pub attempts : ℕ → Provider → Command → ℕ → Wrapper → Option Trace
attempts zero p f n w = none
attempts (suc fuel) p f n w = elim (attempt p w (f w.labels n)) [
  | again d next ↦ paused d (attempts fuel p f (suc n) next)
  | finished r ↦ some (record { pauses = []; returned = some r })
  | waiting ↦ some (record { pauses = []; returned = none })
]
