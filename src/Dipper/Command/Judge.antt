-- ===== src/Dipper/Command/Judge.antt =====
-- What one attempt at a command ends in.
use honeydipper.Common.{
  ℕ, zero, suc, ◌*◌, ◌^◌, ◌%◌, Bool, true, false, false≢true, Option, none, some, String, ◌≡◌, refl,
  ◌∙◌, arith, Bool-cases, inl, inr,
}
use honeydipper.Common.Int.{ℤ, pos, negsuc, at_least_zero}
use honeydipper.Common.Assoc.{Assoc}
use honeydipper.Dipper.Command.{Provider, Reply, Returned, return_value, return_error}
use honeydipper.Dipper.Command.Attempts.{
  Event, replied, timed_out, Wrapper, Next, again, finished, waiting, judge_final, is_failing,
  final_reply, pause, attempt, judge, retry_or,
}

-- The attempt has failed, and may be repeated. A timeout is never repeated.
abbrev pub fails : Option Reply → Bool
fails none = false
fails (some reply) = is_failing reply.labels

abbrev pub is_failed : Event → Bool
is_failed (replied first second) = fails (final_reply first second)
is_failed timed_out = false

-- What the caller gets when the attempt is the last one: nothing, if that waits for ever.
abbrev pub returned_for : Provider → Assoc String → Option Reply → Option Returned
returned_for p labels none = none
returned_for p labels (some reply) = some (return_value p labels reply)

abbrev pub answer : Provider → Assoc String → Event → Option Returned
answer p labels (replied first second) = returned_for p labels (final_reply first second)
answer p labels timed_out = some (return_error p labels "timeout")

abbrev pub ended : Option Returned → Next
ended none = waiting
ended (some r) = finished r

abbrev pub wrapper : Assoc String → ℤ → ℕ → Wrapper
wrapper labels retry backoff = record { labels = labels; retry = retry; backoff = backoff }

-- w.backoff *= 2
abbrev pub double : ℕ → ℕ
double b = b * 2 % 2 ^ 64

judge-ok :
    (p : Provider) (w : Wrapper) (reply : Reply)
    → is_failing reply.labels ≡ false
    → judge p w reply ≡ finished (return_value p w.labels reply)
unfolding judge
judge-ok p w reply h = rw (judge, h) refl

judge-failing :
    (p : Provider) (w : Wrapper) (reply : Reply)
    → is_failing reply.labels ≡ true
    → judge p w reply ≡ retry_or p w.retry w reply
unfolding judge
judge-failing p w reply h = rw (judge, h) refl

spent :
    (p : Provider) (labels : Assoc String) (retry : ℤ) (b : ℕ) (reply : Reply)
    → at_least_zero retry ≡ 0
    → retry_or p retry (wrapper labels retry b) reply ≡ finished (return_value p labels reply)
unfolding retry_or
spent p labels (pos zero) b reply h = refl
spent p labels (pos (suc n)) b reply h = absurd (omega (arith, h))
spent p labels (negsuc n) b reply h = refl

judge-last :
    (p : Provider) (labels : Assoc String) (retry : ℤ) (b : ℕ) (reply : Reply)
    → at_least_zero retry ≡ 0
    → judge p (wrapper labels retry b) reply ≡ finished (return_value p labels reply)
unfolding retry_or
judge-last p labels retry b reply h = elim (Bool-cases (is_failing reply.labels)) [
  | inl e ↦ judge-failing p (wrapper labels retry b) reply e ∙ spent p labels retry b reply h
  | inr e ↦ judge-ok p (wrapper labels retry b) reply e
]

final-ok :
    (p : Provider) (w : Wrapper) (o : Option Reply)
    → fails o ≡ false
    → judge_final p w o ≡ ended (returned_for p w.labels o)
unfolding judge_final
final-ok p w none h = refl
final-ok p w (some reply) h = judge-ok p w reply h

final-last :
    (p : Provider) (labels : Assoc String) (retry : ℤ) (b : ℕ) (o : Option Reply)
    → at_least_zero retry ≡ 0
    → judge_final p (wrapper labels retry b) o ≡ ended (returned_for p labels o)
unfolding judge_final
final-last p labels retry b none h = refl
final-last p labels retry b (some reply) h = judge-last p labels retry b reply h

final-again :
    (p : Provider) (labels : Assoc String) (n b : ℕ) (o : Option Reply)
    → fails o ≡ true
    → judge_final p (wrapper labels (pos (suc n)) b) o
      ≡ again (pause b) (wrapper labels (pos n) (double b))
unfolding judge_final retry_or
final-again p labels n b none h = absurd (false≢true h)
final-again p labels n b (some reply) h = judge-failing p (wrapper labels (pos (suc n)) b) reply h

pub attempt-ok :
    (p : Provider) (labels : Assoc String) (retry : ℤ) (b : ℕ) (e : Event)
    → is_failed e ≡ false
    → attempt p (wrapper labels retry b) e ≡ ended (answer p labels e)
unfolding attempt
attempt-ok p labels retry b (replied first second) h =
    final-ok p (wrapper labels retry b) (final_reply first second) h
attempt-ok p labels retry b timed_out h = refl

pub attempt-last :
    (p : Provider) (labels : Assoc String) (retry : ℤ) (b : ℕ) (e : Event)
    → at_least_zero retry ≡ 0
    → attempt p (wrapper labels retry b) e ≡ ended (answer p labels e)
unfolding attempt
attempt-last p labels retry b (replied first second) h =
    final-last p labels retry b (final_reply first second) h
attempt-last p labels retry b timed_out h = refl

pub attempt-again :
    (p : Provider) (labels : Assoc String) (n b : ℕ) (e : Event)
    → is_failed e ≡ true
    → attempt p (wrapper labels (pos (suc n)) b) e
      ≡ again (pause b) (wrapper labels (pos n) (double b))
unfolding attempt
attempt-again p labels n b (replied first second) h =
    final-again p labels n b (final_reply first second) h
attempt-again p labels n b timed_out h = absurd (false≢true h)
