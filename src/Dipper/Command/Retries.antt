-- ===== src/Dipper/Command/Retries.antt =====
-- How the attempts at a command go: how many there are, how long the pauses are, and that the
-- caller gets one return.
use honeydipper.Common.{
  ℕ, zero, suc, ◌+◌, ◌≤◌, ◌<◌, true, false, Option, none, some, List, [], ◌∷◌, String, ◌≡◌, refl,
  arith, Bool-cases, inl, inr, length, get_elem?,
}
use honeydipper.Common.Int.{ℤ, pos, negsuc, at_least_zero}
use honeydipper.Common.Assoc.{Assoc}
use honeydipper.Dipper.Command.{Provider, Returned}
use honeydipper.Dipper.Command.Judge.{
  is_failed, ended, answer, wrapper, double, attempt-ok, attempt-last, attempt-again,
}
use honeydipper.Dipper.Command.Attempts.{Command, Trace, pause, attempt, attempts}

abbrev pub doubled : ℕ → ℕ → ℕ
doubled zero b = b
doubled (suc i) b = doubled i (double b)

at_start : (n : ℕ) → n + 0 ≡ n
at_start n = omega arith

later : (n i : ℕ) → n + suc i ≡ suc n + i
later n i = omega arith

-- The trace `t` of the attempts from the one of number `n` on, with `r` retries left and the next
-- pause `b`.
pub record Ran (p : Provider) (f : Command) (labels : Assoc String) (n r b : ℕ) (t : Trace)
    : Type 0 where
  pub few : length t.pauses ≤ r
  pub failed : (i : ℕ) → i < length t.pauses → is_failed (f labels (n + i)) ≡ true
  pub stops : length t.pauses < r → is_failed (f labels (n + length t.pauses)) ≡ false
  pub answers : t.returned ≡ answer p labels (f labels (n + length t.pauses))
  pub waits : (i : ℕ) → i < length t.pauses → get_elem? t.pauses i ≡ some (pause (doubled i b))

Runs : ℕ → Provider → Command → Assoc String → ℕ → ℤ → ℕ → Type 0
Runs fuel p f labels n retry b =
    (t : Trace) × (attempts fuel p f n (wrapper labels retry b) ≡ some t)
    × Ran p f labels n (at_least_zero retry) b t

single_run :
    (fuel : ℕ) (p : Provider) (f : Command) (labels : Assoc String) (n b : ℕ) (retry : ℤ)
    (a : Option Returned)
    → attempt p (wrapper labels retry b) (f labels n) ≡ ended a
    → attempts (suc fuel) p f n (wrapper labels retry b)
      ≡ some (record { pauses = []; returned = a })
unfolding attempts
single_run fuel p f labels n b retry none e = rw (attempts, e) refl
single_run fuel p f labels n b retry (some r) e = rw (attempts, e) refl

single :
    (fuel : ℕ) (p : Provider) (f : Command) (labels : Assoc String) (n b : ℕ) (retry : ℤ)
    → attempt p (wrapper labels retry b) (f labels n) ≡ ended (answer p labels (f labels n))
    → (0 < at_least_zero retry → is_failed (f labels n) ≡ false)
    → Runs (suc fuel) p f labels n retry b
unfolding Runs
single fuel p f labels n b retry e h = (
  record { pauses = []; returned = answer p labels (f labels n) },
  single_run fuel p f labels n b retry (answer p labels (f labels n)) e,
  record {
    few = omega arith;
    failed = λ i l. absurd (omega arith);
    stops = λ l. rw (at_start n) (h l);
    answers = rw (at_start n) refl;
    waits = λ i l. absurd (omega arith);
  },
)

longer : ℕ → Trace → Trace
longer d t = record { pauses = d ∷ t.pauses; returned = t.returned }

more_run :
    (fuel : ℕ) (p : Provider) (f : Command) (labels : Assoc String) (n b r : ℕ) (t : Trace)
    → is_failed (f labels n) ≡ true
    → attempts fuel p f (suc n) (wrapper labels (pos r) (double b)) ≡ some t
    → attempts (suc fuel) p f n (wrapper labels (pos (suc r)) b) ≡ some (longer (pause b) t)
unfolding attempts longer
more_run fuel p f labels n b r t h e =
    rw (attempts, attempt-again p labels r b (f labels n) h) (rw e refl)

failed_before :
    (f : Command) (labels : Assoc String) (n k : ℕ)
    → is_failed (f labels n) ≡ true
    → ((i : ℕ) → i < k → is_failed (f labels (suc n + i)) ≡ true)
    → (i : ℕ) → i < suc k
    → is_failed (f labels (n + i)) ≡ true
failed_before f labels n k h hs zero l = rw (at_start n) h
failed_before f labels n k h hs (suc i) l = rw (later n i) (hs i (omega arith))

waits_before :
    (b : ℕ) (xs : List ℕ)
    → ((i : ℕ) → i < length xs → get_elem? xs i ≡ some (pause (doubled i (double b))))
    → (i : ℕ) → i < suc (length xs)
    → get_elem? (pause b ∷ xs) i ≡ some (pause (doubled i b))
waits_before b xs h zero l = refl
waits_before b xs h (suc i) l = h i (omega arith)

-- One more failed attempt in front.
more :
    (fuel : ℕ) (p : Provider) (f : Command) (labels : Assoc String) (n b r : ℕ)
    → is_failed (f labels n) ≡ true
    → Runs fuel p f labels (suc n) (pos r) (double b)
    → Runs (suc fuel) p f labels n (pos (suc r)) b
unfolding Runs longer
more fuel p f labels n b r h (t, e, ran) = (
  longer (pause b) t,
  more_run fuel p f labels n b r t h e,
  record {
    few = omega (arith, ran.few);
    failed = failed_before f labels n (length t.pauses) h ran.failed;
    stops = λ l. rw (later n (length t.pauses)) (ran.stops (omega arith));
    answers = rw (later n (length t.pauses)) ran.answers;
    waits = waits_before b t.pauses ran.waits;
  },
)

-- The fuel that the router gives is enough, and the run is as `Ran` says.
retries_run :
    (r fuel : ℕ) (p : Provider) (f : Command) (labels : Assoc String) (n b : ℕ)
    → r < fuel
    → Runs fuel p f labels n (pos r) b
retries_run r zero p f labels n b l = absurd (omega arith)
retries_run zero (suc fuel) p f labels n b l =
    single fuel p f labels n b (pos 0) (attempt-last p labels (pos 0) b (f labels n) refl)
      (λ h. absurd (omega arith))
retries_run (suc r) (suc fuel) p f labels n b l = elim (Bool-cases (is_failed (f labels n))) [
  | inl e ↦
      more fuel p f labels n b r e (retries_run r fuel p f labels (suc n) (double b) (omega arith))
  | inr e ↦
      single fuel p f labels n b (pos (suc r)) (attempt-ok p labels (pos (suc r)) b (f labels n) e)
        (λ _. e)
]

-- There are finitely many attempts, whatever the command does: with fuel for one attempt more than
-- there are retries there is a trace; it has as many pauses as there were failed attempts before the
-- last, at most the retries, and stops earlier only at an attempt that has not failed; the caller
-- gets the answer of the last attempt, which is none exactly if that has asked for a second reply
-- that never comes; and each pause is twice the one before, in 64 bits.
pub attempts-Ran :
    (p : Provider) (f : Command) (labels : Assoc String) (retry : ℤ) (b : ℕ)
    → (t : Trace) × (attempts (suc (at_least_zero retry)) p f 0 (wrapper labels retry b) ≡ some t)
      × Ran p f labels 0 (at_least_zero retry) b t
unfolding Runs
attempts-Ran p f labels (pos r) b = retries_run r (suc r) p f labels 0 b (omega arith)
attempts-Ran p f labels (negsuc r) b =
    single 0 p f labels 0 b (negsuc r) (attempt-last p labels (negsuc r) b (f labels 0) refl)
      (λ h. absurd (omega arith))
