-- ===== src/Examples/Commands.antt =====
-- Commands that fail and are repeated.
use mathlib.Core.Option.{some-injective}
use honeydipper.Common.{
  ◌≡◌, refl, false, some, none, ℕ, subst, true, Bool, [], ◌∷◌, String, ◌==◌, if◌then◌else◌,
}
use honeydipper.Common.Int.{pos}
use honeydipper.Common.Assoc.{Assoc, insert, lookup, delete}
use honeydipper.Text.Number.{atoi, digits}
use honeydipper.Dipper.Message.{absent}
use honeydipper.Dipper.Command.{Provider, Reply, return_value, return_labels, without_limits}
use honeydipper.Dipper.Command.Attempts.{
  Command, replied, Trace, judge_final, attempts, attempt, is_failing, judge, retry_or,
}
use honeydipper.Dipper.Command.Router.{router, unpack_labels, limits, start}
use honeydipper.Dipper.Command.Judge.{wrapper}
use honeydipper.Dipper.Command.Retries.{Ran, attempts-Ran}
use honeydipper.Dipper.Command.Once.{Settles, answers, expected, router-once}

program : Unit {0}
unfolding attempts attempt judge_final is_failing judge retry_or lookup router unpack_labels start
    return_value return_labels without_limits insert delete atoi digits
program = tt

abbrev operator : Provider
operator = record { channel = "eventbus"; subject = "return" }

abbrev reply : Assoc String → Reply
reply labels = record { labels = labels; payload = absent; is_raw = false }

-- It fails twice, and then succeeds.
abbrev flaky : Command
flaky labels n =
    if n == 2 then replied (reply []) none else replied (reply (("error", "busy") ∷ [])) none

abbrev call : Assoc String
call = ("sessionID", "7") ∷ ("method", "run") ∷ ("retry", "3") ∷ ("backoff_ms", "10") ∷ []

settled :
    (b : Bool)
    → Settles (if b then replied (reply []) none else replied (reply (("error", "busy") ∷ [])) none)
unfolding program
settled true = λ q. cc
settled false = λ q. cc

-- Each reply of `flaky` is the only one of its attempt.
flaky-Settles :
    (f : Command) → lookup "run" (("run", flaky) ∷ []) ≡ some f → (n : ℕ) → Settles (f call n)
unfolding program
flaky-Settles f e n = subst (λ g. Settles (g call n)) (some-injective _ _ e) (settled (n == 2))

attempts-Ran_example :
    (t : Trace) × (attempts 4 operator flaky 0 (wrapper call (pos 3) 10) ≡ some t)
    × Ran operator flaky call 0 3 10 t
attempts-Ran_example = attempts-Ran operator flaky call (pos 3) 10

router-once_example : answers (router operator (("run", flaky) ∷ []) call) ≡ some (expected call)
unfolding program
router-once_example = router-once operator (("run", flaky) ∷ []) call flaky-Settles

limits_read : unpack_labels call ≡ limits (pos 3) (pos 30) (pos 10)
unfolding program
limits_read = refl

-- Two pauses, and the return of the third attempt.
flaky_run :
    attempts 4 operator flaky 0 (wrapper call (pos 3) 10)
    ≡ some (record {
      pauses = 10000000 ∷ 20000000 ∷ [];
      returned = some (return_value operator call (reply []));
    })
unfolding program
flaky_run = refl

-- A reply that asks for a second one, which never comes.
abbrev silent : Command
silent labels n = replied (reply (("no-timeout", "") ∷ [])) none

silent_run :
    attempts 4 operator silent 0 (wrapper call (pos 3) 10)
    ≡ some (record { pauses = []; returned = none })
unfolding program
silent_run = refl
