-- ===== src/Dipper/Command/Router.antt =====
-- pkg/dipper/commandHandler.go: Router finds the command of a call and reads its limits.
use Prim.Native.String.{◌++◌}
use honeydipper.Common.{suc, Option, none, some, String, str_eq, if◌then◌else◌}
use honeydipper.Common.Int.{ℤ, pos, to_bits, at_least_zero}
use honeydipper.Common.Assoc.{Assoc, lookup, read}
use honeydipper.Text.Number.{number, syntax_error, range_error, atoi}
use honeydipper.Dipper.Command.{Provider, Returned, return_error}
use honeydipper.Dipper.Command.Attempts.{Command, Trace, attempts}

-- retry, timeout and backoffms, or the text of the error.
pub data Limits : Type 0 where
  limits : ℤ → ℤ → ℤ → Limits
  invalid : String → Limits

-- if s != "" { strconv.Atoi(s) }: none is the error.
number_or : ℤ → String → Option ℤ
number_or default s =
    if str_eq s ""
    then some default
    else elim (atoi s) [ number n ↦ some n | syntax_error ↦ none | range_error n ↦ none ]

-- The labels are read in the order of the source, and the first one that is no number is reported.
combine : Assoc String → Option ℤ → Option ℤ → Option ℤ → Limits
combine labels none b t = invalid ("[operator] invalid retry: " ++ read "retry" labels)
combine labels (some r) none t =
    invalid ("[operator] invalid backoff_ms: " ++ read "backoff_ms" labels)
combine labels (some r) (some b) none =
    invalid ("[operator] invalid timeout: " ++ read "timeout" labels)
combine labels (some r) (some b) (some t) = limits r t b

-- UnpackLabels
unfoldable pub unpack_labels : Assoc String → Limits
unfolding number_or combine atoi
unpack_labels labels =
    combine labels (number_or (pos 0) (read "retry" labels))
      (number_or (pos 1000) (read "backoff_ms" labels)) (number_or (pos 30) (read "timeout" labels))

-- The call ends in a panic with that error after the return, or the attempts run.
pub data Routed : Type 0 where
  panics : String → Returned → Routed
  runs : Option Trace → Routed

-- Fuel for every attempt: the first one and the retries.
unfoldable pub start : Provider → Command → Assoc String → Limits → Routed
start p f labels (invalid text) = panics text (return_error p labels text)
start p f labels (limits retry timeout backoff) = runs (
    attempts (suc (at_least_zero retry)) p f 0
      (record { labels = labels; retry = retry; backoff = to_bits backoff }))

-- CommandProvider.Router. The commands are the provider's map of handlers.
unfoldable pub router : Provider → Assoc Command → Assoc String → Routed
unfolding start
router p commands labels = elim (lookup (read "method" labels) commands) [
  | none ↦
      let text = "[operator] cmd not defined: " ++ read "method" labels in
      panics text (return_error p labels text)
  | some f ↦ start p f labels (unpack_labels labels)
]
