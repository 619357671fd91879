-- ===== src/Dipper/Command/Pauses.antt =====
-- How long the pauses between the attempts are, while they fit in 64 bits.
use honeydipper.Common.{ℕ, ◌+◌, ◌<◌, List, [], ◌∷◌, ◌≡◌, some, length, get_elem?}
use honeydipper.Common.Assoc.{Assoc}
use honeydipper.Dipper.Command.Attempts.{Command, pause}
use honeydipper.Dipper.Command.Retries.{doubled}

abbrev pub total : List ℕ → ℕ
total [] = 0
total (x ∷ xs) = x + total xs

Waits : ℕ → List ℕ → Type 0
Waits b xs = (i : ℕ) → i < length xs → get_elem? xs i ≡ some (pause (doubled i b))
