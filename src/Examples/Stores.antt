-- ===== src/Examples/Stores.antt =====
-- Maps with generated keys, and maps under a lock.
use honeydipper.Common.{◌==◌, ℕ, ◌≡◌, ◌≢◌, ◌↔◌, ◌<◌, refl, Bool, none, some, [], ◌∷◌, arith}
use honeydipper.Common.Assoc.{Assoc, lookup, insert, delete}
use honeydipper.Text.Number.{itoa}
use honeydipper.Dipper.IdMap.{IdMap, max_id, scan, next_id, id_map_put, id_map_get}
use honeydipper.Dipper.IdMap.Fresh.{IsValid, Stored, id_map_put-Stored, id_map_put-eq-none}
use honeydipper.Dipper.LockMap.{Resource, entries, lock_set_map, lock_check_delete_map}

program : Unit {0}
unfolding id_map_put scan next_id itoa lookup insert delete lock_set_map lock_check_delete_map
program = tt

-- The last counter is taken, so the search goes round to the first.
abbrev sessions : IdMap ℕ
sessions = record { entries = ("13683", 7) ∷ []; counter = 13683 }

abbrev sessions' : IdMap ℕ
sessions' = record { entries = ("13683", 7) ∷ ("0", 8) ∷ []; counter = 1 }

sessions-IsValid : IsValid sessions
sessions-IsValid = record { in_range = omega arith }

put_wraps : id_map_put 8 sessions ≡ some ("0", sessions')
unfolding program
put_wraps = refl

id_map_put-Stored_example : Stored 8 sessions "0" sessions'
id_map_put-Stored_example = id_map_put-Stored 8 sessions sessions-IsValid put_wraps

id_map_put-eq-none_example :
    (id_map_put 8 sessions ≡ none) ↔ ((k : ℕ) → k < max_id → id_map_get (itoa k) sessions ≢ none)
id_map_put-eq-none_example = id_map_put-eq-none 8 sessions sessions-IsValid

abbrev one_call : Assoc ℕ
one_call = ("1", 10) ∷ []

abbrev calls : Resource ℕ
calls = entries one_call

abbrev same : ℕ → ℕ → Bool
same a b = a == b
