-- ===== src/Dipper/LockMap.antt =====
-- pkg/dipper/mapUtils.go: operations on a map under a lock. The lock makes each one atomic. A
-- resource comes as an interface value: a map, the nil map, or something else.
pub mod Laws
use honeydipper.Common.{Bool, true, false, Option, none, some, [], ◌∷◌, String, if◌then◌else◌}
use honeydipper.Common.Assoc.{Assoc, lookup, insert, delete}
use honeydipper.Outcome.{Outcome, done, panic, nil_map, reflect_misuse, ◌>>=◌}

pub data Resource {ℓ} (V : Type ℓ) : Type ℓ where
  other nil_resource : Resource V
  entries : Assoc V → Resource V

module _ {ℓ} {V : Type ℓ} where
  -- LockGetMap
  unfoldable pub lock_get_map : Resource V → String → Option V
  lock_get_map (entries m) key = lookup key m
  lock_get_map _ key = none

  -- SetMapIndex with the value of a nil interface deletes the key.
  abbrev pub set_map_index : String → Option V → Assoc V → Assoc V
  set_map_index key (some v) m = insert key v m
  set_map_index key none m = delete key m

  -- LockSetMap: the previous value and the map. A nil map is replaced through a reflect.Value that
  -- cannot be set, which panics; so does MapIndex on what is no map.
  unfoldable pub lock_set_map : Resource V → String → Option V → Outcome (Option V × Resource V)
  lock_set_map (entries m) key val = done (lookup key m, entries (set_map_index key val m))
  lock_set_map _ key val = panic reflect_misuse

  -- The check value is compared with the interface's `==`; none is a check value of nil.
  module _ (eq : V → V → Bool) where
    abbrev pub matches : Option V → V → Bool
    matches none v = true
    matches (some want) v = eq v want

    abbrev delete_if : Option V → String → Option V → Assoc V → Assoc V
    delete_if check key none m = m
    delete_if check key (some v) m = if matches check v then delete key m else m

    -- LockCheckDeleteMap: the previous value and the map.
    unfoldable pub lock_check_delete_map :
        Resource V → String → Option V → Outcome (Option V × Resource V)
    lock_check_delete_map (entries m) key check =
        done (lookup key m, entries (delete_if check key (lookup key m) m))
    lock_check_delete_map nil_resource key check = done (none, nil_resource)
    lock_check_delete_map other key check = panic reflect_misuse
