-- ===== src/Dipper/IdMap.antt =====
-- pkg/dipper/idmap.go: a map that gives its values generated keys. The lock makes each operation
-- atomic, so an operation is a function on the map and its counter.
mod Scan
pub mod Fresh
use honeydipper.Common.{
  ℕ, zero, suc, ◌+◌, Bool, true, false, Option, none, some, [], String, ◌==◌, if◌then◌else◌,
}
use honeydipper.Common.Assoc.{Assoc, lookup, insert, delete, has}
use honeydipper.Text.Number.{itoa}

abbrev pub max_id : ℕ
max_id = 13684

-- IDMapMeta and the map that it belongs to.
pub record IdMap {ℓ} (V : Type ℓ) : Type ℓ where
  pub entries : Assoc V
  pub counter : ℕ

-- InitIDMap
abbrev pub empty {ℓ} : {V : Type ℓ} → IdMap V
empty = record { entries = []; counter = 0 }

-- meta.Counter++; if meta.Counter == MaxID { meta.Counter = 0 }
unfoldable pub next_id : ℕ → ℕ
next_id c = if c + 1 == max_id then 0 else c + 1

module _ {ℓ} {V : Type ℓ} where
  -- The loop of IDMapPut: it looks for a counter whose key is free. With fuel for every counter,
  -- none means that the loop has come back to where it began and goes on for ever.
  unfoldable pub scan : ℕ → Assoc V → ℕ → Option ℕ
  scan zero m c = none
  scan (suc f) m c = elim (has (itoa c) m) [ true ↦ scan f m (next_id c) | false ↦ some c ]

  store_at : V → IdMap V → ℕ → String × IdMap V
  store_at v m c = (itoa c, record { entries = insert (itoa c) v m.entries; counter = next_id c })

  -- IDMapPut: the new key and the map.
  unfoldable pub id_map_put : V → IdMap V → Option (String × IdMap V)
  unfolding store_at
  id_map_put v m = elim (scan max_id m.entries m.counter) [
    | none ↦ none
    | some c ↦ some (store_at v m c)
  ]

  unfoldable pub id_map_del : String → IdMap V → IdMap V
  id_map_del key m = record m { entries = delete key m.entries }

  unfoldable pub id_map_get : String → IdMap V → Option V
  id_map_get key m = lookup key m.entries
