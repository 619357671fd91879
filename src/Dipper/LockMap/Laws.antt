-- ===== src/Dipper/LockMap/Laws.antt =====
-- What the locked operations do to later lookups.
use honeydipper.Common.{
  Bool, false, Option, none, some, String, if◌then◌else◌, ◌≡◌, ap, subst, str_eq, arith, ◌&&◌,
}
use honeydipper.Common.Assoc.{Assoc, lookup, lookup-insert, lookup-delete}
use honeydipper.Outcome.{done, done_injective}
use honeydipper.Dipper.LockMap.{
  Resource, other, nil_resource, entries, lock_get_map, set_map_index, lock_set_map,
  lock_check_delete_map, matches, delete_if,
}

module _ {ℓ} {V : Type ℓ} where
  lookup-set_map_index :
      (key j : String) (val : Option V) (m : Assoc V)
      → lookup j (set_map_index key val m) ≡ (if str_eq key j then val else lookup j m)
  lookup-set_map_index key j (some v) m = lookup-insert key j v m
  lookup-set_map_index key j none m = lookup-delete key j m

  -- LockSetMap on a map returns the value that LockGetMap had found; afterwards the key has the new
  -- value, or none if it was nil, and every other key is as it was.
  pub get-lock_set_map :
      (r r' : Resource V) (key : String) (val old : Option V)
      → lock_set_map r key val ≡ done (old, r')
      → (lock_get_map r key ≡ old)
        × ((j : String) → lock_get_map r' j ≡ (if str_eq key j then val else lock_get_map r j))
  unfolding lock_set_map lock_get_map
  get-lock_set_map other r' key val old h = cc
  get-lock_set_map nil_resource r' key val old h = cc
  get-lock_set_map (entries m) r' key val old h =
      let e = done_injective h in
      (
        ap (λ (p : Option V × Resource V). p.0) e,
        λ j.
            subst
              (λ (r : Resource V). lock_get_map r j ≡ (if str_eq key j then val else lookup j m))
              (ap (λ (p : Option V × Resource V). p.1) e) (lookup-set_map_index key j val m),
      )

  -- The entry is deleted when the check value is nil or equals what is stored.
  abbrev pub deletes : (V → V → Bool) → Option V → Option V → Bool
  deletes eq check none = false
  deletes eq check (some v) = matches eq check v

  lookup-delete_if :
      (eq : V → V → Bool) (key j : String) (check old : Option V) (m : Assoc V)
      → lookup j (delete_if eq check key old m)
        ≡ (if str_eq key j && deletes eq check old then none else lookup j m)
  lookup-delete_if eq key j check none m = ground arith
  lookup-delete_if eq key j check (some v) m = ground (arith, lookup-delete key j m)

  -- LockCheckDeleteMap on a map returns the value that LockGetMap had found. The key is gone
  -- afterwards if the check value was nil or equal to that value, whatever `==` is, and nothing
  -- else changes.
  pub get-lock_check_delete_map :
      (eq : V → V → Bool) (m : Assoc V) (key : String) (check old : Option V) (r' : Resource V)
      → lock_check_delete_map eq (entries m) key check ≡ done (old, r')
      → (lookup key m ≡ old)
        × ((j : String)
            → lock_get_map r' j
              ≡ (if str_eq key j && deletes eq check (lookup key m) then none else lookup j m))
  unfolding lock_check_delete_map lock_get_map
  get-lock_check_delete_map eq m key check old r' h =
      let e = done_injective h in
      (
        ap (λ (p : Option V × Resource V). p.0) e,
        λ j.
            subst
              (λ (r : Resource V).
                lock_get_map r j
                ≡ (if str_eq key j && deletes eq check (lookup key m) then none else lookup j m))
              (ap (λ (p : Option V × Resource V). p.1) e)
              (lookup-delete_if eq key j check (lookup key m) m),
      )
