-- ===== src/Dipper/IdMap/Fresh.antt =====
-- What IDMapPut, IDMapGet and IDMapDel promise: keys are fresh, nothing that is stored is lost, and
-- a map that is not full takes one more value.
use mathlib.Core.Option.{some-injective}
use honeydipper.Common.{
  subst, ◌↔◌, ℕ, suc, ◌<◌, ◌≡◌, ◌≢◌, none, some, String, length, Option-cases, inl, inr, str_eq,
  if◌then◌else◌, eq_refl, str_ne, sym, ap,
}
use honeydipper.Common.Assoc.{lookup, lookup-insert, lookup-delete, length-insert}
use honeydipper.Text.Number.{itoa}
use honeydipper.Dipper.IdMap.{IdMap, max_id, scan, store_at, id_map_put, id_map_get, id_map_del}
use honeydipper.Dipper.IdMap.Scan.{scan-free, scan-some, scan-none_all, next_id-lt}

-- The counter is a valid index; IDMapPut keeps it so.
pub record IsValid {ℓ} {V : Type ℓ} (m : IdMap V) : Type 0 where
  pub in_range : m.counter < max_id

-- What a put that returns `key` and `m'` has done to `m`.
pub record Stored {ℓ} {V : Type ℓ} (v : V) (m : IdMap V) (key : String) (m' : IdMap V)
    : Type ℓ where
  pub fresh : id_map_get key m ≡ none
  pub found : id_map_get key m' ≡ some v
  pub others : (j : String) → key ≢ j → id_map_get j m' ≡ id_map_get j m
  pub counter : m'.counter < max_id
  pub size : length m'.entries ≡ suc (length m.entries)

none≢some {ℓ} : {A : Type ℓ} {a : A} → none ≢ some a
none≢some e = cc

module _ {ℓ} {V : Type ℓ} where
  store_at-Stored :
      (v : V) (m : IdMap V) (c : ℕ)
      → (lookup (itoa c) m.entries ≡ none) × (c < max_id)
      → Stored v m (store_at v m c).0 (store_at v m c).1
  unfolding store_at id_map_get
  store_at-Stored v m c (free, lt) = record {
    fresh = free;
    found = rw (lookup-insert, eq_refl);
    others = λ j ne. rw (lookup-insert, str_ne (itoa c) j ne);
    counter = next_id-lt c lt;
    size = length-insert (itoa c) v m.entries free;
  }

  -- From a valid map: the key that IDMapPut returns was not in use, the value is found under it
  -- afterwards, every other key keeps its value, and the map is valid and longer by one.
  pub id_map_put-Stored :
      (v : V) (m : IdMap V) {key : String} {m' : IdMap V}
      → IsValid m
      → id_map_put v m ≡ some (key, m')
      → Stored v m key m'
  unfolding id_map_put
  id_map_put-Stored v m {key} {m'} ok e = elim (Option-cases (scan max_id m.entries m.counter)) [
    | inl (c, found) ↦
        subst (λ (r : String × IdMap V). Stored v m r.0 r.1)
          (some-injective _ _ (rw (found, id_map_put) at e))
          (store_at-Stored v m c (scan-free m.entries max_id m.counter c ok.in_range found))
    | inr fails ↦ absurd (none≢some (rw (fails, id_map_put) at e))
  ]

  -- The key is a number that is written out.
  pub id_map_put-key :
      (v : V) (m : IdMap V) {key : String} {m' : IdMap V}
      → id_map_put v m ≡ some (key, m')
      → (c : ℕ) × (key ≡ itoa c)
  unfolding id_map_put store_at
  id_map_put-key v m {key} {m'} e = elim (Option-cases (scan max_id m.entries m.counter)) [
    | inl (c, found) ↦ (
      c,
      sym (ap (λ (r : String × IdMap V). r.0) (some-injective _ _ (rw (found, id_map_put) at e))),
    )
    | inr fails ↦ absurd (none≢some (rw (fails, id_map_put) at e))
  ]

  put_fails : (v : V) (m : IdMap V) → id_map_put v m ≡ none → scan max_id m.entries m.counter ≡ none
  unfolding id_map_put
  put_fails v m e = elim (Option-cases (scan max_id m.entries m.counter)) [
    | inl (c, found) ↦ absurd (none≢some (sym (rw (found, id_map_put) at e)))
    | inr fails ↦ fails
  ]

  -- A valid map with fewer than MaxID entries takes a value: the loop of IDMapPut ends.
  pub id_map_put_total :
      (v : V) (m : IdMap V) → IsValid m → length m.entries < max_id → id_map_put v m ≢ none
  unfolding id_map_put
  id_map_put_total v m ok room e = scan-some m.entries m.counter ok.in_range room (put_fails v m e)

  taken_of_fails :
      (v : V) (m : IdMap V)
      → IsValid m
      → id_map_put v m ≡ none
      → (k : ℕ) → k < max_id
      → id_map_get (itoa k) m ≢ none
  unfolding id_map_get
  taken_of_fails v m ok e k lt free =
      cc (scan-none_all m.entries m.counter k ok.in_range (put_fails v m e) lt, free)

  -- IDMapPut on a valid map goes on for ever exactly when the key of every counter is taken.
  pub id_map_put-eq-none :
      (v : V) (m : IdMap V)
      → IsValid m
      → (id_map_put v m ≡ none) ↔ ((k : ℕ) → k < max_id → id_map_get (itoa k) m ≢ none)
  unfolding id_map_put
  id_map_put-eq-none v m ok = (
    taken_of_fails v m ok,
    λ taken. elim (Option-cases (scan max_id m.entries m.counter)) [
      | inl (c, found) ↦
          let (free, lt) = scan-free m.entries max_id m.counter c ok.in_range found in
          absurd (taken c lt (unfold id_map_get in free))
      | inr fails ↦ rw (fails, id_map_put)
    ],
  )

  pub id_map_get-del :
      (key j : String) (m : IdMap V)
      → id_map_get j (id_map_del key m) ≡ (if str_eq key j then none else id_map_get j m)
  unfolding id_map_get id_map_del
  id_map_get-del key j m = lookup-delete key j m.entries
