-- ===== src/Dipper/Merge/Visits.antt =====
-- A loop of mergeModifier over the keys of a map: what holds of the keys that it still has to visit.
use honeydipper.Common.{
  subst, ◌≡◌, ◌≢◌, Bool, true, false, none, List, [], ◌∷◌, String, arith, inl, inr, Bool-cases, ◌⊎◌,
  contains, str_eq, eq_iff,
}
use honeydipper.Outcome.{Outcome, Holds, Holds-bind}
use honeydipper.Text.{drop_last}
use honeydipper.Value.{Value, Fields, get, put, remove, keys}
use honeydipper.Value.Laws.{
  AllKeys, AllKeys-put, AllKeys-remove, AllKeys-map, AllKeys-and, AllKeys-ne, AllKeys-contains,
}
use honeydipper.Dipper.Merge.{for_keys}

-- Keys that the rest of a loop still has to visit, if they are of the kind that it moves.
module _ (moves : String → Bool) (R : String → Type 0)
    (base : (k : String)
      → moves k ≡ true
      → R k
      → R (drop_last k) × (moves (drop_last k) ≡ false)) where
  abbrev pub Left : List String → String → Type 0
  Left ks j = R j × ((moves j ≡ false) ⊎ (contains ks j ≡ true))

  Left-ne : (k j : String) (ks : List String) → Left (k ∷ ks) j × (k ≢ j) → Left ks j
  Left-ne k j ks ((r, inl p), ne) = (r, inl p)
  Left-ne k j ks ((r, inr p), ne) = (r, ground (arith, eq_iff k j))

  Left-kept : (k j : String) (ks : List String) → moves k ≡ false → Left (k ∷ ks) j → Left ks j
  Left-kept k j ks m (r, inl p) = (r, inl p)
  Left-kept k j ks m (r, inr p) = (
    r,
    elim (Bool-cases (str_eq k j)) [
      | inl e ↦ inl (subst (λ i. moves i ≡ false) ((eq_iff k j).0 e) m)
      | inr e ↦ inr (rw e at p)
    ],
  )

  pub kept :
      (k : String) (ks : List String) (fs : Fields)
      → moves k ≡ false
      → AllKeys (Left (k ∷ ks)) fs
      → AllKeys (Left ks) fs
  kept k ks fs m = AllKeys-map (Left (k ∷ ks)) (Left ks) fs (λ j. Left-kept k j ks m)

  pub missing :
      (k : String) (ks : List String) (fs : Fields)
      → get k fs ≡ none
      → AllKeys (Left (k ∷ ks)) fs
      → AllKeys (Left ks) fs
  missing k ks fs e h =
      AllKeys-map (λ j. Left (k ∷ ks) j × (k ≢ j)) (Left ks) fs (λ j. Left-ne k j ks)
        (AllKeys-and (Left (k ∷ ks)) (λ j. k ≢ j) fs h (AllKeys-ne k fs e))

  pub dropped :
      (k : String) (ks : List String) (fs : Fields)
      → AllKeys (Left (k ∷ ks)) fs
      → AllKeys (Left ks) (remove k fs)
  dropped k ks fs h =
      AllKeys-map (λ j. Left (k ∷ ks) j × (k ≢ j)) (Left ks) (remove k fs) (λ j. Left-ne k j ks)
        (AllKeys-remove (Left (k ∷ ks)) k fs h)

  pub moved :
      (k : String) (w : Value) (ks : List String) (fs : Fields)
      → moves k ≡ true
      → R k
      → AllKeys (Left (k ∷ ks)) fs
      → AllKeys (Left ks) (remove k (put (drop_last k) w fs))
  moved k w ks fs m r h =
      let (r', m') = base k m r in
      dropped k ks (put (drop_last k) w fs)
        (AllKeys-put (Left (k ∷ ks)) (drop_last k) w fs (r', inl m') h)

  pub all-Left : (fs : Fields) → AllKeys R fs → AllKeys (Left (keys fs)) fs
  all-Left fs h =
      AllKeys-map (λ j. R j × (contains (keys fs) j ≡ true)) (Left (keys fs)) fs
        (λ j p. (p.0, inr p.1))
        (AllKeys-and R (λ j. contains (keys fs) j ≡ true) fs h (AllKeys-contains fs))

  pub none-Left : (fs : Fields) → AllKeys (Left []) fs → AllKeys (λ j. R j × (moves j ≡ false)) fs
  none-Left fs h =
      AllKeys-map (Left []) (λ j. R j × (moves j ≡ false)) fs (λ j p. (p.0, first p.1)) h
    where
      first : {j : String} → (moves j ≡ false) ⊎ (false ≡ true) → moves j ≡ false
      first (inl p) = p
      first (inr p) = cc

  pub for_keys-Left :
      (body : String → Fields → Outcome Fields)
      → ((k : String) (ks : List String) (fs : Fields)
          → AllKeys (Left (k ∷ ks)) fs
          → Holds (AllKeys (Left ks)) (body k fs))
      → (ks : List String) (fs : Fields) → AllKeys (Left ks) fs
      → Holds (AllKeys (Left [])) (for_keys body ks fs)
  unfolding for_keys
  for_keys-Left body step [] fs h = h
  for_keys-Left body step (k ∷ ks) fs h =
      Holds-bind (AllKeys (Left ks)) (AllKeys (Left [])) (body k fs) (for_keys body ks)
        (step k ks fs h) (for_keys-Left body step ks)
