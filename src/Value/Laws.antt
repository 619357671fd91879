-- ===== src/Value/Laws.antt =====
-- The laws of maps: reading after a write and after a removal, distinct keys, depth.
use honeydipper.Common.{
  ◌∷◌, eq_refl, true, subst, contains, ℕ, ◌≤◌, none, some, String, if◌then◌else◌, str_eq, ◌≡◌, refl,
  arith, eq_iff, Bool-cases, inl, inr, ◌≢◌, sym,
}
use honeydipper.Value.{keys, Value, Fields, end, field, get, put, remove, depth, depth_fields}

pub get-put :
    (k j : String) (v : Value) (fs : Fields)
    → get j (put k v fs) ≡ (if str_eq k j then some v else get j fs)
unfolding get put
get-put k j v end = refl
get-put k j v (field i w fs) = ground (arith, eq_iff k j, eq_iff i k, eq_iff i j, get-put k j v fs)

pub get-remove :
    (k j : String) (fs : Fields) → get j (remove k fs) ≡ (if str_eq k j then none else get j fs)
unfolding get remove
get-remove k j end = ground arith
get-remove k j (field i w fs) =
    ground (arith, eq_iff k j, eq_iff i k, eq_iff i j, get-remove k j fs)

pub ruleset field_laws = (get-put, get-remove)

-- Every key satisfies `P`.
abbrev pub AllKeys {ℓ} : (String → Type ℓ) → Fields → Type ℓ
AllKeys P end = Unit
AllKeys P (field k v fs) = P k × AllKeys P fs

module _ {ℓ} (P : String → Type ℓ) where
  pub AllKeys-put :
      (k : String) (v : Value) (fs : Fields) → P k → AllKeys P fs → AllKeys P (put k v fs)
  unfolding put
  AllKeys-put k v end p h = (p, tt)
  AllKeys-put k v (field j w fs) p h = elim (Bool-cases (str_eq j k)) [
    | inl e ↦ rw e h
    | inr e ↦ rw e (h.0, AllKeys-put k v fs p h.1)
  ]

  pub AllKeys-remove :
      (k : String) (fs : Fields) → AllKeys P fs → AllKeys (λ j. P j × (k ≢ j)) (remove k fs)
  unfolding remove
  AllKeys-remove k end h = tt
  AllKeys-remove k (field j w fs) h = elim (Bool-cases (str_eq j k)) [
    | inl e ↦ rw e (AllKeys-remove k fs h.1)
    | inr e ↦ rw e ((h.0, λ p. cc ((eq_iff j k).1 (sym p))), AllKeys-remove k fs h.1)
  ]

-- A value does not grow deeper by what is taken from it.
pub depth-get :
    (k : String) (fs : Fields) (v : Value) → get k fs ≡ some v → depth v ≤ depth_fields fs
unfolding get depth
depth-get k end v h = cc
depth-get k (field j w fs) v h = ground (arith, depth-get k fs v)

pub depth-put :
    (k : String) (v : Value) (fs : Fields) (n : ℕ)
    → depth v ≤ n
    → depth_fields fs ≤ n
    → depth_fields (put k v fs) ≤ n
unfolding put depth
depth-put k v end n p h = omega arith
depth-put k v (field j w fs) n p h = ground (arith, depth-put k v fs n)

pub depth-remove : (k : String) (fs : Fields) → depth_fields (remove k fs) ≤ depth_fields fs
unfolding remove depth
depth-remove k end = omega arith
depth-remove k (field j w fs) = ground (arith, depth-remove k fs)

module _ {ℓ κ} (P : String → Type ℓ) (Q : String → Type κ) where
  pub AllKeys-map : (fs : Fields) → ((k : String) → P k → Q k) → AllKeys P fs → AllKeys Q fs
  AllKeys-map end f h = tt
  AllKeys-map (field k v fs) f h = (f k h.0, AllKeys-map fs f h.1)

  pub AllKeys-and : (fs : Fields) → AllKeys P fs → AllKeys Q fs → AllKeys (λ k. P k × Q k) fs
  AllKeys-and end h g = tt
  AllKeys-and (field k v fs) h g = ((h.0, g.0), AllKeys-and fs h.1 g.1)

pub AllKeys-get {ℓ} :
    (P : String → Type ℓ) (k : String) (fs : Fields) (v : Value)
    → AllKeys P fs
    → get k fs ≡ some v
    → P k
unfolding get
AllKeys-get P k end v h e = cc
AllKeys-get P k (field j w fs) v h e = elim (Bool-cases (str_eq j k)) [
  | inl same ↦ subst P ((eq_iff j k).0 same) h.0
  | inr other ↦ AllKeys-get P k fs v h.1 (rw (other, get) at e)
]

-- A key that is missing is none of the keys.
pub AllKeys-ne : (k : String) (fs : Fields) → get k fs ≡ none → AllKeys (λ j. k ≢ j) fs
unfolding get
AllKeys-ne k end e = tt
AllKeys-ne k (field j w fs) e = elim (Bool-cases (str_eq j k)) [
  | inl same ↦ absurd (cc (same, e))
  | inr other ↦ (λ p. cc (other, (eq_iff j k).1 (sym p)), AllKeys-ne k fs (rw (other, get) at e))
]

-- Every key stands in the list of the keys.
pub AllKeys-contains : (fs : Fields) → AllKeys (λ j. contains (keys fs) j ≡ true) fs
AllKeys-contains end = tt
AllKeys-contains (field k v fs) = (
  rw eq_refl,
  AllKeys-map (λ j. contains (keys fs) j ≡ true) (λ j. contains (k ∷ keys fs) j ≡ true) fs
      (λ j h. ground arith) (AllKeys-contains fs),
)
