-- ===== src/Dipper/Merge/Fuel.antt =====
-- mergeModifier ends: it goes no deeper than the maps that it is given.
use honeydipper.Common.{
  ℕ, zero, suc, ◌≤◌, ◌<◌, ◌≡◌, refl, Bool, true, false, Option, none, some, List, [], ◌∷◌, String,
  if◌then◌else◌, ◌==◌, arith, Option-cases, inl, inr, Bool-cases,
}
use honeydipper.Outcome.{Outcome, done, Safe, Safe-bind}
use honeydipper.Text.{last_code, drop_last}
use honeydipper.Value.{
  Value, null, str, list, obj, Fields, get, put, remove, keys, depth_fields, depth,
}
use honeydipper.Value.Laws.{depth-get, depth-put, depth-remove}
use honeydipper.Dipper.Merge.{
  set_default, default_step, for_keys, append_value, appended, append_step, nested_step, modify,
  modify_step, merge_modifier,
}

-- A map that is returned is at most `n` deep.
abbrev pub Within : ℕ → Outcome Fields → Type 0
Within n r = Safe (λ fs. depth_fields fs ≤ n) r

for_keys-Within :
    (n : ℕ) (body : String → Fields → Outcome Fields)
    → ((k : String) (fs : Fields) → depth_fields fs ≤ n → Within n (body k fs))
    → (ks : List String) (fs : Fields) → depth_fields fs ≤ n
    → Within n (for_keys body ks fs)
unfolding for_keys
for_keys-Within n body h [] fs d = d
for_keys-Within n body h (k ∷ ks) fs d =
    Safe-bind (λ gs. depth_fields gs ≤ n) (λ gs. depth_fields gs ≤ n) (body k fs) (for_keys body ks)
      (h k fs d) (for_keys-Within n body h ks)

depth-set_default :
    (n : ℕ) (k : String) (v : Value) (dst : Fields)
    → depth v ≤ n
    → depth_fields dst ≤ n
    → depth_fields (set_default k v dst) ≤ n
unfolding set_default
depth-set_default n k v dst h d = ground (
  arith,
  depth-put (drop_last k) v dst n,
  depth-remove k (put (drop_last k) v dst),
  depth-remove k dst,
)

set_if-Within :
    (n : ℕ) (b : Bool) (fs gs : Fields)
    → depth_fields fs ≤ n
    → depth_fields gs ≤ n
    → Within n (done (if b then fs else gs))
set_if-Within n true fs gs p q = p
set_if-Within n false fs gs p q = q

default_step-Within :
    (n : ℕ) (k : String) (dst : Fields) → depth_fields dst ≤ n → Within n (default_step k dst)
unfolding default_step
default_step-Within n k dst d = elim (Option-cases (get k dst)) [
  | inr e ↦ rw (e, default_step) d
  | inl (v, e) ↦ elim (Option-cases (last_code k)) [
    | inr f ↦ rw (e, f, default_step) (λ p. cc)
    | inl (c, f) ↦
        rw (e, f, default_step)
          (set_if-Within n (c == b'-') (set_default k v dst) dst
            (depth-set_default n k v dst (omega (arith, depth-get k dst v e)) d) d)
  ]
]

-- What is put together by `+` is no map, or was there before.
append_value-Safe :
    (n : ℕ) (ev v : Value) → depth ev ≤ n → Safe (λ w. depth w ≤ n) (append_value ev v)
unfolding depth
append_value-Safe n (str x) (str y) d = omega arith
append_value-Safe n (list xs) (list ys) d = omega arith
append_value-Safe n ev null d = ground arith
append_value-Safe n _ _ d = λ p. cc

appended-Safe :
    (n : ℕ) (o : Option Value) (v : Value)
    → ((e : Value) → o ≡ some e → depth e ≤ n)
    → depth v ≤ n
    → Safe (λ w. depth w ≤ n) (appended o v)
appended-Safe n none v h d = d
appended-Safe n (some null) v h d = d
appended-Safe n (some ev) v h d = append_value-Safe n ev v (h ev refl)

module _ (n : ℕ) (k : String) (v : Value) (dst : Fields) (dv : depth v ≤ n)
    (d : depth_fields dst ≤ n) where
  depth-moved : (w : Value) → depth w ≤ n → depth_fields (remove k (put (drop_last k) w dst)) ≤ n
  depth-moved w dw =
      omega (arith, depth-put (drop_last k) w dst n dw d, depth-remove k (put (drop_last k) w dst))

  append_step-Within : Within n (append_step k v dst)
  append_step-Within =
      Safe-bind (λ w. depth w ≤ n) (λ gs. depth_fields gs ≤ n) (appended (get (drop_last k) dst) v)
        (λ w. done (remove k (put (drop_last k) w dst)))
        (appended-Safe n (get (drop_last k) dst) v
          (λ e p. omega (arith, depth-get (drop_last k) dst e p)) dv)
        depth-moved

module _ (n : ℕ) (rec : Fields → Outcome Fields)
    (h : (fs : Fields) → depth_fields fs < n → Within (depth_fields fs) (rec fs)) where
  nested_step-Within :
      (k : String) (v : Value) (dst : Fields)
      → depth v ≤ n
      → depth_fields dst ≤ n
      → Within n (nested_step rec k v dst)
  unfolding depth
  nested_step-Within k (obj vmap) dst dv d =
      Safe-bind (λ gs. depth_fields gs ≤ depth_fields vmap) (λ gs. depth_fields gs ≤ n) (rec vmap)
        (λ gs. done (put k (obj gs) dst)) (h vmap dv)
        (λ gs dg. depth-put k (obj gs) dst n (omega arith) d)
  nested_step-Within k _ dst dv d = d

  modify-Within :
      (c : ℕ) (k : String) (v : Value) (dst : Fields)
      → depth v ≤ n
      → depth_fields dst ≤ n
      → Within n (modify rec c k v dst)
  modify-Within c k v dst dv d = elim (Bool-cases (c == b'+')) [
    | inl e ↦ rw (e, modify) (append_step-Within n k v dst dv d)
    | inr e ↦ elim (Bool-cases (c == b'*')) [
      | inl f ↦ rw (e, f, modify) (depth-moved n k v dst dv d v dv)
      | inr f ↦ rw (e, f, modify) (nested_step-Within k v dst dv d)
    ]
  ]

  modify_step-Within :
      (k : String) (dst : Fields) → depth_fields dst ≤ n → Within n (modify_step rec k dst)
  unfolding modify_step
  modify_step-Within k dst d = elim (Option-cases (get k dst)) [
    | inr e ↦ rw (e, modify_step) d
    | inl (v, e) ↦ elim (Option-cases (last_code k)) [
      | inr f ↦ rw (e, f, modify_step) (λ p. cc)
      | inl (c, f) ↦
          rw (e, f, modify_step) (modify-Within c k v dst (omega (arith, depth-get k dst v e)) d)
    ]
  ]

-- Fuel above the depth of the maps is enough: mergeModifier returns a map that is no deeper than
-- the one it was given, or panics as the program does; the recursion ends on every input.
pub merge_modifier-Within :
    (f : ℕ) (dst : Fields) → depth_fields dst < f → Within (depth_fields dst) (merge_modifier f dst)
unfolding merge_modifier
merge_modifier-Within zero dst h = absurd (omega arith)
merge_modifier-Within (suc f) dst h =
    let n = depth_fields dst in
    Safe-bind (λ gs. depth_fields gs ≤ n) (λ gs. depth_fields gs ≤ n)
      (for_keys default_step (keys dst) dst)
      (λ dst'. for_keys (modify_step (merge_modifier f)) (keys dst') dst')
      (for_keys-Within n default_step (default_step-Within n) (keys dst) dst (omega arith))
      (λ dst' d.
        for_keys-Within n (modify_step (merge_modifier f))
          (modify_step-Within n (merge_modifier f)
            (λ fs lt. merge_modifier-Within f fs (omega arith)))
          (keys dst') dst' d)
