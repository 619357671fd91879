-- ===== src/Dipper/Merge/Plain.antt =====
-- The modifiers `-`, `+` and `*` at the end of keys are gone after a merge.
use honeydipper.Common.{
  Char, ℕ, zero, suc, ◌≡◌, ◌≢◌, refl, Bool, true, false, not, ◌||◌, none, some, List, [], ◌∷◌,
  String, ◌==◌, arith, Option-cases, inl, inr, Bool-cases,
}
use honeydipper.Outcome.{Holds-any, Holds-mono, Outcome, done, Holds, Holds-bind, Holds-done}
use honeydipper.Text.{last_code, drop_last}
use honeydipper.Value.{Value, obj, Fields, get, put, remove, keys}
use honeydipper.Value.Laws.{AllKeys, AllKeys-put, AllKeys-map, AllKeys-get}
use honeydipper.Dipper.Merge.{
  is_unset, set_default, default_step, for_keys, appended, append_step, nested_step, modify,
  modify_step, merge_modifier,
}
use honeydipper.Dipper.Merge.Visits.{
  Left, kept, missing, dropped, moved, all-Left, none-Left, for_keys-Left,
}

-- The key ends in `-`; in `+` or `*`; in none of the three.
abbrev pub is_default : String → Bool
is_default k = elim (last_code k) [ none ↦ false | some c ↦ c == b'-' ]

abbrev pub is_change : String → Bool
is_change k = elim (last_code k) [ none ↦ false | some c ↦ c == b'+' || c == b'*' ]

abbrev pub is_plain : String → Bool
is_plain k = elim (last_code k) [
  | none ↦ false
  | some c ↦ not (c == b'-' || c == b'+' || c == b'*')
]

-- At most one modifier stands at the end of the key.
abbrev pub is_single : String → Bool
is_single k = is_plain k || is_plain (drop_last k)

-- The first loop: the keys with `-` go.
default_base :
    (k : String)
    → is_default k ≡ true
    → is_single k ≡ true
    → (is_single (drop_last k) ≡ true) × (is_default (drop_last k) ≡ false)
default_base k d s = ground arith

abbrev Defaults : List String → String → Type 0
Defaults = Left is_default (λ j. is_single j ≡ true) default_base

set_default-Left :
    (k : String) (v : Value) (ks : List String) (fs : Fields)
    → is_default k ≡ true
    → is_single k ≡ true
    → AllKeys (Defaults (k ∷ ks)) fs
    → AllKeys (Defaults ks) (set_default k v fs)
unfolding set_default
set_default-Left k v ks fs m r h = elim (Bool-cases (is_unset (get (drop_last k) fs))) [
  | inl e ↦
      rw (e, set_default) (moved is_default (λ j. is_single j ≡ true) default_base k v ks fs m r h)
  | inr e ↦
      rw (e, set_default) (dropped is_default (λ j. is_single j ≡ true) default_base k ks fs h)
]

default_step-Left :
    (k : String) (ks : List String) (fs : Fields)
    → AllKeys (Defaults (k ∷ ks)) fs
    → Holds (AllKeys (Defaults ks)) (default_step k fs)
unfolding default_step
default_step-Left k ks fs h = elim (Option-cases (get k fs)) [
  | inr e ↦
      rw (e, default_step) (missing is_default (λ j. is_single j ≡ true) default_base k ks fs e h)
  | inl (v, e) ↦ elim (Option-cases (last_code k)) [
    | inr f ↦ rw (e, f, default_step) tt
    | inl (c, f) ↦ elim (Bool-cases (c == b'-')) [
      | inl d ↦
          rw (e, f, d, default_step)
            (set_default-Left k v ks fs (ground arith)
              (AllKeys-get (Defaults (k ∷ ks)) k fs v h e).0 h)
      | inr d ↦
          rw (e, f, d, default_step)
            (kept is_default (λ j. is_single j ≡ true) default_base k ks fs (ground arith) h)
    ]
  ]
]

-- The second loop: the keys with `+` and `*` go, and none with `-` comes back.
abbrev IsTidy : String → Type 0
IsTidy j = (is_single j ≡ true) × (is_default j ≡ false)

change_base :
    (k : String)
    → is_change k ≡ true
    → IsTidy k
    → IsTidy (drop_last k) × (is_change (drop_last k) ≡ false)
change_base k c s = ground arith

abbrev Changes : List String → String → Type 0
Changes = Left is_change IsTidy change_base

module _ (rec : Fields → Outcome Fields) (k : String) (ks : List String) (fs : Fields)
    (h : AllKeys (Changes (k ∷ ks)) fs) where
  append_step-Left :
      (v : Value)
      → is_change k ≡ true
      → IsTidy k
      → Holds (AllKeys (Changes ks)) (append_step k v fs)
  append_step-Left v m r =
      Holds-bind (λ w. Unit) (AllKeys (Changes ks)) (appended (get (drop_last k) fs) v)
        (λ w. done (remove k (put (drop_last k) w fs)))
        (Holds-any (appended (get (drop_last k) fs) v))
        (λ w _. moved is_change IsTidy change_base k w ks fs m r h)

  nested_step-Left :
      (v : Value)
      → is_change k ≡ false
      → IsTidy k
      → Holds (AllKeys (Changes ks)) (nested_step rec k v fs)
  nested_step-Left (obj vmap) m r =
      Holds-bind (λ w. Unit) (AllKeys (Changes ks)) (rec vmap) (λ w. done (put k (obj w) fs))
        (Holds-any (rec vmap))
        (λ w _.
          AllKeys-put (Changes ks) k (obj w) fs (r, inl m)
            (kept is_change IsTidy change_base k ks fs m h))
  nested_step-Left _ m r = kept is_change IsTidy change_base k ks fs m h

  modify-Left :
      (c : ℕ) (v : Value)
      → last_code k ≡ some c
      → IsTidy k
      → Holds (AllKeys (Changes ks)) (modify rec c k v fs)
  modify-Left c v f r = elim (Bool-cases (c == b'+')) [
    | inl e ↦ rw (e, modify) (append_step-Left v (ground arith) r)
    | inr e ↦ elim (Bool-cases (c == b'*')) [
      | inl g ↦ rw (e, g, modify) (moved is_change IsTidy change_base k v ks fs (ground arith) r h)
      | inr g ↦ rw (e, g, modify) (nested_step-Left v (ground arith) r)
    ]
  ]

  modify_step-Left : Holds (AllKeys (Changes ks)) (modify_step rec k fs)
  unfolding modify_step
  modify_step-Left = elim (Option-cases (get k fs)) [
    | inr e ↦ rw (e, modify_step) (missing is_change IsTidy change_base k ks fs e h)
    | inl (v, e) ↦ elim (Option-cases (last_code k)) [
      | inr f ↦ rw (e, f, modify_step) tt
      | inl (c, f) ↦
          rw (e, f, modify_step) (modify-Left c v f (AllKeys-get (Changes (k ∷ ks)) k fs v h e).0)
    ]
  ]

last_code-ne-none : (c : Char) (s : String) → last_code (String.◌∷◌ c s) ≢ none
last_code-ne-none c String.[] = λ e. cc
last_code-ne-none c (String.◌∷◌ d s) = last_code-ne-none d s

last_code-drop_last : (j : String) → last_code j ≡ none → last_code (drop_last j) ≡ none
last_code-drop_last String.[] e = refl
last_code-drop_last (String.◌∷◌ c s) e = absurd (last_code-ne-none c s e)

plain_of_tidy : (j : String) → IsTidy j × (is_change j ≡ false) → is_plain j ≡ true
plain_of_tidy j h = ground (arith, last_code-drop_last j)

-- If every key of a map ends in at most one modifier, and mergeModifier returns a map, then no key
-- of that map ends in `-`, `+` or `*`.
pub merge_modifier-plain :
    (f : ℕ) (dst r : Fields)
    → AllKeys (λ k. is_single k ≡ true) dst
    → merge_modifier f dst ≡ done r
    → AllKeys (λ k. is_plain k ≡ true) r
unfolding merge_modifier
merge_modifier-plain zero dst r h e = cc
merge_modifier-plain (suc f) dst r h e =
    Holds-done (AllKeys (λ k. is_plain k ≡ true)) (merge_modifier (suc f) dst)
      (Holds-bind (AllKeys (Defaults [])) (AllKeys (λ k. is_plain k ≡ true))
        (for_keys default_step (keys dst) dst)
        (λ dst'. for_keys (modify_step (merge_modifier f)) (keys dst') dst')
        (for_keys-Left is_default (λ j. is_single j ≡ true) default_base default_step
          default_step-Left (keys dst) dst
          (all-Left is_default (λ j. is_single j ≡ true) default_base dst h))
        (λ dst' h'.
          second dst' (none-Left is_default (λ j. is_single j ≡ true) default_base dst' h')))
      e
  where
    second :
        (dst' : Fields)
        → AllKeys IsTidy dst'
        → Holds
            (AllKeys (λ k. is_plain k ≡ true))
            (for_keys (modify_step (merge_modifier f)) (keys dst') dst')
    second dst' t =
        Holds-mono (AllKeys (Changes [])) (AllKeys (λ k. is_plain k ≡ true))
          (for_keys (modify_step (merge_modifier f)) (keys dst') dst')
          (λ fs c.
            AllKeys-map (λ j. IsTidy j × (is_change j ≡ false)) (λ k. is_plain k ≡ true) fs
              plain_of_tidy (none-Left is_change IsTidy change_base fs c))
          (for_keys-Left is_change IsTidy change_base (modify_step (merge_modifier f))
            (modify_step-Left (merge_modifier f)) (keys dst') dst'
            (all-Left is_change IsTidy change_base dst' t))
