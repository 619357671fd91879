-- ===== src/Config/Later.antt =====
-- States of the systems while they are extended, one later than the other, and the keys of maps that
-- grow.
use honeydipper.Common.{
  ◌⊎◌, false≢true, ℕ, suc, ◌≤◌, ◌≡◌, refl, sym, ◌∙◌, ap, Bool, true, false, String, Bool-cases, inl,
  inr, arith, str_eq, eq_iff, str_ne, if◌then◌else◌,
}
use honeydipper.Common.Assoc.{Assoc, lookup, insert, has}
use honeydipper.Config.Systems.{Extending}
use honeydipper.Config.Extended.{has-insert}

-- From one state to a later one, in which no system of rank `r` or more is processed that was not.
pub record Later (rank : String → ℕ) (r : ℕ) (e e' : Extending) : Type 0 where
  pub keeps :
      (n : String)
      → has n e.processed ≡ true
      → (has n e'.processed ≡ true) × (lookup n e'.systems ≡ lookup n e.systems)
  pub below : (n : String) → r ≤ rank n → has n e'.processed ≡ has n e.processed

module _ (rank : String → ℕ) where
  pub Later-refl : (r : ℕ) (e : Extending) → Later rank r e e
  Later-refl r e = record { keeps = λ n h. (h, refl); below = λ n h. refl }

  pub Later-trans :
      (r : ℕ) (e f g : Extending) → Later rank r e f → Later rank r f g → Later rank r e g
  Later-trans r e f g a b = record {
    keeps = λ n h. (let (p, q) = a.keeps n h in let (p', q') = b.keeps n p in (p', q' ∙ q));
    below = λ n h. b.below n h ∙ a.below n h;
  }

  pub Later-up : (r s : ℕ) (e f : Extending) → r ≤ s → Later rank r e f → Later rank s e f
  Later-up r s e f le a = record {
    keeps = a.keeps;
    below = λ n h. a.below n (omega (arith, le, h));
  }

pub processed-apart :
    (k n : String) (t : Assoc Bool) → has k t ≡ false → has n t ≡ true → str_eq k n ≡ false
processed-apart k n t h h' = str_ne k n (λ e. false≢true (sym h ∙ ap (λ i. has i t) e ∙ h'))

either : {b : Bool} (c : Bool) → b ≡ true → (if c then true else b) ≡ true
either true h = refl
either false h = h

pub still : (k n : String) (t : Assoc Bool) → has n t ≡ true → has n (insert k true t) ≡ true
still k n t h = has-insert k n true t ∙ either (str_eq k n) h

pub ranked_apart : (rank : String → ℕ) (k n : String) → suc (rank k) ≤ rank n → str_eq k n ≡ false
ranked_apart rank k n lt = str_ne k n (λ e. absurd (omega (arith, lt, ap rank e)))

-- What was processed before, when a key is added.
pub other_or_same :
    (k n : String) (t : Assoc Bool)
    → has n (insert k true t) ≡ true
    → (k ≡ n) ⊎ ((str_eq k n ≡ false) × (has n t ≡ true))
other_or_same k n t h = elim (Bool-cases (str_eq k n)) [
  | inl e ↦ inl ((eq_iff k n).0 e)
  | inr e ↦ inr (e, rw (has-insert, e) at h)
]

pub not_added :
    (k n : String) (t : Assoc Bool)
    → has n (insert k true t) ≡ false
    → (str_eq k n ≡ false) × (has n t ≡ false)
not_added k n t h = elim (Bool-cases (str_eq k n)) [
  | inl e ↦ absurd (false≢true (sym (rw (has-insert, e) at h)))
  | inr e ↦ (e, rw (has-insert, e) at h)
]
