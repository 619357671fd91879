-- ===== src/Drivers/Decides.antt =====
-- Tests that may panic, and the statements that they decide. Used by the drivers.
use honeydipper.Common.{
  subst, Bool, true, false, some, List, [], ◌∷◌, ◌≡◌, refl, sym, ◌⊎◌, inl, inr, ◌↔◌, false≢true,
}
use honeydipper.Outcome.{Outcome, done, panic, ◌>>=◌, done_injective}
use mathlib.Core.Option.{some-injective}
use honeydipper.Dipper.Condition.{and_then, or_else}

-- Some entry of the list satisfies `P`.
abbrev pub Any {ℓ} : {A : Type ℓ} → (A → Type 0) → List A → Type 0
Any P [] = ⊥
Any P (x ∷ xs) = P x ⊎ Any P xs

-- A test that has returned a flag says whether `P` holds.
abbrev pub Decides : Outcome Bool → Type 0 → Type 0
Decides (done b) P = (b ≡ true) ↔ P
Decides (panic e) P = Unit

pub Decides-or_else :
    (P Q : Type 0) (m n : Outcome Bool) → Decides m P → Decides n Q → Decides (or_else m n) (P ⊎ Q)
Decides-or_else P Q (done true) n p q = (λ e. inl (p.0 e), λ h. refl)
Decides-or_else P Q (done false) (done b) p q =
    (λ e. inr (q.0 e), λ h. elim h [ inl x ↦ absurd (false≢true (p.1 x)) | inr y ↦ q.1 y ])
Decides-or_else P Q (done false) (panic e) p q = tt
Decides-or_else P Q (panic e) n p q = tt

pub Decides-and_then :
    (P Q : Type 0) (m n : Outcome Bool) → Decides m P → Decides n Q → Decides (and_then m n) (P × Q)
Decides-and_then P Q (done true) (done b) p q = (λ e. (p.0 refl, q.0 e), λ h. q.1 h.1)
Decides-and_then P Q (done true) (panic e) p q = tt
Decides-and_then P Q (done false) n p q = (λ e. cc, λ h. p.1 h.0)
Decides-and_then P Q (panic e) n p q = tt

Decides-done :
    {A : Type 0} (P : A → Type 0) (a : A) (o : Outcome Bool)
    → Decides o (P a)
    → Decides o ((b : A) × (done a ≡ done b) × P b)
Decides-done P a (panic e) d = tt
Decides-done P a (done b) d =
    (λ e. (a, refl, d.0 e), λ h. d.1 (subst P (sym (done_injective h.1)) h.2))

pub Decides-some :
    {A : Type 0} (P : A → Type 0) (a : A) (o : Outcome Bool)
    → Decides o (P a)
    → Decides o ((b : A) × (some a ≡ some b) × P b)
Decides-some P a (panic e) d = tt
Decides-some P a (done b) d =
    (λ e. (a, refl, d.0 e), λ h. d.1 (subst P (sym (some-injective _ _ h.1)) h.2))

-- A test on what a computation returns.
pub Decides-bind :
    {A : Type 0} (P : A → Type 0) (m : Outcome A) (f : A → Outcome Bool)
    → ((a : A) → Decides (f a) (P a))
    → Decides (m >>= f) ((a : A) × (m ≡ done a) × P a)
Decides-bind P (panic e) f h = tt
Decides-bind P (done a) f h = Decides-done P a (f a) (h a)
