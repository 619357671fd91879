-- ===== src/Outcome.antt =====
-- A Go function that may panic: its value, or the reason of the panic. A `do` block stops at the
-- first panic.
use honeydipper.Common.{inr, inl, ◌⊎◌, Bool, true, false, ◌≡◌, ◌≢◌, refl}

pub data Fault : Type 0 where
  -- errors that the source raises by `panic`
  map_error number_error merge_failed workflow_error hook_overlap interpolation_error : Fault
  -- panics of the Go runtime and of package reflect
  index_out_of_range type_assertion nil_map reflect_misuse nil_pointer : Fault
  -- errors of the wire format and of JSON, raised by `panic`
  end_of_input unexpected_end invalid_envelope bad_label_name bad_label_value json_error : Fault
  -- errors of the drivers, raised by `panic`
  hash_error replay_attack hex_error unsupported_scheme bad_credentials skipped_scheme nil_panic :
      Fault
  -- the configuration went back to the last one, or was replaced
  config_rollback : Fault
  -- the model's own: the fuel of a recursion is used up
  out_of_fuel : Fault

pub data Outcome {ℓ} (A : Type ℓ) : Type ℓ where
  done : A → Outcome A
  panic : Fault → Outcome A

infixl 5 ◌>>=◌ ◌>>◌
abbrev pub ◌>>=◌ {ℓ κ} : {A : Type ℓ} {B : Type κ} → Outcome A → (A → Outcome B) → Outcome B
done a >>= f = f a
panic e >>= f = panic e

abbrev pub ◌>>◌ {ℓ} : {B : Type ℓ} → Outcome (Unit {0}) → Outcome B → Outcome B
m >> k = m >>= λ _. k

abbrev pub is_done {ℓ} : {A : Type ℓ} → Outcome A → Bool
is_done (done a) = true
is_done (panic e) = false

-- Inversion of a successful bind.
pub >>=-eq-done {ℓ κ} :
    {A : Type ℓ} {B : Type κ} (m : Outcome A) (f : A → Outcome B) {b : B}
    → (m >>= f) ≡ done b
    → (a : A) × (m ≡ done a) × (f a ≡ done b)
>>=-eq-done (done a) f h = (a, refl, h)
>>=-eq-done (panic e) f h = cc

-- The same where a function is applied to the result.
pub mapped-eq-done {ℓ κ} :
    {A : Type ℓ} {B : Type κ} (m : Outcome A) (g : A → B) {b : B}
    → (m >>= λ a. done (g a)) ≡ done b
    → (a : A) × (m ≡ done a) × (b ≡ g a)
mapped-eq-done (done a) g h = (a, refl, cc)
mapped-eq-done (panic e) g h = cc

pub done_injective {ℓ} : {A : Type ℓ} {a b : A} → done a ≡ done b → a ≡ b
done_injective h = cc

-- The panic is one of the program's, and no lack of fuel.
abbrev pub IsReal : Fault → Type 0
IsReal e = e ≢ out_of_fuel

-- A value that is returned satisfies `P`, and the fuel does not run out.
abbrev pub Safe {ℓ} : {A : Type ℓ} → (A → Type 0) → Outcome A → Type 0
Safe P (done a) = P a
Safe P (panic e) = IsReal e

pub Safe-bind {ℓ κ} :
    {A : Type ℓ} {B : Type κ} (P : A → Type 0) (Q : B → Type 0) (m : Outcome A) (f : A → Outcome B)
    → Safe P m
    → ((a : A) → P a → Safe Q (f a))
    → Safe Q (m >>= f)
Safe-bind P Q (done a) f h k = k a h
Safe-bind P Q (panic e) f h k = h

-- It returns, or panics as the program does.
abbrev pub Sound {ℓ} : {A : Type ℓ} → Outcome A → Type 0
Sound m = Safe (λ _. Unit) m

pub Sound-bind {ℓ κ} :
    {A : Type ℓ} {B : Type κ} (m : Outcome A) (f : A → Outcome B)
    → Sound m
    → ((a : A) → Sound (f a))
    → Sound (m >>= f)
Sound-bind m f h k = Safe-bind (λ _. Unit) (λ _. Unit) m f h (λ a _. k a)

-- A value that is returned satisfies `P`.
abbrev pub Holds {ℓ} : {A : Type ℓ} → (A → Type 0) → Outcome A → Type 0
Holds P (done a) = P a
Holds P (panic e) = Unit

pub Holds-bind {ℓ κ} :
    {A : Type ℓ} {B : Type κ} (P : A → Type 0) (Q : B → Type 0) (m : Outcome A) (f : A → Outcome B)
    → Holds P m
    → ((a : A) → P a → Holds Q (f a))
    → Holds Q (m >>= f)
Holds-bind P Q (done a) f h k = k a h
Holds-bind P Q (panic e) f h k = tt

pub Holds-done {ℓ} :
    {A : Type ℓ} (P : A → Type 0) (r : Outcome A) {a : A} → Holds P r → r ≡ done a → P a
Holds-done P r h e = rw e at h

pub Holds-any {ℓ} : {A : Type ℓ} (m : Outcome A) → Holds (λ _. Unit) m
Holds-any (done a) = tt
Holds-any (panic e) = tt

pub Holds-mono {ℓ} :
    {A : Type ℓ} (P Q : A → Type 0) (m : Outcome A) → ((a : A) → P a → Q a) → Holds P m → Holds Q m
Holds-mono P Q (done a) f h = f a h
Holds-mono P Q (panic e) f h = tt

pub Outcome-cases :
    {A : Type 0} (r : Outcome A) → ((a : A) × (r ≡ done a)) ⊎ ((e : Fault) × (r ≡ panic e))
Outcome-cases (done a) = inl (a, refl)
Outcome-cases (panic e) = inr (e, refl)
