-- ===== src/Drivers/Webhook/Verified.antt =====
-- Which systems a request counts as verified for.
use honeydipper.Common.{
  subst, ==_iff, arith, ℕ, Bool, true, false, Option, none, some, List, [], ◌∷◌, String, ◌≡◌, refl,
  sym, ap, ◌⊎◌, inl, inr, ◌↔◌, Option-cases, false≢true,
}
use honeydipper.Common.Assoc.{Assoc}
use honeydipper.Outcome.{done, ◌>>=◌, >>=-eq-done, done_injective}
use honeydipper.Text.{codes, codes_eq}
use honeydipper.Value.{Value, obj, Fields, get}
use mathlib.Core.Option.{some-injective}
use honeydipper.Dipper.MapData.{get_map_data}
use honeydipper.Dipper.Message.{Bytes}
use honeydipper.Drivers.Webhook.{of_strings, list, put, EventData, equal_fold}
use honeydipper.Drivers.Webhook.Signature.{
  try_secret, hex_decode, hashes, any_hash, equals_hash, find_signature, supported, secrets_of,
  signed_content, verify_signature, any_secret, try_secrets, same_header, verify_system, add_name,
  verified_systems, with_verified, verify_with, verify_systems, asserted_text,
}
use honeydipper.Drivers.Decides.{
  Decides-and_then, Decides-or_else, Decides-bind, Decides-some, Any, Decides,
}

codes_eq_iff : (xs ys : List ℕ) → (codes_eq xs ys ≡ true) ↔ (xs ≡ ys)
codes_eq_iff [] [] = (λ e. refl, λ e. refl)
codes_eq_iff [] (y ∷ ys) = (λ e. cc, λ e. cc)
codes_eq_iff (x ∷ xs) [] = (λ e. cc, λ e. cc)
codes_eq_iff (x ∷ xs) (y ∷ ys) = ground (arith, codes_eq_iff xs ys, ==_iff x y)

equals_hash-Decides :
    (expected : Bytes) (o : Option Bytes) → Decides (equals_hash expected o) (o ≡ some expected)
unfolding equals_hash
equals_hash-Decides expected none = tt
equals_hash-Decides expected (some actual) = (
  λ e. ap some (sym ((codes_eq_iff expected actual).0 e)),
  λ e. (codes_eq_iff expected actual).1 (sym (some-injective _ _ e)),
)

any_hash-Decides :
    (expected : Bytes) (hs : List String)
    → Decides (any_hash expected hs) (Any (λ h. hex_decode (codes h) ≡ some expected) hs)
unfolding any_hash
any_hash-Decides expected [] = (λ e. cc, λ h. absurd h)
any_hash-Decides expected (h ∷ hs) =
    Decides-or_else _ _ (equals_hash expected (hex_decode (codes h))) (any_hash expected hs)
      (equals_hash-Decides expected (hex_decode (codes h))) (any_hash-Decides expected hs)

Any-add_name :
    (system n : String) (good : Bool) (rest names : List String) (P Q : Type 0)
    → add_name n good rest ≡ names
    → ((good ≡ true) ↔ P)
    → (Any (λ m. m ≡ system) rest ↔ Q)
    → Any (λ m. m ≡ system) names ↔ (((n ≡ system) × P) ⊎ Q)
Any-add_name system n true rest names P Q made p q =
    subst (λ ns. Any (λ m. m ≡ system) ns ↔ (((n ≡ system) × P) ⊎ Q)) made
      (
        λ h. elim h [ inl x ↦ inl (x, p.0 refl) | inr y ↦ inr (q.0 y) ],
        λ h. elim h [ inl x ↦ inl x.0 | inr y ↦ inr (q.1 y) ],
      )
Any-add_name system n false rest names P Q made p q =
    subst (λ ns. Any (λ m. m ≡ system) ns ↔ (((n ≡ system) × P) ⊎ Q)) made
      (λ h. inr (q.0 h), λ h. elim h [ inl x ↦ absurd (false≢true (p.1 x.1)) | inr y ↦ q.1 y ])

module _ (mac : Bytes → Bytes → Bytes) (bytes : String → Bytes) (now : ℕ) (name actual : String)
    (e : EventData) where
  -- The header holds the MAC of the signed content under the secret.
  abbrev pub Signed : String → Type 0
  Signed secret =
      (content : Bytes) × (signed_content mac bytes now name e ≡ done content)
      × Any (λ h. hex_decode (codes h) ≡ some (mac (bytes secret) content)) (hashes name actual)

  -- The system expects this header, and one of its secrets has signed.
  abbrev pub SignedFor : Fields → Type 0
  SignedFor sys =
      ((v : Value) × (get "signatureHeader" sys ≡ some v)
        × ((s : String) × (asserted_text v ≡ done s) × (equal_fold s name ≡ true)))
      × ((v : Value) × (get_map_data (obj sys) "signatureSecret" ≡ some v)
          × Any (λ w. (s : String) × (asserted_text w ≡ done s) × Signed s) (secrets_of v))

  verify_signature-Decides :
      (secret : String)
      → Decides (verify_signature mac bytes now name actual secret e) (Signed secret)
  unfolding verify_signature
  verify_signature-Decides secret =
      Decides-bind
        (λ c. Any (λ h. hex_decode (codes h) ≡ some (mac (bytes secret) c)) (hashes name actual))
        (signed_content mac bytes now name e)
        (λ c. any_hash (mac (bytes secret) c) (hashes name actual))
        (λ c. any_hash-Decides (mac (bytes secret) c) (hashes name actual))

  any_secret-Decides :
      (vs : List Value)
      → Decides
          (any_secret mac bytes now name actual vs e)
          (Any (λ w. (s : String) × (asserted_text w ≡ done s) × Signed s) vs)
  unfolding any_secret try_secret
  any_secret-Decides [] = (λ e. cc, λ h. absurd h)
  any_secret-Decides (v ∷ vs) =
      Decides-or_else _ _ (try_secret mac bytes now name actual v e)
        (any_secret mac bytes now name actual vs e)
        (Decides-bind Signed (asserted_text v) (λ s. verify_signature mac bytes now name actual s e)
          verify_signature-Decides)
        (any_secret-Decides vs)

  same_header-Decides :
      (o : Option Value)
      → Decides (same_header name o) (
          (v : Value) × (o ≡ some v)
          × ((s : String) × (asserted_text v ≡ done s) × (equal_fold s name ≡ true)))
  unfolding same_header
  same_header-Decides none = (λ q. cc, λ h. cc)
  same_header-Decides (some v) =
      Decides-some (λ w. (s : String) × (asserted_text w ≡ done s) × (equal_fold s name ≡ true)) v
        (asserted_text v >>= λ s. done (equal_fold s name))
        (Decides-bind (λ s. equal_fold s name ≡ true) (asserted_text v)
          (λ s. done (equal_fold s name)) (λ s. (λ q. q, λ q. q)))

  try_secrets-Decides :
      (o : Option Value)
      → Decides (try_secrets mac bytes now name actual o e) (
          (v : Value) × (o ≡ some v)
          × Any (λ w. (s : String) × (asserted_text w ≡ done s) × Signed s) (secrets_of v))
  unfolding try_secrets
  try_secrets-Decides none = (λ q. cc, λ h. cc)
  try_secrets-Decides (some v) =
      Decides-some
        (λ u. Any (λ w. (s : String) × (asserted_text w ≡ done s) × Signed s) (secrets_of u)) v
        (any_secret mac bytes now name actual (secrets_of v) e) (any_secret-Decides (secrets_of v))

  verify_system-Decides :
      (sys : Fields) → Decides (verify_system mac bytes now name actual sys e) (SignedFor sys)
  unfolding verify_system
  verify_system-Decides sys =
      Decides-and_then _ _ (same_header name (get "signatureHeader" sys))
        (try_secrets mac bytes now name actual (get_map_data (obj sys) "signatureSecret") e)
        (same_header-Decides (get "signatureHeader" sys))
        (try_secrets-Decides (get_map_data (obj sys) "signatureSecret"))

  verified_systems-Signed :
      (systems : Assoc Fields) (names : List String)
      → verified_systems mac bytes now name actual systems e ≡ done names
      → (system : String)
      → Any (λ n. n ≡ system) names ↔ Any (λ (n, sys). (n ≡ system) × SignedFor sys) systems
  unfolding verified_systems
  verified_systems-Signed [] names h system =
      subst (λ ns. Any (λ n. n ≡ system) ns ↔ ⊥) (done_injective h) (λ x. x, λ x. x)
  verified_systems-Signed ((n, sys) ∷ systems) names h system =
      let (good, g, h') = >>=-eq-done (verify_system mac bytes now name actual sys e) _ h in
      let (rest, r, made) =
        >>=-eq-done (verified_systems mac bytes now name actual systems e) _ h' in
      Any-add_name system n good rest names _ _ (done_injective made)
        (subst (λ o. Decides o (SignedFor sys)) g (verify_system-Decides sys))
        (verified_systems-Signed systems rest r system)

-- What is known of the data `e'` that verifySystems makes of `e`.
abbrev pub Verified :
    (Bytes → Bytes → Bytes) → (String → Bytes) → ℕ → Assoc Fields → EventData → EventData → Type 0
Verified mac bytes now systems e e' =
    ((find_signature supported e.received ≡ none) × (e' ≡ e))
    ⊎ ((name : String) × (actual : String) × (names : List String) × (find_signature supported
            e.received
          ≡ some (name, actual))
        × (e'.content ≡ put "verifiedSystem" (list (of_strings names)) e.content)
        × ((system : String)
            → Any (λ n. n ≡ system) names
              ↔ Any (λ (n, sys). (n ≡ system) × SignedFor mac bytes now name actual e sys) systems))

-- A request without a signature leaves the data of the event as it is. One that has a signature in a
-- header that is supported, the first of them, lists under `verifiedSystem` exactly the systems
-- which expect that header and one of whose secrets gives a hash of the header as the MAC of what is
-- signed; so it is whenever verifySystems does not panic.
pub verify_systems-SignedFor :
    (mac : Bytes → Bytes → Bytes) (bytes : String → Bytes) (now : ℕ) (systems : Assoc Fields)
    (e e' : EventData)
    → verify_systems mac bytes now systems e ≡ done e'
    → Verified mac bytes now systems e e'
unfolding verify_systems verify_with with_verified
verify_systems-SignedFor mac bytes now systems e e' h =
    elim (Option-cases (find_signature supported e.received)) [
      | inr f ↦ inl (f, sym (done_injective (rw (f, verify_systems) at h)))
      | inl ((name, actual), f) ↦
          (let (names, v, made) =
              >>=-eq-done (verified_systems mac bytes now name actual systems e) _
                (rw (f, verify_systems) at h) in
            inr (
              name,
              actual,
              names,
              f,
              ap (λ d. d.content) (sym (done_injective made)),
              verified_systems-Signed mac bytes now name actual e systems names v,
            ))
    ]
