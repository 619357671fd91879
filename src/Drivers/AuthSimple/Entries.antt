-- ===== src/Drivers/AuthSimple/Entries.antt =====
-- The entries of the options that a test passes, and the verdict that they give.
use honeydipper.Common.{
  false≢true, eq_iff, ◌↔◌, Bool, true, false, Option, none, some, String, ◌≡◌, refl, ap, subst, ◌⊎◌,
  inl, inr, str_eq,
}
use honeydipper.Outcome.{Outcome, done, >>=-eq-done, done_injective}
use honeydipper.Value.{Value, list, obj, Items, nil, cons, Fields, get}
use honeydipper.Drivers.Decides.{Decides, Decides-bind, Decides-and_then}
use honeydipper.Drivers.AuthSimple.{
  and_then, password_matches, granted, asserted_map, asserted_items, asserted_text, subject_of,
  grant_if, find_entry, among, token_matches, user_matches,
}

-- The first entry that satisfies `P` has the subject.
abbrev pub First : (Fields → Type 0) → String → Items → Type 0
First P subject nil = ⊥
First P subject (cons v vs) =
    (entry : Fields) × (v ≡ obj entry)
    × ((P entry × (subject_of (get "subject" entry) ≡ done (granted subject)))
        ⊎ ((P entry → ⊥) × First P subject vs))

pub record Knows (P : Fields → Type 0) (known : Option Value) (subject : String) : Type 0 where
  pub listed : Items
  pub is_list : known ≡ some (list listed)
  pub first : First P subject listed

asserted_map-obj : (v : Value) (fs : Fields) → asserted_map v ≡ done fs → v ≡ obj fs
unfolding asserted_map
asserted_map-obj (obj gs) fs h = ap obj (done_injective h)
asserted_map-obj _ fs h = cc

asserted_items-list : (v : Value) (vs : Items) → asserted_items v ≡ done vs → v ≡ list vs
unfolding asserted_items
asserted_items-list (list ws) vs h = ap list (done_injective h)
asserted_items-list _ vs h = cc

module _ (test : Fields → Outcome Bool) (P : Fields → Type 0)
    (decides : (entry : Fields) → Decides (test entry) (P entry)) (subject : String) where
  grant_if-First :
      (v : Value) (vs : Items) (entry : Fields) (b : Bool)
      → v ≡ obj entry
      → ((b ≡ true) ↔ P entry)
      → grant_if b entry (find_entry test vs) ≡ done (granted subject)
      → (find_entry test vs ≡ done (granted subject) → First P subject vs)
      → First P subject (cons v vs)
  unfolding grant_if
  grant_if-First v vs entry true m t h rec = (entry, m, inl (t.0 refl, h))
  grant_if-First v vs entry false m t h rec = (entry, m, inr (λ p. false≢true (t.1 p), rec h))

  find_entry-First : (vs : Items) → find_entry test vs ≡ done (granted subject) → First P subject vs
  unfolding find_entry
  find_entry-First nil h = cc
  find_entry-First (cons v vs) h =
      let (entry, m, h') = >>=-eq-done (asserted_map v) _ h in
      let (b, t, h'') = >>=-eq-done (test entry) _ h' in
      grant_if-First v vs entry b (asserted_map-obj v entry m)
        (subst (λ o. Decides o (P entry)) t (decides entry)) h'' (find_entry-First vs)

  pub among-Knows : (o : Option Value) → among test o ≡ done (granted subject) → Knows P o subject
  unfolding among
  among-Knows none h = cc
  among-Knows (some v) h =
      let (vs, a, h') = >>=-eq-done (asserted_items v) _ h in
      record {
        listed = vs;
        is_list = ap some (asserted_items-list v vs a);
        first = find_entry-First vs h';
      }

-- An entry with this token, by the hash that it holds.
abbrev pub HasToken : (String → String → Bool) → String → Fields → Type 0
HasToken bcrypt token entry =
    (hash : String) × (asserted_text (get "token" entry) ≡ done hash) × (bcrypt hash token ≡ true)

-- An entry with this name and this password, by the hash that it holds.
abbrev pub HasUser : (String → String → Bool) → String → String → Fields → Type 0
HasUser bcrypt user pass entry =
    (name : String) × (asserted_text (get "name" entry) ≡ done name)
    × ((name ≡ user)
        × ((hash : String) × (asserted_text (get "pass" entry) ≡ done hash)
            × (bcrypt hash pass ≡ true)))

module _ (bcrypt : String → String → Bool) (basic_auth : String → Option (String × String))
    (decrypt_all : Value → Outcome Value) where
  pub token_matches-Decides :
      (token : String) (entry : Fields)
      → Decides
          (token_matches bcrypt basic_auth decrypt_all token entry)
          (HasToken bcrypt token entry)
  unfolding token_matches
  token_matches-Decides token entry =
      Decides-bind (λ hash. bcrypt hash token ≡ true) (asserted_text (get "token" entry))
        (λ hash. done (bcrypt hash token)) (λ hash. (λ e. e, λ e. e))

  password_matches-Decides :
      (pass : String) (entry : Fields)
      → Decides (password_matches bcrypt basic_auth decrypt_all pass entry) (
          (hash : String) × (asserted_text (get "pass" entry) ≡ done hash)
          × (bcrypt hash pass ≡ true))
  unfolding password_matches
  password_matches-Decides pass entry =
      Decides-bind (λ hash. bcrypt hash pass ≡ true) (asserted_text (get "pass" entry))
        (λ hash. done (bcrypt hash pass)) (λ hash. (λ e. e, λ e. e))

  pub user_matches-Decides :
      (user pass : String) (entry : Fields)
      → Decides
          (user_matches bcrypt basic_auth decrypt_all user pass entry)
          (HasUser bcrypt user pass entry)
  unfolding user_matches
  user_matches-Decides user pass entry =
      Decides-bind
        (λ name.
          (name ≡ user)
          × ((hash : String) × (asserted_text (get "pass" entry) ≡ done hash)
              × (bcrypt hash pass ≡ true)))
        (asserted_text (get "name" entry))
        (λ name.
          and_then (done (str_eq name user))
            (password_matches bcrypt basic_auth decrypt_all pass entry))
        (λ name.
          Decides-and_then _ _ (done (str_eq name user))
            (password_matches bcrypt basic_auth decrypt_all pass entry) (eq_iff name user)
            (password_matches-Decides pass entry))
