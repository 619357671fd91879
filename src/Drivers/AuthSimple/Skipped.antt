-- ===== src/Drivers/AuthSimple/Skipped.antt =====
-- A scheme of the driver auth-simple that is skipped has not decrypted the options.
use honeydipper.Common.{
  ◌≢◌, Bool, true, false, Option, none, some, String, ◌≡◌, refl, inl, inr, str_eq, Bool-cases,
}
use honeydipper.Outcome.{Holds-any, Holds-bind, Holds, Outcome}
use honeydipper.Value.{Value, null, str, Items, nil, cons, Fields, get}
use honeydipper.Dipper.MapData.{get_map_data}
use honeydipper.Drivers.AuthSimple.{
  search_list, authorization, Verdict, skipped, asserted_map, asserted_items, subject_of, grant_if,
  find_entry, among, token_matches, user_matches, decrypted, check_token, token_auth, check_user,
  check_basic, basic, run_scheme,
}

abbrev IsAnswer : Verdict → Type 0
IsAnswer v = v ≢ skipped

subject_of-IsAnswer : (o : Option Value) → Holds IsAnswer (subject_of o)
unfolding subject_of
subject_of-IsAnswer none = λ e. cc
subject_of-IsAnswer (some null) = λ e. cc
subject_of-IsAnswer (some (str s)) = λ e. cc
subject_of-IsAnswer (some _) = tt

grant_if-IsAnswer :
    (b : Bool) (entry : Fields) (rest : Outcome Verdict)
    → Holds IsAnswer rest
    → Holds IsAnswer (grant_if b entry rest)
unfolding grant_if
grant_if-IsAnswer true entry rest h = subject_of-IsAnswer (get "subject" entry)
grant_if-IsAnswer false entry rest h = h

find_entry-IsAnswer :
    (test : Fields → Outcome Bool) (vs : Items) → Holds IsAnswer (find_entry test vs)
unfolding find_entry
find_entry-IsAnswer test nil = λ e. cc
find_entry-IsAnswer test (cons v vs) =
    Holds-bind (λ _. Unit) IsAnswer (asserted_map v) _ (Holds-any (asserted_map v))
      (λ entry _.
        Holds-bind (λ _. Unit) IsAnswer (test entry) _ (Holds-any (test entry))
          (λ b _. grant_if-IsAnswer b entry (find_entry test vs) (find_entry-IsAnswer test vs)))

among-IsAnswer : (test : Fields → Outcome Bool) (o : Option Value) → Holds IsAnswer (among test o)
unfolding among
among-IsAnswer test none = λ e. cc
among-IsAnswer test (some v) =
    Holds-bind (λ _. Unit) IsAnswer (asserted_items v) _ (Holds-any (asserted_items v))
      (λ vs _. find_entry-IsAnswer test vs)

module _ (bcrypt : String → String → Bool) (basic_auth : String → Option (String × String))
    (decrypt_all : Value → Outcome Value) (payload : Value) where
  -- A scheme that is skipped leaves the options as they are.
  abbrev pub Kept : Value → Verdict × Value → Type 0
  Kept options p = p.0 ≡ skipped → p.1 ≡ options

  search_list-Kept :
      (test : Fields → Outcome Bool) (path : String) (options : Value)
      → Holds (Kept options) (search_list bcrypt basic_auth decrypt_all test path options)
  unfolding search_list
  search_list-Kept test path options =
      Holds-bind (λ _. Unit) (Kept options) (decrypted bcrypt basic_auth decrypt_all options) _
        (Holds-any (decrypted bcrypt basic_auth decrypt_all options))
        (λ plain _.
          Holds-bind IsAnswer (Kept options) (among test (get_map_data plain path)) _
            (among-IsAnswer test (get_map_data plain path)) (λ v a e. absurd (a e)))

  check_token-Kept :
      (options : Value) (o : Option String)
      → Holds (Kept options) (check_token bcrypt basic_auth decrypt_all options o)
  unfolding check_token
  check_token-Kept options none = λ e. refl
  check_token-Kept options (some token) =
      search_list-Kept (token_matches bcrypt basic_auth decrypt_all token) "data.tokens" options

  check_user-Kept :
      (options : Value) (o : Option (String × String))
      → Holds (Kept options) (check_user bcrypt basic_auth decrypt_all options o)
  unfolding check_user
  check_user-Kept options none = λ e. refl
  check_user-Kept options (some (user, pass)) =
      search_list-Kept (user_matches bcrypt basic_auth decrypt_all user pass) "data.users" options

  check_basic-Kept :
      (options : Value) (h rest : Option String)
      → Holds (Kept options) (check_basic bcrypt basic_auth decrypt_all options h rest)
  unfolding check_basic
  check_basic-Kept options (some h) (some rest) = check_user-Kept options (basic_auth h)
  check_basic-Kept options (some h) none = λ e. refl
  check_basic-Kept options none rest = λ e. refl

  pub run_scheme-Kept :
      (scheme : String) (options : Value)
      → Holds (Kept options) (run_scheme bcrypt basic_auth decrypt_all scheme options payload)
  unfolding run_scheme basic token_auth
  run_scheme-Kept scheme options = elim (Bool-cases (str_eq scheme "basic")) [
    | inl b ↦ rw b (check_basic-Kept options (authorization payload) _)
    | inr b ↦ rw b (elim (Bool-cases (str_eq scheme "token")) [
      | inl t ↦ rw t (check_token-Kept options _)
      | inr t ↦ rw t tt
    ])
  ]
