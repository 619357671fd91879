-- ===== src/Drivers/AuthSimple/Granted.antt =====
-- Who is let in by the driver auth-simple.
use honeydipper.Common.{
  ◌≢◌, Bool, Option, none, some, String, ◌≡◌, refl, ◌∙◌, ap, subst, ◌⊎◌, inl, inr, str_eq,
  Bool-cases, Option-cases,
}
use honeydipper.Outcome.{Holds, Outcome, done, panic, Fault, >>=-eq-done, done_injective}
use honeydipper.Value.{Value, Items, nil, cons, Fields}
use honeydipper.Dipper.MapData.{get_map_data}
use honeydipper.Drivers.AuthSimple.{
  bad_credentials, nil_panic, skipped_scheme, search_list, after_prefix, authorization, Verdict,
  granted, refused, skipped, asserted_text, among, token_matches, user_matches, decrypted,
  check_token, header_after, token_auth, check_user, check_basic, basic, run_scheme, run_schemes,
  schemes_of, auth_web_request,
}
use honeydipper.Drivers.Decides.{Decides}
use honeydipper.Drivers.AuthSimple.Skipped.{Kept, run_scheme-Kept}
use honeydipper.Drivers.AuthSimple.Entries.{
  HasToken, HasUser, token_matches-Decides, user_matches-Decides, among-Knows, Knows,
}

none≢some : {A : Type 0} {a : A} → none ≢ some a
none≢some e = cc

panic≢done : {A : Type 0} {a : A} {e : Fault} → panic e ≢ done a
panic≢done e = cc

skipped≢granted : {s : String} → skipped ≢ granted s
skipped≢granted e = cc

refused≢granted : {s : String} → refused ≢ granted s
refused≢granted e = cc

module _ (bcrypt : String → String → Bool) (basic_auth : String → Option (String × String))
    (decrypt_all : Value → Outcome Value) (payload : Value) where
  -- The request has a bearer token whose hash stands with the subject among the tokens.
  pub record ByToken (options : Value) (subject : String) : Type 0 where
    pub header : String
    pub sent : authorization payload ≡ some header
    pub token : String
    pub bearer : after_prefix 7 "bearer " header ≡ some token
    pub known : Knows (HasToken bcrypt token) (get_map_data options "data.tokens") subject

  -- The request has the name of a user and a password whose hash stands with the name.
  pub record ByUser (options : Value) (subject : String) : Type 0 where
    pub header : String
    pub sent : authorization payload ≡ some header
    pub user : String
    pub pass : String
    pub credentials : basic_auth header ≡ some (user, pass)
    pub known : Knows (HasUser bcrypt user pass) (get_map_data options "data.users") subject

  -- What remains of a check once the options are decrypted.
  search_list-Knows :
      (test : Fields → Outcome Bool) (P : Fields → Type 0)
      → ((entry : Fields) → Decides (test entry) (P entry))
      → (path : String) (options options' : Value) (subject : String)
      → search_list bcrypt basic_auth decrypt_all test path options
        ≡ done (granted subject, options')
      → (decrypted bcrypt basic_auth decrypt_all options ≡ done options')
        × Knows P (get_map_data options' path) subject
  unfolding search_list
  search_list-Knows test P decides path options options' subject h =
      let (plain, d, h') = >>=-eq-done (decrypted bcrypt basic_auth decrypt_all options) _ h in
      let (verdict, a, h'') = >>=-eq-done (among test (get_map_data plain path)) _ h' in
      let q = done_injective h'' in
      (
        d ∙ ap done (ap (λ p. p.1) q),
        subst (λ o. Knows P (get_map_data o path) subject) (ap (λ p. p.1) q)
            (among-Knows test P decides subject (get_map_data plain path)
              (a ∙ ap done (ap (λ p. p.0) q))),
      )

  check_token-ByToken :
      (options options' : Value) (o : Option String) (subject : String)
      → header_after 7 "bearer " (authorization payload) ≡ o
      → check_token bcrypt basic_auth decrypt_all options o ≡ done (granted subject, options')
      → (decrypted bcrypt basic_auth decrypt_all options ≡ done options') × ByToken options' subject
  unfolding check_token header_after
  check_token-ByToken options options' none subject e h =
      absurd (skipped≢granted (ap (λ p. p.0) (done_injective h)))
  check_token-ByToken options options' (some token) subject e h =
      let (d, k) =
        search_list-Knows (token_matches bcrypt basic_auth decrypt_all token)
          (HasToken bcrypt token) (token_matches-Decides bcrypt basic_auth decrypt_all token)
          "data.tokens" options options' subject h in
      elim (Option-cases (authorization payload)) [
        | inr f ↦ absurd (none≢some (rw f at e))
        | inl (header, f) ↦
            (d, record { header = header; sent = f; token = token; bearer = rw f at e; known = k })
      ]

  check_user-ByUser :
      (options options' : Value) (header subject : String) (o : Option (String × String))
      → authorization payload ≡ some header
      → basic_auth header ≡ o
      → check_user bcrypt basic_auth decrypt_all options o ≡ done (granted subject, options')
      → (decrypted bcrypt basic_auth decrypt_all options ≡ done options') × ByUser options' subject
  unfolding check_user
  check_user-ByUser options options' header subject none f e h =
      absurd (refused≢granted (ap (λ p. p.0) (done_injective h)))
  check_user-ByUser options options' header subject (some (user, pass)) f e h =
      let (d, k) =
        search_list-Knows (user_matches bcrypt basic_auth decrypt_all user pass)
          (HasUser bcrypt user pass) (user_matches-Decides bcrypt basic_auth decrypt_all user pass)
          "data.users" options options' subject h in
      (
        d,
        record { header = header; sent = f; user = user; pass = pass; credentials = e; known = k },
      )

  check_basic-ByUser :
      (options options' : Value) (h rest : Option String) (subject : String)
      → authorization payload ≡ h
      → check_basic bcrypt basic_auth decrypt_all options h rest ≡ done (granted subject, options')
      → (decrypted bcrypt basic_auth decrypt_all options ≡ done options') × ByUser options' subject
  unfolding check_basic
  check_basic-ByUser options options' (some header) (some rest) subject f h =
      check_user-ByUser options options' header subject (basic_auth header) f refl h
  check_basic-ByUser options options' (some header) none subject f h =
      absurd (skipped≢granted (ap (λ p. p.0) (done_injective h)))
  check_basic-ByUser options options' none rest subject f h =
      absurd (skipped≢granted (ap (λ p. p.0) (done_injective h)))

  abbrev pub Trusted : Value → Value → String → Type 0
  Trusted options options' subject =
      (decrypted bcrypt basic_auth decrypt_all options ≡ done options')
      × (ByToken options' subject ⊎ ByUser options' subject)

  run_scheme-Trusted :
      (scheme : String) (options options' : Value) (subject : String)
      → run_scheme bcrypt basic_auth decrypt_all scheme options payload
        ≡ done (granted subject, options')
      → Trusted options options' subject
  unfolding run_scheme token_auth basic
  run_scheme-Trusted scheme options options' subject h = elim (Bool-cases (str_eq scheme "basic")) [
    | inl b ↦
        (let (d, u) =
            check_basic-ByUser options options' (authorization payload) _ subject refl
              (rw (b, run_scheme) at h) in
          (d, inr u))
    | inr b ↦ elim (Bool-cases (str_eq scheme "token")) [
      | inl t ↦
          (let (d, k) =
              check_token-ByToken options options' _ subject refl (rw (b, t, run_scheme) at h) in
            (d, inl k))
      | inr t ↦ absurd (panic≢done (rw (b, t, run_scheme) at h))
    ]
  ]

  by_verdict-Trusted :
      (verdict : Verdict) (scheme : String) (vs : Items) (options options' : Value)
      (subject : String)
      → run_scheme bcrypt basic_auth decrypt_all scheme options payload ≡ done (verdict, options')
      → (run_schemes bcrypt basic_auth decrypt_all skipped_scheme vs options' payload ≡ done subject
          → (o : Value) × Trusted options' o subject)
      → elim verdict [
        | granted s ↦ done s
        | refused ↦ panic bad_credentials
        | skipped ↦ run_schemes bcrypt basic_auth decrypt_all skipped_scheme vs options' payload
      ]
        ≡ done subject
      → (o : Value) × Trusted options o subject
  by_verdict-Trusted (granted s) scheme vs options options' subject r rec h = (
    options',
    run_scheme-Trusted scheme options options' subject
        (r ∙ ap (λ t. done (granted t, options')) (done_injective h)),
  )
  by_verdict-Trusted refused scheme vs options options' subject r rec h = absurd (panic≢done h)
  by_verdict-Trusted skipped scheme vs options options' subject r rec h =
      subst (λ o. (o' : Value) × Trusted o o' subject)
        (subst (Holds (Kept bcrypt basic_auth decrypt_all payload options)) r
          (run_scheme-Kept bcrypt basic_auth decrypt_all payload scheme options) refl)
        (rec h)

  run_schemes-Trusted :
      (error : Fault) (vs : Items) (options : Value) (subject : String)
      → run_schemes bcrypt basic_auth decrypt_all error vs options payload ≡ done subject
      → (options' : Value) × Trusted options options' subject
  unfolding run_schemes
  run_schemes-Trusted error nil options subject h = absurd (panic≢done h)
  run_schemes-Trusted error (cons v vs) options subject h =
      let (scheme, a, h') = >>=-eq-done (asserted_text (some v)) _ h in
      let ((verdict, options'), r, h'') =
        >>=-eq-done (run_scheme bcrypt basic_auth decrypt_all scheme options payload) _ h' in
      by_verdict-Trusted verdict scheme vs options options' subject r
        (run_schemes-Trusted skipped_scheme vs options' subject) h''

  -- A subject is sent back only for a request that carries a bearer token, or the name and the
  -- password of a user, which the decrypted options know: the first entry that they match has this
  -- subject. It holds whatever schemes are configured, in any order.
  pub auth_web_request-Trusted :
      (options : Value) (subject : String)
      → auth_web_request bcrypt basic_auth decrypt_all options payload ≡ done subject
      → (options' : Value) × Trusted options options' subject
  unfolding auth_web_request
  auth_web_request-Trusted options subject h =
      let (schemes, s, h') = >>=-eq-done (schemes_of (get_map_data options "data.schemes")) _ h in
      run_schemes-Trusted nil_panic schemes options subject h'
