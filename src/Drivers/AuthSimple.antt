-- ===== src/Drivers/AuthSimple.antt =====
-- drivers/cmd/auth-simple/main.go: who a web request is from. Bcrypt, the parsing of basic
-- credentials by net/http, and the decryption of the options are parameters.
pub mod Entries
pub mod Granted
pub mod Skipped
use honeydipper.Common.{
  ℕ, zero, suc, ◌+◌, Bool, true, false, ◌&&◌, Option, none, some, List, [], ◌∷◌, String, code, leb,
  ◌==◌, str_eq, if◌then◌else◌,
}
use honeydipper.Outcome.{
  Outcome, done, panic, Fault, ◌>>=◌, type_assertion, unsupported_scheme, bad_credentials,
  skipped_scheme, nil_panic,
}
use honeydipper.Text.{codes, codes_eq, drop}
use honeydipper.Value.{Value, null, bool, str, list, obj, Items, nil, cons, Fields, get, put}
use honeydipper.Dipper.Condition.{and_then}
use honeydipper.Dipper.MapData.{get_map_data, get_map_data_str}
use mathlib.Core.List.{map}

-- The upper case ASCII letters become lower case.
abbrev lower_code : ℕ → ℕ
lower_code c = if leb b'A' c && leb c b'Z' then c + 32 else c

abbrev take_codes : ℕ → List ℕ → List ℕ
take_codes zero cs = []
take_codes (suc n) [] = []
take_codes (suc n) (c ∷ cs) = c ∷ take_codes n cs

-- What follows an ASCII prefix of that length, in upper or lower case.
unfoldable pub after_prefix : ℕ → String → String → Option String
after_prefix n prefix s =
    if codes_eq (map lower_code (take_codes n (codes s))) (codes prefix)
    then some (drop n s)
    else none

-- The header of the request, under either spelling.
text_or_none : String × Bool → Option String
text_or_none (s, true) = some s
text_or_none (s, false) = none

or_text : Option String → Option String → Option String
or_text (some s) o = some s
or_text none o = o

unfoldable pub authorization : Value → Option String
unfolding text_or_none or_text
authorization payload =
    or_text (text_or_none (get_map_data_str payload "headers.Authorization.0"))
      (text_or_none (get_map_data_str payload "headers.authorization.0"))

-- The subject and the error that tokenAuth and basicAuth return.
pub data Verdict : Type 0 where
  granted : String → Verdict
  refused skipped : Verdict

unfoldable pub asserted_map : Value → Outcome Fields
asserted_map (obj fs) = done fs
asserted_map _ = panic type_assertion

unfoldable pub asserted_items : Value → Outcome Items
asserted_items (list vs) = done vs
asserted_items _ = panic type_assertion

unfoldable pub asserted_text : Option Value → Outcome String
asserted_text (some (str s)) = done s
asserted_text _ = panic type_assertion

-- subject, ok := entry["subject"]
unfoldable pub subject_of : Option Value → Outcome Verdict
subject_of none = done (granted "")
subject_of (some null) = done (granted "")
subject_of (some (str s)) = done (granted s)
subject_of (some v) = panic type_assertion

unfoldable pub grant_if : Bool → Fields → Outcome Verdict → Outcome Verdict
grant_if true entry rest = subject_of (get "subject" entry)
grant_if false entry rest = rest

-- The loop over the entries, of which the first that passes the test grants its subject.
unfoldable pub find_entry : (Fields → Outcome Bool) → Items → Outcome Verdict
unfolding grant_if subject_of asserted_map
find_entry test nil = done refused
find_entry test (cons v vs) = do
  entry ← asserted_map v
  passes ← test entry
  grant_if passes entry (find_entry test vs)

unfoldable pub among : (Fields → Outcome Bool) → Option Value → Outcome Verdict
unfolding asserted_items
among test none = done refused
among test (some v) = do vs ← asserted_items v; find_entry test vs

mark_decrypted : Value → Outcome Value
mark_decrypted (obj fs) = done (obj (put "decrypted" (bool true) fs))
mark_decrypted v = panic type_assertion

unfoldable pub header_after : ℕ → String → Option String → Option String
header_after n prefix none = none
header_after n prefix (some s) = after_prefix n prefix s

unfoldable pub schemes_of : Option Value → Outcome Items
schemes_of none = done (cons (str "token") nil)
schemes_of (some v) = asserted_items v

module _ (bcrypt : String → String → Bool) (basic_auth : String → Option (String × String))
    (decrypt_all : Value → Outcome Value) where
  -- kt["token"] is the hash of the token.
  unfoldable pub token_matches : String → Fields → Outcome Bool
  unfolding asserted_text
  token_matches token entry = do hash ← asserted_text (get "token" entry); done (bcrypt hash token)

  unfoldable pub password_matches : String → Fields → Outcome Bool
  unfolding asserted_text
  password_matches pass entry = do hash ← asserted_text (get "pass" entry); done (bcrypt hash pass)

  unfoldable pub user_matches : String → String → Fields → Outcome Bool
  unfolding asserted_text
  user_matches user pass entry = do
    name ← asserted_text (get "name" entry)
    and_then (done (str_eq name user)) (password_matches pass entry)

  decrypt_unless : Option Value → Value → Outcome Value
  decrypt_unless (some v) options = done options
  decrypt_unless none options = do plain ← decrypt_all options; mark_decrypted plain

  -- The options, which are decrypted once.
  unfoldable pub decrypted : Value → Outcome Value
  unfolding decrypt_unless mark_decrypted
  decrypted options = decrypt_unless (get_map_data options "decrypted") options

  -- The verdict by the entries of the options, and the options as they are afterwards.
  unfoldable pub search_list : (Fields → Outcome Bool) → String → Value → Outcome (Verdict × Value)
  search_list test path options = do
    options' ← decrypted options
    verdict ← among test (get_map_data options' path)
    done (verdict, options')

  unfoldable pub check_token : Value → Option String → Outcome (Verdict × Value)
  check_token options none = done (skipped, options)
  check_token options (some token) = search_list (token_matches token) "data.tokens" options

  -- tokenAuth
  unfoldable pub token_auth : Value → Value → Outcome (Verdict × Value)
  unfolding check_token header_after
  token_auth options payload =
      check_token options (header_after 7 "bearer " (authorization payload))

  unfoldable pub check_user : Value → Option (String × String) → Outcome (Verdict × Value)
  check_user options none = done (refused, options)
  check_user options (some (user, pass)) = search_list (user_matches user pass) "data.users" options

  unfoldable pub check_basic : Value → Option String → Option String → Outcome (Verdict × Value)
  check_basic options (some h) (some rest) = check_user options (basic_auth h)
  check_basic options _ _ = done (skipped, options)

  -- basicAuth
  unfoldable pub basic : Value → Value → Outcome (Verdict × Value)
  unfolding check_basic check_user header_after
  basic options payload =
      check_basic options (authorization payload) (header_after 6 "basic " (authorization payload))

  unfoldable pub run_scheme : String → Value → Value → Outcome (Verdict × Value)
  run_scheme scheme options payload =
      if str_eq scheme "basic"
      then basic options payload
      else if str_eq scheme "token"
      then token_auth options payload
      else panic unsupported_scheme

  -- The loop over the schemes, with the error of the last one that was skipped.
  unfoldable pub run_schemes : Fault → Items → Value → Value → Outcome String
  unfolding asserted_text
  run_schemes error nil options payload = panic error
  run_schemes error (cons v vs) options payload = do
    scheme ← asserted_text (some v)
    (verdict, options') ← run_scheme scheme options payload
    elim verdict [
      | granted subject ↦ done subject
      | refused ↦ panic bad_credentials
      | skipped ↦ run_schemes skipped_scheme vs options' payload
    ]

  -- authWebRequest: the subject that is sent back. With an empty list of schemes the error is nil.
  unfoldable pub auth_web_request : Value → Value → Outcome String
  unfolding schemes_of asserted_items
  auth_web_request options payload = do
    schemes ← schemes_of (get_map_data options "data.schemes")
    run_schemes nil_panic schemes options payload
