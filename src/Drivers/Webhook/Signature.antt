-- ===== src/Drivers/Webhook/Signature.antt =====
-- verifySignature and verifySystems of drivers/cmd/webhook/main.go: which systems have signed a
-- request. HMAC-SHA256 and the bytes of a text are parameters, as are the time and the systems in
-- the order of a `range` over their map.
use honeydipper.Common.{
  ℕ, ◌+◌, ◌-◌, ◌*◌, ◌%◌, ◌^◌, Bool, true, false, ◌&&◌, ◌||◌, Option, none, some, List, [], ◌∷◌,
  ◌++◌, String, ltb, leb, if◌then◌else◌, str_eq,
}
use honeydipper.Common.Assoc.{Assoc}
use honeydipper.Common.Int.{to_bits}
use honeydipper.Outcome.{
  Outcome, done, panic, ◌>>=◌, hash_error, replay_attack, hex_error, number_error, type_assertion,
}
use honeydipper.Text.{codes, codes_eq, is_empty, drop}
use honeydipper.Text.Split.{split}
use honeydipper.Text.Number.{Atoi, number, syntax_error, range_error, atoi}
use honeydipper.Text.Search.{starts_with}
use honeydipper.Value.{Value, str, list, obj, Fields, get, put, of_strings, to_list}
use honeydipper.Dipper.Condition.{and_then, or_else}
use honeydipper.Dipper.MapData.{get_map_data}
use honeydipper.Dipper.Message.{Bytes}
use honeydipper.Drivers.Webhook.{EventData, equal_fold, header}
use mathlib.Core.List.{map}

-- An int64 by its 64 bits: addition, subtraction and order as the processor has them.
abbrev pub add64 : ℕ → ℕ → ℕ
add64 a b = (a + b) % 2 ^ 64

abbrev pub sub64 : ℕ → ℕ → ℕ
sub64 a b = (a + 2 ^ 64 - b) % 2 ^ 64

abbrev pub lt64 : ℕ → ℕ → Bool
lt64 a b = ltb (add64 a (2 ^ 63)) (add64 b (2 ^ 63))

-- current-requestedAt > 300 || current+2 < requestedAt
unfoldable pub is_replay : ℕ → ℕ → Bool
is_replay current requested = lt64 300 (sub64 current requested) || lt64 (add64 current 2) requested

-- strconv.ParseInt(s, 10, 64), which may fail.
parsed_time : Atoi → Outcome ℕ
parsed_time (number n) = done (to_bits n)
parsed_time syntax_error = panic number_error
parsed_time (range_error n) = panic number_error

abbrev check_time : ℕ → ℕ → Outcome (Unit {0})
check_time now at = if is_replay now at then panic replay_attack else done tt

-- strings.TrimPrefix, of an ASCII prefix of that length.
abbrev trim_prefix : ℕ → String → String → String
trim_prefix n p s = if starts_with s p then drop n s else s

hex_digit : ℕ → Option ℕ
hex_digit c =
    if leb b'0' c && leb c b'9'
    then some (c - b'0')
    else if leb b'a' c && leb c b'f'
    then some (c - b'a' + 10)
    else if leb b'A' c && leb c b'F'
    then some (c - b'A' + 10)
    else none

abbrev byte_of : Option ℕ → Option ℕ → Option Bytes → Option Bytes
byte_of (some a) (some b) (some bs) = some ((a * 16 + b) ∷ bs)
byte_of _ _ _ = none

-- hex.DecodeString
unfoldable pub hex_decode : List ℕ → Option Bytes
unfolding hex_digit
hex_decode [] = some []
hex_decode (a ∷ []) = none
hex_decode (a ∷ b ∷ cs) = byte_of (hex_digit a) (hex_digit b) (hex_decode cs)

-- The hashes that a signature header holds.
unfoldable pub hashes : String → String → List String
hashes name actual =
    if str_eq name "X-Slack-Signature"
    then trim_prefix 3 "v0=" actual ∷ []
    else if str_eq name "X-PagerDuty-Signature"
    then map (trim_prefix 3 "v1=") (split b',' actual)
    else if str_eq name "X-Hub-Signature-256"
    then trim_prefix 7 "sha256=" actual ∷ []
    else []

-- The loop over the hashes.
unfoldable pub equals_hash : Bytes → Option Bytes → Outcome Bool
equals_hash expected none = panic hex_error
equals_hash expected (some actual) = done (codes_eq expected actual)

unfoldable pub any_hash : Bytes → List String → Outcome Bool
unfolding equals_hash
any_hash expected [] = done false
any_hash expected (h ∷ hs) =
    or_else (equals_hash expected (hex_decode (codes h))) (any_hash expected hs)

asserted_body : Option Bytes → Outcome Bytes
asserted_body none = panic type_assertion
asserted_body (some b) = done b

unfoldable pub asserted_text : Value → Outcome String
asserted_text (str s) = done s
asserted_text _ = panic type_assertion

abbrev pub supported : List String
supported = "X-Hub-Signature-256" ∷ "X-PagerDuty-Signature" ∷ "X-Slack-Signature" ∷ []

-- The first supported header that the request has, and its value.
unfoldable pub find_signature : List String → Assoc (List String) → Option (String × String)
find_signature [] headers = none
find_signature (name ∷ names) headers =
    if is_empty (header name headers)
    then find_signature names headers
    else some (name, header name headers)

abbrev pub secrets_of : Value → List Value
secrets_of (list vs) = to_list vs
secrets_of v = v ∷ []

unfoldable pub same_header : String → Option Value → Outcome Bool
same_header name none = done false
same_header name (some v) = do expected ← asserted_text v; done (equal_fold expected name)

abbrev pub add_name : String → Bool → List String → List String
add_name name true names = name ∷ names
add_name name false names = names

abbrev pub has_key : Option Value → Bool
has_key none = false
has_key (some v) = true

module _ (mac : Bytes → Bytes → Bytes) (bytes : String → Bytes) (now : ℕ) where
  -- What is written before the body, after the checks of a Slack request.
  slack_prefix : String → Bool → Outcome Bytes
  slack_prefix timestamp skips = elim (is_empty timestamp) [
    | true ↦ panic hash_error
    | false ↦ elim skips [
      | true ↦ done (bytes "v0:" ++ (bytes timestamp ++ bytes ":"))
      | false ↦ do
        at ← parsed_time (atoi timestamp)
        checked ← check_time now at
        done (bytes "v0:" ++ (bytes timestamp ++ bytes ":"))
    ]
  ]

  unfoldable pub signed_prefix : String → EventData → Outcome Bytes
  unfolding slack_prefix parsed_time
  signed_prefix name e =
      if str_eq name "X-Slack-Signature"
      then slack_prefix (header "X-Slack-Request-Timestamp" e.received)
          (has_key (get "skip_replay_check" e.content))
      else done []

  -- What the request is signed for.
  unfoldable pub signed_content : String → EventData → Outcome Bytes
  unfolding asserted_body
  signed_content name e = do
    prefix ← signed_prefix name e
    body ← asserted_body e.raw_body
    done (prefix ++ body)

  -- verifySignature
  unfoldable pub verify_signature : String → String → String → EventData → Outcome Bool
  verify_signature name actual secret e = do
    content ← signed_content name e
    any_hash (mac (bytes secret) content) (hashes name actual)

  -- The loop over the secrets of a system.
  unfoldable pub try_secret : String → String → Value → EventData → Outcome Bool
  try_secret name actual v e = do secret ← asserted_text v; verify_signature name actual secret e

  unfoldable pub any_secret : String → String → List Value → EventData → Outcome Bool
  any_secret name actual [] e = done false
  any_secret name actual (v ∷ vs) e =
      or_else (try_secret name actual v e) (any_secret name actual vs e)

  unfoldable pub try_secrets : String → String → Option Value → EventData → Outcome Bool
  try_secrets name actual none e = done false
  try_secrets name actual (some v) e = any_secret name actual (secrets_of v) e

  -- Whether a system has signed the request, in the header that it expects.
  unfoldable pub verify_system : String → String → Fields → EventData → Outcome Bool
  unfolding same_header try_secrets asserted_text
  verify_system name actual sys e =
      and_then (same_header name (get "signatureHeader" sys))
        (try_secrets name actual (get_map_data (obj sys) "signatureSecret") e)

  -- The loop over the systems.
  unfoldable pub verified_systems :
      String → String → Assoc Fields → EventData → Outcome (List String)
  verified_systems name actual [] e = done []
  verified_systems name actual ((system, sys) ∷ systems) e = do
    good ← verify_system name actual sys e
    names ← verified_systems name actual systems e
    done (add_name system good names)

  unfoldable pub with_verified : List String → EventData → EventData
  with_verified names e = record e {
    content = put "verifiedSystem" (list (of_strings names)) e.content;
  }

  unfoldable pub verify_with :
      Assoc Fields → EventData → Option (String × String) → Outcome EventData
  verify_with systems e none = done e
  verify_with systems e (some (name, actual)) = do
    names ← verified_systems name actual systems e
    done (with_verified names e)

  -- verifySystems
  unfoldable pub verify_systems : Assoc Fields → EventData → Outcome EventData
  unfolding verify_with with_verified
  verify_systems systems e = verify_with systems e (find_signature supported e.received)
