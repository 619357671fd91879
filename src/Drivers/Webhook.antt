-- ===== src/Drivers/Webhook.antt =====
-- drivers/cmd/webhook/main.go: web requests that become events. ExtractWebRequest is in
-- pkg/dipper/web.go.
pub mod Signature
pub mod Verified
pub mod Replay
pub mod Handler
pub mod Emitted
use honeydipper.Common.{
  ℕ, ◌+◌, Bool, true, false, ◌&&◌, ◌||◌, Option, none, some, List, [], ◌∷◌, String, code, leb, ◌==◌,
  if◌then◌else◌,
}
use honeydipper.Common.Assoc.{Assoc}
use honeydipper.Common.Int.{pos}
use honeydipper.Outcome.{Outcome, done, panic, ◌>>=◌, json_error, map_error}
use honeydipper.Text.{codes, codes_eq}
use honeydipper.Text.Search.{contains}
use honeydipper.Value.{
  Value, null, str, int, list, obj, Items, nil, cons, Fields, field, end, put, of_strings,
}
use honeydipper.Dipper.Message.{Bytes}
use mathlib.Core.List.{map}

-- unicode.SimpleFold, as far as a comparison with an ASCII text can see it.
abbrev fold_code : ℕ → ℕ
fold_code c =
    if leb b'A' c && leb c b'Z'
    then c + 32
    else if c == 0x17f
    then b's'
    else if c == 0x212a
    then b'k'
    else c

-- strings.EqualFold, where one of the texts is ASCII.
unfoldable pub equal_fold : String → String → Bool
equal_fold s t = codes_eq (map fold_code (codes s)) (map fold_code (codes t))

abbrev first_or_empty : List String → String
first_or_empty [] = ""
first_or_empty (v ∷ vs) = v

-- http.Header.Get: the names in the map are in the canonical form.
unfoldable pub header : String → Assoc (List String) → String
unfolding equal_fold
header name [] = ""
header name ((n, vs) ∷ hs) = if equal_fold n name then first_or_empty vs else header name hs

-- http.Request, as far as the driver reads it. The form is none if it can not be parsed.
pub record WebRequest : Type 0 where
  pub url : String
  pub method : String
  pub form : Option (Assoc (List String))
  pub headers : Assoc (List String)
  pub host : String
  pub remote : String
  pub body : Bytes

-- The data of an event: the map, and the parts of it that are no plain data.
pub record EventData : Type 0 where
  pub content : Fields
  pub address : String
  pub received : Assoc (List String)
  pub raw_body : Option Bytes

-- A map of lists of texts, and bytes, as values.
unfoldable pub of_header : Assoc (List String) → Fields
of_header [] = end
of_header ((n, vs) ∷ hs) = field n (list (of_strings vs)) (of_header hs)

unfoldable pub of_bytes : Bytes → Items
of_bytes [] = nil
of_bytes (b ∷ bs) = cons (int (pos b)) (of_bytes bs)

parsed_form : Option (Assoc (List String)) → Outcome (Assoc (List String))
parsed_form none = panic map_error
parsed_form (some form) = done form

-- ExtractWebRequestExceptBody
unfoldable pub extract_except_body : WebRequest → Outcome Fields
unfolding parsed_form of_header
extract_except_body r = do
  form ← parsed_form r.form
  done (
      field "url" (str r.url) (
        field "method" (str r.method) (
          field "form" (obj (of_header form)) (
            field "headers" (obj (of_header r.headers))
              (field "host" (str r.host) (field "remoteAddr" (str r.remote) end))))))

-- json.Unmarshal into a map: none is an error.
module _ (unmarshal : Bytes → Option Fields) where
  with_json : Bytes → Fields → Option Fields → Outcome Fields
  with_json body content none = panic json_error
  with_json body content (some j) = done (put "json" (obj j) content)

  with_body : WebRequest → Bytes → Fields → Outcome EventData
  with_body r [] content =
      done (record { content = content; address = r.url; received = r.headers; raw_body = none })
  with_body r (b ∷ bs) content = do
    let kept = put "body" (list (of_bytes (b ∷ bs))) content
    all ←
        if contains (header "content-type" r.headers) "json"
        then with_json (b ∷ bs) kept (unmarshal (b ∷ bs))
        else done kept
    done (record { content = all; address = r.url; received = r.headers; raw_body = some (b ∷ bs) })

  -- ExtractWebRequest
  unfoldable pub extract_web_request : WebRequest → Outcome EventData
  unfolding with_body with_json of_bytes header
  extract_web_request r = do content ← extract_except_body r; with_body r r.body content
