-- ===== src/Examples/Drivers.antt =====
-- A signed web request, and a request with a bearer token.
use honeydipper.Common.{
  Bool, ◌-◌, ◌+◌, ◌<◌, ◌^◌, ◌≡◌, ◌⊎◌, ◌↔◌, refl, true, false, Option, none, some, [], ◌∷◌, ◌++◌,
  String, str_eq, arith,
}
use honeydipper.Common.Int.{pos, negsuc, to_bits}
use honeydipper.Common.Assoc.{insert}
use honeydipper.Outcome.{Outcome, done}
use honeydipper.Text.{codes}
use honeydipper.Text.Split.{split}
use honeydipper.Text.Number.{atoi}
use honeydipper.Text.Search.{contains, starts_with}
use honeydipper.Value.{Value, str, list, obj, Items, nil, cons, Fields, field, end, get, put}
use honeydipper.Dipper.Condition.{check_key, compare, compare_all, against}
use honeydipper.Dipper.MapData.{get_map_data, get_map_data_str, walk, step}
use honeydipper.Dipper.Message.{Bytes}
use honeydipper.Drivers.Webhook.{
  WebRequest, EventData, equal_fold, header, of_header, of_bytes, extract_except_body,
  extract_web_request,
}
use honeydipper.Drivers.Webhook.Signature.{
  is_replay, hex_decode, hashes, any_hash, find_signature, signed_prefix, signed_content,
  verify_signature, try_secret, any_secret, verify_system, verified_systems, verify_systems,
}
use honeydipper.Drivers.Webhook.Verified.{Verified, verify_systems-SignedFor}
use honeydipper.Drivers.Webhook.Replay.{is_replay_iff}
use honeydipper.Drivers.Webhook.Handler.{
  Hooks, add_rules, add_hooks, load_options, match_rules, match_hooks, customized, respond,
  hook_handler,
}
use honeydipper.Drivers.Webhook.Emitted.{Accepted, hook_handler-emitted}
use honeydipper.Drivers.AuthSimple.{
  after_prefix, authorization, find_entry, among, token_matches, decrypted, search_list, token_auth,
  basic, run_scheme, run_schemes, auth_web_request,
}
use honeydipper.Drivers.AuthSimple.Granted.{Trusted, auth_web_request-Trusted}

program : Unit {0}
unfolding check_key insert get put split atoi contains starts_with compare compare_all against
    get_map_data get_map_data_str walk step equal_fold header of_header of_bytes extract_except_body
    extract_web_request is_replay hex_decode hashes any_hash find_signature signed_prefix
    signed_content verify_signature try_secret any_secret verify_system verified_systems
    verify_systems add_rules add_hooks load_options match_rules match_hooks customized respond
    hook_handler after_prefix authorization find_entry among token_matches decrypted search_list
    token_auth basic run_scheme run_schemes auth_web_request
program = tt

-- In place of an HMAC: the secret and the content.
abbrev mac : Bytes → Bytes → Bytes
mac secret content = secret ++ content

abbrev no_json : Bytes → Option Fields
no_json b = none

abbrev no_template : String → Fields → Outcome String
no_template s fs = done s

abbrev equal_text : String → String → Bool
equal_text = str_eq

abbrev github : Fields
github = field "signatureHeader" (str "x-hub-signature-256") (field "signatureSecret" (str "a") end)

abbrev rule : Fields
rule =
    field "match" (obj (field "verifiedSystem" (str "github") end))
      (field "sysName" (str "github") (field "sysData" (obj github) end))

abbrev options : Value
options = obj (
    field "dynamicData"
      (obj (field "collapsedEvents" (obj (field "webhook." (list (cons (obj rule) nil)) end)) end))
      end)

abbrev hooks : Hooks
hooks = record {
  hooks = field "webhook." (list (cons (obj rule) nil)) end;
  systems = ("github", github) ∷ [];
  address = ":8080";
}

loaded : load_options options "loaded" "" ≡ done (hooks, false)
unfolding program
loaded = refl

-- The body `b`, signed with the secret `a`.
abbrev request : String → WebRequest
request hash = record {
  url = "/";
  method = "POST";
  form = some [];
  headers = ("X-Hub-Signature-256", hash ∷ []) ∷ [];
  host = "";
  remote = "";
  body = b'b' ∷ [];
}

abbrev received : EventData
received = record {
  content = field "body" (list (of_bytes (b'b' ∷ []))) end;
  address = "/";
  received = ("X-Hub-Signature-256", "sha256=6162" ∷ []) ∷ [];
  raw_body = some (b'b' ∷ []);
}

abbrev checked : EventData
checked = record received {
  content =
      field "body" (list (of_bytes (b'b' ∷ [])))
        (field "verifiedSystem" (list (cons (str "github") nil)) end);
}

verify_systems-SignedFor_example : Verified mac codes 0 (("github", github) ∷ []) received checked
unfolding program
verify_systems-SignedFor_example =
    verify_systems-SignedFor mac codes 0 (("github", github) ∷ []) received checked refl

is_replay_iff_example :
    ((is_replay 1000 (to_bits (pos 600)) ≡ true) ↔ ((600 + 300 < 1000) ⊎ (1000 + 2 < 600)))
    × ((is_replay 1000 (to_bits (negsuc 600)) ≡ true)
        ↔ ((300 < 1000 + 601) × (1000 + 601 < 2 ^ 63)))
is_replay_iff_example = is_replay_iff 1000 600 (omega arith) (omega arith)

-- The least time stamp passes.
least_passes : is_replay 1000 (to_bits (negsuc (2 ^ 63 - 1))) ≡ false
unfolding program
least_passes = refl

abbrev emitted_payload : String → Fields
emitted_payload hash = field "events" (list (cons (str "webhook.") nil)) (
    field "data"
      (obj (
        field "url" (str "/") (
          field "method" (str "POST") (
            field "form" (obj end) (
              field "headers" (obj (field "X-Hub-Signature-256" (list (cons (str hash) nil)) end)) (
                field "host" (str "") (
                  field "remoteAddr" (str "") (
                    field "body" (list (of_bytes (b'b' ∷ [])))
                      (field "verifiedSystem" (list (cons (str "github") nil)) end)))))))))
      end)

hook_handler-emitted_example :
    Accepted no_template "id" equal_text mac codes no_json 0 hooks
      (request "sha256=6162")
      (emitted_payload "sha256=6162")
unfolding program
hook_handler-emitted_example =
    hook_handler-emitted no_template "id" equal_text mac codes no_json 0 hooks
      (request "sha256=6162") (emitted_payload "sha256=6162") refl

-- A hash that does not fit.
not_found :
    (hook_handler no_template "id" equal_text mac codes no_json 0 hooks
      (request "sha256=6163")).code
    ≡ 404
unfolding program
not_found = refl

abbrev no_basic : String → Option (String × String)
no_basic s = none

abbrev opened : Value → Outcome Value
opened = done

abbrev tokens : Items
tokens = cons (obj (field "token" (str "secret") (field "subject" (str "admin") end))) nil

abbrev known : Value
known = obj (field "data" (obj (field "tokens" (list tokens) end)) end)

abbrev sent : Value
sent =
    obj (
      field "headers" (obj (field "Authorization" (list (cons (str "Bearer secret") nil)) end)) end)

auth_web_request-Trusted_example :
    (options' : Value) × Trusted equal_text no_basic opened sent known options' "admin"
unfolding program
auth_web_request-Trusted_example =
    auth_web_request-Trusted equal_text no_basic opened sent known "admin" refl
