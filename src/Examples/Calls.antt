-- ===== src/Examples/Calls.antt =====
-- API calls with two responders.
use honeydipper.Common.{false, none, some, List, [], ◌∷◌, String, ◌≡◌, ◌≢◌, refl, arith}
use honeydipper.Common.Assoc.{lookup}
use honeydipper.Value.{Value, null, str, obj, end, field, get, put}
use honeydipper.Workflow.Types.{Message}
use honeydipper.Api.Responses.{return_data, return_error, error_body, reply}
use honeydipper.Api.Responses.Answers.{reply-handle_api_return, reply_to, asks_first}
use honeydipper.Api.Requests.{
  Request, Requests, type_all, waiting, save_request, clear_request, find_request,
  handle_api_return,
}
use honeydipper.Api.Requests.Collects.{returns-settled, take_all, settled}
use honeydipper.Api.Requests.Shared.{find-clear_request}

program : Unit {0}
unfolding lookup get put handle_api_return reply
program = tt

abbrev request : Request
request = record {
  req_type = type_all;
  method = "GET";
  url_path = "/events";
  timeout = none;
  phase = waiting;
  results = end;
  acks = "a" ∷ "b" ∷ [];
  awaits_first = false;
  err = none;
}

abbrev calls : Requests
calls = record { requests = ("id", request) ∷ []; requests_by_input = []; write_timeout = 10 }

abbrev answers : List (String × Value)
answers = ("b", str "second") ∷ ("a", str "first") ∷ []

returns-settled_example :
    lookup "id" (take_all "id" answers calls).requests ≡ some (settled answers request)
unfolding program
returns-settled_example =
    returns-settled "id" ("b", str "second") (("a", str "first") ∷ []) request calls refl refl
      (refl, (refl, tt)) (omega arith)

find-clear_request_example :
    (find_request "GET" "/events" (save_request "id2" request calls) ≡ some "id2")
    × (find_request "GET" "/events" (clear_request "id2" request (save_request "id2" request calls))
        ≡ none)
    × (lookup "id2" (clear_request "id2" request (save_request "id2" request calls)).requests
        ≡ none)
    × ((path : String)
        → "/events" ≢ path
        → find_request "GET" path (clear_request "id2" request (save_request "id2" request calls))
          ≡ find_request "GET" path calls)
find-clear_request_example = find-clear_request "id2" request calls refl

abbrev call : Message
call = record {
  channel = "";
  subject = "call";
  labels = ("uuid", "id") ∷ ("from", "node") ∷ [];
  payload = null;
}

abbrev first_calls : Requests
first_calls = record calls { requests = ("id", asks_first request) ∷ [] }

reply-handle_api_return_example :
    (reply_to 10 "id" (handle_api_return (return_data (str "ok") call) first_calls).0
      ≡ some (record { code = 200; body = obj (field "node" (str "ok") end) }))
    × (reply_to 10 "id" (handle_api_return (return_error "no" call) first_calls).0
        ≡ some (record { code = 500; body = error_body "API error: from [node]: no" }))
unfolding program
reply-handle_api_return_example =
    reply-handle_api_return call (str "ok") "no" request first_calls 10 refl
