-- ===== src/Api/Responses.antt =====
-- internal/api/response.go, and the answer to the web request in store.go.
pub mod Answers
use Prim.Native.String.{◌++◌ as str_append}
use honeydipper.Common.{
  ℕ, Bool, true, false, not, ◌&&◌, ◌||◌, Option, none, some, List, [], ◌∷◌, String, str_eq, ltb,
  if◌then◌else◌,
}
use honeydipper.Value.{Value, null, str, list, obj, Fields, end, field}
use honeydipper.Workflow.Types.{Message, label}
use honeydipper.Api.Requests.{
  Request, RequestType, type_first, type_all, type_match, ApiError, no_ack, timed_out, responded,
  is_shared, Phase, collecting, waiting, ready,
}

-- Where an answer goes: the UUID of the call, and who sends it.
abbrev answer_labels : String → Message → List (String × String)
answer_labels what call =
    ("type", what) ∷ ("uuid", label "uuid" call) ∷ ("from", label "from" call) ∷ []

-- Response.Ack
abbrev pub ack : Message → Message
ack call = record {
  channel = "eventbus";
  subject = "api";
  labels = answer_labels "ack" call;
  payload = null;
}

-- Response.Return
abbrev pub return_data : Value → Message → Message
return_data data_out call = record {
  channel = "eventbus";
  subject = "api";
  labels = answer_labels "result" call;
  payload = data_out;
}

-- Response.ReturnError
abbrev pub return_error : String → Message → Message
return_error err call = record {
  channel = "eventbus";
  subject = "api";
  labels =
      ("type", "result")
      ∷ ("uuid", label "uuid" call)
      ∷ ("from", label "from" call)
      ∷ ("error", err)
      ∷ [];
  payload = null;
}

-- What a node does with a call: nothing, as it is unknown or another node has the lock; or it answers,
-- and may send an ACK at once.
pub data Response : Type 0 where
  ignored : Response
  answers : Option Message → Response

-- NewResponse, with the type of the call, none for one that is not defined, and whether the lock on
-- the call is granted.
unfoldable pub new_response : Option RequestType → Bool → Message → Response
new_response none locked call = ignored
new_response (some type_all) locked call = answers (some (ack call))
new_response (some type_first) locked call = if locked then answers none else ignored
new_response (some type_match) locked call = answers none

pub record HttpReply : Type 0 where
  pub code : ℕ
  pub body : Value

abbrev pub error_body : String → Value
error_body text = obj (field "error" (str text) end)

abbrev partial_body : String → Fields → Value
partial_body uuid results = obj (field "uuid" (str uuid) (field "results" (obj results) end))

-- The texts of the errors that are no answer of a responder.
abbrev pub error_text : ApiError → String
error_text no_ack = "API error: no ACK"
error_text timed_out = "timeout"
error_text (responded from text) =
    str_append "API error: from [" (str_append from (str_append "]: " text))

abbrev reply_ready : Request → HttpReply
reply_ready r = elim r.err [
  | none ↦ record { code = 200; body = obj r.results }
  | some no_ack ↦ record { code = 404; body = error_body "object not found" }
  | some timed_out ↦ record { code = 500; body = error_body (error_text timed_out) }
  | some (responded from text) ↦ record {
    code = 500;
    body = error_body (error_text (responded from text));
  }
]

abbrev reply_late : ℕ → String → Request → HttpReply
reply_late limit uuid r =
    if is_shared limit r
    then record { code = 202; body = partial_body uuid r.results }
    else record { code = 500; body = error_body "timeout" }

-- HandleHTTPRequest, at the time at which it answers: the request is ready, or the write timer has
-- run out.
unfoldable pub reply : Bool → ℕ → String → Request → HttpReply
reply allowed limit uuid r =
    if not allowed
    then record { code = 403; body = obj (field "errors" (str "not allowed") end) }
    else elim r.phase [
      | ready ↦ reply_ready r
      | collecting ↦ reply_late limit uuid r
      | waiting ↦ reply_late limit uuid r
    ]
