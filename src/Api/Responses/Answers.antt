-- ===== src/Api/Responses/Answers.antt =====
-- The answer of the node that handles a call for one responder reaches the web request.
use honeydipper.Common.{ℕ, true, Option, none, some, String, ◌≡◌, refl, eq_refl}
use honeydipper.Common.Assoc.{lookup, lookup-insert}
use honeydipper.Value.{Value, obj, put}
use honeydipper.Workflow.Types.{Message, label}
use honeydipper.Api.Requests.{
  Request, Requests, waiting, type_first, handle_api_return, responded, on_request, take_return,
}
use honeydipper.Api.Responses.{return_data, return_error, reply, HttpReply, error_body, error_text}

-- The request for one responder that waits, without an error.
abbrev pub asks_first : Request → Request
asks_first r = record r { req_type = type_first; phase = waiting; err = none }

-- What the web request gets from the request with this UUID.
abbrev pub replied : ℕ → String → Option Request → Option HttpReply
replied limit uuid none = none
replied limit uuid (some r) = some (reply true limit uuid r)

abbrev pub reply_to : ℕ → String → Requests → Option HttpReply
reply_to limit uuid l = replied limit uuid (lookup uuid l.requests)

data_found :
    (v : Value) (call : Message) (l : Requests)
    → handle_api_return (return_data v call) l
      ≡ on_request
          (lookup (label "uuid" call) l.requests)
          (take_return (return_data v call))
          (return_data v call)
          (label "uuid" call)
          l
unfolding handle_api_return lookup
data_found v call l = refl

error_found :
    (text : String) (call : Message) (l : Requests)
    → handle_api_return (return_error text call) l
      ≡ on_request
          (lookup (label "uuid" call) l.requests)
          (take_return (return_error text call))
          (return_error text call)
          (label "uuid" call)
          l
unfolding handle_api_return lookup
error_found text call l = refl

-- When the node that has taken a call returns, the web request that waits for it, of a subject that
-- is allowed, is answered at once: data give the status 200 with the results and the data under the
-- name of the node, an error gives 500 with the name of the node and the text.
pub reply-handle_api_return :
    (call : Message) (v : Value) (text : String) (r : Request) (l : Requests) (limit : ℕ)
    → lookup (label "uuid" call) l.requests ≡ some (asks_first r)
    → (reply_to limit (label "uuid" call) (handle_api_return (return_data v call) l).0
        ≡ some (record { code = 200; body = obj (put (label "from" call) v r.results) }))
      × (reply_to limit (label "uuid" call) (handle_api_return (return_error text call) l).0
          ≡ some (record {
            code = 500;
            body = error_body (error_text (responded (label "from" call) text));
          }))
unfolding reply lookup
reply-handle_api_return call v text r l limit h = (
  rw (data_found v call l, h) (rw (lookup-insert, eq_refl) refl),
  rw (error_found text call l, h) (rw (lookup-insert, eq_refl) refl),
)
