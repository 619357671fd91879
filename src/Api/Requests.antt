-- ===== src/Api/Requests.antt =====
-- internal/api/store.go and request.go: a request collects ACKs, then it waits for results, and then
-- it is ready. A return that comes in is sent over a channel, which exists while the request waits.
pub mod Collects
pub mod Shared
use honeydipper.Common.{
  ℕ, Bool, true, false, not, ◌&&◌, ◌||◌, Option, none, some, is_some, List, [], ◌∷◌, ◌++◌, String,
  str_eq, ◌==◌, ltb, if◌then◌else◌, length,
}
use honeydipper.Common.Assoc.{Assoc, lookup, insert, delete}
use honeydipper.Value.{Value, Fields, end, field, put, field_count}
use honeydipper.Workflow.Types.{Message}

-- TypeFirst, TypeAll, TypeMatch
pub data RequestType : Type 0 where
  type_first type_all type_match : RequestType

-- Before postACK, while `received` is open, and once `ready` is closed.
pub data Phase : Type 0 where
  collecting waiting ready : Phase

pub data ApiError : Type 0 where
  no_ack timed_out : ApiError
  -- the responder and its message
  responded : String → String → ApiError

-- A request that is dispatched. A timeout of none is InfiniteDuration.
pub record Request : Type 0 where
  pub req_type : RequestType
  pub method : String
  pub url_path : String
  pub timeout : Option ℕ
  pub phase : Phase
  pub results : Fields
  pub acks : List String
  -- firstACK is open: the request waits for the first ACK
  pub awaits_first : Bool
  pub err : Option ApiError

-- The maps of the store: the requests by UUID, and the UUIDs of those that are shared by path.
pub record Requests : Type 0 where
  pub requests : Assoc Request
  pub requests_by_input : Assoc String
  pub write_timeout : ℕ

-- What a handler does besides: nothing, wake the wait for the first ACK, send to the request that
-- waits, panic (which is recovered), or block for ever on a channel that is nil.
pub data Signal : Type 0 where
  quiet first_ack delivered failed blocked : Signal

abbrev pub save_at : String → Request → Requests → Requests
save_at uuid r l = record l { requests = insert uuid r l.requests }

-- api.received <- 1
abbrev pub send : Request → Request × Signal
send r = elim r.phase [
  | collecting ↦ (r, blocked)
  | waiting ↦ (record r { phase = ready }, delivered)
  | ready ↦ (r, failed)
]

abbrev add_ack : String → Request → Request
add_ack responder r = record r { acks = r.acks ++ responder ∷ [] }

-- api.firstACK <- 1; the wait ends, and with it the channel.
abbrev send_first : Request → Request × Signal
send_first r =
    if r.awaits_first then (record r { awaits_first = false }, first_ack) else (r, blocked)

abbrev take_ack : String → Request → Request × Signal
take_ack responder r = elim r.req_type [
  | type_all ↦ (add_ack responder r, quiet)
  | type_match ↦ send_first (add_ack responder r)
  | type_first ↦ (r, failed)
]

abbrev pub update_at : String → Request × Signal → Requests → Requests × Signal
update_at uuid r l = (save_at uuid r.0 l, r.1)

-- The request of a message, and who has sent it; a label or a request that is missing is a panic.
abbrev pub on_sender :
    Option String
    → (String → Request → Request × Signal)
    → String
    → Request
    → Requests
    → Requests × Signal
on_sender none f uuid r l = (l, failed)
on_sender (some responder) f uuid r l = update_at uuid (f responder r) l

abbrev pub on_request :
    Option Request
    → (String → Request → Request × Signal)
    → Message
    → String
    → Requests
    → Requests × Signal
on_request none f m uuid l = (l, failed)
on_request (some r) f m uuid l = on_sender (lookup "from" m.labels) f uuid r l

abbrev pub on_uuid :
    Option String → (String → Request → Request × Signal) → Message → Requests → Requests × Signal
on_uuid none f m l = (l, failed)
on_uuid (some uuid) f m l = on_request (lookup uuid l.requests) f m uuid l

abbrev pub with_request :
    (String → Request → Request × Signal) → Message → Requests → Requests × Signal
with_request f m l = on_uuid (lookup "uuid" m.labels) f m l

-- HandleAPIACK
unfoldable pub handle_api_ack : Message → Requests → Requests × Signal
handle_api_ack = with_request take_ack

abbrev pub add_result : String → Value → Request → Request
add_result responder v r = record r { results = put responder v r.results }

abbrev pub exists_channel : Phase → Bool
exists_channel collecting = false
exists_channel waiting = true
exists_channel ready = true

-- A result of a request that waits for several counts once everybody who has sent an ACK has answered.
abbrev pub send_if_complete : Request → Request × Signal
send_if_complete r =
    if exists_channel r.phase && field_count r.results == length r.acks then send r else (r, quiet)

abbrev pub is_first : RequestType → Bool
is_first type_first = true
is_first type_all = false
is_first type_match = false

abbrev pub take_result : String → Value → Request → Request × Signal
take_result responder v r =
    let r' = add_result responder v r in
    if is_first r.req_type then send r' else send_if_complete r'

abbrev pub take_return : Message → String → Request → Request × Signal
take_return m responder r = elim (lookup "error" m.labels) [
  | some text ↦ send (record r { err = some (responded responder text) })
  | none ↦ take_result responder m.payload r
]

-- HandleAPIReturn, on a message whose payload is decoded.
unfoldable pub handle_api_return : Message → Requests → Requests × Signal
handle_api_return m = with_request (take_return m) m

abbrev has_acks : List String → Bool
has_acks [] = false
has_acks (a ∷ acks) = true

-- postACK, up to the wait.
unfoldable pub post_ack : Request → Request
post_ack r =
    if has_acks r.acks && length r.acks == field_count r.results
    then record r { phase = ready }
    else if not (is_first r.req_type) && not (has_acks r.acks)
    then record r { phase = ready; err = some no_ack }
    else record r { phase = waiting }

-- The timer of the wait; an infinite wait has none.
unfoldable pub time_out : Request → Request
time_out r = if is_some r.timeout then record r { phase = ready; err = some timed_out } else r

-- A request that is read with GET and may last is shared by its path.
abbrev pub outlasts : Option ℕ → ℕ → Bool
outlasts none limit = true
outlasts (some t) limit = ltb limit t

abbrev pub is_shared : ℕ → Request → Bool
is_shared limit r = str_eq r.method "GET" && outlasts r.timeout limit

-- SaveRequest
unfoldable pub save_request : String → Request → Requests → Requests
save_request uuid r l = record l {
  requests = insert uuid r l.requests;
  requests_by_input =
      if is_shared l.write_timeout r
      then insert r.url_path uuid l.requests_by_input
      else l.requests_by_input;
}

-- ClearRequest
unfoldable pub clear_request : String → Request → Requests → Requests
clear_request uuid r l = record l {
  requests = delete uuid l.requests;
  requests_by_input =
      if is_shared l.write_timeout r
      then delete r.url_path l.requests_by_input
      else l.requests_by_input;
}

-- GetRequest: the UUID of the request that is there already, or none for a new one.
unfoldable pub find_request : String → String → Requests → Option String
find_request method path l = if str_eq method "GET" then lookup path l.requests_by_input else none
