-- ===== src/Dipper/Rpc.antt =====
-- pkg/dipper/rpc.go: the caller's side of a call between drivers. A call waits on a channel of one
-- place, which stands in an ID map under the key that goes out with the call.
pub mod Provider
pub mod Machine
pub mod Pending
pub mod Steps
pub mod Exchange
use Prim.Native.String.{◌++◌}
use honeydipper.Common.{
  Bool, true, false, Option, none, some, List, [], ◌∷◌, String, str_eq, if◌then◌else◌, not,
}
use honeydipper.Common.Int.{ℤ, pos, negsuc}
use honeydipper.Common.Assoc.{Assoc, lookup, insert, has, read}
use honeydipper.Outcome.{Outcome, done, panic, Fault, type_assertion, ◌>>=◌}
use honeydipper.Dipper.Message.{Bytes, Payload, absent, bytes, structure}
use honeydipper.Dipper.IdMap.{IdMap, id_map_put, id_map_del, id_map_get, empty}

abbrev pub skip : String
skip = "skip"

-- A Message as RPC makes it.
pub record Mail : Type 0 where
  pub channel : String
  pub subject : String
  pub labels : Assoc String
  pub payload : Payload
  pub is_raw : Bool

-- What HandleReturn puts into a channel: an error with its text, or the payload.
pub data Result : Type 0 where
  failed : String → Result
  result : Payload → Result

-- A `chan interface{}` of capacity 1.
abbrev pub Place : Type 0
Place = Option Result

-- RPCCallerBase: Counter is not used, the ID map has its own.
pub record Caller : Type 0 where
  pub channel : String
  pub subject : String
  pub results : IdMap Place

-- Init
abbrev pub new_caller : String → String → Caller
new_caller channel subject = record { channel = channel; subject = subject; results = empty }

-- What Parent.GetReceiver gives for a feature: a receiver, a nil one, or a panic with an error. That
-- of an interface that holds nothing is the failing type assertion.
pub data Receiver : Type 0 where
  ready null_receiver : Receiver
  unavailable : String → Receiver

-- The error of a Go call, or none, and the message that was sent.
pub data Call : Type 0 where
  sent : Mail → Call
  call_error : String → Call

rpc_id_or_skip : String → String
rpc_id_or_skip id = if str_eq id "" then skip else id

-- The message of CallRawNoWait.
unfoldable pub raw_call : Caller → String → String → Bytes → String → Mail
raw_call c feature method params id = record {
  channel = c.channel;
  subject = c.subject;
  labels = ("rpcID", id) ∷ ("feature", feature) ∷ ("method", method) ∷ ("caller", "-") ∷ [];
  payload = bytes params;
  is_raw = true;
}

-- CallRawNoWait: a panic is recovered and returned as the error.
unfoldable pub call_raw_no_wait : Receiver → Caller → String → String → Bytes → String → Call
unfolding rpc_id_or_skip
call_raw_no_wait ready c feature method params id =
    sent (raw_call c feature method params (rpc_id_or_skip id))
call_raw_no_wait null_receiver c feature method params id =
    call_error ("rpc error: feature not available: " ++ feature)
call_raw_no_wait (unavailable text) c feature method params id = call_error text

default_label : String → String → Assoc String → Assoc String
default_label key value labels =
    if str_eq (read key labels) "" then insert key value labels else labels

-- CallWithMessageNoWait: the labels of the message it sends. A call without an ID gets the label
-- `rcpID`, as the source spells it.
unfoldable pub message_labels : Assoc String → Assoc String
unfolding default_label
message_labels labels =
    let with_caller = default_label "caller" "-" labels in
    if str_eq (read "rpcID" with_caller) "" then insert "rcpID" skip with_caller else with_caller

-- CallWithMessageNoWait: here nothing recovers a panic.
pub data MessageCall : Type 0 where
  message_sent : Mail → MessageCall
  message_error : String → MessageCall
  message_panic : String → MessageCall

unfoldable pub call_with_message_no_wait : Receiver → Caller → Mail → MessageCall
call_with_message_no_wait ready c m =
    message_sent
      (record m { channel = c.channel; subject = c.subject; labels = message_labels m.labels })
call_with_message_no_wait null_receiver c m =
    message_error ("rpc error: feature not available: " ++ read "feature" (message_labels m.labels))
call_with_message_no_wait (unavailable text) c m = message_panic text

-- result := make(chan interface{}, 1); rpcID := IDMapPut(&c.Result, result)
unfoldable pub open_call : Caller → Option (String × Caller)
open_call c = elim (id_map_put none c.results) [
  | none ↦ none
  | some (id, m) ↦ some (id, record c { results = m })
]

-- IDMapDel(&c.Result, rpcID), deferred
unfoldable pub close_call : String → Caller → Caller
close_call id c = record c { results = id_map_del id c.results }

-- The result of a return message.
unfoldable pub result_of : Mail → Result
result_of m = elim (lookup "error" m.labels) [
  | some reason ↦ failed ("rpc error: reason: " ++ reason)
  | none ↦ result m.payload
]

-- HandleReturn: nobody waits, the channel takes the result, or it is full and the send blocks.
pub data Handled : Type 0 where
  ignored blocked : Handled
  delivered : Caller → Handled

deliver : Option Place → String → Result → Caller → Handled
deliver none id r c = ignored
deliver (some (some old)) id r c = blocked
deliver (some none) id r c =
    delivered (record c {
      results = record (c.results) { entries = insert id (some r) (c.results).entries };
    })

unfoldable pub handle_return : Mail → Caller → Handled
unfolding deliver
handle_return m c =
    deliver (id_map_get (read "rpcID" m.labels) c.results) (read "rpcID" m.labels) (result_of m) c

-- What CallRaw returns of the value it receives: an error, or bytes, which may be none.
pub data Answer : Type 0 where
  answer_error : String → Answer
  answer_bytes : Option Bytes → Answer

answer_value : Payload → Outcome Answer
answer_value absent = done (answer_bytes none)
answer_value (bytes b) = done (answer_bytes (some b))
answer_value (structure v) = panic type_assertion

unfoldable pub answer_of : Result → Outcome Answer
unfolding answer_value
answer_of (failed text) = done (answer_error text)
answer_of (result p) = answer_value p
