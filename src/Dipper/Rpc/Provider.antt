-- ===== src/Dipper/Rpc/Provider.antt =====
-- pkg/dipper/rpc.go: the provider's side, which returns one message to a call that waits.
use honeydipper.Common.Int.{ℤ}
use honeydipper.Outcome.{Outcome, done, panic, number_error}
use honeydipper.Common.{
  is_some, Bool, true, false, Option, none, some, List, [], ◌∷◌, String, str_eq, if◌then◌else◌,
}
use honeydipper.Common.Assoc.{Assoc, lookup, read}
use honeydipper.Dipper.Message.{Payload, absent}
use honeydipper.Dipper.Rpc.{Mail, skip}

-- RPCProvider, without its handlers. The writer that a return goes to is that of the call or the
-- default one.
pub record RpcProvider : Type 0 where
  pub channel : String
  pub subject : String

-- What the handler puts into msg.Reply.
pub record Reply : Type 0 where
  pub labels : Assoc String
  pub payload : Payload
  pub is_raw : Bool

-- ReturnError
unfoldable pub rpc_return_error : RpcProvider → Assoc String → String → Mail
rpc_return_error p call reason = record {
  channel = p.channel;
  subject = p.subject;
  labels = ("rpcID", read "rpcID" call) ∷ ("caller", read "caller" call) ∷ ("error", reason) ∷ [];
  payload = absent;
  is_raw = false;
}

-- Return
unfoldable pub rpc_return : RpcProvider → Assoc String → Reply → Mail
rpc_return p call reply = record {
  channel = p.channel;
  subject = p.subject;
  labels = ("rpcID", read "rpcID" call) ∷ ("caller", read "caller" call) ∷ [];
  payload = reply.payload;
  is_raw = reply.is_raw;
}

-- How the handler of a call ends: with a reply in time, with a panic, whose text becomes the reply,
-- or after the timer has fired.
pub data Handling : Type 0 where
  replies : Reply → Handling
  panics : String → Handling
  too_late : Handling

abbrev error_or_value : RpcProvider → Assoc String → Reply → Option String → Mail
error_or_value p call reply (some reason) = rpc_return_error p call reason
error_or_value p call reply none = rpc_return p call reply

-- The goroutine of Router: it returns the reply, its error, or the timeout.
unfoldable pub returner : RpcProvider → Assoc String → Handling → Mail
returner p call (replies r) = error_or_value p call r (lookup "error" r.labels)
returner p call (panics text) = rpc_return_error p call text
returner p call too_late = rpc_return_error p call "timeout"

-- if t, ok := msg.Labels["timeout"]; ok { ... }: `parse` is time.ParseDuration, and Must panics.
timeout_valid : (String → Option ℤ) → Option String → Bool
timeout_valid parse none = true
timeout_valid parse (some t) = is_some (parse t)

-- Router: the messages that it returns for a call with these labels.
unfoldable pub rpc_router :
    (String → Option ℤ) → RpcProvider → Assoc String → Handling → Outcome (List Mail)
unfolding timeout_valid
rpc_router parse p call h =
    if timeout_valid parse (lookup "timeout" call)
    then done (if str_eq (read "rpcID" call) skip then [] else returner p call h ∷ [])
    else panic number_error
