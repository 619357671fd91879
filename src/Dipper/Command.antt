-- ===== src/Dipper/Command.antt =====
-- pkg/dipper/commandHandler.go: what a provider of commands returns to the caller.
pub mod Attempts
pub mod Router
pub mod Returns
pub mod Judge
pub mod Retries
pub mod Pauses
pub mod Once
use Prim.Native.String.{◌++◌}
use honeydipper.Common.{
  Bool, true, false, Option, none, some, List, [], ◌∷◌, String, str_eq, not, ◌||◌, is_some,
  if◌then◌else◌,
}
use honeydipper.Common.Assoc.{Assoc, lookup, insert, delete, has, read}
use honeydipper.Dipper.Message.{Payload, absent}

abbrev pub success : String
success = "success"

-- CommandProvider: its commands are a parameter of the router.
pub record Provider : Type 0 where
  pub channel : String
  pub subject : String

-- The parts of a Message that a command replies with.
pub record Reply : Type 0 where
  pub labels : Assoc String
  pub payload : Payload
  pub is_raw : Bool

-- What is written to ReturnWriter.
pub record Sent : Type 0 where
  pub channel : String
  pub subject : String
  pub labels : Assoc String
  pub payload : Payload
  pub is_raw : Bool

-- The messages sent, and the labels of the call, which the return message shares.
pub record Returned : Type 0 where
  pub sent : List Sent
  pub call : Assoc String

-- delete(retMsg.Labels, ...)
unfoldable pub without_limits : Assoc String → Assoc String
without_limits labels = delete "timeout" (delete "retry" (delete "backoff_ms" labels))

-- retMsg.Labels["status"] = status; if status != SUCCESS { ... }
given_status : String → Assoc String → Assoc String → Assoc String
given_status status retval labels =
    if str_eq status success
    then insert "status" status labels
    else insert "reason" (read "reason" retval) (insert "status" status labels)

no_status : Option String → Assoc String → Assoc String
no_status (some reason) labels = insert "reason" reason (insert "status" "error" labels)
no_status none labels = insert "status" success labels

set_status : Option String → Assoc String → Assoc String → Assoc String
set_status (some status) retval labels = given_status status retval labels
set_status none retval labels = no_status (lookup "error" retval) labels

-- The labels of the return message.
unfoldable pub return_labels : Assoc String → Assoc String → Assoc String
unfolding set_status given_status no_status
return_labels retval call = set_status (lookup "status" retval) retval (without_limits call)

-- CommandProvider.Return
unfoldable pub return_value : Provider → Assoc String → Reply → Returned
return_value p call retval = elim (has "sessionID" call) [
  | false ↦ record { sent = []; call = call }
  | true ↦ record {
    sent =
        record {
          channel = p.channel;
          subject = p.subject;
          labels = return_labels retval.labels call;
          payload = retval.payload;
          is_raw = retval.is_raw;
        }
        ∷ [];
    call = return_labels retval.labels call;
  }
]

abbrev pub error_reply : String → Reply
error_reply text = record { labels = ("error", text) ∷ []; payload = absent; is_raw = false }

-- CommandProvider.ReturnError: the text is formatted by the caller.
unfoldable pub return_error : Provider → Assoc String → String → Returned
return_error p call text = return_value p call (error_reply text)
