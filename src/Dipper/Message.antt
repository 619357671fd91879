-- ===== src/Dipper/Message.antt =====
-- pkg/dipper/comm.go: the message that the parts of the system pass to each other, and its payload
-- as bytes and as data. A Go string is its bytes here, since the wire counts them.
pub mod Scan
pub mod Wire
pub mod Numbers
pub mod Labels
pub mod RoundTrip
use honeydipper.Common.{ℕ, Bool, true, false, Option, none, some, List, [], ◌∷◌}
use honeydipper.Outcome.{Outcome, done, panic, type_assertion, json_error, ◌>>=◌}
use honeydipper.Value.{Value}

abbrev pub Bytes : Type 0
Bytes = List ℕ

-- What the interface Payload holds: nil, a []byte, or other data.
pub data Payload : Type 0 where
  absent : Payload
  bytes : Bytes → Payload
  structure : Value → Payload

-- Message, as far as it is on the wire, with the flag that tells raw payloads. Size is the length
-- of the payload. The labels stand in the order in which `range` visits the map.
pub record Message : Type 0 where
  pub channel : Bytes
  pub subject : Bytes
  pub labels : List (Bytes × Bytes)
  pub payload : Payload
  pub is_raw : Bool

-- Package encoding/json: Marshal takes a []byte too, and none is its error.
module _ (marshal : Payload → Option Bytes) (unmarshal : Bytes → Option Value) where
  marshalled : Option Bytes → Outcome Bytes
  marshalled none = panic json_error
  marshalled (some b) = done b

  -- SerializeContent
  unfoldable pub serialize_content : Payload → Outcome Bytes
  unfolding marshalled
  serialize_content absent = done []
  serialize_content (bytes b) = marshalled (marshal (bytes b))
  serialize_content (structure v) = marshalled (marshal (structure v))

  unmarshalled : Option Value → Outcome Payload
  unmarshalled none = panic json_error
  unmarshalled (some v) = done (structure v)

  -- DeserializeContent
  unfoldable pub deserialize_content : Bytes → Outcome Payload
  unfolding unmarshalled
  deserialize_content [] = done absent
  deserialize_content (b ∷ bs) = unmarshalled (unmarshal (b ∷ bs))

  -- msg.Payload != nil, and its assertion to []byte.
  deserialize_raw : Payload → Outcome Payload
  deserialize_raw absent = done absent
  deserialize_raw (bytes b) = deserialize_content b
  deserialize_raw (structure v) = panic type_assertion

  -- DeserializePayload
  unfoldable pub deserialize_payload : Message → Outcome Message
  unfolding deserialize_raw
  deserialize_payload m = elim m.is_raw [
    | true ↦ do p ← deserialize_raw m.payload; done (record m { payload = p; is_raw = false })
    | false ↦ done m
  ]

  -- SerializePayload: a payload that is not raw must already be a []byte.
  serialize_cooked : Payload → Outcome Payload
  serialize_cooked absent = done absent
  serialize_cooked (bytes b) = do s ← serialize_content (bytes b); done (bytes s)
  serialize_cooked (structure v) = panic type_assertion

  unfoldable pub serialize_payload : Message → Outcome Message
  unfolding serialize_cooked
  serialize_payload m = elim m.is_raw [
    | true ↦ done m
    | false ↦ do p ← serialize_cooked m.payload; done (record m { payload = p; is_raw = true })
  ]
