-- ===== src/Dipper/Message/RoundTrip.antt =====
-- A message that SendMessage has written is read back by FetchRawMessage.
use honeydipper.Common.{
  ◌≢◌, ℕ, ◌^◌, ◌<◌, ◌≡◌, refl, true, false, Option, some, List, [], ◌∷◌, ◌++◌, append_assoc, All,
  length,
}
use honeydipper.Common.Int.{pos}
use honeydipper.Outcome.{done, ◌>>=◌}
use honeydipper.Dipper.Message.{
  deserialize_content, deserialize_payload, serialize_content, structure, Value, Bytes, Payload,
  absent, bytes, Message,
}
use honeydipper.Dipper.Message.Scan.{got, end_line}
use honeydipper.Dipper.Message.Wire.{
  fetch_message, show, envelope, labels_bytes, frame, send_message, scan_envelope, fetch_payload,
  fetch_raw_message,
}
use honeydipper.Dipper.Message.Labels.{
  IsLabel, Distinct, Apart-nil, fetch_labels-bytes, read_full-append,
}
use honeydipper.Dipper.Message.Numbers.{IsWord, scan_int-show, scan_string-word, scan_string-blank}

-- A message whose names can stand on a line, whose labels have different names, and whose lengths
-- are ints.
pub record IsSendable (m : Message) (payload : Bytes) : Type 0 where
  pub channel : IsWord m.channel
  pub subject : IsWord m.subject
  pub labels : All IsLabel m.labels
  pub distinct : Distinct m.labels
  pub count : length m.labels < 2 ^ 63
  pub size : length payload < 2 ^ 63

frame-append :
    (m : Message) (payload rest : Bytes)
    → frame m payload ++ rest
      ≡ m.channel
        ++ (32
            ∷ (m.subject
                ++ (32
                    ∷ (show (length m.labels)
                        ++ (32
                            ∷ (show (length payload)
                                ++ (10 ∷ (labels_bytes m.labels ++ (payload ++ rest)))))))))
unfolding frame envelope
frame-append m payload rest = simp (append_assoc)

scan_envelope-line :
    (channel subject rest : Bytes) (count size : ℕ)
    → IsWord channel
    → IsWord subject
    → count < 2 ^ 63
    → size < 2 ^ 63
    → scan_envelope
        (channel ++ (32 ∷ (subject ++ (32 ∷ (show count ++ (32 ∷ (show size ++ (10 ∷ rest))))))))
      ≡ got (channel, subject, pos count, pos size) rest
unfolding scan_envelope end_line
scan_envelope-line channel subject rest count size c s n z =
    rw
      (scan_string-word channel 32
        (subject ++ (32 ∷ (show count ++ (32 ∷ (show size ++ (10 ∷ rest)))))) c refl)
      (rw (scan_string-blank subject 32 (show count ++ (32 ∷ (show size ++ (10 ∷ rest)))) s refl) (
        rw (scan_int-show count 32 (show size ++ (10 ∷ rest)) n refl)
          (rw (scan_int-show size 10 rest z refl) refl)))

-- What FetchRawMessage makes of the bytes of a payload.
abbrev pub raw : Bytes → Payload
raw [] = absent
raw (b ∷ bs) = bytes (b ∷ bs)

pub fetch_payload-append :
    (p rest : Bytes) → fetch_payload (length p) (p ++ rest) ≡ done (raw p, rest)
unfolding fetch_payload
fetch_payload-append [] rest = refl
fetch_payload-append (b ∷ bs) rest = rw (fetch_payload, read_full-append (b ∷ bs) rest) refl

abbrev pub as_raw : Message → Bytes → Message
as_raw m p = record m { payload = raw p; is_raw = true }

fetch-frame :
    (m : Message) (payload rest : Bytes)
    → IsSendable m payload
    → fetch_raw_message (frame m payload ++ rest) ≡ done (as_raw m payload, rest)
unfolding fetch_raw_message
fetch-frame m payload rest ok = rw (frame-append m payload rest) (
    rw
      (scan_envelope-line m.channel m.subject (labels_bytes m.labels ++ (payload ++ rest))
        (length m.labels) (length payload) ok.channel ok.subject ok.count ok.size)
      (rw
        (fetch_labels-bytes [] m.labels (payload ++ rest) ok.labels (Apart-nil m.labels)
          ok.distinct)
        (rw (fetch_payload-append payload rest) refl)))

abbrev pub message : Bytes → Bytes → List (Bytes × Bytes) → Value → Message
message channel subject labels v = record {
  channel = channel;
  subject = subject;
  labels = labels;
  payload = structure v;
  is_raw = false;
}

-- What one end sends with a payload of data, the other end fetches unchanged, and what follows on
-- the stream stays there, where the JSON package reads back what it has written: `b`, which is not
-- empty.
pub fetch_message-send :
    (marshal : Payload → Option Bytes) (unmarshal : Bytes → Option Value) (channel subject : Bytes)
    (labels : List (Bytes × Bytes)) (v : Value) (b rest : Bytes)
    → marshal (structure v) ≡ some b
    → unmarshal b ≡ some v
    → b ≢ []
    → IsSendable (message channel subject labels v) b
    → (send_message marshal (message channel subject labels v) >>= λ out.
        fetch_message unmarshal (out ++ rest))
      ≡ done (message channel subject labels v, rest)
unfolding send_message fetch_message serialize_content deserialize_payload deserialize_content
fetch_message-send marshal unmarshal channel subject labels v [] rest e d h ok = absurd (h refl)
fetch_message-send marshal unmarshal channel subject labels v (c ∷ cs) rest e d h ok =
    rw e (rw (fetch-frame (message channel subject labels v) (c ∷ cs) rest ok) (rw d refl))

-- A raw message is fetched by FetchRawMessage with the payload's bytes, an empty one as no payload,
-- and what follows on the stream stays there.
pub fetch_raw_message-send :
    (marshal : Payload → Option Bytes) (m : Message) (b rest : Bytes)
    → m.is_raw ≡ true
    → m.payload ≡ bytes b
    → IsSendable m b
    → (send_message marshal m >>= λ out. fetch_raw_message (out ++ rest)) ≡ done (as_raw m b, rest)
unfolding send_message frame
fetch_raw_message-send marshal m b rest r p ok = rw (r, p) (fetch-frame m b rest ok)
