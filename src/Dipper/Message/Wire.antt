-- ===== src/Dipper/Message/Wire.antt =====
-- pkg/dipper/comm.go: SendMessage and FetchMessage, the framing of a message on a byte stream. The
-- lock of the stream makes the writes of one message one piece of the output.
use honeydipper.Common.{
  ℕ, zero, suc, Bool, true, false, Option, none, some, List, [], ◌∷◌, ◌++◌, length, if◌then◌else◌,
}
use honeydipper.Common.Int.{ℤ, pos, negsuc, at_least_zero}
use honeydipper.Text.{codes, codes_eq}
use honeydipper.Text.Number.{itoa}
use honeydipper.Value.{Value}
use honeydipper.Outcome.{
  Outcome, done, panic, ◌>>=◌, end_of_input, unexpected_end, invalid_envelope, bad_label_name,
  bad_label_value, type_assertion,
}
use honeydipper.Dipper.Message.{
  Bytes, Payload, absent, bytes, structure, Message, serialize_content, deserialize_payload,
}
use honeydipper.Dipper.Message.Scan.{
  Scan, after, got, ended, malformed, scan_string, scan_int, end_line,
}

-- %d of a length.
abbrev pub show : ℕ → Bytes
show n = codes (itoa n)

-- fmt.Fprintf(out, "%s %s %d %d\n", ...)
unfoldable pub envelope : Bytes → Bytes → ℕ → ℕ → Bytes
envelope channel subject labels size =
    channel ++ (32 ∷ (subject ++ (32 ∷ (show labels ++ (32 ∷ (show size ++ (10 ∷ [])))))))

-- fmt.Fprintf(out, "%s %d\n", lname, len(lval)) and the bytes of the value.
unfoldable pub label_bytes : Bytes × Bytes → Bytes
label_bytes (name, value) = name ++ (32 ∷ (show (length value) ++ (10 ∷ value)))

unfoldable pub labels_bytes : List (Bytes × Bytes) → Bytes
labels_bytes [] = []
labels_bytes (l ∷ ls) = label_bytes l ++ labels_bytes ls

-- What is written, once the payload is bytes.
unfoldable pub frame : Message → Bytes → Bytes
unfolding envelope labels_bytes label_bytes
frame m payload =
    envelope m.channel m.subject (length m.labels) (length payload)
    ++ (labels_bytes m.labels ++ payload)

module _ (marshal : Payload → Option Bytes) where
  unfoldable pub payload_bytes : Bool → Payload → Outcome Bytes
  payload_bytes raw absent = done []
  payload_bytes false (bytes b) = serialize_content marshal (λ _. none) (bytes b)
  payload_bytes false (structure v) = serialize_content marshal (λ _. none) (structure v)
  payload_bytes true (bytes b) = done b
  payload_bytes true (structure v) = panic type_assertion

  -- SendMessage: the bytes that it writes to the stream.
  unfoldable pub send_message : Message → Outcome Bytes
  unfolding payload_bytes
  send_message m = do payload ← payload_bytes m.is_raw m.payload; done (frame m payload)

-- io.ReadFull of a buffer of that length: none when the input ends before.
unfoldable pub read_full : ℕ → Bytes → Option (Bytes × Bytes)
read_full zero cs = some ([], cs)
read_full (suc n) [] = none
read_full (suc n) (c ∷ cs) = elim (read_full n cs) [
  | none ↦ none
  | some (b, rest) ↦ some (c ∷ b, rest)
]

-- msg.Labels[lname] = value
unfoldable pub set_label : Bytes → Bytes → List (Bytes × Bytes) → List (Bytes × Bytes)
set_label name value [] = (name, value) ∷ []
set_label name value ((n, v) ∷ ls) =
    if codes_eq n name then (n, value) ∷ ls else (n, v) ∷ set_label name value ls

-- Fscanln(in, &lname, &vl)
unfoldable pub scan_label : Bytes → Scan (Bytes × ℤ)
scan_label cs =
    after (scan_string cs) (λ name r1.
      after (scan_int r1) (λ size r2. after (end_line r2) (λ _ r3. got (name, size) r3)))

-- Fscanln(in, &channel, &subject, &numLabels, &size)
unfoldable pub scan_envelope : Bytes → Scan (Bytes × Bytes × ℤ × ℤ)
scan_envelope cs = after (scan_string cs) (λ channel r1. after (scan_string r1) (λ subject r2.
    after (scan_int r2) (λ labels r3.
      after (scan_int r3)
        (λ size r4. after (end_line r4) (λ _ r5. got (channel, subject, labels, size) r5)))))

-- if vl > 0 { ... } else { msg.Labels[lname] = "" }
unfoldable pub label_value : ℤ → Bytes → Outcome (Bytes × Bytes)
label_value (negsuc n) cs = done ([], cs)
label_value (pos n) cs = elim (read_full n cs) [ none ↦ panic bad_label_value | some r ↦ done r ]

label_header : Scan (Bytes × ℤ) → Outcome (Bytes × ℤ × Bytes)
label_header (got (name, size) rest) = done (name, size, rest)
label_header ended = panic bad_label_name
label_header malformed = panic bad_label_name

unfoldable pub fetch_label : Bytes → Outcome ((Bytes × Bytes) × Bytes)
unfolding label_value label_header scan_label
fetch_label cs = do
  (name, size, r1) ← label_header (scan_label cs)
  (value, r2) ← label_value size r1
  done ((name, value), r2)

-- for ; numLabels > 0; numLabels-- { ... }
unfoldable pub fetch_labels :
    ℕ → List (Bytes × Bytes) → Bytes → Outcome (List (Bytes × Bytes) × Bytes)
fetch_labels zero ls cs = done (ls, cs)
fetch_labels (suc n) ls cs = do
  ((name, value), rest) ← fetch_label cs
  fetch_labels n (set_label name value ls) rest

unfoldable pub fetch_payload : ℕ → Bytes → Outcome (Payload × Bytes)
fetch_payload zero cs = done (absent, cs)
fetch_payload (suc n) [] = panic end_of_input
fetch_payload (suc n) (c ∷ cs) = elim (read_full (suc n) (c ∷ cs)) [
  | none ↦ panic unexpected_end
  | some (b, rest) ↦ done (bytes b, rest)
]

open_envelope : Scan (Bytes × Bytes × ℤ × ℤ) → Outcome (Bytes × Bytes × ℤ × ℤ × Bytes)
open_envelope (got (channel, subject, labels, size) rest) =
    done (channel, subject, labels, size, rest)
open_envelope ended = panic end_of_input
open_envelope malformed = panic invalid_envelope

-- FetchRawMessage: the message and what is left of the input.
unfoldable pub fetch_raw_message : Bytes → Outcome (Message × Bytes)
unfolding open_envelope fetch_payload scan_envelope fetch_labels
fetch_raw_message cs = do
  (channel, subject, labels, size, r1) ← open_envelope (scan_envelope cs)
  (ls, r2) ← fetch_labels (at_least_zero labels) [] r1
  (payload, r3) ← fetch_payload (at_least_zero size) r2
  done (
    record { channel = channel; subject = subject; labels = ls; payload = payload; is_raw = true },
    r3,
  )

-- FetchMessage
unfoldable pub fetch_message : (Bytes → Option Value) → Bytes → Outcome (Message × Bytes)
fetch_message unmarshal cs = do
  (m, rest) ← fetch_raw_message cs
  raw ← deserialize_payload (λ _. none) unmarshal m
  done (raw, rest)
