-- ===== src/Examples/Messages.antt =====
-- A message on the wire.
use honeydipper.Common.{◌≡◌, refl, some, none, Option, List, [], ◌∷◌, ◌++◌, arith}
use honeydipper.Text.Number.{itoa, write}
use honeydipper.Value.{Value, obj, end}
use honeydipper.Outcome.{done, panic, ◌>>=◌, invalid_envelope, end_of_input}
use honeydipper.Dipper.Message.{Bytes, Payload, structure, bytes, absent}
use honeydipper.Dipper.Message.Scan.{scan_string, scan_int, end_line, skip_space, token, number}
use honeydipper.Dipper.Message.Wire.{
  send_message, fetch_message, fetch_raw_message, frame, labels_bytes, label_bytes, envelope,
  fetch_labels, fetch_label, read_full,
}
use honeydipper.Dipper.Message.Numbers.{IsWord}
use honeydipper.Dipper.Message.Labels.{Distinct}
use honeydipper.Dipper.Message.RoundTrip.{message, fetch_message-send}

program : Unit {0}
unfolding fetch_raw_message frame labels_bytes label_bytes envelope itoa write fetch_labels
    fetch_label scan_string scan_int end_line skip_space token number read_full
program = tt

abbrev word : Bytes
word = b'h' ∷ b'i' ∷ []

word-IsWord : IsWord word
word-IsWord = record {
  plain = ((omega arith, omega arith), ((omega arith, omega arith), tt));
  nonempty = λ e. cc;
}

abbrev braces : Bytes
braces = 123 ∷ 125 ∷ []

abbrev to_json : Payload → Option Bytes
to_json absent = none
to_json (bytes b) = none
to_json (structure v) = some braces

abbrev of_json : Bytes → Option Value
of_json b = some (obj end)

abbrev labels : List (Bytes × Bytes)
labels = (word, 10 ∷ 32 ∷ []) ∷ []

labels-Distinct : Distinct labels
labels-Distinct = (tt, tt)

fetch_message-send_example :
    (send_message to_json (message word word labels (obj end)) >>= λ out.
    fetch_message of_json (out ++ (1 ∷ [])))
    ≡ done (message word word labels (obj end), 1 ∷ [])
fetch_message-send_example =
    fetch_message-send to_json of_json word word labels (obj end) braces (1 ∷ []) refl refl
      (λ e. cc)
      (record {
        channel = word-IsWord;
        subject = word-IsWord;
        labels = (record { name = word-IsWord; fits = omega arith }, tt);
        distinct = labels-Distinct;
        count = omega arith;
        size = omega arith;
      })

-- "hi hi 0 3\nab": the payload is cut off; "hi\n": no envelope; "": the end.
short_header : fetch_raw_message (104 ∷ 105 ∷ 10 ∷ []) ≡ panic invalid_envelope
unfolding program
short_header = refl

nothing_left : fetch_raw_message [] ≡ panic end_of_input
unfolding program
nothing_left = refl

wire_bytes :
    frame (message word word labels (obj end)) braces
    ≡ 104 ∷ 105 ∷ 32 ∷ 104 ∷ 105 ∷ 32 ∷ 49 ∷ 32 ∷ 50 ∷ 10 ∷ 104 ∷ 105 ∷ 32 ∷ 50 ∷ 10 ∷ 10 ∷ 32 ∷ 123
      ∷ 125 ∷ []
unfolding program
wire_bytes = refl
