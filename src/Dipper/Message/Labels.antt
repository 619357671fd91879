-- ===== src/Dipper/Message/Labels.antt =====
-- The labels that SendMessage writes, as the loop of FetchRawMessage reads them back.
use honeydipper.Common.{
  ◌^◌, ◌<◌, ◌≡◌, refl, ◌∙◌, false, some, List, [], ◌∷◌, ◌++◌, append-nil, append_assoc, All, length,
}
use honeydipper.Common.Int.{pos}
use honeydipper.Text.{codes_eq}
use honeydipper.Outcome.{done}
use honeydipper.Dipper.Message.{Bytes}
use honeydipper.Dipper.Message.Scan.{got, end_line}
use honeydipper.Dipper.Message.Wire.{
  show, label_bytes, labels_bytes, read_full, set_label, label_value, scan_label, fetch_label,
  fetch_labels,
}
use honeydipper.Dipper.Message.Numbers.{IsWord, scan_int-show, scan_string-word}

pub read_full-append : (b rest : Bytes) → read_full (length b) (b ++ rest) ≡ some (b, rest)
unfolding read_full
read_full-append [] rest = refl
read_full-append (c ∷ b) rest = rw (read_full-append b rest)

-- The name is a word, and the length of the value is an int.
pub record IsLabel (l : Bytes × Bytes) : Type 0 where
  pub name : IsWord l.0
  pub fits : length l.1 < 2 ^ 63

label_bytes-append :
    (name value rest : Bytes)
    → label_bytes (name, value) ++ rest
      ≡ name ++ (32 ∷ (show (length value) ++ (10 ∷ (value ++ rest))))
unfolding label_bytes
label_bytes-append name value rest = rw (append_assoc, append_assoc) refl

scan_label-line :
    (name value rest : Bytes)
    → IsLabel (name, value)
    → scan_label (name ++ (32 ∷ (show (length value) ++ (10 ∷ (value ++ rest)))))
      ≡ got (name, pos (length value)) (value ++ rest)
unfolding scan_label end_line
scan_label-line name value rest ok =
    rw (scan_string-word name 32 (show (length value) ++ (10 ∷ (value ++ rest))) ok.name refl)
      (rw (scan_int-show (length value) 10 (value ++ rest) ok.fits refl) refl)

label_value-append :
    (value rest : Bytes) → label_value (pos (length value)) (value ++ rest) ≡ done (value, rest)
unfolding label_value
label_value-append value rest = rw (label_value, read_full-append value rest) refl

fetch_label-bytes :
    (name value rest : Bytes)
    → IsLabel (name, value)
    → fetch_label (label_bytes (name, value) ++ rest) ≡ done ((name, value), rest)
unfolding fetch_label
fetch_label-bytes name value rest ok =
    rw (label_bytes-append, scan_label-line name value rest ok)
      (rw (label_value-append value rest) refl)

-- No label has the name of another.
abbrev pub NotNamed : Bytes → List (Bytes × Bytes) → Type 0
NotNamed name = All (λ l. codes_eq l.0 name ≡ false)

abbrev pub Distinct : List (Bytes × Bytes) → Type 0
Distinct [] = Unit
Distinct (l ∷ ls) = All (λ m. codes_eq l.0 m.0 ≡ false) ls × Distinct ls

set_label-new :
    (name value : Bytes) (ls : List (Bytes × Bytes))
    → NotNamed name ls
    → set_label name value ls ≡ ls ++ ((name, value) ∷ [])
unfolding set_label
set_label-new name value [] h = refl
set_label-new name value (l ∷ ls) (h, hs) = rw (h, set_label-new name value ls hs)

pub Apart : List (Bytes × Bytes) → List (Bytes × Bytes) → Type 0
Apart seen = All (λ l. NotNamed l.0 seen)

All-snoc :
    (P : Bytes × Bytes → Type 0) (xs : List (Bytes × Bytes)) (x : Bytes × Bytes)
    → All P xs
    → P x
    → All P (xs ++ (x ∷ []))
All-snoc P [] x h p = (p, tt)
All-snoc P (y ∷ xs) x (h, hs) p = (h, All-snoc P xs x hs p)

pub Apart-nil : (ls : List (Bytes × Bytes)) → Apart [] ls
unfolding Apart
Apart-nil [] = tt
Apart-nil (l ∷ ls) = (tt, Apart-nil ls)

Apart-snoc :
    (seen ls : List (Bytes × Bytes)) (l : Bytes × Bytes)
    → Apart seen ls
    → All (λ m. codes_eq l.0 m.0 ≡ false) ls
    → Apart (seen ++ (l ∷ [])) ls
unfolding Apart
Apart-snoc seen [] l h g = tt
Apart-snoc seen (m ∷ ls) l (h, hs) (g, gs) = (All-snoc _ seen l h g, Apart-snoc seen ls l hs gs)

-- The loop puts the labels that are on the wire after those it has.
pub fetch_labels-bytes :
    (seen ls : List (Bytes × Bytes)) (rest : Bytes)
    → All IsLabel ls
    → Apart seen ls
    → Distinct ls
    → fetch_labels (length ls) seen (labels_bytes ls ++ rest) ≡ done (seen ++ ls, rest)
unfolding fetch_labels labels_bytes Apart
fetch_labels-bytes seen [] rest ok apart d = rw append-nil
fetch_labels-bytes seen ((name, value) ∷ ls) rest (ok, oks) (apart, aparts) (d, ds) =
    rw append_assoc (
      rw (fetch_label-bytes name value (labels_bytes ls ++ rest) ok) (
        rw (set_label-new name value seen apart) (
          fetch_labels-bytes (seen ++ ((name, value) ∷ [])) ls rest oks
            (Apart-snoc seen ls (name, value) aparts d) ds
          ∙ rw append_assoc refl)))
