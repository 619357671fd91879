-- ===== src/Text/Suffix.antt =====
-- A text with one ASCII character put at its end.
use Prim.Native.String.{◌++◌ as str_append}
use text.Mathlib.TextLemmas.{nil-append, cons-append}
use honeydipper.Common.{String, Char, code, ◌≡◌, some, ap}
use honeydipper.Text.{last_code, drop_last}

abbrev pub snoc : String → Char → String
snoc s c = str_append s (String.◌∷◌ c String.[])

pub last_code-snoc : (s : String) (c : Char) → last_code (snoc s c) ≡ some (code c)
last_code-snoc String.[] c = rw nil-append
last_code-snoc (String.◌∷◌ d String.[]) c = rw (cons-append, nil-append)
last_code-snoc (String.◌∷◌ d (String.◌∷◌ e s)) c =
    rw (cons-append, cons-append) (rw cons-append at (last_code-snoc (String.◌∷◌ e s) c))

pub drop_last-snoc : (s : String) (c : Char) → drop_last (snoc s c) ≡ s
drop_last-snoc String.[] c = rw nil-append
drop_last-snoc (String.◌∷◌ d String.[]) c = rw (cons-append, nil-append)
drop_last-snoc (String.◌∷◌ d (String.◌∷◌ e s)) c =
    rw (cons-append, cons-append)
      (ap (String.◌∷◌ d) (rw cons-append at (drop_last-snoc (String.◌∷◌ e s) c)))
