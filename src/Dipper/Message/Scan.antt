-- ===== src/Dipper/Message/Scan.antt =====
-- fmt.Fscanln, as comm.go uses it: words and numbers parted by blanks, up to the end of the line.
-- It is modelled on ASCII text and on decimal numbers; what it reads from beyond these (other
-- Unicode blanks, the prefixes 0x, 0o and 0b, octal, `_` in numbers) is not.
use honeydipper.Common.{
  ℕ, ◌+◌, ◌-◌, ◌*◌, ◌^◌, Bool, true, false, ◌&&◌, ◌||◌, not, [], ◌∷◌, leb, ltb, ◌==◌, if◌then◌else◌,
}
use honeydipper.Common.Int.{ℤ, pos, neg}
use honeydipper.Dipper.Message.{Bytes}

-- The value and what is left of the input; or io.EOF; or another error.
pub data Scan (A : Type 0) : Type 0 where
  got : A → Bytes → Scan A
  ended : Scan A
  malformed : Scan A

abbrev pub after : {A B : Type 0} → Scan A → (A → Bytes → Scan B) → Scan B
after (got a rest) f = f a rest
after ended f = ended
after malformed f = malformed

abbrev pub is_newline : ℕ → Bool
is_newline c = c == 10

-- A blank other than the newline.
abbrev pub is_blank : ℕ → Bool
is_blank c = c == 32 || (leb 9 c && leb c 13 && not (c == 10))

abbrev pub is_digit : ℕ → Bool
is_digit c = leb 48 c && leb c 57

-- SkipSpace: a newline is an error.
unfoldable pub skip_space : Bytes → Scan (Unit {0})
skip_space [] = got tt []
skip_space (c ∷ cs) =
    let rest = skip_space cs in
    if is_newline c then malformed else if is_blank c then rest else got tt (c ∷ cs)

-- The bytes up to the next blank or newline, put after those of `seen`.
unfoldable pub token : Bytes → Scan Bytes
token [] = got [] []
token (c ∷ cs) =
    let rest = token cs in
    if is_newline c || is_blank c then got [] (c ∷ cs) else after rest (λ w left. got (c ∷ w) left)

-- What a scan does first: it passes over the blanks, and the end of the input is io.EOF.
abbrev present : {A : Type 0} → (Bytes → Scan A) → Scan (Unit {0}) → Scan A
present f (got u []) = ended
present f (got u (c ∷ cs)) = f (c ∷ cs)
present f ended = ended
present f malformed = malformed

-- A *string.
unfoldable pub scan_string : Bytes → Scan Bytes
unfolding skip_space token
scan_string cs = present token (skip_space cs)

-- The value of the digits in front of the input, put after `v`.
unfoldable pub number : ℕ → Bytes → ℕ × Bytes
number v [] = (v, [])
number v (c ∷ cs) =
    let rest = number (v * 10 + (c - 48)) cs in if is_digit c then rest else (v, c ∷ cs)

-- strconv.ParseInt to 64 bits: out of range is an error.
abbrev pub in_range : Bool → ℕ × Bytes → Scan ℤ
in_range true (n, rest) = if leb n (2 ^ 63) then got (neg n) rest else malformed
in_range false (n, rest) = if ltb n (2 ^ 63) then got (pos n) rest else malformed

-- After the sign there must be a digit; the end of the input there is io.EOF.
abbrev pub unsigned : Bool → Bytes → Scan ℤ
unsigned negative [] = ended
unsigned negative (c ∷ cs) = if is_digit c then in_range negative (number 0 (c ∷ cs)) else malformed

abbrev pub signed : Bytes → Scan ℤ
signed [] = ended
signed (c ∷ cs) =
    if c == 45
    then unsigned true cs
    else if c == 43
    then unsigned false cs
    else unsigned false (c ∷ cs)

-- An *int.
unfoldable pub scan_int : Bytes → Scan ℤ
unfolding skip_space number
scan_int cs = present signed (skip_space cs)

-- The rest of the line must be blank; the newline or the end of the input closes it.
unfoldable pub end_line : Bytes → Scan (Unit {0})
end_line [] = got tt []
end_line (c ∷ cs) =
    let rest = end_line cs in
    if is_newline c then got tt cs else if is_blank c then rest else malformed
