-- ===== src/Dipper/Message/Numbers.antt =====
-- What Fscanln reads of the numbers and words that SendMessage writes.
use mathlib.Core.Option.{some-injective}
use honeydipper.Common.{
  ℕ, zero, suc, ◌+◌, ◌*◌, ◌^◌, ◌≤◌, ◌<◌, ◌≡◌, ◌≢◌, refl, sym, ◌∙◌, ap, true, false, ◌||◌, some,
  none, [], ◌∷◌, ◌++◌, arith, All, Bool-cases, inl, inr, ltb, ◌==◌, ◌-◌,
}
use honeydipper.Common.Int.{pos}
use honeydipper.Text.Number.{digits, digits-itoa, itoa, write}
use honeydipper.Dipper.Message.{Bytes}
use honeydipper.Dipper.Message.Scan.{
  got, is_digit, is_blank, is_newline, number, signed, scan_int, scan_string, skip_space, token,
}
use honeydipper.Dipper.Message.Wire.{show}

none≢some : {n : ℕ} → none ≢ some n
none≢some h = cc

zero≢suc : {n : ℕ} → some 0 ≢ some (suc n)
zero≢suc h = absurd (omega (arith, some-injective _ _ h))

number-digits :
    (v n : ℕ) (cs : Bytes) (c : ℕ) (r : Bytes)
    → digits v cs ≡ some n
    → is_digit c ≡ false
    → number v (cs ++ (c ∷ r)) ≡ (n, c ∷ r)
unfolding digits number
number-digits v n [] c r e s = rw s cc
number-digits v n (d ∷ cs) c r e s = elim (Bool-cases (is_digit d)) [
  | inl shown ↦ rw shown (number-digits (v * 10 + (d - 48)) n cs c r (rw shown at e) s)
  | inr other ↦ absurd (none≢some (rw other at e))
]

first_digit :
    (n : ℕ) (cs : Bytes)
    → digits 0 cs ≡ some n
    → cs ≢ []
    → (d : ℕ) × (ds : Bytes) × (cs ≡ d ∷ ds) × (is_digit d ≡ true)
unfolding digits
first_digit n [] e h = absurd (h refl)
first_digit n (d ∷ ds) e h = elim (Bool-cases (is_digit d)) [
  | inl shown ↦ (d, ds, refl, shown)
  | inr other ↦ absurd (none≢some (rw other at e))
]

show-ne-nil : (n : ℕ) → show n ≢ []
unfolding digits itoa write
show-ne-nil zero h = cc
show-ne-nil (suc n) h = absurd (zero≢suc (sym (ap (digits 0) h) ∙ digits-itoa (suc n)))

-- A written number begins with a digit.
show-cons : (n : ℕ) → (d : ℕ) × (ds : Bytes) × (show n ≡ d ∷ ds) × (is_digit d ≡ true)
show-cons n = first_digit n (show n) (digits-itoa n) (show-ne-nil n)

skip-digit : (d : ℕ) (cs : Bytes) → is_digit d ≡ true → skip_space (32 ∷ d ∷ cs) ≡ got tt (d ∷ cs)
unfolding skip_space
skip-digit d cs e = ground arith

signed-digit :
    (d n : ℕ) (cs rest : Bytes)
    → is_digit d ≡ true
    → number 0 (d ∷ cs) ≡ (n, rest)
    → n < 2 ^ 63
    → signed (d ∷ cs) ≡ got (pos n) rest
signed-digit d n cs rest e v h =
    let minus : (d == 45) ≡ false = ground arith in
    let plus : (d == 43) ≡ false = ground arith in
    let fits : ltb n (2 ^ 63) ≡ true = ground arith in rw (minus, plus, e, v, fits)

-- The number that follows a blank is read back, up to a byte that is no digit.
pub scan_int-show :
    (n c : ℕ) (r : Bytes)
    → n < 2 ^ 63
    → is_digit c ≡ false
    → scan_int (32 ∷ (show n ++ (c ∷ r))) ≡ got (pos n) (c ∷ r)
unfolding scan_int
scan_int-show n c r fits stops =
    let (d, ds, shown, digit) = show-cons n in
    let value : number 0 (show n ++ (c ∷ r)) ≡ (n, c ∷ r) =
      number-digits 0 n (show n) c r (digits-itoa n) stops in
    rw shown (
      rw (skip-digit d (ds ++ (c ∷ r)) digit)
        (signed-digit d n (ds ++ (c ∷ r)) (c ∷ r) digit (rw shown at value) fits))

-- A name that can stand on a line: printing ASCII characters, one at least.
abbrev pub IsPlain : ℕ → Type 0
IsPlain c = (33 ≤ c) × (c ≤ 126)

pub record IsWord (w : Bytes) : Type 0 where
  pub plain : All IsPlain w
  pub nonempty : w ≢ []

abbrev pub IsSeparator : ℕ → Type 0
IsSeparator c = (is_newline c || is_blank c) ≡ true

skip-plain : (d : ℕ) (cs : Bytes) → IsPlain d → skip_space (d ∷ cs) ≡ got tt (d ∷ cs)
unfolding skip_space
skip-plain d cs h = ground arith

skip-blank : (cs : Bytes) → skip_space (32 ∷ cs) ≡ skip_space cs
unfolding skip_space
skip-blank cs = refl

token-word :
    (w : Bytes) (c : ℕ) (r : Bytes)
    → All IsPlain w
    → IsSeparator c
    → token (w ++ (c ∷ r)) ≡ got w (c ∷ r)
unfolding token
token-word [] c r h s = rw s
token-word (d ∷ w) c r (h, hs) s =
    let inside : (is_newline d || is_blank d) ≡ false = ground arith in
    rw (inside, token-word w c r hs s)

-- A word is read back, up to a blank or newline, with or without a blank in front of it.
pub scan_string-word :
    (w : Bytes) (c : ℕ) (r : Bytes)
    → IsWord w
    → IsSeparator c
    → scan_string (w ++ (c ∷ r)) ≡ got w (c ∷ r)
unfolding scan_string
scan_string-word [] c r h s = absurd (h.nonempty refl)
scan_string-word (d ∷ w) c r h s =
    rw (skip-plain d (w ++ (c ∷ r)) h.plain.0) (token-word (d ∷ w) c r h.plain s)

pub scan_string-blank :
    (w : Bytes) (c : ℕ) (r : Bytes)
    → IsWord w
    → IsSeparator c
    → scan_string (32 ∷ (w ++ (c ∷ r))) ≡ got w (c ∷ r)
unfolding scan_string
scan_string-blank [] c r h s = absurd (h.nonempty refl)
scan_string-blank (d ∷ w) c r h s =
    rw (skip-blank (d ∷ (w ++ (c ∷ r))), skip-plain d (w ++ (c ∷ r)) h.plain.0)
      (token-word (d ∷ w) c r h.plain s)
