-- ===== src/Text/Number.antt =====
-- strconv.Atoi, strconv.Itoa and strconv.ParseBool.
use honeydipper.Common.{
  ℕ, zero, suc, ◌+◌, ◌-◌, ◌*◌, ◌/◌, ◌%◌, ◌^◌, ◌<◌, Bool, true, false, ◌&&◌, ◌||◌, Option, none,
  some, List, [], ◌∷◌, String, Char, leb, ltb, ◌==◌, if◌then◌else◌, code, str_eq, ◌≡◌, ◌≢◌, refl,
  ap, arith, Bool-cases, inl, inr, sym, ◌∙◌, ltb→lt,
}
use honeydipper.Common.Int.{ℤ, pos, negsuc, neg}
use honeydipper.Text.{codes}

-- The value and the error of strconv.Atoi: on a range error the value is the nearest int.
pub data Atoi : Type 0 where
  number : ℤ → Atoi
  syntax_error : Atoi
  range_error : ℤ → Atoi

abbrev is_digit : ℕ → Bool
is_digit c = leb 48 c && leb c 57

unfoldable pub digits : ℕ → List ℕ → Option ℕ
digits n [] = some n
digits n (c ∷ cs) = if is_digit c then digits (n * 10 + (c - 48)) cs else none

abbrev max_int : ℕ
max_int = 2 ^ 63 - 1

abbrev positive : Option ℕ → Atoi
positive none = syntax_error
positive (some n) = if leb n max_int then number (pos n) else range_error (pos max_int)

abbrev negative : Option ℕ → Atoi
negative none = syntax_error
negative (some n) = if leb n (max_int + 1) then number (neg n) else range_error (negsuc max_int)

-- After the sign there must be a digit.
abbrev unsigned : List ℕ → Option ℕ
unsigned [] = none
unsigned (c ∷ cs) = digits 0 (c ∷ cs)

abbrev signed : List ℕ → Atoi
signed [] = syntax_error
signed (c ∷ cs) =
    if c == b'-'
    then negative (unsigned cs)
    else if c == b'+'
    then positive (unsigned cs)
    else positive (digits 0 (c ∷ cs))

-- strconv.Atoi
unfoldable pub atoi : String → Atoi
unfolding digits
atoi s = signed (codes s)

-- The character of a digit.
abbrev digit_char : ℕ → Char
digit_char zero = "0"
digit_char (suc zero) = "1"
digit_char (suc (suc zero)) = "2"
digit_char (suc (suc (suc zero))) = "3"
digit_char (suc (suc (suc (suc zero)))) = "4"
digit_char (suc (suc (suc (suc (suc zero))))) = "5"
digit_char (suc (suc (suc (suc (suc (suc zero)))))) = "6"
digit_char (suc (suc (suc (suc (suc (suc (suc zero))))))) = "7"
digit_char (suc (suc (suc (suc (suc (suc (suc (suc zero)))))))) = "8"
digit_char _ = "9"

code-digit_char : (d : ℕ) → d < 10 → code (digit_char d) ≡ 48 + d
code-digit_char zero h = refl
code-digit_char (suc zero) h = refl
code-digit_char (suc (suc zero)) h = refl
code-digit_char (suc (suc (suc zero))) h = refl
code-digit_char (suc (suc (suc (suc zero)))) h = refl
code-digit_char (suc (suc (suc (suc (suc zero))))) h = refl
code-digit_char (suc (suc (suc (suc (suc (suc zero)))))) h = refl
code-digit_char (suc (suc (suc (suc (suc (suc (suc zero))))))) h = refl
code-digit_char (suc (suc (suc (suc (suc (suc (suc (suc zero)))))))) h = refl
code-digit_char (suc (suc (suc (suc (suc (suc (suc (suc (suc d))))))))) h = omega arith

-- Writes the digits of `n` in front of `rest`.
unfoldable pub write : ℕ → ℕ → String → String
write zero n rest = rest
write (suc f) n rest =
    let more = write f (n / 10) (String.◌∷◌ (digit_char (n % 10)) rest) in
    if ltb n 10 then String.◌∷◌ (digit_char n) rest else more

-- strconv.Itoa of a number that is not negative.
unfoldable pub itoa : ℕ → String
unfolding write
itoa n = write (suc n) n String.[]

digits-digit :
    (v d : ℕ) (rest : List ℕ) → d < 10 → digits v ((48 + d) ∷ rest) ≡ digits (v * 10 + d) rest
unfolding digits
digits-digit v d rest h =
    let shown : is_digit (48 + d) ≡ true = ground arith in
    let value : 48 + d - 48 ≡ d = omega arith in rw (shown, value)

-- Reading goes on after the written number with its value.
digits-write :
    (f n : ℕ) (rest : String) → n < f → digits 0 (codes (write f n rest)) ≡ digits n (codes rest)
unfolding write
digits-write zero n rest h = absurd (omega arith)
digits-write (suc f) n rest h = elim (Bool-cases (ltb n 10)) [
  | inl last ↦ rw last (
      rw (code-digit_char n (ltb→lt n 10 last)) (
        rw (digits-digit 0 n (codes rest) (ltb→lt n 10 last))
          (ap (λ v. digits v (codes rest)) (omega arith))))
  | inr more ↦
      let small : n % 10 < 10 = omega arith in
      let whole : n / 10 * 10 + n % 10 ≡ n = omega arith in
      rw more (
        digits-write f (n / 10) (String.◌∷◌ (digit_char (n % 10)) rest) (ground arith)
        ∙ (rw (code-digit_char (n % 10) small)
            (rw (digits-digit (n / 10) (n % 10) (codes rest) small) (rw whole))))
]

pub digits-itoa : (n : ℕ) → digits 0 (codes (itoa n)) ≡ some n
unfolding itoa digits
digits-itoa n = digits-write (suc n) n String.[] (omega arith)

none≢some : {n : ℕ} → none ≢ some n
none≢some h = cc

some_inj : {m n : ℕ} → some m ≡ some n → m ≡ n
some_inj h = cc

-- Different numbers are written differently.
pub itoa_injective : (m n : ℕ) → itoa m ≡ itoa n → m ≡ n
itoa_injective m n h =
    some_inj (sym (digits-itoa m) ∙ ap (λ s. digits 0 (codes s)) h ∙ digits-itoa n)

-- A text that is no number is not written for one.
pub itoa-ne : (n : ℕ) (s : String) → digits 0 (codes s) ≡ none → itoa n ≢ s
itoa-ne n s h e = none≢some (sym h ∙ ap (λ t. digits 0 (codes t)) (sym e) ∙ digits-itoa n)

-- strconv.ParseBool: none is its error.
unfoldable pub parse_bool : String → Option Bool
parse_bool s =
    if str_eq s "1"
      || str_eq s "t"
      || str_eq s "T"
      || str_eq s "true"
      || str_eq s "TRUE"
      || str_eq s "True"
    then some true
    else if str_eq s "0"
        || str_eq s "f"
        || str_eq s "F"
        || str_eq s "false"
        || str_eq s "FALSE"
        || str_eq s "False"
    then some false
    else none
