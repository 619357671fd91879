-- ===== src/Text/Search.antt =====
-- What the source uses of strings.Contains and strings.IndexAny.
use Prim.Native.String.{◌++◌ as str_append}
use text.Mathlib.TextLemmas.{nil-append, cons-append}
use honeydipper.Common.{
  ℕ, Bool, true, false, ◌||◌, Option, none, some, List, [], ◌∷◌, String, Char, code, ◌==◌,
  if◌then◌else◌, ◌≡◌, ◌≢◌, sym, refl, Option-cases, Bool-cases, inl, inr,
}
use honeydipper.Text.{codes, has_prefix}
use honeydipper.Text.Suffix.{snoc}

-- strings.Contains, on code points.
abbrev pub contains_codes : List ℕ → List ℕ → Bool
contains_codes [] sub = has_prefix [] sub
contains_codes (c ∷ cs) sub = has_prefix (c ∷ cs) sub || contains_codes cs sub

-- strings.Contains and strings.HasPrefix
unfoldable pub contains : String → String → Bool
contains s sub = contains_codes (codes s) (codes sub)

unfoldable pub starts_with : String → String → Bool
starts_with s p = has_prefix (codes s) (codes p)

-- One of "'`
abbrev pub is_quote : ℕ → Bool
is_quote c = c == 34 || c == 39 || c == 96

-- A text before and after its first quote, with the quote between them.
pub record Cut : Type 0 where
  pub before : String
  pub quote : Char
  pub rest : String

abbrev later : Char → Option Cut → Option Cut
later c none = none
later c (some cut) = some (record cut { before = String.◌∷◌ c cut.before })

-- strings.IndexAny(s, "\"'`"), with what it divides the text into.
unfoldable pub cut_quote : String → Option Cut
cut_quote String.[] = none
cut_quote (String.◌∷◌ c s) =
    let found = later c (cut_quote s) in
    if is_quote (code c) then some (record { before = String.[]; quote = c; rest = s }) else found

none≢some {ℓ} : {A : Type ℓ} {a : A} → none ≢ some a
none≢some e = cc

-- The quote that follows a text without quotes is the first.
pub cut_quote-append :
    (p : String) (q : Char) (s : String)
    → cut_quote p ≡ none
    → is_quote (code q) ≡ true
    → cut_quote (str_append p (String.◌∷◌ q s)) ≡ some (record { before = p; quote = q; rest = s })
unfolding cut_quote
cut_quote-append String.[] q s h e = rw nil-append (rw e refl)
cut_quote-append (String.◌∷◌ c p) q s h e = rw cons-append (elim (Bool-cases (is_quote (code c))) [
  | inl quoted ↦ absurd (none≢some (sym (rw (cut_quote, quoted) at h)))
  | inr other ↦ rw other (elim (Option-cases (cut_quote p)) [
    | inl (cut, f) ↦ absurd (none≢some (sym (rw (cut_quote, other, f) at h)))
    | inr f ↦ rw (cut_quote-append p q s f e) refl
  ])
])

-- A text without quotes has none when an ASCII character is put at its end that is no quote.
pub cut_quote-snoc :
    (p : String) (c : Char)
    → cut_quote p ≡ none
    → is_quote (code c) ≡ false
    → cut_quote (snoc p c) ≡ none
unfolding cut_quote
cut_quote-snoc String.[] c h e = rw nil-append (rw (cut_quote, e) refl)
cut_quote-snoc (String.◌∷◌ d p) c h e = rw cons-append (elim (Bool-cases (is_quote (code d))) [
  | inl quoted ↦ absurd (none≢some (sym (rw (cut_quote, quoted) at h)))
  | inr other ↦ rw other (elim (Option-cases (cut_quote p)) [
    | inl (cut, f) ↦ absurd (none≢some (sym (rw (cut_quote, other, f) at h)))
    | inr f ↦ rw (cut_quote-snoc p c f e) refl
  ])
])
