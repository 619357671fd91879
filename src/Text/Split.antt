-- ===== src/Text/Split.antt =====
-- strings.Split by one ASCII character, and strings.Join.
use Prim.Native.String.{◌++◌ as str_append}
use text.Mathlib.TextLemmas.{nil-append, cons-append}
use honeydipper.Common.{
  ℕ, List, [], ◌∷◌, ◌++◌, String, Char, code, ◌==◌, if◌then◌else◌, ◌≡◌, refl, Bool-cases, inl, inr,
  ◌≢◌, ==_iff,
}

abbrev pub prepend : Char → List String → List String
prepend c [] = (String.◌∷◌ c String.[]) ∷ []
prepend c (w ∷ ws) = (String.◌∷◌ c w) ∷ ws

-- strings.Split(s, sep): never empty, and "" gives one empty word.
unfoldable pub split : ℕ → String → List String
split sep String.[] = String.[] ∷ []
split sep (String.◌∷◌ c s) =
    let rest = split sep s in if code c == sep then String.[] ∷ rest else prepend c rest

prepend-ne-nil : (c : Char) (ws : List String) → prepend c ws ≢ []
prepend-ne-nil c [] = λ e. cc
prepend-ne-nil c (w ∷ ws) = λ e. cc

pub split-ne-nil : (sep : ℕ) (s : String) → split sep s ≢ []
unfolding split
split-ne-nil sep String.[] = λ e. cc
split-ne-nil sep (String.◌∷◌ c s) = elim (Bool-cases (code c == sep)) [
  | inl e ↦ rw e (λ e. cc)
  | inr e ↦ rw e (prepend-ne-nil c (split sep s))
]

prepend-append :
    (c : Char) (ws vs : List String) → ws ≢ [] → prepend c (ws ++ vs) ≡ prepend c ws ++ vs
prepend-append c [] vs h = absurd (h refl)
prepend-append c (w ∷ ws) vs h = refl

split-cons_sep :
    (sep : Char) (t : String) → split (code sep) (String.◌∷◌ sep t) ≡ String.[] ∷ split (code sep) t
unfolding split
split-cons_sep sep t = rw ((==_iff (code sep) (code sep)).1 refl)

-- The words of a text that is put together by the separator are those of its two parts.
pub split-append :
    (sep : Char) (s t : String)
    → split (code sep) (str_append s (String.◌∷◌ sep t)) ≡ split (code sep) s ++ split (code sep) t
unfolding split
split-append sep String.[] t = rw nil-append (split-cons_sep sep t)
split-append sep (String.◌∷◌ c s) t = rw cons-append (elim (Bool-cases (code c == code sep)) [
  | inl e ↦ rw (e, split-append sep s t)
  | inr e ↦
      rw (e, split-append sep s t)
        (prepend-append c (split (code sep) s) (split (code sep) t) (split-ne-nil (code sep) s))
])
