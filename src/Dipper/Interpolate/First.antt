-- ===== src/Dipper/Interpolate/First.antt =====
-- The keys of a pattern with a dollar are looked up in their order, and a literal text stands for
-- itself.
use honeydipper.Common.{
  ℕ, suc, false, Option, none, some, List, [], ◌∷◌, String, code, ◌==◌, ◌≡◌, refl, sym, ◌∙◌, ap,
  All, Option-cases, inl, inr,
}
use honeydipper.Outcome.{Outcome, done}
use honeydipper.Text.Search.{contains, starts_with}
use honeydipper.Value.{Value, str}
use honeydipper.Dipper.MapData.{get_map_data}
use honeydipper.Dipper.Interpolate.{
  Rendered, go_template, plain_text, from_rendered, first_key, chosen, found, interpolate_string,
  interpolate_value, interpolate,
}

-- A text that is no pattern.
pub record IsLiteral (s : String) : Type 0 where
  pub no_dollar : starts_with s "$" ≡ false
  pub no_template : contains s "{{" ≡ false
  pub no_yaml : starts_with s ":yaml:" ≡ false
  pub no_escape : starts_with s "\\" ≡ false

-- A text that does not begin with a question mark, and is not empty.
abbrev pub IsUnmarked : String → Type 0
IsUnmarked String.[] = ⊥
IsUnmarked (String.◌∷◌ c s) = (code c == b'?') ≡ false

-- The value of the first key that has one.
unfoldable pub first_value : Value → List String → Option Value
first_value env [] = none
first_value env (k ∷ ks) = elim (get_map_data env k) [ some v ↦ some v | none ↦ first_value env ks ]

abbrev pub or_else : Option Value → Outcome Value → Outcome Value
or_else (some v) otherwise = done v
or_else none otherwise = otherwise

abbrev pub IsOutside : String → Type 0
IsOutside k = starts_with k "sysData." ≡ false

module _ (template : String → Value → Outcome Rendered) (parse_yaml : String → Outcome Value)
    (show : Value → String) (env : Value) (show-str : (s : String) → show (str s) ≡ s) where
  pub literal :
      (f : ℕ) (s : String)
      → IsLiteral s
      → interpolate template parse_yaml show env (suc f) (str s) ≡ done (str s)
  unfolding interpolate interpolate_value interpolate_string go_template from_rendered plain_text
  literal f s ok = rw (ok.no_dollar) (rw (ok.no_template) (rw (ok.no_yaml, ok.no_escape) refl))

  first_key-some :
      (rec : Value → Outcome Value) (k : String) (ks : List String) (v : Value)
      → get_map_data env k ≡ some v
      → first_key template parse_yaml show env rec (k ∷ ks) ≡ some (k, v)
  unfolding first_key
  first_key-some rec k ks v e = rw (first_key, e) refl

  first_key-none :
      (rec : Value → Outcome Value) (k : String) (ks : List String)
      → get_map_data env k ≡ none
      → first_key template parse_yaml show env rec (k ∷ ks)
        ≡ first_key template parse_yaml show env rec ks
  unfolding first_key
  first_key-none rec k ks e = rw (first_key, e) refl

  first_value-some :
      (k : String) (ks : List String) (v : Value)
      → get_map_data env k ≡ some v
      → first_value env (k ∷ ks) ≡ some v
  unfolding first_value
  first_value-some k ks v e = rw (first_value, e) refl

  first_value-none :
      (k : String) (ks : List String)
      → get_map_data env k ≡ none
      → first_value env (k ∷ ks) ≡ first_value env ks
  unfolding first_value
  first_value-none k ks e = rw (first_value, e) refl

  pub chosen-first :
      (rec : Value → Outcome Value) (ks : List String) (otherwise : Outcome Value)
      → All IsOutside ks
      → chosen template parse_yaml show env rec
          (first_key template parse_yaml show env rec ks)
          otherwise
        ≡ or_else (first_value env ks) otherwise
  unfolding chosen first_key first_value found
  chosen-first rec [] otherwise h = refl
  chosen-first rec (k ∷ ks) otherwise (h, hs) = elim (Option-cases (get_map_data env k)) [
    | inl (v, e) ↦
        ap (λ o. chosen template parse_yaml show env rec o otherwise) (first_key-some rec k ks v e)
        ∙ (rw (found, h) (sym (ap (λ o. or_else o otherwise) (first_value-some k ks v e))))
    | inr e ↦
        ap (λ o. chosen template parse_yaml show env rec o otherwise) (first_key-none rec k ks e)
        ∙ chosen-first rec ks otherwise hs
        ∙ sym (ap (λ o. or_else o otherwise) (first_value-none k ks e))
  ]
