-- ===== src/Dipper/Interpolate/Defaults.antt =====
-- What a pattern with a dollar stands for: the first of its keys that has a value, then its default.
use Prim.Native.String.{◌++◌ as str_append}
use text.Mathlib.TextLemmas.{nil-append, cons-append}
use honeydipper.Common.{
  ℕ, suc, Bool, true, false, none, some, String, Char, code, ◌==◌, if◌then◌else◌, ◌≡◌, refl, ◌∙◌,
  ap, All, ==_iff,
}
use honeydipper.Outcome.{Outcome, done, panic, interpolation_error}
use honeydipper.Text.{last_code, drop_last, is_empty}
use honeydipper.Text.Split.{split}
use honeydipper.Text.Suffix.{snoc, last_code-snoc, drop_last-snoc}
use honeydipper.Text.Search.{starts_with, cut_quote, cut_quote-append, cut_quote-snoc, is_quote}
use honeydipper.Value.{Value, null, str}
use honeydipper.Dipper.Interpolate.First.{
  IsLiteral, IsUnmarked, IsOutside, first_value, or_else, literal, chosen-first,
}
use honeydipper.Dipper.Interpolate.{
  Rendered, to_text, interpolate_str, keys_before, quoted, with_default, no_value, dollar_keys,
  after_mark, interpolate_dollar_str, interpolate_string, interpolate_value, interpolate,
}

not_empty : (s : String) (c : Char) → is_empty (snoc s c) ≡ false
not_empty String.[] c = rw nil-append refl
not_empty (String.◌∷◌ d s) c = rw cons-append refl

same : (q : Char) → (code q == code q) ≡ true
same q = (==_iff (code q) (code q)).1 refl

IsUnmarked-longer :
    (keys : String) (q : Char) (d : String)
    → IsUnmarked keys
    → IsUnmarked (str_append (snoc keys ",") (String.◌∷◌ q (snoc d q)))
IsUnmarked-longer String.[] q d h = absurd h
IsUnmarked-longer (String.◌∷◌ c keys) q d h = rw (cons-append, cons-append) h

module _ (template : String → Value → Outcome Rendered) (parse_yaml : String → Outcome Value)
    (show : Value → String) (env : Value) (show-str : (s : String) → show (str s) ≡ s) where
  -- The pattern after the dollar is a literal, so it is read as it stands.
  text_read :
      (f : ℕ) (s : String)
      → IsLiteral s
      → interpolate_str template parse_yaml show env
          (interpolate template parse_yaml show env (suc f))
          s
        ≡ done s
  unfolding interpolate_str to_text
  text_read f s ok =
      rw (interpolate_str, literal template parse_yaml show env show-str f s ok)
        (rw (show-str s) refl)

  dollar_read :
      (f : ℕ) (allow : Bool) (s : String)
      → IsLiteral s
      → after_mark template parse_yaml show env
          (interpolate template parse_yaml show env (suc f))
          allow
          s
        ≡ dollar_keys template parse_yaml show env
            (interpolate template parse_yaml show env (suc f))
            allow
            s
            (cut_quote s)
  unfolding after_mark
  dollar_read f allow s ok = rw (after_mark, text_read f s ok) refl

  dollar_plain :
      (f : ℕ) (s : String)
      → IsUnmarked s
      → interpolate template parse_yaml show env (suc (suc f)) (str (String.◌∷◌ "$" s))
        ≡ after_mark template parse_yaml show env
            (interpolate template parse_yaml show env (suc f))
            false
            s
  unfolding interpolate interpolate_value interpolate_string interpolate_dollar_str starts_with
  dollar_plain f String.[] h = absurd h
  dollar_plain f (String.◌∷◌ c s) h = rw h refl

  dollar_nullable :
      (f : ℕ) (s : String)
      → interpolate template parse_yaml show env
          (suc (suc f))
          (str (String.◌∷◌ "$" (String.◌∷◌ "?" s)))
        ≡ after_mark template parse_yaml show env
            (interpolate template parse_yaml show env (suc f))
            true
            s
  unfolding interpolate interpolate_value interpolate_string interpolate_dollar_str starts_with
  dollar_nullable f s = refl

  keys_before-snoc :
      (rec : Value → Outcome Value) (keys : String)
      → keys_before template parse_yaml show env rec (snoc keys ",") ≡ some (split b',' keys)
  unfolding keys_before
  keys_before-snoc rec keys =
      rw (keys_before, not_empty keys ",", last_code-snoc keys ",")
        (rw (drop_last-snoc keys ",") refl)

  quoted-last :
      (rec : Value → Outcome Value) (q c : Char) (s : String)
      → last_code (String.◌∷◌ c s) ≡ some (code q)
      → quoted template parse_yaml show env rec q (String.◌∷◌ c s)
        ≡ done (str (drop_last (String.◌∷◌ c s)))
  unfolding quoted
  quoted-last rec q c s e = rw (quoted, e) (rw (same q) refl)

  quoted-snoc :
      (rec : Value → Outcome Value) (q : Char) (d : String)
      → quoted template parse_yaml show env rec q (snoc d q) ≡ done (str d)
  unfolding quoted
  quoted-snoc rec q String.[] = rw nil-append (rw (same q) refl)
  quoted-snoc rec q (String.◌∷◌ c d) = rw cons-append (
      quoted-last rec q c (snoc d q) (rw cons-append at (last_code-snoc (String.◌∷◌ c d) q))
      ∙ ap (λ t. done (str t)) (rw cons-append at (drop_last-snoc (String.◌∷◌ c d) q)))

  no_quote :
      (allow : Bool) (f : ℕ) (keys : String)
      → cut_quote keys ≡ none
      → All IsOutside (split b',' keys)
      → dollar_keys template parse_yaml show env
          (interpolate template parse_yaml show env (suc f))
          allow
          keys
          (cut_quote keys)
        ≡ or_else
            (first_value env (split b',' keys))
            (if allow then done null else panic interpolation_error)
  unfolding dollar_keys no_value
  no_quote true f keys free outside = rw free (
      chosen-first template parse_yaml show env show-str
        (interpolate template parse_yaml show env (suc f)) (split b',' keys) (done null) outside)
  no_quote false f keys free outside = rw free (
      chosen-first template parse_yaml show env show-str
        (interpolate template parse_yaml show env (suc f)) (split b',' keys)
        (panic interpolation_error) outside)

  with_default-first :
      (rec : Value → Outcome Value) (keys : String) (q : Char) (d : String)
      → All IsOutside (split b',' keys)
      → with_default template parse_yaml show env rec
          (record { before = snoc keys ","; quote = q; rest = snoc d q })
          (keys_before template parse_yaml show env rec (snoc keys ","))
        ≡ or_else (first_value env (split b',' keys)) (done (str d))
  unfolding with_default
  with_default-first rec keys q d h = rw (keys_before-snoc rec keys) (
      chosen-first template parse_yaml show env show-str rec (split b',' keys)
        (quoted template parse_yaml show env rec q (snoc d q)) h
      ∙ ap (or_else (first_value env (split b',' keys))) (quoted-snoc rec q d))

  quoted_default :
      (f : ℕ) (keys : String) (q : Char) (d : String)
      → cut_quote keys ≡ none
      → All IsOutside (split b',' keys)
      → is_quote (code q) ≡ true
      → dollar_keys template parse_yaml show env
          (interpolate template parse_yaml show env (suc f))
          false
          (str_append (snoc keys ",") (String.◌∷◌ q (snoc d q)))
          (cut_quote (str_append (snoc keys ",") (String.◌∷◌ q (snoc d q))))
        ≡ or_else (first_value env (split b',' keys)) (done (str d))
  unfolding dollar_keys
  quoted_default f keys q d free outside quote =
      rw (cut_quote-append (snoc keys ",") q (snoc d q) (cut_quote-snoc keys "," free refl) quote)
        (with_default-first (interpolate template parse_yaml show env (suc f)) keys q d outside)

  -- `$key,key`: the first of the keys that has a value other than nil, be it empty, and no value is an
  -- error; `$?key,key`: then
  -- null; `$key,key,'text'` with any of the three quotes: then the text. The pattern has no template
  -- and no other mark, its keys hold no quote, and none of them leads into sysData.
  pub interpolate-keys :
      (f : ℕ) (keys : String) (q : Char) (d : String)
      → IsUnmarked keys
      → IsLiteral keys
      → cut_quote keys ≡ none
      → All IsOutside (split b',' keys)
      → is_quote (code q) ≡ true
      → IsLiteral (str_append (snoc keys ",") (String.◌∷◌ q (snoc d q)))
      → (interpolate template parse_yaml show env (suc (suc f)) (str (String.◌∷◌ "$" keys))
          ≡ or_else (first_value env (split b',' keys)) (panic interpolation_error))
        × (interpolate template parse_yaml show env
              (suc (suc f))
              (str (String.◌∷◌ "$" (String.◌∷◌ "?" keys)))
            ≡ or_else (first_value env (split b',' keys)) (done null))
        × (interpolate template parse_yaml show env
              (suc (suc f))
              (str (String.◌∷◌ "$" (str_append (snoc keys ",") (String.◌∷◌ q (snoc d q)))))
            ≡ or_else (first_value env (split b',' keys)) (done (str d)))
  interpolate-keys f keys q d unmarked ok free outside quote whole = (
    dollar_plain f keys unmarked ∙ dollar_read f false keys ok ∙ no_quote false f keys free outside,
    dollar_nullable f keys ∙ dollar_read f true keys ok ∙ no_quote true f keys free outside,
    dollar_plain f (str_append (snoc keys ",") (String.◌∷◌ q (snoc d q)))
          (IsUnmarked-longer keys q d unmarked)
        ∙ dollar_read f false (str_append (snoc keys ",") (String.◌∷◌ q (snoc d q))) whole
        ∙ quoted_default f keys q d free outside quote,
  )
