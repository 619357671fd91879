-- ===== src/Dipper/MapData/Paths.antt =====
-- How GetMapData treats paths that are put together, and what it never returns.
use Prim.Native.String.{◌++◌ as str_append}
use honeydipper.Common.{
  ◌≡◌, ◌≢◌, refl, Option, none, some, List, [], ◌∷◌, ◌++◌, String, Option-cases, inl, inr, ◌∙◌,
}
use honeydipper.Text.Split.{split, split-append, split-ne-nil}
use honeydipper.Value.{Value, null}
use honeydipper.Dipper.MapData.{not_null, step, walk, get_map_data}

-- Goes on from a found value.
abbrev pub then_walk : Option Value → List String → Option Value
then_walk none qs = none
then_walk (some w) qs = walk w qs

-- Nothing is found behind a nil.
not_null-walk : (v : Value) (qs : List String) → qs ≢ [] → walk v qs ≡ then_walk (not_null v) qs
unfolding walk step
not_null-walk null [] h = absurd (h refl)
not_null-walk null (q ∷ qs) h = refl
not_null-walk _ qs h = refl

walk-append :
    (v : Value) (ps qs : List String) → qs ≢ [] → walk v (ps ++ qs) ≡ then_walk (walk v ps) qs
unfolding walk
walk-append v [] qs h = not_null-walk v qs h
walk-append v (p ∷ ps) qs h = elim (Option-cases (step v p)) [
  | inl (w, e) ↦ rw (e, walk) (walk-append w ps qs h)
  | inr e ↦ rw (e, walk)
]

abbrev pub then_get : Option Value → String → Option Value
then_get none q = none
then_get (some w) q = get_map_data w q

then_walk-eq : (o : Option Value) (q : String) → then_walk o (split b'.' q) ≡ then_get o q
unfolding get_map_data
then_walk-eq none q = refl
then_walk-eq (some w) q = refl

-- Looking up the path `p.q` is looking up `p`, and then `q` in the value that was found; nothing is
-- found if either fails. The parts may hold dots themselves, and any value may be the root.
pub get_map_data-append :
    (v : Value) (p q : String)
    → get_map_data v (str_append p (String.◌∷◌ "." q)) ≡ then_get (get_map_data v p) q
unfolding get_map_data
get_map_data-append v p q = rw (split-append "." p q) (
    walk-append v (split b'.' p) (split b'.' q) (split-ne-nil b'.' q)
    ∙ then_walk-eq (walk v (split b'.' p)) q)

walk-ne-null : (v : Value) (ps : List String) → walk v ps ≢ some null
unfolding walk
walk-ne-null null [] = λ e. cc
walk-ne-null _ [] = λ e. cc
walk-ne-null v (p ∷ ps) = elim (Option-cases (step v p)) [
  | inl (w, e) ↦ rw (e, walk) (walk-ne-null w ps)
  | inr e ↦ rw (e, walk) (λ h. cc)
]

-- A nil inside the data is reported as missing: a value that is found is never nil.
pub get_map_data-ne-null : (v : Value) (path : String) → get_map_data v path ≢ some null
unfolding get_map_data
get_map_data-ne-null v path = walk-ne-null v (split b'.' path)
