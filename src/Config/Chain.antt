-- ===== src/Config/Chain.antt =====
-- Which trigger a chain of sources leads to, and the order in which its layers are put together.
use mathlib.Core.List.{append-nil, append_assoc}
use honeydipper.Common.{
  ℕ, zero, suc, ◌<◌, true, false, Option, List, [], ◌∷◌, ◌++◌, String, ◌≡◌, refl, sym, ◌∙◌, ap,
  arith,
}
use honeydipper.Text.{is_empty}
use honeydipper.Outcome.{
  Outcome, done, panic, ◌>>=◌, out_of_fuel, >>=-eq-done, mapped-eq-done, done_injective,
}
use honeydipper.Value.{Value, Fields}
use honeydipper.Config.{Trigger, DataSet, or_end}
use honeydipper.Config.Collapse.{
  CollapsedTrigger, Layers, source_trigger, climb, add_layer, add_layers, merged_layer, next_layers,
  interpolated, collapsed, copied, first_layers, collapse_onto, collapse_trigger,
}

-- `path` goes by its sources from the trigger `t` to the raw trigger `root`, which is not on it.
pub data Chain (c : DataSet) : Trigger → Trigger → List Trigger → Type 0 where
  raw : {t : Trigger} → is_empty (t.source).system ≡ true → Chain c t t []
  based :
      {t root : Trigger} {path : List Trigger}
      → is_empty (t.source).system ≡ false
      → Chain c (source_trigger c t) root path
      → Chain c t root (t ∷ path)

abbrev pub turned : List Trigger → List Trigger → List Trigger
turned [] stack = stack
turned (t ∷ path) stack = turned path (t ∷ stack)

abbrev pub steps : List Trigger → ℕ
steps [] = 0
steps (t ∷ path) = suc (steps path)

-- The loop reaches the raw trigger when its fuel is more than the length of the chain.
pub climb-Chain :
    (f : ℕ) (c : DataSet) (stack : List Trigger) {t root : Trigger} {path : List Trigger}
    → Chain c t root path
    → steps path < f
    → climb f c stack t ≡ done (root, turned path stack)
unfolding climb
climb-Chain zero c stack h l = absurd (omega arith)
climb-Chain (suc f) c stack (raw e) l = rw (climb, e) refl
climb-Chain (suc f) c stack (based {t = t} e h) l =
    rw (climb, e) (climb-Chain f c (t ∷ stack) h (omega arith))

-- A trigger that is its own source is climbed for ever.
pub climb-circle :
    (f : ℕ) (c : DataSet) (stack : List Trigger) (t : Trigger)
    → is_empty (t.source).system ≡ false
    → source_trigger c t ≡ t
    → climb f c stack t ≡ panic out_of_fuel
unfolding climb
climb-circle zero c stack t e s = refl
climb-circle (suc f) c stack t e s =
    rw (climb, e) (ap (climb f c (t ∷ stack)) s ∙ climb-circle f c (t ∷ stack) t e s)

abbrev pub exports_of : List Trigger → List (Option Fields)
exports_of [] = []
exports_of (t ∷ ts) = t.exports ∷ exports_of ts

module _ (merge : Fields → Value → Outcome Fields)
    (interpolate : Value → Fields → Outcome Value) where
  exports-add_layer :
      (c : DataSet) (root t : Trigger) (l r : Layers)
      → add_layer merge interpolate c root t l ≡ done r
      → r.exports ≡ l.exports ++ (t.exports ∷ [])
  unfolding add_layer
  exports-add_layer c root t l r h =
      let (m, _, e) =
        mapped-eq-done (merged_layer merge interpolate c root t l)
          (next_layers merge interpolate t l) h in
      ap (λ (x : Layers). x.exports) e

  exports-add_layers :
      (c : DataSet) (root : Trigger) (stack : List Trigger) (l r : Layers)
      → add_layers merge interpolate c root stack l ≡ done r
      → r.exports ≡ l.exports ++ exports_of stack
  unfolding add_layers
  exports-add_layers c root [] l r h =
      ap (λ (x : Layers). x.exports) (sym (done_injective h)) ∙ sym (append-nil l.exports)
  exports-add_layers c root (t ∷ stack) l r h =
      let (next, e, h1) =
        >>=-eq-done (add_layer merge interpolate c root t l)
          (add_layers merge interpolate c root stack) h in
      exports-add_layers c root stack next r h1
      ∙ ap (λ xs. xs ++ exports_of stack) (exports-add_layer c root t l next e)
      ∙ append_assoc l.exports (t.exports ∷ []) (exports_of stack)

  -- What collapse_onto does with its layers.
  closing : String → Trigger → Layers → Outcome (Trigger × CollapsedTrigger)
  closing name root layers = do
    maps ← interpolated merge interpolate layers (or_end layers.sys_data)
    done (root, collapsed merge interpolate name layers maps)

  exports-collapse_onto :
      (c : DataSet) (name : String) (root : Trigger) (stack : List Trigger)
      (r : Trigger × CollapsedTrigger)
      → collapse_onto merge interpolate c name (root, stack) ≡ done r
      → (r.0 ≡ root) × (r.1.exports ≡ root.exports ∷ exports_of stack) × (r.1.sys_name ≡ name)
  unfolding collapse_onto closing
  exports-collapse_onto c name root stack r h =
      let (copies, _, h1) = >>=-eq-done (copied merge interpolate root) _ h in
      let (layers, e, h2) =
        >>=-eq-done
          (add_layers merge interpolate c root stack (first_layers merge interpolate root copies))
          (closing name root) h1 in
      let (maps, _, made) =
        mapped-eq-done (interpolated merge interpolate layers (or_end layers.sys_data))
          (λ m. (root, collapsed merge interpolate name layers m)) h2 in
      (
        ap (λ (x : Trigger × CollapsedTrigger). x.0) made,
        ap (λ (x : Trigger × CollapsedTrigger). x.1.exports) made
            ∙ exports-add_layers c root stack (first_layers merge interpolate root copies) layers e,
        ap (λ (x : Trigger × CollapsedTrigger). x.1.sys_name) made,
      )

  -- A trigger whose sources lead along `path` to the raw trigger `root` collapses, unless a map can
  -- not be merged or interpolated, into that raw trigger, with the exports of the raw trigger first
  -- and those of `t` last, and the system that `t` names.
  pub collapse_trigger-Chain :
      (f : ℕ) (c : DataSet) {t root : Trigger} {path : List Trigger}
      (r : Trigger × CollapsedTrigger)
      → Chain c t root path
      → steps path < f
      → collapse_trigger merge interpolate f c t ≡ done r
      → (r.0 ≡ root)
        × (r.1.exports ≡ root.exports ∷ exports_of (turned path []))
        × (r.1.sys_name ≡ (t.source).system)
  unfolding collapse_trigger
  collapse_trigger-Chain f c r chain l h =
      exports-collapse_onto c _ _ _ r (rw (climb-Chain f c [] chain l) at h)
