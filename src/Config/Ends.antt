-- ===== src/Config/Ends.antt =====
-- Copying, merging, visiting and collapsing come to an end: they use up no fuel, where interpolation
-- and mergo.Merge do not.
use honeydipper.Common.{
  Bool-cases, ℕ, subst, inr, inl, suc, Bool, true, false, Option, none, some, List, [], ◌∷◌, String,
  str_eq, ◌<◌, arith,
}
use honeydipper.Outcome.{Outcome, done, ◌>>=◌, Sound, Sound-bind, Outcome-cases}
use honeydipper.Text.Number.{itoa}
use honeydipper.Value.{
  Value, null, bool, int, int64, float, str, regex, list, obj, Items, nil, cons, Fields, end, field,
  put, get, depth_fields,
}
use honeydipper.Dipper.Copy.{deep_copy, copy_fields, copy_items, deep_copy_map}
use honeydipper.Dipper.Merge.{modify_map, merge_map, combine_map, merge_modifier}
use honeydipper.Dipper.Merge.Fuel.{merge_modifier-Within}
use honeydipper.Dipper.Recursive.{
  decided, set, leaf, place_item, join, Visited, same, visit, visit_fields, visit_items, recursive,
}
use honeydipper.Config.{System, as_value, Trigger, DataSet, or_end}
use honeydipper.Config.Extended.{Safe-map}
use honeydipper.Config.Collapse.{
  first_layers, Layers, merge_copy, merged_layer, add_layer, add_layers, as_map, filled,
  interpolated, copied, verified, source_system, collapse_onto, collapse_trigger, has_secret,
  mark_verified,
}
use honeydipper.Config.Chain.{Chain, steps, turned, climb-Chain}

mutual
  unfolding deep_copy

  deep_copy-Sound : (v : Value) → Sound (deep_copy v)
  deep_copy-Sound (obj fs) =
      Sound-bind (copy_fields end fs) (λ ret. done (obj ret)) (copy_fields-Sound end fs) (λ _. tt)
  deep_copy-Sound (list xs) =
      Sound-bind (copy_items xs) (λ ret. done (list ret)) (copy_items-Sound xs) (λ _. tt)
  deep_copy-Sound null = tt
  deep_copy-Sound (bool b) = tt
  deep_copy-Sound (int n) = tt
  deep_copy-Sound (int64 n) = tt
  deep_copy-Sound (float b) = tt
  deep_copy-Sound (str s) = tt
  deep_copy-Sound (regex s) = tt

  copy_fields-Sound : (ret fs : Fields) → Sound (copy_fields ret fs)
  copy_fields-Sound ret end = tt
  copy_fields-Sound ret (field k val fs) =
      Sound-bind (deep_copy val) (λ vcopy. copy_fields (put k vcopy ret) fs) (deep_copy-Sound val)
        (λ vcopy. copy_fields-Sound (put k vcopy ret) fs)

  copy_items-Sound : (xs : Items) → Sound (copy_items xs)
  copy_items-Sound nil = tt
  copy_items-Sound (cons val xs) =
      Sound-bind (deep_copy val) (λ vcopy. copy_items xs >>= λ rest. done (cons vcopy rest))
        (deep_copy-Sound val)
        (λ vcopy.
          Sound-bind (copy_items xs) (λ rest. done (cons vcopy rest)) (copy_items-Sound xs)
            (λ _. tt))

deep_copy_map-Sound : (m : Option Fields) → Sound (deep_copy_map m)
unfolding deep_copy_map deep_copy
deep_copy_map-Sound none = tt
deep_copy_map-Sound (some m) = elim (Outcome-cases (copy_fields end m)) [
  | inl (ret, e) ↦ rw e tt
  | inr (f, e) ↦ rw e (subst Sound e (copy_fields-Sound end m))
]

-- RegexParser and its like never run for ever.
module _ (process : String → Value → Outcome (Value × Bool))
    (h : (path : String) (v : Value) → Sound (process path v)) where
  leaf-Sound : (path : String) (v : Value) → Sound (leaf process path v)
  unfolding leaf
  leaf-Sound path v = Sound-bind (process path v) (λ r. done (decided v r)) (h path v) (λ _. tt)

  place_item-Sound : (r : Visited) (xs : Items) → Sound (place_item r xs)
  place_item-Sound (same v) xs = tt
  place_item-Sound (set null) xs = λ e. cc
  place_item-Sound (set _) xs = tt

  mutual
    unfolding visit

    visit-Sound : (path : String) (v : Value) → Sound (visit process path v)
    visit-Sound path (obj fs) =
        Sound-bind (visit_fields process path fs) (λ gs. done (same (obj gs)))
          (visit_fields-Sound path fs) (λ _. tt)
    visit-Sound path (list xs) =
        Sound-bind (visit_items process path 0 xs) (λ ys. done (same (list ys)))
          (visit_items-Sound path 0 xs) (λ _. tt)
    visit-Sound path (regex p) = tt
    visit-Sound path null = leaf-Sound path null
    visit-Sound path (bool b) = leaf-Sound path (bool b)
    visit-Sound path (int n) = leaf-Sound path (int n)
    visit-Sound path (int64 n) = leaf-Sound path (int64 n)
    visit-Sound path (float b) = leaf-Sound path (float b)
    visit-Sound path (str s) = leaf-Sound path (str s)

    visit_fields-Sound : (path : String) (fs : Fields) → Sound (visit_fields process path fs)
    visit_fields-Sound path end = tt
    visit_fields-Sound path (field k v fs) =
        Sound-bind (visit process (join path k) v) _ (visit-Sound (join path k) v)
          (λ r. Sound-bind (visit_fields process path fs) _ (visit_fields-Sound path fs) (λ _. tt))

    visit_items-Sound : (path : String) (i : ℕ) (xs : Items) → Sound (visit_items process path i xs)
    visit_items-Sound path i nil = tt
    visit_items-Sound path i (cons v xs) =
        Sound-bind (visit process (join path (itoa i)) v) _ (visit-Sound (join path (itoa i)) v)
          (λ r.
            Sound-bind (visit_items process path (suc i) xs) _ (visit_items-Sound path (suc i) xs)
              (λ ys. place_item-Sound r ys))

  pub recursive-Sound : (v : Value) → Sound (recursive process v)
  unfolding recursive
  recursive-Sound (obj fs) =
      Sound-bind (visit_fields process "" fs) _ (visit_fields-Sound "" fs) (λ _. tt)
  recursive-Sound (list xs) =
      Sound-bind (visit_items process "" 0 xs) _ (visit_items-Sound "" 0 xs) (λ _. tt)
  recursive-Sound _ = tt

has_secret-Sound : (o : Option Value) → Sound (has_secret o)
has_secret-Sound none = tt
has_secret-Sound (some (str s)) = tt
has_secret-Sound (some _) = λ e. cc

mark_verified-Sound :
    (system : String) (b : Bool) (m : Option Fields) → Sound (mark_verified system b m)
mark_verified-Sound system false m = tt
mark_verified-Sound system true none = λ e. cc
mark_verified-Sound system true (some fs) = tt

verified-Sound :
    (root t : Trigger) (sys : System) (m : Option Fields) → Sound (verified root t sys m)
unfolding verified
verified-Sound root t sys m = elim (Bool-cases (str_eq root.driver "webhook")) [
  | inr e ↦ rw (verified, e) tt
  | inl e ↦
      rw (verified, e)
        (Sound-bind (has_secret (get "signatureSecret" (or_end sys.content))) _
          (has_secret-Sound (get "signatureSecret" (or_end sys.content)))
          (λ secret. mark_verified-Sound (t.source).system secret m))
]

module _ (merge : Fields → Value → Outcome Fields)
    (merge-Sound : (dst : Fields) (src : Value) → Sound (merge dst src)) where
  combine_map-Sound : (dst : Option Fields) (src : Value) → Sound (combine_map merge dst src)
  unfolding combine_map
  combine_map-Sound dst null = tt
  combine_map-Sound none src = Sound-bind (merge end src) _ (merge-Sound end src) (λ _. tt)
  combine_map-Sound (some dst) src = Sound-bind (merge dst src) _ (merge-Sound dst src) (λ _. tt)

  modify-Sound : (fs : Fields) → Sound (merge_modifier (suc (depth_fields fs)) fs)
  modify-Sound fs =
      Safe-map _ (λ _. Unit) (merge_modifier (suc (depth_fields fs)) fs) (λ _ _. tt)
        (merge_modifier-Within (suc (depth_fields fs)) fs (omega arith))

  modify_map-Sound : (dst : Option Fields) → Sound (modify_map merge dst)
  modify_map-Sound none = tt
  modify_map-Sound (some fs) =
      Sound-bind (merge_modifier (suc (depth_fields fs)) fs) _ (modify-Sound fs) (λ _. tt)

  merge_map-Sound : (dst : Option Fields) (src : Value) → Sound (merge_map merge dst src)
  unfolding merge_map
  merge_map-Sound dst src =
      Sound-bind (combine_map merge dst src) _ (combine_map-Sound dst src) modify_map-Sound

  module _ (interpolate : Value → Fields → Outcome Value)
      (interpolate-Sound : (v : Value) (env : Fields) → Sound (interpolate v env)) where
    merge_copy-Sound : (dst src : Option Fields) → Sound (merge_copy merge interpolate dst src)
    unfolding merge_copy
    merge_copy-Sound dst src =
        Sound-bind (deep_copy_map src) _ (deep_copy_map-Sound src)
          (λ copy. merge_map-Sound dst (as_value copy))

    merged_layer-Sound :
        (c : DataSet) (root t : Trigger) (l : Layers)
        → Sound (merged_layer merge interpolate c root t l)
    unfolding merged_layer
    merged_layer-Sound c root t l =
        Sound-bind (merge_copy merge interpolate l.sys_data (source_system c t).content) _
          (merge_copy-Sound l.sys_data (source_system c t).content)
          (λ _.
            Sound-bind (merge_copy merge interpolate l.parameters t.parameters) _
              (merge_copy-Sound l.parameters t.parameters)
              (λ _.
                Sound-bind (merge_copy merge interpolate l.criteria t.criteria) _
                  (merge_copy-Sound l.criteria t.criteria)
                  (λ criteria.
                    Sound-bind (verified root t (source_system c t) criteria) _
                      (verified-Sound root t (source_system c t) criteria) (λ _. tt))))

    add_layers-Sound :
        (c : DataSet) (root : Trigger) (stack : List Trigger) (l : Layers)
        → Sound (add_layers merge interpolate c root stack l)
    unfolding add_layers add_layer
    add_layers-Sound c root [] l = tt
    add_layers-Sound c root (t ∷ stack) l =
        Sound-bind (add_layer merge interpolate c root t l) _
          (Sound-bind (merged_layer merge interpolate c root t l) _ (merged_layer-Sound c root t l)
            (λ _. tt))
          (add_layers-Sound c root stack)

    as_map-Sound : (v : Value) → Sound (as_map merge interpolate v)
    unfolding as_map
    as_map-Sound (obj fs) = tt
    as_map-Sound _ = λ e. cc

    filled-Sound :
        (sys_data : Fields) (m : Option Fields) → Sound (filled merge interpolate sys_data m)
    unfolding filled
    filled-Sound sys_data m =
        Sound-bind (interpolate (as_value m) (field "sysData" (obj sys_data) end)) _
          (interpolate-Sound (as_value m) (field "sysData" (obj sys_data) end)) as_map-Sound

    interpolated-Sound : (l : Layers) (fs : Fields) → Sound (interpolated merge interpolate l fs)
    unfolding interpolated
    interpolated-Sound l end = tt
    interpolated-Sound l (field k v fs) =
        Sound-bind (filled merge interpolate (field k v fs) l.criteria) _
          (filled-Sound (field k v fs) l.criteria)
          (λ _.
            Sound-bind (filled merge interpolate (field k v fs) l.parameters) _
              (filled-Sound (field k v fs) l.parameters) (λ _. tt))

    copied-Sound : (root : Trigger) → Sound (copied merge interpolate root)
    unfolding copied
    copied-Sound root =
        Sound-bind (deep_copy_map root.criteria) _ (deep_copy_map-Sound root.criteria) (λ _.
          Sound-bind (deep_copy_map root.parameters) _ (deep_copy_map-Sound root.parameters)
            (λ _. tt))

    collapse_onto-Sound :
        (c : DataSet) (name : String) (root : Trigger) (stack : List Trigger)
        → Sound (collapse_onto merge interpolate c name (root, stack))
    unfolding collapse_onto
    collapse_onto-Sound c name root stack =
        Sound-bind (copied merge interpolate root) _ (copied-Sound root) (λ copies.
          Sound-bind
            (add_layers merge interpolate c root stack (first_layers merge interpolate root copies))
            _ (add_layers-Sound c root stack (first_layers merge interpolate root copies))
            (λ layers.
              Sound-bind (interpolated merge interpolate layers (or_end layers.sys_data)) _
                (interpolated-Sound layers (or_end layers.sys_data)) (λ _. tt)))

    -- A trigger whose sources lead to a raw one collapses, or its maps do not fit together.
    pub collapse_trigger-Sound :
        (fuel : ℕ) (c : DataSet) (t root : Trigger) (path : List Trigger)
        → Chain c t root path
        → steps path < fuel
        → Sound (collapse_trigger merge interpolate fuel c t)
    unfolding collapse_trigger
    collapse_trigger-Sound fuel c t root path chain l =
        rw (climb-Chain fuel c [] chain l)
          (collapse_onto-Sound c (t.source).system root (turned path []))
