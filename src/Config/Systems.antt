-- ===== src/Config/Systems.antt =====
-- internal/config/config.go: systems that are merged, put under a key of another one, and extended by
-- others (mergeSystem, addSubsystem, extendSystem, extendAllSystems). Mergo and the copying by
-- encoding/gob are parameters, which give no value when they fail.
use Prim.Native.String.{◌++◌ as str_append}
use honeydipper.Common.{
  Char, ℕ, zero, suc, Bool, true, false, Option, none, some, List, [], ◌∷◌, ◌++◌, String, code,
  if◌then◌else◌,
}
use honeydipper.Common.Assoc.{Assoc, lookup, insert, has}
use honeydipper.Outcome.{Outcome, done, panic, ◌>>=◌, merge_failed, out_of_fuel}
use honeydipper.Value.{Value, null, Fields, put}
use honeydipper.Text.{is_empty, is_space}
use honeydipper.Text.Split.{split}
use honeydipper.Config.{Trigger, Function, System, as_value, or_end}
use honeydipper.Config.Collapse.{no_system, or_system}

-- dipper.Must, on a value that an error stands in for.
abbrev pub must {ℓ} : {A : Type ℓ} → Option A → Outcome A
must none = panic merge_failed
must (some a) = done a

abbrev pub or_text : String → String → String
or_text s t = if is_empty s then t else s

-- A Meta that is nil is filled in.
abbrev pub or_value : Value → Value → Value
or_value null v = v
or_value u v = u

module _ {T : Type 0} (merge_one : T → T → Option T) (completed : T → T → T) where
  -- An entry of the source, onto what the destination has under its name.
  unfoldable pub merge_entry : String → T → Assoc T → Option T → Outcome (Assoc T)
  merge_entry name t d none = done (insert name t d)
  merge_entry name t d (some exist) = do
    merged ← must (merge_one exist t)
    done (insert name (completed t merged) d)

  -- The loops of mergeSystem over the triggers and the functions.
  unfoldable pub merge_entries : Assoc T → Assoc T → Outcome (Assoc T)
  unfolding merge_entry
  merge_entries [] d = done d
  merge_entries ((name, t) ∷ ts) d = do
    d' ← merge_entry name t d (lookup name d)
    merge_entries ts d'

abbrev pub completed_trigger : Trigger → Trigger → Trigger
completed_trigger t exist = record exist {
  description = or_text exist.description t.description;
  meta = or_value exist.meta t.meta;
}

abbrev pub completed_function : Function → Function → Function
completed_function f exist = record exist {
  description = or_text exist.description f.description;
  meta = or_value exist.meta f.meta;
}

-- strings.TrimSpace
unfoldable pub drop_blanks : String → String
drop_blanks String.[] = String.[]
drop_blanks (String.◌∷◌ c s) =
    let rest = drop_blanks s in if is_space (code c) then rest else String.◌∷◌ c s

put_unless_blank : Char → String → String
put_unless_blank c String.[] = if is_space (code c) then String.[] else String.◌∷◌ c String.[]
put_unless_blank c (String.◌∷◌ d s) = String.◌∷◌ c (String.◌∷◌ d s)

unfoldable pub drop_last_blanks : String → String
unfolding put_unless_blank
drop_last_blanks String.[] = String.[]
drop_last_blanks (String.◌∷◌ c s) = put_unless_blank c (drop_last_blanks s)

abbrev pub trimmed : String → String
trimmed s = drop_last_blanks (drop_blanks s)

-- An entry of Extends: the key under which the base is put, empty if it is merged, and the base.
unfoldable pub extend_parts : List String → String × String
extend_parts [] = ("", "")
extend_parts (base ∷ []) = ("", trimmed base)
extend_parts (key ∷ base ∷ rest) = (trimmed key, trimmed base)

unfoldable pub parse_extend : String → String × String
parse_extend extend = extend_parts (split b'=' extend)

unfoldable pub put_entries {ℓ} : {T : Type ℓ} → String → Assoc T → Assoc T → Assoc T
put_entries key [] d = d
put_entries key ((name, t) ∷ ts) d =
    put_entries key ts (insert (str_append key (str_append "." name)) t d)

-- addSubsystem
unfoldable pub add_subsystem : System → System → String → System
add_subsystem d s key = record d {
  triggers = put_entries key s.triggers d.triggers;
  functions = put_entries key s.functions d.functions;
  content = some (put key (as_value s.content) (or_end d.content));
}

-- The staged systems while they are extended, and those that are processed.
pub record Extending : Type 0 where
  pub systems : Assoc System
  pub processed : Assoc Bool

module _ (merge_trigger : Trigger → Trigger → Option Trigger)
    (merge_function : Function → Function → Option Function)
    (merge_content : Option Fields → Option Fields → Option (Option Fields))
    (copy : System → Option System) where
  -- mergeSystem
  unfoldable pub merge_system : System → System → Outcome System
  merge_system d s = do
    triggers ← merge_entries merge_trigger completed_trigger s.triggers d.triggers
    functions ← merge_entries merge_function completed_function s.functions d.functions
    content ← must (merge_content d.content s.content)
    done (record {
      content = content;
      triggers = triggers;
      functions = functions;
      extends = d.extends ++ s.extends;
      description = or_text s.description d.description;
      meta = or_value s.meta d.meta;
    })

  unfoldable pub join_base : String → System → System → Outcome System
  join_base key merged base =
      if is_empty key then merge_system merged base else done (add_subsystem merged base key)

  -- A base, as it is among the systems, onto what is merged so far.
  unfoldable pub add_base : Assoc System → String → System → Outcome System
  unfolding join_base
  add_base systems extend merged = do
    base ← must (copy (or_system (lookup (parse_extend extend).1 systems)))
    join_base (parse_extend extend).0 merged base

  module _ (extend_base : String → Extending → Outcome Extending) where
    unfoldable pub visit_base : Bool → String → Extending → Outcome Extending
    visit_base true base e = done e
    visit_base false base e = extend_base base e

    -- The loop over Extends.
    unfoldable pub extend_bases : List String → System → Extending → Outcome (System × Extending)
    unfolding visit_base
    extend_bases [] merged e = done (merged, e)
    extend_bases (extend ∷ extends) merged e = do
      e' ← visit_base (has (parse_extend extend).1 e.processed) (parse_extend extend).1 e
      merged' ← add_base e'.systems extend merged
      extend_bases extends merged' e'

  unfoldable pub put_extended : String → Extending → System → Extending
  put_extended name e s = record {
    systems = insert name s e.systems;
    processed = insert name true e.processed;
  }

  -- extendSystem. Out of fuel: a system is a base of itself, directly or not, and the recursion does
  -- not end.
  unfoldable pub extend_system : ℕ → String → Extending → Outcome Extending
  unfolding put_extended
  extend_system zero name e = panic out_of_fuel
  extend_system (suc f) name e = do
    (merged, e') ←
        extend_bases (extend_system f) (or_system (lookup name e.systems)).extends no_system e
    whole ← merge_system merged (or_system (lookup name e.systems))
    done (put_extended name e' whole)

  unfoldable pub extend_unless : ℕ → Bool → String → Extending → Outcome Extending
  extend_unless f true name e = done e
  extend_unless f false name e = extend_system f name e

  -- The loop of extendAllSystems over the names, in any order.
  unfoldable pub extend_names : ℕ → List String → Extending → Outcome Extending
  unfolding extend_unless
  extend_names f [] e = done e
  extend_names f (name ∷ names) e = do
    e' ← extend_unless f (has name e.processed) name e
    extend_names f names e'

  abbrev pub extend_all_systems : ℕ → List String → Assoc System → Outcome Extending
  extend_all_systems f names systems =
      extend_names f names (record { systems = systems; processed = [] })
