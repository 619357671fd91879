-- ===== src/Config/Collapse.antt =====
-- internal/config/collapsed_trigger.go: a trigger that is based on other triggers, made into one.
use honeydipper.Common.{
  ℕ, zero, suc, Bool, true, false, Option, none, some, List, [], ◌∷◌, ◌++◌, String, str_eq, not,
}
use honeydipper.Common.Assoc.{lookup}
use honeydipper.Outcome.{Outcome, done, panic, ◌>>=◌, type_assertion, nil_map, out_of_fuel}
use honeydipper.Value.{Value, null, str, obj, Fields, field, end, get, put}
use honeydipper.Text.{is_empty}
use honeydipper.Dipper.Copy.{deep_copy_map}
use honeydipper.Dipper.Merge.{merge_map}
use honeydipper.Config.{Trigger, System, DataSet, as_value, or_end}

-- CollapsedTrigger
pub record CollapsedTrigger : Type 0 where
  pub criteria : Option Fields
  pub exports : List (Option Fields)
  pub sys_data : Option Fields
  pub parameters : Option Fields
  pub sys_name : String

-- What a missing key of a map of structs reads as.
abbrev pub no_trigger : Trigger
no_trigger = record {
  driver = "";
  raw_event = "";
  criteria = none;
  parameters = none;
  source = record { system = ""; trigger = "" };
  exports = none;
  description = "";
  meta = null;
}

abbrev pub no_system : System
no_system = record {
  content = none;
  triggers = [];
  functions = [];
  extends = [];
  description = "";
  meta = null;
}

abbrev pub or_system : Option System → System
or_system none = no_system
or_system (some s) = s

abbrev or_trigger : Option Trigger → Trigger
or_trigger none = no_trigger
or_trigger (some t) = t

-- c.Systems[t.Source.System]
unfoldable pub source_system : DataSet → Trigger → System
source_system c t = or_system (lookup (t.source).system c.systems)

-- sourceSys.Triggers[current.Source.Trigger]
unfoldable pub source_trigger : DataSet → Trigger → Trigger
source_trigger c t = or_trigger (lookup (t.source).trigger (source_system c t).triggers)

-- The loop that goes to the raw trigger, with the stack of the triggers it has passed, the last one
-- first. Out of fuel: the sources lead in a circle, and the loop does not end.
unfoldable pub climb : ℕ → DataSet → List Trigger → Trigger → Outcome (Trigger × List Trigger)
climb zero c stack current = panic out_of_fuel
climb (suc f) c stack current = elim (is_empty (current.source).system) [
  | true ↦ done (current, stack)
  | false ↦ climb f c (current ∷ stack) (source_trigger c current)
]

-- The match, params, sysData and exports of the loop that goes back.
pub record Layers : Type 0 where
  pub criteria : Option Fields
  pub parameters : Option Fields
  pub sys_data : Option Fields
  pub exports : List (Option Fields)

-- sigsec.(string) != ""
abbrev pub has_secret : Option Value → Outcome Bool
has_secret none = done false
has_secret (some (str s)) = done (not (is_empty s))
has_secret (some v) = panic type_assertion

-- match["verifiedSystem"] = trigger.Source.System
abbrev pub mark_verified : String → Bool → Option Fields → Outcome (Option Fields)
mark_verified system false m = done m
mark_verified system true none = panic nil_map
mark_verified system true (some fs) = done (some (put "verifiedSystem" (str system) fs))

unfoldable pub verified : Trigger → Trigger → System → Option Fields → Outcome (Option Fields)
verified root t sys m = elim (str_eq root.driver "webhook") [
  | false ↦ done m
  | true ↦ do
    secret ← has_secret (get "signatureSecret" (or_end sys.content))
    mark_verified (t.source).system secret m
]

-- mergo.Merge and Interpolate.
module _ (merge : Fields → Value → Outcome Fields)
    (interpolate : Value → Fields → Outcome Value) where
  -- MergeMap(dst, MustDeepCopyMap(src))
  unfoldable pub merge_copy : Option Fields → Option Fields → Outcome (Option Fields)
  merge_copy dst src = do copy ← deep_copy_map src; merge_map merge dst (as_value copy)

  -- sysData, params and match after one more trigger.
  unfoldable pub merged_layer :
      DataSet → Trigger → Trigger → Layers → Outcome (Option Fields × Option Fields × Option Fields)
  merged_layer c root t l = do
    sys_data ← merge_copy l.sys_data (source_system c t).content
    parameters ← merge_copy l.parameters t.parameters
    criteria ← merge_copy l.criteria t.criteria
    marked ← verified root t (source_system c t) criteria
    done (sys_data, parameters, marked)

  abbrev pub next_layers : Trigger → Layers → Option Fields × Option Fields × Option Fields → Layers
  next_layers t l (sys_data, parameters, criteria) = record {
    criteria = criteria;
    parameters = parameters;
    sys_data = sys_data;
    exports = l.exports ++ (t.exports ∷ []);
  }

  unfoldable pub add_layer : DataSet → Trigger → Trigger → Layers → Outcome Layers
  unfolding merged_layer
  add_layer c root t l = do merged ← merged_layer c root t l; done (next_layers t l merged)

  -- for i := len(stack) - 1; i >= 0; i-- { ... }
  unfoldable pub add_layers : DataSet → Trigger → List Trigger → Layers → Outcome Layers
  add_layers c root [] l = done l
  add_layers c root (t ∷ stack) l = do next ← add_layer c root t l; add_layers c root stack next

  -- Interpolate(m, envData).(map[string]interface{})
  unfoldable pub as_map : Value → Outcome (Option Fields)
  as_map (obj fs) = done (some fs)
  as_map _ = panic type_assertion

  unfoldable pub filled : Fields → Option Fields → Outcome (Option Fields)
  filled sys_data m = do v ← interpolate (as_value m) (field "sysData" (obj sys_data) end); as_map v

  -- The match and the parameters are interpolated when there is any sysData.
  unfoldable pub interpolated : Layers → Fields → Outcome (Option Fields × Option Fields)
  interpolated l end = done (l.criteria, l.parameters)
  interpolated l (field k v fs) = do
    criteria ← filled (field k v fs) l.criteria
    parameters ← filled (field k v fs) l.parameters
    done (criteria, parameters)

  abbrev pub collapsed : String → Layers → Option Fields × Option Fields → CollapsedTrigger
  collapsed name l (criteria, parameters) = record {
    criteria = criteria;
    exports = l.exports;
    sys_data = l.sys_data;
    parameters = parameters;
    sys_name = name;
  }

  -- The copies of the raw trigger's maps, before the loop that goes back.
  unfoldable pub copied : Trigger → Outcome (Option Fields × Option Fields)
  copied root = do
    criteria ← deep_copy_map root.criteria
    parameters ← deep_copy_map root.parameters
    done (criteria, parameters)

  abbrev pub first_layers : Trigger → Option Fields × Option Fields → Layers
  first_layers root (criteria, parameters) = record {
    criteria = criteria;
    parameters = parameters;
    sys_data = some end;
    exports = root.exports ∷ [];
  }

  -- The raw trigger with what the layers above it make.
  unfoldable pub collapse_onto :
      DataSet → String → Trigger × List Trigger → Outcome (Trigger × CollapsedTrigger)
  unfolding add_layers interpolated copied
  collapse_onto c name (root, stack) = do
    copies ← copied root
    layers ← add_layers c root stack (first_layers root copies)
    maps ← interpolated layers (or_end layers.sys_data)
    done (root, collapsed name layers maps)

  -- CollapseTrigger: the raw trigger and the collapsed one.
  unfoldable pub collapse_trigger : ℕ → DataSet → Trigger → Outcome (Trigger × CollapsedTrigger)
  unfolding climb collapse_onto
  collapse_trigger f c t = do found ← climb f c [] t; collapse_onto c (t.source).system found

  -- envData of ExportContext: the context in it is the map that grows.
  unfoldable pub export_layers :
      Option Fields → Fields → List (Option Fields) → Fields → Outcome Fields
  export_layers sys_data env [] ctx = done ctx
  export_layers sys_data env (layer ∷ layers) ctx = do
    delta ←
        interpolate (as_value layer) (put "sysData" (as_value sys_data) (put "ctx" (obj ctx) env))
    merged ← merge_map merge (some ctx) delta
    export_layers sys_data env layers (or_end merged)

  -- ExportContext
  unfoldable pub export_context : CollapsedTrigger → String → Fields → Outcome Fields
  unfolding export_layers
  export_context t event_name env = do
    ctx ← export_layers t.sys_data env t.exports end
    done (elim (get "_meta_event" ctx) [
      | none ↦ put "_meta_event" (str event_name) ctx
      | some v ↦ ctx
    ])
