-- ===== src/Config/Export.antt =====
-- internal/config/function_export.go: the context that a function exports. A function that has
-- another one as its target exports what that one exports, and its own exports on top.
use honeydipper.Common.{
  ℕ, zero, suc, Bool, true, false, Option, none, some, List, [], ◌∷◌, String, str_eq, is_some,
  if◌then◌else◌,
}
use honeydipper.Common.Assoc.{lookup}
use honeydipper.Text.{is_empty}
use honeydipper.Text.Split.{split}
use honeydipper.Outcome.{Outcome, done, panic, ◌>>=◌, type_assertion, workflow_error, out_of_fuel}
use honeydipper.Value.{Value, null, str, obj, Fields, get, put}
use honeydipper.Dipper.Copy.{deep_copy, deep_copy_map}
use honeydipper.Dipper.Merge.{merge_map}
use honeydipper.Config.{Action, Function, System, DataSet, as_value, or_end}

-- The status among the labels in the data; labels that hold no map of texts count as none.
label_status : Option Value → String
label_status (some (str s)) = s
label_status _ = "success"

abbrev status_in : Option Value → String
status_in (some (obj labels)) = label_status (get "status" labels)
status_in _ = "success"

unfoldable pub status_of : Fields → String
unfolding label_status
status_of env = status_in (get "labels" env)

-- envData["sysData"], which must be a map when it is there.
unfoldable pub sys_data_in : Option Value → Outcome (Option Fields)
sys_data_in none = done none
sys_data_in (some (obj fs)) = done (some fs)
sys_data_in (some v) = panic workflow_error

abbrev or_null : Option Value → Value
or_null none = null
or_null (some v) = v

-- All but the last.
abbrev pub but_last : List String → List String
but_last [] = []
but_last (w ∷ []) = []
but_last (w ∷ v ∷ ws) = w ∷ but_last (v ∷ ws)

-- mergedSysData = parent[subsystem].(map[string]interface{}); mergedSysData["parent"] = parent. The
-- source makes a circle of references; here the parent is as it was before.
into_subsystem : Fields → Option Value → Outcome Fields
into_subsystem parent (some (obj fs)) = done (put "parent" (obj parent) fs)
into_subsystem parent _ = panic type_assertion

unfoldable pub descend : List String → Fields → Outcome Fields
unfolding into_subsystem
descend [] parent = done parent
descend (subsystem ∷ more) parent = do
  fs ← into_subsystem parent (get subsystem parent)
  descend more fs

-- childSystem and childFunction
find_function : Option System → String → Outcome (System × Function)
find_function none name = panic workflow_error
find_function (some s) name = elim (lookup name s.functions) [
  | none ↦ panic workflow_error
  | some f ↦ done (s, f)
]

unfoldable pub target_function : DataSet → Action → Outcome (System × Function)
unfolding find_function
target_function c target = find_function (lookup target.system c.systems) target.function

-- What is exported, and envData afterwards. A nil map is none.
pub record Exported : Type 0 where
  pub context : Option Fields
  pub env : Fields

-- newCtx, and envData, in which the context is the same map when it was there before.
pub record Context : Type 0 where
  pub exported : Option Fields
  pub current : Option Fields
  pub shared : Bool

abbrev with_context : Context → Fields → Fields
with_context x env = elim x.shared [ true ↦ put "ctx" (as_value x.current) env | false ↦ env ]

-- envData["ctx"], when it is not nil.
context_in : Option Value → Outcome (Option Fields)
context_in none = done none
context_in (some null) = done none
context_in (some (obj fs)) = done (some fs)
context_in (some v) = panic type_assertion

module _ (merge : Fields → Value → Outcome Fields)
    (interpolate : Value → Fields → Outcome Value) where
  -- delta := Interpolate(...); exported = MergeMap(exported, copy); newCtx = MergeMap(newCtx, delta)
  unfoldable pub add_export : Option Fields → Fields → Context → Outcome Context
  add_export layer env x = do
    delta ← interpolate (as_value layer) (with_context x env)
    copy ← deep_copy delta
    exported ← merge_map merge x.exported copy
    current ← merge_map merge x.current delta
    done (record { exported = exported; current = current; shared = x.shared })

  -- switch status
  for_status : Function → String → Fields → Context → Outcome Context
  for_status f status env x =
      if str_eq status "success"
      then add_export f.export_on_success env x
      else if str_eq status "failure"
      then add_export f.export_on_failure env x
      else done x

  -- What comes after the target, or after the parameters of the innermost function.
  unfoldable pub export_own : Function → String → Option Fields → Exported → Outcome Exported
  unfolding for_status context_in
  export_own f status sys_data inner = do
    let env = put "sysData" (as_value sys_data) inner.env
    ctx ← context_in (get "ctx" env)
    first ←
        add_export f.exports env
          (record { exported = inner.context; current = ctx; shared = is_some ctx })
    last ← for_status f status env first
    done (record {
      context = last.exported;
      env = put "ctx" (as_value last.current) (with_context last env);
    })

  -- The sysData for the target: its system's data, and the way into the subsystem.
  unfoldable pub target_data : Option Fields → System → Action → Outcome Fields
  target_data sys_data child target = do
    copy ← deep_copy_map sys_data
    content ← deep_copy (as_value child.content)
    merged ← merge_map merge copy content
    descend (but_last (split b'.' target.function)) (or_end merged)

  -- envData["params"] with the outer parameters over those of the function.
  squash : Function → Fields → Outcome Fields
  squash f env = do
    own ← deep_copy_map f.parameters
    params ← merge_map merge own (or_null (get "params" env))
    done (put "params" (as_value params) env)

  -- The innermost function interpolates the parameters.
  innermost : Fields → Outcome Exported
  innermost env = do
    params ← interpolate (or_null (get "params" env)) env
    done (record { context = none; env = put "params" params env })

  -- ExportFunctionContext: the fuel is more than the number of functions that lead to each other.
  unfoldable pub export_function_context : ℕ → DataSet → Function → Fields → Outcome Exported
  unfolding squash innermost
  export_function_context zero c f env = panic out_of_fuel
  export_function_context (suc fuel) c f env =
      if str_eq (status_of env) "error" then done (record { context = none; env = env }) else do
        sys_data ← sys_data_in (get "sysData" env)
        squashed ← squash f env
        inner ← elim (is_empty (f.target).system) [
          | true ↦ innermost squashed
          | false ↦ do
            (child, target) ← target_function c f.target
            merged ← target_data sys_data child f.target
            export_function_context fuel c target (put "sysData" (obj merged) squashed)
        ]
        export_own f (status_of env) sys_data inner
