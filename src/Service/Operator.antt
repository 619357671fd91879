-- ===== src/Service/Operator.antt =====
-- internal/service/operator.go: the call of a function becomes the call of a driver. A function that
-- has another one as its target is collapsed into it, and the parameters are interpolated.
use Prim.Native.String.{◌++◌ as str_append}
use honeydipper.Common.{
  ℕ, zero, suc, Bool, true, false, ◌&&◌, ◌||◌, Option, none, some, List, [], ◌∷◌, String, str_eq,
  if◌then◌else◌,
}
use honeydipper.Common.Assoc.{Assoc, lookup, insert, delete}
use honeydipper.Text.{is_empty, drop}
use honeydipper.Text.Split.{split}
use honeydipper.Text.Search.{starts_with}
use honeydipper.Outcome.{
  Outcome, Fault, done, panic, ◌>>=◌, type_assertion, workflow_error, out_of_fuel,
}
use honeydipper.Value.{Value, null, str, obj, Fields, field, end}
use honeydipper.Dipper.MapData.{get_map_data}
use honeydipper.Dipper.Copy.{deep_copy}
use honeydipper.Dipper.Recursive.{recursive}
use honeydipper.Config.{Action, Function, System, DataSet, as_value, or_end}
use honeydipper.Config.Export.{but_last, descend, target_function}

-- What collapseFunction returns.
pub record Collapsed : Type 0 where
  pub driver : String
  pub raw_action : String
  pub params : Option Fields
  pub sys_data : Option Fields

-- sysData, split by the subsystems; without any it may stay nil.
unfoldable pub split_data : List String → Option Fields → Outcome (Option Fields)
split_data [] sys_data = done sys_data
split_data (s ∷ ss) sys_data = do fs ← descend (s ∷ ss) (or_end sys_data); done (some fs)

-- mergo.Merge with WithOverride and WithAppendSlice
module _ (merge_append : Fields → Value → Outcome Fields) where
  -- if more != nil { ... }: merges a copy into the map.
  unfoldable pub merge_onto : Option Fields → Option Fields → Outcome (Option Fields)
  merge_onto target none = done target
  merge_onto target (some more) = do
    copy ← deep_copy (obj more)
    merged ← merge_append (or_end target) copy
    done (some merged)

  system_data : Option System → Option Fields
  system_data none = none
  system_data (some s) = s.content

  -- What the innermost function gives, before anything is merged.
  own_driver : Function → Outcome Collapsed
  own_driver f =
      if is_empty (f.target).system
      then done
          (record { driver = f.driver; raw_action = f.raw_action; params = none; sys_data = none })
      else panic workflow_error

  split_collapsed : Action → Collapsed → Outcome Collapsed
  split_collapsed target x = do
    sys_data ← split_data (but_last (split b'.' target.function)) x.sys_data
    done (record x { sys_data = sys_data })

  merge_own : Option System → Function → Collapsed → Outcome Collapsed
  merge_own s f x = do
    sys_data ← merge_onto x.sys_data (system_data s)
    params ← merge_onto x.params f.parameters
    done (record x { params = params; sys_data = sys_data })

  -- collapseFunction: the fuel is more than the number of functions that lead to each other.
  unfoldable pub collapse_function : ℕ → DataSet → Option System → Function → Outcome Collapsed
  unfolding own_driver split_collapsed merge_own system_data
  collapse_function zero c s f = panic out_of_fuel
  collapse_function (suc fuel) c s f = do
    inner ← elim (is_empty f.driver) [
      | false ↦ own_driver f
      | true ↦ do
        (child, target) ← target_function c f.target
        x ← collapse_function fuel c (some child) target
        split_collapsed f.target x
    ]
    merge_own s f inner

-- "driver:" + driver, or what follows "feature:".
unfoldable pub feature_of : String → String
feature_of driver =
    if starts_with driver "feature:" then drop 8 driver else str_append "driver:" driver

-- The data of the interpolations.
abbrev call_env : Fields → Value → Value → Value → Value → Value → Fields
call_env labels sys_data content event ctx params = field "sysData" sys_data (
    field "data" content (
      field "event" event
        (field "labels" (obj labels) (field "ctx" ctx (field "params" params end)))))

abbrev or_null : Option Value → Value
or_null none = null
or_null (some v) = v

abbrev or_obj : Option Value → Value
or_obj none = obj end
or_obj (some v) = v

abbrev labels_of : Assoc String → Fields
labels_of [] = end
labels_of ((k, v) ∷ ls) = field k (str v) (labels_of ls)

-- The labels so far, and the panic that has ended the handler, if any.
pub data Labelled : Type 0 where
  labelled : Assoc String → Labelled
  failed : Assoc String → Fault → Labelled

abbrev then_label : Labelled → (Assoc String → Labelled) → Labelled
then_label (labelled ls) f = f ls
then_label (failed ls e) f = failed ls e

-- Where the message goes and what it holds.
pub record Prepared : Type 0 where
  pub feature : String
  pub raw_action : String
  pub ctx : Value
  pub params : Value

-- What handleEventbusCommand does: it routes the message to a worker, or it panics, and then it may
-- have returned the error to the session.
pub data Commanded : Type 0 where
  routed : String → Assoc String → Value → Commanded
  returned_error : Assoc String → Fault → Commanded
  failed_silently : Fault → Commanded

-- The parameters: package mergo, interpolation, mapstructure, decryption, the drivers that the
-- operator has loaded, how a panic reads, and the fuel for chains of functions.
module _ (merge_append : Fields → Value → Outcome Fields)
    (interpolate : Value → Fields → Outcome Value)
    (interpolate_str : String → Fields → Outcome String) (decode : Value → Option Function)
    (decrypt : String → Value → Outcome (Value × Bool)) (loaded : String → Bool)
    (describe : Fault → String) (fuel : ℕ) (c : DataSet) where
  decoded : Option Value → Outcome Function
  decoded none = panic workflow_error
  decoded (some v) = elim (decode v) [ none ↦ panic workflow_error | some f ↦ done f ]

  as_obj : Value → Outcome Value
  as_obj (obj fs) = done (obj fs)
  as_obj _ = panic type_assertion

  -- A context that is there is interpolated.
  interpolated_ctx : Value → Fields → Outcome Value
  interpolated_ctx null env = done null
  interpolated_ctx ctx env = do v ← interpolate ctx env; as_obj v

  -- The interpolated context and parameters; without parameters nothing is interpolated.
  fill : Assoc String → Value → Collapsed → Option Fields → Outcome (Value × Value)
  fill labels payload x none = done (or_null (get_map_data payload "ctx"), obj end)
  fill labels payload x (some params) = do
    let sys_data = as_value x.sys_data
    let content = or_obj (get_map_data payload "data")
    let event = or_null (get_map_data payload "event")
    let ctx = or_null (get_map_data payload "ctx")
    new_ctx ←
        interpolated_ctx ctx (call_env (labels_of labels) sys_data content event ctx (obj params))
    v ←
        interpolate (obj params)
          (call_env (labels_of labels) sys_data content event new_ctx (obj params))
    final ← as_obj v
    done (new_ctx, final)

  worker : String → Outcome String
  worker feature = if loaded feature then done feature else panic workflow_error

  unfoldable pub prepare : Assoc String → Value → Outcome Prepared
  unfolding decoded fill interpolated_ctx as_obj worker
  prepare labels payload = do
    f ← decoded (get_map_data payload "function")
    x ← collapse_function merge_append fuel c none f
    feature ← worker (feature_of x.driver)
    (ctx, final) ← fill labels payload x x.params
    params ← recursive decrypt final
    done (record { feature = feature; raw_action = x.raw_action; ctx = ctx; params = params })

  -- One of the three limits: the label is deleted, and set when there is a value.
  set_limit : String → Prepared → Assoc String → Labelled
  set_limit name x labels =
      elim (interpolate_str (str_append "$?ctx." (str_append name (str_append ",params." name)))
        (field "ctx" x.ctx (field "params" x.params end))) [
          | panic e ↦ failed labels e
          | done v ↦
              labelled
                (if is_empty v then delete name labels else insert name v (delete name labels))
        ]

  unfoldable pub set_labels : Prepared → Assoc String → Labelled
  unfolding set_limit
  set_labels x labels =
      then_label (set_limit "retry" x (insert "method" x.raw_action labels))
        (λ l1. then_label (set_limit "backoff_ms" x l1) (λ l2. set_limit "timeout" x l2))

  -- The deferred function: a session that waits gets the error.
  unfoldable pub report : Assoc String → Fault → Commanded
  report labels e = elim (lookup "sessionID" labels) [
    | none ↦ failed_silently e
    | some id ↦
        if is_empty id
        then failed_silently e
        else returned_error (insert "reason" (describe e) (insert "status" "error" labels)) e
  ]

  finish : Prepared → Labelled → Commanded
  finish x (labelled labels) = routed x.feature labels x.params
  finish x (failed labels e) = report labels e

  -- handleEventbusCommand, on a payload that is deserialized.
  unfoldable pub handle_command : Assoc String → Value → Commanded
  unfolding finish
  handle_command labels payload = elim (prepare labels payload) [
    | panic e ↦ report labels e
    | done x ↦ finish x (set_labels x labels)
  ]

-- operatorRoute: commands are handled, returns and messages go to the event bus.
pub data Route : Type 0 where
  command to_eventbus nowhere : Route

unfoldable pub operator_route : String → String → Route
operator_route channel subject =
    if str_eq channel "eventbus" && str_eq subject "command"
    then command
    else if str_eq channel "eventbus" && (str_eq subject "return" || str_eq subject "message")
    then to_eventbus
    else nowhere
