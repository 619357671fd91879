-- ===== src/Workflow/Session.antt =====
-- internal/workflow/session.go: how a session is created, and the named contexts that are loaded
-- into it.
use honeydipper.Common.{
  ℕ, Bool, true, false, not, Option, none, some, is_some, List, [], ◌∷◌, ◌++◌, String, str_eq,
  if◌then◌else◌, any, ◌==◌,
}
use honeydipper.Outcome.{Outcome, done, panic, workflow_error, type_assertion, index_out_of_range}
use honeydipper.Text.{is_empty, codes}
use honeydipper.Value.{Value, null, str, list, obj, Items, nil, cons, Fields, end, get, put, remove}
use honeydipper.Dipper.Copy.{deep_copy_map}
use honeydipper.Dipper.MapData.{get_map_data}
use honeydipper.Workflow.Types.{
  Session, Settings, Workflow, workflow, Message, Env, settings, or_end, build_env_data,
}
use honeydipper.Workflow.Handler.{Handler, self, update, lift, skip, raise, when, ◌>>=◌, ◌>>◌}
use honeydipper.Workflow.Predicates.{set_performing}
use honeydipper.Workflow.Calls.{assert_map}

-- newSession, at a new address.
unfoldable pub new_session : ℕ → String → String → Workflow → Session
unfolding set_performing
new_session address parent event_id flow = set_performing "" (record {
  address = address;
  id = "";
  event_id = event_id;
  flow = flow;
  current = 0;
  iteration = 0;
  iteration_out = none;
  loop_count = 0;
  parent = parent;
  ctx = none;
  event = end;
  exported = [];
  taken_else = none;
  in_fly = none;
  loaded_contexts = [];
  current_hook = "";
  saved_msg = none;
  orig_msg = none;
  performing = "";
  is_hook = false;
  watched = false;
})

abbrev event_of : Option Value → Outcome Fields
event_of none = done end
event_of (some null) = done end
event_of (some v) = assert_map v

-- injectMsg: only a session that an event has started takes the event from the message.
unfoldable pub inject_msg : Message → Handler (Unit {0})
inject_msg msg = do
  w ← self
  if not (is_empty w.parent) then skip else do
    event ← lift (event_of (get_map_data msg.payload "data"))
    update (λ u. record u { event = event })

abbrev pub reset_settings : (Settings → Settings) → Session → Session
reset_settings f w = record w {
  flow = elim w.flow [ workflow s steps threads ↦ workflow (f s) steps threads ];
}

abbrev starts_with_underscore : List ℕ → Bool
starts_with_underscore [] = false
starts_with_underscore (c ∷ cs) = c == 95

-- The data of an interpolation holds the context itself, so it shows what is merged into it later;
-- a nil context is replaced by a new map, which it does not show.
abbrev current_data : Session → Fields → Session → Fields
current_data before env_data w =
    if is_some before.ctx then put "ctx" (obj (or_end w.ctx)) env_data else env_data

abbrev pub delete_hooks : Session → Session
delete_hooks w = record w { ctx = elim w.ctx [ none ↦ none | some fs ↦ some (remove "hooks" fs) ] }

abbrev contains : String → List String → Bool
contains name names = any (str_eq name) names

-- Every entry of the contexts, if there is one, is a text.
abbrev as_items : Value → Outcome Items
as_items null = done nil
as_items (list xs) = done xs
as_items v = panic type_assertion

module _ (env : Env) where
  -- One section of a named context is copied, interpolated and merged.
  abbrev merge_section : Session → Fields → String → Fields → Handler (Unit {0})
  merge_section before env_data key sections = elim (get key sections) [
    | none ↦ skip
    | some section ↦ do
      fields ← lift (assert_map section)
      copy ← lift (deep_copy_map (some fields))
      w ← self
      delta ← lift (env.interpolate (obj (or_end copy)) (current_data before env_data w))
      ctx ← lift (env.merge_map w.ctx delta)
      update (λ u. record u { ctx = ctx })
  ]

  abbrev merge_sections : Bool → Message → Value → Handler (Unit {0})
  merge_sections first_time msg null = skip
  merge_sections first_time msg named = do
    sections ← lift (assert_map named)
    w ← self
    let env_data = build_env_data w msg
    when first_time (merge_section w env_data "*" sections)
    when (is_empty w.parent) (merge_section w env_data "_events" sections)
    let name = (settings w.flow).name
    when (not (is_empty name)) (merge_section w env_data name sections)

  -- injectNamedCTX: a context has to be defined, unless its name begins with `_`.
  unfoldable pub inject_named_ctx : String → Message → Bool → Handler (Unit {0})
  inject_named_ctx name msg first_time =
      if is_empty name then raise index_out_of_range else elim (get name env.contexts) [
        | none ↦ if starts_with_underscore (codes name) then skip else raise workflow_error
        | some named ↦ merge_sections first_time msg named
      ]

  -- A context that is loaded already is not loaded again.
  abbrev load_once : String → Message → Handler (Unit {0})
  load_once name msg = do
    w ← self
    if contains name w.loaded_contexts then skip else do
      inject_named_ctx name msg true
      update (λ u. record u { loaded_contexts = u.loaded_contexts ++ name ∷ [] })

  load_all : Items → Message → Handler (Unit {0})
  load_all nil msg = skip
  load_all (cons null vs) msg = load_all vs msg
  load_all (cons (str name) vs) msg = do
    if is_empty name then skip else load_once name msg
    load_all vs msg
  load_all (cons v vs) msg = raise workflow_error

  -- injectCTXs
  unfoldable pub inject_ctxs : Message → Handler (Unit {0})
  unfolding inject_named_ctx load_all
  inject_ctxs msg = do
    w ← self
    let env_data = build_env_data w msg
    context ← lift (env.interpolate_str (settings w.flow).context env_data)
    update (reset_settings (λ s. record s { context = context }))
    contexts ← lift (env.interpolate (settings w.flow).contexts env_data)
    update (reset_settings (λ s. record s { contexts = contexts }))
    when (str_eq context "_hooks") (update (λ u. record u { is_hook = true }))
    when (not (is_empty context)) (load_once context msg)
    items ← lift (as_items contexts)
    load_all items msg

  inject_loaded : List String → Message → Handler (Unit {0})
  inject_loaded [] msg = skip
  inject_loaded (name ∷ names) msg = do
    when (str_eq name "_hooks") (update (λ u. record u { is_hook = true }))
    inject_named_ctx name msg false
    inject_loaded names msg

  -- initCTX
  unfoldable pub init_ctx : Message → Handler (Unit {0})
  unfolding inject_loaded inject_ctxs
  init_ctx msg = do
    w ← self
    inject_named_ctx "_default" msg (is_empty w.parent)
    when (is_empty w.parent) (inject_named_ctx "_events" msg true)
    inject_loaded w.loaded_contexts msg
    inject_ctxs msg
    u ← self
    when u.is_hook (update delete_hooks)
