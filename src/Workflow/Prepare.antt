-- ===== src/Workflow/Prepare.antt =====
-- internal/workflow/session.go: how a session is prepared: what it inherits, its locals and the
-- interpolation of its workflow.
use honeydipper.Common.{not, ◌&&◌, ◌||◌, Option, none, some, List, [], ◌∷◌, String, if◌then◌else◌}
use honeydipper.Outcome.{nil_map}
use honeydipper.Text.{is_empty}
use honeydipper.Value.{Value, str, list, obj, Items, nil, cons, Fields, put, is_null}
use honeydipper.Dipper.Copy.{deep_copy_map}
use honeydipper.Workflow.Types.{Session, Settings, Message, Env, settings, or_end, build_env_data}
use honeydipper.Workflow.Handler.{Handler, self, update, lift, pure, skip, raise, ◌>>=◌, ◌>>◌}
use honeydipper.Workflow.Predicates.{inherit_parent_settings}
use honeydipper.Workflow.Session.{inject_msg, init_ctx, delete_hooks, reset_settings}

abbrev as_layers : Value → Items
as_layers (list xs) = xs
as_layers v = cons v nil

-- What is interpolated to nothing is an empty list of items.
abbrev or_empty_list : Value → Value → Value
or_empty_list v given = if is_null v && not (is_null given) then list nil else v

module _ (env : Env) where
  -- injectEventCTX
  unfoldable pub inject_event_ctx : Option Fields → Handler (Unit {0})
  inject_event_ctx none = skip
  inject_event_ctx (some fs) = do
    w ← self
    ctx ← lift (env.merge_map w.ctx (obj fs))
    update (λ u. record u { ctx = ctx })

  -- The locals are merged layer by layer; each layer is interpolated with the ones before it.
  unfoldable pub inject_layers : Items → Message → Option Fields → Handler (Unit {0})
  inject_layers nil msg ctx = update (λ u. record u { ctx = ctx })
  inject_layers (cons layer layers) msg ctx = do
    w ← self
    locals ← lift (env.interpolate layer (put "ctx" (obj (or_end ctx)) (build_env_data w msg)))
    merged ← lift (env.merge_map ctx locals)
    inject_layers layers msg merged

  -- injectLocalCTX
  unfoldable pub inject_local_ctx : Message → Handler (Unit {0})
  unfolding inject_layers
  inject_local_ctx msg = do
    w ← self
    let wf = settings w.flow
    if is_null wf.locals || not (is_empty wf.call_driver)
        then skip
        else inject_layers (as_layers wf.locals) msg w.ctx

  interpolate_all : List String → Fields → Handler (List String)
  interpolate_all [] env_data = pure []
  interpolate_all (s ∷ ss) env_data = do
    t ← lift (env.interpolate_str s env_data)
    ts ← interpolate_all ss env_data
    pure (t ∷ ts)

  -- The first half of interpolateWorkflow: the names and the conditions.
  abbrev interpolate_conditions : Settings → Fields → Handler Settings
  unfolding interpolate_all
  interpolate_conditions v env_data = do
    name ← lift (env.interpolate_str v.name env_data)
    description ← lift (env.interpolate_str v.description env_data)
    if_all ← interpolate_all v.if_all env_data
    if_any ← interpolate_all v.if_any env_data
    unless_any ← interpolate_all v.unless_any env_data
    unless_all ← interpolate_all v.unless_all env_data
    if_match ← lift (env.interpolate v.if_match env_data)
    unless_match ← lift (env.interpolate v.unless_match env_data)
    pure (record v {
      name = name;
      description = description;
      if_all = if_all;
      if_any = if_any;
      unless_any = unless_any;
      unless_all = unless_all;
      if_match = if_match;
      unless_match = unless_match;
    })

  -- Its second half.
  abbrev interpolate_actions : Settings → Fields → Handler Settings
  interpolate_actions v env_data = do
    retry ← lift (env.interpolate_str v.retry env_data)
    backoff ← lift (env.interpolate_str v.backoff env_data)
    wait ← lift (env.interpolate_str v.wait env_data)
    call_function ← lift (env.interpolate_str v.call_function env_data)
    call_driver ← lift (env.interpolate_str v.call_driver env_data)
    iterate ← lift (env.interpolate v.iterate env_data)
    iterate_parallel ← lift (env.interpolate v.iterate_parallel env_data)
    pool ←
        if is_null v.iterate_parallel
        then pure v.iterate_pool
        else lift (env.interpolate_str v.iterate_pool env_data)
    pure (record v {
      retry = retry;
      backoff = backoff;
      wait = wait;
      call_function = call_function;
      call_driver = call_driver;
      iterate = or_empty_list iterate v.iterate;
      iterate_parallel = or_empty_list iterate_parallel v.iterate_parallel;
      iterate_pool = pool;
    })

  -- interpolateWorkflow
  unfoldable pub interpolate_workflow : Message → Handler (Unit {0})
  unfolding interpolate_all
  interpolate_workflow msg = do
    w ← self
    let env_data = build_env_data w msg
    v ← interpolate_conditions (settings w.flow) env_data
    v' ← interpolate_actions v env_data
    update (reset_settings (λ s. v'))

  set_meta : String → String → Handler (Unit {0})
  set_meta key value = do
    w ← self
    elim w.ctx [
      | none ↦ raise nil_map
      | some fs ↦ update (λ u. record u { ctx = some (put key (str value) fs) })
    ]

  -- injectMeta
  unfoldable pub inject_meta : Handler (Unit {0})
  unfolding set_meta
  inject_meta = do
    w ← self
    let wf = settings w.flow
    if w.is_hook then skip else do
      set_meta "_meta_name" (if not (is_empty wf.name) then wf.name else w.performing)
      set_meta "_meta_desc" wf.description

  -- inheritParentData, on the side of the child.
  unfoldable pub inherit_parent_data : Session → Handler (Unit {0})
  inherit_parent_data parent = do
    update (λ w. record w { event = parent.event })
    ctx ← lift (deep_copy_map parent.ctx)
    update (λ w. record w { ctx = ctx; loaded_contexts = parent.loaded_contexts })
    update delete_hooks

  abbrev inherit_settings : Session → Handler (Unit {0})
  inherit_settings parent = update (reset_settings (inherit_parent_settings (settings parent.flow)))

  abbrev from_parent : Option Session → (Session → Handler (Unit {0})) → Handler (Unit {0})
  from_parent none f = skip
  from_parent (some p) f = f p

  -- prepare
  unfoldable pub prepare : Message → Option Session → Option Fields → Handler (Unit {0})
  unfolding inject_msg init_ctx inject_local_ctx interpolate_workflow
  prepare msg parent ctx = do
    from_parent parent inherit_parent_data
    inject_msg msg
    init_ctx env msg
    inject_event_ctx ctx
    inject_local_ctx msg
    interpolate_workflow msg
    from_parent parent inherit_settings
    inject_meta
