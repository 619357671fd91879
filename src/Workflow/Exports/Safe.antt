-- ===== src/Workflow/Exports/Safe.antt =====
-- processExport never panics, and touches the context and the exports of the session alone.
use honeydipper.Common.{Option, none, some, str_eq, ◌≡◌, refl, ◌∙◌, Bool-cases, inl, inr, ◌⊎◌}
use honeydipper.Outcome.{Outcome-cases, Outcome, done, panic}
use honeydipper.Value.{Fields, obj}
use honeydipper.Workflow.Types.{
  Session, Function, Workflow, Message, Env, State, status, build_env_data, or_end, settings,
}
use honeydipper.Workflow.Handler.{Handler, skip, recovered, ◌>>=◌, proceed}
use honeydipper.Workflow.Exports.{
  export_unless, run_exports, give_up, assert_map, process_export, take_export,
  post_workflow_export, export_in_fly, function_export, always_export, status_export,
}

-- What no export changes.
pub record Same (s s' : State) : Type 0 where
  pub store : s'.store ≡ s.store
  pub id : s'.self.id ≡ s.self.id
  pub hook : s'.self.current_hook ≡ s.self.current_hook
  pub parent : s'.self.parent ≡ s.self.parent
  pub watched : s'.self.watched ≡ s.self.watched
  pub event_id : s'.self.event_id ≡ s.self.event_id

pub Same-refl : (s : State) → Same s s
Same-refl s = record {
  store = refl;
  id = refl;
  hook = refl;
  parent = refl;
  watched = refl;
  event_id = refl;
}

pub Same-trans : (s t u : State) → Same s t → Same t u → Same s u
Same-trans s t u h k = record {
  store = k.store ∙ h.store;
  id = k.id ∙ h.id;
  hook = k.hook ∙ h.hook;
  parent = k.parent ∙ h.parent;
  watched = k.watched ∙ h.watched;
  event_id = k.event_id ∙ h.event_id;
}

-- The rest of a block, which keeps what its first part has kept.
Same-proceed :
    {A B : Type 0} (r : Outcome A) (f : A → Handler B) (s t : State)
    → Same s t
    → ((a : A) → Same t (f a t).1)
    → Same s (proceed r f t).1
Same-proceed (done a) f s t h k = Same-trans s t (f a t).1 h (k a)
Same-proceed (panic e) f s t h k = h

module _ (env : Env) where
  Same-take_export : (export : Fields) (s : State) → Same s (take_export env export s).1
  unfolding take_export
  Same-take_export export s = elim (Outcome-cases (env.merge_map s.self.ctx (obj export))) [
    | inl (ctx, e) ↦ rw e (record {
      store = refl;
      id = refl;
      hook = refl;
      parent = refl;
      watched = refl;
      event_id = refl;
    })
    | inr (e, h) ↦ rw h (Same-refl s)
  ]

  Same-post : (m d : Fields) (s : State) → Same s (post_workflow_export env m d s).1
  unfolding post_workflow_export
  Same-post m d s = Same-proceed (env.interpolate (obj m) d) _ s s (Same-refl s) (λ value.
      Same-proceed (assert_map env value) _ s s (Same-refl s) (λ delta.
        Same-proceed (take_export env delta s).0 _ s (take_export env delta s).1
          (Same-take_export delta s) (λ u. Same-refl (take_export env delta s).1)))

  Same-in_fly : (o : Option Function) (d : Fields) (s : State) → Same s (export_in_fly env o d s).1
  Same-in_fly none d s = Same-refl s
  Same-in_fly (some f) d s = Same-proceed (env.export_function f d) _ s s (Same-refl s) (λ x.
      Same-proceed (take_export env (or_end x.0) s).0 _ s (take_export env (or_end x.0) s).1
        (Same-take_export (or_end x.0) s) (λ u. Same-refl (take_export env (or_end x.0) s).1))

  Same-function :
      (msg : Message) (w : Session) (d : Fields) (s : State)
      → Same s (function_export env msg w d s).1
  Same-function msg w d s = elim (Bool-cases (str_eq (status msg) "error")) [
    | inl e ↦ rw e (Same-refl s)
    | inr e ↦ rw e (Same-in_fly w.in_fly d s)
  ]

  Same-last :
      (m d : Fields) (s : State) → Same s ((do last ← post_workflow_export env m d; skip) s).1
  Same-last m d s =
      Same-proceed (post_workflow_export env m d s).0 _ s (post_workflow_export env m d s).1
        (Same-post m d s) (λ x. Same-refl (post_workflow_export env m d s).1)

  Same-status :
      (msg : Message) (w : Session) (d : Fields) (s : State)
      → Same s (status_export env msg w d s).1
  Same-status msg w d s = elim (Bool-cases (str_eq (status msg) "success")) [
    | inl e ↦ rw e (Same-last (settings w.flow).export_on_success d s)
    | inr e ↦ elim (Bool-cases (str_eq (status msg) "failure")) [
      | inl f ↦ rw (e, f) (Same-last (settings w.flow).export_on_failure d s)
      | inr f ↦ rw (e, f) (Same-refl s)
    ]
  ]

  Same-exports : (msg : Message) (w : Session) (s : State) → Same s (run_exports env msg w s).1
  unfolding run_exports
  Same-exports msg w s =
      let d = build_env_data w msg in
      let s1 = (function_export env msg w d s).1 in
      Same-proceed (function_export env msg w d s).0 _ s s1 (Same-function msg w d s) (λ d1.
        let s2 = (always_export env msg w d1 s1).1 in
        Same-proceed (always_export env msg w d1 s1).0 _ s1 s2 (Same-post _ d1 s1) (λ d2.
          let s3 = (status_export env msg w d2 s2).1 in
          Same-proceed (status_export env msg w d2 s2).0 _ s2 s3 (Same-status msg w d2 s2)
            (λ u. Same-refl s3)))

  -- A message that is returned has the status of the one that came in, or is an error.
  abbrev pub Reports : Message → Outcome Message → Type 0
  Reports msg r =
      (msg' : Message) × (r ≡ done msg') × ((status msg' ≡ status msg) ⊎ (status msg' ≡ "error"))

  Same-recover :
      (msg : Message) (r : Outcome Message) (s t : State)
      → Same s t
      → Same s (recovered r (give_up env msg) t).1
  Same-recover msg (done m) s t h = h
  Same-recover msg (panic e) s t h = record {
    store = h.store;
    id = h.id;
    hook = h.hook;
    parent = h.parent;
    watched = h.watched;
    event_id = h.event_id;
  }

  Same-unless :
      (o : Option Workflow) (msg : Message) (s : State) → Same s (export_unless env o msg s).1
  Same-unless (some flow) msg s = Same-refl s
  Same-unless none msg s =
      Same-recover msg (run_exports env msg s.self s).0 s (run_exports env msg s.self s).1
        (Same-exports msg s.self s)

  pub process_export-Same : (msg : Message) (s : State) → Same s (process_export env msg s).1
  unfolding process_export
  process_export-Same msg s = Same-unless s.self.taken_else msg s
