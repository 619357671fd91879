-- ===== src/Workflow/Complete/Leaves.antt =====
-- A session that completes leaves the store and hands its result over once.
use honeydipper.Common.{
  subst, Bool, true, false, not, Option, none, some, List, [], ◌∷◌, ◌++◌, String, if◌then◌else◌,
  ◌≡◌, refl, ◌∙◌, append-nil, Bool-cases, Option-cases, inl, inr, eq_refl,
}
use honeydipper.Common.Assoc.{lookup-delete}
use honeydipper.Outcome.{Outcome, done}
use honeydipper.Text.{is_empty}
use honeydipper.Value.{Value, get}
use honeydipper.Dipper.IdMap.{id_map_get, id_map_del}
use honeydipper.Workflow.Types.{
  Session, Message, Env, Child, Store, State, Effect, continue_session, emit_result, cancel, or_end,
}
use honeydipper.Workflow.Handler.{Handler, seq-done, rescue-done, perform, when, skip, ◌>>◌}
use honeydipper.Workflow.Hooks.{fire_hook, hook_block}
use honeydipper.Workflow.Exports.{process_export}
use honeydipper.Workflow.Exports.Safe.{Same, process_export-Same}
use honeydipper.Workflow.Complete.{
  complete, final_message, fire_complete_hooks, status_hook, result_of, is_live, leave, hand_over,
  retire, wind_up, finish, hooks_and_leave, unless_exported, last_hooks, clear_other_hook,
  conditional_hook, exit_hook,
}

-- What a session hands over: to its parent, or, if its context has an `_output`, to the outside.
abbrev pub output_result : Option Value → Session → Message → List Effect
output_result none w msg = []
output_result (some output) w msg = emit_result w.event_id (result_of msg output) ∷ []

abbrev pub handed : Session → Message → List Effect
handed w msg =
    if not (is_empty w.parent)
    then continue_session w.parent msg w.exported ∷ []
    else output_result (get "_output" (or_end w.ctx)) w msg

abbrev pub woken : Session → List Effect
woken w = if w.watched then cancel ∷ [] else []

-- The session has no ID any more, the store has none under the old one, and the effects are these.
pub record Left (s : State) (w : Session) (msg : Message) (s' : State) : Type 0 where
  pub no_id : s'.self.id ≡ ""
  pub no_entry : id_map_get s.self.id s'.store.sessions ≡ none
  pub effects : s'.store.effects ≡ s.store.effects ++ handed w msg ++ woken w

module _ (env : Env) (start : Child → Handler (Unit {0})) where
  -- The hook is not given.
  abbrev pub NoHook : String → Session → Type 0
  NoHook name w = hook_block start name w ≡ none

  fire_hook-absent :
      (name : String) (msg : Message) (s : State)
      → is_empty s.self.current_hook ≡ true
      → NoHook name s.self
      → fire_hook start name msg s ≡ (done tt, s)
  unfolding fire_hook
  fire_hook-absent name msg s h e = rw (h, e) refl

  not_other :
      (msg : Message) (s : State)
      → is_empty s.self.current_hook ≡ true
      → clear_other_hook env start msg s ≡ (done tt, s)
  not_other msg s h = rw h refl

  conditional-fires :
      (msg : Message) (s : State)
      → is_empty s.self.current_hook ≡ true
      → conditional_hook env start msg s ≡ fire_hook start (status_hook msg) msg s
  conditional-fires msg s h = rw h refl

  exit-fires :
      (msg : Message) (s : State)
      → is_empty s.self.current_hook ≡ true
      → exit_hook env start msg s ≡ fire_hook start "on_exit" msg s
  exit-fires msg s h = rw h refl

  no_complete_hooks :
      (msg : Message) (s : State)
      → is_empty s.self.current_hook ≡ true
      → NoHook (status_hook msg) s.self
      → NoHook "on_exit" s.self
      → fire_complete_hooks env start msg s ≡ (done tt, s)
  unfolding fire_complete_hooks
  no_complete_hooks msg s h e x =
      rescue-done (clear_other_hook env start msg >> last_hooks env start msg) (λ f. skip) s s tt
        (seq-done (clear_other_hook env start msg) (λ u. last_hooks env start msg) s s tt
            (not_other msg s h)
          ∙ seq-done (conditional_hook env start msg) (λ u. exit_hook env start msg) s s tt
              (conditional-fires msg s h ∙ fire_hook-absent (status_hook msg) msg s h e)
          ∙ exit-fires msg s h
          ∙ fire_hook-absent "on_exit" msg s h x)

  emitted : List Effect → State → State
  emitted es s = record s { store = record s.store { effects = s.store.effects ++ es } }

  hand_over-eq :
      (msg : Message) (s : State)
      → hand_over env start msg s ≡ (done tt, emitted (handed s.self msg) s)
  unfolding emitted
  hand_over-eq msg s = elim (Bool-cases (is_empty s.self.parent)) [
    | inr e ↦ rw e refl
    | inl e ↦ elim (Option-cases (get "_output" (or_end s.self.ctx))) [
      | inl (output, f) ↦ rw (e, f) refl
      | inr f ↦ rw (e, f, append-nil) refl
    ]
  ]

  wakes :
      (b : Bool) (s : State)
      → when b (perform cancel) s ≡ (done tt, emitted (if b then cancel ∷ [] else []) s)
  unfolding emitted
  wakes true s = refl
  wakes false s = rw append-nil refl

  nameless : State → State
  nameless s = record s { self = record s.self { id = "" } }

  retire-eq : (s : State) → retire env start s ≡ (done tt, emitted (woken s.self) (nameless s))
  unfolding nameless
  retire-eq s = wakes s.self.watched (nameless s)

  removed : State → State
  removed s = record s {
    store = record s.store { sessions = id_map_del s.self.id s.store.sessions };
  }

  leave-eq :
      (msg : Message) (s : State)
      → leave env start msg s
        ≡ (done tt, emitted (woken s.self) (nameless (emitted (handed s.self msg) (removed s))))
  unfolding removed emitted
  leave-eq msg s =
      seq-done (hand_over env start msg) (λ u. retire env start) (removed s)
        (emitted (handed s.self msg) (removed s)) tt (hand_over-eq msg (removed s))
      ∙ retire-eq (emitted (handed s.self msg) (removed s))

  leave-Left : (msg : Message) (s : State) → Left s s.self msg (leave env start msg s).1
  unfolding emitted nameless removed id_map_del id_map_get
  leave-Left msg s = record {
    no_id = rw (leave-eq msg s) refl;
    no_entry = rw (leave-eq msg s) (rw (lookup-delete, eq_refl) refl);
    effects = rw (leave-eq msg s) refl;
  }

  Left-same :
      (s t : State) (w : Session) (msg : Message) (u : State)
      → t.self.id ≡ s.self.id
      → t.store ≡ s.store
      → Left t w msg u
      → Left s w msg u
  Left-same s t w msg u i st k = record {
    no_id = k.no_id;
    no_entry = subst (λ j. id_map_get j u.store.sessions ≡ none) i k.no_entry;
    effects =
        subst (λ (v : Store). u.store.effects ≡ v.effects ++ handed w msg ++ woken w) st k.effects;
  }

  abbrev pub noted : Message → State → State
  noted msg s = record s { self = record s.self { saved_msg = some msg } }

  finishes :
      (msg : Message) (s : State)
      → is_empty s.self.current_hook ≡ true
      → finish env start msg s ≡ leave env start msg s
  finishes msg s h = rw h refl

  exports :
      (msg : Message) (s : State)
      → is_empty s.self.current_hook ≡ true
      → unless_exported env start msg s ≡ process_export env msg s
  exports msg s h = rw h refl

  winds_up :
      (msg msg' : Message) (s s2 : State)
      → is_empty s.self.current_hook ≡ true
      → process_export env msg s ≡ (done msg', s2)
      → is_empty s2.self.current_hook ≡ true
      → NoHook (status_hook msg') s2.self
      → NoHook "on_exit" s2.self
      → wind_up env start msg s ≡ leave env start msg' s2
  winds_up msg msg' s s2 h e h2 n x =
      seq-done (unless_exported env start msg) (λ m. hooks_and_leave env start m) s s2 msg'
        (exports msg s h ∙ e)
      ∙ seq-done (fire_complete_hooks env start msg') (λ u. finish env start msg') s2 s2 tt
          (no_complete_hooks msg' s2 h2 n x)
      ∙ finishes msg' s2 h2

  completes :
      (msg : Message) (s : State)
      → is_live env start s ≡ true
      → complete env start msg s
        ≡ wind_up env start (final_message s.self msg) (noted (final_message s.self msg) s)
  unfolding complete
  completes msg s h = rw h refl

  -- A session that is in the store and in whose hooks none runs leaves it when it completes, if no
  -- hook is given for how it ends: it has no ID any more, the store has no entry under its ID, and
  -- what it hands over is one message to its parent, or without a parent its output, if it has one,
  -- and then one signal to its watchers, if it has any.
  pub complete-Left :
      (msg msg' : Message) (s s2 : State)
      → is_live env start s ≡ true
      → is_empty s.self.current_hook ≡ true
      → process_export env (final_message s.self msg) (noted (final_message s.self msg) s)
        ≡ (done msg', s2)
      → NoHook (status_hook msg') s2.self
      → NoHook "on_exit" s2.self
      → Left s s2.self msg' (complete env start msg s).1
  complete-Left msg msg' s s2 l h e n x =
      let last = final_message s.self msg in
      let same =
        subst (λ (r : Outcome Message × State). Same (noted last s) r.1) e
          (process_export-Same env last (noted last s)) in
      Left-same s s2 s2.self msg' (complete env start msg s).1 same.id same.store (
        rw (completes msg s l, winds_up last msg' (noted last s) s2 h e (rw same.hook h) n x)
          (leave-Left msg' s2))
