-- ===== src/Workflow/Children.antt =====
-- internal/workflow: child sessions. A session creates children that run at once, and continues in
-- the same call when it has nothing to do, both without bound; running it takes fuel, one unit for
-- each nested call.
use honeydipper.Common.{
  ℕ, zero, suc, none, some, List, [], ◌∷◌, ◌++◌, String, if◌then◌else◌, length,
}
use honeydipper.Outcome.{out_of_fuel, workflow_error}
use honeydipper.Text.{is_empty}
use honeydipper.Value.{Fields, end, field}
use honeydipper.Workflow.Types.{
  Session, Workflow, workflow, Message, Env, Child, Store, State, run_detached,
}
use honeydipper.Workflow.Handler.{Handler, self, update, perform, skip, raise, when, ◌>>=◌, ◌>>◌}
use honeydipper.Workflow.Predicates.{set_performing}
use honeydipper.Workflow.Execute.{execute, set_ctx}
use honeydipper.Workflow.Session.{new_session}
use honeydipper.Workflow.Prepare.{prepare}
use honeydipper.Workflow.Hooks.{plain_child}
use honeydipper.Workflow.Action.{execute_action}
use honeydipper.Workflow.Wait.{drop_ctx}
use honeydipper.Workflow.Run.{continue_once}

-- The child as the session at the next address.
abbrev pub child_of : Session → Store → Workflow → Session
unfolding new_session
child_of parent t flow = new_session (length t.heap) parent.id parent.event_id flow

abbrev pub set_at : ℕ → Session → List Session → List Session
set_at i w [] = []
set_at zero w (u ∷ us) = w ∷ us
set_at (suc i) w (u ∷ us) = u ∷ set_at i w us

-- A session is written back when it stops running.
abbrev pub write_back : Session → Store → Store
write_back w t = record t { heap = set_at w.address w t.heap }

abbrev entered : Session → Store → State
entered c t = record { self = c; store = record t { heap = t.heap ++ c ∷ [] } }

-- The parent performs what its child does.
abbrev pub left : Session → String → State → State
unfolding set_performing
left parent performing s = record {
  self = set_performing performing parent;
  store = write_back s.self s.store;
}

abbrev as_child : Workflow → Handler (Unit {0}) → Handler (Unit {0})
as_child flow m s =
    let c = child_of s.self s.store flow in
    let (r, s') = m (entered c s.store) in (r, left s.self c.performing s')

abbrev add_extra : Fields → Handler (Unit {0})
add_extra end = skip
add_extra (field key value fs) = do set_ctx key value; add_extra fs

-- The workflow of a name; one without a name of its own gets this one.
abbrev name_it : String → Workflow → Workflow
name_it name (workflow s steps threads) =
    workflow (record s { name = if is_empty s.name then name else s.name }) steps threads

module _ (env : Env) where
  abbrev with_named : String → (Workflow → Handler (Unit {0})) → Handler (Unit {0})
  with_named name f = elim (env.named_workflow name) [
    | none ↦ raise workflow_error
    | some flow ↦ f (name_it name flow)
  ]

  abbrev prepared : Child → Session → Handler (Unit {0})
  unfolding prepare
  prepared c parent = do
    prepare env c.child_msg (some parent) none
    add_extra c.extra
    when c.drops_token (update (drop_ctx "resume_token"))

  -- A detached child has no parent and no resume token, and runs in a goroutine.
  unfoldable pub detach_child : Workflow → Message → Handler (Unit {0})
  unfolding prepare
  detach_child flow msg s =
      as_child flow
        (do
          prepare env msg (some s.self) none
          update (λ c. drop_ctx "resume_token" (record c { parent = "" }))
          c ← self
          perform (run_detached c.address msg))
        s

  -- createChildSessionWithName, and execute; or what detaches the child.
  unfoldable pub start_named : (Child → Handler (Unit {0})) → String → Message → Handler (Unit {0})
  start_named start name msg = with_named name (λ flow. start (plain_child flow msg))

  unfoldable pub detach_named : String → Message → Handler (Unit {0})
  unfolding detach_child
  detach_named name msg = with_named name (λ flow. detach_child flow msg)

  unfoldable mutual
    unfolding prepare execute execute_action continue_once start_named detach_named

    -- createChildSession and execute
    pub run_child : ℕ → Child → Handler (Unit {0})
    run_child zero c s = raise out_of_fuel s
    run_child (suc f) c s =
        as_child c.child_flow (do prepared c s.self; execute_session f c.child_msg) s

    pub execute_session : ℕ → Message → Handler (Unit {0})
    execute_session zero msg s = raise out_of_fuel s
    execute_session (suc f) msg s =
        execute env (run_child f) (continue_exec f)
          (execute_action env (run_child f) (start_named (run_child f)) detach_named
            (continue_exec f))
          msg s

    -- continueExec
    pub continue_exec : ℕ → Message → List Fields → Handler (Unit {0})
    continue_exec zero msg exports s = raise out_of_fuel s
    continue_exec (suc f) msg exports s =
        continue_once env (run_child f) (start_named (run_child f)) detach_named (continue_exec f)
          msg exports s
