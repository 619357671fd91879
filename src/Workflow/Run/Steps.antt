-- ===== src/Workflow/Run/Steps.antt =====
-- A workflow of steps runs them one after the other.
use honeydipper.Common.{
  ℕ, zero, suc, ◌+◌, true, false, Option, none, some, is_some, List, String, ◌≡◌, ◌∙◌, not,
  if◌then◌else◌, refl, ltb, arith, Option-cases, inl, inr,
}
use honeydipper.Text.{is_empty}
use honeydipper.Value.{Fields, is_null}
use honeydipper.Workflow.Types.{
  Session, Workflow, Workflows, Branches, unset, given, stop, also, Message, Env, State, Child,
  settings, steps_of, threads_of, branch_count, branch_at, count_all, workflow_at,
}
use honeydipper.Workflow.Handler.{Handler, self, ◌>>=◌}
use honeydipper.Workflow.Predicates.{is_loop, is_iteration}
use honeydipper.Workflow.Continue.{route_next}
use honeydipper.Workflow.Continue.Threads.{GoesOn, not_taken, ends}
use honeydipper.Workflow.Complete.{complete}
use honeydipper.Workflow.Exports.{merge_context}
use honeydipper.Workflow.Exports.Context.{Kept, merge_context-Kept}
use honeydipper.Outcome.{done}
use honeydipper.Workflow.Action.{execute_step, step_child}
use honeydipper.Workflow.Wait.{drop_ctx}
use honeydipper.Workflow.Run.{continue_once, continue_after_hook, follow}

-- The session runs steps, and neither threads, items, rounds nor its else branch.
pub record RunsSteps (w : Session) : Type 0 where
  pub no_else : w.taken_else ≡ none
  pub no_threads : branch_count (threads_of w.flow) ≡ 0
  pub no_items : is_iteration (settings w.flow) ≡ false
  pub sequential : is_null (settings w.flow).iterate_parallel ≡ true
  pub no_loop : is_loop (settings w.flow) ≡ false

at-lt : (n : ℕ) (ws : Workflows) → ltb n (count_all ws) ≡ is_some (workflow_at n ws)
at-lt n stop = ground arith
at-lt zero (also w ws) = ground arith
at-lt (suc n) (also w ws) = ground (arith, at-lt n ws)

branch-lt : (n : ℕ) (b : Branches) → ltb n (branch_count b) ≡ is_some (branch_at n b)
branch-lt n unset = ground arith
branch-lt n (given ws) = at-lt n ws

RunsSteps-Kept : (w u : Session) → Kept w u → RunsSteps w → RunsSteps u
RunsSteps-Kept w u k h = record {
  no_else = k.else_branch ∙ h.no_else;
  no_threads = rw k.flow h.no_threads;
  no_items = rw k.flow h.no_items;
  sequential = rw k.flow h.sequential;
  no_loop = rw k.flow h.no_loop;
}

module _ (env : Env) (start : Child → Handler (Unit {0}))
    (start_named detach_named : String → Message → Handler (Unit {0}))
    (again : Message → List Fields → Handler (Unit {0})) where
  -- The timer of a wait is off.
  abbrev pub timer_off : State → State
  timer_off s = record s { self = drop_ctx "_wait_timer" s.self }

  abbrev pub advanced : State → State
  advanced s = record s { self = record s.self { current = s.self.current + 1 } }

  -- The next step as a child, or the end when there is none.
  abbrev pub next_or_end : Option Workflow → Message → Handler (Unit {0})
  next_or_end none msg s = complete env start msg s
  next_or_end (some flow) msg s = start (step_child flow (s.self.current + 1) msg) (advanced s)

  step-at :
      (flow : Workflow) (msg : Message) (s : State)
      → branch_at s.self.current (steps_of s.self.flow) ≡ some flow
      → execute_step env start start_named detach_named again msg s
        ≡ start (step_child flow s.self.current msg) s
  unfolding execute_step
  step-at flow msg s found = rw found refl

  route_or_hook : Message → Handler (Unit {0})
  unfolding continue_after_hook route_next
  route_or_hook msg = do
    w ← self
    if not (is_empty w.current_hook)
        then continue_after_hook env start start_named detach_named again msg
        else do
          route ← route_next env msg
          follow env start start_named detach_named again route msg

  step_or_end :
      (msg : Message) (s : State)
      → RunsSteps s.self
      → is_empty s.self.current_hook ≡ true
      → GoesOn env (settings s.self.flow) msg
      → route_or_hook msg s
        ≡ next_or_end (branch_at (s.self.current + 1) (steps_of s.self.flow)) msg s
  unfolding route_or_hook route_next follow
  step_or_end msg s h e g =
      elim (Option-cases (branch_at (s.self.current + 1) (steps_of s.self.flow))) [
        | inl (flow, found) ↦
            rw
              (
                e,
                g,
                h.sequential,
                not_taken env s.self h.no_else,
                branch-lt (s.self.current + 1) (steps_of s.self.flow),
                found,
                step-at flow msg (advanced s) found,
              )
              refl
        | inr missing ↦
            rw
              (
                e,
                g,
                h.sequential,
                not_taken env s.self h.no_else,
                branch-lt (s.self.current + 1) (steps_of s.self.flow),
                missing,
                h.no_threads,
                ends env msg s.self h.no_items h.no_loop,
              )
              refl
      ]

  -- In a session that runs steps, without threads, items, rounds and else branch, and in whose hooks
  -- none runs: when a step returns with a message that does not end the workflow, and its exports are
  -- merged into the context without a panic, the next step starts with that message in the session as
  -- the merge leaves it; after the last step the session completes.
  pub continue_once-steps :
      (msg : Message) (exports : List Fields) (s u : State)
      → RunsSteps s.self
      → is_empty s.self.current_hook ≡ true
      → GoesOn env (settings s.self.flow) msg
      → merge_context env exports (timer_off s) ≡ (done tt, u)
      → continue_once env start start_named detach_named again msg exports s
        ≡ next_or_end (branch_at (s.self.current + 1) (steps_of s.self.flow)) msg u
  unfolding continue_once route_or_hook
  continue_once-steps msg exports s u h e g m =
      let k = merge_context-Kept env exports (timer_off s) u m in
      let kept : Kept s.self u.self = record {
        flow = k.flow;
        else_branch = k.else_branch;
        hook = k.hook;
        current = k.current;
        iteration = k.iteration;
        iteration_out = k.iteration_out;
      } in
      let goes : GoesOn env (settings u.self.flow) msg = rw kept.flow g in
      let quiet : is_empty u.self.current_hook ≡ true = rw kept.hook e in
      rw m (
        step_or_end msg u (RunsSteps-Kept s.self u.self kept h) quiet goes
        ∙ rw (kept.flow, kept.current) refl)
