-- ===== src/Workflow/Continue/Threads.antt =====
-- A workflow of threads waits for all of them.
use honeydipper.Common.{
  ℕ, zero, suc, ◌+◌, true, false, none, List, [], ◌∷◌, ◌≡◌, refl, length, ltb, if◌then◌else◌, All,
  arith, Bool-cases, inl, inr,
}
use honeydipper.Outcome.{done}
use honeydipper.Value.{is_null}
use honeydipper.Workflow.Types.{
  Session, Settings, Message, Env, State, settings, steps_of, threads_of, branch_count,
}
use honeydipper.Workflow.Handler.{Handler, pure, ◌>>=◌}
use honeydipper.Workflow.Predicates.{is_loop, is_iteration}
use honeydipper.Workflow.Continue.{
  Route, next_thread, next_complete, route_next, route_items, stops_early, is_taken,
}

-- The session runs threads, and neither steps, items, rounds nor its else branch.
pub record WaitsForThreads (n : ℕ) (w : Session) : Type 0 where
  pub no_else : w.taken_else ≡ none
  pub no_steps : branch_count (steps_of w.flow) ≡ 0
  pub threads : branch_count (threads_of w.flow) ≡ n
  pub no_items : is_iteration (settings w.flow) ≡ false
  pub sequential : is_null (settings w.flow).iterate_parallel ≡ true
  pub no_loop : is_loop (settings w.flow) ≡ false

module _ (env : Env) where
  -- The routes that a session takes as messages arrive.
  abbrev pub routes : List Message → Handler (List Route)
  unfolding route_next
  routes [] = pure []
  routes (msg ∷ msgs) = do r ← route_next env msg; rs ← routes msgs; pure (r ∷ rs)

  -- The message does not end a session with these settings at once.
  abbrev pub GoesOn : Settings → Message → Type 0
  GoesOn wf msg = stops_early env wf msg ≡ false

  abbrev counted : State → State
  counted s = record s { self = record s.self { current = s.self.current + 1 } }

  abbrev route_after : ℕ → ℕ → Route
  route_after n current = if ltb (current + 1) n then next_thread else next_complete

  no_lt : (k : ℕ) → ltb (k + 1) 0 ≡ false
  no_lt k = ground arith

  lt_suc : (k : ℕ) → ltb 0 (suc k) ≡ true
  lt_suc k = ground arith

  -- Nothing is left to do.
  pub ends :
      (msg : Message) (u : Session)
      → is_iteration (settings u.flow) ≡ false
      → is_loop (settings u.flow) ≡ false
      → route_items env msg u ≡ done next_complete
  unfolding route_items
  ends msg u i l = rw (route_items, i, l) refl

  pub not_taken : (w : Session) → w.taken_else ≡ none → is_taken env w.taken_else ≡ false
  not_taken w e = rw e refl

  last_route : (n c : ℕ) → c + 1 ≡ suc n → route_after (suc n) c ≡ next_complete
  last_route n c e = ground arith

  wait_route : (n c k : ℕ) → c + suc (suc k) ≡ suc n → route_after (suc n) c ≡ next_thread
  wait_route n c k e = ground arith

  one_return :
      (n : ℕ) (msg : Message) (s : State)
      → WaitsForThreads (suc n) s.self
      → GoesOn (settings s.self.flow) msg
      → route_next env msg s ≡ (done (route_after (suc n) s.self.current), counted s)
  unfolding route_next route_items is_iteration
  one_return n msg s h g = elim (Bool-cases (ltb (s.self.current + 1) (suc n))) [
    | inl e ↦
        rw
          (
            g,
            h.sequential,
            not_taken s.self h.no_else,
            h.no_steps,
            h.threads,
            e,
            no_lt,
            h.threads,
            lt_suc n,
          )
          refl
    | inr e ↦
        rw
          (
            g,
            h.sequential,
            not_taken s.self h.no_else,
            h.no_steps,
            h.threads,
            e,
            no_lt,
            h.threads,
            lt_suc n,
            ends msg (counted s).self h.no_items h.no_loop,
          )
          refl
  ]

  abbrev pub waits_then_completes : ℕ → List Route
  waits_then_completes zero = next_complete ∷ []
  waits_then_completes (suc k) = next_thread ∷ waits_then_completes k

  one_more :
      (n : ℕ) (s : State)
      → WaitsForThreads (suc n) s.self
      → WaitsForThreads (suc n) (counted s).self
  one_more n s h = record {
    no_else = h.no_else;
    no_steps = h.no_steps;
    threads = h.threads;
    no_items = h.no_items;
    sequential = h.sequential;
    no_loop = h.no_loop;
  }

  -- In a session that runs threads, without steps, items, rounds and else branch: when the threads
  -- that still run return, in any order and each with a message that does not end
  -- the workflow at once, the session waits at every return but the last one, at which it completes.
  pub routes-threads :
      (n : ℕ) (msg : Message) (msgs : List Message) (s : State)
      → WaitsForThreads (suc n) s.self
      → (s.self.current + suc (length msgs)) ≡ suc n
      → All (GoesOn (settings s.self.flow)) (msg ∷ msgs)
      → (routes (msg ∷ msgs) s).0 ≡ done (waits_then_completes (length msgs))
  unfolding routes
  routes-threads n msg [] s h e (g, gs) =
      rw (one_return n msg s h g, last_route n s.self.current (omega arith)) refl
  routes-threads n msg (next ∷ msgs) s h e (g, gs) =
      rw
        (
          one_return n msg s h g,
          routes-threads n next msgs (counted s) (one_more n s h) (omega arith) gs,
          wait_route n s.self.current (length msgs) (omega arith),
        )
        refl
