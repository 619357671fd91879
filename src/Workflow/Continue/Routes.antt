-- ===== src/Workflow/Continue/Routes.antt =====
-- Where a parallel iteration goes on when an item returns.
use honeydipper.Common.{ap, ℕ, ◌+◌, false, true, none, ◌≡◌, refl, ◌∙◌, arith, ltb, if◌then◌else◌}
use honeydipper.Outcome.{done}
use honeydipper.Text.{is_empty}
use honeydipper.Value.{is_null}
use honeydipper.Workflow.Types.{
  Session, Message, Env, State, settings, steps_of, threads_of, branch_count,
}
use honeydipper.Workflow.Handler.{lift, self, update, pure, Handler, ◌>>=◌, ◌>>◌}
use honeydipper.Workflow.Predicates.{is_loop, is_iteration, len_of_iterate, reflect_len}
use honeydipper.Workflow.Continue.{
  next_thread, more_threads, count_thread, next_step, has_next_step, stops_early, is_taken,
  note_failure, Route, next_parallel_iteration, next_complete, route_next, route_items, keep_first,
}
use honeydipper.Workflow.Continue.Threads.{not_taken}

-- The session iterates over `n` items at once, without a pool, steps, threads, rounds, hook and else
-- branch.
pub record Iterates (n : ℕ) (w : Session) : Type 0 where
  pub no_else : w.taken_else ≡ none
  pub no_hook : is_empty w.current_hook ≡ true
  pub no_steps : branch_count (steps_of w.flow) ≡ 0
  pub no_threads : branch_count (threads_of w.flow) ≡ 0
  pub no_loop : is_loop (settings w.flow) ≡ false
  pub parallel : is_null (settings w.flow).iterate_parallel ≡ false
  pub not_serial : is_null (settings w.flow).iterate ≡ true
  pub no_pool : is_empty (settings w.flow).iterate_pool ≡ true
  pub items : reflect_len (settings w.flow).iterate_parallel ≡ done n

pub same-Iterates :
    (n : ℕ) (w u : Session)
    → u.flow ≡ w.flow
    → u.taken_else ≡ w.taken_else
    → u.current_hook ≡ w.current_hook
    → Iterates n w
    → Iterates n u
same-Iterates n w u f e k h = record {
  no_else = e ∙ h.no_else;
  no_hook = rw k h.no_hook;
  no_steps = rw f h.no_steps;
  no_threads = rw f h.no_threads;
  no_loop = rw f h.no_loop;
  parallel = rw f h.parallel;
  not_serial = rw f h.not_serial;
  no_pool = rw f h.no_pool;
  items = rw f h.items;
}

len-eq : (n : ℕ) (w : Session) → Iterates n w → len_of_iterate (settings w.flow) ≡ done n
unfolding len_of_iterate
len-eq n w h = rw (h.not_serial, h.items) refl

no_lt : (k : ℕ) → ltb k 0 ≡ false
no_lt k = ground arith

is_iteration-true : (n : ℕ) (w : Session) → Iterates n w → is_iteration (settings w.flow) ≡ true
unfolding is_iteration
is_iteration-true n w h = rw (h.not_serial, h.parallel) refl

module _ (env : Env) where
  -- An item has returned: its failure is kept if it is the first one.
  abbrev pub keeping : Message → State → State
  keeping msg s = record s {
    self = record s.self { iteration_out = keep_first env s.self.iteration_out msg };
  }

  pub route_items-more :
      (n : ℕ) (msg : Message) (w : Session)
      → Iterates n w
      → ltb (w.iteration + 1) n ≡ true
      → route_items env msg w ≡ done next_parallel_iteration
  unfolding route_items
  route_items-more n msg w h l =
      rw (route_items, is_iteration-true n w h, len-eq n w h, l, h.not_serial) refl

  pub route_items-last :
      (n : ℕ) (msg : Message) (w : Session)
      → Iterates n w
      → ltb (w.iteration + 1) n ≡ false
      → route_items env msg w ≡ done next_complete
  unfolding route_items
  route_items-last n msg w h l =
      rw (route_items, is_iteration-true n w h, len-eq n w h, l, h.no_loop) refl

  pub keeping-Iterates :
      (n : ℕ) (msg : Message) (s : State) → Iterates n s.self → Iterates n (keeping msg s).self
  keeping-Iterates n msg s h = same-Iterates n s.self (keeping msg s).self refl refl refl h

  -- Neither a step nor a thread: the items decide.
  after_note : Message → Session → Handler Route
  after_note msg w =
      if is_taken env w.taken_else
      then pure next_complete
      else if has_next_step env w
      then pure next_step
      else do
        update (count_thread env)
        u ← self
        if more_threads env w then pure next_thread else lift (route_items env msg u)

  after_note-items :
      (n : ℕ) (msg : Message) (w : Session) (t : State)
      → Iterates n w
      → Iterates n t.self
      → after_note msg w t ≡ (route_items env msg t.self, t)
  unfolding after_note
  after_note-items n msg w t h k =
      rw (not_taken env w h.no_else, h.no_steps, no_lt (w.current + 1), h.no_threads, k.no_threads)
        refl

  note_failure-eq :
      (n : ℕ) (msg : Message) (s : State)
      → Iterates n s.self
      → record s { self = note_failure env msg s.self } ≡ keeping msg s
  note_failure-eq n msg s h = rw h.parallel refl

  goes_on :
      (n : ℕ) (msg : Message) (s : State)
      → Iterates n s.self
      → route_next env msg s
        ≡ after_note msg s.self (record s { self = note_failure env msg s.self })
  unfolding after_note route_next
  goes_on n msg s h =
      let e : stops_early env (settings s.self.flow) msg ≡ false = rw h.parallel refl in rw e refl

  pub route_next-items :
      (n : ℕ) (msg : Message) (s : State)
      → Iterates n s.self
      → route_next env msg s ≡ (route_items env msg (keeping msg s).self, keeping msg s)
  route_next-items n msg s h =
      goes_on n msg s h
      ∙ ap (after_note msg s.self) (note_failure-eq n msg s h)
      ∙ after_note-items n msg s.self (keeping msg s) h (keeping-Iterates n msg s h)
