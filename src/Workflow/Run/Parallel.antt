-- ===== src/Workflow/Run/Parallel.antt =====
-- A parallel iteration as its items return: it goes on whatever they return, and tells the first
-- failure in the end.
use honeydipper.Common.{ℕ, ◌+◌, List, [], ◌∷◌, String, ◌≡◌, length}
use honeydipper.Value.{Fields}
use honeydipper.Workflow.Types.{Message, Env, State, Child}
use honeydipper.Workflow.Handler.{Handler, skip, ◌>>◌}
use honeydipper.Workflow.Continue.Failures.{first_of}
use honeydipper.Workflow.Wait.{drop_ctx}
use honeydipper.Workflow.Run.{continue_once}
use honeydipper.Workflow.Continue.Routes.{Iterates}

module _ (env : Env) (start : Child → Handler (Unit {0}))
    (start_named detach_named : String → Message → Handler (Unit {0}))
    (again : Message → List Fields → Handler (Unit {0})) where
  abbrev untimed : State → State
  untimed s = record s { self = drop_ctx "_wait_timer" s.self }

  abbrev pub counted : State → State
  counted s = record s { self = record s.self { iteration = s.self.iteration + 1 } }

  -- What an item returns, with its exports.
  abbrev pub messages : List (Message × List Fields) → List Message
  messages [] = []
  messages ((msg, exports) ∷ rs) = msg ∷ messages rs

  -- All items but the last return, one after the other.
  unfoldable pub all_return : List (Message × List Fields) → Handler (Unit {0})
  unfolding continue_once
  all_return [] = skip
  all_return ((msg, exports) ∷ rs) =
      continue_once env start start_named detach_named again msg exports >> all_return rs

  -- The state when they have.
  record Waiting (n : ℕ) (rs : List (Message × List Fields)) (s t : State) : Type 0 where
    iterates : Iterates n t.self
    count : t.self.iteration ≡ s.self.iteration + length rs
    out : t.self.iteration_out ≡ first_of env s.self.iteration_out (messages rs)
