-- ===== src/Config/Fleet.antt =====
-- The services of a process that take their configuration through the stages together, as
-- internal/service/service.go does at the start, on a reload and when it is drained.
use honeydipper.Common.{
  ℕ, zero, suc, ◌+◌, ◌<◌, ◌≡◌, Bool, true, false, some, List, [], ◌∷◌, ◌++◌, ltb, get_elem?,
}
use honeydipper.Outcome.{Outcome, done, panic, Fault}
use honeydipper.Config.Stages.{
  counts, Work, Stages, Entry, returns, waits, reset_stage, enter, proceed, stage_drained,
}

-- Where a service is: it has reached a stage, or it waits in AdvanceStage for the group of a stage
-- with the mutex that it has seen, or AdvanceStage has panicked; then the number is that of the
-- groups that it has counted down.
pub data Position : Type 0 where
  reached : ℕ → Position
  waiting : ℕ → ℕ → Position
  failed : ℕ → Fault → Position

module _ (D : Type 0) where
  pub record Fleet : Type 0 where
    pub stages : Stages D
    pub services : List Position

-- After the first part of AdvanceStage (suc k).
unfoldable pub entered : ℕ → Outcome Entry → Position
entered k (done returns) = reached (suc k)
entered k (done (waits l)) = waiting l k
entered k (panic e) = failed k e

-- After its second part.
unfoldable pub resumed : ℕ → Outcome (Unit {0}) → Position
resumed k (done u) = reached (suc k)
resumed k (panic e) = failed (suc k) e

module _ {D : Type 0} (copy extend_all_systems parse_regexes : Work D)
    (fns : ℕ → List (Work D)) where
  -- A service calls AdvanceStage for the next stage, or its wait ends since the group is at zero.
  pub data Step : Fleet D → Fleet D → Type 0 where
    calls :
        (before after : List Position) (k : ℕ) (s : Stages D)
        → k < stage_drained
        → Step
            (record { stages = s; services = before ++ (reached k ∷ after) })
            (record {
              stages = (enter (suc k) s).1;
              services = before ++ (entered k (enter (suc k) s).0 ∷ after);
            })
    resumes :
        (before after : List Position) (k l : ℕ) (s : Stages D)
        → get_elem? s.groups k ≡ some (counts 0)
        → Step
            (record { stages = s; services = before ++ (waiting l k ∷ after) })
            (record {
              stages = (proceed copy extend_all_systems parse_regexes l (fns (suc k)) (suc k) s).1;
              services =
                  before
                  ++ (resumed k
                        (proceed copy extend_all_systems parse_regexes l (fns (suc k)) (suc k) s).0
                      ∷ after);
            })

  -- What the fleet becomes.
  pub data Reach (start : Fleet D) : Fleet D → Type 0 where
    here : Reach start start
    there : {f g : Fleet D} → Reach start f → Step f g → Reach start g

-- As many services, none of which has called AdvanceStage.
abbrev pub waiting_to_start : ℕ → List Position
waiting_to_start zero = []
waiting_to_start (suc n) = reached 0 ∷ waiting_to_start n

-- A configuration that has just been reset.
unfoldable pub start_fleet : {D : Type 0} → ℕ → Stages D → Fleet D
start_fleet n s = record { stages = reset_stage n s; services = waiting_to_start n }

-- The groups that a service has counted down are those below this number.
abbrev pub counted : Position → ℕ
counted (reached k) = k
counted (waiting l k) = suc k
counted (failed k e) = k

abbrev pub one_if : Bool → ℕ
one_if true = 1
one_if false = 0

-- The services that have counted down the group of a stage: they have called AdvanceStage for the
-- stage after it.
abbrev pub arrived : ℕ → List Position → ℕ
arrived k [] = 0
arrived k (p ∷ ps) = one_if (ltb k (counted p)) + arrived k ps
