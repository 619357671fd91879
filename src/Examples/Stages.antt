-- ===== src/Examples/Stages.antt =====
-- Two services that take a small configuration, a number, to the stage Booting.
use honeydipper.Common.{ℕ, ◌+◌, ◌≡◌, refl, false, none, some, List, [], ◌∷◌, arith}
use honeydipper.Outcome.{panic, config_rollback, nil_pointer}
use honeydipper.Config.Stages.{
  WaitGroup, counts, wait_group_done, wait_group_done_all, is_released, set_elem, Work, Stages,
  reset_stage, enter, run_processors, work_staged, stage_work, finish_stage, proceed_locked,
  proceed,
}
use honeydipper.Config.Fleet.{
  reached, waiting, entered, resumed, calls, resumes, here, there, start_fleet,
}
use honeydipper.Config.Arrivals.{Barrier}
use honeydipper.Config.Barrier.{Reach-Barrier}

program : Unit {0}
unfolding wait_group_done wait_group_done_all set_elem reset_stage enter run_processors work_staged
    stage_work finish_stage proceed_locked proceed entered resumed start_fleet
program = tt

abbrev kept : Work ℕ
kept d = (d, none)

abbrev increment : Work ℕ
increment d = (d + 1, none)

abbrev broken : Work ℕ
broken d = (d, some nil_pointer)

abbrev processors : ℕ → List (Work ℕ)
processors k = increment ∷ []

abbrev loaded : Stages ℕ
loaded = record {
  locker = none;
  fresh = 0;
  stage = 0;
  groups = [];
  staged = 7;
  raw = 0;
  data_set = 0;
}

abbrev with_groups : WaitGroup → Stages ℕ
with_groups g = record loaded {
  locker = some 0;
  fresh = 1;
  groups = g ∷ counts 2 ∷ counts 2 ∷ counts 2 ∷ [];
}

abbrev booted : Stages ℕ
booted = record (with_groups (counts 0)) { stage = 1; staged = 8; raw = 8 }

-- The second service calls first and goes on first.
Reach-Barrier_example :
    Barrier 2 (record { stages = booted; services = waiting 0 0 ∷ reached 1 ∷ [] })
unfolding program
Reach-Barrier_example =
    Reach-Barrier kept kept kept processors 2 loaded
      (record { stages = booted; services = waiting 0 0 ∷ reached 1 ∷ [] })
      (there
        (there (there here (calls (reached 0 ∷ []) [] 0 (with_groups (counts 2)) (omega arith)))
          (calls [] (waiting 0 0 ∷ []) 0 (with_groups (counts 1)) (omega arith)))
        (resumes (waiting 0 0 ∷ []) [] 0 0 (with_groups (counts 0)) refl))

-- A service that waits while the configuration is reset is cancelled.
cancelled_by_reset :
    (proceed kept kept kept 0 [] 1 (reset_stage 2 (with_groups (counts 1)))).0
    ≡ panic config_rollback
unfolding program
cancelled_by_reset = refl

-- A service that calls AdvanceStage after the work of another one has panicked.
after_a_failure :
    (enter 1 (proceed kept kept kept 0 (broken ∷ []) 1 (with_groups (counts 0))).1).0
    ≡ panic nil_pointer
unfolding program
after_a_failure = refl

-- A wait that begins after the group has been let go.
late_wait : is_released (wait_group_done_all (counts 2)) ≡ false
unfolding program
late_wait = refl

-- A service that skips a stage.
skipped : (enter 2 (with_groups (counts 2))).0 ≡ panic config_rollback
unfolding program
skipped = refl
