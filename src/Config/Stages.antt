-- ===== src/Config/Stages.antt =====
-- internal/config/config.go: the stages of a configuration that is being loaded, which every service
-- passes at the same time, with the wait groups of pkg/dipper/sync.go. What happens between the
-- lock and the unlock is one step.
use honeydipper.Common.{
  ℕ, zero, suc, ◌+◌, Bool, true, false, Option, none, some, List, [], ◌∷◌, if◌then◌else◌, ltb, leb,
  ◌==◌, get_elem?,
}
use honeydipper.Outcome.{
  Outcome, done, panic, Fault, config_rollback, index_out_of_range, nil_pointer,
}

-- StageLoading is 0.
abbrev pub stage_booting : ℕ
stage_booting = 1

abbrev pub stage_discovering : ℕ
stage_discovering = 2

abbrev pub stage_serving : ℕ
stage_serving = 3

abbrev pub stage_drained : ℕ
stage_drained = 4

-- The counter of a sync.WaitGroup. A Done at zero panics and leaves it below zero, for ever.
pub data WaitGroup : Type 0 where
  counts : ℕ → WaitGroup
  negative : WaitGroup

-- WaitGroupDone
unfoldable pub wait_group_done : WaitGroup → Bool × WaitGroup
wait_group_done (counts (suc n)) = (true, counts n)
wait_group_done (counts zero) = (false, negative)
wait_group_done negative = (false, negative)

-- WaitGroupDoneAll: until it panics, by the number of Dones that are left.
unfoldable pub wait_group_done_all : WaitGroup → WaitGroup
wait_group_done_all (counts (suc n)) = wait_group_done_all (counts n)
wait_group_done_all (counts zero) = negative
wait_group_done_all negative = negative

-- wg.Wait() returns at once.
abbrev pub is_released : WaitGroup → Bool
is_released (counts zero) = true
is_released (counts (suc n)) = false
is_released negative = false

unfoldable pub set_elem {ℓ} : {A : Type ℓ} → ℕ → A → List A → List A
set_elem i x [] = []
set_elem zero x (y ∷ ys) = x ∷ ys
set_elem (suc i) x (y ∷ ys) = y ∷ set_elem i x ys

-- A processor or a step that works on a data set in place: what it has done, and its panic.
abbrev pub Work : Type 0 → Type 0
Work D = D → D × Option Fault

-- Where AdvanceStage goes on after its first test: it returns, or it waits for the group of the
-- stage that the configuration is in, with the mutex that it has seen.
pub data Entry : Type 0 where
  returns : Entry
  waits : ℕ → Entry

module _ (D : Type 0) where
  -- The fields of Config that the stages are about. A mutex has a number, a nil one is none; the
  -- numbers from `fresh` on are not used yet.
  pub record Stages : Type 0 where
    pub locker : Option ℕ
    pub fresh : ℕ
    pub stage : ℕ
    pub groups : List WaitGroup
    pub staged : D
    pub raw : D
    pub data_set : D

-- The groups before a reset, whose waiters are let go, and those after it.
abbrev pub new_groups : ℕ → List WaitGroup
new_groups services = counts services ∷ counts services ∷ counts services ∷ counts services ∷ []

-- locker == c.Locker
abbrev pub is_locker : ℕ → Option ℕ → Bool
is_locker l none = false
is_locker l (some m) = l == m

module _ {D : Type 0} where
  -- ResetStage
  unfoldable pub reset_stage : ℕ → Stages D → Stages D
  reset_stage services s = record s {
    locker = some s.fresh;
    fresh = s.fresh + 1;
    stage = 0;
    groups = new_groups services;
  }

  -- WaitGroupDone on the group of the stage that the configuration is in.
  count_down : ℕ → Stages D → Bool × WaitGroup → Outcome Entry × Stages D
  count_down l s (true, g) = (done (waits l), record s { groups = set_elem s.stage g s.groups })
  count_down l s (false, g) =
      (panic config_rollback, record s { groups = set_elem s.stage g s.groups })

  enter_group : ℕ → ℕ → Stages D → Option WaitGroup → Outcome Entry × Stages D
  enter_group l stage s none = (panic index_out_of_range, s)
  enter_group l stage s (some g) =
      if leb stage s.stage
      then (done returns, s)
      else if ltb (s.stage + 1) stage
      then (panic config_rollback, s)
      else count_down l s (wait_group_done g)

  enter_locked : ℕ → Stages D → Option ℕ → Outcome Entry × Stages D
  enter_locked stage s none = (panic nil_pointer, s)
  enter_locked stage s (some l) = enter_group l stage s (get_elem? s.groups s.stage)

  -- AdvanceStage up to the unlock before the wait.
  unfoldable pub enter : ℕ → Stages D → Outcome Entry × Stages D
  unfolding enter_locked enter_group count_down
  enter stage s = enter_locked stage s s.locker

  -- The processors on the staged data, one after the other until one panics.
  abbrev pub then_staged :
      Stages D × Option Fault → (Stages D → Stages D × Option Fault) → Stages D × Option Fault
  then_staged (s, none) f = f s
  then_staged (s, some e) f = (s, some e)

  unfoldable pub work_staged : Work D → Stages D → Stages D × Option Fault
  work_staged w s = let (d, e) = w s.staged in (record s { staged = d }, e)

  unfoldable pub run_processors : List (Work D) → Stages D → Stages D × Option Fault
  unfolding work_staged
  run_processors [] s = (s, none)
  run_processors (w ∷ ws) s = then_staged (work_staged w s) (run_processors ws)

  -- The copying of a data set into an empty one, the merging of systems with those that they
  -- extend, and the parsing of regular expressions.
  module _ (copy extend_all_systems parse_regexes : Work D) where
    copy_raw : Stages D → Stages D × Option Fault
    copy_raw s = let (d, e) = copy s.staged in (record s { raw = d }, e)

    -- The switch of AdvanceStage.
    unfoldable pub stage_work : ℕ → Stages D → Stages D × Option Fault
    unfolding copy_raw work_staged
    stage_work stage s =
        if stage == stage_booting
        then copy_raw s
        else if stage == stage_discovering
        then work_staged extend_all_systems s
        else if stage == stage_serving
        then then_staged (work_staged parse_regexes s)
            (λ t. (record t { data_set = t.staged }, none))
        else (s, none)

    -- After the processing, or the deferred function after a panic.
    unfoldable pub finish_stage : ℕ → Stages D × Option Fault → Outcome (Unit {0}) × Stages D
    finish_stage stage (s, none) = (done tt, record s { stage = stage })
    finish_stage stage (s, some e) = (panic e, record s { locker = none })

    unfoldable pub proceed_locked :
        Bool → List (Work D) → ℕ → Stages D → Outcome (Unit {0}) × Stages D
    proceed_locked false fns stage s = (panic config_rollback, s)
    proceed_locked true fns stage s =
        if leb stage s.stage
        then (done tt, s)
        else finish_stage stage (then_staged (run_processors fns s) (stage_work stage))

    -- AdvanceStage from the lock after the wait, with the mutex that it had seen.
    unfoldable pub proceed : ℕ → List (Work D) → ℕ → Stages D → Outcome (Unit {0}) × Stages D
    unfolding proceed_locked finish_stage
    proceed l fns stage s = proceed_locked (is_locker l s.locker) fns stage s
