-- ===== src/Config/Barrier.antt =====
-- The stages of a configuration as a barrier: the second part of AdvanceStage, and every run of the
-- services.
use honeydipper.Common.{
  ℕ, zero, suc, ◌+◌, ◌<◌, ◌≡◌, refl, sym, ◌∙◌, ap, subst, true, false, Option, none, some, List, [],
  ◌∷◌, ◌++◌, leb, ◌==◌, get_elem?, length, All, Bool-cases, ==_iff, inl, inr, arith,
}
use honeydipper.Outcome.{Outcome, done, panic, Fault, config_rollback}
use honeydipper.Config.Stages.{
  WaitGroup, counts, Work, Stages, new_groups, reset_stage, proceed, run_processors, stage_work,
  then_staged, work_staged, finish_stage, proceed_locked, is_locker,
}
use honeydipper.Config.Fleet.{
  Position, reached, waiting, failed, Fleet, resumed, Step, calls, resumes, Reach, here, there,
  waiting_to_start, start_fleet, arrived,
}
use honeydipper.Config.Arrivals.{not_passed, passed, not_below, All-at, before_last, At, Barrier}
use honeydipper.Config.Entries.{fleet, After, moved, calls-Barrier}

module _ {D : Type 0} where
  -- Work on the data leaves the groups and the stage alone.
  abbrev Keeps : Stages D → Stages D × Option Fault → Type 0
  Keeps s r = (s.groups ≡ (r.0).groups) × (s.stage ≡ (r.0).stage)

  then-Keeps :
      (s : Stages D) (r : Stages D × Option Fault) (f : Stages D → Stages D × Option Fault)
      → Keeps s r
      → ((t : Stages D) → Keeps t (f t))
      → Keeps s (then_staged r f)
  then-Keeps s (t, none) f h k = (h.0 ∙ (k t).0, h.1 ∙ (k t).1)
  then-Keeps s (t, some e) f h k = h

  run_processors-Keeps : (ws : List (Work D)) (s : Stages D) → Keeps s (run_processors ws s)
  unfolding run_processors
  run_processors-Keeps [] s = (refl, refl)
  run_processors-Keeps (w ∷ ws) s =
      then-Keeps s (work_staged w s) (run_processors ws) (refl, refl) (run_processors-Keeps ws)

  stage_work-Keeps :
      (copy extend_all_systems parse_regexes : Work D) (k : ℕ) (s : Stages D)
      → Keeps s (stage_work copy extend_all_systems parse_regexes k s)
  unfolding stage_work
  stage_work-Keeps copy extend_all_systems parse_regexes k s = elim (Bool-cases (k == 1)) [
    | inl e ↦ rw e (refl, refl)
    | inr e ↦ rw e (elim (Bool-cases (k == 2)) [
      | inl e ↦ rw e (refl, refl)
      | inr e ↦ rw e (elim (Bool-cases (k == 3)) [
        | inl e ↦ rw e (
            then-Keeps s (work_staged parse_regexes s)
              (λ t. (record t { data_set = t.staged }, none)) (refl, refl) (λ t. (refl, refl)))
        | inr e ↦ rw e (refl, refl)
      ])
    ])
  ]

module _ {D : Type 0} (n : ℕ) (before after : List Position) where
  module _ (copy extend_all_systems parse_regexes : Work D) (fns : List (Work D)) where
    Onward : ℕ → Outcome (Unit {0}) × Stages D → Type 0
    Onward k r = Barrier n (fleet n before after r.1 (resumed k r.0))

    released :
        (k m : ℕ) (a : ℕ) (gs : List WaitGroup)
        → get_elem? gs k ≡ some (counts 0)
        → get_elem? gs k ≡ some (counts m)
        → m + a ≡ n
        → a ≡ n
    released k zero a gs z g sum = omega (arith, sum)
    released k (suc m) a gs z g sum = cc

    finished-Barrier :
        (k l : ℕ) (s : Stages D) (r : Stages D × Option Fault)
        → Keeps s r
        → s.stage ≡ k
        → arrived k (before ++ (waiting l k ∷ after)) ≡ n
        → Barrier n (fleet n before after s (waiting l k))
        → Onward k (finish_stage copy extend_all_systems parse_regexes (suc k) r)
    unfolding Onward fleet finish_stage resumed
    finished-Barrier k l s (t, none) (gs, st) e all b =
        moved n before after (waiting l k) (reached (suc k)) s (record t { stage = suc k }) refl gs
          (omega (arith, e))
          (λ j h. elim (Bool-cases (j == k)) [
            | inl q ↦
                subst (λ i. arrived i (before ++ (waiting l k ∷ after)) ≡ n)
                  (sym ((==_iff j k).0 q)) all
            | inr q ↦ b.together j (before_last j k s.stage h e q)
          ])
          (omega arith) b
    finished-Barrier k l s (t, some f) (gs, st) e all b =
        moved n before after (waiting l k) (failed (suc k) f) s (record t { locker = none }) refl gs
          (omega (arith, st)) (λ j h. b.together j (omega (arith, h, st))) tt b

    proceed-cancelled :
        (l k : ℕ) (s : Stages D)
        → is_locker l s.locker ≡ false
        → proceed copy extend_all_systems parse_regexes l fns k s ≡ (panic config_rollback, s)
    unfolding proceed proceed_locked
    proceed-cancelled l k s e = rw e refl

    proceed-returns :
        (l k : ℕ) (s : Stages D)
        → is_locker l s.locker ≡ true
        → leb k s.stage ≡ true
        → proceed copy extend_all_systems parse_regexes l fns k s ≡ (done tt, s)
    unfolding proceed proceed_locked
    proceed-returns l k s e h = rw (e, h) refl

    worked : ℕ → Stages D → Stages D × Option Fault
    worked k s =
        then_staged (run_processors fns s) (stage_work copy extend_all_systems parse_regexes k)

    proceed-works :
        (l k : ℕ) (s : Stages D)
        → is_locker l s.locker ≡ true
        → leb k s.stage ≡ false
        → proceed copy extend_all_systems parse_regexes l fns k s
          ≡ finish_stage copy extend_all_systems parse_regexes k (worked k s)
    unfolding proceed proceed_locked worked
    proceed-works l k s e h = rw (e, h) refl

    worked-Keeps : (k : ℕ) (s : Stages D) → Keeps s (worked k s)
    unfolding worked
    worked-Keeps k s =
        then-Keeps s (run_processors fns s) (stage_work copy extend_all_systems parse_regexes k)
          (run_processors-Keeps fns s) (stage_work-Keeps copy extend_all_systems parse_regexes k)

    resumes-Barrier :
        (k l : ℕ) (s : Stages D)
        → get_elem? s.groups k ≡ some (counts 0)
        → Barrier n (fleet n before after s (waiting l k))
        → Onward k (proceed copy extend_all_systems parse_regexes l fns (suc k) s)
    unfolding Onward fleet resumed
    resumes-Barrier k l s z b =
        let at = All-at (At s.stage) (waiting l k) before after b.behind in
        let (m, g, sum) = b.left k at.1 in
        elim (Bool-cases (is_locker l s.locker)) [
          | inr e ↦ subst (Onward k) (sym (proceed-cancelled l (suc k) s e)) (
              moved n before after (waiting l k) (failed (suc k) config_rollback) s s refl refl
                (omega arith) b.together tt b)
          | inl e ↦ elim (Bool-cases (leb (suc k) s.stage)) [
            | inl h ↦ subst (Onward k) (sym (proceed-returns l (suc k) s e h)) (
                moved n before after (waiting l k) (reached (suc k)) s s refl refl (omega arith)
                  b.together (passed k s.stage h) b)
            | inr h ↦ subst (Onward k) (sym (proceed-works l (suc k) s e h)) (
                finished-Barrier k l s (worked (suc k) s) (worked-Keeps (suc k) s)
                  (not_passed k s.stage h at.0)
                  (released k m (arrived k (before ++ (waiting l k ∷ after))) s.groups z g sum) b)
          ]
        ]

module _ {D : Type 0} (copy extend_all_systems parse_regexes : Work D)
    (fns : ℕ → List (Work D)) where
  Step-Barrier :
      (n : ℕ) (f g : Fleet D)
      → Step copy extend_all_systems parse_regexes fns f g
      → Barrier n f
      → Barrier n g
  unfolding fleet After Onward
  Step-Barrier n f g (calls before after k s h) b = calls-Barrier n before after k s h b
  Step-Barrier n f g (resumes before after k l s z) b =
      resumes-Barrier n before after copy extend_all_systems parse_regexes (fns (suc k)) k l s z b

start-length : (n : ℕ) → length (waiting_to_start n) ≡ n
start-length zero = refl
start-length (suc n) = ap suc (start-length n)

start-arrived : (k n : ℕ) → arrived k (waiting_to_start n) ≡ 0
start-arrived k zero = refl
start-arrived k (suc n) = omega (arith, start-arrived k n, not_below k 0 (omega arith))

start-At : (n : ℕ) → All (At 0) (waiting_to_start n)
start-At zero = tt
start-At (suc n) = (omega arith, start-At n)

start-groups : (n k : ℕ) → k < 4 → get_elem? (new_groups n) k ≡ some (counts n)
start-groups n zero h = refl
start-groups n (suc zero) h = refl
start-groups n (suc (suc zero)) h = refl
start-groups n (suc (suc (suc zero))) h = refl
start-groups n (suc (suc (suc (suc k)))) h = absurd (omega (arith, h))

start-Barrier : {D : Type 0} (n : ℕ) (s : Stages D) → Barrier n (start_fleet n s)
unfolding start_fleet reset_stage
start-Barrier n s = record {
  total = start-length n;
  left = λ k h. (n, start-groups n k h, omega (arith, start-arrived k n));
  together = λ k h. absurd (omega (arith, h));
  behind = start-At n;
}

module _ {D : Type 0} (copy extend_all_systems parse_regexes : Work D)
    (fns : ℕ → List (Work D)) where
  -- The stages are a barrier: in every state that services which start together reach, in whatever
  -- order they call AdvanceStage and go on, and whichever work panics: the configuration is beyond
  -- a stage only if every service has called AdvanceStage for the next one, no service is ahead of
  -- the configuration, and the group of a stage counts the services that have not called yet.
  pub Reach-Barrier :
      (n : ℕ) (s : Stages D) (f : Fleet D)
      → Reach copy extend_all_systems parse_regexes fns (start_fleet n s) f
      → Barrier n f
  Reach-Barrier n s f here = start-Barrier n s
  Reach-Barrier n s f (there {f = g} r st) =
      Step-Barrier copy extend_all_systems parse_regexes fns n g f st (Reach-Barrier n s g r)
