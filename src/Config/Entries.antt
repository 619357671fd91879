-- ===== src/Config/Entries.antt =====
-- The first part of AdvanceStage keeps what the states of the services have in common.
use honeydipper.Common.{
  ℕ, zero, suc, ◌+◌, ◌≤◌, ◌<◌, ◌≡◌, refl, sym, ◌∙◌, ap, subst, none, some, List, ◌∷◌, ◌++◌, ltb,
  ◌==◌, get_elem?, Bool-cases, ltb→lt, ==_iff, Option-cases, inl, inr, arith,
}
use honeydipper.Outcome.{Outcome, done, panic, nil_pointer}
use honeydipper.Config.Stages.{counts, wait_group_done, set_elem, Stages, Entry, waits, enter}
use honeydipper.Config.Fleet.{Position, reached, waiting, failed, Fleet, entered, counted, arrived}
use honeydipper.Config.Arrivals.{
  arrives_nowhere_else, at_other, At-later, apart, All-swap, All-at, arrives, not_less, at_same,
  same_count, next_is_next, next_is_later, same_length, missing, At, Barrier,
}

module _ {D : Type 0} where
  enter-none : (stage : ℕ) (s : Stages D) → s.locker ≡ none → enter stage s ≡ (panic nil_pointer, s)
  unfolding enter
  enter-none stage s h = rw h refl

  enter-waits :
      (k l m : ℕ) (s : Stages D)
      → s.locker ≡ some l
      → k ≡ s.stage
      → get_elem? s.groups k ≡ some (counts (suc m))
      → enter (suc k) s ≡ (done (waits l), record s { groups = set_elem k (counts m) s.groups })
  unfolding enter wait_group_done
  enter-waits k l m s h e g =
      rw
        (
          h,
          ap (get_elem? s.groups) (sym e) ∙ g,
          next_is_later k s.stage e,
          next_is_next k s.stage e,
        )
        (ap
          (λ i.
            (done (waits l), record s { locker = some l; groups = set_elem i (counts m) s.groups }))
          (sym e))

module _ {D : Type 0} (n : ℕ) (before after : List Position) where
  unfoldable pub fleet : Stages D → Position → Fleet D
  fleet s p = record { stages = s; services = before ++ (p ∷ after) }

  at_stage : (k : ℕ) (s : Stages D) → Barrier n (fleet s (reached k)) → k ≡ s.stage
  unfolding fleet
  at_stage k s b = elim (Bool-cases (ltb k s.stage)) [
    | inl e ↦ absurd (
        omega (
          arith,
          missing k k before after (omega arith),
          b.total,
          b.together k (ltb→lt k s.stage e),
        ))
    | inr e ↦ not_less k s.stage e (All-at (At s.stage) (reached k) before after b.behind)
  ]

  -- A service moves on with the groups that it has counted down, and the stage does not fall.
  pub moved :
      (p q : Position) (s t : Stages D)
      → counted p ≡ counted q
      → s.groups ≡ t.groups
      → s.stage ≤ t.stage
      → ((k : ℕ) → k < t.stage → arrived k (before ++ (p ∷ after)) ≡ n)
      → At t.stage q
      → Barrier n (fleet s p)
      → Barrier n (fleet t q)
  unfolding fleet
  moved p q s t c g le tog at b = record {
    total = same_length q p before after ∙ b.total;
    left = λ k h.
        (let (m, e, sum) = b.left k h in
          (
            m,
            ap (λ gs. get_elem? gs k) (sym g) ∙ e,
            ap (λ a. m + a) (same_count k q p before after (sym c)) ∙ sum,
          ));
    together = λ k h. same_count k q p before after (sym c) ∙ tog k h;
    behind =
        All-swap (At s.stage) (At t.stage) (At-later s.stage t.stage le) p q before after at
          b.behind;
  }

  counted_down : ℕ → ℕ → Stages D → Stages D
  counted_down k m s = record s { groups = set_elem k (counts m) s.groups }

  Left : ℕ → ℕ → ℕ → Stages D → ℕ → Type 0
  Left k m l s j =
      (r : ℕ) × (get_elem? (set_elem k (counts m) s.groups) j ≡ some (counts r))
      × (r + arrived j (before ++ (waiting l k ∷ after)) ≡ n)

  waits-Barrier :
      (k l m : ℕ) (s : Stages D)
      → k < 4
      → k ≡ s.stage
      → get_elem? s.groups k ≡ some (counts (suc m))
      → suc m + arrived k (before ++ (reached k ∷ after)) ≡ n
      → Barrier n (fleet s (reached k))
      → Barrier n (fleet (counted_down k m s) (waiting l k))
  unfolding fleet counted_down Left
  waits-Barrier k l m s h e g sum b = record {
    total = same_length (waiting l k) (reached k) before after ∙ b.total;
    left = λ j lt. elim (Bool-cases (k == j)) [
      | inl q ↦ subst (Left k m l s) ((==_iff k j).0 q) (
        m,
        at_same k (counts m) (counts (suc m)) s.groups g,
        omega (arith, sum, arrives k l before after),
      )
      | inr q ↦
          (let (r, found, all) = b.left j lt in
            let ne = apart k j q in
            (
              r,
              at_other k j (counts m) s.groups ne ∙ found,
              omega (arith, all, arrives_nowhere_else j k l before after ne),
            ))
    ];
    together =
        λ j lt. arrives_nowhere_else j k l before after (omega (arith, lt, e)) ∙ b.together j lt;
    behind =
        All-swap (At s.stage) (At s.stage) (λ r z. z) (reached k) (waiting l k) before after
          (omega arith, h) b.behind;
  }

  unfoldable pub After : ℕ → Outcome Entry × Stages D → Type 0
  After k r = Barrier n (fleet r.1 (entered k r.0))

  -- The group has not been counted down to zero while a service is missing.
  counts-Barrier :
      (k l m : ℕ) (s : Stages D)
      → k < 4
      → s.locker ≡ some l
      → get_elem? s.groups k ≡ some (counts m)
      → m + arrived k (before ++ (reached k ∷ after)) ≡ n
      → Barrier n (fleet s (reached k))
      → After k (enter (suc k) s)
  unfolding After fleet entered counted_down
  counts-Barrier k l zero s h e g sum b =
      absurd (omega (arith, missing k k before after (omega arith), b.total, sum))
  counts-Barrier k l (suc m) s h e g sum b =
      subst (After k) (sym (enter-waits k l m s e (at_stage k s b) g))
        (waits-Barrier k l m s h (at_stage k s b) g sum b)

  pub calls-Barrier :
      (k : ℕ) (s : Stages D) → k < 4 → Barrier n (fleet s (reached k)) → After k (enter (suc k) s)
  unfolding After fleet entered
  calls-Barrier k s h b = elim (Option-cases s.locker) [
    | inl (l, e) ↦ (let (m, g, sum) = b.left k h in counts-Barrier k l m s h e g sum b)
    | inr e ↦
        subst (After k) (sym (enter-none (suc k) s e))
          (moved (reached k) (failed k nil_pointer) s s refl refl (omega arith) b.together tt b)
  ]
