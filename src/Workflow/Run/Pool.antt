-- ===== src/Workflow/Run/Pool.antt =====
-- A parallel iteration with a pool starts every item once, in order.
use honeydipper.Common.{
  ℕ, zero, suc, ◌+◌, ◌-◌, ◌<◌, ◌≤◌, true, false, none, some, List, [], ◌∷◌, ◌++◌, ◌==◌, String, ◌≡◌,
  refl, sym, ◌∙◌, ap, ltb, ltb→lt, if◌then◌else◌, arith, append-nil, append_assoc, Bool-cases, inl,
  inr,
}
use honeydipper.Common.Int.{pos}
use honeydipper.Outcome.{done}
use honeydipper.Text.{is_empty}
use honeydipper.Text.Number.{atoi, number}
use honeydipper.Value.{Fields, is_null}
use honeydipper.Workflow.Types.{Session, Message, Env, State, Child, Effect, run_item, settings}
use honeydipper.Workflow.Handler.{Handler, skip, ◌>>◌}
use honeydipper.Workflow.Execute.{launch_parallel_iterations, launch_items, pool_count}
use honeydipper.Workflow.Predicates.{len_of_iterate, reflect_len}
use honeydipper.Workflow.Run.{next_item, pool_next, ahead_within}

-- The starts of `k` items from number `i` on.
abbrev pub starts : ℕ → ℕ → ℕ → List Effect
starts a i zero = []
starts a i (suc k) = run_item a i ∷ starts a (i + 1) k

starts-same : (a i j m n : ℕ) → i ≡ j → m ≡ n → starts a i m ≡ starts a j n
starts-same a i j m n p q = ap (λ x. starts a x m) p ∙ ap (starts a j) q

starts-append :
    (a i k m j n : ℕ) → i + k ≡ j → k + m ≡ n → starts a i k ++ starts a j m ≡ starts a i n
starts-append a i zero m j n e f = starts-same a j i m n (omega arith) (omega arith)
starts-append a i (suc k) m j zero e f = absurd (omega arith)
starts-append a i (suc k) m j (suc n) e f =
    ap (λ es. run_item a i ∷ es) (starts-append a (i + 1) k m j n (omega arith) (omega arith))

abbrev pub with_starts : List Effect → State → State
with_starts es s = record s { store = record s.store { effects = s.store.effects ++ es } }

-- The session has a pool of `k` for a list of `n` items.
pub record HasPool (k n : ℕ) (w : Session) : Type 0 where
  pub named : is_empty (settings w.flow).iterate_pool ≡ false
  pub size : atoi (settings w.flow).iterate_pool ≡ number (pos k)
  pub items : reflect_len (settings w.flow).iterate_parallel ≡ done n
  pub parallel : is_null (settings w.flow).iterate ≡ true

len-eq : (k n : ℕ) (w : Session) → HasPool k n w → len_of_iterate (settings w.flow) ≡ done n
unfolding len_of_iterate
len-eq k n w h = rw (h.parallel, h.items) refl

module _ (env : Env) (start : Child → Handler (Unit {0})) (act : Message → Handler (Unit {0}))
    (start_named detach_named : String → Message → Handler (Unit {0}))
    (again : Message → List Fields → Handler (Unit {0})) where
  launch_items-eq :
      (a i k : ℕ) (s : State)
      → launch_items env start act a i k s ≡ (done tt, with_starts (starts a i k) s)
  launch_items-eq a i zero s = rw append-nil refl
  launch_items-eq a i (suc k) s =
      launch_items-eq a (i + 1) k (with_starts (run_item a i ∷ []) s) ∙ rw append_assoc refl

  -- What a return starts: the item that is `k` ahead of the one that is counted.
  abbrev ahead : ℕ → ℕ → Session → List Effect
  ahead k n w = if ltb (k + w.iteration) n then run_item w.address (k + w.iteration) ∷ [] else []

  abbrev counted : State → State
  counted s = record s { self = record s.self { iteration = s.self.iteration + 1 } }

  pool_next-eq :
      (k n : ℕ) (w : Session)
      → HasPool (suc k) n w
      → pool_next env start start_named detach_named again w
        ≡ done (if ltb (suc k + w.iteration) n then some (suc k + w.iteration) else none)
  pool_next-eq k n w h =
      rw (h.named, h.size)
        (ap (ahead_within env start start_named detach_named again (suc k) w.iteration)
          (len-eq (suc k) n w h))

  next_item-eq :
      (k n : ℕ) (s : State)
      → HasPool (suc k) n s.self
      → next_item env start start_named detach_named again s
        ≡ (done tt, counted (with_starts (ahead (suc k) n s.self) s))
  unfolding next_item
  next_item-eq k n s h = elim (Bool-cases (ltb (suc k + s.self.iteration) n)) [
    | inl e ↦ rw (pool_next-eq k n s.self h, e) refl
    | inr e ↦ rw (pool_next-eq k n s.self h, e, append-nil) refl
  ]

  abbrev pub times : ℕ → Handler (Unit {0}) → Handler (Unit {0})
  times zero m = skip
  times (suc j) m = do m; times j m

  abbrev pub returns : ℕ → Handler (Unit {0})
  unfolding next_item
  returns j = times j (next_item env start start_named detach_named again)

  after : ℕ → ℕ → State → State
  after k n s = counted (with_starts (ahead k n s.self) s)

  after-HasPool : (k n : ℕ) (s : State) → HasPool k n s.self → HasPool k n (after k n s).self
  unfolding after
  after-HasPool k n s h = record {
    named = h.named;
    size = h.size;
    items = h.items;
    parallel = h.parallel;
  }

  no_more : (k n : ℕ) (w : Session) → n ≤ k + w.iteration → ahead k n w ≡ []
  no_more k n w le = ground arith

  one_more :
      (k n : ℕ) (w : Session)
      → k + w.iteration < n
      → ahead k n w ≡ run_item w.address (k + w.iteration) ∷ []
  one_more k n w lt = ground arith

  -- Once all items are started, a return starts none.
  idle :
      (k n j : ℕ) (s : State)
      → HasPool (suc k) n s.self
      → n ≤ suc k + s.self.iteration
      → (returns j s).1.store.effects ≡ s.store.effects
  unfolding returns after
  idle k n zero s h le = refl
  idle k n (suc j) s h le = rw (next_item-eq k n s h) (
      idle k n j (after (suc k) n s) (after-HasPool (suc k) n s h) (omega arith)
      ∙ rw (no_more (suc k) n s.self le) (append-nil s.store.effects))

  -- The returns start the items that are left, in their order.
  returns-starts :
      (k n j m : ℕ) (s : State)
      → HasPool (suc k) n s.self
      → suc k + s.self.iteration + m ≡ n
      → m ≤ j
      → (returns j s).1.store.effects
        ≡ s.store.effects ++ starts s.self.address (suc k + s.self.iteration) m
  unfolding returns after
  returns-starts k n j zero s h e le =
      idle k n j s h (omega arith) ∙ sym (append-nil s.store.effects)
  returns-starts k n zero (suc m) s h e le = absurd (omega arith)
  returns-starts k n (suc j) (suc m) s h e le = rw (next_item-eq k n s h) (
      returns-starts k n j m (after (suc k) n s) (after-HasPool (suc k) n s h) (omega arith)
        (omega arith)
      ∙ rw (one_more (suc k) n s.self (omega arith)) (
          append_assoc s.store.effects (run_item s.self.address (suc k + s.self.iteration) ∷ [])
            (starts s.self.address (suc k + (s.self.iteration + 1)) m)
          ∙ ap (λ es. s.store.effects ++ run_item s.self.address (suc k + s.self.iteration) ∷ es)
              (starts-same s.self.address (suc k + (s.self.iteration + 1))
                (suc k + s.self.iteration + 1) m m (omega arith) refl)))

  not-lt : (a b : ℕ) → ltb a b ≡ false → b ≤ a
  not-lt a b h = ground arith

  ne_zero : (k : ℕ) → (suc k == 0) ≡ false
  ne_zero k = ground arith

  pool : ℕ → ℕ → ℕ
  pool k n = if ltb k n then k else n

  size-pool :
      (k n : ℕ) (w : Session)
      → HasPool (suc k) (suc n) w
      → pool_count env start act (settings w.flow) (suc n) ≡ done (pool (suc k) (suc n))
  unfolding pool_count pool
  size-pool k n w h = rw (h.named, h.size) (rw (ne_zero k, ne_zero n) refl)

  launched : Message → State → State
  launched msg s = record s { self = record s.self { orig_msg = some msg } }

  launch-starts :
      (k n : ℕ) (msg : Message) (s : State)
      → HasPool (suc k) (suc n) s.self
      → launch_parallel_iterations env start act msg s
        ≡ (done tt, with_starts (starts s.self.address 0 (pool (suc k) (suc n))) (launched msg s))
  unfolding launch_parallel_iterations launched
  launch-starts k n msg s h =
      rw (h.items, size-pool k n s.self h)
        (launch_items-eq s.self.address 0 (pool (suc k) (suc n)) (launched msg s))

  abbrev from_launch : ℕ → ℕ → Message → State → State
  unfolding pool launched
  from_launch k n msg s =
      with_starts (starts s.self.address 0 (pool (suc k) (suc n))) (launched msg s)

  launched-HasPool :
      (k n : ℕ) (msg : Message) (s : State)
      → HasPool (suc k) (suc n) s.self
      → HasPool (suc k) (suc n) (from_launch k n msg s).self
  unfolding from_launch launched
  launched-HasPool k n msg s h = record {
    named = h.named;
    size = h.size;
    items = h.items;
    parallel = h.parallel;
  }

  from_launch-starts :
      (k n : ℕ) (msg : Message) (s : State)
      → HasPool (suc k) (suc n) s.self
      → s.self.iteration ≡ 0
      → (returns n (from_launch k n msg s)).1.store.effects
        ≡ s.store.effects ++ starts s.self.address 0 (suc n)
  unfolding from_launch pool launched
  from_launch-starts k n msg s h z = elim (Bool-cases (ltb (suc k) (suc n))) [
    | inl e ↦
        returns-starts k (suc n) n (n - k) (from_launch k n msg s) (launched-HasPool k n msg s h)
          (omega (arith, ltb→lt (suc k) (suc n) e)) (omega arith)
        ∙ rw e (
            append_assoc s.store.effects (starts s.self.address 0 (suc k))
              (starts s.self.address (suc k + s.self.iteration) (n - k))
            ∙ ap (λ es. s.store.effects ++ es)
                (starts-append s.self.address 0 (suc k) (n - k) (suc k + s.self.iteration) (suc n)
                  (omega arith) (omega (arith, ltb→lt (suc k) (suc n) e))))
    | inr e ↦
        idle k (suc n) n (from_launch k n msg s) (launched-HasPool k n msg s h)
          (omega (arith, not-lt (suc k) (suc n) e))
        ∙ rw e refl
  ]

  -- A parallel iteration over `n` + 1 items with a pool of `k` + 1,
  -- none of which is counted yet: starting it and then the returns
  -- of all items but the last start every item exactly once, in the order of the list.
  pub pool-starts :
      (k n : ℕ) (msg : Message) (s : State)
      → HasPool (suc k) (suc n) s.self
      → s.self.iteration ≡ 0
      → ((launch_parallel_iterations env start act msg >> returns n) s).1.store.effects
        ≡ s.store.effects ++ starts s.self.address 0 (suc n)
  unfolding from_launch
  pool-starts k n msg s h z = rw (launch-starts k n msg s h) (from_launch-starts k n msg s h z)
