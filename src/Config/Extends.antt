-- ===== src/Config/Extends.antt =====
-- Extending the systems gives each of them as it is told without the order, and comes to an end.
use honeydipper.Common.{
  false≢true, ℕ, zero, suc, ◌<◌, ◌≡◌, refl, ◌∙◌, ap, true, false, Option, List, [], ◌∷◌, String,
  All, Bool-cases, inl, inr, arith, eq_refl,
}
use honeydipper.Common.Assoc.{Assoc, lookup, has}
use honeydipper.Outcome.{Outcome, done, ◌>>=◌, Safe, Safe-bind}
use honeydipper.Value.{Fields}
use honeydipper.Config.{Trigger, Function, System}
use honeydipper.Config.Collapse.{no_system}
use honeydipper.Config.Systems.{
  extend_all_systems, Extending, merge_system, add_base, visit_base, extend_bases, put_extended,
  extend_system, extend_unless, extend_names,
}
use honeydipper.Config.Extended.{
  base_of, Safe-eq, Safe-map, has-insert, join_bases, current, whole, Extended, add_base-Sound,
  merge_system-Sound, add_base-Same,
}
use honeydipper.Config.Later.{Later-up, Later-refl, Later-trans, Later}
use honeydipper.Config.Puts.{put_extended-Extended, put_extended-Later}

module _ (merge_trigger : Trigger → Trigger → Option Trigger)
    (merge_function : Function → Function → Option Function)
    (merge_content : Option Fields → Option Fields → Option (Option Fields))
    (copy : System → Option System) (original : Assoc System) (rank : String → ℕ) where
  abbrev Good : Extending → Type 0
  Good e = Extended merge_trigger merge_function merge_content copy original e

  abbrev Visited : ℕ → String → Extending → Extending → Type 0
  Visited r name e e' = Good e' × Later rank r e e' × (has name e'.processed ≡ true)

  -- What a recursive call is good for.
  abbrev Calls : ℕ → (String → Extending → Outcome Extending) → Type 0
  Calls r go =
      (base : String)
      → rank base < r
      → (e : Extending) → Good e
      → has base e.processed ≡ false
      → Safe (Visited (suc (rank base)) base e) (go base e)

  visit-Safe :
      (r : ℕ) (go : String → Extending → Outcome Extending)
      → Calls r go
      → (base : String) → rank base < r
      → (e : Extending) → Good e
      → Safe (Visited r base e) (
          visit_base merge_trigger merge_function merge_content copy go
            (has base e.processed)
            base
            e)
  unfolding visit_base
  visit-Safe r go calls base lt e g = elim (Bool-cases (has base e.processed)) [
    | inl h ↦ rw h (g, Later-refl rank r e, h)
    | inr h ↦ rw h (
        Safe-map (Visited (suc (rank base)) base e) (Visited r base e) (go base e)
          (λ e' v. (v.0, Later-up rank (suc (rank base)) r e e' (omega (arith, lt)) v.1, v.2))
          (calls base lt e g h))
  ]

  Joined : ℕ → List String → System → Extending → System × Extending → Type 0
  Joined r xs m e (merged, e') =
      Good e'
      × Later rank r e e'
      × (join_bases merge_trigger merge_function merge_content copy e'.systems xs m ≡ done merged)
      × All (λ x. has (base_of x) e'.processed ≡ true) xs

  Joined-cons :
      (r : ℕ) (x : String) (xs : List String) (m m1 : System) (e e1 : Extending)
      (p : System × Extending)
      → Visited r (base_of x) e e1
      → add_base merge_trigger merge_function merge_content copy e1.systems x m ≡ done m1
      → Joined r xs m1 e1 p
      → Joined r (x ∷ xs) m e p
  unfolding Joined join_bases
  Joined-cons r x xs m m1 e e1 (merged, e') (g, l, v) eq (g', l', j, all) =
      let (there, same) = l'.keeps (base_of x) v in
      (
        g',
        Later-trans rank r e e1 e' l l',
        ap (λ o. o >>= join_bases merge_trigger merge_function merge_content copy e'.systems xs)
              (add_base-Same merge_trigger merge_function merge_content copy original e'.systems
                  e1.systems x m same
                ∙ eq)
            ∙ j,
        (there, all),
      )

  bases-Safe :
      (r : ℕ) (go : String → Extending → Outcome Extending)
      → Calls r go
      → (xs : List String) → All (λ x. rank (base_of x) < r) xs
      → (m : System) (e : Extending) → Good e
      → Safe
          (Joined r xs m e)
          (extend_bases merge_trigger merge_function merge_content copy go xs m e)
  unfolding extend_bases Joined join_bases
  bases-Safe r go calls [] lt m e g = (g, Later-refl rank r e, refl, tt)
  bases-Safe r go calls (x ∷ xs) lt m e g =
      Safe-bind (Visited r (base_of x) e) (Joined r (x ∷ xs) m e)
        (visit_base merge_trigger merge_function merge_content copy go (has (base_of x) e.processed)
          (base_of x) e)
        _ (visit-Safe r go calls (base_of x) lt.0 e g)
        (λ e1 v.
          Safe-bind
            (λ m1.
              add_base merge_trigger merge_function merge_content copy e1.systems x m ≡ done m1)
            (Joined r (x ∷ xs) m e)
            (add_base merge_trigger merge_function merge_content copy e1.systems x m) _
            (Safe-eq _ (
              add_base-Sound merge_trigger merge_function merge_content copy original e1.systems x
                m))
            (λ m1 eq.
              Safe-map (Joined r xs m1 e1) (Joined r (x ∷ xs) m e)
                (extend_bases merge_trigger merge_function merge_content copy go xs m1 e1)
                (λ p j. Joined-cons r x xs m m1 e e1 p v eq j)
                (bases-Safe r go calls xs lt.1 m1 e1 v.0)))

  made :
      (name : String) (e : Extending) (merged w : System)
      → join_bases merge_trigger merge_function merge_content copy e.systems
          (current original name).extends
          no_system
        ≡ done merged
      → merge_system merge_trigger merge_function merge_content copy merged (current original name)
        ≡ done w
      → whole merge_trigger merge_function merge_content copy original e.systems name ≡ done w
  unfolding whole
  made name e merged w j eq = rw j eq

  now :
      (name : String) (e : Extending) (w : System)
      → has name (put_extended merge_trigger merge_function merge_content copy name e w).processed
        ≡ true
  unfolding put_extended
  now name e w = has-insert name name true e.processed ∙ rw eq_refl refl

  Extends : String → Extending → Outcome Extending → Type 0
  Extends name e o = Safe (Visited (suc (rank name)) name e) o

  -- The bases have been joined; the system itself is merged onto them and put back.
  finished-Safe :
      (name : String) (e e' : Extending) (merged : System)
      → has name e.processed ≡ false
      → Joined (rank name) (current original name).extends no_system e (merged, e')
      → Extends name e (
          merge_system merge_trigger merge_function merge_content copy merged
            (current original name)
          >>= λ w. done (put_extended merge_trigger merge_function merge_content copy name e' w))
  unfolding Extends Joined
  finished-Safe name e e' merged h (g, l, j, all) =
      let out = l.below name (omega arith) ∙ h in
      Safe-bind
        (λ w.
          merge_system merge_trigger merge_function merge_content copy merged
            (current original name)
          ≡ done w)
        (Visited (suc (rank name)) name e)
        (merge_system merge_trigger merge_function merge_content copy merged
          (current original name))
        _
        (Safe-eq _ (
          merge_system-Sound merge_trigger merge_function merge_content copy original merged
            (current original name)))
        (λ w eq. (
          put_extended-Extended merge_trigger merge_function merge_content copy original name e' w
              out all (made name e' merged w j eq) g,
          put_extended-Later merge_trigger merge_function merge_content copy rank name e e' w h l,
          now name e' w,
        ))

  module _
      (falls : (n : String)
        → All (λ x. rank (base_of x) < rank n) (current original n).extends) where
    -- With fuel above the rank.
    extend_system-Safe :
        (f : ℕ) → Calls f (extend_system merge_trigger merge_function merge_content copy f)
    unfolding extend_system Extends
    extend_system-Safe zero name lt e g h = absurd (omega (arith, lt))
    extend_system-Safe (suc f) name lt e g h = rw (g.untouched name h) (
        Safe-bind (Joined (rank name) (current original name).extends no_system e)
          (Visited (suc (rank name)) name e)
          (extend_bases merge_trigger merge_function merge_content copy
            (extend_system merge_trigger merge_function merge_content copy f)
            (current original name).extends no_system e)
          _
          (bases-Safe (rank name) (extend_system merge_trigger merge_function merge_content copy f)
            (λ base below. extend_system-Safe f base (omega (arith, lt, below)))
            (current original name).extends (falls name) no_system e g)
          (λ p j. finished-Safe name e p.1 p.0 h j))

    abbrev Done : List String → Extending → Extending → Type 0
    Done names e e' =
        Good e'
        × All (λ n. has n e'.processed ≡ true) names
        × ((n : String) → has n e.processed ≡ true → has n e'.processed ≡ true)

    extend_unless-Safe :
        (f : ℕ) (name : String) (e : Extending)
        → rank name < f
        → Good e
        → Safe (Visited f name e) (
            extend_unless merge_trigger merge_function merge_content copy f
              (has name e.processed)
              name
              e)
    unfolding extend_unless
    extend_unless-Safe f name e lt g = elim (Bool-cases (has name e.processed)) [
      | inl h ↦ rw h (g, Later-refl rank f e, h)
      | inr h ↦ rw h (
          Safe-map (Visited (suc (rank name)) name e) (Visited f name e)
            (extend_system merge_trigger merge_function merge_content copy f name e)
            (λ e' v. (v.0, Later-up rank (suc (rank name)) f e e' (omega (arith, lt)) v.1, v.2))
            (extend_system-Safe f name lt e g h))
    ]

    names-Safe :
        (f : ℕ) (names : List String) (e : Extending)
        → All (λ n. rank n < f) names
        → Good e
        → Safe
            (Done names e)
            (extend_names merge_trigger merge_function merge_content copy f names e)
    unfolding extend_names
    names-Safe f [] e lt g = (g, tt, λ n h. h)
    names-Safe f (name ∷ names) e lt g =
        Safe-bind (Visited f name e) (Done (name ∷ names) e)
          (extend_unless merge_trigger merge_function merge_content copy f (has name e.processed)
            name e)
          _ (extend_unless-Safe f name e lt.0 g)
          (λ e1 v.
            Safe-map (Done names e1) (Done (name ∷ names) e)
              (extend_names merge_trigger merge_function merge_content copy f names e1)
              (λ e' d. (d.0, (d.2 name v.2, d.1), λ n h. d.2 n ((v.1).keeps n h).0))
              (names-Safe f names e1 lt.1 v.0))

    start-Extended : Good (record { systems = original; processed = [] })
    unfolding lookup
    start-Extended = record {
      untouched = λ n h. refl;
      entries = λ n h. absurd (false≢true h);
      bases = λ n h. absurd (false≢true h);
    }

    -- Every system that is extended is, in the end, the system of the configuration merged onto its
    -- bases as they are in the end, whatever the order in which extendAllSystems comes to the names;
    -- or merging or copying fails. The extending ends, where no system is a base of itself, directly
    -- or not: the bases of a system have a lower rank, and the fuel is above the ranks of the names.
    pub extend_all_systems-Extended :
        (f : ℕ) (names : List String)
        → All (λ n. rank n < f) names
        → Safe
            (λ e.
              Extended merge_trigger merge_function merge_content copy original e
              × All (λ n. has n e.processed ≡ true) names)
            (extend_all_systems merge_trigger merge_function merge_content copy f names original)
    extend_all_systems-Extended f names lt =
        Safe-map (Done names (record { systems = original; processed = [] })) _ _
          (λ e d. (d.0, d.1)) (names-Safe f names _ lt start-Extended)
