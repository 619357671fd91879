-- ===== src/Config/Puts.antt =====
-- A system that is put back when it is extended.
use honeydipper.Common.{
  ℕ, suc, ◌≡◌, refl, ◌∙◌, ap, subst, Bool, true, false, Option, some, List, [], ◌∷◌, String, All,
  inl, inr, arith, eq_refl, if◌then◌else◌,
}
use honeydipper.Common.Assoc.{Assoc, lookup, insert, has, lookup-insert}
use honeydipper.Outcome.{done}
use honeydipper.Value.{Fields}
use honeydipper.Config.{Trigger, Function, System}
use honeydipper.Config.Systems.{Extending, put_extended}
use honeydipper.Config.Extended.{base_of, has-insert, current, whole, Extended, Same, whole-Same}
use honeydipper.Config.Later.{other_or_same, ranked_apart, still, processed-apart, not_added, Later}

-- The bases of a system are processed before it, and it is not among them.
all_apart :
    (name : String) (w : System) (s : Assoc System) (t : Assoc Bool) (xs : List String)
    → has name t ≡ false
    → All (λ x. has (base_of x) t ≡ true) xs
    → All (Same (insert name w s) s) xs
all_apart name w s t [] h all = tt
all_apart name w s t (x ∷ xs) h all = (
  rw (lookup-insert, processed-apart name (base_of x) t h all.0) refl,
  all_apart name w s t xs h all.1,
)

all_still :
    (name : String) (t : Assoc Bool) (xs : List String)
    → All (λ x. has (base_of x) t ≡ true) xs
    → All (λ x. has (base_of x) (insert name true t) ≡ true) xs
all_still name t [] all = tt
all_still name t (x ∷ xs) all = (still name (base_of x) t all.0, all_still name t xs all.1)

module _ (merge_trigger : Trigger → Trigger → Option Trigger)
    (merge_function : Function → Function → Option Function)
    (merge_content : Option Fields → Option Fields → Option (Option Fields))
    (copy : System → Option System) where
  module _ (original : Assoc System) where
    abbrev Good : Extending → Type 0
    Good e = Extended merge_trigger merge_function merge_content copy original e

    Entry : String → Extending → System → String → Type 0
    Entry name e w n =
        (m : System) × (lookup n (insert name w e.systems) ≡ some m)
        × (whole merge_trigger merge_function merge_content copy original (insert name w e.systems)
              n
            ≡ done m)

    pub put_extended-Extended :
        (name : String) (e : Extending) (w : System)
        → has name e.processed ≡ false
        → All (λ x. has (base_of x) e.processed ≡ true) (current original name).extends
        → whole merge_trigger merge_function merge_content copy original e.systems name ≡ done w
        → Good e
        → Good (put_extended merge_trigger merge_function merge_content copy name e w)
    unfolding put_extended Entry
    put_extended-Extended name e w h all eq g = record {
      untouched = λ n p.
          (let (ne, h') = not_added name n e.processed p in
            rw (lookup-insert, ne) (g.untouched n h'));
      entries = λ n p. elim (other_or_same name n e.processed p) [
        | inl q ↦ subst (Entry name e w) q (
          w,
          rw (lookup-insert, eq_refl) refl,
          whole-Same merge_trigger merge_function merge_content copy original
                (insert name w e.systems) e.systems name
                (all_apart name w e.systems e.processed (current original name).extends h all)
              ∙ eq,
        )
        | inr (ne, h') ↦
            (let (m, found, made) = g.entries n h' in
              (
                m,
                rw (lookup-insert, ne) found,
                whole-Same merge_trigger merge_function merge_content copy original
                      (insert name w e.systems) e.systems n
                      (all_apart name w e.systems e.processed (current original n).extends h
                        (g.bases n h'))
                    ∙ made,
              ))
      ];
      bases = λ n p. elim (other_or_same name n e.processed p) [
        | inl q ↦
            subst
              (λ i.
                All (λ x. has (base_of x) (insert name true e.processed) ≡ true)
                  (current original i).extends)
              q (all_still name e.processed (current original name).extends all)
        | inr (ne, h') ↦ all_still name e.processed (current original n).extends (g.bases n h')
      ];
    }

  module _ (rank : String → ℕ) where
    pub put_extended-Later :
        (name : String) (e0 e : Extending) (w : System)
        → has name e0.processed ≡ false
        → Later rank (rank name) e0 e
        → Later rank
            (suc (rank name))
            e0
            (put_extended merge_trigger merge_function merge_content copy name e w)
    unfolding put_extended
    put_extended-Later name e0 e w h l = record {
      keeps = λ n p.
          (let (there, same) = l.keeps n p in
            (
              still name n e.processed there,
              rw (lookup-insert, processed-apart name n e0.processed h p) same,
            ));
      below = λ n lt.
          has-insert name n true e.processed
          ∙ ap (λ b. if b then true else has n e.processed) (ranked_apart rank name n lt)
          ∙ l.below n (omega (arith, lt));
    }
