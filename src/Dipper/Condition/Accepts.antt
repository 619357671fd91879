-- ===== src/Dipper/Condition/Accepts.antt =====
-- CompareMap accepts exactly when every check of its criterion does, so the order in which Go visits
-- the keys of the criterion does not change what is accepted.
use mathlib.Core.List.{Perm, Mem, mem-cons, not-mem-nil, mem-cons_self, mem-cons_of_mem}
use mathlib.Core.List.Perm
use mathlib.Core.Logic.Or
use honeydipper.Common.{sym, subst, ◌≡◌, ◌↔◌, refl, Bool, true, false, List, [], ◌∷◌, String}
use honeydipper.Outcome.{Outcome, done, panic}
use honeydipper.Value.{Value, obj, Fields, end, field}
use honeydipper.Dipper.Condition.{and_then, check_key, compare_all, compare_fields, compare_map}

Outcome-set : IsSet (Outcome Bool)
Outcome-set = hlevel

abbrev pub Accepts : Outcome Bool → Type 0
Accepts m = m ≡ done true

and_then-Accepts : (m n : Outcome Bool) → Accepts (and_then m n) ↔ (Accepts m × Accepts n)
and_then-Accepts (done true) n = (λ h. (refl, h), λ h. h.1)
and_then-Accepts (done false) n = (λ h. cc, λ h. cc (h.0))
and_then-Accepts (panic e) n = (λ h. cc, λ h. cc (h.0))

-- The entries of a map, in the order of a visit.
abbrev pub entries : Fields → List (String × Value)
entries end = []
entries (field k v fs) = (k, v) ∷ entries fs

module _ (re_match : String → String → Bool) (actual : Fields) where
  abbrev pub KeyAccepts : String × Value → Type 0
  KeyAccepts e = Accepts (check_key e.0 (compare_all re_match e.1) actual)

  pub compare_fields-cons :
      (k : String) (v : Value) (fs : Fields)
      → compare_fields re_match (field k v fs) actual
        ≡ and_then (check_key k (compare_all re_match v) actual) (compare_fields re_match fs actual)
  unfolding compare_all
  compare_fields-cons k v fs = refl

  compare_fields-end : compare_fields re_match end actual ≡ done true
  unfolding compare_all
  compare_fields-end = refl

  compare_fields-Accepts :
      (fs : Fields)
      → Accepts (compare_fields re_match fs actual)
        ↔ ((e : String × Value) → Mem e (entries fs) → KeyAccepts e)
  compare_fields-Accepts end = (λ h e m. absurd (not-mem-nil m), λ h. compare_fields-end)
  compare_fields-Accepts (field k v fs) =
      let both =
        and_then-Accepts (check_key k (compare_all re_match v) actual)
          (compare_fields re_match fs actual) in
      (
        λ h e m.
            let (first, rest) = both.0 (rw compare_fields-cons at h) in
            Or.elim (Outcome-set _ _) (mem-cons.0 m) (λ same. subst KeyAccepts (sym same) first)
              (λ later. (compare_fields-Accepts fs).0 rest e later),
        λ h. rw compare_fields-cons (
            both.1 (
              h (k, v) mem-cons_self,
              (compare_fields-Accepts fs).1 (λ e m. h e (mem-cons_of_mem (k, v) m)),
            )),
      )

  -- Whatever the order of the entries of the criterion, the same maps are accepted.
  pub compare_map-perm :
      (fs gs : Fields)
      → Perm (entries fs) (entries gs)
      → Accepts (compare_map re_match (obj fs) actual)
        ↔ Accepts (compare_map re_match (obj gs) actual)
  unfolding compare_all
  compare_map-perm fs gs p = (
    λ h.
        (compare_fields-Accepts gs).1
          (λ e m. (compare_fields-Accepts fs).0 h e (Perm.subset (Perm.symm p) e m)),
    λ h.
        (compare_fields-Accepts fs).1
          (λ e m. (compare_fields-Accepts gs).0 h e (Perm.subset p e m)),
  )
