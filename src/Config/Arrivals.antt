-- ===== src/Config/Arrivals.antt =====
-- Counting the services that have called AdvanceStage for a stage, and what every state of the
-- services has in common.
use honeydipper.Common.{
  ℕ, zero, suc, ◌+◌, ◌≤◌, ◌<◌, ◌≡◌, ◌≢◌, refl, sym, ◌∙◌, ap, true, false, some, List, [], ◌∷◌, ◌++◌,
  ltb, leb, ◌==◌, get_elem?, length, All, arith,
}
use honeydipper.Config.Stages.{counts, set_elem}
use honeydipper.Config.Fleet.{Position, reached, waiting, failed, Fleet, counted, arrived, one_if}

-- No service is in a stage that the configuration has not reached.
abbrev pub At : ℕ → Position → Type 0
At stage (reached k) = k ≤ stage
At stage (waiting l k) = (k ≤ stage) × (k < 4)
At stage (failed k e) = Unit

pub record Barrier {D : Type 0} (n : ℕ) (f : Fleet D) : Type 0 where
  pub total : length f.services ≡ n
  pub left :
      (k : ℕ)
      → k < 4
      → (m : ℕ) × (get_elem? (f.stages).groups k ≡ some (counts m)) × (m + arrived k f.services ≡ n)
  pub together : (k : ℕ) → k < (f.stages).stage → arrived k f.services ≡ n
  pub behind : All (At (f.stages).stage) f.services

pub arrived-at :
    (j : ℕ) (p : Position) (before after : List Position)
    → arrived j (before ++ (p ∷ after)) ≡ one_if (ltb j (counted p)) + arrived j (before ++ after)
arrived-at j p [] after = refl
arrived-at j p (q ∷ before) after = omega (arith, arrived-at j p before after)

pub length-at :
    (p : Position) (before after : List Position)
    → length (before ++ (p ∷ after)) ≡ suc (length (before ++ after))
length-at p [] after = refl
length-at p (q ∷ before) after = ap suc (length-at p before after)

one : (j c : ℕ) → one_if (ltb j c) ≤ 1
one j c = ground arith

pub not_below : (j c : ℕ) → c ≤ j → one_if (ltb j c) ≡ 0
not_below j c h = ground arith

pub below : (j c : ℕ) → j < c → one_if (ltb j c) ≡ 1
below j c h = ground arith

pub same_side : (j k : ℕ) → k ≢ j → one_if (ltb j (suc k)) ≡ one_if (ltb j k)
same_side j k h = ground arith

pub not_less : (a b : ℕ) → ltb a b ≡ false → a ≤ b → a ≡ b
not_less a b h le = ground arith

pub next_is_later : (a b : ℕ) → a ≡ b → leb (suc a) b ≡ false
next_is_later a b h = ground arith

pub next_is_next : (a b : ℕ) → a ≡ b → ltb (b + 1) (suc a) ≡ false
next_is_next a b h = ground arith

pub apart : (a b : ℕ) → (a == b) ≡ false → a ≢ b
apart a b h = ground arith

pub before_last : (j k stage : ℕ) → j < suc k → stage ≡ k → (j == k) ≡ false → j < stage
before_last j k stage h e q = omega (arith, h, e, apart j k q)

pub passed : (k stage : ℕ) → leb (suc k) stage ≡ true → suc k ≤ stage
passed k stage h = ground arith

pub not_passed : (k stage : ℕ) → leb (suc k) stage ≡ false → k ≤ stage → stage ≡ k
not_passed k stage h le = ground arith

pub arrived-length : (j : ℕ) (ps : List Position) → arrived j ps ≤ length ps
arrived-length j [] = omega arith
arrived-length j (p ∷ ps) = omega (arith, arrived-length j ps, one j (counted p))

module _ {A : Type 0} where
  pub at_same :
      (i : ℕ) (x y : A) (xs : List A)
      → get_elem? xs i ≡ some y
      → get_elem? (set_elem i x xs) i ≡ some x
  unfolding set_elem
  at_same i x y [] h = cc
  at_same zero x y (z ∷ zs) h = refl
  at_same (suc i) x y (z ∷ zs) h = at_same i x y zs h

  pub at_other :
      (i j : ℕ) (x : A) (xs : List A) → i ≢ j → get_elem? (set_elem i x xs) j ≡ get_elem? xs j
  unfolding set_elem
  at_other i j x [] h = refl
  at_other zero zero x (z ∷ zs) h = absurd (h refl)
  at_other zero (suc j) x (z ∷ zs) h = refl
  at_other (suc i) zero x (z ∷ zs) h = refl
  at_other (suc i) (suc j) x (z ∷ zs) h = at_other i j x zs (λ e. h (ap suc e))

module _ (P Q : Position → Type 0) (f : (r : Position) → P r → Q r) where
  All-map : (ps : List Position) → All P ps → All Q ps
  All-map [] h = tt
  All-map (p ∷ ps) h = (f p h.0, All-map ps h.1)

  pub All-swap :
      (p q : Position) (before after : List Position)
      → Q q
      → All P (before ++ (p ∷ after))
      → All Q (before ++ (q ∷ after))
  All-swap p q [] after hq h = (hq, All-map after h.1)
  All-swap p q (r ∷ before) after hq h = (f r h.0, All-swap p q before after hq h.1)

pub All-at :
    (P : Position → Type 0) (p : Position) (before after : List Position)
    → All P (before ++ (p ∷ after))
    → P p
All-at P p [] after h = h.0
All-at P p (q ∷ before) after h = All-at P p before after h.1

pub At-later : (a b : ℕ) → a ≤ b → (p : Position) → At a p → At b p
At-later a b h (reached k) at = omega arith
At-later a b h (waiting l k) at = (omega (arith, at.0), at.1)
At-later a b h (failed k e) at = tt

pub same_count :
    (j : ℕ) (p q : Position) (before after : List Position)
    → counted p ≡ counted q
    → arrived j (before ++ (p ∷ after)) ≡ arrived j (before ++ (q ∷ after))
same_count j p q before after h =
    arrived-at j p before after
    ∙ ap (λ c. one_if (ltb j c) + arrived j (before ++ after)) h
    ∙ sym (arrived-at j q before after)

pub same_length :
    (p q : Position) (before after : List Position)
    → length (before ++ (p ∷ after)) ≡ length (before ++ (q ∷ after))
same_length p q before after = length-at p before after ∙ sym (length-at q before after)

-- A service that has not counted the group down is missing.
pub missing :
    (j k : ℕ) (before after : List Position)
    → k ≤ j
    → arrived j (before ++ (reached k ∷ after)) < length (before ++ (reached k ∷ after))
missing j k before after h = omega (
  arith,
  arrived-at j (reached k) before after,
  length-at (reached k) before after,
  arrived-length j (before ++ after),
  not_below j k h,
)

pub arrives :
    (k l : ℕ) (before after : List Position)
    → arrived k (before ++ (waiting l k ∷ after)) ≡ suc (arrived k (before ++ (reached k ∷ after)))
arrives k l before after = omega (
  arith,
  arrived-at k (reached k) before after,
  arrived-at k (waiting l k) before after,
  not_below k k (omega arith),
  below k (suc k) (omega arith),
)

pub arrives_nowhere_else :
    (j k l : ℕ) (before after : List Position)
    → k ≢ j
    → arrived j (before ++ (waiting l k ∷ after)) ≡ arrived j (before ++ (reached k ∷ after))
arrives_nowhere_else j k l before after h = omega (
  arith,
  arrived-at j (reached k) before after,
  arrived-at j (waiting l k) before after,
  same_side j k h,
)
