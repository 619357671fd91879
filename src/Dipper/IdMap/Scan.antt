-- ===== src/Dipper/IdMap/Scan.antt =====
-- The search for a free key: it visits every counter, and a map that is not full has a free one.
use honeydipper.Common.{
  ℕ, zero, suc, ◌+◌, ◌-◌, ◌%◌, ◌≤◌, ◌<◌, ◌≡◌, ◌≢◌, refl, true, none, some, [], ◌∷◌, String,
  if◌then◌else◌, str_eq, eq_iff, eq_refl, arith, Bool-cases, inl, inr, length, str_ne,
}
use honeydipper.Common.Assoc.{Assoc, lookup, has}
use honeydipper.Text.Number.{itoa, itoa_injective}
use honeydipper.Dipper.IdMap.{max_id, next_id, scan}

pub next_id-lt : (c : ℕ) → c < max_id → next_id c < max_id
unfolding next_id
next_id-lt c h = ground arith

next_id-eq-mod : (c : ℕ) → c < max_id → next_id c ≡ (c + 1) % max_id
unfolding next_id
next_id-eq-mod c h = ground arith

mod_step : (c i : ℕ) → ((c + 1) % max_id + i) % max_id ≡ (c + suc i) % max_id
mod_step c i = omega arith

module _ {ℓ} {V : Type ℓ} (m : Assoc V) where
  -- A counter that is found is free and in range.
  pub scan-free :
      (f c k : ℕ) → c < max_id → scan f m c ≡ some k → (lookup (itoa k) m ≡ none) × (k < max_id)
  unfolding scan
  scan-free zero c k h e = cc
  scan-free (suc f) c k h e = ground (arith, scan-free f (next_id c) k (next_id-lt c h))

  goes_on : (f c : ℕ) → scan (suc f) m c ≡ none → scan f m (next_id c) ≡ none
  unfolding scan
  goes_on f c e = ground arith

  -- The counters that an unsuccessful search has seen are all taken.
  scan-none :
      (f c i : ℕ) → c < max_id → scan f m c ≡ none → i < f → has (itoa ((c + i) % max_id)) m ≡ true
  unfolding scan
  scan-none zero c i h e l = absurd (omega arith)
  scan-none (suc f) c zero h e l =
      let here : (c + 0) % max_id ≡ c = omega arith in rw here (ground arith)
  scan-none (suc f) c (suc i) h e l =
      let later : (next_id c + i) % max_id ≡ (c + suc i) % max_id =
        omega (arith, next_id-eq-mod c h) in
      rw later at (scan-none f (next_id c) i (next_id-lt c h) (goes_on f c e) (omega arith))

  -- So an unsuccessful search means that every key is taken.
  pub scan-none_all :
      (c k : ℕ) → c < max_id → scan max_id m c ≡ none → k < max_id → has (itoa k) m ≡ true
  scan-none_all c k h e l =
      let back : (c + (k + max_id - c) % max_id) % max_id ≡ k = omega arith in
      rw back at (scan-none max_id c ((k + max_id - c) % max_id) h e (omega arith))

-- How many of the first `n` keys are taken, and how many of them are the text `j`.
used {ℓ} : {V : Type ℓ} → ℕ → Assoc V → ℕ
used zero m = 0
used (suc n) m = (if has (itoa n) m then 1 else 0) + used n m

hits : ℕ → String → ℕ
hits zero j = 0
hits (suc n) j = (if str_eq j (itoa n) then 1 else 0) + hits n j

-- Two counters are not written alike.
hits-zero : (n k : ℕ) → n ≤ k → hits n (itoa k) ≡ 0
unfolding hits
hits-zero zero k h = refl
hits-zero (suc n) k h =
    rw (str_ne (itoa k) (itoa n) (λ e. absurd (omega (arith, itoa_injective k n e))))
      (omega (arith, hits-zero n k))

hits-le-one : (n : ℕ) (j : String) → hits n j ≤ 1
unfolding hits
hits-le-one zero j = omega arith
hits-le-one (suc n) j = elim (Bool-cases (str_eq j (itoa n))) [
  | inl e ↦
      let same : j ≡ itoa n = (eq_iff j (itoa n)).0 e in
      rw (same, eq_refl) (omega (arith, hits-zero n n))
  | inr e ↦ rw e (omega (arith, hits-le-one n j))
]

used-nil {ℓ} : (V : Type ℓ) (n : ℕ) → used {V = V} n [] ≡ 0
unfolding used lookup
used-nil V zero = refl
used-nil V (suc n) = omega (arith, used-nil V n)

module _ {ℓ} {V : Type ℓ} where
  used-cons : (n : ℕ) (j : String) (v : V) (m : Assoc V) → used n ((j, v) ∷ m) ≤ used n m + hits n j
  unfolding used hits lookup
  used-cons zero j v m = omega arith
  used-cons (suc n) j v m = ground (arith, used-cons n j v m)

  used-le-length : (n : ℕ) (m : Assoc V) → used n m ≤ length m
  used-le-length n [] = omega (arith, used-nil V n)
  used-le-length n ((j, v) ∷ m) =
      omega (arith, used-cons n j v m, used-le-length n m, hits-le-one n j)

  used_all : (n : ℕ) (m : Assoc V) → ((k : ℕ) → k < n → has (itoa k) m ≡ true) → used n m ≡ n
  unfolding used
  used_all zero m h = refl
  used_all (suc n) m h =
      rw (h n (omega arith)) (omega (arith, used_all n m (λ k l. h k (omega arith))))

  -- A map with fewer entries than there are keys has a free one, and the search finds it.
  pub scan-some : (m : Assoc V) (c : ℕ) → c < max_id → length m < max_id → scan max_id m c ≢ none
  scan-some m c h l e = absurd (
      omega
        (arith, used-le-length max_id m, used_all max_id m (λ k lt. scan-none_all m c k h e lt)))
