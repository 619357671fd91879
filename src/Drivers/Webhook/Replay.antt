-- ===== src/Drivers/Webhook/Replay.antt =====
-- The time window of a Slack request.
use honeydipper.Common.{
  ◌||◌, ℕ, suc, ◌+◌, ◌-◌, ◌^◌, ◌<◌, ◌≡◌, refl, Bool, true, false, ◌||◌, ◌⊎◌, inl, inr, ◌↔◌, arith,
}
use honeydipper.Common.Int.{pos, negsuc, to_bits}
use honeydipper.Drivers.Webhook.Signature.{add64, sub64, lt64, is_replay}

late : (a b : ℕ) → a < 2 ^ 62 → b < 2 ^ 63 → (lt64 300 (sub64 a b) ≡ true) ↔ (b + 300 < a)
late a b h k = (λ e. ground arith, λ e. ground arith)

early : (a b : ℕ) → a < 2 ^ 62 → b < 2 ^ 63 → (lt64 (add64 a 2) b ≡ true) ↔ (a + 2 < b)
early a b h k = (λ e. ground arith, λ e. ground arith)

late_negative :
    (a b : ℕ)
    → a < 2 ^ 62
    → b < 2 ^ 63
    → (lt64 300 (sub64 a (2 ^ 64 - 1 - b)) ≡ true) ↔ ((300 < a + suc b) × (a + suc b < 2 ^ 63))
late_negative a b h k = (λ e. ground arith, λ e. ground arith)

early_negative : (a b : ℕ) → a < 2 ^ 62 → b < 2 ^ 63 → lt64 (add64 a 2) (2 ^ 64 - 1 - b) ≡ false
early_negative a b h k = ground arith

or_true : (a b : Bool) → (a || b ≡ true) ↔ ((a ≡ true) ⊎ (b ≡ true))
or_true true b = (λ e. inl refl, λ e. refl)
or_true false b = (λ e. inr e, λ e. elim e [ inl x ↦ cc | inr y ↦ y ])

only_first : (a b : Bool) → b ≡ false → a || b ≡ true → a ≡ true
only_first true b h e = refl
only_first false b h e = cc

-- While the clock is below 2^62 seconds: a time stamp of 0 or more counts as a replay exactly if it
-- is more than 300 seconds before the clock or more than 2 seconds after it. A negative one, -at - 1,
-- counts as a replay exactly if its distance to the clock is more than 300 seconds and fits in an
-- int64; one that lies further back overflows and passes.
pub is_replay_iff :
    (now at : ℕ)
    → now < 2 ^ 62
    → at < 2 ^ 63
    → ((is_replay now (to_bits (pos at)) ≡ true) ↔ ((at + 300 < now) ⊎ (now + 2 < at)))
      × ((is_replay now (to_bits (negsuc at)) ≡ true)
          ↔ ((300 < now + suc at) × (now + suc at < 2 ^ 63)))
unfolding is_replay
is_replay_iff now at h k =
    let tests = or_true (lt64 300 (sub64 now at)) (lt64 (add64 now 2) at) in
    (
      (
        λ e. elim (tests.0 e) [
          | inl x ↦ inl ((late now at h k).0 x)
          | inr y ↦ inr ((early now at h k).0 y)
        ],
        λ e.
            tests.1 (elim e [
              | inl x ↦ inl ((late now at h k).1 x)
              | inr y ↦ inr ((early now at h k).1 y)
            ]),
      ),
      (
        λ e.
            (late_negative now at h k).0
              (only_first (lt64 300 (sub64 now (2 ^ 64 - 1 - at))) _ (early_negative now at h k) e),
        λ e. rw ((late_negative now at h k).1 e) refl,
      ),
    )
