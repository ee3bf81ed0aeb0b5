-- ===== src/Outbox/Backoff.antt =====
-- Poller.backoff of internal/outbox/poller.go.
use native.Mathlib.Nat.{pow-suc}
use native.Mathlib.Nat.{mul_assoc}
use go_blueprint.Prelude.{
  ap, sym, false, not_leb, ℕ, zero, suc, ◌*◌, ◌^◌, ◌%◌, ◌≤◌, min, ◌≡◌, refl, arith, leb,
  if◌then◌else◌, Bool-cases, leb→le, inl, inr,
}

-- _maxBackoff, five minutes in nanoseconds.
abbrev pub max_backoff : ℕ
max_backoff = 300_000_000_000

-- The loop, and the `min` behind it. time.Duration is an int64, here by its 64 bits: a product wraps at 2^64, and
-- one from 2^63 on would be negative. The test before the doubling keeps each product below 10 minutes.
backoff_loop : ℕ → ℕ → ℕ
backoff_loop zero d = min d max_backoff
backoff_loop (suc rounds) d =
    let rest = backoff_loop rounds (d * 2 % 2 ^ 64) in
    if leb max_backoff d then max_backoff else rest

unfoldable pub backoff : ℕ → ℕ → ℕ
unfolding backoff_loop
backoff interval attempts = backoff_loop attempts interval

pow-pos : (n : ℕ) → 1 ≤ 2 ^ n
pow-pos zero = omega arith
pow-pos (suc n) = omega (arith, pow-suc 2 n, pow-pos n)

above : (rounds d : ℕ) → max_backoff ≤ d → max_backoff ≤ d * 2 ^ suc rounds
above rounds d h = grind (arith, pow-pos (suc rounds))

min_of_le : (a b : ℕ) → b ≤ a → min a b ≡ b
min_of_le a b h = omega arith

no_wrap : (d : ℕ) → leb max_backoff d ≡ false → d * 2 % 2 ^ 64 ≡ d * 2
no_wrap d h = omega (arith, not_leb _ _ h)

pow_two : (n : ℕ) → 2 ^ suc n ≡ 2 * 2 ^ n
pow_two n = omega (arith, pow-suc 2 n)

backoff_loop_lem : (rounds d : ℕ) → backoff_loop rounds d ≡ min (d * 2 ^ rounds) max_backoff
unfolding backoff_loop
backoff_loop_lem zero d = omega arith
backoff_loop_lem (suc rounds) d = elim (Bool-cases (leb max_backoff d)) [
  | inl big ↦ rw big (sym (min_of_le _ _ (above rounds d (leb→le _ _ big))))
  | inr small ↦
      rw
        (
          small,
          no_wrap d small,
          backoff_loop_lem rounds (d * 2),
          mul_assoc d 2 (2 ^ rounds),
          ← pow_two rounds,
        )
        refl
]

-- The schedule is interval * 2^attempts, capped at five minutes: the doubling never wraps.
pub backoff-eq-min :
    (interval attempts : ℕ) → backoff interval attempts ≡ min (interval * 2 ^ attempts) max_backoff
unfolding backoff
backoff-eq-min interval attempts = backoff_loop_lem attempts interval

-- The wait never shortens from one attempt to the next, and is never above the cap.
pub backoff_mono :
    (interval attempts : ℕ)
    → (backoff interval attempts ≤ backoff interval (suc attempts))
      × (backoff interval attempts ≤ max_backoff)
backoff_mono interval attempts = omega (
  arith,
  backoff-eq-min interval attempts,
  backoff-eq-min interval (suc attempts),
  ap (λ (t : ℕ). interval * t) (pow_two attempts),
)
