-- ===== src/Outbox/Backoff/Bounds.antt =====
-- The retry delay of packages/backend/src/closeros/domain/outbox.py: its values and its bounds.
use closer_os.Prelude.{
  ℕ, suc, ◌-◌, ◌*◌, ◌^◌, ◌≤◌, ◌<◌, min, ◌≡◌, ok, err, ltb, if◌then◌else◌, arith,
}
use closer_os.Outbox.Types.{invariant_error, retry_delay_attempt_count}
use closer_os.Outbox.Backoff.{calculate_retry_delay_seconds}
use native.Mathlib.Nat.{pow-le-pow_right}

pow_mono : {i j : ℕ} → i ≤ j → 2 ^ i ≤ 2 ^ j
pow_mono h = pow-le-pow_right (omega arith) h

below_cap : (n : ℕ) → n < 7 → min 3600 (30 * 2 ^ n) ≡ 30 * 2 ^ n
below_cap n h = omega (arith, pow_mono {i = n} {j = 6} (omega arith))

above_cap : (n : ℕ) → 7 ≤ n → min 3600 (30 * 2 ^ n) ≡ 3600
above_cap n h = omega (arith, pow_mono h)

sub_one : (n : ℕ) → suc n - 1 ≡ n
sub_one n = omega arith

-- The delay of attempt `n` as a table: 30, 60, 120, 240, 480, 960 and 1920 seconds for the first
-- seven attempts, an hour from the eighth on, and an error for attempt 0.
abbrev pub delay_table : ℕ → ℕ
delay_table n = if ltb n 7 then 30 * 2 ^ n else 3600

-- Attempt 0 is refused, and attempt `n + 1` waits `30 * 2 ^ n` seconds if `n < 7`, 3600 otherwise.
pub retry_delay_table :
    (n : ℕ)
    → (calculate_retry_delay_seconds 0 ≡ err (invariant_error retry_delay_attempt_count))
      × (calculate_retry_delay_seconds (suc n) ≡ ok (delay_table n))
unfolding calculate_retry_delay_seconds
retry_delay_table n = (ground arith, ground (arith, below_cap n, above_cap n, sub_one n))

-- The delays of two attempts, the second no earlier than the first: each lies between 30 seconds
-- and an hour, and the second is no shorter than the first.
retry_delay_bounds :
    (m n d e : ℕ)
    → m ≤ n
    → calculate_retry_delay_seconds m ≡ ok d
    → calculate_retry_delay_seconds n ≡ ok e
    → (30 ≤ d) × (d ≤ e) × (e ≤ 3600)
unfolding calculate_retry_delay_seconds
retry_delay_bounds m n d e h p q = ground (
  arith,
  pow_mono {i = m - 1} {j = n - 1} (omega arith),
  pow_mono {i = 0} {j = m - 1} (omega arith),
)
