-- ===== src/Outbox/Backoff.antt =====
-- `calculate_retry_delay_seconds` of packages/backend/src/closeros/domain/outbox.py.
pub mod Bounds
use closer_os.Prelude.{ℕ, ◌-◌, ◌*◌, ◌^◌, min, ltb, if◌then◌else◌, ok, err}
use closer_os.Outbox.Types.{Outcome, invariant_error, retry_delay_attempt_count}

abbrev pub retry_base_delay_seconds : ℕ
retry_base_delay_seconds = 30

abbrev pub retry_max_delay_seconds : ℕ
retry_max_delay_seconds = 3600

abbrev pub retry_backoff_multiplier : ℕ
retry_backoff_multiplier = 2

unfoldable pub calculate_retry_delay_seconds : ℕ → Outcome ℕ
calculate_retry_delay_seconds attempt_count =
    if ltb attempt_count 1
    then err (invariant_error retry_delay_attempt_count)
    else (let exponent = attempt_count - 1 in
        let delay = retry_base_delay_seconds * (retry_backoff_multiplier ^ exponent) in
        ok (min retry_max_delay_seconds delay))
