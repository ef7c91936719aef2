-- ===== src/Outbox/Lifecycle/Budget.antt =====
-- The retry budget over a history of calls (packages/backend/src/closeros/domain/outbox.py).
use closer_os.Prelude.{
  ℕ, ◌+◌, ◌<◌, ◌≡◌, refl, Bool, true, false, ok, err, List, [], ◌∷◌, all, not, arith,
}
use closer_os.Outbox.Types.{Outcome}
use closer_os.Outbox.Job.{OutboxJob}
use closer_os.Outbox.Calls.{Call, apply, claims_for_publishing, schedules_retry, requeues}
use closer_os.Outbox.Contract.{after, apply-after}
use closer_os.Outbox.Invariant.{Inv}
use closer_os.Outbox.Lifecycle.{run, run-Inv, settle}

abbrev pub is_retry : Call → Bool
is_retry (schedules_retry t p code now v) = true
is_retry _ = false

abbrev pub is_requeue : Call → Bool
is_requeue (requeues now) = true
is_requeue _ = false

-- One, if the call is a retry that succeeds.
abbrev pub retried : Call → Outcome OutboxJob → ℕ
retried (schedules_retry t p code now v) (ok job) = 1
retried _ _ = 0

-- How many retries are scheduled in the course of the calls.
pub retries : OutboxJob → List Call → ℕ
retries job [] = 0
retries job (c ∷ cs) = retried c (apply job c) + retries (settle job (apply job c)) cs

abbrev SettledCount : OutboxJob → Call → Outcome OutboxJob → Type 0
SettledCount job c r = (settle job r).attempt_count ≡ retried c r + job.attempt_count

count_step :
    (job : OutboxJob) (c : Call) (r : Outcome OutboxJob)
    → is_requeue c ≡ false
    → ((job' : OutboxJob) → r ≡ ok job' → job' ≡ after job c)
    → SettledCount job c r
count_step job (claims_for_publishing t w now v) (ok job') q h = ground (arith, h job' refl)
count_step job (schedules_retry t p code now v) (ok job') q h = ground (arith, h job' refl)
count_step job c (ok job') q h = ground (arith, h job' refl)
count_step job (schedules_retry t p code now v) (err e) q h = ground arith
count_step job c (err e) q h = ground arith

settle_max :
    (job : OutboxJob) (c : Call) (r : Outcome OutboxJob)
    → ((job' : OutboxJob) → r ≡ ok job' → job' ≡ after job c)
    → (settle job r).max_attempts ≡ job.max_attempts
settle_max job (claims_for_publishing t w now v) (ok job') h = ground (arith, h job' refl)
settle_max job c (ok job') h = ground (arith, h job' refl)
settle_max job c (err e) h = refl

attempt_count-run :
    (job : OutboxJob) (cs : List Call)
    → all (λ c. not (is_requeue c)) cs ≡ true
    → ((run job cs).attempt_count ≡ retries job cs + job.attempt_count)
      × ((run job cs).max_attempts ≡ job.max_attempts)
unfolding run retries
attempt_count-run job [] q = (omega arith, refl)
attempt_count-run job (c ∷ cs) q = ground (
  arith,
  attempt_count-run (settle job (apply job c)) cs,
  λ (p : is_requeue c ≡ false). count_step job c (apply job c) p (λ job'. apply-after job job' c),
  settle_max job c (apply job c) (λ job'. apply-after job job' c),
)

-- A job is retried less than `max_attempts` times, whatever calls are made, as long as no dead
-- letter is requeued; the failures counted before the calls use the budget too.
pub retry_budget :
    (job : OutboxJob) (cs : List Call)
    → Inv job
    → all (λ c. not (is_requeue c)) cs ≡ true
    → job.attempt_count + retries job cs < job.max_attempts
retry_budget job cs i q = omega (arith, run-Inv job cs i, attempt_count-run job cs q)
