-- ===== src/Outbox/Lifecycle.antt =====
-- The life of a job under any sequence of calls, those that are refused included
-- (packages/backend/src/closeros/domain/outbox.py).
pub mod Leases
pub mod Budget
pub mod Progress
use closer_os.Prelude.{
  ℕ, suc, ◌+◌, ◌≤◌, ◌<◌, ◌≡◌, ◌⊎◌, ◌≢◌, inl, inr, refl, Bool, true, false, Option, none, some, ok,
  err, List, [], ◌∷◌, arith, sym, subst,
}
use closer_os.Outbox.Types.{
  Uuid, Text, Datetime, Outcome, JobState, JobPhase, pending, publishing, published, processing,
  retry_scheduled, dead_letter, cancelled, allowed_transitions, claim_error, version_mismatch,
  transition_error,
}
use closer_os.Outbox.Validate.{worker_id_pattern}
use closer_os.Outbox.Job.{OutboxJob, post_init}
use closer_os.Outbox.Operations.{assert_expected_version}
use closer_os.Outbox.Calls.{
  Call, apply, claims_for_publishing, marks_published, schedules_retry, marks_dead_letter,
  claims_for_processing, marks_succeeded, recovers_publisher_claim, recovers_processor_claim,
  renews_claim, requeues,
}
use closer_os.Outbox.Contract.{Allowed, Holds, after, apply-Allowed, apply-after, apply-iff-Allowed}
use closer_os.Outbox.Invariant.{Inv, after-Inv}

-- A call that raises leaves the job as it was.
abbrev pub settle : OutboxJob → Outcome OutboxJob → OutboxJob
settle job (ok job') = job'
settle job (err e) = job

pub run : OutboxJob → List Call → OutboxJob
run job [] = job
run job (c ∷ cs) = run (settle job (apply job c)) cs

pub apply-Inv : (job job' : OutboxJob) (c : Call) → Inv job → apply job c ≡ ok job' → Inv job'
apply-Inv job job' c i h =
    subst Inv (sym (apply-after job job' c h)) (after-Inv job c i (apply-Allowed job c h))

settle-Inv :
    (job : OutboxJob) (r : Outcome OutboxJob)
    → Inv job
    → ((job' : OutboxJob) → r ≡ ok job' → Inv job')
    → Inv (settle job r)
settle-Inv job (ok job') i keep = keep job' refl
settle-Inv job (err e) i keep = i

-- From a job that satisfies the invariant, any sequence of calls, refused ones included, leads to a
-- job that satisfies it.
pub run-Inv : (job : OutboxJob) (cs : List Call) → Inv job → Inv (run job cs)
unfolding run
run-Inv job [] i = i
run-Inv job (c ∷ cs) i =
    run-Inv (settle job (apply job c)) cs
      (settle-Inv job (apply job c) i λ job' h. apply-Inv job job' c i h)

abbrev is_renewal : Call → Bool
is_renewal (renews_claim t now v) = true
is_renewal _ = false

-- A successful call moves the job along the transition table, except that a renewal keeps its state.
-- It raises the version by one and keeps the id, the tenant and the retry budget.
pub apply-transition :
    (job job' : OutboxJob) (c : Call)
    → apply job c ≡ ok job'
    → ((allowed_transitions job.state job'.state ≡ true)
        ⊎ ((is_renewal c ≡ true) × (job'.state ≡ job.state)))
      × (job'.version ≡ job.version + 1)
      × (job'.id ≡ job.id)
      × (job'.tenant_id ≡ job.tenant_id)
      × (job'.max_attempts ≡ job.max_attempts)
unfolding allowed_transitions
apply-transition job job' (claims_for_publishing t w now v) h = ground (
  arith,
  apply-Allowed job (claims_for_publishing t w now v) h,
  apply-after job job' (claims_for_publishing t w now v) h,
)
apply-transition job job' (schedules_retry t JobPhase.publisher code now v) h = ground (
  arith,
  apply-Allowed job (schedules_retry t JobPhase.publisher code now v) h,
  apply-after job job' (schedules_retry t JobPhase.publisher code now v) h,
)
apply-transition job job' c h = ground (arith, apply-Allowed job c h, apply-after job job' c h)

-- The version that a call was made with, if it is checked.
abbrev expected_version : Call → Option ℕ
expected_version (claims_for_publishing token worker_id now version) = some version
expected_version (marks_published token now version) = some version
expected_version (schedules_retry token phase code now version) = some version
expected_version (marks_dead_letter token code now version) = some version
expected_version (claims_for_processing token worker_id now version) = some version
expected_version (marks_succeeded token now version) = some version
expected_version (renews_claim token now version) = some version
expected_version _ = none

apply-version_mismatch :
    (job : OutboxJob) (c : Call) (v : ℕ)
    → expected_version c ≡ some v
    → job.version ≢ v
    → apply job c ≡ err (claim_error version_mismatch)
unfolding apply
apply-version_mismatch job (claims_for_publishing t w now v') v e ne = ground arith
apply-version_mismatch job c v e ne = ground arith

settle-version :
    (job : OutboxJob) (r : Outcome OutboxJob)
    → ((job' : OutboxJob) → r ≡ ok job' → job'.version ≡ job.version + 1)
    → job.version ≤ (settle job r).version
settle-version job (ok job') h = ground (arith, h job' refl)
settle-version job (err e) h = omega arith

run-version : (job : OutboxJob) (cs : List Call) → job.version ≤ (run job cs).version
unfolding run
run-version job [] = omega arith
run-version job (c ∷ cs) = omega (
  arith,
  run-version (settle job (apply job c)) cs,
  settle-version job (apply job c) (λ job' h. (apply-transition job job' c h).1),
)

-- Once a call has succeeded on a job, a call that expects the version the job had before is refused
-- with a version mismatch, whatever calls are made in between.
pub stale_version :
    (job job' : OutboxJob) (c d : Call) (cs : List Call)
    → apply job c ≡ ok job'
    → expected_version d ≡ some job.version
    → apply (run job' cs) d ≡ err (claim_error version_mismatch)
stale_version job job' c d cs h e =
    apply-version_mismatch (run job' cs) d job.version e
      (λ p. absurd (omega (arith, run-version job' cs, (apply-transition job job' c h).1)))
