-- ===== src/Outbox/Contract.antt =====
-- An independent description of the calls of packages/backend/src/closeros/domain/outbox.py: the
-- condition under which each one succeeds, in terms of states, tokens, times and the retry budget,
-- and the job that it leaves. `apply` is compared with it.
use closer_os.Prelude.{
  Option, none, ℕ, ◌+◌, ◌*◌, ◌^◌, ◌≤◌, ◌<◌, min, ◌≡◌, ◌⊎◌, ◌↔◌, true, ◌∙◌, ap, sym, some, ok, arith,
}
use closer_os.Outbox.Types.{
  Uuid, Datetime, JobState, JobPhase, pending, publishing, published, processing, retry_scheduled,
  dead_letter, publisher, processor,
}
use closer_os.Outbox.Validate.{worker_id_pattern, validate_worker_id, validate_version}
use closer_os.Outbox.Job.{OutboxJob, post_init, validate_claimed_by, reference_tenant_differs}
use closer_os.Outbox.Calls.{
  Call, apply, claims_for_publishing, marks_published, schedules_retry, marks_dead_letter,
  claims_for_processing, marks_succeeded, recovers_publisher_claim, recovers_processor_claim,
  renews_claim, requeues,
}

-- The caller holds the claim: the version that it read, its token, and a lease that still runs.
pub record Holds (job : OutboxJob) (token : Option Uuid) (now : Datetime) (version : ℕ)
    : Type 0 where
  pub same_version : job.version ≡ version
  pub same_token : job.claim_token ≡ token
  pub expires_at : Datetime
  pub expiry : job.claim_expires_at ≡ some expires_at
  pub running : now < expires_at

-- The lease has run out.
pub record LeaseOver (job : OutboxJob) (now : Datetime) : Type 0 where
  pub expires_at : Datetime
  pub expiry : job.claim_expires_at ≡ some expires_at
  pub over : expires_at ≤ now

abbrev pub phase_state : JobPhase → JobState
phase_state publisher = publishing
phase_state processor = processing

-- The call is allowed on the job.
abbrev pub Allowed : OutboxJob → Call → Type 0
Allowed job (claims_for_publishing token worker_id now version) =
    (job.version ≡ version)
    × ((job.state ≡ pending) ⊎ (job.state ≡ retry_scheduled))
    × (job.available_at ≤ now)
    × (worker_id_pattern worker_id ≡ true)
Allowed job (marks_published token now version) =
    (job.state ≡ publishing) × Holds job token now version
Allowed job (schedules_retry token phase code now version) =
    (job.state ≡ phase_state phase)
    × Holds job token now version
    × (job.attempt_count + 1 < job.max_attempts)
Allowed job (marks_dead_letter token code now version) =
    ((job.state ≡ publishing) ⊎ (job.state ≡ processing)) × Holds job token now version
Allowed job (claims_for_processing token worker_id now version) =
    (job.version ≡ version)
    × (job.state ≡ published)
    × (job.available_at ≤ now)
    × (worker_id_pattern worker_id ≡ true)
Allowed job (marks_succeeded token now version) =
    (job.state ≡ processing) × Holds job token now version
Allowed job (recovers_publisher_claim now) = (job.state ≡ publishing) × LeaseOver job now
Allowed job (recovers_processor_claim now) = (job.state ≡ processing) × LeaseOver job now
Allowed job (renews_claim token now version) =
    (job.state ≡ processing) × Holds job token now version
Allowed job (requeues now) = job.state ≡ dead_letter

-- The job that the call leaves, with every field that changes written out; times are microseconds.
-- A publisher leases a job for 60 seconds and a processor for 300. A retry waits
-- `min 3600 (30 * 2 ^ n)` seconds after `n` failures.
abbrev pub after : OutboxJob → Call → OutboxJob
after job (claims_for_publishing token worker_id now version) = record job {
  state = publishing;
  claim_token = some token;
  claimed_by = some worker_id;
  claimed_at = some now;
  claim_expires_at = some (now + 60 * 1000000);
  version = job.version + 1;
}
after job (marks_published token now version) = record job {
  state = published;
  claim_token = none;
  claimed_by = none;
  claimed_at = none;
  claim_expires_at = none;
  published_at = some now;
  last_error_code = none;
  version = job.version + 1;
}
after job (schedules_retry token publisher code now version) = record job {
  state = retry_scheduled;
  claim_token = none;
  claimed_by = none;
  claimed_at = none;
  claim_expires_at = none;
  attempt_count = job.attempt_count + 1;
  available_at = now + min 3600 (30 * 2 ^ job.attempt_count) * 1000000;
  last_error_code = some code;
  version = job.version + 1;
}
after job (schedules_retry token processor code now version) = record job {
  state = retry_scheduled;
  claim_token = none;
  claimed_by = none;
  claimed_at = none;
  claim_expires_at = none;
  attempt_count = job.attempt_count + 1;
  available_at = now + min 3600 (30 * 2 ^ job.attempt_count) * 1000000;
  processing_started_at = none;
  published_at = none;
  last_error_code = some code;
  version = job.version + 1;
}
after job (marks_dead_letter token code now version) = record job {
  state = dead_letter;
  claim_token = none;
  claimed_by = none;
  claimed_at = none;
  claim_expires_at = none;
  completed_at = some now;
  last_error_code = some code;
  version = job.version + 1;
}
after job (claims_for_processing token worker_id now version) = record job {
  state = processing;
  claim_token = some token;
  claimed_by = some worker_id;
  claimed_at = some now;
  claim_expires_at = some (now + 300 * 1000000);
  processing_started_at = some now;
  version = job.version + 1;
}
after job (marks_succeeded token now version) = record job {
  state = JobState.succeeded;
  claim_token = none;
  claimed_by = none;
  claimed_at = none;
  claim_expires_at = none;
  completed_at = some now;
  last_error_code = none;
  version = job.version + 1;
}
after job (recovers_publisher_claim now) = record job {
  state = pending;
  claim_token = none;
  claimed_by = none;
  claimed_at = none;
  claim_expires_at = none;
  version = job.version + 1;
}
after job (recovers_processor_claim now) = record job {
  state = published;
  claim_token = none;
  claimed_by = none;
  claimed_at = none;
  claim_expires_at = none;
  processing_started_at = none;
  version = job.version + 1;
}
after job (renews_claim token now version) = record job {
  claim_expires_at = some (now + 300 * 1000000);
  version = job.version + 1;
}
after job (requeues now) = record job {
  state = pending;
  claim_token = none;
  claimed_by = none;
  claimed_at = none;
  claim_expires_at = none;
  attempt_count = 0;
  available_at = now;
  completed_at = none;
  published_at = none;
  processing_started_at = none;
  last_error_code = none;
  version = job.version + 1;
}

-- `__post_init__` changes nothing.
pub post_init-eq : (job job' : OutboxJob) → post_init job ≡ ok job' → job ≡ job'
unfolding post_init
post_init-eq job job' h = ground arith

-- A call that returns was allowed.
pub apply-Allowed :
    (job : OutboxJob) (c : Call) {job' : OutboxJob} → apply job c ≡ ok job' → Allowed job c
unfolding apply validate_worker_id
apply-Allowed job (claims_for_publishing t w now v) h = ground arith
apply-Allowed job _ h = ground arith

pub apply-after : (job job' : OutboxJob) (c : Call) → apply job c ≡ ok job' → job' ≡ after job c
unfolding apply
apply-after job job' (claims_for_publishing t w now v) h =
    ground (arith, post_init-eq (after job (claims_for_publishing t w now v)) job')
apply-after job job' c h = ground (arith, post_init-eq (after job c) job')

-- The checks of `__post_init__` read only what no call changes, the version and the worker.
pub post_init-after :
    (job : OutboxJob) (c : Call)
    → post_init job ≡ ok job
    → Allowed job c
    → post_init (after job c) ≡ ok (after job c)
unfolding post_init validate_version validate_claimed_by validate_worker_id reference_tenant_differs
post_init-after job (claims_for_publishing t w now v) h a = ground arith
post_init-after job c h a = ground arith

pub apply_of_Allowed :
    (job : OutboxJob) (c : Call)
    → post_init job ≡ ok job
    → Allowed job c
    → apply job c ≡ ok (after job c)
unfolding apply validate_worker_id
apply_of_Allowed job (claims_for_publishing t w now v) h a =
    ground (arith, post_init-after job (claims_for_publishing t w now v))
apply_of_Allowed job c h a = ground (arith, post_init-after job c)

-- For a job that `__post_init__` accepts, a call returns exactly when it is allowed, and what it
-- returns is the job that the description names: no other guard refuses it, and no check of the
-- new job fails.
pub apply-iff-Allowed :
    (job job' : OutboxJob) (c : Call)
    → post_init job ≡ ok job
    → (apply job c ≡ ok job') ↔ (Allowed job c × (job' ≡ after job c))
apply-iff-Allowed job job' c valid = (
  λ h. (apply-Allowed job c h, apply-after job job' c h),
  λ (a, e). apply_of_Allowed job c valid a ∙ ap ok (sym e),
)
