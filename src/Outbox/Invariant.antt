-- ===== src/Outbox/Invariant.antt =====
-- What holds of a job of packages/backend/src/closeros/domain/outbox.py between two calls.
use closer_os.Prelude.{ℕ, ◌≤◌, ◌<◌, ◌≡◌, Bool, true, false, Option, none, is_some, ok, arith}
use closer_os.Outbox.Types.{
  Text, Uuid, Datetime, JobKind, JobState, pending, publishing, published, processing,
  retry_scheduled, dead_letter,
}
use closer_os.Outbox.Validate.{validate_max_attempts}
use closer_os.Outbox.Job.{JobReference, OutboxJob, post_init, pending_job, build_outbox_job}
use closer_os.Outbox.Calls.{Call, claims_for_publishing}
use closer_os.Outbox.Contract.{Allowed, after, post_init-eq, post_init-after}

abbrev pub is_claimed : JobState → Bool
is_claimed publishing = true
is_claimed processing = true
is_claimed _ = false

abbrev pub is_before_publication : JobState → Bool
is_before_publication pending = true
is_before_publication publishing = true
is_before_publication retry_scheduled = true
is_before_publication _ = false

abbrev pub is_before_processing : JobState → Bool
is_before_processing published = true
is_before_processing state = is_before_publication state

abbrev pub is_after_publication : JobState → Bool
is_after_publication published = true
is_after_publication processing = true
is_after_publication JobState.succeeded = true
is_after_publication _ = false

abbrev pub is_completed : JobState → Bool
is_completed JobState.succeeded = true
is_completed dead_letter = true
is_completed _ = false

pub record Inv (job : OutboxJob) : Type 0 where
  pub valid : post_init job ≡ ok job
  pub token_held : is_some job.claim_token ≡ is_claimed job.state
  pub worker_held : is_some job.claimed_by ≡ is_claimed job.state
  pub claim_time_held : is_some job.claimed_at ≡ is_claimed job.state
  pub expiry_held : is_some job.claim_expires_at ≡ is_claimed job.state
  pub not_published : is_before_publication job.state ≡ true → job.published_at ≡ none
  pub was_published : is_after_publication job.state ≡ true → is_some job.published_at ≡ true
  pub not_started : is_before_processing job.state ≡ true → job.processing_started_at ≡ none
  pub was_started : job.state ≡ processing → is_some job.processing_started_at ≡ true
  pub completed : is_some job.completed_at ≡ is_completed job.state
  pub within_budget : job.attempt_count < job.max_attempts

post_init-budget : (job job' : OutboxJob) → post_init job ≡ ok job' → 1 ≤ job.max_attempts
unfolding post_init validate_max_attempts
post_init-budget job job' h = ground arith

-- A job that `build_outbox_job` returns satisfies the invariant.
pub build_outbox_job-Inv :
    (id : Uuid) (tenant_id : Option Uuid) (kind : JobKind) (reference : JobReference) (key : Text)
    (created_at : Datetime) (available_at : Option Datetime) (priority attempts : ℕ)
    (job : OutboxJob)
    → build_outbox_job id tenant_id kind reference key created_at available_at priority attempts
      ≡ ok job
    → Inv job
unfolding build_outbox_job
build_outbox_job-Inv id tenant_id kind reference key created_at available_at priority attempts job
      h =
    let new =
      pending_job id tenant_id kind reference key created_at available_at priority attempts in
    ground (arith, post_init-eq new job, post_init-budget new job)

pub after-Inv : (job : OutboxJob) (c : Call) → Inv job → Allowed job c → Inv (after job c)
after-Inv job (claims_for_publishing t w now v) i a =
    ground (arith, post_init-after job (claims_for_publishing t w now v))
after-Inv job c i a = ground (arith, post_init-after job c)
