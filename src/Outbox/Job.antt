-- ===== src/Outbox/Job.antt =====
-- The records of packages/backend/src/closeros/domain/outbox.py and their `__post_init__` checks.
use closer_os.Prelude.{
  ℕ, ◌&&◌, not, Bool, Option, none, some, leb, same_option, is_some, ok, guard, ◌>>◌,
}
use closer_os.Outbox.Types.{
  Uuid, Text, Datetime, JobKind, JobState, JobPhase, ErrorCode, AttemptOutcome, Outcome, pending,
  invariant_error, reference_tenant_mismatch, finished_before_started, attempt_number_positive,
}
use closer_os.Outbox.Validate.{
  validate_deduplication_key, validate_worker_id, validate_resource_type, validate_priority,
  validate_max_attempts, validate_schema_version, validate_version, validate_job_tenant_scope,
}

pub record JobReference : Type 0 where
  pub resource_type : Text
  pub resource_id : Uuid
  pub schema_version : ℕ
  pub tenant_id : Option Uuid
  pub secondary_id : Option Uuid

-- `OutboxJobReference(...)`: the record, if `__post_init__` accepts it.
unfoldable pub new_reference : JobReference → Outcome JobReference
new_reference reference = do
  validate_resource_type reference.resource_type
  validate_schema_version reference.schema_version
  ok reference

pub record OutboxJob : Type 0 where
  pub id : Uuid
  pub tenant_id : Option Uuid
  pub job_kind : JobKind
  pub reference : JobReference
  pub deduplication_key : Text
  pub priority : ℕ
  pub state : JobState
  pub available_at : Datetime
  pub created_at : Datetime
  pub attempt_count : ℕ
  pub max_attempts : ℕ
  pub version : ℕ
  pub claim_token : Option Uuid
  pub claimed_by : Option Text
  pub claimed_at : Option Datetime
  pub claim_expires_at : Option Datetime
  pub published_at : Option Datetime
  pub processing_started_at : Option Datetime
  pub completed_at : Option Datetime
  pub last_error_code : Option ErrorCode

unfoldable pub validate_claimed_by : Option Text → Outcome Unit
validate_claimed_by none = ok tt
validate_claimed_by (some worker_id) = validate_worker_id worker_id

-- `self.reference.tenant_id is not None and self.reference.tenant_id != self.tenant_id`
unfoldable pub reference_tenant_differs : OutboxJob → Bool
reference_tenant_differs job =
    is_some job.reference.tenant_id && not (same_option job.reference.tenant_id job.tenant_id)

-- `OutboxJob.__post_init__`: the job, if every check passes. `replace` runs it again.
unfoldable pub post_init : OutboxJob → Outcome OutboxJob
post_init job = do
  validate_job_tenant_scope job.job_kind job.tenant_id
  guard (not (reference_tenant_differs job)) (invariant_error reference_tenant_mismatch)
  validate_deduplication_key job.deduplication_key
  validate_priority job.priority
  validate_max_attempts job.max_attempts
  validate_version job.version
  validate_claimed_by job.claimed_by
  ok job

pub record JobAttempt : Type 0 where
  pub id : Uuid
  pub job_id : Uuid
  pub attempt_number : ℕ
  pub phase : JobPhase
  pub started_at : Datetime
  pub finished_at : Datetime
  pub outcome : AttemptOutcome
  pub claim_token : Uuid
  pub error_code : Option ErrorCode

-- `OutboxJobAttempt(...)`: the record, if `__post_init__` accepts it.
unfoldable pub new_attempt : JobAttempt → Outcome JobAttempt
new_attempt attempt = do
  guard (leb 1 attempt.attempt_number) (invariant_error attempt_number_positive)
  guard (leb attempt.started_at attempt.finished_at) (invariant_error finished_before_started)
  ok attempt

abbrev pub resolve_available_at : Datetime → Option Datetime → Datetime
resolve_available_at created_at none = created_at
resolve_available_at created_at (some available_at) = available_at

abbrev pub pending_job :
    (job_id : Uuid) (tenant_id : Option Uuid) (job_kind : JobKind) (reference : JobReference)
    (deduplication_key : Text) (created_at : Datetime) (available_at : Option Datetime)
    (priority max_attempts : ℕ)
    → OutboxJob
pending_job job_id tenant_id job_kind reference key created_at available_at priority attempts =
    record {
      id = job_id;
      tenant_id = tenant_id;
      job_kind = job_kind;
      reference = reference;
      deduplication_key = key;
      priority = priority;
      state = pending;
      available_at = resolve_available_at created_at available_at;
      created_at = created_at;
      attempt_count = 0;
      max_attempts = attempts;
      version = 1;
      claim_token = none;
      claimed_by = none;
      claimed_at = none;
      claim_expires_at = none;
      published_at = none;
      processing_started_at = none;
      completed_at = none;
      last_error_code = none;
    }

unfoldable pub build_outbox_job :
    (job_id : Uuid) (tenant_id : Option Uuid) (job_kind : JobKind) (reference : JobReference)
    (deduplication_key : Text) (created_at : Datetime) (available_at : Option Datetime)
    (priority max_attempts : ℕ)
    → Outcome OutboxJob
build_outbox_job job_id tenant_id job_kind reference key created_at available_at priority attempts =
    post_init (
      pending_job job_id tenant_id job_kind reference key created_at available_at priority attempts)
