-- ===== src/Outbox/Rows.antt =====
-- Rows of the table `outbox_jobs` and their mappers
-- (packages/backend/src/closeros/infrastructure/outbox_mappers.py, outbox_orm.py).
pub mod RoundTrip
use closer_os.Prelude.{ℕ, Option, ◌>>=◌}
use closer_os.Outbox.Types.{Uuid, Text, Datetime, JobKind, JobState, ErrorCode, Outcome}
use closer_os.Outbox.Job.{JobReference, new_reference, OutboxJob, post_init}

pub record JobRow : Type 0 where
  pub id : Uuid
  pub tenant_id : Option Uuid
  pub job_kind : JobKind
  pub resource_type : Text
  pub resource_id : Uuid
  pub secondary_resource_id : Option Uuid
  pub schema_version : ℕ
  pub deduplication_key : Text
  pub priority : ℕ
  pub state : JobState
  pub available_at : Datetime
  pub created_at : Datetime
  pub attempt_count : ℕ
  pub max_attempts : ℕ
  pub claim_token : Option Uuid
  pub claimed_by : Option Text
  pub claimed_at : Option Datetime
  pub claim_expires_at : Option Datetime
  pub published_at : Option Datetime
  pub processing_started_at : Option Datetime
  pub completed_at : Option Datetime
  pub last_error_code : Option ErrorCode
  pub version : ℕ

abbrev pub outbox_job_to_row : OutboxJob → JobRow
outbox_job_to_row job = record {
  id = job.id;
  tenant_id = job.tenant_id;
  job_kind = job.job_kind;
  resource_type = job.reference.resource_type;
  resource_id = job.reference.resource_id;
  secondary_resource_id = job.reference.secondary_id;
  schema_version = job.reference.schema_version;
  deduplication_key = job.deduplication_key;
  priority = job.priority;
  state = job.state;
  available_at = job.available_at;
  created_at = job.created_at;
  attempt_count = job.attempt_count;
  max_attempts = job.max_attempts;
  claim_token = job.claim_token;
  claimed_by = job.claimed_by;
  claimed_at = job.claimed_at;
  claim_expires_at = job.claim_expires_at;
  published_at = job.published_at;
  processing_started_at = job.processing_started_at;
  completed_at = job.completed_at;
  last_error_code = job.last_error_code;
  version = job.version;
}

-- The reference and the job that `outbox_job_to_domain` constructs; the reference takes the tenant
-- of the row.
abbrev pub row_reference : JobRow → JobReference
row_reference row = record {
  resource_type = row.resource_type;
  resource_id = row.resource_id;
  schema_version = row.schema_version;
  tenant_id = row.tenant_id;
  secondary_id = row.secondary_resource_id;
}

abbrev pub row_job : JobRow → OutboxJob
row_job row = record {
  id = row.id;
  tenant_id = row.tenant_id;
  job_kind = row.job_kind;
  reference = row_reference row;
  deduplication_key = row.deduplication_key;
  priority = row.priority;
  state = row.state;
  available_at = row.available_at;
  created_at = row.created_at;
  attempt_count = row.attempt_count;
  max_attempts = row.max_attempts;
  version = row.version;
  claim_token = row.claim_token;
  claimed_by = row.claimed_by;
  claimed_at = row.claimed_at;
  claim_expires_at = row.claim_expires_at;
  published_at = row.published_at;
  processing_started_at = row.processing_started_at;
  completed_at = row.completed_at;
  last_error_code = row.last_error_code;
}

unfoldable pub outbox_job_to_domain : JobRow → Outcome OutboxJob
outbox_job_to_domain row = do reference ← new_reference (row_reference row); post_init (row_job row)

-- Every column but the key `id` is written.
abbrev pub update_outbox_job_row : JobRow → OutboxJob → JobRow
update_outbox_job_row row job = record (outbox_job_to_row job) { id = row.id }
