-- ===== src/Outbox/Repository.antt =====
-- `SqlAlchemyOutboxJobRepository`
-- (packages/backend/src/closeros/infrastructure/outbox_repositories.py) and the errors of
-- packages/backend/src/closeros/application/outbox_persistence.py. A method takes the session and
-- returns its result with the new session, or what it raises: every error of a method that changes
-- one job is raised before the row is written. A write of a job that passed `__post_init__` meets
-- the table's check constraints, so only `enqueue` can fail to flush.
pub mod Claims
pub mod Enqueue
pub mod Methods
pub mod Table
pub mod Writes
pub mod Batch
pub mod Selection
pub mod Dedup
pub mod Reuse
use closer_os.Prelude.{
  ℕ, zero, suc, ◌≤◌, Bool, true, false, ◌&&◌, ◌||◌, not, Option, none, some, List, [], ◌∷◌, map,
  ltb, leb, ◌==◌, if◌then◌else◌, same_option, take, length, Result, ok, err, guard, ◌>>=◌, ◌>>◌,
}
use closer_os.Outbox.Types.{
  Uuid, Text, Datetime, JobKind, JobState, JobPhase, ErrorCode, Outcome, OutboxError,
  invariant_error, transition_error, claim_error, pending, publishing, published, processing,
  retry_scheduled, dead_letter, is_pending, is_retry_scheduled, is_published, is_publishing,
  is_processing,
}
use closer_os.Outbox.Job.{OutboxJob}
use closer_os.Outbox.Operations
use closer_os.Outbox.Rows.{JobRow, outbox_job_to_row, outbox_job_to_domain, update_outbox_job_row}
use closer_os.Outbox.Database.{Database, Session, get_row, write_row, where_rows}

pub data PersistenceError : Type 0 where
  integrity_error record_not_found duplicate_outbox_job stale_version claim_mismatch :
      PersistenceError

-- What a method may raise: a persistence error, a domain error that it does not translate, or
-- `ValueError`, or SQLAlchemy's error for a session that a failed flush has left to be rolled back.
pub data Raised : Type 0 where
  persistence : PersistenceError → Raised
  domain : OutboxError → Raised
  value_error : Raised
  pending_rollback : Raised

abbrev pub Run : Type 0 → Type 0
Run A = Result Raised (A × Session)

-- `except OutboxClaimError` and `except OutboxTransitionError`: both become
-- `OutboxClaimMismatchError`.
abbrev pub mapped : {A : Type 0} → Outcome A → Result Raised A
mapped (ok a) = ok a
mapped (err (claim_error reason)) = err (persistence claim_mismatch)
mapped (err (transition_error reason)) = err (persistence claim_mismatch)
mapped (err (invariant_error reason)) = err (domain (invariant_error reason))

-- The construction of a domain job from a row is outside the `try`.
abbrev pub loaded : {A : Type 0} → Outcome A → Result Raised A
loaded (ok a) = ok a
loaded (err e) = err (domain e)

abbrev pub required : Option JobRow → Result Raised JobRow
required none = err (persistence record_not_found)
required (some row) = ok row

unfoldable pub get_job_row_required : Uuid → Session → Result Raised JobRow
get_job_row_required job_id s = required (get_row job_id s.rows)

-- The session after the row has been overwritten with the updated job.
abbrev pub saved : JobRow → OutboxJob → Session → Session
saved row updated s = record s { rows = write_row (update_outbox_job_row row updated) s.rows }

-- The common body of the methods that take `expected_version`: load the row, apply the domain
-- operation, test the version once more, and write.
unfoldable pub update_versioned :
    Uuid → ℕ → (OutboxJob → Outcome OutboxJob) → Session → Run OutboxJob
unfolding get_job_row_required
update_versioned job_id expected_version operation s = do
  row ← get_job_row_required job_id s
  current ← loaded (outbox_job_to_domain row)
  updated ← mapped (operation current)
  guard (row.version == expected_version) (persistence stale_version)
  ok (updated, saved row updated s)

unfoldable pub mark_published :
    Uuid → (claim_token : Option Uuid) (now : Datetime) (version : ℕ) → Session → Run OutboxJob
unfolding update_versioned
mark_published job_id claim_token now version s =
    update_versioned job_id version (λ job. Operations.mark_published job claim_token now version) s

unfoldable pub schedule_retry :
    Uuid
    → (claim_token : Option Uuid) (error_code : ErrorCode) (now : Datetime) (version : ℕ)
      (phase : JobPhase)
    → Session
    → Run OutboxJob
unfolding update_versioned
schedule_retry job_id claim_token error_code now version phase s =
    update_versioned job_id version
      (λ job. Operations.schedule_retry job claim_token phase error_code now version) s

unfoldable pub mark_dead_letter :
    Uuid
    → (claim_token : Option Uuid) (error_code : ErrorCode) (now : Datetime) (version : ℕ) → Session
    → Run OutboxJob
unfolding update_versioned
mark_dead_letter job_id claim_token error_code now version s =
    update_versioned job_id version
      (λ job. Operations.mark_dead_letter job claim_token error_code now version) s

unfoldable pub mark_succeeded :
    Uuid → (claim_token : Option Uuid) (now : Datetime) (version : ℕ) → Session → Run OutboxJob
unfolding update_versioned
mark_succeeded job_id claim_token now version s =
    update_versioned job_id version (λ job. Operations.mark_succeeded job claim_token now version) s

unfoldable pub renew_processor_claim :
    Uuid → (claim_token : Option Uuid) (now : Datetime) (version : ℕ) → Session → Run OutboxJob
unfolding update_versioned
renew_processor_claim job_id claim_token now version s =
    update_versioned job_id version
      (λ job. Operations.renew_processor_claim job claim_token now version) s

unfoldable pub requeue_dead_letter : Uuid → (now : Datetime) → Session → Run OutboxJob
unfolding get_job_row_required
requeue_dead_letter job_id now s = do
  row ← get_job_row_required job_id s
  current ← loaded (outbox_job_to_domain row)
  updated ← mapped (Operations.requeue_dead_letter current now)
  ok (updated, saved row updated s)
