-- ===== src/Outbox/Publisher.antt =====
-- `OutboxPublisherService` (packages/backend/src/closeros/application/outbox_publisher.py). The
-- queue is a parameter: for each job, whether the call that hands its UUID over returns.
pub mod Batch
use closer_os.Prelude.{
  ℕ, suc, Bool, true, false, Option, none, some, List, [], ◌∷◌, length, if◌then◌else◌, ok, err,
  ◌>>=◌,
}
use closer_os.Outbox.Types.{
  Uuid, Text, Datetime, JobKind, ErrorCode, publisher, queue_unavailable, publish_failed,
  stale_claim, AttemptOutcome, failed,
}
use closer_os.Outbox.Job.{OutboxJob}
use closer_os.Outbox.Database.{Database}
use closer_os.Outbox.Repository.{
  Raised, Run, persistence, domain, value_error, pending_rollback, claim_mismatch, mark_published,
}
use closer_os.Outbox.Repository.Claims.{claim_publisher_batch}
use closer_os.Outbox.Service.{
  State, Uncaught, raised, Service, JobOutcome, published, retried, dead_lettered, append_attempt,
  handle_failure,
}

pub record PublisherResult : Type 0 where
  pub claimed_count : ℕ
  pub published_count : ℕ
  pub retried_count : ℕ
  pub dead_lettered_count : ℕ

-- The counting `if` of the loop; `else` counts a dead letter.
abbrev pub counted : JobOutcome → PublisherResult → PublisherResult
counted published r = record r { published_count = suc r.published_count }
counted retried r = record r { retried_count = suc r.retried_count }
counted _ r = record r { dead_lettered_count = suc r.dead_lettered_count }

module _ (db : Database) (queue_accepts : Uuid → Bool) where
  unfoldable pub handle_publish_failure :
      OutboxJob → (started_at now : Datetime) → ErrorCode → State → Service JobOutcome
  unfolding handle_failure
  handle_publish_failure job started_at now error_code st =
      handle_failure db job publisher started_at now error_code st

  -- The `try` around `mark_published` and what follows it.
  unfoldable pub after_mark_published :
      OutboxJob → (now : Datetime) → State → Run OutboxJob → Service JobOutcome
  unfolding handle_publish_failure append_attempt
  after_mark_published job now st (ok (updated, session)) = do
    st' ←
        append_attempt db updated publisher now now AttemptOutcome.succeeded none
          (record st { session = session })
    ok (published, st')
  after_mark_published job now st (err (persistence claim_mismatch)) = do
    st' ← append_attempt db job publisher now now failed (some stale_claim) st
    ok (retried, st')
  after_mark_published job now st (err (persistence e)) =
      handle_publish_failure job now now publish_failed st
  after_mark_published job now st (err (domain e)) = err (raised (domain e))
  after_mark_published job now st (err value_error) = err (raised value_error)
  after_mark_published job now st (err pending_rollback) = err (raised pending_rollback)

  unfoldable pub publish_one : OutboxJob → (now : Datetime) → State → Service JobOutcome
  unfolding after_mark_published handle_publish_failure
  publish_one job now st =
      if queue_accepts job.id
      then after_mark_published job now (record st { queue = job.id ∷ st.queue })
          (mark_published job.id job.claim_token now job.version st.session)
      else handle_publish_failure job now now queue_unavailable st

  unfoldable pub publish_all :
      (now : Datetime) → List OutboxJob → PublisherResult → State → Service PublisherResult
  publish_all now [] result st = ok (result, st)
  publish_all now (job ∷ jobs) result st = do
    (outcome, st') ← publish_one job now st
    publish_all now jobs (counted outcome result) st'

  -- A claim that raises ends the batch.
  abbrev pub from_run : {A : Type 0} → State → Run A → Service A
  from_run st (ok (a, session)) = ok (a, record st { session = session })
  from_run st (err e) = err (raised e)

  unfoldable pub publish_batch :
      (worker_id : Text) (now : Datetime) (batch_size : ℕ) (kinds : Option (JobKind → Bool))
      → State
      → Service PublisherResult
  unfolding publish_all
  publish_batch worker_id now batch_size kinds st = do
    (claimed_jobs, st') ←
        from_run st (claim_publisher_batch db worker_id now batch_size kinds st.session)
    publish_all now claimed_jobs
        (record {
          claimed_count = length claimed_jobs;
          published_count = 0;
          retried_count = 0;
          dead_lettered_count = 0;
        })
        st'
