-- ===== src/Outbox/Service.antt =====
-- What the publisher and the processor share: attempts, and the handling of a failed attempt
-- (packages/backend/src/closeros/application/outbox_publisher.py and outbox_processor.py, which
-- spell it out twice with another phase).
pub mod Failure
use closer_os.Prelude.{
  ℕ, suc, ◌+◌, max, Option, none, some, List, [], ◌∷◌, leb, if◌then◌else◌, Result, ok, err, ◌>>=◌,
  ◌>>◌,
}
use closer_os.Outbox.Types.{
  Uuid, Datetime, JobPhase, ErrorCode, AttemptOutcome, Outcome, max_attempts_exceeded,
  invariant_error, transition_error, claim_error, token_mismatch, failed,
}
use closer_os.Outbox.Job.{OutboxJob, JobAttempt, new_attempt}
use closer_os.Outbox.Operations
use closer_os.Outbox.Database.{Database, Session}
use closer_os.Outbox.Repository.{
  Raised, Run, persistence, domain, claim_mismatch, mark_dead_letter, schedule_retry,
}

-- The session, the attempts that have been appended (the newest first) and the UUIDs that have been
-- handed to the queue (the newest first).
pub record State : Type 0 where
  pub session : Session
  pub attempts : List JobAttempt
  pub queue : List Uuid

-- The messages of `OutboxPublisherError` and `OutboxProcessorError`.
pub data ServiceFailure : Type 0 where
  dead_letter_finalization_failed retry_scheduling_failed retry_persistence_failed : ServiceFailure

pub data Uncaught : Type 0 where
  raised : Raised → Uncaught
  service_error : ServiceFailure → Uncaught

abbrev pub Service : Type 0 → Type 0
Service A = Result Uncaught (A × State)

pub data JobOutcome : Type 0 where
  published retried dead_lettered not_claimed stale_claim succeeded : JobOutcome

abbrev pub from_domain : {A : Type 0} → Outcome A → Result Uncaught A
from_domain (ok a) = ok a
from_domain (err e) = err (raised (domain e))

-- `job.claim_token or uuid4()`, and the draws it makes
abbrev pub token_or_new : (ℕ → Uuid) → ℕ → Option Uuid → Uuid
token_or_new uuid4 n none = uuid4 n
token_or_new uuid4 n (some token) = token

abbrev pub draws : Option Uuid → ℕ
draws none = 2
draws (some token) = 1

-- `except OutboxClaimMismatchError` around a method; any other error passes.
abbrev pub or_service_error :
    ServiceFailure → JobOutcome → State → Run OutboxJob → Service JobOutcome
or_service_error failure outcome st (ok (job, session)) =
    ok (outcome, record st { session = session })
or_service_error failure outcome st (err (persistence claim_mismatch)) = err (service_error failure)
or_service_error failure outcome st (err e) = err (raised e)

-- `except OutboxTransitionError` around the domain's `schedule_retry`, whose result is dropped.
abbrev pub or_scheduling_failed : Outcome OutboxJob → Result Uncaught (Unit {0})
or_scheduling_failed (ok job) = ok tt
or_scheduling_failed (err (transition_error reason)) = err (service_error retry_scheduling_failed)
or_scheduling_failed (err e) = err (raised (domain e))

unfoldable pub dead_letter_job :
    OutboxJob → ErrorCode → (finished_at : Datetime) → State → Service JobOutcome
dead_letter_job job error_code finished_at st =
    or_service_error dead_letter_finalization_failed dead_lettered st
      (mark_dead_letter job.id job.claim_token error_code finished_at job.version st.session)

unfoldable pub retry_job :
    OutboxJob → JobPhase → ErrorCode → (finished_at : Datetime) → State → Service JobOutcome
retry_job job phase error_code finished_at st = do
  or_scheduling_failed
      (Operations.schedule_retry job job.claim_token phase error_code finished_at job.version)
  or_service_error retry_persistence_failed retried st
      (schedule_retry job.id job.claim_token error_code finished_at job.version phase st.session)

module _ (db : Database) where
  -- The attempt that `_append_attempt` constructs.
  abbrev pub built_attempt :
      OutboxJob
      → (phase : JobPhase) (started_at finished_at : Datetime) (outcome : AttemptOutcome)
        (error_code : Option ErrorCode)
      → State
      → JobAttempt
  built_attempt job phase started_at finished_at outcome error_code st = record {
    id = db.uuid4 st.session.drawn;
    job_id = job.id;
    attempt_number = max job.attempt_count 1;
    phase = phase;
    started_at = started_at;
    finished_at = finished_at;
    outcome = outcome;
    claim_token = token_or_new db.uuid4 (suc st.session.drawn) job.claim_token;
    error_code = error_code;
  }

  -- The state with the attempt appended and the UUIDs drawn.
  abbrev pub with_attempt : OutboxJob → JobAttempt → State → State
  with_attempt job attempt st = record st {
    session = record st.session { drawn = st.session.drawn + draws job.claim_token };
    attempts = attempt ∷ st.attempts;
  }

  unfoldable pub append_attempt :
      OutboxJob
      → (phase : JobPhase) (started_at finished_at : Datetime) (outcome : AttemptOutcome)
        (error_code : Option ErrorCode)
      → State
      → Result Uncaught State
  append_attempt job phase started_at finished_at outcome error_code st = do
    attempt ←
        from_domain
          (new_attempt (built_attempt job phase started_at finished_at outcome error_code st))
    ok (with_attempt job attempt st)

  unfoldable pub handle_failure :
      OutboxJob
      → (phase : JobPhase) (started_at finished_at : Datetime) (error_code : ErrorCode) → State
      → Service JobOutcome
  unfolding append_attempt dead_letter_job retry_job
  handle_failure job phase started_at finished_at error_code st = do
    st' ← append_attempt job phase started_at finished_at failed (some error_code) st
    if leb job.max_attempts (job.attempt_count + 1)
        then dead_letter_job job max_attempts_exceeded finished_at st'
        else retry_job job phase error_code finished_at st'
