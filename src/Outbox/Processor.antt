-- ===== src/Outbox/Processor.antt =====
-- `OutboxProcessorService` (packages/backend/src/closeros/application/outbox_processor.py). The
-- handlers are parameters. While a handler runs, the lease is renewed at the ticks of a timer;
-- before each tick, and before the handler ends, other workers may change the table. The readings
-- of the clock are arguments. A renewal between the end of a failing handler and the end of the
-- failure handling is not modelled.
use closer_os.Prelude.{
  Bool, Option, none, some, List, [], ◌∷◌, if◌then◌else◌, Result, ok, err, ◌>>=◌,
}
use closer_os.Outbox.Types.{
  Uuid, Text, Datetime, JobKind, ErrorCode, processor, handler_not_implemented, handler_failed,
  stale_claim, AttemptOutcome, failed,
}
use closer_os.Outbox.Job.{OutboxJob}
use closer_os.Outbox.Database.{Database, Session}
use closer_os.Outbox.Repository.{
  Run, persistence, claim_mismatch, mark_succeeded, renew_processor_claim,
}
use closer_os.Outbox.Repository.Claims.{claim_for_processing}
use closer_os.Outbox.Service.{
  State, raised, Service, JobOutcome, not_claimed, succeeded, append_attempt, handle_failure,
  dead_letter_job,
}

-- What a handler raises: one of the typed handler errors, with its fields, or another exception.
pub data HandlerError : Type 0 where
  typed : (error_code : ErrorCode) (permanent : Bool) → HandlerError
  other : HandlerError

abbrev pub Handler : Type 0
Handler = OutboxJob → Result HandlerError (Unit {0})

pub record TypedHandlerFailure : Type 0 where
  pub error_code : ErrorCode
  pub permanent : Bool

unfoldable pub extract_typed_handler_error : HandlerError → Option TypedHandlerFailure
extract_typed_handler_error (typed error_code permanent) =
    some (record { error_code = error_code; permanent = permanent })
extract_typed_handler_error other = none

-- A tick of the renewal timer: what others have committed by then, and the time.
pub record Tick : Type 0 where
  pub others : Session → Session
  pub now : Datetime

-- What others commit at the remaining ticks, once the renewals have stopped.
pub idle : List Tick → Session → Session
idle [] s = s
idle (tick ∷ ticks) s = idle ticks (tick.others s)

-- One round of the loop: go on with the renewed job; stop on a mismatch. Any other error is kept by
-- the task and raised when the task is awaited.
abbrev pub after_renewal :
    (rest : OutboxJob → Session → Run OutboxJob)
    → List Tick
    → OutboxJob
    → Session
    → Run OutboxJob
    → Run OutboxJob
after_renewal rest ticks job s (ok (renewed, s')) = rest renewed s'
after_renewal rest ticks job s (err (persistence claim_mismatch)) = ok (job, idle ticks s)
after_renewal rest ticks job s (err e) = err e

-- `if current.claim_token is None: return`
abbrev pub renew_round :
    Option Uuid
    → (rest : OutboxJob → Session → Run OutboxJob) → List Tick
    → OutboxJob
    → (now : Datetime) → Session
    → Run OutboxJob
renew_round none rest ticks job now s = ok (job, idle ticks s)
renew_round (some token) rest ticks job now s =
    after_renewal rest ticks job s (renew_processor_claim job.id (some token) now job.version s)

unfoldable pub renew_processor_lease_loop : List Tick → OutboxJob → Session → Run OutboxJob
renew_processor_lease_loop [] job s = ok (job, s)
renew_processor_lease_loop (tick ∷ ticks) job s =
    renew_round job.claim_token (renew_processor_lease_loop ticks) ticks job tick.now
      (tick.others s)

module _ (db : Database) where
  unfoldable pub handle_permanent_failure :
      OutboxJob → (started_at finished_at : Datetime) → ErrorCode → State → Service JobOutcome
  unfolding append_attempt dead_letter_job
  handle_permanent_failure job started_at finished_at error_code st = do
    st' ← append_attempt db job processor started_at finished_at failed (some error_code) st
    dead_letter_job job error_code finished_at st'

  -- The `try` around `mark_succeeded` and what follows it.
  unfoldable pub after_mark_succeeded :
      OutboxJob → (started_at finished_at : Datetime) → State → Run OutboxJob → Service JobOutcome
  unfolding append_attempt
  after_mark_succeeded job started_at finished_at st (ok (updated, session)) = do
    st' ←
        append_attempt db updated processor started_at finished_at AttemptOutcome.succeeded none
          (record st { session = session })
    ok (succeeded, st')
  after_mark_succeeded job started_at finished_at st (err (persistence claim_mismatch)) = do
    st' ← append_attempt db job processor started_at finished_at failed (some stale_claim) st
    ok (JobOutcome.stale_claim, st')
  after_mark_succeeded job started_at finished_at st (err e) = err (raised e)

  -- The branches of `except Exception`.
  unfoldable pub handle_exception :
      Option TypedHandlerFailure
      → OutboxJob
      → (started_at finished_at : Datetime) → State
      → Service JobOutcome
  unfolding handle_permanent_failure handle_failure
  handle_exception none job started_at finished_at st =
      handle_failure db job processor started_at finished_at handler_failed st
  handle_exception (some failure) job started_at finished_at st =
      if failure.permanent
      then handle_permanent_failure job started_at finished_at failure.error_code st
      else handle_failure db job processor started_at finished_at failure.error_code st

  unfoldable pub after_handler :
      Result HandlerError (Unit {0})
      → OutboxJob
      → (started_at finished_at : Datetime) → State
      → Service JobOutcome
  unfolding after_mark_succeeded handle_exception extract_typed_handler_error
  after_handler (ok tt) active_job started_at finished_at st =
      after_mark_succeeded active_job started_at finished_at st (
        mark_succeeded active_job.id active_job.claim_token finished_at active_job.version
          st.session)
  after_handler (err error) active_job started_at finished_at st =
      handle_exception (extract_typed_handler_error error) active_job started_at finished_at st

  abbrev pub from_run : {A : Type 0} → State → Run A → Service A
  from_run st (ok (a, session)) = ok (a, record st { session = session })
  from_run st (err e) = err (raised e)

  -- With a handler: the renewals go on while it runs; `last` is what others commit after the last
  -- tick.
  unfoldable pub run_handler :
      Option Handler
      → OutboxJob
      → (ticks : List Tick) (last : Session → Session) (started_at finished_at : Datetime) → State
      → Service JobOutcome
  unfolding after_handler renew_processor_lease_loop handle_failure
  run_handler none claimed ticks last started_at finished_at st =
      handle_failure db claimed processor started_at finished_at handler_not_implemented st
  run_handler (some handler) claimed ticks last started_at finished_at st = do
    (active_job, st') ← from_run st (renew_processor_lease_loop ticks claimed st.session)
    after_handler (handler claimed) active_job started_at finished_at
        (record st' { session = last st'.session })

  abbrev pub process_claimed :
      (handlers : JobKind → Option Handler) (ticks : List Tick) (last : Session → Session)
      (started_at finished_at : Datetime)
      → Option OutboxJob
      → State
      → Service JobOutcome
  process_claimed handlers ticks last started_at finished_at none st = ok (not_claimed, st)
  process_claimed handlers ticks last started_at finished_at (some claimed) st =
      run_handler (handlers claimed.job_kind) claimed ticks last started_at finished_at st

  unfoldable pub process_job :
      (worker_id : Text) (supported : Option (JobKind → Bool)) (handlers : JobKind → Option Handler)
      (ticks : List Tick) (last : Session → Session) (job_id : Uuid)
      (claim_at started_at finished_at : Datetime)
      → State
      → Service JobOutcome
  unfolding run_handler
  process_job worker_id supported handlers ticks last job_id claim_at started_at finished_at st = do
    (claimed, st') ←
        from_run st (claim_for_processing db job_id worker_id claim_at supported st.session)
    process_claimed handlers ticks last started_at finished_at claimed st'
