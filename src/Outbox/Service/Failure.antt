-- ===== src/Outbox/Service/Failure.antt =====
-- The handling of a failed attempt, on a job whose lease the service holds
-- (packages/backend/src/closeros/application/outbox_publisher.py and outbox_processor.py).
use closer_os.Prelude.{
  ◌+◌, ◌≤◌, ◌≡◌, refl, Bool, true, false, Option, some, leb, if◌then◌else◌, ok, arith, length,
  Bool-cases, inl, inr,
}
use closer_os.Outbox.Types.{
  Datetime, JobPhase, publisher, processor, ErrorCode, AttemptOutcome, max_attempts_exceeded,
}
use closer_os.Outbox.Job.{OutboxJob, new_attempt}
use closer_os.Outbox.Operations
use closer_os.Outbox.Calls.{apply, marks_dead_letter, schedules_retry}
use closer_os.Outbox.Contract.{Holds, after, phase_state, apply_of_Allowed}
use closer_os.Outbox.Database.{Database, Session}
use closer_os.Outbox.Repository.Enqueue.{get_by_id}
use closer_os.Outbox.Repository.Methods.{Method, call_method, domain_call}
use closer_os.Outbox.Repository.Table.{TableInv}
use closer_os.Outbox.Repository.Writes.{Written, method-ok, stored-Inv}
use closer_os.Outbox.Service.{
  State, JobOutcome, retried, dead_lettered, append_attempt, built_attempt, with_attempt,
  handle_failure,
}

-- The service works on the job as it stands in a valid table, under a lease that still runs.
pub record Held (job : OutboxJob) (phase : JobPhase) (now : Datetime) (s : Session) : Type 0 where
  pub table_inv : TableInv s.rows
  pub stored : get_by_id job.id s ≡ ok (some job)
  pub in_phase : job.state ≡ phase_state phase
  pub lease : Holds job job.claim_token now job.version

-- An attempt is added, and nothing else but the count of drawn UUIDs changes.
pub record Appended (before after : State) : Type 0 where
  pub same_rows : after.session.rows ≡ before.session.rows
  pub same_queue : after.queue ≡ before.queue
  pub one_more : length after.attempts ≡ length before.attempts + 1

pub append_attempt-ok :
    (db : Database) (job : OutboxJob) (phase : JobPhase) (started finished : Datetime)
    (outcome : AttemptOutcome) (code : Option ErrorCode) (st : State)
    → started ≤ finished
    → (st' : State) × (append_attempt db job phase started finished outcome code st ≡ ok st')
      × Appended st st'
unfolding append_attempt new_attempt
append_attempt-ok db job phase started finished outcome code st h = (
  with_attempt db job (built_attempt db job phase started finished outcome code st) st,
  ground arith,
  record { same_rows = refl; same_queue = refl; one_more = omega arith },
)

-- What becomes of the job: dead if its budget is used up, retried otherwise.
abbrev pub spent : OutboxJob → Bool
spent job = leb job.max_attempts (job.attempt_count + 1)

abbrev pub failure_method : OutboxJob → JobPhase → Datetime → ErrorCode → Method
failure_method job phase now code =
    if spent job
    then Method.dead_letter job.claim_token max_attempts_exceeded now job.version
    else Method.retry job.claim_token code now job.version phase

abbrev pub failure_outcome : OutboxJob → JobOutcome
failure_outcome job = if spent job then dead_lettered else retried

-- The failure is recorded and the job dead-lettered or retried in the table.
pub record Failed (job : OutboxJob) (phase : JobPhase) (now : Datetime) (code : ErrorCode)
    (before after_failure : State) : Type 0 where
  pub written :
      Written job.id
        (after job (domain_call (failure_method job phase now code)))
        before.session
        after_failure.session
  pub same_queue : after_failure.queue ≡ before.queue
  pub one_more : length after_failure.attempts ≡ length before.attempts + 1

module _ (db : Database) (job : OutboxJob) (started now : Datetime) (code : ErrorCode)
    (in_order : started ≤ now) where
  dead-ok :
      (phase : JobPhase) (st : State)
      → Held job phase now st.session
      → spent job ≡ true
      → (s' : Session) × (call_method
            (Method.dead_letter job.claim_token max_attempts_exceeded now job.version)
            job.id
            st.session
          ≡ ok (
            after job (marks_dead_letter job.claim_token max_attempts_exceeded now job.version),
            s',
          ))
        × Written job.id
            (after job (marks_dead_letter job.claim_token max_attempts_exceeded now job.version))
            st.session
            s'
        × (s'.drawn ≡ st.session.drawn)
  dead-ok publisher st h e =
      method-ok (Method.dead_letter job.claim_token max_attempts_exceeded now job.version) job.id
        st.session job h.table_inv h.stored (inl h.in_phase, h.lease)
  dead-ok processor st h e =
      method-ok (Method.dead_letter job.claim_token max_attempts_exceeded now job.version) job.id
        st.session job h.table_inv h.stored (inr h.in_phase, h.lease)

  retry-ok :
      (phase : JobPhase) (st : State)
      → Held job phase now st.session
      → spent job ≡ false
      → (s' : Session) × (call_method
            (Method.retry job.claim_token code now job.version phase)
            job.id
            st.session
          ≡ ok (after job (schedules_retry job.claim_token phase code now job.version), s'))
        × Written job.id
            (after job (schedules_retry job.claim_token phase code now job.version))
            st.session
            s'
        × (s'.drawn ≡ st.session.drawn)
  retry-ok phase st h e =
      method-ok (Method.retry job.claim_token code now job.version phase) job.id st.session job
        h.table_inv h.stored (h.in_phase, h.lease, ground arith)

  -- The domain's own `schedule_retry`, which is tried first.
  try-ok :
      (phase : JobPhase) (st : State)
      → Held job phase now st.session
      → spent job ≡ false
      → Operations.schedule_retry job job.claim_token phase code now job.version
        ≡ ok (after job (schedules_retry job.claim_token phase code now job.version))
  unfolding apply
  try-ok phase st h e =
      apply_of_Allowed job (schedules_retry job.claim_token phase code now job.version)
        (stored-Inv job.id st.session job h.table_inv h.stored).valid
        (h.in_phase, h.lease, ground arith)

  recorded : (phase : JobPhase) → State → State
  recorded phase st =
      with_attempt db job
        (built_attempt db job phase started now AttemptOutcome.failed (some code) st) st

  Held-recorded :
      (phase : JobPhase) (st : State)
      → Held job phase now st.session
      → Held job phase now (recorded phase st).session
  unfolding get_by_id recorded
  Held-recorded phase st h = record {
    table_inv = h.table_inv;
    stored = h.stored;
    in_phase = h.in_phase;
    lease = h.lease;
  }

  recorded-ok :
      (phase : JobPhase) (st : State)
      → append_attempt db job phase started now AttemptOutcome.failed (some code) st
        ≡ ok (recorded phase st)
  unfolding append_attempt new_attempt recorded
  recorded-ok phase st = ground arith

  -- A service that holds the job never fails to handle a failure: the attempt is recorded, and the
  -- job in the table is retried, or dead-lettered once its budget is used up.
  pub handle_failure-Failed :
      (phase : JobPhase) (st : State)
      → Held job phase now st.session
      → (st' : State) × (handle_failure db job phase started now code st
          ≡ ok (failure_outcome job, st'))
        × Failed job phase now code st st'
  unfolding handle_failure call_method recorded
  handle_failure-Failed phase st h = elim (Bool-cases (spent job)) [
    | inl e ↦
        let (s', c, w, d) = dead-ok phase (recorded phase st) (Held-recorded phase st h) e in
        (
          record (recorded phase st) { session = s' },
          ground (arith, recorded-ok phase st),
          (record {
            written = rw e (record {
              table_inv = w.table_inv;
              read_back = w.read_back;
              keys_kept = w.keys_kept;
              others = w.others;
            });
            same_queue = refl;
            one_more = omega arith;
          }),
        )
    | inr e ↦
        let (s', c, w, d) = retry-ok phase (recorded phase st) (Held-recorded phase st h) e in
        (
          record (recorded phase st) { session = s' },
          ground (arith, recorded-ok phase st, try-ok phase st h e),
          (record {
            written = rw e (record {
              table_inv = w.table_inv;
              read_back = w.read_back;
              keys_kept = w.keys_kept;
              others = w.others;
            });
            same_queue = refl;
            one_more = omega arith;
          }),
        )
  ]
