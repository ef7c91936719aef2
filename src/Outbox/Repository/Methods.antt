-- ===== src/Outbox/Repository/Methods.antt =====
-- The methods that take a job identifier do to the stored job what the domain operation does
-- (packages/backend/src/closeros/infrastructure/outbox_repositories.py).
use closer_os.Prelude.{ℕ, ◌≡◌, refl, Option, none, some, ok, err, arith}
use closer_os.Outbox.Types.{Uuid, Outcome, JobPhase, ErrorCode}
use closer_os.Outbox.Validate.{validate_version}
use closer_os.Outbox.Job.{OutboxJob, post_init, validate_claimed_by, reference_tenant_differs}
use closer_os.Outbox.Calls.{
  Call, apply, marks_published, schedules_retry, marks_dead_letter, marks_succeeded, renews_claim,
  requeues,
}
use closer_os.Outbox.Contract.{after, apply-after}
use closer_os.Outbox.Repository.Table.{TableInv, get_row-All}
use closer_os.Outbox.Rows.{JobRow, row_job}
use closer_os.Outbox.Rows.RoundTrip.{RowInv, to_domain-ok}
use closer_os.Outbox.Database.{Session, get_row}
use closer_os.Outbox.Repository.{
  Run, persistence, record_not_found, claim_mismatch, saved, mark_published, schedule_retry,
  mark_dead_letter, mark_succeeded, renew_processor_claim, requeue_dead_letter,
}

-- A method of the repository that changes one job, and the domain call that it stands for.
pub data Method : Type 0 where
  published succeeded renewed : (token : Option Uuid) (now version : ℕ) → Method
  retry : (token : Option Uuid) → ErrorCode → (now version : ℕ) → JobPhase → Method
  dead_letter : (token : Option Uuid) → ErrorCode → (now version : ℕ) → Method
  requeue : (now : ℕ) → Method

unfoldable pub call_method : Method → Uuid → Session → Run OutboxJob
unfolding mark_published schedule_retry mark_dead_letter mark_succeeded renew_processor_claim
    requeue_dead_letter
call_method (published token now version) id = mark_published id token now version
call_method (succeeded token now version) id = mark_succeeded id token now version
call_method (renewed token now version) id = renew_processor_claim id token now version
call_method (retry token code now version phase) id = schedule_retry id token code now version phase
call_method (dead_letter token code now version) id = mark_dead_letter id token code now version
call_method (requeue now) id = requeue_dead_letter id now

abbrev pub domain_call : Method → Call
domain_call (published token now version) = marks_published token now version
domain_call (succeeded token now version) = marks_succeeded token now version
domain_call (renewed token now version) = renews_claim token now version
domain_call (retry token code now version phase) = schedules_retry token phase code now version
domain_call (dead_letter token code now version) = marks_dead_letter token code now version
domain_call (requeue now) = requeues now

-- What a method makes of the domain's answer for the stored job.
abbrev pub answer : JobRow → Session → Outcome OutboxJob → Run OutboxJob
answer row s (ok job) = ok (job, saved row job s)
answer row s (err e) = err (persistence claim_mismatch)

post_init-domain_call :
    (job : OutboxJob) (m : Method)
    → post_init job ≡ ok job
    → post_init (after job (domain_call m)) ≡ ok (after job (domain_call m))
unfolding post_init validate_version validate_claimed_by reference_tenant_differs
post_init-domain_call job (published token now version) h = ground arith
post_init-domain_call job m h = ground arith

method-found :
    (m : Method) (id : Uuid) (s : Session) (row : JobRow)
    → get_row id s.rows ≡ some row
    → RowInv row
    → call_method m id s ≡ answer row s (apply (row_job row) (domain_call m))
unfolding call_method apply
method-found (published token now version) id s row g i = ground (
  arith,
  to_domain-ok row i,
  post_init-domain_call (row_job row) (published token now version) i.job_inv.valid,
)
method-found m id s row g i =
    ground (arith, to_domain-ok row i, post_init-domain_call (row_job row) m i.job_inv.valid)

-- What a method does, by whether the row is there.
abbrev pub specified : Method → Session → Option JobRow → Run OutboxJob
specified m s none = err (persistence record_not_found)
specified m s (some row) = answer row s (apply (row_job row) (domain_call m))

specified-cases :
    (m : Method) (id : Uuid) (s : Session) (found : Option JobRow)
    → TableInv s.rows
    → get_row id s.rows ≡ found
    → call_method m id s ≡ specified m s found
unfolding call_method
specified-cases (published token now version) id s none i g = ground arith
specified-cases m id s none i g = ground arith
specified-cases m id s (some row) i g =
    method-found m id s row g (get_row-All RowInv id s.rows row i.rows_valid g)

-- In a valid table, a method refuses a missing job as not found; on a stored job it returns and
-- writes what the domain operation returns, and turns every refusal of the domain into a claim
-- mismatch. So neither the second version test nor a check of the new job ever fails.
pub method-specified :
    (m : Method) (id : Uuid) (s : Session)
    → TableInv s.rows
    → call_method m id s ≡ specified m s (get_row id s.rows)
method-specified m id s i = specified-cases m id s (get_row id s.rows) i refl

pub apply-keys :
    (job job' : OutboxJob) (m : Method)
    → apply job (domain_call m) ≡ ok job'
    → (job'.id ≡ job.id)
      × (job'.tenant_id ≡ job.tenant_id)
      × (job'.deduplication_key ≡ job.deduplication_key)
      × (job'.reference ≡ job.reference)
apply-keys job job' (published token now version) h =
    ground (arith, apply-after job job' (domain_call (published token now version)) h)
apply-keys job job' m h = ground (arith, apply-after job job' (domain_call m) h)
