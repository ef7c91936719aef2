-- ===== src/Outbox/Repository/Claims.antt =====
-- The claims and the recovery of `SqlAlchemyOutboxJobRepository`
-- (packages/backend/src/closeros/infrastructure/outbox_repositories.py): queries with a filter, an
-- order, a limit and row locks, followed by a loop over the rows.
use closer_os.Prelude.{
  ℕ, suc, Bool, true, false, ◌&&◌, ◌||◌, not, Option, none, some, List, [], ◌∷◌, ltb, leb, ◌==◌,
  if◌then◌else◌, take, Result, ok, err, guard, ◌>>=◌, ◌>>◌,
}
use closer_os.Outbox.Types.{
  Uuid, Text, Datetime, JobKind, Outcome, transition_error, is_pending, is_retry_scheduled,
  is_published, is_publishing, is_processing,
}
use closer_os.Outbox.Job.{OutboxJob}
use closer_os.Outbox.Operations
use closer_os.Outbox.Rows.{JobRow, outbox_job_to_domain}
use closer_os.Outbox.Database.{Database, Session, where_rows}
use closer_os.Outbox.Repository.{Raised, Run, value_error, domain, mapped, loaded, saved}

-- `allowed_job_kinds is None or job_kind in allowed_job_kinds`
abbrev pub kind_allowed : Option (JobKind → Bool) → JobRow → Bool
kind_allowed none row = true
kind_allowed (some kinds) row = kinds row.job_kind

module _ (db : Database) where
  abbrev pub claim_order : JobRow → List ℕ
  claim_order row = row.priority ∷ row.available_at ∷ row.created_at ∷ []

  abbrev pub claimable : Datetime → Option (JobKind → Bool) → JobRow → Bool
  claimable now kinds row =
      (is_pending row.state || is_retry_scheduled row.state)
      && leb row.available_at now
      && kind_allowed kinds row
      && db.unlocked row.id

  -- The loop over the selected rows. An error discards what was written: the caller rolls back.
  unfoldable pub claim_rows :
      (worker_id : Text) (now : Datetime) → List JobRow → Session → Run (List OutboxJob)
  claim_rows worker_id now [] s = ok ([], s)
  claim_rows worker_id now (row ∷ rows) s = do
    current ← loaded (outbox_job_to_domain row)
    updated ←
        mapped
          (Operations.claim_for_publishing current (db.uuid4 s.drawn) worker_id now current.version)
    (claimed, s') ←
        claim_rows worker_id now rows (record (saved row updated s) { drawn = suc s.drawn })
    ok (updated ∷ claimed, s')

  abbrev pub selected : Datetime → ℕ → Option (JobKind → Bool) → List JobRow → List JobRow
  selected now batch_size kinds rows =
      take batch_size (db.order_by claim_order (where_rows (claimable now kinds) rows))

  unfoldable pub claim_publisher_batch :
      (worker_id : Text) (now : Datetime) (batch_size : ℕ) (kinds : Option (JobKind → Bool))
      → Session
      → Run (List OutboxJob)
  unfolding claim_rows
  claim_publisher_batch worker_id now batch_size kinds s = do
    guard (not (ltb batch_size 1)) value_error
    claim_rows worker_id now (selected now batch_size kinds s.rows) s

  abbrev pub processable : Uuid → Datetime → Option (JobKind → Bool) → JobRow → Bool
  processable job_id now kinds row =
      row.id == job_id
      && is_published row.state
      && leb row.available_at now
      && kind_allowed kinds row
      && db.unlocked row.id

  abbrev pub scalar_one_or_none : List JobRow → Option JobRow
  scalar_one_or_none [] = none
  scalar_one_or_none (row ∷ rows) = some row

  unfoldable pub claim_found :
      (worker_id : Text) (now : Datetime) → Option JobRow → Session → Run (Option OutboxJob)
  claim_found worker_id now none s = ok (none, s)
  claim_found worker_id now (some row) s = do
    current ← loaded (outbox_job_to_domain row)
    updated ←
        mapped
          (Operations.claim_for_processing current (db.uuid4 s.drawn) worker_id now current.version)
    ok (some updated, record (saved row updated s) { drawn = suc s.drawn })

  unfoldable pub claim_for_processing :
      Uuid
      → (worker_id : Text) (now : Datetime) (kinds : Option (JobKind → Bool)) → Session
      → Run (Option OutboxJob)
  unfolding claim_found
  claim_for_processing job_id worker_id now kinds s =
      claim_found worker_id now
        (scalar_one_or_none (where_rows (processable job_id now kinds) s.rows)) s

  -- `claim_expires_at IS NOT NULL AND claim_expires_at <= now`
  abbrev pub lease_over : Option Datetime → Datetime → Bool
  lease_over none now = false
  lease_over (some claim_expires_at) now = leb claim_expires_at now

  abbrev pub expired : Datetime → JobRow → Bool
  expired now row =
      lease_over row.claim_expires_at now
      && (is_publishing row.state || is_processing row.state)
      && db.unlocked row.id

  abbrev pub recover : OutboxJob → Datetime → Outcome OutboxJob
  recover job now =
      if is_publishing job.state
      then Operations.recover_expired_publisher_claim job now
      else Operations.recover_expired_processor_claim job now

  -- The body of the loop: `None` for `continue`, the updated job otherwise. Only
  -- `OutboxTransitionError` is caught.
  abbrev pub recovered_or_skipped : Outcome OutboxJob → Result Raised (Option OutboxJob)
  recovered_or_skipped (ok updated) = ok (some updated)
  recovered_or_skipped (err (transition_error reason)) = ok none
  recovered_or_skipped (err e) = err (domain e)

  abbrev pub save_recovered : JobRow → Option OutboxJob → Session → Session
  save_recovered row none s = s
  save_recovered row (some updated) s = saved row updated s

  abbrev pub append_recovered : Option OutboxJob → List OutboxJob → List OutboxJob
  append_recovered none jobs = jobs
  append_recovered (some updated) jobs = updated ∷ jobs

  unfoldable pub recover_rows : (now : Datetime) → List JobRow → Session → Run (List OutboxJob)
  recover_rows now [] s = ok ([], s)
  recover_rows now (row ∷ rows) s = do
    current ← loaded (outbox_job_to_domain row)
    updated ← recovered_or_skipped (recover current now)
    (recovered, s') ← recover_rows now rows (save_recovered row updated s)
    ok (append_recovered updated recovered, s')

  unfoldable pub recover_expired_claims : (now : Datetime) → Session → Run (List OutboxJob)
  unfolding recover_rows
  recover_expired_claims now s = recover_rows now (where_rows (expired now) s.rows) s
