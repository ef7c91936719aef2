-- ===== src/Outbox/Repository/Enqueue.antt =====
-- The insertions and the reads of `SqlAlchemyOutboxJobRepository`
-- (packages/backend/src/closeros/infrastructure/outbox_repositories.py). The unique indexes of the
-- table are on `(tenant_id, deduplication_key)` for tenant jobs and on `deduplication_key` for
-- global ones.
use closer_os.Prelude.{
  ℕ, Bool, true, false, ◌&&◌, not, Option, none, some, List, [], ◌∷◌, ltb, leb, ◌==◌, if◌then◌else◌,
  same_option, take, Result, ok, err, guard, ◌>>=◌, ◌>>◌,
}
use closer_os.Outbox.Types.{Uuid, Text, Datetime, JobState}
use closer_os.Outbox.Job.{OutboxJob}
use closer_os.Outbox.Rows.{JobRow, outbox_job_to_row, outbox_job_to_domain}
use closer_os.Outbox.Database.{Database, Session, get_row, where_rows}
use closer_os.Outbox.Repository.{
  Raised, Run, value_error, persistence, integrity_error, duplicate_outbox_job, pending_rollback,
  loaded,
}

-- `==` of two strings
abbrev pub same_text : Text → Text → Bool
same_text [] [] = true
same_text (a ∷ s) (b ∷ t) = a == b && same_text s t
same_text _ _ = false

abbrev pub same_key : Option Uuid → Text → JobRow → Bool
same_key tenant_id key row =
    same_text row.deduplication_key key && same_option row.tenant_id tenant_id

-- `_find_by_deduplication_key`; the unique indexes leave at most one row.
unfoldable pub find_row : Option Uuid → Text → List JobRow → Option JobRow
find_row tenant_id key [] = none
find_row tenant_id key (row ∷ rows) =
    if same_key tenant_id key row then some row else find_row tenant_id key rows

-- `None if row is None else mappers.outbox_job_to_domain(row)`
unfoldable pub to_domain : Option JobRow → Result Raised (Option OutboxJob)
to_domain none = ok none
to_domain (some row) = do job ← loaded (outbox_job_to_domain row); ok (some job)

unfoldable pub get_by_id : Uuid → Session → Result Raised (Option OutboxJob)
unfolding to_domain
get_by_id job_id s = to_domain (get_row job_id s.rows)

unfoldable pub find_by_deduplication_key :
    Option Uuid → Text → List JobRow → Result Raised (Option OutboxJob)
unfolding to_domain
find_by_deduplication_key tenant_id key rows = to_domain (find_row tenant_id key rows)

-- What the flush of a new row meets: a taken key of one of the unique indexes, or a taken `id`.
abbrev pub insert_row :
    Option JobRow → Option JobRow → JobRow → List JobRow → Result Raised (List JobRow)
insert_row (some row) other new rows = err (persistence duplicate_outbox_job)
insert_row none (some row) new rows = err (persistence integrity_error)
insert_row none none new rows = ok (new ∷ rows)

unfoldable pub enqueue : OutboxJob → List JobRow → Result Raised (List JobRow)
enqueue job rows =
    insert_row (find_row job.tenant_id job.deduplication_key rows) (get_row job.id rows)
      (outbox_job_to_row job) rows

-- `except DuplicateOutboxJobError`: the handler searches again, on the session whose flush has just
-- failed. There is no savepoint, so the search raises before it reaches the database.
abbrev pub enqueued_or_raised :
    OutboxJob → Session → Result Raised (List JobRow) → Run (OutboxJob × Bool)
enqueued_or_raised job s (ok rows) = ok ((job, true), record s { rows = rows })
enqueued_or_raised job s (err (persistence duplicate_outbox_job)) = err pending_rollback
enqueued_or_raised job s (err e) = err e

-- The second part of `get_or_create`. `committed` is what the table holds when the row is flushed:
-- other transactions may have inserted rows since the search.
abbrev pub return_or_enqueue :
    OutboxJob → List JobRow → Option OutboxJob → Session → Run (OutboxJob × Bool)
return_or_enqueue job committed (some existing) s = ok ((existing, false), s)
return_or_enqueue job committed none s = enqueued_or_raised job s (enqueue job committed)

unfoldable pub get_or_create :
    OutboxJob → (committed : List JobRow → List JobRow) → Session → Run (OutboxJob × Bool)
unfolding enqueue find_by_deduplication_key
get_or_create job committed s = do
  existing ← find_by_deduplication_key job.tenant_id job.deduplication_key s.rows
  return_or_enqueue job (committed s.rows) existing s

pub record ReconciliationFilter : Type 0 where
  pub tenant_id : Option Uuid
  pub overdue_before : Option Datetime
  pub limit : ℕ

abbrev pub tenant_matches : Option Uuid → JobRow → Bool
tenant_matches none row = true
tenant_matches (some tenant_id) row = same_option row.tenant_id (some tenant_id)

abbrev pub is_overdue : Option Datetime → JobRow → Bool
is_overdue none row = true
is_overdue (some overdue_before) row = leb row.available_at overdue_before

-- `tuple(outbox_job_to_domain(row) for row in rows)`
unfoldable pub to_domain_all : List JobRow → Result Raised (List OutboxJob)
to_domain_all [] = ok []
to_domain_all (row ∷ rows) = do
  job ← loaded (outbox_job_to_domain row)
  jobs ← to_domain_all rows
  ok (job ∷ jobs)

module _ (db : Database) where
  abbrev pub listing_order : JobRow → List ℕ
  listing_order row = row.available_at ∷ row.created_at ∷ []

  -- `is_state` stands for the comparison with the value of the wanted state.
  abbrev pub listed : (is_state : JobState → Bool) → ReconciliationFilter → JobRow → Bool
  listed is_state f row =
      is_state row.state && tenant_matches f.tenant_id row && is_overdue f.overdue_before row

  unfoldable pub list_by_state :
      (is_state : JobState → Bool) → ReconciliationFilter → Session → Result Raised (List OutboxJob)
  unfolding to_domain_all
  list_by_state is_state f s = do
    guard (not (ltb f.limit 1)) value_error
    to_domain_all (take f.limit (db.order_by listing_order (where_rows (listed is_state f) s.rows)))
