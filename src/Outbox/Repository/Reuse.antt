-- ===== src/Outbox/Repository/Reuse.antt =====
-- A job that `get_or_create` has returned stays the one of its key, whatever comes later
-- (packages/backend/src/closeros/infrastructure/outbox_repositories.py).
use closer_os.Prelude.{
  ◌≡◌, refl, ap, subst, ◌∙◌, Bool, false, Option, none, some, List, [], ◌∷◌, ok, err, arith, All,
  inl, inr, Result, Bool-cases,
}
use closer_os.Outbox.Types.{Uuid, Text}
use closer_os.Outbox.Job.{OutboxJob, new_reference}
use closer_os.Outbox.Invariant.{Inv}
use closer_os.Outbox.Rows.{JobRow, row_job, outbox_job_to_row}
use closer_os.Outbox.Rows.RoundTrip.{with_job_tenant}
use closer_os.Outbox.Database.{Session, get_row}
use closer_os.Outbox.Repository.{Raised, Run}
use closer_os.Outbox.Repository.Enqueue.{
  same_key, find_row, find_by_deduplication_key, insert_row, enqueue, get_or_create,
}
use closer_os.Outbox.Repository.Table.{TableInv, stored_id}
use closer_os.Outbox.Repository.Methods.{Method, call_method}
use closer_os.Outbox.Repository.Writes.{method-Written}
use closer_os.Outbox.Repository.Dedup.{
  Stored, get_or_create-Stored, insert-TableInv, to_row-RowInv, find-found, same_key-eq,
}

-- What a transaction does to the table: a method on one job, or an insertion. One that raises
-- commits nothing.
pub data Later : Type 0 where
  calls : (m : Method) (id : Uuid) → Later
  enqueues : (job : OutboxJob) → Later

abbrev pub after_method : Session → Run OutboxJob → Session
after_method s (ok (job, s')) = s'
after_method s (err e) = s

abbrev pub after_insertion : Session → Result Raised (List JobRow) → Session
after_insertion s (ok rows) = record s { rows = rows }
after_insertion s (err e) = s

unfoldable pub later_step : Later → Session → Session
later_step (calls m id) s = after_method s (call_method m id s)
later_step (enqueues job) s = after_insertion s (enqueue job s.rows)

unfoldable pub later_run : List Later → Session → Session
later_run [] s = s
later_run (l ∷ ls) s = later_run ls (later_step l s)

-- Only jobs that the domain has built are inserted.
abbrev pub IsBuilt : Later → Type 0
IsBuilt (calls m id) = Unit
IsBuilt (enqueues job) = (new_reference job.reference ≡ ok job.reference) × Inv job

-- The table is valid and the row under the key has the id.
pub record Holds (t : Option Uuid) (k : Text) (id : Uuid) (rows : List JobRow) : Type 0 where
  pub table_inv : TableInv rows
  pub under_key : stored_id t k rows ≡ some id

find-stored_id :
    (t : Option Uuid) (k : Text) (rows : List JobRow) (row : JobRow)
    → find_row t k rows ≡ some row
    → stored_id t k rows ≡ some row.id
unfolding find_row stored_id
find-stored_id t k [] row h = cc
find-stored_id t k (x ∷ rows) row h = ground (arith, find-stored_id t k rows row)

stored_id-find :
    (t : Option Uuid) (k : Text) (rows : List JobRow) (id : Uuid)
    → stored_id t k rows ≡ some id
    → (row : JobRow) × (find_row t k rows ≡ some row) × (row.id ≡ id)
unfolding find_row stored_id
stored_id-find t k [] id h = cc
stored_id-find t k (x ∷ rows) id h = elim (Bool-cases (same_key t k x)) [
  | inl e ↦ (x, rw e refl, ground arith)
  | inr e ↦ rw e (stored_id-find t k rows id (rw e at h))
]

stored_id-insert :
    (t : Option Uuid) (k : Text) (id : Uuid) (new : JobRow) (rows : List JobRow)
    → find_row new.tenant_id new.deduplication_key rows ≡ none
    → stored_id t k rows ≡ some id
    → stored_id t k (new ∷ rows) ≡ some id
unfolding stored_id
stored_id-insert t k id new rows f h = elim (Bool-cases (same_key t k new)) [
  | inl e ↦
      let (et, ek) = same_key-eq t k new e in
      let (row, g, same) = stored_id-find t k rows id h in
      let f' : find_row t k rows ≡ none =
        subst (λ x. find_row x k rows ≡ none) et
          (subst (λ y. find_row new.tenant_id y rows ≡ none) ek f) in
      absurd (ground (arith, f', g))
  | inr e ↦ rw e h
]

module _ (t : Option Uuid) (k : Text) (id : Uuid) where
  method-Holds :
      (m : Method) (other : Uuid) (s : Session) (r : Run OutboxJob)
      → call_method m other s ≡ r
      → Holds t k id s.rows
      → Holds t k id (after_method s r).rows
  method-Holds m other s (err e) h i = i
  method-Holds m other s (ok (job, s')) h i =
      let w = method-Written m other s s' job i.table_inv h in
      record { table_inv = w.table_inv; under_key = w.keys_kept t k ∙ i.under_key }

  insertion-Holds :
      (job : OutboxJob) (s : Session) (by_key by_id : Option JobRow)
      → new_reference job.reference ≡ ok job.reference
      → Inv job
      → find_row job.tenant_id job.deduplication_key s.rows ≡ by_key
      → get_row job.id s.rows ≡ by_id
      → Holds t k id s.rows
      → Holds t k id
          (after_insertion s (insert_row by_key by_id (outbox_job_to_row job) s.rows)).rows
  insertion-Holds job s (some row) by_id v j f g i = i
  insertion-Holds job s none (some row) v j f g i = i
  insertion-Holds job s none none v j f g i = record {
    table_inv =
        insert-TableInv (outbox_job_to_row job) s.rows f g (to_row-RowInv job v j) i.table_inv;
    under_key = stored_id-insert t k id (outbox_job_to_row job) s.rows f i.under_key;
  }

  step-Holds :
      (l : Later) (s : Session)
      → IsBuilt l
      → Holds t k id s.rows
      → Holds t k id (later_step l s).rows
  unfolding later_step enqueue
  step-Holds (calls m other) s b i = method-Holds m other s (call_method m other s) refl i
  step-Holds (enqueues job) s b i =
      insertion-Holds job s (find_row job.tenant_id job.deduplication_key s.rows)
        (get_row job.id s.rows) b.0 b.1 refl refl i

  run-Holds :
      (ls : List Later) (s : Session)
      → All IsBuilt ls
      → Holds t k id s.rows
      → Holds t k id (later_run ls s).rows
  unfolding later_run
  run-Holds [] s b i = i
  run-Holds (l ∷ ls) s b i = run-Holds ls (later_step l s) b.1 (step-Holds l s b.0 i)

Stored-Holds :
    (t : Option Uuid) (k : Text) (j : OutboxJob) (rows : List JobRow) (found : Option JobRow)
    → Stored t k j rows
    → find_row t k rows ≡ found
    → Holds t k j.id rows
unfolding find_by_deduplication_key
Stored-Holds t k j rows none s f = absurd (ground (arith, s.found))
Stored-Holds t k j rows (some row) s f =
    let e : row_job row ≡ with_job_tenant j =
      ground (arith, s.found, find-found t k rows row s.table_inv f) in
    let same : row.id ≡ j.id = ap (λ (x : OutboxJob). x.id) e in
    record { table_inv = s.table_inv; under_key = find-stored_id t k rows row f ∙ ap some same }

held-returned :
    (t : Option Uuid) (k : Text) (id : Uuid) (again : OutboxJob) (later : List JobRow → List JobRow)
    (s : Session)
    → Holds t k id s.rows
    → again.tenant_id ≡ t
    → again.deduplication_key ≡ k
    → (r : OutboxJob) × (get_or_create again later s ≡ ok ((r, false), s)) × (r.id ≡ id)
unfolding get_or_create
held-returned t k id again later s i et ek =
    let (row, f, e) = stored_id-find t k s.rows id i.under_key in
    (row_job row, rw (et, ek, find-found t k s.rows row i.table_inv f) refl, e)

-- A first call of get_or_create, in a valid table, has returned a job. After any number of calls of
-- the methods on one job and of insertions of built jobs, on any jobs, by any transactions and with
-- any outcome, a call with the same tenant and key returns a stored job with the id of the first one,
-- as not created, and changes nothing.
pub get_or_create_again :
    (job again j : OutboxJob) (committed committed' : List JobRow → List JobRow) (s s' : Session)
    (created : Bool) (later : List Later)
    → new_reference job.reference ≡ ok job.reference
    → Inv job
    → TableInv s.rows
    → TableInv (committed s.rows)
    → get_or_create job committed s ≡ ok ((j, created), s')
    → All IsBuilt later
    → again.tenant_id ≡ job.tenant_id
    → again.deduplication_key ≡ job.deduplication_key
    → (r : OutboxJob) × (get_or_create again committed' (later_run later s')
        ≡ ok ((r, false), later_run later s'))
      × (r.id ≡ j.id)
get_or_create_again job again j committed committed' s s' created later v i t c h b et ek =
    let stored = get_or_create-Stored job v i committed s s' j created t c h in
    held-returned job.tenant_id job.deduplication_key j.id again committed' (later_run later s')
      (run-Holds job.tenant_id job.deduplication_key j.id later s' b (
        Stored-Holds job.tenant_id job.deduplication_key j s'.rows
          (find_row job.tenant_id job.deduplication_key s'.rows) stored refl))
      et ek
