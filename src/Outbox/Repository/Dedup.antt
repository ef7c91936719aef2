-- ===== src/Outbox/Repository/Dedup.antt =====
-- One job for each deduplication key: `enqueue` and `get_or_create`
-- (packages/backend/src/closeros/infrastructure/outbox_repositories.py).
use closer_os.Prelude.{
  All, ◌>>=◌, ℕ, ◌≤◌, ◌≡◌, subst, refl, Bool, true, Option, none, some, List, [], ◌∷◌, ok, arith,
  count, same_option, same_option_refl, inl, inr, Bool-cases,
}
use closer_os.Outbox.Types.{Uuid, Text}
use closer_os.Outbox.Job.{OutboxJob, new_reference}
use closer_os.Outbox.Invariant.{Inv}
use closer_os.Outbox.Rows.{JobRow, row_job, outbox_job_to_row}
use closer_os.Outbox.Rows.RoundTrip.{RowInv, to_domain-ok, with_job_tenant, Inv-with_job_tenant}
use closer_os.Outbox.Database.{Session, get_row}
use closer_os.Outbox.Repository.Enqueue.{
  same_text, same_key, find_row, to_domain, find_by_deduplication_key, insert_row, enqueue,
  enqueued_or_raised, return_or_enqueue, get_or_create,
}
use closer_os.Outbox.Repository.Table.{TableInv, has_id}

pub same_text_refl : (s : Text) → same_text s s ≡ true
same_text_refl [] = refl
same_text_refl (c ∷ s) = ground (arith, same_text_refl s)

same_text-eq : (s t : Text) → same_text s t ≡ true → s ≡ t
same_text-eq [] [] h = refl
same_text-eq [] (c ∷ t) h = cc
same_text-eq (c ∷ s) [] h = cc
same_text-eq (c ∷ s) (d ∷ t) h = ground (arith, same_text-eq s t)

same_option-eq : (o p : Option ℕ) → same_option o p ≡ true → o ≡ p
same_option-eq none none h = refl
same_option-eq none (some b) h = cc
same_option-eq (some a) none h = cc
same_option-eq (some a) (some b) h = ground arith

pub same_key-eq :
    (t : Option Uuid) (k : Text) (row : JobRow)
    → same_key t k row ≡ true
    → (row.tenant_id ≡ t) × (row.deduplication_key ≡ k)
same_key-eq t k row h =
    ground (arith, same_text-eq row.deduplication_key k, same_option-eq row.tenant_id t)

pub same_key_refl : (row : JobRow) → same_key row.tenant_id row.deduplication_key row ≡ true
same_key_refl row =
    ground (arith, same_text_refl row.deduplication_key, same_option_refl row.tenant_id)

find_row-none :
    (t : Option Uuid) (k : Text) (rows : List JobRow)
    → find_row t k rows ≡ none
    → count (same_key t k) rows ≡ 0
unfolding find_row
find_row-none t k [] h = refl
find_row-none t k (row ∷ rows) h = ground (arith, find_row-none t k rows)

get_row-none :
    (id : Uuid) (rows : List JobRow) → get_row id rows ≡ none → count (has_id id) rows ≡ 0
unfolding get_row
get_row-none id [] h = refl
get_row-none id (row ∷ rows) h = ground (arith, get_row-none id rows)

keys_after :
    (new : JobRow) (rows : List JobRow) (t : Option Uuid) (k : Text)
    → find_row new.tenant_id new.deduplication_key rows ≡ none
    → count (same_key t k) rows ≤ 1
    → count (same_key t k) (new ∷ rows) ≤ 1
keys_after new rows t k f u = elim (Bool-cases (same_key t k new)) [
  | inl e ↦
      let (et, ek) = same_key-eq t k new e in
      let z : count (same_key t k) rows ≡ 0 =
        subst (λ x. count (same_key x k) rows ≡ 0) et
          (subst (λ y. count (same_key new.tenant_id y) rows ≡ 0) ek
            (find_row-none new.tenant_id new.deduplication_key rows f)) in
      ground arith
  | inr e ↦ ground arith
]

pub insert-TableInv :
    (new : JobRow) (rows : List JobRow)
    → find_row new.tenant_id new.deduplication_key rows ≡ none
    → get_row new.id rows ≡ none
    → RowInv new
    → TableInv rows
    → TableInv (new ∷ rows)
insert-TableInv new rows f g v i = record {
  rows_valid = (v, i.rows_valid);
  ids_unique = λ id. ground (arith, get_row-none new.id rows g, i.ids_unique id);
  keys_unique = λ t k. keys_after new rows t k f (i.keys_unique t k);
}

pub to_row-RowInv :
    (job : OutboxJob)
    → new_reference job.reference ≡ ok job.reference
    → Inv job
    → RowInv (outbox_job_to_row job)
unfolding new_reference
to_row-RowInv job r i = record {
  reference_valid = ground arith;
  job_inv = Inv-with_job_tenant job i;
}

find_row-RowInv :
    (t : Option Uuid) (k : Text) (rows : List JobRow) (row : JobRow)
    → All RowInv rows
    → find_row t k rows ≡ some row
    → RowInv row
unfolding find_row
find_row-RowInv t k [] row a h = cc
find_row-RowInv t k (x ∷ rows) row a h = elim (Bool-cases (same_key t k x)) [
  | inl e ↦ let p : x ≡ row = ground arith in subst RowInv p a.0
  | inr e ↦ find_row-RowInv t k rows row a.1 (rw e at h)
]

-- The job of a search by key, in a valid table.
pub find-found :
    (t : Option Uuid) (k : Text) (rows : List JobRow) (row : JobRow)
    → TableInv rows
    → find_row t k rows ≡ some row
    → find_by_deduplication_key t k rows ≡ ok (some (row_job row))
unfolding find_by_deduplication_key
find-found t k rows row i f =
    ground (arith, to_domain-ok row (find_row-RowInv t k rows row i.rows_valid f))

find-missing :
    (t : Option Uuid) (k : Text) (rows : List JobRow)
    → find_row t k rows ≡ none
    → find_by_deduplication_key t k rows ≡ ok none
unfolding find_by_deduplication_key
find-missing t k rows f = ground arith

-- The table is valid and holds the job under its key.
pub record Stored (tenant_id : Option Uuid) (key : Text) (job : OutboxJob) (rows : List JobRow)
    : Type 0 where
  pub table_inv : TableInv rows
  pub found : find_by_deduplication_key tenant_id key rows ≡ ok (some (with_job_tenant job))

module _ (job : OutboxJob) (reference_valid : new_reference job.reference ≡ ok job.reference)
    (valid : Inv job) where
  abbrev key_of : List JobRow → Option JobRow
  key_of rows = find_row job.tenant_id job.deduplication_key rows

  inserted :
      (rows : List JobRow)
      → TableInv rows
      → key_of rows ≡ none
      → get_row job.id rows ≡ none
      → Stored job.tenant_id job.deduplication_key job (outbox_job_to_row job ∷ rows)
  unfolding find_row
  inserted rows i f g =
      let new = outbox_job_to_row job in
      let t = insert-TableInv new rows f g (to_row-RowInv job reference_valid valid) i in
      record {
        table_inv = t;
        found =
            find-found job.tenant_id job.deduplication_key (new ∷ rows) new t
              (ground (arith, same_key_refl new));
      }

  from_committed :
      (committed : List JobRow) (s s' : Session) (j : OutboxJob) (created : Bool)
      → TableInv committed
      → (by_key by_id : Option JobRow) → key_of committed ≡ by_key
      → get_row job.id committed ≡ by_id
      → enqueued_or_raised job s (insert_row by_key by_id (outbox_job_to_row job) committed)
        ≡ ok ((j, created), s')
      → Stored job.tenant_id job.deduplication_key j s'.rows
  from_committed committed s s' j created i (some row) by_id f g h = cc
  from_committed committed s s' j created i none (some row) f g h = cc
  from_committed committed s s' j created i none none f g h =
      let e : job ≡ j = ground arith in
      let e' : outbox_job_to_row job ∷ committed ≡ s'.rows = ground arith in
      subst (λ x. Stored job.tenant_id job.deduplication_key x s'.rows) e
        (subst (λ r. Stored job.tenant_id job.deduplication_key job r) e'
          (inserted committed i f g))

  from_found :
      (committed : List JobRow) (s s' : Session) (j : OutboxJob) (created : Bool)
      → TableInv s.rows
      → TableInv committed
      → (by_key : Option JobRow) → key_of s.rows ≡ by_key
      → (to_domain by_key >>= λ existing. return_or_enqueue job committed existing s)
        ≡ ok ((j, created), s')
      → Stored job.tenant_id job.deduplication_key j s'.rows
  unfolding to_domain enqueue
  from_found committed s s' j created i ic none f h =
      from_committed committed s s' j created ic (key_of committed) (get_row job.id committed) refl
        refl h
  from_found committed s s' j created i ic (some row) f h =
      let loaded =
        to_domain-ok row
          (find_row-RowInv job.tenant_id job.deduplication_key s.rows row i.rows_valid f) in
      let e : row_job row ≡ j = ground arith in
      let e' : s.rows ≡ s'.rows = ground arith in
      subst (λ x. Stored job.tenant_id job.deduplication_key x s'.rows) e
        (subst (λ r. Stored job.tenant_id job.deduplication_key (row_job row) r) e'
          (record {
            table_inv = i;
            found = find-found job.tenant_id job.deduplication_key s.rows row i f;
          }))

  pub get_or_create-Stored :
      (committed : List JobRow → List JobRow) (s s' : Session) (j : OutboxJob) (created : Bool)
      → TableInv s.rows
      → TableInv (committed s.rows)
      → get_or_create job committed s ≡ ok ((j, created), s')
      → Stored job.tenant_id job.deduplication_key j s'.rows
  unfolding get_or_create
  get_or_create-Stored committed s s' j created i ic h =
      from_found (committed s.rows) s s' j created i ic (key_of s.rows) refl h
