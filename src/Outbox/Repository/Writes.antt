-- ===== src/Outbox/Repository/Writes.antt =====
-- What stands in the table after a job has been written over its row
-- (packages/backend/src/closeros/infrastructure/outbox_repositories.py, outbox_mappers.py).
use closer_os.Prelude.{
  Option-cases, inl, inr, ap, ◌≡◌, ◌≢◌, sym, subst, some, Option, none, ok, err, arith, refl, ◌∙◌,
}
use closer_os.Outbox.Types.{Uuid, Text, Outcome}
use closer_os.Outbox.Job.{OutboxJob}
use closer_os.Outbox.Calls.{apply}
use closer_os.Outbox.Contract.{Allowed, after, apply_of_Allowed}
use closer_os.Outbox.Invariant.{Inv}
use closer_os.Outbox.Lifecycle.{apply-Inv}
use closer_os.Outbox.Rows.{JobRow, row_job, row_reference, update_outbox_job_row}
use closer_os.Outbox.Rows.RoundTrip.{RowInv, to_domain-ok}
use closer_os.Outbox.Database.{Session, get_row}
use closer_os.Outbox.Repository.{saved}
use closer_os.Outbox.Repository.Enqueue.{get_by_id}
use closer_os.Outbox.Repository.Methods.{
  Method, call_method, domain_call, specified, answer, method-specified, apply-keys,
}
use closer_os.Outbox.Repository.Table.{
  TableInv, get_row-id, get_row-All, get_row-write_row, get_row-write_row_ne, write_row-TableInv,
  stored_id, stored_id-write_row,
}

-- The job has the keys and the reference of the row.
pub record SameKeys (row : JobRow) (job : OutboxJob) : Type 0 where
  pub same_id : job.id ≡ row.id
  pub same_tenant : job.tenant_id ≡ row.tenant_id
  pub same_key : job.deduplication_key ≡ row.deduplication_key
  pub same_reference : job.reference ≡ row_reference row

row_job-update :
    (row : JobRow) (job : OutboxJob)
    → SameKeys row job
    → row_job (update_outbox_job_row row job) ≡ job
row_job-update row job k = ground arith

update-RowInv :
    (row : JobRow) (job : OutboxJob)
    → RowInv row
    → Inv job
    → SameKeys row job
    → RowInv (update_outbox_job_row row job)
update-RowInv row job r i k = record {
  reference_valid =
      let e : row_reference (update_outbox_job_row row job) ≡ row_reference row = ground arith in
      rw e r.reference_valid;
  job_inv = subst Inv (sym (row_job-update row job k)) i;
}

-- The table after the write.
pub record Written (id : Uuid) (job : OutboxJob) (before after : Session) : Type 0 where
  pub table_inv : TableInv after.rows
  pub read_back : get_by_id id after ≡ ok (some job)
  pub keys_kept :
      (tenant_id : Option Uuid) (key : Text)
      → stored_id tenant_id key after.rows ≡ stored_id tenant_id key before.rows
  pub others : (other : Uuid) → other ≢ id → get_row other after.rows ≡ get_row other before.rows

pub saved-Written :
    (row : JobRow) (job : OutboxJob) (id : Uuid) (s : Session)
    → TableInv s.rows
    → get_row id s.rows ≡ some row
    → Inv job
    → SameKeys row job
    → Written id job s (saved row job s)
unfolding get_by_id
saved-Written row job id s t g i k =
    let same : row.id ≡ id = get_row-id id s.rows row g in
    let h = subst (λ x. get_row x s.rows ≡ some row) (sym same) g in
    let v = update-RowInv row job (get_row-All RowInv id s.rows row t.rows_valid g) i k in
    record {
      table_inv =
          write_row-TableInv (update_outbox_job_row row job) row s.rows h k.same_tenant k.same_key v
            t;
      read_back = ground (
        arith,
        get_row-write_row (update_outbox_job_row row job) id s.rows row,
        to_domain-ok (update_outbox_job_row row job) v,
        row_job-update row job k,
      );
      keys_kept = λ tenant_id key.
          stored_id-write_row tenant_id key (update_outbox_job_row row job) row s.rows
            (t.ids_unique row.id) h (ground (arith, k.same_tenant, k.same_key));
      others = λ other ne.
          get_row-write_row_ne (update_outbox_job_row row job) other s.rows
            (λ e. ne (sym e ∙ same));
    }

method-Written_found :
    (m : Method) (id : Uuid) (s s' : Session) (job : OutboxJob) (row : JobRow)
    → TableInv s.rows
    → get_row id s.rows ≡ some row
    → (r : Outcome OutboxJob) → apply (row_job row) (domain_call m) ≡ r
    → answer row s r ≡ ok (job, s')
    → Written id job s s'
method-Written_found m id s s' job row t g (ok job') a h =
    let i =
      apply-Inv (row_job row) job' (domain_call m)
        (get_row-All RowInv id s.rows row t.rows_valid g).job_inv a in
    let (same_id, same_tenant, same_key, same_reference) = apply-keys (row_job row) job' m a in
    let w = saved-Written row job' id s t g i (record {
      same_id = same_id;
      same_tenant = same_tenant;
      same_key = same_key;
      same_reference = same_reference;
    }) in
    let e : job' ≡ job = ground arith in
    let e' : saved row job' s ≡ s' = ground arith in
    subst (λ j. Written id j s s') e (subst (λ z. Written id job' s z) e' w)
method-Written_found m id s s' job row t g (err e) a h = cc

method-Written_cases :
    (m : Method) (id : Uuid) (s s' : Session) (job : OutboxJob) (found : Option JobRow)
    → TableInv s.rows
    → get_row id s.rows ≡ found
    → specified m s found ≡ ok (job, s')
    → Written id job s s'
method-Written_cases m id s s' job none t g h = cc
method-Written_cases m id s s' job (some row) t g h =
    method-Written_found m id s s' job row t g (apply (row_job row) (domain_call m)) refl h

-- A method that returns keeps the invariant of the table and the id under every deduplication key,
-- changes no row but that of its job, and reading that job back gives what the method returned.
pub method-Written :
    (m : Method) (id : Uuid) (s s' : Session) (job : OutboxJob)
    → TableInv s.rows
    → call_method m id s ≡ ok (job, s')
    → Written id job s s'
method-Written m id s s' job t h =
    method-Written_cases m id s s' job (get_row id s.rows) t refl
      (sym (method-specified m id s t) ∙ h)

stored_row :
    (id : Uuid) (s : Session) (job : OutboxJob)
    → TableInv s.rows
    → get_by_id id s ≡ ok (some job)
    → (row : JobRow) × (get_row id s.rows ≡ some row) × (row_job row ≡ job)
unfolding get_by_id
stored_row id s job t h = elim (Option-cases (get_row id s.rows)) [
  | inl e ↦ absurd (ground arith)
  | inr (row, e) ↦
      (row, e, ground (arith, to_domain-ok row (get_row-All RowInv id s.rows row t.rows_valid e)))
]

pub stored-Inv :
    (id : Uuid) (s : Session) (job : OutboxJob)
    → TableInv s.rows
    → get_by_id id s ≡ ok (some job)
    → Inv job
stored-Inv id s job t h =
    let (row, g, e) = stored_row id s job t h in
    subst Inv e (get_row-All RowInv id s.rows row t.rows_valid g).job_inv

method-ok_row :
    (m : Method) (id : Uuid) (s : Session) (row : JobRow) (found : Option JobRow)
    → TableInv s.rows
    → get_row id s.rows ≡ found
    → found ≡ some row
    → Allowed (row_job row) (domain_call m)
    → (s' : Session) × (call_method m id s ≡ ok (after (row_job row) (domain_call m), s'))
      × (s'.drawn ≡ s.drawn)
method-ok_row m id s row found t g f a =
    let v = get_row-All RowInv id s.rows row t.rows_valid (g ∙ f) in
    let e = apply_of_Allowed (row_job row) (domain_call m) v.job_inv.valid a in
    (
      saved row (after (row_job row) (domain_call m)) s,
      method-specified m id s t ∙ ap (specified m s) (g ∙ f) ∙ ap (answer row s) e,
      refl,
    )

-- A method that the domain allows on the stored job returns the job that the domain names.
pub method-ok :
    (m : Method) (id : Uuid) (s : Session) (job : OutboxJob)
    → TableInv s.rows
    → get_by_id id s ≡ ok (some job)
    → Allowed job (domain_call m)
    → (s' : Session) × (call_method m id s ≡ ok (after job (domain_call m), s'))
      × Written id (after job (domain_call m)) s s'
      × (s'.drawn ≡ s.drawn)
method-ok m id s job t h a =
    let (row, g, e) = stored_row id s job t h in
    let (s', c, d) =
      method-ok_row m id s row (get_row id s.rows) t refl g
        (subst (λ j. Allowed j (domain_call m)) (sym e) a) in
    let c' = subst (λ j. call_method m id s ≡ ok (after j (domain_call m), s')) e c in
    (s', c', method-Written m id s s' (after job (domain_call m)) t c', d)
