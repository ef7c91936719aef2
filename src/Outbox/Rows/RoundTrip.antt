-- ===== src/Outbox/Rows/RoundTrip.antt =====
-- The mappers between jobs and rows are inverse to one another, but for the tenant of the
-- reference (packages/backend/src/closeros/infrastructure/outbox_mappers.py).
use closer_os.Prelude.{◌≡◌, ok, arith, same_option_refl}
use closer_os.Outbox.Job.{new_reference, OutboxJob, post_init, reference_tenant_differs}
use closer_os.Outbox.Rows.{JobRow, outbox_job_to_row, row_reference, row_job, outbox_job_to_domain}
use closer_os.Outbox.Invariant.{Inv}

-- The reference with the tenant of its job.
abbrev pub with_job_tenant : OutboxJob → OutboxJob
with_job_tenant job = record job { reference = record job.reference { tenant_id = job.tenant_id } }

post_init-with_job_tenant :
    (job : OutboxJob)
    → post_init job ≡ ok job
    → post_init (with_job_tenant job) ≡ ok (with_job_tenant job)
unfolding post_init reference_tenant_differs
post_init-with_job_tenant job h = ground (arith, same_option_refl job.tenant_id)

-- A job that was constructed, with a reference that was constructed, comes back from its row as it
-- was, except that its reference carries the tenant of the job.
pub job_row_round_trip :
    (job : OutboxJob)
    → new_reference job.reference ≡ ok job.reference
    → post_init job ≡ ok job
    → outbox_job_to_domain (outbox_job_to_row job) ≡ ok (with_job_tenant job)
unfolding outbox_job_to_domain new_reference
job_row_round_trip job r h = ground (arith, post_init-with_job_tenant job h)

-- The row is one that a valid job was written to.
pub record RowInv (row : JobRow) : Type 0 where
  pub reference_valid : new_reference (row_reference row) ≡ ok (row_reference row)
  pub job_inv : Inv (row_job row)

pub to_domain-ok : (row : JobRow) → RowInv row → outbox_job_to_domain row ≡ ok (row_job row)
unfolding outbox_job_to_domain
to_domain-ok row i = ground (arith, i.reference_valid, i.job_inv.valid)

pub Inv-with_job_tenant : (job : OutboxJob) → Inv job → Inv (with_job_tenant job)
Inv-with_job_tenant job i = ground (arith, post_init-with_job_tenant job i.valid)
