-- ===== src/Outbox/Reconciliation.antt =====
-- `OutboxReconciliationService`
-- (packages/backend/src/closeros/application/outbox_reconciliation.py).
use closer_os.Prelude.{ℕ, none, some, length, count, ok, ◌>>=◌}
use closer_os.Outbox.Types.{Datetime, is_pending, is_published, is_dead_letter}
use closer_os.Outbox.Database.{Database, Session}
use closer_os.Outbox.Repository.{Run}
use closer_os.Outbox.Repository.Claims.{recover_expired_claims}
use closer_os.Outbox.Repository.Enqueue.{list_by_state}

pub record ReconciliationReport : Type 0 where
  pub recovered_publisher_claims : ℕ
  pub recovered_processor_claims : ℕ
  pub overdue_pending_jobs : ℕ
  pub dead_letter_jobs : ℕ

unfoldable pub reconcile :
    Database → (now overdue_before : Datetime) (limit : ℕ) → Session → Run ReconciliationReport
unfolding recover_expired_claims list_by_state
reconcile db now overdue_before limit s = do
  (recovered, s') ← recover_expired_claims db now s
  overdue_pending ←
      list_by_state db is_pending
        (record { tenant_id = none; overdue_before = some overdue_before; limit = limit }) s'
  dead_letter_jobs ←
      list_by_state db is_dead_letter
        (record { tenant_id = none; overdue_before = none; limit = limit }) s'
  ok (
    record {
      recovered_publisher_claims = count (λ job. is_pending job.state) recovered;
      recovered_processor_claims = count (λ job. is_published job.state) recovered;
      overdue_pending_jobs = length overdue_pending;
      dead_letter_jobs = length dead_letter_jobs;
    },
    s',
  )
