-- ===== src/Outbox/Calls.antt =====
-- The calls that change a job, as data: what a service may do to a job between two loads of it.
use closer_os.Prelude.{ℕ, Option}
use closer_os.Outbox.Types.{Uuid, Text, Datetime, JobPhase, ErrorCode, Outcome}
use closer_os.Outbox.Job.{OutboxJob}
use closer_os.Outbox.Operations.{
  claim_for_publishing, mark_published, schedule_retry, mark_dead_letter, claim_for_processing,
  mark_succeeded, recover_expired_publisher_claim, recover_expired_processor_claim,
  renew_processor_claim, requeue_dead_letter,
}

pub data Call : Type 0 where
  claims_for_publishing : Uuid → Text → Datetime → ℕ → Call
  marks_published : Option Uuid → Datetime → ℕ → Call
  schedules_retry : Option Uuid → JobPhase → ErrorCode → Datetime → ℕ → Call
  marks_dead_letter : Option Uuid → ErrorCode → Datetime → ℕ → Call
  claims_for_processing : Uuid → Text → Datetime → ℕ → Call
  marks_succeeded : Option Uuid → Datetime → ℕ → Call
  recovers_publisher_claim : Datetime → Call
  recovers_processor_claim : Datetime → Call
  renews_claim : Option Uuid → Datetime → ℕ → Call
  requeues : Datetime → Call

unfoldable pub apply : OutboxJob → Call → Outcome OutboxJob
unfolding claim_for_publishing mark_published schedule_retry mark_dead_letter claim_for_processing
    mark_succeeded recover_expired_publisher_claim recover_expired_processor_claim
    renew_processor_claim requeue_dead_letter
apply job (claims_for_publishing token worker_id now version) =
    claim_for_publishing job token worker_id now version
apply job (marks_published token now version) = mark_published job token now version
apply job (schedules_retry token phase code now version) =
    schedule_retry job token phase code now version
apply job (marks_dead_letter token code now version) = mark_dead_letter job token code now version
apply job (claims_for_processing token worker_id now version) =
    claim_for_processing job token worker_id now version
apply job (marks_succeeded token now version) = mark_succeeded job token now version
apply job (recovers_publisher_claim now) = recover_expired_publisher_claim job now
apply job (recovers_processor_claim now) = recover_expired_processor_claim job now
apply job (renews_claim token now version) = renew_processor_claim job token now version
apply job (requeues now) = requeue_dead_letter job now
