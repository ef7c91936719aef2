-- ===== src/Outbox/Examples.antt =====
-- A job on which the theorems about the outbox are applied
-- (packages/backend/src/closeros/domain/outbox.py).
mod Services
use closer_os.Prelude.{
  inl, ◌⊎◌, ◌<◌, ℕ, suc, ◌+◌, ◌≤◌, ◌≡◌, refl, Bool, true, false, Option, none, some, List, [], ◌∷◌,
  ok, err, arith, ◌↔◌, count, length, All, sym, ◌≢◌,
}
use closer_os.Outbox.Types.{
  Text, Uuid, JobKind, message_analyze, pending, publishing, JobState, claim_error,
  version_mismatch, handler_failed, JobPhase, invariant_error, retry_delay_attempt_count,
  allowed_transitions,
}
use closer_os.Outbox.Validate.{
  worker_id_pattern, validate_resource_type, resource_type_pattern, validate_schema_version,
  validate_deduplication_key, deduplication_key_pattern, validate_priority, validate_max_attempts,
  validate_version, validate_job_tenant_scope, validate_worker_id,
}
use closer_os.Outbox.Backoff.{calculate_retry_delay_seconds}
use closer_os.Outbox.Backoff.Bounds.{retry_delay_table}
use closer_os.Outbox.Job.{
  JobReference, new_reference, OutboxJob, post_init, pending_job, build_outbox_job,
  validate_claimed_by, reference_tenant_differs,
}
use closer_os.Outbox.Calls.{Call, apply, claims_for_publishing, marks_published, requeues}
use closer_os.Outbox.Contract.{Allowed, Holds, after, apply_of_Allowed, apply-iff-Allowed}
use closer_os.Outbox.Invariant.{Inv, after-Inv, build_outbox_job-Inv, is_claimed}
use closer_os.Outbox.Lifecycle.{run, run-Inv, apply-transition, stale_version}
use closer_os.Outbox.Lifecycle.Leases.{lease_protects, final_absorbs}
use closer_os.Outbox.Lifecycle.Budget.{retries, retry_budget}
use closer_os.Outbox.Lifecycle.Progress.{CanSucceed, can_succeed}
use closer_os.Outbox.Rows.{JobRow, outbox_job_to_row, outbox_job_to_domain}
use closer_os.Outbox.Rows.RoundTrip.{job_row_round_trip, with_job_tenant}
use closer_os.Outbox.Database.{Database, DatabaseLaws, Session}

-- "message", "job-1" and "worker-a"
abbrev message : Text
message = b'm' ∷ b'e' ∷ b's' ∷ b's' ∷ b'a' ∷ b'g' ∷ b'e' ∷ []

abbrev key : Text
key = b'j' ∷ b'o' ∷ b'b' ∷ b'-' ∷ b'1' ∷ []

abbrev worker : Text
worker = b'w' ∷ b'o' ∷ b'r' ∷ b'k' ∷ b'e' ∷ b'r' ∷ b'-' ∷ b'a' ∷ []

abbrev reference : JobReference
reference = record {
  resource_type = message;
  resource_id = 7;
  schema_version = 1;
  tenant_id = some 5;
  secondary_id = none;
}

abbrev job : OutboxJob
job = pending_job 1 (some 5) message_analyze reference key 100 none 100 3

reference_valid : new_reference reference ≡ ok reference
unfolding new_reference validate_resource_type resource_type_pattern validate_schema_version
reference_valid = refl

built : build_outbox_job 1 (some 5) message_analyze reference key 100 none 100 3 ≡ ok job
unfolding build_outbox_job post_init validate_job_tenant_scope reference_tenant_differs
    validate_deduplication_key deduplication_key_pattern validate_priority validate_max_attempts
    validate_version validate_claimed_by
built = refl

worker_valid : worker_id_pattern worker ≡ true
unfolding worker_id_pattern
worker_valid = refl

build_outbox_job-Inv_example : Inv job
build_outbox_job-Inv_example =
    build_outbox_job-Inv 1 (some 5) message_analyze reference key 100 none 100 3 job built

abbrev claim : Call
claim = claims_for_publishing 9 worker 100 1

abbrev claimed : OutboxJob
claimed = after job claim

claimed-ok : apply job claim ≡ ok claimed
unfolding worker_id_pattern
claimed-ok =
    apply_of_Allowed job claim build_outbox_job-Inv_example.valid
      (refl, inl refl, omega arith, refl)

claimed-Inv : Inv claimed
unfolding worker_id_pattern
claimed-Inv = after-Inv job claim build_outbox_job-Inv_example (refl, inl refl, omega arith, refl)

apply-iff-Allowed_example :
    (apply job claim ≡ ok claimed) ↔ (Allowed job claim × (claimed ≡ claimed))
apply-iff-Allowed_example = apply-iff-Allowed job claimed claim build_outbox_job-Inv_example.valid

run-Inv_example : Inv (run job (claim ∷ requeues 5 ∷ claim ∷ []))
run-Inv_example = run-Inv job (claim ∷ requeues 5 ∷ claim ∷ []) build_outbox_job-Inv_example

apply-transition_example :
    ((allowed_transitions pending publishing ≡ true) ⊎ ((false ≡ true) × (publishing ≡ pending)))
    × (claimed.version ≡ job.version + 1)
    × (claimed.id ≡ job.id)
    × (claimed.tenant_id ≡ job.tenant_id)
    × (claimed.max_attempts ≡ job.max_attempts)
apply-transition_example = apply-transition job claimed claim claimed-ok

stale_version_example :
    apply (run claimed (requeues 200 ∷ [])) (marks_published (some 9) 150 1)
    ≡ err (claim_error version_mismatch)
stale_version_example =
    stale_version job claimed claim (marks_published (some 9) 150 1) (requeues 200 ∷ []) claimed-ok
      refl

-- Another worker's calls while the lease runs.
abbrev intruders : List Call
intruders = marks_published (some 8) 200 2 ∷ claims_for_publishing 8 worker 300 2 ∷ []

lease_protects_example : run claimed intruders ≡ claimed
lease_protects_example =
    lease_protects claimed 60_000_100 intruders refl refl
      ((omega arith, λ e. ground arith), ((omega arith, λ e. ground arith), tt))

retry_budget_example : 0 + retries job (claim ∷ claim ∷ []) < 3
retry_budget_example = retry_budget job (claim ∷ claim ∷ []) build_outbox_job-Inv_example refl

can_succeed_example : CanSucceed claimed
can_succeed_example = can_succeed 11 worker worker_valid claimed claimed-Inv refl

abbrev done : OutboxJob
done = record job { state = JobState.succeeded; completed_at = some 400 }

final_absorbs_example : run done (claim ∷ requeues 500 ∷ []) ≡ done
final_absorbs_example = final_absorbs done (claim ∷ requeues 500 ∷ []) refl

delay-3 : calculate_retry_delay_seconds 3 ≡ ok 120
unfolding calculate_retry_delay_seconds
delay-3 = refl

retry_delay_table_example :
    (calculate_retry_delay_seconds 0 ≡ err (invariant_error retry_delay_attempt_count))
    × (calculate_retry_delay_seconds 3 ≡ ok 120)
retry_delay_table_example = retry_delay_table 2

job_row_round_trip_example : outbox_job_to_domain (outbox_job_to_row job) ≡ ok job
job_row_round_trip_example =
    job_row_round_trip job reference_valid build_outbox_job-Inv_example.valid
