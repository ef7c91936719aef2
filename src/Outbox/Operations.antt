-- ===== src/Outbox/Operations.antt =====
-- The operations on a job of packages/backend/src/closeros/domain/outbox.py, each from its guards
-- in the order of the source.
use closer_os.Prelude.{
  ℕ, ◌+◌, ◌||◌, not, Option, none, some, ltb, leb, ◌==◌, same_option, err, guard, ◌>>◌, ◌>>=◌,
}
use closer_os.Outbox.Types.{
  Uuid, Text, Datetime, JobState, JobPhase, ErrorCode, Outcome, pending, publishing, published,
  processing, retry_scheduled, dead_letter, publisher, processor, transition_error, claim_error,
  not_claimable_for_publishing, not_yet_available, not_publishing, not_processing, budget_exhausted,
  not_dead_letterable, not_claimable_for_processing, claim_not_expired, not_dead_letter,
  token_mismatch, expiry_missing, lease_expired, version_mismatch, timedelta_seconds,
  publisher_lease_seconds, processor_lease_seconds, assert_transition, is_pending, is_publishing,
  is_published, is_processing, is_retry_scheduled, is_dead_letter,
}
use closer_os.Outbox.Validate.{validate_worker_id}
use closer_os.Outbox.Backoff.{calculate_retry_delay_seconds}
use closer_os.Outbox.Job.{OutboxJob, post_init}

unfoldable pub assert_claim_token : OutboxJob → Option Uuid → Outcome Unit
assert_claim_token job claim_token =
    guard (same_option job.claim_token claim_token) (claim_error token_mismatch)

unfoldable pub not_expired : Option Datetime → Datetime → Outcome Unit
not_expired none now = err (claim_error expiry_missing)
not_expired (some claim_expires_at) now =
    guard (not (leb claim_expires_at now)) (claim_error lease_expired)

unfoldable pub assert_claim_not_expired : OutboxJob → Datetime → Outcome Unit
unfolding not_expired
assert_claim_not_expired job now = not_expired job.claim_expires_at now

unfoldable pub assert_expected_version : OutboxJob → ℕ → Outcome Unit
assert_expected_version job expected_version =
    guard (job.version == expected_version) (claim_error version_mismatch)

-- `dataclasses.replace`, which constructs the job anew.
unfoldable pub replace : OutboxJob → Outcome OutboxJob
replace job = post_init job

-- The four claim fields set to `None`.
abbrev pub released : OutboxJob → OutboxJob
released job = record job {
  claim_token = none;
  claimed_by = none;
  claimed_at = none;
  claim_expires_at = none;
  version = job.version + 1;
}

abbrev pub claimed_for_publishing : OutboxJob → Uuid → Text → Datetime → OutboxJob
claimed_for_publishing job claim_token worker_id now = record job {
  state = publishing;
  claim_token = some claim_token;
  claimed_by = some worker_id;
  claimed_at = some now;
  claim_expires_at = some (now + timedelta_seconds publisher_lease_seconds);
  version = job.version + 1;
}

unfoldable pub claim_for_publishing :
    OutboxJob
    → (claim_token : Uuid) (worker_id : Text) (now : Datetime) (expected_version : ℕ)
    → Outcome OutboxJob
unfolding assert_expected_version assert_transition replace
claim_for_publishing job claim_token worker_id now expected_version = do
  assert_expected_version job expected_version
  guard (is_pending job.state || is_retry_scheduled job.state)
      (transition_error not_claimable_for_publishing)
  guard (not (ltb now job.available_at)) (transition_error not_yet_available)
  assert_transition job.state publishing
  validate_worker_id worker_id
  replace (claimed_for_publishing job claim_token worker_id now)

abbrev pub published_job : OutboxJob → Datetime → OutboxJob
published_job job now = record (released job) {
  state = published;
  published_at = some now;
  last_error_code = none;
}

unfoldable pub mark_published :
    OutboxJob
    → (claim_token : Option Uuid) (now : Datetime) (expected_version : ℕ) → Outcome OutboxJob
unfolding assert_expected_version assert_claim_token assert_claim_not_expired assert_transition
    replace
mark_published job claim_token now expected_version = do
  assert_expected_version job expected_version
  guard (is_publishing job.state) (transition_error not_publishing)
  assert_claim_token job claim_token
  assert_claim_not_expired job now
  assert_transition job.state published
  replace (published_job job now)

-- The two tests on the phase.
unfoldable pub assert_phase : JobPhase → JobState → Outcome Unit
assert_phase publisher state = guard (is_publishing state) (transition_error not_publishing)
assert_phase processor state = guard (is_processing state) (transition_error not_processing)

-- `None if phase is OutboxJobPhase.PROCESSOR else value`
abbrev pub unless_processor : JobPhase → Option Datetime → Option Datetime
unless_processor processor value = none
unless_processor publisher value = value

abbrev pub retried_job : OutboxJob → JobPhase → ErrorCode → Datetime → ℕ → OutboxJob
retried_job job phase error_code now delay_seconds = record (released job) {
  state = retry_scheduled;
  attempt_count = (job.attempt_count + 1);
  available_at = now + timedelta_seconds delay_seconds;
  processing_started_at = unless_processor phase job.processing_started_at;
  published_at = unless_processor phase job.published_at;
  last_error_code = some error_code;
}

unfoldable pub schedule_retry :
    OutboxJob
    → (claim_token : Option Uuid) (phase : JobPhase) (error_code : ErrorCode) (now : Datetime)
    → (expected_version : ℕ) → Outcome OutboxJob
unfolding assert_expected_version assert_phase assert_claim_token assert_claim_not_expired
    assert_transition calculate_retry_delay_seconds replace
schedule_retry job claim_token phase error_code now expected_version = do
  assert_expected_version job expected_version
  assert_phase phase job.state
  assert_claim_token job claim_token
  assert_claim_not_expired job now
  let next_attempt_count = job.attempt_count + 1
  guard (not (leb job.max_attempts next_attempt_count)) (transition_error budget_exhausted)
  assert_transition job.state retry_scheduled
  delay_seconds ← calculate_retry_delay_seconds next_attempt_count
  replace (retried_job job phase error_code now delay_seconds)

abbrev pub dead_lettered_job : OutboxJob → ErrorCode → Datetime → OutboxJob
dead_lettered_job job error_code now = record (released job) {
  state = dead_letter;
  completed_at = some now;
  last_error_code = some error_code;
}

unfoldable pub mark_dead_letter :
    OutboxJob
    → (claim_token : Option Uuid) (error_code : ErrorCode) (now : Datetime) (expected_version : ℕ)
    → Outcome OutboxJob
unfolding assert_expected_version assert_claim_token assert_claim_not_expired assert_transition
    replace
mark_dead_letter job claim_token error_code now expected_version = do
  assert_expected_version job expected_version
  guard (is_publishing job.state || is_processing job.state) (transition_error not_dead_letterable)
  assert_claim_token job claim_token
  assert_claim_not_expired job now
  assert_transition job.state dead_letter
  replace (dead_lettered_job job error_code now)

abbrev pub claimed_for_processing : OutboxJob → Uuid → Text → Datetime → OutboxJob
claimed_for_processing job claim_token worker_id now = record job {
  state = processing;
  claim_token = some claim_token;
  claimed_by = some worker_id;
  claimed_at = some now;
  claim_expires_at = some (now + timedelta_seconds processor_lease_seconds);
  processing_started_at = some now;
  version = job.version + 1;
}

unfoldable pub claim_for_processing :
    OutboxJob
    → (claim_token : Uuid) (worker_id : Text) (now : Datetime) (expected_version : ℕ)
    → Outcome OutboxJob
unfolding assert_expected_version assert_transition replace
claim_for_processing job claim_token worker_id now expected_version = do
  assert_expected_version job expected_version
  guard (is_published job.state) (transition_error not_claimable_for_processing)
  guard (not (ltb now job.available_at)) (transition_error not_yet_available)
  assert_transition job.state processing
  validate_worker_id worker_id
  replace (claimed_for_processing job claim_token worker_id now)

abbrev pub succeeded_job : OutboxJob → Datetime → OutboxJob
succeeded_job job now = record (released job) {
  state = JobState.succeeded;
  completed_at = some now;
  last_error_code = none;
}

unfoldable pub mark_succeeded :
    OutboxJob
    → (claim_token : Option Uuid) (now : Datetime) (expected_version : ℕ) → Outcome OutboxJob
unfolding assert_expected_version assert_claim_token assert_claim_not_expired assert_transition
    replace
mark_succeeded job claim_token now expected_version = do
  assert_expected_version job expected_version
  guard (is_processing job.state) (transition_error not_processing)
  assert_claim_token job claim_token
  assert_claim_not_expired job now
  assert_transition job.state JobState.succeeded
  replace (succeeded_job job now)

-- `job.claim_expires_at is None or now < job.claim_expires_at`
unfoldable pub assert_expired : Option Datetime → Datetime → Outcome Unit
assert_expired none now = err (transition_error claim_not_expired)
assert_expired (some claim_expires_at) now =
    guard (not (ltb now claim_expires_at)) (transition_error claim_not_expired)

abbrev pub recovered_to_pending : OutboxJob → OutboxJob
recovered_to_pending job = record (released job) { state = pending }

unfoldable pub recover_expired_publisher_claim : OutboxJob → (now : Datetime) → Outcome OutboxJob
unfolding assert_expired assert_transition replace
recover_expired_publisher_claim job now = do
  guard (is_publishing job.state) (transition_error not_publishing)
  assert_expired job.claim_expires_at now
  assert_transition job.state pending
  replace (recovered_to_pending job)

abbrev pub recovered_to_published : OutboxJob → OutboxJob
recovered_to_published job = record (released job) {
  state = published;
  processing_started_at = none;
}

unfoldable pub recover_expired_processor_claim : OutboxJob → (now : Datetime) → Outcome OutboxJob
unfolding assert_expired assert_transition replace
recover_expired_processor_claim job now = do
  guard (is_processing job.state) (transition_error not_processing)
  assert_expired job.claim_expires_at now
  assert_transition job.state published
  replace (recovered_to_published job)

abbrev pub renewed_job : OutboxJob → Datetime → OutboxJob
renewed_job job now = record job {
  claim_expires_at = some (now + timedelta_seconds processor_lease_seconds);
  version = job.version + 1;
}

unfoldable pub renew_processor_claim :
    OutboxJob
    → (claim_token : Option Uuid) (now : Datetime) (expected_version : ℕ) → Outcome OutboxJob
unfolding assert_expected_version assert_claim_token assert_claim_not_expired replace
renew_processor_claim job claim_token now expected_version = do
  assert_expected_version job expected_version
  guard (is_processing job.state) (transition_error not_processing)
  assert_claim_token job claim_token
  assert_claim_not_expired job now
  replace (renewed_job job now)

abbrev pub requeued_job : OutboxJob → Datetime → OutboxJob
requeued_job job now = record (released job) {
  state = pending;
  attempt_count = 0;
  available_at = now;
  completed_at = none;
  published_at = none;
  processing_started_at = none;
  last_error_code = none;
}

unfoldable pub requeue_dead_letter : OutboxJob → (now : Datetime) → Outcome OutboxJob
unfolding assert_transition replace
requeue_dead_letter job now = do
  guard (is_dead_letter job.state) (transition_error not_dead_letter)
  assert_transition job.state pending
  replace (requeued_job job now)
