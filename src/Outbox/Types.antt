-- ===== src/Outbox/Types.antt =====
-- The enumerations, the constants, the errors and the transition table of the outbox
-- (packages/backend/src/closeros/domain/outbox.py). The values of the string enumerations name
-- rows in the database and are not modelled: the constructors stand for them.
use closer_os.Prelude.{ℕ, Bool, true, false, Result, guard}
pub use closer_os.Prelude.{Uuid, Datetime, Text, timedelta_seconds}

pub data JobKind : Type 0 where
  webhook_normalize content_redact message_analyze notification_deliver : JobKind
  retention_delete knowledge_index reconciliation_run csv_import metrics_recalculate : JobKind
  provider_message_send provider_templates_sync media_fetch media_scan crm_sync : JobKind

pub data JobState : Type 0 where
  pending publishing published processing : JobState
  retry_scheduled succeeded dead_letter cancelled : JobState

pub data JobPhase : Type 0 where
  publisher processor : JobPhase

pub data ErrorCode : Type 0 where
  publish_failed queue_unavailable handler_failed handler_not_implemented : ErrorCode
  handler_timeout resource_unavailable stale_claim transition_invalid : ErrorCode
  claim_expired max_attempts_exceeded malformed_provider_event : ErrorCode
  unsupported_operation missing_canonical_parent adapter_unavailable : ErrorCode

pub data AttemptOutcome : Type 0 where
  succeeded failed reclaimed : AttemptOutcome

-- The messages of `OutboxInvariantError`, `OutboxTransitionError` and `OutboxClaimError`.
pub data InvariantReason : Type 0 where
  deduplication_key_format worker_id_format resource_type_format priority_bounds : InvariantReason
  max_attempts_positive schema_version_bounds version_positive : InvariantReason
  global_kind_with_tenant tenant_kind_without_tenant reference_tenant_mismatch : InvariantReason
  retry_delay_attempt_count finished_before_started attempt_number_positive : InvariantReason

pub data TransitionReason : Type 0 where
  not_permitted not_claimable_for_publishing not_yet_available not_publishing : TransitionReason
  not_processing budget_exhausted not_dead_letterable not_claimable_for_processing :
      TransitionReason
  claim_not_expired not_dead_letter : TransitionReason

pub data ClaimReason : Type 0 where
  token_mismatch expiry_missing lease_expired version_mismatch : ClaimReason

pub data OutboxError : Type 0 where
  invariant_error : InvariantReason → OutboxError
  transition_error : TransitionReason → OutboxError
  claim_error : ClaimReason → OutboxError

abbrev pub Outcome : Type 0 → Type 0
Outcome A = Result OutboxError A

abbrev pub publisher_lease_seconds : ℕ
publisher_lease_seconds = 60

abbrev pub processor_lease_seconds : ℕ
processor_lease_seconds = 300

-- `_ALLOWED_TRANSITIONS`: whether the target is in the set of the current state.
unfoldable pub allowed_transitions : JobState → JobState → Bool
allowed_transitions pending publishing = true
allowed_transitions pending cancelled = true
allowed_transitions publishing published = true
allowed_transitions publishing retry_scheduled = true
allowed_transitions publishing dead_letter = true
allowed_transitions publishing pending = true
allowed_transitions published processing = true
allowed_transitions processing JobState.succeeded = true
allowed_transitions processing retry_scheduled = true
allowed_transitions processing dead_letter = true
allowed_transitions processing published = true
allowed_transitions retry_scheduled publishing = true
allowed_transitions retry_scheduled cancelled = true
allowed_transitions dead_letter pending = true
allowed_transitions _ _ = false

unfoldable pub assert_transition : JobState → JobState → Outcome (Unit {0})
unfolding allowed_transitions
assert_transition current target =
    guard (allowed_transitions current target) (transition_error not_permitted)

-- `_GLOBAL_JOB_KINDS`
abbrev pub is_global_kind : JobKind → Bool
is_global_kind reconciliation_run = true
is_global_kind _ = false

-- `state is target`
abbrev pub is_pending : JobState → Bool
is_pending pending = true
is_pending _ = false

abbrev pub is_publishing : JobState → Bool
is_publishing publishing = true
is_publishing _ = false

abbrev pub is_published : JobState → Bool
is_published published = true
is_published _ = false

abbrev pub is_processing : JobState → Bool
is_processing processing = true
is_processing _ = false

abbrev pub is_retry_scheduled : JobState → Bool
is_retry_scheduled retry_scheduled = true
is_retry_scheduled _ = false

abbrev pub is_dead_letter : JobState → Bool
is_dead_letter dead_letter = true
is_dead_letter _ = false
