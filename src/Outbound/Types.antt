-- ===== src/Outbound/Types.antt =====
-- The enumerations, the transition table and the errors of
-- packages/backend/src/closeros/domain/outbound_message.py. The values of the string enumerations
-- are not modelled: the constructors stand for them.
use closer_os.Prelude.{Bool, true, false, ◌||◌, Result, guard}
use closer_os.Outbox.Types.{ErrorCode}

pub data Kind : Type 0 where
  free_form_text approved_template : Kind

pub data Status : Type 0 where
  draft pending_approval approved queued sending : Status
  provider_accepted delivery_unknown delivered read failed cancelled : Status

-- `OutboundMessageInvariantError` and the `ValueError`s of the records, by their messages.
pub data InvalidReason : Type 0 where
  template_missing template_unexpected approver_missing failure_code_missing : InvalidReason
  provider_message_id_empty provider_message_id_length : InvalidReason
  failure_code_format version_positive external_id_empty external_id_length : InvalidReason

-- What the code of this component raises.
pub data OutboundError : Type 0 where
  invalid : InvalidReason → OutboundError
  transition_error : OutboundError
  message_not_found version_conflict integrity_error : OutboundError
  service_error access_denied : OutboundError
  policy_error outbox_error : OutboundError
  -- SQLAlchemy's PendingRollbackError
  pending_rollback : OutboundError
  handler_error : (error_code : ErrorCode) (permanent : Bool) → OutboundError

abbrev pub Outcome : Type 0 → Type 0
Outcome A = Result OutboundError A

-- `target in _ALLOWED_TRANSITIONS[current]`
unfoldable pub allowed_transitions : Status → Status → Bool
allowed_transitions draft pending_approval = true
allowed_transitions draft cancelled = true
allowed_transitions pending_approval approved = true
allowed_transitions pending_approval cancelled = true
allowed_transitions approved queued = true
allowed_transitions approved cancelled = true
allowed_transitions queued sending = true
allowed_transitions queued cancelled = true
allowed_transitions sending provider_accepted = true
allowed_transitions sending delivery_unknown = true
allowed_transitions sending failed = true
allowed_transitions provider_accepted delivered = true
allowed_transitions provider_accepted read = true
allowed_transitions provider_accepted failed = true
allowed_transitions delivery_unknown provider_accepted = true
allowed_transitions delivery_unknown delivered = true
allowed_transitions delivery_unknown read = true
allowed_transitions delivery_unknown failed = true
allowed_transitions delivered read = true
allowed_transitions _ _ = false

-- `current is target`
abbrev pub same_status : Status → Status → Bool
same_status draft draft = true
same_status pending_approval pending_approval = true
same_status approved approved = true
same_status queued queued = true
same_status sending sending = true
same_status provider_accepted provider_accepted = true
same_status delivery_unknown delivery_unknown = true
same_status delivered delivered = true
same_status read read = true
same_status failed failed = true
same_status cancelled cancelled = true
same_status _ _ = false

unfoldable pub validate_outbound_message_transition : Status → Status → Outcome (Unit {0})
unfolding allowed_transitions
validate_outbound_message_transition current target =
    guard (same_status current target || allowed_transitions current target) transition_error

unfoldable pub outbound_send_may_proceed : Status → Bool
outbound_send_may_proceed queued = true
outbound_send_may_proceed _ = false

-- `status in _NO_RESEND_STATUSES`
unfoldable pub outbound_resend_prohibited : Status → Bool
outbound_resend_prohibited provider_accepted = true
outbound_resend_prohibited delivery_unknown = true
outbound_resend_prohibited delivered = true
outbound_resend_prohibited read = true
outbound_resend_prohibited _ = false

-- The statuses for which `__post_init__` requires `approved_by_user_id`.
unfoldable pub requires_approver : Status → Bool
requires_approver approved = true
requires_approver queued = true
requires_approver sending = true
requires_approver provider_accepted = true
requires_approver delivery_unknown = true
requires_approver delivered = true
requires_approver read = true
requires_approver _ = false
