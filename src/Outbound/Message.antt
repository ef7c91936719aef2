-- ===== src/Outbound/Message.antt =====
-- The record of packages/backend/src/closeros/domain/outbound_message.py and its `__post_init__`.
use closer_os.Prelude.{
  ℕ, not, ◌&&◌, Option, none, some, leb, length, is_some, ok, guard, ◌>>=◌, ◌>>◌, Uuid, Text,
  Datetime, strip, is_empty,
}
use closer_os.Outbox.Validate.{resource_type_pattern}
use closer_os.Outbound.Types.{
  Kind, free_form_text, approved_template, Status, failed, Outcome, invalid, template_missing,
  template_unexpected, approver_missing, failure_code_missing, provider_message_id_empty,
  provider_message_id_length, failure_code_format, version_positive, requires_approver, same_status,
}

pub record OutboundMessage : Type 0 where
  pub id : Uuid
  pub tenant_id : Uuid
  pub conversation_thread_id : Uuid
  pub channel_connection_id : Uuid
  pub kind : Kind
  pub status : Status
  pub encrypted_content_id : Uuid
  pub provider_template_id : Option Uuid
  pub created_by_user_id : Uuid
  pub approved_by_user_id : Option Uuid
  pub failure_code : Option Text
  pub created_at : Datetime
  pub approved_at : Option Datetime
  pub queued_at : Option Datetime
  pub sent_at : Option Datetime
  pub completed_at : Option Datetime
  pub updated_at : Datetime
  pub version : ℕ
  pub provider_message_id : Option Text

-- `^[a-z][a-z0-9_]{0,63}$`, the pattern of a resource type, is that of a failure code too.
unfoldable pub validate_failure_code : Option Text → Outcome (Option Text)
validate_failure_code none = ok none
validate_failure_code (some value) = do
  guard (resource_type_pattern (strip value)) (invalid failure_code_format)
  ok (some (strip value))

abbrev pub max_provider_message_id_length : ℕ
max_provider_message_id_length = 128

unfoldable pub validate_provider_message_id : Option Text → Outcome (Option Text)
validate_provider_message_id none = ok none
validate_provider_message_id (some value) = do
  guard (not (is_empty (strip value))) (invalid provider_message_id_empty)
  guard (leb (length (strip value)) max_provider_message_id_length)
      (invalid provider_message_id_length)
  ok (some (strip value))

-- The kind and the template, in the order of the source.
unfoldable pub check_template : Kind → Option Uuid → Outcome (Unit {0})
check_template approved_template template = guard (is_some template) (invalid template_missing)
check_template free_form_text template =
    guard (not (is_some template)) (invalid template_unexpected)

-- `OutboundMessage(...)`: the record with its normalized texts, if `__post_init__` accepts it.
-- `replace` runs it again.
unfoldable pub new_message : OutboundMessage → Outcome OutboundMessage
new_message message = do
  check_template message.kind message.provider_template_id
  guard (not (requires_approver message.status && not (is_some message.approved_by_user_id)))
      (invalid approver_missing)
  provider_message_id ← validate_provider_message_id message.provider_message_id
  failure_code ← validate_failure_code message.failure_code
  guard (leb 1 message.version) (invalid version_positive)
  guard (not (same_status message.status failed && not (is_some failure_code)))
      (invalid failure_code_missing)
  ok (record message { provider_message_id = provider_message_id; failure_code = failure_code })
