-- ===== src/Outbound/Store.antt =====
-- The tables that the outbound services write, and `SqlAlchemyOutboundMessageRepository` over them
-- (packages/backend/src/closeros/infrastructure/outbound_repositories.py). The mappers between
-- message, record and row copy every field; that from a record to a message constructs the message,
-- so it runs `__post_init__`.
pub mod Table
use closer_os.Prelude.{
  ℕ, Bool, true, false, ◌&&◌, ◌||◌, Option, none, some, List, [], ◌∷◌, ◌==◌, if◌then◌else◌, ok, err,
  guard, ◌>>=◌, ◌>>◌, Uuid, Text, Datetime, not, leb, length, strip, is_empty,
}
use closer_os.Outbox.Rows.{JobRow}
use closer_os.Outbound.Types.{
  OutboundError, Outcome, message_not_found, version_conflict, integrity_error, invalid,
  external_id_empty, external_id_length,
}
use closer_os.Outbound.Message.{OutboundMessage, new_message}

-- The kinds of the audit events that are appended
-- (packages/backend/src/closeros/application/whatsapp_audit.py).
pub data AuditKind : Type 0 where
  draft_created message_approved message_queued : AuditKind
  unknown_delivery delivery_failed accepted_by_provider content_accessed : AuditKind

-- An audit event with what tells it apart; its actor and its correlation are left out.
pub record AuditEvent : Type 0 where
  pub kind : AuditKind
  -- the outbound message, or the content that was accessed
  pub resource_id : Uuid
  pub occurred_at : Datetime

pub data AttemptOutcome : Type 0 where
  unknown failure success : AttemptOutcome

-- `OutboundDeliveryAttemptRecord`; both of its times are the time of the job.
pub record DeliveryAttempt : Type 0 where
  pub id : Uuid
  pub tenant_id : Uuid
  pub outbound_message_id : Uuid
  pub attempt_number : ℕ
  pub started_at : Datetime
  pub finished_at : Datetime
  pub outcome : AttemptOutcome
  pub error_code : Option Text

-- The `Message` of the conversation that is appended for an accepted message. Its sender is the
-- manager, its direction is outbound, it answers no message; the metadata of the thread is left out.
pub record SentMessage : Type 0 where
  pub id : Uuid
  pub tenant_id : Uuid
  pub conversation_thread_id : Uuid
  pub external_message_id : Text
  pub sent_at : Datetime
  pub received_at : Datetime
  pub content_id : Uuid

-- The `MessageDeliveryStatusEvent` with status SENT that goes with it.
pub record SentEvent : Type 0 where
  pub id : Uuid
  pub tenant_id : Uuid
  pub message_id : Uuid
  pub external_event_id : Text
  pub occurred_at : Datetime

-- `_validate_external_id` of packages/backend/src/closeros/domain/message.py and message_events.py
unfoldable pub validate_external_id : Text → Outcome Text
validate_external_id value = do
  guard (not (is_empty (strip value))) (invalid external_id_empty)
  guard (leb (length (strip value)) 256) (invalid external_id_length)
  ok (strip value)

-- What is committed.
pub record World : Type 0 where
  pub messages : List OutboundMessage
  pub contents : List Uuid
  pub jobs : List JobRow
  pub attempts : List DeliveryAttempt
  pub sent_messages : List SentMessage
  pub sent_events : List SentEvent
  pub audit_events : List AuditEvent
  -- how many UUIDs the factory has made
  pub drawn : ℕ

abbrev pub is_message : (tenant_id message_id : Uuid) → OutboundMessage → Bool
is_message tenant_id message_id row = row.tenant_id == tenant_id && row.id == message_id

-- `get_by_id_for_update` (`scalar_one_or_none`: ids are unique).
unfoldable pub get_message :
    (tenant_id message_id : Uuid) → List OutboundMessage → Option OutboundMessage
get_message tenant_id message_id [] = none
get_message tenant_id message_id (row ∷ rows) =
    if is_message tenant_id message_id row then some row else get_message tenant_id message_id rows

unfoldable pub has_message : Uuid → List OutboundMessage → Bool
has_message message_id [] = false
has_message message_id (row ∷ rows) = row.id == message_id || has_message message_id rows

-- The changed row: `update` leaves the id, the tenant, the thread, the channel, the creator and the
-- creation time as they are.
abbrev pub updated_row : OutboundMessage → OutboundMessage → OutboundMessage
updated_row record' row = record row {
  kind = record'.kind;
  status = record'.status;
  encrypted_content_id = record'.encrypted_content_id;
  provider_template_id = record'.provider_template_id;
  approved_by_user_id = record'.approved_by_user_id;
  provider_message_id = record'.provider_message_id;
  failure_code = record'.failure_code;
  approved_at = record'.approved_at;
  queued_at = record'.queued_at;
  sent_at = record'.sent_at;
  completed_at = record'.completed_at;
  updated_at = record'.updated_at;
  version = record'.version;
}

unfoldable pub write_message : OutboundMessage → List OutboundMessage → List OutboundMessage
write_message record' [] = []
write_message record' (row ∷ rows) =
    if is_message record'.tenant_id record'.id row
    then updated_row record' row ∷ rows
    else row ∷ write_message record' rows

abbrev pub checked_version : Option OutboundMessage → ℕ → Outcome (Unit {0})
checked_version none expected_version = err message_not_found
checked_version (some row) expected_version =
    guard (row.version == expected_version) version_conflict

-- `update(record=..., expected_version=...)`: the table with the changed row.
unfoldable pub update :
    OutboundMessage → (expected_version : ℕ) → List OutboundMessage → Outcome (List OutboundMessage)
update record' expected_version rows = do
  checked_version (get_message record'.tenant_id record'.id rows) expected_version
  ok (write_message record' rows)

-- `add`: a taken id fails to flush.
unfoldable pub add : OutboundMessage → List OutboundMessage → Outcome (List OutboundMessage)
unfolding has_message
add record' rows = if has_message record'.id rows then err integrity_error else ok (record' ∷ rows)

-- A stored record as a message.
abbrev pub required : Option OutboundMessage → OutboundError → Outcome OutboundMessage
required none e = err e
required (some row) e = ok row

-- `WhatsAppCloudConnectionStatus` of
-- packages/backend/src/closeros/domain/whatsapp_cloud_connection.py
pub data ConnectionStatus : Type 0 where
  draft verification_pending active degraded disabled : ConnectionStatus

unfoldable pub connection_allows_outbound : ConnectionStatus → Bool
connection_allows_outbound active = true
connection_allows_outbound _ = false

-- The fields of a connection that a delivery reads.
pub record Connection : Type 0 where
  pub id : Uuid
  pub status : ConnectionStatus
  pub access_token_ref : Option Text

-- Reads of the tables of other components, as the code of this one makes them.
pub record Reads : Type 0 where
  -- `external_conversation_id` of a thread
  pub thread : (tenant_id thread_id : Uuid) → Option Text
  -- `manager_user_id` of the assignment of a thread
  pub assigned_manager : (tenant_id thread_id : Uuid) → Option Uuid
  -- the first connection of the tenant with the channel
  pub connection : (tenant_id channel_connection_id : Uuid) → Option Connection
  -- `received_at` of the last message of the customer in a thread
  pub last_customer_inbound_at : (tenant_id thread_id : Uuid) → Option Datetime
  -- a message of the thread has the external id
  pub external_id_taken : (tenant_id thread_id : Uuid) → Text → Bool
