-- ===== src/Outbound/Handler/Outcomes.antt =====
-- What a delivery leaves, for each outcome of the call of the provider
-- (packages/backend/src/closeros/application/provider_message_send_handler.py).
use closer_os.Prelude.{
  ◌⊎◌, ℕ, suc, ◌+◌, ◌≡◌, Bool, true, false, Option, none, some, ok, err, length, Uuid, Text,
  Datetime, strip,
}
use closer_os.Outbox.Types.{handler_failed}
use closer_os.Outbound.Types.{Outcome}
use closer_os.Outbound.Message.{
  OutboundMessage, validate_failure_code, validate_provider_message_id,
}
use closer_os.Outbound.Policy.{MessagingPolicy}
use closer_os.Outbound.Store.{World, Reads, get_message}
use closer_os.Outbound.Provider.{Provider, SendOutcome, accessed, drawn_one}
use closer_os.Outbound.Handler.{
  unknown_message, failed_message, accepted_message, or_provider_failed, is_delivery_unknown,
  permanent, handle_send, sending_message,
}

-- The message after each outcome: unknown, failed, or accepted by the provider.
abbrev pub settled :
    (unknown : Bool) (result error : Option Text) → OutboundMessage → Datetime → OutboundMessage
settled true result error row moment = unknown_message row moment
settled false none error row moment = failed_message row moment (strip (or_provider_failed error))
settled false (some provider_message_id) error row moment =
    accepted_message row moment (strip provider_message_id)

-- What the handler raises after it has committed.
abbrev pub verdict : (unknown : Bool) (result : Option Text) → Outcome (Unit {0})
verdict true result = permanent handler_failed
verdict false none = permanent handler_failed
verdict false (some provider_message_id) = ok tt

abbrev pub accepted_count : (unknown : Bool) (result : Option Text) → ℕ
accepted_count true result = 0
accepted_count false none = 0
accepted_count false (some provider_message_id) = 1

-- The texts of the outcome can be stored, and the external id is not taken.
abbrev pub Storable :
    Reads → (tenant_id thread_id : Uuid) (unknown : Bool) (result error : Option Text) → Type 0
Storable reads tenant_id thread_id true result error = Unit
Storable reads tenant_id thread_id false none error =
    validate_failure_code (some (or_provider_failed error))
    ≡ ok (some (strip (or_provider_failed error)))
Storable reads tenant_id thread_id false (some provider_message_id) error =
    (validate_provider_message_id (some provider_message_id)
      ≡ ok (some (strip provider_message_id)))
    × (reads.external_id_taken tenant_id thread_id (strip provider_message_id) ≡ false)

-- The message is settled, with one more attempt and one more audit event of the delivery, and with a message of the
-- conversation and its event when it was accepted.
pub record Settled (tenant_id message_id : Uuid) (unknown : Bool) (result error : Option Text)
    (row : OutboundMessage) (moment : Datetime) (world world' : World) : Type 0 where
  pub stored :
      get_message tenant_id message_id world'.messages
      ≡ some (settled unknown result error row moment)
  pub one_attempt : length world'.attempts ≡ suc (length world.attempts)
  pub one_audit_event : length world'.audit_events ≡ suc (length world.audit_events)
  pub sent_message :
      length world'.sent_messages ≡ length world.sent_messages + accepted_count unknown result
  pub sent_event :
      length world'.sent_events ≡ length world.sent_events + accepted_count unknown result

-- The call of the provider commits the audit event of the access to the content, or nothing but a
-- drawn UUID; it commits the event whenever the provider has accepted the message.
abbrev pub IsRecorded :
    (content_id : Uuid) → Datetime → Outcome SendOutcome → (before called : World) → Type 0
IsRecorded content_id moment (ok (some x, error)) before called =
    called ≡ accessed content_id moment before
IsRecorded content_id moment answer before called =
    (called ≡ before) ⊎ (called ≡ drawn_one before) ⊎ (called ≡ accessed content_id moment before)

-- The texts of the answer can be stored.
abbrev pub StorableAnswer : Reads → (tenant_id thread_id : Uuid) → Outcome SendOutcome → Type 0
StorableAnswer reads tenant_id thread_id (err e) = Unit
StorableAnswer reads tenant_id thread_id (ok (result, error)) =
    Storable reads tenant_id thread_id (is_delivery_unknown error) result error

module _ (reads : Reads) (uuid : ℕ → Uuid) (t id : Uuid) (moment : Datetime)
    (policy : MessagingPolicy) (provider : Provider) (between : World → World) (world : World)
    (row : OutboundMessage) where
  -- What one delivery does when the call of the provider raises, and when it returns.
  abbrev pub IsDelivered : Outcome SendOutcome → (called : World) → Type 0
  IsDelivered (err e) called =
      (handle_send reads uuid t id moment policy provider between world ≡ (called, err e))
      × (get_message t id called.messages ≡ some (sending_message row moment))
  IsDelivered (ok (result, error)) called =
      (world' : World) × (handle_send reads uuid t id moment policy provider between world
        ≡ (world', verdict (is_delivery_unknown error) result))
      × Settled t id (is_delivery_unknown error) result error (sending_message row moment) moment
          (between called) world'
