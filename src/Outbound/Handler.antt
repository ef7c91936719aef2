-- ===== src/Outbound/Handler.antt =====
-- `ProviderMessageSendHandler`
-- (packages/backend/src/closeros/application/provider_message_send_handler.py): a transaction that
-- marks the message as being sent, the call of the provider, and a transaction that records the
-- outcome. The second one may commit and then raise, so it returns its world with what it raises.
pub mod Sending
pub mod Outcomes
use closer_os.Prelude.{
  ℕ, ◌+◌, Bool, true, false, not, Option, none, some, List, [], ◌∷◌, if◌then◌else◌, ok, err, guard,
  ◌>>=◌, ◌>>◌, Uuid, Text, Datetime, is_empty,
}
use closer_os.Outbox.Types.{
  ErrorCode, malformed_provider_event, resource_unavailable, handler_failed, unsupported_operation,
}
use closer_os.Outbox.Job.{OutboxJob}
use closer_os.Outbox.Repository.Enqueue.{same_text}
use closer_os.Outbound.Types.{
  Kind, free_form_text, approved_template, Status, sending, provider_accepted, delivery_unknown,
  failed, OutboundError, Outcome, handler_error, integrity_error, message_not_found,
  validate_outbound_message_transition, outbound_send_may_proceed, outbound_resend_prohibited,
}
use closer_os.Outbound.Message.{OutboundMessage, new_message}
use closer_os.Outbound.Policy.{MessagingPolicy, require_allowed}
use closer_os.Outbound.Provider.{
  Prepared, Provider, SendOutcome, delivery_unknown_code, Called, call_provider,
}
use closer_os.Outbound.Store.{
  World, Reads, Connection, connection_allows_outbound, AuditKind, unknown_delivery,
  delivery_failed, accepted_by_provider, AttemptOutcome, unknown, failure, success, get_message,
  update, required, validate_external_id,
}

abbrev pub permanent : {A : Type 0} → ErrorCode → Outcome A
permanent code = err (handler_error code true)

abbrev pub occurred_at : OutboxJob → Datetime
occurred_at job = elim job.processing_started_at [ none ↦ job.created_at | some moment ↦ moment ]

-- `whatsapp_connection is None or not connection_allows_outbound(...)`
unfoldable pub allowing : Option Connection → Outcome Connection
allowing none = permanent resource_unavailable
allowing (some connection) = do
  guard (connection_allows_outbound connection.status) (handler_error resource_unavailable true)
  ok connection

abbrev pub found_thread : Option Text → Outcome Text
found_thread none = permanent resource_unavailable
found_thread (some recipient) = ok recipient

-- `except Exception`: every refusal of the policy.
abbrev pub policy_as_unsupported : Outcome (Unit {0}) → Outcome (Unit {0})
policy_as_unsupported (ok a) = ok a
policy_as_unsupported (err e) = permanent unsupported_operation

-- `message.approved_by_user_id is None`
abbrev pub assert_approved : Option Uuid → Outcome (Unit {0})
assert_approved none = permanent handler_failed
assert_approved (some user) = ok tt

abbrev pub sending_message : OutboundMessage → (occurred_at : Datetime) → OutboundMessage
sending_message message moment = record message {
  status = sending;
  sent_at = some moment;
  updated_at = moment;
  version = message.version + 1;
}

-- The first transaction after the test on the status that returns early.
unfoldable pub start_sending :
    Reads
    → MessagingPolicy
    → (tenant_id : Uuid) (occurred_at : Datetime) → OutboundMessage
    → (record_version : ℕ) → World
    → Outcome (Option Prepared × World)
unfolding allowing
start_sending reads policy tenant_id moment message record_version world = do
  guard (outbound_send_may_proceed message.status) (handler_error handler_failed true)
  assert_approved message.approved_by_user_id
  connection ← allowing (reads.connection tenant_id message.channel_connection_id)
  recipient ← found_thread (reads.thread tenant_id message.conversation_thread_id)
  policy_as_unsupported (
      require_allowed policy message.kind
        (reads.last_customer_inbound_at tenant_id message.conversation_thread_id) moment)
  updated ← new_message (sending_message message moment)
  validate_outbound_message_transition message.status updated.status
  messages ← update updated record_version world.messages
  ok (
    some (record { message = message; connection = connection; recipient = recipient }),
    record world { messages = messages },
  )

-- The first transaction. `none` is the return of a message that must not be sent again.
unfoldable pub prepare :
    Reads
    → MessagingPolicy
    → (tenant_id message_id : Uuid) (occurred_at : Datetime) → World
    → Outcome (Option Prepared × World)
prepare reads policy tenant_id message_id moment world = do
  current ←
      required (get_message tenant_id message_id world.messages)
        (handler_error resource_unavailable true)
  message ← new_message current
  if outbound_resend_prohibited message.status
      then ok (none, world)
      else start_sending reads policy tenant_id moment message current.version world

-- "provider_failed"
abbrev pub provider_failed : Text
provider_failed =
    b'p' ∷ b'r' ∷ b'o' ∷ b'v' ∷ b'i' ∷ b'd' ∷ b'e' ∷ b'r' ∷ b'_' ∷ b'f' ∷ b'a' ∷ b'i' ∷ b'l' ∷ b'e'
    ∷ b'd' ∷ []

-- "provider_timeout"
abbrev pub provider_timeout : Text
provider_timeout =
    b'p' ∷ b'r' ∷ b'o' ∷ b'v' ∷ b'i' ∷ b'd' ∷ b'e' ∷ b'r' ∷ b'_' ∷ b't' ∷ b'i' ∷ b'm' ∷ b'e' ∷ b'o'
    ∷ b'u' ∷ b't' ∷ []

-- `send_error or "provider_failed"`
abbrev pub or_provider_failed : Option Text → Text
or_provider_failed none = provider_failed
or_provider_failed (some code) = if is_empty code then provider_failed else code

-- `send_error == "delivery_unknown"`
abbrev pub is_delivery_unknown : Option Text → Bool
is_delivery_unknown none = false
is_delivery_unknown (some code) = same_text code delivery_unknown_code

abbrev pub unknown_message : OutboundMessage → (occurred_at : Datetime) → OutboundMessage
unknown_message message moment = record message {
  status = delivery_unknown;
  updated_at = moment;
  version = message.version + 1;
}

abbrev pub failed_message :
    OutboundMessage → (occurred_at : Datetime) (failure_code : Text) → OutboundMessage
failed_message message moment failure_code = record message {
  status = failed;
  failure_code = some failure_code;
  completed_at = some moment;
  updated_at = moment;
  version = message.version + 1;
}

abbrev pub accepted_message :
    OutboundMessage → (occurred_at : Datetime) (provider_message_id : Text) → OutboundMessage
accepted_message message moment provider_message_id = record message {
  status = provider_accepted;
  provider_message_id = some provider_message_id;
  completed_at = some moment;
  updated_at = moment;
  version = message.version + 1;
}

-- `uuid` is the UUID factory: the UUID of its n-th call.
module _ (reads : Reads) (uuid : ℕ → Uuid) (tenant_id message_id : Uuid)
    (occurred_at : Datetime) where
  -- What each outcome writes: the changed row, the attempt and the audit event. The UUIDs of the
  -- attempt and of the event are drawn in this order.
  unfoldable pub record_outcome :
      (current_version : ℕ)
      → OutboundMessage
      → AttemptOutcome
      → Option Text
      → AuditKind
      → World
      → Outcome World
  record_outcome current_version updated outcome error_code kind world = do
    messages ← update updated current_version world.messages
    ok (record world {
      messages = messages;
      attempts =
          record {
            id = uuid world.drawn;
            tenant_id = tenant_id;
            outbound_message_id = message_id;
            attempt_number = current_version;
            started_at = occurred_at;
            finished_at = occurred_at;
            outcome = outcome;
            error_code = error_code;
          }
          ∷ world.attempts;
      audit_events =
          record { kind = kind; resource_id = message_id; occurred_at = occurred_at }
          ∷ world.audit_events;
      drawn = world.drawn + 2;
    })

  -- The message of the conversation and its status event, with UUIDs drawn in this order.
  unfoldable pub append_sent : OutboundMessage → (external_id : Text) → World → Outcome World
  unfolding validate_external_id
  append_sent message external_id world = do
    external_id ← validate_external_id external_id
    guard (not (reads.external_id_taken tenant_id message.conversation_thread_id external_id))
        integrity_error
    ok (record world {
      sent_messages =
          record {
            id = uuid world.drawn;
            tenant_id = tenant_id;
            conversation_thread_id = message.conversation_thread_id;
            external_message_id = external_id;
            sent_at = occurred_at;
            received_at = occurred_at;
            content_id = message.encrypted_content_id;
          }
          ∷ world.sent_messages;
      sent_events =
          record {
            id = uuid (world.drawn + 1);
            tenant_id = tenant_id;
            message_id = uuid world.drawn;
            external_event_id = external_id;
            occurred_at = occurred_at;
          }
          ∷ world.sent_events;
      drawn = world.drawn + 2;
    })

  unfoldable pub finish_unknown :
      (current : OutboundMessage) → OutboundMessage → World → Outcome World
  unfolding record_outcome
  finish_unknown current domain world = do
    updated ← new_message (unknown_message domain occurred_at)
    validate_outbound_message_transition domain.status updated.status
    record_outcome current.version updated unknown (some provider_timeout) unknown_delivery world

  unfoldable pub finish_failed :
      (current : OutboundMessage) → OutboundMessage → (failure_code : Text) → World → Outcome World
  unfolding record_outcome
  finish_failed current domain failure_code world = do
    updated ← new_message (failed_message domain occurred_at failure_code)
    validate_outbound_message_transition domain.status updated.status
    record_outcome current.version updated failure updated.failure_code delivery_failed world

  unfoldable pub finish_accepted :
      (current : OutboundMessage)
      → (sent_message domain : OutboundMessage) → (provider_message_id : Text) → World
      → Outcome World
  unfolding record_outcome append_sent
  finish_accepted current sent_message domain provider_message_id world = do
    world ← append_sent sent_message provider_message_id world
    updated ← new_message (accepted_message domain occurred_at provider_message_id)
    validate_outbound_message_transition domain.status updated.status
    record_outcome current.version updated success none accepted_by_provider world

  -- The branches of the second transaction: what is committed, and what is raised after it.
  abbrev pub finish_branch :
      (current : OutboundMessage)
      → (sent_message domain : OutboundMessage) → Option Text
      → Option Text
      → (unknown_error : Bool) → World
      → Outcome (World × Outcome (Unit {0}))
  finish_branch current message domain result error true world = do
    world ← finish_unknown current domain world
    ok (world, permanent handler_failed)
  finish_branch current message domain none error false world = do
    world ← finish_failed current domain (or_provider_failed error) world
    ok (world, permanent handler_failed)
  finish_branch current message domain (some provider_message_id) error false world = do
    world ← finish_accepted current message domain provider_message_id world
    ok (world, ok tt)

  -- The second transaction.
  unfoldable pub finish :
      (sent_message : OutboundMessage) → SendOutcome → World → Outcome (World × Outcome (Unit {0}))
  finish message (result, error) world = do
    current ←
        required (get_message tenant_id message_id world.messages)
          (handler_error resource_unavailable false)
    domain ← new_message current
    finish_branch current message domain result error (is_delivery_unknown error) world

  -- A transaction that raises commits nothing.
  abbrev pub committed : World → Outcome (World × Outcome (Unit {0})) → World × Outcome (Unit {0})
  committed world (ok r) = r
  committed world (err e) = (world, err e)

  -- An exception of the call leaves the handler, with the message in sending.
  abbrev pub after_call : (between : World → World) → Prepared → Called → World × Outcome (Unit {0})
  after_call between p (err e, world) = (world, err e)
  after_call between p (ok outcome, world) =
      committed (between world) (finish p.message outcome (between world))

  abbrev pub after_prepare :
      Provider
      → (between : World → World) → World
      → Outcome (Option Prepared × World)
      → World × Outcome (Unit {0})
  after_prepare provider between world (err e) = (world, err e)
  after_prepare provider between world (ok (none, world')) = (world', ok tt)
  after_prepare provider between world (ok (some p, world')) =
      after_call between p (call_provider provider tenant_id occurred_at p world')

  -- `handle` of a job of the tenant for the message; `between` is what others commit between the
  -- call of the provider and the second transaction.
  unfoldable pub handle_send :
      MessagingPolicy → Provider → (between : World → World) → World → World × Outcome (Unit {0})
  handle_send policy provider between world =
      after_prepare provider between world
        (prepare reads policy tenant_id message_id occurred_at world)

-- `handle`: a job without a tenant is malformed.
abbrev pub handle_tenant :
    Reads
    → (uuid : ℕ → Uuid) → Option Uuid
    → OutboxJob
    → MessagingPolicy
    → Provider
    → (between : World → World) → World
    → World × Outcome (Unit {0})
handle_tenant reads uuid none job policy provider between world =
    (world, permanent malformed_provider_event)
handle_tenant reads uuid (some tenant_id) job policy provider between world =
    handle_send reads uuid tenant_id job.reference.resource_id (occurred_at job) policy provider
      between world

unfoldable pub handle :
    Reads
    → (uuid : ℕ → Uuid) → OutboxJob
    → MessagingPolicy
    → Provider
    → (between : World → World) → World
    → World × Outcome (Unit {0})
handle reads uuid job = handle_tenant reads uuid job.tenant_id job
