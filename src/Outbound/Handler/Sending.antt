-- ===== src/Outbound/Handler/Sending.antt =====
-- When a message is handed to the provider
-- (packages/backend/src/closeros/application/provider_message_send_handler.py).
use closer_os.Prelude.{
  ◌+◌, ◌≤◌, ◌≡◌, ◌⊎◌, inl, inr, ◌↔◌, refl, Option, none, some, ok, arith, Uuid, Text, Datetime,
}
use closer_os.Outbound.Types.{
  Kind, free_form_text, approved_template, queued, outbound_send_may_proceed,
  outbound_resend_prohibited, requires_approver, validate_outbound_message_transition,
}
use closer_os.Outbound.Message.{OutboundMessage, new_message}
use closer_os.Outbound.Policy.{MessagingPolicy, require_allowed}
use closer_os.Outbound.Store.{
  World, Reads, Connection, active, connection_allows_outbound, get_message, update, write_message,
}
use closer_os.Outbound.Store.Table.{get_message-keys}
use closer_os.Outbound.Provider.{Prepared}
use closer_os.Outbound.Handler.{prepare, start_sending, allowing, sending_message, assert_approved}

-- What the policy permits: a template, or a text within the window after the last message of the
-- customer, its end included.
abbrev pub InWindow : MessagingPolicy → Kind → Option Datetime → Datetime → Type 0
InWindow policy kind last moment =
    (kind ≡ approved_template)
    ⊎ ((at : Datetime) × (last ≡ some at) × (moment ≤ at + policy.customer_service_window))

pub require_allowed-iff-InWindow :
    (policy : MessagingPolicy) (kind : Kind) (last : Option Datetime) (moment : Datetime)
    → (require_allowed policy kind last moment ≡ ok tt) ↔ InWindow policy kind last moment
unfolding require_allowed
require_allowed-iff-InWindow policy approved_template last moment = (λ h. inl refl, λ h. refl)
require_allowed-iff-InWindow policy free_form_text none moment = ground arith
require_allowed-iff-InWindow policy free_form_text (some at) moment =
    (λ h. inr (at, refl, ground arith), λ h. ground arith)

-- The message may be handed over: it is queued, its channel has an active connection, its thread is
-- known, and the policy permits it.
pub record MaySend (reads : Reads) (policy : MessagingPolicy) (tenant_id : Uuid) (moment : Datetime)
    (row : OutboundMessage) : Type 0 where
  pub is_queued : row.status ≡ queued
  pub connection : Connection
  pub connected : reads.connection tenant_id row.channel_connection_id ≡ some connection
  pub is_active : connection.status ≡ active
  pub recipient : Text
  pub known_thread : reads.thread tenant_id row.conversation_thread_id ≡ some recipient
  pub permitted :
      InWindow policy row.kind
        (reads.last_customer_inbound_at tenant_id row.conversation_thread_id)
        moment

-- What is handed over, and what the first transaction leaves.
abbrev pub handed : OutboundMessage → Connection → Text → Prepared
handed row connection recipient = record {
  message = row;
  connection = connection;
  recipient = recipient;
}

abbrev pub marked : OutboundMessage → Datetime → World → World
marked row moment world = record world {
  messages = write_message (sending_message row moment) world.messages;
}

pub sending-accepted :
    (row : OutboundMessage) (moment : Datetime)
    → new_message row ≡ ok row
    → row.status ≡ queued
    → new_message (sending_message row moment) ≡ ok (sending_message row moment)
unfolding new_message requires_approver
sending-accepted row moment v q = ground arith

approver-known :
    (row : OutboundMessage)
    → new_message row ≡ ok row
    → row.status ≡ queued
    → assert_approved row.approved_by_user_id ≡ ok tt
unfolding new_message requires_approver
approver-known row v q = ground arith

module _ (reads : Reads) (policy : MessagingPolicy) (tenant_id message_id : Uuid)
    (moment : Datetime) (world : World) (row : OutboundMessage) where
  pub prepare-ok :
      get_message tenant_id message_id world.messages ≡ some row
      → new_message row ≡ ok row
      → (m : MaySend reads policy tenant_id moment row)
      → prepare reads policy tenant_id message_id moment world
        ≡ ok (some (handed row m.connection m.recipient), marked row moment world)
  unfolding prepare start_sending allowing update outbound_send_may_proceed
      outbound_resend_prohibited connection_allows_outbound validate_outbound_message_transition
  prepare-ok g v m = ground (
    arith,
    get_message-keys tenant_id message_id world.messages row g,
    approver-known row v m.is_queued,
    sending-accepted row moment v m.is_queued,
    (require_allowed-iff-InWindow policy row.kind
          (reads.last_customer_inbound_at tenant_id row.conversation_thread_id) moment).1
        m.permitted,
    m.is_queued,
    m.connected,
    m.is_active,
    m.known_thread,
  )

  sends-MaySend :
      (connection : Option Connection) (recipient : Option Text) (p : Prepared) (w : World)
      → reads.connection tenant_id row.channel_connection_id ≡ connection
      → reads.thread tenant_id row.conversation_thread_id ≡ recipient
      → get_message tenant_id message_id world.messages ≡ some row
      → new_message row ≡ ok row
      → prepare reads policy tenant_id message_id moment world ≡ ok (some p, w)
      → MaySend reads policy tenant_id moment row
  unfolding prepare start_sending allowing outbound_send_may_proceed connection_allows_outbound
  sends-MaySend none recipient p w c t g v h = absurd (ground arith)
  sends-MaySend (some connection) none p w c t g v h = absurd (ground arith)
  sends-MaySend (some connection) (some recipient) p w c t g v h = record {
    is_queued = ground arith;
    connection = connection;
    connected = c;
    is_active = ground arith;
    recipient = recipient;
    known_thread = t;
    permitted =
        (require_allowed-iff-InWindow policy row.kind
            (reads.last_customer_inbound_at tenant_id row.conversation_thread_id) moment).0
          (ground arith);
  }

  -- A stored, valid message is handed to the provider exactly when it is queued, its channel has an
  -- active connection, its thread is known and the policy permits it.
  pub prepare-iff-MaySend :
      get_message tenant_id message_id world.messages ≡ some row
      → new_message row ≡ ok row
      → ((p : Prepared) × (w : World) × (prepare reads policy tenant_id message_id moment world
            ≡ ok (some p, w)))
        ↔ MaySend reads policy tenant_id moment row
  prepare-iff-MaySend g v = (
    λ (p, w, h).
        sends-MaySend (reads.connection tenant_id row.channel_connection_id)
          (reads.thread tenant_id row.conversation_thread_id) p w refl refl g v h,
    λ m. (handed row m.connection m.recipient, marked row moment world, prepare-ok g v m),
  )
