-- ===== src/Outbound/Schedule/Effects.antt =====
-- What a transaction of the outbound services does to the table of messages
-- (packages/backend/src/closeros/application/outbound_message_service.py and
-- provider_message_send_handler.py).
use closer_os.Prelude.{
  ℕ, ◌+◌, ◌≤◌, ◌≡◌, ◌⊎◌, inl, inr, refl, false, Option, some, List, ◌∷◌, ok, arith, Uuid, Text,
  Datetime,
}
use closer_os.Authentication.Types.{Role}
use closer_os.Outbound.Types.{
  Kind, Status, draft, pending_approval, approved, queued, sending, provider_accepted,
  delivery_unknown, delivered, read, failed, cancelled, Outcome,
  validate_outbound_message_transition,
}
use closer_os.Outbound.Message.{OutboundMessage, new_message}
use closer_os.Outbound.Store.{World, Reads, get_message, has_message, write_message, update, add}
use closer_os.Outbound.Store.Table.{
  normalized, new_message-normalized, new_message-cases, new_message-again, get_message-keys,
}
use closer_os.Outbound.Service.{
  create_draft, approve_and_queue, queue, cancel, assert_may_queue, queued_message,
  cancelled_message, draft_message, queue_unless_queued,
}

-- How far a message has come; every change of status goes up.
abbrev pub stage : Status → ℕ
stage draft = 0
stage pending_approval = 1
stage approved = 2
stage queued = 3
stage sending = 4
stage delivery_unknown = 5
stage provider_accepted = 6
stage delivered = 7
stage read = 8
stage failed = 9
stage cancelled = 10

-- The row of a message is replaced by a valid one of the same message that has come as far, or
-- further, with the next version.
pub record Moves (tenant_id message_id : Uuid) (row new : OutboundMessage)
    (rows rows' : List OutboundMessage) : Type 0 where
  pub found : get_message tenant_id message_id rows ≡ some row
  pub tenant_kept : new.tenant_id ≡ tenant_id
  pub id_kept : new.id ≡ message_id
  pub valid : new_message new ≡ ok new
  pub further : stage row.status ≤ stage new.status
  pub next_version : new.version ≡ row.version + 1
  pub written : rows' ≡ write_message new rows

may_queue-stage : (s : Status) → assert_may_queue s ≡ ok tt → stage s ≤ 2
unfolding assert_may_queue
may_queue-stage draft h = omega arith
may_queue-stage s h = ground arith

pub transition-stage :
    (s t : Status) → validate_outbound_message_transition s t ≡ ok tt → stage s ≤ stage t
unfolding validate_outbound_message_transition
transition-stage draft draft h = omega arith
transition-stage s t h = ground arith

queue-Moves :
    (reads : Reads) (uuid : ℕ → Uuid) (uuid_text : Uuid → Text) (message row m : OutboundMessage)
    (tenant_id message_id approver : Uuid) (version : ℕ) (now : Datetime) (world world' : World)
    → get_message tenant_id message_id world.messages ≡ some row
    → message.tenant_id ≡ tenant_id
    → message.id ≡ message_id
    → message.status ≡ row.status
    → message.version ≡ row.version
    → queue reads uuid uuid_text message approver version now world ≡ ok (m, world')
    → Moves tenant_id message_id row m world.messages world'.messages
unfolding queue update
queue-Moves reads uuid uuid_text message row m t id approver version now world world' g et ei s v
      h =
    ground (
      arith,
      may_queue-stage message.status,
      new_message-normalized (queued_message message approver now) m,
      new_message-again (queued_message message approver now) m,
    )

pub cancel-Moves :
    (tenant_id message_id : Uuid) (roles : List Role) (version : ℕ) (now : Datetime)
    (world world' : World) (row m : OutboundMessage)
    → get_message tenant_id message_id world.messages ≡ some row
    → cancel tenant_id message_id roles version now world ≡ ok (m, world')
    → Moves tenant_id message_id row m world.messages world'.messages
unfolding cancel update
cancel-Moves t id roles version now world world' row m g h = ground (
  arith,
  new_message-cases row,
  get_message-keys t id world.messages row g,
  transition-stage row.status cancelled,
  new_message-normalized (cancelled_message (normalized row) now) m,
  new_message-again (cancelled_message (normalized row) now) m,
)

module _ (reads : Reads) (uuid : ℕ → Uuid) (uuid_text : Uuid → Text) where
  unless_queued-Moves :
      (s : Status) (message row m : OutboundMessage) (tenant_id message_id approver : Uuid)
      (version : ℕ) (now : Datetime) (world world' : World)
      → get_message tenant_id message_id world.messages ≡ some row
      → message.tenant_id ≡ tenant_id
      → message.id ≡ message_id
      → message.status ≡ row.status
      → message.version ≡ row.version
      → queue_unless_queued reads uuid uuid_text s message approver version now world
        ≡ ok (m, world')
      → (world'.messages ≡ world.messages)
        ⊎ Moves tenant_id message_id row m world.messages world'.messages
  unless_queued-Moves draft message row m t id approver version now world world' g et ei e v h =
      inr (
        queue-Moves reads uuid uuid_text message row m t id approver version now world world' g et
          ei e v h)
  unless_queued-Moves queued message row m t id approver version now world world' g et ei e v h =
      inl (ground arith)
  unless_queued-Moves s message row m t id approver version now world world' g et ei e v h = inr (
      queue-Moves reads uuid uuid_text message row m t id approver version now world world' g et ei
        e v h)

  approve-queue :
      (tenant_id message_id approver : Uuid) (roles : List Role) (version : ℕ) (now : Datetime)
      (world world' : World) (row m : OutboundMessage)
      → get_message tenant_id message_id world.messages ≡ some row
      → approve_and_queue reads uuid uuid_text tenant_id message_id approver roles version now world
        ≡ ok (m, world')
      → queue_unless_queued reads uuid uuid_text row.status
          (normalized row)
          approver
          version
          now
          world
        ≡ ok (m, world')
  unfolding approve_and_queue
  approve-queue t id approver roles version now world world' row m g h =
      ground (arith, new_message-cases row)

  pub approve-Moves :
      (tenant_id message_id approver : Uuid) (roles : List Role) (version : ℕ) (now : Datetime)
      (world world' : World) (row m : OutboundMessage)
      → get_message tenant_id message_id world.messages ≡ some row
      → approve_and_queue reads uuid uuid_text tenant_id message_id approver roles version now world
        ≡ ok (m, world')
      → (world'.messages ≡ world.messages)
        ⊎ Moves tenant_id message_id row m world.messages world'.messages
  approve-Moves t id approver roles version now world world' row m g h =
      let (et, ei) = get_message-keys t id world.messages row g in
      unless_queued-Moves row.status (normalized row) row m t id approver version now world world' g
        et ei refl refl (approve-queue t id approver roles version now world world' row m g h)

pub create_draft-Added :
    (reads : Reads) (uuid : ℕ → Uuid) (encrypt : Uuid → List Uuid → Outcome (List Uuid))
    (tenant_id thread_id channel_id : Uuid) (kind : Kind) (template : Option Uuid) (creator : Uuid)
    (roles : List Role) (now : Datetime) (world world' : World) (m : OutboundMessage)
    → create_draft reads uuid encrypt tenant_id thread_id channel_id kind template creator roles now
        world
      ≡ ok (m, world')
    → (world'.messages ≡ m ∷ world.messages)
      × (has_message m.id world.messages ≡ false)
      × (m.status ≡ draft)
      × (new_message m ≡ ok m)
unfolding create_draft add
create_draft-Added reads uuid encrypt t thread channel kind template creator roles now world world'
      m h =
    ground (
      arith,
      new_message-normalized
          (draft_message (uuid world.drawn) t thread channel (uuid (world.drawn + 1)) kind template
            creator now)
          m,
      new_message-again
          (draft_message (uuid world.drawn) t thread channel (uuid (world.drawn + 1)) kind template
            creator now)
          m,
    )

-- Every transaction leaves the table as it is, moves one message, or adds a draft with a new id.
pub data Effect (rows rows' : List OutboundMessage) : Type 0 where
  unchanged : rows' ≡ rows → Effect rows rows'
  moved :
      (tenant_id message_id : Uuid) (row new : OutboundMessage)
      → Moves tenant_id message_id row new rows rows'
      → Effect rows rows'
  added :
      (new : OutboundMessage)
      → rows' ≡ new ∷ rows
      → has_message new.id rows ≡ false
      → new.status ≡ draft
      → new_message new ≡ ok new
      → Effect rows rows'
