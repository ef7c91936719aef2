-- ===== src/Outbound/Schedule/Deliveries.antt =====
-- What the two transactions of the handler do to the messages
-- (packages/backend/src/closeros/application/provider_message_send_handler.py).
use closer_os.Prelude.{
  ℕ, ◌≡◌, Bool, true, false, Option, none, some, ok, arith, Uuid, Text, Datetime,
}
use closer_os.Outbound.Types.{
  queued, provider_accepted, delivery_unknown, failed, Outcome, outbound_send_may_proceed,
}
use closer_os.Outbound.Message.{OutboundMessage}
use closer_os.Outbound.Policy.{MessagingPolicy}
use closer_os.Outbound.Store.{World, Reads, get_message, update}
use closer_os.Outbound.Store.Table.{
  normalized, new_message-cases, new_message-again, get_message-keys,
}
use closer_os.Outbound.Provider.{Prepared}
use closer_os.Outbound.Handler.{
  prepare, start_sending, sending_message, finish, finish_unknown, finish_failed, finish_accepted,
  unknown_message, failed_message, accepted_message, finish_branch, or_provider_failed,
  is_delivery_unknown,
}
use closer_os.Outbound.Schedule.Effects.{Moves, transition-stage}

pub prepare-Moves :
    (reads : Reads) (policy : MessagingPolicy) (tenant_id message_id : Uuid) (moment : Datetime)
    (world world' : World) (row : OutboundMessage) (p : Prepared)
    → get_message tenant_id message_id world.messages ≡ some row
    → prepare reads policy tenant_id message_id moment world ≡ ok (some p, world')
    → (row.status ≡ queued)
      × Moves tenant_id message_id row
          (normalized (sending_message (normalized row) moment))
          world.messages
          world'.messages
unfolding prepare start_sending update outbound_send_may_proceed
prepare-Moves reads policy t id moment world world' row p g h = ground (
  arith,
  new_message-cases row,
  get_message-keys t id world.messages row g,
  new_message-cases (sending_message (normalized row) moment),
  new_message-again (sending_message (normalized row) moment)
      (normalized (sending_message (normalized row) moment)),
)

pub prepare-same :
    (reads : Reads) (policy : MessagingPolicy) (tenant_id message_id : Uuid) (moment : Datetime)
    (world world' : World)
    → prepare reads policy tenant_id message_id moment world ≡ ok (none, world')
    → world' ≡ world
unfolding prepare start_sending update
prepare-same reads policy t id moment world world' h = ground arith

finish_unknown-Moves :
    (reads : Reads) (uuid : ℕ → Uuid) (tenant_id message_id : Uuid) (moment : Datetime)
    (row : OutboundMessage) (world world' : World)
    → get_message tenant_id message_id world.messages ≡ some row
    → finish_unknown reads uuid tenant_id message_id moment row (normalized row) world ≡ ok world'
    → Moves tenant_id message_id row
        (normalized (unknown_message (normalized row) moment))
        world.messages
        world'.messages
unfolding finish_unknown update
finish_unknown-Moves reads uuid t id moment row world world' g h = ground (
  arith,
  get_message-keys t id world.messages row g,
  transition-stage row.status delivery_unknown,
  new_message-cases (unknown_message (normalized row) moment),
  new_message-again (unknown_message (normalized row) moment)
      (normalized (unknown_message (normalized row) moment)),
)

finish_failed-Moves :
    (reads : Reads) (uuid : ℕ → Uuid) (tenant_id message_id : Uuid) (moment : Datetime)
    (code : Text) (row : OutboundMessage) (world world' : World)
    → get_message tenant_id message_id world.messages ≡ some row
    → finish_failed reads uuid tenant_id message_id moment row (normalized row) code world
      ≡ ok world'
    → Moves tenant_id message_id row
        (normalized (failed_message (normalized row) moment code))
        world.messages
        world'.messages
unfolding finish_failed update
finish_failed-Moves reads uuid t id moment code row world world' g h = ground (
  arith,
  get_message-keys t id world.messages row g,
  transition-stage row.status failed,
  new_message-cases (failed_message (normalized row) moment code),
  new_message-again (failed_message (normalized row) moment code)
      (normalized (failed_message (normalized row) moment code)),
)

finish_accepted-Moves :
    (reads : Reads) (uuid : ℕ → Uuid) (tenant_id message_id : Uuid) (moment : Datetime)
    (external_id : Text) (row message : OutboundMessage) (world world' : World)
    → get_message tenant_id message_id world.messages ≡ some row
    → finish_accepted reads uuid tenant_id message_id moment row message
        (normalized row)
        external_id
        world
      ≡ ok world'
    → Moves tenant_id message_id row
        (normalized (accepted_message (normalized row) moment external_id))
        world.messages
        world'.messages
unfolding finish_accepted update
finish_accepted-Moves reads uuid t id moment external_id row message world world' g h = ground (
  arith,
  get_message-keys t id world.messages row g,
  transition-stage row.status provider_accepted,
  new_message-cases (accepted_message (normalized row) moment external_id),
  new_message-again (accepted_message (normalized row) moment external_id)
      (normalized (accepted_message (normalized row) moment external_id)),
)

pub finish_branch-Moves :
    (reads : Reads) (uuid : ℕ → Uuid) (tenant_id message_id : Uuid) (moment : Datetime)
    (row message : OutboundMessage) (result error : Option Text) (unknown_error : Bool)
    (world world' : World) (r : Outcome (Unit {0}))
    → get_message tenant_id message_id world.messages ≡ some row
    → finish_branch reads uuid tenant_id message_id moment row message
        (normalized row)
        result
        error
        unknown_error
        world
      ≡ ok (world', r)
    → (new : OutboundMessage) × Moves tenant_id message_id row new world.messages world'.messages
finish_branch-Moves reads uuid t id moment row message result error true world world' r g h = (
  normalized (unknown_message (normalized row) moment),
  finish_unknown-Moves reads uuid t id moment row world world' g (ground arith),
)
finish_branch-Moves reads uuid t id moment row message none error false world world' r g h = (
  normalized (failed_message (normalized row) moment (or_provider_failed error)),
  finish_failed-Moves reads uuid t id moment (or_provider_failed error) row world world' g
      (ground arith),
)
finish_branch-Moves reads uuid t id moment row message (some x) error false world world' r g h = (
  normalized (accepted_message (normalized row) moment x),
  finish_accepted-Moves reads uuid t id moment x row message world world' g (ground arith),
)

pub finish-branch :
    (reads : Reads) (uuid : ℕ → Uuid) (tenant_id message_id : Uuid) (moment : Datetime)
    (row message : OutboundMessage) (result error : Option Text) (world world' : World)
    (r : Outcome (Unit {0}))
    → get_message tenant_id message_id world.messages ≡ some row
    → finish reads uuid tenant_id message_id moment message (result, error) world ≡ ok (world', r)
    → finish_branch reads uuid tenant_id message_id moment row message
        (normalized row)
        result
        error
        (is_delivery_unknown error)
        world
      ≡ ok (world', r)
unfolding finish
finish-branch reads uuid t id moment row message result error world world' r g h =
    ground (arith, new_message-cases row)
