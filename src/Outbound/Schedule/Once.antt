-- ===== src/Outbound/Schedule/Once.antt =====
-- Over whole histories of the outbound tables, a message is handed to the provider at most once,
-- its status never goes back, and the table stays valid
-- (packages/backend/src/closeros/application/provider_message_send_handler.py and
-- outbound_message_service.py).
use closer_os.Prelude.{
  ℕ, ◌+◌, ◌≤◌, ◌≡◌, refl, Bool, false, ◌&&◌, Option, none, some, List, [], ◌∷◌, ok, err, arith,
  count, leb, ◌==◌, if◌then◌else◌, Uuid, Text, Datetime, inl, inr, Bool-cases, ==_iff,
}
use closer_os.Outbound.Types.{Outcome, queued, sending}
use closer_os.Outbound.Message.{OutboundMessage}
use closer_os.Outbound.Policy.{MessagingPolicy}
use closer_os.Outbound.Store.{World, Reads, get_message, has_message}
use closer_os.Outbound.Store.Table.{
  count-write_message, has_message-write, has_message-get, get_message-keys,
}
use closer_os.Outbound.Provider.{Prepared}
use closer_os.Outbound.Handler.{prepare}
use closer_os.Outbound.Schedule.{
  Step, drafts, prepares, committed_to, handed_over, step, sends_of, sends,
}
use closer_os.Outbound.Schedule.Deliveries.{prepare-Moves, prepare-same}
use closer_os.Outbound.Schedule.Effects.{stage, Moves, Effect, unchanged, moved, added}
use closer_os.Outbound.Schedule.Steps.{step-Effect}

abbrev pub has_id : Uuid → OutboundMessage → Bool
has_id message_id row = row.id == message_id

-- a row of the message that is not sent yet
abbrev is_unsent : Uuid → OutboundMessage → Bool
is_unsent message_id row = row.id == message_id && leb (stage row.status) 3

-- How often the message may still be handed over: a message that is not stored may be drafted.
sendable : Uuid → List OutboundMessage → ℕ
sendable message_id rows =
    if has_message message_id rows then count (is_unsent message_id) rows else 1

module _ (message_id : Uuid) where
  unsent-absent :
      (rows : List OutboundMessage)
      → has_message message_id rows ≡ false
      → count (is_unsent message_id) rows ≡ 0
  unfolding has_message
  unsent-absent [] h = refl
  unsent-absent (row ∷ rows) h = ground (arith, unsent-absent rows)

  unsent-le :
      (rows : List OutboundMessage)
      → count (is_unsent message_id) rows ≤ count (has_id message_id) rows
  unsent-le [] = omega arith
  unsent-le (row ∷ rows) = ground (arith, unsent-le rows)

  moved-sendable :
      (t id : Uuid) (row new : OutboundMessage) (rows rows' : List OutboundMessage)
      → Moves t id row new rows rows'
      → sendable message_id rows' ≤ sendable message_id rows
  unfolding sendable
  moved-sendable t id row new rows rows' m = ground (
    arith,
    has_message-write message_id new rows,
    count-write_message t id (is_unsent message_id) new rows row m.tenant_kept m.id_kept m.found,
    get_message-keys t id rows row m.found,
  )

  Effect-sendable :
      (rows rows' : List OutboundMessage)
      → Effect rows rows'
      → sendable message_id rows' ≤ sendable message_id rows
  unfolding sendable has_message
  Effect-sendable rows rows' (unchanged e) = ground arith
  Effect-sendable rows rows' (moved t id row new m) =
      unfold sendable in moved-sendable t id row new rows rows' m
  Effect-sendable rows rows' (added new e fresh s v) = ground (arith, unsent-absent rows)

  handed_over-sendable :
      (t : Uuid) (row new : OutboundMessage) (rows rows' : List OutboundMessage)
      → row.status ≡ queued
      → Moves t message_id row new rows rows'
      → new.status ≡ sending
      → 1 + sendable message_id rows' ≤ sendable message_id rows
  unfolding sendable
  handed_over-sendable t row new rows rows' q m s = ground (
    arith,
    has_message-write message_id new rows,
    has_message-get t message_id rows row m.found,
    count-write_message t message_id (is_unsent message_id) new rows row m.tenant_kept m.id_kept
        m.found,
    get_message-keys t message_id rows row m.found,
  )

  prepare-sendable :
      (reads : Reads) (policy : MessagingPolicy) (t : Uuid) (moment : Datetime) (world : World)
      (found : Option OutboundMessage) (r : Outcome (Option Prepared × World))
      → get_message t message_id world.messages ≡ found
      → prepare reads policy t message_id moment world ≡ r
      → handed_over r + sendable message_id (committed_to world r).messages
        ≤ sendable message_id world.messages
  unfolding prepare
  prepare-sendable reads policy t moment world found (err e) g h = omega arith
  prepare-sendable reads policy t moment world found (ok (none, w)) g h =
      rw (prepare-same reads policy t message_id moment world w h) (omega arith)
  prepare-sendable reads policy t moment world none (ok (some p, w)) g h = absurd (ground arith)
  prepare-sendable reads policy t moment world (some row) (ok (some p, w)) g h =
      let (q, m) = prepare-Moves reads policy t message_id moment world w row p g h in
      handed_over-sendable t row _ world.messages w.messages q m refl

  step-sendable :
      (uuid : ℕ → Uuid) (uuid_text : Uuid → Text) (s : Step) (world : World)
      → sends_of message_id s world + sendable message_id (step uuid uuid_text s world).messages
        ≤ sendable message_id world.messages
  unfolding sends_of step
  step-sendable uuid uuid_text (prepares reads policy t id moment) world =
      elim (Bool-cases (id == message_id)) [
        | inl e ↦ rw e (
            rw ((==_iff id message_id).0 e) (
              prepare-sendable reads policy t moment world (get_message t message_id world.messages)
                (prepare reads policy t message_id moment world) refl refl))
        | inr e ↦ rw e (
            omega (
              arith,
              Effect-sendable world.messages _
                  (step-Effect uuid uuid_text (prepares reads policy t id moment) world),
            ))
      ]
  step-sendable uuid uuid_text (drafts reads encrypt t th ch kind template creator roles now)
        world =
      omega (
        arith,
        Effect-sendable world.messages _ (
            step-Effect uuid uuid_text
              (drafts reads encrypt t th ch kind template creator roles now) world),
      )
  step-sendable uuid uuid_text s world =
      omega (arith, Effect-sendable world.messages _ (step-Effect uuid uuid_text s world))

  sends-sendable :
      (uuid : ℕ → Uuid) (uuid_text : Uuid → Text) (steps : List Step) (world : World)
      → sends uuid uuid_text message_id steps world ≤ sendable message_id world.messages
  unfolding sends
  sends-sendable uuid uuid_text [] world = omega arith
  sends-sendable uuid uuid_text (s ∷ steps) world = omega (
    arith,
    step-sendable uuid uuid_text s world,
    sends-sendable uuid uuid_text steps (step uuid uuid_text s world),
  )

-- In tables where the id of a message is unique, or not stored yet, whatever transactions follow, by
-- any workers and in any order, the message is handed to the provider at most once.
pub message_sent_once :
    (message_id : Uuid) (uuid : ℕ → Uuid) (uuid_text : Uuid → Text) (steps : List Step)
    (world : World)
    → count (has_id message_id) world.messages ≤ 1
    → sends uuid uuid_text message_id steps world ≤ 1
unfolding sendable
message_sent_once id uuid uuid_text steps world u =
    ground (arith, sends-sendable id uuid uuid_text steps world, unsent-le id world.messages)
