-- ===== src/Outbound/Schedule.antt =====
-- Whole histories of the outbound tables: the transactions of the services
-- (packages/backend/src/closeros/application/outbound_message_service.py and
-- provider_message_send_handler.py) in any order, by any number of workers. A worker that stops
-- between its two transactions is a history without the second one.
pub mod Effects
pub mod Deliveries
pub mod Steps
pub mod Once
pub mod Progress
use closer_os.Prelude.{
  ℕ, ◌+◌, Bool, ◌&&◌, Option, none, some, List, [], ◌∷◌, ◌==◌, if◌then◌else◌, ok, err, Uuid, Text,
  Datetime,
}
use closer_os.Authentication.Types.{Role}
use closer_os.Outbound.Types.{Kind, Outcome}
use closer_os.Outbound.Message.{OutboundMessage}
use closer_os.Outbound.Policy.{MessagingPolicy}
use closer_os.Outbound.Store.{World, Reads}
use closer_os.Outbound.Service.{create_draft, approve_and_queue, cancel}
use closer_os.Outbound.Provider.{Prepared, Provider, SendOutcome, call_provider}
use closer_os.Outbound.Handler.{prepare, finish}

-- A transaction with what it reads of other tables. `calls` is what a call of
-- the provider commits, and `finishes` the second transaction of any worker, with whatever its call
-- returned.
pub data Step : Type 0 where
  drafts :
      (reads : Reads) (encrypt_and_persist : Uuid → List Uuid → Outcome (List Uuid))
      (tenant_id thread_id channel_id : Uuid) (kind : Kind) (template : Option Uuid)
      (creator : Uuid) (roles : List Role) (now : Datetime)
      → Step
  approves :
      (reads : Reads) (tenant_id message_id approver : Uuid) (roles : List Role)
      (expected_version : ℕ) (now : Datetime)
      → Step
  cancels :
      (tenant_id message_id : Uuid) (roles : List Role) (expected_version : ℕ) (now : Datetime)
      → Step
  prepares :
      (reads : Reads) (policy : MessagingPolicy) (tenant_id message_id : Uuid) (moment : Datetime)
      → Step
  calls : (provider : Provider) (tenant_id : Uuid) (moment : Datetime) (prepared : Prepared) → Step
  finishes :
      (reads : Reads) (tenant_id message_id : Uuid) (moment : Datetime)
      (sent_message : OutboundMessage) (outcome : SendOutcome)
      → Step

-- A transaction that raises commits nothing.
abbrev pub committed_to : {A : Type 0} → World → Outcome (A × World) → World
committed_to world (ok (a, world')) = world'
committed_to world (err e) = world

abbrev pub finished : {A : Type 0} → World → Outcome (World × A) → World
finished world (ok (world', a)) = world'
finished world (err e) = world

-- 1 when the transaction hands its message to the call of the provider
abbrev pub handed_over : Outcome (Option Prepared × World) → ℕ
handed_over (ok (some p, world)) = 1
handed_over (ok (none, world)) = 0
handed_over (err e) = 0

-- How often a step hands the message to the provider.
unfoldable pub sends_of : Uuid → Step → World → ℕ
sends_of message_id (prepares reads policy t id moment) world =
    if id == message_id then handed_over (prepare reads policy t id moment world) else 0
sends_of message_id s world = 0

module _ (uuid : ℕ → Uuid) (uuid_text : Uuid → Text) where
  unfoldable pub step : Step → World → World
  step (drafts reads encrypt t thread channel kind template creator roles now) world =
      committed_to world
        (create_draft reads uuid encrypt t thread channel kind template creator roles now world)
  step (approves reads t id approver roles version now) world =
      committed_to world
        (approve_and_queue reads uuid uuid_text t id approver roles version now world)
  step (cancels t id roles version now) world =
      committed_to world (cancel t id roles version now world)
  step (prepares reads policy t id moment) world =
      committed_to world (prepare reads policy t id moment world)
  step (calls provider t moment p) world = (call_provider provider t moment p world).1
  step (finishes reads t id moment message outcome) world =
      finished world (finish reads uuid t id moment message outcome world)

  unfoldable pub run : List Step → World → World
  run [] world = world
  run (s ∷ steps) world = run steps (step s world)

  -- How often a history does.
  unfoldable pub sends : Uuid → List Step → World → ℕ
  sends message_id [] world = 0
  sends message_id (s ∷ steps) world =
      sends_of message_id s world + sends message_id steps (step s world)
