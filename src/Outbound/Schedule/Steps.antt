-- ===== src/Outbound/Schedule/Steps.antt =====
-- Every step of a history of the outbound tables has one of three effects on the messages
-- (packages/backend/src/closeros/application/outbound_message_service.py and
-- provider_message_send_handler.py), and what follows of whole histories.
use closer_os.Prelude.{
  ℕ, ◌≡◌, inl, inr, refl, Option, none, some, List, ok, err, arith, Uuid, Text, Datetime, ap,
}
use closer_os.Authentication.Types.{Role}
use closer_os.Outbound.Types.{Kind, Outcome}
use closer_os.Outbound.Message.{OutboundMessage}
use closer_os.Outbound.Policy.{MessagingPolicy}
use closer_os.Outbound.Store.{World, Reads, get_message}
use closer_os.Outbound.Service.{create_draft, approve_and_queue, cancel}
use closer_os.Outbound.Provider.{Prepared, Provider, call_provider}
use closer_os.Outbound.Handler.{prepare, finish, is_delivery_unknown}
use closer_os.Outbound.Schedule.{
  Step, drafts, approves, cancels, prepares, calls, finishes, committed_to, finished, step,
}
use closer_os.Outbound.Schedule.Deliveries.{
  prepare-Moves, prepare-same, finish-branch, finish_branch-Moves,
}
use closer_os.Outbound.Schedule.Effects.{
  Effect, unchanged, moved, added, create_draft-Added, approve-Moves, cancel-Moves,
}

module _ (uuid : ℕ → Uuid) (uuid_text : Uuid → Text) where
  draft-Effect :
      (reads : Reads) (encrypt : Uuid → List Uuid → Outcome (List Uuid))
      (tenant_id thread_id channel_id : Uuid) (kind : Kind) (template : Option Uuid)
      (creator : Uuid) (roles : List Role) (now : Datetime) (world : World)
      (r : Outcome (OutboundMessage × World))
      → create_draft reads uuid encrypt tenant_id thread_id channel_id kind template creator roles
          now world
        ≡ r
      → Effect world.messages (committed_to world r).messages
  draft-Effect reads encrypt t thread channel kind template creator roles now world (err e) h =
      unchanged refl
  draft-Effect reads encrypt t thread channel kind template creator roles now world (ok (m, w)) h =
      let (a, b, c, d) =
        create_draft-Added reads uuid encrypt t thread channel kind template creator roles now world
          w m h in
      added m a b c d

  approve-Effect :
      (reads : Reads) (t id approver : Uuid) (roles : List Role) (version : ℕ) (now : Datetime)
      (world : World) (found : Option OutboundMessage) (r : Outcome (OutboundMessage × World))
      → get_message t id world.messages ≡ found
      → approve_and_queue reads uuid uuid_text t id approver roles version now world ≡ r
      → Effect world.messages (committed_to world r).messages
  unfolding approve_and_queue
  approve-Effect reads t id approver roles version now world found (err e) g h = unchanged refl
  approve-Effect reads t id approver roles version now world none (ok (m, w)) g h =
      absurd (ground arith)
  approve-Effect reads t id approver roles version now world (some row) (ok (m, w)) g h =
      elim (approve-Moves reads uuid uuid_text t id approver roles version now world w row m g h) [
        | inl e ↦ unchanged e
        | inr k ↦ moved t id row m k
      ]

  cancel-Effect :
      (t id : Uuid) (roles : List Role) (version : ℕ) (now : Datetime) (world : World)
      (found : Option OutboundMessage) (r : Outcome (OutboundMessage × World))
      → get_message t id world.messages ≡ found
      → cancel t id roles version now world ≡ r
      → Effect world.messages (committed_to world r).messages
  unfolding cancel
  cancel-Effect t id roles version now world found (err e) g h = unchanged refl
  cancel-Effect t id roles version now world none (ok (m, w)) g h = absurd (ground arith)
  cancel-Effect t id roles version now world (some row) (ok (m, w)) g h =
      moved t id row m (cancel-Moves t id roles version now world w row m g h)

  prepare-Effect :
      (reads : Reads) (policy : MessagingPolicy) (t id : Uuid) (moment : Datetime) (world : World)
      (found : Option OutboundMessage) (r : Outcome (Option Prepared × World))
      → get_message t id world.messages ≡ found
      → prepare reads policy t id moment world ≡ r
      → Effect world.messages (committed_to world r).messages
  unfolding prepare
  prepare-Effect reads policy t id moment world found (err e) g h = unchanged refl
  prepare-Effect reads policy t id moment world found (ok (none, w)) g h =
      unchanged (ap (λ (x : World). x.messages) (prepare-same reads policy t id moment world w h))
  prepare-Effect reads policy t id moment world none (ok (some p, w)) g h = absurd (ground arith)
  prepare-Effect reads policy t id moment world (some row) (ok (some p, w)) g h =
      moved t id row _ (prepare-Moves reads policy t id moment world w row p g h).1

  finish-Effect :
      (reads : Reads) (t id : Uuid) (moment : Datetime) (message : OutboundMessage)
      (result error : Option Text) (world : World) (found : Option OutboundMessage)
      (r : Outcome (World × Outcome (Unit {0})))
      → get_message t id world.messages ≡ found
      → finish reads uuid t id moment message (result, error) world ≡ r
      → Effect world.messages (finished world r).messages
  unfolding finish
  finish-Effect reads t id moment message result error world found (err e) g h = unchanged refl
  finish-Effect reads t id moment message result error world none (ok (w, x)) g h =
      absurd (ground arith)
  finish-Effect reads t id moment message result error world (some row) (ok (w, x)) g h =
      let (new, m) =
        finish_branch-Moves reads uuid t id moment row message result error
          (is_delivery_unknown error) world w x g
          (finish-branch reads uuid t id moment row message result error world w x g h) in
      moved t id row new m

  call-Effect :
      (provider : Provider) (t : Uuid) (moment : Datetime) (p : Prepared) (world : World)
      → Effect world.messages (call_provider provider t moment p world).1.messages
  unfolding call_provider
  call-Effect provider t moment p world = unchanged (ground arith)

  pub step-Effect :
      (s : Step) (world : World) → Effect world.messages (step uuid uuid_text s world).messages
  unfolding step
  step-Effect (drafts reads encrypt t thread channel kind template creator roles now) world =
      draft-Effect reads encrypt t thread channel kind template creator roles now world
        (create_draft reads uuid encrypt t thread channel kind template creator roles now world)
        refl
  step-Effect (approves reads t id approver roles version now) world =
      approve-Effect reads t id approver roles version now world (get_message t id world.messages)
        (approve_and_queue reads uuid uuid_text t id approver roles version now world) refl refl
  step-Effect (cancels t id roles version now) world =
      cancel-Effect t id roles version now world (get_message t id world.messages)
        (cancel t id roles version now world) refl refl
  step-Effect (prepares reads policy t id moment) world =
      prepare-Effect reads policy t id moment world (get_message t id world.messages)
        (prepare reads policy t id moment world) refl refl
  step-Effect (calls provider t moment p) world = call-Effect provider t moment p world
  step-Effect (finishes reads t id moment message (result, error)) world =
      finish-Effect reads t id moment message result error world (get_message t id world.messages)
        (finish reads uuid t id moment message (result, error) world) refl refl
