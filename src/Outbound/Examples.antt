-- ===== src/Outbound/Examples.antt =====
-- Messages on which the theorems about the outbound services are applied
-- (packages/backend/src/closeros/application/outbound_message_service.py and
-- provider_message_send_handler.py).
use closer_os.Prelude.{
  ℕ, ◌+◌, ◌≤◌, ◌≡◌, ◌↔◌, refl, true, false, none, some, List, [], ◌∷◌, ok, arith, Uuid, Text, subst,
  inr,
}
use closer_os.Authentication.Types.{owner}
use closer_os.Outbox.Database.{get_row}
use closer_os.Outbox.Rows.{outbox_job_to_row}
use closer_os.Outbox.Repository.Enqueue.{find_row}
use closer_os.Outbound.Types.{free_form_text, draft, requires_approver}
use closer_os.Outbound.Message.{
  OutboundMessage, new_message, check_template, validate_failure_code, validate_provider_message_id,
}
use closer_os.Outbound.Policy.{messaging_policy}
use closer_os.Outbound.Store.{World, Reads, active, get_message}
use closer_os.Outbound.Service.{
  any_role, is_privileged_send_role, is_send_role, approve_and_queue, assert_may_queue,
  queued_message, outbound_send_deduplication_key, cancel,
}
use closer_os.Outbound.Service.Queueing.{
  UuidText, waiting_job, after_queueing, approve_and_queue-queued,
}
use closer_os.Outbound.Service.Cancelling.{cancel_answer, cancel-answer}
use closer_os.Outbound.Provider.{Prepared, Provider, sent, accessed}
use closer_os.Outbound.Handler.{prepare}
use closer_os.Outbound.Handler.Sending.{MaySend, prepare-iff-MaySend, handed, marked}
use closer_os.Outbound.Schedule.{Step, approves, prepares, calls, cancels, sends, run}
use closer_os.Outbound.Schedule.Once.{message_sent_once}
use closer_os.Outbound.Schedule.Progress.{IsValid, run-IsValid, HasPassed, run-HasPassed}

abbrev uuid : ℕ → Uuid
uuid n = 100 + n

-- 36 times "a"
abbrev as_text : Uuid → Text
as_text id =
    b'a' ∷ b'a' ∷ b'a' ∷ b'a' ∷ b'a' ∷ b'a' ∷ b'a' ∷ b'a' ∷ b'a' ∷ b'a' ∷ b'a' ∷ b'a' ∷ b'a' ∷ b'a'
    ∷ b'a' ∷ b'a' ∷ b'a' ∷ b'a' ∷ b'a' ∷ b'a' ∷ b'a' ∷ b'a' ∷ b'a' ∷ b'a' ∷ b'a' ∷ b'a' ∷ b'a'
    ∷ b'a' ∷ b'a' ∷ b'a' ∷ b'a' ∷ b'a' ∷ b'a' ∷ b'a' ∷ b'a' ∷ b'a' ∷ []

as_text-UuidText : UuidText as_text
as_text-UuidText = record { characters = λ id. refl; size = λ id. refl }

abbrev wamid : Text
wamid = b'w' ∷ b'a' ∷ b'm' ∷ b'i' ∷ b'd' ∷ b'1' ∷ []

abbrev waiting : OutboundMessage
waiting = record {
  id = 1;
  tenant_id = 2;
  conversation_thread_id = 3;
  channel_connection_id = 4;
  kind = free_form_text;
  status = draft;
  encrypted_content_id = 5;
  provider_template_id = none;
  created_by_user_id = 6;
  approved_by_user_id = none;
  failure_code = none;
  created_at = 1000;
  approved_at = none;
  queued_at = none;
  sent_at = none;
  completed_at = none;
  updated_at = 1000;
  version = 1;
  provider_message_id = none;
}

abbrev ready : OutboundMessage
ready = queued_message waiting 7 2000

abbrev holding : OutboundMessage → World
holding row = record {
  messages = row ∷ [];
  contents = 5 ∷ [];
  jobs = [];
  attempts = [];
  sent_messages = [];
  sent_events = [];
  audit_events = [];
  drawn = 0;
}

abbrev reads : Reads
reads = record {
  thread = λ t id. some wamid;
  assigned_manager = λ t id. none;
  connection = λ t id. some (record { id = 8; status = active; access_token_ref = some wamid });
  last_customer_inbound_at = λ t id. some 1500;
  external_id_taken = λ t id x. false;
}

abbrev provider : Provider
provider = record {
  access_token = λ t id ref. ok (some wamid);
  has_content = λ t id. true;
  decrypt = λ t id. ok wamid;
  build_client = λ connection secret. ok tt;
  body = λ decrypted. ok decrypted;
  parameters = λ decrypted. ok decrypted;
  template = λ t id. none;
  send_text = λ token to body. sent wamid;
  send_template = λ token to name body. sent wamid;
}

waiting-accepted : new_message waiting ≡ ok waiting
unfolding new_message check_template requires_approver validate_failure_code
    validate_provider_message_id
waiting-accepted = refl

ready-accepted : new_message ready ≡ ok ready
unfolding new_message check_template requires_approver validate_failure_code
    validate_provider_message_id
ready-accepted = refl

waiting-found : get_message 2 1 (holding waiting).messages ≡ some waiting
unfolding get_message
waiting-found = refl

ready-found : get_message 2 1 (holding ready).messages ≡ some ready
unfolding get_message
ready-found = refl

owner_privileged : any_role is_privileged_send_role (owner ∷ []) ≡ true
unfolding any_role
owner_privileged = refl

owner_sends : any_role is_send_role (owner ∷ []) ≡ true
unfolding any_role
owner_sends = refl

draft_queues : assert_may_queue draft ≡ ok tt
unfolding assert_may_queue
draft_queues = refl

no_jobs : get_row 100 [] ≡ none
unfolding get_row
no_jobs = refl

no_key : find_row (some 2) (outbound_send_deduplication_key as_text 1) [] ≡ none
unfolding find_row
no_key = refl

abbrev queued_world : World
queued_world = after_queueing reads uuid as_text 2 1 7 (owner ∷ []) 2000 (holding waiting) waiting

approve_and_queue-queued_example :
    (approve_and_queue reads uuid as_text 2 1 7 (owner ∷ []) 1 2000 (holding waiting)
      ≡ ok (ready, queued_world))
    × (get_message 2 1 queued_world.messages ≡ some ready)
    × (find_row (some 2) (outbound_send_deduplication_key as_text 1) queued_world.jobs
        ≡ some (outbox_job_to_row (waiting_job as_text 100 2 1 2000)))
approve_and_queue-queued_example =
    approve_and_queue-queued reads uuid as_text 2 1 7 (owner ∷ []) 2000 (holding waiting) waiting
      as_text-UuidText owner_privileged waiting-found waiting-accepted draft_queues no_key no_jobs

only_waiting :
    (row : OutboundMessage)
    → get_message 2 1 (holding waiting).messages ≡ some row
    → new_message row ≡ ok row
only_waiting row h =
    let e : waiting ≡ row = cc (waiting-found, h) in
    subst (λ r. new_message r ≡ ok r) e waiting-accepted

cancel-answer_example :
    cancel 2 1 (owner ∷ []) 1 2000 (holding waiting)
    ≡ cancel_answer (get_message 2 1 (holding waiting).messages) 1 2000 (holding waiting)
cancel-answer_example =
    cancel-answer 2 1 (owner ∷ []) 1 2000 (holding waiting) owner_sends only_waiting

prepare-iff-MaySend_example :
    ((p : Prepared) × (w : World) × (prepare reads messaging_policy 2 1 3000 (holding ready)
        ≡ ok (some p, w)))
    ↔ MaySend reads messaging_policy 2 3000 ready
prepare-iff-MaySend_example =
    prepare-iff-MaySend reads messaging_policy 2 1 3000 (holding ready) ready ready-found
      ready-accepted

ready-MaySend : MaySend reads messaging_policy 2 3000 ready
ready-MaySend = record {
  is_queued = refl;
  connection = record { id = 8; status = active; access_token_ref = some wamid };
  connected = refl;
  is_active = refl;
  recipient = wamid;
  known_thread = refl;
  permitted = inr (1500, refl, omega arith);
}

abbrev called : World
called = accessed 5 3000 (marked ready 3000 (holding ready))

abbrev history : List Step
history =
    approves reads 2 1 7 (owner ∷ []) 1 2000
    ∷ prepares reads messaging_policy 2 1 3000
    ∷ calls provider 2 3000
        (handed ready (record { id = 8; status = active; access_token_ref = some wamid }) wamid)
    ∷ prepares reads messaging_policy 2 1 3001
    ∷ cancels 2 1 (owner ∷ []) 3 3002
    ∷ []

message_sent_once_example : sends uuid as_text 1 history (holding waiting) ≤ 1
message_sent_once_example = message_sent_once 1 uuid as_text history (holding waiting) (omega arith)

waiting-IsValid : IsValid (holding waiting).messages
waiting-IsValid = record { accepted = (waiting-accepted, tt); unique = λ id. ground arith }

run-IsValid_example : IsValid (run uuid as_text history (holding waiting)).messages
run-IsValid_example = run-IsValid uuid as_text history (holding waiting) waiting-IsValid

run-HasPassed_example : HasPassed 2 1 waiting (run uuid as_text history (holding waiting)).messages
run-HasPassed_example =
    run-HasPassed uuid as_text 2 1 waiting history (holding waiting) waiting-found
