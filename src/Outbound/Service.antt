-- ===== src/Outbound/Service.antt =====
-- `OutboundMessageService`
-- (packages/backend/src/closeros/application/outbound_message_service.py). An operation is one
-- transaction: it returns its message with what it commits, or raises and commits nothing. The clock
-- is the argument `now`.
pub mod Queueing
pub mod Cancelling
use closer_os.Prelude.{
  ℕ, ◌+◌, Bool, true, false, not, ◌&&◌, ◌||◌, Option, none, some, List, [], ◌∷◌, ◌++◌,
  if◌then◌else◌, same_option, is_some, Result, ok, err, guard, ◌>>=◌, ◌>>◌, Uuid, Text, Datetime,
}
use closer_os.Authentication.Types.{Role, owner, sales_head, manager, analyst, compliance_admin}
use closer_os.Outbox.Types.{provider_message_send}
use closer_os.Outbox.Validate.{default_priority, default_max_attempts}
use closer_os.Outbox.Job.{JobReference, new_reference, OutboxJob, build_outbox_job}
use closer_os.Outbox.Types.{OutboxError}
use closer_os.Outbox.Rows.{JobRow}
use closer_os.Outbox.Repository.{Raised, persistence, duplicate_outbox_job}
use closer_os.Outbox.Repository.Enqueue.{enqueue}
use closer_os.Outbound.Types.{
  Kind, Status, draft, pending_approval, approved, queued, cancelled, OutboundError, Outcome,
  service_error, access_denied, transition_error, version_conflict, message_not_found, outbox_error,
  pending_rollback, validate_outbound_message_transition, outbound_resend_prohibited,
}
use closer_os.Outbound.Message.{OutboundMessage, new_message}
use closer_os.Outbound.Store.{
  World, Reads, AuditEvent, draft_created, message_approved, message_queued, get_message, update,
  add, required,
}

-- `role in actor_roles` for one of a set of roles
unfoldable pub any_role : (Role → Bool) → List Role → Bool
any_role p [] = false
any_role p (role ∷ roles) = p role || any_role p roles

-- `_SEND_ROLES`
abbrev pub is_send_role : Role → Bool
is_send_role owner = true
is_send_role sales_head = true
is_send_role manager = true
is_send_role _ = false

-- `_PRIVILEGED_SEND_ROLES`
abbrev pub is_privileged_send_role : Role → Bool
is_privileged_send_role owner = true
is_privileged_send_role sales_head = true
is_privileged_send_role _ = false

abbrev pub is_manager : Role → Bool
is_manager manager = true
is_manager _ = false

abbrev pub is_analyst : Role → Bool
is_analyst analyst = true
is_analyst _ = false

-- "outbound_message"
abbrev pub outbound_message_type : Text
outbound_message_type =
    b'o' ∷ b'u' ∷ b't' ∷ b'b' ∷ b'o' ∷ b'u' ∷ b'n' ∷ b'd' ∷ b'_' ∷ b'm' ∷ b'e' ∷ b's' ∷ b's' ∷ b'a'
    ∷ b'g' ∷ b'e' ∷ []

-- `_outbound_send_deduplication_key`; `uuid_text` is `str` of a UUID.
unfoldable pub outbound_send_deduplication_key :
    (uuid_text : Uuid → Text) (message_id : Uuid) → Text
outbound_send_deduplication_key uuid_text message_id =
    b'p'
    ∷ b'r'
    ∷ b'o'
    ∷ b'v'
    ∷ b'i'
    ∷ b'd'
    ∷ b'e'
    ∷ b'r'
    ∷ b'_'
    ∷ b'm'
    ∷ b'e'
    ∷ b's'
    ∷ b's'
    ∷ b'a'
    ∷ b'g'
    ∷ b'e'
    ∷ b'_'
    ∷ b's'
    ∷ b'e'
    ∷ b'n'
    ∷ b'd'
    ∷ b'_'
    ∷ uuid_text message_id

-- `_assert_manager_scope`, called for a manager without a privileged role
unfoldable pub assert_manager_scope :
    Reads → (tenant_id thread_id : Uuid) (manager_user_id : Uuid) → List Role → Outcome (Unit {0})
unfolding any_role
assert_manager_scope reads tenant_id thread_id manager_user_id roles =
    if any_role is_manager roles && not (any_role is_privileged_send_role roles)
    then guard (same_option (reads.assigned_manager tenant_id thread_id) (some manager_user_id))
        access_denied
    else ok tt

abbrev pub draft_message :
    (message_id tenant_id thread_id channel_id content_id : Uuid)
    → Kind
    → Option Uuid
    → (created_by_user_id : Uuid) (now : Datetime) → OutboundMessage
draft_message message_id tenant_id thread_id channel_id content_id kind template creator now =
    record {
      id = message_id;
      tenant_id = tenant_id;
      conversation_thread_id = thread_id;
      channel_connection_id = channel_id;
      kind = kind;
      status = draft;
      encrypted_content_id = content_id;
      provider_template_id = template;
      created_by_user_id = creator;
      approved_by_user_id = none;
      failure_code = none;
      created_at = now;
      approved_at = none;
      queued_at = none;
      sent_at = none;
      completed_at = none;
      updated_at = now;
      version = 1;
      provider_message_id = none;
    }

-- The guards on the roles of `create_draft`.
unfoldable pub assert_may_draft : List Role → Outcome (Unit {0})
unfolding any_role
assert_may_draft roles = do
  guard (any_role is_send_role roles) access_denied
  guard (not (any_role is_analyst roles && not (any_role is_privileged_send_role roles)))
      access_denied

-- The three steps of `approve_and_queue` on the status, each validated as in the source.
unfoldable pub assert_may_queue : Status → Outcome (Unit {0})
unfolding validate_outbound_message_transition
assert_may_queue draft = do
  validate_outbound_message_transition draft pending_approval
  validate_outbound_message_transition pending_approval approved
  validate_outbound_message_transition approved queued
assert_may_queue pending_approval = do
  validate_outbound_message_transition pending_approval approved
  validate_outbound_message_transition approved queued
assert_may_queue approved = validate_outbound_message_transition approved queued
assert_may_queue _ = err transition_error

-- `except OutboundMessageTransitionError`
abbrev pub transition_as_service_error : Outcome (Unit {0}) → Outcome (Unit {0})
transition_as_service_error (err transition_error) = err service_error
transition_as_service_error r = r

-- `except OutboundMessageVersionConflictError`
abbrev pub conflict_as_service_error : {A : Type 0} → Outcome A → Outcome A
conflict_as_service_error (err version_conflict) = err service_error
conflict_as_service_error r = r

-- `contextlib.suppress(DuplicateOutboxJobError)`, with the table or, after a flush that failed,
-- `none`: there is no savepoint, so the session has to be rolled back first.
abbrev pub unless_duplicate : Result Raised (List JobRow) → Outcome (Option (List JobRow))
unless_duplicate (ok jobs) = ok (some jobs)
unless_duplicate (err (persistence duplicate_outbox_job)) = ok none
unless_duplicate (err e) = err outbox_error

-- The next statement of the transaction, the append of an audit event, raises on such a session.
abbrev pub append_usable : Option (List JobRow) → Outcome (List JobRow)
append_usable none = err pending_rollback
append_usable (some jobs) = ok jobs

-- An error of the construction of a job is not caught.
abbrev pub constructed : {A : Type 0} → Result OutboxError A → Outcome A
constructed (ok a) = ok a
constructed (err e) = err outbox_error

abbrev pub audited : Uuid → Datetime → List AuditEvent → List AuditEvent
audited message_id now events =
    record { kind = message_queued; resource_id = message_id; occurred_at = now }
    ∷ record { kind = message_approved; resource_id = message_id; occurred_at = now }
    ∷ events

abbrev pub queued_message :
    OutboundMessage → (approved_by_user_id : Uuid) (now : Datetime) → OutboundMessage
queued_message message approver now = record message {
  status = queued;
  approved_by_user_id = some approver;
  approved_at = some now;
  queued_at = some now;
  updated_at = now;
  version = message.version + 1;
}

abbrev pub cancelled_message : OutboundMessage → (now : Datetime) → OutboundMessage
cancelled_message message now = record message {
  status = cancelled;
  completed_at = some now;
  updated_at = now;
  version = message.version + 1;
}

unfoldable pub cancel :
    (tenant_id message_id : Uuid)
    → List Role
    → (expected_version : ℕ) (now : Datetime) → World
    → Outcome (OutboundMessage × World)
cancel tenant_id message_id roles expected_version now world = do
  guard (any_role is_send_role roles) access_denied
  current ← required (get_message tenant_id message_id world.messages) message_not_found
  message ← new_message current
  guard (not (outbound_resend_prohibited message.status)) service_error
  transition_as_service_error (validate_outbound_message_transition message.status cancelled)
  updated ← new_message (cancelled_message message now)
  messages ← conflict_as_service_error (update updated expected_version world.messages)
  ok (updated, record world { messages = messages })

-- The job that `approve_and_queue` enqueues.
unfoldable pub send_job :
    (uuid_text : Uuid → Text) (job_id tenant_id message_id : Uuid) (now : Datetime)
    → Outcome OutboxJob
send_job uuid_text job_id tenant_id message_id now = do
  reference ← constructed (
      new_reference (record {
        resource_type = outbound_message_type;
        resource_id = message_id;
        schema_version = 1;
        tenant_id = some tenant_id;
        secondary_id = none;
      }))
  constructed (
      build_outbox_job job_id (some tenant_id) provider_message_send reference
        (outbound_send_deduplication_key uuid_text message_id) now none default_priority
        default_max_attempts)

-- `uuid` is the UUID factory: the UUID of its n-th call.
module _ (reads : Reads) (uuid : ℕ → Uuid) (uuid_text : Uuid → Text) where
  -- The part of `approve_and_queue` after the early return of a queued message.
  unfoldable pub queue :
      OutboundMessage
      → (approved_by_user_id : Uuid) (expected_version : ℕ) (now : Datetime) → World
      → Outcome (OutboundMessage × World)
  queue message approver expected_version now world = do
    transition_as_service_error (assert_may_queue message.status)
    updated ← new_message (queued_message message approver now)
    messages ← conflict_as_service_error (update updated expected_version world.messages)
    job ← send_job uuid_text (uuid world.drawn) message.tenant_id message.id now
    flushed ← unless_duplicate (enqueue job world.jobs)
    jobs ← append_usable flushed
    ok (
      updated,
      record world {
        messages = messages;
        jobs = jobs;
        audit_events = audited message.id now world.audit_events;
        drawn = world.drawn + 3;
      },
    )

  abbrev pub queue_unless_queued :
      Status
      → OutboundMessage
      → (approved_by_user_id : Uuid) (expected_version : ℕ) (now : Datetime) → World
      → Outcome (OutboundMessage × World)
  queue_unless_queued queued message approver expected_version now world = ok (message, world)
  queue_unless_queued status message approver expected_version now world =
      queue message approver expected_version now world

  unfoldable pub approve_and_queue :
      (tenant_id message_id approved_by_user_id : Uuid)
      → List Role
      → (expected_version : ℕ) (now : Datetime) → World
      → Outcome (OutboundMessage × World)
  unfolding assert_manager_scope
  approve_and_queue tenant_id message_id approver roles expected_version now world = do
    guard (any_role is_send_role roles) access_denied
    current ← required (get_message tenant_id message_id world.messages) message_not_found
    message ← new_message current
    assert_manager_scope reads tenant_id message.conversation_thread_id approver roles
    queue_unless_queued message.status message approver expected_version now world

module _ (reads : Reads) (uuid : ℕ → Uuid) where
  -- `encrypt_and_persist` is the content encryption: the stored contents with the new one, or what
  -- it raises.
  unfoldable pub create_draft :
      (encrypt_and_persist : Uuid → List Uuid → Outcome (List Uuid))
      (tenant_id thread_id channel_id : Uuid)
      → Kind
      → Option Uuid
      → (created_by_user_id : Uuid) → List Role
      → (now : Datetime) → World
      → Outcome (OutboundMessage × World)
  unfolding assert_may_draft assert_manager_scope
  create_draft encrypt_and_persist tenant_id thread_id channel_id kind template creator roles now
        world =
      do
        assert_may_draft roles
        let message_id = uuid world.drawn
        let content_id = uuid (world.drawn + 1)
        assert_manager_scope reads tenant_id thread_id creator roles
        guard (is_some (reads.thread tenant_id thread_id)) service_error
        contents ← encrypt_and_persist content_id world.contents
        message ← new_message (
            draft_message message_id tenant_id thread_id channel_id content_id kind template creator
              now)
        messages ← add message world.messages
        ok (
          message,
          record world {
            messages = messages;
            contents = contents;
            audit_events =
                record { kind = draft_created; resource_id = message_id; occurred_at = now }
                ∷ world.audit_events;
            drawn = world.drawn + 3;
          },
        )
