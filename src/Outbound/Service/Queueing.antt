-- ===== src/Outbound/Service/Queueing.antt =====
-- What `approve_and_queue` leaves
-- (packages/backend/src/closeros/application/outbound_message_service.py): a queued message, and a
-- job for its delivery in the outbox.
use closer_os.Prelude.{
  ◌>>=◌, ℕ, ◌+◌, ◌≡◌, refl, true, none, some, List, [], ◌∷◌, all, length, same_option_refl, ok,
  arith, Uuid, Text, Datetime,
}
use closer_os.Authentication.Types.{Role}
use closer_os.Outbox.Types.{provider_message_send}
use closer_os.Outbox.Validate.{
  is_key, deduplication_key_pattern, resource_type_pattern, default_priority, default_max_attempts,
  validate_resource_type, validate_schema_version, validate_deduplication_key, validate_priority,
  validate_max_attempts, validate_version, validate_job_tenant_scope,
}
use closer_os.Outbox.Job.{
  JobReference, new_reference, OutboxJob, post_init, pending_job, build_outbox_job,
  validate_claimed_by, reference_tenant_differs,
}
use closer_os.Outbox.Rows.{JobRow, outbox_job_to_row}
use closer_os.Outbox.Database.{get_row}
use closer_os.Outbox.Repository.Enqueue.{enqueue, find_row}
use closer_os.Outbox.Repository.Dedup.{same_text_refl}
use closer_os.Outbound.Types.{Status, draft, queued, requires_approver}
use closer_os.Outbound.Message.{OutboundMessage, new_message}
use closer_os.Outbound.Store.{World, Reads, get_message, write_message, update}
use closer_os.Outbound.Store.Table.{get_message-keys, get-write_message}
use closer_os.Outbound.Service.{
  any_role, is_send_role, is_privileged_send_role, approve_and_queue, queue, assert_may_queue,
  queued_message, send_job, outbound_send_deduplication_key, outbound_message_type, audited,
  queue_unless_queued, unless_duplicate, append_usable,
}

-- `str` of a UUID: 36 hexadecimal digits and dashes.
pub record UuidText (uuid_text : Uuid → Text) : Type 0 where
  pub characters : (id : Uuid) → all is_key (uuid_text id) ≡ true
  pub size : (id : Uuid) → length (uuid_text id) ≡ 36

abbrev pub send_reference : (tenant_id message_id : Uuid) → JobReference
send_reference tenant_id message_id = record {
  resource_type = outbound_message_type;
  resource_id = message_id;
  schema_version = 1;
  tenant_id = some tenant_id;
  secondary_id = none;
}

-- The job of a message, waiting to be published.
abbrev pub waiting_job :
    (uuid_text : Uuid → Text) (job_id tenant_id message_id : Uuid) (now : Datetime) → OutboxJob
waiting_job uuid_text job_id tenant_id message_id now =
    pending_job job_id (some tenant_id) provider_message_send (send_reference tenant_id message_id)
      (outbound_send_deduplication_key uuid_text message_id) now none default_priority
      default_max_attempts

key-pattern :
    (uuid_text : Uuid → Text) (id : Uuid)
    → UuidText uuid_text
    → deduplication_key_pattern (outbound_send_deduplication_key uuid_text id) ≡ true
unfolding deduplication_key_pattern outbound_send_deduplication_key
key-pattern uuid_text id u = rw (u.characters id, u.size id) refl

send_job-ok :
    (uuid_text : Uuid → Text) (job_id t id : Uuid) (now : Datetime)
    → UuidText uuid_text
    → send_job uuid_text job_id t id now ≡ ok (waiting_job uuid_text job_id t id now)
unfolding send_job new_reference build_outbox_job post_init validate_resource_type
    resource_type_pattern validate_schema_version validate_deduplication_key validate_priority
    validate_max_attempts validate_version validate_job_tenant_scope validate_claimed_by
    reference_tenant_differs
send_job-ok uuid_text job_id t id now u = ground (arith, key-pattern uuid_text id u)

enqueue-appended :
    (job : OutboxJob) (jobs : List JobRow)
    → find_row job.tenant_id job.deduplication_key jobs ≡ none
    → get_row job.id jobs ≡ none
    → (unless_duplicate (enqueue job jobs) >>= append_usable) ≡ ok (outbox_job_to_row job ∷ jobs)
unfolding enqueue
enqueue-appended job jobs f g = rw (f, g) refl

find-appended :
    (job : OutboxJob) (jobs : List JobRow)
    → find_row job.tenant_id job.deduplication_key (outbox_job_to_row job ∷ jobs)
      ≡ some (outbox_job_to_row job)
unfolding find_row
find-appended job jobs =
    ground (arith, same_text_refl job.deduplication_key, same_option_refl job.tenant_id)

may_send :
    (roles : List Role)
    → any_role is_privileged_send_role roles ≡ true
    → any_role is_send_role roles ≡ true
unfolding any_role
may_send [] h = cc
may_send (role ∷ roles) h = ground (arith, may_send roles)

queued-accepted :
    (row : OutboundMessage) (approver : Uuid) (now : Datetime)
    → new_message row ≡ ok row
    → assert_may_queue row.status ≡ ok tt
    → new_message (queued_message row approver now) ≡ ok (queued_message row approver now)
unfolding new_message requires_approver
queued-accepted row approver now v s = ground (arith, v)

module _ (reads : Reads) (uuid : ℕ → Uuid) (uuid_text : Uuid → Text) (t id approver : Uuid)
    (roles : List Role) (now : Datetime) (world : World) (row : OutboundMessage) where
  -- The tables after the message is queued.
  abbrev pub after_queueing : World
  after_queueing = record world {
    messages = write_message (queued_message row approver now) world.messages;
    jobs = outbox_job_to_row (waiting_job uuid_text (uuid world.drawn) t id now) ∷ world.jobs;
    audit_events = audited id now world.audit_events;
    drawn = world.drawn + 3;
  }

  queue-ok :
      UuidText uuid_text
      → get_message t id world.messages ≡ some row
      → new_message row ≡ ok row
      → assert_may_queue row.status ≡ ok tt
      → find_row (some t) (outbound_send_deduplication_key uuid_text id) world.jobs ≡ none
      → get_row (uuid world.drawn) world.jobs ≡ none
      → queue reads uuid uuid_text row approver row.version now world
        ≡ ok (queued_message row approver now, after_queueing)
  unfolding queue update
  queue-ok u g v s free fresh =
      let job = waiting_job uuid_text (uuid world.drawn) t id now in
      ground (
        arith,
        get_message-keys t id world.messages row g,
        queued-accepted row approver now v s,
        send_job-ok uuid_text (uuid world.drawn) t id now u,
        enqueue-appended job world.jobs free fresh,
      )

  unless_queued-ok :
      (s : Status)
      → row.status ≡ s
      → UuidText uuid_text
      → get_message t id world.messages ≡ some row
      → new_message row ≡ ok row
      → assert_may_queue s ≡ ok tt
      → find_row (some t) (outbound_send_deduplication_key uuid_text id) world.jobs ≡ none
      → get_row (uuid world.drawn) world.jobs ≡ none
      → queue_unless_queued reads uuid uuid_text s row approver row.version now world
        ≡ ok (queued_message row approver now, after_queueing)
  unfolding assert_may_queue
  unless_queued-ok draft e u g v s free fresh = queue-ok u g v (rw e s) free fresh
  unless_queued-ok queued e u g v s free fresh = cc
  unless_queued-ok x e u g v s free fresh = queue-ok u g v (rw e s) free fresh

  -- A stored, valid message that is a draft, waits for approval or is approved, no job of the tenant
  -- with the key of its delivery, and a caller with a privileged role that has read its version:
  -- `approve_and_queue` returns. It leaves the message queued, approved by the caller, and under the
  -- key the job for its delivery, waiting to be published; besides them only the two audit events
  -- change.
  pub approve_and_queue-queued :
      UuidText uuid_text
      → any_role is_privileged_send_role roles ≡ true
      → get_message t id world.messages ≡ some row
      → new_message row ≡ ok row
      → assert_may_queue row.status ≡ ok tt
      → find_row (some t) (outbound_send_deduplication_key uuid_text id) world.jobs ≡ none
      → get_row (uuid world.drawn) world.jobs ≡ none
      → (approve_and_queue reads uuid uuid_text t id approver roles row.version now world
          ≡ ok (queued_message row approver now, after_queueing))
        × (get_message t id after_queueing.messages ≡ some (queued_message row approver now))
        × (find_row (some t) (outbound_send_deduplication_key uuid_text id) after_queueing.jobs
            ≡ some (outbox_job_to_row (waiting_job uuid_text (uuid world.drawn) t id now)))
  unfolding approve_and_queue
  approve_and_queue-queued u r g v s free fresh = (
    ground (arith, may_send roles r, unless_queued-ok row.status refl u g v s free fresh),
    get-write_message t id (queued_message row approver now) world.messages row
        (get_message-keys t id world.messages row g).0
        (get_message-keys t id world.messages row g).1 g,
    find-appended (waiting_job uuid_text (uuid world.drawn) t id now) world.jobs,
  )
