-- ===== src/Outbox/Examples/Services.antt =====
-- A table and a database on which the theorems about the outbox repository and its services are
-- applied (packages/backend/src/closeros/infrastructure/outbox_repositories.py and the services).
use closer_os.Prelude.{
  ◌+◌, ◌≡◌, refl, true, false, none, some, List, [], ◌∷◌, ok, arith, count, length, min,
}
use closer_os.Outbox.Types.{publisher, queue_unavailable}
use closer_os.Outbox.Job.{
  OutboxJob, new_reference, post_init, validate_claimed_by, reference_tenant_differs,
}
use closer_os.Outbox.Operations
use closer_os.Outbox.Calls.{marks_published}
use closer_os.Outbox.Validate.{
  worker_id_pattern, validate_resource_type, resource_type_pattern, validate_schema_version,
  validate_deduplication_key, deduplication_key_pattern, validate_priority, validate_max_attempts,
  validate_version, validate_job_tenant_scope, validate_worker_id,
}
use closer_os.Outbox.Rows.{outbox_job_to_row, outbox_job_to_domain}
use closer_os.Outbox.Rows.RoundTrip.{to_domain-ok}
use closer_os.Outbox.Contract.{after}
use closer_os.Outbox.Database.{Database, DatabaseLaws, Session, get_row, write_row}
use closer_os.Outbox.Repository.Claims.{claim_publisher_batch}
use closer_os.Outbox.Repository.Enqueue.{get_or_create, get_by_id, find_row, to_domain}
use closer_os.Outbox.Repository.Methods.{Method, requeue, call_method, specified, method-specified}
use closer_os.Outbox.Repository.Table.{TableInv}
use closer_os.Outbox.Repository.Writes.{Written, method-Written}
use closer_os.Outbox.Repository.Dedup.{to_row-RowInv}
use closer_os.Outbox.Repository.Reuse.{Later, calls, enqueues, later_run, get_or_create_again}
use closer_os.Outbox.Repository.Batch.{waiting}
use closer_os.Outbox.Service.{State, handle_failure}
use closer_os.Outbox.Service.Failure.{Held, Failed, failure_outcome, handle_failure-Failed}
use closer_os.Outbox.Publisher.{PublisherResult, publish_one, publish_batch}
use closer_os.Outbox.Publisher.Batch.{
  Published, publish_outcome, publish_one-Published, publish_batch-total,
}
use closer_os.Outbox.Examples.{
  worker, reference_valid, job, worker_valid, build_outbox_job-Inv_example, claimed, claimed-Inv,
}

-- A database that returns rows as they are stored, with no other transaction at work.
abbrev db : Database
db = record { order_by = λ column rows. rows; unlocked = λ id. true; uuid4 = λ n. 1000 + n }

laws : DatabaseLaws db
laws = record {
  order_by_All = λ column rows P a. a;
  order_by_count = λ column rows p. refl;
  uuid4_fresh = λ m n e. omega arith;
}

abbrev session : Session
session = record { rows = outbox_job_to_row job ∷ []; drawn = 0 }

session-TableInv : TableInv session.rows
session-TableInv = record {
  rows_valid = (to_row-RowInv job reference_valid build_outbox_job-Inv_example, tt);
  ids_unique = λ id. ground arith;
  keys_unique = λ tenant_id key. ground arith;
}

method-specified_example :
    call_method (Method.requeue 50) 2 session
    ≡ specified (Method.requeue 50) session (get_row 2 session.rows)
method-specified_example = method-specified (Method.requeue 50) 2 session session-TableInv

-- The table with the job claimed.
abbrev claimed_session : Session
claimed_session = record { rows = outbox_job_to_row claimed ∷ []; drawn = 1 }

claimed-TableInv : TableInv claimed_session.rows
claimed-TableInv = record {
  rows_valid = (to_row-RowInv claimed reference_valid claimed-Inv, tt);
  ids_unique = λ id. ground arith;
  keys_unique = λ tenant_id key. ground arith;
}

claimed-stored : get_by_id 1 claimed_session ≡ ok (some claimed)
unfolding get_by_id get_row
claimed-stored =
    ground (arith, to_domain-ok (outbox_job_to_row claimed) claimed-TableInv.rows_valid.0)

abbrev published_job : OutboxJob
published_job = after claimed (marks_published (some 9) 200 2)

abbrev published_session : Session
published_session = record { rows = outbox_job_to_row published_job ∷ []; drawn = 1 }

published-ok :
    call_method (Method.published (some 9) 200 2) 1 claimed_session
    ≡ ok (published_job, published_session)
unfolding call_method get_row write_row outbox_job_to_domain new_reference validate_resource_type
    resource_type_pattern validate_schema_version post_init validate_job_tenant_scope
    reference_tenant_differs validate_deduplication_key deduplication_key_pattern validate_priority
    validate_max_attempts validate_version validate_claimed_by validate_worker_id worker_id_pattern
    Operations.mark_published
published-ok = refl

method-Written_example : Written 1 published_job claimed_session published_session
method-Written_example =
    method-Written (Method.published (some 9) 200 2) 1 claimed_session published_session
      published_job claimed-TableInv published-ok

abbrev empty : Session
empty = record { rows = []; drawn = 0 }

created-ok : get_or_create job (λ rows. rows) empty ≡ ok ((job, true), session)
unfolding get_or_create find_row get_row to_domain
created-ok = refl

empty-TableInv : TableInv empty.rows
empty-TableInv = record {
  rows_valid = tt;
  ids_unique = λ id. omega arith;
  keys_unique = λ tenant_id key. omega arith;
}

-- Another job under the same key.
abbrev again : OutboxJob
again = record job { id = 2; priority = 0 }

-- A method that is refused and an insertion of a taken key
abbrev later : List Later
later = calls (requeue 5) 1 ∷ enqueues job ∷ []

get_or_create_again_example :
    (r : OutboxJob) × (get_or_create again (λ rows. rows) (later_run later session)
      ≡ ok ((r, false), later_run later session))
    × (r.id ≡ 1)
get_or_create_again_example =
    get_or_create_again job again job (λ rows. rows) (λ rows. rows) empty session true later
      reference_valid build_outbox_job-Inv_example empty-TableInv empty-TableInv created-ok
      (tt, ((reference_valid, build_outbox_job-Inv_example), tt)) refl refl

abbrev state : State
state = record { session = claimed_session; attempts = []; queue = [] }

claimed-Held : Held claimed publisher 200 claimed_session
claimed-Held = record {
  table_inv = claimed-TableInv;
  stored = claimed-stored;
  in_phase = refl;
  lease = record {
    same_version = refl;
    same_token = refl;
    expires_at = 60_000_100;
    expiry = refl;
    running = omega arith;
  };
}

handle_failure-Failed_example :
    (st' : State) × (handle_failure db claimed publisher 150 200 queue_unavailable state
      ≡ ok (failure_outcome claimed, st'))
    × Failed claimed publisher 200 queue_unavailable state st'
handle_failure-Failed_example =
    handle_failure-Failed db claimed 150 200 queue_unavailable (omega arith) publisher state
      claimed-Held

publish_one-Published_example :
    (st' : State) × (publish_one db (λ id. true) claimed 200 state
      ≡ ok (publish_outcome db (λ id. true) 200 claimed, st'))
    × Published db (λ id. true) 200 claimed state st'
publish_one-Published_example = publish_one-Published db (λ id. true) 200 claimed state claimed-Held

abbrev idle_state : State
idle_state = record { session = session; attempts = []; queue = [] }

publish_batch-total_example :
    (jobs : List OutboxJob) × (claimed : Session) × (r : PublisherResult) × (st' : State)
    × (claim_publisher_batch db worker 100 10 none session ≡ ok (jobs, claimed))
    × (publish_batch db (λ id. true) worker 100 10 none idle_state ≡ ok (r, st'))
    × TableInv st'.session.rows
    × (r.claimed_count ≡ min 10 (waiting db worker 100 none session.rows))
    × (r.published_count + r.retried_count + r.dead_lettered_count ≡ r.claimed_count)
    × (length jobs ≡ r.claimed_count)
    × (r.published_count ≡ count (λ job. true) jobs)
    × (length st'.queue ≡ 0 + r.published_count)
    × (length st'.attempts ≡ 0 + r.claimed_count)
publish_batch-total_example =
    publish_batch-total db (λ id. true) worker 100 10 none idle_state laws worker_valid
      (omega arith) session-TableInv
