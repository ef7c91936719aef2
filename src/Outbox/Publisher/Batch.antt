-- ===== src/Outbox/Publisher/Batch.antt =====
-- A batch of the publisher
-- (packages/backend/src/closeros/application/outbox_publisher.py).
use closer_os.Prelude.{
  ℕ, ◌+◌, ◌*◌, ◌≤◌, min, ◌≡◌, ◌≢◌, refl, ◌∙◌, subst, Bool, true, Option, none, List, [], ◌∷◌, map,
  if◌then◌else◌, ok, arith, length, count, All, Bool-cases, inl, inr,
}
use closer_os.Outbox.Types.{
  Uuid, Text, Datetime, JobKind, publisher, queue_unavailable, AttemptOutcome,
}
use closer_os.Outbox.Validate.{worker_id_pattern}
use closer_os.Outbox.Job.{OutboxJob, new_attempt}
use closer_os.Outbox.Calls.{marks_published}
use closer_os.Outbox.Contract.{after}
use closer_os.Outbox.Database.{Database, DatabaseLaws, Session, get_row}
use closer_os.Outbox.Rows.{JobRow}
use closer_os.Outbox.Repository.Enqueue.{get_by_id}
use closer_os.Outbox.Repository.Methods.{Method, call_method, domain_call}
use closer_os.Outbox.Repository.Table.{TableInv}
use closer_os.Outbox.Repository.Writes.{Written, method-ok}
use closer_os.Outbox.Repository.Claims.{claim_order, claimable, selected, claim_publisher_batch}
use closer_os.Outbox.Repository.Selection.{Distinct, query-Distinct}
use closer_os.Outbox.Repository.Batch.{
  Leased, waiting, claim_publisher_batch-Claimed, get_by_id-kept,
}
use closer_os.Outbox.Service.{
  State, JobOutcome, published, retried, append_attempt, built_attempt, with_attempt,
}
use closer_os.Outbox.Service.Failure.{Held, failure_method, failure_outcome, handle_failure-Failed}
use closer_os.Outbox.Publisher.{PublisherResult, counted, publish_one, publish_all, publish_batch}

abbrev DistinctJobs : List OutboxJob → Type 0
DistinctJobs [] = Unit
DistinctJobs (x ∷ xs) = All (λ y. y.id ≢ x.id) xs × DistinctJobs xs

module _ (db : Database) (queue_accepts : Uuid → Bool) (now : Datetime) where
  abbrev pub accepted : OutboxJob → Bool
  accepted job = queue_accepts job.id

  -- What becomes of a claimed job.
  abbrev pub publish_method : OutboxJob → Method
  publish_method job =
      if accepted job
      then Method.published job.claim_token now job.version
      else failure_method job publisher now queue_unavailable

  abbrev pub publish_outcome : OutboxJob → JobOutcome
  publish_outcome job = if accepted job then published else failure_outcome job

  abbrev pub handed_over : OutboxJob → List Uuid → List Uuid
  handed_over job queue = if accepted job then job.id ∷ queue else queue

  pub record Published (job : OutboxJob) (before after_job : State) : Type 0 where
    pub written :
        Written job.id
          (after job (domain_call (publish_method job)))
          before.session
          after_job.session
    pub queued : after_job.queue ≡ handed_over job before.queue
    pub one_more : length after_job.attempts ≡ length before.attempts + 1

  attempted : OutboxJob → Session → State → State
  attempted job s st =
      let updated = after job (marks_published job.claim_token now job.version) in
      let handed = record st { queue = job.id ∷ st.queue; session = s } in
      with_attempt db updated
        (built_attempt db updated publisher now now AttemptOutcome.succeeded none handed) handed

  -- A claimed job whose UUID the queue accepts is published; otherwise it is retried, or
  -- dead-lettered once its budget is used up. Handling it never raises, writes that job alone,
  -- hands its UUID over once or not at all, and records one attempt.
  pub publish_one-Published :
      (job : OutboxJob) (st : State)
      → Held job publisher now st.session
      → (st' : State) × (publish_one db queue_accepts job now st ≡ ok (publish_outcome job, st'))
        × Published job st st'
  unfolding publish_one call_method append_attempt new_attempt attempted get_by_id
  publish_one-Published job st h = elim (Bool-cases (queue_accepts job.id)) [
    | inl e ↦
        let (s', c, w, d) =
          method-ok (Method.published job.claim_token now job.version) job.id st.session job
            h.table_inv h.stored (h.in_phase, h.lease) in
        (
          attempted job s' st,
          ground arith,
          record {
            written = rw e (record {
              table_inv = w.table_inv;
              read_back = w.read_back;
              keys_kept = w.keys_kept;
              others = w.others;
            });
            queued = rw e refl;
            one_more = omega arith;
          },
        )
    | inr e ↦
        let (st', c, f) =
          handle_failure-Failed db job now now queue_unavailable (omega arith) publisher st h in
        (
          st',
          ground arith,
          record { written = rw e f.written; queued = rw e f.same_queue; one_more = f.one_more },
        )
  ]

  -- The counts of a result, without the claimed ones.
  abbrev pub handled : PublisherResult → ℕ
  handled r = r.published_count + r.retried_count + r.dead_lettered_count

  counted-handled :
      (outcome : JobOutcome) (r : PublisherResult)
      → (handled (counted outcome r) ≡ handled r + 1)
        × ((counted outcome r).claimed_count ≡ r.claimed_count)
  counted-handled published r = (omega arith, refl)
  counted-handled retried r = (omega arith, refl)
  counted-handled _ r = (omega arith, refl)

  counted-published :
      (job : OutboxJob) (r : PublisherResult)
      → (counted (publish_outcome job) r).published_count
        ≡ r.published_count + (if accepted job then 1 else 0)
  counted-published job r = ground arith

  -- A write to one job leaves the others held.
  Held-kept :
      (id : Uuid) (s s' : Session)
      → TableInv s'.rows
      → ((other : Uuid) → other ≢ id → get_row other s'.rows ≡ get_row other s.rows)
      → (jobs : List OutboxJob) → All (λ y. y.id ≢ id) jobs
      → All (λ job. Held job publisher now s) jobs
      → All (λ job. Held job publisher now s') jobs
  Held-kept id s s' t keep [] ne a = tt
  Held-kept id s s' t keep (job ∷ jobs) ne a = (
    record {
      table_inv = t;
      stored = get_by_id-kept job.id s s' (keep job.id ne.0) ∙ a.0.stored;
      in_phase = a.0.in_phase;
      lease = a.0.lease;
    },
    Held-kept id s s' t keep jobs ne.1 a.1,
  )

  -- What a batch adds to the counts, the attempts and the queue.
  pub record Handled (jobs : List OutboxJob) (r r' : PublisherResult) (before after_batch : State)
      : Type 0 where
    pub table_inv : TableInv after_batch.session.rows
    pub same_claimed : r'.claimed_count ≡ r.claimed_count
    pub each_counted : handled r' ≡ handled r + length jobs
    pub published_accepted : r'.published_count ≡ r.published_count + count accepted jobs
    pub queue_grows : length after_batch.queue ≡ length before.queue + count accepted jobs
    pub one_attempt_each : length after_batch.attempts ≡ length before.attempts + length jobs

  publish_all-Handled :
      (jobs : List OutboxJob) (r : PublisherResult) (st : State)
      → TableInv st.session.rows
      → All (λ job. Held job publisher now st.session) jobs
      → DistinctJobs jobs
      → (r' : PublisherResult) × (st' : State) × (publish_all db queue_accepts now jobs r st
          ≡ ok (r', st'))
        × Handled jobs r r' st st'
  unfolding publish_all
  publish_all-Handled [] r st t a d = (
    r,
    st,
    refl,
    record {
      table_inv = t;
      same_claimed = refl;
      each_counted = omega arith;
      published_accepted = omega arith;
      queue_grows = omega arith;
      one_attempt_each = omega arith;
    },
  )
  publish_all-Handled (job ∷ jobs) r st t a d =
      let (st1, e, p) = publish_one-Published job st a.0 in
      let r1 = counted (publish_outcome job) r in
      let (r', st', e', k) =
        publish_all-Handled jobs r1 st1 p.written.table_inv
          (Held-kept job.id st.session st1.session p.written.table_inv p.written.others jobs d.0
            a.1)
          d.1 in
      let both = counted-handled (publish_outcome job) r in
      (
        r',
        st',
        ground (arith, e, e'),
        record {
          table_inv = k.table_inv;
          same_claimed = k.same_claimed ∙ both.1;
          each_counted = omega (arith, k.each_counted, both.0);
          published_accepted = ground (arith, k.published_accepted, counted-published job r);
          queue_grows = ground (arith, k.queue_grows, p.queued);
          one_attempt_each = omega (arith, k.one_attempt_each, p.one_more);
        },
      )

ids_differ :
    (id : Uuid) (jobs : List OutboxJob) (rows : List JobRow)
    → map (λ job. job.id) jobs ≡ map (λ row. row.id) rows
    → All (λ row. row.id ≢ id) rows
    → All (λ job. job.id ≢ id) jobs
ids_differ id [] rows e a = tt
ids_differ id (job ∷ jobs) [] e a = cc
ids_differ id (job ∷ jobs) (row ∷ rows) e a =
    (ground (arith, a.0), ids_differ id jobs rows (ground arith) a.1)

Distinct-jobs :
    (jobs : List OutboxJob) (rows : List JobRow)
    → map (λ job. job.id) jobs ≡ map (λ row. row.id) rows
    → Distinct rows
    → DistinctJobs jobs
Distinct-jobs [] rows e d = tt
Distinct-jobs (job ∷ jobs) [] e d = cc
Distinct-jobs (job ∷ jobs) (row ∷ rows) e d =
    let p : row.id ≡ job.id = ground arith in
    (
      ids_differ job.id jobs rows (ground arith) (subst (λ i. All (λ y. y.id ≢ i) rows) p d.0),
      Distinct-jobs jobs rows (ground arith) d.1,
    )

Leased-Held :
    (worker_id : Text) (now : Datetime) (s : Session) (jobs : List OutboxJob)
    → TableInv s.rows
    → All (Leased worker_id now s) jobs
    → All (λ job. Held job publisher now s) jobs
Leased-Held worker_id now s [] t a = tt
Leased-Held worker_id now s (job ∷ jobs) t a = (
  record {
    table_inv = t;
    stored = a.0.in_table;
    in_phase = a.0.is_publishing;
    lease = record {
      same_version = refl;
      same_token = refl;
      expires_at = now + 60 * 1_000_000;
      expiry = a.0.until;
      running = omega arith;
    };
  },
  Leased-Held worker_id now s jobs t a.1,
)

-- In a valid table, a batch of at least one by a worker with a valid name never raises, whatever the
-- queue accepts. It claims as many jobs as are waiting, up to the batch size; the published, the
-- retried and the dead-lettered jobs add up to the claimed ones; as many are published, and handed
-- to the queue, as there are claimed jobs whose UUID the queue accepts; one attempt is recorded for
-- each claimed job, and the table stays valid.
pub publish_batch-total :
    (db : Database) (queue_accepts : Uuid → Bool) (worker_id : Text) (now : Datetime)
    (batch_size : ℕ) (kinds : Option (JobKind → Bool)) (st : State)
    → DatabaseLaws db
    → worker_id_pattern worker_id ≡ true
    → 1 ≤ batch_size
    → TableInv st.session.rows
    → (jobs : List OutboxJob) × (claimed : Session) × (r : PublisherResult) × (st' : State)
      × (claim_publisher_batch db worker_id now batch_size kinds st.session ≡ ok (jobs, claimed))
      × (publish_batch db queue_accepts worker_id now batch_size kinds st ≡ ok (r, st'))
      × TableInv st'.session.rows
      × (r.claimed_count ≡ min batch_size (waiting db worker_id now kinds st.session.rows))
      × (r.published_count + r.retried_count + r.dead_lettered_count ≡ r.claimed_count)
      × (length jobs ≡ r.claimed_count)
      × (r.published_count ≡ count (λ job. queue_accepts job.id) jobs)
      × (length st'.queue ≡ length st.queue + r.published_count)
      × (length st'.attempts ≡ length st.attempts + r.claimed_count)
unfolding publish_batch
publish_batch-total db queue_accepts worker_id now batch_size kinds st laws w n t =
    let (jobs, s', e, many, k) =
      claim_publisher_batch-Claimed db worker_id now kinds w laws batch_size st.session n t in
    let st1 = record st { session = s' } in
    let r0 : PublisherResult = record {
      claimed_count = length jobs;
      published_count = 0;
      retried_count = 0;
      dead_lettered_count = 0;
    } in
    let (r, st', e', h) =
      publish_all-Handled db queue_accepts now jobs r0 st1 k.table_inv
        (Leased-Held worker_id now s' jobs k.table_inv k.leased)
        (Distinct-jobs jobs (selected db now batch_size kinds st.session.rows) k.same_ids (
          query-Distinct db laws (claim_order db) batch_size (claimable db now kinds)
            st.session.rows t)) in
    (
      jobs,
      s',
      r,
      st',
      e,
      ground (arith, e, e'),
      h.table_inv,
      omega arith,
      omega arith,
      omega arith,
      omega arith,
      omega arith,
      omega arith,
    )
