-- ===== src/Outbox/Repository/Batch.antt =====
-- `claim_publisher_batch` leases what it selects
-- (packages/backend/src/closeros/infrastructure/outbox_repositories.py).
use closer_os.Prelude.{
  map, ℕ, suc, ◌+◌, ◌*◌, ◌≤◌, min, ◌≡◌, ◌≢◌, sym, ◌∙◌, ap, refl, Bool, true, false, ◌&&◌, ◌||◌, leb,
  Option, some, List, [], ◌∷◌, arith, All, count, take, length, ok, length-take, count-true,
}
use closer_os.Outbox.Types.{
  Uuid, Text, Datetime, JobKind, JobState, pending, publishing, retry_scheduled, is_pending,
  is_retry_scheduled,
}
use closer_os.Outbox.Validate.{worker_id_pattern}
use closer_os.Outbox.Job.{OutboxJob}
use closer_os.Outbox.Operations
use closer_os.Outbox.Operations.{claimed_for_publishing}
use closer_os.Outbox.Calls.{apply, claims_for_publishing}
use closer_os.Outbox.Contract.{Allowed, after, apply_of_Allowed}
use closer_os.Outbox.Invariant.{after-Inv}
use closer_os.Outbox.Rows.{JobRow, row_job, update_outbox_job_row}
use closer_os.Outbox.Rows.RoundTrip.{RowInv, to_domain-ok}
use closer_os.Outbox.Database.{Database, DatabaseLaws, Session, get_row, where_rows}
use closer_os.Outbox.Repository.{saved}
use closer_os.Outbox.Repository.Claims.{
  claim_order, claimable, kind_allowed, claim_rows, selected, claim_publisher_batch,
}
use closer_os.Outbox.Repository.Enqueue.{get_by_id}
use closer_os.Outbox.Repository.Table.{TableInv, get_row-All, count-write_row}
use closer_os.Outbox.Repository.Writes.{Written, saved-Written}
use closer_os.Outbox.Repository.Selection.{
  Distinct, Selected, query-Selected, query-Distinct, length-where_rows,
}

-- The job is leased by the worker for a minute, in the table too.
pub record Leased (worker_id : Text) (now : Datetime) (s : Session) (job : OutboxJob) : Type 0 where
  pub is_publishing : job.state ≡ publishing
  pub by_worker : job.claimed_by ≡ some worker_id
  pub until : job.claim_expires_at ≡ some (now + 60 * 1_000_000)
  pub in_table : get_by_id job.id s ≡ ok (some job)

pub get_by_id-kept :
    (id : Uuid) (s s' : Session)
    → get_row id s'.rows ≡ get_row id s.rows
    → get_by_id id s' ≡ get_by_id id s
unfolding get_by_id
get_by_id-kept id s s' h = rw h refl

-- A write to one row leaves the selected others as they were.
pub Selected-kept :
    (p : JobRow → Bool) (before after : List JobRow) (id : Uuid)
    → ((other : Uuid) → other ≢ id → get_row other after ≡ get_row other before)
    → (rows : List JobRow) → All (λ y. y.id ≢ id) rows
    → All (Selected p before) rows
    → All (Selected p after) rows
Selected-kept p before after id keep [] ne a = tt
Selected-kept p before after id keep (row ∷ rows) ne a =
    ((keep row.id ne.0 ∙ a.0.0, a.0.1), Selected-kept p before after id keep rows ne.1 a.1)

-- A job in this state waits to be published: it is new, or it is to be tried again.
abbrev pub awaits_publishing : JobState → Bool
awaits_publishing pending = true
awaits_publishing retry_scheduled = true
awaits_publishing _ = false

awaits_publishing-or : (s : JobState) → awaits_publishing s ≡ (is_pending s || is_retry_scheduled s)
awaits_publishing-or pending = refl
awaits_publishing-or s = ground arith

module _ (db : Database) (worker_id : Text) (now : Datetime) (kinds : Option (JobKind → Bool)) where
  -- The job waits, is available, of a kind that is asked for, and locked by no other transaction.
  abbrev pub is_waiting : JobRow → Bool
  is_waiting row =
      awaits_publishing row.state
      && leb row.available_at now
      && kind_allowed kinds row
      && db.unlocked row.id

  abbrev pub waiting : List JobRow → ℕ
  waiting = count is_waiting

  count-waiting : (rows : List JobRow) → waiting rows ≡ count (claimable db now kinds) rows
  count-waiting [] = refl
  count-waiting (row ∷ rows) = ground (arith, awaits_publishing-or row.state, count-waiting rows)

  -- What the loop over the rows achieves.
  pub record Claimed (rows : List JobRow) (before after : Session) (jobs : List OutboxJob)
      : Type 0 where
    pub table_inv : TableInv after.rows
    pub same_ids : map (λ job. job.id) jobs ≡ map (λ row. row.id) rows
    pub each_claimed : length jobs ≡ length rows
    pub fewer_waiting : waiting after.rows + length rows ≡ waiting before.rows
    pub leased : All (Leased worker_id now after) jobs
    pub others :
        (id : Uuid) → All (λ row. row.id ≢ id) rows → get_row id after.rows ≡ get_row id before.rows

  module _ (worker_valid : worker_id_pattern worker_id ≡ true) where
    abbrev claimed_job : ℕ → JobRow → OutboxJob
    claimed_job n row = claimed_for_publishing (row_job row) (db.uuid4 n) worker_id now

    abbrev session_after : JobRow → Session → Session
    session_after row s = record (saved row (claimed_job s.drawn row) s) { drawn = suc s.drawn }

    claim-Allowed :
        (row : JobRow) (n : ℕ)
        → claimable db now kinds row ≡ true
        → Allowed (row_job row) (claims_for_publishing (db.uuid4 n) worker_id now row.version)
    claim-Allowed row n c = ground arith

    claim-ok :
        (row : JobRow) (n : ℕ)
        → RowInv row
        → claimable db now kinds row ≡ true
        → Operations.claim_for_publishing (row_job row) (db.uuid4 n) worker_id now row.version
          ≡ ok (claimed_job n row)
    unfolding apply
    claim-ok row n i c =
        apply_of_Allowed (row_job row)
          (claims_for_publishing (db.uuid4 n) worker_id now row.version) i.job_inv.valid
          (claim-Allowed row n c)

    claim-Written :
        (row : JobRow) (s : Session)
        → TableInv s.rows
        → Selected (claimable db now kinds) s.rows row
        → Written row.id (claimed_job s.drawn row) s (session_after row s)
    unfolding get_by_id
    claim-Written row s t (g, c) =
        let v = get_row-All RowInv row.id s.rows row t.rows_valid g in
        let i =
          after-Inv (row_job row)
            (claims_for_publishing (db.uuid4 s.drawn) worker_id now row.version) v.job_inv
            (claim-Allowed row s.drawn c) in
        let w =
          saved-Written row (claimed_job s.drawn row) row.id s t g i (record {
            same_id = refl;
            same_tenant = refl;
            same_key = refl;
            same_reference = refl;
          }) in
        record {
          table_inv = w.table_inv;
          read_back = w.read_back;
          keys_kept = w.keys_kept;
          others = w.others;
        }

    waiting-session_after :
        (row : JobRow) (s : Session)
        → TableInv s.rows
        → Selected (claimable db now kinds) s.rows row
        → waiting (session_after row s).rows + 1 ≡ waiting s.rows
    waiting-session_after row s t (g, c) =
        let new = update_outbox_job_row row (claimed_job s.drawn row) in
        ground (
          arith,
          count-waiting s.rows,
          count-waiting (session_after row s).rows,
          count-write_row (claimable db now kinds) new row s.rows (t.ids_unique row.id) g,
        )

    -- The loop never raises.
    abbrev OutcomeOf : List JobRow → Session → Type 0
    OutcomeOf rows s =
        (jobs : List OutboxJob) × (s' : Session) × (claim_rows db worker_id now rows s
          ≡ ok (jobs, s'))
        × Claimed rows s s' jobs

    claim-step :
        (row : JobRow) (rows : List JobRow) (s : Session)
        → TableInv s.rows
        → Selected (claimable db now kinds) s.rows row
        → All (λ y. y.id ≢ row.id) rows
        → OutcomeOf rows (session_after row s)
        → OutcomeOf (row ∷ rows) s
    unfolding claim_rows
    claim-step row rows s t (g, c) ne (jobs, s', e, k) =
        let v = get_row-All RowInv row.id s.rows row t.rows_valid g in
        let w = claim-Written row s t (g, c) in
        let head : Leased worker_id now s' (claimed_job s.drawn row) = record {
          is_publishing = refl;
          by_worker = refl;
          until = refl;
          in_table =
              get_by_id-kept row.id (session_after row s) s' (k.others row.id ne) ∙ w.read_back;
        } in
        (
          claimed_job s.drawn row ∷ jobs,
          s',
          ground (arith, to_domain-ok row v, claim-ok row s.drawn v c, e),
          record {
            table_inv = k.table_inv;
            same_ids = ap (λ ids. row.id ∷ ids) k.same_ids;
            each_claimed = ap suc k.each_claimed;
            fewer_waiting = omega (arith, k.fewer_waiting, waiting-session_after row s t (g, c));
            leased = (head, k.leased);
            others = λ id n. k.others id n.1 ∙ w.others id (λ e. n.0 (sym e));
          },
        )

    claim_rows-Claimed :
        (rows : List JobRow) (s : Session)
        → TableInv s.rows
        → All (Selected (claimable db now kinds) s.rows) rows
        → Distinct rows
        → OutcomeOf rows s
    unfolding claim_rows
    claim_rows-Claimed [] s t a d = (
      [],
      s,
      refl,
      record {
        table_inv = t;
        same_ids = refl;
        each_claimed = refl;
        fewer_waiting = omega arith;
        leased = tt;
        others = λ id n. refl;
      },
    )
    claim_rows-Claimed (row ∷ rows) s t a d =
        let w = claim-Written row s t a.0 in
        claim-step row rows s t a.0 d.0 (
          claim_rows-Claimed rows (session_after row s) w.table_inv
            (Selected-kept (claimable db now kinds) s.rows (session_after row s).rows row.id
              w.others rows d.0 a.1)
            d.1)

    pub claim_publisher_batch-Claimed :
        DatabaseLaws db
        → (batch_size : ℕ) (s : Session) → 1 ≤ batch_size
        → TableInv s.rows
        → (jobs : List OutboxJob) × (s' : Session) × (claim_publisher_batch db worker_id now
              batch_size kinds s
            ≡ ok (jobs, s'))
          × (length jobs ≡ min batch_size (waiting s.rows))
          × Claimed (selected db now batch_size kinds s.rows) s s' jobs
    unfolding claim_publisher_batch
    claim_publisher_batch-Claimed laws batch_size s positive t =
        let p = claimable db now kinds in
        let sorted = db.order_by (claim_order db) (where_rows p s.rows) in
        let (jobs, s', e, k) =
          claim_rows-Claimed (take batch_size sorted) s t
            (query-Selected db laws (claim_order db) batch_size p s.rows t)
            (query-Distinct db laws (claim_order db) batch_size p s.rows t) in
        (
          jobs,
          s',
          ground (arith, e),
          omega (
            arith,
            k.each_claimed,
            length-take {0} batch_size sorted,
            count-true {0} sorted,
            laws.order_by_count (claim_order db) (where_rows p s.rows) (λ r. true),
            length-where_rows p s.rows,
            count-waiting s.rows,
          ),
          k,
        )
