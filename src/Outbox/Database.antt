-- ===== src/Outbox/Database.antt =====
-- The database session as the outbox repository uses it. PostgreSQL and SQLAlchemy are not part of
-- the repository's code: the order of a result, the rows that other transactions lock and the UUIDs
-- that `uuid4()` draws are parameters, with what the code relies on as `DatabaseLaws`. The table is
-- the list of its rows, keyed by `id`.
use closer_os.Prelude.{
  ℕ, Bool, ◌≡◌, Option, none, some, List, [], ◌∷◌, if◌then◌else◌, ◌==◌, count, All,
}
use closer_os.Outbox.Types.{Uuid}
use closer_os.Outbox.Rows.{JobRow}

pub record Database : Type 0 where
  -- ORDER BY the listed columns
  pub order_by : (JobRow → List ℕ) → List JobRow → List JobRow
  -- not locked by another transaction (FOR UPDATE SKIP LOCKED)
  pub unlocked : Uuid → Bool
  -- the UUID of the n-th draw
  pub uuid4 : ℕ → Uuid

-- A sort returns the rows that it is given and no others, each as often as it is given; UUIDs do
-- not repeat.
pub record DatabaseLaws (db : Database) : Type 1 where
  pub order_by_All :
      (key : JobRow → List ℕ) (rows : List JobRow) (P : JobRow → Type 0)
      → All P rows
      → All P (db.order_by key rows)
  pub order_by_count :
      (key : JobRow → List ℕ) (rows : List JobRow) (p : JobRow → Bool)
      → count p (db.order_by key rows) ≡ count p rows
  pub uuid4_fresh : (m n : ℕ) → db.uuid4 m ≡ db.uuid4 n → m ≡ n

pub record Session : Type 0 where
  pub rows : List JobRow
  -- how many UUIDs have been drawn
  pub drawn : ℕ

-- `session.get(OutboxJobRow, job_id)`
unfoldable pub get_row : Uuid → List JobRow → Option JobRow
get_row job_id [] = none
get_row job_id (row ∷ rows) = if row.id == job_id then some row else get_row job_id rows

-- The write of a changed row.
unfoldable pub write_row : JobRow → List JobRow → List JobRow
write_row new [] = []
write_row new (row ∷ rows) = (if row.id == new.id then new else row) ∷ write_row new rows

unfoldable pub where_rows : (JobRow → Bool) → List JobRow → List JobRow
where_rows p [] = []
where_rows p (row ∷ rows) = let rest = where_rows p rows in if p row then row ∷ rest else rest
