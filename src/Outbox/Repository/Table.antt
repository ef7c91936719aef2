-- ===== src/Outbox/Repository/Table.antt =====
-- The table of jobs: its invariant, and what a write changes
-- (packages/backend/src/closeros/infrastructure/outbox_repositories.py, outbox_orm.py).
use closer_os.Prelude.{
  ℕ, ◌+◌, ◌≤◌, ◌≡◌, ◌≢◌, refl, subst, ap, Bool, true, false, Option, none, some, List, [], ◌∷◌,
  ◌==◌, if◌then◌else◌, arith, All, count, Bool-cases, inl, inr,
}
use closer_os.Outbox.Types.{Uuid, Text}
use closer_os.Outbox.Rows.{JobRow}
use closer_os.Outbox.Rows.RoundTrip.{RowInv}
use closer_os.Outbox.Database.{get_row, write_row}
use closer_os.Outbox.Repository.Enqueue.{same_key}

abbrev pub has_id : Uuid → JobRow → Bool
has_id id row = row.id == id

pub record TableInv (rows : List JobRow) : Type 0 where
  pub rows_valid : All RowInv rows
  pub ids_unique : (id : Uuid) → count (has_id id) rows ≤ 1
  pub keys_unique : (tenant_id : Option Uuid) (key : Text) → count (same_key tenant_id key) rows ≤ 1

pub get_row-write_row_ne :
    (new : JobRow) (id : Uuid) (rows : List JobRow)
    → new.id ≢ id
    → get_row id (write_row new rows) ≡ get_row id rows
unfolding get_row write_row
get_row-write_row_ne new id [] h = refl
get_row-write_row_ne new id (row ∷ rows) h = ground (arith, get_row-write_row_ne new id rows)

pub get_row-write_row :
    (new : JobRow) (id : Uuid) (rows : List JobRow) (old : JobRow)
    → get_row new.id rows ≡ some old
    → get_row id (write_row new rows) ≡ (if new.id == id then some new else get_row id rows)
unfolding get_row write_row
get_row-write_row new id [] old h = cc
get_row-write_row new id (row ∷ rows) old h =
    ground (arith, get_row-write_row new id rows old, get_row-write_row_ne new id rows)

pub get_row-id :
    (id : Uuid) (rows : List JobRow) (row : JobRow) → get_row id rows ≡ some row → row.id ≡ id
unfolding get_row
get_row-id id [] row h = cc
get_row-id id (x ∷ rows) row h = ground (arith, get_row-id id rows row)

pub get_row-All {κ} :
    (P : JobRow → Type κ) (id : Uuid) (rows : List JobRow) (row : JobRow)
    → All P rows
    → get_row id rows ≡ some row
    → P row
unfolding get_row
get_row-All P id [] row a h = cc
get_row-All P id (x ∷ rows) row a h = elim (Bool-cases (x.id == id)) [
  | inl e ↦ let p : x ≡ row = ground arith in subst P p a.0
  | inr e ↦ get_row-All P id rows row a.1 (rw e at h)
]

pub write_row-All {κ} :
    (P : JobRow → Type κ) (new : JobRow) (rows : List JobRow)
    → All P rows
    → P new
    → All P (write_row new rows)
unfolding write_row
write_row-All P new [] a p = tt
write_row-All P new (row ∷ rows) a p = elim (Bool-cases (row.id == new.id)) [
  | inl e ↦ rw e (p, write_row-All P new rows a.1 p)
  | inr e ↦ rw e (a.0, write_row-All P new rows a.1 p)
]

pub count-id-write_row :
    (new : JobRow) (id : Uuid) (rows : List JobRow)
    → count (has_id id) (write_row new rows) ≡ count (has_id id) rows
unfolding write_row
count-id-write_row new id [] = refl
count-id-write_row new id (row ∷ rows) = ground (arith, count-id-write_row new id rows)

count_absent :
    (new : JobRow) (q : JobRow → Bool) (rows : List JobRow)
    → count (has_id new.id) rows ≡ 0
    → count q (write_row new rows) ≡ count q rows
unfolding write_row
count_absent new q [] h = refl
count_absent new q (row ∷ rows) h = ground (arith, count_absent new q rows)

abbrev pub bit : Bool → ℕ
bit true = 1
bit false = 0

-- Where identifiers are unique, a write changes the count of a test by the row alone.
pub count-write_row :
    (q : JobRow → Bool) (new old : JobRow) (rows : List JobRow)
    → count (has_id new.id) rows ≤ 1
    → get_row new.id rows ≡ some old
    → count q (write_row new rows) + bit (q old) ≡ count q rows + bit (q new)
unfolding write_row get_row
count-write_row q new old [] u h = cc
count-write_row q new old (row ∷ rows) u h =
    ground (arith, count-write_row q new old rows, count_absent new q rows)

-- Writing a job over its row keeps the invariant, if the job is valid and keeps its keys.
pub write_row-TableInv :
    (new old : JobRow) (rows : List JobRow)
    → get_row new.id rows ≡ some old
    → new.tenant_id ≡ old.tenant_id
    → new.deduplication_key ≡ old.deduplication_key
    → RowInv new
    → TableInv rows
    → TableInv (write_row new rows)
write_row-TableInv new old rows g t k v i = record {
  rows_valid = write_row-All RowInv new rows i.rows_valid v;
  ids_unique = λ id. omega (arith, count-id-write_row new id rows, i.ids_unique id);
  keys_unique = λ tenant_id key.
      let same : same_key tenant_id key new ≡ same_key tenant_id key old = rw (t, k) refl in
      ground (
        arith,
        same,
        count-write_row (same_key tenant_id key) new old rows (i.ids_unique new.id) g,
        i.keys_unique tenant_id key,
      );
}

-- The id of the row under a key
unfoldable pub stored_id : Option Uuid → Text → List JobRow → Option Uuid
stored_id tenant_id key [] = none
stored_id tenant_id key (row ∷ rows) =
    if same_key tenant_id key row then some row.id else stored_id tenant_id key rows

stored_id-absent :
    (t : Option Uuid) (k : Text) (new : JobRow) (rows : List JobRow)
    → count (has_id new.id) rows ≡ 0
    → stored_id t k (write_row new rows) ≡ stored_id t k rows
unfolding stored_id write_row
stored_id-absent t k new [] h = refl
stored_id-absent t k new (row ∷ rows) h = ground (arith, stored_id-absent t k new rows)

pub stored_id-write_row :
    (t : Option Uuid) (k : Text) (new old : JobRow) (rows : List JobRow)
    → count (has_id new.id) rows ≤ 1
    → get_row new.id rows ≡ some old
    → same_key t k new ≡ same_key t k old
    → stored_id t k (write_row new rows) ≡ stored_id t k rows
unfolding stored_id write_row get_row
stored_id-write_row t k new old [] u g e = cc
stored_id-write_row t k new old (row ∷ rows) u g e = elim (Bool-cases (row.id == new.id)) [
  | inl same ↦
      let p : row ≡ old = ground arith in
      ground (arith, stored_id-absent t k new rows, ap (λ (r : JobRow). same_key t k r) p)
  | inr other ↦ ground (arith, stored_id-write_row t k new old rows)
]
