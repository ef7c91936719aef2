-- ===== src/Outbox/Repository/Selection.antt =====
-- The rows that a query of the outbox repository selects
-- (packages/backend/src/closeros/infrastructure/outbox_repositories.py).
use closer_os.Prelude.{
  ℕ, ◌≤◌, ◌≡◌, ◌≢◌, refl, Bool, true, some, List, [], ◌∷◌, arith, All, All-take, count, take,
  count-take-le, Bool-cases, inl, inr,
}
use closer_os.Outbox.Types.{Uuid}
use closer_os.Outbox.Rows.{JobRow}
use closer_os.Outbox.Database.{Database, DatabaseLaws, get_row, where_rows}
use closer_os.Outbox.Repository.Table.{has_id, TableInv}

-- The row stands in the table.
abbrev pub InTable : List JobRow → JobRow → Type 0
InTable rows row = get_row row.id rows ≡ some row

-- No two rows have one identifier.
abbrev pub Distinct : List JobRow → Type 0
Distinct [] = Unit
Distinct (x ∷ xs) = All (λ y. y.id ≢ x.id) xs × Distinct xs

absent : (id : Uuid) (rows : List JobRow) → count (has_id id) rows ≡ 0 → All (λ y. y.id ≢ id) rows
absent id [] h = tt
absent id (x ∷ xs) h = (ground arith, absent id xs (ground arith))

pub Distinct-of_count :
    (rows : List JobRow) → ((id : Uuid) → count (has_id id) rows ≤ 1) → Distinct rows
Distinct-of_count [] h = tt
Distinct-of_count (x ∷ xs) h =
    (absent x.id xs (ground (arith, h x.id)), Distinct-of_count xs (λ id. ground (arith, h id)))

InTable-cons :
    (x : JobRow) (rows : List JobRow)
    → All (λ y. y.id ≢ x.id) rows
    → All (InTable rows) rows
    → All (InTable (x ∷ rows)) rows
unfolding get_row
InTable-cons x rows ne a = go rows ne a
  where
    go :
        (ys : List JobRow)
        → All (λ y. y.id ≢ x.id) ys
        → All (InTable rows) ys
        → All (InTable (x ∷ rows)) ys
    go [] n b = tt
    go (y ∷ ys) n b = (ground (arith, n.0, b.0), go ys n.1 b.1)

All-InTable : (rows : List JobRow) → Distinct rows → All (InTable rows) rows
unfolding get_row
All-InTable [] d = tt
All-InTable (x ∷ xs) d = (ground arith, InTable-cons x xs d.0 (All-InTable xs d.1))

where_rows-All :
    (P : JobRow → Type 0) (p : JobRow → Bool) (rows : List JobRow)
    → All P rows
    → All (λ r. P r × (p r ≡ true)) (where_rows p rows)
unfolding where_rows
where_rows-All P p [] a = tt
where_rows-All P p (x ∷ xs) a = elim (Bool-cases (p x)) [
  | inl e ↦ rw e ((a.0, e), where_rows-All P p xs a.1)
  | inr e ↦ rw e (where_rows-All P p xs a.1)
]

pub count-where_rows-le :
    (q p : JobRow → Bool) (rows : List JobRow) → count q (where_rows p rows) ≤ count q rows
unfolding where_rows
count-where_rows-le q p [] = omega arith
count-where_rows-le q p (x ∷ xs) = ground (arith, count-where_rows-le q p xs)

pub length-where_rows :
    (p : JobRow → Bool) (rows : List JobRow) → count (λ r. true) (where_rows p rows) ≡ count p rows
unfolding where_rows
length-where_rows p [] = refl
length-where_rows p (x ∷ xs) = ground (arith, length-where_rows p xs)

-- A selected row stands in the table and passes the filter.
abbrev pub Selected : (p : JobRow → Bool) → List JobRow → JobRow → Type 0
Selected p rows row = InTable rows row × (p row ≡ true)

pub where_rows-Selected :
    (p : JobRow → Bool) (rows : List JobRow)
    → TableInv rows
    → All (Selected p rows) (where_rows p rows)
where_rows-Selected p rows i =
    where_rows-All (InTable rows) p rows (All-InTable rows (Distinct-of_count rows i.ids_unique))

pub where_rows-Distinct :
    (p : JobRow → Bool) (rows : List JobRow) → TableInv rows → Distinct (where_rows p rows)
where_rows-Distinct p rows i =
    Distinct-of_count (where_rows p rows)
      (λ id. omega (arith, count-where_rows-le (has_id id) p rows, i.ids_unique id))

module _ (db : Database) (laws : DatabaseLaws db) (key : JobRow → List ℕ) (n : ℕ)
    (p : JobRow → Bool) (rows : List JobRow) (i : TableInv rows) where
  pub query-Selected : All (Selected p rows) (take n (db.order_by key (where_rows p rows)))
  query-Selected =
      All-take (Selected p rows) n (db.order_by key (where_rows p rows))
        (laws.order_by_All key (where_rows p rows) (Selected p rows) (where_rows-Selected p rows i))

  pub query-Distinct : Distinct (take n (db.order_by key (where_rows p rows)))
  query-Distinct = Distinct-of_count (take n (db.order_by key (where_rows p rows))) λ id. omega (
    arith,
    count-take-le (has_id id) n (db.order_by key (where_rows p rows)),
    laws.order_by_count key (where_rows p rows) (has_id id),
    count-where_rows-le (has_id id) p rows,
    i.ids_unique id,
  )
