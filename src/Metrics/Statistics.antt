-- ===== src/Metrics/Statistics.antt =====
-- The deterministic statistics of packages/backend/src/closeros/domain/metrics.py.
use closer_os.Prelude.{
  ℕ, ◌+◌, ◌-◌, ◌*◌, ◌/◌, ◌%◌, min, Bool, Option, none, some, List, [], ◌∷◌, leb, ◌==◌,
  if◌then◌else◌, ◌>>=◌, length, get_elem?,
}
pub mod Bounds

-- `sorted(values, key=...)`, which is stable, for the order `at_most` of the keys
module _ {A : Type 0} (at_most : A → A → Bool) where
  unfoldable pub insert_sorted : A → List A → List A
  insert_sorted x [] = x ∷ []
  insert_sorted x (y ∷ ys) = if at_most x y then x ∷ y ∷ ys else y ∷ insert_sorted x ys

  unfoldable pub sorted : List A → List A
  sorted [] = []
  sorted (x ∷ xs) = insert_sorted x (sorted xs)

unfoldable pub floor_basis_points : (numerator denominator : ℕ) → Option ℕ
floor_basis_points numerator denominator =
    if denominator == 0 then none else some ((numerator * 10_000) / denominator)

-- `(lower + upper) // 2` of two reads
abbrev pub halfway : Option ℕ → Option ℕ → Option ℕ
halfway none upper = none
halfway (some lower) none = none
halfway (some lower) (some upper) = some ((lower + upper) / 2)

-- The median of sorted values; `none` is also an index out of range, which never happens.
abbrev pub median_of_sorted : List ℕ → Option ℕ
median_of_sorted [] = none
median_of_sorted (v ∷ vs) =
    let values = v ∷ vs in
    if length values % 2 == 1
    then get_elem? values (length values / 2)
    else halfway (get_elem? values (length values / 2 - 1)) (get_elem? values (length values / 2))

unfoldable pub deterministic_median_seconds : List ℕ → Option ℕ
unfolding sorted insert_sorted
deterministic_median_seconds values = median_of_sorted (sorted leb values)

abbrev pub p90_of_sorted : List ℕ → Option ℕ
p90_of_sorted [] = none
p90_of_sorted (v ∷ vs) =
    let count = length (v ∷ vs) in
    let rank = (90 * count + 99) / 100 in get_elem? (v ∷ vs) (min (count - 1) (rank - 1))

unfoldable pub deterministic_p90_seconds : List ℕ → Option ℕ
unfolding sorted insert_sorted
deterministic_p90_seconds values = p90_of_sorted (sorted leb values)
