-- ===== src/Metrics/Statistics/Bounds.antt =====
-- What the median and the 90th percentile are
-- (packages/backend/src/closeros/domain/metrics.py).
use closer_os.Prelude.{
  ℕ, zero, suc, ◌+◌, ◌-◌, ◌*◌, ◌/◌, ◌%◌, min, ◌≤◌, ◌<◌, ◌≡◌, refl, ap, ◌∙◌, Option, some, List, [],
  ◌∷◌, leb, ◌==◌, if◌then◌else◌, length, get_elem?, All, All-map, arith, Bool,
}
use closer_os.Metrics.Statistics.{
  insert_sorted, sorted, median_of_sorted, deterministic_median_seconds, p90_of_sorted,
  deterministic_p90_seconds,
}

module _ {A : Type 0} (at_most : A → A → Bool) where
  insert_sorted-All :
      (P : A → Type 0) (x : A) (xs : List A) → P x → All P xs → All P (insert_sorted at_most x xs)
  unfolding insert_sorted
  insert_sorted-All P x [] p a = (p, tt)
  insert_sorted-All P x (y ∷ ys) p a = ground (arith, insert_sorted-All P x ys)

  pub sorted-All : (P : A → Type 0) (xs : List A) → All P xs → All P (sorted at_most xs)
  unfolding sorted
  sorted-All P [] a = tt
  sorted-All P (x ∷ xs) a = insert_sorted-All P x (sorted at_most xs) a.0 (sorted-All P xs a.1)

  length-insert_sorted :
      (x : A) (xs : List A) → length (insert_sorted at_most x xs) ≡ suc (length xs)
  unfolding insert_sorted
  length-insert_sorted x [] = refl
  length-insert_sorted x (y ∷ ys) = ground (arith, length-insert_sorted x ys)

  length-sorted : (xs : List A) → length (sorted at_most xs) ≡ length xs
  unfolding sorted
  length-sorted [] = refl
  length-sorted (x ∷ xs) = length-insert_sorted x (sorted at_most xs) ∙ ap suc (length-sorted xs)

abbrev IsSorted : List ℕ → Type 0
IsSorted [] = Unit
IsSorted (x ∷ xs) = All (λ y. x ≤ y) xs × IsSorted xs

insert_sorted-IsSorted : (x : ℕ) (xs : List ℕ) → IsSorted xs → IsSorted (insert_sorted leb x xs)
unfolding insert_sorted
insert_sorted-IsSorted x [] s = (tt, tt)
insert_sorted-IsSorted x (y ∷ ys) s = ground (
  arith,
  insert_sorted-IsSorted x ys,
  insert_sorted-All leb (λ z. y ≤ z) x ys,
  λ (h : x ≤ y). All-map (λ z. y ≤ z) (λ z. x ≤ z) ys (λ z l. omega arith) s.0,
)

sorted-IsSorted : (xs : List ℕ) → IsSorted (sorted leb xs)
unfolding sorted
sorted-IsSorted [] = tt
sorted-IsSorted (x ∷ xs) = insert_sorted-IsSorted x (sorted leb xs) (sorted-IsSorted xs)

get_elem?-some : (xs : List ℕ) (i : ℕ) → i < length xs → (x : ℕ) × (get_elem? xs i ≡ some x)
get_elem?-some [] i h = absurd (omega arith)
get_elem?-some (x ∷ xs) zero h = (x, refl)
get_elem?-some (x ∷ xs) (suc i) h = get_elem?-some xs i (omega arith)

All-get_elem? : (P : ℕ → Type 0) (xs : List ℕ) (i x : ℕ) → All P xs → get_elem? xs i ≡ some x → P x
All-get_elem? P [] i x a h = ground arith
All-get_elem? P (y ∷ xs) zero x a h = ground arith
All-get_elem? P (y ∷ xs) (suc i) x a h = All-get_elem? P xs i x a.1 h

IsSorted-get_elem? :
    (xs : List ℕ) (i j a b : ℕ)
    → IsSorted xs
    → i ≤ j
    → get_elem? xs i ≡ some a
    → get_elem? xs j ≡ some b
    → a ≤ b
IsSorted-get_elem? [] i j a b s l h k = ground arith
IsSorted-get_elem? (x ∷ xs) zero zero a b s l h k = ground arith
IsSorted-get_elem? (x ∷ xs) zero (suc j) a b s l h k =
    ground (arith, All-get_elem? (λ y. x ≤ y) xs j b s.0 k)
IsSorted-get_elem? (x ∷ xs) (suc i) zero a b s l h k = absurd (omega arith)
IsSorted-get_elem? (x ∷ xs) (suc i) (suc j) a b s l h k =
    IsSorted-get_elem? xs i j a b s.1 (omega arith) h k

-- What holds of the two statistics of values between `low` and `high`
abbrev pub AreBetween : (low high : ℕ) (median p90 : Option ℕ) → Type 0
AreBetween low high median p90 =
    (m : ℕ) × (p : ℕ) × (median ≡ some m) × (p90 ≡ some p) × (low ≤ m) × (m ≤ p) × (p ≤ high)

of_sorted-AreBetween :
    (low high v : ℕ) (vs : List ℕ)
    → IsSorted (v ∷ vs)
    → All (λ x. (low ≤ x) × (x ≤ high)) (v ∷ vs)
    → AreBetween low high (median_of_sorted (v ∷ vs)) (p90_of_sorted (v ∷ vs))
of_sorted-AreBetween low high v vs s a =
    let n = length (v ∷ vs) in
    let top = min (n - 1) ((90 * n + 99) / 100 - 1) in
    let (middle, e) = get_elem?-some (v ∷ vs) (n / 2) (omega arith) in
    let (lower, f) = get_elem?-some (v ∷ vs) (n / 2 - 1) (omega arith) in
    let (p, g) = get_elem?-some (v ∷ vs) top (omega arith) in
    let middle_bounds = All-get_elem? (λ x. (low ≤ x) × (x ≤ high)) (v ∷ vs) (n / 2) middle a e in
    let lower_bounds = All-get_elem? (λ x. (low ≤ x) × (x ≤ high)) (v ∷ vs) (n / 2 - 1) lower a f in
    let top_bounds = All-get_elem? (λ x. (low ≤ x) × (x ≤ high)) (v ∷ vs) top p a g in
    let rises = IsSorted-get_elem? (v ∷ vs) (n / 2) top middle p s (omega arith) e g in
    let steps = IsSorted-get_elem? (v ∷ vs) (n / 2 - 1) (n / 2) lower middle s (omega arith) f e in
    (
      if n % 2 == 1 then middle else ((lower + middle) / 2),
      p,
      ground (arith, e, f),
      g,
      ground (arith, middle_bounds, lower_bounds),
      ground (arith, rises, steps),
      top_bounds.1,
    )

not_empty-AreBetween :
    (low high n : ℕ) (values : List ℕ)
    → length values ≡ suc n
    → IsSorted values
    → All (λ x. (low ≤ x) × (x ≤ high)) values
    → AreBetween low high (median_of_sorted values) (p90_of_sorted values)
not_empty-AreBetween low high n [] l s a = absurd (omega arith)
not_empty-AreBetween low high n (v ∷ vs) l s a = of_sorted-AreBetween low high v vs s a

-- For values that are not empty, both statistics are computed: the median is at least every lower
-- bound of the values, the 90th percentile at most every upper bound, and the median is at most the
-- 90th percentile.
pub median-AreBetween :
    (low high v : ℕ) (vs : List ℕ)
    → All (λ x. (low ≤ x) × (x ≤ high)) (v ∷ vs)
    → AreBetween low high
        (deterministic_median_seconds (v ∷ vs))
        (deterministic_p90_seconds (v ∷ vs))
unfolding deterministic_median_seconds deterministic_p90_seconds
median-AreBetween low high v vs a =
    not_empty-AreBetween low high (length vs) (sorted leb (v ∷ vs)) (length-sorted leb (v ∷ vs))
      (sorted-IsSorted (v ∷ vs)) (sorted-All leb (λ x. (low ≤ x) × (x ≤ high)) (v ∷ vs) a)
