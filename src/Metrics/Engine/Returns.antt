-- ===== src/Metrics/Engine/Returns.antt =====
-- When a snapshot is calculated without an error
-- (packages/backend/src/closeros/application/metrics_engine.py).
use closer_os.Prelude.{
  ℕ, ◌+◌, ◌*◌, ◌/◌, ◌≤◌, ◌<◌, ◌≡◌, refl, sym, subst, false, Option, none, some, List, [], ◌∷◌, ◌++◌,
  zero, suc, ◌&&◌, ltb, Result, err, ok, ◌>>=◌, length, All, All-map, Uuid, arith,
}
use native.Mathlib.Nat.{div-lt_iff_lt-mul}
use closer_os.Metrics.Statistics.{
  floor_basis_points, deterministic_median_seconds, deterministic_p90_seconds,
}
use closer_os.Metrics.Statistics.Bounds.{median-AreBetween}
use closer_os.Metrics.Snapshot.{
  MetricKey, response_rate_basis_points, median_first_response_seconds, p90_first_response_seconds,
  conversion_rate_basis_points, MetricError, MetricValue, max_metric_value, max_basis_points,
  is_basis_point_metric, new_value,
}
use closer_os.Metrics.Source.{MetricsMessageRow, MetricsSourceData}
use closer_os.Metrics.Engine.{
  Figures, figures, append_optional, counted_values, counts_of, metric_values, calculate_values,
}
use closer_os.Metrics.Engine.Counts.{figures-partition}

abbrev pub IsReturned {ℓ} : {A : Type ℓ} → Result MetricError A → Type ℓ
IsReturned r = (a : _) × (r ≡ ok a)

bind-IsReturned {ℓ κ} :
    {A : Type ℓ} {B : Type κ} (r : Result MetricError A) (f : A → Result MetricError B)
    → IsReturned r
    → ((a : A) → IsReturned (f a))
    → IsReturned (r >>= f)
bind-IsReturned (err e) f r h = ground arith
bind-IsReturned (ok a) f r h = h a

new_value-IsReturned :
    (key : MetricKey) (value : ℕ)
    → value ≤ max_metric_value
    → is_basis_point_metric key ≡ false
    → IsReturned (new_value key value none none)
unfolding new_value
new_value-IsReturned key value v k =
    (record { key = key; value = value; numerator = none; denominator = none }, ground arith)

counted_values-IsReturned :
    (entries : List (MetricKey × ℕ))
    → All (λ e. (e.1 ≤ max_metric_value) × (is_basis_point_metric e.0 ≡ false)) entries
    → IsReturned (counted_values entries)
counted_values-IsReturned [] a = ([], refl)
counted_values-IsReturned ((key, value) ∷ rest) a =
    bind-IsReturned (new_value key value none none) _ (new_value-IsReturned key value a.0.0 a.0.1)
      λ entry.
        bind-IsReturned (counted_values rest) _ (counted_values-IsReturned rest a.1)
          λ entries. (entry ∷ entries, refl)

abbrev OptionAll : (ℕ → Type 0) → Option ℕ → Type 0
OptionAll P none = Unit
OptionAll P (some v) = P v

-- What new_value accepts as the value of a key
abbrev Fits : MetricKey → ℕ → Type 0
Fits key v =
    (v ≤ max_metric_value) × ((is_basis_point_metric key && ltb max_basis_points v) ≡ false)

append_optional-IsReturned :
    (key : MetricKey) (value numerator denominator : Option ℕ) (values : List MetricValue)
    → OptionAll (Fits key) value
    → OptionAll (λ v. v ≤ max_metric_value) numerator
    → OptionAll (λ v. v ≤ max_metric_value) denominator
    → IsReturned (append_optional key value numerator denominator values)
unfolding append_optional new_value
append_optional-IsReturned key none numerator denominator values v n d = (values, refl)
append_optional-IsReturned key (some value) numerator denominator values v n d = (
  values
      ++ (record { key = key; value = value; numerator = numerator; denominator = denominator }
          ∷ []),
  appended numerator denominator n d,
)
  where
    appended :
        (over under : Option ℕ)
        → OptionAll (λ v. v ≤ max_metric_value) over
        → OptionAll (λ v. v ≤ max_metric_value) under
        → append_optional key (some value) over under values
          ≡ ok (
              values
              ++ (record { key = key; value = value; numerator = over; denominator = under } ∷ []))
    appended none none n d = ground (arith, v)
    appended none (some u) n d = ground (arith, v)
    appended (some o) none n d = ground (arith, v)
    appended (some o) (some u) n d = ground (arith, v)

-- A rate is at most 10000 basis points.
rate-Fits :
    (key : MetricKey) (numerator denominator : ℕ)
    → numerator ≤ denominator
    → OptionAll (Fits key) (floor_basis_points numerator denominator)
unfolding floor_basis_points
rate-Fits key numerator zero h = tt
rate-Fits key numerator (suc d) h =
    let bound : (numerator * 10_000) / suc d < 10_001 =
      (div-lt_iff_lt-mul {k = suc d} {x = numerator * 10_000} {y = 10_001} (omega arith)).1
        (omega arith) in
    ground (arith, bound)

some-OptionAll : (P : ℕ → Type 0) (o : Option ℕ) (v : ℕ) → o ≡ some v → P v → OptionAll P o
some-OptionAll P o v e p = subst (OptionAll P) (sym e) p

statistics-Fit :
    (latencies : List ℕ)
    → All (λ x. x ≤ max_metric_value) latencies
    → OptionAll (Fits median_first_response_seconds) (deterministic_median_seconds latencies)
      × OptionAll (Fits p90_first_response_seconds) (deterministic_p90_seconds latencies)
unfolding deterministic_median_seconds deterministic_p90_seconds
statistics-Fit [] a = (tt, tt)
statistics-Fit (v ∷ vs) a =
    let (m, p, e, g, _, below, high) = median-AreBetween 0 max_metric_value v vs (
      All-map (λ x. x ≤ max_metric_value) (λ x. (0 ≤ x) × (x ≤ max_metric_value)) (v ∷ vs)
        (λ x h. (omega arith, h)) a) in
    (
      some-OptionAll (Fits median_first_response_seconds) (deterministic_median_seconds (v ∷ vs)) m
          e (omega arith, refl),
      some-OptionAll (Fits p90_first_response_seconds) (deterministic_p90_seconds (v ∷ vs)) p g
          (high, refl),
    )

-- The figures of a snapshot are in the range of a metric value.
abbrev pub InRange : Figures → (active_threads : ℕ) → Type 0
InRange f active_threads =
    (f.inbound_messages ≤ max_metric_value)
    × (f.outbound_manager_messages ≤ max_metric_value)
    × (active_threads ≤ max_metric_value)
    × (length f.inbound_threads ≤ max_metric_value)
    × (f.failed_deliveries ≤ max_metric_value)
    × (f.appointments_booked ≤ max_metric_value)
    × (f.won_count + f.lost_count ≤ max_metric_value)
    × All (λ latency. latency ≤ max_metric_value) f.response_latencies

metric_values-IsReturned :
    (f : Figures) (active_threads : ℕ)
    → length f.responded_threads + length f.unresponded_threads ≡ length f.inbound_threads
    → length f.response_latencies ≡ length f.responded_threads
    → InRange f active_threads
    → IsReturned (metric_values f active_threads)
unfolding metric_values
metric_values-IsReturned f active_threads parts samples (i, o, a, t, d, b, c, l) =
    let responded = length f.responded_threads in
    let inbound = length f.inbound_threads in
    let statistics = statistics-Fit f.response_latencies l in
    bind-IsReturned _ _
      (counted_values-IsReturned (counts_of f active_threads) (
        (i, refl),
        (
          (o, refl),
          (
            (a, refl),
            (
              (t, refl),
              (
                (omega arith, refl),
                (
                  (omega arith, refl),
                  (
                    (omega arith, refl),
                    ((d, refl), ((b, refl), ((omega arith, refl), ((omega arith, refl), tt)))),
                  ),
                ),
              ),
            ),
          ),
        ),
      ))
      λ counts.
        bind-IsReturned _ _
          (append_optional-IsReturned response_rate_basis_points
            (floor_basis_points responded inbound) (some responded) (some inbound) counts
            (rate-Fits response_rate_basis_points responded inbound (omega arith)) (omega arith) t)
          λ with_rate.
            bind-IsReturned _ _
              (append_optional-IsReturned median_first_response_seconds
                (deterministic_median_seconds f.response_latencies) none none with_rate statistics.0
                tt tt)
              λ with_median.
                bind-IsReturned _ _
                  (append_optional-IsReturned p90_first_response_seconds
                    (deterministic_p90_seconds f.response_latencies) none none with_median
                    statistics.1 tt tt)
                  λ with_p90.
                    append_optional-IsReturned conversion_rate_basis_points
                      (floor_basis_points f.won_count (f.won_count + f.lost_count))
                      (some f.won_count) (some (f.won_count + f.lost_count)) with_p90
                      (rate-Fits conversion_rate_basis_points f.won_count
                        (f.won_count + f.lost_count) (omega arith))
                      (omega arith) c

-- calculate_values returns when the counts of messages, threads, deliveries, cases and outcomes and
-- every latency are at most 1000000000: the rates never exceed 10000 basis points, nor the median
-- and the percentile the latencies.
pub calculate_values-IsReturned :
    (messages : List MetricsMessageRow) (thread_ids sales_case_ids : List Uuid)
    (source_data : MetricsSourceData)
    → InRange (figures messages thread_ids sales_case_ids source_data) (length thread_ids)
    → IsReturned (calculate_values messages thread_ids sales_case_ids source_data)
unfolding calculate_values
calculate_values-IsReturned messages thread_ids sales_case_ids source_data r =
    let (parts, samples) = figures-partition messages thread_ids sales_case_ids source_data in
    metric_values-IsReturned (figures messages thread_ids sales_case_ids source_data)
      (length thread_ids) parts samples r
