-- ===== src/Metrics/Engine.antt =====
-- The calculation of a snapshot
-- (packages/backend/src/closeros/application/metrics_engine.py).
use closer_os.Prelude.{
  ℕ, ◌+◌, ◌-◌, ◌/◌, Bool, true, false, not, ◌&&◌, Option, none, some, List, [], ◌∷◌, ◌++◌, map, leb,
  ltb, ◌==◌, if◌then◌else◌, Result, ok, ◌>>=◌, count, length, Uuid, Datetime, mem, set_add, set_of,
}
use closer_os.Metrics.Statistics.{
  sorted, insert_sorted, floor_basis_points, deterministic_median_seconds,
  deterministic_p90_seconds,
}
use closer_os.Metrics.Snapshot.{
  MetricKey, inbound_message_count, outbound_manager_message_count, active_thread_count,
  inbound_thread_count, responded_thread_count, unresponded_thread_count,
  response_rate_basis_points, first_response_sample_count, median_first_response_seconds,
  p90_first_response_seconds, failed_delivery_count, appointment_booked_case_count, won_case_count,
  lost_case_count, conversion_rate_basis_points, MetricError, MetricValue, new_value, MetricScope,
  tenant, manager, MetricWindow, MetricSnapshot, new_snapshot, metric_formula_version, completed,
}
use closer_os.Metrics.Source.{
  MetricsMessageRow, MetricsThreadRow, MetricsSalesCaseRow, MetricsCrmOutcomeRow, MetricsSourceData,
  is_from_customer, is_from_manager, is_failed, is_appointment_booked, is_won, is_lost,
}
use closer_os.Metrics.Attribution.{ManagerMetricScope, resolve_manager_metric_scope, add_optional}
pub mod Counts
pub mod Returns

-- `tuple(x for x in xs if keep(x))`
abbrev pub select {ℓ} : {A : Type ℓ} → (A → Bool) → List A → List A
select keep [] = []
select keep (x ∷ xs) = let rest = select keep xs in if keep x then x ∷ rest else rest

-- `next((x for x in xs if found(x)), None)`
abbrev pub first_where {ℓ} : {A : Type ℓ} → (A → Bool) → List A → Option A
first_where found [] = none
first_where found (x ∷ xs) = if found x then some x else first_where found xs

-- The order of `(item.received_at, str(item.id))`
abbrev pub message_at_most : MetricsMessageRow → MetricsMessageRow → Bool
message_at_most a b =
    if a.received_at == b.received_at then leb a.id b.id else leb a.received_at b.received_at

abbrev pub answers : MetricsMessageRow → MetricsMessageRow → Bool
answers earliest item = ltb earliest.received_at item.received_at && is_from_manager item

-- `int((response - inbound).total_seconds())` of a later response
abbrev pub latency_seconds : MetricsMessageRow → Option MetricsMessageRow → Option ℕ
latency_seconds earliest none = none
latency_seconds earliest (some response) =
    some ((response.received_at - earliest.received_at) / 1_000_000)

abbrev pub answer_latency : List MetricsMessageRow → Option MetricsMessageRow → Option ℕ
answer_latency ordered none = none
answer_latency ordered (some earliest) =
    latency_seconds earliest (first_where (answers earliest) ordered)

-- The body of the loop over the threads: the latency of the first response, if there is one
unfoldable pub first_response : List MetricsMessageRow → Option ℕ
unfolding sorted insert_sorted
first_response thread_messages =
    let ordered = sorted message_at_most thread_messages in
    answer_latency ordered (first_where is_from_customer ordered)

abbrev pub in_thread : Uuid → MetricsMessageRow → Bool
in_thread thread_id message = message.conversation_thread_id == thread_id

-- `responded_threads` and `response_latencies`
pub record Responses : Type 0 where
  pub responded_threads : List Uuid
  pub response_latencies : List ℕ

-- The last two statements of the loop; the latencies are only sorted later, so their order is free.
abbrev pub add_response : Uuid → Option ℕ → Responses → Responses
add_response thread_id none r = r
add_response thread_id (some latency) r = record {
  responded_threads = set_add thread_id r.responded_threads;
  response_latencies = latency ∷ r.response_latencies;
}

-- The loop over `messages_by_thread`
unfoldable pub responses : List MetricsMessageRow → List Uuid → Responses
unfolding first_response
responses messages [] = record { responded_threads = []; response_latencies = [] }
responses messages (thread_id ∷ rest) =
    add_response thread_id (first_response (select (in_thread thread_id) messages))
      (responses messages rest)

abbrev pub thread_ids_of : List MetricsMessageRow → List Uuid
thread_ids_of messages = set_of (map (λ message. message.conversation_thread_id) messages)

-- The local variables of _calculate_values, of which the metrics are the sizes
pub record Figures : Type 0 where
  pub inbound_messages : ℕ
  pub outbound_manager_messages : ℕ
  pub inbound_threads : List Uuid
  pub responded_threads : List Uuid
  pub response_latencies : List ℕ
  pub unresponded_threads : List Uuid
  pub failed_deliveries : ℕ
  pub appointments_booked : ℕ
  pub won_count : ℕ
  pub lost_count : ℕ

unfoldable pub figures :
    List MetricsMessageRow → (thread_ids sales_case_ids : List Uuid) → MetricsSourceData → Figures
unfolding responses
figures messages thread_ids sales_case_ids source_data =
    let inbound_threads = thread_ids_of (select is_from_customer messages) in
    let responded = responses messages (thread_ids_of messages) in
    record {
      inbound_messages = length (select is_from_customer messages);
      outbound_manager_messages = length (select is_from_manager messages);
      inbound_threads = inbound_threads;
      responded_threads = responded.responded_threads;
      response_latencies = responded.response_latencies;
      unresponded_threads = select (λ t. not (mem t responded.responded_threads)) inbound_threads;
      failed_deliveries =
          count (λ event. mem event.conversation_thread_id thread_ids && is_failed event.status)
            source_data.delivery_events;
      appointments_booked =
          count (λ c. mem c.id sales_case_ids && is_appointment_booked c.status)
            source_data.sales_cases;
      won_count =
          count (λ o. mem o.sales_case_id sales_case_ids && is_won o.outcome_type)
            source_data.crm_outcomes;
      lost_count =
          count (λ o. mem o.sales_case_id sales_case_ids && is_lost o.outcome_type)
            source_data.crm_outcomes;
    }

-- `values.append(MetricValue(...))` when the value is not None
unfoldable pub append_optional :
    (key : MetricKey) (value numerator denominator : Option ℕ)
    → List MetricValue
    → Result MetricError (List MetricValue)
unfolding new_value
append_optional key none numerator denominator values = ok values
append_optional key (some value) numerator denominator values = do
  entry ← new_value key value numerator denominator
  ok (values ++ (entry ∷ []))

abbrev pub counted_values : List (MetricKey × ℕ) → Result MetricError (List MetricValue)
counted_values [] = ok []
counted_values ((key, value) ∷ rest) = do
  entry ← new_value key value none none
  entries ← counted_values rest
  ok (entry ∷ entries)

-- The eleven counts with which `values` begins
abbrev pub counts_of : Figures → ℕ → List (MetricKey × ℕ)
counts_of figures active_threads =
    (inbound_message_count, figures.inbound_messages)
    ∷ (outbound_manager_message_count, figures.outbound_manager_messages)
    ∷ (active_thread_count, active_threads)
    ∷ (inbound_thread_count, length figures.inbound_threads)
    ∷ (responded_thread_count, length figures.responded_threads)
    ∷ (unresponded_thread_count, length figures.unresponded_threads)
    ∷ (first_response_sample_count, length figures.response_latencies)
    ∷ (failed_delivery_count, figures.failed_deliveries)
    ∷ (appointment_booked_case_count, figures.appointments_booked)
    ∷ (won_case_count, figures.won_count)
    ∷ (lost_case_count, figures.lost_count)
    ∷ []

unfoldable pub metric_values : Figures → ℕ → Result MetricError (List MetricValue)
unfolding new_value append_optional floor_basis_points deterministic_median_seconds
    deterministic_p90_seconds
metric_values figures active_threads = do
  counts ← counted_values (counts_of figures active_threads)
  with_rate ←
      append_optional response_rate_basis_points
        (floor_basis_points (length figures.responded_threads) (length figures.inbound_threads))
        (some (length figures.responded_threads)) (some (length figures.inbound_threads)) counts
  with_median ←
      append_optional median_first_response_seconds
        (deterministic_median_seconds figures.response_latencies) none none with_rate
  with_p90 ←
      append_optional p90_first_response_seconds
        (deterministic_p90_seconds figures.response_latencies) none none with_median
  append_optional conversion_rate_basis_points
      (floor_basis_points figures.won_count (figures.won_count + figures.lost_count))
      (some figures.won_count) (some (figures.won_count + figures.lost_count)) with_p90

unfoldable pub calculate_values :
    List MetricsMessageRow
    → (thread_ids sales_case_ids : List Uuid) → MetricsSourceData
    → Result MetricError (List MetricValue)
unfolding figures metric_values
calculate_values messages thread_ids sales_case_ids source_data =
    metric_values (figures messages thread_ids sales_case_ids source_data) (length thread_ids)

abbrev pub add_thread_case_ids : List MetricsThreadRow → List Uuid → List Uuid
add_thread_case_ids [] ids = ids
add_thread_case_ids (thread ∷ rest) ids =
    add_thread_case_ids rest (add_optional thread.sales_case_id ids)

abbrev pub add_outcome_case_ids : List MetricsCrmOutcomeRow → List Uuid → List Uuid
add_outcome_case_ids [] ids = ids
add_outcome_case_ids (outcome ∷ rest) ids =
    add_outcome_case_ids rest (set_add outcome.sales_case_id ids)

unfoldable pub scope_ids :
    MetricsSourceData → MetricScope → Option Uuid → Datetime → List Uuid × List Uuid
unfolding resolve_manager_metric_scope
scope_ids source_data tenant manager_user_id window_end = (
  set_of (map (λ thread. thread.id) source_data.threads),
  add_outcome_case_ids source_data.crm_outcomes
      (add_thread_case_ids source_data.threads (set_of (map (λ c. c.id) source_data.sales_cases))),
)
scope_ids source_data manager none window_end = ([], [])
scope_ids source_data manager (some manager_user_id) window_end =
    let attributed = resolve_manager_metric_scope source_data manager_user_id window_end in
    (attributed.thread_ids, attributed.sales_case_ids)

unfoldable pub calculate_snapshot :
    (snapshot_id tenant_id : Uuid) (scope : MetricScope) (manager_user_id : Option Uuid)
    (window : MetricWindow) (source_data : MetricsSourceData) (computed_at : Datetime)
    → Result MetricError MetricSnapshot
unfolding scope_ids calculate_values new_snapshot
calculate_snapshot snapshot_id tenant_id scope manager_user_id window source_data computed_at =
    let ids = scope_ids source_data scope manager_user_id window.end in
    do
      values ←
          calculate_values
            (select (λ message. mem message.conversation_thread_id ids.0) source_data.messages)
            ids.0 ids.1 source_data
      new_snapshot (record {
        id = snapshot_id;
        tenant_id = tenant_id;
        scope = scope;
        manager_user_id = manager_user_id;
        window = window;
        formula_version = metric_formula_version;
        source_watermark = source_data.watermark;
        computed_at = computed_at;
        status = completed;
        values = values;
      })
