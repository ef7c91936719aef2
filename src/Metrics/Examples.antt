-- ===== src/Metrics/Examples.antt =====
-- Rows on which the theorems about the metrics are applied
-- (packages/backend/src/closeros/application/metrics_engine.py).
use closer_os.Prelude.{
  ℕ, ◌+◌, ◌≡◌, refl, none, some, List, [], ◌∷◌, Option, length, dict_get, arith,
}
use closer_os.Metrics.Statistics.{deterministic_median_seconds}
use closer_os.Metrics.Source.{
  MetricsMessageRow, MetricsThreadRow, MetricsAssignmentRow, MetricsSourceData, inbound, outbound,
  customer, manager, won, failed, appointment_booked,
}
use closer_os.Metrics.Attribution.{attribute_threads_to_managers}
use closer_os.Metrics.Attribution.Latest.{
  IsLatest, IsLatestOfCase, is_eligible, chosen_manager, attribute_threads_to_managers-IsLatest,
}
use closer_os.Metrics.Engine.{figures, calculate_values}
use closer_os.Metrics.Engine.Counts.{figures-partition}
use closer_os.Metrics.Engine.Returns.{IsReturned, calculate_values-IsReturned}

abbrev message : (id thread at : ℕ) → MetricsMessageRow
message id thread at = record {
  id = id;
  tenant_id = 1;
  conversation_thread_id = thread;
  sender_type = customer;
  direction = inbound;
  received_at = at;
}

abbrev answer : (id thread at : ℕ) → MetricsMessageRow
answer id thread at = record {
  id = id;
  tenant_id = 1;
  conversation_thread_id = thread;
  sender_type = manager;
  direction = outbound;
  received_at = at;
}

-- Thread 10 is answered after 5 seconds, thread 11 not at all.
abbrev messages : List MetricsMessageRow
messages =
    answer 3 10 7_000_000
    ∷ message 1 10 2_000_000
    ∷ message 2 11 3_000_000
    ∷ message 4 10 9_000_000
    ∷ []

abbrev threads : List MetricsThreadRow
threads =
    record { id = 10; tenant_id = 1; sales_case_id = some 20 }
    ∷ record { id = 11; tenant_id = 1; sales_case_id = some 20 }
    ∷ []

-- Manager 31 takes over thread 10 from manager 30, who keeps the sales case.
abbrev assignments : List MetricsAssignmentRow
assignments =
    record {
      id = 40;
      tenant_id = 1;
      manager_user_id = 30;
      conversation_thread_id = some 10;
      sales_case_id = some 20;
      assigned_at = 1;
    }
    ∷ record {
      id = 41;
      tenant_id = 1;
      manager_user_id = 31;
      conversation_thread_id = some 10;
      sales_case_id = none;
      assigned_at = 5;
    }
    ∷ []

abbrev source_data : MetricsSourceData
source_data = record {
  messages = messages;
  threads = threads;
  delivery_events =
      record { conversation_thread_id = 10; message_id = 3; status = failed; occurred_at = 8 } ∷ [];
  sales_cases = record { id = 20; tenant_id = 1; status = appointment_booked; updated_at = 8 } ∷ [];
  crm_outcomes = record { sales_case_id = 20; outcome_type = won; occurred_at = 9 } ∷ [];
  assignments = assignments;
  watermark = 10;
}

attributed_run : attribute_threads_to_managers threads assignments 9 ≡ (10, 31) ∷ (11, 30) ∷ []
unfolding attribute_threads_to_managers
attributed_run = refl

median_run : deterministic_median_seconds (9 ∷ 1 ∷ 4 ∷ 6 ∷ []) ≡ some 5
unfolding deterministic_median_seconds
median_run = refl

latencies_run : (figures messages (10 ∷ 11 ∷ []) (20 ∷ []) source_data).response_latencies ≡ 5 ∷ []
unfolding figures
latencies_run = refl

attribute_threads_to_managers-IsLatest_example :
    (own : Option MetricsAssignmentRow) × (of_case : Option MetricsAssignmentRow) × IsLatest
      (is_eligible (λ a. a.conversation_thread_id) 9 10)
      assignments
      own
    × IsLatestOfCase 9 assignments (some 20) of_case
    × (dict_get 10 (attribute_threads_to_managers threads assignments 9)
        ≡ chosen_manager own of_case)
attribute_threads_to_managers-IsLatest_example =
    attribute_threads_to_managers-IsLatest threads assignments 9 10
      (record { id = 10; tenant_id = 1; sales_case_id = some 20 }) refl

figures-partition_example :
    let f = figures messages (10 ∷ 11 ∷ []) (20 ∷ []) source_data in
    (length f.responded_threads + length f.unresponded_threads ≡ length f.inbound_threads)
    × (length f.response_latencies ≡ length f.responded_threads)
figures-partition_example = figures-partition messages (10 ∷ 11 ∷ []) (20 ∷ []) source_data

calculate_values-IsReturned_example :
    IsReturned (calculate_values messages (10 ∷ 11 ∷ []) (20 ∷ []) source_data)
unfolding figures
calculate_values-IsReturned_example =
    calculate_values-IsReturned messages (10 ∷ 11 ∷ []) (20 ∷ []) source_data (
      omega arith,
      omega arith,
      omega arith,
      omega arith,
      omega arith,
      omega arith,
      omega arith,
      (omega arith, tt),
    )
