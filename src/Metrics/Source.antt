-- ===== src/Metrics/Source.antt =====
-- The rows that the metrics engine reads
-- (packages/backend/src/closeros/application/metrics_source_data.py, domain/canonical_enums.py).
use closer_os.Prelude.{Option, List, Uuid, Datetime, Bool, true, false}

pub data MessageDirection : Type 0 where
  inbound : MessageDirection
  outbound : MessageDirection

pub data ParticipantSenderType : Type 0 where
  customer : ParticipantSenderType
  bot : ParticipantSenderType
  manager : ParticipantSenderType
  system : ParticipantSenderType
  unknown_sender : ParticipantSenderType

pub data DeliveryStatus : Type 0 where
  pending : DeliveryStatus
  sent : DeliveryStatus
  delivered : DeliveryStatus
  read : DeliveryStatus
  failed : DeliveryStatus
  unknown_delivery : DeliveryStatus

pub data SalesCaseStatus : Type 0 where
  new : SalesCaseStatus
  awaiting_business : SalesCaseStatus
  awaiting_customer : SalesCaseStatus
  qualified : SalesCaseStatus
  appointment_proposed : SalesCaseStatus
  appointment_booked : SalesCaseStatus
  won_case : SalesCaseStatus
  lost_case : SalesCaseStatus
  closed_unknown : SalesCaseStatus

pub data CrmOutcomeType : Type 0 where
  won : CrmOutcomeType
  lost : CrmOutcomeType
  cancelled : CrmOutcomeType
  unknown_outcome : CrmOutcomeType

pub record MetricsMessageRow : Type 0 where
  pub id : Uuid
  pub tenant_id : Uuid
  pub conversation_thread_id : Uuid
  pub sender_type : ParticipantSenderType
  pub direction : MessageDirection
  pub received_at : Datetime

pub record MetricsThreadRow : Type 0 where
  pub id : Uuid
  pub tenant_id : Uuid
  pub sales_case_id : Option Uuid

pub record MetricsDeliveryEventRow : Type 0 where
  pub conversation_thread_id : Uuid
  pub message_id : Uuid
  pub status : DeliveryStatus
  pub occurred_at : Datetime

pub record MetricsSalesCaseRow : Type 0 where
  pub id : Uuid
  pub tenant_id : Uuid
  pub status : SalesCaseStatus
  pub updated_at : Datetime

pub record MetricsCrmOutcomeRow : Type 0 where
  pub sales_case_id : Uuid
  pub outcome_type : CrmOutcomeType
  pub occurred_at : Datetime

pub record MetricsAssignmentRow : Type 0 where
  pub id : Uuid
  pub tenant_id : Uuid
  pub manager_user_id : Uuid
  pub conversation_thread_id : Option Uuid
  pub sales_case_id : Option Uuid
  pub assigned_at : Datetime

pub record MetricsSourceData : Type 0 where
  pub messages : List MetricsMessageRow
  pub threads : List MetricsThreadRow
  pub delivery_events : List MetricsDeliveryEventRow
  pub sales_cases : List MetricsSalesCaseRow
  pub crm_outcomes : List MetricsCrmOutcomeRow
  pub assignments : List MetricsAssignmentRow
  pub watermark : Datetime

-- `direction is INBOUND and sender_type is CUSTOMER`
abbrev pub is_from_customer : MetricsMessageRow → Bool
is_from_customer message = from message.direction message.sender_type
  where
    from : MessageDirection → ParticipantSenderType → Bool
    from inbound customer = true
    from _ _ = false

-- `direction is OUTBOUND and sender_type is MANAGER`
abbrev pub is_from_manager : MetricsMessageRow → Bool
is_from_manager message = from message.direction message.sender_type
  where
    from : MessageDirection → ParticipantSenderType → Bool
    from outbound manager = true
    from _ _ = false

abbrev pub is_failed : DeliveryStatus → Bool
is_failed failed = true
is_failed _ = false

abbrev pub is_appointment_booked : SalesCaseStatus → Bool
is_appointment_booked appointment_booked = true
is_appointment_booked _ = false

abbrev pub is_won : CrmOutcomeType → Bool
is_won won = true
is_won _ = false

abbrev pub is_lost : CrmOutcomeType → Bool
is_lost lost = true
is_lost _ = false
