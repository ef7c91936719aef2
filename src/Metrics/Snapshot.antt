-- ===== src/Metrics/Snapshot.antt =====
-- The records of packages/backend/src/closeros/domain/metrics.py and their `__post_init__`.
use closer_os.Prelude.{
  ℕ, Bool, true, false, not, ◌&&◌, ◌||◌, Option, none, some, List, [], ◌∷◌, leb, ltb, ◌==◌,
  if◌then◌else◌, is_some, all, length, Result, ok, guard, ◌>>=◌, ◌>>◌, Text, Uuid, Datetime, strip,
}
use closer_os.Outbox.Validate.{is_lower, is_word}

pub data MetricScope : Type 0 where
  tenant : MetricScope
  manager : MetricScope

pub data MetricSnapshotStatus : Type 0 where
  pending : MetricSnapshotStatus
  completed : MetricSnapshotStatus
  failed : MetricSnapshotStatus

pub data MetricKey : Type 0 where
  inbound_message_count : MetricKey
  outbound_manager_message_count : MetricKey
  active_thread_count : MetricKey
  inbound_thread_count : MetricKey
  responded_thread_count : MetricKey
  unresponded_thread_count : MetricKey
  response_rate_basis_points : MetricKey
  first_response_sample_count : MetricKey
  median_first_response_seconds : MetricKey
  p90_first_response_seconds : MetricKey
  failed_delivery_count : MetricKey
  appointment_booked_case_count : MetricKey
  won_case_count : MetricKey
  lost_case_count : MetricKey
  conversion_rate_basis_points : MetricKey

-- The ValueErrors that the records raise
pub data MetricError : Type 0 where
  exceeds_maximum : MetricError
  basis_points_range : MetricError
  window_end_not_after_start : MetricError
  window_code_format : MetricError
  formula_version_format : MetricError
  manager_on_tenant_scope : MetricError
  manager_missing : MetricError
  duplicate_key : MetricError

abbrev pub max_basis_points : ℕ
max_basis_points = 10_000

abbrev pub max_metric_value : ℕ
max_metric_value = 1_000_000_000

abbrev pub is_basis_point_metric : MetricKey → Bool
is_basis_point_metric response_rate_basis_points = true
is_basis_point_metric conversion_rate_basis_points = true
is_basis_point_metric _ = false

abbrev pub validate_non_negative_int : ℕ → Result MetricError ℕ
validate_non_negative_int value = do guard (leb value max_metric_value) exceeds_maximum; ok value

-- `if numerator is not None`
abbrev pub validate_optional_int : Option ℕ → Result MetricError (Option ℕ)
validate_optional_int none = ok none
validate_optional_int (some value) = do checked ← validate_non_negative_int value; ok (some checked)

pub record MetricValue : Type 0 where
  pub key : MetricKey
  pub value : ℕ
  pub numerator : Option ℕ
  pub denominator : Option ℕ

unfoldable pub new_value :
    (key : MetricKey) (value : ℕ) (numerator denominator : Option ℕ)
    → Result MetricError MetricValue
new_value key value numerator denominator = do
  checked ← validate_non_negative_int value
  guard (not (is_basis_point_metric key && ltb max_basis_points checked)) basis_points_range
  over ← validate_optional_int numerator
  under ← validate_optional_int denominator
  ok (record { key = key; value = checked; numerator = over; denominator = under })

-- `^[a-z][a-z0-9_-]{0,63}$`
abbrev pub window_code_pattern : Text → Bool
window_code_pattern [] = false
window_code_pattern (c ∷ cs) =
    is_lower c && all (λ d. is_word d || d == b'-') cs && leb (length cs) 63

pub record MetricWindow : Type 0 where
  pub start : Datetime
  pub end : Datetime
  pub window_code : Text

unfoldable pub new_window : MetricWindow → Result MetricError MetricWindow
new_window window = do
  guard (ltb window.start window.end) window_end_not_after_start
  guard (window_code_pattern (strip window.window_code)) window_code_format
  ok (record { start = window.start; end = window.end; window_code = strip window.window_code })

pub record MetricSnapshot : Type 0 where
  pub id : Uuid
  pub tenant_id : Uuid
  pub scope : MetricScope
  pub manager_user_id : Option Uuid
  pub window : MetricWindow
  pub formula_version : Text
  pub source_watermark : Datetime
  pub computed_at : Datetime
  pub status : MetricSnapshotStatus
  pub values : List MetricValue

abbrev pub key_number : MetricKey → ℕ
key_number inbound_message_count = 0
key_number outbound_manager_message_count = 1
key_number active_thread_count = 2
key_number inbound_thread_count = 3
key_number responded_thread_count = 4
key_number unresponded_thread_count = 5
key_number response_rate_basis_points = 6
key_number first_response_sample_count = 7
key_number median_first_response_seconds = 8
key_number p90_first_response_seconds = 9
key_number failed_delivery_count = 10
key_number appointment_booked_case_count = 11
key_number won_case_count = 12
key_number lost_case_count = 13
key_number conversion_rate_basis_points = 14

-- `if metric_value.key in seen_keys`
abbrev pub has_key : MetricKey → List MetricValue → Bool
has_key key [] = false
has_key key (v ∷ vs) = key_number v.key == key_number key || has_key key vs

abbrev pub distinct_keys : List MetricValue → Bool
distinct_keys [] = true
distinct_keys (v ∷ vs) = not (has_key v.key vs) && distinct_keys vs

-- The manager is set exactly on the scope of a manager.
abbrev pub check_scope : MetricScope → Option Uuid → Result MetricError (Unit {0})
check_scope tenant manager_user_id = guard (not (is_some manager_user_id)) manager_on_tenant_scope
check_scope manager manager_user_id = guard (is_some manager_user_id) manager_missing

-- What follows a prefix of a text
abbrev pub after_prefix : (prefix text : Text) → Option Text
after_prefix [] text = some text
after_prefix (p ∷ ps) [] = none
after_prefix (p ∷ ps) (c ∷ cs) = if p == c then after_prefix ps cs else none

abbrev pub formula_version_prefix : Text
formula_version_prefix =
    b'l' ∷ b'm' ∷ b'-' ∷ b'm' ∷ b'e' ∷ b't' ∷ b'r' ∷ b'i' ∷ b'c' ∷ b's' ∷ b'-' ∷ b'v' ∷ []

abbrev pub is_digits : Option Text → Bool
is_digits none = false
is_digits (some []) = false
is_digits (some (d ∷ ds)) = all (λ c. leb b'0' c && leb c b'9') (d ∷ ds)

-- `^lm-metrics-v[0-9]+$`
abbrev pub formula_version_pattern : Text → Bool
formula_version_pattern value = is_digits (after_prefix formula_version_prefix value)

abbrev pub metric_formula_version : Text
metric_formula_version =
    b'l' ∷ b'm' ∷ b'-' ∷ b'm' ∷ b'e' ∷ b't' ∷ b'r' ∷ b'i' ∷ b'c' ∷ b's' ∷ b'-' ∷ b'v' ∷ b'2' ∷ []

-- The duplicate test looks for the key of a value among the later ones, which finds the same
-- duplicates as the set of the keys seen before.
unfoldable pub new_snapshot : MetricSnapshot → Result MetricError MetricSnapshot
new_snapshot snapshot = do
  check_scope snapshot.scope snapshot.manager_user_id
  guard (formula_version_pattern (strip snapshot.formula_version)) formula_version_format
  guard (distinct_keys snapshot.values) duplicate_key
  ok (record {
    id = snapshot.id;
    tenant_id = snapshot.tenant_id;
    scope = snapshot.scope;
    manager_user_id = snapshot.manager_user_id;
    window = snapshot.window;
    formula_version = strip snapshot.formula_version;
    source_watermark = snapshot.source_watermark;
    computed_at = snapshot.computed_at;
    status = snapshot.status;
    values = snapshot.values;
  })
