-- ===== src/Outbox/Validate.antt =====
-- The value checks of packages/backend/src/closeros/domain/outbox.py. Arguments have their declared
-- types and integers are not negative, so the `isinstance` tests and the refusal of a negative
-- `attempt_count` have no counterpart.
use closer_os.Prelude.{
  ℕ, Bool, false, ◌&&◌, ◌||◌, Option, none, some, [], ◌∷◌, leb, ◌==◌, if◌then◌else◌, length, all,
  ok, err, guard,
}
use closer_os.Outbox.Types.{
  Uuid, Text, JobKind, Outcome, invariant_error, deduplication_key_format, worker_id_format,
  resource_type_format, priority_bounds, max_attempts_positive, schema_version_bounds,
  version_positive, global_kind_with_tenant, tenant_kind_without_tenant, is_global_kind,
}

-- `[a-z]`
abbrev pub is_lower : ℕ → Bool
is_lower c = leb b'a' c && leb c b'z'

-- `[a-z0-9_]`
abbrev pub is_word : ℕ → Bool
is_word c = is_lower c || (leb b'0' c && leb c b'9') || c == b'_'

-- `[a-z0-9_-]`
abbrev pub is_key : ℕ → Bool
is_key c = is_word c || c == b'-'

-- `^[a-z][a-z0-9_-]{0,127}$`, matched in full
unfoldable pub deduplication_key_pattern : Text → Bool
deduplication_key_pattern [] = false
deduplication_key_pattern (c ∷ cs) = is_lower c && all is_key cs && leb (length cs) 127

-- `^[a-z][a-z0-9_-]{0,63}$`, matched in full
unfoldable pub worker_id_pattern : Text → Bool
worker_id_pattern [] = false
worker_id_pattern (c ∷ cs) = is_lower c && all is_key cs && leb (length cs) 63

-- `^[a-z][a-z0-9_]{0,63}$`, matched in full
unfoldable pub resource_type_pattern : Text → Bool
resource_type_pattern [] = false
resource_type_pattern (c ∷ cs) = is_lower c && all is_word cs && leb (length cs) 63

abbrev pub max_priority : ℕ
max_priority = 1000

abbrev pub default_priority : ℕ
default_priority = 100

abbrev pub default_max_attempts : ℕ
default_max_attempts = 10

abbrev pub min_schema_version : ℕ
min_schema_version = 1

abbrev pub max_schema_version : ℕ
max_schema_version = 1000

unfoldable pub validate_deduplication_key : Text → Outcome Unit
validate_deduplication_key value =
    guard (deduplication_key_pattern value) (invariant_error deduplication_key_format)

unfoldable pub validate_worker_id : Text → Outcome Unit
validate_worker_id value = guard (worker_id_pattern value) (invariant_error worker_id_format)

unfoldable pub validate_resource_type : Text → Outcome Unit
validate_resource_type value =
    guard (resource_type_pattern value) (invariant_error resource_type_format)

-- `_MIN_PRIORITY` is 0.
unfoldable pub validate_priority : ℕ → Outcome Unit
validate_priority value =
    guard (leb 0 value && leb value max_priority) (invariant_error priority_bounds)

unfoldable pub validate_max_attempts : ℕ → Outcome Unit
validate_max_attempts value = guard (leb 1 value) (invariant_error max_attempts_positive)

unfoldable pub validate_schema_version : ℕ → Outcome Unit
validate_schema_version value =
    guard (leb min_schema_version value && leb value max_schema_version)
      (invariant_error schema_version_bounds)

unfoldable pub validate_version : ℕ → Outcome Unit
validate_version value = guard (leb 1 value) (invariant_error version_positive)

unfoldable pub validate_job_tenant_scope : JobKind → Option Uuid → Outcome Unit
validate_job_tenant_scope job_kind none =
    if is_global_kind job_kind then ok tt else err (invariant_error tenant_kind_without_tenant)
validate_job_tenant_scope job_kind (some tenant_id) =
    if is_global_kind job_kind then err (invariant_error global_kind_with_tenant) else ok tt
