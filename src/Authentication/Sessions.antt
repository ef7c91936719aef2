-- ===== src/Authentication/Sessions.antt =====
-- Sessions and their timeouts
-- (packages/backend/src/closeros/domain/authentication_session.py and authentication_timeout.py).
use closer_os.Prelude.{
  ℕ, ◌+◌, Bool, false, not, ◌||◌, ◌&&◌, Option, none, some, ltb, leb, ok, guard, ◌>>◌, Uuid,
  Datetime, timedelta_seconds,
}
use closer_os.Authentication.Types.{
  AssuranceLevel, SessionStage, pending_mfa, authenticated, TokenHash, Outcome, value_error,
  pending_mfa_combination, authenticated_mfa_state, last_seen_before_created,
  expires_not_after_created, last_seen_after_expires, revoked_before_created, is_multi_factor,
  validate_positive_timedelta,
}

pub record Session : Type 0 where
  pub id : Uuid
  pub user_id : Uuid
  pub token_hash : TokenHash
  pub stage : SessionStage
  pub assurance_level : AssuranceLevel
  pub mfa_completed : Bool
  pub created_at : Datetime
  pub last_seen_at : Datetime
  pub expires_at : Datetime
  pub revoked_at : Option Datetime

-- The tests on the stage, the assurance level and `mfa_completed`, in the order of the source.
unfoldable pub check_mfa_state : SessionStage → AssuranceLevel → Bool → Outcome (Unit {0})
check_mfa_state pending_mfa level completed =
    guard (not (is_multi_factor level || completed)) (value_error pending_mfa_combination)
check_mfa_state authenticated level completed = do
  guard (not (not (is_multi_factor level) && completed)) (value_error authenticated_mfa_state)
  guard (not (is_multi_factor level && not completed)) (value_error authenticated_mfa_state)

-- `moment is not None and moment < created_at`
abbrev pub before_creation : Option Datetime → Datetime → Bool
before_creation none created_at = false
before_creation (some moment) created_at = ltb moment created_at

-- `AuthenticationSession(...)`: the record, if `__post_init__` accepts it.
unfoldable pub new_session : Session → Outcome Session
new_session session = do
  check_mfa_state session.stage session.assurance_level session.mfa_completed
  guard (not (ltb session.last_seen_at session.created_at)) (value_error last_seen_before_created)
  guard (not (leb session.expires_at session.created_at)) (value_error expires_not_after_created)
  guard (not (ltb session.expires_at session.last_seen_at)) (value_error last_seen_after_expires)
  guard (not (before_creation session.revoked_at session.created_at))
      (value_error revoked_before_created)
  ok session

pub record SessionTimeoutPolicy : Type 0 where
  pub authenticated_idle_timeout : ℕ
  pub authenticated_absolute_timeout : ℕ
  pub pending_mfa_timeout : ℕ

-- `AuthenticationSessionTimeoutPolicy(...)`
unfoldable pub new_session_timeout_policy : SessionTimeoutPolicy → Outcome SessionTimeoutPolicy
new_session_timeout_policy policy = do
  validate_positive_timedelta policy.authenticated_idle_timeout
  validate_positive_timedelta policy.authenticated_absolute_timeout
  validate_positive_timedelta policy.pending_mfa_timeout
  ok policy

-- `AUTHENTICATION_SESSION_TIMEOUT_POLICY`
abbrev pub session_timeout_policy : SessionTimeoutPolicy
session_timeout_policy = record {
  authenticated_idle_timeout = timedelta_seconds 1800;
  authenticated_absolute_timeout = timedelta_seconds 43_200;
  pending_mfa_timeout = timedelta_seconds 300;
}

unfoldable pub calculate_session_absolute_expiry :
    SessionStage → (created_at : Datetime) → SessionTimeoutPolicy → Datetime
calculate_session_absolute_expiry pending_mfa created_at policy =
    created_at + policy.pending_mfa_timeout
calculate_session_absolute_expiry authenticated created_at policy =
    created_at + policy.authenticated_absolute_timeout

unfoldable pub calculate_session_idle_expiry :
    SessionStage → (last_seen_at : Datetime) → SessionTimeoutPolicy → Option Datetime
calculate_session_idle_expiry pending_mfa last_seen_at policy = none
calculate_session_idle_expiry authenticated last_seen_at policy =
    some (last_seen_at + policy.authenticated_idle_timeout)
