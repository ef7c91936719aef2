-- ===== src/Authentication/Tokens.antt =====
-- One-time tokens and their timeouts
-- (packages/backend/src/closeros/domain/authentication_token.py and
-- authentication_token_timeout.py).
use closer_os.Prelude.{
  ℕ, ◌+◌, Bool, false, not, Option, none, some, ltb, leb, ok, guard, ◌>>◌, Uuid, Datetime,
  timedelta_seconds,
}
use closer_os.Authentication.Types.{
  TokenPurpose, email_verification, password_reset, TokenHash, Outcome, value_error,
  expires_not_after_created, consumed_before_created, consumed_after_expires,
  revoked_before_created, validate_positive_timedelta,
}
use closer_os.Authentication.Sessions.{before_creation}

pub record OneTimeToken : Type 0 where
  pub id : Uuid
  pub user_id : Uuid
  pub purpose : TokenPurpose
  pub token_hash : TokenHash
  pub created_at : Datetime
  pub expires_at : Datetime
  pub consumed_at : Option Datetime
  pub revoked_at : Option Datetime

-- `consumed_at is not None and consumed_at > expires_at`
abbrev pub after_expiry : Option Datetime → Datetime → Bool
after_expiry none expires_at = false
after_expiry (some moment) expires_at = ltb expires_at moment

-- `AuthenticationOneTimeToken(...)`: the record, if `__post_init__` accepts it.
unfoldable pub new_one_time_token : OneTimeToken → Outcome OneTimeToken
new_one_time_token token = do
  guard (not (leb token.expires_at token.created_at)) (value_error expires_not_after_created)
  guard (not (before_creation token.consumed_at token.created_at))
      (value_error consumed_before_created)
  guard (not (after_expiry token.consumed_at token.expires_at)) (value_error consumed_after_expires)
  guard (not (before_creation token.revoked_at token.created_at))
      (value_error revoked_before_created)
  ok token

pub record OneTimeTokenTimeoutPolicy : Type 0 where
  pub email_verification_timeout : ℕ
  pub password_reset_timeout : ℕ

-- `AuthenticationOneTimeTokenTimeoutPolicy(...)`
unfoldable pub new_one_time_token_timeout_policy :
    OneTimeTokenTimeoutPolicy → Outcome OneTimeTokenTimeoutPolicy
new_one_time_token_timeout_policy policy = do
  validate_positive_timedelta policy.email_verification_timeout
  validate_positive_timedelta policy.password_reset_timeout
  ok policy

-- `AUTHENTICATION_ONE_TIME_TOKEN_TIMEOUT_POLICY`
abbrev pub one_time_token_timeout_policy : OneTimeTokenTimeoutPolicy
one_time_token_timeout_policy = record {
  email_verification_timeout = timedelta_seconds 86_400;
  password_reset_timeout = timedelta_seconds 1800;
}

unfoldable pub calculate_one_time_token_expiry :
    TokenPurpose → (created_at : Datetime) → OneTimeTokenTimeoutPolicy → Datetime
calculate_one_time_token_expiry email_verification created_at policy =
    created_at + policy.email_verification_timeout
calculate_one_time_token_expiry password_reset created_at policy =
    created_at + policy.password_reset_timeout
