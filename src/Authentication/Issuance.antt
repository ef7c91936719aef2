-- ===== src/Authentication/Issuance.antt =====
-- packages/backend/src/closeros/application/authentication_issuance.py and the hash of
-- packages/backend/src/closeros/security/authentication_tokens.py. `sha256` is hashlib's. The token
-- factory is called once in each function: its result is the argument `raw_token`, the text of the
-- token that it returns.
pub mod Rotation
use closer_os.Prelude.{
  ℕ, Bool, true, false, not, Option, none, some, List, ◌==◌, ok, guard, ◌>>=◌, ◌>>◌, Uuid, Text,
  Datetime,
}
use closer_os.Authentication.Types.{
  AssuranceLevel, single_factor, multi_factor, SessionStage, pending_mfa, authenticated,
  TokenPurpose, TokenHash, new_token_hash, Outcome, session_transition_unavailable, is_pending_mfa,
  is_multi_factor,
}
use closer_os.Authentication.Sessions.{
  Session, new_session, SessionTimeoutPolicy, calculate_session_absolute_expiry,
}
use closer_os.Authentication.Tokens.{
  OneTimeToken, new_one_time_token, OneTimeTokenTimeoutPolicy, calculate_one_time_token_expiry,
}
use closer_os.Authentication.Policy.{require_usable_authentication_session}

pub record IssuedSession : Type 0 where
  pub session : Session
  pub raw_token : Text

pub record IssuedOneTimeToken : Type 0 where
  pub token : OneTimeToken
  pub raw_token : Text

pub record SessionRotation : Type 0 where
  pub revoked_session : Session
  pub issued : IssuedSession

-- the session that `issue_pending_mfa_session` constructs
abbrev pub pending_mfa_session :
    (session_id user_id : Uuid) (issued_at : Datetime) (token_hash : TokenHash)
    → SessionTimeoutPolicy
    → Session
pending_mfa_session session_id user_id issued_at token_hash policy = record {
  id = session_id;
  user_id = user_id;
  token_hash = token_hash;
  stage = pending_mfa;
  assurance_level = single_factor;
  mfa_completed = false;
  created_at = issued_at;
  last_seen_at = issued_at;
  expires_at = calculate_session_absolute_expiry pending_mfa issued_at policy;
  revoked_at = none;
}

-- the session that `issue_authenticated_session` constructs
abbrev pub authenticated_session :
    (session_id user_id : Uuid)
    → AssuranceLevel
    → (issued_at : Datetime) (token_hash : TokenHash) → SessionTimeoutPolicy
    → Session
authenticated_session session_id user_id level issued_at token_hash policy = record {
  id = session_id;
  user_id = user_id;
  token_hash = token_hash;
  stage = authenticated;
  assurance_level = level;
  mfa_completed = is_multi_factor level;
  created_at = issued_at;
  last_seen_at = issued_at;
  expires_at = calculate_session_absolute_expiry authenticated issued_at policy;
  revoked_at = none;
}

-- the token that `issue_authentication_one_time_token` constructs
abbrev pub fresh_token :
    (token_id user_id : Uuid)
    → TokenPurpose
    → (issued_at : Datetime) (token_hash : TokenHash) → OneTimeTokenTimeoutPolicy
    → OneTimeToken
fresh_token token_id user_id purpose issued_at token_hash policy = record {
  id = token_id;
  user_id = user_id;
  purpose = purpose;
  token_hash = token_hash;
  created_at = issued_at;
  expires_at = calculate_one_time_token_expiry purpose issued_at policy;
  consumed_at = none;
  revoked_at = none;
}

module _ (sha256 : Text → List ℕ) where
  unfoldable pub hash_authentication_token : Text → Outcome TokenHash
  hash_authentication_token token = new_token_hash (record { digest = sha256 token })

  unfoldable pub issue_pending_mfa_session :
      (session_id user_id : Uuid) (issued_at : Datetime) (raw_token : Text)
      → SessionTimeoutPolicy
      → Outcome IssuedSession
  issue_pending_mfa_session session_id user_id issued_at raw_token policy = do
    token_hash ← hash_authentication_token raw_token
    session ← new_session (pending_mfa_session session_id user_id issued_at token_hash policy)
    ok (record { session = session; raw_token = raw_token })

  unfoldable pub issue_authenticated_session :
      (session_id user_id : Uuid)
      → AssuranceLevel
      → (issued_at : Datetime) (raw_token : Text) → SessionTimeoutPolicy
      → Outcome IssuedSession
  issue_authenticated_session session_id user_id level issued_at raw_token policy = do
    token_hash ← hash_authentication_token raw_token
    session ←
        new_session (authenticated_session session_id user_id level issued_at token_hash policy)
    ok (record { session = session; raw_token = raw_token })

  unfoldable pub issue_authentication_one_time_token :
      (token_id user_id : Uuid)
      → TokenPurpose
      → (issued_at : Datetime) (raw_token : Text) → OneTimeTokenTimeoutPolicy
      → Outcome IssuedOneTimeToken
  issue_authentication_one_time_token token_id user_id purpose issued_at raw_token policy = do
    token_hash ← hash_authentication_token raw_token
    token ← new_one_time_token (fresh_token token_id user_id purpose issued_at token_hash policy)
    ok (record { token = token; raw_token = raw_token })

  unfoldable pub complete_pending_mfa_and_rotate_session :
      (pending_session : Session) (new_session_id : Uuid) (completed_at : Datetime)
      (raw_token : Text)
      → SessionTimeoutPolicy
      → Outcome SessionRotation
  complete_pending_mfa_and_rotate_session pending_session new_id completed_at raw_token policy = do
    guard (is_pending_mfa pending_session.stage) session_transition_unavailable
    guard (not (new_id == pending_session.id)) session_transition_unavailable
    require_usable_authentication_session pending_session completed_at policy
    revoked_session ← new_session (record pending_session { revoked_at = some completed_at })
    issued ←
        issue_authenticated_session new_id pending_session.user_id multi_factor completed_at
          raw_token policy
    ok (record { revoked_session = revoked_session; issued = issued })
