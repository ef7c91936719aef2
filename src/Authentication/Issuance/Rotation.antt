-- ===== src/Authentication/Issuance/Rotation.antt =====
-- What packages/backend/src/closeros/application/authentication_issuance.py issues can be used, and
-- completing MFA replaces a session. `sha256` is hashlib's: a digest has 32 bytes.
use closer_os.Prelude.{
  ℕ, ◌+◌, ◌≤◌, ◌<◌, ◌≡◌, ◌≢◌, sym, subst, min, ◌↔◌, true, some, List, length, ok, err, arith, Uuid,
  Text, Datetime,
}
use closer_os.Authentication.Types.{
  AssuranceLevel, multi_factor, TokenPurpose, email_verification, password_reset, pending_mfa,
  Membership, mfa_required, session_unavailable, new_token_hash, validate_positive_timedelta,
}
use closer_os.Authentication.Sessions.{
  Session, new_session, check_mfa_state, SessionTimeoutPolicy, new_session_timeout_policy,
  calculate_session_absolute_expiry, calculate_session_idle_expiry,
}
use closer_os.Authentication.Tokens.{
  new_one_time_token, OneTimeTokenTimeoutPolicy, new_one_time_token_timeout_policy,
  calculate_one_time_token_expiry,
}
use closer_os.Authentication.Policy.{
  require_privileged_mfa, requires_mfa_for_roles, require_usable_authentication_token,
  require_usable_authentication_session,
}
use closer_os.Authentication.Policy.Windows.{
  Usable, require_usable_authentication_session-iff-Usable,
}
use closer_os.Authentication.Issuance.{
  IssuedSession, IssuedOneTimeToken, SessionRotation, hash_authentication_token,
  issue_pending_mfa_session, issue_authenticated_session, issue_authentication_one_time_token,
  complete_pending_mfa_and_rotate_session, pending_mfa_session, authenticated_session, fresh_token,
}

-- `timedelta` of a purpose
abbrev pub token_timeout : TokenPurpose → OneTimeTokenTimeoutPolicy → ℕ
token_timeout email_verification policy = policy.email_verification_timeout
token_timeout password_reset policy = policy.password_reset_timeout

-- What a rotation gains for a membership: MFA is refused to the old session before, the old session
-- is accepted at no time after, and the new one is accepted when MFA is completed, with privileges.
pub record Elevated (pending : Session) (completed_at now : Datetime)
    (policy : SessionTimeoutPolicy) (membership : Membership) (r : SessionRotation) : Type 0 where
  pub refused_before : require_privileged_mfa membership pending ≡ err mfa_required
  pub revoked :
      require_usable_authentication_session r.revoked_session now policy ≡ err session_unavailable
  pub accepted : require_usable_authentication_session r.issued.session completed_at policy ≡ ok tt
  pub privileged : require_privileged_mfa membership r.issued.session ≡ ok tt

module _ (sha256 : Text → List ℕ) (digest_length : (t : Text) → length (sha256 t) ≡ 32) where
  -- With positive timeouts, a session that waits for MFA is always issued. It is accepted exactly
  -- from its issue on, before the MFA timeout.
  issue_pending_mfa_session-window :
      (session_id user_id : Uuid) (issued_at now : Datetime) (raw_token : Text)
      (policy : SessionTimeoutPolicy)
      → new_session_timeout_policy policy ≡ ok policy
      → (issued : IssuedSession) × (issue_pending_mfa_session sha256 session_id user_id issued_at
            raw_token policy
          ≡ ok issued)
        × ((require_usable_authentication_session issued.session now policy ≡ ok tt)
            ↔ ((issued_at ≤ now) × (now < issued_at + policy.pending_mfa_timeout)))
  unfolding issue_pending_mfa_session hash_authentication_token new_token_hash new_session
      check_mfa_state calculate_session_absolute_expiry calculate_session_idle_expiry
      new_session_timeout_policy validate_positive_timedelta require_usable_authentication_session
  issue_pending_mfa_session-window session_id user_id issued_at now raw_token policy p = (
    record {
      session =
          pending_mfa_session session_id user_id issued_at (record { digest = sha256 raw_token })
            policy;
      raw_token = raw_token;
    },
    ground (arith, digest_length raw_token),
    ground arith,
  )

  -- With positive timeouts, an authenticated session is always issued. It is accepted exactly from
  -- its issue on, before the earlier of the absolute and the idle timeout.
  pub issue_authenticated_session-window :
      (session_id user_id : Uuid) (level : AssuranceLevel) (issued_at now : Datetime)
      (raw_token : Text) (policy : SessionTimeoutPolicy)
      → new_session_timeout_policy policy ≡ ok policy
      → (issued : IssuedSession) × (issue_authenticated_session sha256 session_id user_id level
            issued_at raw_token policy
          ≡ ok issued)
        × ((require_usable_authentication_session issued.session now policy ≡ ok tt) ↔ (
            (issued_at ≤ now)
            × (now
                < issued_at
                  + min policy.authenticated_absolute_timeout policy.authenticated_idle_timeout)))
  unfolding issue_authenticated_session hash_authentication_token new_token_hash new_session
      check_mfa_state calculate_session_absolute_expiry calculate_session_idle_expiry
      new_session_timeout_policy validate_positive_timedelta require_usable_authentication_session
  issue_authenticated_session-window session_id user_id level issued_at now raw_token policy p = (
    record {
      session =
          authenticated_session session_id user_id level issued_at
            (record { digest = sha256 raw_token }) policy;
      raw_token = raw_token;
    },
    ground (arith, digest_length raw_token),
    ground arith,
  )

  -- With positive timeouts, a one-time token is always issued. It is accepted exactly from its
  -- issue on, before the timeout of its purpose.
  pub issue_authentication_one_time_token-window :
      (token_id user_id : Uuid) (purpose : TokenPurpose) (issued_at now : Datetime)
      (raw_token : Text) (policy : OneTimeTokenTimeoutPolicy)
      → new_one_time_token_timeout_policy policy ≡ ok policy
      → (issued : IssuedOneTimeToken) × (issue_authentication_one_time_token sha256 token_id user_id
            purpose issued_at raw_token policy
          ≡ ok issued)
        × ((require_usable_authentication_token issued.token now ≡ ok tt)
            ↔ ((issued_at ≤ now) × (now < issued_at + token_timeout purpose policy)))
  unfolding issue_authentication_one_time_token hash_authentication_token new_token_hash
      new_one_time_token calculate_one_time_token_expiry new_one_time_token_timeout_policy
      validate_positive_timedelta require_usable_authentication_token
  issue_authentication_one_time_token-window token_id user_id purpose issued_at now raw policy p = (
    record {
      token =
          fresh_token token_id user_id purpose issued_at (record { digest = sha256 raw }) policy;
      raw_token = raw;
    },
    ground (arith, digest_length raw),
    ground arith,
  )

  -- What a completed rotation leaves: the old session revoked, and a new one of the same user with
  -- multi-factor assurance.
  abbrev pub rotated : Session → Uuid → Datetime → Text → SessionTimeoutPolicy → SessionRotation
  rotated pending new_id completed_at raw_token policy = record {
    revoked_session = record pending { revoked_at = some completed_at };
    issued = record {
      session =
          authenticated_session new_id pending.user_id multi_factor completed_at
            (record { digest = sha256 raw_token }) policy;
      raw_token = raw_token;
    };
  }

  pub rotation-ok :
      (pending : Session) (new_id : Uuid) (completed_at : Datetime) (raw_token : Text)
      (policy : SessionTimeoutPolicy)
      → new_session pending ≡ ok pending
      → new_session_timeout_policy policy ≡ ok policy
      → pending.stage ≡ pending_mfa
      → new_id ≢ pending.id
      → require_usable_authentication_session pending completed_at policy ≡ ok tt
      → complete_pending_mfa_and_rotate_session sha256 pending new_id completed_at raw_token policy
        ≡ ok (rotated pending new_id completed_at raw_token policy)
  unfolding complete_pending_mfa_and_rotate_session issue_authenticated_session
      hash_authentication_token new_token_hash new_session calculate_session_absolute_expiry
      check_mfa_state new_session_timeout_policy validate_positive_timedelta
      require_usable_authentication_session
  rotation-ok pending new_id completed_at raw_token policy v p s d u =
      ground (arith, digest_length raw_token)

  rotation-needs :
      (pending : Session) (new_id : Uuid) (completed_at : Datetime) (raw_token : Text)
      (policy : SessionTimeoutPolicy) (r : SessionRotation)
      → complete_pending_mfa_and_rotate_session sha256 pending new_id completed_at raw_token policy
        ≡ ok r
      → (pending.stage ≡ pending_mfa)
        × (new_id ≢ pending.id)
        × (require_usable_authentication_session pending completed_at policy ≡ ok tt)
  unfolding complete_pending_mfa_and_rotate_session
  rotation-needs pending new_id completed_at raw_token policy r h = ground arith

  -- The result of a rotation that returns.
  rotation-rotated :
      (pending : Session) (new_id : Uuid) (completed_at : Datetime) (raw_token : Text)
      (policy : SessionTimeoutPolicy) (r : SessionRotation)
      → new_session pending ≡ ok pending
      → new_session_timeout_policy policy ≡ ok policy
      → complete_pending_mfa_and_rotate_session sha256 pending new_id completed_at raw_token policy
        ≡ ok r
      → r ≡ rotated pending new_id completed_at raw_token policy
  rotation-rotated pending new_id completed_at raw_token policy r v p h =
      let (s, d, u) = rotation-needs pending new_id completed_at raw_token policy r h in
      let e = rotation-ok pending new_id completed_at raw_token policy v p s d u in cc

  -- What the guards say of the two sessions of a rotation.
  rotated-guards :
      (pending : Session) (new_id : Uuid) (completed_at now : Datetime) (raw_token : Text)
      (policy : SessionTimeoutPolicy) (membership : Membership)
      → new_session pending ≡ ok pending
      → new_session_timeout_policy policy ≡ ok policy
      → membership.user_id ≡ pending.user_id
      → requires_mfa_for_roles membership.roles ≡ true
      → pending.stage ≡ pending_mfa
      → Elevated pending completed_at now policy membership
          (rotated pending new_id completed_at raw_token policy)
  unfolding require_privileged_mfa require_usable_authentication_session new_session check_mfa_state
      calculate_session_absolute_expiry calculate_session_idle_expiry new_session_timeout_policy
      validate_positive_timedelta
  rotated-guards pending new_id completed_at now raw_token policy membership v p u q s =
      ground arith

  -- For a session that `__post_init__` accepts and positive timeouts, completing MFA returns exactly
  -- when the session waits for MFA, the new id differs from its id, and it is accepted at the time.
  pub rotation_iff :
      (pending : Session) (new_id : Uuid) (completed_at : Datetime) (raw_token : Text)
      (policy : SessionTimeoutPolicy)
      → new_session pending ≡ ok pending
      → new_session_timeout_policy policy ≡ ok policy
      → ((r : SessionRotation) × (complete_pending_mfa_and_rotate_session sha256 pending new_id
              completed_at raw_token policy
            ≡ ok r))
        ↔ ((pending.stage ≡ pending_mfa)
            × (new_id ≢ pending.id)
            × Usable pending completed_at policy)
  rotation_iff pending new_id completed_at raw_token policy v p = (
    λ (r, h).
        let (s, d, u) = rotation-needs pending new_id completed_at raw_token policy r h in
        (s, d, (require_usable_authentication_session-iff-Usable pending completed_at policy).0 u),
    λ (s, d, u). (
      rotated pending new_id completed_at raw_token policy,
      rotation-ok pending new_id completed_at raw_token policy v p s d
          ((require_usable_authentication_session-iff-Usable pending completed_at policy).1 u),
    ),
  )

  -- For a session that `__post_init__` accepts, positive timeouts and a membership of its user with
  -- a privileged role: when completing MFA returns, the guard for privileges refuses the old session,
  -- which is accepted at no time afterwards, and the new session is accepted at once, with privileges.
  pub rotation_elevates :
      (pending : Session) (new_id : Uuid) (completed_at now : Datetime) (raw_token : Text)
      (policy : SessionTimeoutPolicy) (membership : Membership) (r : SessionRotation)
      → new_session pending ≡ ok pending
      → new_session_timeout_policy policy ≡ ok policy
      → membership.user_id ≡ pending.user_id
      → requires_mfa_for_roles membership.roles ≡ true
      → complete_pending_mfa_and_rotate_session sha256 pending new_id completed_at raw_token policy
        ≡ ok r
      → Elevated pending completed_at now policy membership r
  rotation_elevates pending new_id completed_at now raw_token policy membership r v p u q h =
      let (s, d, a) = rotation-needs pending new_id completed_at raw_token policy r h in
      subst (Elevated pending completed_at now policy membership)
        (sym (rotation-rotated pending new_id completed_at raw_token policy r v p h))
        (rotated-guards pending new_id completed_at now raw_token policy membership v p u q s)
