-- ===== src/Authentication/Policy/Windows.antt =====
-- When the guards of packages/backend/src/closeros/domain/authentication_policy.py accept a session,
-- a token or a membership.
use closer_os.Prelude.{
  ◌+◌, ◌≤◌, ◌<◌, ◌≡◌, min, ◌⊎◌, ◌↔◌, false, none, List, [], ◌∷◌, All, ok, err, arith, Datetime,
}
use closer_os.Authentication.Types.{
  SessionStage, pending_mfa, authenticated, multi_factor, Role, Membership, AuthenticationError,
  session_unavailable,
}
use closer_os.Authentication.Sessions.{
  Session, new_session, check_mfa_state, SessionTimeoutPolicy, calculate_session_absolute_expiry,
  calculate_session_idle_expiry,
}
use closer_os.Authentication.Tokens.{OneTimeToken}
use closer_os.Authentication.Policy.{
  is_privileged, requires_mfa_for_roles, require_privileged_mfa,
  require_usable_authentication_token, require_usable_authentication_session,
}

-- How long a session lasts by its stage, seen from its creation and its last request.
abbrev pub stage_deadline : SessionStage → Datetime → Datetime → SessionTimeoutPolicy → Datetime
stage_deadline pending_mfa created_at last_seen_at policy = created_at + policy.pending_mfa_timeout
stage_deadline authenticated created_at last_seen_at policy =
    min (created_at + policy.authenticated_absolute_timeout)
      (last_seen_at + policy.authenticated_idle_timeout)

-- The least of the limits of a session.
abbrev pub session_deadline : Session → SessionTimeoutPolicy → Datetime
session_deadline session policy =
    min session.expires_at
      (stage_deadline session.stage session.created_at session.last_seen_at policy)

pub record Usable (session : Session) (now : Datetime) (policy : SessionTimeoutPolicy)
    : Type 0 where
  pub created : session.created_at ≤ now
  pub seen : session.last_seen_at ≤ now
  pub running : now < session_deadline session policy
  pub not_revoked : session.revoked_at ≡ none

-- A session is accepted exactly from its creation and its last request on, before the least of its
-- limits (its own expiry, and by its stage the MFA timeout, or the absolute and the idle timeout),
-- as long as it is not revoked.
pub require_usable_authentication_session-iff-Usable :
    (session : Session) (now : Datetime) (policy : SessionTimeoutPolicy)
    → (require_usable_authentication_session session now policy ≡ ok tt) ↔ Usable session now policy
unfolding require_usable_authentication_session calculate_session_absolute_expiry
    calculate_session_idle_expiry
require_usable_authentication_session-iff-Usable session now policy = ground arith

-- A session that is refused after its last request stays refused: at no later time is it accepted.
pub refused_session_stays_refused :
    (session : Session) (now later : Datetime) (policy : SessionTimeoutPolicy)
    (e : AuthenticationError)
    → now ≤ later
    → session.created_at ≤ now
    → session.last_seen_at ≤ now
    → require_usable_authentication_session session now policy ≡ err e
    → require_usable_authentication_session session later policy ≡ err session_unavailable
unfolding require_usable_authentication_session calculate_session_absolute_expiry
    calculate_session_idle_expiry
refused_session_stays_refused session now later policy e o c s h = ground arith

-- A token is accepted exactly from its creation on, before its expiry, as long as it is neither
-- consumed nor revoked.
pub require_usable_authentication_token_iff :
    (token : OneTimeToken) (now : Datetime)
    → (require_usable_authentication_token token now ≡ ok tt) ↔ (
        (token.created_at ≤ now)
        × (now < token.expires_at)
        × (token.consumed_at ≡ none)
        × (token.revoked_at ≡ none))
unfolding require_usable_authentication_token
require_usable_authentication_token_iff token now = ground arith

requires_mfa-cases :
    (roles : List Role)
    → (requires_mfa_for_roles roles ≡ false) ↔ All (λ r. is_privileged r ≡ false) roles
unfolding requires_mfa_for_roles
requires_mfa-cases [] = ground arith
requires_mfa-cases (r ∷ rs) = ground (arith, requires_mfa-cases rs)

-- The guard accepts a membership with a session that `__post_init__` accepts exactly when both
-- belong to the same user and either no role of the membership is privileged or the session is an
-- authenticated one with multi-factor assurance.
pub require_privileged_mfa_iff :
    (membership : Membership) (session : Session)
    → new_session session ≡ ok session
    → (require_privileged_mfa membership session ≡ ok tt) ↔ (
        (membership.user_id ≡ session.user_id)
        × (All (λ r. is_privileged r ≡ false) membership.roles
            ⊎ ((session.stage ≡ authenticated) × (session.assurance_level ≡ multi_factor))))
unfolding require_privileged_mfa new_session check_mfa_state
require_privileged_mfa_iff membership session h =
    ground (arith, requires_mfa-cases membership.roles)
