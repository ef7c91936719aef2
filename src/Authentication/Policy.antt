-- ===== src/Authentication/Policy.antt =====
-- The guards of packages/backend/src/closeros/domain/authentication_policy.py. A guard returns None
-- or raises: a result without a value.
pub mod Windows
use closer_os.Prelude.{
  Bool, true, false, not, ◌||◌, ◌&&◌, Option, none, some, List, [], ◌∷◌, ltb, leb, ◌==◌, is_some,
  if◌then◌else◌, ok, err, guard, ◌>>◌, Datetime,
}
use closer_os.Authentication.Types.{
  Role, owner, sales_head, compliance_admin, Membership, Outcome, mfa_required, token_unavailable,
  email_verification_required, session_unavailable, is_multi_factor,
}
use closer_os.Authentication.Sessions.{
  Session, SessionTimeoutPolicy, calculate_session_absolute_expiry, calculate_session_idle_expiry,
}
use closer_os.Authentication.Tokens.{OneTimeToken}

-- `role in _PRIVILEGED_MFA_ROLES`
abbrev pub is_privileged : Role → Bool
is_privileged owner = true
is_privileged sales_head = true
is_privileged compliance_admin = true
is_privileged _ = false

-- `not _PRIVILEGED_MFA_ROLES.isdisjoint(roles)`
unfoldable pub requires_mfa_for_roles : List Role → Bool
requires_mfa_for_roles [] = false
requires_mfa_for_roles (role ∷ roles) = is_privileged role || requires_mfa_for_roles roles

unfoldable pub require_privileged_mfa : Membership → Session → Outcome (Unit {0})
require_privileged_mfa membership session = do
  guard (membership.user_id == session.user_id) mfa_required
  if not (requires_mfa_for_roles membership.roles)
      then ok tt
      else guard (not (not (is_multi_factor session.assurance_level) || not session.mfa_completed))
          mfa_required

-- The guard reads the one field `email_verified_at` of the credential.
unfoldable pub require_verified_email : Option Datetime → Outcome (Unit {0})
require_verified_email email_verified_at =
    guard (is_some email_verified_at) email_verification_required

unfoldable pub require_usable_authentication_token : OneTimeToken → Datetime → Outcome (Unit {0})
require_usable_authentication_token token now =
    if (ltb now token.created_at
      || leb token.expires_at now
      || is_some token.consumed_at
      || is_some token.revoked_at)
    then err token_unavailable
    else ok tt

-- `expiry is not None and now >= expiry`
abbrev pub idle_over : Option Datetime → Datetime → Bool
idle_over none now = false
idle_over (some expiry) now = leb expiry now

unfoldable pub require_usable_authentication_session :
    Session → Datetime → SessionTimeoutPolicy → Outcome (Unit {0})
require_usable_authentication_session session now policy =
    let absolute_expiry =
      calculate_session_absolute_expiry session.stage session.created_at policy in
    let idle_expiry = calculate_session_idle_expiry session.stage session.last_seen_at policy in
    if (ltb now session.created_at
      || ltb now session.last_seen_at
      || leb session.expires_at now
      || leb absolute_expiry now
      || idle_over idle_expiry now
      || is_some session.revoked_at)
    then err session_unavailable
    else ok tt
