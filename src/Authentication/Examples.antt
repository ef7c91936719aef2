-- ===== src/Authentication/Examples.antt =====
-- Sessions and tokens on which the theorems are applied
-- (packages/backend/src/closeros/application/authentication_issuance.py).
use closer_os.Prelude.{
  ℕ, ◌+◌, ◌≤◌, ◌<◌, ◌≡◌, ◌≢◌, refl, min, ◌⊎◌, ◌↔◌, false, true, none, List, [], ◌∷◌, All, length,
  ok, err, arith, Text,
}
use closer_os.Authentication.Types.{
  single_factor, multi_factor, pending_mfa, authenticated, password_reset, owner, analyst,
  Membership, MembershipStatus, session_unavailable, validate_positive_timedelta,
}
use closer_os.Authentication.Sessions.{
  Session, new_session, check_mfa_state, session_timeout_policy, new_session_timeout_policy,
  calculate_session_absolute_expiry, calculate_session_idle_expiry,
}
use closer_os.Authentication.Tokens.{
  OneTimeToken, calculate_one_time_token_expiry, one_time_token_timeout_policy,
  new_one_time_token_timeout_policy,
}
use closer_os.Authentication.Policy.{
  is_privileged, require_privileged_mfa, requires_mfa_for_roles,
  require_usable_authentication_token, require_usable_authentication_session,
}
use closer_os.Authentication.Policy.Windows.{
  Usable, require_usable_authentication_session-iff-Usable, refused_session_stays_refused,
  require_usable_authentication_token_iff, require_privileged_mfa_iff,
}
use closer_os.Authentication.Issuance.{
  IssuedSession, IssuedOneTimeToken, SessionRotation, pending_mfa_session, fresh_token,
  issue_authenticated_session, issue_authentication_one_time_token,
  complete_pending_mfa_and_rotate_session,
}
use closer_os.Authentication.Issuance.Rotation.{
  Elevated, issue_authenticated_session-window, issue_authentication_one_time_token-window,
  rotation_iff, rotation_elevates, rotated, token_timeout, rotation-ok,
}
use closer_os.Authentication.Consumption.{add, consume_if_usable, revoke, update_required}
use closer_os.Authentication.Consumption.Uses.{
  TokenCall, adds, consumes_if_usable, revokes, call, uses_of, uses, consume_if_usable_iff,
  token_used_once,
}

-- A hash of the right length.
abbrev digest : Text → List ℕ
digest t =
    1 ∷ 2 ∷ 3 ∷ 4 ∷ 5 ∷ 6 ∷ 7 ∷ 8 ∷ 1 ∷ 2 ∷ 3 ∷ 4 ∷ 5 ∷ 6 ∷ 7 ∷ 8 ∷ 1 ∷ 2 ∷ 3 ∷ 4 ∷ 5 ∷ 6 ∷ 7 ∷ 8
    ∷ 1 ∷ 2 ∷ 3 ∷ 4 ∷ 5 ∷ 6 ∷ 7 ∷ 8 ∷ []

digest-32 : (t : Text) → length (digest t) ≡ 32
digest-32 t = refl

abbrev token : Text
token = b't' ∷ []

abbrev waiting : Session
waiting = pending_mfa_session 4 9 1000 (record { digest = digest token }) session_timeout_policy

abbrev membership : Membership
membership = record {
  id = 1;
  tenant_id = 2;
  user_id = 9;
  roles = analyst ∷ owner ∷ [];
  status = MembershipStatus.active;
}

policy-valid : new_session_timeout_policy session_timeout_policy ≡ ok session_timeout_policy
unfolding new_session_timeout_policy validate_positive_timedelta
policy-valid = refl

token_policy-valid :
    new_one_time_token_timeout_policy one_time_token_timeout_policy
    ≡ ok one_time_token_timeout_policy
unfolding new_one_time_token_timeout_policy validate_positive_timedelta
token_policy-valid = refl

waiting-valid : new_session waiting ≡ ok waiting
unfolding new_session check_mfa_state calculate_session_absolute_expiry
waiting-valid = refl

waiting-accepted : require_usable_authentication_session waiting 2000 session_timeout_policy ≡ ok tt
unfolding require_usable_authentication_session calculate_session_absolute_expiry
    calculate_session_idle_expiry
waiting-accepted = refl

waiting-late :
    require_usable_authentication_session waiting 300_001_000 session_timeout_policy
    ≡ err session_unavailable
unfolding require_usable_authentication_session calculate_session_absolute_expiry
    calculate_session_idle_expiry
waiting-late = refl

privileged : requires_mfa_for_roles membership.roles ≡ true
unfolding requires_mfa_for_roles
privileged = refl

require_usable_authentication_session-iff-Usable_example :
    (require_usable_authentication_session waiting 2000 session_timeout_policy ≡ ok tt)
    ↔ Usable waiting 2000 session_timeout_policy
require_usable_authentication_session-iff-Usable_example =
    require_usable_authentication_session-iff-Usable waiting 2000 session_timeout_policy

refused_session_stays_refused_example :
    require_usable_authentication_session waiting 400_000_000 session_timeout_policy
    ≡ err session_unavailable
refused_session_stays_refused_example =
    refused_session_stays_refused waiting 300_001_000 400_000_000 session_timeout_policy
      session_unavailable (omega arith) (omega arith) (omega arith) waiting-late

abbrev reset_token : OneTimeToken
reset_token =
    fresh_token 3 9 password_reset 1000 (record { digest = digest token })
      one_time_token_timeout_policy

require_usable_authentication_token_iff_example :
    (require_usable_authentication_token reset_token 2000 ≡ ok tt) ↔ (
      (1000 ≤ 2000)
      × (2000 < reset_token.expires_at)
      × (reset_token.consumed_at ≡ none)
      × (reset_token.revoked_at ≡ none))
require_usable_authentication_token_iff_example =
    require_usable_authentication_token_iff reset_token 2000

require_privileged_mfa_iff_example : (require_privileged_mfa membership waiting ≡ ok tt) ↔ (
    (membership.user_id ≡ waiting.user_id)
    × (All (λ r. is_privileged r ≡ false) membership.roles
        ⊎ ((waiting.stage ≡ authenticated) × (waiting.assurance_level ≡ multi_factor))))
require_privileged_mfa_iff_example = require_privileged_mfa_iff membership waiting waiting-valid

issue_authenticated_session-window_example :
    (issued : IssuedSession) × (issue_authenticated_session digest 5 9 single_factor 1000 token
        session_timeout_policy
      ≡ ok issued)
    × ((require_usable_authentication_session issued.session 2000 session_timeout_policy ≡ ok tt)
        ↔ ((1000 ≤ 2000)
            × (2000
                < 1000
                  + min session_timeout_policy.authenticated_absolute_timeout
                      session_timeout_policy.authenticated_idle_timeout)))
issue_authenticated_session-window_example =
    issue_authenticated_session-window digest digest-32 5 9 single_factor 1000 2000 token
      session_timeout_policy policy-valid

issue_authentication_one_time_token-window_example :
    (issued : IssuedOneTimeToken) × (issue_authentication_one_time_token digest 3 9 password_reset
        1000 token one_time_token_timeout_policy
      ≡ ok issued)
    × ((require_usable_authentication_token issued.token 2000 ≡ ok tt) ↔ (
        (1000 ≤ 2000) × (2000 < 1000 + token_timeout password_reset one_time_token_timeout_policy)))
issue_authentication_one_time_token-window_example =
    issue_authentication_one_time_token-window digest digest-32 3 9 password_reset 1000 2000 token
      one_time_token_timeout_policy token_policy-valid

rotation_iff_example :
    ((r : SessionRotation) × (complete_pending_mfa_and_rotate_session digest waiting 5 2000 token
          session_timeout_policy
        ≡ ok r))
    ↔ ((waiting.stage ≡ pending_mfa)
        × (5 ≢ waiting.id)
        × Usable waiting 2000 session_timeout_policy)
rotation_iff_example =
    rotation_iff digest digest-32 waiting 5 2000 token session_timeout_policy waiting-valid
      policy-valid

abbrev completed : SessionRotation
completed = rotated digest digest-32 waiting 5 2000 token session_timeout_policy

completes :
    complete_pending_mfa_and_rotate_session digest waiting 5 2000 token session_timeout_policy
    ≡ ok completed
completes =
    rotation-ok digest digest-32 waiting 5 2000 token session_timeout_policy waiting-valid
      policy-valid refl (ground arith) waiting-accepted

rotation_elevates_example : Elevated waiting 2000 3000 session_timeout_policy membership completed
rotation_elevates_example =
    rotation_elevates digest digest-32 waiting 5 2000 3000 token session_timeout_policy membership
      completed waiting-valid policy-valid refl privileged completes

abbrev calls : List TokenCall
calls =
    adds true reset_token
    ∷ consumes_if_usable 3 2000 2000
    ∷ revokes 7 2500
    ∷ consumes_if_usable 3 3000 3000
    ∷ []

abbrev stored : List OneTimeToken
stored = record reset_token { id = 7 } ∷ reset_token ∷ []

token_used_once_example : uses 3 calls stored ≤ 1
token_used_once_example = token_used_once 3 calls stored (ground arith)

-- The bound is reached: the first consumption returns true, the second false.
used : uses 3 calls stored ≡ 1
unfolding uses uses_of call add consume_if_usable revoke update_required
    calculate_one_time_token_expiry
used = refl

consume_if_usable_iff_example :
    ((consume_if_usable 3 2000 2000 stored).0 ≡ true)
    ↔ (require_usable_authentication_token reset_token 2000 ≡ ok tt)
consume_if_usable_iff_example =
    consume_if_usable_iff 3 2000 2000 reset_token (record reset_token { id = 7 } ∷ []) [] refl
      (ground arith) (ground arith)
