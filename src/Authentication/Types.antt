-- ===== src/Authentication/Types.antt =====
-- The enumerations, the token hash and the errors of the authentication domain
-- (packages/backend/src/closeros/domain/authentication.py, identity.py and membership.py). The
-- values of the string enumerations are not modelled: the constructors stand for them.
use closer_os.Prelude.{
  ℕ, Bool, true, false, List, Result, ok, guard, length, leb, ◌==◌, not, Uuid, ◌>>◌, [], ◌∷◌,
}

pub data AssuranceLevel : Type 0 where
  single_factor multi_factor : AssuranceLevel

pub data TokenPurpose : Type 0 where
  email_verification password_reset : TokenPurpose

pub data SessionStage : Type 0 where
  pending_mfa authenticated : SessionStage

pub data Role : Type 0 where
  owner sales_head manager analyst compliance_admin : Role

pub data MembershipStatus : Type 0 where
  active suspended removed : MembershipStatus

-- The messages of the `ValueError`s.
pub data ValueReason : Type 0 where
  digest_length timeout_not_positive roles_empty : ValueReason
  pending_mfa_combination authenticated_mfa_state : ValueReason
  last_seen_before_created expires_not_after_created last_seen_after_expires : ValueReason
  revoked_before_created consumed_before_created consumed_after_expires : ValueReason

pub data AuthenticationError : Type 0 where
  value_error : ValueReason → AuthenticationError
  mfa_required email_verification_required token_unavailable : AuthenticationError
  session_unavailable session_transition_unavailable : AuthenticationError

abbrev pub Outcome : Type 0 → Type 0
Outcome A = Result AuthenticationError A

-- `stage is AuthenticationSessionStage.PENDING_MFA`
abbrev pub is_pending_mfa : SessionStage → Bool
is_pending_mfa pending_mfa = true
is_pending_mfa authenticated = false

-- `assurance_level is AuthenticationAssuranceLevel.MULTI_FACTOR`
abbrev pub is_multi_factor : AssuranceLevel → Bool
is_multi_factor multi_factor = true
is_multi_factor single_factor = false

-- The digest as the list of its bytes.
pub record TokenHash : Type 0 where
  pub digest : List ℕ

-- `AuthenticationTokenHash(digest)`
unfoldable pub new_token_hash : TokenHash → Outcome TokenHash
new_token_hash token_hash = do
  guard (length token_hash.digest == 32) (value_error digest_length)
  ok token_hash

-- `timedelta(0) < value`; a negative timedelta is not modelled.
unfoldable pub validate_positive_timedelta : ℕ → Outcome (Unit {0})
validate_positive_timedelta value = guard (not (leb value 0)) (value_error timeout_not_positive)

pub record Membership : Type 0 where
  pub id : Uuid
  pub tenant_id : Uuid
  pub user_id : Uuid
  pub roles : List Role
  pub status : MembershipStatus

abbrev has_roles : List Role → Bool
has_roles [] = false
has_roles (role ∷ roles) = true

-- `Membership(...)`: the record, if `__post_init__` accepts it.
unfoldable pub new_membership : Membership → Outcome Membership
new_membership membership = do
  guard (has_roles membership.roles) (value_error roles_empty)
  ok membership
