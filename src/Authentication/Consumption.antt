-- ===== src/Authentication/Consumption.antt =====
-- `SqlAlchemyOneTimeTokenRepository`
-- (packages/backend/src/closeros/infrastructure/authentication_repositories.py) over the rows of its
-- table. The mappers are not modelled: a row has the fields of a token.
pub mod Uses
use closer_os.Prelude.{
  ℕ, Bool, true, false, not, ◌&&◌, Option, none, some, List, [], ◌∷◌, count, ltb, leb, ◌==◌,
  is_some, if◌then◌else◌, Result, ok, err, guard, ◌>>◌, Uuid, Text, Datetime,
}
use closer_os.Authentication.Types.{TokenHash, TokenPurpose, email_verification, password_reset}
use closer_os.Authentication.Tokens.{OneTimeToken}

-- `AuthenticationRecordNotFoundError`, and what a failed constraint is translated to
pub data RepositoryError : Type 0 where
  record_not_found token_hash_taken user_missing integrity_error : RepositoryError

-- `update(...).where(p).values(...)`, with the change of a row as a function
abbrev pub update_where :
    (OneTimeToken → Bool) → (OneTimeToken → OneTimeToken) → List OneTimeToken → List OneTimeToken
update_where p f [] = []
update_where p f (row ∷ rows) = (if p row then f row else row) ∷ update_where p f rows

abbrev pub with_consumed : Datetime → OneTimeToken → OneTimeToken
with_consumed consumed_at row = record row { consumed_at = some consumed_at }

abbrev pub with_revoked : Datetime → OneTimeToken → OneTimeToken
with_revoked revoked_at row = record row { revoked_at = some revoked_at }

abbrev pub has_id : Uuid → OneTimeToken → Bool
has_id token_id row = row.id == token_id

-- the `==` of two digests
abbrev pub same_digest : Text → Text → Bool
same_digest [] [] = true
same_digest (a ∷ s) (b ∷ t) = a == b && same_digest s t
same_digest _ _ = false

abbrev pub has_hash : TokenHash → OneTimeToken → Bool
has_hash token_hash row = same_digest row.token_hash.digest token_hash.digest

-- `add`: the flush fails on a taken id or hash, and on a user who is not stored.
unfoldable pub add :
    (user_stored : Bool)
    → OneTimeToken
    → List OneTimeToken
    → Result RepositoryError (List OneTimeToken)
add user_stored token rows = do
  guard (not (ltb 0 (count (has_id token.id) rows))) integrity_error
  guard (not (ltb 0 (count (has_hash token.token_hash) rows))) token_hash_taken
  guard user_stored user_missing
  ok (token ∷ rows)

-- `session.get(OneTimeTokenRow, token_id)`, then the change of the row
unfoldable pub update_required :
    Uuid
    → (OneTimeToken → Bool)
    → (OneTimeToken → OneTimeToken)
    → List OneTimeToken
    → Result RepositoryError (List OneTimeToken)
update_required token_id p f rows =
    if ltb 0 (count (has_id token_id) rows)
    then ok (update_where (λ row. has_id token_id row && p row) f rows)
    else err record_not_found

unfoldable pub consume :
    (token_id : Uuid) (consumed_at : Datetime)
    → List OneTimeToken
    → Result RepositoryError (List OneTimeToken)
consume token_id consumed_at rows =
    update_required token_id (λ row. true) (with_consumed consumed_at) rows

unfoldable pub revoke :
    (token_id : Uuid) (revoked_at : Datetime)
    → List OneTimeToken
    → Result RepositoryError (List OneTimeToken)
revoke token_id revoked_at rows =
    update_required token_id (λ row. not (is_some row.revoked_at)) (with_revoked revoked_at) rows

-- The `where` of `consume_if_usable`.
abbrev pub usable : Uuid → Datetime → OneTimeToken → Bool
usable token_id now row =
    has_id token_id row
    && not (is_some row.consumed_at)
    && not (is_some row.revoked_at)
    && leb row.created_at now
    && ltb now row.expires_at

unfoldable pub consume_if_usable :
    (token_id : Uuid) (consumed_at now : Datetime) → List OneTimeToken → Bool × List OneTimeToken
consume_if_usable token_id consumed_at now rows = (
  ltb 0 (count (usable token_id now) rows),
  update_where (usable token_id now) (with_consumed consumed_at) rows,
)

-- `row.purpose == purpose.value`
abbrev pub same_purpose : TokenPurpose → TokenPurpose → Bool
same_purpose email_verification email_verification = true
same_purpose password_reset password_reset = true
same_purpose _ _ = false

-- The `where` of `revoke_active_for_user_and_purpose`.
abbrev pub active : Uuid → TokenPurpose → OneTimeToken → Bool
active user_id purpose row =
    row.user_id == user_id
    && same_purpose row.purpose purpose
    && not (is_some row.revoked_at)
    && not (is_some row.consumed_at)

unfoldable pub revoke_active_for_user_and_purpose :
    (user_id : Uuid)
    → TokenPurpose
    → (revoked_at : Datetime) → List OneTimeToken
    → ℕ × List OneTimeToken
revoke_active_for_user_and_purpose user_id purpose revoked_at rows = (
  count (active user_id purpose) rows,
  update_where (active user_id purpose) (with_revoked revoked_at) rows,
)
