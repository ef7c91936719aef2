-- ===== src/Authentication/Consumption/Uses.antt =====
-- A one-time token is used once
-- (packages/backend/src/closeros/infrastructure/authentication_repositories.py).
use closer_os.Prelude.{
  ℕ, ◌+◌, ◌≤◌, ◌≡◌, refl, ltb, ◌↔◌, ◌++◌, Bool, true, not, ◌&&◌, List, [], ◌∷◌, count, ◌==◌,
  is_some, if◌then◌else◌, Result, ok, err, arith, Uuid, Datetime,
}
use closer_os.Authentication.Types.{TokenPurpose}
use closer_os.Authentication.Tokens.{OneTimeToken}
use closer_os.Authentication.Policy.{require_usable_authentication_token}
use closer_os.Authentication.Consumption.{
  RepositoryError, update_where, with_consumed, with_revoked, has_id, add, update_required, consume,
  revoke, usable, consume_if_usable, active, revoke_active_for_user_and_purpose,
}

-- A call of the repository that changes the table.
pub data TokenCall : Type 0 where
  adds : (user_stored : Bool) (token : OneTimeToken) → TokenCall
  consumes_if_usable : (token_id : Uuid) (consumed_at now : Datetime) → TokenCall
  consumes revokes : (token_id : Uuid) (moment : Datetime) → TokenCall
  revokes_active : (user_id : Uuid) (purpose : TokenPurpose) (revoked_at : Datetime) → TokenCall

-- A call that raises leaves the table as it is.
abbrev pub written :
    List OneTimeToken → Result RepositoryError (List OneTimeToken) → List OneTimeToken
written rows (ok rows') = rows'
written rows (err e) = rows

unfoldable pub call : TokenCall → List OneTimeToken → List OneTimeToken
call (adds user_stored token) rows = written rows (add user_stored token rows)
call (consumes_if_usable id consumed_at now) rows = (consume_if_usable id consumed_at now rows).1
call (consumes id moment) rows = written rows (consume id moment rows)
call (revokes id moment) rows = written rows (revoke id moment rows)
call (revokes_active user purpose moment) rows =
    (revoke_active_for_user_and_purpose user purpose moment rows).1

-- 1 when the call is a conditional consumption of the token that returns true
unfoldable pub uses_of : Uuid → TokenCall → List OneTimeToken → ℕ
uses_of id (consumes_if_usable id' consumed_at now) rows =
    if id' == id && (consume_if_usable id' consumed_at now rows).0 then 1 else 0
uses_of id c rows = 0

unfoldable pub uses : Uuid → List TokenCall → List OneTimeToken → ℕ
uses id [] rows = 0
uses id (c ∷ cs) rows = uses_of id c rows + uses id cs (call c rows)

-- the row of a token that is not consumed
abbrev is_open : Uuid → OneTimeToken → Bool
is_open id row = has_id id row && not (is_some row.consumed_at)

module _ (id : Uuid) where
  update-open :
      (p : OneTimeToken → Bool) (f : OneTimeToken → OneTimeToken) (rows : List OneTimeToken)
      → ((r : OneTimeToken) → is_open id (f r) ≡ true → is_open id r ≡ true)
      → count (is_open id) (update_where p f rows) ≤ count (is_open id) rows
  update-open p f [] keep = omega arith
  update-open p f (row ∷ rows) keep = ground (arith, keep row, update-open p f rows keep)

  consumed-open :
      (id' : Uuid) (consumed_at now : Datetime) (rows : List OneTimeToken)
      → (if id' == id then count (usable id' now) rows else 0)
          + count (is_open id) (update_where (usable id' now) (with_consumed consumed_at) rows)
        ≤ count (is_open id) rows
  consumed-open id' consumed_at now [] = ground arith
  consumed-open id' consumed_at now (row ∷ rows) =
      ground (arith, consumed-open id' consumed_at now rows)

  with_consumed-open :
      (moment : Datetime) (r : OneTimeToken)
      → is_open id (with_consumed moment r) ≡ true
      → is_open id r ≡ true
  with_consumed-open moment r h = ground arith

  with_revoked-open :
      (moment : Datetime) (r : OneTimeToken)
      → is_open id (with_revoked moment r) ≡ true
      → is_open id r ≡ true
  with_revoked-open moment r h = ground arith

  open-id : (rows : List OneTimeToken) → count (is_open id) rows ≤ count (has_id id) rows
  open-id [] = omega arith
  open-id (row ∷ rows) = ground (arith, open-id rows)

  update-ids :
      (p : OneTimeToken → Bool) (f : OneTimeToken → OneTimeToken) (rows : List OneTimeToken)
      → ((r : OneTimeToken) → (f r).id ≡ r.id)
      → count (has_id id) (update_where p f rows) ≡ count (has_id id) rows
  update-ids p f [] keep = refl
  update-ids p f (row ∷ rows) keep = ground (arith, keep row, update-ids p f rows keep)

  -- How often the token may still be used: a token that is not stored may be added.
  uses_left : List OneTimeToken → ℕ
  uses_left rows = if ltb 0 (count (has_id id) rows) then count (is_open id) rows else 1

  call-uses_left :
      (c : TokenCall) (rows : List OneTimeToken)
      → uses_of id c rows + uses_left (call c rows) ≤ uses_left rows
  unfolding uses_of uses_left call add consume_if_usable consume revoke update_required
      revoke_active_for_user_and_purpose
  call-uses_left (adds user_stored token) rows = ground (arith, open-id rows)
  call-uses_left (consumes_if_usable id' consumed_at now) rows = ground (
    arith,
    consumed-open id' consumed_at now rows,
    open-id rows,
    update-ids (usable id' now) (with_consumed consumed_at) rows (λ r. refl),
  )
  call-uses_left (consumes id' moment) rows = ground (
    arith,
    update-open (λ row. has_id id' row && true) (with_consumed moment) rows
        (with_consumed-open moment),
    update-ids (λ row. has_id id' row && true) (with_consumed moment) rows (λ r. refl),
  )
  call-uses_left (revokes id' moment) rows = ground (
    arith,
    update-open (λ row. has_id id' row && not (is_some row.revoked_at)) (with_revoked moment) rows
        (with_revoked-open moment),
    update-ids (λ row. has_id id' row && not (is_some row.revoked_at)) (with_revoked moment) rows
        (λ r. refl),
  )
  call-uses_left (revokes_active user purpose moment) rows = ground (
    arith,
    update-open (active user purpose) (with_revoked moment) rows (with_revoked-open moment),
    update-ids (active user purpose) (with_revoked moment) rows (λ r. refl),
  )

  uses-uses_left :
      (cs : List TokenCall) (rows : List OneTimeToken) → uses id cs rows ≤ uses_left rows
  unfolding uses
  uses-uses_left [] rows = omega arith
  uses-uses_left (c ∷ cs) rows =
      omega (arith, call-uses_left c rows, uses-uses_left cs (call c rows))

  uses_left-le : (rows : List OneTimeToken) → count (has_id id) rows ≤ 1 → uses_left rows ≤ 1
  unfolding uses_left
  uses_left-le rows unique = ground (arith, open-id rows)

  usable-id :
      (now : Datetime) (rows : List OneTimeToken)
      → count (usable id now) rows ≤ count (has_id id) rows
  usable-id now [] = omega arith
  usable-id now (row ∷ rows) = ground (arith, usable-id now rows)

  usable-++ :
      (now : Datetime) (before rest : List OneTimeToken)
      → count (usable id now) (before ++ rest)
        ≡ count (usable id now) before + count (usable id now) rest
  usable-++ now [] rest = omega arith
  usable-++ now (row ∷ before) rest = ground (arith, usable-++ now before rest)

  -- The conditional consumption of a stored token, whose id is unique, returns true exactly when the
  -- policy accepts the token at that time.
  pub consume_if_usable_iff :
      (consumed_at now : Datetime) (token : OneTimeToken) (before rest : List OneTimeToken)
      → token.id ≡ id
      → count (has_id id) before ≡ 0
      → count (has_id id) rest ≡ 0
      → ((consume_if_usable id consumed_at now (before ++ token ∷ rest)).0 ≡ true)
        ↔ (require_usable_authentication_token token now ≡ ok tt)
  unfolding consume_if_usable require_usable_authentication_token
  consume_if_usable_iff consumed_at now token before rest e h k =
      ground (arith, usable-id now before, usable-id now rest, usable-++ now before (token ∷ rest))

  -- In a table where the id is unique, whatever tokens are added and whatever
  -- other calls are made, the conditional consumption of a
  -- token returns true at most once.
  pub token_used_once :
      (cs : List TokenCall) (rows : List OneTimeToken)
      → count (has_id id) rows ≤ 1
      → uses id cs rows ≤ 1
  token_used_once cs rows unique = omega (arith, uses-uses_left cs rows, uses_left-le rows unique)
