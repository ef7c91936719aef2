-- ===== src/Outbound/Store/Table.antt =====
-- The table of outbound messages
-- (packages/backend/src/closeros/infrastructure/outbound_repositories.py): the normal form of a
-- message that `__post_init__` accepts, what a write changes, and what a search finds.
use closer_os.Prelude.{
  ◌+◌, ◌≡◌, ◌⊎◌, inl, inr, refl, Bool, true, Option, none, some, List, [], ◌∷◌, count, All,
  if◌then◌else◌, ok, err, arith, Uuid, Text, strip, strip-strip, Bool-cases, sym, subst, Result, ap,
  ◌∙◌,
}
use closer_os.Outbound.Types.{OutboundError}
use closer_os.Outbound.Message.{
  OutboundMessage, new_message, check_template, validate_failure_code, validate_provider_message_id,
}
use closer_os.Outbound.Store.{is_message, get_message, has_message, updated_row, write_message}

abbrev pub strip_option : Option Text → Option Text
strip_option none = none
strip_option (some t) = some (strip t)

-- The message with its texts stripped.
abbrev pub normalized : OutboundMessage → OutboundMessage
normalized m = record m {
  provider_message_id = strip_option m.provider_message_id;
  failure_code = strip_option m.failure_code;
}

-- What `__post_init__` accepts is in normal form.
pub new_message-normalized : (m u : OutboundMessage) → new_message m ≡ ok u → u ≡ normalized m
unfolding new_message validate_failure_code validate_provider_message_id check_template
new_message-normalized m u h = ground arith

new_message-result :
    (m : OutboundMessage) (r : Result OutboundError OutboundMessage)
    → new_message m ≡ r
    → (new_message m ≡ ok (normalized m)) ⊎ ((e : OutboundError) × (new_message m ≡ err e))
new_message-result m (ok u) h = inl (h ∙ ap ok (new_message-normalized m u h))
new_message-result m (err e) h = inr (e, h)

-- `__post_init__` accepts a message in its normal form, or raises.
pub new_message-cases :
    (m : OutboundMessage)
    → (new_message m ≡ ok (normalized m)) ⊎ ((e : OutboundError) × (new_message m ≡ err e))
new_message-cases m = new_message-result m (new_message m) refl

normal-again :
    (m : OutboundMessage) (code id : Option Text)
    → m.failure_code ≡ code
    → m.provider_message_id ≡ id
    → new_message m ≡ ok (normalized m)
    → new_message (normalized m) ≡ ok (normalized m)
unfolding new_message validate_failure_code validate_provider_message_id
normal-again m none none c i h = ground arith
normal-again m none (some id) c i h = ground (arith, strip-strip id)
normal-again m (some code) none c i h = ground (arith, strip-strip code)
normal-again m (some code) (some id) c i h = ground (arith, strip-strip code, strip-strip id)

-- A message that was accepted is accepted as it is.
pub new_message-again : (m u : OutboundMessage) → new_message m ≡ ok u → new_message u ≡ ok u
new_message-again m u h =
    let e = new_message-normalized m u h in
    subst (λ x. new_message x ≡ ok x) (sym e)
      (normal-again m m.failure_code m.provider_message_id refl refl (h ∙ ap ok e))

module _ (tenant_id message_id : Uuid) where
  pub get_message-keys :
      (rows : List OutboundMessage) (row : OutboundMessage)
      → get_message tenant_id message_id rows ≡ some row
      → (row.tenant_id ≡ tenant_id) × (row.id ≡ message_id)
  unfolding get_message
  get_message-keys [] row h = cc
  get_message-keys (x ∷ rows) row h = ground (arith, get_message-keys rows row)

  -- A write replaces one row, the one that the search finds.
  pub count-write_message :
      (p : OutboundMessage → Bool) (new : OutboundMessage) (rows : List OutboundMessage)
      (row : OutboundMessage)
      → new.tenant_id ≡ tenant_id
      → new.id ≡ message_id
      → get_message tenant_id message_id rows ≡ some row
      → count p (write_message new rows) + (if p row then 1 else 0)
        ≡ count p rows + (if p (updated_row new row) then 1 else 0)
  unfolding get_message write_message
  count-write_message p new [] row t i h = cc
  count-write_message p new (x ∷ rows) row t i h =
      ground (arith, count-write_message p new rows row t i)

  pub has_message-get :
      (rows : List OutboundMessage) (row : OutboundMessage)
      → get_message tenant_id message_id rows ≡ some row
      → has_message message_id rows ≡ true
  unfolding get_message has_message
  has_message-get [] row h = cc
  has_message-get (x ∷ rows) row h = ground (arith, has_message-get rows row)

  pub get-write_message :
      (new : OutboundMessage) (rows : List OutboundMessage) (row : OutboundMessage)
      → new.tenant_id ≡ tenant_id
      → new.id ≡ message_id
      → get_message tenant_id message_id rows ≡ some row
      → get_message tenant_id message_id (write_message new rows) ≡ some (updated_row new row)
  unfolding get_message write_message
  get-write_message new [] row t i h = cc
  get-write_message new (x ∷ rows) row t i h = ground (arith, get-write_message new rows row t i)

pub has_message-write :
    (message_id : Uuid) (new : OutboundMessage) (rows : List OutboundMessage)
    → has_message message_id (write_message new rows) ≡ has_message message_id rows
unfolding has_message write_message
has_message-write message_id new [] = refl
has_message-write message_id new (x ∷ rows) = ground (arith, has_message-write message_id new rows)

pub All-write_message {ℓ} :
    (P : OutboundMessage → Type ℓ) (new : OutboundMessage) (rows : List OutboundMessage)
    → All P rows
    → ((row : OutboundMessage) → P row → P (updated_row new row))
    → All P (write_message new rows)
unfolding write_message
All-write_message P new [] a keep = tt
All-write_message P new (x ∷ rows) a keep = elim (Bool-cases (is_message new.tenant_id new.id x)) [
  | inl e ↦ rw e (keep x a.0, a.1)
  | inr e ↦ rw e (a.0, All-write_message P new rows a.1 keep)
]
