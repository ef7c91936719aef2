-- ===== src/Outbound/Service/Cancelling.antt =====
-- What `cancel` does in every case
-- (packages/backend/src/closeros/application/outbound_message_service.py).
use closer_os.Prelude.{
  ℕ, ◌≡◌, refl, Bool, true, false, ◌&&◌, Option, none, some, List, ◌==◌, if◌then◌else◌, ok, err,
  arith, Uuid, Datetime,
}
use closer_os.Authentication.Types.{Role}
use closer_os.Outbound.Types.{
  Status, draft, pending_approval, approved, queued, cancelled, Outcome, service_error,
  message_not_found, validate_outbound_message_transition, outbound_resend_prohibited,
  requires_approver,
}
use closer_os.Outbound.Message.{OutboundMessage, new_message}
use closer_os.Outbound.Store.{World, get_message, write_message, update}
use closer_os.Outbound.Store.Table.{get_message-keys}
use closer_os.Outbound.Service.{any_role, is_send_role, cancel, cancelled_message}

-- Not handed to the provider yet, or cancelled before.
abbrev pub is_cancellable : Status → Bool
is_cancellable draft = true
is_cancellable pending_approval = true
is_cancellable approved = true
is_cancellable queued = true
is_cancellable cancelled = true
is_cancellable _ = false

abbrev pub after_cancel : OutboundMessage → Datetime → World → World
after_cancel row now world = record world {
  messages = write_message (cancelled_message row now) world.messages;
}

-- The answer to a caller that may send, by what is stored.
abbrev pub cancel_answer :
    Option OutboundMessage
    → (expected_version : ℕ) (now : Datetime) → World
    → Outcome (OutboundMessage × World)
cancel_answer none version now world = err message_not_found
cancel_answer (some row) version now world =
    if is_cancellable row.status && row.version == version
    then ok (cancelled_message row now, after_cancel row now world)
    else err service_error

cancelled-accepted :
    (row : OutboundMessage) (now : Datetime)
    → new_message row ≡ ok row
    → new_message (cancelled_message row now) ≡ ok (cancelled_message row now)
unfolding new_message requires_approver
cancelled-accepted row now v = ground (arith, v)

module _ (t id : Uuid) (roles : List Role) (version : ℕ) (now : Datetime) (world : World) where
  cancel-stored :
      (row : OutboundMessage) (s : Status)
      → row.status ≡ s
      → any_role is_send_role roles ≡ true
      → get_message t id world.messages ≡ some row
      → new_message row ≡ ok row
      → cancel t id roles version now world ≡ cancel_answer (some row) version now world
  unfolding cancel update outbound_resend_prohibited validate_outbound_message_transition
  cancel-stored row draft e r g v =
      ground (arith, get_message-keys t id world.messages row g, cancelled-accepted row now v)
  cancel-stored row s e r g v =
      ground (arith, get_message-keys t id world.messages row g, cancelled-accepted row now v)

  cancel-found :
      (found : Option OutboundMessage)
      → any_role is_send_role roles ≡ true
      → get_message t id world.messages ≡ found
      → ((row : OutboundMessage) → found ≡ some row → new_message row ≡ ok row)
      → cancel t id roles version now world ≡ cancel_answer found version now world
  unfolding cancel
  cancel-found none r g v = rw (r, g) refl
  cancel-found (some row) r g v = cancel-stored row row.status refl r g (v row refl)

  -- A caller with a role that may send, and a message that is valid if it is stored: the answer is
  -- not-found for a missing message, the cancelled message with the next version if it was not handed
  -- to the provider (or was cancelled before) and its version is the expected one, and the service's
  -- error in every other case.
  pub cancel-answer :
      any_role is_send_role roles ≡ true
      → ((row : OutboundMessage)
          → get_message t id world.messages ≡ some row
          → new_message row ≡ ok row)
      → cancel t id roles version now world
        ≡ cancel_answer (get_message t id world.messages) version now world
  cancel-answer r v = cancel-found (get_message t id world.messages) r refl v
