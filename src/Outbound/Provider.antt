-- ===== src/Outbound/Provider.antt =====
-- The call of the provider, `_call_provider` of
-- packages/backend/src/closeros/application/provider_message_send_handler.py, with the audit event
-- of `load_and_decrypt` (content_encryption_service.py). Credentials, the cryptography, templates and
-- the client of the provider are parameters.
use closer_os.Prelude.{
  ◌+◌, Bool, true, false, Option, none, some, [], ◌∷◌, ok, err, ◌>>=◌, ◌>>◌, Uuid, Text, Datetime,
}
use closer_os.Outbound.Types.{Kind, free_form_text, approved_template, OutboundError, Outcome}
use closer_os.Outbound.Message.{OutboundMessage}
use closer_os.Outbound.Store.{Connection, World, content_accessed}

-- What the first transaction hands to the call of the provider.
pub record Prepared : Type 0 where
  pub message : OutboundMessage
  pub connection : Connection
  pub recipient : Text

-- What the client of the provider answers: the id of the message, `WhatsAppCloudApiClientError`,
-- `WhatsAppCloudApiResponseError` with its code, or any other exception.
pub data Reply : Type 0 where
  sent : (provider_message_id : Text) → Reply
  client_error : Reply
  response_error : (error_code : Text) → Reply
  raises : OutboundError → Reply

-- The parts that a delivery calls: credentials, the content encryption, templates and the client.
-- Each may raise. A decrypted content is a text, and so is a template: its name and its language.
pub record Provider : Type 0 where
  pub access_token : (tenant_id connection_id : Uuid) (reference_key : Text) → Outcome (Option Text)
  -- the row of the content is there
  pub has_content : (tenant_id content_id : Uuid) → Bool
  -- what `load_and_decrypt` tests and decrypts before it appends its audit event
  pub decrypt : (tenant_id content_id : Uuid) → Outcome Text
  -- `build_client_for_connection`, with the decoding of the secret
  pub build_client : Connection → (secret : Text) → Outcome (Unit {0})
  -- `as_utf8_text` or `as_json_text`
  pub body : (decrypted : Text) → Outcome Text
  -- `_parse_template_parameters`
  pub parameters : (decrypted : Text) → Outcome Text
  pub template : (tenant_id template_id : Uuid) → Option Text
  pub send_text : (secret recipient body : Text) → Reply
  pub send_template : (secret recipient template parameters : Text) → Reply

-- "delivery_unknown"
abbrev pub delivery_unknown_code : Text
delivery_unknown_code =
    b'd' ∷ b'e' ∷ b'l' ∷ b'i' ∷ b'v' ∷ b'e' ∷ b'r' ∷ b'y' ∷ b'_' ∷ b'u' ∷ b'n' ∷ b'k' ∷ b'n' ∷ b'o'
    ∷ b'w' ∷ b'n' ∷ []

-- "credentials_missing"
abbrev pub credentials_missing : Text
credentials_missing =
    b'c' ∷ b'r' ∷ b'e' ∷ b'd' ∷ b'e' ∷ b'n' ∷ b't' ∷ b'i' ∷ b'a' ∷ b'l' ∷ b's' ∷ b'_' ∷ b'm' ∷ b'i'
    ∷ b's' ∷ b's' ∷ b'i' ∷ b'n' ∷ b'g' ∷ []

-- "content_unavailable"
abbrev pub content_unavailable : Text
content_unavailable =
    b'c' ∷ b'o' ∷ b'n' ∷ b't' ∷ b'e' ∷ b'n' ∷ b't' ∷ b'_' ∷ b'u' ∷ b'n' ∷ b'a' ∷ b'v' ∷ b'a' ∷ b'i'
    ∷ b'l' ∷ b'a' ∷ b'b' ∷ b'l' ∷ b'e' ∷ []

-- "template_unavailable"
abbrev pub template_unavailable : Text
template_unavailable =
    b't' ∷ b'e' ∷ b'm' ∷ b'p' ∷ b'l' ∷ b'a' ∷ b't' ∷ b'e' ∷ b'_' ∷ b'u' ∷ b'n' ∷ b'a' ∷ b'v' ∷ b'a'
    ∷ b'i' ∷ b'l' ∷ b'a' ∷ b'b' ∷ b'l' ∷ b'e' ∷ []

-- `send_result, send_error`
abbrev pub SendOutcome : Type 0
SendOutcome = Option Text × Option Text

abbrev pub send_outcome : Reply → Outcome SendOutcome
send_outcome (sent provider_message_id) = ok (some provider_message_id, none)
send_outcome client_error = ok (none, some delivery_unknown_code)
send_outcome (response_error error_code) = ok (none, some error_code)
send_outcome (raises e) = err e

abbrev pub send_with_template :
    Provider → (secret recipient decrypted : Text) → Option Text → Outcome SendOutcome
send_with_template provider secret recipient decrypted none = ok (none, some template_unavailable)
send_with_template provider secret recipient decrypted (some template) = do
  parameters ← provider.parameters decrypted
  send_outcome (provider.send_template secret recipient template parameters)

abbrev pub found_template : Provider → (tenant_id : Uuid) → Option Uuid → Option Text
found_template provider tenant_id none = none
found_template provider tenant_id (some template_id) = provider.template tenant_id template_id

abbrev pub send_body :
    Provider
    → (tenant_id : Uuid) → Prepared
    → (secret : Text) → Kind
    → (decrypted : Text) → Outcome SendOutcome
send_body provider tenant_id p secret free_form_text decrypted = do
  body ← provider.body decrypted
  send_outcome (provider.send_text secret p.recipient body)
send_body provider tenant_id p secret approved_template decrypted =
    send_with_template provider secret p.recipient decrypted
      (found_template provider tenant_id p.message.provider_template_id)

-- The part after the decryption.
abbrev pub send_decrypted :
    Provider → (tenant_id : Uuid) → Prepared → (secret decrypted : Text) → Outcome SendOutcome
send_decrypted provider tenant_id p secret decrypted = do
  provider.build_client p.connection secret
  send_body provider tenant_id p secret p.message.kind decrypted

-- The UUID of the access is drawn for the call of `load_and_decrypt`, which commits its audit event
-- in a transaction of its own.
abbrev pub drawn_one : World → World
drawn_one world = record world { drawn = world.drawn + 1 }

abbrev pub accessed : (content_id : Uuid) (occurred_at : Datetime) → World → World
accessed content_id moment world = record (drawn_one world) {
  audit_events =
      record { kind = content_accessed; resource_id = content_id; occurred_at = moment }
      ∷ world.audit_events;
}

-- What the call of the provider returns or raises, with what it has committed.
abbrev pub Called : Type 0
Called = Outcome SendOutcome × World

abbrev pub after_decryption :
    Provider
    → (tenant_id : Uuid) (occurred_at : Datetime) → Prepared
    → (secret : Text) → World
    → Outcome Text
    → Called
after_decryption provider tenant_id moment p secret world (err e) = (err e, drawn_one world)
after_decryption provider tenant_id moment p secret world (ok decrypted) = (
  send_decrypted provider tenant_id p secret decrypted,
  accessed p.message.encrypted_content_id moment world,
)

abbrev pub send_content :
    Provider
    → (tenant_id : Uuid) (occurred_at : Datetime) → Prepared
    → (secret : Text) → World
    → (has_content : Bool) → Called
send_content provider tenant_id moment p secret world false =
    (ok (none, some content_unavailable), world)
send_content provider tenant_id moment p secret world true =
    after_decryption provider tenant_id moment p secret world
      (provider.decrypt tenant_id p.message.encrypted_content_id)

abbrev pub send_with_token :
    Provider
    → (tenant_id : Uuid) (occurred_at : Datetime) → Prepared
    → World
    → Outcome (Option Text)
    → Called
send_with_token provider tenant_id moment p world (err e) = (err e, world)
send_with_token provider tenant_id moment p world (ok none) =
    (ok (none, some credentials_missing), world)
send_with_token provider tenant_id moment p world (ok (some secret)) =
    send_content provider tenant_id moment p secret world
      (provider.has_content tenant_id p.message.encrypted_content_id)

abbrev pub found_token :
    Provider → (tenant_id connection_id : Uuid) → Option Text → Outcome (Option Text)
found_token provider tenant_id connection_id none = ok none
found_token provider tenant_id connection_id (some reference_key) =
    provider.access_token tenant_id connection_id reference_key

unfoldable pub call_provider :
    Provider → (tenant_id : Uuid) (occurred_at : Datetime) → Prepared → World → Called
call_provider provider tenant_id moment p world =
    send_with_token provider tenant_id moment p world
      (found_token provider tenant_id p.connection.id p.connection.access_token_ref)
