-- ===== src/Outbound/Policy.antt =====
-- The 24-hour window of packages/backend/src/closeros/domain/whatsapp_messaging_policy.py.
use closer_os.Prelude.{
  ℕ, ◌+◌, Bool, true, false, Option, none, some, leb, if◌then◌else◌, guard, Datetime,
  timedelta_seconds,
}
use closer_os.Outbound.Types.{Kind, free_form_text, approved_template, Outcome, policy_error}

pub data Violation : Type 0 where
  template_required free_form_not_allowed template_not_allowed window_unknown : Violation

-- `MessagingPolicyDecision(allowed, violation)`; its `__post_init__` accepts the two shapes that
-- `evaluate_send` constructs.
pub record Decision : Type 0 where
  pub allowed : Bool
  pub violation : Option Violation

-- `WhatsAppMessagingPolicy`; there is one version.
pub record MessagingPolicy : Type 0 where
  pub customer_service_window : ℕ

-- The policy with its defaults.
abbrev pub messaging_policy : MessagingPolicy
messaging_policy = record { customer_service_window = timedelta_seconds 86_400 }

abbrev pub allow : Decision
allow = record { allowed = true; violation = none }

abbrev pub deny : Violation → Decision
deny violation = record { allowed = false; violation = some violation }

unfoldable pub evaluate_send :
    MessagingPolicy
    → Kind
    → (last_customer_inbound_at : Option Datetime) (now : Datetime) → Decision
evaluate_send policy approved_template last now = allow
evaluate_send policy free_form_text none now = deny template_required
evaluate_send policy free_form_text (some last) now =
    if leb now (last + policy.customer_service_window) then allow else deny template_required

unfoldable pub require_allowed :
    MessagingPolicy
    → Kind
    → (last_customer_inbound_at : Option Datetime) (now : Datetime) → Outcome (Unit {0})
unfolding evaluate_send
require_allowed policy kind last now =
    guard (evaluate_send policy kind last now).allowed policy_error
