-- ===== src/Policy/Health.antt =====
-- The figures of the booking confirmations' health:
-- src/customer-requests/booking-confirmation-health.ts.
use transpo24_backend_nest_j.Base.{
  ℕ, ◌+◌, ltb, leb, Bool, true, false, ◌&&◌, ◌||◌, Option, none, some, List, [], ◌∷◌, is_some,
  if◌then◌else◌,
}
use transpo24_backend_nest_j.Payments.State.{ConfirmationState, OperationKind}
use transpo24_backend_nest_j.Payments.Rows.{is_cancel, is_delivery, is_confirmed}

pub record HealthRow : Type 0 where
  pub confirmation_state : ConfirmationState
  pub authorization_due_at : Option ℕ
  pub approval_deadline_at : Option ℕ
  pub authorization_expires_at : Option ℕ
  pub previous_stripe_payment_intent_id : Option ℕ
  pub operation_kind : Option OperationKind
  pub updated_at : ℕ

pub record HealthCounts : Type 0 where
  pub overdue_confirmations : ℕ
  pub overdue_approvals : ℕ
  pub unreleased_holds : ℕ
  pub unsettled_captures : ℕ
  pub expired_authorizations : ℕ

abbrev pub no_counts : HealthCounts
no_counts = record {
  overdue_confirmations = 0;
  overdue_approvals = 0;
  unreleased_holds = 0;
  unsettled_captures = 0;
  expired_authorizations = 0;
}

-- More than a minute ago: `date.getTime() < now - 60000`.
abbrev pub overdue : ℕ → Option ℕ → Bool
overdue now none = false
overdue now (some at) = ltb (at + 60000) now

abbrev is_grace_period : ConfirmationState → Bool
is_grace_period ConfirmationState.grace_period = true
is_grace_period _ = false

abbrev is_authorizing : ConfirmationState → Bool
is_authorizing ConfirmationState.authorizing = true
is_authorizing _ = false

abbrev is_action_required : ConfirmationState → Bool
is_action_required ConfirmationState.action_required = true
is_action_required _ = false

abbrev pub confirmation_overdue : ℕ → HealthRow → Bool
confirmation_overdue now r =
    is_grace_period r.confirmation_state && overdue now r.authorization_due_at
    || is_authorizing r.confirmation_state && overdue now (some r.updated_at)

abbrev pub approval_overdue : ℕ → HealthRow → Bool
approval_overdue now r =
    is_action_required r.confirmation_state && overdue now r.approval_deadline_at

abbrev pub release_overdue : ℕ → HealthRow → Bool
release_overdue now r =
    (is_some r.previous_stripe_payment_intent_id || is_cancel r.operation_kind)
    && overdue now (some r.updated_at)

abbrev pub capture_overdue : ℕ → HealthRow → Bool
capture_overdue now r = is_delivery r.operation_kind && overdue now (some r.updated_at)

abbrev pub authorization_expired : ℕ → HealthRow → Bool
authorization_expired now r =
    is_confirmed r.confirmation_state
    && elim r.authorization_expires_at [ none ↦ false | some at ↦ leb at now ]

-- One round of the loop.
abbrev pub count_row : ℕ → HealthCounts → HealthRow → HealthCounts
count_row now c r = record {
  overdue_confirmations = c.overdue_confirmations + (if confirmation_overdue now r then 1 else 0);
  overdue_approvals = c.overdue_approvals + (if approval_overdue now r then 1 else 0);
  unreleased_holds = c.unreleased_holds + (if release_overdue now r then 1 else 0);
  unsettled_captures = c.unsettled_captures + (if capture_overdue now r then 1 else 0);
  expired_authorizations =
      c.expired_authorizations + (if authorization_expired now r then 1 else 0);
}

unfoldable pub count_rows : ℕ → HealthCounts → List HealthRow → HealthCounts
count_rows now c [] = c
count_rows now c (r ∷ rows) = count_rows now (count_row now c r) rows

unfoldable pub booking_confirmation_health : ℕ → List HealthRow → HealthCounts
unfolding count_rows
booking_confirmation_health now rows = count_rows now no_counts rows
