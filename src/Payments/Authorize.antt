-- ===== src/Payments/Authorize.antt =====
-- `markHeld`, `cancelTx` and `authorizationFailed` of
-- src/payments/delayed-booking-payments.service.ts.
use transpo24_backend_nest_j.Base.{
  ℕ, if◌then◌else◌, true, false, Option, none, some, is_some, get_or,
}
use transpo24_backend_nest_j.Base.Int.{pos}
use transpo24_backend_nest_j.Domain.{RequestStatus}
use transpo24_backend_nest_j.Payments.State.{
  ConfirmationState, PaymentStatus, SettlementStatus, DeferredState, Reason, Hold, Request,
}
use transpo24_backend_nest_j.Payments.Stripe.{M, StripeApi, ◌>>=◌, ◌>>◌, pure}
use transpo24_backend_nest_j.Payments.Rows.{
  update_hold, update_request, update_settlements, upsert_settlement, or_keep, picked_up,
}
use transpo24_backend_nest_j.Payments.Reconcile.{blank_settlement, release_or_reconcile}

abbrev pub cancelled_hold : ℕ → Reason → Hold → Hold
cancelled_hold now reason h = record h {
  confirmation_state = ConfirmationState.cancelled;
  status = PaymentStatus.released;
  cancelled_at = some now;
  failure_reason = some reason;
}

-- The request that was read decides whether there is a deferred payment to cancel.
abbrev pub cancelled_request : Request → Request → Request
cancelled_request seen r = record r {
  status = RequestStatus.cancelled;
  deferred_payment_state =
      if is_some seen.deferred_payment_state
      then some DeferredState.cancelled
      else r.deferred_payment_state;
  held_amount = 0;
  payment_status = PaymentStatus.released;
}

abbrev pub held_hold : ℕ → Hold → Option ℕ → Option ℕ → Hold → Hold
held_hold now seen charge expires h = record h {
  stripe_charge_id = or_keep charge h.stripe_charge_id;
  authorization_expires_at = or_keep expires h.authorization_expires_at;
  status = PaymentStatus.held;
  confirmation_state = ConfirmationState.confirmed;
  authorized_at = some (get_or seen.authorized_at now);
  approval_deadline_at = none;
  failure_reason = none;
}

abbrev pub held_request : Hold → Hold → Request → Request
held_request seen updated r = record r {
  payment_status = PaymentStatus.held;
  held_amount = seen.amount;
  captured_amount = 0;
  stripe_payment_intent_id = updated.stripe_payment_intent_id;
}

module _ {W : Type 0} where
  -- `extra` is the charge and the expiry that a card authorisation brings.
  unfoldable pub mark_held : ℕ → Hold → Option ℕ → Option ℕ → M W Hold
  mark_held now hold charge expires = do
    updated ← update_hold (held_hold now hold charge expires)
    update_request (held_request hold updated)
    upsert_settlement
        (λ t. record t { status = SettlementStatus.authorized; requires_manual_review = false })
        (record (blank_settlement hold.currency) { status = SettlementStatus.authorized })
    pure updated

module _ {W : Type 0} (api : StripeApi W) where
  unfoldable pub cancel_tx : ℕ → Hold → Request → Reason → M W (Unit {0})
  cancel_tx now hold request reason = do
    released ← release_or_reconcile api now hold
    if released
        then (do
          update_hold (cancelled_hold now reason)
          update_settlements λ t. record t {
            status = SettlementStatus.released;
            refundable_amount = pos 0;
            requires_manual_review = false;
          }
          update_request (cancelled_request request))
        else pure tt

  -- After the pickup nothing is cancelled by itself: the booking goes to a person.
  unfoldable pub authorization_failed : ℕ → Hold → Request → Reason → M W (Unit {0})
  unfolding cancel_tx
  authorization_failed now hold request reason =
      if picked_up request
      then (do
        update_hold λ h. record h {
          confirmation_state = ConfirmationState.manual_review;
          failure_reason = some reason;
        }
        update_settlements λ t. record t {
          requires_manual_review = true;
          status = SettlementStatus.manual_review;
          payout_failure_reason = some reason;
        })
      else cancel_tx now hold request reason
