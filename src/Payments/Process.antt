-- ===== src/Payments/Process.antt =====
-- `process` and `processLocked` of src/payments/delayed-booking-payments.service.ts: the worker's
-- step for one booking. The clock is read once in a step.
pub mod Intents
use transpo24_backend_nest_j.Base.{
  ℕ, ◌+◌, ◌*◌, leb, if◌then◌else◌, Bool, true, false, not, ◌&&◌, ◌||◌, Option, none, some, is_some,
}
use transpo24_backend_nest_j.Domain.{RequestStatus, is_cancelled, is_reserved}
use transpo24_backend_nest_j.Payments.State.{
  ConfirmationState, OfferStatus, Hold, Request, Offer, Db, cancelled_before_confirmation,
  deadline_passed, offer_unavailable, authorization_unavailable, card_unavailable,
}
use transpo24_backend_nest_j.Payments.Stripe.{
  M, StripeApi, Error, card_gone, ◌>>=◌, ◌>>◌, pure, throw, gets, call, catch, transaction,
  match_option, with_db,
}
use transpo24_backend_nest_j.Payments.Rows.{
  update_hold, is_stripe, is_collected, is_payment_captured, is_confirmed, is_state_cancelled,
  is_confirmed_or_captured, is_manual_review, is_succeeded, is_requires_capture,
}
use transpo24_backend_nest_j.Payments.Reconcile.{
  reconcile_unexpected_capture, release_stripe_intent,
}
use transpo24_backend_nest_j.Payments.Authorize.{cancel_tx, authorization_failed}
use transpo24_backend_nest_j.Payments.Finish.{finish_operation}
use Intents.{process_unconfirmed}

abbrev pub renewal_lead_ms : ℕ
renewal_lead_ms = 6 * 60 * 60 * 1000

-- `date && now >= date`
abbrev pub has_come : Option ℕ → ℕ → Bool
has_come none now = false
has_come (some at) now = leb at now

-- A reservation that nobody paid in time.
unfoldable pub deadline_missed : ℕ → Hold → Request → Bool
deadline_missed now hold request =
    is_reserved request.status
    && has_come request.payment_deadline_at now
    && not (is_some hold.authorized_at)

-- The countdown is over, and the driver is not bound yet.
unfoldable pub must_check_offer : ℕ → Hold → Request → Bool
must_check_offer now hold request =
    (not (is_some request.assigned_driver_id) || is_reserved request.status)
    && (not (is_some hold.authorization_due_at) || has_come hold.authorization_due_at now)

unfoldable pub offer_status_fits : Request → OfferStatus → Bool
offer_status_fits request OfferStatus.pending = true
offer_status_fits request OfferStatus.accepted = is_reserved request.status
offer_status_fits request _ = false

unfoldable pub offer_stands : Request → Option Offer → Bool
unfolding offer_status_fits
offer_stands request none = false
offer_stands request (some o) =
    offer_status_fits request o.status
    && o.driver_approved
    && o.is_profile_completed
    && o.has_approved_vehicle

-- `authorizationExpiresAt - now <= RENEWAL_LEAD_MS`
unfoldable pub needs_renewal : ℕ → Hold → Bool
needs_renewal now hold = is_stripe hold.provider && elim hold.authorization_expires_at [
  | none ↦ false
  | some at ↦ leb at (now + renewal_lead_ms)
]

module _ {W : Type 0} where
  -- The renewal is written down; a later step asks Stripe for the new authorisation.
  unfoldable pub start_renewal : Hold → M W (Option Hold)
  start_renewal hold = do
    update_hold λ h. record h {
      confirmation_state = ConfirmationState.renewing;
      confirmation_notified_state = ConfirmationState.no_state;
      previous_stripe_payment_intent_id = hold.stripe_payment_intent_id;
      stripe_payment_intent_id = none;
      stripe_client_secret = none;
      approval_deadline_at = none;
      authorization_attempt = h.authorization_attempt + 1;
    }
    pure none

module _ {W : Type 0} (api : StripeApi W) where
  -- True: the intent was captured behind the service's back, and is under review now.
  unfoldable pub unexpected_capture_seen : ℕ → Hold → Request → M W Bool
  unfolding reconcile_unexpected_capture
  unexpected_capture_seen now hold request =
      if not (is_some hold.operation_kind)
        && is_stripe hold.provider
        && not (is_collected hold.status)
      then match_option hold.stripe_payment_intent_id (pure false) (λ id. do
        intent ← call (api.inspect_authorization id hold.stripe_account_id)
        if is_succeeded intent.status
            then (do reconcile_unexpected_capture now hold intent; pure true)
            else pure false)
      else pure false

  -- The authorisation that a renewal replaced is released.
  unfoldable pub release_previous : Hold → M W Hold
  release_previous hold =
      if is_confirmed_or_captured hold.confirmation_state
      then match_option hold.previous_stripe_payment_intent_id (pure hold) (λ id. do
        release_stripe_intent api id hold.stripe_account_id false
        update_hold (λ h. record h { previous_stripe_payment_intent_id = none }))
      else pure hold

  unfoldable pub process_confirmed : ℕ → Hold → Request → M W (Option Hold)
  unfolding start_renewal
  process_confirmed now hold request =
      let renew_or_keep =
        if needs_renewal now hold then start_renewal hold else pure {A = Option Hold} (some hold) in
      if is_stripe hold.provider
      then match_option hold.stripe_payment_intent_id renew_or_keep (λ id. do
        current ← call (api.inspect_authorization id hold.stripe_account_id)
        if is_requires_capture current.status
            then renew_or_keep
            else (if is_succeeded current.status
                then (do reconcile_unexpected_capture now hold current; pure none)
                else (do
                  authorization_failed api now hold request authorization_unavailable
                  pure none)))
      else renew_or_keep

  -- The steps after the countdown's guards.
  unfoldable pub process_current : ℕ → Hold → Request → M W (Option Hold)
  process_current now hold request = do
    offer ← gets (λ db. db.offer)
    if must_check_offer now hold request && not (offer_stands request offer)
        then (do cancel_tx api now hold request offer_unavailable; pure none)
        else (if is_confirmed hold.confirmation_state
            then process_confirmed now hold request
            else process_unconfirmed api now hold request)

  unfoldable pub process_open : ℕ → Hold → Request → M W (Option Hold)
  process_open now hold request =
      if is_cancelled request.status || is_state_cancelled hold.confirmation_state
      then (if is_state_cancelled hold.confirmation_state then pure none else (do
        cancel_tx api now hold request
            (elim hold.failure_reason [ none ↦ cancelled_before_confirmation | some r ↦ r ])
        pure none))
      else (if is_manual_review hold.confirmation_state || is_payment_captured hold.status
          then pure none
          else (if deadline_missed now hold request
              then (do cancel_tx api now hold request deadline_passed; pure none)
              else process_current now hold request))

  unfoldable pub process_booking : ℕ → Hold → Request → M W (Option Hold)
  process_booking now hold request = do
    seen ← unexpected_capture_seen now hold request
    if seen then pure none else (do
      hold' ← release_previous hold
      if is_some hold'.operation_kind
          then (do finish_operation api now hold' request; pure none)
          else process_open now hold' request)

  unfoldable pub process_rows : ℕ → Option Hold → Option Request → M W (Option Hold)
  unfolding process_booking
  process_rows now (some hold) (some request) =
      if is_some hold.confirmation_started_at then process_booking now hold request else pure none
  process_rows now none request = pure none
  process_rows now (some hold) none = pure none

  unfoldable pub process_locked : ℕ → M W (Option Hold)
  unfolding process_rows
  process_locked now = transaction (with_db (λ db. process_rows now db.booking_hold db.request))

  unfoldable pub fail_card : ℕ → Option Hold → Option Request → M W (Unit {0})
  fail_card now (some hold) (some request) =
      if is_some hold.confirmation_started_at && not (is_cancelled request.status)
      then authorization_failed api now hold request card_unavailable
      else pure tt
  fail_card now none request = pure tt
  fail_card now (some hold) none = pure tt

  unfoldable pub process_failed : ℕ → Error → M W (Option Hold)
  process_failed now card_gone = do
    transaction (with_db (λ db. fail_card now db.booking_hold db.request))
    pure none
  process_failed now error = throw error

  unfoldable pub process : ℕ → M W (Option Hold)
  unfolding process_locked process_failed
  process now = catch (process_locked now) (process_failed now)
