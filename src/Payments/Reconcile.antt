-- ===== src/Payments/Reconcile.antt =====
-- `reconcileUnexpectedCapture`, `releaseStripeIntent`, `release` and `releaseOrReconcile` of
-- src/payments/delayed-booking-payments.service.ts.
use transpo24_backend_nest_j.Base.{
  ℕ, ltb, leb, ◌==◌, if◌then◌else◌, Bool, true, false, not, ◌&&◌, ◌||◌, Option, none, some, is_some,
  get_or,
}
use transpo24_backend_nest_j.Base.Int.{pos, sub_ℕ, ◌-ℤ◌}
use transpo24_backend_nest_j.Policy.Pricing.{direct_application_fee}
use transpo24_backend_nest_j.Payments.State.{
  ConfirmationState, PaymentStatus, SettlementStatus, DriverPayoutState, TransactionType, Reason,
  unexpected_capture, capture_mismatch, Hold, Settlement,
}
use transpo24_backend_nest_j.Payments.Stripe.{
  M, StripeApi, Intent, Error, capture_unreconciled, not_released, ◌>>=◌, ◌>>◌, pure, throw, call,
  catch, match_option,
}
use transpo24_backend_nest_j.Payments.Rows.{
  update_hold, update_request, update_wallet, upsert_settlement, add_transaction, is_wallet,
  is_stripe, is_held, is_succeeded, is_intent_canceled, refunded_of, charge_id_of, or_keep,
}

-- `a === b` of optional numbers
abbrev pub same_number : Option ℕ → Option ℕ → Bool
same_number none none = true
same_number (some a) (some b) = a == b
same_number _ _ = false

-- The application fee that the booking expects, for a direct charge only.
abbrev pub expected_fee : Hold → Option ℕ
expected_fee hold =
    if is_some hold.stripe_account_id
    then some (direct_application_fee hold.amount hold.customer_platform_fee_amount)
    else none

-- `matches`: `amount_received` is in the currency's minor unit, the cents of the model.
unfoldable pub matches_booking : Hold → Intent → Bool
matches_booking hold intent =
    intent.amount_received == hold.amount
    && intent.currency == hold.currency
    && (not (is_some hold.stripe_account_id)
        || same_number intent.application_fee_amount (expected_fee hold))

-- The status of money that is at Stripe: `amount` was received, `refunded` went back.
unfoldable pub collected_status : ℕ → ℕ → PaymentStatus
collected_status amount refunded =
    if leb amount refunded && ltb 0 amount
    then PaymentStatus.refunded
    else (if ltb 0 refunded
        then PaymentStatus.partially_refunded
        else PaymentStatus.payment_captured)

abbrev reconciled_hold : ℕ → Intent → Reason → Hold → Hold
reconciled_hold at intent reason h = record h {
  status = collected_status intent.amount_received (refunded_of intent.latest_charge);
  confirmation_state = ConfirmationState.manual_review;
  stripe_charge_id = or_keep (charge_id_of intent.latest_charge) h.stripe_charge_id;
  captured_at = some at;
  released_at = none;
  failure_reason = some reason;
  operation_kind = none;
}

abbrev reconciled_settlement : Intent → Reason → Settlement → Settlement
reconciled_settlement intent reason t = record t {
  currency = intent.currency;
  collected_amount = intent.amount_received;
  refunded_amount = refunded_of intent.latest_charge;
  refundable_amount = sub_ℕ intent.amount_received (refunded_of intent.latest_charge);
  status = SettlementStatus.manual_review;
  requires_manual_review = true;
  payout_failure_reason = some reason;
  next_payout_retry_at = none;
}

-- A settlement row as the database creates it, before the columns that the code gives.
abbrev pub blank_settlement : ℕ → Settlement
blank_settlement currency = record {
  currency = currency;
  collected_amount = 0;
  refundable_amount = pos 0;
  refunded_amount = 0;
  retained_amount = 0;
  driver_share_amount = 0;
  platform_share_amount = 0;
  status = SettlementStatus.collected;
  driver_payout_state = DriverPayoutState.not_earned;
  requires_manual_review = false;
  payout_failure_reason = none;
  next_payout_retry_at = none;
}

module _ {W : Type 0} where
  -- `capturedAt: hold.capturedAt ?? new Date()` reads the hold that was passed in.
  unfoldable pub reconcile_unexpected_capture : ℕ → Hold → Intent → M W (Unit {0})
  unfolding matches_booking collected_status
  reconcile_unexpected_capture now hold intent =
      let reason = if matches_booking hold intent then unexpected_capture else capture_mismatch in
      let at = get_or hold.captured_at now in
      do
        update_hold (reconciled_hold at intent reason)
        update_request λ r. record r {
          payment_status =
              collected_status intent.amount_received (refunded_of intent.latest_charge);
          captured_amount = intent.amount_received;
          held_amount = 0;
        }
        upsert_settlement (reconciled_settlement intent reason)
            (reconciled_settlement intent reason (blank_settlement intent.currency))

module _ {W : Type 0} (api : StripeApi W) where
  -- A failed cancellation counts as done if Stripe shows the intent as cancelled.
  unfoldable pub release_stripe_intent : ℕ → Option ℕ → Bool → M W (Unit {0})
  release_stripe_intent id account allow_captured = do
    intent ← call (api.inspect_authorization id account)
    if is_intent_canceled intent.status
        then pure tt
        else (if is_succeeded intent.status
            then (if allow_captured then pure tt else throw capture_unreconciled)
            else catch
                (do
                  cancelled ← call (api.cancel_payment_intent_if_exists id account)
                  match_option cancelled (throw not_released)
                      (λ i. if is_intent_canceled i.status then pure tt else throw not_released))
                (λ error. do
                  again ← call (api.inspect_authorization id account)
                  if is_intent_canceled again.status then pure tt else throw error))

  unfoldable pub release_optional : Option ℕ → Option ℕ → Bool → M W (Unit {0})
  unfolding release_stripe_intent
  release_optional found account allow_captured =
      match_option found (pure tt) (λ id. release_stripe_intent id account allow_captured)

  unfoldable pub release_wallet : Hold → M W (Unit {0})
  release_wallet hold = do
    update_wallet (λ w. record w { reserved_balance = w.reserved_balance -ℤ pos hold.amount })
    add_transaction
        (record { amount = hold.amount; currency = hold.currency; kind = TransactionType.release })

  unfoldable pub release : Hold → Bool → M W (Unit {0})
  unfolding release_optional release_wallet
  release hold allow_captured = do
    if is_wallet hold.provider && is_held hold.status then release_wallet hold else pure tt
    if is_stripe hold.provider
        then (do
          release_optional hold.stripe_payment_intent_id hold.stripe_account_id allow_captured
          release_optional hold.previous_stripe_payment_intent_id hold.stripe_account_id
              allow_captured)
        else pure tt

  -- The handler: a capture that won the race at Stripe is recorded, any other error goes on.
  unfoldable pub recover_release : ℕ → Hold → Error → M W Bool
  unfolding reconcile_unexpected_capture
  recover_release now hold error =
      if is_stripe hold.provider
      then match_option hold.stripe_payment_intent_id (throw error) (λ id. do
        intent ← call (api.inspect_authorization id hold.stripe_account_id)
        if is_succeeded intent.status
            then (do reconcile_unexpected_capture now hold intent; pure false)
            else throw error)
      else throw error

  -- True: the money is released. False: it turned out to be captured, and is under review.
  unfoldable pub release_or_reconcile : ℕ → Hold → M W Bool
  unfolding release recover_release
  release_or_reconcile now hold =
      catch (do release hold false; pure true) (recover_release now hold)
