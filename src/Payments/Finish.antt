-- ===== src/Payments/Finish.antt =====
-- `finishOperation` of src/payments/delayed-booking-payments.service.ts: the pending operation of a
-- hold, a cancellation with its fee or the capture at delivery, is carried through.
use transpo24_backend_nest_j.Base.{
  ℕ, ◌-◌, ltb, ◌==◌, if◌then◌else◌, Bool, true, false, not, ◌&&◌, ◌||◌, Option, none, some, is_some,
  get_or,
}
use transpo24_backend_nest_j.Base.Int.{pos, ◌-ℤ◌}
use transpo24_backend_nest_j.Domain.{RequestStatus}
use transpo24_backend_nest_j.Policy.Pricing.{percent_of, direct_application_fee}
use transpo24_backend_nest_j.Payments.State.{
  ConfirmationState, PaymentStatus, SettlementStatus, DriverPayoutState, EarningStatus,
  TransactionType, Hold, Request, Settlement,
}
use transpo24_backend_nest_j.Payments.Stripe.{
  M, StripeApi, Intent, capture_pending, stripe_failed, ◌>>=◌, ◌>>◌, pure, throw, call,
  match_option,
}
use transpo24_backend_nest_j.Payments.Rows.{
  update_hold, update_request, update_wallet, upsert_settlement, upsert_earning, add_transaction,
  is_stripe, is_cancel, is_succeeded, is_requires_capture, refunded_of, charge_id_of, or_keep,
}
use transpo24_backend_nest_j.Payments.Reconcile.{
  same_number, blank_settlement, reconcile_unexpected_capture, release, release_or_reconcile,
}

-- Half of the fee goes to the driver of an assigned booking.
unfoldable pub fee_share : Request → ℕ → ℕ
fee_share request amount = if is_some request.assigned_driver_id then percent_of amount 50 else 0

-- The application fee of the operation, for a direct charge.
unfoldable pub operation_fee : Hold → Request → ℕ → ℕ
operation_fee hold request amount =
    if is_cancel hold.operation_kind
    then amount - fee_share request amount
    else direct_application_fee hold.amount hold.customer_platform_fee_amount

-- The driver's part of what was kept; `cancelling && assigned`.
unfoldable pub driver_share : Hold → Request → ℕ → ℕ
unfolding fee_share
driver_share hold request amount =
    if is_cancel hold.operation_kind then fee_share request amount else 0

-- A capture that succeeded otherwise than the operation asked for.
unfoldable pub capture_differs : Hold → Request → ℕ → Intent → Bool
capture_differs hold request amount captured =
    not (captured.amount_received == amount)
    || ltb 0 (refunded_of captured.latest_charge)
    || not (captured.currency == hold.currency)
    || (is_some hold.stripe_account_id
        && not (
            same_number captured.application_fee_amount (some (operation_fee hold request amount))))

unfoldable pub finished_settlement : ℕ → Hold → Request → ℕ → Settlement → Settlement
unfolding driver_share
finished_settlement now hold request amount t =
    let share = driver_share hold request amount in
    if is_cancel hold.operation_kind
    then record t {
      collected_amount = amount;
      refundable_amount = pos 0;
      retained_amount = amount;
      driver_share_amount = share;
      platform_share_amount = amount - share;
      driver_payout_state =
          if ltb 0 share then DriverPayoutState.earning_created else DriverPayoutState.not_earned;
      next_payout_retry_at = if ltb 0 share then some now else none;
      status =
          if ltb 0 amount then SettlementStatus.cancelled_with_fee else SettlementStatus.released;
      requires_manual_review = false;
    }
    else record t {
      collected_amount = amount;
      refundable_amount = pos amount;
      status = SettlementStatus.collected;
      requires_manual_review = false;
    }

abbrev pub finished_status : ℕ → PaymentStatus
finished_status amount =
    if ltb 0 amount then PaymentStatus.payment_captured else PaymentStatus.released

abbrev pub finished_hold : ℕ → Bool → ℕ → Hold → Hold
finished_hold now cancelling amount h = record h {
  status = finished_status amount;
  confirmation_state =
      if cancelling then ConfirmationState.cancelled else ConfirmationState.captured;
  captured_at = if ltb 0 amount then some now else none;
  cancelled_at = if cancelling then some now else none;
  operation_kind = none;
}

abbrev pub finished_request : Bool → ℕ → Request → Request
finished_request cancelling amount r = record r {
  status = if cancelling then RequestStatus.cancelled else r.status;
  held_amount = 0;
  captured_amount = amount;
  payment_status = finished_status amount;
}

module _ {W : Type 0} (api : StripeApi W) where
  -- The `inspectAuthorization` of an id that may be missing, which Stripe refuses.
  unfoldable pub inspect_optional : Option ℕ → Option ℕ → M W Intent
  inspect_optional found account =
      match_option found (throw (stripe_failed 0))
        (λ id. call (api.inspect_authorization id account))

  -- The current intent, or the one that a renewal is about to replace.
  unfoldable pub find_intent : Hold → M W Intent
  unfolding inspect_optional
  find_intent hold = do
    intent ←
        inspect_optional
          (elim hold.stripe_payment_intent_id [
            | none ↦ hold.previous_stripe_payment_intent_id
            | some id ↦ some id
          ])
          hold.stripe_account_id
    if not (is_requires_capture intent.status || is_succeeded intent.status)
          && is_some hold.previous_stripe_payment_intent_id
        then inspect_optional hold.previous_stripe_payment_intent_id hold.stripe_account_id
        else pure intent

  unfoldable pub capture_intent : Hold → Request → ℕ → Intent → M W Intent
  capture_intent hold request amount intent =
      if is_succeeded intent.status
      then pure intent
      else call (
          api.capture_authorization intent.id amount hold.operation_kind hold.stripe_account_id (
            if is_some hold.stripe_account_id
            then some (operation_fee hold request amount)
            else none))

  -- True: the money is collected as asked. False: the capture differs, and is under review.
  unfoldable pub collect_card : ℕ → Hold → Request → ℕ → M W Bool
  collect_card now hold request amount = do
    intent ← find_intent hold
    captured ← capture_intent hold request amount intent
    if is_succeeded captured.status && capture_differs hold request amount captured
        then (do reconcile_unexpected_capture now hold captured; pure false)
        else (if not (is_succeeded captured.status) || not (captured.amount_received == amount)
            then throw capture_pending
            else (do
              if is_cancel hold.operation_kind then release api hold true else pure tt
              update_hold λ h. record h {
                stripe_payment_intent_id = some captured.id;
                stripe_charge_id = or_keep (charge_id_of captured.latest_charge) h.stripe_charge_id;
                previous_stripe_payment_intent_id = none;
              }
              pure true))

module _ {W : Type 0} where
  -- The unused part of a reservation, noted at a cancellation.
  unfoldable pub note_rest : Hold → ℕ → M W (Unit {0})
  note_rest hold amount =
      if is_cancel hold.operation_kind && ltb amount hold.amount
      then add_transaction (record {
        amount = hold.amount - amount;
        currency = hold.currency;
        kind = TransactionType.release;
      })
      else pure tt

  unfoldable pub collect_wallet : Hold → ℕ → M W (Unit {0})
  unfolding note_rest
  collect_wallet hold amount = do
    update_wallet λ w. record w {
      balance = w.balance -ℤ pos amount;
      reserved_balance = w.reserved_balance -ℤ pos hold.amount;
    }
    add_transaction
        (record { amount = amount; currency = hold.currency; kind = TransactionType.capture })
    note_rest hold amount

  -- What is written once the money is where it belongs.
  unfoldable pub settle_operation : ℕ → Hold → Request → ℕ → M W (Unit {0})
  unfolding finished_settlement driver_share
  settle_operation now hold request amount = do
    let cancelling = is_cancel hold.operation_kind
    let share = driver_share hold request amount
    upsert_settlement (finished_settlement now hold request amount)
        (finished_settlement now hold request amount (blank_settlement hold.currency))
    if ltb 0 share
        then upsert_earning
            (λ e. record e { gross_amount = share; platform_fee_amount = 0; net_amount = share })
            (record {
              driver_id = hold.driver_id;
              gross_amount = share;
              platform_fee_amount = 0;
              net_amount = share;
              currency = hold.currency;
              available_at = some now;
              status = EarningStatus.pending;
            })
        else pure tt
    update_hold (finished_hold now cancelling amount)
    update_request (finished_request cancelling amount)

module _ {W : Type 0} (api : StripeApi W) where
  unfoldable pub finish_operation : ℕ → Hold → Request → M W (Unit {0})
  unfolding settle_operation collect_wallet
  finish_operation now hold request =
      let amount = get_or hold.operation_amount 0 in
      do
        done ←
            (if ltb 0 amount
              then (if is_stripe hold.provider
                  then collect_card api now hold request amount
                  else (do collect_wallet hold amount; pure true))
              else release_or_reconcile api now hold)
        if done then settle_operation now hold request amount else pure tt
