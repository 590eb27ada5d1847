-- ===== src/Refunds/Calls.antt =====
-- `cancelCollectedTripTx` of src/payments/payments.service.ts and the calls that run it.
use transpo24_backend_nest_j.Base.{
  ℕ, ◌==◌, ltb, Bool, true, false, not, ◌||◌, Option, none, some, is_some, if◌then◌else◌, Result,
}
use transpo24_backend_nest_j.Base.Int.{pos, ◌+ℤ◌}
use transpo24_backend_nest_j.Domain.{is_cancelled}
use transpo24_backend_nest_j.Payments.State.{
  DeferredState, TransactionType, Hold, Request, Settlement,
}
use transpo24_backend_nest_j.Payments.Stripe.{
  M, StripeApi, Error, not_found, not_yours, manual_review_needed, payment_missing, not_collected,
  fee_changed, unpaid_only, pure, throw, throw_if, gets, call, match_option, transaction,
  find_or_throw, ◌>>=◌, ◌>>◌,
}
use transpo24_backend_nest_j.Payments.Rows.{update_wallet, add_transaction, is_wallet, is_collected}
use transpo24_backend_nest_j.Payments.Commands.{Quote, CancelResult, cancel}
use transpo24_backend_nest_j.Payouts.State.{TripIds, PayoutApi}
use transpo24_backend_nest_j.Payouts.Requests.{queue_driver_payout_for_trip}
use transpo24_backend_nest_j.Refunds.Amounts.{
  RefundApi, RefundAnswer, is_past_pickup, refund_amounts, is_refunded_before, answer_of,
  ensure_wallet, earn_share, write_refund, flag_and_throw, mark_manual_review,
}

-- The customer expects another fee.
abbrev pub fee_differs : Option ℕ → ℕ → Bool
fee_differs none retained = false
fee_differs (some expected) retained = not (retained == expected)

-- `['EXPIRED', 'CANCELLED'].includes(state)`
abbrev pub is_given_up : Option DeferredState → Bool
is_given_up (some DeferredState.cancelled) = true
is_given_up (some DeferredState.expired) = true
is_given_up _ = false

abbrev pub quote_of : Option ℕ → Option ℕ → Option Quote
quote_of none version = none
quote_of (some expected) version =
    some (record { expected_retained_amount = expected; policy_version = version })

abbrev pub has_countdown : Option Hold → Bool
has_countdown none = false
has_countdown (some hold) = is_some hold.confirmation_started_at

-- The answer of either way to cancel.
pub data TripCancellation : Type 0 where
  of_delayed : CancelResult → TripCancellation
  of_collected : RefundAnswer → TripCancellation

module _ {W : Type 0} (api : RefundApi W) where
  unfoldable pub refund_money : Bool → Hold → ℕ → M W (Unit {0})
  unfolding ensure_wallet
  refund_money full hold amount =
      if is_wallet hold.provider
      then (do
        ensure_wallet hold
        update_wallet (λ w. record w { balance = w.balance +ℤ pos amount })
        add_transaction
            (record { amount = amount; currency = hold.currency; kind = TransactionType.refund }))
      else match_option hold.stripe_payment_intent_id (pure tt) (λ id. do
        call (
            api.create_refund (record {
              intent_id = id;
              account = hold.stripe_account_id;
              amount = amount;
              is_full = full;
            }))
        pure tt)

  unfoldable pub refund_trip : ℕ → Bool → Option ℕ → Hold → Request → Settlement → M W RefundAnswer
  refund_trip now full expected hold request settlement = do
    throw_if (not (is_collected hold.status)) not_collected
    let a = refund_amounts now full hold request settlement
    throw_if (fee_differs expected a.retained) fee_changed
    refund_money full hold a.refunded
    earn_share now a request settlement
    write_refund now a

  unfoldable pub cancel_found : ℕ → Bool → Option ℕ → Hold → Request → Settlement → M W RefundAnswer
  cancel_found now full expected hold request settlement =
      if is_refunded_before full request settlement
      then pure (answer_of settlement)
      else (if is_past_pickup request
          then flag_and_throw
          else refund_trip now full expected hold request settlement)

  unfoldable pub cancel_collected_tx : ℕ → ℕ → Bool → Option ℕ → M W RefundAnswer
  cancel_collected_tx now customer_id full expected = do
    request ← find_or_throw (λ db. db.request)
    throw_if (not (request.customer_id == customer_id)) not_found
    hold ← gets (λ db. db.booking_hold)
    settlement ← gets (λ db. db.settlement)
    match_option hold (throw payment_missing) (λ h.
        match_option settlement (throw payment_missing)
          (λ t. cancel_found now full expected h request t))

  -- A reservation that was given up gets all of its money back.
  unfoldable pub refund_unpaid_reservation : ℕ → ℕ → M W RefundAnswer
  unfolding cancel_collected_tx
  refund_unpaid_reservation now customer_id = transaction (do
    request ← find_or_throw (λ db. db.request)
    throw_if
        (not (request.customer_id == customer_id)
          || not (is_cancelled request.status)
          || not (is_given_up request.deferred_payment_state))
        unpaid_only
    cancel_collected_tx now customer_id true none)

  module _ (stripe : StripeApi W) (payouts : PayoutApi W) (notify : W → Result Error (Unit {0}) × W)
      (ids : TripIds) where
    -- What is kept of a cancelled trip is paid out in part.
    unfoldable pub after_cancellation : ℕ → ℕ → TripCancellation → M W TripCancellation
    after_cancellation now kept answer = do
      call notify
      if ltb 0 kept
          then (do queue_driver_payout_for_trip payouts now ids; pure answer)
          else pure answer

    unfoldable pub cancel_collected_trip : ℕ → ℕ → ℕ → Option ℕ → Option ℕ → M W TripCancellation
    unfolding cancel_collected_tx after_cancellation
    cancel_collected_trip now later customer_id expected version = do
      request ← find_or_throw (λ db. db.request)
      throw_if (not (request.customer_id == customer_id)) not_yours
      if is_past_pickup request then (do mark_manual_review; throw manual_review_needed) else (do
        hold ← gets (λ db. db.booking_hold)
        if has_countdown hold
            then (do
              r ← cancel stripe now later customer_id false (quote_of expected version)
              after_cancellation now r.retained_amount (of_delayed r))
            else (do
              a ← transaction (cancel_collected_tx now customer_id false expected)
              after_cancellation now a.driver_share_amount (of_collected a)))
