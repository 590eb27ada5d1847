-- ===== src/Refunds/Amounts.antt =====
-- The amounts and the writes of `cancelCollectedTripTx` of src/payments/payments.service.ts, on the
-- rows of Payments. The id of Stripe's refund is left out, and so is the rounding of the amount that
-- the customer expects.
use transpo24_backend_nest_j.Base.{
  ℕ, ◌-◌, ◌==◌, ltb, leb, Bool, true, false, not, ◌&&◌, ◌||◌, Option, none, some, is_some, get_or,
  if◌then◌else◌, Result,
}
use transpo24_backend_nest_j.Base.Int.{pos}
use transpo24_backend_nest_j.Domain.{RequestStatus, is_cancelled}
use transpo24_backend_nest_j.Domain
use transpo24_backend_nest_j.Policy.Booking.{cancellation_fee_rate}
use transpo24_backend_nest_j.Policy.Pricing.{percent_of}
use transpo24_backend_nest_j.Payments.State.{
  PaymentStatus, SettlementStatus, DriverPayoutState, EarningStatus, Hold, Request, Settlement,
}
use transpo24_backend_nest_j.Payments.Stripe.{
  M, Error, manual_review_needed, pure, throw, modify, match_option, ◌>>◌,
}
use transpo24_backend_nest_j.Payments.Rows.{
  update_hold, update_request, update_settlements, upsert_earning,
}
use transpo24_backend_nest_j.Payouts.Updates.{update_payout}

-- A refund as Stripe is asked for it.
pub record Refund : Type 0 where
  pub intent_id : ℕ
  pub account : Option ℕ
  pub amount : ℕ
  -- The idempotency key tells a full refund of a reservation apart.
  pub is_full : Bool

pub record RefundApi (W : Type 0) : Type 0 where
  pub create_refund : Refund → W → Result Error ℕ × W

pub record RefundAmounts : Type 0 where
  pub refunded : ℕ
  pub retained : ℕ
  pub driver_share : ℕ
  pub platform_share : ℕ

-- What the customer and the caller are told.
pub record RefundAnswer : Type 0 where
  pub refunded_amount : ℕ
  pub retained_amount : ℕ
  pub driver_share_amount : ℕ

abbrev is_past_status : RequestStatus → Bool
is_past_status Domain.item_picked_up = true
is_past_status Domain.driver_going_to_dropoff = true
is_past_status Domain.delivered = true
is_past_status Domain.completed = true
is_past_status _ = false

abbrev pub is_past_pickup : Request → Bool
is_past_pickup request = is_some request.item_picked_up_at || is_past_status request.status

-- `calculateCustomerCancellationRefund`
abbrev pub customer_refund : ℕ → ℕ → Option ℕ → ℕ
customer_refund now collected paid_at =
    percent_of collected (100 - cancellation_fee_rate paid_at now)

-- `DRIVER_CANCELLATION_SHARE_RATE`, in percent.
abbrev pub driver_cancellation_share : ℕ
driver_cancellation_share = 50

unfoldable pub refund_amounts : ℕ → Bool → Hold → Request → Settlement → RefundAmounts
refund_amounts now full hold request settlement =
    let refunded =
      if full
      then settlement.collected_amount
      else customer_refund now settlement.collected_amount hold.captured_at in
    let retained = settlement.collected_amount - refunded in
    let share =
      if is_some request.accepted_offer_id && is_some request.assigned_driver_id
      then percent_of retained driver_cancellation_share
      else 0 in
    record {
      refunded = refunded;
      retained = retained;
      driver_share = share;
      platform_share = retained - share;
    }

-- The trip was cancelled before, and a full refund is not asked for or was made.
abbrev pub is_refunded_before : Bool → Request → Settlement → Bool
is_refunded_before full request settlement =
    is_cancelled request.status
    && (not full || leb settlement.collected_amount settlement.refunded_amount)

abbrev pub answer_of : Settlement → RefundAnswer
answer_of t = record {
  refunded_amount = t.refunded_amount;
  retained_amount = t.retained_amount;
  driver_share_amount = t.driver_share_amount;
}

abbrev pub refund_status : ℕ → PaymentStatus
refund_status retained =
    if retained == 0 then PaymentStatus.refunded else PaymentStatus.partially_refunded

abbrev pub refunded_settlement : ℕ → RefundAmounts → Settlement → Settlement
refunded_settlement now a t = record t {
  refundable_amount = pos 0;
  refunded_amount = a.refunded;
  retained_amount = a.retained;
  driver_share_amount = a.driver_share;
  platform_share_amount = a.platform_share;
  status =
      if a.retained == 0 then SettlementStatus.refunded else SettlementStatus.partially_refunded;
  driver_payout_state =
      if ltb 0 a.driver_share
      then DriverPayoutState.earning_created
      else DriverPayoutState.not_applicable;
  requires_manual_review = false;
  payout_failure_reason = none;
  next_payout_retry_at = if ltb 0 a.driver_share then some now else none;
}

module _ {W : Type 0} where
  -- `ensureWallet`: a missing one is made, empty.
  unfoldable pub ensure_wallet : Hold → M W (Unit {0})
  unfolding modify
  ensure_wallet hold = modify (λ db. record db {
    wallet = some (
        get_or db.wallet
          (record { currency = hold.currency; balance = pos 0; reserved_balance = pos 0 }));
  })

  unfoldable pub earn_share : ℕ → RefundAmounts → Request → Settlement → M W (Unit {0})
  earn_share now a request settlement =
      match_option request.assigned_driver_id (pure tt) (λ driver_id.
        if ltb 0 a.driver_share
        then upsert_earning
            (λ e. record e {
              gross_amount = a.driver_share;
              platform_fee_amount = 0;
              net_amount = a.driver_share;
              currency = settlement.currency;
              status = EarningStatus.pending;
              available_at = some now;
            })
            (record {
              driver_id = driver_id;
              gross_amount = a.driver_share;
              platform_fee_amount = 0;
              net_amount = a.driver_share;
              currency = settlement.currency;
              available_at = some now;
              status = EarningStatus.pending;
            })
        else pure tt)

  unfoldable pub write_refund : ℕ → RefundAmounts → M W RefundAnswer
  unfolding update_payout
  write_refund now a = do
    update_payout (refunded_settlement now a)
        (λ r. record r { payout_attempt_count = 0; last_payout_attempt_at = none })
    update_hold (λ h. record h { status = refund_status a.retained })
    update_request (λ r. record r {
      status = Domain.cancelled;
      payment_status = refund_status a.retained;
      captured_amount = a.retained;
    })
    pure (record {
      refunded_amount = a.refunded;
      retained_amount = a.retained;
      driver_share_amount = a.driver_share;
    })

  unfoldable pub flag_and_throw : M W RefundAnswer
  flag_and_throw = do
    update_settlements
        (λ t. record t { status = SettlementStatus.manual_review; requires_manual_review = true })
    throw manual_review_needed

  -- `markSettlementManualReview`
  unfoldable pub mark_manual_review : M W (Unit {0})
  mark_manual_review = do
    update_settlements (λ t. record t {
      status = SettlementStatus.manual_review;
      requires_manual_review = true;
      next_payout_retry_at = none;
    })
    pure tt
