-- ===== src/Refunds/Tests.antt =====
-- A cancelled trip on concrete rows, paid from the wallet.
use transpo24_backend_nest_j.Base.{ℕ, ◌+◌, ◌≡◌, refl, false, Option, none, some, [], ok}
use transpo24_backend_nest_j.Base.Int.{pos}
use transpo24_backend_nest_j.Domain.{RequestStatus}
use transpo24_backend_nest_j.Policy.Booking.{cancellation_fee_rate}
use transpo24_backend_nest_j.Policy.Pricing.{percent_of}
use transpo24_backend_nest_j.Payments.State.{
  PaymentProvider, PaymentStatus, SettlementStatus, Hold, Request, Settlement, Wallet,
}
use transpo24_backend_nest_j.Payments.Stripe.{St}
use transpo24_backend_nest_j.Payments.Tests.{hold_of, request_of, settlement}
use transpo24_backend_nest_j.Refunds.Amounts.{RefundApi, RefundAmounts, refund_amounts}
use transpo24_backend_nest_j.Refunds.Calls.{cancel_collected_tx}
use transpo24_backend_nest_j.Refunds.Shares.{
  MayRefund, told, RefundedTo, cancel_collected_tx-IsOnce,
}

-- Stripe counts the refunds.
abbrev counting : RefundApi ℕ
counting = record { create_refund = λ refund w. (ok 1, w + 1) }

abbrev collected_hold : Hold
collected_hold = record (hold_of PaymentProvider.app_wallet none) {
  status = PaymentStatus.payment_captured;
  captured_at = some 700000;
}

abbrev assigned : Request
assigned = request_of RequestStatus.driver_assigned

abbrev collected : Settlement
collected = record settlement {
  collected_amount = 10500;
  refundable_amount = pos 10500;
  status = SettlementStatus.collected;
}

abbrev wallet : Wallet
wallet = record { currency = 1; balance = pos 39500; reserved_balance = pos 0 }

abbrev state : St ℕ
state = record {
  db = record {
    booking_hold = some collected_hold;
    request = some assigned;
    settlement = some collected;
    earning = none;
    wallet = some wallet;
    transactions = [];
    offer = none;
    customer = some (some 6);
    payout = record {
      paid_out_at = none;
      stripe_transfer_id = none;
      stripe_transfer_status = none;
      payout_attempt_count = 0;
      last_payout_attempt_at = none;
    };
    account = none;
  };
  world = 0;
}

-- Two hours after the payment.
abbrev amounts : RefundAmounts
amounts = refund_amounts 7900000 false collected_hold assigned collected

fee_kept : (amounts.retained ≡ 1575) × (amounts.driver_share ≡ 788)
unfolding refund_amounts cancellation_fee_rate percent_of
fee_kept = (refl, refl)

may_refund : MayRefund 7900000 1 false none collected_hold assigned collected
may_refund = record {
  own = refl;
  fresh = refl;
  early = refl;
  collected = refl;
  wallet = refl;
  agreed = refl;
}

cancel_collected_tx-IsOnce_example :
    let (r, s') = cancel_collected_tx counting 7900000 1 false none state in
    (r ≡ ok (told amounts))
    × RefundedTo 7900000 amounts collected_hold assigned collected wallet 0 s'
    × (amounts.refunded + amounts.retained ≡ 10500)
    × (amounts.driver_share + amounts.platform_share ≡ amounts.retained)
    × ((later : ℕ) (expected' : Option ℕ)
        → cancel_collected_tx counting later 1 false expected' s' ≡ (ok (told amounts), s'))
cancel_collected_tx-IsOnce_example =
    cancel_collected_tx-IsOnce counting 7900000 1 false none collected_hold assigned collected
      wallet state refl refl refl refl may_refund
