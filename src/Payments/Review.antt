-- ===== src/Payments/Review.antt =====
-- Money that Stripe collected behind the service's back, in
-- src/payments/delayed-booking-payments.service.ts.
use transpo24_backend_nest_j.Base.{ℕ, ◌≡◌, true, false, Option, none, some, is_some, ok, arith}
use transpo24_backend_nest_j.Base.Int.{sub_ℕ}
use transpo24_backend_nest_j.Payments.State.{
  ConfirmationState, PaymentProvider, SettlementStatus, Hold, Request, Settlement, Db,
}
use transpo24_backend_nest_j.Payments.Stripe.{
  St, StripeApi, Intent, ◌>>=◌, transaction, catch, with_db,
}
use transpo24_backend_nest_j.Payments.Rows.{
  update_hold, update_request, upsert_settlement, is_collected, is_succeeded, refunded_of,
}
use transpo24_backend_nest_j.Payments.Reconcile.{reconcile_unexpected_capture, collected_status}
use transpo24_backend_nest_j.Payments.Process.{
  unexpected_capture_seen, process_booking, process_rows, process_locked, process,
}

abbrev ReviewedHold : Intent → Option Hold → Type 0
ReviewedHold intent none = ⊥
ReviewedHold intent (some h) =
    (h.confirmation_state ≡ ConfirmationState.manual_review)
    × (h.operation_kind ≡ none)
    × (h.status ≡ collected_status intent.amount_received (refunded_of intent.latest_charge))

abbrev ReviewedRequest : Intent → Option Request → Type 0
ReviewedRequest intent none = ⊥
ReviewedRequest intent (some r) = (r.captured_amount ≡ intent.amount_received) × (r.held_amount ≡ 0)

abbrev ReviewedSettlement : Intent → Option Settlement → Type 0
ReviewedSettlement intent none = ⊥
ReviewedSettlement intent (some t) =
    (t.status ≡ SettlementStatus.manual_review)
    × (t.requires_manual_review ≡ true)
    × (t.collected_amount ≡ intent.amount_received)
    × (t.refundable_amount ≡ sub_ℕ intent.amount_received (refunded_of intent.latest_charge))
    × (t.next_payout_retry_at ≡ none)

-- The rows record what Stripe collected and gave back, and wait for a person.
abbrev pub IsUnderReview : Intent → Db → Type 0
IsUnderReview intent db =
    ReviewedHold intent db.booking_hold
    × ReviewedRequest intent db.request
    × ReviewedSettlement intent db.settlement

reconcile-IsUnderReview :
    {W : Type 0} (now : ℕ) (seen : Hold) (intent : Intent) (hold : Hold) (request : Request)
    (s : St W)
    → s.db.booking_hold ≡ some hold
    → s.db.request ≡ some request
    → let (r, s') = reconcile_unexpected_capture now seen intent s in
      (r ≡ ok tt) × IsUnderReview intent s'.db
unfolding reconcile_unexpected_capture ◌>>=◌ update_hold update_request upsert_settlement
reconcile-IsUnderReview now seen intent hold request s eh er = ground arith

-- A card payment that Stripe shows as captured while no operation is pending and the booking does
-- not count it as collected, whatever else the rows say: the worker's step succeeds, and leaves the
-- booking under review with the amounts that Stripe reports, never confirmed or cancelled.
pub process-reviews :
    {W : Type 0} (api : StripeApi W) (now id : ℕ) (hold : Hold) (request : Request)
    (intent : Intent) (s : St W)
    → s.db.booking_hold ≡ some hold
    → s.db.request ≡ some request
    → is_some hold.confirmation_started_at ≡ true
    → hold.operation_kind ≡ none
    → hold.provider ≡ PaymentProvider.stripe
    → is_collected hold.status ≡ false
    → hold.stripe_payment_intent_id ≡ some id
    → (api.inspect_authorization id hold.stripe_account_id s.world).0 ≡ ok intent
    → is_succeeded intent.status ≡ true
    → let (r, s') = process api now s in (r ≡ ok none) × IsUnderReview intent s'.db
unfolding process process_locked process_rows process_booking unexpected_capture_seen transaction
    catch with_db ◌>>=◌
process-reviews api now id hold request intent s eh er started idle card open_status intent_id seen
      paid =
    let world = (api.inspect_authorization id hold.stripe_account_id s.world).1 in
    ground (
      arith,
      reconcile-IsUnderReview now hold intent hold request (record s { world = world }) eh er,
    )
