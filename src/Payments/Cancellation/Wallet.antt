-- ===== src/Payments/Cancellation/Wallet.antt =====
-- `cancel` of src/payments/delayed-booking-payments.service.ts from end to end, for a booking that
-- is paid from the wallet.
use transpo24_backend_nest_j.Base.{
  ℕ, Bool, ◌==◌, ◌≡◌, ◌≢◌, refl, true, false, Option, none, some, is_some, ok, arith, if◌then◌else◌,
}
use transpo24_backend_nest_j.Base.Int.{pos, sub_ℕ}
use transpo24_backend_nest_j.Payments.State.{
  ConfirmationState, PaymentStatus, PaymentProvider, OperationKind, Hold, Request, Wallet,
}
use transpo24_backend_nest_j.Payments.Stripe.{St, StripeApi, ◌>>=◌, transaction, catch}
use transpo24_backend_nest_j.Payments.Rows.{update_hold, picked_up, is_state_cancelled}
use transpo24_backend_nest_j.Payments.Finish.{finished_hold}
use transpo24_backend_nest_j.Payments.Commands.{
  Quote, cancellation_fee, quote_refused, begin_cancel_hold, begin_cancel, cancel_answer, cancel,
}
use transpo24_backend_nest_j.Payments.Cancellation.{cancellation_fee_bounds}
use transpo24_backend_nest_j.Payments.Wallets.{IsWalletBooking}
use transpo24_backend_nest_j.Payments.Wallets.Worker.{process-finishes}

-- The hold while its cancellation is pending.
abbrev pub cancelling_hold : ℕ → Hold → Hold
cancelling_hold fee h = record h {
  operation_kind = some OperationKind.cancel;
  operation_amount = some fee;
  confirmation_state = ConfirmationState.cancelling;
}

-- A booking that its customer may cancel: delayed, before the pickup, with nothing pending.
pub record MayCancel (customer_id : ℕ) (hold : Hold) (request : Request) : Type 0 where
  pub customer : request.customer_id ≡ customer_id
  pub not_picked_up : picked_up request ≡ false
  pub delayed : is_some hold.confirmation_started_at ≡ true
  pub idle : hold.operation_kind ≡ none
  pub open_state : is_state_cancelled hold.confirmation_state ≡ false
  pub uncaptured : hold.status ≢ PaymentStatus.payment_captured
  pub authorized_held : is_some hold.authorized_at ≡ true → hold.status ≡ PaymentStatus.held

begin_cancel-accepted :
    {W : Type 0} (api : StripeApi W) (now customer_id : ℕ) (free : Bool) (quote : Option Quote)
    (hold : Hold) (request : Request) (s : St W)
    → s.db.booking_hold ≡ some hold
    → s.db.request ≡ some request
    → hold.provider ≡ PaymentProvider.app_wallet
    → MayCancel customer_id hold request
    → quote_refused free (cancellation_fee now free hold request) quote hold ≡ false
    → transaction (begin_cancel api now customer_id free quote) s ≡ (
      ok tt,
      record s {
        db = record s.db {
          booking_hold = some (cancelling_hold (cancellation_fee now free hold request) hold);
        };
      },
    )
unfolding begin_cancel begin_cancel_hold transaction ◌>>=◌ update_hold
begin_cancel-accepted api now customer_id free quote hold request s eh er ep may agreed =
    ground arith

cancelling-IsWalletBooking :
    (now customer_id : ℕ) (free : Bool) (hold : Hold) (request : Request)
    → IsWalletBooking hold request
    → MayCancel customer_id hold request
    → IsWalletBooking (cancelling_hold (cancellation_fee now free hold request) hold) request
cancelling-IsWalletBooking now customer_id free hold request b may =
    ground (arith, (cancellation_fee_bounds now free hold request).3)

-- A customer who cancels a wallet booking, with nothing pending and before the pickup, always gets
-- it cancelled if the fee that is due is the one that was agreed to: the answer names that fee as
-- retained and the rest of an authorised amount as released, and the hold is cancelled.
pub cancel-succeeds :
    {W : Type 0} (api : StripeApi W) (now later customer_id : ℕ) (free : Bool)
    (quote : Option Quote) (hold : Hold) (request : Request) (w : Wallet) (s : St W)
    → s.db.booking_hold ≡ some hold
    → s.db.request ≡ some request
    → s.db.wallet ≡ some w
    → IsWalletBooking hold request
    → MayCancel customer_id hold request
    → quote_refused free (cancellation_fee now free hold request) quote hold ≡ false
    → let fee = cancellation_fee now free hold request in
      let (r, s') = cancel api now later customer_id free quote s in
      (r
        ≡ ok (record {
          retained_amount = fee;
          released_amount = if is_some hold.authorized_at then sub_ℕ hold.amount fee else pos 0;
          nothing_charged = fee == 0;
        }))
      × (s'.db.booking_hold ≡ some (finished_hold later true fee (cancelling_hold fee hold)))
unfolding cancel cancel_answer catch ◌>>=◌
cancel-succeeds api now later customer_id free quote hold request w s eh er ew b may agreed =
    let fee = cancellation_fee now free hold request in
    let s' = record s { db = record s.db { booking_hold = some (cancelling_hold fee hold) } } in
    let done =
      process-finishes api later (cancelling_hold fee hold) request w s' refl er ew
        (cancelling-IsWalletBooking now customer_id free hold request b may) may.delayed refl in
    ground (
      arith,
      done,
      begin_cancel-accepted api now customer_id free quote hold request s eh er b.provider may
          agreed,
    )
