-- ===== src/Payments/Tests.antt =====
-- A booking payment on concrete rows, with a Stripe that keeps one intent and counts its captures.
use transpo24_backend_nest_j.Base.{
  ℕ, ◌+◌, ◌≤◌, ◌≡◌, ◌==◌, refl, true, false, Option, none, some, is_some, [], ok, if◌then◌else◌,
  arith,
}
use transpo24_backend_nest_j.Base.Int.{pos, sub_ℕ}
use transpo24_backend_nest_j.Domain.{RequestStatus}
use transpo24_backend_nest_j.Policy.Booking.{held_cancellation_rate}
use transpo24_backend_nest_j.Policy.Pricing.{percent_of}
use transpo24_backend_nest_j.Payments.State.{
  ConfirmationState, PaymentStatus, PaymentProvider, SettlementStatus, DriverPayoutState, Hold,
  Request, Settlement, Wallet,
}
use transpo24_backend_nest_j.Payments.Stripe.{StripeApi, St, Intent, IntentStatus, Charge}
use transpo24_backend_nest_j.Payments.Finish.{finished_settlement, finished_hold, operation_fee}
use transpo24_backend_nest_j.Payments.Process.{process}
use transpo24_backend_nest_j.Payments.Commands.{
  Quote, cancellation_fee, counts_as_assigned, quote_refused, cancel, capture_delivery,
}
use transpo24_backend_nest_j.Payments.Captures.{KeptByOthers}
use transpo24_backend_nest_j.Payments.Captures.Operations.{process-no_capture}
use transpo24_backend_nest_j.Payments.Wallets.{IsWalletBooking, IsSoundStep}
use transpo24_backend_nest_j.Payments.Wallets.Worker.{process-conserves_wallet}
use transpo24_backend_nest_j.Payments.Cancellation.{cancellation_fee_bounds}
use transpo24_backend_nest_j.Payments.Cancellation.Wallet.{
  MayCancel, cancelling_hold, cancel-succeeds,
}
use transpo24_backend_nest_j.Payments.Cancellation.Direct.{capture_delivery-no_capture}
use transpo24_backend_nest_j.Payments.Review.{IsUnderReview, process-reviews}
use transpo24_backend_nest_j.Payments.Shares.{finished_settlement_shares}

record Counted : Type 0 where
  intent : Intent
  captures : ℕ

abbrev counted : StripeApi Counted
counted = record {
  inspect_authorization = λ id account w. (ok w.intent, w);
  cancel_payment_intent_if_exists = λ id account w.
      let canceled = record w.intent { status = IntentStatus.canceled } in
      (ok (some canceled), record w { intent = canceled });
  capture_authorization = λ id amount kind account fee w.
      let captured = record w.intent {
        status = IntentStatus.succeeded;
        amount_received = amount;
      } in
      (ok captured, record w { intent = captured; captures = w.captures + 1 });
  create_manual_authorization = λ customer account fee amount currency method attempt w.
      let created = record w.intent {
        status = IntentStatus.requires_confirmation;
        amount = amount;
        currency = currency;
        application_fee_amount = fee;
      } in
      (ok created, record w { intent = created });
  confirm_manual_authorization = λ id attempt account customer method w.
      let confirmed = record w.intent { status = IntentStatus.requires_capture } in
      (ok confirmed, record w { intent = confirmed });
  resume_manual_authentication = λ intent attempt account customer method w. (ok intent, w);
}

abbrev Uncaptured : Counted → Type 0
Uncaptured w = w.captures ≡ 0

counted-KeptByOthers : KeptByOthers counted Uncaptured
counted-KeptByOthers = record {
  inspect = λ id account w h. h;
  cancel = λ id account w h. h;
  create = λ customer account fee amount currency method attempt w h. h;
  confirm = λ id attempt account customer method w h. h;
  resume = λ intent attempt account customer method w h. h;
}

abbrev pub intent_of : IntentStatus → Intent
intent_of status = record {
  id = 77;
  client_secret = none;
  status = status;
  amount = 10500;
  amount_received = 10500;
  currency = 1;
  application_fee_amount = some 2000;
  latest_charge = Charge.expanded 5 500 none;
  authentication_required = false;
  last_error_message = none;
}

abbrev world_of : IntentStatus → Counted
world_of status = record { intent = intent_of status; captures = 0 }

-- A held booking, half a minute into its countdown.
abbrev pub hold_of : PaymentProvider → Option ℕ → Hold
hold_of provider account = record {
  customer_id = 1;
  driver_id = 2;
  amount = 10500;
  customer_platform_fee_amount = 500;
  currency = 1;
  provider = provider;
  status = PaymentStatus.held;
  policy_version = some 3;
  confirmation_state = ConfirmationState.confirmed;
  confirmation_notified_state = ConfirmationState.confirmed;
  confirmation_started_at = some 0;
  authorization_due_at = some 600000;
  approval_deadline_at = none;
  authorized_at = some 30000;
  authorization_expires_at = none;
  authorization_attempt = 1;
  previous_stripe_payment_intent_id = none;
  stripe_payment_intent_id = elim provider [
    | PaymentProvider.stripe ↦ some 77
    | PaymentProvider.app_wallet ↦ none
  ];
  stripe_client_secret = none;
  stripe_charge_id = none;
  stripe_account_id = account;
  stripe_payment_method_id = some 9;
  operation_kind = none;
  operation_amount = none;
  captured_at = none;
  released_at = none;
  cancelled_at = none;
  failure_reason = none;
}

abbrev wallet_hold : Hold
wallet_hold = hold_of PaymentProvider.app_wallet none

abbrev card_hold : Hold
card_hold = hold_of PaymentProvider.stripe (some 4)

abbrev pub request_of : RequestStatus → Request
request_of status = record {
  customer_id = 1;
  status = status;
  deferred_payment_state = none;
  accepted_offer_id = some 21;
  assigned_driver_id = some 2;
  payment_deadline_at = none;
  item_picked_up_at = none;
  delivery_confirmed_by_customer_at = none;
  payment_status = PaymentStatus.held;
  held_amount = 10500;
  captured_amount = 0;
  stripe_payment_intent_id = none;
}

abbrev assigned : Request
assigned = request_of RequestStatus.driver_assigned

abbrev wallet : Wallet
wallet = record { currency = 1; balance = pos 50000; reserved_balance = pos 12000 }

abbrev pub settlement : Settlement
settlement = record {
  currency = 1;
  collected_amount = 0;
  refundable_amount = pos 0;
  refunded_amount = 0;
  retained_amount = 0;
  driver_share_amount = 0;
  platform_share_amount = 0;
  status = SettlementStatus.authorized;
  driver_payout_state = DriverPayoutState.not_earned;
  requires_manual_review = false;
  payout_failure_reason = none;
  next_payout_retry_at = none;
}

abbrev state_of : Hold → Request → IntentStatus → St Counted
state_of hold request status = record {
  db = record {
    booking_hold = some hold;
    request = some request;
    settlement = some settlement;
    earning = none;
    wallet = some wallet;
    transactions = [];
    offer = none;
    customer = some (some 6);
    payout = record {
      paid_out_at = none;
      stripe_transfer_id = none;
      stripe_transfer_status = none;
      payout_attempt_count = 0;
      last_payout_attempt_at = none;
    };
    account = none;
  };
  world = world_of status;
}

abbrev card_state : St Counted
card_state = state_of card_hold assigned IntentStatus.requires_capture

abbrev wallet_state : St Counted
wallet_state = state_of wallet_hold assigned IntentStatus.canceled

process-no_capture_example : Uncaptured (process counted 40000 card_state).1.world
process-no_capture_example = process-no_capture counted-KeptByOthers 40000 card_state refl refl

wallet_hold-IsWalletBooking : IsWalletBooking wallet_hold assigned
wallet_hold-IsWalletBooking = ground arith

-- The pending cancellation with a fee of 1575.
process-conserves_wallet_example :
    let s = state_of (cancelling_hold 1575 wallet_hold) assigned IntentStatus.canceled in
    IsSoundStep s.db (process counted 700000 s)
process-conserves_wallet_example =
    process-conserves_wallet counted 700000
      (state_of (cancelling_hold 1575 wallet_hold) assigned IntentStatus.canceled) (ground arith)

wallet_hold-MayCancel : MayCancel 1 wallet_hold assigned
wallet_hold-MayCancel = ground arith

abbrev quote : Option Quote
quote = some (record { expected_retained_amount = 1575; policy_version = some 3 })

fee_agreed :
    quote_refused false (cancellation_fee 700000 false wallet_hold assigned) quote wallet_hold
    ≡ false
unfolding quote_refused cancellation_fee percent_of held_cancellation_rate
fee_agreed = refl

cancel-succeeds_example :
    let fee = cancellation_fee 700000 false wallet_hold assigned in
    let (r, s') = cancel counted 700000 700001 1 false quote wallet_state in
    (r
      ≡ ok (record {
        retained_amount = fee;
        released_amount =
            if is_some wallet_hold.authorized_at then sub_ℕ wallet_hold.amount fee else pos 0;
        nothing_charged = fee == 0;
      }))
    × (s'.db.booking_hold ≡ some (finished_hold 700001 true fee (cancelling_hold fee wallet_hold)))
cancel-succeeds_example =
    cancel-succeeds counted 700000 700001 1 false quote wallet_hold assigned wallet wallet_state
      refl refl refl wallet_hold-IsWalletBooking wallet_hold-MayCancel fee_agreed

-- Stripe shows the intent as captured while the booking waits for its authorisation.
abbrev waiting_hold : Hold
waiting_hold = record card_hold { status = PaymentStatus.hold_pending }

process-reviews_example :
    let (r, s') = process counted 40000 (state_of waiting_hold assigned IntentStatus.succeeded) in
    (r ≡ ok none) × IsUnderReview (intent_of IntentStatus.succeeded) s'.db
process-reviews_example =
    process-reviews counted 40000 77 waiting_hold assigned (intent_of IntentStatus.succeeded)
      (state_of waiting_hold assigned IntentStatus.succeeded) refl refl refl refl refl refl refl
      refl refl

capture_delivery-no_capture_example :
    Uncaptured (capture_delivery counted 700000 700001 1 false card_state).1.world
capture_delivery-no_capture_example =
    capture_delivery-no_capture counted-KeptByOthers 700000 700001 1 card_hold card_state refl refl
      refl refl

finished_settlement_shares_example :
    let hold = cancelling_hold 1575 card_hold in
    let t = finished_settlement 700000 hold assigned 1575 settlement in
    (t.retained_amount ≡ 1575)
    × (t.driver_share_amount + t.platform_share_amount ≡ t.retained_amount)
    × (assigned.assigned_driver_id ≡ none → t.driver_share_amount ≡ 0)
    × (t.driver_share_amount ≤ t.platform_share_amount + 1)
    × (t.platform_share_amount ≡ operation_fee hold assigned 1575)
finished_settlement_shares_example =
    finished_settlement_shares 700000 (cancelling_hold 1575 card_hold) assigned 1575 settlement refl

cancellation_fee_bounds_example :
    (cancellation_fee 700000 false card_hold assigned ≤ percent_of card_hold.amount 50)
    × (false ≡ true → cancellation_fee 700000 false card_hold assigned ≡ 0)
    × (counts_as_assigned assigned ≡ false → cancellation_fee 700000 false card_hold assigned ≡ 0)
    × (card_hold.authorized_at ≡ none → cancellation_fee 700000 false card_hold assigned ≡ 0)
cancellation_fee_bounds_example = cancellation_fee_bounds 700000 false card_hold assigned
