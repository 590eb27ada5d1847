-- ===== src/Payouts/Tests.antt =====
-- A payout on concrete rows, with a Stripe that knows the keys that it has seen and a database that
-- refuses one write.
use transpo24_backend_nest_j.Base.{
  ℕ, ◌+◌, ◌*◌, ◌≤◌, ◌<◌, ◌≡◌, map, leb, refl, inl, inr, true, false, Bool, Bool-cases, none, some,
  List, [], ◌∷◌, arith, length, ok, err, if◌then◌else◌,
}
use transpo24_backend_nest_j.Domain.{RequestStatus}
use transpo24_backend_nest_j.Payments.State.{
  PaymentProvider, SettlementStatus, EarningStatus, already_completed, onboarding_incomplete,
  Request, Settlement, Earning, Db,
}
use transpo24_backend_nest_j.Payments.Stripe.{
  StripeApi, St, stripe_failed, IntentStatus, ◌>>=◌, catch,
}
use transpo24_backend_nest_j.Payments.Tests.{hold_of, request_of, settlement, intent_of}
use transpo24_backend_nest_j.Payouts.State.{
  TripIds, PayoutContext, Transfer, PayoutApi, payout_context,
}
use transpo24_backend_nest_j.Payouts.State.{
  is_transferred, is_confirmed, has_payable_settlement, is_available,
}
use transpo24_backend_nest_j.Payouts.Queue.{enqueue_driver_payout}
use transpo24_backend_nest_j.Payouts.Updates.{RequestedBy, completed, calculate_next_retry}
use transpo24_backend_nest_j.Payouts.Attempt.{attempt_driver_payout, fail_driver_payout_attempt}
use transpo24_backend_nest_j.Payouts.Requests.{is_candidate}
use transpo24_backend_nest_j.Payouts.Transfers.{KeptByPayout}
use transpo24_backend_nest_j.Payouts.Transfers.Once.{
  MadeTransfer, is_remembered, key_life_ms, IsIdempotent, PayoutEvent, attempted, run_event,
  run_events, run_events-one_transfer,
}
use transpo24_backend_nest_j.Payouts.Retries.{swept_row, fail-IsSwept}
use transpo24_backend_nest_j.Payouts.Outcome.{IsSettled}
use transpo24_backend_nest_j.Payouts.Outcome.Repeats.{attempt-IsFinal}

record Bank : Type 0 where
  transfers : List MadeTransfer
  clock : ℕ
  refuses : Bool
  jobs : ℕ

abbrev silent : StripeApi Bank
silent = record {
  inspect_authorization = λ id account w. (err (stripe_failed 0), w);
  cancel_payment_intent_if_exists = λ id account w. (err (stripe_failed 0), w);
  capture_authorization = λ id amount kind account fee w. (err (stripe_failed 0), w);
  create_manual_authorization =
      λ customer account fee amount currency method attempt w. (err (stripe_failed 0), w);
  confirm_manual_authorization = λ id attempt account customer method w. (err (stripe_failed 0), w);
  resume_manual_authentication =
      λ intent attempt account customer method w. (err (stripe_failed 0), w);
}

abbrev is_known : Transfer → Bank → Bool
is_known t w = is_remembered t.idempotency_key w.clock w.transfers

abbrev bank : PayoutApi Bank
bank = record {
  require_platform_processing_fees = λ account w. (ok tt, w);
  retrieve_payment_intent = λ id account w. (ok (intent_of IntentStatus.succeeded), w);
  create_transfer = λ t w. if is_known t w then (ok 900, w) else (
    ok 900,
    record w { transfers = record { transfer = t; made_at = w.clock } ∷ w.transfers },
  );
  notify_trip_funds_transferred = λ notice w. (ok tt, w);
  write =
      λ w. if w.refuses then (err (stripe_failed 1), record w { refuses = false }) else (ok tt, w);
  job_state = λ trip_id w. (ok none, w);
  remove_job = λ trip_id w. (ok tt, w);
  add_job =
      λ trip_id reason delay w. (ok tt, record w { jobs = w.jobs + 1; clock = w.clock + delay });
  has_queue = true;
  direct_charges_enabled = false;
}

abbrev ids : TripIds
ids = record { trip_id = 3; earning_id = 8 }

abbrev bank_transfers : Bank → List MadeTransfer
bank_transfers w = w.transfers

abbrev bank_clock : Bank → ℕ
bank_clock w = w.clock

write_keeps :
    (Q : Bank → Type 0) (b : Bool) (w : Bank)
    → w.refuses ≡ b
    → Q w
    → Q (record w { refuses = false })
    → Q (bank.write w).1
write_keeps Q true w e h k = simp e k
write_keeps Q false w e h k = simp e h

bank_others :
    (Q : Bank → Type 0)
    → ((w w' : Bank)
        → bank_transfers w' ≡ bank_transfers w
        → bank_clock w ≤ bank_clock w'
        → Q w
        → Q w')
    → KeptByPayout bank silent Q
bank_others Q f = record {
  queue = record {
    looked = λ trip_id w h. h;
    removed = λ trip_id w h. h;
    added = λ trip_id reason delay w h. f w _ refl (omega arith) h;
  };
  payments = record {
    others = record {
      inspect = λ id account w h. h;
      cancel = λ id account w h. h;
      create = λ customer account fee amount currency method attempt w h. h;
      confirm = λ id attempt account customer method w h. h;
      resume = λ intent attempt account customer method w h. h;
    };
    capture = λ id amount kind account fee w h. h;
  };
  fees = λ account w h. h;
  retrieved = λ id account w h. h;
  notified = λ notice w h. h;
  written = λ w h. write_keeps Q w.refuses w refl h (f w _ refl (omega arith) h);
}

same_clock : (t : Transfer) (w : Bank) → (bank.create_transfer t w).1.clock ≡ w.clock
same_clock t w = ground arith

bank-IsIdempotent : IsIdempotent bank bank_clock bank_transfers
bank-IsIdempotent = record {
  goes_on = λ t w. omega (arith, same_clock t w);
  creates = λ t w. elim (Bool-cases (is_known t w)) [
    | inl known ↦ inl (ground arith)
    | inr fresh ↦ inr (w.clock, omega arith, omega (arith, same_clock t w), ground arith, fresh)
  ];
}

abbrev earning : Earning
earning = record {
  driver_id = 2;
  gross_amount = 8500;
  platform_fee_amount = 0;
  net_amount = 8500;
  currency = 1;
  available_at = some 1000;
  status = EarningStatus.pending;
}

abbrev confirmed : Request
confirmed = record (request_of RequestStatus.delivered) {
  delivery_confirmed_by_customer_at = some 900;
}

abbrev collected : Settlement
collected = record settlement { status = SettlementStatus.collected; collected_amount = 10500 }

abbrev rows_of : Request → Settlement → Db
rows_of request settlement = record {
  booking_hold = some (hold_of PaymentProvider.stripe none);
  request = some request;
  settlement = some settlement;
  earning = some earning;
  wallet = none;
  transactions = [];
  offer = none;
  customer = none;
  payout = record {
    paid_out_at = none;
    stripe_transfer_id = none;
    stripe_transfer_status = none;
    payout_attempt_count = 0;
    last_payout_attempt_at = none;
  };
  account =
      some (record {
        id = 2;
        user_id = 20;
        stripe_account_id = some 40;
        stripe_payouts_enabled = true;
      });
}

abbrev payable : St Bank
payable = record {
  db = rows_of confirmed collected;
  world = record { transfers = []; clock = 2000; refuses = false; jobs = 0 };
}

-- The first attempt is refused after its transfer, and the second one completes.
abbrev two_attempts : List PayoutEvent
two_attempts =
    attempted 2000 2000 RequestedBy.automatic_retry
    ∷ attempted 400000 400000 RequestedBy.automatic_retry
    ∷ []

abbrev refused_once : St Bank
refused_once = record payable { world = record payable.world { refuses = true } }

-- The second attempt comes five minutes after the first one, by the clock too.
two_attempts-soon :
    bank_clock (run_events bank silent ids two_attempts refused_once).world < 2000 + key_life_ms
unfolding run_events attempt_driver_payout payout_context has_payable_settlement is_available
    is_transferred is_confirmed ◌>>=◌ catch run_event calculate_next_retry enqueue_driver_payout
two_attempts-soon = omega arith

run_events-one_transfer_example :
    length (bank_transfers (run_events bank silent ids two_attempts refused_once).world) ≤ 0 + 1
run_events-one_transfer_example =
    run_events-one_transfer bank_clock bank_transfers bank-IsIdempotent bank_others ids two_attempts
      refused_once two_attempts-soon

-- A day after the delivery, which nobody has confirmed.
abbrev unconfirmed : St Bank
unconfirmed = record payable { db = rows_of (request_of RequestStatus.delivered) collected }

abbrev context_of : Db → Request → PayoutContext
context_of db request = record {
  earning = earning;
  settlement = collected;
  hold = hold_of PaymentProvider.stripe none;
  trip = request;
  account = record {
    id = 2;
    user_id = 20;
    stripe_account_id = some 40;
    stripe_payouts_enabled = true;
  };
  row = db.payout;
}

abbrev Untouched : Bank → Type 0
Untouched w = w.transfers ≡ []

-- The first attempt pays 85.00 of 105.00.
payable-pays :
    let (answer, after) =
      attempt_driver_payout bank ids silent 2000 2000 RequestedBy.automatic_retry payable in
    (answer ≡ ok (completed (some 900) none))
    × (map (λ t. t.transfer.amount) after.world.transfers ≡ 8500 ∷ [])
unfolding attempt_driver_payout payout_context has_payable_settlement is_available is_transferred
    is_confirmed ◌>>=◌ catch
payable-pays = (refl, refl)

attempt-IsFinal_example :
    let after =
      (attempt_driver_payout bank ids silent 2000 2000 RequestedBy.automatic_retry payable).1 in
    IsSettled after.db
    × ((now' later' : ℕ) (by' : RequestedBy)
        → let again = attempt_driver_payout bank ids silent now' later' by' after in
          (again.0 ≡ ok (completed after.db.payout.stripe_transfer_id (some already_completed)))
          × (again.1.world ≡ after.world)
          × IsSettled again.1.db)
attempt-IsFinal_example =
    attempt-IsFinal bank ids silent 2000 2000 RequestedBy.automatic_retry payable
      (completed (some 900) none) payable-pays.0 refl

-- The sixth failure still sets a time, a day ahead.
fail-IsSwept_example :
    let c = record (context_of payable.db confirmed) {
      row = record payable.db.payout { payout_attempt_count = 5 };
    } in
    let db = (fail_driver_payout_attempt bank ids 2000 c onboarding_incomplete payable).1.db in
    (t : Settlement) × (db.settlement ≡ some t)
    × (5 < 6
        → (at : ℕ) × (2000 + 5 * 60 * 1000 ≤ at)
          × (at ≤ 2000 + 24 * 60 * 60 * 1000)
          × (t.next_payout_retry_at ≡ some at)
          × (is_candidate 90000000 (swept_row 3 confirmed t none db.payout) ≡ leb at 90000000))
    × (6 ≤ 5 → is_candidate 90000000 (swept_row 3 confirmed t none db.payout) ≡ false)
fail-IsSwept_example =
    fail-IsSwept bank ids 2000 90000000
      (record (context_of payable.db confirmed) {
        row = record payable.db.payout { payout_attempt_count = 5 };
      })
      onboarding_incomplete 3 confirmed collected none payable refl refl
