-- ===== src/Reservations/Tests.antt =====
-- A reservation on concrete rows: it is made, confirmed and paid, or given up at its deadline.
use transpo24_backend_nest_j.Base.{
  ℕ, ◌+◌, ◌*◌, ◌≤◌, ◌<◌, ◌≡◌, ◌↔◌, refl, true, false, Option, none, some, List, [], ◌∷◌, ◌++◌,
  is_some, if◌then◌else◌, map, ok, arith, ◌⊎◌,
}
use transpo24_backend_nest_j.Base.Int.{pos}
use transpo24_backend_nest_j.Domain.{RequestStatus, DriverStatus, furniture_transport}
use transpo24_backend_nest_j.Domain
use transpo24_backend_nest_j.Payments.State.{ConfirmationState, PaymentStatus}
use transpo24_backend_nest_j.Policy.Reservation.{
  DeferredState, should_defer_transport_payment, confirmation_window, reservation_summary,
}
use transpo24_backend_nest_j.Reservations.State.{
  payment_only, booking_withdrawn, cancellation_finished, Driver, Offer, OfferStatus,
  ReservationHold, Request, Notice, NoticeType, logged, ◌>>=◌, ReservationDb, PaymentService,
}
use transpo24_backend_nest_j.Reservations.Transactions.{
  reserve_tx, confirm_tx, reconcile_tx, hold_to_pay,
}
use transpo24_backend_nest_j.Reservations.Notices.{notify, marked, notify_once}
use transpo24_backend_nest_j.Reservations.Events.{
  World, Event, reserve_call, confirm_call, sweep_call, offer_made, hold_written, booking_written,
  run_events,
}
use transpo24_backend_nest_j.Reservations.Guards.{require_owner, can_confirm_and_pay}
use transpo24_backend_nest_j.Reservations.Safety.{IsSafe}
use transpo24_backend_nest_j.Reservations.Runs.{run_events-IsSafe}
use transpo24_backend_nest_j.Reservations.Deadline.{IsSettled, reconcile_tx-IsSettled}
use transpo24_backend_nest_j.Reservations.Confirming.{confirm_tx-window}
use transpo24_backend_nest_j.Reservations.Once.{notices, notify_once-sends}
use transpo24_backend_nest_j.Reservations.Sweep.{Table, sweep}
use transpo24_backend_nest_j.Reservations.Sweep.Once.{IsPaging, swept_once, sweep-ends}

abbrev pub new_hold : ReservationHold
new_hold = record {
  accepted_offer_id = 21;
  status = PaymentStatus.hold_pending;
  confirmation_state = ConfirmationState.no_state;
  confirmation_started_at = none;
  payment_method = 1;
  authorized_at = none;
  captured_at = none;
}

abbrev captured_hold : ℕ → ReservationHold
captured_hold at = record new_hold {
  status = PaymentStatus.payment_captured;
  captured_at = some at;
}

abbrev pub payments : PaymentService
payments = record {
  get_request_payment = λ hold. ok (record { hold = hold; booking = payment_only });
  create_hold_for_accepted_offer = λ offer method. ok (record new_hold { payment_method = method });
  refund_unpaid_reservation = λ hold. ok (record {
    hold = record hold { status = PaymentStatus.refunded };
    booking = cancellation_finished;
  });
  cancel_request_payment = λ hold. ok (record {
    hold = record hold { status = PaymentStatus.released };
    booking = if is_some hold.confirmation_started_at then booking_withdrawn else payment_only;
  });
  awaits_capture = λ hold. false;
}

abbrev pub world : World
world = record {
  payments = payments;
  delivers = λ n. true;
  booking_day = λ zone at. at;
  ensure_room = λ r offer. ok tt;
}

abbrev driver : Driver
driver = record {
  id = 7;
  user_id = 70;
  status = DriverStatus.approved;
  is_profile_completed = true;
  vehicles = 1;
  is_online = true;
}

abbrev pub offer : ℕ → Offer
offer id = record {
  id = id;
  request_id = 5;
  driver_id = 7;
  price = 10000;
  currency = 1;
  status = OfferStatus.pending;
  accepted_at = none;
  rejected_at = none;
  cancelled_at = none;
}

-- The pickup is in thirty days.
abbrev pickup : ℕ
pickup = 2592000000

abbrev pub request : Request
request = record {
  id = 5;
  customer_id = 3;
  service_key = furniture_transport;
  time_zone = none;
  scheduled_pickup_at = some pickup;
  status = Domain.quoted;
  deferred_payment_state = none;
  accepted_offer_id = none;
  assigned_driver_id = none;
  accepted_at = none;
  confirmation_opens_at = none;
  payment_deadline_at = none;
  pickup_confirmed_at = none;
  reservation_paid_at = none;
  reservation_refunded_at = none;
  reservation_selected_notified_at = none;
  reservation_reminder_sent_at = none;
  reservation_payment_notified_at = none;
  reservation_cancellation_notified_at = none;
}

abbrev pub rows : ReservationDb
rows = record {
  request = some request;
  hold = none;
  offers = offer 21 ∷ offer 22 ∷ [];
  drivers = driver ∷ [];
  sent = [];
}

-- 36 hours before the pickup.
abbrev in_window : ℕ
in_window = 2462400000

abbrev calls : List Event
calls =
    reserve_call 1000 3 21 true true
    ∷ offer_made (offer 23)
    ∷ confirm_call in_window 3 true (some 1)
    ∷ hold_written (captured_hold (in_window + 5))
    ∷ sweep_call (in_window + 10)
    ∷ sweep_call (in_window + 20)
    ∷ []

rows-IsSafe : IsSafe rows
rows-IsSafe = ground arith

-- The payments service cancels the paid booking, with a fee.
abbrev cancelled_calls : List Event
cancelled_calls = calls ++ (booking_written cancellation_finished ∷ sweep_call 9999999999 ∷ [])

run_events-IsSafe_example : IsSafe (run_events world cancelled_calls rows)
run_events-IsSafe_example = run_events-IsSafe world cancelled_calls rows rows-IsSafe

abbrev reserved_row : Request
reserved_row = record request {
  status = Domain.reserved;
  deferred_payment_state = some DeferredState.waiting;
  accepted_offer_id = some 21;
  assigned_driver_id = some 7;
  accepted_at = some 1000;
  confirmation_opens_at = some (pos 2419200000);
  payment_deadline_at = some (pos 2505600000);
}

abbrev reserved : ReservationDb
reserved = record rows {
  request = some reserved_row;
  offers =
      record (offer 21) { status = OfferStatus.accepted; accepted_at = some 1000 }
      ∷ record (offer 22) { status = OfferStatus.rejected; rejected_at = some 1000 }
      ∷ [];
}

reserves_rows : reserve_tx world.booking_day world.ensure_room 1000 3 21 rows ≡ ok reserved
unfolding reserve_tx require_owner should_defer_transport_payment confirmation_window
reserves_rows = refl

abbrev confirmed : ReservationDb
confirmed = record reserved {
  request = some (record reserved_row {
    deferred_payment_state = some DeferredState.payment_pending;
    pickup_confirmed_at = some in_window;
  });
  hold = some new_hold;
}

confirms_rows : confirm_tx payments in_window 3 1 reserved ≡ ok confirmed
unfolding confirm_tx hold_to_pay require_owner can_confirm_and_pay reservation_summary
confirms_rows = refl

makes_hold :
    (o : Offer) → (hold : ReservationHold) × (payments.create_hold_for_accepted_offer o 1 ≡ ok hold)
makes_hold o = (new_hold, refl)

confirm_tx-window_example :
    ((after : ReservationDb) × (confirm_tx payments in_window 3 1 reserved ≡ ok after))
    ↔ ((pickup ≤ in_window + 48 * 3600000) × (in_window + 24 * 3600000 < pickup))
confirm_tx-window_example =
    confirm_tx-window world.booking_day world.ensure_room payments 1000 3 21 pickup in_window 1
      request rows reserved makes_hold refl refl refl reserves_rows

-- The money comes a minute after the deadline.
abbrev late : ReservationDb
late = record confirmed { hold = some (captured_hold 2505660000) }

late-IsSafe : IsSafe late
late-IsSafe = ground arith

reconcile_tx-IsSettled_example :
    IsSettled
      (pos 2505600000)
      late
      (record reserved_row {
        deferred_payment_state = some DeferredState.payment_pending;
        pickup_confirmed_at = some in_window;
      })
      (reconcile_tx 2505660001 late)
reconcile_tx-IsSettled_example =
    reconcile_tx-IsSettled 2505660001 (pos 2505600000)
      (record reserved_row {
        deferred_payment_state = some DeferredState.payment_pending;
        pickup_confirmed_at = some in_window;
      })
      late refl late-IsSafe refl refl refl

notify_once-sends_example :
    let after = (notify_once world.delivers 1001 NoticeType.furniture_reserved reserved).1 in
    (notify_once world.delivers 1001 NoticeType.furniture_reserved reserved ≡ (ok tt, after))
    × (after.request ≡ some (marked NoticeType.furniture_reserved 1001 reserved_row))
    × (after.sent ≡ notices NoticeType.furniture_reserved reserved_row reserved)
    × (notify_once world.delivers 2002 NoticeType.furniture_reserved after ≡ (ok tt, after))
notify_once-sends_example =
    notify_once-sends world.delivers 1001 2002 NoticeType.furniture_reserved reserved_row reserved
      refl refl refl (λ n. refl)

-- Requests 4 and 9 are due, each page is found anew.
abbrev find_page : Table → Option ℕ → List ℕ
find_page table none = 4 ∷ 9 ∷ []
find_page table (some id) = []

find_page-IsPaging : IsPaging 10 find_page
find_page-IsPaging table none = omega arith
find_page-IsPaging table (some id) = tt

sweep-ends_example :
    (final : Table) × (sweep payments world.delivers in_window find_page 1 none (λ k. reserved)
      ≡ some final)
    × ((k : ℕ)
        → (final k ≡ reserved)
          ⊎ (final k ≡ swept_once payments world.delivers in_window 10 reserved))
sweep-ends_example =
    sweep-ends payments world.delivers in_window 10 find_page 1 (λ k. reserved) find_page-IsPaging
      (omega arith)

abbrev state_of : Option Request → Option DeferredState
state_of none = none
state_of (some r) = r.deferred_payment_state

-- What the run leaves: the request is paid, and four notices went out, none of them twice.
paid_run :
    let after = run_events world calls rows in
    (state_of after.request ≡ some DeferredState.paid)
    × (map (λ (n : Notice). n.user_id) after.sent ≡ 70 ∷ 3 ∷ 70 ∷ 3 ∷ [])
unfolding run_events logged ◌>>=◌ should_defer_transport_payment notify confirmation_window
paid_run = (refl, refl)
