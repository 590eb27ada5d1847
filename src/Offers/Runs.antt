-- ===== src/Offers/Runs.antt =====
-- What any events leave of a booking: the calls of
-- src/customer-requests/customer-requests.service.ts and of furniture-reservations.service.ts, the
-- transactions of calls that overlap, and what other services write.
use transpo24_backend_nest_j.Base.{ℕ, Bool, Option, none, some, List, [], ◌∷◌, Result, ok, err}
use transpo24_backend_nest_j.Reservations.State.{
  ReservationError, Request, Offer, ReservationDb, PaymentService, Call, transaction,
}
use transpo24_backend_nest_j.Reservations.Handlers.{NextStep, on_hold, try_reserve, finalize}
use transpo24_backend_nest_j.Reservations.Keeping.{
  Leaves, IsKept, Keeps, rules, on_hold-Keeps, Keeps-transaction, Keeps-return, try_reserve-Keeps,
  finalize-Keeps,
}
use transpo24_backend_nest_j.Reservations.Events.{World, Event, run_event}
use transpo24_backend_nest_j.Reservations.Safety.{CoherentRows-append}
use transpo24_backend_nest_j.Reservations.Runs.{IsWritten, run_event_keeps}
use transpo24_backend_nest_j.Offers.Accept.{accept_tx}
use transpo24_backend_nest_j.Offers.Finalize.{finalize_tx}
use transpo24_backend_nest_j.Offers.Calls.{
  AcceptInput, or_step, recovered, recovered_call, accept_driver_offer, release_payment,
  assign_or_release, finish_assignment, finalize_accepted_offer_payment,
}
use transpo24_backend_nest_j.Offers.Rows.{IsBooked, IsBooked-IsKept}
use transpo24_backend_nest_j.Offers.Booking.{SameRows, accept_tx-SameRows, finalize_tx-IsBooked}

pub data BookingEvent : Type 0 where
  reservation : Event → BookingEvent
  accept_call : (now : ℕ) → AcceptInput → BookingEvent
  assign_call : (now customer_id : ℕ) → BookingEvent
  -- A transaction of a call that has not ended when the next event comes.
  accepts : (customer_id offer_id method : ℕ) → BookingEvent
  assigns : (now customer_id : ℕ) → BookingEvent

module _ (w : World) (tell : Request → Result ReservationError (Unit {0})) where
  unfoldable pub run_booking_event : BookingEvent → ReservationDb → ReservationDb
  unfolding run_event accept_driver_offer finalize_accepted_offer_payment transaction
  run_booking_event (reservation e) db = run_event w e db
  run_booking_event (accept_call now input) db =
      (accept_driver_offer w.payments w.ensure_room w.delivers w.booking_day now input db).1
  run_booking_event (assign_call now customer_id) db =
      (finalize_accepted_offer_payment w.payments w.ensure_room tell now customer_id db).1
  run_booking_event (accepts customer_id offer_id method) db =
      (transaction (accept_tx w.payments w.ensure_room customer_id offer_id method) db).1
  run_booking_event (assigns now customer_id) db =
      (transaction (finalize_tx w.ensure_room now customer_id) db).1

  unfoldable pub run_booking_events : List BookingEvent → ReservationDb → ReservationDb
  run_booking_events [] db = db
  run_booking_events (e ∷ es) db = run_booking_events es (run_booking_event e db)

Keeps-or_step :
    {P : ReservationDb → Type 0} (o : Option NextStep) (rest : Call NextStep)
    → Keeps P rest
    → Keeps P (or_step o rest)
Keeps-or_step none rest k = k
Keeps-or_step (some step) rest k = Keeps-return step

recovered_keeps :
    (P : ReservationDb → Type 0) (cleanup : Call (Unit {0}))
    (r : Result ReservationError (Unit {0})) (db : ReservationDb)
    → Keeps P cleanup
    → P db
    → P (recovered_call cleanup (r, db)).1
recovered_keeps P cleanup (ok u) db k p = p
recovered_keeps P cleanup (err e) db k p = k.at db p

Keeps-recovered :
    {P : ReservationDb → Type 0} (m cleanup : Call (Unit {0}))
    → Keeps P m
    → Keeps P cleanup
    → Keeps P (recovered m cleanup)
unfolding recovered
Keeps-recovered {P} m cleanup k l = record {
  at = λ db p. recovered_keeps P cleanup (m db).0 (m db).1 l (k.at db p);
}

Leaves-map :
    (P Q : ReservationDb → Type 0) (r : Result ReservationError ReservationDb)
    → ((after : ReservationDb) → Q after → P after)
    → Leaves Q r
    → Leaves P r
Leaves-map P Q (ok after) f h = f after h
Leaves-map P Q (err e) f h = tt

IsBooked-same :
    (before after : ReservationDb) → SameRows before after → IsBooked before → IsBooked after
IsBooked-same before after (request, offers, drivers, sent) h = rw (request, offers) h

same_booked :
    (payments : PaymentService) (ensure_room : Request → Offer → Result ReservationError (Unit {0}))
    (customer_id offer_id method : ℕ) (db : ReservationDb)
    → IsBooked db
    → Leaves IsBooked (accept_tx payments ensure_room customer_id offer_id method db)
same_booked payments ensure_room customer_id offer_id method db h =
    Leaves-map IsBooked _ _ (λ after k. IsBooked-same db after k h)
      (accept_tx-SameRows payments ensure_room customer_id offer_id method db)

module _ (w : World) (tell : Request → Result ReservationError (Unit {0})) where
  IsBooked-IsWritten : IsWritten IsBooked
  IsBooked-IsWritten = record {
    hold = λ hold db h. h;
    drivers = λ ds db h. h;
    offer = λ o db e h. (CoherentRows-append db.request db.offers o e h.0, h.1);
  }

  kept : IsKept IsBooked w.payments w.booking_day w.ensure_room
  kept = IsBooked-IsKept w.payments w.booking_day w.ensure_room

  accepting-Keeps :
      (customer_id offer_id method : ℕ)
      → Keeps IsBooked
          (transaction (accept_tx w.payments w.ensure_room customer_id offer_id method))
  accepting-Keeps customer_id offer_id method =
      Keeps-transaction _ (same_booked w.payments w.ensure_room customer_id offer_id method)

  finalizing-Keeps :
      (now customer_id : ℕ)
      → Keeps IsBooked (transaction (finalize_tx w.ensure_room now customer_id))
  finalizing-Keeps now customer_id =
      Keeps-transaction _ (finalize_tx-IsBooked w.ensure_room now customer_id)

  reserving-Keeps :
      (now customer_id offer_id : ℕ) (supported enabled : Bool)
      → Keeps IsBooked (
          try_reserve w.payments w.delivers w.booking_day w.ensure_room now customer_id offer_id
            supported enabled)
  reserving-Keeps now customer_id offer_id supported enabled =
      try_reserve-Keeps IsBooked w.payments w.booking_day w.ensure_room kept w.delivers now
        customer_id offer_id supported enabled

  accept_driver_offer-Keeps :
      (now : ℕ) (input : AcceptInput)
      → Keeps IsBooked
          (accept_driver_offer w.payments w.ensure_room w.delivers w.booking_day now input)
  unfolding accept_driver_offer
  accept_driver_offer-Keeps now input =
      search (rules, reserving-Keeps, Keeps-or_step, accepting-Keeps) depth 16

  cancelling-Keeps : Keeps IsBooked (transaction (on_hold w.payments.cancel_request_payment))
  cancelling-Keeps =
      on_hold-Keeps IsBooked w.payments w.booking_day w.ensure_room kept
        w.payments.cancel_request_payment

  releasing-Keeps :
      (customer_id : ℕ) → Keeps IsBooked (release_payment w.payments w.ensure_room customer_id)
  unfolding release_payment
  releasing-Keeps customer_id = search (rules, cancelling-Keeps) depth 12

  assigning-Keeps :
      (now customer_id : ℕ)
      → Keeps IsBooked (assign_or_release w.payments w.ensure_room now customer_id)
  unfolding assign_or_release
  assigning-Keeps now customer_id =
      search (rules, Keeps-recovered, finalizing-Keeps, releasing-Keeps) depth 12

  finishing-Keeps :
      (already : Bool) → Keeps IsBooked (finish_assignment w.payments w.ensure_room tell already)
  unfolding finish_assignment
  finishing-Keeps already = search rules depth 12

  reserved_finalize-Keeps :
      (now customer_id : ℕ) → Keeps IsBooked (finalize w.payments now customer_id)
  reserved_finalize-Keeps now customer_id =
      finalize-Keeps IsBooked w.payments w.booking_day w.ensure_room kept now customer_id

  finalize_offer-Keeps :
      (now customer_id : ℕ)
      → Keeps IsBooked
          (finalize_accepted_offer_payment w.payments w.ensure_room tell now customer_id)
  unfolding finalize_accepted_offer_payment
  finalize_offer-Keeps now customer_id =
      search (rules, reserved_finalize-Keeps, Keeps-or_step, assigning-Keeps, finishing-Keeps) depth
        16

  run_booking_event-IsBooked :
      (e : BookingEvent) (db : ReservationDb)
      → IsBooked db
      → IsBooked (run_booking_event w tell e db)
  unfolding run_booking_event
  run_booking_event-IsBooked (reservation e) db h =
      run_event_keeps IsBooked w kept IsBooked-IsWritten e db h
  run_booking_event-IsBooked (accept_call now input) db h =
      (accept_driver_offer-Keeps now input).at db h
  run_booking_event-IsBooked (assign_call now customer_id) db h =
      (finalize_offer-Keeps now customer_id).at db h
  run_booking_event-IsBooked (accepts customer_id offer_id method) db h =
      (accepting-Keeps customer_id offer_id method).at db h
  run_booking_event-IsBooked (assigns now customer_id) db h =
      (finalizing-Keeps now customer_id).at db h

  -- A request is booked once: whatever offers are accepted and payments finalised, reserved or not, in
  -- whatever order and also where calls overlap, fail or are repeated, and wherever the payments
  -- service cancels the booking or writes its hold, no offer of a request is accepted but the one that
  -- it holds, a request that holds one has its driver, and what holds of reservations stays true.
  pub run_booking_events-IsBooked :
      (es : List BookingEvent) (db : ReservationDb)
      → IsBooked db
      → IsBooked (run_booking_events w tell es db)
  unfolding run_booking_events
  run_booking_events-IsBooked [] db h = h
  run_booking_events-IsBooked (e ∷ es) db h =
      run_booking_events-IsBooked es (run_booking_event w tell e db)
        (run_booking_event-IsBooked e db h)
