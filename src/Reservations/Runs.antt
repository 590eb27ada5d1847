-- ===== src/Reservations/Runs.antt =====
-- What any events leave of a reservation (src/customer-requests/furniture-reservations.service.ts).
use transpo24_backend_nest_j.Base.{◌≡◌, refl, false, some, List, [], ◌∷◌, ◌++◌}
use transpo24_backend_nest_j.Reservations.State.{
  OfferStatus, Offer, Driver, ReservationHold, ReservationDb,
}
use transpo24_backend_nest_j.Reservations.Guards.{is_accepted}
use transpo24_backend_nest_j.Reservations.Notices.{marked_row}
use transpo24_backend_nest_j.Reservations.Keeping.{
  Leaves, IsKept, Keeps-transaction, marked_leaves, try_reserve-Keeps, confirm-Keeps,
  finalize-Keeps, cancel-Keeps, sweep_one-Keeps,
}
use transpo24_backend_nest_j.Reservations.Events.{
  World, Step, reserves, confirms, reconciles, cancels, marks, refunds, Event, reserve_call,
  confirm_call, finalize_call, cancel_call, sweep_call, step, hold_written, booking_written,
  drivers_written, offer_made, run_step, run_event, run_events,
}
use transpo24_backend_nest_j.Reservations.Safety.{IsSafe, IsSafe-IsKept, CoherentRows-append}

safe : (w : World) → IsKept IsSafe w.payments w.booking_day w.ensure_room
safe w = IsSafe-IsKept w.payments w.booking_day w.ensure_room

-- What other services write keeps the predicate too.
pub record IsWritten (P : ReservationDb → Type 0) : Type 0 where
  pub hold : (h : ReservationHold) (db : ReservationDb) → P db → P (record db { hold = some h })
  pub drivers : (ds : List Driver) (db : ReservationDb) → P db → P (record db { drivers = ds })
  pub offer :
      (o : Offer) (db : ReservationDb)
      → is_accepted o.status ≡ false
      → P db
      → P (record db { offers = db.offers ++ (o ∷ []) })

IsSafe-IsWritten : IsWritten IsSafe
IsSafe-IsWritten = record {
  hold = λ hold db h. h;
  drivers = λ ds db h. h;
  offer = λ o db e h. CoherentRows-append db.request db.offers o e h;
}

module _ (P : ReservationDb → Type 0) (w : World)
    (k : IsKept P w.payments w.booking_day w.ensure_room) where
  step_leaves : (s : Step) (db : ReservationDb) → P db → Leaves P (run_step w s db)
  unfolding run_step marked_row
  step_leaves (reserves now customer_id offer_id) db p = k.reserved now customer_id offer_id db p
  step_leaves (confirms now customer_id method) db p = k.confirmed now customer_id method db p
  step_leaves (reconciles now) db p = k.reconciled now db p
  step_leaves (cancels now customer_id) db p = k.cancelled now customer_id db p
  step_leaves (marks type now) db p =
      marked_leaves P w.payments w.booking_day w.ensure_room k type now db db.request refl p
  step_leaves (refunds now) db p = k.refunded now db p

  pub run_event_keeps : IsWritten P → (e : Event) (db : ReservationDb) → P db → P (run_event w e db)
  unfolding run_event
  run_event_keeps o (reserve_call now customer_id offer_id supported enabled) db h =
      (try_reserve-Keeps P w.payments w.booking_day w.ensure_room k w.delivers now customer_id
          offer_id supported enabled).at
        db h
  run_event_keeps o (confirm_call now customer_id confirmed method) db h =
      (confirm-Keeps P w.payments w.booking_day w.ensure_room k now customer_id confirmed method).at
        db h
  run_event_keeps o (finalize_call now customer_id) db h =
      (finalize-Keeps P w.payments w.booking_day w.ensure_room k now customer_id).at db h
  run_event_keeps o (cancel_call now customer_id) db h =
      (cancel-Keeps P w.payments w.booking_day w.ensure_room k w.delivers now customer_id).at db h
  run_event_keeps o (sweep_call now) db h =
      (sweep_one-Keeps P w.payments w.booking_day w.ensure_room k w.delivers now).at db h
  run_event_keeps o (step s) db h =
      (Keeps-transaction {P = P} (run_step w s) (step_leaves s)).at db h
  run_event_keeps o (hold_written hold) db h = o.hold hold db h
  run_event_keeps o (booking_written b) db h = k.booked b db h
  run_event_keeps o (drivers_written drivers) db h = o.drivers drivers db h
  run_event_keeps o (offer_made offer) db h =
      o.offer (record offer { status = OfferStatus.pending }) db refl h

run_event-IsSafe :
    (w : World) (e : Event) (db : ReservationDb) → IsSafe db → IsSafe (run_event w e db)
run_event-IsSafe w e db h = run_event_keeps IsSafe w (safe w) IsSafe-IsWritten e db h

-- Whatever calls of the reservations come, in whatever order and also where they overlap, throw or are
-- repeated, and wherever the payments service cancels the booking or writes its hold: a reserved
-- request waits for its payment, and one that waits is reserved or was cancelled; a waiting or paid one
-- has a driver, an accepted offer and its dates; no offer of the request is accepted but the one that
-- it holds; a paid one was confirmed and has its date of payment; a reservation that expired or was
-- cancelled has a cancelled request, and without a driver it has no accepted offer; an expired one has
-- no driver.
pub run_events-IsSafe :
    (w : World) (es : List Event) (db : ReservationDb) → IsSafe db → IsSafe (run_events w es db)
unfolding run_events
run_events-IsSafe w [] db h = h
run_events-IsSafe w (e ∷ es) db h =
    run_events-IsSafe w es (run_event w e db) (run_event-IsSafe w e db h)
