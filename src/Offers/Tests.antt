-- ===== src/Offers/Tests.antt =====
-- An offer on concrete rows: it is accepted, paid and finalised, or given up.
use transpo24_backend_nest_j.Base.{
  ◌≡◌, refl, true, false, some, List, [], ◌∷◌, Result, ok, err, arith, ◌⊎◌,
}
use transpo24_backend_nest_j.Domain
use transpo24_backend_nest_j.Payments.State.{PaymentStatus}
use transpo24_backend_nest_j.Reservations.State.{
  ReservationError, booking_withdrawn, payment_in_progress, payment_not_collected, Offer,
  OfferStatus, Request, ReservationHold, ReservationDb,
}
use transpo24_backend_nest_j.Reservations.Guards.{require_owner}
use transpo24_backend_nest_j.Reservations.Events.{hold_written, booking_written}
use transpo24_backend_nest_j.Reservations.Tests.{new_hold, payments, world, request, offer, rows}
use transpo24_backend_nest_j.Offers.Guards.{require_offer_driver}
use transpo24_backend_nest_j.Offers.Accept.{accept_tx, pay_offer}
use transpo24_backend_nest_j.Offers.Finalize.{finalize_tx, assign_driver}
use transpo24_backend_nest_j.Offers.Calls.{AcceptInput, assign_or_release}
use transpo24_backend_nest_j.Offers.Rows.{IsBooked}
use transpo24_backend_nest_j.Offers.Paying.{IsPayment, accept_tx-IsPayment}
use transpo24_backend_nest_j.Offers.Runs.{
  BookingEvent, reservation, accept_call, assign_call, run_booking_events,
  run_booking_events-IsBooked,
}
use transpo24_backend_nest_j.Offers.Assigned.{
  IsAssignment, finalize_tx-IsAssignment, Released, assign_or_release-Released,
}

abbrev ensure_room : Request → Offer → Result ReservationError (Unit {0})
ensure_room r o = ok tt

abbrev tell : Request → Result ReservationError (Unit {0})
tell r = ok tt

-- The request cannot wait: the customer's client does not offer reservations.
abbrev input : AcceptInput
input = record {
  customer_id = 3;
  offer_id = 21;
  has_ids = true;
  confirm = true;
  payment_method = some 1;
  supported = false;
  enabled = true;
}

abbrev held_hold : ReservationHold
held_hold = record new_hold { status = PaymentStatus.held }

-- Accepted, held, finalised, both once more, and cancelled by the payments service.
abbrev booking : List BookingEvent
booking =
    accept_call 1000 input
    ∷ reservation (hold_written held_hold)
    ∷ assign_call 2000 3
    ∷ accept_call 3000 input
    ∷ assign_call 4000 3
    ∷ reservation (booking_written booking_withdrawn)
    ∷ assign_call 5000 3
    ∷ []

rows-IsBooked : IsBooked rows
rows-IsBooked = ground arith

run_booking_events-IsBooked_example : IsBooked (run_booking_events world tell booking rows)
run_booking_events-IsBooked_example =
    run_booking_events-IsBooked world tell booking rows rows-IsBooked

abbrev paying : ReservationDb
paying = record rows { hold = some held_hold }

accepts_rows :
    accept_tx payments ensure_room 3 21 1 rows ≡ ok (record rows { hold = some new_hold })
unfolding accept_tx pay_offer require_offer_driver require_owner
accepts_rows = refl

accept_tx-IsPayment_example :
    (record rows { hold = some new_hold } ≡ rows)
    ⊎ IsPayment payments 21 1 rows (record rows { hold = some new_hold })
accept_tx-IsPayment_example =
    accept_tx-IsPayment payments ensure_room 3 21 1 rows (record rows { hold = some new_hold })
      accepts_rows

refuses_second : accept_tx payments ensure_room 3 22 1 paying ≡ err payment_in_progress
unfolding accept_tx require_owner
refuses_second = refl

abbrev assigned : ReservationDb
assigned = record paying {
  request = some (record request {
    status = Domain.driver_going_to_pickup;
    assigned_driver_id = some 7;
    accepted_offer_id = some 21;
    accepted_at = some 2000;
  });
  offers =
      record (offer 21) { status = OfferStatus.accepted; accepted_at = some 2000 }
      ∷ record (offer 22) { status = OfferStatus.rejected; rejected_at = some 2000 }
      ∷ [];
}

finalizes_rows : finalize_tx ensure_room 2000 3 paying ≡ ok assigned
unfolding finalize_tx assign_driver require_owner
finalizes_rows = refl

finalize_tx-IsAssignment_example : IsAssignment 2000 paying assigned
finalize_tx-IsAssignment_example =
    finalize_tx-IsAssignment ensure_room 2000 3 request paying assigned refl refl finalizes_rows

-- The payment is not there yet.
abbrev unpaid : ReservationDb
unpaid = record rows { hold = some new_hold }

finalize_fails : finalize_tx ensure_room 2000 3 unpaid ≡ err payment_not_collected
unfolding finalize_tx require_owner
finalize_fails = refl

assign_or_release-Released_example :
    ((assign_or_release payments ensure_room 2000 3 unpaid).0 ≡ err payment_not_collected)
    × Released payments 3 unpaid.request unpaid.hold unpaid
        (assign_or_release payments ensure_room 2000 3 unpaid).1
assign_or_release-Released_example =
    assign_or_release-Released payments ensure_room 2000 3 unpaid payment_not_collected
      finalize_fails
