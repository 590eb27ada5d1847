-- ===== src/Reservations/Withdrawals.antt =====
-- What the payments service writes to the request when it cancels a booking: `cancelTx` and
-- `finishOperation` of src/payments/delayed-booking-payments.service.ts and `cancelCollectedTripTx` of
-- src/payments/payments.service.ts. The driver, the accepted offer and the offers stay.
use transpo24_backend_nest_j.Base.{Option, none, some}
use transpo24_backend_nest_j.Domain
use transpo24_backend_nest_j.Policy.Reservation.{DeferredState}
use transpo24_backend_nest_j.Reservations.State.{
  Request, ReservationDb, BookingWrite, payment_only, booking_withdrawn, cancellation_finished,
}

abbrev ended_state : Option DeferredState → Option DeferredState
ended_state none = none
ended_state (some s) = some DeferredState.cancelled

abbrev withdrawn_request : Option Request → Option Request
withdrawn_request none = none
withdrawn_request (some r) = some (record r {
  status = Domain.cancelled;
  deferred_payment_state = ended_state r.deferred_payment_state;
})

-- `cancelTx`: a booking whose payment was not captured.
unfoldable pub withdrawn : ReservationDb → ReservationDb
withdrawn db = record db { request = withdrawn_request db.request }

abbrev finished_request : Option Request → Option Request
finished_request none = none
finished_request (some r) = some (record r { status = Domain.cancelled })

-- A cancellation that `finishOperation` carries through, or that of a collected trip: the state of
-- the reservation stays too.
unfoldable pub finished : ReservationDb → ReservationDb
finished db = record db { request = finished_request db.request }

unfoldable pub written : BookingWrite → ReservationDb → ReservationDb
unfolding withdrawn finished
written payment_only db = db
written booking_withdrawn db = withdrawn db
written cancellation_finished db = finished db
