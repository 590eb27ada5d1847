-- ===== src/Reservations/Guards.antt =====
-- The tests and guards of src/customer-requests/furniture-reservations.service.ts.
use transpo24_backend_nest_j.Base.{
  ℕ, ltb, ◌==◌, Bool, true, false, not, ◌&&◌, ◌||◌, Option, none, some, Result, ok, err, ◌>>=◌,
  ◌>>◌, throw_if,
}
use transpo24_backend_nest_j.Base.Int.{ℤ, pos, ltb_ℤ}
use transpo24_backend_nest_j.Domain.{RequestStatus, is_approved}
use transpo24_backend_nest_j.Domain
use transpo24_backend_nest_j.Payments.State.{ConfirmationState, PaymentStatus}
use transpo24_backend_nest_j.Policy.Reservation.{
  DeferredState, has_come, ReservationSummary, reservation_summary,
}
use transpo24_backend_nest_j.Reservations.State.{
  ReservationError, request_not_found, not_owner, driver_ineligible, OfferStatus, Driver,
  ReservationHold, Request,
}

-- `unpaid`
abbrev pub is_unpaid : DeferredState → Bool
is_unpaid DeferredState.waiting = true
is_unpaid DeferredState.confirmation_due = true
is_unpaid DeferredState.payment_pending = true
is_unpaid _ = false

abbrev pub is_paid : Option DeferredState → Bool
is_paid (some DeferredState.paid) = true
is_paid _ = false

abbrev pub is_ended : DeferredState → Bool
is_ended DeferredState.expired = true
is_ended DeferredState.cancelled = true
is_ended _ = false

abbrev pub is_waiting : Option DeferredState → Bool
is_waiting (some DeferredState.waiting) = true
is_waiting _ = false

abbrev pub is_open : RequestStatus → Bool
is_open Domain.pending_quotes = true
is_open Domain.quoted = true
is_open _ = false

abbrev pub is_pending : OfferStatus → Bool
is_pending OfferStatus.pending = true
is_pending _ = false

abbrev pub is_accepted : OfferStatus → Bool
is_accepted OfferStatus.accepted = true
is_accepted _ = false

abbrev pub is_captured : PaymentStatus → Bool
is_captured PaymentStatus.payment_captured = true
is_captured _ = false

abbrev pub is_held : PaymentStatus → Bool
is_held PaymentStatus.held = true
is_held _ = false

abbrev pub is_refunded : PaymentStatus → Bool
is_refunded PaymentStatus.refunded = true
is_refunded _ = false

-- `['PAYMENT_CANCELLED', 'PAYMENT_RELEASED']`
abbrev pub is_withdrawn : PaymentStatus → Bool
is_withdrawn PaymentStatus.payment_cancelled = true
is_withdrawn PaymentStatus.released = true
is_withdrawn _ = false

abbrev pub is_confirmed : ConfirmationState → Bool
is_confirmed ConfirmationState.confirmed = true
is_confirmed _ = false

abbrev pub or_throw : {A : Type 0} → Option A → ReservationError → Result ReservationError A
or_throw none e = err e
or_throw (some a) e = ok a

abbrev pub is_id : Option ℕ → ℕ → Bool
is_id none id = false
is_id (some a) id = a == id

unfoldable pub require_owner : Option Request → ℕ → Result ReservationError Request
require_owner found customer_id = do
  request ← or_throw found request_not_found
  throw_if (not (request.customer_id == customer_id)) not_owner
  ok request

-- The driver is there, approved, with a complete profile and a fitting vehicle.
abbrev pub is_eligible : Option Driver → Bool
is_eligible none = false
is_eligible (some d) = is_approved d.status && d.is_profile_completed && ltb 0 d.vehicles

abbrev pub require_driver : Option Driver → Result ReservationError (Unit {0})
require_driver driver = throw_if (not (is_eligible driver)) driver_ineligible

abbrev pub started_at : Option ReservationHold → Option ℕ
started_at none = none
started_at (some hold) = hold.confirmation_started_at

-- `reservationSummary(request)`
abbrev pub summary_of : Request → Option ReservationHold → ℕ → Option ReservationSummary
summary_of request hold now =
    reservation_summary request.deferred_payment_state (started_at hold)
      request.confirmation_opens_at request.payment_deadline_at request.pickup_confirmed_at
      request.reservation_paid_at request.status now

abbrev may_confirm : Option ReservationSummary → Bool
may_confirm none = false
may_confirm (some s) = s.can_confirm_and_pay

-- `reservationSummary(request)?.canConfirmAndPay`
unfoldable pub can_confirm_and_pay : Request → Option ReservationHold → ℕ → Bool
unfolding reservation_summary
can_confirm_and_pay request hold now = may_confirm (summary_of request hold now)

-- The money of the hold is captured or reserved.
abbrev pub is_secured : Option ReservationHold → Bool
is_secured none = false
is_secured (some hold) =
    is_captured hold.status || is_held hold.status && is_confirmed hold.confirmation_state

abbrev pub or_else : {A : Type 0} → Option A → Option A → Option A
or_else none b = b
or_else (some a) b = some a

-- `hold.authorizedAt ?? hold.capturedAt`
abbrev pub secured_at : Option ReservationHold → Option ℕ
secured_at none = none
secured_at (some hold) = or_else hold.authorized_at hold.captured_at

-- A missing deadline is over.
abbrev pub is_expired : Option ℤ → ℕ → Bool
is_expired none now = true
is_expired (some deadline) now = has_come deadline now

-- `at < deadline`, where both are there.
abbrev pub is_before : Option ℕ → Option ℤ → Bool
is_before none deadline = false
is_before (some at) none = false
is_before (some at) (some deadline) = ltb_ℤ (pos at) deadline
