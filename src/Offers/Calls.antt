-- ===== src/Offers/Calls.antt =====
-- `acceptDriverOffer` and `finalizeAcceptedOfferPayment` of
-- src/customer-requests/customer-requests.service.ts around their transactions. A furniture move that
-- may wait is reserved. The events for the sockets are left out, and of the notifications the one
-- that may fail the call is a parameter.
use transpo24_backend_nest_j.Base.{
  ℕ, Bool, false, not, ◌&&◌, ◌==◌, Option, none, some, is_some, if◌then◌else◌, Result, ok, err,
  throw_if,
}
use transpo24_backend_nest_j.Reservations.State.{
  ReservationError, ids_required, confirm_required, method_required, assignment_failed, Offer,
  Request, Notice, ReservationHold, ReservationDb, PaymentService, Call, with_db, ◌>>=◌, ◌>>◌,
  return, read, transaction, logged,
}
use transpo24_backend_nest_j.Reservations.Guards.{or_throw}
use transpo24_backend_nest_j.Reservations.Handlers.{
  NextStep, track_request, wait_confirmation, confirm_payment, on_hold, try_reserve, finalize,
}
use transpo24_backend_nest_j.Offers.Guards.{is_active}
use transpo24_backend_nest_j.Offers.Accept.{accept_tx}
use transpo24_backend_nest_j.Offers.Finalize.{is_assigned, finalize_tx}

pub record AcceptInput : Type 0 where
  pub customer_id : ℕ
  pub offer_id : ℕ
  -- Neither id is blank.
  pub has_ids : Bool
  pub confirm : Bool
  pub payment_method : Option ℕ
  -- For `tryReserve`: the client's flag, and that reservations are switched on.
  pub supported : Bool
  pub enabled : Bool

abbrev pub or_step : Option NextStep → Call NextStep → Call NextStep
or_step none rest = rest
or_step (some step) rest = return step

abbrev pub recovered_call :
    Call (Unit {0})
    → Result ReservationError (Unit {0}) × ReservationDb
    → Result ReservationError (Unit {0}) × ReservationDb
recovered_call cleanup (ok a, db) = (ok a, db)
recovered_call cleanup (err e, db) = (err e, (cleanup db).1)

-- `try { m } catch (error) { cleanup; throw error; }`
unfoldable pub recovered : Call (Unit {0}) → Call (Unit {0}) → Call (Unit {0})
recovered m cleanup db = recovered_call cleanup (m db)

-- The customer's own request without a driver, whose payment is active and has no countdown.
abbrev pub may_release : ℕ → Option Request → Option ReservationHold → Bool
may_release customer_id (some request) (some hold) =
    request.customer_id == customer_id
    && not (is_some request.assigned_driver_id)
    && not (is_some request.accepted_offer_id)
    && not (is_some hold.confirmation_started_at)
    && is_active hold.status
may_release customer_id _ _ = false

abbrev pub is_assigned_row : Option Request → Bool
is_assigned_row none = false
is_assigned_row (some request) = is_assigned request

-- The request has its driver, its offer and the time of the acceptance.
abbrev pub assignment_of : Option Request → Result ReservationError Request
assignment_of none = err assignment_failed
assignment_of (some request) =
    if is_assigned request && is_some request.accepted_at then ok request else err assignment_failed

module _ (payments : PaymentService)
    (ensure_room : Request → Offer → Result ReservationError (Unit {0})) where
  abbrev awaits : Option ReservationHold → Bool
  awaits none = false
  awaits (some hold) = payments.awaits_capture hold

  -- `nextStep` of the answer to an acceptance.
  abbrev pub accept_step : ReservationDb → NextStep
  accept_step db =
      if awaits db.hold
      then wait_confirmation
      else (if is_assigned_row db.request then track_request else confirm_payment)

  unfoldable pub accept_driver_offer :
      (Notice → Bool) → (Option ℕ → ℕ → ℕ) → ℕ → AcceptInput → Call NextStep
  unfolding try_reserve accept_tx
  accept_driver_offer delivers booking_day now input = do
    read (λ _. throw_if (not input.has_ids) ids_required)
    read (λ _. throw_if (not input.confirm) confirm_required)
    reserved ←
        try_reserve payments delivers booking_day ensure_room now input.customer_id input.offer_id
          input.supported input.enabled
    or_step reserved (do
      method ← read (λ _. or_throw input.payment_method method_required)
      transaction (accept_tx payments ensure_room input.customer_id input.offer_id method)
      read (λ db. ok (accept_step db)))

  -- After a failed assignment the payment is given back; what that throws is logged.
  unfoldable pub release_payment : ℕ → Call (Unit {0})
  release_payment customer_id = logged (
      with_db λ db.
        if may_release customer_id db.request db.hold
        then transaction (on_hold payments.cancel_request_payment)
        else return tt)

  unfoldable pub assign_or_release : ℕ → ℕ → Call (Unit {0})
  unfolding recovered finalize_tx release_payment
  assign_or_release now customer_id =
      recovered (transaction (finalize_tx ensure_room now customer_id))
        (release_payment customer_id)

  -- The customer is told of a new assignment, which is committed by then.
  unfoldable pub finish_assignment :
      (Request → Result ReservationError (Unit {0})) → Bool → Call NextStep
  finish_assignment tell already = do
    request ← read (λ db. assignment_of db.request)
    if already then return track_request else (do read (λ _. tell request); return track_request)

  unfoldable pub finalize_accepted_offer_payment :
      (Request → Result ReservationError (Unit {0})) → ℕ → ℕ → Call NextStep
  unfolding finalize assign_or_release finish_assignment
  finalize_accepted_offer_payment tell now customer_id = do
    reserved ← finalize payments now customer_id
    or_step reserved (
        with_db λ db. do
          assign_or_release now customer_id
          finish_assignment tell (is_assigned_row db.request))
