-- ===== src/Offers/Accept.antt =====
-- The transaction of `acceptDriverOffer` of src/customer-requests/customer-requests.service.ts, on the
-- rows as they are when it has locked the request.
use transpo24_backend_nest_j.Base.{
  ℕ, ◌==◌, not, ◌&&◌, ◌||◌, Option, none, some, is_some, if◌then◌else◌, Result, ok, err, ◌>>=◌,
  ◌>>◌, throw_if,
}
use transpo24_backend_nest_j.Reservations.State.{
  ReservationError, offer_not_found, hold_not_found, already_accepted, other_offer_accepted,
  payment_not_collected, wrong_status, other_offer_confirming, payment_in_progress, wrong_request,
  offer_not_pending, Offer, Request, ReservationHold, ReservationDb, PaymentService, offer_by_id,
  driver_by_id,
}
use transpo24_backend_nest_j.Reservations.Guards.{
  is_open, is_pending, or_throw, is_id, require_owner,
}
use transpo24_backend_nest_j.Offers.Guards.{is_successful, is_retryable, require_offer_driver}

module _ (payments : PaymentService)
    (ensure_room : Request → Offer → Result ReservationError (Unit {0})) where
  -- The offer was accepted before: the chat room is made sure of, and no row changes.
  unfoldable pub accepted_before :
      ℕ → Request → ReservationDb → Result ReservationError ReservationDb
  accepted_before offer_id request db = do
    throw_if (not (is_some request.accepted_offer_id && is_some request.assigned_driver_id))
        already_accepted
    throw_if (not (is_id request.accepted_offer_id offer_id)) other_offer_accepted
    offer ← or_throw (offer_by_id request.accepted_offer_id db.offers) offer_not_found
    hold ← or_throw db.hold hold_not_found
    throw_if (not (is_successful hold.status)) payment_not_collected
    ensure_room request offer
    ok db

  -- A payment whose countdown runs is answered again, for the same offer.
  unfoldable pub confirming_before :
      ℕ → ReservationHold → ReservationDb → Result ReservationError ReservationDb
  confirming_before offer_id hold db = do
    throw_if (not (hold.accepted_offer_id == offer_id)) other_offer_confirming
    offer ← or_throw (offer_by_id (some offer_id) db.offers) offer_not_found
    ok db

  -- A new payment for a pending offer, in place of one that came to nothing.
  unfoldable pub pay_offer : ℕ → ℕ → Request → ReservationDb → Result ReservationError ReservationDb
  unfolding require_offer_driver
  pay_offer offer_id method request db = do
    offer ← or_throw (offer_by_id (some offer_id) db.offers) offer_not_found
    throw_if (not (offer.request_id == request.id)) wrong_request
    throw_if (not (is_pending offer.status)) offer_not_pending
    require_offer_driver (driver_by_id (some offer.driver_id) db.drivers)
    hold ← payments.create_hold_for_accepted_offer offer method
    ok (record db { hold = some hold })

  abbrev pub pay_or_refuse :
      ℕ
      → ℕ
      → Request
      → Option ReservationHold
      → ReservationDb
      → Result ReservationError ReservationDb
  pay_or_refuse offer_id method request none db = pay_offer offer_id method request db
  pay_or_refuse offer_id method request (some hold) db =
      if is_some hold.confirmation_started_at
      then confirming_before offer_id hold db
      else (if is_retryable hold.status
          then pay_offer offer_id method request db
          else err payment_in_progress)

  unfoldable pub accept_tx : ℕ → ℕ → ℕ → ReservationDb → Result ReservationError ReservationDb
  unfolding accepted_before confirming_before pay_offer require_owner
  accept_tx customer_id offer_id method db = do
    request ← require_owner db.request customer_id
    if is_some request.accepted_offer_id || is_some request.assigned_driver_id
        then accepted_before offer_id request db
        else (do
          throw_if (not (is_open request.status)) wrong_status
          pay_or_refuse offer_id method request db.hold db)
