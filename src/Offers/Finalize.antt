-- ===== src/Offers/Finalize.antt =====
-- The transaction of `finalizeAcceptedOfferPayment` of
-- src/customer-requests/customer-requests.service.ts: the driver of the offer that the payment is for
-- is assigned.
use transpo24_backend_nest_j.Base.{
  ℕ, ◌==◌, Bool, not, ◌&&◌, none, some, map, is_some, if◌then◌else◌, Result, ok, ◌>>=◌, ◌>>◌,
  throw_if,
}
use transpo24_backend_nest_j.Domain.{is_cancelled}
use transpo24_backend_nest_j.Domain
use transpo24_backend_nest_j.Reservations.State.{
  ReservationError, offer_not_found, hold_not_found, payment_was_cancelled, payment_not_collected,
  wrong_status, offer_not_pending, funds_not_secured, OfferStatus, Offer, Request, ReservationHold,
  ReservationDb, offer_by_id,
}
use transpo24_backend_nest_j.Reservations.Guards.{is_open, is_pending, or_throw, require_owner}
use transpo24_backend_nest_j.Reservations.Transactions.{set_rejected}
use transpo24_backend_nest_j.Offers.Guards.{is_successful, has_secured_funds}

-- The offer is accepted, the request's other pending offers are rejected.
abbrev pub finalized_offer : ℕ → ℕ → ℕ → Offer → Offer
finalized_offer now request_id offer_id o =
    if o.id == offer_id
    then record o {
      status = OfferStatus.accepted;
      accepted_at = some now;
      rejected_at = none;
      cancelled_at = none;
    }
    else (if o.request_id == request_id && is_pending o.status then set_rejected now o else o)

abbrev pub assigned_request : ℕ → Offer → Request → Request
assigned_request now offer request = record request {
  status = Domain.driver_going_to_pickup;
  assigned_driver_id = some offer.driver_id;
  accepted_offer_id = some offer.id;
  accepted_at = some now;
}

abbrev pub is_assigned : Request → Bool
is_assigned request = is_some request.accepted_offer_id && is_some request.assigned_driver_id

module _ (ensure_room : Request → Offer → Result ReservationError (Unit {0})) where
  unfoldable pub assign_driver :
      ℕ → Request → ReservationHold → ReservationDb → Result ReservationError ReservationDb
  assign_driver now request hold db = do
    throw_if (not (is_open request.status)) wrong_status
    offer ← or_throw (offer_by_id (some hold.accepted_offer_id) db.offers) offer_not_found
    throw_if (not (is_pending offer.status)) offer_not_pending
    ensure_room request offer
    ok (record db {
      request = some (assigned_request now offer request);
      offers = map (finalized_offer now request.id offer.id) db.offers;
    })

  unfoldable pub finalize_tx : ℕ → ℕ → ReservationDb → Result ReservationError ReservationDb
  unfolding require_owner
  finalize_tx now customer_id db = do
    request ← require_owner db.request customer_id
    hold ← or_throw db.hold hold_not_found
    throw_if (is_cancelled request.status) payment_was_cancelled
    throw_if (not (has_secured_funds hold)) funds_not_secured
    throw_if (not (is_successful hold.status)) payment_not_collected
    if is_assigned request
        then (do
          offer ← or_throw (offer_by_id request.accepted_offer_id db.offers) offer_not_found
          ok db)
        else assign_driver now request hold db
