-- ===== src/Reservations/Transactions.antt =====
-- The transactions of src/customer-requests/furniture-reservations.service.ts, each on the rows as
-- they are when it has locked the request: of `tryReserve`, `confirm`, `reconcile` and `cancel`, and
-- `expireTx`.
use transpo24_backend_nest_j.Base.{
  ℕ, ◌==◌, Bool, false, not, ◌&&◌, ◌||◌, Option, none, some, map, is_some, if◌then◌else◌, Result,
  ok, ◌>>=◌, ◌>>◌, throw_if,
}
use transpo24_backend_nest_j.Domain.{is_reserved, is_cancelled}
use transpo24_backend_nest_j.Domain
use transpo24_backend_nest_j.Payments.State.{PaymentStatus}
use transpo24_backend_nest_j.Policy.Reservation.{
  DeferredState, should_defer_transport_payment, confirmation_window,
}
use transpo24_backend_nest_j.Reservations.State.{
  ReservationError, request_not_found, not_available, pay_now, offer_unavailable, outside_window,
  reserved_offer_unavailable, other_method, payment_was_cancelled, paid_trip, payment_succeeded,
  OfferStatus, Offer, ReservationHold, Request, ReservationDb, PaymentService, offer_by_id,
  driver_by_id,
}
use transpo24_backend_nest_j.Reservations.Guards.{
  is_paid, is_open, is_pending, is_accepted, is_captured, is_withdrawn, or_throw, or_else, is_id,
  require_owner, require_driver, is_eligible, started_at, can_confirm_and_pay, is_secured,
  secured_at, is_expired, is_before,
}

abbrev pub set_accepted : ℕ → Offer → Offer
set_accepted now o = record o { status = OfferStatus.accepted; accepted_at = some now }

abbrev pub set_rejected : ℕ → Offer → Offer
set_rejected now o = record o { status = OfferStatus.rejected; rejected_at = some now }

abbrev pub set_cancelled : ℕ → Offer → Offer
set_cancelled now o = record o { status = OfferStatus.cancelled; cancelled_at = some now }

-- The chosen offer is accepted, the request's other pending offers are rejected.
abbrev pub chosen : ℕ → ℕ → ℕ → Offer → Offer
chosen now request_id offer_id o =
    if o.id == offer_id
    then set_accepted now o
    else (if o.request_id == request_id && is_pending o.status then set_rejected now o else o)

-- The request's accepted offers are cancelled.
abbrev pub dropped : ℕ → ℕ → Offer → Offer
dropped now request_id o =
    if o.request_id == request_id && is_accepted o.status then set_cancelled now o else o

abbrev pub reserved_request : ℕ → Offer → ℕ → Request → Request
reserved_request now offer pickup request =
    let window = confirmation_window pickup in
    record request {
      status = Domain.reserved;
      deferred_payment_state = some DeferredState.waiting;
      accepted_offer_id = some offer.id;
      assigned_driver_id = some offer.driver_id;
      accepted_at = some now;
      confirmation_opens_at = some window.confirmation_opens_at;
      payment_deadline_at = some window.payment_deadline_at;
    }

-- `expireTx`
unfoldable pub expire_tx : ℕ → DeferredState → Request → ReservationDb → ReservationDb
expire_tx now state request db = record db {
  request = some (record request {
    status = Domain.cancelled;
    deferred_payment_state = some state;
    assigned_driver_id = none;
  });
  offers = map (dropped now request.id) db.offers;
}

module _ (booking_day : Option ℕ → ℕ → ℕ) where
  abbrev pub may_defer : Request → ℕ → Bool
  may_defer request now =
      should_defer_transport_payment booking_day (some request.service_key)
        request.scheduled_pickup_at request.time_zone now

  abbrev pub reserve_guards : ℕ → ℕ → Request → ReservationDb → Result ReservationError Offer
  reserve_guards now offer_id request db = do
    throw_if
        (not (is_open request.status)
          || is_some request.accepted_offer_id
          || is_some request.assigned_driver_id
          || is_some db.hold)
        not_available
    throw_if (not (may_defer request now)) pay_now
    offer ← or_throw (offer_by_id (some offer_id) db.offers) offer_unavailable
    throw_if (not (offer.request_id == request.id) || not (is_pending offer.status))
        offer_unavailable
    require_driver (driver_by_id (some offer.driver_id) db.drivers)
    ok offer

  -- The chat room of an accepted offer is another service's: it may throw.
  module _ (ensure_room : Request → Offer → Result ReservationError (Unit {0})) where
    -- The transaction of `tryReserve`. A request that may be deferred has a pickup.
    unfoldable pub reserve_tx : ℕ → ℕ → ℕ → ReservationDb → Result ReservationError ReservationDb
    unfolding require_owner
    reserve_tx now customer_id offer_id db = do
      request ← require_owner db.request customer_id
      if is_some request.deferred_payment_state && is_id request.accepted_offer_id offer_id
          then ok db
          else (do
            offer ← reserve_guards now offer_id request db
            pickup ← or_throw request.scheduled_pickup_at pay_now
            ensure_room request offer
            ok (record db {
              request = some (reserved_request now offer pickup request);
              offers = map (chosen now request.id offer.id) db.offers;
            }))

abbrev pub retried : ReservationHold → ReservationHold
retried hold = record hold {
  status = elim hold.status [ PaymentStatus.failed ↦ PaymentStatus.hold_pending | other ↦ other ];
}

-- The hold that a confirmation goes on with: the existing one, or a new one.
unfoldable pub hold_to_pay :
    PaymentService → Offer → ℕ → Option ReservationHold → Result ReservationError ReservationHold
hold_to_pay payments offer method none = payments.create_hold_for_accepted_offer offer method
hold_to_pay payments offer method (some hold) = do
  throw_if (not (hold.payment_method == method)) other_method
  throw_if (is_withdrawn hold.status) payment_was_cancelled
  ok (retried hold)

-- The transaction of `confirm`.
unfoldable pub confirm_tx :
    PaymentService → ℕ → ℕ → ℕ → ReservationDb → Result ReservationError ReservationDb
unfolding hold_to_pay require_owner can_confirm_and_pay
confirm_tx payments now customer_id method db = do
  request ← require_owner db.request customer_id
  if is_paid request.deferred_payment_state
        || is_reserved request.status && is_some (started_at db.hold)
      then ok db
      else (do
        throw_if (not (can_confirm_and_pay request db.hold now)) outside_window
        require_driver (driver_by_id request.assigned_driver_id db.drivers)
        offer ←
            or_throw (offer_by_id request.accepted_offer_id db.offers) reserved_offer_unavailable
        throw_if (not (is_accepted offer.status)) reserved_offer_unavailable
        hold ← hold_to_pay payments offer method db.hold
        ok (record db {
          hold = some hold;
          request = some (record request {
            deferred_payment_state = some DeferredState.payment_pending;
            pickup_confirmed_at = some now;
          });
        }))

-- The money came in time, and the customer confirmed the pickup.
abbrev pub is_payable : ℕ → Request → Option ReservationHold → Bool
is_payable now request hold =
    is_reserved request.status
    && is_secured hold
    && (not (is_expired request.payment_deadline_at now)
        || is_before (secured_at hold) request.payment_deadline_at)
    && is_some request.pickup_confirmed_at

abbrev pub paid_request : ℕ → Option ReservationHold → Request → Request
paid_request now hold request = record request {
  deferred_payment_state = some DeferredState.paid;
  status = Domain.driver_assigned;
  reservation_paid_at = or_else (secured_at hold) (some now);
}

-- The transaction of `reconcile`.
unfoldable pub reconcile_tx : ℕ → ReservationDb → Result ReservationError ReservationDb
reconcile_tx now db = do
  row ← or_throw db.request request_not_found
  if is_paid row.deferred_payment_state
      then ok db
      else (if is_payable now row db.hold
          then (if is_eligible (driver_by_id row.assigned_driver_id db.drivers)
              then ok (record db { request = some (paid_request now db.hold row) })
              else ok (expire_tx now DeferredState.cancelled row db))
          else (if is_reserved row.status && is_expired row.payment_deadline_at now
              then ok (expire_tx now DeferredState.expired row db)
              else ok db))

abbrev pub hold_is_captured : Option ReservationHold → Bool
hold_is_captured none = false
hold_is_captured (some hold) = is_captured hold.status

-- The transaction of `cancel`.
unfoldable pub cancel_tx : ℕ → ℕ → ReservationDb → Result ReservationError ReservationDb
unfolding require_owner
cancel_tx now customer_id db = do
  request ← require_owner db.request customer_id
  throw_if (not (is_some request.deferred_payment_state) || is_paid request.deferred_payment_state)
      paid_trip
  if is_cancelled request.status then ok db else (do
    throw_if (hold_is_captured db.hold) payment_succeeded
    ok (expire_tx now DeferredState.cancelled request db))
