-- ===== src/Reservations/Confirming.antt =====
-- When a new reservation can be confirmed (`confirm` of
-- src/customer-requests/furniture-reservations.service.ts).
use transpo24_backend_nest_j.Base.{
  ℕ, ◌+◌, ◌*◌, ◌==◌, ◌≤◌, ◌<◌, ◌≡◌, ◌↔◌, Option-cases, Bool-cases, true, false, none, some, is_some,
  List, [], ◌∷◌, map, Option, Result, ok, arith, inl, inr,
}
use transpo24_backend_nest_j.Policy.Reservation.{DeferredState, confirmation_window}
use transpo24_backend_nest_j.Reservations.State.{
  ReservationError, ReservationHold, Request, Offer, ReservationDb, PaymentService, offer_by_id,
  driver_by_id,
}
use transpo24_backend_nest_j.Reservations.Guards.{is_eligible}
use transpo24_backend_nest_j.Reservations.Transactions.{
  reserve_tx, confirm_tx, chosen, set_accepted, reserved_request,
}

chosen-found :
    (now request_id offer_id : ℕ) (offers : List Offer) (offer : Offer)
    → offer_by_id (some offer_id) offers ≡ some offer
    → (offer.id ≡ offer_id)
      × (offer_by_id (some offer_id) (map (chosen now request_id offer_id) offers)
          ≡ some (set_accepted now offer))
chosen-found now request_id offer_id [] offer e = cc
chosen-found now request_id offer_id (o ∷ offers) offer e = elim (Bool-cases (o.id == offer_id)) [
  | inl same ↦ ground arith
  | inr other ↦
      let rest : offer_by_id (some offer_id) offers ≡ some offer = ground arith in
      let k = chosen-found now request_id offer_id offers offer rest in ground (arith, k)
]

module _ (booking_day : Option ℕ → ℕ → ℕ)
    (ensure_room : Request → Offer → Result ReservationError (Unit {0})) where
  -- What a new reservation is made of.
  reserved_rows :
      (at customer_id offer_id pickup : ℕ) (r : Request) (db reserved : ReservationDb)
      → db.request ≡ some r
      → is_some r.deferred_payment_state ≡ false
      → r.scheduled_pickup_at ≡ some pickup
      → reserve_tx booking_day ensure_room at customer_id offer_id db ≡ ok reserved
      → (o : Offer) × (offer_by_id (some offer_id) db.offers ≡ some o)
        × (r.customer_id ≡ customer_id)
        × (db.hold ≡ none)
        × (is_eligible (driver_by_id (some o.driver_id) db.drivers) ≡ true)
        × (reserved ≡ record db {
          request = some (reserved_request at o pickup r);
          offers = map (chosen at r.id o.id) db.offers;
        })
  unfolding reserve_tx
  reserved_rows at customer_id offer_id pickup r db reserved row new dated e =
      elim (Option-cases (offer_by_id (some offer_id) db.offers)) [
        | inl f ↦ absurd (ground arith)
        | inr (o, f) ↦ (o, f, ground arith, ground arith, ground arith, ground arith)
      ]

-- The rows with the new reservation.
abbrev with_reservation : ℕ → Offer → ℕ → Request → ReservationDb → ReservationDb
with_reservation at o pickup r db = record db {
  request = some (reserved_request at o pickup r);
  offers = map (chosen at r.id o.id) db.offers;
}

module _ (payments : PaymentService) (at customer_id pickup now method : ℕ) (r : Request)
    (o : Offer) (db : ReservationDb) where
  confirmed_then :
      (after : ReservationDb)
      → db.hold ≡ none
      → confirm_tx payments now customer_id method (with_reservation at o pickup r db) ≡ ok after
      → (pickup ≤ now + 48 * 3600000) × (now + 24 * 3600000 < pickup)
  unfolding confirm_tx confirmation_window
  confirmed_then after free e = ground arith

  confirmed_in :
      (hold : ReservationHold)
      → payments.create_hold_for_accepted_offer (set_accepted at o) method ≡ ok hold
      → db.hold ≡ none
      → r.customer_id ≡ customer_id
      → is_eligible (driver_by_id (some o.driver_id) db.drivers) ≡ true
      → offer_by_id (some o.id) (map (chosen at r.id o.id) db.offers) ≡ some (set_accepted at o)
      → pickup ≤ now + 48 * 3600000
      → now + 24 * 3600000 < pickup
      → (after : ReservationDb) × (confirm_tx payments now customer_id method
            (with_reservation at o pickup r db)
          ≡ ok after)
  unfolding confirm_tx confirmation_window
  confirmed_in hold paid free own driver found opened before = (
    record (with_reservation at o pickup r db) {
      request = some (record (reserved_request at o pickup r) {
        deferred_payment_state = some DeferredState.payment_pending;
        pickup_confirmed_at = some now;
      });
      hold = some hold;
    },
    ground arith,
  )

-- A new reservation can be confirmed between 48 and 24 hours before the pickup, and at no other time:
-- by its customer, if the payments service makes the holds that it is asked for.
pub confirm_tx-window :
    (booking_day : Option ℕ → ℕ → ℕ)
    (ensure_room : Request → Offer → Result ReservationError (Unit {0})) (payments : PaymentService)
    (at customer_id offer_id pickup now method : ℕ) (r : Request) (db reserved : ReservationDb)
    → ((o : Offer)
        → (hold : ReservationHold) × (payments.create_hold_for_accepted_offer o method ≡ ok hold))
    → db.request ≡ some r
    → is_some r.deferred_payment_state ≡ false
    → r.scheduled_pickup_at ≡ some pickup
    → reserve_tx booking_day ensure_room at customer_id offer_id db ≡ ok reserved
    → ((after : ReservationDb) × (confirm_tx payments now customer_id method reserved ≡ ok after))
      ↔ ((pickup ≤ now + 48 * 3600000) × (now + 24 * 3600000 < pickup))
confirm_tx-window booking_day ensure_room payments at customer_id offer_id pickup now method r db
      reserved takes row new dated e =
    let (o, chosen_, own, free, driver, rows) =
      reserved_rows booking_day ensure_room at customer_id offer_id pickup r db reserved row new
        dated e in
    let id = (chosen-found at r.id offer_id db.offers o chosen_).0 in
    let found = (chosen-found at r.id o.id db.offers o (rw id chosen_)).1 in
    let (hold, paid) = takes (set_accepted at o) in
    rw rows (
      λ h. confirmed_then payments at customer_id pickup now method r o db h.0 free h.1,
      λ h.
          confirmed_in payments at customer_id pickup now method r o db hold paid free own driver
            found h.0 h.1,
    )
