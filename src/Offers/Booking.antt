-- ===== src/Offers/Booking.antt =====
-- An acceptance changes the payment only, and an assignment keeps a request with one accepted offer
-- (src/customer-requests/customer-requests.service.ts).
use transpo24_backend_nest_j.Base.{
  ℕ, ◌≡◌, refl, Option-cases, Bool-cases, Bool, true, false, not, Option, none, some, List, [], ◌∷◌,
  map, is_some, Result, ok, err, arith, ◌⊎◌, inl, inr, if◌then◌else◌, ◌>>=◌, throw_if,
}
use transpo24_backend_nest_j.Domain.{is_cancelled}
use transpo24_backend_nest_j.Reservations.State.{
  ReservationError, ReservationHold, Request, Offer, ReservationDb, PaymentService, hold_not_found,
  payment_was_cancelled, funds_not_secured, payment_not_collected, offer_not_found, offer_by_id,
}
use transpo24_backend_nest_j.Reservations.Guards.{is_open, or_throw, require_owner}
use transpo24_backend_nest_j.Reservations.Keeping.{Leaves}
use transpo24_backend_nest_j.Reservations.Safety.{Accepts, IsCoherent, CoherentRows, unheld}
use transpo24_backend_nest_j.Offers.Guards.{is_successful, has_secured_funds}
use transpo24_backend_nest_j.Offers.Accept.{
  accepted_before, confirming_before, pay_offer, accept_tx,
}
use transpo24_backend_nest_j.Offers.Finalize.{
  finalized_offer, is_assigned, assign_driver, finalize_tx,
}
use transpo24_backend_nest_j.Offers.Rows.{IsBooked, WholeRow}

-- Another hold at most.
abbrev pub SameRows : ReservationDb → ReservationDb → Type 0
SameRows before after =
    (after.request ≡ before.request)
    × (after.offers ≡ before.offers)
    × (after.drivers ≡ before.drivers)
    × (after.sent ≡ before.sent)

module _ (payments : PaymentService)
    (ensure_room : Request → Offer → Result ReservationError (Unit {0})) where
  accepted_before-same :
      (offer_id : ℕ) (request : Request) (db : ReservationDb)
      → Leaves (λ after. after ≡ db) (accepted_before payments ensure_room offer_id request db)
  unfolding accepted_before
  accepted_before-same offer_id request db = ground arith

  confirming_before-same :
      (offer_id : ℕ) (hold : ReservationHold) (db : ReservationDb)
      → Leaves (λ after. after ≡ db) (confirming_before payments ensure_room offer_id hold db)
  unfolding confirming_before
  confirming_before-same offer_id hold db = ground arith

  pay_offer-rows :
      (offer_id method : ℕ) (request : Request) (db : ReservationDb)
      → Leaves (SameRows db) (pay_offer payments ensure_room offer_id method request db)
  unfolding pay_offer
  pay_offer-rows offer_id method request db = ground arith

  -- An acceptance leaves everything but the payment.
  pub accept_tx-SameRows :
      (customer_id offer_id method : ℕ) (db : ReservationDb)
      → Leaves (SameRows db) (accept_tx payments ensure_room customer_id offer_id method db)
  unfolding accept_tx
  accept_tx-SameRows customer_id offer_id method db = ground arith

finalized-Accepts :
    (now request_id offer_id : ℕ) (offers : List Offer)
    → Accepts none request_id offers
    → Accepts (some offer_id) request_id (map (finalized_offer now request_id offer_id) offers)
finalized-Accepts now request_id offer_id [] h = tt
finalized-Accepts now request_id offer_id (o ∷ offers) h =
    (let k = h.0 in ground arith, finalized-Accepts now request_id offer_id offers h.1)

-- An open request without a driver holds no offer.
open_unheld :
    (r : Request)
    → IsCoherent r
    → WholeRow (some r)
    → is_open r.status ≡ true
    → is_assigned r ≡ false
    → is_some r.accepted_offer_id ≡ false
open_unheld r c w o free = let ended = c.ended in ground arith

module _ (ensure_room : Request → Offer → Result ReservationError (Unit {0})) where
  assign_nothing :
      (now : ℕ) (r : Request) (hold : ReservationHold) (db : ReservationDb)
      → (offer_by_id (some hold.accepted_offer_id) db.offers ≡ none) ⊎ (is_open r.status ≡ false)
      → Leaves IsBooked (assign_driver ensure_room now r hold db)
  unfolding assign_driver
  assign_nothing now r hold db h = ground arith

  assign_found :
      (now : ℕ) (r : Request) (hold : ReservationHold) (db : ReservationDb) (offer : Offer)
      → offer_by_id (some hold.accepted_offer_id) db.offers ≡ some offer
      → IsCoherent r
      → is_open r.status ≡ true
      → Accepts (some offer.id) r.id (map (finalized_offer now r.id offer.id) db.offers)
      → Leaves IsBooked (assign_driver ensure_room now r hold db)
  unfolding assign_driver
  assign_found now r hold db offer found c open_ accepts = ground arith

  assign_driver-IsBooked :
      (now : ℕ) (r : Request) (hold : ReservationHold) (db : ReservationDb)
      → db.request ≡ some r
      → is_assigned r ≡ false
      → IsBooked db
      → Leaves IsBooked (assign_driver ensure_room now r hold db)
  assign_driver-IsBooked now r hold db e free h =
      let rows : CoherentRows (some r) db.offers × WholeRow (some r) = rw e at h in
      elim (Bool-cases (is_open r.status)) [
        | inl o ↦ elim (Option-cases (offer_by_id (some hold.accepted_offer_id) db.offers)) [
          | inl f ↦ assign_nothing now r hold db (inl f)
          | inr (offer, f) ↦ assign_found now r hold db offer f rows.0.0 o (
              finalized-Accepts now r.id offer.id db.offers
                (unheld r db.offers (open_unheld r rows.0.0 rows.1 o free) rows.0.1))
        ]
        | inr o ↦ assign_nothing now r hold db (inr o)
      ]

Leaves-bind :
    {A : Type 0} (P : ReservationDb → Type 0) (q : Result ReservationError A)
    (f : A → Result ReservationError ReservationDb)
    → ((a : A) → q ≡ ok a → Leaves P (f a))
    → Leaves P (q >>= f)
Leaves-bind P (ok a) f k = k a refl
Leaves-bind P (err e) f k = tt

Leaves-if :
    (P : ReservationDb → Type 0) (b : Bool) (m n : Result ReservationError ReservationDb)
    → Leaves P m
    → (b ≡ false → Leaves P n)
    → Leaves P (if b then m else n)
Leaves-if P true m n p k = p
Leaves-if P false m n p k = k refl

owned :
    (found : Option Request) (customer_id : ℕ) (r : Request)
    → require_owner found customer_id ≡ ok r
    → found ≡ some r
unfolding require_owner
owned found customer_id r e = ground arith

module _ (ensure_room : Request → Offer → Result ReservationError (Unit {0})) where
  pub finalize_tx-IsBooked :
      (now customer_id : ℕ) (db : ReservationDb)
      → IsBooked db
      → Leaves IsBooked (finalize_tx ensure_room now customer_id db)
  unfolding finalize_tx
  finalize_tx-IsBooked now customer_id db h =
      Leaves-bind IsBooked (require_owner db.request customer_id) _ λ r e.
        Leaves-bind IsBooked (or_throw db.hold hold_not_found) _ λ hold f.
          Leaves-bind IsBooked (throw_if (is_cancelled r.status) payment_was_cancelled) _ λ u g.
            Leaves-bind IsBooked (throw_if (not (has_secured_funds hold)) funds_not_secured) _
              λ u g.
                Leaves-bind IsBooked
                  (throw_if (not (is_successful hold.status)) payment_not_collected) _
                  λ u g.
                    Leaves-if IsBooked (is_assigned r) _ _
                      (Leaves-bind IsBooked
                        (or_throw (offer_by_id r.accepted_offer_id db.offers) offer_not_found) _
                        λ o k. h)
                      λ free.
                        assign_driver-IsBooked ensure_room now r hold db
                          (owned db.request customer_id r e) free h
