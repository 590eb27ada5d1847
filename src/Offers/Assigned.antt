-- ===== src/Offers/Assigned.antt =====
-- What an assignment leaves, a repeated one and a failed one
-- (`finalizeAcceptedOfferPayment` of src/customer-requests/customer-requests.service.ts).
use transpo24_backend_nest_j.Base.{
  ℕ, ◌≡◌, refl, ap, sym, subst, ◌∙◌, Option-cases, Bool-cases, Bool, true, false, ◌&&◌, Option, ◌⊎◌,
  ◌==◌, none, some, List, [], ◌∷◌, map, any, Result, ok, err, arith, inl, inr,
}
use transpo24_backend_nest_j.Reservations.State.{
  ReservationError, Offer, OfferStatus, Request, ReservationHold, ReservationDb, PaymentService,
  PaymentAnswer, offer_by_id, transaction, logged, with_db, return,
}
use transpo24_backend_nest_j.Reservations.Guards.{is_open, is_pending}
use transpo24_backend_nest_j.Reservations.Handlers.{on_hold}
use transpo24_backend_nest_j.Reservations.Withdrawals.{written}
use transpo24_backend_nest_j.Offers.Guards.{is_active, is_successful, has_secured_funds}
use transpo24_backend_nest_j.Offers.Finalize.{
  finalized_offer, assigned_request, is_assigned, assign_driver, finalize_tx,
}
use transpo24_backend_nest_j.Offers.Calls.{
  may_release, recovered, release_payment, assign_or_release,
}

abbrev pub accepted_offer : ℕ → Offer → Offer
accepted_offer now o = record o {
  status = OfferStatus.accepted;
  accepted_at = some now;
  rejected_at = none;
  cancelled_at = none;
}

abbrev pub is_pending_of : ℕ → Offer → Bool
is_pending_of request_id o = o.request_id == request_id && is_pending o.status

finalized-none_pending :
    (now request_id offer_id : ℕ) (offers : List Offer)
    → any (is_pending_of request_id) (map (finalized_offer now request_id offer_id) offers) ≡ false
finalized-none_pending now request_id offer_id [] = refl
finalized-none_pending now request_id offer_id (o ∷ offers) =
    ground (arith, finalized-none_pending now request_id offer_id offers)

finalized-found :
    (now request_id offer_id : ℕ) (offers : List Offer) (offer : Offer)
    → offer_by_id (some offer_id) offers ≡ some offer
    → (offer.id ≡ offer_id)
      × (offer_by_id (some offer_id) (map (finalized_offer now request_id offer_id) offers)
          ≡ some (accepted_offer now offer))
finalized-found now request_id offer_id [] offer e = cc
finalized-found now request_id offer_id (o ∷ offers) offer e =
    elim (Bool-cases (o.id == offer_id)) [
      | inl same ↦ ground arith
      | inr other ↦
          let rest : offer_by_id (some offer_id) offers ≡ some offer = ground arith in
          let k = finalized-found now request_id offer_id offers offer rest in ground (arith, k)
    ]

-- How an assignment that goes through came about, and what it left.
pub record IsAssignment (now : ℕ) (before after : ReservationDb) : Type 0 where
  pub request : Request
  pub hold : ReservationHold
  pub offer : Offer
  pub was : before.request ≡ some request
  pub paid : before.hold ≡ some hold
  pub secured : (has_secured_funds hold && is_successful hold.status) ≡ true
  pub open_before : is_open request.status ≡ true
  pub chosen : offer_by_id (some hold.accepted_offer_id) before.offers ≡ some offer
  pub was_pending : is_pending offer.status ≡ true
  pub now_assigned : after.request ≡ some (assigned_request now offer request)
  pub same_hold : after.hold ≡ before.hold
  pub now_accepted :
      offer_by_id (some hold.accepted_offer_id) after.offers ≡ some (accepted_offer now offer)
  pub none_pending : any (is_pending_of request.id) after.offers ≡ false

module _ (ensure_room : Request → Offer → Result ReservationError (Unit {0})) where
  assigned_rows :
      (now : ℕ) (r : Request) (hold : ReservationHold) (before after : ReservationDb)
      → assign_driver ensure_room now r hold before ≡ ok after
      → (o : Offer) × (is_open r.status ≡ true)
        × (offer_by_id (some hold.accepted_offer_id) before.offers ≡ some o)
        × (is_pending o.status ≡ true)
        × (after ≡ record before {
          request = some (assigned_request now o r);
          offers = map (finalized_offer now r.id o.id) before.offers;
        })
  unfolding assign_driver
  assigned_rows now r hold before after e =
      elim (Option-cases (offer_by_id (some hold.accepted_offer_id) before.offers)) [
        | inl f ↦ absurd (ground arith)
        | inr (o, f) ↦ (o, ground arith, f, ground arith, ground arith)
      ]

  finalized_from :
      (now customer_id : ℕ) (r : Request) (before after : ReservationDb)
      → before.request ≡ some r
      → is_assigned r ≡ false
      → finalize_tx ensure_room now customer_id before ≡ ok after
      → (hold : ReservationHold) × (before.hold ≡ some hold)
        × ((has_secured_funds hold && is_successful hold.status) ≡ true)
        × (assign_driver ensure_room now r hold before ≡ ok after)
  unfolding finalize_tx
  finalized_from now customer_id r before after e free h = elim (Option-cases before.hold) [
    | inl f ↦ absurd (ground arith)
    | inr (hold, f) ↦ (hold, f, ground arith, ground arith)
  ]

  -- A driver is assigned for secured money only, and alone: when a request without one is finalised,
  -- its payment was held or captured with its countdown, if it had one, confirmed; the driver is that
  -- of the pending offer that was paid for, this offer is accepted, and no offer of the request is
  -- left pending.
  pub finalize_tx-IsAssignment :
      (now customer_id : ℕ) (r : Request) (before after : ReservationDb)
      → before.request ≡ some r
      → is_assigned r ≡ false
      → finalize_tx ensure_room now customer_id before ≡ ok after
      → IsAssignment now before after
  finalize_tx-IsAssignment now customer_id r before after e free h =
      let (hold, paid, secured, assigned) =
        finalized_from now customer_id r before after e free h in
      let (o, open_before, chosen, pending, rows) =
        assigned_rows now r hold before after assigned in
      let (same, found) = finalized-found now r.id hold.accepted_offer_id before.offers o chosen in
      record {
        request = r;
        hold = hold;
        offer = o;
        was = e;
        paid = paid;
        secured = secured;
        open_before = open_before;
        chosen = chosen;
        was_pending = pending;
        now_assigned = ap (λ (db : ReservationDb). db.request) rows;
        same_hold = ap (λ (db : ReservationDb). db.hold) rows;
        now_accepted =
            ap (λ (db : ReservationDb). offer_by_id (some hold.accepted_offer_id) db.offers) rows
            ∙ subst
                (λ (id : ℕ).
                  offer_by_id (some hold.accepted_offer_id)
                    (map (finalized_offer now r.id id) before.offers)
                  ≡ some (accepted_offer now o))
                (sym same) found;
        none_pending =
            ap (λ (db : ReservationDb). any (is_pending_of r.id) db.offers) rows
            ∙ finalized-none_pending now r.id o.id before.offers;
      }

-- The payment may be given back: the request is the customer's own, it has no driver and no offer,
-- and the payment is active without a countdown.
abbrev pub IsReleasable : ℕ → Request → ReservationHold → Type 0
IsReleasable customer_id r hold =
    (r.customer_id ≡ customer_id)
    × (r.assigned_driver_id ≡ none)
    × (r.accepted_offer_id ≡ none)
    × (hold.confirmation_started_at ≡ none)
    × (is_active hold.status ≡ true)

-- What the answer of `cancelRequestPayment` makes of the rows; nothing, if it throws.
abbrev pub GivenBack :
    Result ReservationError PaymentAnswer → ReservationDb → ReservationDb → Type 0
GivenBack (ok answer) before after =
    after ≡ written answer.booking (record before { hold = some answer.hold })
GivenBack (err x) before after = after ≡ before

-- What a failed assignment does to the payment.
abbrev pub Released :
    PaymentService
    → ℕ
    → Option Request
    → Option ReservationHold
    → ReservationDb
    → ReservationDb
    → Type 0
Released payments customer_id (some r) (some hold) before after =
    (IsReleasable customer_id r hold
      × GivenBack (payments.cancel_request_payment hold) before after)
    ⊎ ((¬ IsReleasable customer_id r hold) × (after ≡ before))
Released payments customer_id none hold before after = after ≡ before
Released payments customer_id (some r) none before after = after ≡ before

may_release-IsReleasable :
    (customer_id : ℕ) (r : Request) (hold : ReservationHold)
    → may_release customer_id (some r) (some hold) ≡ true
    → IsReleasable customer_id r hold
may_release-IsReleasable customer_id r hold h = ground arith

IsReleasable-may_release :
    (customer_id : ℕ) (r : Request) (hold : ReservationHold)
    → IsReleasable customer_id r hold
    → may_release customer_id (some r) (some hold) ≡ true
IsReleasable-may_release customer_id r hold h = ground arith

module _ (payments : PaymentService)
    (ensure_room : Request → Offer → Result ReservationError (Unit {0})) where
  released_back :
      (customer_id : ℕ) (r : Request) (hold : ReservationHold) (db : ReservationDb)
      → db.request ≡ some r
      → db.hold ≡ some hold
      → may_release customer_id (some r) (some hold) ≡ true
      → GivenBack
          (payments.cancel_request_payment hold)
          db
          (release_payment payments ensure_room customer_id db).1
  unfolding release_payment logged with_db return transaction on_hold
  released_back customer_id r hold db e f yes_ = ground arith

  release_payment-Released :
      (customer_id : ℕ) (db : ReservationDb) (found : Option Request)
      (paid : Option ReservationHold)
      → db.request ≡ found
      → db.hold ≡ paid
      → Released payments customer_id found paid db
          (release_payment payments ensure_room customer_id db).1
  unfolding release_payment logged with_db return transaction on_hold
  release_payment-Released customer_id db none paid e f = ground arith
  release_payment-Released customer_id db (some r) none e f = ground arith
  release_payment-Released customer_id db (some r) (some hold) e f =
      elim (Bool-cases (may_release customer_id (some r) (some hold))) [
        | inl yes_ ↦ inl (
          may_release-IsReleasable customer_id r hold yes_,
          released_back customer_id r hold db e f yes_,
        )
        | inr no_ ↦ inr (λ m. cc (IsReleasable-may_release customer_id r hold m), ground arith)
      ]

  -- A failed assignment gives the money back: the call throws what its transaction threw; the payment
  -- is handed to `cancelRequestPayment`, whose answer is what the rows keep, if the request is the
  -- customer's own and has no driver and no offer, and its payment is active without a countdown; in
  -- every other case, and where that throws, no row changes.
  pub assign_or_release-Released :
      (now customer_id : ℕ) (db : ReservationDb) (e : ReservationError)
      → finalize_tx ensure_room now customer_id db ≡ err e
      → ((assign_or_release payments ensure_room now customer_id db).0 ≡ err e)
        × Released payments customer_id db.request db.hold db
            (assign_or_release payments ensure_room now customer_id db).1
  unfolding assign_or_release recovered transaction
  assign_or_release-Released now customer_id db e h =
      rw h (refl, release_payment-Released customer_id db db.request db.hold refl refl)
