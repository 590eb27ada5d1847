-- ===== src/Offers/Paying.antt =====
-- What an acceptance that goes through leaves
-- (`acceptDriverOffer` of src/customer-requests/customer-requests.service.ts).
use transpo24_backend_nest_j.Base.{
  ℕ, ◌≡◌, refl, Option-cases, Bool-cases, Bool, true, not, ◌&&◌, ◌||◌, Option, none, some, is_some,
  Result, ok, err, arith, ◌⊎◌, inl, inr,
}
use transpo24_backend_nest_j.Reservations.State.{
  ReservationError, ReservationHold, Request, Offer, ReservationDb, PaymentService, offer_by_id,
}
use transpo24_backend_nest_j.Reservations.Guards.{is_open, is_pending}
use transpo24_backend_nest_j.Offers.Guards.{is_retryable}
use transpo24_backend_nest_j.Offers.Accept.{
  accepted_before, confirming_before, pay_offer, accept_tx,
}

-- There is no payment, or one that came to nothing before its countdown began.
abbrev pub IsReplaceable : Option ReservationHold → Type 0
IsReplaceable none = Unit {0}
IsReplaceable (some hold) =
    (hold.confirmation_started_at ≡ none) × (is_retryable hold.status ≡ true)

abbrev is_replaceable : Option ReservationHold → Bool
is_replaceable none = true
is_replaceable (some hold) = not (is_some hold.confirmation_started_at) && is_retryable hold.status

replaceable : (paid : Option ReservationHold) → is_replaceable paid ≡ true → IsReplaceable paid
replaceable none h = tt
replaceable (some hold) h = ground arith

-- A new payment, and how it came about.
pub record IsPayment (payments : PaymentService) (offer_id method : ℕ)
    (before after : ReservationDb) : Type 0 where
  pub request : Request
  pub offer : Offer
  pub hold : ReservationHold
  pub was : before.request ≡ some request
  pub open_before : is_open request.status ≡ true
  pub without_driver : request.assigned_driver_id ≡ none
  pub without_offer : request.accepted_offer_id ≡ none
  pub found : offer_by_id (some offer_id) before.offers ≡ some offer
  pub its_request : offer.request_id ≡ request.id
  pub was_pending : is_pending offer.status ≡ true
  pub replaces : IsReplaceable before.hold
  pub paid : payments.create_hold_for_accepted_offer offer method ≡ ok hold
  pub rows : after ≡ record before { hold = some hold }

Result-cases :
    {A : Type 0} (r : Result ReservationError A)
    → ((a : A) × (r ≡ ok a)) ⊎ ((x : ReservationError) × (r ≡ err x))
Result-cases (ok a) = inl (a, refl)
Result-cases (err x) = inr (x, refl)

module _ (payments : PaymentService)
    (ensure_room : Request → Offer → Result ReservationError (Unit {0})) where
  paid_offer :
      (offer_id method : ℕ) (r : Request) (before after : ReservationDb)
      → pay_offer payments ensure_room offer_id method r before ≡ ok after
      → (o : Offer) × (hold : ReservationHold) × (offer_by_id (some offer_id) before.offers
          ≡ some o)
        × (o.request_id ≡ r.id)
        × (is_pending o.status ≡ true)
        × (payments.create_hold_for_accepted_offer o method ≡ ok hold)
        × (after ≡ record before { hold = some hold })
  unfolding pay_offer
  paid_offer offer_id method r before after e =
      elim (Option-cases (offer_by_id (some offer_id) before.offers)) [
        | inl f ↦ absurd (ground arith)
        | inr (o, f) ↦ elim (Result-cases (payments.create_hold_for_accepted_offer o method)) [
          | inl (hold, g) ↦ (o, hold, f, ground arith, ground arith, g, ground arith)
          | inr (x, g) ↦ absurd (ground arith)
        ]
      ]

  -- An acceptance that goes through changes nothing, or it makes one payment and changes nothing else
  -- but the request's columns for the payment, which are not in the row: for a pending offer of an
  -- open request that has no driver and no offer, and only where there is no payment yet, or one that
  -- came to nothing before its countdown began.
  pub accept_tx-IsPayment :
      (customer_id offer_id method : ℕ) (before after : ReservationDb)
      → accept_tx payments ensure_room customer_id offer_id method before ≡ ok after
      → (after ≡ before) ⊎ IsPayment payments offer_id method before after
  unfolding accept_tx accepted_before confirming_before
  accept_tx-IsPayment customer_id offer_id method before after e =
      elim (Option-cases before.request) [
        | inl f ↦ absurd (ground arith)
        | inr (r, f) ↦
            elim (Bool-cases (is_some r.accepted_offer_id || is_some r.assigned_driver_id)) [
              | inl taken ↦ inl (ground arith)
              | inr free ↦ elim (Bool-cases (is_replaceable before.hold)) [
                | inr kept ↦ inl (ground arith)
                | inl replaced ↦
                    let pays : pay_offer payments ensure_room offer_id method r before ≡ ok after =
                      ground arith in
                    let (o, hold, found, same, pending, paid, rows) =
                      paid_offer offer_id method r before after pays in
                    inr (record {
                      request = r;
                      offer = o;
                      hold = hold;
                      was = f;
                      open_before = ground arith;
                      without_driver = ground arith;
                      without_offer = ground arith;
                      found = found;
                      its_request = same;
                      was_pending = pending;
                      replaces = replaceable before.hold replaced;
                      paid = paid;
                      rows = rows;
                    })
              ]
            ]
      ]
