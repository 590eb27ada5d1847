-- ===== src/Reservations/Safety.antt =====
-- What every event keeps of a reservation (src/customer-requests/furniture-reservations.service.ts).
use transpo24_backend_nest_j.Base.{
  ℕ, ◌==◌, ◌≡◌, refl, sym, Option-cases, Bool-cases, Bool, true, false, not, ◌&&◌, ◌||◌, Option,
  none, some, List, [], ◌∷◌, ◌++◌, map, is_some, Result, ok, arith, if◌then◌else◌, ◌⊎◌, inl, inr,
}
use transpo24_backend_nest_j.Domain.{is_reserved, is_cancelled}
use transpo24_backend_nest_j.Policy.Reservation.{DeferredState}
use transpo24_backend_nest_j.Reservations.State.{
  BookingWrite, payment_only, booking_withdrawn, cancellation_finished, ReservationError,
  ReservationHold, Request, Offer, NoticeType, ReservationDb, offer_by_id, driver_by_id,
  PaymentService,
}
use transpo24_backend_nest_j.Reservations.Guards.{
  is_unpaid, is_paid, is_ended, is_accepted, is_id, secured_at, is_eligible, is_expired,
}
use transpo24_backend_nest_j.Reservations.Transactions.{
  reserve_tx, confirm_tx, reconcile_tx, cancel_tx, expire_tx, chosen, dropped, is_payable,
  paid_request,
}
use transpo24_backend_nest_j.Reservations.Notices.{marked}
use transpo24_backend_nest_j.Reservations.Handlers.{refund_marked}
use transpo24_backend_nest_j.Reservations.Keeping.{Leaves, IsKept}
use transpo24_backend_nest_j.Reservations.Withdrawals.{withdrawn, finished, written}

abbrev pub state_is : (DeferredState → Bool) → Option DeferredState → Bool
state_is f none = false
state_is f (some s) = f s

abbrev pub is_payment_pending : DeferredState → Bool
is_payment_pending DeferredState.payment_pending = true
is_payment_pending _ = false

abbrev pub is_over : DeferredState → Bool
is_over DeferredState.expired = true
is_over _ = false

-- The offer that the request holds; an ended reservation without a driver holds none.
abbrev pub offer_held : Request → Option ℕ
offer_held r =
    if state_is is_ended r.deferred_payment_state && not (is_some r.assigned_driver_id)
    then none
    else r.accepted_offer_id

-- No offer of the request is accepted but the given one.
abbrev pub Accepts : Option ℕ → ℕ → List Offer → Type 0
Accepts held request_id [] = Unit {0}
Accepts held request_id (o ∷ offers) =
    ((o.request_id == request_id && is_accepted o.status) ≡ true → is_id held o.id ≡ true)
    × Accepts held request_id offers

pub record IsCoherent (r : Request) : Type 0 where
  -- Reserved is what waits for its payment; what waits for it is reserved, or was cancelled.
  pub reserved : is_reserved r.status ≡ true → state_is is_unpaid r.deferred_payment_state ≡ true
  pub unpaid :
      state_is is_unpaid r.deferred_payment_state ≡ true
      → (is_reserved r.status || is_cancelled r.status) ≡ true
  pub ended : state_is is_ended r.deferred_payment_state ≡ true → is_cancelled r.status ≡ true
  pub expired :
      state_is is_over r.deferred_payment_state ≡ true → is_some r.assigned_driver_id ≡ false
  pub taken :
      (state_is is_unpaid r.deferred_payment_state || is_paid r.deferred_payment_state) ≡ true
      → (is_some r.assigned_driver_id
          && is_some r.accepted_offer_id
          && is_some r.confirmation_opens_at
          && is_some r.payment_deadline_at)
        ≡ true
  pub confirmed :
      (state_is is_payment_pending r.deferred_payment_state || is_paid r.deferred_payment_state)
        ≡ true
      → is_some r.pickup_confirmed_at ≡ true
  pub paid : is_paid r.deferred_payment_state ≡ true → is_some r.reservation_paid_at ≡ true

abbrev pub CoherentRows : Option Request → List Offer → Type 0
CoherentRows none offers = Unit {0}
CoherentRows (some r) offers = IsCoherent r × Accepts (offer_held r) r.id offers

abbrev pub IsSafe : ReservationDb → Type 0
IsSafe db = CoherentRows db.request db.offers

chosen-Accepts :
    (now request_id offer_id : ℕ) (offers : List Offer)
    → Accepts none request_id offers
    → Accepts (some offer_id) request_id (map (chosen now request_id offer_id) offers)
chosen-Accepts now request_id offer_id [] h = tt
chosen-Accepts now request_id offer_id (o ∷ offers) h =
    (let k = h.0 in ground arith, chosen-Accepts now request_id offer_id offers h.1)

pub dropped-Accepts :
    (now request_id : ℕ) (held : Option ℕ) (offers : List Offer)
    → Accepts held request_id (map (dropped now request_id) offers)
dropped-Accepts now request_id held [] = tt
dropped-Accepts now request_id held (o ∷ offers) =
    (ground arith, dropped-Accepts now request_id held offers)

pub unheld :
    (r : Request) (offers : List Offer)
    → is_some r.accepted_offer_id ≡ false
    → Accepts (offer_held r) r.id offers
    → Accepts none r.id offers
unheld r offers e h = let same : offer_held r ≡ none = ground arith in rw (sym same) h

reserved_offers :
    (now : ℕ) (r : Request) (offer : Offer) (offers : List Offer)
    → Accepts (offer_held r) r.id offers
    → is_some r.accepted_offer_id ≡ false
    → Accepts (some offer.id) r.id (map (chosen now r.id offer.id) offers)
reserved_offers now r offer offers h e =
    chosen-Accepts now r.id offer.id offers (unheld r offers e h)

expire_tx-IsSafe :
    (now : ℕ) (state : DeferredState) (r : Request) (db : ReservationDb)
    → is_ended state ≡ true
    → IsSafe (expire_tx now state r db)
unfolding expire_tx
expire_tx-IsSafe now state r db h =
    let rest = dropped-Accepts now r.id none db.offers in
    elim state [
      | DeferredState.expired ↦ ground (arith, rest)
      | DeferredState.cancelled ↦ ground (arith, rest)
      | other ↦ ground arith
    ]

module _ (booking_day : Option ℕ → ℕ → ℕ)
    (ensure_room : Request → Offer → Result ReservationError (Unit {0})) where
  reserve_nothing :
      (now customer_id offer_id : ℕ) (db : ReservationDb)
      → (db.request ≡ none) ⊎ (offer_by_id (some offer_id) db.offers ≡ none)
      → IsSafe db
      → Leaves IsSafe (reserve_tx booking_day ensure_room now customer_id offer_id db)
  unfolding reserve_tx
  reserve_nothing now customer_id offer_id db e h = ground arith

  reserve_row-IsSafe :
      (now customer_id offer_id : ℕ) (db : ReservationDb) (r : Request) (offer : Offer)
      → db.request ≡ some r
      → offer_by_id (some offer_id) db.offers ≡ some offer
      → IsSafe db
      → Leaves IsSafe (reserve_tx booking_day ensure_room now customer_id offer_id db)
  unfolding reserve_tx
  reserve_row-IsSafe now customer_id offer_id db r offer e f h =
      let offers = reserved_offers now r offer db.offers in ground (arith, offers)

  reserve_tx-IsSafe :
      (now customer_id offer_id : ℕ) (db : ReservationDb)
      → IsSafe db
      → Leaves IsSafe (reserve_tx booking_day ensure_room now customer_id offer_id db)
  reserve_tx-IsSafe now customer_id offer_id db h = elim (Option-cases db.request) [
    | inl e ↦ reserve_nothing now customer_id offer_id db (inl e) h
    | inr (r, e) ↦ elim (Option-cases (offer_by_id (some offer_id) db.offers)) [
      | inl f ↦ reserve_nothing now customer_id offer_id db (inr f) h
      | inr (offer, f) ↦ reserve_row-IsSafe now customer_id offer_id db r offer e f h
    ]
  ]

confirm_tx-IsSafe :
    (payments : PaymentService) (now customer_id method : ℕ) (db : ReservationDb)
    → IsSafe db
    → Leaves IsSafe (confirm_tx payments now customer_id method db)
unfolding confirm_tx
confirm_tx-IsSafe payments now customer_id method db h = ground arith

reconciled_row :
    (P : ReservationDb → Type 0) (db paid given_up : ReservationDb) (done eligible : Bool)
    → P db
    → P paid
    → P given_up
    → Leaves P (
        if◌then◌else◌ {A = Result ReservationError ReservationDb} done
          (ok db)
          (if eligible then ok paid else ok given_up))
reconciled_row P db paid given_up true eligible h p g = h
reconciled_row P db paid given_up false true h p g = p
reconciled_row P db paid given_up false false h p g = g

waiting_row :
    (P : ReservationDb → Type 0) (db given_up : ReservationDb) (done over : Bool)
    → P db
    → P given_up
    → Leaves P (
        if◌then◌else◌ {A = Result ReservationError ReservationDb} done
          (ok db)
          (if over then ok given_up else ok db))
waiting_row P db given_up true over h g = h
waiting_row P db given_up false true h g = g
waiting_row P db given_up false false h g = h

paid_request-IsSafe :
    (now : ℕ) (hold : Option ReservationHold) (r : Request) (offers : List Offer)
    → is_payable now r hold ≡ true
    → CoherentRows (some r) offers
    → CoherentRows (some (paid_request now hold r)) offers
paid_request-IsSafe now hold r offers payable h =
    let waits : is_reserved r.status ≡ true = ground arith in
    let sure : is_some r.pickup_confirmed_at ≡ true = ground arith in
    let coherent = h.0 in
    let unpaid = coherent.reserved waits in
    let taken = coherent.taken in
    let held : offer_held r ≡ r.accepted_offer_id = ground arith in
    (
      record {
        reserved = λ e. cc;
        unpaid = λ e. cc;
        ended = λ e. cc;
        expired = λ e. cc;
        taken = λ e. ground arith;
        confirmed = λ e. sure;
        paid = λ e. elim (Option-cases (secured_at hold)) [
          | inl g ↦ rw g refl
          | inr (at, g) ↦ rw g refl
        ];
      },
      rw (sym held) h.1,
    )

reconcile_row-IsSafe :
    (now : ℕ) (db : ReservationDb) (r : Request)
    → db.request ≡ some r
    → IsSafe db
    → Leaves IsSafe (reconcile_tx now db)
unfolding reconcile_tx
reconcile_row-IsSafe now db r e h =
    let cancelled = expire_tx-IsSafe now DeferredState.cancelled r db refl in
    let expired = expire_tx-IsSafe now DeferredState.expired r db refl in
    let rows : CoherentRows (some r) db.offers = rw e at h in
    elim (Bool-cases (is_payable now r db.hold)) [
      | inl payable ↦
          let paid = paid_request-IsSafe now db.hold r db.offers payable rows in
          simp (e, payable)
            (reconciled_row IsSafe db (record db { request = some (paid_request now db.hold r) })
              (expire_tx now DeferredState.cancelled r db) (is_paid r.deferred_payment_state)
              (is_eligible (driver_by_id r.assigned_driver_id db.drivers)) h paid cancelled)
      | inr no_ ↦
          simp (e, no_)
            (waiting_row IsSafe db (expire_tx now DeferredState.expired r db)
              (is_paid r.deferred_payment_state)
              (is_reserved r.status && is_expired r.payment_deadline_at now) h expired)
    ]

reconcile_tx-IsSafe :
    (now : ℕ) (db : ReservationDb) → IsSafe db → Leaves IsSafe (reconcile_tx now db)
unfolding reconcile_tx
reconcile_tx-IsSafe now db h = elim (Option-cases db.request) [
  | inl e ↦ rw e tt
  | inr (r, e) ↦ reconcile_row-IsSafe now db r e h
]

cancel_row-IsSafe :
    (now customer_id : ℕ) (db : ReservationDb) (r : Request)
    → db.request ≡ some r
    → IsSafe db
    → Leaves IsSafe (cancel_tx now customer_id db)
unfolding cancel_tx
cancel_row-IsSafe now customer_id db r e h =
    let cancelled = expire_tx-IsSafe now DeferredState.cancelled r db refl in
    ground (arith, cancelled)

cancel_tx-IsSafe :
    (now customer_id : ℕ) (db : ReservationDb)
    → IsSafe db
    → Leaves IsSafe (cancel_tx now customer_id db)
unfolding cancel_tx
cancel_tx-IsSafe now customer_id db h = elim (Option-cases db.request) [
  | inl e ↦ rw e tt
  | inr (r, e) ↦ cancel_row-IsSafe now customer_id db r e h
]

marks-IsSafe :
    (type : NoticeType) (now : ℕ) (r : Request) (db : ReservationDb)
    → db.request ≡ some r
    → IsSafe db
    → IsSafe (record db { request = some (marked type now r) })
marks-IsSafe type now r db e h = ground arith

-- A cancellation by the payments service leaves the driver and the offers.
withdrawn-IsSafe : (db : ReservationDb) → IsSafe db → IsSafe (withdrawn db)
unfolding withdrawn
withdrawn-IsSafe db h = ground arith

finished-IsSafe : (db : ReservationDb) → IsSafe db → IsSafe (finished db)
unfolding finished
finished-IsSafe db h = ground arith

written-IsSafe : (b : BookingWrite) (db : ReservationDb) → IsSafe db → IsSafe (written b db)
unfolding written
written-IsSafe payment_only db h = h
written-IsSafe booking_withdrawn db h = withdrawn-IsSafe db h
written-IsSafe cancellation_finished db h = finished-IsSafe db h

refund_marked-IsSafe :
    (now : ℕ) (db : ReservationDb) → IsSafe db → Leaves IsSafe (refund_marked now db)
unfolding refund_marked
refund_marked-IsSafe now db h = ground arith

-- An offer that is not accepted changes nothing.
Accepts-append :
    (held : Option ℕ) (request_id : ℕ) (offers : List Offer) (o : Offer)
    → is_accepted o.status ≡ false
    → Accepts held request_id offers
    → Accepts held request_id (offers ++ (o ∷ []))
Accepts-append held request_id [] o e h = ground arith
Accepts-append held request_id (p ∷ offers) o e h =
    (h.0, Accepts-append held request_id offers o e h.1)

pub CoherentRows-append :
    (found : Option Request) (offers : List Offer) (o : Offer)
    → is_accepted o.status ≡ false
    → CoherentRows found offers
    → CoherentRows found (offers ++ (o ∷ []))
CoherentRows-append none offers o e h = tt
CoherentRows-append (some r) offers o e h = (h.0, Accepts-append (offer_held r) r.id offers o e h.1)

pub IsSafe-IsKept :
    (payments : PaymentService) (booking_day : Option ℕ → ℕ → ℕ)
    (ensure_room : Request → Offer → Result ReservationError (Unit {0}))
    → IsKept IsSafe payments booking_day ensure_room
IsSafe-IsKept payments booking_day ensure_room = record {
  reserved = reserve_tx-IsSafe booking_day ensure_room;
  confirmed = confirm_tx-IsSafe payments;
  reconciled = reconcile_tx-IsSafe;
  cancelled = cancel_tx-IsSafe;
  held = λ hold db h. h;
  booked = written-IsSafe;
  refunded = refund_marked-IsSafe;
  sent = λ notices db h. h;
  marks = marks-IsSafe;
}
