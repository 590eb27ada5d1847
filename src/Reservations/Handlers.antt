-- ===== src/Reservations/Handlers.antt =====
-- The calls of src/customer-requests/furniture-reservations.service.ts. A call reads the clock once;
-- the jobs that `tryReserve` puts on the queue only start a sweep earlier and are left out.
use transpo24_backend_nest_j.Base.{
  ℕ, Bool, true, false, not, ◌&&◌, ◌||◌, Option, none, some, is_some, if◌then◌else◌, Result, ok,
  err, throw_if,
}
use transpo24_backend_nest_j.Domain.{is_reserved, is_cancelled}
use transpo24_backend_nest_j.Reservations.Withdrawals.{written}
use transpo24_backend_nest_j.Reservations.State.{
  PaymentAnswer, ReservationError, request_not_found, other_offer_reserved, temporarily_unavailable,
  nothing_to_confirm, not_deferred, offer_not_found, hold_not_found, Offer, Request,
  furniture_reserved, furniture_confirmation_due, furniture_payment_confirmed,
  furniture_reservation_cancelled, Notice, ReservationHold, ReservationDb, PaymentService, Call,
  with_db, ◌>>=◌, ◌>>◌, return, read, transaction, logged, offer_by_id,
}
use transpo24_backend_nest_j.Reservations.Guards.{
  is_paid, is_captured, is_refunded, is_withdrawn, or_throw, is_id, require_owner, is_expired,
}
use transpo24_backend_nest_j.Reservations.Transactions.{
  may_defer, reserve_tx, confirm_tx, reconcile_tx, cancel_tx,
}
use transpo24_backend_nest_j.Reservations.Notices.{notify_once}

-- `nextStep` of the answer.
pub data NextStep : Type 0 where
  track_request wait_confirmation confirm_payment reservation_confirmed : NextStep

abbrev pub next_step : Request → Option ReservationHold → Bool → NextStep
next_step row hold awaits =
    if is_paid row.deferred_payment_state
    then track_request
    else (if is_reserved row.status && is_some hold
        then (if awaits then wait_confirmation else confirm_payment)
        else reservation_confirmed)

abbrev pub store_hold :
    ReservationDb → Result ReservationError PaymentAnswer → Result ReservationError ReservationDb
store_hold db (ok answer) = ok (written answer.booking (record db { hold = some answer.hold }))
store_hold db (err e) = err e

abbrev pub on_found :
    (ReservationHold → Result ReservationError PaymentAnswer)
    → ReservationDb
    → Option ReservationHold
    → Result ReservationError ReservationDb
on_found f db none = err hold_not_found
on_found f db (some hold) = store_hold db (f hold)

-- An operation of the payments service on the hold that is there.
unfoldable pub on_hold :
    (ReservationHold → Result ReservationError PaymentAnswer)
    → ReservationDb
    → Result ReservationError ReservationDb
unfolding written
on_hold f db = on_found f db db.hold

abbrev pub wants_refund : Request → Bool
wants_refund row = is_cancelled row.status && not (is_some row.reservation_refunded_at)

unfoldable pub refund_marked : ℕ → ReservationDb → Result ReservationError ReservationDb
refund_marked now db = elim db.request [
  | none ↦ err request_not_found
  | some row ↦ ok (record db { request = some (record row { reservation_refunded_at = some now }) })
]

module _ (payments : PaymentService) where
  abbrev pub refresh : Call (Unit {0})
  refresh = transaction (on_hold payments.get_request_payment)

  abbrev pub refresh_if : Bool → Call (Unit {0})
  refresh_if true = refresh
  refresh_if false = return tt

  -- What is left of a cancelled reservation's payment: a captured one is refunded, another one
  -- withdrawn.
  abbrev pub settle_hold : ℕ → Option ReservationHold → Call (Unit {0})
  settle_hold now none = return tt
  settle_hold now (some hold) =
      if is_captured hold.status
      then (do
        transaction (on_hold payments.refund_unpaid_reservation)
        transaction (refund_marked now))
      else (if is_withdrawn hold.status || is_refunded hold.status
          then return tt
          else transaction (on_hold payments.cancel_request_payment))

  unfoldable pub settle : ℕ → Call (Unit {0})
  unfolding on_hold refund_marked
  settle now = with_db λ db. do
    row ← read (λ d. or_throw d.request request_not_found)
    if wants_refund row then settle_hold now db.hold else return tt

  abbrev pub needs_refresh : Option ReservationHold → Bool
  needs_refresh none = false
  needs_refresh (some hold) = not (is_refunded hold.status)

  abbrev pub reconcile_open : ℕ → Option ReservationHold → Call (Unit {0})
  reconcile_open now hold = do
    refresh_if (needs_refresh hold)
    transaction (reconcile_tx now)
    settle now

  abbrev pub is_deferred_unpaid : Option Request → Bool
  is_deferred_unpaid none = false
  is_deferred_unpaid (some row) =
      is_some row.deferred_payment_state && not (is_paid row.deferred_payment_state)

  unfoldable pub reconcile : ℕ → Call (Unit {0})
  unfolding reconcile_tx settle
  reconcile now =
      with_db λ db. if is_deferred_unpaid db.request then reconcile_open now db.hold else return tt

  abbrev pub awaits : Option ReservationHold → Bool
  awaits none = false
  awaits (some hold) = payments.awaits_capture hold

  abbrev pub answer_of : Request → Call NextStep
  answer_of row = read (λ db. ok (next_step row db.hold (awaits db.hold)))

  -- `response`: it needs the offer, and refreshes the payment.
  unfoldable pub response : Call NextStep
  response = with_db λ db. do
    row ← read (λ d. or_throw d.request request_not_found)
    offer ← read (λ d. or_throw (offer_by_id row.accepted_offer_id d.offers) offer_not_found)
    refresh_if (is_some db.hold)
    answer_of row

  abbrev pub confirm_guards : ℕ → Bool → Option ℕ → ReservationDb → Result ReservationError ℕ
  confirm_guards customer_id confirmed method db = elim method [
    | none ↦ err nothing_to_confirm
    | some m ↦
        if confirmed
        then (elim (require_owner db.request customer_id) [
          | err e ↦ err e
          | ok row ↦ if is_some row.deferred_payment_state then ok m else err not_deferred
        ])
        else err nothing_to_confirm
  ]

  unfoldable pub confirm : ℕ → ℕ → Bool → Option ℕ → Call NextStep
  unfolding confirm_tx reconcile response require_owner
  confirm now customer_id confirmed method = with_db λ db. do
    m ← read (confirm_guards customer_id confirmed method)
    refresh_if (is_some db.hold)
    transaction (confirm_tx payments now customer_id m)
    reconcile now
    response

  abbrev pub is_deferred : Option Request → Bool
  is_deferred none = false
  is_deferred (some row) = is_some row.deferred_payment_state

  abbrev pub answered : Call NextStep → Call (Option NextStep)
  answered m = m >>= λ step. return (some step)

  unfoldable pub finalize : ℕ → ℕ → Call (Option NextStep)
  unfolding reconcile response require_owner
  finalize now customer_id = with_db λ db.
      if is_deferred db.request
      then (do
        row ← read (λ d. require_owner d.request customer_id)
        reconcile now
        answered response)
      else return none

  module _ (delivers : Notice → Bool) where
    unfoldable pub cancel : ℕ → ℕ → Call (Unit {0})
    unfolding cancel_tx reconcile notify_once
    cancel now customer_id = do
      transaction (cancel_tx now customer_id)
      reconcile now
      notify_once delivers now furniture_reservation_cancelled

    -- The notices of a sweep, by the request as it is read again.
    abbrev pub sweep_notices : ℕ → Request → Call (Unit {0})
    sweep_notices now row =
        if is_cancelled row.status
        then notify_once delivers now furniture_reservation_cancelled
        else (if is_paid row.deferred_payment_state
            then notify_once delivers now furniture_payment_confirmed
            else (if is_reserved row.status
                then (do
                  notify_once delivers now furniture_reserved
                  if is_some row.confirmation_opens_at && is_expired row.confirmation_opens_at now
                      then notify_once delivers now furniture_confirmation_due
                      else return tt)
                else return tt))

    -- The body of `sweep` for one request: what it throws is logged.
    unfoldable pub sweep_one : ℕ → Call (Unit {0})
    unfolding reconcile notify_once
    sweep_one now = logged (do
      reconcile now
      row ← read (λ d. or_throw d.request request_not_found)
      sweep_notices now row)

    module _ (booking_day : Option ℕ → ℕ → ℕ)
        (ensure_room : Request → Offer → Result ReservationError (Unit {0})) where
      abbrev pub reserve_new : ℕ → ℕ → ℕ → Bool → Bool → Request → Call (Option NextStep)
      reserve_new now customer_id offer_id supported enabled initial =
          if not supported || not (may_defer booking_day initial now) then return none else (do
            read (λ _. throw_if (not enabled) temporarily_unavailable)
            transaction (reserve_tx booking_day ensure_room now customer_id offer_id)
            logged (notify_once delivers now furniture_reserved)
            answered response)

      -- `tryReserve`: it returns `none` where the request is to be paid at once. `supported` is the
      -- client's flag, `enabled` is that the worker is ready and the feature switched on.
      unfoldable pub try_reserve : ℕ → ℕ → ℕ → Bool → Bool → Call (Option NextStep)
      unfolding require_owner reserve_tx notify_once response
      try_reserve now customer_id offer_id supported enabled = do
        initial ← read (λ d. require_owner d.request customer_id)
        if is_some initial.deferred_payment_state
            then (do
              read (λ _.
                  throw_if (not (is_id initial.accepted_offer_id offer_id)) other_offer_reserved)
              answered response)
            else reserve_new now customer_id offer_id supported enabled initial
