-- ===== src/Reservations/Events.antt =====
-- What happens to a deferred reservation, one event after another: the calls of
-- src/customer-requests/furniture-reservations.service.ts, transactions of calls that overlap, the
-- hold and the cancellations that the payments service writes, drivers and their offers. The other
-- columns that the payments service writes to the request are not in the row; what the trip and the
-- administration write to a request is left out.
use transpo24_backend_nest_j.Base.{ℕ, Bool, Option, some, List, [], ◌∷◌, ◌++◌, Result}
use transpo24_backend_nest_j.Reservations.State.{
  ReservationError, ReservationHold, Request, Offer, OfferStatus, Driver, NoticeType, Notice,
  ReservationDb, BookingWrite, PaymentService, transaction,
}
use transpo24_backend_nest_j.Reservations.Transactions.{
  reserve_tx, confirm_tx, reconcile_tx, cancel_tx,
}
use transpo24_backend_nest_j.Reservations.Notices.{marked_row}
use transpo24_backend_nest_j.Reservations.Withdrawals.{written}
use transpo24_backend_nest_j.Reservations.Handlers.{
  refund_marked, confirm, finalize, cancel, sweep_one, try_reserve,
}

-- What the service takes from outside.
pub record World : Type 0 where
  pub payments : PaymentService
  pub delivers : Notice → Bool
  pub booking_day : Option ℕ → ℕ → ℕ
  pub ensure_room : Request → Offer → Result ReservationError (Unit {0})

-- A transaction of a call that has not ended when the next event comes.
pub data Step : Type 0 where
  reserves : (now customer_id offer_id : ℕ) → Step
  confirms : (now customer_id method : ℕ) → Step
  reconciles : (now : ℕ) → Step
  cancels : (now customer_id : ℕ) → Step
  marks : NoticeType → (now : ℕ) → Step
  refunds : (now : ℕ) → Step

pub data Event : Type 0 where
  reserve_call : (now customer_id offer_id : ℕ) (supported enabled : Bool) → Event
  confirm_call : (now customer_id : ℕ) (confirmed : Bool) → (method : Option ℕ) → Event
  finalize_call : (now customer_id : ℕ) → Event
  cancel_call : (now customer_id : ℕ) → Event
  sweep_call : (now : ℕ) → Event
  step : Step → Event
  -- The payments service writes the hold.
  hold_written : ReservationHold → Event
  -- Its worker and its other calls cancel the booking.
  booking_written : BookingWrite → Event
  -- Drivers change, and a driver makes an offer, which is pending.
  drivers_written : List Driver → Event
  offer_made : Offer → Event

module _ (w : World) where
  unfoldable pub run_step : Step → ReservationDb → Result ReservationError ReservationDb
  unfolding reserve_tx confirm_tx reconcile_tx cancel_tx marked_row refund_marked
  run_step (reserves now customer_id offer_id) db =
      reserve_tx w.booking_day w.ensure_room now customer_id offer_id db
  run_step (confirms now customer_id method) db = confirm_tx w.payments now customer_id method db
  run_step (reconciles now) db = reconcile_tx now db
  run_step (cancels now customer_id) db = cancel_tx now customer_id db
  run_step (marks type now) db = marked_row type now db
  run_step (refunds now) db = refund_marked now db

  unfoldable pub run_event : Event → ReservationDb → ReservationDb
  unfolding try_reserve confirm finalize cancel sweep_one run_step transaction written
  run_event (reserve_call now customer_id offer_id supported enabled) db =
      (try_reserve w.payments w.delivers w.booking_day w.ensure_room now customer_id offer_id
        supported enabled db).1
  run_event (confirm_call now customer_id confirmed method) db =
      (confirm w.payments now customer_id confirmed method db).1
  run_event (finalize_call now customer_id) db = (finalize w.payments now customer_id db).1
  run_event (cancel_call now customer_id) db = (cancel w.payments w.delivers now customer_id db).1
  run_event (sweep_call now) db = (sweep_one w.payments w.delivers now db).1
  run_event (step s) db = (transaction (run_step s) db).1
  run_event (hold_written hold) db = record db { hold = some hold }
  run_event (booking_written b) db = written b db
  run_event (drivers_written drivers) db = record db { drivers = drivers }
  run_event (offer_made offer) db = record db {
    offers = db.offers ++ (record offer { status = OfferStatus.pending } ∷ []);
  }

  unfoldable pub run_events : List Event → ReservationDb → ReservationDb
  unfolding run_event
  run_events [] db = db
  run_events (e ∷ es) db = run_events es (run_event e db)
