-- ===== src/Reservations/Notices.antt =====
-- `notifyOnce` and `notify` of src/customer-requests/furniture-reservations.service.ts. The texts of
-- the notices are left out. The notifications service throws or takes the notice (`delivers`); what
-- it took stays taken when the transaction is rolled back.
use transpo24_backend_nest_j.Base.{
  ℕ, Bool, true, false, not, ◌&&◌, ◌||◌, Option, none, some, ◌∷◌, is_some, if◌then◌else◌, Result,
  ok, err,
}
use transpo24_backend_nest_j.Domain.{is_reserved, is_cancelled}
use transpo24_backend_nest_j.Policy.Reservation.{DeferredState}
use transpo24_backend_nest_j.Reservations.State.{
  ReservationError, request_not_found, notification_failed, Request, NoticeType, furniture_reserved,
  furniture_confirmation_due, furniture_payment_confirmed, furniture_reservation_cancelled, PushApp,
  Notice, ReservationDb, Call, with_db, transaction, ◌>>=◌, ◌>>◌, return, read, offer_by_id,
  driver_by_id,
}
use transpo24_backend_nest_j.Reservations.Guards.{
  is_paid, is_waiting, or_throw, can_confirm_and_pay,
}

-- `row[notificationMarkers[type]]`
abbrev pub marker : NoticeType → Request → Option ℕ
marker furniture_reserved row = row.reservation_selected_notified_at
marker furniture_confirmation_due row = row.reservation_reminder_sent_at
marker furniture_payment_confirmed row = row.reservation_payment_notified_at
marker furniture_reservation_cancelled row = row.reservation_cancellation_notified_at

-- The rest of the checks of `notifyOnce`: the request is in the state that the notice tells of.
-- The row is read without its hold, so that the summary does not see a payment that has started.
abbrev pub applies : NoticeType → ℕ → Request → Bool
applies furniture_reserved now row = is_reserved row.status
applies furniture_confirmation_due now row =
    is_reserved row.status && can_confirm_and_pay row none now
applies furniture_payment_confirmed now row = is_paid row.deferred_payment_state
applies furniture_reservation_cancelled now row = is_cancelled row.status

abbrev pub marked : NoticeType → ℕ → Request → Request
marked furniture_reserved now row = record row { reservation_selected_notified_at = some now }
marked furniture_confirmation_due now row = record row {
  reservation_reminder_sent_at = some now;
  deferred_payment_state =
      if is_waiting row.deferred_payment_state
      then some DeferredState.confirmation_due
      else row.deferred_payment_state;
}
marked furniture_payment_confirmed now row = record row {
  reservation_payment_notified_at = some now;
}
marked furniture_reservation_cancelled now row = record row {
  reservation_cancellation_notified_at = some now;
}

abbrev pub is_reminder : NoticeType → Bool
is_reminder furniture_confirmation_due = true
is_reminder _ = false

-- The user of the accepted offer's driver.
abbrev pub offer_user : Request → ReservationDb → Option ℕ
offer_user row db = elim (offer_by_id row.accepted_offer_id db.offers) [
  | none ↦ none
  | some offer ↦ elim (driver_by_id (some offer.driver_id) db.drivers) [
    | none ↦ none
    | some d ↦ some d.user_id
  ]
]

module _ (delivers : Notice → Bool) where
  unfoldable pub send_to_user : ℕ → PushApp → NoticeType → Call (Unit {0})
  send_to_user user app type db =
      let notice : Notice = record { user_id = user; app = app; type = type } in
      if delivers notice
      then (ok tt, record db { sent = notice ∷ db.sent })
      else (err notification_failed, db)

  abbrev pub send_to_driver : Option ℕ → NoticeType → Call (Unit {0})
  send_to_driver none type = return tt
  send_to_driver (some user) type =
      if is_reminder type then return tt else send_to_user user PushApp.driver type

  -- The offer's driver has no notice of a reminder.
  unfoldable pub notify : NoticeType → Request → Call (Unit {0})
  unfolding send_to_user ◌>>=◌
  notify type row = with_db λ db. do
    send_to_user row.customer_id PushApp.customer type
    send_to_driver (offer_user row db) type

abbrev pub marked_found :
    NoticeType → ℕ → ReservationDb → Option Request → Result ReservationError ReservationDb
marked_found type now db none = err request_not_found
marked_found type now db (some row) = ok (record db { request = some (marked type now row) })

unfoldable pub marked_row : NoticeType → ℕ → ReservationDb → Result ReservationError ReservationDb
marked_row type now db = marked_found type now db db.request

module _ (delivers : Notice → Bool) where
  -- The row that is marked is the one that was read: it is locked.
  unfoldable pub notify_once : ℕ → NoticeType → Call (Unit {0})
  unfolding can_confirm_and_pay
  notify_once now type = do
    row ← read (λ d. or_throw d.request request_not_found)
    if is_some (marker type row) || not (applies type now row)
        then return tt
        else (do notify delivers type row; transaction (marked_row type now))
