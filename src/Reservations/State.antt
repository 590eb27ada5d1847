-- ===== src/Reservations/State.antt =====
-- The rows that src/customer-requests/furniture-reservations.service.ts reads and writes for one
-- request, and its calls as functions on them. Ids are numbers, times are milliseconds; the rows of
-- other requests' offers may stand in the list of offers.
use transpo24_backend_nest_j.Base.{ℕ, ◌==◌, Bool, Option, none, some, List, find, Result, ok, err}
use transpo24_backend_nest_j.Base.Int.{ℤ}
use transpo24_backend_nest_j.Domain.{RequestStatus, ServiceKey, DriverStatus}
use transpo24_backend_nest_j.Payments.State.{ConfirmationState, PaymentStatus}
use transpo24_backend_nest_j.Policy.Reservation.{DeferredState}

pub data ReservationError : Type 0 where
  request_not_found not_owner driver_ineligible other_offer_reserved : ReservationError
  temporarily_unavailable not_available pay_now offer_unavailable : ReservationError
  nothing_to_confirm not_deferred outside_window reserved_offer_unavailable : ReservationError
  other_method payment_was_cancelled offer_not_found paid_trip payment_succeeded : ReservationError
  hold_not_found notification_failed : ReservationError
  -- Of src/customer-requests/customer-requests.service.ts.
  ids_required confirm_required method_required already_accepted : ReservationError
  other_offer_accepted payment_not_collected wrong_status other_offer_confirming : ReservationError
  payment_in_progress wrong_request offer_not_pending no_vehicle : ReservationError
  driver_not_approved driver_offline funds_not_secured assignment_failed : ReservationError
  -- What another service threw.
  thrown : ℕ → ReservationError

pub data OfferStatus : Type 0 where
  pending accepted rejected cancelled expired : OfferStatus

pub record Driver : Type 0 where
  pub id : ℕ
  pub user_id : ℕ
  pub status : DriverStatus
  pub is_profile_completed : Bool
  -- How many approved vehicles fit.
  pub vehicles : ℕ
  -- There is an availability, and it is online.
  pub is_online : Bool

pub record Offer : Type 0 where
  pub id : ℕ
  pub request_id : ℕ
  pub driver_id : ℕ
  pub price : ℕ
  pub currency : ℕ
  pub status : OfferStatus
  pub accepted_at : Option ℕ
  pub rejected_at : Option ℕ
  pub cancelled_at : Option ℕ

pub record ReservationHold : Type 0 where
  pub accepted_offer_id : ℕ
  pub status : PaymentStatus
  pub confirmation_state : ConfirmationState
  pub confirmation_started_at : Option ℕ
  pub payment_method : ℕ
  pub authorized_at : Option ℕ
  pub captured_at : Option ℕ

pub record Request : Type 0 where
  pub id : ℕ
  pub customer_id : ℕ
  pub service_key : ServiceKey
  pub time_zone : Option ℕ
  pub scheduled_pickup_at : Option ℕ
  pub status : RequestStatus
  pub deferred_payment_state : Option DeferredState
  pub accepted_offer_id : Option ℕ
  pub assigned_driver_id : Option ℕ
  pub accepted_at : Option ℕ
  pub confirmation_opens_at : Option ℤ
  pub payment_deadline_at : Option ℤ
  pub pickup_confirmed_at : Option ℕ
  pub reservation_paid_at : Option ℕ
  pub reservation_refunded_at : Option ℕ
  pub reservation_selected_notified_at : Option ℕ
  pub reservation_reminder_sent_at : Option ℕ
  pub reservation_payment_notified_at : Option ℕ
  pub reservation_cancellation_notified_at : Option ℕ

pub data NoticeType : Type 0 where
  furniture_reserved furniture_confirmation_due : NoticeType
  furniture_payment_confirmed furniture_reservation_cancelled : NoticeType

pub data PushApp : Type 0 where
  customer driver : PushApp

pub record Notice : Type 0 where
  pub user_id : ℕ
  pub app : PushApp
  pub type : NoticeType

pub record ReservationDb : Type 0 where
  pub request : Option Request
  pub hold : Option ReservationHold
  pub offers : List Offer
  pub drivers : List Driver
  -- What was handed to the notifications service, the latest first.
  pub sent : List Notice

-- What the payments service writes to the request besides its columns for the payment, which are not
-- in the row: nothing, or the cancellation of the booking, before its payment was captured or with a
-- fee.
pub data BookingWrite : Type 0 where
  payment_only booking_withdrawn cancellation_finished : BookingWrite

pub record PaymentAnswer : Type 0 where
  pub hold : ReservationHold
  pub booking : BookingWrite

-- The payments service as this one uses it: each operation throws, or leaves the hold and the request
-- as it answers. A new hold is written with the request's columns for the payment. `create_hold` takes the accepted offer and the chosen method.
pub record PaymentService : Type 0 where
  pub get_request_payment : ReservationHold → Result ReservationError PaymentAnswer
  pub create_hold_for_accepted_offer : Offer → ℕ → Result ReservationError ReservationHold
  pub refund_unpaid_reservation : ReservationHold → Result ReservationError PaymentAnswer
  pub cancel_request_payment : ReservationHold → Result ReservationError PaymentAnswer
  -- The summary of the hold has a confirmation, and its state is not `CAPTURED`.
  pub awaits_capture : ReservationHold → Bool

-- A call throws or returns, and leaves rows either way.
abbrev pub Call : Type 0 → Type 0
Call A = ReservationDb → Result ReservationError A × ReservationDb

abbrev pub then_call :
    {A B : Type 0}
    → Result ReservationError A × ReservationDb
    → (A → Call B)
    → Result ReservationError B × ReservationDb
then_call (ok a, db) f = f a db
then_call (err e, db) f = (err e, db)

abbrev committed :
    ReservationDb
    → Result ReservationError ReservationDb
    → Result ReservationError (Unit {0}) × ReservationDb
committed before (ok after) = (ok tt, after)
committed before (err e) = (err e, before)

abbrev caught_call :
    Result ReservationError (Unit {0}) × ReservationDb
    → Result ReservationError (Unit {0}) × ReservationDb
caught_call (r, db) = (ok tt, db)

unfoldable pub return : {A : Type 0} → A → Call A
return a db = (ok a, db)

-- What a read and its checks return.
unfoldable pub read : {A : Type 0} → (ReservationDb → Result ReservationError A) → Call A
read f db = (f db, db)

-- The rows as the call finds them.
unfoldable pub with_db : {A : Type 0} → (ReservationDb → Call A) → Call A
with_db f db = f db db

-- A transaction that throws is rolled back.
unfoldable pub transaction :
    (ReservationDb → Result ReservationError ReservationDb) → Call (Unit {0})
transaction f db = committed db (f db)

-- `try { … } catch (error) { this.logger.error(…) }`
unfoldable pub logged : Call (Unit {0}) → Call (Unit {0})
logged m db = caught_call (m db)

infixl 5 ◌>>=◌ ◌>>◌
-- Opening this opens the other actions too.
unfoldable pub ◌>>=◌ : {A B : Type 0} → Call A → (A → Call B) → Call B
unfolding return read with_db transaction logged
(m >>= f) db = then_call (m db) f

abbrev pub ◌>>◌ : {B : Type 0} → Call (Unit {0}) → Call B → Call B
m >> k = m >>= λ _. k

abbrev pub offer_by_id : Option ℕ → List Offer → Option Offer
offer_by_id none offers = none
offer_by_id (some id) offers = find (λ o. o.id == id) offers

abbrev pub driver_by_id : Option ℕ → List Driver → Option Driver
driver_by_id none drivers = none
driver_by_id (some id) drivers = find (λ d. d.id == id) drivers
