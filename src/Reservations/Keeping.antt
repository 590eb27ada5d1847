-- ===== src/Reservations/Keeping.antt =====
-- A predicate that every transaction of src/customer-requests/furniture-reservations.service.ts keeps
-- is kept by its calls.
use transpo24_backend_nest_j.Base.{
  ℕ, ◌≡◌, refl, Bool, true, false, Option, none, some, List, Result, ok, err, arith, if◌then◌else◌,
}
use transpo24_backend_nest_j.Reservations.State.{
  ReservationError, notification_failed, ReservationHold, Request, Offer, PushApp, NoticeType,
  Notice, ReservationDb, BookingWrite, PaymentAnswer, PaymentService, Call, then_call, with_db,
  ◌>>=◌, return, read, transaction, logged,
}
use transpo24_backend_nest_j.Reservations.Transactions.{
  reserve_tx, confirm_tx, reconcile_tx, cancel_tx,
}
use transpo24_backend_nest_j.Reservations.Notices.{
  send_to_user, send_to_driver, marked, marked_found, marked_row, notify, notify_once,
}
use transpo24_backend_nest_j.Reservations.Withdrawals.{written}
use transpo24_backend_nest_j.Reservations.Handlers.{
  store_hold, on_found, on_hold, refund_marked, refresh_if, settle_hold, settle, reconcile,
  response, confirm, finalize, cancel, sweep_one, try_reserve,
}

-- What a transaction that goes through leaves.
abbrev pub Leaves : (ReservationDb → Type 0) → Result ReservationError ReservationDb → Type 0
Leaves P (ok db) = P db
Leaves P (err e) = Unit {0}

pub record IsKept (P : ReservationDb → Type 0) (payments : PaymentService)
    (booking_day : Option ℕ → ℕ → ℕ)
    (ensure_room : Request → Offer → Result ReservationError (Unit {0})) : Type 0 where
  pub reserved :
      (now customer_id offer_id : ℕ) (db : ReservationDb)
      → P db
      → Leaves P (reserve_tx booking_day ensure_room now customer_id offer_id db)
  pub confirmed :
      (now customer_id method : ℕ) (db : ReservationDb)
      → P db
      → Leaves P (confirm_tx payments now customer_id method db)
  pub reconciled : (now : ℕ) (db : ReservationDb) → P db → Leaves P (reconcile_tx now db)
  pub cancelled :
      (now customer_id : ℕ) (db : ReservationDb) → P db → Leaves P (cancel_tx now customer_id db)
  pub held :
      (hold : ReservationHold) (db : ReservationDb) → P db → P (record db { hold = some hold })
  pub booked : (b : BookingWrite) (db : ReservationDb) → P db → P (written b db)
  pub refunded : (now : ℕ) (db : ReservationDb) → P db → Leaves P (refund_marked now db)
  pub sent : (notices : List Notice) (db : ReservationDb) → P db → P (record db { sent = notices })
  pub marks :
      (type : NoticeType) (now : ℕ) (row : Request) (db : ReservationDb)
      → db.request ≡ some row
      → P db
      → P (record db { request = some (marked type now row) })

pub record Keeps {A : Type 0} (P : ReservationDb → Type 0) (m : Call A) : Type 0 where
  pub at : (db : ReservationDb) → P db → P (m db).1

module _ {P : ReservationDb → Type 0} where
  pub Keeps-return : {A : Type 0} (a : A) → Keeps P (return a)
  unfolding return
  Keeps-return a = record { at = λ db p. p }

  pub Keeps-read : {A : Type 0} (f : ReservationDb → Result ReservationError A) → Keeps P (read f)
  unfolding read
  Keeps-read f = record { at = λ db p. p }

  pub Keeps-with_db :
      {A : Type 0} (f : ReservationDb → Call A)
      → ((db : ReservationDb) → Keeps P (f db))
      → Keeps P (with_db f)
  unfolding with_db
  Keeps-with_db f h = record { at = λ db p. (h db).at db p }

  pub Keeps-logged : (m : Call (Unit {0})) → Keeps P m → Keeps P (logged m)
  unfolding logged
  Keeps-logged m h = record { at = λ db p. h.at db p }

  pub Keeps-if :
      {A : Type 0} (b : Bool) (m k : Call A) → Keeps P m → Keeps P k → Keeps P (if b then m else k)
  Keeps-if true m k h g = h
  Keeps-if false m k h g = g

  then_keeps :
      {A B : Type 0} (r : Result ReservationError A) (db : ReservationDb) (f : A → Call B)
      → P db
      → ((a : A) → Keeps P (f a))
      → P (then_call (r, db) f).1
  then_keeps (ok a) db f h k = (k a).at db h
  then_keeps (err e) db f h k = h

  pub Keeps-bind :
      {A B : Type 0} (m : Call A) (f : A → Call B)
      → Keeps P m
      → ((a : A) → Keeps P (f a))
      → Keeps P (m >>= f)
  unfolding ◌>>=◌
  Keeps-bind m f h k = record { at = λ db p. then_keeps (m db).0 (m db).1 f (h.at db p) k }

  pub Keeps-transaction :
      (f : ReservationDb → Result ReservationError ReservationDb)
      → ((db : ReservationDb) → P db → Leaves P (f db))
      → Keeps P (transaction f)
  unfolding transaction
  Keeps-transaction f h = record { at = λ db p. let k = h db p in ground arith }

pub ruleset rules = (Keeps-return, Keeps-read, Keeps-with_db, Keeps-logged, Keeps-if, Keeps-bind)

module _ (P : ReservationDb → Type 0) (payments : PaymentService) (booking_day : Option ℕ → ℕ → ℕ)
    (ensure_room : Request → Offer → Result ReservationError (Unit {0}))
    (k : IsKept P payments booking_day ensure_room) where
  stored_leaves :
      (db : ReservationDb) (r : Result ReservationError PaymentAnswer)
      → P db
      → Leaves P (store_hold db r)
  stored_leaves db (ok answer) p = k.booked answer.booking _ (k.held answer.hold db p)
  stored_leaves db (err e) p = tt

  found_leaves :
      (f : ReservationHold → Result ReservationError PaymentAnswer) (db : ReservationDb)
      (hold : Option ReservationHold)
      → P db
      → Leaves P (on_found f db hold)
  found_leaves f db none p = tt
  found_leaves f db (some hold) p = stored_leaves db (f hold) p

  on_hold_leaves :
      (f : ReservationHold → Result ReservationError PaymentAnswer) (db : ReservationDb)
      → P db
      → Leaves P (on_hold f db)
  unfolding on_hold
  on_hold_leaves f db p = found_leaves f db db.hold p

  sent_keeps :
      (b : Bool) (notices : List Notice) (db : ReservationDb)
      → P db
      → P
          (if◌then◌else◌ {A = Result ReservationError (Unit {0}) × ReservationDb} b
            (ok tt, record db { sent = notices })
            (err notification_failed, db)).1
  sent_keeps true notices db p = k.sent notices db p
  sent_keeps false notices db p = p

  pub on_hold-Keeps :
      (f : ReservationHold → Result ReservationError PaymentAnswer)
      → Keeps P (transaction (on_hold f))
  unfolding on_hold
  on_hold-Keeps f = Keeps-transaction (on_hold f) (on_hold_leaves f)

  refresh-Keeps : (b : Bool) → Keeps P (refresh_if payments b)
  refresh-Keeps true = on_hold-Keeps payments.get_request_payment
  refresh-Keeps false = Keeps-return tt

  marking-Keeps : (now : ℕ) → Keeps P (transaction (refund_marked now))
  marking-Keeps now = Keeps-transaction (refund_marked now) (k.refunded now)

  settle_hold-Keeps :
      (now : ℕ) (hold : Option ReservationHold) → Keeps P (settle_hold payments now hold)
  settle_hold-Keeps now none = Keeps-return tt
  settle_hold-Keeps now (some hold) = search (rules, on_hold-Keeps, marking-Keeps) depth 12

  settle-Keeps : (now : ℕ) → Keeps P (settle payments now)
  unfolding settle
  settle-Keeps now = search (rules, settle_hold-Keeps) depth 12

  reconcile_tx-Keeps : (now : ℕ) → Keeps P (transaction (reconcile_tx now))
  reconcile_tx-Keeps now = Keeps-transaction (reconcile_tx now) (k.reconciled now)

  reconcile-Keeps : (now : ℕ) → Keeps P (reconcile payments now)
  unfolding reconcile
  reconcile-Keeps now = search (rules, refresh-Keeps, reconcile_tx-Keeps, settle-Keeps) depth 12

  send-Keeps :
      (delivers : Notice → Bool) (user : ℕ) (app : PushApp) (type : NoticeType)
      → Keeps P (send_to_user delivers user app type)
  unfolding send_to_user
  send-Keeps delivers user app type = record {
    at = λ db p. sent_keeps (delivers (record { user_id = user; app = app; type = type })) _ db p;
  }

  pub marked_leaves :
      (type : NoticeType) (now : ℕ) (db : ReservationDb) (found : Option Request)
      → db.request ≡ found
      → P db
      → Leaves P (marked_found type now db found)
  marked_leaves type now db none e p = tt
  marked_leaves type now db (some row) e p = k.marks type now row db e p

  mark-Keeps : (type : NoticeType) (now : ℕ) → Keeps P (transaction (marked_row type now))
  unfolding marked_row
  mark-Keeps type now =
      Keeps-transaction (marked_row type now) λ db p. marked_leaves type now db db.request refl p

  send_to_driver-Keeps :
      (delivers : Notice → Bool) (user : Option ℕ) (type : NoticeType)
      → Keeps P (send_to_driver delivers user type)
  send_to_driver-Keeps delivers none type = Keeps-return tt
  send_to_driver-Keeps delivers (some user) type = search (rules, send-Keeps) depth 12

  notify-Keeps :
      (delivers : Notice → Bool) (type : NoticeType) (row : Request)
      → Keeps P (notify delivers type row)
  unfolding notify
  notify-Keeps delivers type row = search (rules, send-Keeps, send_to_driver-Keeps) depth 12

  notify_once-Keeps :
      (delivers : Notice → Bool) (now : ℕ) (type : NoticeType)
      → Keeps P (notify_once delivers now type)
  unfolding notify_once
  notify_once-Keeps delivers now type = search (rules, notify-Keeps, mark-Keeps) depth 12

  response-Keeps : Keeps P (response payments)
  unfolding response
  response-Keeps = search (rules, refresh-Keeps) depth 12

  confirm_tx-Keeps :
      (now customer_id method : ℕ)
      → Keeps P (transaction (confirm_tx payments now customer_id method))
  confirm_tx-Keeps now customer_id method =
      Keeps-transaction (confirm_tx payments now customer_id method)
        (k.confirmed now customer_id method)

  pub confirm-Keeps :
      (now customer_id : ℕ) (confirmed : Bool) (method : Option ℕ)
      → Keeps P (confirm payments now customer_id confirmed method)
  unfolding confirm
  confirm-Keeps now customer_id confirmed method =
      search (rules, refresh-Keeps, confirm_tx-Keeps, reconcile-Keeps, response-Keeps) depth 12

  pub finalize-Keeps : (now customer_id : ℕ) → Keeps P (finalize payments now customer_id)
  unfolding finalize
  finalize-Keeps now customer_id = search (rules, reconcile-Keeps, response-Keeps) depth 12

  cancel_tx-Keeps : (now customer_id : ℕ) → Keeps P (transaction (cancel_tx now customer_id))
  cancel_tx-Keeps now customer_id =
      Keeps-transaction (cancel_tx now customer_id) (k.cancelled now customer_id)

  pub cancel-Keeps :
      (delivers : Notice → Bool) (now customer_id : ℕ)
      → Keeps P (cancel payments delivers now customer_id)
  unfolding cancel
  cancel-Keeps delivers now customer_id =
      search (rules, cancel_tx-Keeps, reconcile-Keeps, notify_once-Keeps) depth 12

  pub sweep_one-Keeps :
      (delivers : Notice → Bool) (now : ℕ) → Keeps P (sweep_one payments delivers now)
  unfolding sweep_one
  sweep_one-Keeps delivers now = search (rules, reconcile-Keeps, notify_once-Keeps) depth 16

  reserve_tx-Keeps :
      (now customer_id offer_id : ℕ)
      → Keeps P (transaction (reserve_tx booking_day ensure_room now customer_id offer_id))
  reserve_tx-Keeps now customer_id offer_id =
      Keeps-transaction (reserve_tx booking_day ensure_room now customer_id offer_id)
        (k.reserved now customer_id offer_id)

  pub try_reserve-Keeps :
      (delivers : Notice → Bool) (now customer_id offer_id : ℕ) (supported enabled : Bool)
      → Keeps P (
          try_reserve payments delivers booking_day ensure_room now customer_id offer_id supported
            enabled)
  unfolding try_reserve
  try_reserve-Keeps delivers now customer_id offer_id supported enabled =
      search (rules, reserve_tx-Keeps, notify_once-Keeps, response-Keeps) depth 16
