-- ===== src/Offers/Rows.antt =====
-- What the transactions of an acceptance and of an assignment leave of the rows
-- (src/customer-requests/customer-requests.service.ts).
use transpo24_backend_nest_j.Base.{
  ℕ, ◌≡◌, true, Option, none, some, is_some, Result, ok, err, arith,
}
use transpo24_backend_nest_j.Reservations.State.{
  BookingWrite, payment_only, booking_withdrawn, cancellation_finished, ReservationError, Request,
  Offer, NoticeType, ReservationDb, PaymentService,
}
use transpo24_backend_nest_j.Reservations.Transactions.{
  reserve_tx, confirm_tx, reconcile_tx, cancel_tx, expire_tx,
}
use transpo24_backend_nest_j.Reservations.Notices.{marked}
use transpo24_backend_nest_j.Reservations.Withdrawals.{withdrawn, finished, written}
use transpo24_backend_nest_j.Reservations.Handlers.{refund_marked}
use transpo24_backend_nest_j.Reservations.Keeping.{Leaves, IsKept}
use transpo24_backend_nest_j.Reservations.Safety.{IsSafe, IsSafe-IsKept, offer_held}

-- Who holds an offer has a driver.
abbrev pub WholeRow : Option Request → Type 0
WholeRow none = Unit {0}
WholeRow (some r) = is_some (offer_held r) ≡ true → is_some r.assigned_driver_id ≡ true

abbrev pub IsWhole : ReservationDb → Type 0
IsWhole db = WholeRow db.request

-- A safe reservation whose offer has a driver.
abbrev pub IsBooked : ReservationDb → Type 0
IsBooked db = IsSafe db × IsWhole db

Leaves-both :
    (P Q : ReservationDb → Type 0) (r : Result ReservationError ReservationDb)
    → Leaves P r
    → Leaves Q r
    → Leaves (λ db. P db × Q db) r
Leaves-both P Q (ok db) p q = (p, q)
Leaves-both P Q (err e) p q = tt

IsKept-both :
    (P Q : ReservationDb → Type 0) (payments : PaymentService) (booking_day : Option ℕ → ℕ → ℕ)
    (ensure_room : Request → Offer → Result ReservationError (Unit {0}))
    → IsKept P payments booking_day ensure_room
    → IsKept Q payments booking_day ensure_room
    → IsKept (λ db. P db × Q db) payments booking_day ensure_room
IsKept-both P Q payments booking_day ensure_room k l = record {
  reserved =
      λ now c o db h. Leaves-both P Q _ (k.reserved now c o db h.0) (l.reserved now c o db h.1);
  confirmed =
      λ now c m db h. Leaves-both P Q _ (k.confirmed now c m db h.0) (l.confirmed now c m db h.1);
  reconciled = λ now db h. Leaves-both P Q _ (k.reconciled now db h.0) (l.reconciled now db h.1);
  cancelled = λ now c db h. Leaves-both P Q _ (k.cancelled now c db h.0) (l.cancelled now c db h.1);
  held = λ hold db h. (k.held hold db h.0, l.held hold db h.1);
  booked = λ b db h. (k.booked b db h.0, l.booked b db h.1);
  refunded = λ now db h. Leaves-both P Q _ (k.refunded now db h.0) (l.refunded now db h.1);
  sent = λ notices db h. (k.sent notices db h.0, l.sent notices db h.1);
  marks = λ type now row db e h. (k.marks type now row db e h.0, l.marks type now row db e h.1);
}

withdrawn-IsWhole : (db : ReservationDb) → IsWhole db → IsWhole (withdrawn db)
unfolding withdrawn
withdrawn-IsWhole db h = ground arith

finished-IsWhole : (db : ReservationDb) → IsWhole db → IsWhole (finished db)
unfolding finished
finished-IsWhole db h = ground arith

written-IsWhole : (b : BookingWrite) (db : ReservationDb) → IsWhole db → IsWhole (written b db)
unfolding written
written-IsWhole payment_only db h = h
written-IsWhole booking_withdrawn db h = withdrawn-IsWhole db h
written-IsWhole cancellation_finished db h = finished-IsWhole db h

module _ (payments : PaymentService) (booking_day : Option ℕ → ℕ → ℕ)
    (ensure_room : Request → Offer → Result ReservationError (Unit {0})) where
  reserve_tx-IsWhole :
      (now customer_id offer_id : ℕ) (db : ReservationDb)
      → IsWhole db
      → Leaves IsWhole (reserve_tx booking_day ensure_room now customer_id offer_id db)
  unfolding reserve_tx
  reserve_tx-IsWhole now customer_id offer_id db h = ground arith

  confirm_tx-IsWhole :
      (now customer_id method : ℕ) (db : ReservationDb)
      → IsWhole db
      → Leaves IsWhole (confirm_tx payments now customer_id method db)
  unfolding confirm_tx
  confirm_tx-IsWhole now customer_id method db h = ground arith

  reconcile_tx-IsWhole :
      (now : ℕ) (db : ReservationDb) → IsWhole db → Leaves IsWhole (reconcile_tx now db)
  unfolding reconcile_tx expire_tx
  reconcile_tx-IsWhole now db h = ground arith

  cancel_tx-IsWhole :
      (now customer_id : ℕ) (db : ReservationDb)
      → IsWhole db
      → Leaves IsWhole (cancel_tx now customer_id db)
  unfolding cancel_tx expire_tx
  cancel_tx-IsWhole now customer_id db h = ground arith

  refund_marked-IsWhole :
      (now : ℕ) (db : ReservationDb) → IsWhole db → Leaves IsWhole (refund_marked now db)
  unfolding refund_marked
  refund_marked-IsWhole now db h = ground arith

  marks-IsWhole :
      (type : NoticeType) (now : ℕ) (row : Request) (db : ReservationDb)
      → db.request ≡ some row
      → IsWhole db
      → IsWhole (record db { request = some (marked type now row) })
  marks-IsWhole type now row db e h = ground arith

  pub IsBooked-IsKept : IsKept IsBooked payments booking_day ensure_room
  IsBooked-IsKept =
      IsKept-both IsSafe IsWhole payments booking_day ensure_room
        (IsSafe-IsKept payments booking_day ensure_room)
        (record {
          reserved = reserve_tx-IsWhole;
          confirmed = confirm_tx-IsWhole;
          reconciled = reconcile_tx-IsWhole;
          cancelled = cancel_tx-IsWhole;
          held = λ hold db h. h;
          booked = written-IsWhole;
          refunded = refund_marked-IsWhole;
          sent = λ notices db h. h;
          marks = marks-IsWhole;
        })
