-- ===== src/Reservations/Deadline.antt =====
-- Dates of a reservation (src/customer-requests/furniture-reservations.service.ts).
use transpo24_backend_nest_j.Base.{
  ℕ, ◌≡◌, true, Option, none, some, is_some, Result, ok, err, arith, ◌⊎◌,
}
use transpo24_backend_nest_j.Base.Int.{ℤ}
use transpo24_backend_nest_j.Domain.{is_reserved, is_cancelled}
use transpo24_backend_nest_j.Policy.Reservation.{has_come}
use transpo24_backend_nest_j.Reservations.State.{ReservationError, Request, ReservationDb}
use transpo24_backend_nest_j.Reservations.Guards.{is_paid, is_before, secured_at, is_secured}
use transpo24_backend_nest_j.Reservations.Transactions.{reconcile_tx, expire_tx}
use transpo24_backend_nest_j.Reservations.Safety.{IsSafe, Accepts, dropped-Accepts}

-- The request is paid, and its driver stays.
abbrev pub IsPaidBy : ℤ → ReservationDb → Request → Option Request → Type 0
IsPaidBy deadline before r none = ⊥
IsPaidBy deadline before r (some after) =
    (is_paid after.deferred_payment_state ≡ true)
    × (after.assigned_driver_id ≡ r.assigned_driver_id)
    × (is_secured before.hold ≡ true)
    × (is_before (secured_at before.hold) (some deadline) ≡ true)
    × (is_some r.pickup_confirmed_at ≡ true)

-- The request is cancelled, and its driver is free.
abbrev pub IsGivenUp : ReservationDb → Option Request → Type 0
IsGivenUp after none = ⊥
IsGivenUp after (some r) =
    (is_cancelled r.status ≡ true) × (r.assigned_driver_id ≡ none) × Accepts none r.id after.offers

abbrev pub IsSettled : ℤ → ReservationDb → Request → Result ReservationError ReservationDb → Type 0
IsSettled deadline before r (err e) = ⊥
IsSettled deadline before r (ok after) =
    IsPaidBy deadline before r after.request ⊎ IsGivenUp after after.request

-- At the deadline a reservation that is still open is settled either way: it is paid, and then the
-- money was secured before the deadline and the pickup confirmed, or it is cancelled, its driver is
-- free and no offer stays accepted.
pub reconcile_tx-IsSettled :
    (now : ℕ) (deadline : ℤ) (r : Request) (db : ReservationDb)
    → db.request ≡ some r
    → IsSafe db
    → is_reserved r.status ≡ true
    → r.payment_deadline_at ≡ some deadline
    → has_come deadline now ≡ true
    → IsSettled deadline db r (reconcile_tx now db)
unfolding reconcile_tx expire_tx
reconcile_tx-IsSettled now deadline r db row safe waits dated over =
    let given_up = dropped-Accepts now r.id none db.offers in ground (arith, given_up)
