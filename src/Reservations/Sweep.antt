-- ===== src/Reservations/Sweep.antt =====
-- `sweep` of src/customer-requests/furniture-reservations.service.ts: it pages through the requests
-- in the order of their ids, 200 at a time, until a page is not full. The table has the rows of a
-- request under its number; the query of a page is the database's, a parameter. The loop has fuel.
pub mod Once
use transpo24_backend_nest_j.Base.{
  ℕ, zero, suc, ◌+◌, ltb, ◌==◌, Bool, true, false, not, ◌&&◌, ◌||◌, Option, none, some, List, [],
  ◌∷◌, length, is_some, if◌then◌else◌,
}
use transpo24_backend_nest_j.Payments.State.{PaymentStatus}
use transpo24_backend_nest_j.Policy.Reservation.{DeferredState, has_come}
use transpo24_backend_nest_j.Reservations.State.{
  Request, ReservationHold, Notice, ReservationDb, PaymentService,
}
use transpo24_backend_nest_j.Reservations.Guards.{
  is_unpaid, is_paid, is_ended, is_captured, is_expired,
}
use transpo24_backend_nest_j.Reservations.Handlers.{sweep_one}

abbrev pub page_size : ℕ
page_size = 200

-- The rows of every request.
abbrev pub Table : Type 0
Table = ℕ → ReservationDb

-- The last id of a page is the cursor of the next one.
unfoldable pub last_id : Option ℕ → List ℕ → Option ℕ
last_id cursor [] = cursor
last_id cursor (id ∷ ids) = last_id (some id) ids

module _ (payments : PaymentService) (delivers : Notice → Bool) (now : ℕ) where
  abbrev pub visit : ℕ → Table → Table
  visit id table k = if k == id then (sweep_one payments delivers now (table k)).1 else table k

  unfoldable pub visit_all : List ℕ → Table → Table
  unfolding sweep_one
  visit_all [] table = table
  visit_all (id ∷ ids) table = visit_all ids (visit id table)

  unfoldable pub sweep : (Table → Option ℕ → List ℕ) → ℕ → Option ℕ → Table → Option Table
  unfolding visit_all last_id
  sweep find_page zero cursor table = none
  sweep find_page (suc fuel) cursor table =
      let ids = find_page table cursor in
      let swept = visit_all ids table in
      let rest = sweep find_page fuel (last_id cursor ids) swept in
      if ltb (length ids) page_size then some swept else rest
