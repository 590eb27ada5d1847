-- ===== src/Trips/Lifecycle/Rows.antt =====
-- Each transaction keeps the dates of a trip in step with its status
-- (src/trips/trips.service.ts).
use transpo24_backend_nest_j.Base.{
  ℕ, ◌≡◌, refl, Bool, true, false, Result, ok, err, arith, if◌then◌else◌,
}
use transpo24_backend_nest_j.Matching.Eligibility.{Coordinate}
use transpo24_backend_nest_j.Trips.State.{TripError, TripDb, Outcome, commit, guarded}
use transpo24_backend_nest_j.Trips.Driving.{
  ProofInput, LocationInput, pickup_item_tx, start_delivery_tx, mark_arrived_tx,
}
use transpo24_backend_nest_j.Trips.Delivery.{deliver_item_tx}
use transpo24_backend_nest_j.Trips.Lifecycle.{IsConsistent}

-- What a transaction that goes through leaves.
abbrev pub Leaves : (TripDb → Type 0) → Result TripError TripDb → Type 0
Leaves P (ok db) = P db
Leaves P (err e) = Unit {0}

-- A call that its guards refuse leaves the rows, and so does a transaction that throws.
pub guarded_keeps :
    {A : Type 0} (P : TripDb → Type 0) (db : TripDb) (r : Result TripError A) (rest : A → Outcome)
    → P db
    → ((a : A) → r ≡ ok a → P (rest a).1)
    → P (guarded db r rest).1
guarded_keeps P db (ok a) rest h keep = keep a refl
guarded_keeps P db (err e) rest h keep = h

pub commit_keeps :
    (P : TripDb → Type 0) (db : TripDb) (r : Result TripError TripDb)
    (answer : TripDb → Result TripError (Unit {0}))
    → P db
    → Leaves P r
    → P (commit db r answer).1
commit_keeps P db (ok after) answer h k = k
commit_keeps P db (err e) answer h k = h

pub branch_keeps :
    (P : TripDb → Type 0) (b : Bool) (x y : Outcome)
    → (b ≡ true → P x.1)
    → (b ≡ false → P y.1)
    → P (if b then x else y).1
branch_keeps P true x y h k = h refl
branch_keeps P false x y h k = k refl

module _ (now : ℕ) where
  pub pickup_item_tx-IsConsistent :
      (input : ProofInput) (db : TripDb)
      → IsConsistent db
      → Leaves IsConsistent (pickup_item_tx now input db)
  unfolding pickup_item_tx
  pickup_item_tx-IsConsistent input db h = ground arith

  pub start_delivery_tx-IsConsistent :
      (db : TripDb) → IsConsistent db → Leaves IsConsistent (start_delivery_tx now db)
  unfolding start_delivery_tx
  start_delivery_tx-IsConsistent db h = ground arith

  pub mark_arrived_tx-IsConsistent :
      (degree : ℕ) (distance : Coordinate → Coordinate → ℕ) (radius near_radius : ℕ)
      (input : LocationInput) (db : TripDb)
      → IsConsistent db
      → Leaves IsConsistent (mark_arrived_tx degree distance radius near_radius now input db)
  unfolding mark_arrived_tx
  mark_arrived_tx-IsConsistent degree distance radius near_radius input db h = ground arith

  pub deliver_item_tx-IsConsistent :
      (payout_delay default_currency : ℕ) (input : ProofInput) (db : TripDb)
      → IsConsistent db
      → Leaves IsConsistent (deliver_item_tx payout_delay default_currency now input db)
  unfolding deliver_item_tx
  deliver_item_tx-IsConsistent payout_delay default_currency input db h = ground arith
