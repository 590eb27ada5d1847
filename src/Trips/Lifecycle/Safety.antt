-- ===== src/Trips/Lifecycle/Safety.antt =====
-- What any calls on a trip keep (src/trips/trips.service.ts): the dates of its status, and the
-- diagram of its status.
use transpo24_backend_nest_j.Base.{
  ℕ, ◌≡◌, refl, Bool, true, false, Option, none, some, List, [], ◌∷◌, arith, ◌⊎◌, inl,
}
use transpo24_backend_nest_j.Domain.{RequestStatus, is_delivered}
use transpo24_backend_nest_j.Domain
use transpo24_backend_nest_j.Payments.State.{Earning}
use transpo24_backend_nest_j.Trips.State.{Trip, TripDb}
use transpo24_backend_nest_j.Trips.Guards.{is_going_to_pickup}
use transpo24_backend_nest_j.Trips.Driving.{
  ProofInput, LocationInput, pickup_item_tx, start_delivery_tx, mark_arrived_tx,
}
use transpo24_backend_nest_j.Trips.Positions.{save_location, mark_near}
use transpo24_backend_nest_j.Trips.Delivery.{deliver_item_tx}
use transpo24_backend_nest_j.Trips.Feedback.{confirm_tx}
use transpo24_backend_nest_j.Trips.Lifecycle.{
  DatedRow, IsConsistent, Env, Call, arrive, run_call, run_calls,
}
use transpo24_backend_nest_j.Trips.Lifecycle.Rows.{
  Leaves, pickup_item_tx-IsConsistent, start_delivery_tx-IsConsistent, mark_arrived_tx-IsConsistent,
  deliver_item_tx-IsConsistent,
}
use transpo24_backend_nest_j.Trips.Lifecycle.Calls.{run_call_keeps}

mark_near-IsConsistent :
    (e : Env) (now : ℕ) (input : LocationInput) (o : Option Trip) (earning : Option Earning)
    → DatedRow o earning
    → DatedRow (mark_near e.degree e.distance e.radius e.near_radius now input o) earning
mark_near-IsConsistent e now input none earning h = tt
mark_near-IsConsistent e now input (some t) earning h = ground arith

save_location-IsConsistent :
    (e : Env) (now driver_id measured : ℕ) (input : LocationInput) (db : TripDb)
    → IsConsistent db
    → Leaves
        (λ after.
          IsConsistent after
          × IsConsistent (record after {
            trip = mark_near e.degree e.distance e.radius e.near_radius now input after.trip;
          }))
        (save_location driver_id measured input db)
unfolding save_location
save_location-IsConsistent e now driver_id measured input db h =
    let near = mark_near-IsConsistent e now input db.trip db.earning h in ground (arith, near)

confirm_tx-IsConsistent :
    (now customer_id : ℕ) (db : TripDb)
    → IsConsistent db
    → Leaves IsConsistent (confirm_tx now customer_id db)
confirm_tx-IsConsistent now customer_id db h = ground arith

run_call-IsConsistent :
    (e : Env) (c : Call) (db : TripDb) → IsConsistent db → IsConsistent (run_call e c db).1
run_call-IsConsistent e c db h = run_call_keeps IsConsistent e c db (record {
  before = h;
  arrived = λ now input profile t row going.
      mark_arrived_tx-IsConsistent now e.degree e.distance e.radius e.near_radius input db h;
  picked_up = λ now input. pickup_item_tx-IsConsistent now input db h;
  started = λ now. start_delivery_tx-IsConsistent now db h;
  located = λ now driver_id measured input.
      save_location-IsConsistent e now driver_id measured input db h;
  delivered =
      λ now input. deliver_item_tx-IsConsistent now e.payout_delay e.default_currency input db h;
  confirmed = λ now customer_id. confirm_tx-IsConsistent now customer_id db h;
  rated = λ customer_id rating comment _ _ _ _. h;
})

-- Whatever calls come in, in whatever order and with whatever stale reads, failed ones among them, a
-- trip whose dates are in order keeps them so: a status has the dates of its stage, and the start of
-- the delivery, the delivery and its confirmation each have the date before them; a trip on its way
-- to the dropoff is not delivered yet, and one with a date of delivery has its earning.
pub run_calls-IsConsistent :
    (e : Env) (cs : List Call) (db : TripDb) → IsConsistent db → IsConsistent (run_calls e cs db)
unfolding run_calls
run_calls-IsConsistent e [] db h = h
run_calls-IsConsistent e (c ∷ cs) db h =
    run_calls-IsConsistent e cs (run_call e c db).1 (run_call-IsConsistent e c db h)

-- The diagram of the driver's part of a trip.
infix 40 ◌⟶◌
pub data ◌⟶◌ : RequestStatus → RequestStatus → Type 0 where
  arrives : Domain.driver_going_to_pickup ⟶ Domain.driver_arrived_pickup
  picks_up : Domain.driver_arrived_pickup ⟶ Domain.item_picked_up
  starts : Domain.item_picked_up ⟶ Domain.driver_going_to_dropoff
  resumes : Domain.driver_arrived_pickup ⟶ Domain.driver_going_to_dropoff
  delivers : Domain.driver_going_to_dropoff ⟶ Domain.delivered

ruleset edges = (arrives, picks_up, starts, resumes, delivers)

-- The call is an arrival that read a trip on its way to the pickup.
abbrev pub sees_going : Call → Bool
sees_going (arrive now input profile (some t)) = is_going_to_pickup t.status
sees_going _ = false

-- The status stays or takes one edge; or it goes to the arrival from another stage, by an arrival
-- that read the trip when it was on its way to the pickup.
abbrev pub Moves : Call → Option Trip → Option Trip → Type 0
Moves c none none = Unit {0}
Moves c (some t) (some u) =
    (u.status ≡ t.status)
    ⊎ (t.status ⟶ u.status)
    ⊎ ((u.status ≡ Domain.driver_arrived_pickup)
        × (is_going_to_pickup t.status ≡ false)
        × (sees_going c ≡ true))
Moves c none (some u) = ⊥
Moves c (some t) none = ⊥

Moves-refl : (c : Call) (o : Option Trip) → Moves c o o
Moves-refl c none = tt
Moves-refl c (some t) = inl refl

mark_arrived_tx-Moves :
    (e : Env) (c : Call) (now : ℕ) (input : LocationInput) (db : TripDb)
    → sees_going c ≡ true
    → Leaves
        (λ after. Moves c db.trip after.trip)
        (mark_arrived_tx e.degree e.distance e.radius e.near_radius now input db)
unfolding mark_arrived_tx
mark_arrived_tx-Moves e c now input db sees = grind (arith, edges)

pickup_item_tx-Moves :
    (c : Call) (now : ℕ) (input : ProofInput) (db : TripDb)
    → Leaves (λ after. Moves c db.trip after.trip) (pickup_item_tx now input db)
unfolding pickup_item_tx
pickup_item_tx-Moves c now input db = grind (arith, edges)

start_delivery_tx-Moves :
    (c : Call) (now : ℕ) (db : TripDb)
    → Leaves (λ after. Moves c db.trip after.trip) (start_delivery_tx now db)
unfolding start_delivery_tx
start_delivery_tx-Moves c now db = grind (arith, edges)

save_location-Moves :
    (e : Env) (c : Call) (now driver_id measured : ℕ) (input : LocationInput) (db : TripDb)
    → Leaves
        (λ after.
          Moves c db.trip after.trip
          × Moves c db.trip
              (mark_near e.degree e.distance e.radius e.near_radius now input after.trip))
        (save_location driver_id measured input db)
unfolding save_location
save_location-Moves e c now driver_id measured input db = ground (arith, Moves-refl c db.trip)

deliver_item_tx-Moves :
    (e : Env) (c : Call) (now : ℕ) (input : ProofInput) (db : TripDb)
    → Leaves
        (λ after. Moves c db.trip after.trip)
        (deliver_item_tx e.payout_delay e.default_currency now input db)
unfolding deliver_item_tx
deliver_item_tx-Moves e c now input db = grind (arith, edges)

confirm_tx-Moves :
    (c : Call) (now customer_id : ℕ) (db : TripDb)
    → Leaves (λ after. Moves c db.trip after.trip) (confirm_tx now customer_id db)
confirm_tx-Moves c now customer_id db = ground arith

-- Every call leaves the trip's status or takes it along one edge of the diagram, whatever it read
-- before and also where it fails, but for one case: an arrival that read the trip on its way to the
-- pickup, when the trip is at another stage by now, may set it to the arrival.
pub run_call-Moves : (e : Env) (c : Call) (db : TripDb) → Moves c db.trip (run_call e c db).1.trip
run_call-Moves e c db =
    run_call_keeps (λ after. Moves c db.trip after.trip) e c db
      (record {
        before = Moves-refl c db.trip;
        arrived =
            λ now input profile t row going. mark_arrived_tx-Moves e c now input db (rw row going);
        picked_up = λ now input. pickup_item_tx-Moves c now input db;
        started = λ now. start_delivery_tx-Moves c now db;
        located =
            λ now driver_id measured input. save_location-Moves e c now driver_id measured input db;
        delivered = λ now input. deliver_item_tx-Moves e c now input db;
        confirmed = λ now customer_id. confirm_tx-Moves c now customer_id db;
        rated = λ customer_id rating comment _ _ _ _. Moves-refl c db.trip;
      })
