-- ===== src/Trips/Lifecycle.antt =====
-- The calls on a trip as one step function, and what the rows keep between two calls
-- (src/trips/trips.service.ts).
pub mod Calls
pub mod Rows
pub mod Safety
pub mod Earnings
pub mod Failures
use transpo24_backend_nest_j.Base.{
  ℕ, ◌≡◌, Bool, true, false, not, ◌&&◌, ◌||◌, Option, none, some, List, [], ◌∷◌, is_some,
}
use transpo24_backend_nest_j.Domain.{RequestStatus, is_delivered}
use transpo24_backend_nest_j.Domain
use transpo24_backend_nest_j.Payments.State.{Earning}
use transpo24_backend_nest_j.Matching.Eligibility.{Coordinate}
use transpo24_backend_nest_j.Trips.State.{Text, Profile, Trip, TripDb, Outcome}
use transpo24_backend_nest_j.Trips.Guards.{is_arrived, is_item_picked_up, is_going_to_dropoff}
use transpo24_backend_nest_j.Trips.Driving.{
  ProofInput, LocationInput, mark_driver_arrived_at_pickup, pickup_item, start_delivery,
}
use transpo24_backend_nest_j.Trips.Positions.{update_driver_location}
use transpo24_backend_nest_j.Trips.Delivery.{deliver_item}
use transpo24_backend_nest_j.Trips.Feedback.{
  RatingInput, confirm_customer_delivery, create_driver_rating,
}

-- What the calls take from the environment.
pub record Env : Type 0 where
  pub degree : ℕ
  pub distance : Coordinate → Coordinate → ℕ
  pub radius : ℕ
  pub near_radius : ℕ
  pub payout_delay : ℕ
  pub default_currency : ℕ

-- A call with the time of its transaction. What it read before (`seen`) may be any state of the trip:
-- other calls may have come in between.
pub data Call : Type 0 where
  arrive : (now : ℕ) → LocationInput → Option Profile → (seen : Option Trip) → Call
  pick_up : (now : ℕ) → ProofInput → Option Profile → (seen : Option Trip) → Call
  start : (now trip_id_length : ℕ) → Option Profile → (seen : Option Trip) → Call
  locate : (now : ℕ) → LocationInput → Option Profile → (seen : Option Trip) → Call
  deliver : (now : ℕ) → ProofInput → Option Profile → (seen : Option Trip) → Call
  confirm : (now trip_id_length customer_id : ℕ) → Call
  rate : (trip_id_length customer_id : ℕ) → RatingInput → Option Text → (comment_length : ℕ) → Call

unfoldable pub run_call : Env → Call → TripDb → Outcome
run_call e (arrive now input profile seen) db =
    mark_driver_arrived_at_pickup e.degree e.distance e.radius e.near_radius now input profile seen
      db
run_call e (pick_up now input profile seen) db =
    pickup_item e.degree e.distance e.radius e.near_radius now input profile seen db
run_call e (start now trip_id_length profile seen) db =
    start_delivery now trip_id_length profile seen db
run_call e (locate now input profile seen) db =
    update_driver_location e.degree e.distance e.radius e.near_radius now input profile seen db
run_call e (deliver now input profile seen) db =
    deliver_item e.payout_delay e.default_currency e.degree e.distance e.radius now input profile
      seen db
run_call e (confirm now trip_id_length customer_id) db =
    confirm_customer_delivery now trip_id_length customer_id db
run_call e (rate trip_id_length customer_id body comment comment_length) db =
    create_driver_rating trip_id_length customer_id body comment comment_length db

unfoldable pub run_calls : Env → List Call → TripDb → TripDb
unfolding run_call
run_calls e [] db = db
run_calls e (c ∷ cs) db = run_calls e cs (run_call e c db).1

-- The driver is at the pickup or further.
abbrev pub has_arrived : RequestStatus → Bool
has_arrived s = is_arrived s || is_item_picked_up s || is_going_to_dropoff s || is_delivered s

-- The status has its dates, and the dates are those of the stages in their order: none is there
-- without the one before it. An arrival that is late may leave the status behind the dates.
pub record IsDated (t : Trip) (e : Option Earning) : Type 0 where
  pub assigned : has_arrived t.status ≡ true → is_some t.assigned_driver_id ≡ true
  pub arrived : has_arrived t.status ≡ true → is_some t.driver_arrived_pickup_at ≡ true
  pub picked_up :
      (is_item_picked_up t.status || is_going_to_dropoff t.status || is_delivered t.status) ≡ true
      → is_some t.item_picked_up_at ≡ true
  pub started :
      (is_going_to_dropoff t.status || is_delivered t.status) ≡ true
      → (is_some t.driver_going_to_dropoff_at
          && is_some t.dropoff_latitude
          && is_some t.dropoff_longitude)
        ≡ true
  pub undelivered : is_going_to_dropoff t.status ≡ true → is_some t.delivered_at ≡ false
  pub delivered :
      is_delivered t.status ≡ true
      → (is_some t.delivered_at && is_some t.rating_available_at && is_some e) ≡ true
  pub started_after :
      is_some t.driver_going_to_dropoff_at ≡ true → is_some t.item_picked_up_at ≡ true
  pub delivered_after :
      is_some t.delivered_at ≡ true → (is_some t.driver_going_to_dropoff_at && is_some e) ≡ true
  pub confirmed : is_some t.delivery_confirmed_by_customer_at ≡ true → is_some t.delivered_at ≡ true

abbrev pub DatedRow : Option Trip → Option Earning → Type 0
DatedRow none e = Unit {0}
DatedRow (some t) e = IsDated t e

abbrev pub IsConsistent : TripDb → Type 0
IsConsistent db = DatedRow db.trip db.earning
