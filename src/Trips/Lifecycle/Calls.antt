-- ===== src/Trips/Lifecycle/Calls.antt =====
-- Every call of src/trips/trips.service.ts, on any rows: what it keeps, how it moves the status, and
-- what an error leaves.
use transpo24_backend_nest_j.Base.{
  ℕ, ◌≡◌, refl, ap, Bool, true, false, ◌&&◌, Option, none, some, get_or, Result, ◌≤◌, ok, err,
  ◌>>=◌, arith,
}
use transpo24_backend_nest_j.Domain.{is_delivered}
use transpo24_backend_nest_j.Matching.Eligibility.{Coordinate}
use transpo24_backend_nest_j.Trips.State.{TripError, Text, Profile, Trip, TripDb, commit}
use transpo24_backend_nest_j.Trips.Guards.{
  is_arrived, is_item_picked_up, is_going_to_dropoff, is_going_to_pickup, validate_trip_id,
  validate_coordinates, validate_driver_can_access_trip,
}
use transpo24_backend_nest_j.Trips.Driving.{
  ProofInput, LocationInput, pickup_item, start_delivery, mark_driver_arrived_at_pickup,
  arrival_guards, start_guards, answer_start, pickup_guards, pickup_seen, answer_pickup,
  pickup_item_tx, start_delivery_tx, mark_arrived_tx,
}
use transpo24_backend_nest_j.Trips.Positions.{
  update_driver_location, location_guards, location_seen, is_outdated, latest_location, mark_near,
  note_near, save_location,
}
use transpo24_backend_nest_j.Trips.Delivery.{
  deliver_item, deliver_item_tx, delivery_guards, deliver_seen, answer_delivery,
}
use transpo24_backend_nest_j.Trips.Feedback.{
  confirm_customer_delivery, create_driver_rating, confirm_tx, rated_rows, is_rated, RatingInput,
  rating_guards, rating_tx, rate_tx, validate_customer_can_rate_trip,
  validate_customer_rating_input,
}
use transpo24_backend_nest_j.Trips.Lifecycle.{
  Env, Call, arrive, pick_up, start, locate, deliver, confirm, rate, run_call,
}
use transpo24_backend_nest_j.Trips.Lifecycle.Rows.{
  Leaves, guarded_keeps, commit_keeps, branch_keeps,
}

seen_going :
    (degree : ℕ) (distance : Coordinate → Coordinate → ℕ) (radius near_radius : ℕ)
    (input : LocationInput) (profile : Option Profile) (seen : Option Trip)
    → (do
      trip ← validate_driver_can_access_trip profile seen
      arrival_guards degree distance radius near_radius input trip)
      ≡ ok tt
    → (t : Trip) × (seen ≡ some t) × (is_going_to_pickup t.status ≡ true)
unfolding validate_driver_can_access_trip
seen_going degree distance radius near_radius input none seen h = ground arith
seen_going degree distance radius near_radius input (some p) none h = ground arith
seen_going degree distance radius near_radius input (some p) (some t) h = (t, refl, ground arith)

-- The rows' predicate `P` holds of the rows and of what any transaction of the call leaves of them.
pub record IsKept (P : TripDb → Type 0) (e : Env) (c : Call) (db : TripDb) : Type 0 where
  pub before : P db
  pub arrived :
      (now : ℕ) (input : LocationInput) (profile : Option Profile) (t : Trip)
      → c ≡ arrive now input profile (some t)
      → is_going_to_pickup t.status ≡ true
      → Leaves P (mark_arrived_tx e.degree e.distance e.radius e.near_radius now input db)
  pub picked_up : (now : ℕ) (input : ProofInput) → Leaves P (pickup_item_tx now input db)
  pub started : (now : ℕ) → Leaves P (start_delivery_tx now db)
  pub located :
      (now driver_id measured : ℕ) (input : LocationInput)
      → Leaves
          (λ after.
            P after
            × P (record after {
              trip = mark_near e.degree e.distance e.radius e.near_radius now input after.trip;
            }))
          (save_location driver_id measured input db)
  pub delivered :
      (now : ℕ) (input : ProofInput)
      → Leaves P (deliver_item_tx e.payout_delay e.default_currency now input db)
  pub confirmed : (now customer_id : ℕ) → Leaves P (confirm_tx now customer_id db)
  pub rated :
      (customer_id rating : ℕ) (comment : Option Text)
      → validate_customer_can_rate_trip customer_id db.trip ≡ ok tt
      → 2 ≤ rating
      → rating ≤ 10
      → is_rated db.trip_id db.ratings ≡ false
      → P (rated_rows customer_id rating comment db)

rating_tx_keeps :
    (P : TripDb → Type 0) (customer_id rating : ℕ) (comment : Option Text) (db : TripDb)
    → (validate_customer_can_rate_trip customer_id db.trip ≡ ok tt
        → is_rated db.trip_id db.ratings ≡ false
        → P (rated_rows customer_id rating comment db))
    → Leaves P (rating_tx customer_id comment db rating)
rating_tx_keeps P customer_id rating comment db f = ground arith

note_near_keeps :
    (P : TripDb → Type 0) (e : Env) (now : ℕ) (input : LocationInput) (seen : Trip) (ignored : Bool)
    (db : TripDb) (r : Result TripError TripDb)
    → P db
    → Leaves
        (λ after.
          P after
          × P (record after {
            trip = mark_near e.degree e.distance e.radius e.near_radius now input after.trip;
          }))
        r
    → P
        (note_near e.degree e.distance e.radius e.near_radius now input seen ignored
          (commit db r (λ _. ok tt))).1
note_near_keeps P e now input seen ignored db (err x) h k = h
note_near_keeps P e now input seen true db (ok after) h k =
    branch_keeps P (is_going_to_dropoff seen.status && false) _ _ (λ _. k.1) (λ _. k.0)
note_near_keeps P e now input seen false db (ok after) h k =
    branch_keeps P (is_going_to_dropoff seen.status && true) _ _ (λ _. k.1) (λ _. k.0)

valid_rating :
    (body : RatingInput) (n rating : ℕ)
    → validate_customer_rating_input body n ≡ ok rating
    → (2 ≤ rating) × (rating ≤ 10)
unfolding validate_customer_rating_input
valid_rating (RatingInput.halves k) n rating h = ground arith
valid_rating RatingInput.other_number n rating h = ground arith

rating_guards-ok :
    (n : ℕ) (body : RatingInput) (m rating : ℕ)
    → rating_guards n body m ≡ ok rating
    → validate_customer_rating_input body m ≡ ok rating
rating_guards-ok n body m rating h = ground arith

pickup_seen_keeps :
    (P : TripDb → Type 0) (e : Env) (c : Call) (now : ℕ) (input : ProofInput) (db : TripDb)
    (trip : Trip)
    → IsKept P e c db
    → P (pickup_seen e.degree e.distance e.radius e.near_radius now input db trip).1
unfolding pickup_seen
pickup_seen_keeps P e c now input db trip k =
    branch_keeps P (is_arrived trip.status) _ _
      (λ _.
        guarded_keeps P db
          (validate_coordinates e.degree e.distance e.radius input.latitude input.longitude
            trip.pickup_latitude trip.pickup_longitude)
          (λ _. commit db (pickup_item_tx now input db) answer_pickup) k.before
          λ _ _. commit_keeps P db (pickup_item_tx now input db) _ k.before (k.picked_up now input))
      (λ _. branch_keeps P (is_item_picked_up trip.status) _ _ (λ _. k.before) (λ _. k.before))

deliver_seen_keeps :
    (P : TripDb → Type 0) (e : Env) (c : Call) (now : ℕ) (input : ProofInput) (db : TripDb)
    (trip : Trip)
    → IsKept P e c db
    → P
        (deliver_seen e.payout_delay e.default_currency e.degree e.distance e.radius now input db
          trip).1
unfolding deliver_seen
deliver_seen_keeps P e c now input db trip k =
    let tx = deliver_item_tx e.payout_delay e.default_currency now input db in
    branch_keeps P (is_going_to_dropoff trip.status) _ _
      (λ _.
        guarded_keeps P db
          (validate_coordinates e.degree e.distance e.radius input.latitude input.longitude
            trip.dropoff_latitude trip.dropoff_longitude)
          (λ _. commit db tx (answer_delivery e.payout_delay e.default_currency)) k.before
          λ _ _. commit_keeps P db tx _ k.before (k.delivered now input))
      (λ _. branch_keeps P (is_delivered trip.status) _ _ (λ _. k.before) (λ _. k.before))

location_seen_keeps :
    (P : TripDb → Type 0) (e : Env) (c : Call) (now : ℕ) (input : LocationInput) (db : TripDb)
    (trip : Trip)
    → IsKept P e c db
    → P (location_seen e.degree e.distance e.radius e.near_radius now input db trip).1
unfolding location_seen
location_seen_keeps P e c now input db trip k =
    let driver_id = get_or trip.assigned_driver_id 0 in
    guarded_keeps P db (location_guards e.degree e.distance e.radius e.near_radius now input trip) _
      k.before
      λ measured _.
        note_near_keeps P e now input trip
          (is_outdated measured (latest_location driver_id db.locations)) db
          (save_location driver_id measured input db) k.before
          (k.located now driver_id measured input)

-- Whatever a call reads before its transaction, it leaves the predicate.
pub run_call_keeps :
    (P : TripDb → Type 0) (e : Env) (c : Call) (db : TripDb)
    → IsKept P e c db
    → P (run_call e c db).1
unfolding run_call mark_driver_arrived_at_pickup pickup_item start_delivery deliver_item
    confirm_customer_delivery create_driver_rating update_driver_location
run_call_keeps P e (arrive now input profile seen) db k = guarded_keeps P db _ _ k.before λ u h.
    let (t, row, going) =
      seen_going e.degree e.distance e.radius e.near_radius input profile seen h in
    commit_keeps P db _ _ k.before
      (k.arrived now input profile t (ap (arrive now input profile) row) going)
run_call_keeps P e (pick_up now input profile seen) db k =
    guarded_keeps P db (pickup_guards e.degree e.distance e.radius e.near_radius input profile seen)
      (pickup_seen e.degree e.distance e.radius e.near_radius now input db) k.before
      λ trip _. pickup_seen_keeps P e (pick_up now input profile seen) now input db trip k
run_call_keeps P e (start now n profile seen) db k =
    guarded_keeps P db (start_guards n profile seen)
      (λ _. commit db (start_delivery_tx now db) answer_start) k.before
      λ _ _. commit_keeps P db (start_delivery_tx now db) _ k.before (k.started now)
run_call_keeps P e (locate now input profile seen) db k =
    guarded_keeps P db (validate_driver_can_access_trip profile seen)
      (location_seen e.degree e.distance e.radius e.near_radius now input db) k.before
      λ trip _. location_seen_keeps P e (locate now input profile seen) now input db trip k
run_call_keeps P e (deliver now input profile seen) db k =
    guarded_keeps P db (delivery_guards e.payout_delay e.default_currency input profile seen)
      (deliver_seen e.payout_delay e.default_currency e.degree e.distance e.radius now input db)
      k.before λ trip _. deliver_seen_keeps P e (deliver now input profile seen) now input db trip k
run_call_keeps P e (confirm now n customer_id) db k =
    guarded_keeps P db (validate_trip_id n)
      (λ _. commit db (confirm_tx now customer_id db) (λ _. ok tt)) k.before
      λ _ _.
        commit_keeps P db (confirm_tx now customer_id db) _ k.before (k.confirmed now customer_id)
run_call_keeps P e (rate n customer_id body comment m) db k =
    guarded_keeps P db (rating_guards n body m) (rate_tx customer_id comment db) k.before
      λ rating h.
        let bounds = valid_rating body m rating (rating_guards-ok n body m rating h) in
        commit_keeps P db _ _ k.before (
          rating_tx_keeps P customer_id rating comment db
            λ may fresh. k.rated customer_id rating comment may bounds.0 bounds.1 fresh)
