-- ===== src/Trips/Lifecycle/Failures.antt =====
-- What a failed call on a trip leaves (src/trips/trips.service.ts).
use transpo24_backend_nest_j.Base.{
  ℕ, ◌≡◌, refl, Bool, true, false, Result, ok, err, arith, if◌then◌else◌, ◌⊎◌, inl, inr,
}
use transpo24_backend_nest_j.Domain.{is_delivered}
use transpo24_backend_nest_j.Trips.State.{TripError, Trip, TripDb, Outcome, commit, guarded}
use transpo24_backend_nest_j.Trips.Guards.{
  is_arrived, is_item_picked_up, is_going_to_dropoff, validate_coordinates, validate_trip_id,
  validate_driver_can_access_trip,
}
use transpo24_backend_nest_j.Trips.Driving.{
  ProofInput, LocationInput, answer_arrival, answer_pickup, answer_start, mark_arrived_tx,
  pickup_item_tx, start_delivery_tx, pickup_seen, pickup_guards, start_guards, pickup_item,
  start_delivery, mark_driver_arrived_at_pickup,
}
use transpo24_backend_nest_j.Trips.Positions.{
  location_seen, location_guards, note_near, update_driver_location,
}
use transpo24_backend_nest_j.Trips.Delivery.{
  answer_delivery, deliver_item_tx, deliver_seen, delivery_guards, deliver_item,
  create_driver_earning,
}
use transpo24_backend_nest_j.Trips.Feedback.{
  confirm_customer_delivery, create_driver_rating, rating_guards, rate_tx, rating_tx,
}
use transpo24_backend_nest_j.Trips.Lifecycle.{
  IsConsistent, Env, Call, arrive, pick_up, start, locate, deliver, confirm, rate, run_call,
}

-- The call succeeded or left the rows.
abbrev IsAtomic : TripDb → Outcome → Type 0
IsAtomic db out = (out.0 ≡ ok tt) ⊎ (out.1 ≡ db)

-- A transaction whose new rows can be answered, or one that writes nothing.
abbrev Answers : TripDb → (TripDb → Result TripError (Unit {0})) → Result TripError TripDb → Type 0
Answers db answer (ok after) = (answer after ≡ ok tt) ⊎ (after ≡ db)
Answers db answer (err e) = Unit {0}

commit-IsAtomic :
    (db : TripDb) (answer : TripDb → Result TripError (Unit {0})) (r : Result TripError TripDb)
    → Answers db answer r
    → IsAtomic db (commit db r answer)
commit-IsAtomic db answer (ok after) h = h
commit-IsAtomic db answer (err e) h = inr refl

guarded-IsAtomic :
    {A : Type 0} (db : TripDb) (r : Result TripError A) (rest : A → Outcome)
    → ((a : A) → r ≡ ok a → IsAtomic db (rest a))
    → IsAtomic db (guarded db r rest)
guarded-IsAtomic db (ok a) rest h = h a refl
guarded-IsAtomic db (err e) rest h = inr refl

branch-IsAtomic :
    (db : TripDb) (b : Bool) (x y : Outcome)
    → IsAtomic db x
    → IsAtomic db y
    → IsAtomic db (if b then x else y)
branch-IsAtomic db true x y h k = h
branch-IsAtomic db false x y h k = k

pickup_item_tx-Answers :
    (now : ℕ) (input : ProofInput) (db : TripDb)
    → IsConsistent db
    → Answers db answer_pickup (pickup_item_tx now input db)
unfolding pickup_item_tx
pickup_item_tx-Answers now input db h = ground arith

start_delivery_tx-Answers :
    (now : ℕ) (db : TripDb) → IsConsistent db → Answers db answer_start (start_delivery_tx now db)
unfolding start_delivery_tx
start_delivery_tx-Answers now db h = ground arith

mark_arrived_tx-Answers :
    (e : Env) (now : ℕ) (input : LocationInput) (db : TripDb)
    → Answers db answer_arrival
        (mark_arrived_tx e.degree e.distance e.radius e.near_radius now input db)
unfolding mark_arrived_tx
mark_arrived_tx-Answers e now input db = ground arith

deliver_item_tx-Answers :
    (e : Env) (now : ℕ) (input : ProofInput) (db : TripDb)
    → IsConsistent db
    → Answers db
        (answer_delivery e.payout_delay e.default_currency)
        (deliver_item_tx e.payout_delay e.default_currency now input db)
unfolding deliver_item_tx create_driver_earning
deliver_item_tx-Answers e now input db h = ground arith

plain-IsAtomic :
    (db : TripDb) (r : Result TripError TripDb) → IsAtomic db (commit db r (λ _. ok tt))
plain-IsAtomic db (ok after) = inl refl
plain-IsAtomic db (err e) = inr refl

note_near-IsAtomic :
    (e : Env) (now : ℕ) (input : LocationInput) (seen : Trip) (ignored : Bool) (db : TripDb)
    (r : Result TripError TripDb)
    → IsAtomic db (
        note_near e.degree e.distance e.radius e.near_radius now input seen ignored
          (commit db r (λ _. ok tt)))
note_near-IsAtomic e now input seen ignored db (err x) = inr refl
note_near-IsAtomic e now input seen ignored db (ok after) = ground arith

-- With consistent rows a call that fails leaves all rows as they were, wherever it fails: at its
-- guards, in its transaction or when it makes its answer.
pub run_call-IsAtomic :
    (e : Env) (c : Call) (db : TripDb)
    → IsConsistent db
    → ((run_call e c db).0 ≡ ok tt) ⊎ ((run_call e c db).1 ≡ db)
unfolding run_call mark_driver_arrived_at_pickup pickup_item start_delivery deliver_item
    confirm_customer_delivery create_driver_rating update_driver_location pickup_seen deliver_seen
    location_seen
run_call-IsAtomic e (arrive now input profile seen) db h =
    guarded-IsAtomic db _ _ λ _ _. commit-IsAtomic db _ _ (mark_arrived_tx-Answers e now input db)
run_call-IsAtomic e (pick_up now input profile seen) db h =
    guarded-IsAtomic db
      (pickup_guards e.degree e.distance e.radius e.near_radius input profile seen)
      (pickup_seen e.degree e.distance e.radius e.near_radius now input db)
      λ trip _.
        branch-IsAtomic db (is_arrived trip.status) _ _
          (guarded-IsAtomic db
            (validate_coordinates e.degree e.distance e.radius input.latitude input.longitude
              trip.pickup_latitude trip.pickup_longitude)
            (λ _. commit db (pickup_item_tx now input db) answer_pickup)
            λ _ _.
              commit-IsAtomic db answer_pickup (pickup_item_tx now input db)
                (pickup_item_tx-Answers now input db h))
          (branch-IsAtomic db (is_item_picked_up trip.status) _ _ (inr refl) (inr refl))
run_call-IsAtomic e (start now n profile seen) db h =
    guarded-IsAtomic db (start_guards n profile seen)
      (λ _. commit db (start_delivery_tx now db) answer_start)
      λ _ _.
        commit-IsAtomic db answer_start (start_delivery_tx now db)
          (start_delivery_tx-Answers now db h)
run_call-IsAtomic e (locate now input profile seen) db h =
    guarded-IsAtomic db (validate_driver_can_access_trip profile seen)
      (location_seen e.degree e.distance e.radius e.near_radius now input db)
      λ trip _.
        guarded-IsAtomic db
          (location_guards e.degree e.distance e.radius e.near_radius now input trip) _
          λ measured _. note_near-IsAtomic e now input trip _ db _
run_call-IsAtomic e (deliver now input profile seen) db h =
    let tx = deliver_item_tx e.payout_delay e.default_currency now input db in
    let answer = answer_delivery e.payout_delay e.default_currency in
    guarded-IsAtomic db (delivery_guards e.payout_delay e.default_currency input profile seen)
      (deliver_seen e.payout_delay e.default_currency e.degree e.distance e.radius now input db)
      λ trip _.
        branch-IsAtomic db (is_going_to_dropoff trip.status) _ _
          (guarded-IsAtomic db
            (validate_coordinates e.degree e.distance e.radius input.latitude input.longitude
              trip.dropoff_latitude trip.dropoff_longitude)
            (λ _. commit db tx answer)
            λ _ _. commit-IsAtomic db answer tx (deliver_item_tx-Answers e now input db h))
          (branch-IsAtomic db (is_delivered trip.status) _ _ (inr refl) (inr refl))
run_call-IsAtomic e (confirm now n customer_id) db h =
    guarded-IsAtomic db (validate_trip_id n) _ λ _ _. plain-IsAtomic db _
run_call-IsAtomic e (rate n customer_id body comment m) db h =
    guarded-IsAtomic db (rating_guards n body m) (rate_tx customer_id comment db)
      λ rating _. plain-IsAtomic db (rating_tx customer_id comment db rating)
