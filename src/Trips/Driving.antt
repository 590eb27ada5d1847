-- ===== src/Trips/Driving.antt =====
-- The driver's way: `markDriverArrivedAtPickup`, `pickupItem` and `startDelivery` of src/trips/trips.service.ts. A call first reads the trip and the driver's
-- profile (`seen`), then runs a transaction on the rows as they are then; between the two, other
-- calls may have changed the rows.
use transpo24_backend_nest_j.Base.{
  ℕ, ltb, true, false, not, ◌&&◌, ◌||◌, Option, none, some, List, ◌∷◌, is_some, if◌then◌else◌,
  Result, ok, err, ◌>>=◌, ◌>>◌, throw_if,
}
use transpo24_backend_nest_j.Base.Int.{ℤ}
use transpo24_backend_nest_j.Domain.{RequestStatus}
use transpo24_backend_nest_j.Domain
use transpo24_backend_nest_j.Matching.Eligibility.{Coordinate}
use transpo24_backend_nest_j.Trips.State.{
  TripError, trip_not_found, wrong_status, already_marked, too_far, incomplete, already_started,
  location_missing, Text, Number, Profile, Trip, PhotoType, TripDb, Outcome, commit, guarded,
}
use transpo24_backend_nest_j.Trips.Guards.{
  is_going_to_pickup, is_arrived, is_item_picked_up, is_going_to_dropoff, or_throw,
  validate_trip_id, validate_driver_can_access_trip, validate_driver_can_pickup_item,
  validate_trip_assigned_to_driver, ensure_proof_photo_input, target_of, validate_coordinates,
}
use transpo24_backend_nest_j.Trips.Photos.{create_proof_photo_rows, proof_image_url}

-- The body of a request for a proof: the trimmed length of the trip's id, where the driver is, the
-- notes, the uploaded files and the address of an image.
pub record ProofInput : Type 0 where
  pub trip_id_length : ℕ
  pub latitude : Number
  pub longitude : Number
  pub notes : Option Text
  pub proof_photos : List ℕ
  pub proof_image_url : Option Text

pub record LocationInput : Type 0 where
  pub latitude : ℤ
  pub longitude : ℤ
  pub measured_at : Option ℕ

abbrev pub or_else : {A : Type 0} → Option A → Option A → Option A
or_else none b = b
or_else (some a) b = some a

-- What `mapPickupItemResponse` and `mapItemPickedUpPayload` check of the trip.
abbrev pub answer_pickup : TripDb → Result TripError (Unit {0})
answer_pickup db = do
  trip ← or_throw db.trip trip_not_found
  throw_if (not (is_some trip.assigned_driver_id) || not (is_some trip.item_picked_up_at))
      incomplete
  throw_if (not (is_item_picked_up trip.status)) wrong_status

-- What `mapStartDeliveryResponse` and `mapDriverStartedDeliveryPayload` check of the trip.
abbrev pub answer_start : TripDb → Result TripError (Unit {0})
answer_start db = do
  trip ← or_throw db.trip trip_not_found
  throw_if
      (not (is_some trip.assigned_driver_id)
        || not (is_some trip.driver_going_to_dropoff_at)
        || not (is_some trip.dropoff_latitude)
        || not (is_some trip.dropoff_longitude))
      incomplete
  throw_if (not (is_going_to_dropoff trip.status)) wrong_status

-- What `mapDriverArrivedPickupConfirmedPayload` checks of the trip.
abbrev pub answer_arrival : TripDb → Result TripError (Unit {0})
answer_arrival db = do
  trip ← or_throw db.trip trip_not_found
  throw_if (not (is_some trip.assigned_driver_id) || not (is_some trip.driver_arrived_pickup_at))
      incomplete

-- The trip after the pickup that was recorded before its status.
abbrev pub normalized_trip : ProofInput → Trip → Trip
normalized_trip input trip = record trip {
  status = Domain.item_picked_up;
  pickup_confirmed_by_driver = true;
  pickup_notes = or_else trip.pickup_notes input.notes;
  pickup_proof_image_url = or_else trip.pickup_proof_image_url input.proof_image_url;
}

abbrev pub picked_up_trip : ℕ → ProofInput → Option Text → Trip → Trip
picked_up_trip now input image trip = record trip {
  status = Domain.item_picked_up;
  item_picked_up_at = some now;
  pickup_confirmed_by_driver = true;
  pickup_notes = input.notes;
  pickup_proof_image_url = image;
}

-- The transaction of `pickupItem`.
unfoldable pub pickup_item_tx : ℕ → ProofInput → TripDb → Result TripError TripDb
pickup_item_tx now input db = do
  current ← or_throw db.trip trip_not_found
  if not (is_arrived current.status)
      then (if is_item_picked_up current.status && is_some current.item_picked_up_at
          then ok db
          else err wrong_status)
      else (if is_some current.item_picked_up_at
          then ok (record db { trip = some (normalized_trip input current) })
          else (do
            photos ← create_proof_photo_rows PhotoType.pickup input.proof_photos db.photos
            ok (record db {
              photos = photos;
              trip = some (
                  picked_up_trip now input
                    (proof_image_url PhotoType.pickup input.proof_photos photos
                      input.proof_image_url)
                    current);
            })))

-- The transaction of `startDelivery`. It sets the same row twice where the pickup was recorded
-- before its status; the second update's status is the one that stays.
abbrev pub started_trip : ℕ → Trip → Trip
started_trip now trip = record trip {
  status = Domain.driver_going_to_dropoff;
  driver_going_to_dropoff_at = some now;
}

abbrev pub confirmed_pickup : Trip → Trip
confirmed_pickup trip =
    if is_item_picked_up trip.status
    then trip
    else record trip { status = Domain.item_picked_up; pickup_confirmed_by_driver = true }

unfoldable pub start_delivery_tx : ℕ → TripDb → Result TripError TripDb
start_delivery_tx now db = do
  current ← or_throw db.trip trip_not_found
  throw_if
      (not (is_item_picked_up current.status)
        && not (is_arrived current.status && is_some current.item_picked_up_at))
      wrong_status
  let trip = confirmed_pickup current
  throw_if (is_some trip.driver_going_to_dropoff_at) already_started
  throw_if (not (is_some trip.dropoff_latitude) || not (is_some trip.dropoff_longitude))
      location_missing
  ok (record db { trip = some (started_trip now trip) })

abbrev pub start_guards : ℕ → Option Profile → Option Trip → Result TripError Trip
start_guards trip_id_length profile seen = do
  validate_trip_id trip_id_length
  driver ← validate_driver_can_pickup_item profile seen
  validate_trip_assigned_to_driver seen driver.id false

unfoldable pub start_delivery : ℕ → ℕ → Option Profile → Option Trip → TripDb → Outcome
unfolding start_delivery_tx
start_delivery now trip_id_length profile seen db =
    guarded db (start_guards trip_id_length profile seen)
      (λ _. commit db (start_delivery_tx now db) answer_start)

module _ (degree : ℕ) (distance : Coordinate → Coordinate → ℕ) (radius near_radius : ℕ) where
  abbrev pub arrival_guards : LocationInput → Trip → Result TripError (Unit {0})
  arrival_guards input trip = do
    throw_if (not (is_going_to_pickup trip.status)) wrong_status
    throw_if (is_some trip.driver_arrived_pickup_at) already_marked
    target ← target_of trip.pickup_latitude trip.pickup_longitude
    throw_if
        (ltb radius
          (distance (record { latitude = input.latitude; longitude = input.longitude }) target))
        too_far

  -- The transaction updates the request by its id alone, whatever its status is by then.
  unfoldable pub mark_arrived_tx : ℕ → LocationInput → TripDb → Result TripError TripDb
  mark_arrived_tx now input db = do
    current ← or_throw db.trip trip_not_found
    driver_id ← or_throw current.assigned_driver_id incomplete
    ok (record db {
      trip = some (record current {
        status = Domain.driver_arrived_pickup;
        driver_arrived_pickup_at = some now;
      });
      locations =
          record {
            driver_id = driver_id;
            latitude = input.latitude;
            longitude = input.longitude;
            recorded_at = now;
            measured_at = none;
          }
          ∷ db.locations;
    })

  unfoldable pub mark_driver_arrived_at_pickup :
      ℕ → LocationInput → Option Profile → Option Trip → TripDb → Outcome
  unfolding mark_arrived_tx
  mark_driver_arrived_at_pickup now input profile seen db =
      guarded db (do trip ← validate_driver_can_access_trip profile seen; arrival_guards input trip)
        (λ _. commit db (mark_arrived_tx now input db) answer_arrival)

  abbrev pub pickup_guards : ProofInput → Option Profile → Option Trip → Result TripError Trip
  pickup_guards input profile seen = do
    validate_trip_id input.trip_id_length
    driver ← validate_driver_can_pickup_item profile seen
    trip ← validate_trip_assigned_to_driver seen driver.id false
    ensure_proof_photo_input input.proof_photos input.proof_image_url
    ok trip

  -- A trip that was seen as picked up answers from the rows, without a transaction.
  unfoldable pub pickup_seen : ℕ → ProofInput → TripDb → Trip → Outcome
  unfolding pickup_item_tx
  pickup_seen now input db trip =
      if is_arrived trip.status
      then guarded db
          (validate_coordinates degree distance radius input.latitude input.longitude
            trip.pickup_latitude trip.pickup_longitude)
          (λ _. commit db (pickup_item_tx now input db) answer_pickup)
      else (if is_item_picked_up trip.status
          then commit db (ok db) answer_pickup
          else (err wrong_status, db))

  unfoldable pub pickup_item : ℕ → ProofInput → Option Profile → Option Trip → TripDb → Outcome
  unfolding pickup_seen
  pickup_item now input profile seen db =
      guarded db (pickup_guards input profile seen) (pickup_seen now input db)
