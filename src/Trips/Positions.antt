-- ===== src/Trips/Positions.antt =====
-- Where the driver is: `updateDriverLocation` and `markNearDeliveryIfNeeded` of
-- src/trips/trips.service.ts.
use transpo24_backend_nest_j.Base.{
  ℕ, ltb, leb, ◌==◌, Bool, false, not, ◌&&◌, Option, none, some, List, [], ◌∷◌, is_some, get_or,
  if◌then◌else◌, Result, ok, err, ◌>>=◌, ◌>>◌, throw_if,
}
use transpo24_backend_nest_j.Policy.Location.{location_measurement}
use transpo24_backend_nest_j.Matching.Eligibility.{Coordinate}
use transpo24_backend_nest_j.Trips.State.{
  TripError, trip_not_found, trip_closed, not_trackable, missing_driver, stale_measurement,
  no_longer_permitted, Profile, Trip, DriverLocation, TripDb, Outcome, commit, guarded,
}
use transpo24_backend_nest_j.Trips.Guards.{
  is_trackable, is_terminal, is_going_to_dropoff, is_id, or_throw, validate_driver_can_access_trip,
  target_of,
}
use transpo24_backend_nest_j.Trips.Driving.{LocationInput}

-- The latest location of a driver on the trip, by `recordedAt`.
abbrev pub later : DriverLocation → Option DriverLocation → DriverLocation
later l none = l
later l (some k) = if ltb l.recorded_at k.recorded_at then k else l

unfoldable pub latest_location : ℕ → List DriverLocation → Option DriverLocation
latest_location driver_id [] = none
latest_location driver_id (l ∷ ls) =
    let rest = latest_location driver_id ls in
    if l.driver_id == driver_id then some (later l rest) else rest

-- `measuredAt <= (latest.measuredAt ?? latest.recordedAt)`
abbrev pub is_outdated : ℕ → Option DriverLocation → Bool
is_outdated measured none = false
is_outdated measured (some l) = leb measured (get_or l.measured_at l.recorded_at)

abbrev pub may_share : ℕ → Trip → Bool
may_share driver_id current =
    is_id current.assigned_driver_id driver_id && is_trackable current.status

abbrev pub saved_location : ℕ → ℕ → LocationInput → DriverLocation
saved_location driver_id measured input = record {
  driver_id = driver_id;
  latitude = input.latitude;
  longitude = input.longitude;
  recorded_at = measured;
  measured_at = some measured;
}

-- The transaction of `updateDriverLocation`; an outdated measurement is ignored.
unfoldable pub save_location : ℕ → ℕ → LocationInput → TripDb → Result TripError TripDb
unfolding latest_location
save_location driver_id measured input db = do
  current ← or_throw db.trip trip_not_found
  throw_if (not (may_share driver_id current)) no_longer_permitted
  if is_outdated measured (latest_location driver_id db.locations)
      then ok db
      else ok (record db { locations = saved_location driver_id measured input ∷ db.locations })

abbrev measured_or_throw : Option ℕ → ℕ → Result TripError ℕ
measured_or_throw value now = elim (location_measurement value now) [
  | ok measured ↦ ok measured
  | err e ↦ err stale_measurement
]

module _ (degree : ℕ) (distance : Coordinate → Coordinate → ℕ) (radius near_radius : ℕ) where
  abbrev is_near : LocationInput → Trip → Bool
  is_near input trip = elim (target_of trip.dropoff_latitude trip.dropoff_longitude) [
    | ok target ↦
        leb (distance (record { latitude = input.latitude; longitude = input.longitude }) target)
          near_radius
    | err e ↦ false
  ]

  -- `markNearDeliveryIfNeeded`
  abbrev pub mark_near : ℕ → LocationInput → Option Trip → Option Trip
  mark_near now input none = none
  mark_near now input (some trip) = some (
      if is_going_to_dropoff trip.status
        && not (is_some trip.near_delivery_notified_at)
        && is_near input trip
      then record trip { near_delivery_notified_at = some now }
      else trip)

  -- The check of the distance follows a location that was saved on the way to the dropoff.
  abbrev pub note_near : ℕ → LocationInput → Trip → Bool → Outcome → Outcome
  note_near now input seen ignored (ok _, db) =
      if is_going_to_dropoff seen.status && not ignored
      then (ok tt, record db { trip = mark_near now input db.trip })
      else (ok tt, db)
  note_near now input seen ignored (err e, db) = (err e, db)

  abbrev pub location_guards : ℕ → LocationInput → Trip → Result TripError ℕ
  location_guards now input trip = do
    throw_if (is_terminal trip.status) trip_closed
    throw_if (not (is_trackable trip.status)) not_trackable
    throw_if (not (is_some trip.assigned_driver_id)) missing_driver
    measured_or_throw input.measured_at now

  unfoldable pub location_seen : ℕ → LocationInput → TripDb → Trip → Outcome
  unfolding save_location
  location_seen now input db trip = guarded db (location_guards now input trip) (λ measured.
      let driver_id = get_or trip.assigned_driver_id 0 in
      note_near now input trip (is_outdated measured (latest_location driver_id db.locations))
        (commit db (save_location driver_id measured input db) (λ _. ok tt)))

  unfoldable pub update_driver_location :
      ℕ → LocationInput → Option Profile → Option Trip → TripDb → Outcome
  unfolding location_seen
  update_driver_location now input profile seen db =
      guarded db (validate_driver_can_access_trip profile seen) (location_seen now input db)
