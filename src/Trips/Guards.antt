-- ===== src/Trips/Guards.antt =====
-- What src/trips/trips.service.ts checks before it opens a transaction: the identity and approval of
-- the driver, the trip's assignment, the proof photos and the distance. `calculateDistanceMeters`,
-- in a small unit, and the confirmation radius are parameters.
use transpo24_backend_nest_j.Base.{
  ℕ, ◌+◌, ◌*◌, ltb, leb, ◌==◌, Bool, true, false, not, ◌&&◌, ◌||◌, Option, none, some, List, length,
  if◌then◌else◌, Result, ok, err, ◌>>=◌, ◌>>◌, throw_if,
}
use transpo24_backend_nest_j.Base.Int.{ℤ, pos, negsuc}
use transpo24_backend_nest_j.Domain.{RequestStatus, DriverStatus, is_approved}
use transpo24_backend_nest_j.Domain
use transpo24_backend_nest_j.Matching.Eligibility.{Coordinate}
use transpo24_backend_nest_j.Trips.State.{
  TripError, invalid_trip_id, trip_not_found, profile_not_found, not_assigned, trip_closed,
  approval_required, driver_not_allowed, location_missing, coordinates_required,
  invalid_coordinates, too_far, too_many_photos, photos_required, Text, blank, text, Number,
  undefined, not_finite, finite, Profile, Trip,
}

abbrev pub max_proof_photos : ℕ
max_proof_photos = 8

abbrev pub is_trackable : RequestStatus → Bool
is_trackable Domain.driver_going_to_pickup = true
is_trackable Domain.driver_going_to_dropoff = true
is_trackable _ = false

abbrev pub is_terminal : RequestStatus → Bool
is_terminal Domain.cancelled = true
is_terminal Domain.delivered = true
is_terminal Domain.completed = true
is_terminal _ = false

abbrev pub is_going_to_pickup : RequestStatus → Bool
is_going_to_pickup Domain.driver_going_to_pickup = true
is_going_to_pickup _ = false

abbrev pub is_arrived : RequestStatus → Bool
is_arrived Domain.driver_arrived_pickup = true
is_arrived _ = false

abbrev pub is_item_picked_up : RequestStatus → Bool
is_item_picked_up Domain.item_picked_up = true
is_item_picked_up _ = false

abbrev pub is_going_to_dropoff : RequestStatus → Bool
is_going_to_dropoff Domain.driver_going_to_dropoff = true
is_going_to_dropoff _ = false

abbrev pub is_completed : RequestStatus → Bool
is_completed Domain.completed = true
is_completed _ = false

abbrev is_barred : DriverStatus → Bool
is_barred DriverStatus.suspended = true
is_barred DriverStatus.rejected = true
is_barred _ = false

-- `o === id` for a column that may be null.
abbrev pub is_id : Option ℕ → ℕ → Bool
is_id none id = false
is_id (some a) id = a == id

abbrev pub or_throw : {A : Type 0} → Option A → TripError → Result TripError A
or_throw none e = err e
or_throw (some a) e = ok a

-- The length of the trimmed id.
abbrev pub validate_trip_id : ℕ → Result TripError (Unit {0})
validate_trip_id n = throw_if (ltb n 8 || ltb 64 n) invalid_trip_id

-- `ensureDriverProfile` with `assertDriverApproved` of src/auth/driver-approval.ts.
unfoldable pub ensure_driver_profile : Option Profile → Result TripError Profile
ensure_driver_profile found = do
  profile ← or_throw found profile_not_found
  throw_if (not (is_approved profile.status) || not profile.is_profile_completed) approval_required
  ok profile

unfoldable pub validate_driver_can_access_trip :
    Option Profile → Option Trip → Result TripError Trip
unfolding ensure_driver_profile
validate_driver_can_access_trip found seen = do
  profile ← ensure_driver_profile found
  trip ← or_throw seen trip_not_found
  throw_if (not (is_id trip.assigned_driver_id profile.id)) not_assigned
  ok trip

abbrev assigned_to : Option Trip → ℕ → Bool
assigned_to none id = false
assigned_to (some trip) id = is_id trip.assigned_driver_id id

-- The same test guards the pickup, the start of the delivery, and the delivery.
unfoldable pub validate_driver_can_pickup_item :
    Option Profile → Option Trip → Result TripError Profile
validate_driver_can_pickup_item found seen = do
  profile ← or_throw found profile_not_found
  throw_if (is_barred profile.status) driver_not_allowed
  throw_if (assigned_to seen profile.id && not (is_approved profile.status)) driver_not_allowed
  ok profile

-- The second argument: whether a delivered trip is let through.
unfoldable pub validate_trip_assigned_to_driver : Option Trip → ℕ → Bool → Result TripError Trip
validate_trip_assigned_to_driver seen driver_id allow_delivered = do
  trip ← or_throw seen trip_not_found
  throw_if (not (is_id trip.assigned_driver_id driver_id)) not_assigned
  throw_if (is_terminal trip.status && not (allow_delivered && Domain.is_delivered trip.status))
      trip_closed
  ok trip

abbrev is_blank : Option Text → Bool
is_blank none = true
is_blank (some blank) = true
is_blank (some (text n)) = false

unfoldable pub ensure_proof_photo_input : List ℕ → Option Text → Result TripError (Unit {0})
ensure_proof_photo_input files image = do
  throw_if (ltb max_proof_photos (length files)) too_many_photos
  throw_if (length files == 0 && is_blank image) photos_required

abbrev within_bounds : ℤ → ℕ → Bool
within_bounds (pos n) bound = leb n bound
within_bounds (negsuc n) bound = leb (n + 1) bound

abbrev pub target_of : Option ℤ → Option ℤ → Result TripError Coordinate
target_of (some la) (some lo) = ok (record { latitude = la; longitude = lo })
target_of none lo = err location_missing
target_of (some la) none = err location_missing

module _ (degree : ℕ) where
  abbrev both_finite : Number → Number → Result TripError Coordinate
  both_finite undefined longitude = err coordinates_required
  both_finite latitude undefined = err coordinates_required
  both_finite (finite la) (finite lo) =
      if within_bounds la (90 * degree) && within_bounds lo (180 * degree)
      then ok (record { latitude = la; longitude = lo })
      else err invalid_coordinates
  both_finite not_finite not_finite = err invalid_coordinates
  both_finite not_finite (finite lo) = err invalid_coordinates
  both_finite (finite la) not_finite = err invalid_coordinates

  module _ (distance : Coordinate → Coordinate → ℕ) (radius : ℕ) where
    -- `validatePickupCoordinates` and `validateDeliveryCoordinates`.
    unfoldable pub validate_coordinates :
        Number → Number → Option ℤ → Option ℤ → Result TripError (Unit {0})
    validate_coordinates latitude longitude target_latitude target_longitude = do
      here ← both_finite latitude longitude
      target ← target_of target_latitude target_longitude
      throw_if (ltb radius (distance here target)) too_far
