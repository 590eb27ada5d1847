-- ===== src/Trips/State.antt =====
-- The rows of one trip that src/trips/trips.service.ts reads and writes: the request, the proof
-- photos, the driver's locations, the earning, the settlement and the ratings. Numbers stand for ids
-- and for texts, times are milliseconds, money is cents; a rating is a number of half stars. What a
-- transaction of the service throws, it throws before it commits: its result is the new rows or an
-- error.
use transpo24_backend_nest_j.Base.{ℕ, Bool, Option, List, Result, ok, err}
use transpo24_backend_nest_j.Base.Int.{ℤ}
use transpo24_backend_nest_j.Domain.{RequestStatus, DriverStatus}
use transpo24_backend_nest_j.Payments.State.{Earning, DriverPayoutState, Reason}

pub data TripError : Type 0 where
  invalid_trip_id trip_not_found profile_not_found not_assigned trip_closed : TripError
  approval_required driver_not_allowed not_trackable missing_driver : TripError
  stale_measurement no_longer_permitted wrong_status already_marked : TripError
  location_missing coordinates_required invalid_coordinates too_far : TripError
  too_many_photos photos_required duplicate_photo incomplete : TripError
  already_started not_your_trip not_completed invalid_rating comment_too_long : TripError
  rating_unavailable already_rated no_final_amount : TripError

-- A text that may be blank.
pub data Text : Type 0 where
  blank : Text
  text : ℕ → Text

-- A number of a request's body: it may be missing, and it may be NaN or infinite.
pub data Number : Type 0 where
  undefined not_finite : Number
  finite : ℤ → Number

pub record Profile : Type 0 where
  pub id : ℕ
  pub status : DriverStatus
  pub is_profile_completed : Bool

pub record AcceptedOffer : Type 0 where
  pub price : ℕ
  pub currency : ℕ

-- An additional charge of the trip: its amount, and whether it was captured.
pub record AdditionalCharge : Type 0 where
  pub amount : ℕ
  pub is_captured : Bool

pub record Trip : Type 0 where
  pub customer_id : ℕ
  pub assigned_driver_id : Option ℕ
  pub status : RequestStatus
  pub pickup_latitude : Option ℤ
  pub pickup_longitude : Option ℤ
  pub dropoff_latitude : Option ℤ
  pub dropoff_longitude : Option ℤ
  pub accepted_offer : Option AcceptedOffer
  pub final_price : Option ℕ
  pub currency : Option ℕ
  -- `paymentHold.customerPlatformFeeAmount`, if the trip has a hold.
  pub customer_platform_fee_amount : Option ℕ
  pub driver_arrived_pickup_at : Option ℕ
  pub item_picked_up_at : Option ℕ
  pub pickup_confirmed_by_driver : Bool
  pub pickup_notes : Option Text
  pub pickup_proof_image_url : Option Text
  pub driver_going_to_dropoff_at : Option ℕ
  pub near_delivery_notified_at : Option ℕ
  pub delivered_at : Option ℕ
  pub completed_at : Option ℕ
  pub delivery_confirmed_by_driver : Bool
  pub delivery_notes : Option Text
  pub delivery_proof_image_url : Option Text
  pub rating_available_at : Option ℕ
  pub delivery_confirmed_by_customer_at : Option ℕ

pub data PhotoType : Type 0 where
  pickup delivery : PhotoType

pub record ProofPhoto : Type 0 where
  pub kind : PhotoType
  pub url : ℕ
  pub sort_order : ℕ

pub record DriverLocation : Type 0 where
  pub driver_id : ℕ
  pub latitude : ℤ
  pub longitude : ℤ
  pub recorded_at : ℕ
  pub measured_at : Option ℕ

-- The columns of the trip's settlement that the service writes.
pub record TripSettlement : Type 0 where
  pub retained_amount : ℤ
  pub driver_share_amount : ℤ
  pub platform_share_amount : ℕ
  pub driver_payout_state : DriverPayoutState
  pub payout_failure_reason : Option Reason
  pub payout_attempt_count : ℕ
  pub last_payout_attempt_at : Option ℕ
  pub next_payout_retry_at : Option ℕ

-- The rating of a trip; the list has those of all trips of the driver.
pub record DriverRating : Type 0 where
  pub trip_id : ℕ
  pub customer_id : ℕ
  pub rating : ℕ
  pub comment : Option Text

-- `ratingsCount` and `averageRating` (in hundredths) of the driver's profile.
pub record RatingAggregate : Type 0 where
  pub ratings_count : ℕ
  pub average_rating : Option ℕ

pub record TripDb : Type 0 where
  pub trip_id : ℕ
  pub trip : Option Trip
  pub photos : List ProofPhoto
  pub locations : List DriverLocation
  pub earning : Option Earning
  pub settlement : Option TripSettlement
  pub charges : List AdditionalCharge
  pub ratings : List DriverRating
  pub aggregate : RatingAggregate

-- What a call answers, and the rows that it leaves.
abbrev pub Outcome : Type 0
Outcome = Result TripError (Unit {0}) × TripDb

-- A transaction that throws leaves the rows as they were; the answer is made from the new rows.
abbrev pub commit :
    TripDb → Result TripError TripDb → (TripDb → Result TripError (Unit {0})) → Outcome
commit before (ok after) answer = (answer after, after)
commit before (err e) answer = (err e, before)

-- The guards of a call come before its transaction.
abbrev pub guarded : {A : Type 0} → TripDb → Result TripError A → (A → Outcome) → Outcome
guarded db (ok a) rest = rest a
guarded db (err e) rest = (err e, db)
