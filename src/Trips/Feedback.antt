-- ===== src/Trips/Feedback.antt =====
-- What the customer does after the delivery: `confirmCustomerDelivery` and `createDriverRating` of
-- src/trips/trips.service.ts.
use transpo24_backend_nest_j.Base.{
  ℕ, ◌+◌, ◌*◌, ltb, ◌==◌, Bool, not, ◌&&◌, ◌||◌, Option, none, some, List, [], ◌∷◌, any, length,
  is_some, Result, ok, err, ◌>>=◌, ◌>>◌, throw_if,
}
use transpo24_backend_nest_j.Domain.{is_delivered}
use transpo24_backend_nest_j.Policy.Pricing.{round_half_up}
use transpo24_backend_nest_j.Trips.State.{
  TripError, trip_not_found, missing_driver, not_completed, not_your_trip, invalid_rating,
  comment_too_long, rating_unavailable, already_rated, Text, Trip, DriverRating, RatingAggregate,
  TripDb, Outcome, commit, guarded,
}
use transpo24_backend_nest_j.Trips.Guards.{is_completed, or_throw, validate_trip_id}
use transpo24_backend_nest_j.Trips.Driving.{or_else}
use transpo24_backend_nest_j.Trips.Driving.{or_else}

-- The first confirmation stays.
abbrev pub confirmed_trip : ℕ → Trip → Trip
confirmed_trip now trip = record trip {
  delivery_confirmed_by_customer_at = or_else trip.delivery_confirmed_by_customer_at (some now);
}

abbrev pub confirm_tx : ℕ → ℕ → TripDb → Result TripError TripDb
confirm_tx now customer_id db = do
  trip ← or_throw db.trip trip_not_found
  throw_if (not (trip.customer_id == customer_id)) not_your_trip
  throw_if (not (is_delivered trip.status) || not (is_some trip.delivered_at)) not_completed
  ok (record db { trip = some (confirmed_trip now trip) })

unfoldable pub confirm_customer_delivery : ℕ → ℕ → ℕ → TripDb → Outcome
confirm_customer_delivery now trip_id_length customer_id db =
    guarded db (validate_trip_id trip_id_length)
      (λ _. commit db (confirm_tx now customer_id db) (λ _. ok tt))

-- A rating of a body, in half stars if it is a multiple of a half.
pub data RatingInput : Type 0 where
  halves : ℕ → RatingInput
  other_number : RatingInput

-- The rating, and the length of the trimmed comment, which may be missing.
unfoldable pub validate_customer_rating_input : RatingInput → ℕ → Result TripError ℕ
validate_customer_rating_input other_number comment_length = err invalid_rating
validate_customer_rating_input (halves n) comment_length = do
  throw_if (ltb n 2 || ltb 10 n) invalid_rating
  throw_if (ltb 500 comment_length) comment_too_long
  ok n

unfoldable pub validate_customer_can_rate_trip : ℕ → Option Trip → Result TripError (Unit {0})
validate_customer_can_rate_trip customer_id found = do
  trip ← or_throw found trip_not_found
  throw_if (not (trip.customer_id == customer_id)) not_your_trip
  throw_if (not (is_some trip.assigned_driver_id)) missing_driver
  throw_if (not (is_delivered trip.status) && not (is_completed trip.status)) not_completed
  throw_if (not (is_some trip.rating_available_at)) rating_unavailable

unfoldable pub rating_sum : List DriverRating → ℕ
rating_sum [] = 0
rating_sum (r ∷ rs) = r.rating + rating_sum rs

-- `recalculateDriverRatingAggregate`: the mean of half stars, in hundredths of a star.
unfoldable pub recalculate_driver_rating_aggregate : List DriverRating → RatingAggregate
recalculate_driver_rating_aggregate [] = record { ratings_count = 0; average_rating = none }
recalculate_driver_rating_aggregate (r ∷ rs) = record {
  ratings_count = length (r ∷ rs);
  average_rating = some (round_half_up (rating_sum (r ∷ rs) * 50) (length (r ∷ rs)));
}

abbrev pub is_rated : ℕ → List DriverRating → Bool
is_rated trip_id ratings = any (λ r. r.trip_id == trip_id) ratings

abbrev pub rated_rows : ℕ → ℕ → Option Text → TripDb → TripDb
rated_rows customer_id rating comment db =
    let ratings =
      record { trip_id = db.trip_id; customer_id = customer_id; rating = rating; comment = comment }
      ∷ db.ratings in
    record db { ratings = ratings; aggregate = recalculate_driver_rating_aggregate ratings }

abbrev pub rating_guards : ℕ → RatingInput → ℕ → Result TripError ℕ
rating_guards trip_id_length body comment_length = do
  validate_trip_id trip_id_length
  validate_customer_rating_input body comment_length

-- The transaction of `createDriverRating`.
abbrev pub rating_tx : ℕ → Option Text → TripDb → ℕ → Result TripError TripDb
rating_tx customer_id comment db rating = do
  validate_customer_can_rate_trip customer_id db.trip
  throw_if (is_rated db.trip_id db.ratings) already_rated
  ok (rated_rows customer_id rating comment db)

abbrev pub rate_tx : ℕ → Option Text → TripDb → ℕ → Outcome
rate_tx customer_id comment db rating =
    commit db (rating_tx customer_id comment db rating) (λ _. ok tt)

unfoldable pub create_driver_rating : ℕ → ℕ → RatingInput → Option Text → ℕ → TripDb → Outcome
unfolding validate_customer_rating_input validate_customer_can_rate_trip
    recalculate_driver_rating_aggregate
create_driver_rating trip_id_length customer_id body comment comment_length db =
    guarded db (rating_guards trip_id_length body comment_length) (rate_tx customer_id comment db)
