-- ===== src/Trips/Tests.antt =====
-- A trip on concrete rows, from the pickup to the rating.
use transpo24_backend_nest_j.Base.{
  ℕ, ◌+◌, ◌-◌, ◌≡◌, refl, true, false, none, some, List, [], ◌∷◌, ◌++◌, count_if, length, ok, arith,
  ◌⊎◌,
}
use transpo24_backend_nest_j.Base.Int.{pos, pos_part}
use transpo24_backend_nest_j.Domain.{RequestStatus, DriverStatus, is_delivered}
use transpo24_backend_nest_j.Domain
use transpo24_backend_nest_j.Payments.State.{EarningStatus, DriverPayoutState}
use transpo24_backend_nest_j.Trips.State.{
  Number, Profile, Trip, PhotoType, ProofPhoto, TripSettlement, TripDb,
}
use transpo24_backend_nest_j.Trips.Photos.{of_kind, create_proof_photo_rows}
use transpo24_backend_nest_j.Trips.Photos.Numbering.{IsNumbered, create_proof_photo_rows-IsNumbered}
use transpo24_backend_nest_j.Trips.Driving.{
  ProofInput, LocationInput, pickup_item, start_delivery, mark_driver_arrived_at_pickup,
}
use transpo24_backend_nest_j.Trips.Guards.{
  validate_driver_can_pickup_item, validate_trip_assigned_to_driver, ensure_proof_photo_input,
  validate_coordinates, validate_driver_can_access_trip,
}
use transpo24_backend_nest_j.Policy.Location.{location_measurement}
use transpo24_backend_nest_j.Policy.Pricing.{round_half_up}
use transpo24_backend_nest_j.Trips.Positions.{save_location, update_driver_location}
use transpo24_backend_nest_j.Trips.Delivery.{create_driver_earning, captured_charges, deliver_item}
use transpo24_backend_nest_j.Trips.Feedback.{
  RatingInput, recalculate_driver_rating_aggregate, rating_sum, create_driver_rating,
  confirm_customer_delivery,
}
use transpo24_backend_nest_j.Trips.Lifecycle.{
  Env, Call, arrive, pick_up, start, locate, deliver, confirm, rate, run_call, run_calls,
  IsConsistent,
}
use transpo24_backend_nest_j.Trips.Lifecycle.Safety.{run_calls-IsConsistent, run_call-Moves, Moves}
use transpo24_backend_nest_j.Trips.Lifecycle.Earnings.{
  run_call-earning, create_driver_earning-IsShared, IsShared,
}
use transpo24_backend_nest_j.Trips.Lifecycle.Failures.{run_call-IsAtomic}
use transpo24_backend_nest_j.Trips.Locations.{AreDated, AllBefore, save_location-newest}
use transpo24_backend_nest_j.Trips.Ratings.{AreRatings, IsRated, IsAverage, run_calls-rated}

abbrev env : Env
env = record {
  degree = 1000;
  distance = λ a b.
      (pos_part a.latitude - pos_part b.latitude) + (pos_part b.latitude - pos_part a.latitude);
  radius = 100;
  near_radius = 500;
  payout_delay = 86400;
  default_currency = 1;
}

abbrev profile : Profile
profile = record { id = 7; status = DriverStatus.approved; is_profile_completed = true }

abbrev trip_at_pickup : Trip
trip_at_pickup = record {
  customer_id = 3;
  assigned_driver_id = some 7;
  status = Domain.driver_arrived_pickup;
  pickup_latitude = some (pos 1000);
  pickup_longitude = some (pos 1000);
  dropoff_latitude = some (pos 2000);
  dropoff_longitude = some (pos 2000);
  accepted_offer = some (record { price = 10000; currency = 1 });
  final_price = none;
  currency = none;
  customer_platform_fee_amount = some 500;
  driver_arrived_pickup_at = some 50;
  item_picked_up_at = none;
  pickup_confirmed_by_driver = false;
  pickup_notes = none;
  pickup_proof_image_url = none;
  driver_going_to_dropoff_at = none;
  near_delivery_notified_at = none;
  delivered_at = none;
  completed_at = none;
  delivery_confirmed_by_driver = false;
  delivery_notes = none;
  delivery_proof_image_url = none;
  rating_available_at = none;
  delivery_confirmed_by_customer_at = none;
}

abbrev plan : TripSettlement
plan = record {
  retained_amount = pos 0;
  driver_share_amount = pos 0;
  platform_share_amount = 0;
  driver_payout_state = DriverPayoutState.not_earned;
  payout_failure_reason = none;
  payout_attempt_count = 2;
  last_payout_attempt_at = none;
  next_payout_retry_at = none;
}

-- The driver was rated once before, with four stars.
abbrev rows : TripDb
rows = record {
  trip_id = 11;
  trip = some trip_at_pickup;
  photos = [];
  locations = [];
  earning = none;
  settlement = some plan;
  charges =
      record { amount = 700; is_captured = true }
      ∷ record { amount = 90; is_captured = false }
      ∷ [];
  ratings = record { trip_id = 10; customer_id = 4; rating = 8; comment = none } ∷ [];
  aggregate = record { ratings_count = 1; average_rating = some 400 };
}

abbrev proof : ℕ → List ℕ → ProofInput
proof latitude files = record {
  trip_id_length = 25;
  latitude = Number.finite (pos latitude);
  longitude = Number.finite (pos 1000);
  notes = none;
  proof_photos = files;
  proof_image_url = none;
}

abbrev here : ℕ → ℕ → LocationInput
here latitude at = record { latitude = pos latitude; longitude = pos 1000; measured_at = some at }

-- The pickup is seen while the driver has arrived, the rest on the way; the second delivery is late.
abbrev way : Trip
way = record trip_at_pickup { status = Domain.driver_going_to_dropoff }

abbrev calls : List Call
calls =
    pick_up 60 (proof 1050 (901 ∷ 902 ∷ [])) (some profile) (some trip_at_pickup)
    ∷ start 70 25 (some profile) (some (record trip_at_pickup { status = Domain.item_picked_up }))
    ∷ locate 100000 (here 1900 99000) (some profile) (some way)
    ∷ locate 100100 (here 1800 98000) (some profile) (some way)
    ∷ deliver 100200 (proof 2000 (903 ∷ [])) (some profile) (some way)
    ∷ deliver 100300 (proof 2000 (904 ∷ [])) (some profile) (some way)
    ∷ confirm 100400 25 3
    ∷ rate 25 3 (RatingInput.halves 9) none 0
    ∷ rate 25 3 (RatingInput.halves 2) none 0
    ∷ []

rows-IsConsistent : IsConsistent rows
rows-IsConsistent = ground arith

rows-IsRated : IsRated rows
unfolding recalculate_driver_rating_aggregate rating_sum round_half_up
rows-IsRated = record { ratings = (omega arith, refl, tt); aggregate = refl }

-- The trip is delivered, confirmed and rated once.
whole_trip :
    let after = run_calls env calls rows in
    (length after.photos ≡ 3)
    × (length after.locations ≡ 1)
    × (after.aggregate ≡ record { ratings_count = 2; average_rating = some 425 })
unfolding run_calls create_driver_rating confirm_customer_delivery deliver_item pickup_item
    start_delivery validate_driver_can_pickup_item validate_trip_assigned_to_driver
    ensure_proof_photo_input validate_coordinates update_driver_location
    validate_driver_can_access_trip location_measurement create_proof_photo_rows round_half_up
    rating_sum
whole_trip = (refl, refl, refl)

-- An arrival that read the trip before the driver arrived.
abbrev going : Trip
going = record trip_at_pickup {
  status = Domain.driver_going_to_pickup;
  driver_arrived_pickup_at = none;
}

abbrev late_arrival : Call
late_arrival = arrive 100500 (here 1010 100490) (some profile) (some going)

abbrev late_calls : List Call
late_calls = calls ++ (late_arrival ∷ [])

run_calls-IsConsistent_example : IsConsistent (run_calls env late_calls rows)
run_calls-IsConsistent_example = run_calls-IsConsistent env late_calls rows rows-IsConsistent

-- It comes when the driver is on the way to the dropoff.
abbrev on_way : TripDb
on_way = record rows { trip = some way }

run_call-Moves_example : Moves late_arrival on_way.trip (run_call env late_arrival on_way).1.trip
run_call-Moves_example = run_call-Moves env late_arrival on_way

-- The trip is set back.
set_back :
    (run_call env late_arrival on_way).1.trip
    ≡ some (record way {
      status = Domain.driver_arrived_pickup;
      driver_arrived_pickup_at = some 100500;
    })
unfolding run_call mark_driver_arrived_at_pickup validate_driver_can_access_trip
set_back = refl

run_call-IsAtomic_example :
    let (answer, after) =
      run_call env (deliver 100 (proof 2000 (903 ∷ [])) (some profile) (some way)) rows in
    (answer ≡ ok tt) ⊎ (after ≡ rows)
run_call-IsAtomic_example =
    run_call-IsAtomic env (deliver 100 (proof 2000 (903 ∷ [])) (some profile) (some way)) rows
      rows-IsConsistent

abbrev delivered_way : Trip
delivered_way = record way { status = Domain.delivered; delivered_at = some 100200 }

-- The second delivery, when the first has earned.
abbrev earned : TripDb
earned = record rows {
  trip = some delivered_way;
  earning = some (record {
    driver_id = 7;
    gross_amount = 10700;
    platform_fee_amount = 1500;
    net_amount = 9200;
    currency = 1;
    available_at = some 186600;
    status = EarningStatus.pending;
  });
}

run_call-earning_example :
    let after =
      (run_call env (deliver 100300 (proof 2000 (904 ∷ [])) (some profile) (some way)) earned).1 in
    (after.earning ≡ earned.earning) × (after.settlement ≡ earned.settlement)
run_call-earning_example =
    run_call-earning env (deliver 100300 (proof 2000 (904 ∷ [])) (some profile) (some way)) earned
      refl

create_driver_earning-IsShared_example :
    (after : TripDb) × (create_driver_earning 86400 1 (record rows { trip = some delivered_way })
      ≡ ok after)
    × IsShared 10000 (captured_charges rows.charges) 500 after.earning after.settlement
create_driver_earning-IsShared_example =
    create_driver_earning-IsShared 86400 1 7 100200 delivered_way
      (record { price = 10000; currency = 1 }) plan (record rows { trip = some delivered_way }) refl
      refl refl refl refl refl refl

abbrev photos : List ProofPhoto
photos =
    record { kind = PhotoType.delivery; url = 900; sort_order = 1 }
    ∷ record { kind = PhotoType.pickup; url = 901; sort_order = 1 }
    ∷ []

photos-IsNumbered : IsNumbered photos
photos-IsNumbered PhotoType.pickup = ground arith
photos-IsNumbered PhotoType.delivery = ground arith

create_proof_photo_rows-IsNumbered_example :
    (new : List ProofPhoto) × (create_proof_photo_rows PhotoType.pickup (902 ∷ 903 ∷ []) photos
      ≡ ok (photos ++ new))
    × (count_if (of_kind PhotoType.pickup) new ≡ 2)
    × IsNumbered (photos ++ new)
create_proof_photo_rows-IsNumbered_example =
    create_proof_photo_rows-IsNumbered PhotoType.pickup (902 ∷ 903 ∷ []) photos photos-IsNumbered

abbrev tracked : TripDb
tracked = record rows {
  trip = some way;
  locations =
      record {
        driver_id = 7;
        latitude = pos 1500;
        longitude = pos 1000;
        recorded_at = 900;
        measured_at = some 900;
      }
      ∷ [];
}

abbrev moved : TripDb
moved = record tracked {
  locations =
      record {
        driver_id = 7;
        latitude = pos 1600;
        longitude = pos 1000;
        recorded_at = 950;
        measured_at = some 950;
      }
      ∷ tracked.locations;
}

save_moved : save_location 7 950 (here 1600 950) tracked ≡ ok moved
unfolding save_location
save_moved = refl

save_location-newest_example :
    AreDated moved.locations × ((moved ≡ tracked) ⊎ AllBefore 7 950 tracked.locations)
save_location-newest_example =
    save_location-newest 7 950 (here 1600 950) tracked moved (refl, tt) save_moved

run_calls-rated_example :
    let after = run_calls env calls rows in
    AreRatings after.ratings
    × (after.aggregate ≡ recalculate_driver_rating_aggregate after.ratings)
    × (after.aggregate.ratings_count ≡ length after.ratings)
    × IsAverage after.aggregate.average_rating
run_calls-rated_example = run_calls-rated env calls rows rows-IsRated
