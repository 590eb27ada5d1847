-- ===== src/Matching/Tests.antt =====
-- Vehicles and requests that match, on concrete values.
use transpo24_backend_nest_j.Base.{
  ℕ, ◌+◌, ◌≤◌, ◌≡◌, refl, true, false, Option, none, some, List, [], ◌∷◌,
}
use transpo24_backend_nest_j.Base.Int.{pos}
use transpo24_backend_nest_j.Matching.Schedule.{Json, JsonItems, JsonFields, same_text, in_ranges}
use transpo24_backend_nest_j.Domain.{approved}
use transpo24_backend_nest_j.Matching.Eligibility.{
  DaySchedule, MatchingAvailability, MatchingRequest, MatchingVehicle, Coordinate, LocalTime,
  awaits_quotes, has_compatible_vehicle, driver_hours_admit,
}
use transpo24_backend_nest_j.Matching.Eligibility.Reasons.{
  is_eligible_request, offer_ineligibility_reason,
}
use transpo24_backend_nest_j.Matching.Eligibility.Reach.{
  is_eligible_request-offer, is_eligible_request_sound,
}
use transpo24_backend_nest_j.Domain.{furniture_transport, pending_quotes}
use transpo24_backend_nest_j.Matching.Capacity.{
  VehicleType, CargoType, VehicleCapacity, RequestLoad, can_vehicle_support_request_load,
  get_cargo_types_for_request, is_car_carrier_vehicle_type,
}
use transpo24_backend_nest_j.Matching.Capacity.Fits.{Fits, supported-Fits}

abbrev van : VehicleCapacity
van = record {
  vehicle_type = VehicleType.van;
  capacity_kg = some 900;
  length_cm = some 300;
  width_cm = none;
  height_cm = some 180;
  allowed_cargo_types = CargoType.furniture ∷ [];
}

abbrev sofa : RequestLoad
sofa = record {
  service_key = furniture_transport;
  weight_kg = some 80;
  length_cm = some 220;
  width_cm = some 95;
  height_cm = none;
}

van_supports_sofa : can_vehicle_support_request_load van sofa ≡ true
unfolding can_vehicle_support_request_load get_cargo_types_for_request
van_supports_sofa = refl

supported-Fits_example :
    Fits (some 900) (some 80)
    × Fits (some 300) (some 220)
    × Fits none (some 95)
    × Fits (some 180) none
unfolding is_car_carrier_vehicle_type
supported-Fits_example = supported-Fits van sofa refl van_supports_sofa

abbrev monday : DaySchedule
monday = record {
  day_of_week = "MONDAY";
  is_available = true;
  start_time = some "08:00";
  end_time = some "18:00";
}

-- A driver on line, whose location is a minute old at the time 100000.
abbrev driver : MatchingAvailability
driver = record {
  is_online = true;
  service_radius_km = 10;
  live_latitude = some (pos 52);
  live_longitude = some (pos 13);
  live_location_at = some 40000;
  accepts_immediate_requests = true;
  accepts_scheduled_requests = false;
  schedule = monday ∷ [];
  driver_status = approved;
  is_profile_completed = true;
}

abbrev move_sofa : MatchingRequest
move_sofa = record {
  status = pending_quotes;
  schedule_time_zone = none;
  assigned_driver_id = none;
  accepted_offer_id = none;
  is_immediate = true;
  scheduled_pickup_at = none;
  pickup_latitude = some (pos 52);
  pickup_longitude = some (pos 14);
  service = some furniture_transport;
  item_weight_kg = some 80;
  item_length_cm = some 220;
  item_width_cm = none;
  item_height_cm = none;
}

-- The van works on Mondays until noon.
abbrev until_noon : Json
until_noon = Json.array (
    JsonItems.cons
      (Json.object (
        JsonFields.field "dayOfWeek" (Json.string "MONDAY") (
          JsonFields.field "isAvailable" (Json.bool true) (
            JsonFields.field "timeRanges"
              (Json.array (
                JsonItems.cons
                  (Json.object (
                    JsonFields.field "startTime" (Json.string "06:00")
                      (JsonFields.field "endTime" (Json.string "12:00") JsonFields.end)))
                  JsonItems.nil))
              JsonFields.end))))
      JsonItems.nil)

abbrev vehicles : List MatchingVehicle
vehicles = record { capacity = van; working_schedule = until_noon } ∷ []

abbrev distance : Coordinate → Coordinate → ℕ
distance a b = 7000

abbrev local_time : ℕ → Coordinate → Option LocalTime
local_time t c = some (record { day = "MONDAY"; time = "10:30" })

abbrev booking_day : Option ℕ → ℕ → ℕ
booking_day named t = t

sofa_eligible :
    is_eligible_request 1 1000 distance local_time booking_day move_sofa
      (some driver)
      vehicles
      100000
      true
      none
      true
    ≡ true
unfolding is_eligible_request has_compatible_vehicle driver_hours_admit same_text
    get_cargo_types_for_request in_ranges can_vehicle_support_request_load
sofa_eligible = refl

is_eligible_request-offer_example :
    offer_ineligibility_reason 1 1000 distance local_time booking_day move_sofa
      (some driver)
      vehicles
      100000
    ≡ none
is_eligible_request-offer_example =
    is_eligible_request-offer 1 1000 distance local_time booking_day move_sofa (some driver)
      vehicles 100000 true sofa_eligible

is_eligible_request_sound_example :
    (awaits_quotes move_sofa.status ≡ true)
    × (move_sofa.assigned_driver_id ≡ none)
    × (move_sofa.accepted_offer_id ≡ none)
    × (driver.driver_status ≡ approved)
    × (driver.is_profile_completed ≡ true)
    × ((at : ℕ) × (driver.live_location_at ≡ some at) × (at ≤ 100000) × (100000 ≤ at + 120000))
is_eligible_request_sound_example =
    is_eligible_request_sound 1 1000 distance local_time booking_day move_sofa driver vehicles
      100000 true true sofa_eligible
