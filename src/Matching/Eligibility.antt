-- ===== src/Matching/Eligibility.antt =====
-- Whether a driver may see a request, or make an offer for it: src/driver/request-eligibility.ts.
-- The data of a match, and the tests of working hours and vehicles. A coordinate is an integer of a
-- small unit; one that is missing or not finite is `none`, which the code refuses alike.
pub mod Reasons
pub mod Reach
use transpo24_backend_nest_j.Base.{
  ℕ, ◌+◌, ◌-◌, ◌*◌, ◌==◌, ltb, leb, String, Bool, true, false, not, ◌&&◌, ◌||◌, Option, none, some,
  List, [], ◌∷◌, any, find, is_some, if◌then◌else◌,
}
use transpo24_backend_nest_j.Base.Int.{ℤ, pos, negsuc}
use transpo24_backend_nest_j.Domain.{
  DriverStatus, ServiceKey, vehicle_transport, motorcycle_transport, goods_transport,
  furniture_transport, RequestStatus, pending_quotes, quoted,
}
use transpo24_backend_nest_j.Policy.Reservation.{should_defer_transport_payment}
use transpo24_backend_nest_j.Matching.Capacity.{
  VehicleType, VehicleCapacity, RequestLoad, is_empty, can_vehicle_support_request_load,
}
use transpo24_backend_nest_j.Matching.Schedule.{
  Json, JsonItems, TimeRange, WorkingDay, parse_working_schedule, same_text, within, in_ranges,
}

abbrev pub live_location_max_age_ms : ℕ
live_location_max_age_ms = 120000

-- One weekday of the driver's availability.
pub record DaySchedule : Type 0 where
  pub day_of_week : String
  pub is_available : Bool
  pub start_time : Option String
  pub end_time : Option String

pub record MatchingAvailability : Type 0 where
  pub is_online : Bool
  pub service_radius_km : ℕ
  pub live_latitude : Option ℤ
  pub live_longitude : Option ℤ
  pub live_location_at : Option ℕ
  pub accepts_immediate_requests : Bool
  pub accepts_scheduled_requests : Bool
  pub schedule : List DaySchedule
  pub driver_status : DriverStatus
  pub is_profile_completed : Bool

pub record MatchingRequest : Type 0 where
  pub status : RequestStatus
  pub schedule_time_zone : Option ℕ
  pub assigned_driver_id : Option ℕ
  pub accepted_offer_id : Option ℕ
  pub is_immediate : Bool
  pub scheduled_pickup_at : Option ℕ
  pub pickup_latitude : Option ℤ
  pub pickup_longitude : Option ℤ
  pub service : Option ServiceKey
  pub item_weight_kg : Option ℕ
  pub item_length_cm : Option ℕ
  pub item_width_cm : Option ℕ
  pub item_height_cm : Option ℕ

pub record MatchingVehicle : Type 0 where
  pub capacity : VehicleCapacity
  pub working_schedule : Json

pub record Coordinate : Type 0 where
  pub latitude : ℤ
  pub longitude : ℤ

pub record LocalTime : Type 0 where
  pub day : String
  pub time : String

pub record RouteCoverage : Type 0 where
  pub distance : ℕ
  pub radius_km : ℕ
  pub origin : Coordinate

pub data IneligibilityReason : Type 0 where
  availability_required driver_unavailable request_closed immediate_disabled : IneligibilityReason
  scheduled_disabled pickup_time_passed location_unavailable outside_radius : IneligibilityReason
  outside_working_hours no_compatible_vehicle : IneligibilityReason

-- `['PENDING_QUOTES', 'QUOTED'].includes(status)`
abbrev pub awaits_quotes : RequestStatus → Bool
awaits_quotes pending_quotes = true
awaits_quotes quoted = true
awaits_quotes _ = false

-- `SERVICE_VEHICLES[key].includes(type)`
unfoldable pub service_allows : ServiceKey → VehicleType → Bool
service_allows vehicle_transport VehicleType.car_carrier = true
service_allows vehicle_transport VehicleType.flatbed_truck = true
service_allows vehicle_transport VehicleType.tow_truck = true
service_allows vehicle_transport VehicleType.flatbed_open = true
service_allows vehicle_transport VehicleType.flatbed_enclosed = true
service_allows vehicle_transport _ = false
service_allows motorcycle_transport VehicleType.motorcycle_trailer = true
service_allows motorcycle_transport VehicleType.van = true
service_allows motorcycle_transport VehicleType.pickup_truck = true
service_allows motorcycle_transport VehicleType.motorcycle = true
service_allows motorcycle_transport VehicleType.pickup = true
service_allows motorcycle_transport VehicleType.flatbed_truck = true
service_allows motorcycle_transport VehicleType.flatbed_open = true
service_allows motorcycle_transport VehicleType.flatbed_enclosed = true
service_allows motorcycle_transport VehicleType.tow_truck = true
service_allows motorcycle_transport VehicleType.car_carrier = true
service_allows motorcycle_transport _ = false
service_allows goods_transport VehicleType.van = true
service_allows goods_transport VehicleType.box_truck = true
service_allows goods_transport VehicleType.pickup_truck = true
service_allows goods_transport VehicleType.small_truck = true
service_allows goods_transport VehicleType.medium_truck = true
service_allows goods_transport VehicleType.pickup = true
service_allows goods_transport _ = false
service_allows furniture_transport VehicleType.furniture_truck = true
service_allows furniture_transport VehicleType.box_truck = true
service_allows furniture_transport VehicleType.van = true
service_allows furniture_transport VehicleType.small_truck = true
service_allows furniture_transport VehicleType.medium_truck = true
service_allows furniture_transport _ = false

-- `parseWorkingSchedule(…)` admits the time: an empty schedule always does.
abbrev pub on_day : LocalTime → Option WorkingDay → Bool
on_day local none = false
on_day local (some day) = day.is_available && in_ranges local.time day.time_ranges

abbrev pub working_hours_admit : LocalTime → List WorkingDay → Bool
working_hours_admit local [] = true
working_hours_admit local (d ∷ ds) =
    on_day local (find (λ entry. same_text entry.day_of_week local.day) (d ∷ ds))

abbrev pub load_of : ServiceKey → MatchingRequest → RequestLoad
load_of key request = record {
  service_key = key;
  weight_kg = request.item_weight_kg;
  length_cm = request.item_length_cm;
  width_cm = request.item_width_cm;
  height_cm = request.item_height_cm;
}

-- The test of one vehicle in `hasCompatibleVehicle`.
unfoldable pub vehicle_fits : ServiceKey → MatchingRequest → LocalTime → MatchingVehicle → Bool
unfolding parse_working_schedule service_allows
vehicle_fits key request local vehicle =
    not (
      is_empty vehicle.capacity.allowed_cargo_types
      && not (service_allows key vehicle.capacity.vehicle_type))
    && working_hours_admit local (parse_working_schedule vehicle.working_schedule)
    && can_vehicle_support_request_load vehicle.capacity (load_of key request)

abbrev pub fits_some : Option ServiceKey → MatchingRequest → List MatchingVehicle → LocalTime → Bool
fits_some none request vehicles local = false
fits_some (some key) request vehicles local = any (vehicle_fits key request local) vehicles

unfoldable pub has_compatible_vehicle : MatchingRequest → List MatchingVehicle → LocalTime → Bool
unfolding vehicle_fits
has_compatible_vehicle request vehicles local = fits_some request.service request vehicles local

-- The driver's hours on a day; a text that is empty counts as missing.
abbrev in_hours : LocalTime → Bool → Option String → Option String → Bool
in_hours local available (some start) (some finish) =
    available
    && not (same_text start "")
    && not (same_text finish "")
    && within start finish local.time
in_hours local available _ _ = false

abbrev day_admits : LocalTime → Option DaySchedule → Bool
day_admits local none = false
day_admits local (some d) = in_hours local d.is_available d.start_time d.end_time

unfoldable pub driver_hours_admit : LocalTime → List DaySchedule → Bool
unfolding within
driver_hours_admit local schedule =
    day_admits local (find (λ entry. same_text entry.day_of_week local.day) schedule)
