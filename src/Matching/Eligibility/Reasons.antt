-- ===== src/Matching/Eligibility/Reasons.antt =====
-- Why a driver may not see a request, or not make an offer for it: `requestIneligibilityReason` and
-- `offerIneligibilityReason` of src/driver/request-eligibility.ts. The number of units to a degree
-- and to a kilometre, the distance of two coordinates, the local time at a coordinate (`geo-tz` and
-- `Intl`) and the day of a time in a zone are parameters.
use transpo24_backend_nest_j.Base.{
  ℕ, ◌+◌, ◌*◌, ltb, leb, Bool, true, false, not, ◌&&◌, ◌||◌, Option, none, some, List, is_some,
  get_or, if◌then◌else◌,
}
use transpo24_backend_nest_j.Base.Int.{ℤ, pos, negsuc}
use transpo24_backend_nest_j.Policy.Reservation.{should_defer_transport_payment}
use transpo24_backend_nest_j.Domain.{is_approved}
use transpo24_backend_nest_j.Matching.Eligibility.{
  live_location_max_age_ms, MatchingAvailability, MatchingRequest, MatchingVehicle, Coordinate,
  LocalTime, RouteCoverage, IneligibilityReason, availability_required, driver_unavailable,
  request_closed, immediate_disabled, scheduled_disabled, pickup_time_passed, location_unavailable,
  outside_radius, outside_working_hours, no_compatible_vehicle, awaits_quotes, driver_hours_admit,
  has_compatible_vehicle,
}

-- `Math.abs(x) <= bound`
abbrev abs_leb : ℤ → ℕ → Bool
abs_leb (pos n) bound = leb n bound
abs_leb (negsuc n) bound = leb (n + 1) bound

-- `age >= 0 && age <= LIVE_LOCATION_MAX_AGE_MS`; a location that was never sent is infinitely old.
abbrev pub is_fresh : ℕ → Option ℕ → Bool
is_fresh now none = false
is_fresh now (some at) = leb at now && leb now (at + live_location_max_age_ms)

abbrev pub pickup_passed : ℕ → MatchingRequest → Bool
pickup_passed now request =
    not request.is_immediate
    && elim request.scheduled_pickup_at [ none ↦ true | some at ↦ ltb at now ]

abbrev pub accepts : MatchingRequest → MatchingAvailability → Bool
accepts request a =
    if request.is_immediate then a.accepts_immediate_requests else a.accepts_scheduled_requests

abbrev pub disabled_reason : MatchingRequest → IneligibilityReason
disabled_reason request = if request.is_immediate then immediate_disabled else scheduled_disabled

abbrev pub is_closed : MatchingRequest → Bool
is_closed request =
    not (awaits_quotes request.status)
    || is_some request.assigned_driver_id
    || is_some request.accepted_offer_id

-- The time whose working hours count: after the guards, a scheduled request has one.
abbrev pub matched_time : ℕ → MatchingRequest → ℕ
matched_time now request =
    if request.is_immediate then now else get_or request.scheduled_pickup_at now

module _ (degree : ℕ) where
  unfoldable pub valid_coordinate : Option ℤ → Option ℤ → Bool
  valid_coordinate (some latitude) (some longitude) =
      abs_leb latitude (90 * degree) && abs_leb longitude (180 * degree)
  valid_coordinate none longitude = false
  valid_coordinate (some latitude) none = false

  abbrev pub coordinate_of : Option ℤ → Option ℤ → Option Coordinate
  coordinate_of (some la) (some lo) =
      if valid_coordinate (some la) (some lo)
      then some (record { latitude = la; longitude = lo })
      else none
  coordinate_of none lo = none
  coordinate_of (some la) none = none

  unfoldable pub immediate_reference : ℕ → MatchingAvailability → Option Coordinate
  unfolding valid_coordinate
  immediate_reference now a =
      if is_fresh now a.live_location_at
      then coordinate_of a.live_latitude a.live_longitude
      else none

  module _ (km : ℕ) (distance : Coordinate → Coordinate → ℕ) where
    abbrev pub reach_between : ℕ → Option Coordinate → Option Coordinate → Option RouteCoverage
    reach_between radius (some origin) (some target) =
        some (record { distance = distance origin target; radius_km = radius; origin = origin })
    reach_between radius none target = none
    reach_between radius (some origin) none = none

    -- The driver's distance with the radius and the origin that count: those of the route, where
    -- one is given, or those of the live location (`coverageDistance`).
    unfoldable pub reach_of :
        Option RouteCoverage → ℕ → MatchingRequest → MatchingAvailability → Option RouteCoverage
    unfolding immediate_reference
    reach_of (some route) now request a = some route
    reach_of none now request a =
        reach_between a.service_radius_km (immediate_reference now a)
          (coordinate_of request.pickup_latitude request.pickup_longitude)

    unfoldable pub is_outside : RouteCoverage → Bool
    is_outside reach =
        ltb reach.radius_km 1
        || ltb 500 reach.radius_km
        || ltb (reach.radius_km * km) reach.distance

    module _ (local_time : ℕ → Coordinate → Option LocalTime) (booking_day : Option ℕ → ℕ → ℕ) where
      abbrev pub unavailable : ℕ → Bool → MatchingRequest → MatchingAvailability → Bool
      unavailable now require_online request a =
          (require_online
            && not a.is_online
            && not (
                should_defer_transport_payment booking_day request.service
                  request.scheduled_pickup_at request.schedule_time_zone now))
          || not (is_approved a.driver_status)
          || not a.is_profile_completed

      abbrev pub local_reason :
          MatchingRequest
          → List MatchingVehicle
          → MatchingAvailability
          → Option LocalTime
          → Option IneligibilityReason
      local_reason request vehicles a none = some location_unavailable
      local_reason request vehicles a (some local) =
          if not (driver_hours_admit local a.schedule)
          then some outside_working_hours
          else (if has_compatible_vehicle request vehicles local
              then none
              else some no_compatible_vehicle)

      abbrev pub reach_reason :
          ℕ
          → Bool
          → MatchingRequest
          → List MatchingVehicle
          → MatchingAvailability
          → Option RouteCoverage
          → Option IneligibilityReason
      reach_reason now enforce_radius request vehicles a none = some location_unavailable
      reach_reason now enforce_radius request vehicles a (some reach) =
          if enforce_radius && is_outside reach
          then some outside_radius
          else local_reason request vehicles a (local_time (matched_time now request) reach.origin)

      unfoldable pub request_ineligibility_reason :
          MatchingRequest
          → Option MatchingAvailability
          → List MatchingVehicle
          → ℕ
          → Bool
          → Option RouteCoverage
          → Bool
          → Option IneligibilityReason
      unfolding reach_of is_outside
      request_ineligibility_reason request none vehicles now require_online route enforce_radius =
          some availability_required
      request_ineligibility_reason request (some a) vehicles now require_online route
            enforce_radius =
          if unavailable now require_online request a
          then some driver_unavailable
          else (if is_closed request
              then some request_closed
              else (if not (accepts request a)
                  then some (disabled_reason request)
                  else (if pickup_passed now request
                      then some pickup_time_passed
                      else reach_reason now enforce_radius request vehicles a
                          (reach_of route now request a))))

      -- The radius limits notifications, not the offers that a driver makes.
      unfoldable pub offer_ineligibility_reason :
          MatchingRequest
          → Option MatchingAvailability
          → List MatchingVehicle
          → ℕ
          → Option IneligibilityReason
      unfolding request_ineligibility_reason
      offer_ineligibility_reason request availability vehicles now =
          request_ineligibility_reason request availability vehicles now false none false

      unfoldable pub is_eligible_request :
          MatchingRequest
          → Option MatchingAvailability
          → List MatchingVehicle
          → ℕ
          → Bool
          → Option RouteCoverage
          → Bool
          → Bool
      unfolding request_ineligibility_reason
      is_eligible_request request availability vehicles now require_online route enforce_radius =
          not (
            is_some (
              request_ineligibility_reason request availability vehicles now require_online route
                enforce_radius))
