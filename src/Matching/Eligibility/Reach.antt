-- ===== src/Matching/Eligibility/Reach.antt =====
-- What eligibility of src/driver/request-eligibility.ts promises, and that it agrees with the guard of
-- an offer.
use transpo24_backend_nest_j.Base.{ℕ, ◌+◌, ◌≤◌, ◌≡◌, Bool, true, Option, none, some, List, arith}
use transpo24_backend_nest_j.Domain.{approved}
use transpo24_backend_nest_j.Matching.Eligibility.{
  MatchingAvailability, MatchingRequest, MatchingVehicle, Coordinate, LocalTime, awaits_quotes,
}
use transpo24_backend_nest_j.Matching.Eligibility.Reasons.{
  immediate_reference, request_ineligibility_reason, offer_ineligibility_reason,
  is_eligible_request,
}

module _ (degree km : ℕ) (distance : Coordinate → Coordinate → ℕ)
    (local_time : ℕ → Coordinate → Option LocalTime) (booking_day : Option ℕ → ℕ → ℕ) where
  -- A driver who is notified of a request, with the radius enforced and online or not, may make an
  -- offer for it.
  pub is_eligible_request-offer :
      (request : MatchingRequest) (availability : Option MatchingAvailability)
      (vehicles : List MatchingVehicle) (now : ℕ) (require_online : Bool)
      → is_eligible_request degree km distance local_time booking_day request availability vehicles
          now require_online none true
        ≡ true
      → offer_ineligibility_reason degree km distance local_time booking_day request availability
          vehicles now
        ≡ none
  unfolding is_eligible_request offer_ineligibility_reason request_ineligibility_reason
  is_eligible_request-offer request none vehicles now require_online h = ground arith
  is_eligible_request-offer request (some a) vehicles now require_online h = ground arith

  -- An eligible request without a route still waits for quotes and has no driver and no accepted
  -- offer, the driver is approved with a completed profile, and his location was sent at most two
  -- minutes ago and not in the future.
  pub is_eligible_request_sound :
      (request : MatchingRequest) (a : MatchingAvailability) (vehicles : List MatchingVehicle)
      (now : ℕ) (require_online enforce_radius : Bool)
      → is_eligible_request degree km distance local_time booking_day request
          (some a)
          vehicles
          now
          require_online
          none
          enforce_radius
        ≡ true
      → (awaits_quotes request.status ≡ true)
        × (request.assigned_driver_id ≡ none)
        × (request.accepted_offer_id ≡ none)
        × (a.driver_status ≡ approved)
        × (a.is_profile_completed ≡ true)
        × ((at : ℕ) × (a.live_location_at ≡ some at) × (at ≤ now) × (now ≤ at + 120000))
  unfolding is_eligible_request request_ineligibility_reason immediate_reference
  is_eligible_request_sound request a vehicles now require_online enforce_radius h = ground arith
