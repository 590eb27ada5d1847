-- ===== src/Matching/Capacity/Fits.antt =====
-- What the load test of src/driver/vehicle-load-capacity.util.ts promises.
use transpo24_backend_nest_j.Base.{ℕ, ◌≤◌, ◌≡◌, true, false, Option, some, arith}
use transpo24_backend_nest_j.Matching.Capacity.{
  VehicleCapacity, RequestLoad, is_car_carrier_vehicle_type, can_vehicle_support_request_load,
}

-- A measure that is given on both sides fits.
abbrev pub Fits : Option ℕ → Option ℕ → Type 0
Fits (some has) (some needs) = needs ≤ has
Fits _ _ = Unit {0}

-- A vehicle that is no car carrier and supports a load fits it in weight and in each dimension that
-- both sides give.
pub supported-Fits :
    (v : VehicleCapacity) (r : RequestLoad)
    → is_car_carrier_vehicle_type v.vehicle_type ≡ false
    → can_vehicle_support_request_load v r ≡ true
    → Fits v.capacity_kg r.weight_kg
      × Fits v.length_cm r.length_cm
      × Fits v.width_cm r.width_cm
      × Fits v.height_cm r.height_cm
unfolding can_vehicle_support_request_load
supported-Fits v r e h = (ground arith, ground arith, ground arith, ground arith)
