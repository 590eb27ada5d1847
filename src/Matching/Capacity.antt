-- ===== src/Matching/Capacity.antt =====
-- What a vehicle can carry: src/driver/vehicle-load-capacity.util.ts. Weights and lengths are numbers
-- of one small unit each.
pub mod Fits
use transpo24_backend_nest_j.Base.{
  ℕ, ltb, ◌==◌, Bool, true, false, not, ◌&&◌, ◌||◌, Option, none, some, List, [], ◌∷◌, any,
  if◌then◌else◌,
}
use transpo24_backend_nest_j.Domain.{
  ServiceKey, vehicle_transport, motorcycle_transport, goods_transport, furniture_transport,
}

pub data VehicleType : Type 0 where
  car_carrier flatbed_truck tow_truck van box_truck pickup_truck motorcycle_trailer : VehicleType
  furniture_truck other flatbed_open flatbed_enclosed small_truck medium_truck : VehicleType
  pickup motorcycle : VehicleType

pub data CargoType : Type 0 where
  vehicle motorcycle goods furniture fragile_goods refrigerated_goods : CargoType
  heavy_equipment other : CargoType

-- The position of a cargo type in the enumeration.
abbrev pub cargo_code : CargoType → ℕ
cargo_code CargoType.vehicle = 0
cargo_code CargoType.motorcycle = 1
cargo_code CargoType.goods = 2
cargo_code CargoType.furniture = 3
cargo_code CargoType.fragile_goods = 4
cargo_code CargoType.refrigerated_goods = 5
cargo_code CargoType.heavy_equipment = 6
cargo_code CargoType.other = 7

pub record VehicleCapacity : Type 0 where
  pub vehicle_type : VehicleType
  pub capacity_kg : Option ℕ
  pub length_cm : Option ℕ
  pub width_cm : Option ℕ
  pub height_cm : Option ℕ
  pub allowed_cargo_types : List CargoType

pub record RequestLoad : Type 0 where
  pub service_key : ServiceKey
  pub weight_kg : Option ℕ
  pub length_cm : Option ℕ
  pub width_cm : Option ℕ
  pub height_cm : Option ℕ

unfoldable pub is_car_carrier_vehicle_type : VehicleType → Bool
is_car_carrier_vehicle_type VehicleType.flatbed_open = true
is_car_carrier_vehicle_type VehicleType.flatbed_enclosed = true
is_car_carrier_vehicle_type VehicleType.flatbed_truck = true
is_car_carrier_vehicle_type VehicleType.car_carrier = true
is_car_carrier_vehicle_type _ = false

-- The four services have no case for the item's type: the `default` of the switch is not reached.
unfoldable pub get_cargo_types_for_request : ServiceKey → List CargoType
get_cargo_types_for_request vehicle_transport = CargoType.vehicle ∷ []
get_cargo_types_for_request motorcycle_transport = CargoType.motorcycle ∷ []
get_cargo_types_for_request furniture_transport = CargoType.furniture ∷ CargoType.goods ∷ []
get_cargo_types_for_request goods_transport = CargoType.goods ∷ []

-- `allowed.includes(cargoType)`
abbrev pub includes_cargo : List CargoType → CargoType → Bool
includes_cargo allowed c = any (λ a. cargo_code a == cargo_code c) allowed

abbrev pub is_empty : List CargoType → Bool
is_empty [] = true
is_empty (c ∷ cs) = false

-- Both are given, and the vehicle's is the smaller.
abbrev pub too_small : Option ℕ → Option ℕ → Bool
too_small (some has) (some needs) = ltb has needs
too_small _ _ = false

abbrev pub load_exceeds : VehicleCapacity → RequestLoad → Bool
load_exceeds v r =
    too_small v.capacity_kg r.weight_kg
    || too_small v.length_cm r.length_cm
    || too_small v.width_cm r.width_cm
    || too_small v.height_cm r.height_cm

abbrev pub cargo_allowed : VehicleCapacity → RequestLoad → Bool
cargo_allowed v r =
    is_empty v.allowed_cargo_types
    || any (includes_cargo v.allowed_cargo_types) (get_cargo_types_for_request r.service_key)

unfoldable pub can_vehicle_support_request_load : VehicleCapacity → RequestLoad → Bool
unfolding is_car_carrier_vehicle_type
can_vehicle_support_request_load v r =
    if not (cargo_allowed v r)
    then false
    else (if not (is_car_carrier_vehicle_type v.vehicle_type) then not (load_exceeds v r) else true)
