-- ===== src/Policy/Location.antt =====
-- The age of a driver's GPS measurement: `locationMeasurement` of src/trips/location-ordering.ts.
-- A text that is no date, or is missing, parses to nothing.
use transpo24_backend_nest_j.Base.{
  ℕ, ◌+◌, ltb, ◌||◌, Option, none, some, Result, ok, err, if◌then◌else◌,
}

pub data LocationError : Type 0 where
  measurement_required stale_measurement : LocationError

abbrev pub location_max_age_ms : ℕ
location_max_age_ms = 120000

abbrev pub location_max_future_ms : ℕ
location_max_future_ms = 10000

-- `age > max` and `age < -future`, with `age = now - measured`, are written without a difference.
unfoldable pub location_measurement : Option ℕ → ℕ → Result LocationError ℕ
location_measurement none now = err measurement_required
location_measurement (some measured) now =
    if ltb (measured + location_max_age_ms) now || ltb (now + location_max_future_ms) measured
    then err stale_measurement
    else ok measured
