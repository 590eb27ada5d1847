-- ===== src/Policy/Schedule.antt =====
-- The window for pickup and delivery: `assertScheduleWindow` of
-- src/customer-requests/schedule-window.ts. `Intl.DateTimeFormat` is a parameter: from a time zone,
-- if it is known, to the day of a time, as a multiple of `day_ms`.
pub mod Window
use transpo24_backend_nest_j.Base.{
  ℕ, ◌+◌, ◌*◌, ltb, leb, Bool, true, false, not, ◌&&◌, ◌||◌, Option, none, some, is_some,
  if◌then◌else◌, Result, ok, err, ◌>>=◌, ◌>>◌, throw_if,
}
use transpo24_backend_nest_j.Policy.Booking.{day_ms}

pub data ScheduleError : Type 0 where
  invalid_timezone select_pickup select_delivery pickup_in_past : ScheduleError
  pickup_too_late furniture_window delivery_window delivery_before_pickup : ScheduleError

-- A `Date`, whose time may be NaN.
pub data Date : Type 0 where
  at : ℕ → Date
  invalid : Date

pub record ScheduleInput : Type 0 where
  pub immediate : Bool
  pub pickup : Option Date
  pub delivery : Option Date
  pub furniture : Bool
  pub require_dates : Bool
  pub bicycle : Bool
  pub now : ℕ
  pub time_zone : ℕ

-- A test of a date's time, false of an invalid one, as a comparison with NaN is.
abbrev pub when_valid : (ℕ → Bool) → Date → Bool
when_valid test (at t) = test t
when_valid test invalid = false

-- `effectivePickup`
abbrev pub effective_pickup : ScheduleInput → Option Date
effective_pickup i = if i.immediate then some (at i.now) else i.pickup

abbrev pickup_past : ScheduleInput → Option Date → Bool
pickup_past i none = false
pickup_past i (some invalid) = true
pickup_past i (some (at t)) = not i.immediate && ltb t i.now

module _ (day : ℕ → ℕ) where
  -- `today + 6 * 86400000`
  abbrev pub window_end : ℕ → ℕ
  window_end now = day now + 6 * day_ms

  abbrev pickup_late : ScheduleInput → Option Date → Bool
  pickup_late i none = false
  pickup_late i (some p) = not i.furniture && when_valid (λ t. leb (window_end i.now) (day t)) p

  -- `furniture && delivery`: the delivery within five days of the pickup's day.
  abbrev check_furniture : Option Date → Date → Result ScheduleError (Unit {0})
  check_furniture (some (at p)) (at d) =
      throw_if (ltb (day d) (day p) || ltb (day p + 5 * day_ms) (day d)) furniture_window
  check_furniture _ _ = err furniture_window

  abbrev after_pickup : Option Date → ℕ → Result ScheduleError (Unit {0})
  after_pickup (some (at p)) d = throw_if (leb (day d) (day p)) delivery_before_pickup
  after_pickup _ d = err delivery_before_pickup

  abbrev check_delivery : ScheduleInput → Option Date → Date → Result ScheduleError (Unit {0})
  check_delivery i p invalid = err delivery_window
  check_delivery i p (at d) = do
    throw_if (ltb (day d) (day i.now) || leb (window_end i.now) (day d)) delivery_window
    after_pickup p d

  abbrev check_dates : ScheduleInput → Option Date → Option Date → Result ScheduleError (Unit {0})
  check_dates i p none = ok tt
  check_dates i p (some d) = if i.furniture then check_furniture p d else check_delivery i p d

  unfoldable pub check_window : ScheduleInput → Result ScheduleError (Unit {0})
  check_window i =
      let p = effective_pickup i in
      do
        throw_if (i.require_dates && not (is_some p)) select_pickup
        throw_if (i.require_dates && not (is_some i.delivery) && not (i.bicycle && i.immediate))
            select_delivery
        throw_if (pickup_past i p) pickup_in_past
        throw_if (pickup_late i p) pickup_too_late
        check_dates i p i.delivery

module _ (formatter : ℕ → Option (ℕ → ℕ)) where
  abbrev with_formatter : Option (ℕ → ℕ) → ScheduleInput → Result ScheduleError (Unit {0})
  with_formatter none i = err invalid_timezone
  with_formatter (some day) i = check_window day i

  unfoldable pub assert_schedule_window : ScheduleInput → Result ScheduleError (Unit {0})
  unfolding check_window
  assert_schedule_window i = with_formatter (formatter i.time_zone) i
