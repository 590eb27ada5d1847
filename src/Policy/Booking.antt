-- ===== src/Policy/Booking.antt =====
-- Cancellation fees and what a driver may see: src/payments/booking-policy.ts, and
-- `heldCancellationRate` of src/payments/payment-policy.ts. A time is a number of milliseconds
-- since 1970, a rate a number of percent (0.15 is 15).
pub mod Fees
use transpo24_backend_nest_j.Base.{
  ℕ, ◌+◌, ◌*◌, Bool, true, false, not, ◌&&◌, ◌||◌, Option, none, some, leb, ltb, if◌then◌else◌,
  is_some, max,
}
use transpo24_backend_nest_j.Domain.{RequestStatus, is_cancelled}
use transpo24_backend_nest_j.Domain

abbrev pub free_cancellation_ms : ℕ
free_cancellation_ms = 10 * 60 * 1000

abbrev pub day_ms : ℕ
day_ms = 24 * 60 * 60 * 1000

abbrev pub after_grace_fee_rate : ℕ
after_grace_fee_rate = 15

abbrev pub after_day_fee_rate : ℕ
after_day_fee_rate = 50

-- `now - paidAt <= w` is written `now <= paidAt + w`, which holds before `paidAt` too.
unfoldable pub cancellation_fee_rate : Option ℕ → ℕ → ℕ
cancellation_fee_rate none now = 0
cancellation_fee_rate (some paid_at) now =
    if leb now (paid_at + free_cancellation_ms)
    then 0
    else (if leb now (paid_at + day_ms) then after_grace_fee_rate else after_day_fee_rate)

-- The two dates of the hold that the rate reads, then whether a driver is assigned.
unfoldable pub held_cancellation_rate : Option ℕ → Option ℕ → Bool → ℕ → ℕ
unfolding cancellation_fee_rate
held_cancellation_rate authorized_at none assigned now = 0
held_cancellation_rate authorized_at (some started) assigned now =
    if not assigned || not (is_some authorized_at)
    then 0
    else (if ltb now (started + free_cancellation_ms)
        then 0
        else cancellation_fee_rate (some started) (max now (started + free_cancellation_ms + 1)))

abbrev paid_long_ago : Option ℕ → ℕ → Bool
paid_long_ago none now = false
paid_long_ago (some paid_at) now = ltb (paid_at + free_cancellation_ms) now

unfoldable pub driver_details_available : Option ℕ → RequestStatus → ℕ → Option ℕ → Bool
driver_details_available paid_at status now authorized_at =
    not (is_cancelled status) && (is_some authorized_at || paid_long_ago paid_at now)

-- The statuses that `driverTrackingAvailable` lists.
abbrev pub is_tracked : RequestStatus → Bool
is_tracked Domain.reserved = false
is_tracked Domain.draft = false
is_tracked Domain.pending_quotes = false
is_tracked Domain.quoted = false
is_tracked Domain.cancelled = false
is_tracked _ = true

unfoldable pub driver_tracking_available : Option ℕ → RequestStatus → Bool
driver_tracking_available paid_at status = is_some paid_at && is_tracked status
