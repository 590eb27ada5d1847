-- ===== src/Policy/Booking/Fees.antt =====
-- The tiers of the cancellation fee, and the two clocks of src/payments/booking-policy.ts and
-- src/payments/payment-policy.ts compared.
use transpo24_backend_nest_j.Base.{
  ℕ, ◌+◌, ◌≤◌, ◌≡◌, refl, Bool, true, false, Option, none, some, leb, ltb, if◌then◌else◌, arith,
}
use transpo24_backend_nest_j.Policy.Booking.{held_cancellation_rate}

-- For a held booking with an assigned driver the fee is free strictly before ten minutes after the
-- countdown began, 15 percent from exactly ten minutes up to and including one day, and 50 percent
-- after that.
held_cancellation_rate_tiers :
    (authorized started now : ℕ)
    → held_cancellation_rate (some authorized) (some started) true now ≡ (
        if ltb now (started + 600000) then 0 else (if leb now (started + 86400000) then 15 else 50))
unfolding held_cancellation_rate
held_cancellation_rate_tiers authorized started now = ground arith

-- Waiting never lowers the cancellation fee, whatever the hold and the assignment.
held_cancellation_rate_mono :
    (authorized started : Option ℕ) (assigned : Bool) (now later : ℕ)
    → now ≤ later
    → held_cancellation_rate authorized started assigned now
      ≤ held_cancellation_rate authorized started assigned later
unfolding held_cancellation_rate
held_cancellation_rate_mono authorized none assigned now later h = omega arith
held_cancellation_rate_mono none (some s) assigned now later h = ground arith
held_cancellation_rate_mono (some a) (some s) false now later h = ground arith
held_cancellation_rate_mono (some a) (some s) true now later h = ground arith

pub held_cancellation_rate-le :
    (authorized started : Option ℕ) (assigned : Bool) (now : ℕ)
    → held_cancellation_rate authorized started assigned now ≤ 50
unfolding held_cancellation_rate
held_cancellation_rate-le authorized none assigned now = omega arith
held_cancellation_rate-le none (some s) assigned now = ground arith
held_cancellation_rate-le (some a) (some s) false now = ground arith
held_cancellation_rate-le (some a) (some s) true now = ground arith

pub held_cancellation_rate-unassigned :
    (authorized started : Option ℕ) (now : ℕ)
    → held_cancellation_rate authorized started false now ≡ 0
unfolding held_cancellation_rate
held_cancellation_rate-unassigned authorized none now = ground arith
held_cancellation_rate-unassigned authorized (some s) now = ground arith

pub held_cancellation_rate-unheld :
    (started : Option ℕ) (assigned : Bool) (now : ℕ)
    → held_cancellation_rate none started assigned now ≡ 0
unfolding held_cancellation_rate
held_cancellation_rate-unheld none assigned now = refl
held_cancellation_rate-unheld (some s) assigned now = ground arith
