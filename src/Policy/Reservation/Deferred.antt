-- ===== src/Policy/Reservation/Deferred.antt =====
-- When a deferred reservation may be confirmed and paid
-- (src/customer-requests/furniture-reservation-policy.ts).
use transpo24_backend_nest_j.Base.{ℕ, ◌+◌, ◌-◌, ◌*◌, ◌≤◌, ◌<◌, ◌≡◌, true, Option, some, arith}
use transpo24_backend_nest_j.Base.Int.{pos}
use transpo24_backend_nest_j.Domain.{ServiceKey}
use transpo24_backend_nest_j.Policy.Reservation.{
  should_defer_transport_payment, confirmation_window,
}

-- Local days: zones run from 12 hours behind UTC to 14 hours ahead of it.
pub record IsLocalDay (day : ℕ → ℕ) : Type 0 where
  pub not_ahead : (t : ℕ) → day t ≤ t + 14 * 3600000
  pub not_behind : (t : ℕ) → t < day t + 36 * 3600000

-- A payment that is deferred leaves time: when a reservation is made, its confirmation opens only
-- more than 22 hours later, and its deadline is a day after that opening.
pub deferred_window_ahead :
    (booking_day : Option ℕ → ℕ → ℕ) (service : Option ServiceKey) (time_zone : Option ℕ)
    (pickup now : ℕ)
    → IsLocalDay (booking_day time_zone)
    → should_defer_transport_payment booking_day service (some pickup) time_zone now ≡ true
    → let w = confirmation_window pickup in
      (opens : ℕ) × (w.confirmation_opens_at ≡ pos opens)
      × (w.payment_deadline_at ≡ pos (opens + 86400000))
      × (now + 22 * 3600000 < opens)
unfolding should_defer_transport_payment confirmation_window
deferred_window_ahead booking_day service time_zone pickup now local h =
    let after = local.not_ahead pickup in
    let before = local.not_behind now in
    (
      pickup - 172800000,
      ground (arith, after, before),
      ground (arith, after, before),
      ground (arith, after, before),
    )
