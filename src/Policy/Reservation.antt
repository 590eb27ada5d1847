-- ===== src/Policy/Reservation.antt =====
-- Furniture reservations that are paid later: src/customer-requests/furniture-reservation-policy.ts.
-- The day of a time in the customer's zone is a parameter, as in Policy/Schedule.
pub mod Deferred
use transpo24_backend_nest_j.Base.{
  ℕ, ◌+◌, ◌-◌, ◌*◌, ltb, leb, Bool, true, false, not, ◌&&◌, Option, none, some, is_some,
  if◌then◌else◌,
}
use transpo24_backend_nest_j.Base.Int.{ℤ, pos, sub_ℕ, ltb_ℤ}
use transpo24_backend_nest_j.Domain.{ServiceKey, furniture_transport, RequestStatus, is_reserved}

abbrev pub hour : ℕ
hour = 60 * 60 * 1000

abbrev pub unpaid_reservation_days : ℕ
unpaid_reservation_days = 5

abbrev pub confirmation_hours_before_pickup : ℕ
confirmation_hours_before_pickup = 48

abbrev pub payment_deadline_hours_before_pickup : ℕ
payment_deadline_hours_before_pickup = 24

abbrev pub is_furniture : Option ServiceKey → Bool
is_furniture (some furniture_transport) = true
is_furniture _ = false

-- The formatter of a time zone, `UTC` where the request has none; the service's key may be missing.
module _ (booking_day : Option ℕ → ℕ → ℕ) where
  unfoldable pub should_defer_transport_payment : Option ServiceKey → Option ℕ → Option ℕ → ℕ → Bool
  should_defer_transport_payment service none time_zone now = false
  should_defer_transport_payment service (some pickup) time_zone now =
      is_furniture service
      && ltb (booking_day time_zone now + unpaid_reservation_days * 24 * hour)
          (booking_day time_zone pickup)

pub record ConfirmationWindow : Type 0 where
  pub confirmation_opens_at : ℤ
  pub payment_deadline_at : ℤ

unfoldable pub confirmation_window : ℕ → ConfirmationWindow
confirmation_window pickup = record {
  confirmation_opens_at = sub_ℕ pickup (confirmation_hours_before_pickup * hour);
  payment_deadline_at = sub_ℕ pickup (payment_deadline_hours_before_pickup * hour);
}

-- `DeferredFurniturePaymentState`
pub data DeferredState : Type 0 where
  waiting confirmation_due payment_pending paid expired cancelled : DeferredState

pub record ReservationSummary : Type 0 where
  pub state : DeferredState
  pub confirmation_opens_at : ℤ
  pub payment_deadline_at : ℤ
  pub pickup_confirmed_at : Option ℕ
  pub paid_at : Option ℕ
  pub can_confirm_and_pay : Bool
  pub can_cancel : Bool

-- A date of the past or the present: `now >= at`.
abbrev pub has_come : ℤ → ℕ → Bool
has_come at now = not (ltb_ℤ (pos now) at)

-- What the customer sees of a reservation that has its two dates.
unfoldable pub reservation_summary :
    Option DeferredState
    → Option ℕ
    → Option ℤ
    → Option ℤ
    → Option ℕ
    → Option ℕ
    → RequestStatus
    → ℕ
    → Option ReservationSummary
reservation_summary (some state) started (some opens) (some deadline) pickup_confirmed paid_at
      status now =
    some (record {
      state = state;
      confirmation_opens_at = opens;
      payment_deadline_at = deadline;
      pickup_confirmed_at = pickup_confirmed;
      paid_at = paid_at;
      can_confirm_and_pay =
          is_reserved status
          && not (is_some started)
          && has_come opens now
          && not (has_come deadline now);
      can_cancel = is_reserved status;
    })
reservation_summary none started opens deadline pickup_confirmed paid_at status now = none
reservation_summary (some state) started none deadline pickup_confirmed paid_at status now = none
reservation_summary (some state) started (some opens) none pickup_confirmed paid_at status now =
    none
