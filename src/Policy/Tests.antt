-- ===== src/Policy/Tests.antt =====
-- The policies on concrete times and prices.
use transpo24_backend_nest_j.Base.{
  ℕ, ◌+◌, ◌-◌, ◌*◌, ◌/◌, ◌≤◌, ◌<◌, ◌≡◌, ◌↔◌, refl, subst, Bool, true, false, Option, none, some,
  List, [], ◌∷◌, ok, ◌==◌, if◌then◌else◌, arith,
}
use transpo24_backend_nest_j.Base.Int.{pos}
use transpo24_backend_nest_j.Domain.{furniture_transport, accepted}
use transpo24_backend_nest_j.Payments.State.{ConfirmationState, OperationKind}
use transpo24_backend_nest_j.Policy.Booking.{driver_details_available}
use transpo24_backend_nest_j.Policy.Pricing.{
  Decimal, percent_of, to_cents, direct_application_fee, calculate_customer_pricing,
}
use transpo24_backend_nest_j.Policy.Pricing.Bounds.{pricing_split}
use transpo24_backend_nest_j.Policy.Schedule.{Date, ScheduleInput, assert_schedule_window}
use transpo24_backend_nest_j.Policy.Schedule.Window.{scheduled_accepted}
use transpo24_backend_nest_j.Policy.Reservation.{
  should_defer_transport_payment, confirmation_window,
}
use transpo24_backend_nest_j.Policy.Reservation.Deferred.{IsLocalDay, deferred_window_ahead}
use transpo24_backend_nest_j.Policy.Health.{HealthRow, booking_confirmation_health}

details_show : driver_details_available (some 0) accepted 700000 none ≡ true
unfolding driver_details_available
details_show = refl

-- 99.995
abbrev price : Decimal
price = record { coefficient = 99995; scale = 3 }

pricing_split_example :
    let p = calculate_customer_pricing price in
    (p.total_amount ≡ to_cents price + percent_of (to_cents price) 5)
    × (direct_application_fee p.total_amount p.customer_platform_fee_amount
        ≡ percent_of (to_cents price) 5 + percent_of (to_cents price) 15)
    × (p.total_amount - direct_application_fee p.total_amount p.customer_platform_fee_amount
        ≡ to_cents price - percent_of (to_cents price) 15)
pricing_split_example = pricing_split price

-- Days of UTC, for the zone 1.
abbrev utc_day : ℕ → ℕ
utc_day t = t / 86400000 * 86400000

abbrev formatter : ℕ → Option (ℕ → ℕ)
formatter named = if named == 1 then some utc_day else none

abbrev scheduled : Bool → ScheduleInput
scheduled furniture = record {
  immediate = false;
  pickup = some (Date.at 100000000);
  delivery = some (Date.at 200000000);
  furniture = furniture;
  require_dates = true;
  bicycle = false;
  now = 50000000;
  time_zone = 1;
}

utc_day_mono : (day : ℕ → ℕ) (a b : ℕ) → some utc_day ≡ some day → a ≤ b → day a ≤ day b
utc_day_mono day a b e h =
    let same : utc_day ≡ day = cc in subst (λ (f : ℕ → ℕ). f a ≤ f b) same (omega arith)

scheduled_accepted_example : (assert_schedule_window formatter (scheduled false) ≡ ok tt) ↔ (
    (day : ℕ → ℕ) × (formatter 1 ≡ some day)
    × (50000000 ≤ 100000000)
    × (day 100000000 < day 50000000 + 518400000)
    × (day 200000000 < day 50000000 + 518400000)
    × (day 100000000 < day 200000000))
scheduled_accepted_example =
    scheduled_accepted formatter (scheduled false) 100000000 200000000 utc_day_mono refl refl refl
      refl

abbrev booking_day : Option ℕ → ℕ → ℕ
booking_day named = utc_day

utc_day-IsLocalDay : IsLocalDay (booking_day (some 1))
utc_day-IsLocalDay = record { not_ahead = λ t. omega arith; not_behind = λ t. omega arith }

-- A pickup on the seventh day.
deferred :
    should_defer_transport_payment booking_day
      (some furniture_transport)
      (some 600000000)
      (some 1)
      1000
    ≡ true
unfolding should_defer_transport_payment
deferred = refl

deferred_window_ahead_example :
    let w = confirmation_window 600000000 in
    (opens : ℕ) × (w.confirmation_opens_at ≡ pos opens)
    × (w.payment_deadline_at ≡ pos (opens + 86400000))
    × (1000 + 22 * 3600000 < opens)
deferred_window_ahead_example =
    deferred_window_ahead booking_day (some furniture_transport) (some 1) 600000000 1000
      utc_day-IsLocalDay deferred

abbrev health_row : ConfirmationState → Option OperationKind → HealthRow
health_row state kind = record {
  confirmation_state = state;
  authorization_due_at = some 100;
  approval_deadline_at = some 200;
  authorization_expires_at = some 300;
  previous_stripe_payment_intent_id = none;
  operation_kind = kind;
  updated_at = 400;
}

abbrev health_rows : List HealthRow
health_rows =
    health_row ConfirmationState.grace_period none
    ∷ health_row ConfirmationState.confirmed (some OperationKind.delivery)
    ∷ health_row ConfirmationState.cancelling (some OperationKind.cancel)
    ∷ []

health_counted : booking_confirmation_health 70000 health_rows ≡ record {
  overdue_confirmations = 1;
  overdue_approvals = 0;
  unreleased_holds = 1;
  unsettled_captures = 1;
  expired_authorizations = 1;
}
unfolding booking_confirmation_health
health_counted = refl
