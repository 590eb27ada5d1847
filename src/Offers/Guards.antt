-- ===== src/Offers/Guards.antt =====
-- The sets of payment statuses of src/customer-requests/customer-requests.service.ts, and the tests
-- of the driver of an offer.
use transpo24_backend_nest_j.Base.{
  ltb, Bool, true, false, not, ◌||◌, Option, is_some, Result, ◌>>=◌, ◌>>◌, throw_if,
}
use transpo24_backend_nest_j.Domain.{DriverStatus, is_approved}
use transpo24_backend_nest_j.Domain
use transpo24_backend_nest_j.Payments.State.{ConfirmationState, PaymentStatus}
use transpo24_backend_nest_j.Reservations.State.{
  ReservationError, driver_ineligible, no_vehicle, driver_not_approved, driver_offline, Driver,
  ReservationHold,
}
use transpo24_backend_nest_j.Reservations.Guards.{or_throw}

-- `SUCCESSFUL_PAYMENT_HOLD_STATUSES`
abbrev pub is_successful : PaymentStatus → Bool
is_successful PaymentStatus.held = true
is_successful PaymentStatus.payment_captured = true
is_successful _ = false

-- `RETRYABLE_PAYMENT_HOLD_STATUSES`
abbrev pub is_retryable : PaymentStatus → Bool
is_retryable PaymentStatus.failed = true
is_retryable PaymentStatus.released = true
is_retryable PaymentStatus.payment_cancelled = true
is_retryable _ = false

-- `ACTIVE_PAYMENT_HOLD_STATUSES`
abbrev pub is_active : PaymentStatus → Bool
is_active PaymentStatus.hold_pending = true
is_active PaymentStatus.held = true
is_active PaymentStatus.capture_pending = true
is_active PaymentStatus.payment_captured = true
is_active _ = false

abbrev pub is_confirmed_or_captured : ConfirmationState → Bool
is_confirmed_or_captured ConfirmationState.confirmed = true
is_confirmed_or_captured ConfirmationState.captured = true
is_confirmed_or_captured _ = false

-- The countdown of the payment has not started, or its funds are secured.
abbrev pub has_secured_funds : ReservationHold → Bool
has_secured_funds hold =
    not (is_some hold.confirmation_started_at) || is_confirmed_or_captured hold.confirmation_state

abbrev is_barred : DriverStatus → Bool
is_barred Domain.suspended = true
is_barred Domain.rejected = true
is_barred _ = false

-- The driver of an offer may carry it now.
unfoldable pub require_offer_driver : Option Driver → Result ReservationError (Unit {0})
require_offer_driver found = do
  driver ← or_throw found driver_ineligible
  throw_if (not driver.is_profile_completed) driver_ineligible
  throw_if (is_barred driver.status) driver_ineligible
  throw_if (not (ltb 0 driver.vehicles)) no_vehicle
  throw_if (not (is_approved driver.status)) driver_not_approved
  throw_if (not driver.is_online) driver_offline
