-- ===== src/Payments/Cancellation.antt =====
-- What `cancel` and `captureDelivery` of src/payments/delayed-booking-payments.service.ts refuse,
-- and what they charge.
pub mod Wallet
pub mod Direct
use transpo24_backend_nest_j.Base.{
  ℕ, ◌+◌, ◌*◌, ◌≤◌, ◌≡◌, ◌⊎◌, not, ◌||◌, Bool, true, false, Option, none, some, is_some, ◌==◌, refl,
  ok, err, arith, if◌then◌else◌,
}
use transpo24_backend_nest_j.Domain.{is_delivered}
use transpo24_backend_nest_j.Policy.Booking.{held_cancellation_rate}
use transpo24_backend_nest_j.Policy.Booking.Fees.{
  held_cancellation_rate-le, held_cancellation_rate-unassigned, held_cancellation_rate-unheld,
}
use transpo24_backend_nest_j.Policy.Pricing.{percent_of}
use transpo24_backend_nest_j.Policy.Pricing.Bounds.{percent_of-zero, percent_of_mono}
use transpo24_backend_nest_j.Payments.State.{SettlementStatus, Hold, Request, Settlement, Db}
use transpo24_backend_nest_j.Payments.Stripe.{
  St, StripeApi, manual_review_needed, not_yours, not_delivered, ◌>>=◌, transaction, catch, settle,
}
use transpo24_backend_nest_j.Payments.Rows.{map_row, update_settlements, picked_up}
use transpo24_backend_nest_j.Payments.Commands.{
  Quote, counts_as_assigned, cancellation_fee, flag_settlement, cancel, begin_delivery,
  capture_delivery,
}

-- The settlement that waits for a person.
abbrev pub flagged : Settlement → Settlement
flagged t = record t { requires_manual_review = true; status = SettlementStatus.manual_review }

-- The fee is at most half of the amount, to the cent, and nothing where the cancellation is free of
-- charge, no driver is bound, or the payment was never authorised.
pub cancellation_fee_bounds :
    (now : ℕ) (free : Bool) (hold : Hold) (request : Request)
    → (cancellation_fee now free hold request ≤ percent_of hold.amount 50)
      × (free ≡ true → cancellation_fee now free hold request ≡ 0)
      × (counts_as_assigned request ≡ false → cancellation_fee now free hold request ≡ 0)
      × (hold.authorized_at ≡ none → cancellation_fee now free hold request ≡ 0)
unfolding cancellation_fee
cancellation_fee_bounds now free hold request =
    let rate =
      held_cancellation_rate hold.authorized_at hold.confirmation_started_at
        (counts_as_assigned request) now in
    (
      percent_of_mono hold.amount _ 50 (
          ground (
            arith,
            held_cancellation_rate-le hold.authorized_at hold.confirmation_started_at
                (counts_as_assigned request) now,
          )),
      λ e. rw e (percent_of-zero hold.amount),
      λ e. rw e (
          ground (
            arith,
            held_cancellation_rate-unassigned hold.authorized_at hold.confirmation_started_at now,
            percent_of-zero hold.amount,
          )),
      λ e. ground (
        arith,
        held_cancellation_rate-unheld hold.confirmation_started_at (counts_as_assigned request) now,
        percent_of-zero hold.amount,
      ),
    )
