-- ===== src/Payouts/Requests.antt =====
-- Who asks for a payout: the driver, an administrator, the delivery and the sweep of
-- src/payments/payments.service.ts, and the worker of src/payments/driver-payout-queue.service.ts.
use transpo24_backend_nest_j.Base.{
  ℕ, ◌+◌, ◌*◌, ◌==◌, leb, Bool, true, false, not, ◌&&◌, ◌||◌, Option, none, some, is_some, get_or,
  List, [], ◌∷◌, if◌then◌else◌,
}
use transpo24_backend_nest_j.Domain.{is_cancelled}
use transpo24_backend_nest_j.Payments.State.{
  DriverPayoutState, EarningStatus, Request, Settlement, Earning, PayoutRow, DriverAccount,
}
use transpo24_backend_nest_j.Payments.Stripe.{
  M, StripeApi, queue_unavailable, profile_not_found, earning_not_found, not_your_earning, pure,
  throw, throw_if, gets, match_option, ◌>>=◌, ◌>>◌,
}
use transpo24_backend_nest_j.Payouts.State.{TripIds, is_paid_out, is_pending, JobReason, PayoutApi}
use transpo24_backend_nest_j.Payouts.Queue.{enqueue_driver_payout}
use transpo24_backend_nest_j.Payouts.Updates.{RequestedBy, PayoutResult}
use transpo24_backend_nest_j.Payouts.Attempt.{attempt_driver_payout}

-- `STALE_PAYOUT_TRANSFER_MINUTES`, in milliseconds.
abbrev pub stale_transfer : ℕ
stale_transfer = 15 * 60 * 1000

abbrev pub has_come : ℕ → Option ℕ → Bool
has_come now none = false
has_come now (some at) = leb at now

abbrev is_available : EarningStatus → Bool
is_available EarningStatus.available = true
is_available _ = false

abbrev is_earning_created : DriverPayoutState → Bool
is_earning_created DriverPayoutState.earning_created = true
is_earning_created _ = false

-- The rows of one trip, as the sweep selects them.
pub record SweepRow : Type 0 where
  pub trip_id : ℕ
  pub request : Request
  pub settlement : Settlement
  pub earning : Option Earning
  pub row : PayoutRow

abbrev is_payable_earning : ℕ → Option Earning → PayoutRow → Bool
is_payable_earning now none row = false
is_payable_earning now (some e) row =
    has_come now e.available_at
    && not (is_some row.stripe_transfer_id)
    && (is_pending e.status || is_available e.status)

abbrev is_due : ℕ → DriverPayoutState → SweepRow → Bool
is_due now DriverPayoutState.earning_created s = is_payable_earning now s.earning s.row
is_due now DriverPayoutState.transfer_failed s = has_come now s.settlement.next_payout_retry_at
is_due now DriverPayoutState.pending_transfer s = elim s.row.last_payout_attempt_at [
  | none ↦ false
  | some at ↦ leb (at + stale_transfer) now
]
is_due now _ s = false

-- The `where` of `sweepQueuedDriverPayouts`.
unfoldable pub is_candidate : ℕ → SweepRow → Bool
is_candidate now s =
    (is_cancelled s.request.status || is_some s.request.delivery_confirmed_by_customer_at)
    && is_due now s.settlement.driver_payout_state s

abbrev sweep_run_at : ℕ → SweepRow → ℕ
sweep_run_at now s =
    if is_earning_created s.settlement.driver_payout_state
    then elim s.earning [ none ↦ now | some e ↦ get_or e.available_at now ]
    else now

module _ {W : Type 0} (api : PayoutApi W) where
  unfoldable pub sweep_driver_payouts : ℕ → List SweepRow → M W (Unit {0})
  sweep_driver_payouts now [] = pure tt
  sweep_driver_payouts now (s ∷ rows) =
      let rest = sweep_driver_payouts now rows in
      if is_candidate now s
      then (do
        enqueue_driver_payout api now s.trip_id JobReason.sweep (some (sweep_run_at now s)) true
        rest)
      else rest

  -- A queue that takes nothing is an error of the request.
  unfoldable pub enqueue_or_throw : ℕ → ℕ → JobReason → ℕ → M W Bool
  enqueue_or_throw now trip_id reason run_at = do
    enqueued ← enqueue_driver_payout api now trip_id reason (some run_at) true
    throw_if (not enqueued) queue_unavailable
    pure true

  unfoldable pub queue_driver_payout_for_trip : ℕ → TripIds → M W Bool
  unfolding enqueue_or_throw
  queue_driver_payout_for_trip now ids = do
    found ← gets (λ db. db.earning)
    row ← gets (λ db. db.payout)
    match_option found (pure false) (λ e.
        if is_paid_out e.status || is_some row.stripe_transfer_id
        then pure false
        else enqueue_or_throw now ids.trip_id JobReason.delivery (get_or e.available_at now))

  unfoldable pub queue_admin_driver_payout_retry : ℕ → TripIds → M W Bool
  unfolding enqueue_or_throw
  queue_admin_driver_payout_retry now ids =
      enqueue_or_throw now ids.trip_id JobReason.admin_manual_retry now

  unfoldable pub process_queued_job : StripeApi W → TripIds → ℕ → ℕ → M W (Unit {0})
  process_queued_job stripe ids now later = do
    attempt_driver_payout api ids stripe now later RequestedBy.automatic_retry
    pure tt

  -- The profile of the driver who asks, if he has one.
  unfoldable pub retry_transfer_for_trip :
      StripeApi W → TripIds → ℕ → ℕ → Option DriverAccount → M W PayoutResult
  retry_transfer_for_trip stripe ids now later profile =
      match_option profile (throw profile_not_found) (λ driver. do
        found ← gets (λ db. db.earning)
        match_option found (throw earning_not_found) (λ e.
            if e.driver_id == driver.id
            then attempt_driver_payout api ids stripe now later RequestedBy.driver_manual_retry
            else throw not_your_earning))
