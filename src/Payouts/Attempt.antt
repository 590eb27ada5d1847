-- ===== src/Payouts/Attempt.antt =====
-- One attempt to pay a driver: `attemptDriverPayoutForTrip` of src/payments/payments.service.ts, in
-- the order of its early returns. The clock is read once, and again for a capture.
use transpo24_backend_nest_j.Base.{
  ℕ, ◌+◌, ◌==◌, Bool, true, false, not, ◌||◌, Option, none, some, if◌then◌else◌,
}
use transpo24_backend_nest_j.Payments.State.{
  DriverPayoutState, TransferStatus, Reason, no_earning, already_completed, awaiting_confirmation,
  not_yet_available, fee_review, capture_awaited, reference_missing, not_as_agreed, legacy_payment,
  onboarding_incomplete, nothing_to_transfer,
}
use transpo24_backend_nest_j.Payments.Stripe.{
  M, StripeApi, Error, pure, throw, gets, call, catch, match_option, ◌>>=◌, ◌>>◌,
}
use transpo24_backend_nest_j.Payments.Commands.{capture_delivery}
use transpo24_backend_nest_j.Payouts.State.{
  TripIds, PayoutContext, payout_context, is_authorized, is_collected, is_transferred, is_confirmed,
  has_payable_settlement, is_available, JobReason, Transfer, PayoutApi,
}
use transpo24_backend_nest_j.Payouts.Queue.{enqueue_driver_payout}
use transpo24_backend_nest_j.Payouts.Updates.{
  not_transferred, completed, calculate_next_retry, message_of, is_bad_request, is_automatic,
  is_as_agreed, update_payout, update_earning, mark_settlement_paid_out, require_review,
  refuse_payout, make_available, claim_direct, record_transfer, settle_transfer, begin_transfer,
  RequestedBy, PayoutResult,
}

module _ {W : Type 0} (api : PayoutApi W) (ids : TripIds) where
  unfoldable pub schedule_retry : ℕ → Option ℕ → M W (Unit {0})
  schedule_retry now none = pure tt
  schedule_retry now (some at) = do
    enqueue_driver_payout api now ids.trip_id JobReason.automatic_retry (some at) true
    pure tt

  unfoldable pub fail_driver_payout_attempt : ℕ → PayoutContext → Reason → M W PayoutResult
  unfolding update_payout schedule_retry
  fail_driver_payout_attempt now c reason = do
    let attempts = c.row.payout_attempt_count + 1
    let next_retry_at = calculate_next_retry attempts now
    update_payout
        (λ t. record t {
          driver_payout_state = DriverPayoutState.transfer_failed;
          payout_failure_reason = some reason;
          next_payout_retry_at = next_retry_at;
        })
        (λ r. record r { payout_attempt_count = attempts; last_payout_attempt_at = some now })
    schedule_retry now next_retry_at
    pure (not_transferred reason)

  unfoldable pub postpone : ℕ → RequestedBy → PayoutContext → M W PayoutResult
  unfolding update_payout
  postpone now requested_by c = do
    update_payout
        (λ t. record t {
          driver_payout_state = DriverPayoutState.earning_created;
          payout_failure_reason = none;
          next_payout_retry_at = c.earning.available_at;
        })
        (λ r. r)
    if is_automatic requested_by
        then (do
          enqueue_driver_payout api now ids.trip_id JobReason.automatic_retry c.earning.available_at
              true
          pure (not_transferred not_yet_available))
        else pure (not_transferred not_yet_available)

  -- What the notification throws is logged.
  unfoldable pub notify_funds : PayoutContext → Option ℕ → Option ℕ → M W (Unit {0})
  notify_funds c transfer_id intent_id =
      catch
        (call (
          api.notify_trip_funds_transferred (record {
            customer_id = c.trip.customer_id;
            driver_user_id = c.account.user_id;
            amount = c.earning.net_amount;
            currency = c.earning.currency;
            stripe_transfer_id = transfer_id;
            stripe_payment_intent_id = intent_id;
          })))
        (λ e. pure tt)

  -- A captured direct charge is in the driver's balance already.
  unfoldable pub release_direct : ℕ → PayoutContext → ℕ → M W PayoutResult
  unfolding claim_direct notify_funds
  release_direct now c intent_id = do
    claimed ← claim_direct now
    if claimed then notify_funds c none (some intent_id) else pure tt
    pure (completed none none)

  unfoldable pub verify_direct : ℕ → ℕ → PayoutContext → M W PayoutResult
  unfolding fail_driver_payout_attempt release_direct
  verify_direct now account c =
      match_option c.hold.stripe_payment_intent_id
        (fail_driver_payout_attempt now c reference_missing)
        (λ intent_id. do
          intent ← call (api.retrieve_payment_intent intent_id account)
          if is_as_agreed c intent
              then release_direct now c intent_id
              else fail_driver_payout_attempt now c not_as_agreed)

  unfoldable pub capture_first : StripeApi W → ℕ → ℕ → ℕ → PayoutContext → M W PayoutResult
  unfolding verify_direct
  capture_first stripe now later account c =
      if is_authorized c.settlement.status
      then (do
        capture_delivery stripe now later c.trip.customer_id true
        found ← gets payout_context
        match_option found (pure (not_transferred capture_awaited)) (λ c'.
            if is_collected c'.settlement.status
            then verify_direct now account c'
            else pure (not_transferred capture_awaited)))
      else verify_direct now account c

  -- Whether Stripe bills the platform for its fees; another error than a bad request is thrown.
  unfoldable pub platform_pays_fees : ℕ → M W Bool
  platform_pays_fees account =
      catch (do call (api.require_platform_processing_fees account); pure true)
        (λ e. if is_bad_request e then pure false else throw e)

  unfoldable pub pay_direct : StripeApi W → ℕ → ℕ → ℕ → PayoutContext → M W PayoutResult
  unfolding capture_first platform_pays_fees require_review
  pay_direct stripe now later account c = do
    agreed ← platform_pays_fees account
    if agreed
        then capture_first stripe now later account c
        else (do require_review fee_review; pure (not_transferred fee_review))

  abbrev pub transfer_of : PayoutContext → ℕ → Transfer
  transfer_of c destination = record {
    amount = c.earning.net_amount;
    currency = c.earning.currency;
    destination = destination;
    idempotency_key = ids.earning_id;
    source_transaction = c.hold.stripe_charge_id;
  }

  -- A write that the database refuses after the transfer is an error of the attempt.
  unfoldable pub transfer_funds : ℕ → PayoutContext → ℕ → M W PayoutResult
  unfolding record_transfer settle_transfer notify_funds
  transfer_funds now c destination = do
    id ← call (api.create_transfer (transfer_of c destination))
    call api.write
    record_transfer now id
    call api.write
    settle_transfer now
    notify_funds c (some id) none
    pure (completed (some id) none)

  unfoldable pub transfer_failed : ℕ → PayoutContext → Error → M W PayoutResult
  unfolding update_earning fail_driver_payout_attempt
  transfer_failed now c e = do
    update_earning (λ e. e) (λ r. record r { stripe_transfer_status = some TransferStatus.failed })
    fail_driver_payout_attempt now c (message_of e)

  unfoldable pub pay_destination : ℕ → PayoutContext → ℕ → M W PayoutResult
  unfolding fail_driver_payout_attempt begin_transfer transfer_funds transfer_failed
  pay_destination now c destination =
      if not c.account.stripe_payouts_enabled
      then fail_driver_payout_attempt now c onboarding_incomplete
      else (if c.earning.net_amount == 0
          then fail_driver_payout_attempt now c nothing_to_transfer
          else (do
            begin_transfer now
            catch (transfer_funds now c destination) (transfer_failed now c)))

  unfoldable pub pay_platform : ℕ → PayoutContext → M W PayoutResult
  unfolding require_review pay_destination fail_driver_payout_attempt
  pay_platform now c =
      if api.direct_charges_enabled
      then (do require_review legacy_payment; pure (not_transferred legacy_payment))
      else match_option c.account.stripe_account_id
          (fail_driver_payout_attempt now c onboarding_incomplete) (pay_destination now c)

  unfoldable pub pay_available : StripeApi W → ℕ → ℕ → PayoutContext → M W PayoutResult
  unfolding make_available pay_direct pay_platform
  pay_available stripe now later c = do
    make_available c
    match_option c.hold.stripe_account_id (pay_platform now c)
        (λ account. pay_direct stripe now later account c)

  unfoldable pub attempt_context :
      StripeApi W → ℕ → ℕ → RequestedBy → PayoutContext → M W PayoutResult
  unfolding mark_settlement_paid_out refuse_payout postpone pay_available
  attempt_context stripe now later requested_by c =
      if is_transferred c
      then (do
        mark_settlement_paid_out
        pure (completed c.row.stripe_transfer_id (some already_completed)))
      else (if not (is_confirmed c)
          then pure (not_transferred awaiting_confirmation)
          else (if not (has_payable_settlement c) || c.settlement.requires_manual_review
              then refuse_payout c
              else (if is_available now c
                  then pay_available stripe now later c
                  else postpone now requested_by c)))

  unfoldable pub attempt_driver_payout : StripeApi W → ℕ → ℕ → RequestedBy → M W PayoutResult
  unfolding attempt_context
  attempt_driver_payout stripe now later requested_by = do
    found ← gets payout_context
    match_option found (pure (not_transferred no_earning))
        (attempt_context stripe now later requested_by)
