-- ===== src/Payouts/Transfers/Attempts.antt =====
-- What the calls of an attempt keep, transfers included, the attempt keeps
-- (src/payments/payments.service.ts).
use transpo24_backend_nest_j.Base.{ℕ, ◌≡◌, refl, Option}
use transpo24_backend_nest_j.Payments.Stripe.{StripeApi, Error}
use transpo24_backend_nest_j.Payments.Calls.{KeepsWorld, KeepsWorld-call, world_rules}
use transpo24_backend_nest_j.Payments.Captures.Steps.{capture_delivery-Keeps}
use transpo24_backend_nest_j.Payouts.State.{TripIds, PayoutContext, Transfer, PayoutApi}
use transpo24_backend_nest_j.Payouts.Updates.{RequestedBy}
use transpo24_backend_nest_j.Payouts.Attempt.{
  notify_funds, release_direct, verify_direct, capture_first, platform_pays_fees, pay_direct,
  transfer_of, transfer_funds, transfer_failed, pay_destination, pay_platform, pay_available,
  attempt_context, attempt_driver_payout,
}
use transpo24_backend_nest_j.Payouts.Transfers.{
  KeptByPayout, rows_rules, refuse_payout-Keeps, mark_settlement-Keeps, make_available-Keeps,
  claim_direct-Keeps, require_review-Keeps, written-Keeps, fail-Keeps, postpone-Keeps,
}

module _ {W : Type 0} {P : W → Type 0} {api : PayoutApi W} {stripe : StripeApi W}
    (kept : KeptByPayout api stripe P) (ids : TripIds) where
  notify_funds-Keeps :
      (c : PayoutContext) (transfer_id intent_id : Option ℕ)
      → KeepsWorld P (notify_funds api ids c transfer_id intent_id)
  unfolding notify_funds
  notify_funds-Keeps c transfer_id intent_id =
      search (world_rules, KeepsWorld-call, kept.notified) depth 12

  release_direct-Keeps :
      (now : ℕ) (c : PayoutContext) (intent_id : ℕ)
      → KeepsWorld P (release_direct api ids now c intent_id)
  unfolding release_direct
  release_direct-Keeps now c intent_id =
      search (world_rules, claim_direct-Keeps, notify_funds-Keeps) depth 12

  verify_direct-Keeps :
      (now account : ℕ) (c : PayoutContext) → KeepsWorld P (verify_direct api ids now account c)
  unfolding verify_direct
  verify_direct-Keeps now account c =
      search
        (world_rules, KeepsWorld-call, kept.retrieved, fail-Keeps, kept.queue, release_direct-Keeps)
        depth 12

  capture_first-Keeps :
      (now later account : ℕ) (c : PayoutContext)
      → KeepsWorld P (capture_first api ids stripe now later account c)
  unfolding capture_first
  capture_first-Keeps now later account c =
      search (world_rules, capture_delivery-Keeps, kept.payments, verify_direct-Keeps) depth 12

  platform_pays-Keeps : (account : ℕ) → KeepsWorld P (platform_pays_fees api ids account)
  unfolding platform_pays_fees
  platform_pays-Keeps account = search (world_rules, KeepsWorld-call, kept.fees) depth 12

  pay_direct-Keeps :
      (now later account : ℕ) (c : PayoutContext)
      → KeepsWorld P (pay_direct api ids stripe now later account c)
  unfolding pay_direct
  pay_direct-Keeps now later account c =
      search (world_rules, platform_pays-Keeps, capture_first-Keeps, require_review-Keeps) depth 12

  module _
      (sent : (t : Transfer) (w : W)
        → t.idempotency_key ≡ ids.earning_id
        → P w
        → P (api.create_transfer t w).1) where
    create-Keeps :
        (c : PayoutContext) (destination : ℕ) (w : W)
        → P w
        → P (api.create_transfer (transfer_of api ids c destination) w).1
    create-Keeps c destination w h = sent (transfer_of api ids c destination) w refl h

    transfer_funds-Keeps :
        (now : ℕ) (c : PayoutContext) (destination : ℕ)
        → KeepsWorld P (transfer_funds api ids now c destination)
    unfolding transfer_funds
    transfer_funds-Keeps now c destination =
        search
          (
            world_rules, KeepsWorld-call, kept.written, create-Keeps, notify_funds-Keeps,
            written-Keeps,
          )
          depth 16

    transfer_failed-Keeps :
        (now : ℕ) (c : PayoutContext) (e : Error) → KeepsWorld P (transfer_failed api ids now c e)
    unfolding transfer_failed
    transfer_failed-Keeps now c e = search (rows_rules, fail-Keeps, kept.queue) depth 12

    pay_destination-Keeps :
        (now : ℕ) (c : PayoutContext) (destination : ℕ)
        → KeepsWorld P (pay_destination api ids now c destination)
    unfolding pay_destination
    pay_destination-Keeps now c destination =
        search
          (
            rows_rules, fail-Keeps, kept.queue, written-Keeps, transfer_funds-Keeps,
            transfer_failed-Keeps,
          )
          depth 16

    pay_platform-Keeps : (now : ℕ) (c : PayoutContext) → KeepsWorld P (pay_platform api ids now c)
    unfolding pay_platform
    pay_platform-Keeps now c =
        search (world_rules, fail-Keeps, kept.queue, require_review-Keeps, pay_destination-Keeps)
          depth 16

    pay_available-Keeps :
        (now later : ℕ) (c : PayoutContext)
        → KeepsWorld P (pay_available api ids stripe now later c)
    unfolding pay_available
    pay_available-Keeps now later c =
        search (world_rules, make_available-Keeps, pay_platform-Keeps, pay_direct-Keeps) depth 16

    attempt_context-Keeps :
        (now later : ℕ) (requested_by : RequestedBy) (c : PayoutContext)
        → KeepsWorld P (attempt_context api ids stripe now later requested_by c)
    unfolding attempt_context
    attempt_context-Keeps now later requested_by c =
        search
          (
            world_rules, mark_settlement-Keeps, refuse_payout-Keeps, pay_available-Keeps,
            postpone-Keeps, kept.queue,
          )
          depth 16

    pub attempt-Keeps :
        (now later : ℕ) (requested_by : RequestedBy)
        → KeepsWorld P (attempt_driver_payout api ids stripe now later requested_by)
    unfolding attempt_driver_payout
    attempt-Keeps now later requested_by = search (world_rules, attempt_context-Keeps) depth 12
