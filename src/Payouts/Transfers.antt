-- ===== src/Payouts/Transfers.antt =====
-- The transfers that attempts to pay a driver ask Stripe for (src/payments/payments.service.ts).
pub mod Attempts
pub mod Once
pub mod Waits
use transpo24_backend_nest_j.Base.{
  ℕ, zero, suc, ◌≡◌, ◌⊎◌, inl, inr, refl, Bool, true, false, not, ◌==◌, ◌≤◌, ◌+◌, Option, none,
  some, is_some, List, [], ◌∷◌, any, length, if◌then◌else◌, arith,
}
use transpo24_backend_nest_j.Payments.State.{Reason, Hold, Settlement, Earning, PayoutRow, Db}
use transpo24_backend_nest_j.Payments.Stripe.{M, St, StripeApi, Intent, Error, ◌>>=◌, ◌>>◌}
use transpo24_backend_nest_j.Payments.Calls.{
  KeepsWorld, KeepsWorld-call, KeepsWorld-pure, KeepsWorld-throw, world_rules,
}
use transpo24_backend_nest_j.Payments.Captures.Steps.{KeptByStripe, capture_delivery-Keeps}
use transpo24_backend_nest_j.Payouts.State.{
  TripIds, PayoutContext, JobReason, JobState, Transfer, FundsNotice, PayoutApi,
}
use transpo24_backend_nest_j.Payouts.Queue.{
  JobPlan, add_job, try_remove, follow_plan, enqueue_driver_payout,
}
use transpo24_backend_nest_j.Payouts.Updates
use transpo24_backend_nest_j.Payouts.Updates.{
  RequestedBy, PayoutResult, update_payout, update_earning, mark_settlement_paid_out,
  require_review, refuse_payout, make_available, claim_direct, record_transfer, settle_transfer,
  begin_transfer,
}
use transpo24_backend_nest_j.Payouts.Attempt.{
  schedule_retry, fail_driver_payout_attempt, postpone, notify_funds, release_direct, verify_direct,
  capture_first, platform_pays_fees, pay_direct, transfer_of, transfer_funds, transfer_failed,
  pay_destination, pay_platform, pay_available, attempt_context, attempt_driver_payout,
}

-- What holds of the world stays true under the calls of the queue.
pub record KeptByQueue {W : Type 0} (api : PayoutApi W) (P : W → Type 0) : Type 0 where
  pub looked : (trip_id : ℕ) (w : W) → P w → P (api.job_state trip_id w).1
  pub removed : (trip_id : ℕ) (w : W) → P w → P (api.remove_job trip_id w).1
  pub added :
      (trip_id : ℕ) (reason : JobReason) (delay : ℕ) (w : W)
      → P w
      → P (api.add_job trip_id reason delay w).1

-- It also stays true under every other call of a payout but a transfer.
pub record KeptByPayout {W : Type 0} (api : PayoutApi W) (stripe : StripeApi W) (P : W → Type 0)
    : Type 0 where
  pub queue : KeptByQueue api P
  pub payments : KeptByStripe stripe P
  pub fees : (account : ℕ) (w : W) → P w → P (api.require_platform_processing_fees account w).1
  pub retrieved : (id account : ℕ) (w : W) → P w → P (api.retrieve_payment_intent id account w).1
  pub notified :
      (notice : FundsNotice) (w : W) → P w → P (api.notify_trip_funds_transferred notice w).1
  pub written : (w : W) → P w → P (api.write w).1

module _ {W : Type 0} {P : W → Type 0} where
  pub update_payout-Keeps :
      (f : Settlement → Settlement) (g : PayoutRow → PayoutRow)
      → KeepsWorld P (update_payout {W = W} f g)
  unfolding update_payout
  update_payout-Keeps f g = record { at = λ s h. h }

  pub update_earning-Keeps :
      (f : Earning → Earning) (g : PayoutRow → PayoutRow)
      → KeepsWorld P (update_earning {W = W} f g)
  unfolding update_earning
  update_earning-Keeps f g = record { at = λ s h. h }

pub ruleset rows_rules = (world_rules, update_payout-Keeps, update_earning-Keeps)

module _ {W : Type 0} {P : W → Type 0} where
  pub mark_settlement-Keeps : KeepsWorld P (mark_settlement_paid_out {W = W})
  unfolding mark_settlement_paid_out
  mark_settlement-Keeps = search rows_rules depth 12

  pub refuse_payout-Keeps : (c : PayoutContext) → KeepsWorld P (refuse_payout {W = W} c)
  unfolding refuse_payout
  refuse_payout-Keeps c = search rows_rules depth 12

  pub make_available-Keeps : (c : PayoutContext) → KeepsWorld P (make_available {W = W} c)
  unfolding make_available
  make_available-Keeps c = search rows_rules depth 12

  pub claim_direct-Keeps : (now : ℕ) → KeepsWorld P (claim_direct {W = W} now)
  unfolding claim_direct
  claim_direct-Keeps now = search rows_rules depth 12

  pub require_review-Keeps : (reason : Reason) → KeepsWorld P (require_review {W = W} reason)
  unfolding require_review
  require_review-Keeps reason = search rows_rules depth 12

  pub written-Keeps :
      (now id : ℕ)
      → KeepsWorld P (record_transfer {W = W} now id)
        × KeepsWorld P (settle_transfer {W = W} now)
        × KeepsWorld P (begin_transfer {W = W} now)
  unfolding record_transfer settle_transfer begin_transfer
  written-Keeps now id =
      (search rows_rules depth 12, search rows_rules depth 12, search rows_rules depth 12)

module _ {W : Type 0} {P : W → Type 0} {api : PayoutApi W} (kept : KeptByQueue api P) where
  add_job-Keeps :
      (trip_id : ℕ) (reason : JobReason) (delay : ℕ)
      → KeepsWorld P (add_job api trip_id reason delay)
  unfolding add_job
  add_job-Keeps trip_id reason delay = search (world_rules, KeepsWorld-call, kept.added) depth 12

  try_remove-Keeps : (trip_id : ℕ) → KeepsWorld P (try_remove api trip_id)
  unfolding try_remove
  try_remove-Keeps trip_id = search (world_rules, KeepsWorld-call, kept.removed) depth 12

  follow_plan-Keeps :
      (trip_id : ℕ) (reason : JobReason) (delay : ℕ) (plan : JobPlan)
      → KeepsWorld P (follow_plan api trip_id reason delay plan)
  unfolding follow_plan
  follow_plan-Keeps trip_id reason delay JobPlan.leave = KeepsWorld-pure true
  follow_plan-Keeps trip_id reason delay JobPlan.add = add_job-Keeps trip_id reason delay
  follow_plan-Keeps trip_id reason delay JobPlan.replace =
      search (world_rules, add_job-Keeps, try_remove-Keeps) depth 12
  follow_plan-Keeps trip_id reason delay JobPlan.clear =
      search (world_rules, add_job-Keeps, try_remove-Keeps) depth 12

  pub enqueue-Keeps :
      (now trip_id : ℕ) (reason : JobReason) (run_at : Option ℕ) (replace_delayed : Bool)
      → KeepsWorld P (enqueue_driver_payout api now trip_id reason run_at replace_delayed)
  unfolding enqueue_driver_payout
  enqueue-Keeps now trip_id reason run_at replace_delayed =
      search (world_rules, KeepsWorld-call, kept.looked, follow_plan-Keeps) depth 12

  schedule_retry-Keeps :
      (ids : TripIds) (now : ℕ) (at : Option ℕ) → KeepsWorld P (schedule_retry api ids now at)
  unfolding schedule_retry
  schedule_retry-Keeps ids now none = KeepsWorld-pure tt
  schedule_retry-Keeps ids now (some at) = search (world_rules, enqueue-Keeps) depth 12

  pub fail-Keeps :
      (ids : TripIds) (now : ℕ) (c : PayoutContext) (reason : Reason)
      → KeepsWorld P (fail_driver_payout_attempt api ids now c reason)
  unfolding fail_driver_payout_attempt
  fail-Keeps ids now c reason = search (rows_rules, schedule_retry-Keeps) depth 12

  pub postpone-Keeps :
      (ids : TripIds) (now : ℕ) (requested_by : RequestedBy) (c : PayoutContext)
      → KeepsWorld P (postpone api ids now requested_by c)
  unfolding postpone
  postpone-Keeps ids now requested_by c = search (rows_rules, enqueue-Keeps) depth 12
