-- ===== src/Payouts/Queue.antt =====
-- The queue of payouts: `enqueueDriverPayout` of src/payments/driver-payout-queue.service.ts.
use transpo24_backend_nest_j.Base.{
  ℕ, ◌-◌, Bool, true, false, not, Option, none, some, if◌then◌else◌,
}
use transpo24_backend_nest_j.Payments.Stripe.{M, pure, call, catch, ◌>>=◌, ◌>>◌}
use transpo24_backend_nest_j.Payouts.State.{JobReason, JobState, PayoutApi}

unfoldable pub resolve_delay : ℕ → Option ℕ → ℕ
resolve_delay now none = 0
resolve_delay now (some run_at) = run_at - now

-- What is done about a job that is there.
pub data JobPlan : Type 0 where
  leave replace clear add : JobPlan

abbrev pub job_plan : Bool → Option JobState → JobPlan
job_plan replace_delayed none = JobPlan.add
job_plan replace_delayed (some JobState.active) = JobPlan.leave
job_plan replace_delayed (some JobState.waiting) = JobPlan.leave
job_plan replace_delayed (some JobState.waiting_children) = JobPlan.leave
job_plan replace_delayed (some JobState.delayed) =
    if replace_delayed then JobPlan.replace else JobPlan.leave
job_plan replace_delayed (some JobState.completed) = JobPlan.clear
job_plan replace_delayed (some JobState.failed) = JobPlan.clear
job_plan replace_delayed (some JobState.other) = JobPlan.add

module _ {W : Type 0} (api : PayoutApi W) where
  unfoldable pub add_job : ℕ → JobReason → ℕ → M W Bool
  add_job trip_id reason delay = do call (api.add_job trip_id reason delay); pure true

  -- Whether the job is removed; what the removal throws is caught.
  unfoldable pub try_remove : ℕ → M W Bool
  try_remove trip_id = catch (do call (api.remove_job trip_id); pure true) (λ e. pure false)

  unfoldable pub follow_plan : ℕ → JobReason → ℕ → JobPlan → M W Bool
  unfolding add_job try_remove
  follow_plan trip_id reason delay JobPlan.leave = pure true
  follow_plan trip_id reason delay JobPlan.replace = do
    removed ← try_remove trip_id
    if removed then add_job trip_id reason delay else pure true
  follow_plan trip_id reason delay JobPlan.clear = do
    removed ← try_remove trip_id
    add_job trip_id reason delay
  follow_plan trip_id reason delay JobPlan.add = add_job trip_id reason delay

  unfoldable pub enqueue_driver_payout : ℕ → ℕ → JobReason → Option ℕ → Bool → M W Bool
  unfolding follow_plan resolve_delay
  enqueue_driver_payout now trip_id reason run_at replace_delayed =
      if not api.has_queue then pure false else (do
        state ← call (api.job_state trip_id)
        follow_plan trip_id reason (resolve_delay now run_at) (job_plan replace_delayed state))
