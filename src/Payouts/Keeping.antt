-- ===== src/Payouts/Keeping.antt =====
-- What the calls of a payout keep of the rows (src/payments/payments.service.ts): a predicate on the
-- rows is kept by a block if its writes keep it.
use transpo24_backend_nest_j.Base.{
  ℕ, Bool, true, false, Option, none, some, if◌then◌else◌, Result, ok, err,
}
use transpo24_backend_nest_j.Payments.State.{Db}
use transpo24_backend_nest_j.Payments.Stripe.{
  M, St, Error, pure, throw, gets, call, match_option, ◌>>=◌, catch, continue, rescue,
}
use transpo24_backend_nest_j.Payouts.State.{TripIds, PayoutContext, JobReason, PayoutApi}
use transpo24_backend_nest_j.Payouts.Queue.{
  JobPlan, add_job, try_remove, follow_plan, enqueue_driver_payout,
}
use transpo24_backend_nest_j.Payouts.Attempt.{schedule_retry, notify_funds}

pub record KeepsRows {W A : Type 0} (R : Db → Type 0) (m : M W A) : Type 0 where
  pub at : (s : St W) → R s.db → R (m s).1.db

module _ {W A B : Type 0} (R : Db → Type 0) where
  continued_rows :
      (r : Result Error A) (f : A → M W B) (s : St W)
      → ((a : A) → KeepsRows R (f a))
      → R s.db
      → R (continue r f s).1.db
  continued_rows (ok a) f s k h = (k a).at s h
  continued_rows (err e) f s k h = h

module _ {W A : Type 0} (R : Db → Type 0) where
  rescued_rows :
      (r : Result Error A) (handle : Error → M W A) (s : St W)
      → ((e : Error) → KeepsRows R (handle e))
      → R s.db
      → R (rescue r handle s).1.db
  rescued_rows (ok a) handle s k h = h
  rescued_rows (err e) handle s k h = (k e).at s h

module _ {W A : Type 0} {R : Db → Type 0} where
  pub KeepsRows-pure : (a : A) → KeepsRows R (pure {W = W} {A = A} a)
  unfolding pure
  KeepsRows-pure a = record { at = λ s h. h }

  pub KeepsRows-throw : (e : Error) → KeepsRows R (throw {W = W} {A = A} e)
  unfolding throw
  KeepsRows-throw e = record { at = λ s h. h }

  pub KeepsRows-gets : (f : Db → A) → KeepsRows R (gets {W = W} f)
  unfolding gets
  KeepsRows-gets f = record { at = λ s h. h }

  pub KeepsRows-call : (f : W → Result Error A × W) → KeepsRows R (call f)
  unfolding call
  KeepsRows-call f = record { at = λ s h. h }

  pub KeepsRows-if :
      (b : Bool) (m n : M W A) → KeepsRows R m → KeepsRows R n → KeepsRows R (if b then m else n)
  KeepsRows-if true m n km kn = km
  KeepsRows-if false m n km kn = kn

  pub KeepsRows-catch :
      (m : M W A) (handle : Error → M W A)
      → KeepsRows R m
      → ((e : Error) → KeepsRows R (handle e))
      → KeepsRows R (catch m handle)
  unfolding catch
  KeepsRows-catch m handle km kh = record {
    at = λ s h. let (r, s') = m s in rescued_rows R r handle s' kh (km.at s h);
  }

module _ {W A B : Type 0} {R : Db → Type 0} where
  pub KeepsRows-option :
      (o : Option A) (m : M W B) (f : A → M W B)
      → KeepsRows R m
      → ((a : A) → KeepsRows R (f a))
      → KeepsRows R (match_option o m f)
  unfolding match_option
  KeepsRows-option none m f km kf = km
  KeepsRows-option (some a) m f km kf = kf a

  pub KeepsRows-bind :
      (m : M W A) (f : A → M W B)
      → KeepsRows R m
      → ((a : A) → KeepsRows R (f a))
      → KeepsRows R (m >>= f)
  unfolding ◌>>=◌
  KeepsRows-bind m f km kf = record {
    at = λ s h. let (r, s') = m s in continued_rows R r f s' kf (km.at s h);
  }

pub ruleset kept_rules = (
  KeepsRows-pure, KeepsRows-throw, KeepsRows-gets, KeepsRows-call, KeepsRows-if, KeepsRows-catch,
  KeepsRows-option, KeepsRows-bind,
)

-- The queue and the notifications write no row.
module _ {W : Type 0} {R : Db → Type 0} (api : PayoutApi W) where
  add_job-KeepsRows :
      (trip_id : ℕ) (reason : JobReason) (delay : ℕ)
      → KeepsRows R (add_job api trip_id reason delay)
  unfolding add_job
  add_job-KeepsRows trip_id reason delay = search kept_rules depth 12

  try_remove-KeepsRows : (trip_id : ℕ) → KeepsRows R (try_remove api trip_id)
  unfolding try_remove
  try_remove-KeepsRows trip_id = search kept_rules depth 12

  follow_plan-KeepsRows :
      (trip_id : ℕ) (reason : JobReason) (delay : ℕ) (plan : JobPlan)
      → KeepsRows R (follow_plan api trip_id reason delay plan)
  unfolding follow_plan
  follow_plan-KeepsRows trip_id reason delay JobPlan.leave = KeepsRows-pure true
  follow_plan-KeepsRows trip_id reason delay JobPlan.add = add_job-KeepsRows trip_id reason delay
  follow_plan-KeepsRows trip_id reason delay JobPlan.replace =
      search (kept_rules, add_job-KeepsRows, try_remove-KeepsRows) depth 12
  follow_plan-KeepsRows trip_id reason delay JobPlan.clear =
      search (kept_rules, add_job-KeepsRows, try_remove-KeepsRows) depth 12

  pub enqueue-KeepsRows :
      (now trip_id : ℕ) (reason : JobReason) (run_at : Option ℕ) (replace_delayed : Bool)
      → KeepsRows R (enqueue_driver_payout api now trip_id reason run_at replace_delayed)
  unfolding enqueue_driver_payout
  enqueue-KeepsRows now trip_id reason run_at replace_delayed =
      search (kept_rules, follow_plan-KeepsRows) depth 12

  pub schedule_retry-KeepsRows :
      (ids : TripIds) (now : ℕ) (at : Option ℕ) → KeepsRows R (schedule_retry api ids now at)
  unfolding schedule_retry
  schedule_retry-KeepsRows ids now none = KeepsRows-pure tt
  schedule_retry-KeepsRows ids now (some at) = search (kept_rules, enqueue-KeepsRows) depth 12

  pub notify_funds-KeepsRows :
      (ids : TripIds) (c : PayoutContext) (transfer_id intent_id : Option ℕ)
      → KeepsRows R (notify_funds api ids c transfer_id intent_id)
  unfolding notify_funds
  notify_funds-KeepsRows ids c transfer_id intent_id = search kept_rules depth 12
