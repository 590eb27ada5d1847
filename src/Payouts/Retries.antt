-- ===== src/Payouts/Retries.antt =====
-- When a failed payout is tried again (`failDriverPayoutAttempt`, `calculateNextDriverPayoutRetryAt`
-- and `sweepQueuedDriverPayouts` of src/payments/payments.service.ts).
use transpo24_backend_nest_j.Base.{
  ℕ, zero, suc, ◌+◌, ◌*◌, ◌-◌, ◌≤◌, ◌<◌, ◌≡◌, refl, ap, ◌∙◌, leb, true, false, ◌||◌, Option, none,
  some, is_some, arith,
}
use transpo24_backend_nest_j.Domain.{is_cancelled}
use transpo24_backend_nest_j.Payments.State.{
  DriverPayoutState, Reason, Request, Settlement, Earning, PayoutRow, Db,
}
use transpo24_backend_nest_j.Payments.Stripe.{St, pure, ◌>>=◌}
use transpo24_backend_nest_j.Payments.Rows.{map_row}
use transpo24_backend_nest_j.Payouts.State.{TripIds, PayoutContext, PayoutApi}
use transpo24_backend_nest_j.Payouts.Updates.{
  calculate_next_retry, retry_delays_minutes, get_elem?, not_transferred,
}
use transpo24_backend_nest_j.Payouts.Attempt.{schedule_retry, fail_driver_payout_attempt}
use transpo24_backend_nest_j.Payouts.Requests.{SweepRow, is_candidate}
use transpo24_backend_nest_j.Payouts.Keeping.{
  KeepsRows-bind, KeepsRows-pure, schedule_retry-KeepsRows,
}

-- The settlement and the columns of a payout as a failed attempt leaves them.
abbrev pub failed_settlement : ℕ → ℕ → Reason → Settlement → Settlement
failed_settlement now attempts reason t = record t {
  driver_payout_state = DriverPayoutState.transfer_failed;
  payout_failure_reason = some reason;
  next_payout_retry_at = calculate_next_retry attempts now;
}

abbrev pub failed_row : ℕ → ℕ → PayoutRow → PayoutRow
failed_row now attempts r = record r {
  payout_attempt_count = attempts;
  last_payout_attempt_at = some now;
}

next_retry-early :
    (now attempts : ℕ)
    → attempts < 6
    → (at : ℕ) × (calculate_next_retry (attempts + 1) now ≡ some at)
      × (now + 5 * 60 * 1000 ≤ at)
      × (at ≤ now + 24 * 60 * 60 * 1000)
unfolding calculate_next_retry
next_retry-early now zero h = (now + 5 * 60 * 1000, refl, omega arith, omega arith)
next_retry-early now (suc zero) h = (now + 30 * 60 * 1000, refl, omega arith, omega arith)
next_retry-early now (suc (suc zero)) h = (now + 120 * 60 * 1000, refl, omega arith, omega arith)
next_retry-early now (suc (suc (suc zero))) h =
    (now + 360 * 60 * 1000, refl, omega arith, omega arith)
next_retry-early now (suc (suc (suc (suc zero)))) h =
    (now + 720 * 60 * 1000, refl, omega arith, omega arith)
next_retry-early now (suc (suc (suc (suc (suc zero))))) h =
    (now + 1440 * 60 * 1000, refl, omega arith, omega arith)
next_retry-early now (suc (suc (suc (suc (suc (suc n)))))) h = absurd (omega arith)

add_sub : (n : ℕ) → n + 1 - 1 ≡ n
add_sub n = omega arith

get_elem-late : (n : ℕ) → 6 ≤ n → get_elem? retry_delays_minutes n ≡ none
get_elem-late zero h = absurd (omega arith)
get_elem-late (suc zero) h = absurd (omega arith)
get_elem-late (suc (suc zero)) h = absurd (omega arith)
get_elem-late (suc (suc (suc zero))) h = absurd (omega arith)
get_elem-late (suc (suc (suc (suc zero)))) h = absurd (omega arith)
get_elem-late (suc (suc (suc (suc (suc zero))))) h = absurd (omega arith)
get_elem-late (suc (suc (suc (suc (suc (suc n)))))) h = refl

next_retry-late : (now attempts : ℕ) → 6 ≤ attempts → calculate_next_retry (attempts + 1) now ≡ none
unfolding calculate_next_retry
next_retry-late now attempts h = rw (add_sub attempts, get_elem-late attempts h) refl

-- The rows of a trip as the sweep sees them.
abbrev pub swept_row : ℕ → Request → Settlement → Option Earning → PayoutRow → SweepRow
swept_row trip_id request settlement earning row = record {
  trip_id = trip_id;
  request = request;
  settlement = settlement;
  earning = earning;
  row = row;
}

abbrev pub failed_db : ℕ → ℕ → Reason → Db → Db
failed_db now attempts reason db = record db {
  settlement = map_row (failed_settlement now attempts reason) db.settlement;
  payout = failed_row now attempts db.payout;
}

module _ {W : Type 0} (api : PayoutApi W) (ids : TripIds) where
  pub fail-rows :
      (now : ℕ) (c : PayoutContext) (reason : Reason) (s : St W)
      → (fail_driver_payout_attempt api ids now c reason s).1.db
        ≡ failed_db now (c.row.payout_attempt_count + 1) reason s.db
  unfolding fail_driver_payout_attempt ◌>>=◌
  fail-rows now c reason s =
      let attempts = c.row.payout_attempt_count + 1 in
      let after = failed_db now attempts reason s.db in
      (KeepsRows-bind {R = λ db. db ≡ after}
          (schedule_retry api ids now (calculate_next_retry attempts now))
          (λ u. pure (not_transferred reason)) (schedule_retry-KeepsRows api ids now _)
          (λ u. KeepsRows-pure _)).at
        (record s { db = after }) refl

  -- A failed payout is not lost. For a trip with a settlement that is cancelled or confirmed: the first
  -- six failures set a time for the next try, between five minutes and a day ahead, and from then on,
  -- and not before, the sweep finds the trip; after a later failure it is left to a person, and the
  -- sweep finds it no more.
  pub fail-IsSwept :
      (now later : ℕ) (c : PayoutContext) (reason : Reason) (trip_id : ℕ) (request : Request)
      (settlement : Settlement) (earning : Option Earning) (s : St W)
      → s.db.settlement ≡ some settlement
      → (is_cancelled request.status || is_some request.delivery_confirmed_by_customer_at) ≡ true
      → let db = (fail_driver_payout_attempt api ids now c reason s).1.db in
        (t : Settlement) × (db.settlement ≡ some t)
        × (c.row.payout_attempt_count < 6
            → (at : ℕ) × (now + 5 * 60 * 1000 ≤ at)
              × (at ≤ now + 24 * 60 * 60 * 1000)
              × (t.next_payout_retry_at ≡ some at)
              × (is_candidate later (swept_row trip_id request t earning db.payout) ≡ leb at later))
        × (6 ≤ c.row.payout_attempt_count
            → is_candidate later (swept_row trip_id request t earning db.payout) ≡ false)
  unfolding is_candidate
  fail-IsSwept now later c reason trip_id request settlement earning s row done =
      let attempts = c.row.payout_attempt_count + 1 in
      (
        failed_settlement now attempts reason settlement,
        ap (λ (db : Db). db.settlement) (fail-rows now c reason s)
            ∙ ap (map_row (failed_settlement now attempts reason)) row,
        λ h.
            let (at, e, lo, hi) = next_retry-early now c.row.payout_attempt_count h in
            (at, lo, hi, e, rw (done, e) refl),
        λ h. rw (done, next_retry-late now c.row.payout_attempt_count h) refl,
      )
