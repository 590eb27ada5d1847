-- ===== src/Payouts/Outcome/Attempts.antt =====
-- An attempt that answers `transferred` leaves the trip settled, and a later one repeats the answer
-- (`attemptDriverPayoutForTrip` of src/payments/payments.service.ts).
use transpo24_backend_nest_j.Base.{ℕ, ◌≡◌, refl, ap, true, Option, none, some, is_some, ok, arith}
use transpo24_backend_nest_j.Payments.State.{
  Reason, capture_awaited, Settlement, Earning, PayoutRow, Db,
}
use transpo24_backend_nest_j.Payments.Stripe.{
  M, St, StripeApi, Error, pure, gets, match_option, ◌>>=◌, ◌>>◌,
}
use transpo24_backend_nest_j.Payouts.State.{TripIds, PayoutContext, payout_context, PayoutApi}
use transpo24_backend_nest_j.Payouts.Updates.{
  RequestedBy, PayoutResult, not_transferred, update_payout, update_earning, require_review,
  refuse_payout, make_available, claim_direct, record_transfer, settle_transfer, begin_transfer,
}
use transpo24_backend_nest_j.Payouts.Attempt.{
  fail_driver_payout_attempt, postpone, release_direct, verify_direct, capture_first,
  platform_pays_fees, pay_direct, transfer_funds, transfer_failed, pay_destination, pay_platform,
  pay_available,
}
use transpo24_backend_nest_j.Payouts.Keeping.{
  KeepsRows, kept_rules, KeepsRows-call, notify_funds-KeepsRows, schedule_retry-KeepsRows,
  enqueue-KeepsRows,
}
use transpo24_backend_nest_j.Payouts.Outcome.{
  HasContext, has_context, IsSettled, IsPaying, IsPaying-to, IsPaying-bind, IsPaying-IsSettled,
  paying_rules, claim_direct-settles, record_transfer-records, settle_transfer-settles,
}

module _ {W : Type 0} where
  update_payout-context :
      (f : Settlement → Settlement) (g : PayoutRow → PayoutRow)
      → KeepsRows HasContext (update_payout {W = W} f g)
  unfolding update_payout has_context payout_context
  update_payout-context f g = record { at = λ s h. ground arith }

  update_earning-context :
      (f : Earning → Earning) (g : PayoutRow → PayoutRow)
      → KeepsRows HasContext (update_earning {W = W} f g)
  unfolding update_earning has_context payout_context
  update_earning-context f g = record { at = λ s h. ground arith }

ruleset context_rules = (paying_rules, update_payout-context, update_earning-context)

-- What is known of the rows once the transfer is recorded.
abbrev Recorded : ℕ → Db → Type 0
Recorded id db = HasContext db × (db.payout.stripe_transfer_id ≡ some id)

module _ {W : Type 0} (api : PayoutApi W) (ids : TripIds) where
  fail-pays :
      (now : ℕ) (c : PayoutContext) (reason : Reason)
      → IsPaying HasContext (fail_driver_payout_attempt api ids now c reason)
  unfolding fail_driver_payout_attempt
  fail-pays now c reason = search (context_rules, schedule_retry-KeepsRows) depth 12

  pub postpone-pays :
      (now : ℕ) (by : RequestedBy) (c : PayoutContext)
      → IsPaying HasContext (postpone api ids now by c)
  unfolding postpone
  postpone-pays now by c = search (context_rules, enqueue-KeepsRows) depth 12

  release_direct-pays :
      (now : ℕ) (c : PayoutContext) (intent_id : ℕ)
      → IsPaying HasContext (release_direct api ids now c intent_id)
  unfolding release_direct
  release_direct-pays now c intent_id =
      IsPaying-to IsSettled HasContext (claim_direct now) _ (claim_direct-settles now)
        λ claimed. IsPaying-IsSettled _ (search (kept_rules, notify_funds-KeepsRows) depth 12)

  verify_direct-pays :
      (now account : ℕ) (c : PayoutContext)
      → IsPaying HasContext (verify_direct api ids now account c)
  unfolding verify_direct
  verify_direct-pays now account c = search (context_rules, fail-pays, release_direct-pays) depth 12

  found_pays :
      (o : Option PayoutContext) (f : PayoutContext → M W PayoutResult) (s : St W)
      (r : PayoutResult)
      → ((c : PayoutContext) → IsPaying HasContext (f c))
      → payout_context s.db ≡ o
      → (match_option o (pure (not_transferred capture_awaited)) f s).0 ≡ ok r
      → r.transferred ≡ true
      → IsSettled (match_option o (pure (not_transferred capture_awaited)) f s).1.db
  unfolding match_option pure has_context
  found_pays none f s r k found e t = ground arith
  found_pays (some c) f s r k found e t = (k c).at s r (ap is_some found) e t

  -- Whatever a first part leaves, the rows are read again after it.
  reread_pays :
      {R : Db → Type 0} (m : M W (Unit {0})) (f : PayoutContext → M W PayoutResult)
      → ((c : PayoutContext) → IsPaying HasContext (f c))
      → IsPaying R (
          m
          >> (gets payout_context >>= λ found.
              match_option found (pure (not_transferred capture_awaited)) f))
  unfolding ◌>>=◌
  reread_pays {R} m f k =
      IsPaying-to (λ db. Unit {0}) R m _ (λ s h. tt)
        λ u. record { at = λ s r h e t. found_pays (payout_context s.db) f s r k refl e t }

  capture_first-pays :
      (stripe : StripeApi W) (now later account : ℕ) (c : PayoutContext)
      → IsPaying HasContext (capture_first api ids stripe now later account c)
  unfolding capture_first
  capture_first-pays stripe now later account c =
      search (context_rules, reread_pays, verify_direct-pays) depth 12

  platform_pays-KeepsRows :
      {R : Db → Type 0} (account : ℕ) → KeepsRows R (platform_pays_fees api ids account)
  unfolding platform_pays_fees
  platform_pays-KeepsRows account = search kept_rules depth 12

  pay_direct-pays :
      (stripe : StripeApi W) (now later account : ℕ) (c : PayoutContext)
      → IsPaying HasContext (pay_direct api ids stripe now later account c)
  unfolding pay_direct require_review
  pay_direct-pays stripe now later account c =
      search (context_rules, platform_pays-KeepsRows, capture_first-pays) depth 12

  transfer_funds-pays :
      (now : ℕ) (c : PayoutContext) (destination : ℕ)
      → IsPaying HasContext (transfer_funds api ids now c destination)
  unfolding transfer_funds
  transfer_funds-pays now c destination = IsPaying-bind _ _ (KeepsRows-call _) λ id.
      IsPaying-bind _ _ (KeepsRows-call _) λ u.
        IsPaying-to (Recorded id) HasContext (record_transfer now id) _
          (record_transfer-records now id)
          λ u. IsPaying-bind _ _ (KeepsRows-call _) λ u.
            IsPaying-to IsSettled (Recorded id) (settle_transfer now) _
              (λ s h. settle_transfer-settles now id s h.0 h.1)
              λ u. IsPaying-IsSettled _ (search (kept_rules, notify_funds-KeepsRows) depth 12)

  transfer_funds-KeepsRows :
      (now : ℕ) (c : PayoutContext) (destination : ℕ)
      → KeepsRows HasContext (transfer_funds api ids now c destination)
  unfolding transfer_funds record_transfer settle_transfer
  transfer_funds-KeepsRows now c destination =
      search (context_rules, notify_funds-KeepsRows) depth 16

  transfer_failed-pays :
      (now : ℕ) (c : PayoutContext) (e : Error)
      → IsPaying HasContext (transfer_failed api ids now c e)
  unfolding transfer_failed
  transfer_failed-pays now c e = search (context_rules, fail-pays) depth 12

  pay_destination-pays :
      (now : ℕ) (c : PayoutContext) (destination : ℕ)
      → IsPaying HasContext (pay_destination api ids now c destination)
  unfolding pay_destination begin_transfer
  pay_destination-pays now c destination =
      search
        (
          context_rules, fail-pays, transfer_funds-pays, transfer_funds-KeepsRows,
          transfer_failed-pays,
        )
        depth 12

  pay_platform-pays :
      (now : ℕ) (c : PayoutContext) → IsPaying HasContext (pay_platform api ids now c)
  unfolding pay_platform require_review
  pay_platform-pays now c = search (context_rules, fail-pays, pay_destination-pays) depth 12

  pub pay_available-pays :
      (stripe : StripeApi W) (now later : ℕ) (c : PayoutContext)
      → IsPaying HasContext (pay_available api ids stripe now later c)
  unfolding pay_available make_available
  pay_available-pays stripe now later c =
      search (context_rules, pay_platform-pays, pay_direct-pays) depth 12

  pub refuse_payout-pays : (c : PayoutContext) → IsPaying {W = W} HasContext (refuse_payout c)
  unfolding refuse_payout
  refuse_payout-pays c = search context_rules depth 12
