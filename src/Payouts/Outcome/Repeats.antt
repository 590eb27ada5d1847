-- ===== src/Payouts/Outcome/Repeats.antt =====
-- The result of a whole attempt, and of the next one (`attemptDriverPayoutForTrip` of
-- src/payments/payments.service.ts).
use transpo24_backend_nest_j.Base.{
  ℕ, ◌≡◌, refl, ap, inl, inr, Bool-cases, true, false, Option, none, some, is_some, ok, arith,
}
use transpo24_backend_nest_j.Payments.State.{no_earning, already_completed}
use transpo24_backend_nest_j.Payments.Stripe.{St, StripeApi, pure, match_option, ◌>>=◌}
use transpo24_backend_nest_j.Payouts.State.{
  TripIds, PayoutContext, payout_context, is_transferred, PayoutApi,
}
use transpo24_backend_nest_j.Payouts.Updates.{
  RequestedBy, PayoutResult, completed, not_transferred, mark_settlement_paid_out,
}
use transpo24_backend_nest_j.Payouts.Attempt.{attempt_context, attempt_driver_payout}
use transpo24_backend_nest_j.Payouts.Outcome.{
  HasContext, has_context, IsSettled, is_settled, settled_context, IsPaying, IsPaying-if,
  IsPaying-refused, mark_settlement-settles,
}
use transpo24_backend_nest_j.Payouts.Outcome.Attempts.{
  postpone-pays, pay_available-pays, refuse_payout-pays,
}

module _ {W : Type 0} (api : PayoutApi W) (ids : TripIds) (stripe : StripeApi W) where
  paid_already :
      (now later : ℕ) (by : RequestedBy) (c : PayoutContext) (s : St W)
      → payout_context s.db ≡ some c
      → is_transferred c ≡ true
      → IsSettled (attempt_context api ids stripe now later by c s).1.db
  unfolding attempt_context ◌>>=◌
  paid_already now later by c s found p = rw p (mark_settlement-settles c s found p)

  paid_answer :
      (now later : ℕ) (by : RequestedBy) (c : PayoutContext) (s : St W)
      → payout_context s.db ≡ some c
      → is_transferred c ≡ true
      → ((attempt_context api ids stripe now later by c s).0
          ≡ ok (completed s.db.payout.stripe_transfer_id (some already_completed)))
        × ((attempt_context api ids stripe now later by c s).1.world ≡ s.world)
  unfolding attempt_context ◌>>=◌ payout_context mark_settlement_paid_out
  paid_answer now later by c s found p = rw p (ground arith)

  unpaid_pays :
      (now later : ℕ) (by : RequestedBy) (c : PayoutContext)
      → is_transferred c ≡ false
      → IsPaying HasContext (attempt_context api ids stripe now later by c)
  unfolding attempt_context
  unpaid_pays now later by c p = rw p (
      IsPaying-if _ _ _ (IsPaying-refused _) (
        IsPaying-if _ _ _ (refuse_payout-pays api ids c) (
          IsPaying-if _ _ _ (pay_available-pays api ids stripe now later c)
            (postpone-pays api ids now by c))))

  context_pays :
      (now later : ℕ) (by : RequestedBy) (o : Option PayoutContext) (s : St W) (r : PayoutResult)
      → payout_context s.db ≡ o
      → (match_option o
          (pure (not_transferred no_earning))
          (attempt_context api ids stripe now later by)
          s).0
        ≡ ok r
      → r.transferred ≡ true
      → IsSettled
          (match_option o
            (pure (not_transferred no_earning))
            (attempt_context api ids stripe now later by)
            s).1.db
  unfolding match_option pure has_context
  context_pays now later by none s r found e t = ground arith
  context_pays now later by (some c) s r found e t = elim (Bool-cases (is_transferred c)) [
    | inl p ↦ paid_already now later by c s found p
    | inr p ↦ (unpaid_pays now later by c p).at s r (ap is_some found) e t
  ]

  -- An attempt that answers `transferred` has paid: the earning is paid out and the settlement says
  -- so.
  attempt-settles :
      (now later : ℕ) (by : RequestedBy) (s : St W) (r : PayoutResult)
      → (attempt_driver_payout api ids stripe now later by s).0 ≡ ok r
      → r.transferred ≡ true
      → IsSettled (attempt_driver_payout api ids stripe now later by s).1.db
  unfolding attempt_driver_payout ◌>>=◌
  attempt-settles now later by s r e t =
      context_pays now later by (payout_context s.db) s r refl e t

  context_repeats :
      (now later : ℕ) (by : RequestedBy) (o : Option PayoutContext) (s : St W)
      → payout_context s.db ≡ o
      → settled_context o ≡ true
      → let again =
          match_option o
            (pure (not_transferred no_earning))
            (attempt_context api ids stripe now later by)
            s in
        (again.0 ≡ ok (completed s.db.payout.stripe_transfer_id (some already_completed)))
        × (again.1.world ≡ s.world)
        × IsSettled again.1.db
  unfolding match_option
  context_repeats now later by none s found h = cc
  context_repeats now later by (some c) s found h =
      let p : is_transferred c ≡ true = ground arith in
      let (answer, quiet) = paid_answer now later by c s found p in
      (answer, quiet, paid_already now later by c s found p)

  IsSettled-repeats :
      (now later : ℕ) (by : RequestedBy) (s : St W)
      → IsSettled s.db
      → let again = attempt_driver_payout api ids stripe now later by s in
        (again.0 ≡ ok (completed s.db.payout.stripe_transfer_id (some already_completed)))
        × (again.1.world ≡ s.world)
        × IsSettled again.1.db
  unfolding attempt_driver_payout ◌>>=◌ is_settled
  IsSettled-repeats now later by s h = context_repeats now later by (payout_context s.db) s refl h

  -- A payout is final: when an attempt answers `transferred`, the earning is paid out and the
  -- settlement says so, and any further attempt on those rows answers `transferred` with the
  -- transfer on record, calls nothing, neither Stripe nor the queue, and leaves them settled.
  pub attempt-IsFinal :
      (now later : ℕ) (by : RequestedBy) (s : St W) (r : PayoutResult)
      → (attempt_driver_payout api ids stripe now later by s).0 ≡ ok r
      → r.transferred ≡ true
      → let after = (attempt_driver_payout api ids stripe now later by s).1 in
        IsSettled after.db
        × ((now' later' : ℕ) (by' : RequestedBy)
            → let again = attempt_driver_payout api ids stripe now' later' by' after in
              (again.0 ≡ ok (completed after.db.payout.stripe_transfer_id (some already_completed)))
              × (again.1.world ≡ after.world)
              × IsSettled again.1.db)
  attempt-IsFinal now later by s r e t =
      let done = attempt-settles now later by s r e t in
      (done, λ now' later' by'. IsSettled-repeats now' later' by' _ done)
