-- ===== src/Payouts/Outcome.antt =====
-- What an attempt that answers `transferred` leaves (`attemptDriverPayoutForTrip` of
-- src/payments/payments.service.ts).
pub mod Attempts
pub mod Repeats
use transpo24_backend_nest_j.Base.{
  ℕ, ◌≡◌, refl, inl, inr, Bool-cases, Bool, true, false, not, ◌&&◌, ◌||◌, Option, none, some,
  is_some, if◌then◌else◌, Result, ok, err, arith,
}
use transpo24_backend_nest_j.Payments.State.{
  DriverPayoutState, EarningStatus, Reason, Settlement, Earning, PayoutRow, Db,
}
use transpo24_backend_nest_j.Payments.Stripe.{
  M, St, StripeApi, Error, pure, throw, gets, call, catch, match_option, transaction, ◌>>=◌, ◌>>◌,
  continue, rescue,
}
use transpo24_backend_nest_j.Payouts.State.{
  TripIds, PayoutContext, payout_context, is_transferred, PayoutApi,
}
use transpo24_backend_nest_j.Payouts.Updates
use transpo24_backend_nest_j.Payouts.Updates.{
  RequestedBy, PayoutResult, completed, not_transferred, update_payout, update_earning,
  mark_settlement_paid_out, require_review, refuse_payout, make_available, claim_direct,
  record_transfer, settle_transfer, begin_transfer,
}
use transpo24_backend_nest_j.Payouts.Attempt.{
  schedule_retry, fail_driver_payout_attempt, postpone, notify_funds, release_direct, verify_direct,
  capture_first, platform_pays_fees, pay_direct, transfer_funds, transfer_failed, pay_destination,
  pay_platform, pay_available, attempt_context, attempt_driver_payout,
}
use transpo24_backend_nest_j.Payouts.Keeping.{KeepsRows, kept_rules, notify_funds-KeepsRows}

abbrev is_paid_state : DriverPayoutState → Bool
is_paid_state DriverPayoutState.paid_out = true
is_paid_state _ = false

abbrev pub settled_context : Option PayoutContext → Bool
settled_context none = false
settled_context (some c) = is_transferred c && is_paid_state c.settlement.driver_payout_state

-- The earning is paid, and the settlement says so.
unfoldable pub is_settled : Db → Bool
is_settled db = settled_context (payout_context db)

-- A trip with an earning, a settlement and their rows.
unfoldable pub has_context : Db → Bool
has_context db = is_some (payout_context db)

abbrev pub HasContext : Db → Type 0
HasContext db = has_context db ≡ true

abbrev pub IsSettled : Db → Type 0
IsSettled db = is_settled db ≡ true

-- An attempt on such rows that answers `transferred` leaves them settled.
pub record IsPaying {W : Type 0} (R : Db → Type 0) (m : M W PayoutResult) : Type 0 where
  pub at :
      (s : St W) (r : PayoutResult)
      → R s.db
      → (m s).0 ≡ ok r
      → r.transferred ≡ true
      → IsSettled (m s).1.db

module _ {W : Type 0} where
  pub claim_direct-settles :
      (now : ℕ) (s : St W) → has_context s.db ≡ true → is_settled (claim_direct now s).1.db ≡ true
  unfolding claim_direct transaction ◌>>=◌ has_context is_settled payout_context is_transferred
  claim_direct-settles now s h = ground arith

  pub mark_settlement-settles :
      (c : PayoutContext) (s : St W)
      → payout_context s.db ≡ some c
      → is_transferred c ≡ true
      → is_settled (mark_settlement_paid_out s).1.db ≡ true
  unfolding mark_settlement_paid_out is_settled payout_context is_transferred
  mark_settlement-settles c s h p = ground arith

  pub record_transfer-records :
      (now id : ℕ) (s : St W)
      → has_context s.db ≡ true
      → (has_context (record_transfer now id s).1.db ≡ true)
        × ((record_transfer now id s).1.db.payout.stripe_transfer_id ≡ some id)
  unfolding record_transfer has_context payout_context
  record_transfer-records now id s h = ground arith

  pub settle_transfer-settles :
      (now id : ℕ) (s : St W)
      → has_context s.db ≡ true
      → s.db.payout.stripe_transfer_id ≡ some id
      → is_settled (settle_transfer now s).1.db ≡ true
  unfolding settle_transfer has_context is_settled payout_context is_transferred
  settle_transfer-settles now id s h e = ground arith

module _ {W : Type 0} (R R' : Db → Type 0) where
  pub continued_pays :
      {A : Type 0} (q : Result Error A) (f : A → M W PayoutResult) (s : St W) (r : PayoutResult)
      → ((a : A) → IsPaying R (f a))
      → R s.db
      → (continue q f s).0 ≡ ok r
      → r.transferred ≡ true
      → IsSettled (continue q f s).1.db
  continued_pays (ok a) f s r k h e t = (k a).at s r h e t
  continued_pays (err x) f s r k h e t = cc

  rescued_pays :
      (q : Result Error PayoutResult) (handle : Error → M W PayoutResult) (s : St W)
      (r : PayoutResult)
      → (q ≡ ok r → IsSettled s.db)
      → ((e : Error) → IsPaying R (handle e))
      → R s.db
      → (rescue q handle s).0 ≡ ok r
      → r.transferred ≡ true
      → IsSettled (rescue q handle s).1.db
  rescued_pays (ok a) handle s r done k h e t = done e
  rescued_pays (err x) handle s r done k h e t = (k x).at s r h e t

  -- The rows that the first part leaves are what the rest relies on.
  pub IsPaying-to :
      {A : Type 0} (m : M W A) (f : A → M W PayoutResult)
      → ((s : St W) → R' s.db → R (m s).1.db)
      → ((a : A) → IsPaying R (f a))
      → IsPaying R' (m >>= f)
  unfolding ◌>>=◌
  IsPaying-to m f k kf = record {
    at = λ s r h e t. continued_pays (m s).0 f (m s).1 r kf (k s h) e t;
  }

module _ {W : Type 0} {R : Db → Type 0} where
  pub IsPaying-bind :
      {A : Type 0} (m : M W A) (f : A → M W PayoutResult)
      → KeepsRows R m
      → ((a : A) → IsPaying R (f a))
      → IsPaying R (m >>= f)
  IsPaying-bind m f k kf = IsPaying-to R R m f (λ s h. k.at s h) kf

  pub IsPaying-refused : (reason : Reason) → IsPaying {W = W} R (pure (not_transferred reason))
  unfolding pure
  IsPaying-refused reason = record { at = λ s r h e t. ground arith }

  pub IsPaying-if :
      (b : Bool) (m n : M W PayoutResult)
      → IsPaying R m
      → IsPaying R n
      → IsPaying R (if b then m else n)
  IsPaying-if true m n km kn = km
  IsPaying-if false m n km kn = kn

  pub IsPaying-option :
      {A : Type 0} (o : Option A) (m : M W PayoutResult) (f : A → M W PayoutResult)
      → IsPaying R m
      → ((a : A) → IsPaying R (f a))
      → IsPaying R (match_option o m f)
  unfolding match_option
  IsPaying-option none m f km kf = km
  IsPaying-option (some a) m f km kf = kf a

  pub IsPaying-catch :
      (m : M W PayoutResult) (handle : Error → M W PayoutResult)
      → KeepsRows R m
      → IsPaying R m
      → ((e : Error) → IsPaying R (handle e))
      → IsPaying R (catch m handle)
  unfolding catch
  IsPaying-catch m handle k km kh = record {
    at = λ s r h e t.
        rescued_pays R R (m s).0 handle (m s).1 r (λ q. km.at s r h q t) kh (k.at s h) e t;
  }

module _ {W : Type 0} where
  -- Once the rows are settled, the rest of an attempt leaves them so.
  pub IsPaying-IsSettled : (m : M W PayoutResult) → KeepsRows IsSettled m → IsPaying IsSettled m
  IsPaying-IsSettled m k = record { at = λ s r h e t. k.at s h }

pub ruleset paying_rules =
    (kept_rules, IsPaying-bind, IsPaying-refused, IsPaying-if, IsPaying-option, IsPaying-catch)
