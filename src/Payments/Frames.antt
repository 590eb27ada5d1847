-- ===== src/Payments/Frames.antt =====
-- What the releases of src/payments/delayed-booking-payments.service.ts leave alone: cancelling an
-- intent at Stripe changes no row.
use transpo24_backend_nest_j.Base.{ℕ, ◌≡◌, refl, Bool, Option, none, some, arith}
use transpo24_backend_nest_j.Payments.State.{PaymentProvider, Hold}
use transpo24_backend_nest_j.Payments.Stripe.{St, StripeApi, ◌>>=◌, catch}
use transpo24_backend_nest_j.Payments.Reconcile.{
  release_stripe_intent, release_optional, release_wallet, release,
}

module _ {W : Type 0} (api : StripeApi W) where
  pub release_stripe_intent-db :
      (id : ℕ) (account : Option ℕ) (allow : Bool) (s : St W)
      → (release_stripe_intent api id account allow s).1.db ≡ s.db
  unfolding release_stripe_intent ◌>>=◌ catch
  release_stripe_intent-db id account allow s = ground arith

  pub release_optional-db :
      (id account : Option ℕ) (allow : Bool) (s : St W)
      → (release_optional api id account allow s).1.db ≡ s.db
  unfolding release_optional ◌>>=◌
  release_optional-db none account allow s = refl
  release_optional-db (some id) account allow s = release_stripe_intent-db id account allow s

  -- Releasing a card's authorisation changes no row.
  pub release-db :
      (hold : Hold) (allow : Bool) (s : St W)
      → hold.provider ≡ PaymentProvider.stripe
      → (release api hold allow s).1.db ≡ s.db
  unfolding release release_wallet ◌>>=◌
  release-db hold allow s e = ground (
    arith,
    release_optional-db hold.stripe_payment_intent_id hold.stripe_account_id allow s,
    release_optional-db hold.previous_stripe_payment_intent_id hold.stripe_account_id allow
        (release_optional api hold.stripe_payment_intent_id hold.stripe_account_id allow s).1,
  )
