-- ===== src/Payments/Cancellation/Direct.antt =====
-- A direct charge waits for the payout worker (`captureDelivery` of
-- src/payments/delayed-booking-payments.service.ts).
use transpo24_backend_nest_j.Base.{
  ℕ, ◌≡◌, inl, inr, Bool-cases, true, false, Option, none, some, is_some, arith,
}
use transpo24_backend_nest_j.Payments.State.{Hold}
use transpo24_backend_nest_j.Payments.Stripe.{
  M, St, StripeApi, ◌>>=◌, ◌>>◌, transaction, pure, match_option,
}
use transpo24_backend_nest_j.Payments.Calls.{bind_world_at, KeepsWorld-pure}
use transpo24_backend_nest_j.Payments.Captures.{KeptByOthers}
use transpo24_backend_nest_j.Payments.Captures.Operations.{process-no_capture}
use transpo24_backend_nest_j.Payments.Process.{process}
use transpo24_backend_nest_j.Payments.Commands.{begin_delivery, capture_delivery}

module _ {W : Type 0} where
  begin_delivery-waits :
      (now customer_id : ℕ) (hold : Hold) (s : St W)
      → s.db.booking_hold ≡ some hold
      → is_some hold.stripe_account_id ≡ true
      → (transaction (begin_delivery now customer_id false) s).1 ≡ s
  unfolding begin_delivery transaction ◌>>=◌
  begin_delivery-waits now customer_id hold s eh direct = ground arith

found_world :
    {W A B : Type 0} (P : W → Type 0) (o : Option A) (a : A) (m : M W B) (f : A → M W B) (s : St W)
    → o ≡ some a
    → P (f a s).1.world
    → P (match_option o m f s).1.world
unfolding match_option
found_world P o a m f s e h = rw e h

capture_then_process :
    {W : Type 0} {api : StripeApi W} {P : W → Type 0} (kept : KeptByOthers api P)
    (now later customer_id : ℕ) (hold : Hold) (s : St W)
    → s.db.booking_hold ≡ some hold
    → is_some hold.stripe_account_id ≡ true
    → hold.operation_kind ≡ none
    → P s.world
    → P
        ((transaction (begin_delivery now customer_id false) >> (process api later >> pure tt))
          s).1.world
capture_then_process {api = api} {P} kept now later customer_id hold s eh direct idle h =
    let waits = begin_delivery-waits now customer_id hold s eh direct in
    bind_world_at P (transaction (begin_delivery now customer_id false)) _ s (rw waits h) λ a e.
      rw waits (
        bind_world_at P (process api later) _ s (process-no_capture kept later s (rw eh idle) h)
          λ out e'.
            (KeepsWorld-pure {P = P} tt).at (process api later s).1
              (process-no_capture kept later s (rw eh idle) h))

-- The customer's confirmation alone captures nothing of a direct charge: what holds of Stripe's
-- world and is kept by every call but a capture still holds after `captureDelivery` without
-- `releaseNow`, if no operation was pending.
pub capture_delivery-no_capture :
    {W : Type 0} {api : StripeApi W} {P : W → Type 0} (kept : KeptByOthers api P)
    (now later customer_id : ℕ) (hold : Hold) (s : St W)
    → s.db.booking_hold ≡ some hold
    → is_some hold.stripe_account_id ≡ true
    → hold.operation_kind ≡ none
    → P s.world
    → P (capture_delivery api now later customer_id false s).1.world
unfolding capture_delivery ◌>>=◌
capture_delivery-no_capture {api = api} {P} kept now later customer_id hold s eh direct idle h =
    found_world P s.db.booking_hold hold _ _ s eh
      (elim (Bool-cases (is_some hold.confirmation_started_at)) [
        | inl started ↦
            rw started (capture_then_process kept now later customer_id hold s eh direct idle h)
        | inr legacy ↦ rw legacy h
      ])
