-- ===== src/Payments/Wallets/Booking.antt =====
-- The worker's step for a wallet booking whose rows are found, `processLocked` of
-- src/payments/delayed-booking-payments.service.ts, part by part.
use transpo24_backend_nest_j.Base.{
  ℕ, ◌≡◌, ◌≢◌, inl, inr, refl, ap, ◌∙◌, not, ◌&&◌, ◌||◌, true, false, Bool, Bool-cases, Option,
  none, some, is_some, if◌then◌else◌, Result, ok, err, arith,
}
use transpo24_backend_nest_j.Base.Int.{int_laws}
use transpo24_backend_nest_j.Domain.{is_cancelled}
use transpo24_backend_nest_j.Payments.State.{
  ConfirmationState, PaymentStatus, Reason, Hold, Request, Wallet, Db, wallet_insufficient,
  offer_unavailable, deadline_passed,
}
use transpo24_backend_nest_j.Payments.Stripe.{
  M, St, StripeApi, Error, ◌>>=◌, ◌>>◌, pure, continue, match_option,
}
use transpo24_backend_nest_j.Payments.Rows.{
  is_wallet, is_confirmed, is_payment_captured, is_manual_review, is_state_cancelled,
}
use transpo24_backend_nest_j.Payments.Authorize.{
  cancel_tx, cancelled_hold, cancelled_request, held_hold, held_request,
}
use transpo24_backend_nest_j.Payments.Finish.{finish_operation}
use transpo24_backend_nest_j.Payments.Process.Intents.{
  process_wallet, process_unconfirmed, wallet_covers, countdown_runs,
}
use transpo24_backend_nest_j.Payments.Process.{
  unexpected_capture_seen, release_previous, needs_renewal, process_confirmed, must_check_offer,
  offer_stands, deadline_missed, process_current, process_open, process_booking,
}
use transpo24_backend_nest_j.Payments.Wallets.{IsWalletBooking, IsSoundStep}
use transpo24_backend_nest_j.Payments.Wallets.Rows.{
  release_or_reconcile-rows, cancel_tx-rows, reserve_wallet-rows,
}
use transpo24_backend_nest_j.Payments.Wallets.Steps.{rows-IsSoundStep, finish_operation-IsSoundStep}

continue-none :
    {W A : Type 0} (before : Db) (r : Result Error A) (s : St W)
    → IsSoundStep before (r, s)
    → IsSoundStep before (continue r (λ _. pure {A = Option Hold} none) s)
unfolding pure
continue-none before (ok a) s h = record { succeeds = tt; sound = h.sound }
continue-none before (err e) s h = absurd h.succeeds

-- Nothing follows a part of the step but the answer.
then_none :
    {W A : Type 0} (before : Db) (m : M W A) (s : St W)
    → IsSoundStep before (m s)
    → IsSoundStep before ((m >> pure {A = Option Hold} none) s)
unfolding ◌>>=◌
then_none before m s h = continue-none before (m s).0 (m s).1 h

cancelled-IsWalletBooking :
    (now : ℕ) (reason : Reason) (h : Hold) (r : Request)
    → IsWalletBooking h r
    → h.operation_kind ≡ none
    → h.status ≢ PaymentStatus.payment_captured
    → IsWalletBooking (cancelled_hold now reason h) (cancelled_request r r)
cancelled-IsWalletBooking now reason h r b op st = grind arith

held-IsWalletBooking :
    (now : ℕ) (h : Hold) (r : Request)
    → IsWalletBooking h r
    → h.operation_kind ≡ none
    → IsWalletBooking (held_hold now h none none h) (held_request h (held_hold now h none none h) r)
held-IsWalletBooking now h r b op = grind arith

if_true :
    {W A : Type 0} {before : Db} (c : Bool) (m n : M W A) (s : St W)
    → c ≡ true
    → IsSoundStep before (m s)
    → IsSoundStep before ((if c then m else n) s)
if_true true m n s e h = h
if_true false m n s e h = cc

-- A booking whose rows a step of the worker has found.
module _ {W : Type 0} (api : StripeApi W) (now : ℕ) (hold : Hold) (request : Request) (w : Wallet)
    (s : St W) (eh : s.db.booking_hold ≡ some hold) (er : s.db.request ≡ some request)
    (ew : s.db.wallet ≡ some w) (b : IsWalletBooking hold request) where
  pub nothing-IsSoundStep : {A : Type 0} (a : A) → IsSoundStep s.db (pure {W = W} a s)
  unfolding pure
  nothing-IsSoundStep a =
      rows-IsSoundStep s.db _ hold hold request request w w refl eh er ew eh er ew refl refl b

  cancel_tx-IsSoundStep :
      (reason : Reason)
      → hold.operation_kind ≡ none
      → hold.status ≢ PaymentStatus.payment_captured
      → IsSoundStep s.db (cancel_tx api now hold request reason s)
  cancel_tx-IsSoundStep reason op st =
      let t = cancel_tx-rows api now hold request reason w s eh er ew b.provider in
      let c = release_or_reconcile-rows api now hold w s ew b.provider in
      rows-IsSoundStep s.db _ hold _ request _ w _ t.0 eh er ew t.1 t.2 (t.3 ∙ c.3)
        (grind (int_laws, b.provider)) (ground arith)
        (cancelled-IsWalletBooking now reason hold request b op st)

  cancel_then :
      (reason : Reason)
      → hold.operation_kind ≡ none
      → hold.status ≢ PaymentStatus.payment_captured
      → IsSoundStep s.db ((cancel_tx api now hold request reason >> pure {A = Option Hold} none) s)
  cancel_then reason op st =
      then_none s.db (cancel_tx api now hold request reason) s (cancel_tx-IsSoundStep reason op st)

  process_wallet-IsSoundStep :
      hold.operation_kind ≡ none
      → hold.status ≢ PaymentStatus.payment_captured
      → hold.status ≢ PaymentStatus.held
      → IsSoundStep s.db (process_wallet api now hold request s)
  unfolding process_wallet ◌>>=◌
  process_wallet-IsSoundStep op st nh =
      let t = reserve_wallet-rows now hold request w s eh er ew in
      elim (Bool-cases (wallet_covers hold s.db.wallet)) [
        | inl covered ↦ rw covered (
            rows-IsSoundStep s.db _ hold _ request _ w _ t.0 eh er ew t.1 t.2 t.3
              (grind (int_laws, b.provider)) (grind (int_laws, b.uncaptured))
              (held-IsWalletBooking now hold request b op))
        | inr short ↦ rw short (cancel_then wallet_insufficient op st)
      ]

  process_unconfirmed-IsSoundStep :
      hold.operation_kind ≡ none
      → hold.status ≢ PaymentStatus.payment_captured
      → hold.status ≢ PaymentStatus.held
      → IsSoundStep s.db (process_unconfirmed api now hold request s)
  unfolding process_unconfirmed
  process_unconfirmed-IsSoundStep op st nh = elim (Bool-cases (countdown_runs now hold)) [
    | inl runs ↦ rw runs (nothing-IsSoundStep none)
    | inr over ↦ rw over (
        if_true (is_wallet hold.provider) _ _ s (ap is_wallet b.provider)
          (process_wallet-IsSoundStep op st nh))
  ]

  process_confirmed-same : process_confirmed api now hold request s ≡ pure (some hold) s
  unfolding process_confirmed needs_renewal
  process_confirmed-same = ground (arith, b.provider)

  process_current-IsSoundStep :
      hold.operation_kind ≡ none
      → hold.status ≢ PaymentStatus.payment_captured
      → hold.confirmation_state ≢ ConfirmationState.manual_review
      → IsSoundStep s.db (process_current api now hold request s)
  unfolding process_current ◌>>=◌
  process_current-IsSoundStep op st nm =
      elim (Bool-cases
        (must_check_offer now hold request && not (offer_stands request s.db.offer))) [
          | inl gone ↦ rw gone (cancel_then offer_unavailable op st)
          | inr stands ↦ rw stands (elim (Bool-cases (is_confirmed hold.confirmation_state)) [
            | inl c ↦ rw c (rw process_confirmed-same (nothing-IsSoundStep (some hold)))
            | inr c ↦ rw c (process_unconfirmed-IsSoundStep op st (grind (arith, b.held_confirmed)))
          ])
        ]

  process_open-IsSoundStep :
      hold.operation_kind ≡ none → IsSoundStep s.db (process_open api now hold request s)
  unfolding process_open
  process_open-IsSoundStep op =
      elim (Bool-cases
        (is_cancelled request.status || is_state_cancelled hold.confirmation_state)) [
          | inl ended ↦ rw ended (elim (Bool-cases (is_state_cancelled hold.confirmation_state)) [
            | inl done ↦ rw done (nothing-IsSoundStep none)
            | inr left ↦ rw left (cancel_then _ op (grind (arith, b.captured_closed)))
          ])
          | inr going ↦
              rw going
                (elim (Bool-cases
                  (is_manual_review hold.confirmation_state || is_payment_captured hold.status)) [
                    | inl settled ↦ rw settled (nothing-IsSoundStep none)
                    | inr unsettled ↦
                        rw unsettled (elim (Bool-cases (deadline_missed now hold request)) [
                          | inl late ↦ rw late (cancel_then deadline_passed op (grind arith))
                          | inr due ↦
                              rw due (process_current-IsSoundStep op (grind arith) (grind arith))
                        ])
                  ])
        ]

  seen-same : unexpected_capture_seen api now hold request s ≡ pure false s
  unfolding unexpected_capture_seen
  seen-same = ground (arith, b.provider)

  previous-same : release_previous api hold s ≡ pure hold s
  unfolding release_previous match_option
  previous-same = ground (arith, b.no_previous)

  pub process_booking-IsSoundStep : IsSoundStep s.db (process_booking api now hold request s)
  unfolding process_booking ◌>>=◌
  process_booking-IsSoundStep =
      rw (seen-same, previous-same)
        (elim (Bool-cases (is_some hold.operation_kind)) [
          | inl pending ↦ rw pending (
              then_none s.db (finish_operation api now hold request) s
                (finish_operation-IsSoundStep api now hold request w s eh er ew b pending))
          | inr idle ↦ rw idle (process_open-IsSoundStep (ground arith))
        ])

pub process_booking-finishes :
    {W : Type 0} (api : StripeApi W) (now : ℕ) (hold : Hold) (request : Request) (w : Wallet)
    (s : St W)
    → s.db.booking_hold ≡ some hold
    → s.db.request ≡ some request
    → s.db.wallet ≡ some w
    → IsWalletBooking hold request
    → is_some hold.operation_kind ≡ true
    → process_booking api now hold request s
      ≡ (finish_operation api now hold request >> pure none) s
unfolding process_booking ◌>>=◌
process_booking-finishes api now hold request w s eh er ew b pending = rw (
  seen-same api now hold request w s eh er ew b,
  previous-same api now hold request w s eh er ew b,
  pending,
)
