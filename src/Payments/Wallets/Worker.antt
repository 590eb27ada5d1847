-- ===== src/Payments/Wallets/Worker.antt =====
-- The worker's step for a wallet booking as a whole, `process` of
-- src/payments/delayed-booking-payments.service.ts: it succeeds, conserves the money in the wallet,
-- and keeps what the rows hold.
use transpo24_backend_nest_j.Base.{
  get_or, ℕ, ◌≡◌, inl, inr, refl, true, Bool-cases, Option, none, some, is_some, Result, ok, err,
}
use transpo24_backend_nest_j.Payments.State.{Hold, Request, Wallet, Db}
use transpo24_backend_nest_j.Payments.Stripe.{
  M, St, StripeApi, Error, ◌>>=◌, catch, transaction, with_db, rescue, settle,
}
use transpo24_backend_nest_j.Payments.Rows.{is_cancel}
use transpo24_backend_nest_j.Payments.Finish.{finished_hold}
use transpo24_backend_nest_j.Payments.Process.{
  process_booking, process_rows, process_locked, process,
}
use transpo24_backend_nest_j.Payments.Wallets.{IsWalletBooking, WalletRows, IsSoundStep}
use transpo24_backend_nest_j.Payments.Wallets.Steps.{finish_operation-hold}
use transpo24_backend_nest_j.Payments.Wallets.Booking.{
  nothing-IsSoundStep, process_booking-IsSoundStep, process_booking-finishes,
}

process_rows-found :
    {W : Type 0} (api : StripeApi W) (now : ℕ) (hold : Hold) (request : Request) (h : Option Hold)
    (r : Option Request) (s : St W)
    → h ≡ some hold
    → r ≡ some request
    → is_some hold.confirmation_started_at ≡ true
    → process_rows api now h r s ≡ process_booking api now hold request s
unfolding process_rows
process_rows-found api now hold request h r s eh er started = rw (eh, er, started)

settle_sound :
    {W A : Type 0} (before start : Db) (r : Result Error A) (s : St W)
    → IsSoundStep before (r, s)
    → IsSoundStep before (settle r start s)
settle_sound before start (ok a) s h = h
settle_sound before start (err e) s h = absurd h.succeeds

rescue_sound :
    {W A : Type 0} (before : Db) (r : Result Error A) (handle : Error → M W A) (s : St W)
    → IsSoundStep before (r, s)
    → IsSoundStep before (rescue r handle s)
rescue_sound before (ok a) handle s h = h
rescue_sound before (err e) handle s h = absurd h.succeeds

process_rows-IsSoundStep :
    {W : Type 0} (api : StripeApi W) (now : ℕ) (h : Option Hold) (r : Option Request)
    (w : Option Wallet) (s : St W)
    → s.db.booking_hold ≡ h
    → s.db.request ≡ r
    → s.db.wallet ≡ w
    → WalletRows h r w
    → IsSoundStep s.db (process_rows api now h r s)
unfolding process_rows
process_rows-IsSoundStep api now (some h) (some r) (some w) s eh er ew b =
    elim (Bool-cases (is_some h.confirmation_started_at)) [
      | inl delayed ↦ rw delayed (process_booking-IsSoundStep api now h r w s eh er ew b)
      | inr legacy ↦ rw legacy (nothing-IsSoundStep api now h r w s eh er ew b none)
    ]
process_rows-IsSoundStep api now none r w s eh er ew b = absurd b
process_rows-IsSoundStep api now (some h) none w s eh er ew b = absurd b
process_rows-IsSoundStep api now (some h) (some r) none s eh er ew b = absurd b

-- For a booking that is paid from the wallet and whose rows are consistent, whatever state it is
-- in, the worker's step succeeds; it changes the wallet's reserve by exactly what this booking
-- reserves more or less, it changes the balance by exactly what the booking captures, and it leaves
-- consistent rows.
pub process-conserves_wallet :
    {W : Type 0} (api : StripeApi W) (now : ℕ) (s : St W)
    → WalletRows s.db.booking_hold s.db.request s.db.wallet
    → IsSoundStep s.db (process api now s)
unfolding process process_locked catch transaction with_db
process-conserves_wallet api now s b =
    let (r, s') = process_rows api now s.db.booking_hold s.db.request s in
    rescue_sound s.db (settle r s.db s').0 _ (settle r s.db s').1 (
      settle_sound s.db s.db r s' (
        process_rows-IsSoundStep api now s.db.booking_hold s.db.request s.db.wallet s refl refl refl
          b))

-- A pending operation is carried through by the next step.
pub process-finishes :
    {W : Type 0} (api : StripeApi W) (now : ℕ) (hold : Hold) (request : Request) (w : Wallet)
    (s : St W)
    → s.db.booking_hold ≡ some hold
    → s.db.request ≡ some request
    → s.db.wallet ≡ some w
    → IsWalletBooking hold request
    → is_some hold.confirmation_started_at ≡ true
    → is_some hold.operation_kind ≡ true
    → let (r, s') = process api now s in
      (r ≡ ok none)
      × (s'.db.booking_hold
          ≡ some (
              finished_hold now
                (is_cancel hold.operation_kind)
                (get_or hold.operation_amount 0)
                hold))
unfolding process process_locked catch transaction with_db ◌>>=◌
process-finishes api now hold request w s eh er ew b started pending =
    let t = finish_operation-hold api now hold request w s eh er ew b.provider in
    rw
      (
        process_rows-found api now hold request s.db.booking_hold s.db.request s eh er started,
        process_booking-finishes api now hold request w s eh er ew b pending,
        t.0,
      )
      (refl, t.1)
