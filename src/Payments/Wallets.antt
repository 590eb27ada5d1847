-- ===== src/Payments/Wallets.antt =====
-- The money of a booking that is paid from the customer's wallet, under the worker's step of
-- src/payments/delayed-booking-payments.service.ts: what is conserved, and what the rows keep.
mod Rows
mod Steps
mod Booking
pub mod Worker
use transpo24_backend_nest_j.Base.{
  ℕ, ◌<◌, ◌≡◌, ◌≢◌, ◌⊎◌, true, false, ◌&&◌, Option, none, some, is_some, get_or, if◌then◌else◌,
  Result, ok, err, arith,
}
use transpo24_backend_nest_j.Base.Int.{ℤ, pos, ◌+ℤ◌, ◌-ℤ◌}
use transpo24_backend_nest_j.Domain.{is_cancelled}
use transpo24_backend_nest_j.Payments.State.{
  ConfirmationState, PaymentStatus, PaymentProvider, Hold, Request, Wallet, Db,
}
use transpo24_backend_nest_j.Payments.Stripe.{St, Error}
use transpo24_backend_nest_j.Payments.Rows.{is_wallet, is_held, is_delivery}

-- What the booking holds back in the wallet.
abbrev pub reserved_part : Hold → ℕ
reserved_part h = if is_wallet h.provider && is_held h.status then h.amount else 0

-- The wallet's reserve without this booking's part, and its balance with what the booking took.
abbrev pub other_reserves : Option Hold → Option Wallet → ℤ
other_reserves (some h) (some w) = w.reserved_balance -ℤ pos (reserved_part h)
other_reserves _ _ = pos 0

abbrev pub funds_before : Option Request → Option Wallet → ℤ
funds_before (some r) (some w) = w.balance +ℤ pos r.captured_amount
funds_before _ _ = pos 0

-- The step neither creates nor loses money in the wallet.
pub record IsConserved (before after : Db) : Type 0 where
  pub reserves :
      other_reserves after.booking_hold after.wallet
      ≡ other_reserves before.booking_hold before.wallet
  pub funds : funds_before after.request after.wallet ≡ funds_before before.request before.wallet

-- What holds of the rows of a wallet booking between two steps.
pub record IsWalletBooking (h : Hold) (r : Request) : Type 0 where
  pub provider : h.provider ≡ PaymentProvider.app_wallet
  pub no_previous : h.previous_stripe_payment_intent_id ≡ none
  pub held_confirmed :
      h.status ≡ PaymentStatus.held
      → h.operation_kind ≡ none
      → (h.confirmation_state ≡ ConfirmationState.confirmed)
        ⊎ (h.confirmation_state ≡ ConfirmationState.manual_review)
  pub operation_held :
      is_some h.operation_kind ≡ true
      → 0 < get_or h.operation_amount 0
      → h.status ≡ PaymentStatus.held
  pub operation_open : is_some h.operation_kind ≡ true → h.status ≢ PaymentStatus.payment_captured
  pub uncaptured : h.status ≢ PaymentStatus.payment_captured → r.captured_amount ≡ 0
  pub captured_closed :
      h.status ≡ PaymentStatus.payment_captured
      → (h.confirmation_state ≡ ConfirmationState.cancelled) ⊎ (is_cancelled r.status ≡ false)
  pub delivery_open : is_delivery h.operation_kind ≡ true → is_cancelled r.status ≡ false

abbrev pub WalletRows : Option Hold → Option Request → Option Wallet → Type 0
WalletRows (some h) (some r) (some w) = IsWalletBooking h r
WalletRows _ _ _ = ⊥

-- The rows after a step, against those before it.
pub record IsSound (before after : Db) : Type 0 where
  pub conserved : IsConserved before after
  pub rows : WalletRows after.booking_hold after.request after.wallet

-- The step ended without an error.
abbrev pub Succeeds : {A : Type 0} → Result Error A → Type 0
Succeeds (ok a) = Unit {0}
Succeeds (err e) = ⊥

pub record IsSoundStep {W A : Type 0} (before : Db) (out : Result Error A × St W) : Type 0 where
  pub succeeds : Succeeds out.0
  pub sound : IsSound before out.1.db
