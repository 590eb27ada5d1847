-- ===== src/Payments/Rows.antt =====
-- Writes of one row, and the tests of the columns that
-- src/payments/delayed-booking-payments.service.ts makes.
use transpo24_backend_nest_j.Base.{
  ℕ, Bool, true, false, ◌||◌, Option, none, some, ◌∷◌, is_some, ok, err,
}
use transpo24_backend_nest_j.Payments.State.{
  ConfirmationState, PaymentStatus, PaymentProvider, OperationKind, Hold, Request, Settlement,
  Earning, Wallet, WalletTransaction, status_picked_up,
}
use transpo24_backend_nest_j.Payments.Stripe.{
  M, not_found, IntentStatus, Charge, no_charge, charge_id, expanded, modify,
}

abbrev pub map_row : {A : Type 0} → (A → A) → Option A → Option A
map_row f none = none
map_row f (some a) = some (f a)

abbrev upsert_row : {A : Type 0} → (A → A) → A → Option A → Option A
upsert_row f new none = some new
upsert_row f new (some old) = some (f old)

abbrev pub updated_hold : {W : Type 0} → Option Hold → (Hold → Hold) → M W Hold
updated_hold none f s = (err not_found, s)
updated_hold (some h) f s = (ok (f h), record s { db = record s.db { booking_hold = some (f h) } })

abbrev pub updated_request : {W : Type 0} → Option Request → (Request → Request) → M W (Unit {0})
updated_request none f s = (err not_found, s)
updated_request (some r) f s = (ok tt, record s { db = record s.db { request = some (f r) } })

abbrev pub updated_wallet : {W : Type 0} → Option Wallet → (Wallet → Wallet) → M W (Unit {0})
updated_wallet none f s = (err not_found, s)
updated_wallet (some w) f s = (ok tt, record s { db = record s.db { wallet = some (f w) } })

module _ {W : Type 0} where
  -- `paymentHold.update` by the hold's id; it returns the new row.
  unfoldable pub update_hold : (Hold → Hold) → M W Hold
  update_hold f s = updated_hold s.db.booking_hold f s

  -- `transportRequest.update`
  unfoldable pub update_request : (Request → Request) → M W (Unit {0})
  update_request f s = updated_request s.db.request f s

  -- `customerWallet.update`
  unfoldable pub update_wallet : (Wallet → Wallet) → M W (Unit {0})
  update_wallet f s = updated_wallet s.db.wallet f s

  -- `tripPaymentSettlement.updateMany`: a missing row is no error.
  unfoldable pub update_settlements : (Settlement → Settlement) → M W (Unit {0})
  unfolding modify
  update_settlements f = modify (λ db. record db { settlement = map_row f db.settlement })

  -- `tripPaymentSettlement.upsert`
  unfoldable pub upsert_settlement : (Settlement → Settlement) → Settlement → M W (Unit {0})
  unfolding modify
  upsert_settlement f new = modify (λ db. record db { settlement = upsert_row f new db.settlement })

  -- `driverEarning.upsert`
  unfoldable pub upsert_earning : (Earning → Earning) → Earning → M W (Unit {0})
  unfolding modify
  upsert_earning f new = modify (λ db. record db { earning = upsert_row f new db.earning })

  -- `customerWalletTransaction.create`
  unfoldable pub add_transaction : WalletTransaction → M W (Unit {0})
  unfolding modify
  add_transaction t = modify (λ db. record db { transactions = t ∷ db.transactions })

abbrev pub is_wallet : PaymentProvider → Bool
is_wallet PaymentProvider.app_wallet = true
is_wallet PaymentProvider.stripe = false

abbrev pub is_stripe : PaymentProvider → Bool
is_stripe PaymentProvider.stripe = true
is_stripe PaymentProvider.app_wallet = false

abbrev pub is_held : PaymentStatus → Bool
is_held PaymentStatus.held = true
is_held _ = false

abbrev pub is_payment_captured : PaymentStatus → Bool
is_payment_captured PaymentStatus.payment_captured = true
is_payment_captured _ = false

-- Captured, refunded or partially refunded.
abbrev pub is_collected : PaymentStatus → Bool
is_collected PaymentStatus.payment_captured = true
is_collected PaymentStatus.refunded = true
is_collected PaymentStatus.partially_refunded = true
is_collected _ = false

abbrev pub is_confirmed : ConfirmationState → Bool
is_confirmed ConfirmationState.confirmed = true
is_confirmed _ = false

abbrev pub is_state_cancelled : ConfirmationState → Bool
is_state_cancelled ConfirmationState.cancelled = true
is_state_cancelled _ = false

-- `['CONFIRMED', 'CAPTURED'].includes(state)`
abbrev pub is_confirmed_or_captured : ConfirmationState → Bool
is_confirmed_or_captured ConfirmationState.confirmed = true
is_confirmed_or_captured ConfirmationState.captured = true
is_confirmed_or_captured _ = false

abbrev pub is_manual_review : ConfirmationState → Bool
is_manual_review ConfirmationState.manual_review = true
is_manual_review _ = false

abbrev pub is_cancel : Option OperationKind → Bool
is_cancel (some OperationKind.cancel) = true
is_cancel _ = false

abbrev pub is_delivery : Option OperationKind → Bool
is_delivery (some OperationKind.delivery) = true
is_delivery _ = false

abbrev pub is_succeeded : IntentStatus → Bool
is_succeeded IntentStatus.succeeded = true
is_succeeded _ = false

abbrev pub is_intent_canceled : IntentStatus → Bool
is_intent_canceled IntentStatus.canceled = true
is_intent_canceled _ = false

abbrev pub is_requires_capture : IntentStatus → Bool
is_requires_capture IntentStatus.requires_capture = true
is_requires_capture _ = false

-- `latest_charge.amount_refunded`, nothing where the charge is not expanded.
abbrev pub refunded_of : Charge → ℕ
refunded_of (expanded id refunded capture_before) = refunded
refunded_of _ = 0

-- The charge's id. Nothing is `undefined`, at which an update keeps the column.
abbrev pub charge_id_of : Charge → Option ℕ
charge_id_of no_charge = none
charge_id_of (charge_id id) = some id
charge_id_of (expanded id refunded capture_before) = some id

abbrev pub or_keep : Option ℕ → Option ℕ → Option ℕ
or_keep none old = old
or_keep (some new) old = some new

-- `pickedUp(request)`
abbrev pub picked_up : Request → Bool
picked_up r = is_some r.item_picked_up_at || status_picked_up r.status
