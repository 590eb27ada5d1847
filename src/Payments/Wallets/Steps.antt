-- ===== src/Payments/Wallets/Steps.antt =====
-- Each part of a worker's step is sound for a wallet booking
-- (src/payments/delayed-booking-payments.service.ts).
use transpo24_backend_nest_j.Base.{
  Bool, true, false, if◌then◌else◌, ℕ, ◌≡◌, ◌∙◌, inl, inr, Bool-cases, true, some, is_some, get_or,
  ltb, Result, ok, arith,
}
use transpo24_backend_nest_j.Base.Int.{pos, ◌+ℤ◌, ◌-ℤ◌, int_laws}
use transpo24_backend_nest_j.Payments.State.{PaymentProvider, Hold, Request, Wallet, Db}
use transpo24_backend_nest_j.Payments.Stripe.{St, StripeApi, Error}
use transpo24_backend_nest_j.Payments.Rows.{is_cancel}
use transpo24_backend_nest_j.Payments.Reconcile.{release_or_reconcile}
use transpo24_backend_nest_j.Payments.Finish.{
  finish_operation, collect_wallet, finished_hold, finished_request,
}
use transpo24_backend_nest_j.Payments.Wallets.{IsWalletBooking, IsSound, IsSoundStep, reserved_part}
use transpo24_backend_nest_j.Payments.Wallets.Rows.{
  settle_operation-rows, collect_wallet-rows, release_or_reconcile-rows, finish_operation-paid,
}

-- Soundness from the rows before and after.
rows-IsSound :
    (before after : Db) (h h' : Hold) (r r' : Request) (w w' : Wallet)
    → before.booking_hold ≡ some h
    → before.request ≡ some r
    → before.wallet ≡ some w
    → after.booking_hold ≡ some h'
    → after.request ≡ some r'
    → after.wallet ≡ some w'
    → w'.reserved_balance -ℤ pos (reserved_part h') ≡ w.reserved_balance -ℤ pos (reserved_part h)
    → w'.balance +ℤ pos r'.captured_amount ≡ w.balance +ℤ pos r.captured_amount
    → IsWalletBooking h' r'
    → IsSound before after
rows-IsSound before after h h' r r' w w' eh er ew eh' er' ew' reserves funds b = record {
  conserved = record {
    reserves = rw (eh, ew, eh', ew') reserves;
    funds = rw (er, ew, er', ew') funds;
  };
  rows = rw (eh', er', ew') b;
}

pub rows-IsSoundStep :
    {W A : Type 0} {a : A} (before : Db) (out : Result Error A × St W) (h h' : Hold)
    (r r' : Request) (w w' : Wallet)
    → out.0 ≡ ok a
    → before.booking_hold ≡ some h
    → before.request ≡ some r
    → before.wallet ≡ some w
    → out.1.db.booking_hold ≡ some h'
    → out.1.db.request ≡ some r'
    → out.1.db.wallet ≡ some w'
    → w'.reserved_balance -ℤ pos (reserved_part h') ≡ w.reserved_balance -ℤ pos (reserved_part h)
    → w'.balance +ℤ pos r'.captured_amount ≡ w.balance +ℤ pos r.captured_amount
    → IsWalletBooking h' r'
    → IsSoundStep before out
rows-IsSoundStep before out h h' r r' w w' e eh er ew eh' er' ew' reserves funds b = record {
  succeeds = rw e tt;
  sound = rows-IsSound before out.1.db h h' r r' w w' eh er ew eh' er' ew' reserves funds b;
}

finished-IsWalletBooking :
    (now : ℕ) (h : Hold) (r : Request) (amount : ℕ)
    → IsWalletBooking h r
    → is_some h.operation_kind ≡ true
    → IsWalletBooking
        (finished_hold now (is_cancel h.operation_kind) amount h)
        (finished_request (is_cancel h.operation_kind) amount r)
finished-IsWalletBooking now h r amount b op = grind arith

module _ {W : Type 0} (api : StripeApi W) where
  pub finish_operation-IsSoundStep :
      (now : ℕ) (hold : Hold) (request : Request) (w : Wallet) (s : St W)
      → s.db.booking_hold ≡ some hold
      → s.db.request ≡ some request
      → s.db.wallet ≡ some w
      → IsWalletBooking hold request
      → is_some hold.operation_kind ≡ true
      → IsSoundStep s.db (finish_operation api now hold request s)
  finish_operation-IsSoundStep now hold request w s eh er ew b op =
      let amount = get_or hold.operation_amount 0 in
      rw (finish_operation-paid api now hold request w s ew b.provider)
        (elim (Bool-cases (ltb 0 amount)) [
          | inl due ↦ rw due (
              let c = collect_wallet-rows hold amount w s ew in
              let t =
                settle_operation-rows now hold request amount (collect_wallet hold amount s).1
                  (c.1 ∙ eh) (c.2 ∙ er) in
              rows-IsSoundStep s.db _ hold _ request _ w _ t.0 eh er ew t.1 t.2 (t.3 ∙ c.3)
                (grind (int_laws, b.operation_held op)) (grind (int_laws, b.uncaptured))
                (finished-IsWalletBooking now hold request amount b op))
          | inr free ↦ rw free (
              let c = release_or_reconcile-rows api now hold w s ew b.provider in
              let t =
                settle_operation-rows now hold request amount
                  (release_or_reconcile api now hold s).1 (c.1 ∙ eh) (c.2 ∙ er) in
              rows-IsSoundStep s.db _ hold _ request _ w _ t.0 eh er ew t.1 t.2 (t.3 ∙ c.3)
                (grind int_laws) (grind (int_laws, b.uncaptured, b.operation_open op))
                (finished-IsWalletBooking now hold request amount b op))
        ])

  collected-rows :
      (now : ℕ) (hold : Hold) (amount : ℕ) (w : Wallet) (s : St W) (due : Bool)
      → s.db.wallet ≡ some w
      → hold.provider ≡ PaymentProvider.app_wallet
      → let s' =
          (if due
            then (collect_wallet hold amount s).1
            else (release_or_reconcile api now hold s).1) in
        (s'.db.booking_hold ≡ s.db.booking_hold) × (s'.db.request ≡ s.db.request)
  collected-rows now hold amount w s true ew ep =
      let c = collect_wallet-rows hold amount w s ew in (c.1, c.2)
  collected-rows now hold amount w s false ew ep =
      let c = release_or_reconcile-rows api now hold w s ew ep in (c.1, c.2)

  -- The row that a pending operation leaves.
  pub finish_operation-hold :
      (now : ℕ) (hold : Hold) (request : Request) (w : Wallet) (s : St W)
      → s.db.booking_hold ≡ some hold
      → s.db.request ≡ some request
      → s.db.wallet ≡ some w
      → hold.provider ≡ PaymentProvider.app_wallet
      → let (r, s') = finish_operation api now hold request s in
        (r ≡ ok tt)
        × (s'.db.booking_hold
            ≡ some (
                finished_hold now
                  (is_cancel hold.operation_kind)
                  (get_or hold.operation_amount 0)
                  hold))
  finish_operation-hold now hold request w s eh er ew ep =
      let amount = get_or hold.operation_amount 0 in
      let c = collected-rows now hold amount w s (ltb 0 amount) ew ep in
      let t = settle_operation-rows now hold request amount _ (c.0 ∙ eh) (c.1 ∙ er) in
      rw (finish_operation-paid api now hold request w s ew ep) (t.0, t.1)
