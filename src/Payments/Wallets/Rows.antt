-- ===== src/Payments/Wallets/Rows.antt =====
-- The rows that each part of a worker's step leaves for a wallet booking
-- (src/payments/delayed-booking-payments.service.ts).
use transpo24_backend_nest_j.Base.{ℕ, ◌≡◌, true, none, some, get_or, ltb, if◌then◌else◌, ok, arith}
use transpo24_backend_nest_j.Base.Int.{pos, ◌+ℤ◌, ◌-ℤ◌}
use transpo24_backend_nest_j.Payments.State.{PaymentProvider, Reason, Hold, Request, Wallet}
use transpo24_backend_nest_j.Payments.Stripe.{St, StripeApi, ◌>>=◌, catch}
use transpo24_backend_nest_j.Payments.Rows.{
  update_hold, update_request, update_wallet, update_settlements, upsert_settlement, upsert_earning,
  add_transaction, is_held, is_cancel,
}
use transpo24_backend_nest_j.Payments.Reconcile.{release, release_wallet, release_or_reconcile}
use transpo24_backend_nest_j.Payments.Finish.{
  finish_operation, collect_wallet, note_rest, settle_operation, finished_hold, finished_request,
}
use transpo24_backend_nest_j.Payments.Process.Intents.{reserve_wallet}
use transpo24_backend_nest_j.Payments.Authorize.{
  mark_held, cancel_tx, cancelled_hold, cancelled_request, held_hold, held_request,
}

module _ {W : Type 0} where
  pub settle_operation-rows :
      (now : ℕ) (hold : Hold) (request : Request) (amount : ℕ) (s : St W)
      → s.db.booking_hold ≡ some hold
      → s.db.request ≡ some request
      → let (r, s') = settle_operation now hold request amount s in
        (r ≡ ok tt)
        × (s'.db.booking_hold
            ≡ some (finished_hold now (is_cancel hold.operation_kind) amount hold))
        × (s'.db.request ≡ some (finished_request (is_cancel hold.operation_kind) amount request))
        × (s'.db.wallet ≡ s.db.wallet)
  unfolding settle_operation ◌>>=◌ update_hold update_request upsert_settlement upsert_earning
  settle_operation-rows now hold request amount s eh er = ground arith

  note_rest-rows :
      (hold : Hold) (amount : ℕ) (s : St W)
      → let (r, s') = note_rest hold amount s in
        (r ≡ ok tt)
        × (s'.db.booking_hold ≡ s.db.booking_hold)
        × (s'.db.request ≡ s.db.request)
        × (s'.db.wallet ≡ s.db.wallet)
  unfolding note_rest ◌>>=◌ add_transaction
  note_rest-rows hold amount s = ground arith

  pub update_wallet-at :
      (f : Wallet → Wallet) (w : Wallet) (s : St W)
      → s.db.wallet ≡ some w
      → update_wallet f s ≡ (ok tt, record s { db = record s.db { wallet = some (f w) } })
  unfolding update_wallet
  update_wallet-at f w s ew = rw ew

  pub collect_wallet-rows :
      (hold : Hold) (amount : ℕ) (w : Wallet) (s : St W)
      → s.db.wallet ≡ some w
      → let (r, s') = collect_wallet hold amount s in
        (r ≡ ok tt)
        × (s'.db.booking_hold ≡ s.db.booking_hold)
        × (s'.db.request ≡ s.db.request)
        × (s'.db.wallet
            ≡ some (record w {
              balance = w.balance -ℤ pos amount;
              reserved_balance = w.reserved_balance -ℤ pos hold.amount;
            }))
  unfolding collect_wallet ◌>>=◌ add_transaction
  collect_wallet-rows hold amount w s ew =
      rw (update_wallet-at _ w s ew) (note_rest-rows hold amount _)

module _ {W : Type 0} (api : StripeApi W) where
  pub release_or_reconcile-rows :
      (now : ℕ) (hold : Hold) (w : Wallet) (s : St W)
      → s.db.wallet ≡ some w
      → hold.provider ≡ PaymentProvider.app_wallet
      → let (r, s') = release_or_reconcile api now hold s in
        (r ≡ ok true)
        × (s'.db.booking_hold ≡ s.db.booking_hold)
        × (s'.db.request ≡ s.db.request)
        × (s'.db.wallet
            ≡ some (
                if is_held hold.status
                then record w { reserved_balance = w.reserved_balance -ℤ pos hold.amount }
                else w))
  unfolding release_or_reconcile release release_wallet ◌>>=◌ catch update_wallet add_transaction
  release_or_reconcile-rows now hold w s ew ep = ground arith

  pub finish_operation-paid :
      (now : ℕ) (hold : Hold) (request : Request) (w : Wallet) (s : St W)
      → s.db.wallet ≡ some w
      → hold.provider ≡ PaymentProvider.app_wallet
      → let amount = get_or hold.operation_amount 0 in
        finish_operation api now hold request s
        ≡ settle_operation now hold request amount (
            if ltb 0 amount
            then (collect_wallet hold amount s).1
            else (release_or_reconcile api now hold s).1)
  unfolding finish_operation ◌>>=◌
  finish_operation-paid now hold request w s ew ep = ground (
    arith,
    collect_wallet-rows hold (get_or hold.operation_amount 0) w s ew,
    release_or_reconcile-rows now hold w s ew ep,
  )

  pub cancel_tx-rows :
      (now : ℕ) (hold : Hold) (request : Request) (reason : Reason) (w : Wallet) (s : St W)
      → s.db.booking_hold ≡ some hold
      → s.db.request ≡ some request
      → s.db.wallet ≡ some w
      → hold.provider ≡ PaymentProvider.app_wallet
      → let (r, s') = cancel_tx api now hold request reason s in
        (r ≡ ok tt)
        × (s'.db.booking_hold ≡ some (cancelled_hold now reason hold))
        × (s'.db.request ≡ some (cancelled_request request request))
        × (s'.db.wallet ≡ (release_or_reconcile api now hold s).1.db.wallet)
  unfolding cancel_tx ◌>>=◌ update_hold update_request update_settlements
  cancel_tx-rows now hold request reason w s eh er ew ep =
      ground (arith, release_or_reconcile-rows now hold w s ew ep)

module _ {W : Type 0} where
  pub reserve_wallet-rows :
      (now : ℕ) (hold : Hold) (request : Request) (w : Wallet) (s : St W)
      → s.db.booking_hold ≡ some hold
      → s.db.request ≡ some request
      → s.db.wallet ≡ some w
      → let (r, s') = reserve_wallet now hold s in
        (r ≡ ok (some (held_hold now hold none none hold)))
        × (s'.db.booking_hold ≡ some (held_hold now hold none none hold))
        × (s'.db.request ≡ some (held_request hold (held_hold now hold none none hold) request))
        × (s'.db.wallet
            ≡ some (record w { reserved_balance = w.reserved_balance +ℤ pos hold.amount }))
  unfolding reserve_wallet mark_held ◌>>=◌ update_hold update_request update_wallet
      upsert_settlement add_transaction
  reserve_wallet-rows now hold request w s eh er ew = ground arith
