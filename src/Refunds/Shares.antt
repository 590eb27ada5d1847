-- ===== src/Refunds/Shares.antt =====
-- What a cancellation of a collected trip pays back and keeps (src/payments/payments.service.ts).
use transpo24_backend_nest_j.Base.{
  ℕ, ◌+◌, ◌-◌, ◌≡◌, refl, leb, not, ◌||◌, Bool, true, false, Option, some, ok, ◌∷◌, arith,
}
use transpo24_backend_nest_j.Base.Int.{pos, ◌+ℤ◌}
use transpo24_backend_nest_j.Domain.{is_cancelled}
use transpo24_backend_nest_j.Domain
use transpo24_backend_nest_j.Policy.Booking.{cancellation_fee_rate}
use transpo24_backend_nest_j.Policy.Pricing.{percent_of}
use transpo24_backend_nest_j.Policy.Pricing.Bounds.{percent_of-le}
use transpo24_backend_nest_j.Payments.State.{
  TransactionType, Earning, Hold, Request, Settlement, Wallet,
}
use transpo24_backend_nest_j.Payments.Stripe.{St, ◌>>=◌}
use transpo24_backend_nest_j.Payments.Rows.{
  is_wallet, is_collected, update_hold, update_request, update_wallet, upsert_earning,
  add_transaction,
}
use transpo24_backend_nest_j.Refunds.Amounts.{
  RefundApi, RefundAmounts, RefundAnswer, is_past_pickup, refund_amounts, is_refunded_before,
  answer_of, refunded_settlement, ensure_wallet, earn_share, write_refund, refund_status,
}
use transpo24_backend_nest_j.Refunds.Calls.{
  fee_differs, refund_money, refund_trip, cancel_found, cancel_collected_tx,
}

-- The amounts add up, whatever the rates: all that was collected is given back or kept, what is kept
-- is the driver's or the platform's, and a full refund keeps nothing.
refund_amounts-IsSplit :
    (now : ℕ) (full : Bool) (hold : Hold) (request : Request) (settlement : Settlement)
    → let a = refund_amounts now full hold request settlement in
      (a.refunded + a.retained ≡ settlement.collected_amount)
      × (a.driver_share + a.platform_share ≡ a.retained)
      × (full ≡ true → a.retained ≡ 0)
unfolding refund_amounts
refund_amounts-IsSplit now full hold request settlement =
    let rate = cancellation_fee_rate hold.captured_at now in
    let refund = percent_of-le settlement.collected_amount (100 - rate) (omega arith) in
    let retained =
      settlement.collected_amount - percent_of settlement.collected_amount (100 - rate) in
    let share = percent_of-le retained 50 (omega arith) in
    let full_share = percent_of-le 0 50 (omega arith) in ground (arith, refund, share, full_share)

full_covers :
    (now : ℕ) (full : Bool) (hold : Hold) (request : Request) (settlement : Settlement)
    → (not full
        || leb settlement.collected_amount
            (refund_amounts now full hold request settlement).refunded)
      ≡ true
unfolding refund_amounts
full_covers now full hold request settlement = ground arith

-- The rows of a trip that a customer may still cancel, paid from his wallet.
pub record MayRefund (now customer_id : ℕ) (full : Bool) (expected : Option ℕ) (hold : Hold)
    (request : Request) (settlement : Settlement) : Type 0 where
  pub own : request.customer_id ≡ customer_id
  pub fresh : is_refunded_before full request settlement ≡ false
  pub early : is_past_pickup request ≡ false
  pub collected : is_collected hold.status ≡ true
  pub wallet : is_wallet hold.provider ≡ true
  pub agreed :
      fee_differs expected (refund_amounts now full hold request settlement).retained ≡ false

abbrev pub told : RefundAmounts → RefundAnswer
told a = record {
  refunded_amount = a.refunded;
  retained_amount = a.retained;
  driver_share_amount = a.driver_share;
}

-- The rows that a refund from the wallet leaves.
abbrev pub RefundedTo :
    {W : Type 0} → ℕ → RefundAmounts → Hold → Request → Settlement → Wallet → W → St W → Type 0
RefundedTo now a hold request settlement w world after =
    (after.db.settlement ≡ some (refunded_settlement now a settlement))
    × (after.db.booking_hold ≡ some (record hold { status = refund_status a.retained }))
    × (after.db.request
        ≡ some (record request {
          status = Domain.cancelled;
          payment_status = refund_status a.retained;
          captured_amount = a.retained;
        }))
    × (after.db.wallet ≡ some (record w { balance = w.balance +ℤ pos a.refunded }))
    × (after.world ≡ world)

module _ {W : Type 0} (api : RefundApi W) where
  refund_money-wallet :
      (full : Bool) (hold : Hold) (amount : ℕ) (w : Wallet) (s : St W)
      → s.db.wallet ≡ some w
      → is_wallet hold.provider ≡ true
      → refund_money api full hold amount s ≡ (
        ok tt,
        record s {
          db = record s.db {
            wallet = some (record w { balance = w.balance +ℤ pos amount });
            transactions =
                record { amount = amount; currency = hold.currency; kind = TransactionType.refund }
                ∷ s.db.transactions;
          };
        },
      )
  unfolding refund_money ensure_wallet ◌>>=◌ update_wallet add_transaction
  refund_money-wallet full hold amount w s ew wallet = ground arith

  earn_share-rows :
      (now : ℕ) (a : RefundAmounts) (request : Request) (settlement : Settlement) (s : St W)
      → earn_share now a request settlement s ≡ (
        ok tt,
        record s {
          db = record s.db { earning = (earn_share now a request settlement s).1.db.earning };
        },
      )
  unfolding earn_share upsert_earning ◌>>=◌
  earn_share-rows now a request settlement s = ground arith

  earn_share-writes :
      (now : ℕ) (a : RefundAmounts) (request : Request) (settlement : Settlement) (s : St W)
      → (earning : Option Earning) × (earn_share now a request settlement s
          ≡ (ok tt, record s { db = record s.db { earning = earning } }))
  earn_share-writes now a request settlement s = (
    (earn_share now a request settlement s).1.db.earning,
    earn_share-rows now a request settlement s,
  )

  write_refund-rows :
      (now : ℕ) (a : RefundAmounts) (hold : Hold) (request : Request) (settlement : Settlement)
      (s : St W)
      → s.db.booking_hold ≡ some hold
      → s.db.request ≡ some request
      → s.db.settlement ≡ some settlement
      → let (r, s') = write_refund now a s in
        (r ≡ ok (told a))
        × (s'.db.settlement ≡ some (refunded_settlement now a settlement))
        × (s'.db.booking_hold ≡ some (record hold { status = refund_status a.retained }))
        × (s'.db.request
            ≡ some (record request {
              status = Domain.cancelled;
              payment_status = refund_status a.retained;
              captured_amount = a.retained;
            }))
        × (s'.db.wallet ≡ s.db.wallet)
        × (s'.world ≡ s.world)
  unfolding write_refund update_hold update_request ◌>>=◌
  write_refund-rows now a hold request settlement s eh er et = ground arith

  refund_trip-writes :
      (now customer_id : ℕ) (full : Bool) (expected : Option ℕ) (hold : Hold) (request : Request)
      (settlement : Settlement) (s s1 s2 : St W)
      → MayRefund now customer_id full expected hold request settlement
      → let a = refund_amounts now full hold request settlement in
        refund_money api full hold a.refunded s ≡ (ok tt, s1)
        → earn_share now a request settlement s1 ≡ (ok tt, s2)
        → refund_trip api now full expected hold request settlement s ≡ write_refund now a s2
  unfolding refund_trip ◌>>=◌
  refund_trip-writes now customer_id full expected hold request settlement s s1 s2 may paid earned =
      rw may.collected (rw may.agreed (rw paid (rw earned refl)))

  refund_trip-wallet :
      (now customer_id : ℕ) (full : Bool) (expected : Option ℕ) (hold : Hold) (request : Request)
      (settlement : Settlement) (w : Wallet) (s : St W)
      → s.db.booking_hold ≡ some hold
      → s.db.request ≡ some request
      → s.db.settlement ≡ some settlement
      → s.db.wallet ≡ some w
      → MayRefund now customer_id full expected hold request settlement
      → let a = refund_amounts now full hold request settlement in
        let (r, s') = refund_trip api now full expected hold request settlement s in
        (r ≡ ok (told a)) × RefundedTo now a hold request settlement w s.world s'
  refund_trip-wallet now customer_id full expected hold request settlement w s eh er et ew may =
      let a = refund_amounts now full hold request settlement in
      let paid = refund_money-wallet full hold a.refunded w s ew may.wallet in
      let s1 : St W = record s {
        db = record s.db {
          wallet = some (record w { balance = w.balance +ℤ pos a.refunded });
          transactions =
              record {
                amount = a.refunded;
                currency = hold.currency;
                kind = TransactionType.refund;
              }
              ∷ s.db.transactions;
        };
      } in
      let (e, earned) = earn_share-writes now a request settlement s1 in
      let s2 : St W = record s1 { db = record s1.db { earning = e } } in
      let writes =
        refund_trip-writes now customer_id full expected hold request settlement s s1 s2 may paid
          earned in
      let rows = write_refund-rows now a hold request settlement s2 eh er et in
      rw writes (rows.0, (rows.1, rows.2, rows.3, rows.4, rows.5))

  cancel_collected_tx-trip :
      (now customer_id : ℕ) (full : Bool) (expected : Option ℕ) (hold : Hold) (request : Request)
      (settlement : Settlement) (s : St W)
      → s.db.booking_hold ≡ some hold
      → s.db.request ≡ some request
      → s.db.settlement ≡ some settlement
      → MayRefund now customer_id full expected hold request settlement
      → cancel_collected_tx api now customer_id full expected s
        ≡ refund_trip api now full expected hold request settlement s
  unfolding cancel_collected_tx cancel_found ◌>>=◌
  cancel_collected_tx-trip now customer_id full expected hold request settlement s eh er et may =
      ground arith

  -- A cancelled trip stays as it is.
  cancelled_again :
      (later customer_id : ℕ) (full : Bool) (expected : Option ℕ) (hold : Hold) (request : Request)
      (settlement : Settlement) (s : St W)
      → s.db.booking_hold ≡ some hold
      → s.db.request ≡ some request
      → s.db.settlement ≡ some settlement
      → request.customer_id ≡ customer_id
      → is_refunded_before full request settlement ≡ true
      → cancel_collected_tx api later customer_id full expected s ≡ (ok (answer_of settlement), s)
  unfolding cancel_collected_tx cancel_found ◌>>=◌
  cancelled_again later customer_id full expected hold request settlement s eh er et own before =
      ground arith

  -- A cancellation pays back once: a customer who may cancel a trip that was collected from his
  -- wallet, at the fee that he expects if he names one, always succeeds; the wallet gets exactly
  -- the refund that he is told, all the rest of the money is kept, and shared between the driver and
  -- the platform, the rows say so, and Stripe is not called; and the same call again, whenever it
  -- comes, gives the same answer and changes nothing.
  pub cancel_collected_tx-IsOnce :
      (now customer_id : ℕ) (full : Bool) (expected : Option ℕ) (hold : Hold) (request : Request)
      (settlement : Settlement) (w : Wallet) (s : St W)
      → s.db.booking_hold ≡ some hold
      → s.db.request ≡ some request
      → s.db.settlement ≡ some settlement
      → s.db.wallet ≡ some w
      → MayRefund now customer_id full expected hold request settlement
      → let a = refund_amounts now full hold request settlement in
        let (r, s') = cancel_collected_tx api now customer_id full expected s in
        (r ≡ ok (told a))
        × RefundedTo now a hold request settlement w s.world s'
        × (a.refunded + a.retained ≡ settlement.collected_amount)
        × (a.driver_share + a.platform_share ≡ a.retained)
        × ((later : ℕ) (expected' : Option ℕ)
            → cancel_collected_tx api later customer_id full expected' s' ≡ (ok (told a), s'))
  cancel_collected_tx-IsOnce now customer_id full expected hold request settlement w s eh er et ew
        may =
      let a = refund_amounts now full hold request settlement in
      let same =
        cancel_collected_tx-trip now customer_id full expected hold request settlement s eh er et
          may in
      let done =
        refund_trip-wallet now customer_id full expected hold request settlement w s eh er et ew
          may in
      let split = refund_amounts-IsSplit now full hold request settlement in
      rw same (
        done.0,
        done.1,
        split.0,
        split.1,
        λ later expected'.
            cancelled_again later customer_id full expected' _ _ _ _ done.1.1 done.1.2 done.1.0
              may.own (full_covers now full hold request settlement),
      )
