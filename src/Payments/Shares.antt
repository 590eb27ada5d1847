-- ===== src/Payments/Shares.antt =====
-- How a retained cancellation fee is shared, in `finishOperation` of
-- src/payments/delayed-booking-payments.service.ts.
use transpo24_backend_nest_j.Base.{ℕ, ◌+◌, ◌≤◌, ◌≡◌, none, some, arith}
use transpo24_backend_nest_j.Policy.Pricing.{percent_of}
use transpo24_backend_nest_j.Policy.Pricing.Bounds.{percent_of-le}
use transpo24_backend_nest_j.Payments.State.{OperationKind, Hold, Request, Settlement}
use transpo24_backend_nest_j.Payments.Finish.{
  fee_share, operation_fee, driver_share, finished_settlement,
}

fee_share-le : (request : Request) (amount : ℕ) → fee_share request amount ≤ amount
unfolding fee_share
fee_share-le request amount = ground (arith, percent_of-le amount 50)

-- A finished cancellation retains exactly the fee and shares all of it between driver and platform,
-- with nothing for the driver of an unassigned booking, and at most a cent more for the driver than
-- for the platform; the platform's part is the application fee that is asked of Stripe for a direct
-- charge.
pub finished_settlement_shares :
    (now : ℕ) (hold : Hold) (request : Request) (amount : ℕ) (before : Settlement)
    → hold.operation_kind ≡ some OperationKind.cancel
    → let t = finished_settlement now hold request amount before in
      (t.retained_amount ≡ amount)
      × (t.driver_share_amount + t.platform_share_amount ≡ t.retained_amount)
      × (request.assigned_driver_id ≡ none → t.driver_share_amount ≡ 0)
      × (t.driver_share_amount ≤ t.platform_share_amount + 1)
      × (t.platform_share_amount ≡ operation_fee hold request amount)
unfolding finished_settlement driver_share operation_fee fee_share percent_of
finished_settlement_shares now hold request amount before e = (
  ground arith,
  ground (arith, fee_share-le request amount),
  ground arith,
  ground arith,
  ground arith,
)
