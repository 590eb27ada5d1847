-- ===== src/Policy/Pricing.antt =====
-- Customer prices and commissions: src/payments/customer-pricing.ts. Money in a column of two
-- decimals is a number of cents; a `Decimal` is a coefficient over a power of ten. Amounts are not
-- negative. decimal.js rounds half up here; its limit of 20 significant digits is out of reach of
-- the 12 digits of a column.
pub mod Bounds
use transpo24_backend_nest_j.Base.{
  ℕ, ◌+◌, ◌-◌, ◌*◌, ◌/◌, ◌^◌, Option, none, some, leb, if◌then◌else◌,
}

pub record Decimal : Type 0 where
  pub coefficient : ℕ
  pub scale : ℕ

-- The integer nearest to num / den, a half rounded up.
unfoldable pub round_half_up : ℕ → ℕ → ℕ
round_half_up num den = (2 * num + den) / (2 * den)

-- `toDecimalPlaces(2)`, in cents.
unfoldable pub to_cents : Decimal → ℕ
unfolding round_half_up
to_cents d = round_half_up (d.coefficient * 100) (10 ^ d.scale)

-- `amount.mul(rate).toDecimalPlaces(2)` for an amount in cents and a rate in percent.
unfoldable pub percent_of : ℕ → ℕ → ℕ
unfolding round_half_up
percent_of amount rate = round_half_up (amount * rate) 100

abbrev pub driver_platform_commission_rate : ℕ
driver_platform_commission_rate = 15

abbrev pub customer_platform_commission_rate : ℕ
customer_platform_commission_rate = 5

-- Where the fee exceeds the total, `total.sub(customerFee)` is negative, and so is its share.
unfoldable pub direct_application_fee : ℕ → ℕ → ℕ
unfolding percent_of
direct_application_fee total customer_fee =
    if leb customer_fee total
    then customer_fee + percent_of (total - customer_fee) driver_platform_commission_rate
    else customer_fee - percent_of (customer_fee - total) driver_platform_commission_rate

pub record CustomerPricing : Type 0 where
  pub customer_platform_fee_amount : ℕ
  pub total_amount : ℕ

unfoldable pub calculate_customer_pricing : Decimal → CustomerPricing
unfolding to_cents percent_of
calculate_customer_pricing service_amount =
    let normalized = to_cents service_amount in
    let fee = percent_of normalized customer_platform_commission_rate in
    record { customer_platform_fee_amount = fee; total_amount = normalized + fee }

-- The booking's own snapshot of its price, where it has been paid.
pub record CustomerPaymentPrice : Type 0 where
  pub amount : ℕ
  pub customer_platform_fee_amount : ℕ

unfoldable pub customer_offer_price : Decimal → Option CustomerPaymentPrice → CustomerPricing
unfolding calculate_customer_pricing
customer_offer_price service_amount none = calculate_customer_pricing service_amount
customer_offer_price service_amount (some p) = record {
  customer_platform_fee_amount = p.customer_platform_fee_amount;
  total_amount = p.amount;
}
