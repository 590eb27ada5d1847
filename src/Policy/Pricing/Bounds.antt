-- ===== src/Policy/Pricing/Bounds.antt =====
-- What the shares of src/payments/customer-pricing.ts add up to.
use transpo24_backend_nest_j.Base.{ℕ, ◌+◌, ◌-◌, ◌≤◌, ◌≡◌, refl, arith}
use transpo24_backend_nest_j.Policy.Pricing.{
  Decimal, to_cents, percent_of, direct_application_fee, calculate_customer_pricing,
}

pub percent_of-le : (amount rate : ℕ) → rate ≤ 100 → percent_of amount rate ≤ amount
unfolding percent_of
percent_of-le amount rate h = grind arith

-- Stripe's application fee never exceeds what the customer pays, if the customer's fee does not.
direct_application_fee-le : (total fee : ℕ) → fee ≤ total → direct_application_fee total fee ≤ total
unfolding direct_application_fee
direct_application_fee-le total fee h = ground (arith, percent_of-le (total - fee) 15)

-- For a price that was calculated from an offer, the platform takes the customer's five percent on
-- top and fifteen percent of the service price itself, each rounded to a cent, and the driver is
-- left with the rest of the service price.
pub pricing_split :
    (service : Decimal)
    → let p = calculate_customer_pricing service in
      (p.total_amount ≡ to_cents service + percent_of (to_cents service) 5)
      × (direct_application_fee p.total_amount p.customer_platform_fee_amount
          ≡ percent_of (to_cents service) 5 + percent_of (to_cents service) 15)
      × (p.total_amount - direct_application_fee p.total_amount p.customer_platform_fee_amount
          ≡ to_cents service - percent_of (to_cents service) 15)
unfolding calculate_customer_pricing direct_application_fee
pricing_split service = (refl, ground arith, ground (arith, percent_of-le (to_cents service) 15))

pub percent_of_mono :
    (amount rate more : ℕ) → rate ≤ more → percent_of amount rate ≤ percent_of amount more
unfolding percent_of
percent_of_mono amount rate more h = grind arith

pub percent_of-zero : (amount : ℕ) → percent_of amount 0 ≡ 0
unfolding percent_of
percent_of-zero amount = omega arith
