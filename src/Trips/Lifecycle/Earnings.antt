-- ===== src/Trips/Lifecycle/Earnings.antt =====
-- The driver's earning of a trip (`createDriverEarningForDeliveredTrip` of
-- src/trips/trips.service.ts).
use transpo24_backend_nest_j.Base.{
  ℕ, ◌+◌, ◌-◌, ◌≤◌, ◌≡◌, refl, true, Option, none, some, is_some, get_or, ok, arith,
}
use transpo24_backend_nest_j.Domain.{is_delivered}
use transpo24_backend_nest_j.Payments.State.{Earning}
use transpo24_backend_nest_j.Trips.State.{Trip, TripDb}
use transpo24_backend_nest_j.Trips.Driving.{
  ProofInput, LocationInput, pickup_item_tx, start_delivery_tx, mark_arrived_tx,
}
use transpo24_backend_nest_j.Trips.Positions.{save_location, mark_near}
use transpo24_backend_nest_j.Trips.Delivery.{
  calculate_driver_earning_amounts, captured_charges, earning_rows, deliver_item_tx,
  create_driver_earning,
}
use transpo24_backend_nest_j.Trips.Lifecycle.{Env, Call, run_call}
use transpo24_backend_nest_j.Trips.Lifecycle.Rows.{Leaves}
use transpo24_backend_nest_j.Trips.Lifecycle.Calls.{run_call_keeps}
use transpo24_backend_nest_j.Base.Int.{pos, ◌+ℤ◌, sub_ℕ}
use transpo24_backend_nest_j.Policy.Pricing.{percent_of}
use transpo24_backend_nest_j.Policy.Pricing.Bounds.{percent_of-le}
use transpo24_backend_nest_j.Trips.State.{TripSettlement, AcceptedOffer}

-- The earning and the settlement, once the earning is there.
abbrev KeepsEarning : TripDb → TripDb → Type 0
KeepsEarning before after =
    (after.earning ≡ before.earning) × (after.settlement ≡ before.settlement)

picked_earning :
    (now : ℕ) (input : ProofInput) (db : TripDb)
    → Leaves (KeepsEarning db) (pickup_item_tx now input db)
unfolding pickup_item_tx
picked_earning now input db = ground arith

started_earning : (now : ℕ) (db : TripDb) → Leaves (KeepsEarning db) (start_delivery_tx now db)
unfolding start_delivery_tx
started_earning now db = ground arith

delivered_earning :
    (e : Env) (now : ℕ) (input : ProofInput) (db : TripDb)
    → is_some db.earning ≡ true
    → Leaves (KeepsEarning db) (deliver_item_tx e.payout_delay e.default_currency now input db)
unfolding deliver_item_tx
delivered_earning e now input db paid = ground arith

arrived_earning :
    (e : Env) (now : ℕ) (input : LocationInput) (db : TripDb)
    → Leaves
        (KeepsEarning db)
        (mark_arrived_tx e.degree e.distance e.radius e.near_radius now input db)
unfolding mark_arrived_tx
arrived_earning e now input db = ground arith

located_earning :
    (e : Env) (now driver_id measured : ℕ) (input : LocationInput) (db : TripDb)
    → Leaves
        (λ after.
          KeepsEarning db after
          × KeepsEarning db (record after {
            trip = mark_near e.degree e.distance e.radius e.near_radius now input after.trip;
          }))
        (save_location driver_id measured input db)
unfolding save_location
located_earning e now driver_id measured input db = ground arith

-- A trip earns once: when the earning is written, no later call of the service changes it or the
-- shares of the settlement, also a repeated delivery.
pub run_call-earning :
    (e : Env) (c : Call) (db : TripDb)
    → is_some db.earning ≡ true
    → let after = (run_call e c db).1 in
      (after.earning ≡ db.earning) × (after.settlement ≡ db.settlement)
run_call-earning e c db paid = run_call_keeps (KeepsEarning db) e c db (record {
  before = (refl, refl);
  arrived = λ now input profile t row going. arrived_earning e now input db;
  picked_up = λ now input. picked_earning now input db;
  started = λ now. started_earning now db;
  located = λ now driver_id measured input. located_earning e now driver_id measured input db;
  delivered = λ now input. delivered_earning e now input db paid;
  confirmed = λ now customer_id. ground arith;
  rated = λ customer_id rating comment _ _ _ _. (refl, refl);
})

-- The settlement shares all it retains, and the driver is left with 85 percent of the service's price
-- and his expenses.
abbrev pub IsShared : ℕ → ℕ → ℕ → Option Earning → Option TripSettlement → Type 0
IsShared price reimbursed customer_fee (some e) (some t) =
    (e.gross_amount ≡ price + reimbursed)
    × (e.net_amount + percent_of price 15 ≡ e.gross_amount)
    × (reimbursed ≤ e.net_amount)
    × (t.retained_amount ≡ pos (price + customer_fee))
    × (t.driver_share_amount +ℤ pos t.platform_share_amount ≡ t.retained_amount)
    × (t.platform_share_amount ≡ percent_of price 15 + customer_fee)
IsShared price reimbursed customer_fee _ _ = ⊥

shares_add_up :
    (price reimbursed fee part : ℕ)
    → part ≤ price
    → (price + reimbursed ≡ price + reimbursed)
      × (price + reimbursed - part + part ≡ price + reimbursed)
      × (reimbursed ≤ price + reimbursed - part)
      × (sub_ℕ (price + reimbursed) reimbursed +ℤ pos fee ≡ pos (price + fee))
      × (sub_ℕ (price + reimbursed - part) reimbursed +ℤ pos (part + fee)
          ≡ sub_ℕ (price + reimbursed) reimbursed +ℤ pos fee)
      × (part + fee ≡ part + fee)
unfolding ◌+ℤ◌
shares_add_up price reimbursed fee part h =
    (refl, omega (arith), omega (arith), ground arith, ground arith, refl)

-- When a delivered trip first earns, the driver is owed the price of the service, less fifteen
-- percent, with all captured expenses on top; the settlement retains that price with the customer's
-- fee, without the expenses, and shares all of it between the driver and the platform.
pub create_driver_earning-IsShared :
    (payout_delay default_currency driver_id at : ℕ) (t : Trip) (offer : AcceptedOffer)
    (plan : TripSettlement) (db : TripDb)
    → db.trip ≡ some t
    → db.earning ≡ none
    → db.settlement ≡ some plan
    → t.assigned_driver_id ≡ some driver_id
    → t.delivered_at ≡ some at
    → is_delivered t.status ≡ true
    → t.accepted_offer ≡ some offer
    → (after : TripDb) × (create_driver_earning payout_delay default_currency db ≡ ok after)
      × IsShared offer.price
          (captured_charges db.charges)
          (get_or t.customer_platform_fee_amount 0)
          after.earning
          after.settlement
unfolding create_driver_earning calculate_driver_earning_amounts
create_driver_earning-IsShared payout_delay default_currency driver_id at t offer plan db row new
      planned assigned dated delivered accepted =
    (
      earning_rows payout_delay default_currency t driver_id at offer.price db,
      rw (new, row, assigned, dated, delivered, accepted) refl,
      rw planned (
          shares_add_up offer.price (captured_charges db.charges)
            (get_or t.customer_platform_fee_amount 0) (percent_of offer.price 15)
            (percent_of-le offer.price 15 (omega arith))),
    )
