-- ===== src/Payouts/State.antt =====
-- What a payout reads (`getDriverPayoutContext` of src/payments/payments.service.ts) and the calls
-- that it makes: Stripe's transfers, BullMQ, the notifications and the database after a transfer.
use transpo24_backend_nest_j.Base.{
  ℕ, Bool, true, false, ◌&&◌, ◌||◌, Option, none, some, is_some, leb, Result,
}
use transpo24_backend_nest_j.Domain.{is_cancelled}
use transpo24_backend_nest_j.Payments.State.{
  SettlementStatus, EarningStatus, Hold, Request, Settlement, Earning, PayoutRow, DriverAccount, Db,
}
use transpo24_backend_nest_j.Payments.Stripe.{Error, Intent}

-- The ids of one trip's rows. They never change.
pub record TripIds : Type 0 where
  pub trip_id : ℕ
  pub earning_id : ℕ

pub record PayoutContext : Type 0 where
  pub earning : Earning
  pub settlement : Settlement
  pub hold : Hold
  pub trip : Request
  pub account : DriverAccount
  pub row : PayoutRow

abbrev pub RowContext : Type 0
RowContext = PayoutRow → Option PayoutContext

abbrev with_account : Option DriverAccount → Request → Hold → Settlement → Earning → RowContext
with_account none trip hold settlement earning row = none
with_account (some account) trip hold settlement earning row = some (record {
  earning = earning;
  settlement = settlement;
  hold = hold;
  trip = trip;
  account = account;
  row = row;
})

abbrev with_trip : Option Request → Option DriverAccount → Hold → Settlement → Earning → RowContext
with_trip none account hold settlement earning row = none
with_trip (some trip) account hold settlement earning row =
    with_account account trip hold settlement earning row

abbrev with_hold :
    Option Hold → Option Request → Option DriverAccount → Settlement → Earning → RowContext
with_hold none trip account settlement earning row = none
with_hold (some hold) trip account settlement earning row =
    with_trip trip account hold settlement earning row

abbrev with_settlement :
    Option Settlement → Option Hold → Option Request → Option DriverAccount → Earning → RowContext
with_settlement none hold trip account earning row = none
with_settlement (some settlement) hold trip account earning row =
    with_hold hold trip account settlement earning row

abbrev with_earning : Option Earning → Db → Option PayoutContext
with_earning none db = none
with_earning (some earning) db =
    with_settlement db.settlement db.booking_hold db.request db.account earning db.payout

-- `getDriverPayoutContext`: an earning and a settlement have the other rows.
unfoldable pub payout_context : Db → Option PayoutContext
payout_context db = with_earning db.earning db

abbrev pub is_paid_out : EarningStatus → Bool
is_paid_out EarningStatus.paid_out = true
is_paid_out _ = false

abbrev pub is_pending : EarningStatus → Bool
is_pending EarningStatus.pending = true
is_pending _ = false

abbrev pub is_authorized : SettlementStatus → Bool
is_authorized SettlementStatus.authorized = true
is_authorized _ = false

abbrev pub is_collected : SettlementStatus → Bool
is_collected SettlementStatus.collected = true
is_collected _ = false

abbrev pub is_disputed : SettlementStatus → Bool
is_disputed SettlementStatus.disputed = true
is_disputed _ = false

abbrev pub is_partly_kept : SettlementStatus → Bool
is_partly_kept SettlementStatus.partially_refunded = true
is_partly_kept SettlementStatus.cancelled_with_fee = true
is_partly_kept _ = false

unfoldable pub is_transferred : PayoutContext → Bool
is_transferred c = is_paid_out c.earning.status || is_some c.row.stripe_transfer_id

unfoldable pub is_confirmed : PayoutContext → Bool
is_confirmed c = is_cancelled c.trip.status || is_some c.trip.delivery_confirmed_by_customer_at

unfoldable pub has_payable_settlement : PayoutContext → Bool
has_payable_settlement c =
    is_some c.hold.stripe_account_id && is_authorized c.settlement.status
    || is_collected c.settlement.status
    || is_cancelled c.trip.status && is_partly_kept c.settlement.status

unfoldable pub is_available : ℕ → PayoutContext → Bool
is_available now c = elim c.earning.available_at [ none ↦ true | some at ↦ leb at now ]

pub data JobReason : Type 0 where
  delivery admin_manual_retry driver_manual_retry sweep automatic_retry : JobReason

pub data JobState : Type 0 where
  active waiting waiting_children delayed completed failed other : JobState

-- A transfer as Stripe is asked for it.
pub record Transfer : Type 0 where
  pub amount : ℕ
  pub currency : ℕ
  pub destination : ℕ
  -- `driver_payout_…`, by the earning.
  pub idempotency_key : ℕ
  pub source_transaction : Option ℕ

pub record FundsNotice : Type 0 where
  pub customer_id : ℕ
  pub driver_user_id : ℕ
  pub amount : ℕ
  pub currency : ℕ
  pub stripe_transfer_id : Option ℕ
  pub stripe_payment_intent_id : Option ℕ

pub record PayoutApi (W : Type 0) : Type 0 where
  pub require_platform_processing_fees : ℕ → W → Result Error (Unit {0}) × W
  -- The intent and the account.
  pub retrieve_payment_intent : ℕ → ℕ → W → Result Error Intent × W
  pub create_transfer : Transfer → W → Result Error ℕ × W
  pub notify_trip_funds_transferred : FundsNotice → W → Result Error (Unit {0}) × W
  -- Whether the database takes a write that follows a transfer.
  pub write : W → Result Error (Unit {0}) × W
  -- The queue of the trip's job: its state if there is one, its removal, a new job with its delay.
  pub job_state : ℕ → W → Result Error (Option JobState) × W
  pub remove_job : ℕ → W → Result Error (Unit {0}) × W
  pub add_job : ℕ → JobReason → ℕ → W → Result Error (Unit {0}) × W
  -- A Redis is configured.
  pub has_queue : Bool
  -- `directChargesEnabled()`
  pub direct_charges_enabled : Bool
