-- ===== src/Payments/State.antt =====
-- The rows of one booking that src/payments/delayed-booking-payments.service.ts reads and writes
-- (models of prisma/schema.prisma). An id is a number, a time a number of milliseconds, an amount a
-- number of cents, a currency the number of its upper-case code. A column that may be null is an
-- `Option`; a confirmation state that is null is `no_state`.
use transpo24_backend_nest_j.Base.{ℕ, Bool, true, false, Option, List}
use transpo24_backend_nest_j.Base.Int.{ℤ}
use transpo24_backend_nest_j.Domain.{RequestStatus}
use transpo24_backend_nest_j.Domain

pub data ConfirmationState : Type 0 where
  no_state grace_period authorizing action_required confirmed renewing : ConfirmationState
  cancelling cancelled captured manual_review : ConfirmationState

pub data PaymentStatus : Type 0 where
  hold_pending held failed delivery_confirmed capture_pending payment_captured : PaymentStatus
  refund_pending partially_refunded released payment_cancelled refunded disputed : PaymentStatus

pub data PaymentProvider : Type 0 where
  stripe app_wallet : PaymentProvider

pub data OperationKind : Type 0 where
  cancel delivery : OperationKind

pub data SettlementStatus : Type 0 where
  released cancelled_with_fee authorized collected refund_pending : SettlementStatus
  partially_refunded refunded disputed manual_review : SettlementStatus

pub data DriverPayoutState : Type 0 where
  not_earned earning_created pending_transfer paid_out transfer_failed : DriverPayoutState
  not_applicable : DriverPayoutState

-- `DeferredFurniturePaymentState`, as far as the service tells its values apart.
pub data DeferredState : Type 0 where
  paid expired cancelled other : DeferredState

-- The texts that the service records or throws.
pub data Reason : Type 0 where
  cancelled_before_confirmation deadline_passed offer_unavailable : Reason
  authorization_unavailable wallet_insufficient approval_late bank_refused : Reason
  card_unavailable approval_failed unexpected_capture capture_mismatch : Reason
  provider_message : ℕ → Reason
  no_earning already_completed awaiting_confirmation dispute_review not_eligible : Reason
  not_yet_available fee_review capture_awaited reference_missing not_as_agreed : Reason
  legacy_payment onboarding_incomplete nothing_to_transfer transfer_error : Reason

pub record Hold : Type 0 where
  pub customer_id : ℕ
  pub driver_id : ℕ
  pub amount : ℕ
  pub customer_platform_fee_amount : ℕ
  pub currency : ℕ
  pub provider : PaymentProvider
  pub status : PaymentStatus
  pub policy_version : Option ℕ
  pub confirmation_state : ConfirmationState
  pub confirmation_notified_state : ConfirmationState
  pub confirmation_started_at : Option ℕ
  pub authorization_due_at : Option ℕ
  pub approval_deadline_at : Option ℕ
  pub authorized_at : Option ℕ
  pub authorization_expires_at : Option ℕ
  pub authorization_attempt : ℕ
  pub previous_stripe_payment_intent_id : Option ℕ
  pub stripe_payment_intent_id : Option ℕ
  pub stripe_client_secret : Option ℕ
  pub stripe_charge_id : Option ℕ
  pub stripe_account_id : Option ℕ
  pub stripe_payment_method_id : Option ℕ
  pub operation_kind : Option OperationKind
  pub operation_amount : Option ℕ
  pub captured_at : Option ℕ
  pub released_at : Option ℕ
  pub cancelled_at : Option ℕ
  pub failure_reason : Option Reason

pub record Request : Type 0 where
  pub customer_id : ℕ
  pub status : RequestStatus
  pub deferred_payment_state : Option DeferredState
  pub accepted_offer_id : Option ℕ
  pub assigned_driver_id : Option ℕ
  pub payment_deadline_at : Option ℕ
  pub item_picked_up_at : Option ℕ
  pub delivery_confirmed_by_customer_at : Option ℕ
  pub payment_status : PaymentStatus
  pub held_amount : ℕ
  pub captured_amount : ℕ
  pub stripe_payment_intent_id : Option ℕ

pub record Settlement : Type 0 where
  pub currency : ℕ
  pub collected_amount : ℕ
  pub refundable_amount : ℤ
  pub refunded_amount : ℕ
  pub retained_amount : ℕ
  pub driver_share_amount : ℕ
  pub platform_share_amount : ℕ
  pub status : SettlementStatus
  pub driver_payout_state : DriverPayoutState
  pub requires_manual_review : Bool
  pub payout_failure_reason : Option Reason
  pub next_payout_retry_at : Option ℕ

pub data EarningStatus : Type 0 where
  pending available paid_out cancelled : EarningStatus

pub record Earning : Type 0 where
  pub driver_id : ℕ
  pub gross_amount : ℕ
  pub platform_fee_amount : ℕ
  pub net_amount : ℕ
  pub currency : ℕ
  pub available_at : Option ℕ
  pub status : EarningStatus

-- The columns are signed: the service checks the free balance before it reserves only.
pub record Wallet : Type 0 where
  pub currency : ℕ
  pub balance : ℤ
  pub reserved_balance : ℤ

pub data TransactionType : Type 0 where
  hold release capture refund : TransactionType

pub record WalletTransaction : Type 0 where
  pub amount : ℕ
  pub currency : ℕ
  pub kind : TransactionType

-- The selected offer with its driver, as `processLocked` includes them.
pub data OfferStatus : Type 0 where
  pending accepted rejected cancelled expired : OfferStatus

pub record Offer : Type 0 where
  pub status : OfferStatus
  pub driver_approved : Bool
  pub is_profile_completed : Bool
  pub has_approved_vehicle : Bool

pub data TransferStatus : Type 0 where
  paid failed direct_charge : TransferStatus

-- The columns of the driver's earning and of the settlement that only a payout writes.
pub record PayoutRow : Type 0 where
  pub paid_out_at : Option ℕ
  pub stripe_transfer_id : Option ℕ
  pub stripe_transfer_status : Option TransferStatus
  pub payout_attempt_count : ℕ
  pub last_payout_attempt_at : Option ℕ

-- The driver's profile, as a payout reads it.
pub record DriverAccount : Type 0 where
  pub id : ℕ
  pub user_id : ℕ
  pub stripe_account_id : Option ℕ
  pub stripe_payouts_enabled : Bool

pub record Db : Type 0 where
  pub booking_hold : Option Hold
  pub request : Option Request
  pub settlement : Option Settlement
  pub earning : Option Earning
  pub wallet : Option Wallet
  pub transactions : List WalletTransaction
  pub offer : Option Offer
  -- `user.stripeCustomerId` of the customer's row.
  pub customer : Option (Option ℕ)
  pub payout : PayoutRow
  pub account : Option DriverAccount

-- `pickedUp`
abbrev pub status_picked_up : RequestStatus → Bool
status_picked_up Domain.item_picked_up = true
status_picked_up Domain.pickup_in_progress = true
status_picked_up Domain.in_transit = true
status_picked_up Domain.driver_going_to_dropoff = true
status_picked_up Domain.delivered = true
status_picked_up Domain.completed = true
status_picked_up _ = false
