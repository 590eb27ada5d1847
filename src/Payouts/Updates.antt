-- ===== src/Payouts/Updates.antt =====
-- The parts of a payout that write rows only, and its pure helpers: of `attemptDriverPayoutForTrip`,
-- `calculateNextDriverPayoutRetryAt` and `markSettlementPaidOut` of src/payments/payments.service.ts.
use transpo24_backend_nest_j.Base.{
  ℕ, zero, suc, ◌+◌, ◌*◌, ◌-◌, ◌==◌, Bool, true, false, not, ◌&&◌, ◌||◌, Option, none, some, List,
  [], ◌∷◌, if◌then◌else◌,
}
use transpo24_backend_nest_j.Payments.State.{
  DriverPayoutState, EarningStatus, TransferStatus, Reason, provider_message, dispute_review,
  not_eligible, transfer_error, Settlement, Earning, PayoutRow,
}
use transpo24_backend_nest_j.Payments.Stripe.{
  M, Intent, Error, card_gone, bad_request, stripe_failed, pure, gets, modify, transaction, ◌>>=◌,
  ◌>>◌,
}
use transpo24_backend_nest_j.Payments.Rows.{map_row, is_succeeded}
use transpo24_backend_nest_j.Payouts.State.{PayoutContext, is_paid_out, is_pending, is_disputed}

pub data RequestedBy : Type 0 where
  automatic_retry driver_manual_retry admin_manual_retry : RequestedBy

pub record PayoutResult : Type 0 where
  pub transferred : Bool
  pub stripe_transfer_id : Option ℕ
  pub reason : Option Reason

abbrev pub not_transferred : Reason → PayoutResult
not_transferred reason = record {
  transferred = false;
  stripe_transfer_id = none;
  reason = some reason;
}

abbrev pub completed : Option ℕ → Option Reason → PayoutResult
completed id reason = record { transferred = true; stripe_transfer_id = id; reason = reason }

-- `DRIVER_PAYOUT_RETRY_DELAYS_MINUTES`
abbrev pub retry_delays_minutes : List ℕ
retry_delays_minutes = 5 ∷ 30 ∷ 120 ∷ 360 ∷ 720 ∷ 1440 ∷ []

abbrev pub get_elem? : {A : Type 0} → List A → ℕ → Option A
get_elem? [] n = none
get_elem? (x ∷ xs) zero = some x
get_elem? (x ∷ xs) (suc n) = get_elem? xs n

abbrev pub retry_at : Option ℕ → ℕ → Option ℕ
retry_at none attempted_at = none
retry_at (some minutes) attempted_at = some (attempted_at + minutes * 60 * 1000)

unfoldable pub calculate_next_retry : ℕ → ℕ → Option ℕ
calculate_next_retry attempt_count attempted_at =
    retry_at (get_elem? retry_delays_minutes (attempt_count - 1)) attempted_at

-- Of what is thrown, only a message of Stripe is told apart.
abbrev pub message_of : Error → Reason
message_of (stripe_failed message) = provider_message message
message_of (bad_request message) = provider_message message
message_of _ = transfer_error

abbrev pub is_bad_request : Error → Bool
is_bad_request card_gone = true
is_bad_request (bad_request message) = true
is_bad_request _ = false

abbrev pub is_automatic : RequestedBy → Bool
is_automatic RequestedBy.automatic_retry = true
is_automatic _ = false

abbrev pub needs_review : PayoutContext → Bool
needs_review c = is_disputed c.settlement.status || c.settlement.requires_manual_review

-- The intent is captured, with the amount and the commission that were agreed.
unfoldable pub is_as_agreed : PayoutContext → Intent → Bool
is_as_agreed c intent =
    is_succeeded intent.status
    && intent.currency == c.earning.currency
    && intent.amount_received == c.settlement.collected_amount
    && elim intent.application_fee_amount [
      | none ↦ false
      | some fee ↦ fee == c.settlement.platform_share_amount
    ]

module _ {W : Type 0} where
  -- An update of the settlement and of the columns of a payout.
  unfoldable pub update_payout :
      (Settlement → Settlement) → (PayoutRow → PayoutRow) → M W (Unit {0})
  unfolding modify
  update_payout f g =
      modify (λ db. record db { settlement = map_row f db.settlement; payout = g db.payout })

  unfoldable pub update_earning : (Earning → Earning) → (PayoutRow → PayoutRow) → M W (Unit {0})
  unfolding modify
  update_earning f g =
      modify (λ db. record db { earning = map_row f db.earning; payout = g db.payout })

  unfoldable pub mark_settlement_paid_out : M W (Unit {0})
  unfolding update_payout
  mark_settlement_paid_out =
      update_payout
        (λ t. record t {
          driver_payout_state = DriverPayoutState.paid_out;
          payout_failure_reason = none;
          next_payout_retry_at = none;
        })
        (λ r. record r { last_payout_attempt_at = none })

  unfoldable pub require_review : Reason → M W (Unit {0})
  unfolding update_payout
  require_review reason =
      update_payout
        (λ t. record t {
          requires_manual_review = true;
          next_payout_retry_at = none;
          payout_failure_reason = some reason;
        })
        (λ r. r)

  -- The settlement does not allow a payout.
  unfoldable pub refuse_payout : PayoutContext → M W PayoutResult
  unfolding update_payout
  refuse_payout c = do
    let reason = if needs_review c then dispute_review else not_eligible
    update_payout
        (λ t. record t { next_payout_retry_at = none; payout_failure_reason = some reason })
        (λ r. r)
    pure (not_transferred reason)

  unfoldable pub make_available : PayoutContext → M W (Unit {0})
  unfolding update_earning
  make_available c =
      if is_pending c.earning.status
      then update_earning (λ e. record e { status = EarningStatus.available }) (λ r. r)
      else pure tt

  -- The transaction claims the earning once; the answer says whether this call claimed it.
  unfoldable pub claim_direct : ℕ → M W Bool
  unfolding update_earning update_payout
  claim_direct now = transaction (do
    claimed ← gets (λ db. elim db.earning [ none ↦ false | some e ↦ not (is_paid_out e.status) ])
    if claimed
        then update_earning (λ e. record e { status = EarningStatus.paid_out })
            (λ r. record r {
              paid_out_at = some now;
              stripe_transfer_status = some TransferStatus.direct_charge;
            })
        else pure tt
    update_payout
        (λ t. record t {
          driver_payout_state = DriverPayoutState.paid_out;
          payout_failure_reason = none;
          next_payout_retry_at = none;
        })
        (λ r. r)
    pure claimed)

  unfoldable pub record_transfer : ℕ → ℕ → M W (Unit {0})
  unfolding update_earning
  record_transfer now id =
      update_earning (λ e. record e { status = EarningStatus.paid_out })
        (λ r. record r {
          paid_out_at = some now;
          stripe_transfer_id = some id;
          stripe_transfer_status = some TransferStatus.paid;
        })

  unfoldable pub settle_transfer : ℕ → M W (Unit {0})
  unfolding update_payout
  settle_transfer now =
      update_payout
        (λ t. record t {
          driver_payout_state = DriverPayoutState.paid_out;
          payout_failure_reason = none;
          next_payout_retry_at = none;
        })
        (λ r. record r { last_payout_attempt_at = some now })

  unfoldable pub begin_transfer : ℕ → M W (Unit {0})
  unfolding update_payout
  begin_transfer now =
      update_payout
        (λ t. record t {
          driver_payout_state = DriverPayoutState.pending_transfer;
          payout_failure_reason = none;
          next_payout_retry_at = none;
        })
        (λ r. record r { last_payout_attempt_at = some now })
