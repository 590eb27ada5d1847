-- ===== src/Payments/Commands.antt =====
-- What customers and the payout worker ask of a booking payment: `cancel`, `captureDelivery`,
-- `skipCountdown` and `failApproval` of src/payments/delayed-booking-payments.service.ts. The clock
-- is read once before the worker's step and once for it.
use transpo24_backend_nest_j.Base.{
  ℕ, ltb, leb, ◌==◌, if◌then◌else◌, Bool, true, false, not, ◌&&◌, ◌||◌, Option, none, some, is_some,
  get_or,
}
use transpo24_backend_nest_j.Base.Int.{ℤ, pos, sub_ℕ}
use transpo24_backend_nest_j.Domain.{is_cancelled, is_reserved, is_delivered}
use transpo24_backend_nest_j.Policy.Booking.{held_cancellation_rate}
use transpo24_backend_nest_j.Policy.Pricing.{percent_of}
use transpo24_backend_nest_j.Payments.State.{
  ConfirmationState, SettlementStatus, OperationKind, DeferredState, approval_failed, Hold, Request,
  Settlement, Earning,
}
use transpo24_backend_nest_j.Payments.Stripe.{
  M, StripeApi, Error, not_yours, manual_review_needed, not_delayed, operation_in_progress,
  fee_changed, review_needed, not_delivered, not_eligible_yet, cannot_skip, ◌>>=◌, ◌>>◌, pure,
  throw, throw_if, gets, call, catch, find_or_throw, transaction, match_option,
}
use transpo24_backend_nest_j.Payments.Rows.{
  update_hold, update_settlements, is_stripe, is_payment_captured, is_confirmed, is_state_cancelled,
  is_cancel, is_delivery, is_requires_capture, picked_up,
}
use transpo24_backend_nest_j.Payments.Authorize.{authorization_failed}
use transpo24_backend_nest_j.Payments.Process.{process}

pub record Quote : Type 0 where
  pub expected_retained_amount : ℕ
  pub policy_version : Option ℕ

pub record CancelResult : Type 0 where
  pub retained_amount : ℕ
  pub released_amount : ℤ
  pub nothing_charged : Bool

-- The booking counts as assigned: not a reservation, and paid if it was deferred.
unfoldable pub counts_as_assigned : Request → Bool
counts_as_assigned r =
    is_some r.assigned_driver_id && not (is_reserved r.status) && elim r.deferred_payment_state [
      | none ↦ true
      | some d ↦ elim d [ DeferredState.paid ↦ true | _ ↦ false ]
    ]

unfoldable pub cancellation_fee : ℕ → Bool → Hold → Request → ℕ
unfolding counts_as_assigned
cancellation_fee now free hold request = percent_of hold.amount (
    if free
    then 0
    else held_cancellation_rate hold.authorized_at hold.confirmation_started_at
        (counts_as_assigned request) now)

-- A version that is missing on either side counts as changed.
abbrev pub same_version : Option ℕ → Option ℕ → Bool
same_version (some a) (some b) = a == b
same_version (some a) none = false
same_version none b = false

unfoldable pub quote_refused : Bool → ℕ → Option Quote → Hold → Bool
quote_refused free fee none hold = not free && ltb 0 fee
quote_refused free fee (some q) hold =
    not (fee == q.expected_retained_amount)
    || not (same_version q.policy_version hold.policy_version)

abbrev is_grace_period : ConfirmationState → Bool
is_grace_period ConfirmationState.grace_period = true
is_grace_period _ = false

abbrev is_action_required : ConfirmationState → Bool
is_action_required ConfirmationState.action_required = true
is_action_required _ = false

-- The states that `skipCountdown` admits.
abbrev can_skip : ConfirmationState → Bool
can_skip ConfirmationState.grace_period = true
can_skip ConfirmationState.authorizing = true
can_skip ConfirmationState.action_required = true
can_skip ConfirmationState.confirmed = true
can_skip _ = false

-- `status !== 'AUTHORIZED'`
abbrev is_authorized : SettlementStatus → Bool
is_authorized SettlementStatus.authorized = true
is_authorized _ = false

abbrev pub release_due : ℕ → Settlement → Earning → Bool
release_due now settlement earning =
    not settlement.requires_manual_review
    && is_authorized settlement.status
    && elim earning.available_at [ none ↦ true | some at ↦ leb at now ]

module _ {W : Type 0} where
  -- The settlement is handed to a person, outside of the transaction.
  unfoldable pub flag_settlement : M W (Unit {0})
  flag_settlement =
      update_settlements
        (λ t. record t { requires_manual_review = true; status = SettlementStatus.manual_review })

  unfoldable pub flag_after_pickup : Error → M W (Unit {0})
  flag_after_pickup manual_review_needed = do flag_settlement; throw manual_review_needed
  flag_after_pickup error = throw error

  unfoldable pub request_cancel : ℕ → M W (Unit {0})
  request_cancel fee = do
    update_hold λ h. record h {
      operation_kind = some OperationKind.cancel;
      operation_amount = some fee;
      confirmation_state = ConfirmationState.cancelling;
    }
    pure tt

module _ {W : Type 0} where
  -- What `cancel` answers, from the row that the worker's step left.
  unfoldable pub cancel_answer : M W CancelResult
  cancel_answer = do
    hold ← find_or_throw (λ db. db.booking_hold)
    let fee = get_or hold.operation_amount 0
    if is_state_cancelled hold.confirmation_state
        then pure (record {
          retained_amount = fee;
          released_amount = if is_some hold.authorized_at then sub_ℕ hold.amount fee else pos 0;
          nothing_charged = fee == 0;
        })
        else throw review_needed

  -- A direct charge waits for the payout worker, and for the delay and the review checks.
  unfoldable pub may_release : ℕ → Bool → Hold → M W Bool
  may_release now release_now hold =
      if is_some hold.stripe_account_id
      then (if release_now
          then (do
            settlement ← find_or_throw (λ db. db.settlement)
            earning ← find_or_throw (λ db. db.earning)
            throw_if (not (release_due now settlement earning)) not_eligible_yet
            pure true)
          else pure false)
      else pure true

  unfoldable pub begin_delivery : ℕ → ℕ → Bool → M W (Unit {0})
  unfolding may_release
  begin_delivery now customer_id release_now = do
    request ← find_or_throw (λ db. db.request)
    throw_if
        (not (request.customer_id == customer_id)
          || not (is_delivered request.status)
          || not (is_some request.delivery_confirmed_by_customer_at))
        not_delivered
    hold ← find_or_throw (λ db. db.booking_hold)
    if is_payment_captured hold.status then pure tt else (do
      release ← may_release now release_now hold
      if release
          then (do
            throw_if
                (not (is_confirmed hold.confirmation_state)
                  && not (is_delivery hold.operation_kind))
                review_needed
            update_hold λ h. record h {
              operation_kind = some OperationKind.delivery;
              operation_amount = some hold.amount;
            }
            pure tt)
          else pure tt)

  unfoldable pub skip_countdown : ℕ → ℕ → M W (Unit {0})
  skip_countdown now customer_id = transaction (do
    hold ← find_or_throw (λ db. db.booking_hold)
    request ← find_or_throw (λ db. db.request)
    throw_if (not (hold.customer_id == customer_id)) not_yours
    throw_if
        (not (is_some hold.confirmation_started_at)
          || is_cancelled request.status
          || not (can_skip hold.confirmation_state))
        cannot_skip
    if is_grace_period hold.confirmation_state
        then (do update_hold (λ h. record h { authorization_due_at = some now }); pure tt)
        else pure tt)

module _ {W : Type 0} (api : StripeApi W) where
  -- An approval whose response was lost counts as an authorisation.
  unfoldable pub notice_authorization : ℕ → Hold → M W Hold
  notice_authorization now hold =
      if not (is_some hold.authorized_at) && is_stripe hold.provider
      then match_option hold.stripe_payment_intent_id (pure hold) (λ id. do
        intent ← call (api.inspect_authorization id hold.stripe_account_id)
        if is_requires_capture intent.status
            then update_hold (λ h. record h { authorized_at = some now })
            else pure hold)
      else pure hold

  unfoldable pub begin_cancel_hold : ℕ → Bool → Option Quote → Hold → Request → M W (Unit {0})
  unfolding request_cancel quote_refused notice_authorization
  begin_cancel_hold now free quote hold request =
      if is_cancel hold.operation_kind
      then pure tt
      else (if is_some hold.operation_kind
          then throw operation_in_progress
          else (if is_state_cancelled hold.confirmation_state then pure tt else (do
            hold' ← notice_authorization now hold
            throw_if (picked_up request) manual_review_needed
            let fee = cancellation_fee now free hold' request
            throw_if (quote_refused free fee quote hold') fee_changed
            request_cancel fee)))

  unfoldable pub begin_cancel : ℕ → ℕ → Bool → Option Quote → M W (Unit {0})
  unfolding begin_cancel_hold
  begin_cancel now customer_id free quote = do
    request ← find_or_throw (λ db. db.request)
    throw_if (not (request.customer_id == customer_id)) not_yours
    found ← gets (λ db. db.booking_hold)
    match_option found (throw not_delayed) (λ hold.
        if is_some hold.confirmation_started_at
        then begin_cancel_hold now free quote hold request
        else throw not_delayed)

  unfoldable pub cancel : ℕ → ℕ → ℕ → Bool → Option Quote → M W CancelResult
  unfolding begin_cancel cancel_answer flag_settlement flag_after_pickup
  cancel now later customer_id free quote = do
    initial ← find_or_throw (λ db. db.request)
    throw_if (not (initial.customer_id == customer_id)) not_yours
    if picked_up initial then (do flag_settlement; throw manual_review_needed) else (do
      catch (transaction (begin_cancel now customer_id free quote)) flag_after_pickup
      process api later
      cancel_answer)

  unfoldable pub capture_delivery : ℕ → ℕ → ℕ → Bool → M W (Unit {0})
  unfolding begin_delivery
  capture_delivery now later customer_id release_now = do
    original ← gets (λ db. db.booking_hold)
    match_option original (pure tt) (λ hold.
        if is_some hold.confirmation_started_at
        then (do
          transaction (begin_delivery now customer_id release_now)
          process api later
          pure tt)
        else pure tt)

  -- An approval that went through is kept, though the app reports a failure.
  unfoldable pub approval_went_through : Hold → M W Bool
  approval_went_through hold = match_option hold.stripe_payment_intent_id (pure false) (λ id. do
    intent ← call (api.inspect_authorization id hold.stripe_account_id)
    pure (is_requires_capture intent.status))

  unfoldable pub fail_approval : ℕ → ℕ → M W (Unit {0})
  unfolding approval_went_through
  fail_approval now customer_id = transaction (do
    hold ← find_or_throw (λ db. db.booking_hold)
    request ← find_or_throw (λ db. db.request)
    throw_if (not (hold.customer_id == customer_id)) not_yours
    if not (is_action_required hold.confirmation_state) then pure tt else (do
      approved ← approval_went_through hold
      if approved then pure tt else authorization_failed api now hold request approval_failed))
