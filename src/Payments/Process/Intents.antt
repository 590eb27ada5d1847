-- ===== src/Payments/Process/Intents.antt =====
-- The rest of `processLocked` for a booking that is not confirmed: the wallet is reserved, or the
-- card's authorisation is created, confirmed and followed
-- (src/payments/delayed-booking-payments.service.ts).
use transpo24_backend_nest_j.Base.{
  ℕ, ◌+◌, ◌*◌, ltb, leb, ◌==◌, if◌then◌else◌, Bool, false, not, ◌&&◌, ◌||◌, Option, none, some,
  get_or,
}
use transpo24_backend_nest_j.Base.Int.{pos, ◌+ℤ◌, ◌-ℤ◌, ltb_ℤ}
use transpo24_backend_nest_j.Payments.State.{
  ConfirmationState, TransactionType, Reason, bank_refused, provider_message, approval_late,
  wallet_insufficient, Hold, Request, Wallet,
}
use transpo24_backend_nest_j.Payments.Stripe.{
  M, StripeApi, Intent, IntentStatus, Charge, expanded, authorization_mismatch, no_expiry, ◌>>=◌,
  ◌>>◌, pure, throw, gets, call, find_or_throw, match_option,
}
use transpo24_backend_nest_j.Payments.Rows.{
  update_hold, update_wallet, add_transaction, is_wallet, charge_id_of,
}
use transpo24_backend_nest_j.Payments.Reconcile.{release_optional, expected_fee}
use transpo24_backend_nest_j.Payments.Authorize.{mark_held, cancel_tx, authorization_failed}

abbrev pub bank_approval_ms : ℕ
bank_approval_ms = 5 * 60 * 1000

unfoldable pub wallet_covers : Hold → Option Wallet → Bool
wallet_covers hold none = false
wallet_covers hold (some w) =
    w.currency == hold.currency && not (ltb_ℤ (w.balance -ℤ w.reserved_balance) (pos hold.amount))

-- `capture_before` of an expanded charge; 0 is none, as `!expires` has it.
unfoldable pub expiry_of : Charge → Option ℕ
expiry_of (expanded id refunded (some at)) = if at == 0 then none else some (at * 1000)
expiry_of _ = none

-- The approval deadline has come.
unfoldable pub approval_missed : ℕ → Hold → Bool
approval_missed now hold = elim hold.approval_deadline_at [ none ↦ false | some at ↦ leb at now ]

-- The free countdown is not over: `authorizationDueAt && now < authorizationDueAt`.
unfoldable pub countdown_runs : ℕ → Hold → Bool
countdown_runs now hold = elim hold.authorization_due_at [ none ↦ false | some at ↦ ltb now at ]

abbrev message_of : Option ℕ → Reason
message_of none = bank_refused
message_of (some m) = provider_message m

module _ {W : Type 0} where
  unfoldable pub reserve_wallet : ℕ → Hold → M W (Option Hold)
  reserve_wallet now hold = do
    update_wallet (λ w. record w { reserved_balance = w.reserved_balance +ℤ pos hold.amount })
    add_transaction
        (record { amount = hold.amount; currency = hold.currency; kind = TransactionType.hold })
    updated ← mark_held now hold none none
    pure (some updated)

module _ {W : Type 0} (api : StripeApi W) where
  unfoldable pub process_wallet : ℕ → Hold → Request → M W (Option Hold)
  process_wallet now hold request = do
    wallet ← gets (λ db. db.wallet)
    if wallet_covers hold wallet
        then reserve_wallet now hold
        else (do cancel_tx api now hold request wallet_insufficient; pure none)

  unfoldable pub create_intent : Hold → M W (Option Hold)
  create_intent hold = do
    customer ← find_or_throw (λ db. db.customer)
    intent ← call (
        api.create_manual_authorization customer hold.stripe_account_id (expected_fee hold)
          hold.amount hold.currency hold.stripe_payment_method_id hold.authorization_attempt)
    update_hold λ h. record h {
      stripe_payment_intent_id = some intent.id;
      stripe_client_secret = intent.client_secret;
      confirmation_state =
          if hold.authorization_attempt == 0
          then ConfirmationState.authorizing
          else ConfirmationState.renewing;
    }
    pure none

  -- The intent as it is, after it was confirmed or its authentication resumed where that is due.
  unfoldable pub advance_status : Hold → Intent → IntentStatus → M W Intent
  advance_status hold intent IntentStatus.requires_confirmation = do
    customer ← find_or_throw (λ db. db.customer)
    call (
        api.confirm_manual_authorization intent.id hold.authorization_attempt hold.stripe_account_id
          customer hold.stripe_payment_method_id)
  advance_status hold intent IntentStatus.requires_payment_method =
      if intent.authentication_required
      then (do
        customer ← find_or_throw (λ db. db.customer)
        call (
            api.resume_manual_authentication intent hold.authorization_attempt
              hold.stripe_account_id customer hold.stripe_payment_method_id))
      else pure intent
  advance_status hold intent _ = pure intent

  unfoldable pub confirm_held : ℕ → Hold → Intent → M W (Option Hold)
  confirm_held now hold intent =
      match_option (expiry_of intent.latest_charge) (throw no_expiry) (λ expires. do
        updated ← mark_held now hold (charge_id_of intent.latest_charge) (some expires)
        release_optional api hold.previous_stripe_payment_intent_id hold.stripe_account_id false
        update_hold (λ h. record h { previous_stripe_payment_intent_id = none })
        pure (some updated))

  unfoldable pub request_approval : ℕ → Hold → M W (Option Hold)
  request_approval now hold = do
    update_hold λ h. record h {
      confirmation_state = ConfirmationState.action_required;
      approval_deadline_at = some (get_or hold.approval_deadline_at (now + bank_approval_ms));
    }
    pure none

  -- What follows from the status of the advanced intent.
  unfoldable pub follow_status : ℕ → Hold → Request → Intent → IntentStatus → M W (Option Hold)
  unfolding approval_missed
  follow_status now hold request intent IntentStatus.requires_capture =
      if approval_missed now hold
      then (do authorization_failed api now hold request approval_late; pure none)
      else confirm_held now hold intent
  follow_status now hold request intent IntentStatus.requires_action =
      if approval_missed now hold
      then (do authorization_failed api now hold request approval_late; pure none)
      else request_approval now hold
  follow_status now hold request intent IntentStatus.requires_payment_method = do
    authorization_failed api now hold request (message_of intent.last_error_message)
    pure none
  follow_status now hold request intent IntentStatus.canceled = do
    authorization_failed api now hold request (message_of intent.last_error_message)
    pure none
  follow_status now hold request intent _ = pure none

  unfoldable pub follow_intent : ℕ → Hold → Request → ℕ → M W (Option Hold)
  follow_intent now hold request id = do
    seen ← call (api.inspect_authorization id hold.stripe_account_id)
    intent ← advance_status hold seen seen.status
    if not (intent.amount == hold.amount) || not (intent.currency == hold.currency)
        then throw authorization_mismatch
        else follow_status now hold request intent intent.status

  unfoldable pub process_unconfirmed : ℕ → Hold → Request → M W (Option Hold)
  process_unconfirmed now hold request =
      if countdown_runs now hold
      then pure none
      else (if is_wallet hold.provider
          then process_wallet now hold request
          else match_option hold.stripe_payment_intent_id (create_intent hold)
              (λ id. follow_intent now hold request id))
