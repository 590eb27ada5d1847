-- ===== src/Payments/Captures.antt =====
-- A worker's step captures money for a pending operation only
-- (src/payments/delayed-booking-payments.service.ts).
pub mod Operations
pub mod Steps
use transpo24_backend_nest_j.Base.{ℕ, ◌≡◌, Bool, true, false, not, Option, none, some, is_some}
use transpo24_backend_nest_j.Payments.State.{Reason, Hold, Request, Db}
use transpo24_backend_nest_j.Payments.Stripe.{
  M, St, StripeApi, Intent, IntentStatus, Error, ◌>>=◌, ◌>>◌,
}
use transpo24_backend_nest_j.Payments.Calls.{
  KeepsWorld, KeepsWorld-call, KeepsWorld-pure, KeepsWorld-throw, world_rules,
}
use transpo24_backend_nest_j.Payments.Reconcile.{
  reconcile_unexpected_capture, release_stripe_intent, release_optional, release_wallet, release,
  recover_release, release_or_reconcile,
}
use transpo24_backend_nest_j.Payments.Authorize.{mark_held, cancel_tx, authorization_failed}
use transpo24_backend_nest_j.Payments.Process.Intents.{
  reserve_wallet, process_wallet, create_intent, advance_status, confirm_held, request_approval,
  follow_status, follow_intent, process_unconfirmed,
}
use transpo24_backend_nest_j.Payments.Process.{
  process_confirmed, process_current, process_open, unexpected_capture_seen, release_previous,
}

-- What holds of Stripe's world stays true under every call but a capture.
pub record KeptByOthers {W : Type 0} (api : StripeApi W) (P : W → Type 0) : Type 0 where
  pub inspect :
      (id : ℕ) (account : Option ℕ) (w : W) → P w → P (api.inspect_authorization id account w).1
  pub cancel :
      (id : ℕ) (account : Option ℕ) (w : W)
      → P w
      → P (api.cancel_payment_intent_if_exists id account w).1
  pub create :
      (customer account fee : Option ℕ) (amount currency : ℕ) (method : Option ℕ) (attempt : ℕ)
      (w : W)
      → P w
      → P (api.create_manual_authorization customer account fee amount currency method attempt w).1
  pub confirm :
      (id attempt : ℕ) (account customer method : Option ℕ) (w : W)
      → P w
      → P (api.confirm_manual_authorization id attempt account customer method w).1
  pub resume :
      (intent : Intent) (attempt : ℕ) (account customer method : Option ℕ) (w : W)
      → P w
      → P (api.resume_manual_authentication intent attempt account customer method w).1

module _ {W : Type 0} {P : W → Type 0} where
  pub reconcile-Keeps :
      (now : ℕ) (hold : Hold) (intent : Intent)
      → KeepsWorld P (reconcile_unexpected_capture {W = W} now hold intent)
  unfolding reconcile_unexpected_capture
  reconcile-Keeps now hold intent = search world_rules depth 12

  mark_held-Keeps :
      (now : ℕ) (hold : Hold) (charge expires : Option ℕ)
      → KeepsWorld P (mark_held {W = W} now hold charge expires)
  unfolding mark_held
  mark_held-Keeps now hold charge expires = search world_rules depth 12

-- What holds of Stripe's world is kept by each part of a worker's step but `finishOperation`.
module _ {W : Type 0} {api : StripeApi W} {P : W → Type 0} (kept : KeptByOthers api P) where
  release_stripe_intent-Keeps :
      (id : ℕ) (account : Option ℕ) (allow : Bool)
      → KeepsWorld P (release_stripe_intent api id account allow)
  unfolding release_stripe_intent
  release_stripe_intent-Keeps id account allow =
      search (world_rules, KeepsWorld-call, kept.inspect, kept.cancel) depth 12

  release_optional-Keeps :
      (id account : Option ℕ) (allow : Bool) → KeepsWorld P (release_optional api id account allow)
  unfolding release_optional
  release_optional-Keeps id account allow =
      search (world_rules, release_stripe_intent-Keeps) depth 12

  pub release-Keeps : (hold : Hold) (allow : Bool) → KeepsWorld P (release api hold allow)
  unfolding release release_wallet
  release-Keeps hold allow = search (world_rules, release_optional-Keeps) depth 12

  recover_release-Keeps :
      (now : ℕ) (hold : Hold) (e : Error) → KeepsWorld P (recover_release api now hold e)
  unfolding recover_release
  recover_release-Keeps now hold e =
      search (world_rules, KeepsWorld-call, kept.inspect, reconcile-Keeps) depth 12

  pub release_or_reconcile-Keeps :
      (now : ℕ) (hold : Hold) → KeepsWorld P (release_or_reconcile api now hold)
  unfolding release_or_reconcile
  release_or_reconcile-Keeps now hold =
      search (world_rules, release-Keeps, recover_release-Keeps) depth 12

  cancel_tx-Keeps :
      (now : ℕ) (hold : Hold) (request : Request) (reason : Reason)
      → KeepsWorld P (cancel_tx api now hold request reason)
  unfolding cancel_tx
  cancel_tx-Keeps now hold request reason =
      search (world_rules, release_or_reconcile-Keeps) depth 12

  pub authorization_failed-Keeps :
      (now : ℕ) (hold : Hold) (request : Request) (reason : Reason)
      → KeepsWorld P (authorization_failed api now hold request reason)
  unfolding authorization_failed
  authorization_failed-Keeps now hold request reason =
      search (world_rules, cancel_tx-Keeps) depth 12

  process_wallet-Keeps :
      (now : ℕ) (hold : Hold) (request : Request)
      → KeepsWorld P (process_wallet api now hold request)
  unfolding process_wallet reserve_wallet
  process_wallet-Keeps now hold request =
      search (world_rules, mark_held-Keeps, cancel_tx-Keeps) depth 12

  create_intent-Keeps : (hold : Hold) → KeepsWorld P (create_intent api hold)
  unfolding create_intent
  create_intent-Keeps hold = search (world_rules, KeepsWorld-call, kept.create) depth 12

  advance_status-Keeps :
      (hold : Hold) (intent : Intent) (status : IntentStatus)
      → KeepsWorld P (advance_status api hold intent status)
  unfolding advance_status
  advance_status-Keeps hold intent IntentStatus.requires_confirmation =
      search (world_rules, KeepsWorld-call, kept.confirm) depth 12
  advance_status-Keeps hold intent IntentStatus.requires_payment_method =
      search (world_rules, KeepsWorld-call, kept.resume) depth 12
  advance_status-Keeps hold intent _ = KeepsWorld-pure intent

  confirm_held-Keeps :
      (now : ℕ) (hold : Hold) (intent : Intent) → KeepsWorld P (confirm_held api now hold intent)
  unfolding confirm_held
  confirm_held-Keeps now hold intent =
      search (world_rules, mark_held-Keeps, release_optional-Keeps) depth 16

  follow_status-Keeps :
      (now : ℕ) (hold : Hold) (request : Request) (intent : Intent) (status : IntentStatus)
      → KeepsWorld P (follow_status api now hold request intent status)
  unfolding follow_status request_approval
  follow_status-Keeps now hold request intent IntentStatus.processing = KeepsWorld-pure none
  follow_status-Keeps now hold request intent IntentStatus.requires_confirmation =
      KeepsWorld-pure none
  follow_status-Keeps now hold request intent IntentStatus.succeeded = KeepsWorld-pure none
  follow_status-Keeps now hold request intent _ =
      search (world_rules, authorization_failed-Keeps, confirm_held-Keeps) depth 12

  process_unconfirmed-Keeps :
      (now : ℕ) (hold : Hold) (request : Request)
      → KeepsWorld P (process_unconfirmed api now hold request)
  unfolding process_unconfirmed follow_intent
  process_unconfirmed-Keeps now hold request =
      search
        (
          world_rules, KeepsWorld-call, kept.inspect, process_wallet-Keeps, create_intent-Keeps,
          advance_status-Keeps, follow_status-Keeps,
        )
        depth 12

  process_confirmed-Keeps :
      (now : ℕ) (hold : Hold) (request : Request)
      → KeepsWorld P (process_confirmed api now hold request)
  unfolding process_confirmed
  process_confirmed-Keeps now hold request =
      search
        (world_rules, KeepsWorld-call, kept.inspect, reconcile-Keeps, authorization_failed-Keeps)
        depth 12

  pub process_open-Keeps :
      (now : ℕ) (hold : Hold) (request : Request) → KeepsWorld P (process_open api now hold request)
  unfolding process_open process_current
  process_open-Keeps now hold request =
      search (world_rules, cancel_tx-Keeps, process_confirmed-Keeps, process_unconfirmed-Keeps)
        depth 12

  pub unexpected_capture_seen-Keeps :
      (now : ℕ) (hold : Hold) (request : Request)
      → KeepsWorld P (unexpected_capture_seen api now hold request)
  unfolding unexpected_capture_seen
  unexpected_capture_seen-Keeps now hold request =
      search (world_rules, KeepsWorld-call, kept.inspect, reconcile-Keeps) depth 12

  pub release_previous-Keeps : (hold : Hold) → KeepsWorld P (release_previous api hold)
  unfolding release_previous
  release_previous-Keeps hold = search (world_rules, release_stripe_intent-Keeps) depth 12
