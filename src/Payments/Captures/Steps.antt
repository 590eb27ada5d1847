-- ===== src/Payments/Captures/Steps.antt =====
-- What all calls of Stripe keep is kept by the worker's step and by `captureDelivery`
-- (src/payments/delayed-booking-payments.service.ts).
use transpo24_backend_nest_j.Base.{ℕ, Bool, Option, none, some}
use transpo24_backend_nest_j.Payments.State.{OperationKind, Hold, Request}
use transpo24_backend_nest_j.Payments.Stripe.{StripeApi, Intent, Error}
use transpo24_backend_nest_j.Payments.Calls.{
  KeepsWorld, KeepsWorld-call, KeepsWorld-pure, world_rules,
}
use transpo24_backend_nest_j.Payments.Finish.{
  inspect_optional, find_intent, capture_intent, collect_card, note_rest, collect_wallet,
  settle_operation, finish_operation,
}
use transpo24_backend_nest_j.Payments.Process.{
  process_booking, process_rows, process_locked, process_failed, process,
}
use transpo24_backend_nest_j.Payments.Commands.{may_release, begin_delivery, capture_delivery}
use transpo24_backend_nest_j.Payments.Captures.{
  KeptByOthers, unexpected_capture_seen-Keeps, release_previous-Keeps, process_open-Keeps,
  release_or_reconcile-Keeps, release-Keeps, reconcile-Keeps,
}
use transpo24_backend_nest_j.Payments.Captures.Operations.{process_failed-Keeps}

pub record KeptByStripe {W : Type 0} (api : StripeApi W) (P : W → Type 0) : Type 0 where
  pub others : KeptByOthers api P
  pub capture :
      (id amount : ℕ) (kind : Option OperationKind) (account fee : Option ℕ) (w : W)
      → P w
      → P (api.capture_authorization id amount kind account fee w).1

module _ {W : Type 0} {api : StripeApi W} {P : W → Type 0} (kept : KeptByStripe api P) where
  inspect_optional-Keeps : (id account : Option ℕ) → KeepsWorld P (inspect_optional api id account)
  unfolding inspect_optional
  inspect_optional-Keeps id account =
      search (world_rules, KeepsWorld-call, kept.others.inspect) depth 12

  find_intent-Keeps : (hold : Hold) → KeepsWorld P (find_intent api hold)
  unfolding find_intent
  find_intent-Keeps hold =
      search (world_rules, KeepsWorld-call, kept.others.inspect, inspect_optional-Keeps) depth 12

  capture_intent-Keeps :
      (hold : Hold) (request : Request) (amount : ℕ) (intent : Intent)
      → KeepsWorld P (capture_intent api hold request amount intent)
  unfolding capture_intent
  capture_intent-Keeps hold request amount intent =
      search (world_rules, KeepsWorld-call, kept.capture) depth 12

  collect_card-Keeps :
      (now : ℕ) (hold : Hold) (request : Request) (amount : ℕ)
      → KeepsWorld P (collect_card api now hold request amount)
  unfolding collect_card
  collect_card-Keeps now hold request amount =
      search
        (
          world_rules, find_intent-Keeps, capture_intent-Keeps, reconcile-Keeps, release-Keeps,
          kept.others,
        )
        depth 16

  collect_wallet-Keeps :
      (hold : Hold) (amount : ℕ) → KeepsWorld P (collect_wallet {W = W} hold amount)
  unfolding collect_wallet note_rest
  collect_wallet-Keeps hold amount = search world_rules depth 12

  settle_operation-Keeps :
      (now : ℕ) (hold : Hold) (request : Request) (amount : ℕ)
      → KeepsWorld P (settle_operation {W = W} now hold request amount)
  unfolding settle_operation
  settle_operation-Keeps now hold request amount = search world_rules depth 12

  finish_operation-Keeps :
      (now : ℕ) (hold : Hold) (request : Request)
      → KeepsWorld P (finish_operation api now hold request)
  unfolding finish_operation
  finish_operation-Keeps now hold request =
      search
        (
          world_rules, collect_card-Keeps, collect_wallet-Keeps, settle_operation-Keeps,
          release_or_reconcile-Keeps, kept.others,
        )
        depth 12

  process_booking-Keeps :
      (now : ℕ) (hold : Hold) (request : Request)
      → KeepsWorld P (process_booking api now hold request)
  unfolding process_booking
  process_booking-Keeps now hold request =
      search
        (
          world_rules, unexpected_capture_seen-Keeps, release_previous-Keeps, process_open-Keeps,
          finish_operation-Keeps, kept.others,
        )
        depth 12

  process_rows-Keeps :
      (now : ℕ) (found : Option Hold) (request : Option Request)
      → KeepsWorld P (process_rows api now found request)
  unfolding process_rows
  process_rows-Keeps now none request = KeepsWorld-pure none
  process_rows-Keeps now (some hold) none = KeepsWorld-pure none
  process_rows-Keeps now (some hold) (some request) =
      search (world_rules, process_booking-Keeps) depth 12

  process_failed_all : (now : ℕ) (e : Error) → KeepsWorld P (process_failed api now e)
  process_failed_all now e = process_failed-Keeps kept.others now e

  pub process-Keeps : (now : ℕ) → KeepsWorld P (process api now)
  unfolding process process_locked
  process-Keeps now = search (world_rules, process_rows-Keeps, process_failed_all) depth 12

  begin_delivery-Keeps :
      (now customer_id : ℕ) (release_now : Bool)
      → KeepsWorld P (begin_delivery {W = W} now customer_id release_now)
  unfolding begin_delivery may_release
  begin_delivery-Keeps now customer_id release_now = search world_rules depth 16

  pub capture_delivery-Keeps :
      (now later customer_id : ℕ) (release_now : Bool)
      → KeepsWorld P (capture_delivery api now later customer_id release_now)
  unfolding capture_delivery
  capture_delivery-Keeps now later customer_id release_now =
      search (world_rules, begin_delivery-Keeps, process-Keeps) depth 12
