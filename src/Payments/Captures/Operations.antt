-- ===== src/Payments/Captures/Operations.antt =====
-- The headline of Payments/Captures: without a pending operation, no capture.
use transpo24_backend_nest_j.Base.{
  ℕ, ◌≡◌, refl, ap, ◌∙◌, inl, inr, Bool-cases, true, false, Option, none, some, is_some, ok,
  if◌then◌else◌, arith,
}
use transpo24_backend_nest_j.Payments.State.{OperationKind, Hold, Request}
use transpo24_backend_nest_j.Payments.Stripe.{
  M, St, StripeApi, Error, card_gone, ◌>>=◌, ◌>>◌, pure, with_db,
}
use transpo24_backend_nest_j.Payments.Calls.{
  KeepsWorld, KeepsWorld-pure, KeepsWorld-throw, bind_world_at, caught_world, transaction_world,
  world_rules,
}
use transpo24_backend_nest_j.Payments.Rows.{update_hold}
use transpo24_backend_nest_j.Payments.Frames.{release_stripe_intent-db}
use transpo24_backend_nest_j.Payments.Finish.{finish_operation}
use transpo24_backend_nest_j.Payments.Process.{
  unexpected_capture_seen, release_previous, process_open, process_booking, process_rows,
  process_locked, fail_card, process_failed, process,
}
use transpo24_backend_nest_j.Payments.Captures.{
  KeptByOthers, unexpected_capture_seen-Keeps, release_previous-Keeps, process_open-Keeps,
  authorization_failed-Keeps,
}

-- The pending operation of the row that was found.
abbrev pub operation_of : Option Hold → Option OperationKind
operation_of none = none
operation_of (some hold) = hold.operation_kind

idle_branch :
    {W A B : Type 0} (P : W → Type 0) (o : Option A) (m n : M W B) (s : St W)
    → o ≡ none
    → P (n s).1.world
    → P ((if is_some o then m else n) s).1.world
idle_branch P none m n s e h = h
idle_branch P (some a) m n s e h = cc

module _ {W : Type 0} (api : StripeApi W) where
  -- Where no capture was seen, the rows are as they were.
  seen_nothing :
      (now : ℕ) (hold : Hold) (request : Request) (s : St W)
      → (unexpected_capture_seen api now hold request s).0 ≡ ok false
      → (unexpected_capture_seen api now hold request s).1.db ≡ s.db
  unfolding unexpected_capture_seen ◌>>=◌ update_hold
  seen_nothing now hold request s h = ground arith

  previous_keeps_operation :
      (hold hold' : Hold) (s : St W)
      → s.db.booking_hold ≡ some hold
      → (release_previous api hold s).0 ≡ ok hold'
      → hold'.operation_kind ≡ hold.operation_kind
  unfolding release_previous ◌>>=◌ update_hold
  previous_keeps_operation hold hold' s row h = grind (arith, release_stripe_intent-db)

module _ {W : Type 0} {api : StripeApi W} {P : W → Type 0} (kept : KeptByOthers api P) where
  open_after_previous :
      (now : ℕ) (hold : Hold) (request : Request) (s : St W)
      → s.db.booking_hold ≡ some hold
      → hold.operation_kind ≡ none
      → P s.world
      → P
          ((release_previous api hold >>= λ hold'.
              if is_some hold'.operation_kind
              then (finish_operation api now hold' request >> pure none)
              else process_open api now hold' request)
            s).1.world
  open_after_previous now hold request s row idle h =
      bind_world_at P (release_previous api hold) _ s ((release_previous-Keeps kept hold).at s h)
        λ hold' e.
          idle_branch P hold'.operation_kind _ (process_open api now hold' request)
            (release_previous api hold s).1 (previous_keeps_operation api hold hold' s row e ∙ idle)
            ((process_open-Keeps kept now hold' request).at (release_previous api hold s).1
              ((release_previous-Keeps kept hold).at s h))

  process_booking-world :
      (now : ℕ) (hold : Hold) (request : Request) (s : St W)
      → s.db.booking_hold ≡ some hold
      → hold.operation_kind ≡ none
      → P s.world
      → P (process_booking api now hold request s).1.world
  unfolding process_booking
  process_booking-world now hold request s row idle h =
      bind_world_at P (unexpected_capture_seen api now hold request) _ s
        ((unexpected_capture_seen-Keeps kept now hold request).at s h)
        (elim [
          | true ↦ λ e.
              (KeepsWorld-pure {A = Option Hold} {P = P} none).at
                (unexpected_capture_seen api now hold request s).1
                ((unexpected_capture_seen-Keeps kept now hold request).at s h)
          | false ↦ λ e.
              open_after_previous now hold request
                (unexpected_capture_seen api now hold request s).1
                (ap (λ db. db.booking_hold) (seen_nothing api now hold request s e) ∙ row) idle
                ((unexpected_capture_seen-Keeps kept now hold request).at s h)
        ])

  process_rows-world :
      (now : ℕ) (found : Option Hold) (request : Option Request) (s : St W)
      → s.db.booking_hold ≡ found
      → operation_of found ≡ none
      → P s.world
      → P (process_rows api now found request s).1.world
  unfolding process_rows pure
  process_rows-world now none request s row idle h = h
  process_rows-world now (some hold) none s row idle h = h
  process_rows-world now (some hold) (some request) s row idle h =
      elim (Bool-cases (is_some hold.confirmation_started_at)) [
        | inl started ↦ rw started (process_booking-world now hold request s row idle h)
        | inr legacy ↦ rw legacy h
      ]

  fail_card-Keeps :
      (now : ℕ) (found : Option Hold) (request : Option Request)
      → KeepsWorld P (fail_card api now found request)
  unfolding fail_card
  fail_card-Keeps now none request = KeepsWorld-pure tt
  fail_card-Keeps now (some hold) none = KeepsWorld-pure tt
  fail_card-Keeps now (some hold) (some request) =
      search (world_rules, authorization_failed-Keeps) depth 12

  pub process_failed-Keeps : (now : ℕ) (e : Error) → KeepsWorld P (process_failed api now e)
  unfolding process_failed
  process_failed-Keeps now card_gone = search (world_rules, fail_card-Keeps) depth 12
  process_failed-Keeps now e = KeepsWorld-throw e

  -- Whatever Stripe and the rows say, the worker's step captures nothing while no operation is
  -- pending: what holds of Stripe's world and is kept by every call but a capture still holds after
  -- the step, also after one that throws or takes the branch for a card that is gone.
  pub process-no_capture :
      (now : ℕ) (s : St W)
      → operation_of s.db.booking_hold ≡ none
      → P s.world
      → P (process api now s).1.world
  unfolding process process_locked with_db
  process-no_capture now s idle h =
      caught_world P (process_locked api now) (process_failed api now) s (process_failed-Keeps now)
        (transaction_world P (with_db (λ db. process_rows api now db.booking_hold db.request)) s
          (process_rows-world now s.db.booking_hold s.db.request s refl idle h))
