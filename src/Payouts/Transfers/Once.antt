-- ===== src/Payouts/Transfers/Once.antt =====
-- Stripe makes at most one transfer for an earning in a day (src/payments/payments.service.ts), by the
-- idempotency key that every attempt uses.
use transpo24_backend_nest_j.Base.{
  ℕ, ◌+◌, ◌*◌, ◌≤◌, ◌<◌, ◌≡◌, ◌⊎◌, inl, inr, refl, ap, Bool, true, false, ◌&&◌, ltb, ◌==◌, Option,
  List, [], ◌∷◌, any, length, arith,
}
use transpo24_backend_nest_j.Payments.State.{Db}
use transpo24_backend_nest_j.Payments.Stripe.{St, StripeApi}
use transpo24_backend_nest_j.Payouts.State.{TripIds, JobReason, Transfer, PayoutApi}
use transpo24_backend_nest_j.Payouts.Queue.{enqueue_driver_payout}
use transpo24_backend_nest_j.Payouts.Updates.{RequestedBy}
use transpo24_backend_nest_j.Payouts.Attempt.{attempt_driver_payout}
use transpo24_backend_nest_j.Payouts.Transfers.{KeptByPayout, enqueue-Keeps}
use transpo24_backend_nest_j.Payouts.Transfers.Attempts.{attempt-Keeps}

-- A transfer that Stripe made, and when by its clock.
pub record MadeTransfer : Type 0 where
  pub transfer : Transfer
  pub made_at : ℕ

-- Stripe keeps an idempotency key for 24 hours at least, and may prune it then.
abbrev pub key_life_ms : ℕ
key_life_ms = 24 * 60 * 60 * 1000

-- The key was used less than 24 hours before.
abbrev pub is_remembered : ℕ → ℕ → List MadeTransfer → Bool
is_remembered key at made =
    any (λ u. u.transfer.idempotency_key == key && ltb at (u.made_at + key_life_ms)) made

-- What Stripe documents of an idempotency key: a call whose key it remembers makes no transfer, and
-- another one makes its own at most, at some time of the call.
pub record IsIdempotent {W : Type 0} (api : PayoutApi W) (clock : W → ℕ)
    (transfers : W → List MadeTransfer) : Type 0 where
  pub goes_on : (t : Transfer) (w : W) → clock w ≤ clock (api.create_transfer t w).1
  pub creates :
      (t : Transfer) (w : W)
      → (transfers (api.create_transfer t w).1 ≡ transfers w)
        ⊎ ((at : ℕ) × (clock w ≤ at)
            × (at ≤ clock (api.create_transfer t w).1)
            × (transfers (api.create_transfer t w).1
                ≡ record { transfer = t; made_at = at } ∷ transfers w)
            × (is_remembered t.idempotency_key at (transfers w) ≡ false))

-- What happens to one trip's payout: an attempt, which may fail anywhere, another job for the queue,
-- or any write of the rows by another service.
pub data PayoutEvent : Type 0 where
  attempted : (now later : ℕ) → RequestedBy → PayoutEvent
  queued : (now : ℕ) → JobReason → Option ℕ → PayoutEvent
  rows_written : (Db → Db) → PayoutEvent

module _ {W : Type 0} (api : PayoutApi W) (stripe : StripeApi W) (ids : TripIds) where
  unfoldable pub run_event : PayoutEvent → St W → St W
  run_event (attempted now later by) s = (attempt_driver_payout api ids stripe now later by s).1
  run_event (queued now reason run_at) s =
      (enqueue_driver_payout api now ids.trip_id reason run_at true s).1
  run_event (rows_written f) s = record s { db = f s.db }

  unfoldable pub run_events : List PayoutEvent → St W → St W
  run_events [] s = s
  run_events (e ∷ es) s = run_events es (run_event e s)

-- Nothing was transferred since, or one transfer with the key.
abbrev OneMore : ℕ → ℕ → List MadeTransfer → List MadeTransfer → Type 0
OneMore key start base now =
    (now ≡ base)
    ⊎ ((u : MadeTransfer) × (u.transfer.idempotency_key ≡ key)
        × (start ≤ u.made_at)
        × (now ≡ u ∷ base))

-- In the 24 hours from the start there is one more at most.
abbrev OneInLife : ℕ → ℕ → List MadeTransfer → ℕ → List MadeTransfer → Type 0
OneInLife key start base time now =
    (start ≤ time) × (time < start + key_life_ms → OneMore key start base now)

new_key :
    (key start time time' at : ℕ) (base now : List MadeTransfer) (t : Transfer)
    → t.idempotency_key ≡ key
    → start ≤ time
    → time ≤ at
    → at ≤ time'
    → time' < start + key_life_ms
    → is_remembered t.idempotency_key at now ≡ false
    → OneMore key start base now
    → OneMore key start base (record { transfer = t; made_at = at } ∷ now)
new_key key start time time' at base now t e h k l m fresh (inl p) =
    inr (record { transfer = t; made_at = at }, e, omega arith, rw p refl)
new_key key start time time' at base now t e h k l m fresh (inr (u, eu, made, p)) =
    ground (arith, ap (is_remembered t.idempotency_key at) p)

OneMore-length :
    (key start : ℕ) (base now : List MadeTransfer)
    → OneMore key start base now
    → length now ≤ length base + 1
OneMore-length key start base now (inl p) = rw p (omega arith)
OneMore-length key start base now (inr (t, e, made, p)) = rw p (omega arith)

module _ {W : Type 0} {api : PayoutApi W} {stripe : StripeApi W} (clock : W → ℕ)
    (transfers : W → List MadeTransfer) (once : IsIdempotent api clock transfers)
    (others : (Q : W → Type 0)
      → ((w w' : W) → transfers w' ≡ transfers w → clock w ≤ clock w' → Q w → Q w')
      → KeptByPayout api stripe Q)
    (ids : TripIds) where
  abbrev Once : ℕ → List MadeTransfer → W → Type 0
  Once start base w = OneInLife ids.earning_id start base (clock w) (transfers w)

  created-Once :
      (start : ℕ) (base : List MadeTransfer) (t : Transfer) (w : W)
      → t.idempotency_key ≡ ids.earning_id
      → Once start base w
      → Once start base (api.create_transfer t w).1
  created-Once start base t w e h =
      let on = once.goes_on t w in
      (
        omega arith,
        λ soon. elim (once.creates t w) [
          | inl same ↦ rw same (h.1 (omega arith))
          | inr (at, after, before, new, fresh) ↦ rw new (
              new_key ids.earning_id start (clock w) (clock (api.create_transfer t w).1) at base
                (transfers w) t e h.0 after before soon fresh (h.1 (omega arith)))
        ],
      )

  later-Once :
      (start : ℕ) (base : List MadeTransfer) (w w' : W)
      → transfers w' ≡ transfers w
      → clock w ≤ clock w'
      → Once start base w
      → Once start base w'
  later-Once start base w w' same on h = (omega arith, λ soon. rw same (h.1 (omega arith)))

  run_event-Once :
      (start : ℕ) (base : List MadeTransfer) (e : PayoutEvent) (s : St W)
      → Once start base s.world
      → Once start base (run_event api stripe ids e s).world
  unfolding run_event
  run_event-Once start base (attempted now later by) s h =
      (attempt-Keeps (others (Once start base) (later-Once start base)) ids
          (created-Once start base) now later by).at
        s h
  run_event-Once start base (queued now reason run_at) s h =
      (enqueue-Keeps (others (Once start base) (later-Once start base)).queue now ids.trip_id reason
          run_at true).at
        s h
  run_event-Once start base (rows_written f) s h = h

  run_events-Once :
      (start : ℕ) (base : List MadeTransfer) (es : List PayoutEvent) (s : St W)
      → Once start base s.world
      → Once start base (run_events api stripe ids es s).world
  unfolding run_events
  run_events-Once start base [] s h = h
  run_events-Once start base (e ∷ es) s h =
      run_events-Once start base es (run_event api stripe ids e s) (run_event-Once start base e s h)

  -- A driver is not paid twice for a trip within 24 hours: whatever attempts are made for an earning,
  -- by whomever and however they fail, also where Stripe's answer is lost or the database refuses what
  -- follows, and whatever other services write to the rows between them, Stripe makes at most one
  -- transfer, if less than 24 hours pass by its clock, if it remembers a key for so long and if no
  -- other call makes transfers.
  pub run_events-one_transfer :
      (es : List PayoutEvent) (s : St W)
      → clock (run_events api stripe ids es s).world < clock s.world + key_life_ms
      → length (transfers (run_events api stripe ids es s).world) ≤ length (transfers s.world) + 1
  run_events-one_transfer es s soon =
      OneMore-length ids.earning_id (clock s.world) (transfers s.world) _ (
        (run_events-Once (clock s.world) (transfers s.world) es s (omega arith, λ _. inl refl)).1
          soon)
