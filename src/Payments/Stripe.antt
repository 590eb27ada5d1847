-- ===== src/Payments/Stripe.antt =====
-- Stripe as src/payments/delayed-booking-payments.service.ts sees it: the calls of
-- src/payments/stripe.service.ts are a parameter, over a world of their own that a rollback of the
-- database does not undo. A method of the service takes a state and returns a result, or an error,
-- with the state that it left behind.
use transpo24_backend_nest_j.Base.{ℕ, Bool, Option, none, some, Result, ok, err, if◌then◌else◌}
use transpo24_backend_nest_j.Payments.State.{OperationKind, Db}

pub data IntentStatus : Type 0 where
  requires_payment_method requires_confirmation requires_action : IntentStatus
  processing requires_capture canceled succeeded : IntentStatus

-- `latest_charge`: null, an id, or the charge itself.
pub data Charge : Type 0 where
  no_charge : Charge
  charge_id : ℕ → Charge
  expanded : (id amount_refunded : ℕ) → (capture_before : Option ℕ) → Charge

pub record Intent : Type 0 where
  pub id : ℕ
  pub client_secret : Option ℕ
  pub status : IntentStatus
  pub amount : ℕ
  pub amount_received : ℕ
  pub currency : ℕ
  pub application_fee_amount : Option ℕ
  pub latest_charge : Charge
  -- The code or the decline code of the last error is `authentication_required`.
  pub authentication_required : Bool
  pub last_error_message : Option ℕ

pub data Error : Type 0 where
  not_yours manual_review_needed not_delayed operation_in_progress fee_changed : Error
  review_needed capture_unreconciled not_released capture_pending : Error
  authorization_mismatch no_expiry not_delivered not_eligible_yet cannot_skip : Error
  -- A bad request whose message says that the saved card is gone.
  card_gone : Error
  -- A row that `findUniqueOrThrow` or `update` does not find.
  not_found : Error
  -- Another bad request.
  bad_request : ℕ → Error
  payment_missing not_collected unpaid_only : Error
  queue_unavailable profile_not_found earning_not_found not_your_earning : Error
  stripe_failed : ℕ → Error

pub record StripeApi (W : Type 0) : Type 0 where
  pub inspect_authorization : ℕ → Option ℕ → W → Result Error Intent × W
  pub cancel_payment_intent_if_exists : ℕ → Option ℕ → W → Result Error (Option Intent) × W
  -- The intent, the amount, the kind of the operation (the idempotency key), the account, the fee.
  pub capture_authorization :
      ℕ → ℕ → Option OperationKind → Option ℕ → Option ℕ → W → Result Error Intent × W
  -- The customer, the account, the fee, the amount, the currency, the method, the attempt (the key).
  pub create_manual_authorization :
      Option ℕ → Option ℕ → Option ℕ → ℕ → ℕ → Option ℕ → ℕ → W → Result Error Intent × W
  -- The intent, the attempt (the key), the account, the customer, the method.
  pub confirm_manual_authorization :
      ℕ → ℕ → Option ℕ → Option ℕ → Option ℕ → W → Result Error Intent × W
  pub resume_manual_authentication :
      Intent → ℕ → Option ℕ → Option ℕ → Option ℕ → W → Result Error Intent × W

pub record St (W : Type 0) : Type 0 where
  pub db : Db
  pub world : W

abbrev pub M : Type 0 → Type 0 → Type 0
M W A = St W → Result Error A × St W

-- The rest of a block after a result: an error skips it.
abbrev pub continue : {W A B : Type 0} → Result Error A → (A → M W B) → M W B
continue (ok a) f s = f a s
continue (err e) f s = (err e, s)

-- The answer of a handler, which is not asked after a success.
abbrev pub rescue : {W A : Type 0} → Result Error A → (Error → M W A) → M W A
rescue (ok a) handle s = (ok a, s)
rescue (err e) handle s = handle e s

-- What a transaction leaves: a throw brings the old rows back, and the world stays as it is.
abbrev pub settle : {W A : Type 0} → Result Error A → Db → St W → Result Error A × St W
settle (ok a) before s = (ok a, s)
settle (err e) before s = (err e, record s { db = before })

abbrev found : {A : Type 0} → Option A → Result Error A
found none = err not_found
found (some a) = ok a

module _ {W : Type 0} where
  unfoldable pub pure : {A : Type 0} → A → M W A
  pure a s = (ok a, s)

  unfoldable pub throw : {A : Type 0} → Error → M W A
  throw e s = (err e, s)

  unfoldable pub throw_if : Bool → Error → M W (Unit {0})
  throw_if c e s = ((if c then err e else ok tt), s)

  unfoldable pub gets : {A : Type 0} → (Db → A) → M W A
  gets f s = (ok (f s.db), s)

  unfoldable pub modify : (Db → Db) → M W (Unit {0})
  modify f s = (ok tt, record s { db = f s.db })

  -- `findUniqueOrThrow`
  unfoldable pub find_or_throw : {A : Type 0} → (Db → Option A) → M W A
  find_or_throw f s = (found (f s.db), s)

  -- A call of Stripe leaves the database alone.
  unfoldable pub call : {A : Type 0} → (W → Result Error A × W) → M W A
  call f s = let (r, w) = f s.world in (r, record s { world = w })

  -- `if (o) { … } else { … }` of an optional value.
  unfoldable pub match_option : {A B : Type 0} → Option A → M W B → (A → M W B) → M W B
  match_option none m f = m
  match_option (some a) m f = f a

  infixl 5 ◌>>=◌ ◌>>◌
  -- Opening this opens the other actions too.
  unfoldable pub ◌>>=◌ : {A B : Type 0} → M W A → (A → M W B) → M W B
  unfolding pure throw throw_if gets modify find_or_throw call match_option
  ◌>>=◌ m f s = let (r, s') = m s in continue r f s'

  abbrev pub ◌>>◌ : {A B : Type 0} → M W A → M W B → M W B
  m >> k = m >>= λ _. k

  -- `try { … } catch`: what was written before the throw stays written.
  unfoldable pub catch : {A : Type 0} → M W A → (Error → M W A) → M W A
  catch m handle s = let (r, s') = m s in rescue r handle s'

  -- `$transaction`: a throw rolls the database back, and nothing else.
  unfoldable pub transaction : {A : Type 0} → M W A → M W A
  transaction m s = let (r, s') = m s in settle r s.db s'

  -- The rows of the booking as a method finds them.
  unfoldable pub with_db : {A : Type 0} → (Db → M W A) → M W A
  with_db f s = f s.db s
