-- ===== src/Payments/Calls.antt =====
-- Which calls of Stripe a method makes: a predicate on Stripe's world that the listed calls keep is
-- kept by every block that makes no other. A rule for each way to build a block.
use transpo24_backend_nest_j.Base.{
  ◌≡◌, refl, Bool, true, false, Option, none, some, if◌then◌else◌, Result, ok, err,
}
use transpo24_backend_nest_j.Payments.State.{
  Db, Hold, Request, Settlement, Earning, Wallet, WalletTransaction,
}
use transpo24_backend_nest_j.Payments.Stripe.{
  M, St, Error, pure, throw, throw_if, gets, find_or_throw, call, match_option, ◌>>=◌, catch,
  transaction, with_db, continue, rescue, settle,
}
use transpo24_backend_nest_j.Payments.Rows.{
  update_hold, update_request, update_wallet, update_settlements, upsert_settlement, upsert_earning,
  add_transaction, updated_hold, updated_request, updated_wallet,
}

pub record KeepsWorld {W A : Type 0} (P : W → Type 0) (m : M W A) : Type 0 where
  pub at : (s : St W) → P s.world → P (m s).1.world

module _ {W : Type 0} (P : W → Type 0) where
  settled_world :
      {A : Type 0} (r : Result Error A) (before : Db) (s : St W)
      → P s.world
      → P (settle r before s).1.world
  settled_world (ok a) before s h = h
  settled_world (err e) before s h = h

  pub transaction_world :
      {A : Type 0} (m : M W A) (s : St W) → P (m s).1.world → P (transaction m s).1.world
  unfolding transaction
  transaction_world m s h = settled_world (m s).0 s.db (m s).1 h

  updated_hold_world :
      (o : Option Hold) (f : Hold → Hold) (s : St W) → P s.world → P (updated_hold o f s).1.world
  updated_hold_world none f s h = h
  updated_hold_world (some x) f s h = h

  updated_request_world :
      (o : Option Request) (f : Request → Request) (s : St W)
      → P s.world
      → P (updated_request o f s).1.world
  updated_request_world none f s h = h
  updated_request_world (some x) f s h = h

  updated_wallet_world :
      (o : Option Wallet) (f : Wallet → Wallet) (s : St W)
      → P s.world
      → P (updated_wallet o f s).1.world
  updated_wallet_world none f s h = h
  updated_wallet_world (some x) f s h = h

module _ {W A B : Type 0} (P : W → Type 0) where
  bind_world_from :
      (r : Result Error A) (f : A → M W B) (s : St W)
      → P s.world
      → ((a : A) → r ≡ ok a → P (f a s).1.world)
      → P (continue r f s).1.world
  bind_world_from (ok a) f s h k = k a refl
  bind_world_from (err e) f s h k = h

  -- The rest of a block may use what its first part returned and left.
  pub bind_world_at :
      (m : M W A) (f : A → M W B) (s : St W)
      → P (m s).1.world
      → ((a : A) → (m s).0 ≡ ok a → P (f a (m s).1).1.world)
      → P ((m >>= f) s).1.world
  unfolding ◌>>=◌
  bind_world_at m f s h k = bind_world_from (m s).0 f (m s).1 h k

module _ {W A : Type 0} (P : W → Type 0) where
  rescued_world :
      (r : Result Error A) (handle : Error → M W A) (s : St W)
      → ((e : Error) → KeepsWorld P (handle e))
      → P s.world
      → P (rescue r handle s).1.world
  rescued_world (ok a) handle s kh h = h
  rescued_world (err e) handle s kh h = (kh e).at s h

  pub caught_world :
      (m : M W A) (handle : Error → M W A) (s : St W)
      → ((e : Error) → KeepsWorld P (handle e))
      → P (m s).1.world
      → P (catch m handle s).1.world
  unfolding catch
  caught_world m handle s kh h = rescued_world (m s).0 handle (m s).1 kh h

module _ {W A : Type 0} {P : W → Type 0} where
  pub KeepsWorld-pure : (a : A) → KeepsWorld P (pure {A = A} a)
  unfolding pure
  KeepsWorld-pure a = record { at = λ s h. h }

  pub KeepsWorld-throw : (e : Error) → KeepsWorld P (throw {A = A} e)
  unfolding throw
  KeepsWorld-throw e = record { at = λ s h. h }

  pub KeepsWorld-gets : (f : Db → A) → KeepsWorld P (gets f)
  unfolding gets
  KeepsWorld-gets f = record { at = λ s h. h }

  pub KeepsWorld-find : (f : Db → Option A) → KeepsWorld P (find_or_throw f)
  unfolding find_or_throw
  KeepsWorld-find f = record { at = λ s h. h }

  pub KeepsWorld-call :
      (f : W → Result Error A × W) → ((w : W) → P w → P (f w).1) → KeepsWorld P (call f)
  unfolding call
  KeepsWorld-call f k = record { at = λ s h. k s.world h }

  pub KeepsWorld-if :
      (b : Bool) (m n : M W A) → KeepsWorld P m → KeepsWorld P n → KeepsWorld P (if b then m else n)
  KeepsWorld-if true m n km kn = km
  KeepsWorld-if false m n km kn = kn

  pub KeepsWorld-catch :
      (m : M W A) (handle : Error → M W A)
      → KeepsWorld P m
      → ((e : Error) → KeepsWorld P (handle e))
      → KeepsWorld P (catch m handle)
  unfolding catch
  KeepsWorld-catch m handle km kh = record {
    at = λ s h. let (r, s') = m s in rescued_world P r handle s' kh (km.at s h);
  }

  pub KeepsWorld-transaction : (m : M W A) → KeepsWorld P m → KeepsWorld P (transaction m)
  unfolding transaction
  KeepsWorld-transaction m km = record {
    at = λ s h. let (r, s') = m s in settled_world P r s.db s' (km.at s h);
  }

  pub KeepsWorld-with_db :
      (f : Db → M W A) → ((db : Db) → KeepsWorld P (f db)) → KeepsWorld P (with_db f)
  unfolding with_db
  KeepsWorld-with_db f kf = record { at = λ s h. (kf s.db).at s h }

module _ {W A B : Type 0} {P : W → Type 0} where
  pub KeepsWorld-option :
      (o : Option A) (m : M W B) (f : A → M W B)
      → KeepsWorld P m
      → ((a : A) → KeepsWorld P (f a))
      → KeepsWorld P (match_option o m f)
  unfolding match_option
  KeepsWorld-option none m f km kf = km
  KeepsWorld-option (some a) m f km kf = kf a

  KeepsWorld-continue :
      (r : Result Error A) (f : A → M W B) (s : St W)
      → ((a : A) → KeepsWorld P (f a))
      → P s.world
      → P (continue r f s).1.world
  KeepsWorld-continue (ok a) f s kf h = (kf a).at s h
  KeepsWorld-continue (err e) f s kf h = h

  pub KeepsWorld-bind :
      (m : M W A) (f : A → M W B)
      → KeepsWorld P m
      → ((a : A) → KeepsWorld P (f a))
      → KeepsWorld P (m >>= f)
  unfolding ◌>>=◌
  KeepsWorld-bind m f km kf = record {
    at = λ s h. let (r, s') = m s in KeepsWorld-continue r f s' kf (km.at s h);
  }

module _ {W : Type 0} {P : W → Type 0} where
  pub KeepsWorld-throw_if : (c : Bool) (e : Error) → KeepsWorld P (throw_if c e)
  unfolding throw_if
  KeepsWorld-throw_if c e = record { at = λ s h. h }

  pub KeepsWorld-update_hold : (f : Hold → Hold) → KeepsWorld P (update_hold f)
  unfolding update_hold
  KeepsWorld-update_hold f = record { at = λ s h. updated_hold_world P s.db.booking_hold f s h }

  pub KeepsWorld-update_request : (f : Request → Request) → KeepsWorld P (update_request f)
  unfolding update_request
  KeepsWorld-update_request f = record { at = λ s h. updated_request_world P s.db.request f s h }

  pub KeepsWorld-update_wallet : (f : Wallet → Wallet) → KeepsWorld P (update_wallet f)
  unfolding update_wallet
  KeepsWorld-update_wallet f = record { at = λ s h. updated_wallet_world P s.db.wallet f s h }

  pub KeepsWorld-update_settlements :
      (f : Settlement → Settlement) → KeepsWorld P (update_settlements f)
  unfolding update_settlements
  KeepsWorld-update_settlements f = record { at = λ s h. h }

  pub KeepsWorld-upsert_settlement :
      (f : Settlement → Settlement) (new : Settlement) → KeepsWorld P (upsert_settlement f new)
  unfolding upsert_settlement
  KeepsWorld-upsert_settlement f new = record { at = λ s h. h }

  pub KeepsWorld-upsert_earning :
      (f : Earning → Earning) (new : Earning) → KeepsWorld P (upsert_earning f new)
  unfolding upsert_earning
  KeepsWorld-upsert_earning f new = record { at = λ s h. h }

  pub KeepsWorld-add_transaction : (t : WalletTransaction) → KeepsWorld P (add_transaction t)
  unfolding add_transaction
  KeepsWorld-add_transaction t = record { at = λ s h. h }

pub ruleset world_rules = (
  KeepsWorld-pure, KeepsWorld-throw, KeepsWorld-throw_if, KeepsWorld-gets, KeepsWorld-find,
  KeepsWorld-if, KeepsWorld-bind, KeepsWorld-option, KeepsWorld-catch, KeepsWorld-transaction,
  KeepsWorld-with_db, KeepsWorld-update_hold, KeepsWorld-update_request, KeepsWorld-update_wallet,
  KeepsWorld-update_settlements, KeepsWorld-upsert_settlement, KeepsWorld-upsert_earning,
  KeepsWorld-add_transaction,
)
