-- ===== src/Reservations/Once.antt =====
-- `notifyOnce` of src/customer-requests/furniture-reservations.service.ts sends a notice once.
use transpo24_backend_nest_j.Base.{
  ℕ, ◌≡◌, refl, Bool, true, false, Option, none, some, List, [], ◌∷◌, ◌++◌, is_some, ok, arith,
  if◌then◌else◌,
}
use transpo24_backend_nest_j.Reservations.State.{
  Request, NoticeType, PushApp, Notice, ReservationDb, ◌>>=◌, ◌>>◌, return, transaction,
}
use transpo24_backend_nest_j.Reservations.Notices.{
  marker, applies, marked, is_reminder, offer_user, send_to_user, send_to_driver, notify,
  marked_row, notify_once,
}

-- The notices of a type: the driver's only if there is one, and not of a reminder.
abbrev pub driver_notices : Option ℕ → NoticeType → List Notice
driver_notices none type = []
driver_notices (some user) type =
    if is_reminder type
    then []
    else record { user_id = user; app = PushApp.driver; type = type } ∷ []

abbrev pub notices : NoticeType → Request → ReservationDb → List Notice
notices type r db =
    driver_notices (offer_user r db) type
    ++ (record { user_id = r.customer_id; app = PushApp.customer; type = type } ∷ db.sent)

is_some-marker :
    (type : NoticeType) (now : ℕ) (r : Request) → is_some (marker type (marked type now r)) ≡ true
is_some-marker type now r = ground arith

module _ (delivers : Notice → Bool) (taken : (n : Notice) → delivers n ≡ true) where
  send_to_user_lem :
      (user : ℕ) (app : PushApp) (type : NoticeType) (db : ReservationDb)
      → send_to_user delivers user app type db
        ≡ (ok tt, record db { sent = record { user_id = user; app = app; type = type } ∷ db.sent })
  unfolding send_to_user
  send_to_user_lem user app type db =
      rw (taken (record { user_id = user; app = app; type = type })) refl

  send_to_driver_lem :
      (user : Option ℕ) (type : NoticeType) (db : ReservationDb)
      → send_to_driver delivers user type db
        ≡ (ok tt, record db { sent = driver_notices user type ++ db.sent })
  unfolding return
  send_to_driver_lem none type db = refl
  send_to_driver_lem (some user) NoticeType.furniture_confirmation_due db = refl
  send_to_driver_lem (some user) NoticeType.furniture_reserved db =
      send_to_user_lem user PushApp.driver NoticeType.furniture_reserved db
  send_to_driver_lem (some user) NoticeType.furniture_payment_confirmed db =
      send_to_user_lem user PushApp.driver NoticeType.furniture_payment_confirmed db
  send_to_driver_lem (some user) NoticeType.furniture_reservation_cancelled db =
      send_to_user_lem user PushApp.driver NoticeType.furniture_reservation_cancelled db

  notify_lem :
      (type : NoticeType) (r : Request) (db : ReservationDb)
      → notify delivers type r db ≡ (ok tt, record db { sent = notices type r db })
  unfolding notify ◌>>=◌
  notify_lem type r db =
      rw (send_to_user_lem r.customer_id PushApp.customer type db)
        (send_to_driver_lem (offer_user r db) type _)

  sent_then_marked :
      (now : ℕ) (type : NoticeType) (r : Request) (db : ReservationDb)
      → db.request ≡ some r
      → (notify delivers type r >> transaction (marked_row type now)) db
        ≡ (ok tt, record db { sent = notices type r db; request = some (marked type now r) })
  unfolding ◌>>=◌ marked_row
  sent_then_marked now type r db row = simp (notify_lem type r db, row) refl

  notify_once_lem :
      (now : ℕ) (type : NoticeType) (r : Request) (db : ReservationDb)
      → db.request ≡ some r
      → is_some (marker type r) ≡ false
      → applies type now r ≡ true
      → notify_once delivers now type db
        ≡ (ok tt, record db { sent = notices type r db; request = some (marked type now r) })
  unfolding notify_once ◌>>=◌
  notify_once_lem now type r db row fresh due =
      simp (row, fresh, due, sent_then_marked now type r db row) refl

-- A request that is marked has nothing sent.
marked_stays :
    (delivers : Notice → Bool) (later : ℕ) (type : NoticeType) (r : Request) (db : ReservationDb)
    → db.request ≡ some r
    → is_some (marker type r) ≡ true
    → notify_once delivers later type db ≡ (ok tt, db)
unfolding notify_once ◌>>=◌
marked_stays delivers later type r db row sent_before = rw (row, sent_before) refl

-- Where a notice is due and the notifications service takes it, the customer gets it, and the offer's
-- driver unless it is a reminder; the request is marked, and no later call sends it again.
pub notify_once-sends :
    (delivers : Notice → Bool) (now later : ℕ) (type : NoticeType) (r : Request)
    (db : ReservationDb)
    → db.request ≡ some r
    → is_some (marker type r) ≡ false
    → applies type now r ≡ true
    → ((n : Notice) → delivers n ≡ true)
    → let after = (notify_once delivers now type db).1 in
      (notify_once delivers now type db ≡ (ok tt, after))
      × (after.request ≡ some (marked type now r))
      × (after.sent ≡ notices type r db)
      × (notify_once delivers later type after ≡ (ok tt, after))
notify_once-sends delivers now later type r db row fresh due taken =
    rw (notify_once_lem delivers taken now type r db row fresh due) (
      refl,
      refl,
      refl,
      marked_stays delivers later type (marked type now r) _ refl (is_some-marker type now r),
    )
