-- ===== src/Trips/Ratings.antt =====
-- The driver's ratings (`createDriverRating` and `recalculateDriverRatingAggregate` of
-- src/trips/trips.service.ts).
use native.Mathlib.Nat.{le-div_iff_mul-le}
use transpo24_backend_nest_j.Base.{
  ℕ, ◌+◌, ◌*◌, ◌/◌, ◌≤◌, ◌<◌, ◌≡◌, refl, false, leb, leb→le, inl, inr, Bool-cases, Option, none,
  some, List, [], ◌∷◌, length, Result, ok, err, arith,
}
use transpo24_backend_nest_j.Policy.Pricing.{round_half_up}
use transpo24_backend_nest_j.Trips.State.{TripError, DriverRating, TripDb}
use transpo24_backend_nest_j.Trips.Delivery.{deliver_item_tx, create_driver_earning}
use transpo24_backend_nest_j.Trips.Feedback.{
  rating_sum, recalculate_driver_rating_aggregate, is_rated, confirm_tx,
}
use transpo24_backend_nest_j.Trips.Driving.{
  ProofInput, LocationInput, pickup_item_tx, start_delivery_tx, mark_arrived_tx,
}
use transpo24_backend_nest_j.Trips.Positions.{save_location, mark_near}
use transpo24_backend_nest_j.Trips.Lifecycle.{Env, Call, run_call, run_calls}
use transpo24_backend_nest_j.Trips.Lifecycle.Rows.{Leaves}
use transpo24_backend_nest_j.Trips.Lifecycle.Calls.{run_call_keeps}

-- Every rating is between one star and five, and no trip is rated twice.
abbrev pub AreRatings : List DriverRating → Type 0
AreRatings [] = Unit {0}
AreRatings (r ∷ rs) =
    ((2 ≤ r.rating) × (r.rating ≤ 10)) × (is_rated r.trip_id rs ≡ false) × AreRatings rs

rating_sum-bounds :
    (rs : List DriverRating)
    → AreRatings rs
    → (2 * length rs ≤ rating_sum rs) × (rating_sum rs ≤ 10 * length rs)
unfolding rating_sum
rating_sum-bounds [] h = (omega arith, omega arith)
rating_sum-bounds (r ∷ rs) h =
    let ih = rating_sum-bounds rs h.2 in (omega (arith, ih, h.0), omega (arith, ih, h.0))

round-le : (a n : ℕ) → a ≤ 500 * n → 0 < n → round_half_up a n ≤ 500
unfolding round_half_up
round-le a n h p = elim (Bool-cases (leb 501 ((2 * a + n) / (2 * n)))) [
  | inl big ↦
      let over : 501 * (2 * n) ≤ 2 * a + n =
        (le-div_iff_mul-le {k = 2 * n} {x = 501} {y = 2 * a + n} (omega arith)).0
          (leb→le 501 _ big) in
      absurd (omega (arith, over))
  | inr small ↦ ground arith
]

le-round : (a n : ℕ) → 100 * n ≤ a → 0 < n → 100 ≤ round_half_up a n
unfolding round_half_up
le-round a n h p =
    (le-div_iff_mul-le {k = 2 * n} {x = 100} {y = 2 * a + n} (omega arith)).1 (omega arith)

abbrev pub IsAverage : Option ℕ → Type 0
IsAverage none = Unit {0}
IsAverage (some a) = (100 ≤ a) × (a ≤ 500)

recalculate-IsAverage :
    (rs : List DriverRating)
    → AreRatings rs
    → IsAverage (recalculate_driver_rating_aggregate rs).average_rating
unfolding recalculate_driver_rating_aggregate
recalculate-IsAverage [] h = tt
recalculate-IsAverage (r ∷ rs) h =
    let b = rating_sum-bounds (r ∷ rs) h in
    (
      le-round (rating_sum (r ∷ rs) * 50) (length (r ∷ rs)) (omega (arith, b)) (omega arith),
      round-le (rating_sum (r ∷ rs) * 50) (length (r ∷ rs)) (omega (arith, b)) (omega arith),
    )

recalculate-count :
    (rs : List DriverRating) → (recalculate_driver_rating_aggregate rs).ratings_count ≡ length rs
unfolding recalculate_driver_rating_aggregate
recalculate-count [] = refl
recalculate-count (r ∷ rs) = refl

-- What the ratings of a driver and the aggregate in his profile keep.
pub record IsRated (db : TripDb) : Type 0 where
  pub ratings : AreRatings db.ratings
  pub aggregate : db.aggregate ≡ recalculate_driver_rating_aggregate db.ratings

-- What a transaction leaves of the ratings and of the aggregate.
abbrev KeepsRatings : TripDb → TripDb → Type 0
KeepsRatings before after = (after.ratings ≡ before.ratings) × (after.aggregate ≡ before.aggregate)

IsRated-kept : (before after : TripDb) → IsRated before → KeepsRatings before after → IsRated after
IsRated-kept before after h k = record {
  ratings = rw (k.0) h.ratings;
  aggregate = rw (k.0, k.1) h.aggregate;
}

Leaves-IsRated :
    (before : TripDb) (r : Result TripError TripDb)
    → IsRated before
    → Leaves (KeepsRatings before) r
    → Leaves IsRated r
Leaves-IsRated before (ok after) h k = IsRated-kept before after h k
Leaves-IsRated before (err x) h k = k

picked_ratings :
    (now : ℕ) (input : ProofInput) (db : TripDb)
    → Leaves (KeepsRatings db) (pickup_item_tx now input db)
unfolding pickup_item_tx
picked_ratings now input db = ground arith

started_ratings : (now : ℕ) (db : TripDb) → Leaves (KeepsRatings db) (start_delivery_tx now db)
unfolding start_delivery_tx
started_ratings now db = ground arith

delivered_ratings :
    (e : Env) (now : ℕ) (input : ProofInput) (db : TripDb)
    → Leaves (KeepsRatings db) (deliver_item_tx e.payout_delay e.default_currency now input db)
unfolding deliver_item_tx create_driver_earning
delivered_ratings e now input db = ground arith

arrived_ratings :
    (e : Env) (now : ℕ) (input : LocationInput) (db : TripDb)
    → Leaves
        (KeepsRatings db)
        (mark_arrived_tx e.degree e.distance e.radius e.near_radius now input db)
unfolding mark_arrived_tx
arrived_ratings e now input db = ground arith

confirmed_ratings :
    (now customer_id : ℕ) (db : TripDb) → Leaves (KeepsRatings db) (confirm_tx now customer_id db)
confirmed_ratings now customer_id db = ground arith

-- A location leaves the ratings, and so does the note that follows it.
located_IsRated :
    (e : Env) (now driver_id measured : ℕ) (input : LocationInput) (db : TripDb)
    → IsRated db
    → Leaves
        (λ after.
          IsRated after
          × IsRated (record after {
            trip = mark_near e.degree e.distance e.radius e.near_radius now input after.trip;
          }))
        (save_location driver_id measured input db)
unfolding save_location
located_IsRated e now driver_id measured input db h = ground arith

pub run_call-IsRated : (e : Env) (c : Call) (db : TripDb) → IsRated db → IsRated (run_call e c db).1
run_call-IsRated e c db h = run_call_keeps IsRated e c db (record {
  before = h;
  arrived = λ now input profile t row going. Leaves-IsRated db _ h (arrived_ratings e now input db);
  picked_up = λ now input. Leaves-IsRated db _ h (picked_ratings now input db);
  started = λ now. Leaves-IsRated db _ h (started_ratings now db);
  located = λ now driver_id measured input. located_IsRated e now driver_id measured input db h;
  delivered = λ now input. Leaves-IsRated db _ h (delivered_ratings e now input db);
  confirmed = λ now customer_id. Leaves-IsRated db _ h (confirmed_ratings now customer_id db);
  rated = λ customer_id rating comment _ low high fresh. record {
    ratings = ((low, high), fresh, h.ratings);
    aggregate = refl;
  };
})

run_calls-IsRated :
    (e : Env) (cs : List Call) (db : TripDb) → IsRated db → IsRated (run_calls e cs db)
unfolding run_calls
run_calls-IsRated e [] db h = h
run_calls-IsRated e (c ∷ cs) db h =
    run_calls-IsRated e cs (run_call e c db).1 (run_call-IsRated e c db h)

-- After any calls the ratings of the driver are between one star and five, at most one for a trip;
-- his profile counts them and has their rounded mean, which is between one star and five.
pub run_calls-rated :
    (e : Env) (cs : List Call) (db : TripDb)
    → IsRated db
    → let after = run_calls e cs db in
      AreRatings after.ratings
      × (after.aggregate ≡ recalculate_driver_rating_aggregate after.ratings)
      × (after.aggregate.ratings_count ≡ length after.ratings)
      × IsAverage after.aggregate.average_rating
unfolding recalculate_driver_rating_aggregate
run_calls-rated e cs db h =
    let after = run_calls e cs db in
    let kept = run_calls-IsRated e cs db h in
    (
      kept.ratings,
      kept.aggregate,
      rw (kept.aggregate) (recalculate-count after.ratings),
      rw (kept.aggregate) (recalculate-IsAverage after.ratings kept.ratings),
    )
