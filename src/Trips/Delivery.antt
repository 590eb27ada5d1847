-- ===== src/Trips/Delivery.antt =====
-- The end of a trip: `deliverItem` of src/trips/trips.service.ts, with the driver's earning. The payout delay and the default currency are
-- parameters: they are read from the environment.
use transpo24_backend_nest_j.Base.{
  ℕ, ◌+◌, ◌-◌, true, not, ◌&&◌, ◌||◌, Option, none, some, List, [], ◌∷◌, is_some, get_or,
  if◌then◌else◌, Result, ok, err, ◌>>=◌, ◌>>◌, throw_if,
}
use transpo24_backend_nest_j.Base.Int.{pos, sub_ℕ, ◌+ℤ◌}
use transpo24_backend_nest_j.Domain.{RequestStatus, is_delivered}
use transpo24_backend_nest_j.Domain
use transpo24_backend_nest_j.Policy.Pricing.{percent_of, driver_platform_commission_rate}
use transpo24_backend_nest_j.Payments.State.{EarningStatus, DriverPayoutState}
use transpo24_backend_nest_j.Matching.Eligibility.{Coordinate}
use transpo24_backend_nest_j.Trips.State.{
  TripError, trip_not_found, missing_driver, not_completed, no_final_amount, location_missing,
  wrong_status, incomplete, Text, Profile, AcceptedOffer, AdditionalCharge, Trip, TripSettlement,
  PhotoType, TripDb, Outcome, commit, guarded,
}
use transpo24_backend_nest_j.Trips.Guards.{
  is_going_to_dropoff, or_throw, validate_trip_id, validate_driver_can_pickup_item,
  validate_trip_assigned_to_driver, ensure_proof_photo_input, validate_coordinates,
}
use transpo24_backend_nest_j.Trips.Photos.{create_proof_photo_rows, proof_image_url}
use transpo24_backend_nest_j.Trips.Driving.{ProofInput, or_else}

pub record EarningAmounts : Type 0 where
  pub gross_amount : ℕ
  pub platform_fee_amount : ℕ
  pub net_amount : ℕ

-- `calculateDriverEarningAmounts`, for amounts in cents; the fee is a part of the service's price.
unfoldable pub calculate_driver_earning_amounts : ℕ → ℕ → EarningAmounts
calculate_driver_earning_amounts service reimbursed =
    let fee = percent_of service driver_platform_commission_rate in
    record {
      gross_amount = service + reimbursed;
      platform_fee_amount = fee;
      net_amount = service + reimbursed - fee;
    }

-- The sum of the captured additional charges.
unfoldable pub captured_charges : List AdditionalCharge → ℕ
captured_charges [] = 0
captured_charges (c ∷ cs) = (if c.is_captured then c.amount else 0) + captured_charges cs

abbrev offer_price : Option AcceptedOffer → Option ℕ
offer_price none = none
offer_price (some o) = some o.price

abbrev offer_currency : Option AcceptedOffer → Option ℕ
offer_currency none = none
offer_currency (some o) = some o.currency

abbrev pub payout_plan : EarningAmounts → ℕ → ℕ → ℕ → TripSettlement → TripSettlement
payout_plan amounts reimbursed customer_fee available_at t = record t {
  retained_amount = sub_ℕ amounts.gross_amount reimbursed +ℤ pos customer_fee;
  driver_share_amount = sub_ℕ amounts.net_amount reimbursed;
  platform_share_amount = amounts.platform_fee_amount + customer_fee;
  driver_payout_state = DriverPayoutState.earning_created;
  payout_failure_reason = none;
  payout_attempt_count = 0;
  last_payout_attempt_at = none;
  next_payout_retry_at = some available_at;
}

abbrev planned : (TripSettlement → TripSettlement) → Option TripSettlement → Option TripSettlement
planned f none = none
planned f (some t) = some (f t)

module _ (payout_delay default_currency : ℕ) where
  abbrev pub earning_rows : Trip → ℕ → ℕ → ℕ → TripDb → TripDb
  earning_rows trip driver_id delivered_at gross db =
      let reimbursed = captured_charges db.charges in
      let amounts = calculate_driver_earning_amounts gross reimbursed in
      let available_at = delivered_at + payout_delay in
      record db {
        earning = some (record {
          driver_id = driver_id;
          gross_amount = amounts.gross_amount;
          platform_fee_amount = amounts.platform_fee_amount;
          net_amount = amounts.net_amount;
          currency =
              get_or (or_else (offer_currency trip.accepted_offer) trip.currency) default_currency;
          available_at = some available_at;
          status = EarningStatus.pending;
        });
        settlement =
            planned
              (payout_plan amounts reimbursed (get_or trip.customer_platform_fee_amount 0)
                available_at)
              db.settlement;
      }

  -- `createDriverEarningForDeliveredTrip`; a trip has one earning, which stays.
  unfoldable pub create_driver_earning : TripDb → Result TripError TripDb
  create_driver_earning db = if is_some db.earning then ok db else (do
    trip ← or_throw db.trip trip_not_found
    driver_id ← or_throw trip.assigned_driver_id missing_driver
    delivered_at ← or_throw trip.delivered_at not_completed
    throw_if (not (is_delivered trip.status)) not_completed
    gross ← or_throw (or_else (offer_price trip.accepted_offer) trip.final_price) no_final_amount
    ok (earning_rows trip driver_id delivered_at gross db))

  abbrev pub delivered_trip : ℕ → ProofInput → Option Text → Trip → Trip
  delivered_trip now input image trip = record trip {
    status = Domain.delivered;
    delivered_at = some now;
    completed_at = some now;
    delivery_confirmed_by_driver = true;
    delivery_notes = input.notes;
    delivery_proof_image_url = image;
    rating_available_at = some now;
  }

  -- The transaction of `deliverItem`.
  unfoldable pub deliver_item_tx : ℕ → ProofInput → TripDb → Result TripError TripDb
  unfolding create_driver_earning
  deliver_item_tx now input db = do
    current ← or_throw db.trip trip_not_found
    if not (is_going_to_dropoff current.status)
        then (if is_delivered current.status && is_some current.delivered_at
            then ok db
            else err wrong_status)
        else (if is_some current.delivered_at then ok db else (do
          throw_if
              (not (is_some current.dropoff_latitude) || not (is_some current.dropoff_longitude))
              location_missing
          photos ← create_proof_photo_rows PhotoType.delivery input.proof_photos db.photos
          create_driver_earning (record db {
            photos = photos;
            trip = some (
                delivered_trip now input
                  (proof_image_url PhotoType.delivery input.proof_photos photos
                    input.proof_image_url)
                  current);
          })))

  -- What `mapDeliverItemResponse` and `mapItemDeliveredPayload` check of the trip.
  abbrev pub answer_delivery : TripDb → Result TripError (Unit {0})
  answer_delivery db = do
    trip ← or_throw db.trip trip_not_found
    throw_if (not (is_some trip.assigned_driver_id) || not (is_some trip.delivered_at)) incomplete
    throw_if (not (is_delivered trip.status)) wrong_status

  abbrev pub delivery_guards : ProofInput → Option Profile → Option Trip → Result TripError Trip
  delivery_guards input profile seen = do
    validate_trip_id input.trip_id_length
    driver ← validate_driver_can_pickup_item profile seen
    trip ← validate_trip_assigned_to_driver seen driver.id true
    ensure_proof_photo_input input.proof_photos input.proof_image_url
    ok trip

  -- A trip that was seen as delivered answers from the rows, without a transaction.
  unfoldable pub deliver_seen :
      ℕ → (Coordinate → Coordinate → ℕ) → ℕ → ℕ → ProofInput → TripDb → Trip → Outcome
  unfolding deliver_item_tx
  deliver_seen degree distance radius now input db trip =
      if is_going_to_dropoff trip.status
      then guarded db
          (validate_coordinates degree distance radius input.latitude input.longitude
            trip.dropoff_latitude trip.dropoff_longitude)
          (λ _. commit db (deliver_item_tx now input db) answer_delivery)
      else (if is_delivered trip.status
          then commit db (ok db) answer_delivery
          else (err wrong_status, db))

  unfoldable pub deliver_item :
      ℕ
      → (Coordinate → Coordinate → ℕ)
      → ℕ
      → ℕ
      → ProofInput
      → Option Profile
      → Option Trip
      → TripDb
      → Outcome
  unfolding deliver_seen
  deliver_item degree distance radius now input profile seen db =
      guarded db (delivery_guards input profile seen)
        (deliver_seen degree distance radius now input db)
