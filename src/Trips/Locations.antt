-- ===== src/Trips/Locations.antt =====
-- The driver's locations of a trip (`updateDriverLocation` of src/trips/trips.service.ts).
use transpo24_backend_nest_j.Base.{
  ℕ, ◌≤◌, ◌<◌, ◌≡◌, refl, true, false, ◌==◌, ltb, ◌⊎◌, inl, inr, Option, none, some, List, [], ◌∷◌,
  get_or, ok, arith, if◌then◌else◌, Bool-cases,
}
use transpo24_backend_nest_j.Trips.State.{DriverLocation, TripDb}
use transpo24_backend_nest_j.Trips.Driving.{LocationInput}
use transpo24_backend_nest_j.Trips.Positions.{
  later, saved_location, latest_location, is_outdated, save_location,
}

-- A row's measurement, where it has one, is its date.
abbrev pub AreDated : List DriverLocation → Type 0
AreDated [] = Unit {0}
AreDated (l ∷ ls) = (get_or l.measured_at l.recorded_at ≡ l.recorded_at) × AreDated ls

-- All locations of the driver are older.
abbrev pub AllBefore : ℕ → ℕ → List DriverLocation → Type 0
AllBefore driver_id time [] = Unit {0}
AllBefore driver_id time (l ∷ ls) =
    (l.driver_id ≡ driver_id → l.recorded_at < time) × AllBefore driver_id time ls

AllBefore-mono :
    (driver_id m n : ℕ) (ls : List DriverLocation)
    → m ≤ n
    → AllBefore driver_id m ls
    → AllBefore driver_id n ls
AllBefore-mono driver_id m n [] h b = tt
AllBefore-mono driver_id m n (l ∷ ls) h b =
    (λ e. omega (arith, b.0 e), AllBefore-mono driver_id m n ls h b.1)

-- The latest one is dated, and bounds the others.
abbrev IsLatest : ℕ → Option DriverLocation → List DriverLocation → Type 0
IsLatest driver_id none ls = (time : ℕ) → AllBefore driver_id time ls
IsLatest driver_id (some k) ls =
    (get_or k.measured_at k.recorded_at ≡ k.recorded_at)
    × ((time : ℕ) → k.recorded_at < time → AllBefore driver_id time ls)

IsLatest-cons :
    (driver_id : ℕ) (l : DriverLocation) (ls : List DriverLocation) (o : Option DriverLocation)
    → get_or l.measured_at l.recorded_at ≡ l.recorded_at
    → IsLatest driver_id o ls
    → IsLatest driver_id (if l.driver_id == driver_id then some (later l o) else o) (l ∷ ls)
IsLatest-cons driver_id l ls none d h = elim (Bool-cases (l.driver_id == driver_id)) [
  | inl own ↦ rw own (d, λ time t. (λ _. t, h time))
  | inr other ↦ rw other (λ time. (λ e. ground arith, h time))
]
IsLatest-cons driver_id l ls (some k) d h = elim (Bool-cases (l.driver_id == driver_id)) [
  | inr other ↦ rw other (h.0, λ time t. (λ e. ground arith, h.1 time t))
  | inl own ↦ rw own (elim (Bool-cases (ltb l.recorded_at k.recorded_at)) [
    | inl older ↦ rw older (h.0, λ time t. (λ _. ground arith, h.1 time t))
    | inr newer ↦ rw newer (d, λ time t. (λ _. t, h.1 time (ground arith)))
  ])
]

latest_location-IsLatest :
    (driver_id : ℕ) (ls : List DriverLocation)
    → AreDated ls
    → IsLatest driver_id (latest_location driver_id ls) ls
unfolding latest_location
latest_location-IsLatest driver_id [] d = λ time. tt
latest_location-IsLatest driver_id (l ∷ ls) d =
    IsLatest-cons driver_id l ls (latest_location driver_id ls) d.0
      (latest_location-IsLatest driver_id ls d.1)

fresh-AllBefore :
    (driver_id measured : ℕ) (o : Option DriverLocation) (ls : List DriverLocation)
    → IsLatest driver_id o ls
    → is_outdated measured o ≡ false
    → AllBefore driver_id measured ls
fresh-AllBefore driver_id measured none ls h f = h measured
fresh-AllBefore driver_id measured (some k) ls h f = h.1 measured (ground (arith, h.0))

saved_row :
    (driver_id measured : ℕ) (input : LocationInput) (db after : TripDb)
    → save_location driver_id measured input db ≡ ok after
    → (is_outdated measured (latest_location driver_id db.locations) ≡ true → after ≡ db)
      × (is_outdated measured (latest_location driver_id db.locations) ≡ false
          → after.locations ≡ saved_location driver_id measured input ∷ db.locations)
unfolding save_location
saved_row driver_id measured input db after e = (λ old. ground arith, λ new. ground arith)

-- A location that is saved is newer than all earlier locations of the driver on the trip, whatever
-- the order in which they arrive; an older one changes nothing. Either way the rows stay dated.
pub save_location-newest :
    (driver_id measured : ℕ) (input : LocationInput) (db after : TripDb)
    → AreDated db.locations
    → save_location driver_id measured input db ≡ ok after
    → AreDated after.locations × ((after ≡ db) ⊎ AllBefore driver_id measured db.locations)
save_location-newest driver_id measured input db after d e =
    let row = saved_row driver_id measured input db after e in
    elim (Bool-cases (is_outdated measured (latest_location driver_id db.locations))) [
      | inl old ↦ (rw (row.0 old) d, inl (row.0 old))
      | inr new ↦ (
        rw (row.1 new) (refl, d),
        inr (
            fresh-AllBefore driver_id measured (latest_location driver_id db.locations) db.locations
              (latest_location-IsLatest driver_id db.locations d) new),
      )
    ]
