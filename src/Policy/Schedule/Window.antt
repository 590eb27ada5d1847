-- ===== src/Policy/Schedule/Window.antt =====
-- What `assertScheduleWindow` of src/customer-requests/schedule-window.ts accepts.
use transpo24_backend_nest_j.Base.{
  Option-cases, inl, inr, ℕ, ◌+◌, ◌≤◌, ◌<◌, ◌≡◌, ◌↔◌, false, Option, some, ok, arith,
}
use transpo24_backend_nest_j.Policy.Schedule.{at, ScheduleInput, assert_schedule_window}

-- A scheduled transport with both dates, other than furniture, is accepted exactly if the time zone
-- is known and, in its days, the pickup is not in the past and less than six days ahead, and the
-- delivery is on a later day than the pickup and less than six days ahead; if the days of a time zone
-- go on with time.
pub scheduled_accepted :
    (formatter : ℕ → Option (ℕ → ℕ)) (i : ScheduleInput) (p d : ℕ)
    → ((day : ℕ → ℕ) (a b : ℕ) → formatter i.time_zone ≡ some day → a ≤ b → day a ≤ day b)
    → i.immediate ≡ false
    → i.furniture ≡ false
    → i.pickup ≡ some (at p)
    → i.delivery ≡ some (at d)
    → (assert_schedule_window formatter i ≡ ok tt) ↔ (
        (day : ℕ → ℕ) × (formatter i.time_zone ≡ some day)
        × (i.now ≤ p)
        × (day p < day i.now + 518400000)
        × (day d < day i.now + 518400000)
        × (day p < day d))
unfolding assert_schedule_window
scheduled_accepted formatter i p d on im fu ep ed = elim (Option-cases (formatter i.time_zone)) [
  | inl e ↦ (λ h. absurd (ground arith), λ h. absurd (ground arith))
  | inr (day, e) ↦ (
    λ h. (day, e, ground arith, ground arith, ground arith, ground arith),
    λ h. ground (arith, on h.0 i.now p),
  )
]
