-- ===== src/Reservations/Sweep/Once.antt =====
-- The paging of `sweep` (src/customer-requests/furniture-reservations.service.ts) ends.
use transpo24_backend_nest_j.Base.{
  ℕ, zero, suc, ◌+◌, ◌*◌, ◌≤◌, ◌<◌, ◌≡◌, refl, ap, ◌∙◌, ltb, ltb→lt, ◌==◌, Bool, false, Option,
  none, some, List, [], ◌∷◌, length, arith, ◌⊎◌, inl, inr, Bool-cases,
}
use transpo24_backend_nest_j.Reservations.State.{Notice, ReservationDb, PaymentService}
use transpo24_backend_nest_j.Reservations.Handlers.{sweep_one}
use transpo24_backend_nest_j.Reservations.Sweep.{page_size, Table, last_id, visit, visit_all, sweep}

-- Ids that ascend from `low` and stay below the bound.
abbrev pub Ascends : ℕ → ℕ → List ℕ → Type 0
Ascends bound low [] = Unit {0}
Ascends bound low (id ∷ ids) = ((low ≤ id) × (id < bound)) × Ascends bound (id + 1) ids

-- The first id after a cursor.
abbrev pub after : Option ℕ → ℕ
after none = 0
after (some id) = id + 1

-- A page holds ids after its cursor, in ascending order; the ids of all requests are below a bound.
abbrev pub IsPaging : ℕ → (Table → Option ℕ → List ℕ) → Type 0
IsPaging bound find_page =
    (table : Table) (cursor : Option ℕ) → Ascends bound (after cursor) (find_page table cursor)

after-last_id :
    (bound : ℕ) (cursor : Option ℕ) (ids : List ℕ)
    → after cursor ≤ bound
    → Ascends bound (after cursor) ids
    → (after cursor + length ids ≤ after (last_id cursor ids))
      × (after (last_id cursor ids) ≤ bound)
unfolding last_id
after-last_id bound cursor [] small h = (omega arith, small)
after-last_id bound cursor (id ∷ ids) small h =
    let ih = after-last_id bound (some id) ids (omega (arith, h.0)) h.1 in
    (omega (arith, h.0, ih.0), ih.1)

module _ (payments : PaymentService) (delivers : Notice → Bool) (now bound : ℕ) where
  abbrev pub swept_once : ReservationDb → ReservationDb
  swept_once db = (sweep_one payments delivers now db).1

  -- Requests below `low` are left, the others swept at most once.
  pub record IsSweptOnce (low : ℕ) (before after : Table) : Type 0 where
    pub below : (k : ℕ) → k < low → after k ≡ before k
    pub once : (k : ℕ) → (after k ≡ before k) ⊎ (after k ≡ swept_once (before k))

  visited_other :
      (id k : ℕ) (table : Table)
      → (k == id) ≡ false
      → visit payments delivers now id table k ≡ table k
  visited_other id k table e = rw e refl

  visit_all-below :
      (low : ℕ) (ids : List ℕ) (table : Table) (k : ℕ)
      → Ascends bound low ids
      → k < low
      → visit_all payments delivers now ids table k ≡ table k
  unfolding visit_all
  visit_all-below low [] table k h lt = refl
  visit_all-below low (id ∷ ids) table k h lt =
      visit_all-below (id + 1) ids (visit payments delivers now id table) k h.1 (omega (arith, h.0))
      ∙ visited_other id k table (ground arith)

  visit_all-above :
      (cursor : Option ℕ) (ids : List ℕ) (table : Table) (k : ℕ)
      → Ascends bound (after cursor) ids
      → after (last_id cursor ids) ≤ k
      → after cursor ≤ bound
      → visit_all payments delivers now ids table k ≡ table k
  unfolding visit_all last_id
  visit_all-above cursor [] table k h le small = refl
  visit_all-above cursor (id ∷ ids) table k h le small =
      let grown = after-last_id bound (some id) ids (omega (arith, h.0)) h.1 in
      visit_all-above (some id) ids (visit payments delivers now id table) k h.1 le
        (omega (arith, h.0))
      ∙ visited_other id k table (ground (arith, grown))

  visit_all-once :
      (low : ℕ) (ids : List ℕ) (table : Table) (k : ℕ)
      → Ascends bound low ids
      → (visit_all payments delivers now ids table k ≡ table k)
        ⊎ (visit_all payments delivers now ids table k ≡ swept_once (table k))
  unfolding visit_all
  visit_all-once low [] table k h = inl refl
  visit_all-once low (id ∷ ids) table k h = elim (Bool-cases (k == id)) [
    | inl same ↦ inr (
        visit_all-below (id + 1) ids (visit payments delivers now id table) k h.1 (ground arith)
        ∙ rw same refl)
    | inr other ↦
        let ih = visit_all-once (id + 1) ids (visit payments delivers now id table) k h.1 in
        let left = visited_other id k table other in
        elim ih [ inl e ↦ inl (e ∙ left) | inr e ↦ inr (e ∙ ap swept_once left) ]
  ]

  -- A page and the rest of the sweep after it.
  page-then-rest :
      (cursor : Option ℕ) (ids : List ℕ) (table final : Table)
      → after cursor ≤ bound
      → Ascends bound (after cursor) ids
      → IsSweptOnce (after (last_id cursor ids)) (visit_all payments delivers now ids table) final
      → IsSweptOnce (after cursor) table final
  page-then-rest cursor ids table final small h rest =
      let grown = after-last_id bound cursor ids small h in
      record {
        below = λ k lt.
            rest.below k (omega (arith, lt, grown))
            ∙ visit_all-below (after cursor) ids table k h lt;
        once = λ k. elim (Bool-cases (ltb k (after (last_id cursor ids)))) [
          | inl before ↦
              let left = rest.below k (ltb→lt k (after (last_id cursor ids)) before) in
              elim (visit_all-once (after cursor) ids table k h) [
                | inl e ↦ inl (left ∙ e)
                | inr e ↦ inr (left ∙ e)
              ]
          | inr later ↦
              let left = visit_all-above cursor ids table k h (ground arith) small in
              elim (rest.once k) [ inl e ↦ inl (e ∙ left) | inr e ↦ inr (e ∙ ap swept_once left) ]
        ];
      }

  page-IsSweptOnce :
      (cursor : Option ℕ) (ids : List ℕ) (table : Table)
      → after cursor ≤ bound
      → Ascends bound (after cursor) ids
      → IsSweptOnce (after cursor) table (visit_all payments delivers now ids table)
  page-IsSweptOnce cursor ids table small h =
      page-then-rest cursor ids table (visit_all payments delivers now ids table) small h
        (record { below = λ k lt. refl; once = λ k. inl refl })

  sweep_from :
      (find_page : Table → Option ℕ → List ℕ) (fuel : ℕ) (cursor : Option ℕ) (table : Table)
      → IsPaging bound find_page
      → after cursor ≤ bound
      → bound < after cursor + page_size * fuel
      → (final : Table) × (sweep payments delivers now find_page fuel cursor table ≡ some final)
        × IsSweptOnce (after cursor) table final
  unfolding sweep
  sweep_from find_page zero cursor table paging small enough = absurd (omega (arith, small, enough))
  sweep_from find_page (suc fuel) cursor table paging small enough =
      let ids = find_page table cursor in
      let h = paging table cursor in
      let grown = after-last_id bound cursor ids small h in
      elim (Bool-cases (ltb (length ids) page_size)) [
        | inl short ↦ (
          visit_all payments delivers now ids table,
          rw short refl,
          page-IsSweptOnce cursor ids table small h,
        )
        | inr full ↦
            let (final, e, once) =
              sweep_from find_page fuel (last_id cursor ids)
                (visit_all payments delivers now ids table) paging grown.1
                (ground (arith, grown)) in
            (final, rw full e, page-then-rest cursor ids table final small h once)
      ]

  -- The sweep ends: where the ids lie below a bound, a round for every 200 of them and one more are
  -- enough, however the pages change while it runs; and it sweeps each request at most once.
  pub sweep-ends :
      (find_page : Table → Option ℕ → List ℕ) (fuel : ℕ) (table : Table)
      → IsPaging bound find_page
      → bound < page_size * fuel
      → (final : Table) × (sweep payments delivers now find_page fuel none table ≡ some final)
        × ((k : ℕ) → (final k ≡ table k) ⊎ (final k ≡ swept_once (table k)))
  sweep-ends find_page fuel table paging enough =
      let (final, e, once) =
        sweep_from find_page fuel none table paging (omega arith) (omega (arith, enough)) in
      (final, e, once.once)
