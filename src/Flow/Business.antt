-- ===== src/Flow/Business.antt =====
-- The day-by-day sum of `businessMs` against the SLA calculator's minute-by-minute walk.
use cadena.Sla.{SlaCalendar, business_hours, always, day_ms, calculate_elapsed_minutes}
use cadena.Sla.BusinessTime.{worked, worked_on, work_days-suc}
use cadena.Sla.Elapsed.{worked_mono, calculate_elapsed_minutes-worked}
use native.Mathlib.Decide.{dec_lt, dec_le}
use cadena.Flow.{add_day, business_days, business_ms}
use cadena.Prelude.{
  ℕ, zero, suc, ◌+◌, ◌-◌, ◌*◌, ◌/◌, ◌≤◌, ◌<◌, ◌≡◌, some, min, max, arith, lt→ltb, not_lt→ltb,
}

-- A round of the loop counts the working time that its day has in `[from, to)`.
add_day_lem :
    (d from to total : ℕ)
    → from ≤ to
    → from < d * day_ms + day_ms
    → d * day_ms < to
    → add_day (d * day_ms) from to total + worked (min (max from (d * day_ms)) to)
      ≡ total + worked (min (max from (suc d * day_ms)) to)
unfolding add_day
add_day_lem d from to total h k m =
    let same : d * day_ms / day_ms ≡ d = omega arith in
    rw same (
      ground (
        arith,
        worked_on (min (max from (d * day_ms)) to) d,
        worked_on (min (max from (suc d * day_ms)) to) d,
        worked_on (min (max from (suc d * day_ms)) to) (suc d),
        work_days-suc d,
      ))

business_days_lem :
    (fuel d from to total : ℕ)
    → from ≤ to
    → from < d * day_ms + day_ms
    → d * day_ms < to + day_ms
    → to + day_ms ≤ d * day_ms + fuel * day_ms
    → (n : ℕ) × (business_days fuel (d * day_ms) from to total ≡ some n)
      × (n + worked (min (max from (d * day_ms)) to) ≡ total + worked to)
unfolding business_days
business_days_lem zero d from to total h k l m = absurd (omega arith)
business_days_lem (suc fuel) d from to total h k l m = elim (dec_lt (d * day_ms) to) [
  | yes more ↦
      let next : d * day_ms + day_ms ≡ suc d * day_ms = omega arith in
      let (n, returns, sum) =
        business_days_lem fuel (suc d) from to (add_day (d * day_ms) from to total) h (omega arith)
          (omega arith) (omega arith) in
      (n, rw (lt→ltb _ _ more, next) returns, omega (arith, add_day_lem d from to total h k more))
  | no over ↦
      let end : min (max from (d * day_ms)) to ≡ to = omega arith in
      (total, rw (not_lt→ltb _ _ over), rw end)
]

-- `businessMs` ends within the fuel that its call gives it, one round for each day, and measures the
-- working time of its interval.
pub business_ms-worked :
    (start end : ℕ) → business_ms start end business_hours ≡ worked end - worked start
unfolding business_ms
business_ms-worked start end = elim (dec_le end start) [
  | yes empty ↦ ground (arith, worked_mono end start empty)
  | no some_time ↦
      let d = start / day_ms in
      let (n, returns, sum) =
        business_days_lem (suc (suc (end / day_ms - d))) d start end 0 (omega arith) (omega arith)
          (omega arith) (omega arith) in
      let first : min (max start (d * day_ms)) end ≡ start = omega arith in
      let total = rw first at sum in ground (arith, returns, total)
]

business_ms-always : (start end : ℕ) → business_ms start end always ≡ end - start
unfolding business_ms
business_ms-always start end = ground arith

elapsed-always :
    (start end : ℕ) → calculate_elapsed_minutes start end always ≡ (end - start) / 60_000
unfolding calculate_elapsed_minutes
elapsed-always start end = ground arith

-- The two calendars agree, as the source's comment promises: for any two instants and either
-- calendar the SLA calculator's minute-by-minute walk gives the whole minutes of the flow profile's
-- day-by-day sum.
pub calculate_elapsed_minutes-business_ms :
    (start end : ℕ) (calendar : SlaCalendar)
    → calculate_elapsed_minutes start end calendar ≡ business_ms start end calendar / 60_000
calculate_elapsed_minutes-business_ms start end always = rw (elapsed-always, business_ms-always)
calculate_elapsed_minutes-business_ms start end business_hours =
    rw (calculate_elapsed_minutes-worked, business_ms-worked)

-- Time spent is additive: an interval cut in two measures what its parts do, in either calendar.
pub business_ms_additive :
    (a b c : ℕ) (calendar : SlaCalendar)
    → a ≤ b
    → b ≤ c
    → business_ms a c calendar ≡ business_ms a b calendar + business_ms b c calendar
business_ms_additive a b c always h k =
    omega (arith, business_ms-always a c, business_ms-always a b, business_ms-always b c)
business_ms_additive a b c business_hours h k = omega (
  arith,
  business_ms-worked a c,
  business_ms-worked a b,
  business_ms-worked b c,
  worked_mono a b h,
  worked_mono b c k,
)
