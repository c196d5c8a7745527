-- ===== src/Sla.antt =====
-- modules/sla/sla-calculator.service.ts: business time and the aging bucket. A `Date` is its count of
-- milliseconds since the epoch, in UTC as the source reads it. The percentage is an exact fraction
-- where the source has a double: the bucket compares `elapsed / threshold`, and the score is rounded
-- to hundredths of a percent.
pub mod BusinessTime
pub mod Elapsed
pub mod Buckets
mod Tests
use cadena.Prelude.{
  ℕ, zero, suc, ◌+◌, ◌-◌, ◌*◌, ◌/◌, ◌%◌, min, Bool, Option, none, some, ◌&&◌, ltb, leb,
  if◌then◌else◌, or_else, round_div,
}

pub data SlaCalendar : Type 0 where
  business_hours always : SlaCalendar

abbrev pub day_ms : ℕ
day_ms = 86_400_000

abbrev pub hour_ms : ℕ
hour_ms = 3_600_000

-- `getUTCDay` of the day numbered `d` (the epoch was a Thursday), and whether it is Monday to Friday.
abbrev pub utc_day : ℕ → ℕ
utc_day d = (d + 4) % 7

abbrev pub is_weekday : ℕ → Bool
is_weekday d = leb 1 (utc_day d) && leb (utc_day d) 5

abbrev pub utc_hours : ℕ → ℕ
utc_hours t = t % day_ms / hour_ms

-- `setUTCHours(h, 0, 0, 0)` on the day of `t`.
abbrev pub at_hour : ℕ → ℕ → ℕ
at_hour t h = t / day_ms * day_ms + h * hour_ms

-- The end of the chunk that one round of the loop counts, in working hours.
abbrev next_boundary : ℕ → ℕ → ℕ
next_boundary curr now = min now (min ((curr + 60_000) / 60_000 * 60_000) (at_hour curr 17))

-- Where the next working time begins, outside working hours.
abbrev next_work_time : ℕ → ℕ
next_work_time curr =
    if is_weekday (curr / day_ms) && ltb (utc_hours curr) 9
    then at_hour curr 9
    else at_hour (curr + day_ms) 9

-- One round of the `while` loop, from `curr` with `elapsed` milliseconds counted. `none` means that
-- the loop ends.
visit : (curr now elapsed : ℕ) → Option (ℕ × ℕ)
visit curr now elapsed =
    if ltb curr now
    then if is_weekday (curr / day_ms) && (leb 9 (utc_hours curr) && ltb (utc_hours curr) 17)
      then if ltb curr (next_boundary curr now)
        then some (next_boundary curr now, elapsed + (next_boundary curr now - curr))
        else some (curr + 60_000, elapsed)
      else if ltb now (next_work_time curr)
      then none
      else some (next_work_time curr, elapsed)
    else none

-- The loop on fuel; `none` means that the fuel ran out.
unfoldable pub walk : (fuel curr now elapsed : ℕ) → Option ℕ
unfolding visit
walk zero curr now elapsed = none
walk (suc fuel) curr now elapsed = elim (visit curr now elapsed) [
  | none ↦ some elapsed
  | some (curr', elapsed') ↦ walk fuel curr' now elapsed'
]

unfoldable pub calculate_elapsed_minutes : (entered_at now : ℕ) → SlaCalendar → ℕ
unfolding walk
calculate_elapsed_minutes entered_at now always =
    if leb now entered_at then 0 else (now - entered_at) / 60_000
calculate_elapsed_minutes entered_at now business_hours =
    if leb now entered_at
    then 0
    else or_else (walk (suc (now - entered_at)) entered_at now 0) 0 / 60_000

pub data AgingBucket : Type 0 where
  green amber red : AgingBucket

pub record AgingResult : Type 0 where
  pub elapsed_minutes : ℕ
  pub score_hundredths : ℕ
  pub bucket : AgingBucket

abbrev pub bucket_of : (elapsed threshold : ℕ) → AgingBucket
bucket_of elapsed threshold =
    if ltb 0 threshold && ltb threshold elapsed
    then red
    else if ltb 0 threshold && leb (75 * threshold) (100 * elapsed)
    then amber
    else green

-- `computeAgingFromElapsed`.
unfoldable pub compute_aging_from_elapsed : (elapsed_minutes threshold_minutes : ℕ) → AgingResult
unfolding round_div
compute_aging_from_elapsed elapsed_minutes threshold_minutes = record {
  elapsed_minutes = elapsed_minutes;
  score_hundredths =
      if ltb 0 threshold_minutes then round_div (elapsed_minutes * 10_000) threshold_minutes else 0;
  bucket = bucket_of elapsed_minutes threshold_minutes;
}

unfoldable pub compute_aging : (entered_at now threshold_minutes : ℕ) → SlaCalendar → AgingResult
compute_aging entered_at now threshold_minutes calendar =
    compute_aging_from_elapsed (calculate_elapsed_minutes entered_at now calendar) threshold_minutes
