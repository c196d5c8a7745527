-- ===== src/Backfill.antt =====
-- modules/connectors/backfill/backfill-planner.ts: the division of a backfill's range into windows.
-- A `Date` is its count of milliseconds since the epoch; an invalid date has no counterpart.
pub mod Csv
pub mod Cover
pub mod Suggestion
mod Tests
use cadena.Prelude.{
  ℕ, zero, suc, ◌+◌, ◌-◌, ◌*◌, ◌/◌, ◌%◌, min, Bool, true, false, List, [], ◌∷◌, ◌||◌, ltb, leb,
  ◌==◌, not, if◌then◌else◌, ceil_div,
}

abbrev pub minute_ms : ℕ
minute_ms = 60_000

abbrev pub min_chunk_seconds : ℕ
min_chunk_seconds = 60

abbrev pub max_chunk_seconds : ℕ
max_chunk_seconds = 31 * 86_400

abbrev pub max_chunks_per_job : ℕ
max_chunks_per_job = 5_000

abbrev pub max_backfill_span_ms : ℕ
max_backfill_span_ms = 10 * 366 * 86_400_000

pub record PlannedChunk : Type 0 where
  pub seq : ℕ
  pub window_start : ℕ
  pub window_end : ℕ

-- The messages of `BackfillPlanError`, with the numbers that they quote.
pub data PlanError : Type 0 where
  chunk_seconds_out_of_range not_whole_minutes empty_range span_too_long : PlanError
  too_many_chunks : (count suggested : ℕ) → PlanError

pub data Plan : Type 0 where
  planned : List PlannedChunk → Plan
  refused : PlanError → Plan

abbrev pub floor_to_minute : ℕ → ℕ
floor_to_minute instant = instant / minute_ms * minute_ms

-- The `for` loop, from the chunk numbered `seq`, with `left` chunks to go.
unfoldable pub windows : (left seq start step end : ℕ) → List PlannedChunk
windows zero seq start step end = []
windows (suc left) seq start step end =
    record {
      seq = seq;
      window_start = start + seq * step;
      window_end = min (start + seq * step + step) end;
    }
    ∷ windows left (suc seq) start step end

abbrev pub suggested_seconds : ℕ → ℕ
suggested_seconds span = ceil_div span (max_chunks_per_job * 1000 * 60) * 60

unfoldable pub plan_chunks : (from to chunk_seconds : ℕ) → Plan
unfolding ceil_div
plan_chunks from to chunk_seconds =
    let start = floor_to_minute from in
    let end = floor_to_minute to in
    let step = chunk_seconds * 1000 in
    let count = ceil_div (end - start) step in
    if ltb chunk_seconds min_chunk_seconds || ltb max_chunk_seconds chunk_seconds
    then refused chunk_seconds_out_of_range
    else if not (chunk_seconds % 60 == 0)
    then refused not_whole_minutes
    else if leb end start
    then refused empty_range
    else if ltb max_backfill_span_ms (end - start)
    then refused span_too_long
    else if ltb max_chunks_per_job count
    then refused (too_many_chunks count (suggested_seconds (end - start)))
    else planned (windows count 0 start step end)
