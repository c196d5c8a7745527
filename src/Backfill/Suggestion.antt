-- ===== src/Backfill/Suggestion.antt =====
-- What the planner answers where it refuses: when each refusal comes, and that its advice works.
use cadena.Prelude.{
  ℕ, ◌-◌, ◌*◌, ◌%◌, ◌≤◌, ◌<◌, ◌≡◌, refl, List, arith, ceil_div, le-ceil_div-mul, ceil_div-le,
  length, ap, zero,
}
use cadena.Backfill.{
  PlannedChunk, planned, refused, too_many_chunks, floor_to_minute, windows, plan_chunks,
  suggested_seconds, max_chunks_per_job, max_chunk_seconds, max_backfill_span_ms, suc,
}

-- The planner accepts exactly the inputs that pass its five tests, and then returns the windows.
pub plan_chunks-accepts :
    (from to chunk_seconds : ℕ)
    → let start = floor_to_minute from in
      let end = floor_to_minute to in
      let count = ceil_div (end - start) (chunk_seconds * 1000) in
      60 ≤ chunk_seconds
      → chunk_seconds ≤ max_chunk_seconds
      → chunk_seconds % 60 ≡ 0
      → start < end
      → end - start ≤ max_backfill_span_ms
      → count ≤ max_chunks_per_job
      → plan_chunks from to chunk_seconds
        ≡ planned (windows count 0 start (chunk_seconds * 1000) end)
unfolding plan_chunks
plan_chunks-accepts from to chunk_seconds a b c d e f = ground arith

refused_for_count :
    (from to chunk_seconds count suggested : ℕ)
    → plan_chunks from to chunk_seconds ≡ refused (too_many_chunks count suggested)
    → let span = floor_to_minute to - floor_to_minute from in
      (0 < span) × (span ≤ max_backfill_span_ms) × (suggested ≡ suggested_seconds span)
unfolding plan_chunks
refused_for_count from to chunk_seconds count suggested h = ground arith

length-windows : (left seq start step end : ℕ) → length (windows left seq start step end) ≡ left
unfolding windows
length-windows zero seq start step end = refl
length-windows (suc left) seq start step end = ap suc (length-windows left (suc seq) start step end)

-- When a range is refused for making too many chunks, the same range with the suggested number of
-- seconds is planned, in at most 5000 chunks.
pub suggestion_plans :
    (from to chunk_seconds count suggested : ℕ)
    → plan_chunks from to chunk_seconds ≡ refused (too_many_chunks count suggested)
    → (cs : List PlannedChunk) × (plan_chunks from to suggested ≡ planned cs)
      × (length cs ≤ max_chunks_per_job)
suggestion_plans from to chunk_seconds count suggested h =
    let (some_span, short, same) = refused_for_count from to chunk_seconds count suggested h in
    let span = floor_to_minute to - floor_to_minute from in
    let enough = le-ceil_div-mul span 300_000_000 (omega arith) in
    let few = ceil_div-le span 300_000_000 1_055 (omega arith) (omega arith) in
    let step = suggested_seconds span * 1000 in
    let fits = ceil_div-le span step 5_000 (omega arith) (omega arith) in
    rw same (
      _,
      plan_chunks-accepts from to (suggested_seconds span) (omega arith) (omega arith) (omega arith)
          (omega arith) short fits,
      omega (
        arith,
        length-windows (ceil_div span step) 0 (floor_to_minute from) step (floor_to_minute to),
      ),
    )
