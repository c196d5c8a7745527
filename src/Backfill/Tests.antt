-- ===== src/Backfill/Tests.antt =====
-- Plans of small ranges, and the theorems at concrete inputs.
use cadena.Prelude.{◌≡◌, refl, List, [], ◌∷◌, arith}
use cadena.Backfill.{
  PlannedChunk, planned, refused, too_many_chunks, empty_range, not_whole_minutes,
  chunk_seconds_out_of_range, windows, plan_chunks,
}
use cadena.Backfill.Cover.{Covers, holding, plan_chunks-Covers, plan_chunks-holding}
use cadena.Backfill.Suggestion.{plan_chunks-accepts}

abbrev two_chunks : List PlannedChunk
two_chunks =
    record { seq = 0; window_start = 60_000; window_end = 180_000 }
    ∷ record { seq = 1; window_start = 180_000; window_end = 240_000 }
    ∷ []

-- The last window is shorter.
short_plan : plan_chunks 61_000 250_000 120 ≡ planned two_chunks
unfolding plan_chunks windows
short_plan = refl

refusals :
    (plan_chunks 0 240_000 59 ≡ refused chunk_seconds_out_of_range)
    × (plan_chunks 0 240_000 61 ≡ refused not_whole_minutes)
    × (plan_chunks 61_000 119_999 60 ≡ refused empty_range)
    × (plan_chunks 0 300_060_000 60 ≡ refused (too_many_chunks 5_001 120))
unfolding plan_chunks
refusals = (refl, refl, refl, refl)

plan_chunks-Covers_example : Covers 0 60_000 240_000 120_000 two_chunks
plan_chunks-Covers_example = plan_chunks-Covers 61_000 250_000 120 two_chunks short_plan

plan_chunks-holding_example : holding 180_000 two_chunks ≡ 1
plan_chunks-holding_example = plan_chunks-holding 61_000 250_000 120 180_000 two_chunks short_plan

plan_chunks-accepts_example : plan_chunks 61_000 250_000 120 ≡ planned two_chunks
unfolding windows plan_chunks
plan_chunks-accepts_example =
    plan_chunks-accepts 61_000 250_000 120 (omega arith) (omega arith) refl (omega arith)
      (omega arith) (omega arith)
