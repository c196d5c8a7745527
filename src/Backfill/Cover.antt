-- ===== src/Backfill/Cover.antt =====
-- The windows of a plan partition its range.
use cadena.Backfill.{PlannedChunk, planned, floor_to_minute, windows, plan_chunks}
use cadena.Prelude.{
  ℕ, zero, suc, ◌+◌, ◌*◌, ◌≤◌, ◌<◌, ◌≡◌, refl, ◌-◌, min, List, [], ◌∷◌, arith, ltb, leb, ◌&&◌,
  if◌then◌else◌, ceil_div, le-ceil_div-mul, ceil_div-mul-lt,
}

-- The chunks are numbered from `seq`, follow one another from `lo` to `hi` without a gap or an
-- overlap, and each is not empty and at most `step` long.
abbrev pub Covers : (seq lo hi step : ℕ) → List PlannedChunk → Type 0
Covers seq lo hi step [] = lo ≡ hi
Covers seq lo hi step (c ∷ cs) =
    (c.seq ≡ seq)
    × (c.window_start ≡ lo)
    × (lo < c.window_end)
    × (c.window_end ≤ lo + step)
    × Covers (suc seq) c.window_end hi step cs

-- How many chunks hold an instant.
abbrev pub holding : ℕ → List PlannedChunk → ℕ
holding t [] = 0
holding t (c ∷ cs) =
    let rest = holding t cs in if leb c.window_start t && ltb t c.window_end then suc rest else rest

windows-Covers :
    (left seq start step end lo : ℕ)
    → lo ≡ min (start + seq * step) end
    → end ≤ start + seq * step + left * step
    → (0 < left → start + seq * step + left * step < end + step)
    → Covers seq lo end step (windows left seq start step end)
unfolding windows
windows-Covers zero seq start step end lo e h k = omega arith
windows-Covers (suc left) seq start step end lo e h k = (
  refl,
  omega arith,
  omega arith,
  omega arith,
  windows-Covers left (suc seq) start step end _ (omega arith) (omega arith) (λ _. omega arith),
)

Covers-le : (seq lo hi step : ℕ) (cs : List PlannedChunk) → Covers seq lo hi step cs → lo ≤ hi
Covers-le seq lo hi step [] h = omega arith
Covers-le seq lo hi step (c ∷ cs) (_, _, before, _, rest) =
    omega (arith, Covers-le (suc seq) c.window_end hi step cs rest)

holding-Covers :
    (seq lo hi step t : ℕ) (cs : List PlannedChunk)
    → Covers seq lo hi step cs
    → holding t cs ≡ (if leb lo t && ltb t hi then 1 else 0)
holding-Covers seq lo hi step t [] h = ground arith
holding-Covers seq lo hi step t (c ∷ cs) (_, starts, before, _, rest) = ground (
  arith,
  Covers-le (suc seq) c.window_end hi step cs rest,
  holding-Covers (suc seq) c.window_end hi step t cs rest,
)

-- What the tests of the planner have established when it returns chunks.
accepted :
    (from to chunk_seconds : ℕ) (cs : List PlannedChunk)
    → plan_chunks from to chunk_seconds ≡ planned cs
    → let start = floor_to_minute from in
      let end = floor_to_minute to in
      let step = chunk_seconds * 1000 in
      (60 ≤ chunk_seconds)
      × (start < end)
      × (cs ≡ windows (ceil_div (end - start) step) 0 start step end)
unfolding plan_chunks
accepted from to chunk_seconds cs h = ground arith

-- A plan that is made numbers its chunks from 0 and partitions the range: the chunks follow one
-- another from the minute of `from` to the minute of `to`, without a gap or an overlap, none is
-- empty, and none is longer than `chunkSeconds`.
pub plan_chunks-Covers :
    (from to chunk_seconds : ℕ) (cs : List PlannedChunk)
    → plan_chunks from to chunk_seconds ≡ planned cs
    → Covers 0 (floor_to_minute from) (floor_to_minute to) (chunk_seconds * 1000) cs
plan_chunks-Covers from to chunk_seconds cs h =
    let (long, before, same) = accepted from to chunk_seconds cs h in
    let start = floor_to_minute from in
    let end = floor_to_minute to in
    let step = chunk_seconds * 1000 in
    let enough = le-ceil_div-mul (end - start) step (omega arith) in
    let tight = ceil_div-mul-lt (end - start) step (omega arith) in
    rw same (
      windows-Covers (ceil_div (end - start) step) 0 start step end start (omega arith)
        (omega arith) (λ _. omega arith))

-- So an instant of the range lies in exactly one chunk, and any other instant in none.
pub plan_chunks-holding :
    (from to chunk_seconds t : ℕ) (cs : List PlannedChunk)
    → plan_chunks from to chunk_seconds ≡ planned cs
    → holding t cs ≡ (if leb (floor_to_minute from) t && ltb t (floor_to_minute to) then 1 else 0)
plan_chunks-holding from to chunk_seconds t cs h =
    holding-Covers 0 _ _ (chunk_seconds * 1000) t cs (plan_chunks-Covers from to chunk_seconds cs h)
