-- ===== src/Flow/Totals.antt =====
-- The shares of a flow profile.
use cadena.Flow.{BucketMs, elapsed_of, totals_from, suc}
use cadena.Prelude.{
  ℕ, ◌+◌, ◌*◌, ◌≤◌, ◌<◌, ◌≡◌, none, some, arith, round_div, le-round_div, ◌⊎◌, round_div-lt, inr,
  inl,
}
use native.Mathlib.Nat.{le_refl}
use native.Mathlib.Decide.{dec_lt}

-- `q` ten-thousandths are `part / whole` to the nearest, halves up, and at most the whole.
abbrev pub IsShare : (part whole q : ℕ) → Type 0
IsShare part whole q =
    (q ≤ 10_000)
    × (2 * (q * whole) ≤ 2 * (part * 10_000) + whole)
    × (2 * (part * 10_000) < 2 * (q * whole) + whole)

round_div-IsShare :
    (part whole : ℕ)
    → 0 < whole
    → part ≤ whole
    → IsShare part whole (round_div (part * 10_000) whole)
round_div-IsShare part whole h k =
    let q = round_div (part * 10_000) whole in
    let lower = (le-round_div (part * 10_000) whole q h).0 (le_refl q) in
    let upper = (round_div-lt (part * 10_000) whole (suc q) h).0 (le_refl (suc q)) in
    let bound = (round_div-lt (part * 10_000) whole 10_001 h).1 (omega arith) in
    (omega arith, omega (arith, lower), omega (arith, upper))

-- Flow efficiency and the unclassified share are missing exactly where nothing has elapsed; otherwise
-- they are shares of the elapsed time, unclassified time included, to the nearest ten-thousandth and
-- never above the whole.
pub totals_from-shares :
    (ms : BucketMs)
    → let t = totals_from ms in
      ((elapsed_of ms ≡ 0) × (t.flow_efficiency ≡ none) × (t.unclassified_share ≡ none))
      ⊎ ((e u : ℕ) × (t.flow_efficiency ≡ some e)
          × (t.unclassified_share ≡ some u)
          × IsShare ms.active (elapsed_of ms) e
          × IsShare ms.unclassified (elapsed_of ms) u)
unfolding totals_from
totals_from-shares ms = elim (dec_lt 0 (elapsed_of ms)) [
  | yes some_time ↦ inr (
    _,
    _,
    ground arith,
    ground arith,
    round_div-IsShare ms.active (elapsed_of ms) some_time (omega arith),
    round_div-IsShare ms.unclassified (elapsed_of ms) some_time (omega arith),
  )
  | no nothing ↦ inl (omega arith, ground arith, ground arith)
]
