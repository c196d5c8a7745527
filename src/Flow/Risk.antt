-- ===== src/Flow/Risk.antt =====
-- modules/flow/flow-risk.ts: the risk of a wait, from the visits that are over. Durations are whole minutes; a
-- share that is rounded to four decimals is a whole number of ten-thousandths.
pub mod Shares
mod Tests
use cadena.Prelude.{
  ℕ, ◌+◌, ◌*◌, Bool, true, false, Option, none, some, List, [], ◌∷◌, ltb, leb, ◌==◌, if◌then◌else◌,
  length, round_div,
}

pub data ProbabilityBasis : Type 0 where
  conditional_empirical already_past_target no_sla_target beyond_history : ProbabilityBasis

pub record RiskInput : Type 0 where
  pub samples : List ℕ
  pub sample_items : ℕ
  pub current_minutes : ℕ
  pub target_minutes : Option ℕ
  pub min_sample : ℕ

pub record Score : Type 0 where
  pub percentile : ℕ
  pub probability_exceed_target : Option ℕ
  pub probability_basis : ProbabilityBasis
  pub sample_size : ℕ
  pub current_wait_minutes : ℕ

pub data RiskResult : Type 0 where
  insufficient_history : (sample_size sample_items min_sample : ℕ) → RiskResult
  scored : Score → RiskResult

-- `samples.filter(...).length`
unfoldable pub count_where : (ℕ → Bool) → List ℕ → ℕ
count_where test [] = 0
count_where test (d ∷ ds) = (if test d then 1 else 0) + count_where test ds

-- A share of `whole`, of which `halves` are twice the part.
abbrev pub round4_halves : (halves whole : ℕ) → ℕ
round4_halves halves whole = round_div (10_000 * halves) (2 * whole)

unfoldable pub percentile_of : (samples : List ℕ) → (current : ℕ) → ℕ
percentile_of samples current =
    round4_halves
      (2 * count_where (λ d. ltb d current) samples + count_where (λ d. d == current) samples)
      (length samples)

unfoldable pub probability_of :
    (samples : List ℕ) → (current : ℕ) → Option ℕ → Option ℕ × ProbabilityBasis
probability_of samples current none = (none, no_sla_target)
probability_of samples current (some target) =
    let still_going = count_where (λ d. ltb current d) samples in
    let over = count_where (λ d. if ltb current d then ltb target d else false) samples in
    if leb target current
    then (some 10_000, already_past_target)
    else if still_going == 0
    then (none, beyond_history)
    else (some (round4_halves (2 * over) still_going), conditional_empirical)

unfoldable pub assess_risk : RiskInput → RiskResult
assess_risk i =
    if ltb i.sample_items i.min_sample
    then insufficient_history (length i.samples) i.sample_items i.min_sample
    else scored (record {
      percentile = percentile_of i.samples i.current_minutes;
      probability_exceed_target = (probability_of i.samples i.current_minutes i.target_minutes).0;
      probability_basis = (probability_of i.samples i.current_minutes i.target_minutes).1;
      sample_size = length i.samples;
      current_wait_minutes = i.current_minutes;
    })
