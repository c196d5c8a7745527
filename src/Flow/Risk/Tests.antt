-- ===== src/Flow/Risk/Tests.antt =====
-- modules/flow/flow-risk.ts: scores at concrete inputs.
use cadena.Prelude.{round_div, ◌≤◌, refl, some, [], ◌∷◌, arith}
use cadena.Flow.Risk.{
  RiskInput, Score, count_where, assess_risk, conditional_empirical, percentile_of, probability_of,
}
use cadena.Flow.Risk.Shares.{assess_risk_mono}

abbrev waiting : RiskInput
waiting = record {
  samples = 10 ∷ 20 ∷ 30 ∷ 40 ∷ [];
  sample_items = 4;
  current_minutes = 5;
  target_minutes = some 35;
  min_sample = 3;
}

abbrev early : Score
early = record {
  percentile = percentile_of (10 ∷ 20 ∷ 30 ∷ 40 ∷ []) 5;
  probability_exceed_target = (probability_of (10 ∷ 20 ∷ 30 ∷ 40 ∷ []) 5 (some 35)).0;
  probability_basis = conditional_empirical;
  sample_size = 4;
  current_wait_minutes = 5;
}

abbrev late : Score
late = record early {
  percentile = percentile_of (10 ∷ 20 ∷ 30 ∷ 40 ∷ []) 25;
  probability_exceed_target = (probability_of (10 ∷ 20 ∷ 30 ∷ 40 ∷ []) 25 (some 35)).0;
  current_wait_minutes = 25;
}

-- One of four visits ran past the target, and one of the two that lasted longer than 25 minutes.
assess_risk_mono_example :
    (early.percentile ≤ late.percentile)
    × (2_500 ≤ 5_000)
    × (late.percentile ≤ 10_000)
    × (5_000 ≤ 10_000)
unfolding assess_risk percentile_of probability_of count_where round_div
assess_risk_mono_example =
    assess_risk_mono waiting 25 early late 2_500 5_000 (omega arith) (omega arith) refl refl refl
      refl
