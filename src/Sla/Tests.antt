-- ===== src/Sla/Tests.antt =====
-- The SLA clock at concrete instants, and the theorems at concrete inputs.
use cadena.Sla.{business_hours, always, red, calculate_elapsed_minutes, compute_aging_from_elapsed}
use cadena.Sla.BusinessTime.{worked}
use cadena.Sla.Buckets.{red_scores_100}
use cadena.Sla.Elapsed.{calculate_elapsed_minutes-worked}
use cadena.Prelude.{ℕ, ◌+◌, ◌-◌, ◌*◌, ◌/◌, ◌≡◌, refl, arith}

-- 1970-01-01 was a Thursday. Friday 16:58 to Monday 09:03.
abbrev friday : ℕ
friday = 86_400_000 + 61_080_000

abbrev monday : ℕ
monday = 4 * 86_400_000 + 32_580_000

over_the_weekend : calculate_elapsed_minutes friday monday business_hours ≡ 5
unfolding calculate_elapsed_minutes
over_the_weekend = refl

over_the_weekend_always : calculate_elapsed_minutes friday monday always ≡ 3_845
unfolding calculate_elapsed_minutes
over_the_weekend_always = refl

calculate_elapsed_minutes-worked_example :
    calculate_elapsed_minutes friday monday business_hours
    ≡ (worked monday - worked friday) / 60_000
calculate_elapsed_minutes-worked_example = calculate_elapsed_minutes-worked friday monday

-- 500 hours and a minute against 500 hours.
red_scores_100_example :
    let r = compute_aging_from_elapsed 30_001 30_000 in
    (r.bucket ≡ red) × (r.score_hundredths ≡ 10_000)
red_scores_100_example = red_scores_100 30_001 30_000 (omega arith) (omega arith)
