-- ===== src/Flow/Tests.antt =====
-- A history, its clipping and its totals, and the theorems at concrete inputs.
use Prim.Native.String.{String}
use cadena.Sla.{business_hours, calculate_elapsed_minutes}
use cadena.Flow.{StateChange, StateInterval, build_intervals, business_ms, BucketMs, totals_from}
use cadena.Flow.Timeline.{find_at}
use cadena.Flow.Business.{calculate_elapsed_minutes-business_ms}
use cadena.Prelude.{ℕ, ◌+◌, ◌*◌, ◌/◌, ◌≡◌, refl, none, some, List, [], ◌∷◌}

abbrev change : ℕ → String → String → StateChange
change at from to = record { at = at; from = some from; to = to; reason = none }

-- Out of order, with one change that contradicts the one before.
abbrev changes : List StateChange
changes = change 50 "Doing" "Done" ∷ change 20 "New" "Doing" ∷ change 60 "Review" "Doing" ∷ []

abbrev history : List StateInterval
history = (build_intervals 10 "Doing" changes 70 ("Done" ∷ [])).intervals

history_intervals :
    (find_at 10 history ≡ some "New")
    × (find_at 49 history ≡ some "Doing")
    × (find_at 55 history ≡ none)
    × (find_at 69 history ≡ some "Doing")
    × ((build_intervals 10 "Doing" changes 70 ("Done" ∷ [])).anomalies ≡ 1)
unfolding build_intervals
history_intervals = (refl, refl, refl, refl, refl)

-- Thursday 10:00 to the next Monday 10:00.
a_week_end : business_ms 36_000_000 (4 * 86_400_000 + 36_000_000) business_hours ≡ 16 * 3_600_000
unfolding business_ms
a_week_end = refl

calculate_elapsed_minutes-business_ms_example :
    calculate_elapsed_minutes 36_000_000 400_000_000 business_hours
    ≡ business_ms 36_000_000 400_000_000 business_hours / 60_000
calculate_elapsed_minutes-business_ms_example =
    calculate_elapsed_minutes-business_ms 36_000_000 400_000_000 business_hours

abbrev profile : BucketMs
profile = record { active = 60_000; waiting = 120_000; blocked = 0; unclassified = 0 }

profile_totals : (totals_from profile).flow_efficiency ≡ some 3_333
unfolding totals_from
profile_totals = refl
