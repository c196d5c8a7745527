-- ===== src/Limiter/Tests.antt =====
-- Runs of the limiter and the pacer, and the theorems about them at concrete inputs.
use cadena.Prelude.{◌≤◌, ◌≡◌, refl, none, some, List, [], ◌∷◌}
use cadena.Limiter.{
  Initial, Options, Feedback, success, throttled, create, feed, run, interval_ms, snapshot, slots,
}
use cadena.Limiter.Pace.{starts_between, paced, rate_ceiling}

abbrev fresh : Initial
fresh = record { concurrency = none; delay_ms = none; throttle_events = none }

abbrev four_wide : Options
four_wide = record { max_concurrency = 4; max_requests_per_minute = 120; initial = fresh }

abbrev resumed : Options
resumed = record four_wide {
  initial = record { concurrency = some 9; delay_ms = some 90_000; throttle_events = some 5 };
}

abbrev mixed : List Feedback
mixed = success ∷ success ∷ success ∷ throttled (some 2_000) ∷ success ∷ []

mixed-run :
    snapshot (run (create four_wide) mixed)
    ≡ record { concurrency = 1; delay_ms = 2_000; throttle_events = 1 }
unfolding snapshot run create feed
mixed-run = refl

resumed_start :
    snapshot (create resumed) ≡ record { concurrency = 4; delay_ms = 60_000; throttle_events = 5 }
unfolding snapshot create
resumed_start = refl

spaced_slots :
    slots
      (record { next_slot = 0 })
      (paced four_wide ((7, []) ∷ (7, []) ∷ (2_000, mixed) ∷ (2_001, []) ∷ []))
    ≡ 7 ∷ 507 ∷ 2_000 ∷ 4_000 ∷ []
unfolding slots create interval_ms run feed
spaced_slots = refl

rate_ceiling_example :
    starts_between 0 60_000
      (slots (record { next_slot = 0 }) (paced four_wide ((7, []) ∷ (7, mixed) ∷ [])))
    ≤ 120
rate_ceiling_example = rate_ceiling four_wide ((7, []) ∷ (7, mixed) ∷ []) 0
