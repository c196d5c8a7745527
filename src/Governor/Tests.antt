-- ===== src/Governor/Tests.antt =====
-- Runs of the governor, and the theorems about it at concrete inputs.
use cadena.Prelude.{ℕ, suc, ◌+◌, ◌≤◌, ◌≡◌, max, refl, true, none, some, [], ◌∷◌, arith}
use cadena.Governor.Policy.{
  RatePolicy, whole, RawPolicy, object, accepted, validate_rate_governance, default_rate_governance,
  merge_policies, effective_limit,
}
use cadena.Governor.Policy.Merge.{IsValidPolicy, merge_policies-IsValidPolicy}
use cadena.Governor.Row.{
  Row, Target, new_row, limit_of, admit, wait, granted, shedding, shedding_state,
}
use cadena.Governor.Failure.{Failure, remote, record_failure}
use cadena.Governor.Execute.{Reading, acquire_quota, success, load_shed, execute}
use cadena.Governor.Window.{grants, admits-within_limit, is_final, acquire_quota-ends}
use cadena.Governor.Shedding.{open_window, execute-sheds}
use cadena.Governor.Gate.{
  arrives, Gate, new_gate, arrive, Reachable, here, next, IsTended, Reachable-IsTended, overshoot,
}

-- Two calls a minute.
abbrev tight : RatePolicy
tight = record default_rate_governance { requests_per_minute = 2; headroom_percentage = 100 }

abbrev site : Target
site = record { target_origin = "https://itsm.example"; policy = tight }

abbrev raw_tight : RawPolicy
raw_tight = record {
  requests_per_minute = some (whole 2);
  headroom_percentage = some (whole 100);
  max_concurrent = none;
  base_backoff_ms = none;
  max_backoff_ms = none;
  jitter_ratio = none;
  shed_after_pressure_responses = none;
  unknown_keys = [];
}

abbrev at : ℕ → Reading
at t = record { now = t; token = t }

abbrev busy : Failure
busy = remote (record {
  message = "semaphore exhausted";
  status = some 503;
  retryable = true;
  retry_after_ms = some 5_000;
})

abbrev fresh : Row
fresh = record (new_row 0 site) { shed_requests = 0 }

fresh_row : new_row 0 site ≡ fresh
fresh_row = refl

-- The row after a second pressure failure at time 100.
abbrev shed_row : Row
shed_row = record fresh {
  failed_requests = 2;
  consecutive_failures = 2;
  pressure_streak = 2;
  shedding_since = some 100;
  shed_until = some 5_100;
  shed_reason = some "semaphore exhausted";
  shed_episodes = 1;
}

valid_tight : validate_rate_governance (object raw_tight) ≡ accepted tight
unfolding validate_rate_governance
valid_tight = refl

two_grants : grants (at 1 ∷ at 2 ∷ at 3 ∷ []) site (new_row 0 site) ≡ 2
unfolding grants admit effective_limit
two_grants = refl

second_failure_sheds :
    let twice =
      record_failure 100 0 none site busy (record_failure 90 0 none site busy (new_row 0 site)).0 in
    shedding_state twice.0 200 ≡ shedding
unfolding record_failure
second_failure_sheds = refl

-- Safer than both.
abbrev strict : RatePolicy
strict = record default_rate_governance { requests_per_minute = 1 }

tight-IsValid : IsValidPolicy tight
tight-IsValid = omega arith

merge_policies-IsValidPolicy_example : IsValidPolicy (merge_policies tight (tight ∷ []))
merge_policies-IsValidPolicy_example =
    merge_policies-IsValidPolicy tight (tight ∷ []) tight-IsValid (tight-IsValid, tt)

admits-within_limit_example :
    grants (at 1 ∷ at 2 ∷ at 3 ∷ []) site fresh + 0 ≤ max 0 (limit_of site fresh)
admits-within_limit_example = admits-within_limit site (at 1 ∷ at 2 ∷ at 3 ∷ []) fresh (omega arith)

first_waits :
    (ms : ℕ) → (admit 3 3 site (record fresh { used_requests = 2 })).1 ≡ wait ms → 3 + ms ≤ 60_000
unfolding admit effective_limit
first_waits ms h = ground arith

acquire_quota-ends_example :
    is_final (acquire_quota (at 3 ∷ at 60_000 ∷ []) site (record fresh { used_requests = 2 })).1
    ≡ true
acquire_quota-ends_example =
    acquire_quota-ends site (record fresh { used_requests = 2 }) (at 3) (at 60_000) first_waits

execute-sheds_example :
    (until : ℕ) × (execute {W = ℕ} {A = ℕ}
        (at 300 ∷ [])
        301
        0
        site
        (λ w. (suc w, success w))
        (7, shed_row)
      ≡ (
        (7, record shed_row { shed_requests = 1 }),
        (none, load_shed until (some "semaphore exhausted")),
      ))
execute-sheds_example =
    execute-sheds (at 300) [] 301 0 site (λ w. (suc w, success w)) 7 shed_row (open_window refl)

probe_granted : (admit 6_000 9 site shed_row).1 ≡ granted (some 9)
unfolding admit effective_limit
probe_granted = refl

abbrev probed_row : Row
probed_row = record shed_row { probe_owner = some 9; probe_expires_at = some 36_000 }

-- One call in flight, one waiting.
abbrev crowded : Gate
crowded = arrive 1 (arrive 1 (new_gate 1))

Reachable-IsTended_example : IsTended crowded
Reachable-IsTended_example = Reachable-IsTended 1 crowded (next (next here (arrives 1)) (arrives 1))

overshoot_example : (g : Gate) × Reachable (new_gate 4) g × (g.limit ≡ 4) × (g.in_flight ≡ 5)
overshoot_example = overshoot 4 (omega arith)
