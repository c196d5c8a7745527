-- ===== src/Aging/Tests.antt =====
-- Ticks over one item, and the theorems at concrete inputs.
use cadena.Sla.{always, green, calculate_elapsed_minutes, compute_aging_from_elapsed}
use cadena.Aging.{
  SlaPolicy, WorkItem, Tables, Clock, find_policy, recompute, switch_clock, total_minutes, emit_if,
  emit, store_changed, tick_item, tick,
}
use cadena.Aging.Once.{IsLogged, ticks, idle, ticks-IsLogged}
use cadena.Prelude.{ℕ, ◌≡◌, refl, false, none, some, [], ◌∷◌, ◌*◌}

abbrev policy : SlaPolicy
policy = record {
  org_id = "acme";
  item_type = "incident";
  state = "Triaged";
  threshold_minutes = 60;
  calendar = always;
  suspend_sla = false;
}

abbrev tables : Tables
tables = record {
  policies = policy ∷ [];
  escalation_percent = λ org. none;
  team_lead = λ team. some "lea";
  escalation_person = λ team org. none;
}

abbrev incident : WorkItem
incident = record {
  id = "i1";
  org_id = "acme";
  item_type = "incident";
  status = "Triaged";
  created_at = 0;
  entered_state_at = none;
  owner_id = some "ann";
  team_id = some "ops";
  aging_bucket = green;
  aging_score = 0;
  sla_elapsed_minutes = 0;
  sla_clock_started_at = none;
  sla_suspended = false;
}

engine : Unit {0}
unfolding tick tick_item emit emit_if store_changed find_policy recompute switch_clock total_minutes
    calculate_elapsed_minutes compute_aging_from_elapsed
engine = tt

abbrev hours : ℕ → ℕ
hours n = n * 3_600_000

-- After 45, 61 and 90 minutes: a warning, a breach, an escalation, each once.
three_ticks :
    let s =
      ticks
        ((tables, 2_700_000, incident ∷ [])
          ∷ (tables, 3_660_000, incident ∷ [])
          ∷ (tables, 5_400_000, incident ∷ [])
          ∷ [])
        (idle []) in
    (s.warning_count ≡ 1)
    × (s.breach_count ≡ 1)
    × (s.escalation_count ≡ 1)
    × (s.processed_count ≡ 3)
unfolding engine
three_ticks = (refl, refl, refl, refl)

ticks-IsLogged_example :
    IsLogged []
      (ticks ((tables, hours 2, incident ∷ []) ∷ (tables, hours 3, incident ∷ []) ∷ []) (idle []))
ticks-IsLogged_example =
    ticks-IsLogged [] ((tables, hours 2, incident ∷ []) ∷ (tables, hours 3, incident ∷ []) ∷ []) tt

abbrev clock : Clock
clock = record { elapsed_base = 5; suspended = false; clock_started_at = none }
