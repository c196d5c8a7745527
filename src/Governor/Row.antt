-- ===== src/Governor/Row.antt =====
-- The durable row of one target and the transactions of `acquireQuota` and `recordSuccess` on it.
-- Times are milliseconds since the epoch; a token of `randomUUID` is a number that the caller
-- supplies. Each call of `transaction` locks the row, so a function stands for it.
use Prim.Native.String.{String}
use cadena.Governor.Policy.{RatePolicy, effective_limit}
use cadena.Prelude.{
  ℕ, suc, ◌+◌, ◌-◌, min, max, Bool, false, Option, none, some, ◌&&◌, ltb, leb, ◌==◌, if◌then◌else◌,
  or_else, is_some,
}

abbrev pub probe_lease_ms : ℕ
probe_lease_ms = 30_000

abbrev pub window_ms : ℕ
window_ms = 60_000

pub record Target : Type 0 where
  pub target_origin : String
  pub policy : RatePolicy

-- `integration_rate_governance`, its key, the origin and `updated_at` left out.
pub record Row : Type 0 where
  pub requests_per_minute : ℕ
  pub headroom_percentage : ℕ
  pub max_concurrent : ℕ
  pub window_started_at : ℕ
  pub used_requests : ℕ
  pub shaped_wait_ms : ℕ
  pub total_requests : ℕ
  pub succeeded_requests : ℕ
  pub failed_requests : ℕ
  pub consecutive_failures : ℕ
  pub pressure_streak : ℕ
  pub retry_not_before : Option ℕ
  pub last_delay_ms : ℕ
  pub throttle_events : ℕ
  pub semaphore_pressure_events : ℕ
  pub retry_events : ℕ
  pub last_status : Option ℕ
  pub shedding_since : Option ℕ
  pub shed_until : Option ℕ
  pub shed_reason : Option String
  pub shed_episodes : ℕ
  pub shed_requests : ℕ
  pub probe_owner : Option ℕ
  pub probe_expires_at : Option ℕ

-- The row that `acquireQuota` inserts, with the defaults of the schema.
abbrev pub new_row : (now : ℕ) → Target → Row
new_row now t = record {
  requests_per_minute = t.policy.requests_per_minute;
  headroom_percentage = t.policy.headroom_percentage;
  max_concurrent = t.policy.max_concurrent;
  window_started_at = now;
  used_requests = 0;
  shaped_wait_ms = 0;
  total_requests = 0;
  succeeded_requests = 0;
  failed_requests = 0;
  consecutive_failures = 0;
  pressure_streak = 0;
  retry_not_before = none;
  last_delay_ms = 0;
  throttle_events = 0;
  semaphore_pressure_events = 0;
  retry_events = 0;
  last_status = none;
  shedding_since = none;
  shed_until = none;
  shed_reason = none;
  shed_episodes = 0;
  shed_requests = 0;
  probe_owner = none;
  probe_expires_at = none;
}

pub data SheddingState : Type 0 where
  normal shedding probing : SheddingState

abbrev pub after : Option ℕ → ℕ → Bool
after none now = false
after (some t) now = ltb now t

abbrev pub shedding_state : Row → (now : ℕ) → SheddingState
shedding_state row now =
    if is_some row.shedding_since
    then if after row.shed_until now then shedding else probing
    else normal

abbrev pub probe_held : Row → (now : ℕ) → Bool
probe_held row now = is_some row.probe_owner && after row.probe_expires_at now

-- What the transaction of `acquireQuota` answers.
pub data Admission : Type 0 where
  shed : (until : ℕ) → (reason : Option String) → Admission
  wait : ℕ → Admission
  granted : (probe : Option ℕ) → Admission

abbrev shed_call : Row → (until : ℕ) → Row × Admission
shed_call row until =
    (record row { shed_requests = suc row.shed_requests }, shed until row.shed_reason)

abbrev pub caps : Target → Row → Row
caps t row = record row {
  requests_per_minute = min row.requests_per_minute t.policy.requests_per_minute;
  headroom_percentage = min row.headroom_percentage t.policy.headroom_percentage;
  max_concurrent = min row.max_concurrent t.policy.max_concurrent;
}

abbrev pub limit_of : Target → Row → ℕ
limit_of t row =
    effective_limit (min row.requests_per_minute t.policy.requests_per_minute)
      (min row.headroom_percentage t.policy.headroom_percentage)

-- The rest of the transaction, past the test for shedding.
unfoldable pub quota : (now fresh : ℕ) → Target → Row → Row × Admission
quota now fresh t row =
    let expired = leb (row.window_started_at + window_ms) now in
    let used = if expired then 0 else row.used_requests in
    let start = if expired then now else row.window_started_at in
    let row' = record (caps t row) { window_started_at = start } in
    if leb (limit_of t row) used
    then (
      record row' {
        used_requests = used;
        shaped_wait_ms = row.shaped_wait_ms + max 1 (start + window_ms - now);
      },
      wait (max 1 (start + window_ms - now)),
    )
    else let admitted = record row' {
      used_requests = suc used;
      total_requests = suc row.total_requests;
    } in
      elim (shedding_state row now) [
        | probing ↦ (
          record admitted {
            probe_owner = some fresh;
            probe_expires_at = some (now + probe_lease_ms);
          },
          granted (some fresh),
        )
        | _ ↦ (admitted, granted none)
      ]

-- One transaction of `acquireQuota` on the row.
unfoldable pub admit : (now fresh : ℕ) → Target → Row → Row × Admission
unfolding quota
admit now fresh t row = elim (shedding_state row now) [
  | shedding ↦ shed_call row (or_else row.shed_until 0)
  | probing ↦
      if probe_held row now
      then shed_call row (min (or_else row.probe_expires_at 0) (now + t.policy.base_backoff_ms))
      else quota now fresh t row
  | normal ↦ quota now fresh t row
]

-- The domain events that the governor enqueues.
pub data ShedEvent : Type 0 where
  started : (shedding_until : ℕ) (status : Option ℕ) (streak : ℕ) → (reason : String) → ShedEvent
  ended : (since recovered_at shed_requests_total : ℕ) → ShedEvent

abbrev pub owns_probe : Row → Option ℕ → Bool
owns_probe row none = false
owns_probe row (some p) = elim row.probe_owner [ none ↦ false | some q ↦ p == q ]

abbrev keep_if_later : Option ℕ → (now : ℕ) → Option ℕ
keep_if_later none now = none
keep_if_later (some t) now = if leb t now then none else some t

-- `recordSuccess`: the update, and the transaction of the admitted probe.
unfoldable pub record_success : (now : ℕ) → (probe : Option ℕ) → Row → Row × Option ShedEvent
record_success now probe row =
    let row' = record row {
      succeeded_requests = suc row.succeeded_requests;
      consecutive_failures = 0;
      pressure_streak = 0;
      retry_not_before = keep_if_later row.retry_not_before now;
      last_status = some 200;
    } in
    if owns_probe row probe
    then elim row.shedding_since [
      | none ↦ (row', none)
      | some since ↦ (
        record row' {
          shedding_since = none;
          shed_until = none;
          shed_reason = none;
          probe_owner = none;
          probe_expires_at = none;
        },
        some (ended since now row.shed_requests),
      )
    ]
    else (row', none)
