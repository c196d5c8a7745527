-- ===== src/Governor/Failure.antt =====
-- `recordFailure`: the backoff, the counters, and when load shedding opens. `Math.random()` is a number
-- below 2^53, over 2^53; the jittered delay is computed exactly where the source has doubles.
use Prim.Native.Char.{code}
use Prim.Native.String.{String}
use cadena.Governor.Policy.{RatePolicy, millionths}
use cadena.Governor.Row.{Row, Target, ShedEvent, started, owns_probe}
use cadena.Prelude.{
  ℕ, suc, ◌+◌, ◌-◌, ◌*◌, ◌^◌, min, max, Bool, true, false, Option, none, some, List, [], ◌∷◌, ◌&&◌,
  ◌||◌, not, ltb, leb, ◌==◌, if◌then◌else◌, or_else, is_some, round_div,
}

-- `ConnectorRemoteError`, its `retryAfterSeconds` in milliseconds.
pub record RemoteError : Type 0 where
  pub message : String
  pub status : Option ℕ
  pub retryable : Bool
  pub retry_after_ms : Option ℕ

pub data Failure : Type 0 where
  remote : RemoteError → Failure
  unexpected : Failure

-- A case-insensitive search for ASCII text, which stands for the source's regular expression.
abbrev lower : ℕ → ℕ
lower c = if leb b'A' c && leb c b'Z' then c + 32 else c

abbrev lower_codes : String → List ℕ
lower_codes String.[] = []
lower_codes (String.◌∷◌ c s) = lower (code c) ∷ lower_codes s

abbrev is_prefix : List ℕ → List ℕ → Bool
is_prefix [] t = true
is_prefix (c ∷ p) [] = false
is_prefix (c ∷ p) (d ∷ t) = c == d && is_prefix p t

abbrev occurs : List ℕ → List ℕ → Bool
occurs p [] = is_prefix p []
occurs p (c ∷ t) = is_prefix p (c ∷ t) || occurs p t

unfoldable pub mentions_pressure : String → Bool
mentions_pressure message =
    let text = lower_codes message in
    occurs (lower_codes "semaphore") text
    || (occurs (lower_codes "too many requests") text
        || occurs (lower_codes "temporarily unavailable") text)

abbrev pub has_status : ℕ → RemoteError → Bool
has_status n e = elim e.status [ none ↦ false | some s ↦ s == n ]

abbrev pub is_retryable : Failure → Bool
is_retryable (remote e) = e.retryable
is_retryable unexpected = false

abbrev pub is_throttle : Failure → Bool
is_throttle (remote e) = has_status 429 e
is_throttle unexpected = false

abbrev pub is_pressure : Failure → Bool
is_pressure (remote e) = has_status 503 e || mentions_pressure e.message
is_pressure unexpected = false

-- `Math.random()` is `r / random_scale`.
abbrev pub random_scale : ℕ
random_scale = 2 ^ 53

unfoldable pub jittered : RatePolicy → (failures random : ℕ) → ℕ
unfolding round_div
jittered p failures random =
    let exponential = min p.max_backoff_ms (p.base_backoff_ms * 2 ^ (failures - 1)) in
    let one = random_scale * millionths in
    let factor = one + 2 * random * p.jitter_millionths - random_scale * p.jitter_millionths in
    max 1 (min p.max_backoff_ms (round_div (exponential * factor) one))

-- `remote?.retryAfterSeconds`, where 0 is falsy.
abbrev pub retry_after : Failure → Option ℕ
retry_after unexpected = none
retry_after (remote e) = elim e.retry_after_ms [
  | none ↦ none
  | some ms ↦ if ms == 0 then none else some ms
]

unfoldable pub delay_ms : RatePolicy → (failures random : ℕ) → Failure → ℕ
delay_ms p failures random f =
    if is_retryable f then or_else (retry_after f) (jittered p failures random) else 0

abbrev pub status_of : Failure → Option ℕ
status_of (remote e) = e.status
status_of unexpected = none

abbrev pub later : Option ℕ → ℕ → Option ℕ
later none t = some t
later (some old) t = if ltb old t then some t else some old

abbrev pub one_if : Bool → ℕ
one_if b = if b then 1 else 0

abbrev slice : ℕ → String → String
slice n String.[] = ""
slice n (String.◌∷◌ c s) = if n == 0 then "" else String.◌∷◌ c (slice (n - 1) s)

-- `(remote?.message || 'semaphore pressure').slice(0, 300)`
abbrev reason_of : Failure → String
reason_of unexpected = "semaphore pressure"
reason_of (remote e) = elim e.message [
  | String.[] ↦ "semaphore pressure"
  | String.◌∷◌ c s ↦ slice 300 (String.◌∷◌ c s)
]

-- The first UPDATE of the transaction.
abbrev count_failure : (now delay : ℕ) → Failure → Row → Row
count_failure now delay f row = record row {
  failed_requests = suc row.failed_requests;
  consecutive_failures = suc row.consecutive_failures;
  retry_not_before =
      if delay == 0 then row.retry_not_before else later row.retry_not_before (now + delay);
  last_delay_ms = delay;
  throttle_events = row.throttle_events + one_if (is_throttle f);
  semaphore_pressure_events = row.semaphore_pressure_events + one_if (is_pressure f);
  retry_events = row.retry_events + one_if (is_retryable f);
  last_status = status_of f;
}

abbrev pub under_pressure : (delay : ℕ) → Failure → Bool
under_pressure delay f = is_pressure f && (is_retryable f && not (delay == 0))

-- The last UPDATE: shedding opens, or is extended.
abbrev open_shedding : (now until : ℕ) → Failure → Row → Row
open_shedding now until f row = record row {
  shedding_since = some (or_else row.shedding_since now);
  shed_until = later row.shed_until until;
  shed_reason = some (reason_of f);
  shed_episodes = row.shed_episodes + one_if (not (is_some row.shedding_since));
  probe_owner = none;
  probe_expires_at = none;
}

abbrev pub release_probe : Option ℕ → Row → Row
release_probe probe row =
    if owns_probe row probe then record row { probe_owner = none; probe_expires_at = none } else row

-- The error that the caller gets: a retryable one without a Retry-After learns the delay.
abbrev returned : (delay : ℕ) → Failure → Failure
returned delay unexpected = unexpected
returned delay (remote e) =
    if e.retryable && not (is_some (retry_after (remote e)))
    then remote (record e { retry_after_ms = some delay })
    else remote e

unfoldable pub record_failure :
    (now random : ℕ)
    → (probe : Option ℕ) → Target
    → Failure
    → Row
    → Row × (Option ShedEvent × Failure)
unfolding delay_ms
record_failure now random probe t f row =
    let delay = delay_ms t.policy (suc row.consecutive_failures) random f in
    let pressed = under_pressure delay f in
    let streak = if pressed then suc row.pressure_streak else 0 in
    let row' = record (count_failure now delay f row) { pressure_streak = streak } in
    if not pressed
      || (not (is_some row.shedding_since) && ltb streak t.policy.shed_after_pressure_responses)
    then (release_probe probe row', (none, returned delay f))
    else (
      open_shedding now (now + delay) f row',
      (
        if is_some row.shedding_since
            then none
            else some (started (now + delay) (status_of f) streak (reason_of f)),
        returned delay f,
      ),
    )
