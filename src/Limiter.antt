-- ===== src/Limiter.antt =====
-- modules/connectors/backfill/adaptive-limiter.ts: the AIMD limiter of a backfill job and the pacer
-- that spaces its requests. A method that mutates the object returns the new record. Times are whole
-- milliseconds, also a Retry-After, which the source holds in seconds and multiplies by 1000.
pub mod Bounds
pub mod Recovery
pub mod Pace
mod Tests
use cadena.Prelude.{
  ℕ, ◌+◌, ◌*◌, ◌/◌, min, max, Option, none, some, List, [], ◌∷◌, ltb, leb, if◌then◌else◌, or_else,
  ceil_div,
}

abbrev pub successes_per_increase : ℕ
successes_per_increase = 3

abbrev pub throttle_base_delay_ms : ℕ
throttle_base_delay_ms = 250

abbrev pub max_delay_ms : ℕ
max_delay_ms = 60_000

-- `LimiterState`, the snapshot that a job persists between runs.
pub record Snapshot : Type 0 where
  pub concurrency : ℕ
  pub delay_ms : ℕ
  pub throttle_events : ℕ

-- `initial` may leave out any field.
pub record Initial : Type 0 where
  pub concurrency : Option ℕ
  pub delay_ms : Option ℕ
  pub throttle_events : Option ℕ

pub record Options : Type 0 where
  pub max_concurrency : ℕ
  pub max_requests_per_minute : ℕ
  pub initial : Initial

pub record Limiter : Type 0 where
  pub concurrency_now : ℕ
  pub delay : ℕ
  pub throttles : ℕ
  pub streak : ℕ
  pub max_concurrency : ℕ
  pub floor_interval_ms : ℕ

-- The constructor.
unfoldable pub create : Options → Limiter
unfolding ceil_div
create o =
    let most = max 1 o.max_concurrency in
    record {
      concurrency_now = min most (max 1 (or_else o.initial.concurrency 1));
      delay = min max_delay_ms (max 0 (or_else o.initial.delay_ms 0));
      throttles = or_else o.initial.throttle_events 0;
      streak = 0;
      max_concurrency = most;
      floor_interval_ms = ceil_div 60_000 (max 1 o.max_requests_per_minute);
    }

unfoldable pub on_success : Limiter → Limiter
on_success l =
    let streak' = l.streak + 1 in
    if ltb streak' successes_per_increase then record l { streak = streak' } else record l {
      streak = 0;
      concurrency_now = min l.max_concurrency (l.concurrency_now + 1);
      delay = if leb (l.delay * 2) throttle_base_delay_ms then 0 else l.delay / 2;
    }

-- `retryAfterSeconds && retryAfterSeconds > 0 ? retryAfterSeconds * 1000 : 0`
abbrev pub requested_ms : Option ℕ → ℕ
requested_ms none = 0
requested_ms (some ms) = ms

unfoldable pub on_throttle : Option ℕ → Limiter → Limiter
on_throttle retry_after l = record l {
  throttles = l.throttles + 1;
  streak = 0;
  concurrency_now = max 1 (l.concurrency_now / 2);
  delay = min max_delay_ms (
      max (requested_ms retry_after)
        (if ltb 0 l.delay then l.delay * 2 else throttle_base_delay_ms));
}

-- The getter `intervalMs`.
unfoldable pub interval_ms : Limiter → ℕ
interval_ms l = max l.delay l.floor_interval_ms

unfoldable pub snapshot : Limiter → Snapshot
snapshot l = record {
  concurrency = l.concurrency_now;
  delay_ms = l.delay;
  throttle_events = l.throttles;
}

-- What a run reports to the limiter after each page.
pub data Feedback : Type 0 where
  success : Feedback
  throttled : Option ℕ → Feedback

unfoldable pub feed : Limiter → Feedback → Limiter
unfolding on_success on_throttle
feed l success = on_success l
feed l (throttled retry_after) = on_throttle retry_after l

unfoldable pub run : Limiter → List Feedback → Limiter
run l [] = l
run l (f ∷ fs) = run (feed l f) fs

-- `RequestPacer`: the field, and `acquire`, which returns the slot at which the caller starts. The
-- clock reading is an argument; the caller sleeps until its slot.
pub record Pacer : Type 0 where
  pub next_slot : ℕ

unfoldable pub acquire : ℕ → ℕ → Pacer → Pacer × ℕ
acquire now interval p =
    let slot = max now p.next_slot in (record { next_slot = slot + interval }, slot)

-- The slots that a sequence of calls gets, each with its clock reading and its interval.
unfoldable pub slots : Pacer → List (ℕ × ℕ) → List ℕ
unfolding acquire
slots p [] = []
slots p ((now, interval) ∷ calls) = let (p', slot) = acquire now interval p in slot ∷ slots p' calls
