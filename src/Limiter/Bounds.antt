-- ===== src/Limiter/Bounds.antt =====
-- The bounds that every limiter keeps, and how it reacts to a throttled page.
use cadena.Prelude.{◌*◌, ◌≤◌, ◌<◌, ◌≡◌, min, max, Option, List, [], ◌∷◌, arith, ℕ}
use cadena.Limiter.{
  Options, Limiter, Feedback, success, throttled, successes_per_increase, max_delay_ms, create,
  on_throttle, requested_ms, feed, run,
}

pub record IsBounded (l : Limiter) : Type 0 where
  pub some_concurrency : 1 ≤ l.concurrency_now
  pub capped : l.concurrency_now ≤ l.max_concurrency
  pub delay_capped : l.delay ≤ max_delay_ms
  pub streak_short : l.streak < successes_per_increase

pub create-IsBounded : (o : Options) → IsBounded (create o)
unfolding create
create-IsBounded o = ground arith

pub feed-IsBounded : (l : Limiter) (f : Feedback) → IsBounded l → IsBounded (feed l f)
unfolding feed
feed-IsBounded l success b = ground arith
feed-IsBounded l (throttled r) b = ground arith

run_from-IsBounded : (l : Limiter) (fs : List Feedback) → IsBounded l → IsBounded (run l fs)
unfolding run
run_from-IsBounded l [] b = b
run_from-IsBounded l (f ∷ fs) b = run_from-IsBounded (feed l f) fs (feed-IsBounded l f b)

-- From any options and any persisted state, after any feedback, the limiter runs at least one and at
-- most `max(1, maxConcurrency)` requests at once, its delay is at most 60 seconds and its streak is
-- below the number of successes that an increase takes.
pub run-IsBounded : (o : Options) (fs : List Feedback) → IsBounded (run (create o) fs)
run-IsBounded o fs = run_from-IsBounded (create o) fs (create-IsBounded o)

-- How the limiter stands after a throttled page, against how it stood before.
abbrev pub BacksOff : Option ℕ → Limiter → Limiter → Type 0
BacksOff retry_after l l' =
    (l'.concurrency_now ≤ l.concurrency_now)
    × (l'.concurrency_now * 2 ≤ max 2 l.concurrency_now)
    × (min max_delay_ms (requested_ms retry_after) ≤ l'.delay)
    × (min max_delay_ms (l.delay * 2) ≤ l'.delay)
    × (0 < l'.delay)
    × (l'.streak ≡ 0)

-- A throttled page never raises the concurrency, and cuts it to half, or to one; the new delay is at
-- least the requested Retry-After and at least twice the old delay, up to the cap of 60 seconds, and
-- never zero; the streak of successes starts again.
pub on_throttle-BacksOff :
    (l : Limiter) (retry_after : Option ℕ)
    → IsBounded l
    → BacksOff retry_after l (on_throttle retry_after l)
unfolding on_throttle
on_throttle-BacksOff l retry_after b = ground arith
