-- ===== src/Limiter/Recovery.antt =====
-- How a limiter recovers while the provider keeps answering.
use cadena.Prelude.{
  ℕ, zero, suc, ◌+◌, ◌*◌, ◌/◌, ◌^◌, ◌≤◌, ◌≡◌, ◌∙◌, refl, min, List, [], ◌∷◌, arith, leb,
  if◌then◌else◌, ◌<◌,
}
use native.Mathlib.Nat.{pow-suc}
use cadena.Limiter.{Limiter, Feedback, success, throttle_base_delay_ms, feed, run}
use cadena.Limiter.Bounds.{IsBounded}

-- `3 * n` pages that came back fine.
abbrev pub calm : ℕ → List Feedback
calm zero = []
calm (suc n) = success ∷ success ∷ success ∷ calm n

-- The delay after one increase, and after n.
abbrev relax : ℕ → ℕ
relax d = if leb (d * 2) throttle_base_delay_ms then 0 else d / 2

abbrev relax_times : ℕ → ℕ → ℕ
relax_times zero d = d
relax_times (suc n) d = relax_times n (relax d)

abbrev raised : Limiter → Limiter
raised l = record l {
  concurrency_now = min l.max_concurrency (l.concurrency_now + 1);
  delay = relax l.delay;
}

three_successes :
    (l : Limiter) → l.streak ≡ 0 → feed (feed (feed l success) success) success ≡ raised l
unfolding feed
three_successes l h = ground arith

run-calm :
    (l : Limiter) (n : ℕ)
    → l.streak ≡ 0
    → l.concurrency_now ≤ l.max_concurrency
    → ((run l (calm n)).concurrency_now ≡ min l.max_concurrency (l.concurrency_now + n))
      × ((run l (calm n)).delay ≡ relax_times n l.delay)
unfolding run
run-calm l zero h c = (omega arith, refl)
run-calm l (suc n) h c =
    rw (run, three_successes l h)
      (let (grown, eased) = run-calm (raised l) n h (omega arith) in (omega arith, eased))

relax_times-le : (n d : ℕ) → relax_times n d ≤ d
relax_times-le zero d = omega arith
relax_times-le (suc n) d = ground (arith, relax_times-le n (relax d))

relax_times-zero : (n k d : ℕ) → n < k → d ≤ 125 * 2 ^ n → relax_times k d ≡ 0
relax_times-zero n zero d h b = elim h [ ]
relax_times-zero zero (suc k) d h b = ground (arith, relax_times-le k (relax d))
relax_times-zero (suc n) (suc k) d h b =
    relax_times-zero n k (relax d) (omega arith) (ground (arith, pow-suc 2 n))

-- From a state that a throttle has just left, any `n ≥ 10` rounds of three good pages bring the delay
-- back to zero, and raise the concurrency by `n`, up to the ceiling: recovery is complete once `n`
-- has also made up for the concurrency that was lost.
pub run-calm_recovers :
    (l : Limiter) (n : ℕ)
    → IsBounded l
    → l.streak ≡ 0
    → 10 ≤ n
    → ((run l (calm n)).delay ≡ 0)
      × ((run l (calm n)).concurrency_now ≡ min l.max_concurrency (l.concurrency_now + n))
run-calm_recovers l n b h m =
    let (grown, eased) = run-calm l n h b.capped in
    (eased ∙ relax_times-zero 9 n l.delay m (omega arith), grown)
