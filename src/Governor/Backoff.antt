-- ===== src/Governor/Backoff.antt =====
-- How long a caller is told to stay away after a failure.
use cadena.Governor.Policy.{RatePolicy, millionths}
use cadena.Governor.Policy.Merge.{IsValidPolicy}
use cadena.Governor.Failure.{
  Failure, remote, unexpected, jittered, delay_ms, retry_after, random_scale, is_retryable,
}
use native.Mathlib.Nat.{mul-pos, mul-le-mul_left, le_of_mul-le-mul_left, mul-le-mul_right}
use cadena.Prelude.{
  ℕ, suc, ◌+◌, ◌-◌, ◌*◌, ◌^◌, ◌≤◌, ◌<◌, ◌≡◌, refl, max, min, none, some, true, false, arith,
  round_div, le-round_div, round_div-lt, ◌⊎◌, inl, Bool-cases, inr, Option-cases, or_else,
}

-- The delay before its jitter.
abbrev pub exponential : RatePolicy → (failures : ℕ) → ℕ
exponential p failures = min p.max_backoff_ms (p.base_backoff_ms * 2 ^ (failures - 1))

-- Rounding a product whose factor is `f / (s * m)`, where `f` deviates from `s * m` by at most `s * j`.
round-band :
    (s m e f j : ℕ)
    → 0 < s
    → 0 < m
    → s * m ≤ f + s * j
    → f ≤ s * m + s * j
    → (2 * m * e ≤ 2 * m * round_div (e * f) (s * m) + 2 * e * j + m)
      × (2 * m * round_div (e * f) (s * m) ≤ 2 * m * e + 2 * e * j + m)
round-band s m e f j a b h k =
    let d = round_div (e * f) (s * m) in
    let pos : 0 < s * m = mul-pos a b in
    let below : d * (2 * (s * m)) ≤ 2 * (e * f) + s * m =
      (le-round_div (e * f) (s * m) d pos).0 (omega arith) in
    let above : 2 * (e * f) + s * m < suc d * (2 * (s * m)) =
      (round_div-lt (e * f) (s * m) (suc d) pos).0 (omega arith) in
    let low : e * (s * m) ≤ e * (f + s * j) = mul-le-mul_left e h in
    let high : e * f ≤ e * (s * m + s * j) = mul-le-mul_left e k in
    let first : s * (2 * m * e) ≤ s * (2 * m * d + 2 * e * j + m) = omega (arith, above, low) in
    let second : s * (2 * m * d) ≤ s * (2 * m * e + 2 * e * j + m) = omega (arith, below, high) in
    (le_of_mul-le-mul_left first a, le_of_mul-le-mul_left second a)

jitter_factor :
    (r j : ℕ)
    → r ≤ random_scale
    → j ≤ millionths
    → let one = random_scale * millionths in
      let f = one + 2 * r * j - random_scale * j in
      (one ≤ f + random_scale * j) × (f ≤ one + random_scale * j)
jitter_factor r j h k =
    let small : random_scale * j ≤ random_scale * millionths = mul-le-mul_left random_scale k in
    let spread : r * j ≤ random_scale * j = mul-le-mul_right j h in
    (omega arith, omega (arith, spread, small))

clamp-cases :
    (most x : ℕ)
    → 1 ≤ most
    → (1 ≤ max 1 (min most x))
      × (max 1 (min most x) ≤ most)
      × ((max 1 (min most x) ≡ most) ⊎ (x ≤ max 1 (min most x)))
      × ((max 1 (min most x) ≡ 1) ⊎ (max 1 (min most x) ≤ x))
clamp-cases most x h = ground arith

-- The delay of a retryable failure without a Retry-After is at least a millisecond, at most the
-- policy's longest, and within the jitter of the exponential delay: twice a million times their
-- difference is at most twice the exponential delay times the jitter in millionths, and one half
-- millisecond for rounding, unless the longest delay or the one millisecond cuts it off.
pub jittered-IsBounded :
    (p : RatePolicy) (failures random : ℕ)
    → IsValidPolicy p
    → random ≤ random_scale
    → let d = jittered p failures random in
      let e = exponential p failures in
      (1 ≤ d)
      × (d ≤ p.max_backoff_ms)
      × ((d ≡ p.max_backoff_ms)
          ⊎ (2 * millionths * e ≤ 2 * millionths * d + 2 * e * p.jitter_millionths + millionths))
      × ((d ≡ 1)
          ⊎ (2 * millionths * d ≤ 2 * millionths * e + 2 * e * p.jitter_millionths + millionths))
unfolding jittered
jittered-IsBounded p failures random v h =
    let (lo, hi) = jitter_factor random p.jitter_millionths h v.jitter in
    let band =
      round-band random_scale millionths (exponential p failures) _ p.jitter_millionths
        (omega arith) (omega arith) lo hi in
    let (least, most, low, high) = clamp-cases p.max_backoff_ms _ (omega (arith, v.base, v.most)) in
    (
      least,
      most,
      elim low [ inl e ↦ inl e | inr e ↦ inr (omega (arith, band.0, e)) ],
      elim high [ inl e ↦ inl e | inr e ↦ inr (omega (arith, band.1, e)) ],
    )

retry_after-pos : (f : Failure) (ms : ℕ) → retry_after f ≡ some ms → 1 ≤ ms
retry_after-pos unexpected ms h = ground arith
retry_after-pos (remote e) ms h = ground arith

delay_ms-retryable :
    (p : RatePolicy) (failures random : ℕ) (f : Failure)
    → is_retryable f ≡ true
    → delay_ms p failures random f ≡ or_else (retry_after f) (jittered p failures random)
unfolding delay_ms
delay_ms-retryable p failures random f h = rw (delay_ms, h) refl

-- A retryable failure is never followed by a retry at once: the wait is the target's Retry-After to
-- the millisecond where it gave one, and the jittered delay of at least a millisecond otherwise; any
-- other failure sets no wait.
pub delay_ms-cases :
    (p : RatePolicy) (failures random : ℕ) (f : Failure)
    → IsValidPolicy p
    → random ≤ random_scale
    → ((is_retryable f ≡ false) × (delay_ms p failures random f ≡ 0))
      ⊎ ((is_retryable f ≡ true)
          × (1 ≤ delay_ms p failures random f)
          × ((ms : ℕ) → retry_after f ≡ some ms → delay_ms p failures random f ≡ ms)
          × (retry_after f ≡ none → delay_ms p failures random f ≤ p.max_backoff_ms))
unfolding delay_ms
delay_ms-cases p failures random f v h =
    let (least, most, _, _) = jittered-IsBounded p failures random v h in
    let positive : (ms : ℕ) → retry_after f ≡ some ms → 1 ≤ ms = λ ms e. retry_after-pos f ms e in
    let chosen = delay_ms-retryable p failures random f in
    elim (Bool-cases (is_retryable f)) [
      | inr e ↦ inl (e, rw (delay_ms, e) refl)
      | inl e ↦ elim (Option-cases (retry_after f)) [
        | inl e2 ↦ inr (
          e,
          rw (chosen e, e2) least,
          λ ms e3. ground (arith, e2, e3),
          λ _. rw (chosen e, e2) most,
        )
        | inr (ms, e2) ↦ inr (
          e,
          rw (chosen e, e2) (positive ms e2),
          λ ms' e3. rw (chosen e, e3) refl,
          λ e3. ground (arith, e2, e3),
        )
      ]
    ]
