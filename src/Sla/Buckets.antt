-- ===== src/Sla/Buckets.antt =====
-- The bucket that an item shows against the rounded score that the aging engine compares.
use cadena.Sla.{amber, red, compute_aging_from_elapsed}
use cadena.Prelude.{ℕ, ◌*◌, ◌-◌, ◌≤◌, ◌<◌, ◌≡◌, ◌↔◌, arith, le-round_div}

-- The bucket follows the share of the threshold that is used up: red above it, amber from three
-- quarters on, green below; with no threshold it is green.
pub bucket_iff :
    (elapsed threshold : ℕ)
    → let r = compute_aging_from_elapsed elapsed threshold in
      ((r.bucket ≡ red) ↔ ((0 < threshold) × (threshold < elapsed)))
      × ((r.bucket ≡ amber)
          ↔ ((0 < threshold) × (3 * threshold ≤ 4 * elapsed) × (elapsed ≤ threshold)))
unfolding compute_aging_from_elapsed
bucket_iff elapsed threshold = ground arith

-- For a threshold of at most 20000 minutes the rounded score is above 100.00 exactly where the bucket
-- is red.
pub red_iff_score :
    (elapsed threshold : ℕ)
    → threshold ≤ 20_000
    → let r = compute_aging_from_elapsed elapsed threshold in
      (r.bucket ≡ red) ↔ (10_000 < r.score_hundredths)
unfolding compute_aging_from_elapsed
red_iff_score elapsed threshold h = ground (arith, le-round_div (elapsed * 10_000) threshold 10_001)

-- For a longer threshold an item can be red with a score of 100.00: just past the threshold, as long
-- as the excess is below one 20000th of it.
pub red_scores_100 :
    (elapsed threshold : ℕ)
    → threshold < elapsed
    → 20_000 * (elapsed - threshold) < threshold
    → let r = compute_aging_from_elapsed elapsed threshold in
      (r.bucket ≡ red) × (r.score_hundredths ≡ 10_000)
unfolding compute_aging_from_elapsed
red_scores_100 elapsed threshold h k = ground (
  arith,
  le-round_div (elapsed * 10_000) threshold 10_001,
  le-round_div (elapsed * 10_000) threshold 10_000,
)
