-- ===== src/Flow/Risk/Shares.antt =====
-- modules/flow/flow-risk.ts: the percentile and the probability are shares, and grow with the wait.
use cadena.Prelude.{
  ℕ, suc, ◌+◌, ◌*◌, ◌≤◌, ◌<◌, ◌≡◌, refl, false, Option, none, some, List, [], ◌∷◌, ltb, ◌==◌,
  if◌then◌else◌, length, round_div, arith, le-round_div, round_div-lt, le-round_div, ◌⊎◌, inl, zero,
  inr, sym, ◌∙◌,
}
use cadena.Flow.Risk.{
  RiskInput, Score, assess_risk, scored, count_where, percentile_of, probability_of, round4_halves,
}

round_div_mono : (a b d : ℕ) → 0 < d → a ≤ b → round_div a d ≤ round_div b d
round_div_mono a b d h k =
    (le-round_div b d (round_div a d) h).1
      (omega (arith, (le-round_div a d (round_div a d) h).0 (omega arith)))

round_div-le : (a d k : ℕ) → 0 < d → a ≤ k * d → round_div a d ≤ k
round_div-le a d k h l =
    let below = (round_div-lt a d (suc k) h).1 (grind arith) in omega (arith, below)

-- Per sample, in halves: what the percentile counts is at most 2, and grows with the wait.
rank-le :
    (samples : List ℕ) (c : ℕ)
    → 2 * count_where (λ d. ltb d c) samples + count_where (λ d. d == c) samples
      ≤ 2 * length samples
unfolding count_where
rank-le [] c = omega arith
rank-le (d ∷ ds) c = ground (arith, rank-le ds c)

rank_mono :
    (samples : List ℕ) (c e : ℕ)
    → c ≤ e
    → 2 * count_where (λ d. ltb d c) samples + count_where (λ d. d == c) samples
      ≤ 2 * count_where (λ d. ltb d e) samples + count_where (λ d. d == e) samples
unfolding count_where
rank_mono [] c e h = omega arith
rank_mono (d ∷ ds) c e h = ground (arith, rank_mono ds c e h)

over-le :
    (samples : List ℕ) (c t : ℕ)
    → count_where (λ d. if ltb c d then ltb t d else false) samples
      ≤ count_where (λ d. ltb c d) samples
unfolding count_where
over-le [] c t = omega arith
over-le (d ∷ ds) c t = ground (arith, over-le ds c t)

over_same :
    (samples : List ℕ) (c e t : ℕ)
    → c ≤ t
    → e ≤ t
    → count_where (λ d. if ltb c d then ltb t d else false) samples
      ≡ count_where (λ d. if ltb e d then ltb t d else false) samples
unfolding count_where
over_same [] c e t h k = refl
over_same (d ∷ ds) c e t h k = ground (arith, over_same ds c e t h k)

still_antitone :
    (samples : List ℕ) (c e : ℕ)
    → c ≤ e
    → count_where (λ d. ltb e d) samples ≤ count_where (λ d. ltb c d) samples
unfolding count_where
still_antitone [] c e h = omega arith
still_antitone (d ∷ ds) c e h = ground (arith, still_antitone ds c e h)

percentile_of_mono :
    (samples : List ℕ) (c e : ℕ)
    → 0 < length samples
    → c ≤ e
    → percentile_of samples c ≤ percentile_of samples e
unfolding percentile_of
percentile_of_mono samples c e n h =
    round_div_mono _ _ (2 * length samples) (omega arith) (omega (arith, rank_mono samples c e h))

percentile_of-le :
    (samples : List ℕ) (c : ℕ) → 0 < length samples → percentile_of samples c ≤ 10_000
unfolding percentile_of
percentile_of-le samples c n =
    round_div-le _ (2 * length samples) 10_000 (omega arith) (omega (arith, rank-le samples c))

share-le : (part whole : ℕ) → 0 < whole → part ≤ whole → round4_halves (2 * part) whole ≤ 10_000
share-le part whole n h = round_div-le _ (2 * whole) 10_000 (omega arith) (omega arith)

mul_mono : (q less more : ℕ) → less ≤ more → q * less ≤ q * more
mul_mono q less more h = grind arith

antitone_step :
    (q a less more : ℕ)
    → less ≤ more
    → q * (2 * (2 * more)) ≤ 2 * a + 2 * more
    → q * (2 * (2 * less)) ≤ 2 * a + 2 * less
antitone_step zero a less more h k = omega arith
antitone_step (suc q) a less more h k = omega (arith, k, mul_mono q less more h)

-- A share of a smaller whole is larger.
share_antitone :
    (part less more : ℕ)
    → 0 < less
    → less ≤ more
    → round4_halves (2 * part) more ≤ round4_halves (2 * part) less
share_antitone part less more n h =
    let a = 10_000 * (2 * part) in
    let q = round_div a (2 * more) in
    let upper = (le-round_div a (2 * more) q (omega (arith, n, h))).0 (omega arith) in
    (le-round_div a (2 * less) q (omega (arith, n))).1 (antitone_step q a less more h upper)

probability_of-scored :
    (samples : List ℕ) (c t p : ℕ)
    → (probability_of samples c (some t)).0 ≡ some p
    → ((t ≤ c) × (p ≡ 10_000))
      ⊎ ((c < t)
          × (0 < count_where (λ d. ltb c d) samples)
          × (p
              ≡ round4_halves
                  (2 * count_where (λ d. if ltb c d then ltb t d else false) samples)
                  (count_where (λ d. ltb c d) samples)))
unfolding probability_of
probability_of-scored samples c t p e = ground arith

probability-le :
    (samples : List ℕ) (c t p : ℕ) → (probability_of samples c (some t)).0 ≡ some p → p ≤ 10_000
probability-le samples c t p e = elim (probability_of-scored samples c t p e) [
  | inl (_, q) ↦ omega (arith, q)
  | inr (_, n, q) ↦ rw q (share-le _ _ n (over-le samples c t))
]

probability_mono :
    (samples : List ℕ) (c e t p q : ℕ)
    → c ≤ e
    → (probability_of samples c (some t)).0 ≡ some p
    → (probability_of samples e (some t)).0 ≡ some q
    → p ≤ q
probability_mono samples c e t p q h f g = elim (probability_of-scored samples e t q g) [
  | inl (_, k) ↦ rw k (probability-le samples c t p f)
  | inr (l, n, k) ↦ elim (probability_of-scored samples c t p f) [
    | inl (m, _) ↦ omega (arith, m, l, h)
    | inr (m, _, j) ↦
        rw (j, k, over_same samples c e t (omega (arith, m)) (omega (arith, l)))
          (share_antitone _ _ _ n (still_antitone samples c e h))
  ]
]

score_of :
    (i : RiskInput) (x : Score)
    → assess_risk i ≡ scored x
    → (x.percentile ≡ percentile_of i.samples i.current_minutes)
      × (x.probability_exceed_target
          ≡ (probability_of i.samples i.current_minutes i.target_minutes).0)
unfolding assess_risk
score_of i x e = ground arith

target_of :
    (samples : List ℕ) (c : ℕ) (target : Option ℕ) (p : ℕ)
    → (probability_of samples c target).0 ≡ some p
    → (t : ℕ) × (target ≡ some t)
unfolding probability_of
target_of samples c none p e = cc
target_of samples c (some t) p e = (t, refl)

probability_at :
    (samples : List ℕ) (c : ℕ) (target : Option ℕ) (t p : ℕ)
    → target ≡ some t
    → (probability_of samples c target).0 ≡ some p
    → (probability_of samples c (some t)).0 ≡ some p
probability_at samples c target t p e h = rw (← e) h

-- A longer wait never looks safer: for the same visits and target, the percentile of the longer of two
-- waits is no lower, nor is its probability of running past the target, where both have one; and
-- both are shares of at most one. There is at least one visit.
pub assess_risk_mono :
    (i : RiskInput) (longer : ℕ) (x y : Score) (p q : ℕ)
    → 0 < length i.samples
    → i.current_minutes ≤ longer
    → assess_risk i ≡ scored x
    → assess_risk (record i { current_minutes = longer }) ≡ scored y
    → x.probability_exceed_target ≡ some p
    → y.probability_exceed_target ≡ some q
    → (x.percentile ≤ y.percentile) × (p ≤ q) × (y.percentile ≤ 10_000) × (q ≤ 10_000)
assess_risk_mono i longer x y p q n h d e f g =
    let (rank_x, share_x) = score_of i x d in
    let (rank_y, share_y) = score_of (record i { current_minutes = longer }) y e in
    let (t, target) = target_of i.samples i.current_minutes i.target_minutes p (sym share_x ∙ f) in
    let share_p =
      probability_at i.samples i.current_minutes i.target_minutes t p target (sym share_x ∙ f) in
    let share_q = probability_at i.samples longer i.target_minutes t q target (sym share_y ∙ g) in
    (
      omega (arith, rank_x, rank_y, percentile_of_mono i.samples i.current_minutes longer n h),
      probability_mono i.samples i.current_minutes longer t p q h share_p share_q,
      omega (arith, rank_y, percentile_of-le i.samples longer n),
      probability-le i.samples longer t q share_q,
    )
