-- ===== src/Governor/Policy/Merge.antt =====
-- Which configurations are accepted, and what the merge of several policies is.
use cadena.Governor.Policy.{
  Key, Raw, whole, other, integer, jitter, all_known, absent, not_an_object, object,
  default_rate_governance, accepted-steps, requests_per_minute, headroom_percentage, max_concurrent,
  base_backoff_ms, max_backoff_ms, shed_after_pressure_responses, RatePolicy, RawInput, accepted,
  millionths, validate_rate_governance, safer_policy, merge_policies,
}
use cadena.Prelude.{Option, none, some, ℕ, ◌≤◌, ◌≡◌, List, [], ◌∷◌, arith, All}

-- The ranges that the validation promises.
pub record IsValidPolicy (p : RatePolicy) : Type 0 where
  pub rate : (1 ≤ p.requests_per_minute) × (p.requests_per_minute ≤ 60_000)
  pub headroom : (1 ≤ p.headroom_percentage) × (p.headroom_percentage ≤ 100)
  pub concurrency : (1 ≤ p.max_concurrent) × (p.max_concurrent ≤ 100)
  pub base : (1 ≤ p.base_backoff_ms) × (p.base_backoff_ms ≤ 60_000)
  pub most : (p.base_backoff_ms ≤ p.max_backoff_ms) × (p.max_backoff_ms ≤ 3_600_000)
  pub jitter : p.jitter_millionths ≤ millionths
  pub shed_after : (1 ≤ p.shed_after_pressure_responses) × (p.shed_after_pressure_responses ≤ 20)

integer-in_range :
    (key : Key) (raw : Option Raw) (fallback lo hi n : ℕ)
    → lo ≤ fallback
    → fallback ≤ hi
    → integer key raw fallback lo hi ≡ accepted n
    → (lo ≤ n) × (n ≤ hi)
integer-in_range key none fallback lo hi n h k e = ground arith
integer-in_range key (some other) fallback lo hi n h k e = cc
integer-in_range key (some (whole m)) fallback lo hi n h k e = ground arith

jitter-in_range : (raw : Option Raw) (n : ℕ) → jitter raw ≡ accepted n → n ≤ millionths
jitter-in_range none n e = ground arith
jitter-in_range (some other) n e = cc
jitter-in_range (some (whole m)) n e = ground arith

-- Whatever the configuration holds, a policy that the validation returns lies in all its ranges, the
-- longest backoff being at least the shortest.
pub validate_rate_governance-IsValidPolicy :
    (input : RawInput) (p : RatePolicy)
    → validate_rate_governance input ≡ accepted p
    → IsValidPolicy p
unfolding validate_rate_governance
validate_rate_governance-IsValidPolicy absent p h =
    let e : default_rate_governance ≡ p = cc in rw (← e) (omega arith)
validate_rate_governance-IsValidPolicy not_an_object p h = cc
validate_rate_governance-IsValidPolicy (object v) p h =
    let (_, _, h1) = accepted-steps (all_known v.unknown_keys) _ h in
    let (j, hj, h2) = accepted-steps (jitter v.jitter_ratio) _ h1 in
    let (a, ha, h3) =
      accepted-steps (integer requests_per_minute v.requests_per_minute 600 1 60_000) _ h2 in
    let (b, hb, h4) =
      accepted-steps (integer headroom_percentage v.headroom_percentage 90 1 100) _ h3 in
    let (c, hc, h5) = accepted-steps (integer max_concurrent v.max_concurrent 4 1 100) _ h4 in
    let (d, hd, h6) =
      accepted-steps (integer base_backoff_ms v.base_backoff_ms 1_000 1 60_000) _ h5 in
    let (e, he, h7) =
      accepted-steps (integer max_backoff_ms v.max_backoff_ms 60_000 1 3_600_000) _ h6 in
    let (f, hf, h8) =
      accepted-steps (integer shed_after_pressure_responses v.shed_after_pressure_responses 2 1 20)
        _ h7 in
    ground (
      arith,
      h8,
      jitter-in_range v.jitter_ratio j hj,
      integer-in_range _ v.requests_per_minute 600 1 60_000 a (omega arith) (omega arith) ha,
      integer-in_range _ v.headroom_percentage 90 1 100 b (omega arith) (omega arith) hb,
      integer-in_range _ v.max_concurrent 4 1 100 c (omega arith) (omega arith) hc,
      integer-in_range _ v.base_backoff_ms 1_000 1 60_000 d (omega arith) (omega arith) hd,
      integer-in_range _ v.max_backoff_ms 60_000 1 3_600_000 e (omega arith) (omega arith) he,
      integer-in_range _ v.shed_after_pressure_responses 2 1 20 f (omega arith) (omega arith) hf,
    )

safer_policy-IsValidPolicy :
    (p q : RatePolicy) → IsValidPolicy p → IsValidPolicy q → IsValidPolicy (safer_policy p q)
unfolding safer_policy
safer_policy-IsValidPolicy p q a b = omega arith

-- `p` asks no more of the target than `q` in any respect.
pub record IsSafer (p q : RatePolicy) : Type 0 where
  pub rate : p.requests_per_minute ≤ q.requests_per_minute
  pub headroom : p.headroom_percentage ≤ q.headroom_percentage
  pub concurrency : p.max_concurrent ≤ q.max_concurrent
  pub base : q.base_backoff_ms ≤ p.base_backoff_ms
  pub most : q.max_backoff_ms ≤ p.max_backoff_ms
  pub jitter : p.jitter_millionths ≤ q.jitter_millionths
  pub shed_after : p.shed_after_pressure_responses ≤ q.shed_after_pressure_responses

IsSafer-refl : (p : RatePolicy) → IsSafer p p
IsSafer-refl p = omega arith

IsSafer-trans : (p q r : RatePolicy) → IsSafer p q → IsSafer q r → IsSafer p r
IsSafer-trans p q r a b = omega arith

safer_policy-IsSafer :
    (p q : RatePolicy) → IsSafer (safer_policy p q) p × IsSafer (safer_policy p q) q
unfolding safer_policy
safer_policy-IsSafer p q = (omega arith, omega arith)

IsSafer-safer_policy :
    (r p q : RatePolicy) → IsSafer r p → IsSafer r q → IsSafer r (safer_policy p q)
unfolding safer_policy
IsSafer-safer_policy r p q a b = omega arith

merge_policies-below :
    (p : RatePolicy) (qs : List RatePolicy)
    → IsSafer (merge_policies p qs) p × All (λ q. IsSafer (merge_policies p qs) q) qs
unfolding merge_policies
merge_policies-below p [] = (IsSafer-refl p, tt)
merge_policies-below p (q ∷ qs) =
    let (first, rest) = merge_policies-below (safer_policy p q) qs in
    let (left, right) = safer_policy-IsSafer p q in
    (
      IsSafer-trans _ (safer_policy p q) p first left,
      (IsSafer-trans _ (safer_policy p q) q first right, rest),
    )

merge_policies-greatest :
    (r p : RatePolicy) (qs : List RatePolicy)
    → IsSafer r p
    → All (λ q. IsSafer r q) qs
    → IsSafer r (merge_policies p qs)
unfolding merge_policies
merge_policies-greatest r p [] h hs = h
merge_policies-greatest r p (q ∷ qs) h (k, ks) =
    merge_policies-greatest r (safer_policy p q) qs (IsSafer-safer_policy r p q h k) ks

-- The merge is at least as safe as every policy that goes into it, and any policy that is at least as
-- safe as all of them is at least as safe as the merge.
pub merge_policies-IsSafer :
    (r p : RatePolicy) (qs : List RatePolicy)
    → IsSafer r p
    → All (λ q. IsSafer r q) qs
    → IsSafer (merge_policies p qs) p
      × All (λ q. IsSafer (merge_policies p qs) q) qs
      × IsSafer r (merge_policies p qs)
merge_policies-IsSafer r p qs h hs =
    let (first, rest) = merge_policies-below p qs in
    (first, rest, merge_policies-greatest r p qs h hs)

-- The merge of valid policies is valid.
pub merge_policies-IsValidPolicy :
    (p : RatePolicy) (qs : List RatePolicy)
    → IsValidPolicy p
    → All IsValidPolicy qs
    → IsValidPolicy (merge_policies p qs)
unfolding merge_policies
merge_policies-IsValidPolicy p [] h hs = h
merge_policies-IsValidPolicy p (q ∷ qs) h (k, ks) =
    merge_policies-IsValidPolicy (safer_policy p q) qs (safer_policy-IsValidPolicy p q h k) ks
