-- ===== src/Governor/Policy.antt =====
-- The rate policy of a connector: `validateRateGovernance`, `saferPolicy` and the merge of
-- `registerPolicy`. A jitter ratio is in millionths.
pub mod Merge
use Prim.Native.String.{String}
use cadena.Prelude.{
  ℕ, ◌+◌, ◌*◌, ◌/◌, ◌≤◌, ◌<◌, ◌≡◌, refl, min, max, Bool, true, false, Option, none, some, List, [],
  ◌∷◌, ◌||◌, ltb, leb, if◌then◌else◌, arith, All,
}

pub record RatePolicy : Type 0 where
  pub requests_per_minute : ℕ
  pub headroom_percentage : ℕ
  pub max_concurrent : ℕ
  pub base_backoff_ms : ℕ
  pub max_backoff_ms : ℕ
  pub jitter_millionths : ℕ
  pub shed_after_pressure_responses : ℕ

abbrev pub millionths : ℕ
millionths = 1_000_000

abbrev pub default_rate_governance : RatePolicy
default_rate_governance = record {
  requests_per_minute = 600;
  headroom_percentage = 90;
  max_concurrent = 4;
  base_backoff_ms = 1_000;
  max_backoff_ms = 60_000;
  jitter_millionths = 200_000;
  shed_after_pressure_responses = 2;
}

-- A configured value: a whole number, or anything else. For the jitter it is what `Number` makes of
-- the value, in millionths, or `other` where that is negative or not finite.
pub data Raw : Type 0 where
  whole : ℕ → Raw
  other : Raw

-- The configured object, each known key with its value if it is there, and the keys that are not
-- known.
pub record RawPolicy : Type 0 where
  pub requests_per_minute : Option Raw
  pub headroom_percentage : Option Raw
  pub max_concurrent : Option Raw
  pub base_backoff_ms : Option Raw
  pub max_backoff_ms : Option Raw
  pub jitter_ratio : Option Raw
  pub shed_after_pressure_responses : Option Raw
  pub unknown_keys : List String

pub data RawInput : Type 0 where
  absent not_an_object : RawInput
  object : RawPolicy → RawInput

pub data Key : Type 0 where
  requests_per_minute headroom_percentage max_concurrent base_backoff_ms : Key
  max_backoff_ms shed_after_pressure_responses : Key

-- `ConnectorConfigurationError`, by its message.
pub data ConfigError : Type 0 where
  must_be_object jitter_out_of_range max_below_base : ConfigError
  unsupported : List String → ConfigError
  out_of_range : Key → (lo hi : ℕ) → ConfigError

pub data Checked {ℓ} (A : Type ℓ) : Type ℓ where
  accepted : A → Checked A
  refused : ConfigError → Checked A

infixl 5 ◌>>=◌
abbrev pub ◌>>=◌ {ℓ κ} :
    {In : Type ℓ} {Out : Type κ} → Checked In → (In → Checked Out) → Checked Out
refused why >>= next = refused why
accepted v >>= next = next v

infixl 5 ◌>>◌
abbrev pub ◌>>◌ {ℓ κ} : {In : Type ℓ} {Out : Type κ} → Checked In → Checked Out → Checked Out
first >> second = first >>= λ _. second

-- Where two steps accept, the first did, with a value that the second accepts.
pub accepted-steps {ℓ κ} :
    {In : Type ℓ} {Out : Type κ} (first : Checked In) (next : In → Checked Out) {out : Out}
    → (first >>= next) ≡ accepted out
    → (v : In) × (first ≡ accepted v) × (next v ≡ accepted out)
accepted-steps (refused why) next e = cc
accepted-steps (accepted v) next e = (v, refl, e)

-- The local function `integer`.
abbrev integer : Key → Option Raw → (fallback lo hi : ℕ) → Checked ℕ
integer key none fallback lo hi = accepted fallback
integer key (some other) fallback lo hi = refused (out_of_range key lo hi)
integer key (some (whole n)) fallback lo hi =
    if ltb n lo || ltb hi n then refused (out_of_range key lo hi) else accepted n

abbrev jitter : Option Raw → Checked ℕ
jitter none = accepted default_rate_governance.jitter_millionths
jitter (some other) = refused jitter_out_of_range
jitter (some (whole n)) = if ltb millionths n then refused jitter_out_of_range else accepted n

abbrev all_known : List String → Checked (Unit {0})
all_known [] = accepted tt
all_known (k ∷ ks) = refused (unsupported (k ∷ ks))

abbrev at_least_base : RatePolicy → Checked RatePolicy
at_least_base p =
    if ltb p.max_backoff_ms p.base_backoff_ms then refused max_below_base else accepted p

validate_object : RawPolicy → Checked RatePolicy
validate_object v = do
  all_known v.unknown_keys
  j ← jitter v.jitter_ratio
  rpm ← integer requests_per_minute v.requests_per_minute 600 1 60_000
  headroom ← integer headroom_percentage v.headroom_percentage 90 1 100
  concurrent ← integer max_concurrent v.max_concurrent 4 1 100
  base ← integer base_backoff_ms v.base_backoff_ms 1_000 1 60_000
  most ← integer max_backoff_ms v.max_backoff_ms 60_000 1 3_600_000
  shed ← integer shed_after_pressure_responses v.shed_after_pressure_responses 2 1 20
  at_least_base (record {
    requests_per_minute = rpm;
    headroom_percentage = headroom;
    max_concurrent = concurrent;
    base_backoff_ms = base;
    max_backoff_ms = most;
    jitter_millionths = j;
    shed_after_pressure_responses = shed;
  })

unfoldable pub validate_rate_governance : RawInput → Checked RatePolicy
unfolding validate_object
validate_rate_governance absent = accepted default_rate_governance
validate_rate_governance not_an_object = refused must_be_object
validate_rate_governance (object v) = validate_object v

unfoldable pub safer_policy : RatePolicy → RatePolicy → RatePolicy
safer_policy current candidate = record {
  requests_per_minute = min current.requests_per_minute candidate.requests_per_minute;
  headroom_percentage = min current.headroom_percentage candidate.headroom_percentage;
  max_concurrent = min current.max_concurrent candidate.max_concurrent;
  base_backoff_ms = max current.base_backoff_ms candidate.base_backoff_ms;
  max_backoff_ms = max current.max_backoff_ms candidate.max_backoff_ms;
  jitter_millionths = min current.jitter_millionths candidate.jitter_millionths;
  shed_after_pressure_responses =
      min current.shed_after_pressure_responses candidate.shed_after_pressure_responses;
}

-- The `reduce` of `registerPolicy` over the policies of the connectors that share the target.
unfoldable pub merge_policies : RatePolicy → List RatePolicy → RatePolicy
merge_policies current [] = current
merge_policies current (p ∷ ps) = merge_policies (safer_policy current p) ps

-- `effectiveLimit`.
unfoldable pub effective_limit : (requests_per_minute headroom_percentage : ℕ) → ℕ
effective_limit rpm headroom = max 1 (rpm * headroom / 100)
