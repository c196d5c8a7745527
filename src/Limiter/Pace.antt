-- ===== src/Limiter/Pace.antt =====
-- The pacer's slots, and the ceiling on requests per minute that a job keeps.
use cadena.Prelude.{
  ℕ, suc, ◌+◌, ◌*◌, ◌≤◌, ◌<◌, ◌≡◌, ◌⊎◌, inl, inr, Bool-cases, max, refl, List, [], ◌∷◌, All, arith,
  ltb, leb, ◌&&◌, if◌then◌else◌, le-ceil_div-mul, ceil_div, ◌∙◌,
}
use cadena.Limiter.{
  success, throttled, Options, Limiter, Feedback, Pacer, create, feed, run, interval_ms, acquire,
  slots, throttled,
}

-- The head of a list of slots is at least `lo`, and each slot is at least `d` after the one before.
abbrev IsSpaced : ℕ → ℕ → List ℕ → Type 0
IsSpaced d lo [] = Unit
IsSpaced d lo (s ∷ ss) = (lo ≤ s) × IsSpaced d (s + d) ss

-- How many slots lie in `[from, to)`.
abbrev pub starts_between : ℕ → ℕ → List ℕ → ℕ
starts_between from to [] = 0
starts_between from to (s ∷ ss) =
    let rest = starts_between from to ss in if leb from s && ltb s to then suc rest else rest

slots-IsSpaced :
    (d : ℕ) (p : Pacer) (calls : List (ℕ × ℕ))
    → All (λ c. d ≤ c.1) calls
    → IsSpaced d p.next_slot (slots p calls)
unfolding slots
slots-IsSpaced d p [] h = tt
slots-IsSpaced d p ((now, interval) ∷ calls) (h, hs) =
    (ground arith, weaken d _ _ (slots p' calls) (omega arith) (slots-IsSpaced d p' calls hs))
  where
    p' : Pacer
    p' = (acquire now interval p).0

    weaken : (d lo lo' : ℕ) (ss : List ℕ) → lo ≤ lo' → IsSpaced d lo' ss → IsSpaced d lo ss
    weaken d lo lo' [] h s = tt
    weaken d lo lo' (s ∷ ss) h (k, r) = (omega arith, r)

starts_between-IsSpaced :
    (d lo from to : ℕ) (ss : List ℕ)
    → IsSpaced d lo ss
    → (starts_between from to ss ≡ 0) ⊎ (starts_between from to ss * d + max lo from < to + d)
starts_between-IsSpaced d lo from to [] h = inl refl
starts_between-IsSpaced d lo from to (s ∷ ss) (h, hs) =
    let rest = starts_between-IsSpaced d (s + d) from to ss hs in
    elim (Bool-cases (leb from s && ltb s to)) [
      | inl e ↦
          rw e (elim rest [ inl z ↦ inr (ground (arith, z)) | inr k ↦ inr (ground (arith, k)) ])
      | inr e ↦ rw e (elim rest [ inl z ↦ inl z | inr k ↦ inr (ground (arith, k)) ])
    ]

interval_floor :
    (l : Limiter) (fs : List Feedback) → (run l fs).floor_interval_ms ≡ l.floor_interval_ms
unfolding run feed
interval_floor l [] = refl
interval_floor l (success ∷ fs) = interval_floor (feed l success) fs ∙ ground arith
interval_floor l (throttled r ∷ fs) = interval_floor (feed l (throttled r)) fs

few_starts : (n m d : ℕ) → n * d < 60_000 + d → 60_000 ≤ d * m → n ≤ m
few_starts n m d h k = grind arith

-- A job's requests: at each, the clock reading and the feedback that the limiter has had so far.
abbrev pub paced : Options → List (ℕ × List Feedback) → List (ℕ × ℕ)
paced o [] = []
paced o ((now, fs) ∷ calls) = (now, interval_ms (run (create o) fs)) ∷ paced o calls

paced-floor :
    (o : Options) (calls : List (ℕ × List Feedback))
    → All (λ c. ceil_div 60_000 (max 1 o.max_requests_per_minute) ≤ c.1) (paced o calls)
unfolding create interval_ms
paced-floor o [] = tt
paced-floor o ((now, fs) ∷ calls) =
    (omega (arith, interval_floor (create o) fs), paced-floor o calls)

-- Whatever the clock readings and whatever the provider answers, the slots that a job's pacer hands
-- out hold at most `max(1, maxRequestsPerMinute)` starts in any 60 seconds.
pub rate_ceiling :
    (o : Options) (calls : List (ℕ × List Feedback)) (from : ℕ)
    → starts_between from (from + 60_000) (slots (record { next_slot = 0 }) (paced o calls))
      ≤ max 1 o.max_requests_per_minute
rate_ceiling o calls from =
    let d = ceil_div 60_000 (max 1 o.max_requests_per_minute) in
    let ss = slots (record { next_slot = 0 }) (paced o calls) in
    elim (starts_between-IsSpaced d 0 from (from + 60_000) ss
      (slots-IsSpaced d _ _ (paced-floor o calls))) [
        | inl z ↦ omega arith
        | inr k ↦
            few_starts (starts_between from (from + 60_000) ss) (max 1 o.max_requests_per_minute) d
              (omega arith) (le-ceil_div-mul 60_000 (max 1 o.max_requests_per_minute) (omega arith))
      ]
