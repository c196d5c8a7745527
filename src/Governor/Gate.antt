-- ===== src/Governor/Gate.antt =====
-- `acquireConcurrency`: the gate of one target inside a process. A waiter whose promise `release`
-- resolved goes on in a later microtask: `woken` counts those, and `resume` is that continuation.
use cadena.Prelude.{
  ℕ, zero, suc, ◌+◌, ◌-◌, ◌≤◌, ◌<◌, ◌≡◌, refl, min, ltb, leb, ◌&&◌, if◌then◌else◌, arith, ◌⊎◌, inl,
}

pub record Gate : Type 0 where
  pub in_flight : ℕ
  pub queued : ℕ
  pub limit : ℕ
  pub waiters : ℕ
  pub woken : ℕ

-- `this.gates.get(key) || {...}`
abbrev pub new_gate : (limit : ℕ) → Gate
new_gate limit = record { in_flight = 0; queued = 0; limit = limit; waiters = 0; woken = 0 }

-- Up to the first suspension.
unfoldable pub arrive : (limit : ℕ) → Gate → Gate
arrive limit g =
    let most = min g.limit limit in
    if leb most g.in_flight
    then record g { limit = most; queued = suc g.queued; waiters = suc g.waiters }
    else record g { limit = most; in_flight = suc g.in_flight }

-- The rest of the call of one woken waiter.
unfoldable pub resume : Gate → Gate
resume g = record g { woken = g.woken - 1; queued = g.queued - 1; in_flight = suc g.in_flight }

-- The returned function.
unfoldable pub release : Gate → Gate
release g =
    let left = g.in_flight - 1 in
    if ltb left g.limit && ltb 0 g.waiters
    then record g { in_flight = left; waiters = g.waiters - 1; woken = suc g.woken }
    else record g { in_flight = left }

-- What the process can do next, and more: microtasks run in the order in which they were queued, while
-- here a woken waiter may go on at any later time.
pub data Step : Gate → Gate → Type 0 where
  arrives : {g : Gate} → (limit : ℕ) → Step g (arrive limit g)
  resumes : {g : Gate} → 0 < g.woken → Step g (resume g)
  releases : {g : Gate} → 0 < g.in_flight → Step g (release g)

pub data Reachable (start : Gate) : Gate → Type 0 where
  here : Reachable start start
  next : {g h : Gate} → Reachable start g → Step g h → Reachable start h

-- The count of waiting calls is right, and nobody waits unless the limit is used up by calls that are
-- in flight or about to go on.
pub record IsTended (g : Gate) : Type 0 where
  pub counted : g.queued ≡ g.waiters + g.woken
  pub busy : (g.waiters ≡ 0) ⊎ (g.limit ≤ g.in_flight + g.woken)

Step-IsTended : {g h : Gate} → Step g h → IsTended g → IsTended h
unfolding arrive resume release
Step-IsTended {g} (arrives limit) t = ground (arith, t.counted, t.busy)
Step-IsTended {g} (resumes w) t = ground (arith, t.counted, t.busy)
Step-IsTended {g} (releases f) t = ground (arith, t.counted, t.busy)

-- No wake-up is lost: in every state that a gate can reach, whatever the order of arrivals, releases
-- and continuations, the queue counter is right, and a call waits only while as many calls as the
-- limit allows are in flight or about to go on.
pub Reachable-IsTended : (limit : ℕ) (g : Gate) → Reachable (new_gate limit) g → IsTended g
Reachable-IsTended limit g here = record { counted = omega arith; busy = inl refl }
Reachable-IsTended limit g (next r s) = Step-IsTended s (Reachable-IsTended limit _ r)

-- One arrival, or one call that leaves with the waiter that it woke going on at once.
pub data Prompt (limit : ℕ) : Gate → Gate → Type 0 where
  arrives : {g : Gate} → Prompt limit g (arrive limit g)
  hands_over :
      {g : Gate}
      → 0 < g.in_flight
      → Prompt limit g (if leb 1 (release g).woken then resume (release g) else release g)

pub data PromptlyReachable (limit : ℕ) : Gate → Type 0 where
  here : PromptlyReachable limit (new_gate limit)
  next : {g h : Gate} → PromptlyReachable limit g → Prompt limit g h → PromptlyReachable limit h

pub record IsCapped (limit : ℕ) (g : Gate) : Type 0 where
  pub kept : g.limit ≡ limit
  pub settled : g.woken ≡ 0
  pub capped : g.in_flight ≤ limit

Prompt-IsCapped : (limit : ℕ) {g h : Gate} → Prompt limit g h → IsCapped limit g → IsCapped limit h
unfolding arrive resume release
Prompt-IsCapped limit {g} arrives c = ground (arith, c.kept, c.settled, c.capped)
Prompt-IsCapped limit {g} (hands_over f) c = ground (arith, c.kept, c.settled, c.capped)

-- If every woken waiter goes on before the next call arrives, no more calls are in flight than the
-- limit allows.
pub PromptlyReachable-IsCapped :
    (limit : ℕ) (g : Gate) → PromptlyReachable limit g → IsCapped limit g
PromptlyReachable-IsCapped limit g here = record {
  kept = refl;
  settled = refl;
  capped = omega arith;
}
PromptlyReachable-IsCapped limit g (next r s) =
    Prompt-IsCapped limit s (PromptlyReachable-IsCapped limit _ r)

-- A gate with `i` calls in flight, and `n` woken waiters that have not gone on yet.
abbrev state : (limit i n : ℕ) → Gate
state limit i n = record { in_flight = i; queued = n; limit = limit; waiters = 0; woken = n }

arrive-free : (limit i : ℕ) → i < limit → arrive limit (state limit i 0) ≡ state limit (suc i) 0
unfolding arrive
arrive-free limit i h = ground arith

round-woken :
    (limit n : ℕ)
    → 0 < limit
    → arrive limit (release (arrive limit (state limit limit n))) ≡ state limit limit (suc n)
unfolding arrive release
round-woken limit n h = ground arith

arrive-in_flight : (limit n : ℕ) → (arrive limit (state limit limit n)).in_flight ≡ limit
unfolding arrive
arrive-in_flight limit n = ground arith

resume-woken : (limit i n : ℕ) → resume (state limit i (suc n)) ≡ state limit (suc i) n
unfolding resume
resume-woken limit i n = ground arith

fill : (limit i : ℕ) → i ≤ limit → Reachable (new_gate limit) (state limit i 0)
fill limit zero h = here
fill limit (suc i) h =
    rw (← arrive-free limit i h) (next (fill limit i (omega arith)) (arrives limit))

burst : (limit n : ℕ) → 0 < limit → Reachable (new_gate limit) (state limit limit n)
burst limit zero h = fill limit limit (omega arith)
burst limit (suc n) h = rw (← round-woken limit n h) (
    next
      (next (next (burst limit n h) (arrives limit)) (releases (rw (arrive-in_flight limit n) h)))
      (arrives limit))

drain :
    (limit i n total : ℕ)
    → i + n ≡ total
    → Reachable (new_gate limit) (state limit i n)
    → Reachable (new_gate limit) (state limit total 0)
drain limit i zero total e r = let e' : i ≡ total = omega arith in rw (← e') r
drain limit i (suc n) total e r =
    drain limit (suc i) n total (omega arith)
      (rw (← resume-woken limit i n) (next r (resumes (omega arith))))

-- But a call that arrives after a release and before the woken waiter goes on takes the free slot as
-- well: for every limit above zero some run of the gate has one call more than the limit in flight.
pub overshoot :
    (limit : ℕ)
    → 0 < limit
    → (g : Gate) × Reachable (new_gate limit) g × (g.limit ≡ limit) × (g.in_flight ≡ limit + 1)
overshoot limit h =
    (state limit (limit + 1) 0, drain limit limit 1 _ refl (burst limit 1 h), refl, refl)
