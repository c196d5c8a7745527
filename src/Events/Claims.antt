-- ===== src/Events/Claims.antt =====
-- Who may handle an event: the claims on one (consumer, event), with the deliveries of all workers
-- interleaved in any order.
use Prim.Native.String.{String}
use text.Mathlib.TextEquality.{eq_iff}
use cadena.Events.Registry.{
  Consumption, ConsumptionStatus, processing, processed, failed, same_key, status_of, put, claim,
  mark_processed, mark_failed, on_module_init,
}
use cadena.Prelude.{
  ℕ, suc, ◌≡◌, ◌↔◌, refl, Bool, true, false, Bool-cases, Option, none, some, List, [], ◌∷◌, ◌&&◌,
  inl, inr, if◌then◌else◌, arith, All,
}

pub same_key_iff : (c e c' e' : String) → (same_key c e c' e' ≡ true) ↔ ((c ≡ c') × (e ≡ e'))
same_key_iff c e c' e' = ground (arith, eq_iff c c', eq_iff e e')

pub same_key_refl : (c e : String) → same_key c e c e ≡ true
same_key_refl c e = (same_key_iff c e c e).1 (refl, refl)

pub status_of-put :
    (c e : String) (s : ConsumptionStatus) (n : Option ℕ) (cs : List Consumption)
    → status_of c e (put c e s n cs) ≡ some s
unfolding status_of put
status_of-put c e s n [] = rw (same_key_refl c e) refl
status_of-put c e s n (x ∷ xs) = ground (arith, status_of-put c e s n xs)

pub status_of-put_other :
    (c e c' e' : String) (s : ConsumptionStatus) (n : Option ℕ) (cs : List Consumption)
    → same_key c e c' e' ≡ false
    → status_of c e (put c' e' s n cs) ≡ status_of c e cs
unfolding status_of put
status_of-put_other c e c' e' s n [] h = ground arith
status_of-put_other c e c' e' s n (x ∷ xs) h = ground (
  arith,
  status_of-put_other c e c' e' s n xs h,
  same_key_iff c e c' e',
  same_key_iff c' e' x.consumer x.event_id,
  same_key_iff c e x.consumer x.event_id,
)

-- One statement on the table, by whichever worker, or the one at the start of the service.
pub data Op : Type 0 where
  claims : (consumer event_id : String) → (force : Bool) → Op
  processes fails : (consumer event_id : String) → (attempts : ℕ) → Op
  starts : Op

unfoldable pub apply : Op → List Consumption → List Consumption
unfolding claim
apply (claims c e force) cs = (claim c e force cs).0
apply (processes c e n) cs = mark_processed c e n cs
apply (fails c e n) cs = mark_failed c e n cs
apply starts cs = on_module_init cs

abbrev won : (consumer event_id : String) → Op → List Consumption → Bool
won c e (claims c' e' force) cs = same_key c e c' e' && (claim c' e' force cs).1
won c e (processes c' e' n) cs = false
won c e (fails c' e' n) cs = false
won c e starts cs = false

-- The claims on one pair that succeed in a sequence of statements.
unfoldable pub wins : (consumer event_id : String) → List Op → List Consumption → ℕ
wins c e [] cs = 0
wins c e (op ∷ ops) cs =
    let rest = wins c e ops (apply op cs) in if won c e op cs then suc rest else rest

-- The statements that free a pair: the record of a failure, an operator's forced claim, and a start of
-- the service, which takes every claim without an outcome for abandoned.
abbrev pub frees : (consumer event_id : String) → Op → Bool
frees c e (claims c' e' force) = force && same_key c e c' e'
frees c e (processes c' e' n) = false
frees c e (fails c' e' n) = same_key c e c' e'
frees c e starts = true

abbrev is_held : Option ConsumptionStatus → Bool
is_held (some processing) = true
is_held (some processed) = true
is_held _ = false

same_key-status :
    (c e c' e' : String) (cs : List Consumption)
    → same_key c e c' e' ≡ true
    → status_of c' e' cs ≡ status_of c e cs
same_key-status c e c' e' cs h = let (p, q) = (same_key_iff c e c' e').0 h in rw (p, q) refl

apply-held :
    (c e : String) (op : Op) (cs : List Consumption)
    → is_held (status_of c e cs) ≡ true
    → frees c e op ≡ false
    → (is_held (status_of c e (apply op cs)) ≡ true) × (won c e op cs ≡ false)
unfolding apply claim
apply-held c e (claims c' e' force) cs h f = elim (Bool-cases (same_key c e c' e')) [
  | inl k ↦ ground (arith, same_key-status c e c' e' cs k)
  | inr k ↦ ground (arith, k, status_of-put_other c e c' e' processing none cs k)
]
apply-held c e (processes c' e' n) cs h f = elim (Bool-cases (same_key c e c' e')) [
  | inl k ↦
      let (p, q) = (same_key_iff c e c' e').0 k in
      rw (p, q) (rw (status_of-put c' e' processed (some n) cs) (refl, refl))
  | inr k ↦ (rw (status_of-put_other c e c' e' processed (some n) cs k) h, refl)
]
apply-held c e (fails c' e' n) cs h f =
    (rw (status_of-put_other c e c' e' failed (some n) cs f) h, refl)
apply-held c e starts cs h f = cc

wins-held :
    (c e : String) (ops : List Op) (cs : List Consumption)
    → is_held (status_of c e cs) ≡ true
    → All (λ op. frees c e op ≡ false) ops
    → wins c e ops cs ≡ 0
unfolding wins
wins-held c e [] cs h fs = refl
wins-held c e (op ∷ ops) cs h (f, fs) =
    let (held, lost) = apply-held c e op cs h f in
    rw (lost) (wins-held c e ops (apply op cs) held fs)

claim-held :
    (c e : String) (force : Bool) (cs : List Consumption)
    → (claim c e force cs).1 ≡ true
    → is_held (status_of c e (claim c e force cs).0) ≡ true
unfolding claim
claim-held c e force cs h = ground (arith, status_of-put c e processing none cs)

-- The statements that free a pair whose event has been processed.
abbrev pub reopens : (consumer event_id : String) → Op → Bool
reopens c e starts = false
reopens c e (claims c' e' force) = force && same_key c e c' e'
reopens c e (processes c' e' n) = false
reopens c e (fails c' e' n) = same_key c e c' e'

on_module_init-processed :
    (c e : String) (cs : List Consumption)
    → status_of c e cs ≡ some processed
    → status_of c e (on_module_init cs) ≡ some processed
unfolding status_of on_module_init
on_module_init-processed c e [] h = cc
on_module_init-processed c e (x ∷ xs) h = ground (arith, on_module_init-processed c e xs)

apply-processed :
    (c e : String) (op : Op) (cs : List Consumption)
    → status_of c e cs ≡ some processed
    → reopens c e op ≡ false
    → (status_of c e (apply op cs) ≡ some processed) × (won c e op cs ≡ false)
unfolding apply claim
apply-processed c e (claims c' e' force) cs h f = elim (Bool-cases (same_key c e c' e')) [
  | inl k ↦ ground (arith, same_key-status c e c' e' cs k)
  | inr k ↦ ground (arith, k, status_of-put_other c e c' e' processing none cs k)
]
apply-processed c e (processes c' e' n) cs h f = elim (Bool-cases (same_key c e c' e')) [
  | inl k ↦
      let (p, q) = (same_key_iff c e c' e').0 k in
      rw (p, q) (status_of-put c' e' processed (some n) cs, refl)
  | inr k ↦ (rw (status_of-put_other c e c' e' processed (some n) cs k) h, refl)
]
apply-processed c e (fails c' e' n) cs h f =
    (rw (status_of-put_other c e c' e' failed (some n) cs f) h, refl)
apply-processed c e starts cs h f = (on_module_init-processed c e cs h, refl)

wins-processed :
    (c e : String) (ops : List Op) (cs : List Consumption)
    → status_of c e cs ≡ some processed
    → All (λ op. reopens c e op ≡ false) ops
    → wins c e ops cs ≡ 0
unfolding wins
wins-processed c e [] cs h fs = refl
wins-processed c e (op ∷ ops) cs h (f, fs) =
    let (kept, lost) = apply-processed c e op cs h f in
    rw (lost) (wins-processed c e ops (apply op cs) kept fs)

-- Exactly one delivery handles an event: once a claim on a consumer and an event has succeeded, then
-- whatever statements follow, in any order, no other claim on that pair succeeds until a failure is
-- recorded for it, an operator forces a replay of it, or the service starts anew; and once the event
-- has been processed, a new start does not free it either.
pub claim-exclusive :
    (c e : String) (force : Bool) (cs processed_cs : List Consumption) (ops later : List Op)
    → (claim c e force cs).1 ≡ true
    → All (λ op. frees c e op ≡ false) ops
    → status_of c e processed_cs ≡ some processed
    → All (λ op. reopens c e op ≡ false) later
    → (wins c e ops (claim c e force cs).0 ≡ 0) × (wins c e later processed_cs ≡ 0)
claim-exclusive c e force cs processed_cs ops later h fs p rs = (
  wins-held c e ops (claim c e force cs).0 (claim-held c e force cs h) fs,
  wins-processed c e later processed_cs p rs,
)
