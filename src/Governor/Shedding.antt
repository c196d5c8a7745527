-- ===== src/Governor/Shedding.antt =====
-- When load shedding begins and ends, and what it refuses meanwhile.
use Prim.Native.String.{String}
use cadena.Governor.Row.{
  Row, Target, normal, shedding, probing, shedding_state, probe_held, probe_lease_ms, shed, granted,
  quota, admit, record_success, owns_probe,
}
use cadena.Governor.Failure.{Failure, record_failure, delay_ms, under_pressure}
use cadena.Governor.Execute.{Reading, acquire_quota, Outcome, load_shed, execute}
use cadena.Prelude.{
  ℕ, suc, ◌+◌, ◌≤◌, ◌<◌, ◌≡◌, refl, min, Option, none, some, List, ◌∷◌, true, or_else, arith,
  is_some, ◌↔◌, ◌↔◌, ◌⊎◌,
}

-- Calls are refused: the shedding window is open, or a probe is out and its lease has not ended.
pub data Refuses (now : ℕ) (row : Row) : Type 0 where
  open_window : shedding_state row now ≡ shedding → Refuses now row
  probe_out : shedding_state row now ≡ probing → probe_held row now ≡ true → Refuses now row

refusal :
    (now fresh : ℕ) (t : Target) (row : Row)
    → Refuses now row
    → ((admit now fresh t row).0 ≡ record row { shed_requests = suc row.shed_requests })
      × ((until : ℕ) × ((admit now fresh t row).1 ≡ shed until row.shed_reason))
unfolding admit
refusal now fresh t row (open_window h) = (ground arith, (or_else row.shed_until 0, ground arith))
refusal now fresh t row (probe_out h k) = (
  ground arith,
  (min (or_else row.probe_expires_at 0) (now + t.policy.base_backoff_ms), ground arith),
)

turn_sheds :
    (r : Reading) (rs : List Reading) (t : Target) (row : Row) (until : ℕ) (reason : Option String)
    → (admit r.now r.token t row).1 ≡ shed until reason
    → ((acquire_quota (r ∷ rs) t row).0 ≡ (admit r.now r.token t row).0)
      × ((acquire_quota (r ∷ rs) t row).1 ≡ some (shed until reason))
unfolding acquire_quota
turn_sheds r rs t row until reason h = rw (acquire_quota, h) (refl, refl)

-- While calls are refused, a call is answered with a load-shedding error that carries the reason, the
-- target is not called (the state of the caller's operation is untouched, whatever the operation is),
-- no event is raised, and the row changes in its count of refused calls only: no quota is used.
pub execute-sheds {ℓ κ} :
    {W : Type ℓ} {A : Type κ} (r : Reading) (rs : List Reading) (now random : ℕ) (t : Target)
    (operation : W → W × Outcome A) (w : W) (row : Row)
    → Refuses r.now row
    → (until : ℕ) × (execute (r ∷ rs) now random t operation (w, row) ≡ (
      (w, record row { shed_requests = suc row.shed_requests }),
      (none, load_shed until row.shed_reason),
    ))
unfolding execute
execute-sheds r rs now random t operation w row h =
    let (left, (until, e)) = refusal r.now r.token t row h in
    let (row_left, answered) = turn_sheds r rs t row until row.shed_reason e in
    (until, rw (execute, answered, row_left, left) refl)

-- A call that is admitted while the target is probing holds the probe, and until its lease ends every
-- later call is refused: at most one call tests the target at a time.
pub admit-one_probe :
    (now now' fresh : ℕ) (t : Target) (row : Row)
    → shedding_state row now ≡ probing
    → (admit now fresh t row).1 ≡ granted (some fresh)
    → now ≤ now'
    → now' < now + probe_lease_ms
    → Refuses now' (admit now fresh t row).0
unfolding admit quota
admit-one_probe now now' fresh t row s g h k = ground arith

-- Only the call that owns the probe ends load shedding, and its success always does: after any
-- success, the target is in the normal state exactly when it was before or the call owned the probe,
-- and the event that shedding has ended is raised exactly when it ends.
pub record_success-ends_iff :
    (now later : ℕ) (probe : Option ℕ) (row : Row)
    → ((shedding_state (record_success now probe row).0 later ≡ normal)
        ↔ ((row.shedding_since ≡ none) ⊎ (owns_probe row probe ≡ true)))
      × ((is_some (record_success now probe row).1 ≡ true)
          ↔ ((is_some row.shedding_since ≡ true) × (owns_probe row probe ≡ true)))
unfolding record_success
record_success-ends_iff now later probe row = ground arith

-- Shedding opens exactly when a retryable pressure failure completes the policy's number of them in a
-- row; the event is raised exactly then, and a window that is open already is never cut short.
pub record_failure-opens_iff :
    (now random : ℕ) (probe : Option ℕ) (t : Target) (f : Failure) (row : Row)
    → ((is_some (record_failure now random probe t f row).1.0 ≡ true) ↔ (
        (row.shedding_since ≡ none)
        × (under_pressure (delay_ms t.policy (suc row.consecutive_failures) random f) f ≡ true)
        × (t.policy.shed_after_pressure_responses ≤ suc row.pressure_streak)))
unfolding record_failure
record_failure-opens_iff now random probe t f row = ground arith

-- A shedding window only ever moves later, and stays open until the owner of a probe succeeds: a
-- failure recorded by any call leaves it as it is, or extends it.
pub record_failure-extends :
    (now random : ℕ) (probe : Option ℕ) (t : Target) (f : Failure) (row : Row) (since until : ℕ)
    → row.shedding_since ≡ some since
    → row.shed_until ≡ some until
    → ((record_failure now random probe t f row).0.shedding_since ≡ some since)
      × (until ≤ or_else (record_failure now random probe t f row).0.shed_until 0)
unfolding record_failure
record_failure-extends now random probe t f row since until h k = ground arith
