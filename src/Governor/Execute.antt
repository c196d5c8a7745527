-- ===== src/Governor/Execute.antt =====
-- `acquireQuota` and `execute`: a call of the target from its admission to the recorded outcome. The
-- target's answer is a function on a state `W` of the caller's, so that not calling it shows. A
-- failing database is not modelled.
use Prim.Native.String.{String}
use cadena.Governor.Row.{
  Row, Target, Admission, shed, wait, granted, admit, ShedEvent, record_success,
}
use cadena.Governor.Failure.{Failure, record_failure}
use cadena.Prelude.{ℕ, Option, none, some, List, [], ◌∷◌}

-- What one turn of the loop reads: the clock, and a token for a probe.
pub record Reading : Type 0 where
  pub now : ℕ
  pub token : ℕ

-- The loop of `acquireQuota`, one turn for each reading: `none` when it still sleeps after the last.
unfoldable pub acquire_quota : List Reading → Target → Row → Row × Option Admission
acquire_quota [] t row = (row, none)
acquire_quota (r ∷ rs) t row =
    let (row', answer) = admit r.now r.token t row in
    elim answer [
      | wait ms ↦ acquire_quota rs t row'
      | shed until reason ↦ (row', some (shed until reason))
      | granted probe ↦ (row', some (granted probe))
    ]

pub data Outcome {ℓ} (A : Type ℓ) : Type ℓ where
  success : A → Outcome A
  failure : Failure → Outcome A

pub data Response {ℓ} (A : Type ℓ) : Type ℓ where
  value : A → Response A
  load_shed : (until : ℕ) → (reason : Option String) → Response A
  error : Failure → Response A
  sleeping : Response A

module _ {ℓ κ} {W : Type ℓ} {A : Type κ} where
  -- The inner `try`: the operation, and the record of its outcome at a later time.
  unfoldable pub perform :
      (now random : ℕ)
      → (probe : Option ℕ) → Target
      → (W → W × Outcome A)
      → W × Row
      → (W × Row) × (Option ShedEvent × Response A)
  perform now random probe t operation (w, row) =
      let (w', outcome) = operation w in
      elim outcome [
        | success a ↦
            let (row', event) = record_success now probe row in ((w', row'), (event, value a))
        | failure f ↦
            let (row', (event, f')) = record_failure now random probe t f row in
            ((w', row'), (event, error f'))
      ]

  -- `execute`, inside the gate.
  unfoldable pub execute :
      List Reading
      → (now random : ℕ) → Target
      → (W → W × Outcome A)
      → W × Row
      → (W × Row) × (Option ShedEvent × Response A)
  unfolding acquire_quota perform
  execute readings now random t operation (w, row) =
      let (row', admission) = acquire_quota readings t row in
      elim admission [
        | none ↦ ((w, row'), (none, sleeping))
        | some (wait ms) ↦ ((w, row'), (none, sleeping))
        | some (shed until reason) ↦ ((w, row'), (none, load_shed until reason))
        | some (granted probe) ↦ perform now random probe t operation (w, row')
      ]
