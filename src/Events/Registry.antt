-- ===== src/Events/Registry.antt =====
-- modules/events/consumer-registry.service.ts: `dispatch` with its claim, its retries and its dead
-- letters. A table is a list of rows, its times left out. A handler is a function on a state `W` of the
-- consumers, with the message of the error that it throws; a failing database is not modelled. The
-- delay between two attempts has no effect here.
use Prim.Native.String.{String}
use text.Mathlib.Text.{◌==◌ as str_eq}
use cadena.Events.Envelope.{Envelope, resolve_event_org_id}
use cadena.Prelude.{
  ℕ, zero, suc, Bool, true, false, Option, none, some, List, [], ◌∷◌, ◌&&◌, if◌then◌else◌, or_else,
}

pub data ConsumptionStatus : Type 0 where
  processing processed failed : ConsumptionStatus

-- A row of `event_consumptions`.
pub record Consumption : Type 0 where
  pub consumer : String
  pub event_id : String
  pub status : ConsumptionStatus
  pub attempts : ℕ

pub data DeadLetterStatus : Type 0 where
  dead replayed discarded : DeadLetterStatus

-- A row of `dead_letter_events`.
pub record DeadLetter : Type 0 where
  pub id : ℕ
  pub consumer : String
  pub event_id : String
  pub org_id : Option String
  pub event_type : String
  pub envelope : Envelope
  pub attempts : ℕ
  pub last_error : Option String
  pub status : DeadLetterStatus

-- The payload of a `DeadLetterQueueAlert`.
pub record Alert : Type 0 where
  pub org_id : Option String
  pub consumer : String
  pub depth : ℕ
  pub event_id : String
  pub event_type : String
  pub attempts : ℕ
  pub last_error : String

pub record Store : Type 0 where
  pub consumptions : List Consumption
  pub dead_letters : List DeadLetter
  pub alerts : List Alert

abbrev pub same_key : (consumer event_id consumer' event_id' : String) → Bool
same_key c e c' e' = str_eq c c' && str_eq e e'

unfoldable pub status_of :
    (consumer event_id : String) → List Consumption → Option ConsumptionStatus
status_of c e [] = none
status_of c e (x ∷ xs) =
    if same_key c e x.consumer x.event_id then some x.status else status_of c e xs

-- `INSERT ... ON CONFLICT (consumer, event_id) DO UPDATE`; without a number the attempts stay.
unfoldable pub put :
    (consumer event_id : String)
    → ConsumptionStatus
    → Option ℕ
    → List Consumption
    → List Consumption
put c e s n [] = record { consumer = c; event_id = e; status = s; attempts = or_else n 0 } ∷ []
put c e s n (x ∷ xs) =
    if same_key c e x.consumer x.event_id
    then record x { status = s; attempts = or_else n x.attempts } ∷ xs
    else x ∷ put c e s n xs

abbrev pub may_claim : (force : Bool) → Option ConsumptionStatus → Bool
may_claim force none = true
may_claim force (some failed) = true
may_claim force (some _) = force

unfoldable pub claim :
    (consumer event_id : String) → (force : Bool) → List Consumption → List Consumption × Bool
claim c e force cs =
    if may_claim force (status_of c e cs) then (put c e processing none cs, true) else (cs, false)

abbrev pub mark_processed : (consumer event_id : String) → ℕ → List Consumption → List Consumption
mark_processed c e n cs = put c e processed (some n) cs

abbrev pub mark_failed : (consumer event_id : String) → ℕ → List Consumption → List Consumption
mark_failed c e n cs = put c e failed (some n) cs

-- `onModuleInit`.
unfoldable pub on_module_init : List Consumption → List Consumption
on_module_init [] = []
on_module_init (x ∷ xs) =
    elim x.status [ processing ↦ record x { status = failed } | _ ↦ x ] ∷ on_module_init xs

abbrev pub is_dead : DeadLetterStatus → Bool
is_dead dead = true
is_dead _ = false

unfoldable pub clear_dead_letter : (consumer event_id : String) → List DeadLetter → List DeadLetter
clear_dead_letter c e [] = []
clear_dead_letter c e (x ∷ xs) =
    (if same_key c e x.consumer x.event_id && is_dead x.status
      then record x { status = replayed }
      else x)
    ∷ clear_dead_letter c e xs

unfoldable pub put_dead : DeadLetter → List DeadLetter → List DeadLetter
put_dead d [] = d ∷ []
put_dead d (x ∷ xs) =
    if same_key d.consumer d.event_id x.consumer x.event_id
    then record x { attempts = d.attempts; last_error = d.last_error; status = dead } ∷ xs
    else x ∷ put_dead d xs

unfoldable pub depth_of : (consumer : String) → List DeadLetter → ℕ
depth_of c [] = 0
depth_of c (x ∷ xs) =
    if str_eq c x.consumer && is_dead x.status then suc (depth_of c xs) else depth_of c xs

-- The row's `randomUUID()` is an argument.
unfoldable pub dead_letter :
    (org_of : String → Option String)
    → (id : ℕ) → (consumer : String) → Envelope
    → (attempts : ℕ) → (error : String) → Store
    → Store
dead_letter org_of id c event n error s =
    let org = resolve_event_org_id org_of event in
    let letters =
      put_dead
        (record {
          id = id;
          consumer = c;
          event_id = event.event_id;
          org_id = org;
          event_type = event.event_type;
          envelope = event;
          attempts = n;
          last_error = some error;
          status = dead;
        })
        s.dead_letters in
    record s {
      dead_letters = letters;
      alerts =
          record {
            org_id = org;
            consumer = c;
            depth = depth_of c letters;
            event_id = event.event_id;
            event_type = event.event_type;
            attempts = n;
            last_error = error;
          }
          ∷ s.alerts;
    }

pub data Tried : Type 0 where
  handled : (attempt : ℕ) → Tried
  exhausted : (last_error : String) → Tried

-- `DispatchResult`, and the error for a name that is not registered.
pub data Dispatched : Type 0 where
  not_registered skipped_duplicate : Dispatched
  success : (attempts : ℕ) → Dispatched
  dead_lettered : (attempts : ℕ) → (error : String) → Dispatched

-- What follows the claim.
unfoldable pub settle :
    (org_of : String → Option String)
    → (id : ℕ) → (consumer : String) → (max_attempts : ℕ) → Envelope
    → Tried
    → Store
    → Store × Dispatched
settle org_of id c most event (handled n) s = (
  record s {
    consumptions = mark_processed c event.event_id n s.consumptions;
    dead_letters = clear_dead_letter c event.event_id s.dead_letters;
  },
  success n,
)
settle org_of id c most event (exhausted err) s = (
  dead_letter org_of id c event most err
      (record s { consumptions = mark_failed c event.event_id most s.consumptions }),
  dead_lettered most err,
)

pub record Consumer {ℓ} (W : Type ℓ) : Type ℓ where
  pub name : String
  pub handle : W → Envelope → W × Option String
  pub max_attempts : Option ℕ

module _ {ℓ} {W : Type ℓ} where
  -- The loop, from attempt `attempt` with `left` attempts left.
  unfoldable pub attempts_from :
      (W → Envelope → W × Option String)
      → Envelope
      → (left attempt : ℕ) → (last_error : String) → W
      → W × Tried
  attempts_from handle event zero attempt err w = (w, exhausted err)
  attempts_from handle event (suc left) attempt err w =
      let (w', thrown) = handle w event in
      elim thrown [
        | none ↦ (w', handled attempt)
        | some err' ↦ attempts_from handle event left (suc attempt) err' w'
      ]

  abbrev pub most_of : Consumer W → ℕ
  most_of d = or_else d.max_attempts 3

  -- `EventConsumerRegistry.get`.
  unfoldable pub consumer_named : String → List (Consumer W) → Option (Consumer W)
  consumer_named n [] = none
  consumer_named n (d ∷ ds) = if str_eq n d.name then some d else consumer_named n ds

  -- The rest of `dispatch` for the caller that has won the claim.
  unfoldable pub deliver :
      (org_of : String → Option String)
      → (id : ℕ) → (Consumer W)
      → Envelope
      → W × Store
      → (W × Store) × Dispatched
  unfolding settle
  deliver org_of id d event (w, s) =
      let (w', tried) = attempts_from d.handle event (most_of d) 1 "" w in
      let (s', outcome) = settle org_of id d.name (most_of d) event tried s in ((w', s'), outcome)

  unfoldable pub run_consumer :
      (org_of : String → Option String)
      → (id : ℕ) → (Consumer W)
      → Envelope
      → (force : Bool) → W × Store
      → (W × Store) × Dispatched
  run_consumer org_of id d event force (w, s) =
      let (claimed, won) = claim d.name event.event_id force s.consumptions in
      if won
      then deliver org_of id d event (w, record s { consumptions = claimed })
      else ((w, s), skipped_duplicate)

  unfoldable pub dispatch :
      (org_of : String → Option String)
      → (id : ℕ) → List (Consumer W)
      → (consumer : String) → Envelope
      → (force : Bool) → W × Store
      → (W × Store) × Dispatched
  dispatch org_of id ds c event force ws = elim (consumer_named c ds) [
    | none ↦ (ws, not_registered)
    | some d ↦ run_consumer org_of id d event force ws
  ]
