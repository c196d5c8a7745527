-- ===== src/Events/Outbox.antt =====
-- modules/events/event-outbox.service.ts, with `publishEnvelope` of event-bus.ts. The tables are lists of
-- rows in the order of their insertion, which is that of `created_at`. A handler of the bus is a
-- function on a state `W`, with the message of the error that it throws. The chain of audit entries
-- that `enqueue` appends to is left out.
use Prim.Native.String.{String}
use text.Mathlib.Text.{◌==◌ as str_eq}
use cadena.Events.Envelope.{Envelope, Actor, Json}
use cadena.Prelude.{
  ℕ, zero, suc, min, max, Bool, true, false, Option, none, some, List, [], ◌∷◌, ◌++◌, if◌then◌else◌,
  or_else,
}

pub data OutboxStatus : Type 0 where
  pending dispatched : OutboxStatus

-- A row of `event_outbox`.
pub record OutboxRow : Type 0 where
  pub event_id : String
  pub status : OutboxStatus
  pub attempts : ℕ
  pub last_error : Option String

pub record OutboxEventInput : Type 0 where
  pub event_type : String
  pub work_item_id : String
  pub org_id : String
  pub actor : Actor
  pub payload : Json
  pub schema_version : Option ℕ
  pub event_id : Option String
  pub timestamp : Option ℕ

-- `domain_events`, each row with its tenant, and `event_outbox`.
pub record Tables : Type 0 where
  pub domain_events : List (String × Envelope)
  pub event_outbox : List OutboxRow

-- The random id and the clock reading are arguments, for an input that lacks them.
abbrev pub envelope_of : (fresh : String) → (now : ℕ) → OutboxEventInput → Envelope
envelope_of fresh now input = record {
  event_id = or_else input.event_id fresh;
  event_type = input.event_type;
  schema_version = or_else input.schema_version 1;
  timestamp = or_else input.timestamp now;
  actor = input.actor;
  work_item_id = input.work_item_id;
  payload = input.payload;
}

unfoldable pub enqueue :
    (fresh : String) → (now : ℕ) → OutboxEventInput → Tables → Tables × Envelope
enqueue fresh now input t =
    let event = envelope_of fresh now input in
    (
      record {
        domain_events = t.domain_events ++ ((input.org_id, event) ∷ []);
        event_outbox =
            t.event_outbox
            ++ (record {
              event_id = event.event_id;
              status = pending;
              attempts = 0;
              last_error = none;
            }
                ∷ []);
      },
      event,
    )

-- The two updates of `dispatch`.
unfoldable pub update_row :
    (event_id : String)
    → OutboxStatus
    → (last_error : Option String) → List OutboxRow
    → List OutboxRow
update_row e s err [] = []
update_row e s err (x ∷ xs) =
    (if str_eq e x.event_id
      then record x { status = s; attempts = suc x.attempts; last_error = err }
      else x)
    ∷ update_row e s err xs

unfoldable pub find_event : (event_id : String) → List (String × Envelope) → Option Envelope
find_event e [] = none
find_event e ((org, x) ∷ xs) = if str_eq e x.event_id then some x else find_event e xs

-- The join of the two tables.
unfoldable pub pending_events : List OutboxRow → List (String × Envelope) → List Envelope
pending_events [] events = []
pending_events (x ∷ xs) events = elim x.status [
  | dispatched ↦ pending_events xs events
  | pending ↦ elim (find_event x.event_id events) [
    | none ↦ pending_events xs events
    | some e ↦ e ∷ pending_events xs events
  ]
]

abbrev pub take : ℕ → List Envelope → List Envelope
take zero xs = []
take (suc n) [] = []
take (suc n) (x ∷ xs) = x ∷ take n xs

module _ {ℓ} {W : Type ℓ} where
  -- Each handler in turn, up to the first that throws.
  unfoldable pub run_handlers :
      List (W → Envelope → W × Option String) → Envelope → W → W × Option String
  run_handlers [] event w = (w, none)
  run_handlers (h ∷ hs) event w =
      let (w', thrown) = h w event in
      elim thrown [ none ↦ run_handlers hs event w' | some err ↦ (w', some err) ]

  -- `publishEnvelope`: the wildcard handlers, then those of the event's type.
  unfoldable pub publish_envelope :
      (wildcard : List (W → Envelope → W × Option String))
      → (of_type : String → List (W → Envelope → W × Option String)) → Envelope
      → W
      → W × Option String
  publish_envelope wildcard of_type event w =
      run_handlers (wildcard ++ of_type event.event_type) event w

  unfoldable pub dispatch_event :
      (publish : Envelope → W → W × Option String)
      → Envelope
      → W × List OutboxRow
      → (W × List OutboxRow) × Bool
  dispatch_event publish event (w, rows) =
      let (w', thrown) = publish event w in
      elim thrown [
        | none ↦ ((w', update_row event.event_id dispatched none rows), true)
        | some err ↦ ((w', update_row event.event_id pending (some err) rows), false)
      ]

  unfoldable pub dispatch_all :
      (publish : Envelope → W → W × Option String)
      → List Envelope
      → W × List OutboxRow
      → (W × List OutboxRow) × ℕ
  dispatch_all publish [] s = (s, 0)
  dispatch_all publish (e ∷ es) s =
      let (s', ok) = dispatch_event publish e s in
      let (s'', n) = dispatch_all publish es s' in (s'', if ok then suc n else n)

  -- `recoverPending`.
  unfoldable pub recover_pending :
      (publish : Envelope → W → W × Option String) → (limit : ℕ) → W × Tables → (W × Tables) × ℕ
  recover_pending publish limit (w, t) =
      let events =
        take (min (max limit 1) 10_000) (pending_events t.event_outbox t.domain_events) in
      let ((w', rows), n) = dispatch_all publish events (w, t.event_outbox) in
      ((w', record t { event_outbox = rows }), n)
