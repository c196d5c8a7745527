-- ===== src/Intake.antt =====
-- modules/integrations/inbound-webhook-queue.service.ts, with the statements of integration-support.ts on the
-- same table: the webhook deliveries that are accepted at once and worked off later. The clock's readings,
-- the random ids and the outcome of a provider's handling are arguments.
pub mod Once
pub mod Final
pub mod Attempts
mod Tests
use Prim.Native.String.{String}
use text.Mathlib.Text.{◌==◌ as str_eq}
use cadena.Prelude.{
  ℕ, ◌+◌, Bool, true, false, Option, none, some, List, [], ◌∷◌, ◌++◌, ◌&&◌, leb, if◌then◌else◌,
}

abbrev pub max_processing_attempts : ℕ
max_processing_attempts = 3

pub data IntegrationKind : Type 0 where
  git monitoring : IntegrationKind

pub data DeliveryStatus : Type 0 where
  queued processing completed failed : DeliveryStatus

-- A row of `integration_deliveries`.
pub record Delivery : Type 0 where
  pub id : String
  pub org_id : String
  pub provider : String
  pub integration_kind : IntegrationKind
  pub delivery_id : String
  pub event_type : String
  pub status : DeliveryStatus
  pub attempts : ℕ
  pub payload : String
  pub result : Option String
  pub error : Option String
  pub claimed_at : Option ℕ
  pub processed_at : Option ℕ

pub record EnqueueInput : Type 0 where
  pub kind : IntegrationKind
  pub org_id : String
  pub provider : String
  pub delivery_id : String
  pub event_type : String
  pub body : String

-- The table, and the `InboundWebhookAccepted` events of the outbox, each with the id of its row and
-- the body.
pub record Tables : Type 0 where
  pub deliveries : List Delivery
  pub events : List (String × String)

pub record Acceptance : Type 0 where
  pub duplicate : Bool
  pub status : DeliveryStatus

abbrev pub is_key : (org provider delivery : String) → Delivery → Bool
is_key org provider delivery r =
    str_eq r.org_id org && (str_eq r.provider provider && str_eq r.delivery_id delivery)

unfoldable pub find_delivery : (org provider delivery : String) → List Delivery → Option Delivery
find_delivery org provider delivery [] = none
find_delivery org provider delivery (r ∷ rs) =
    if is_key org provider delivery r then some r else find_delivery org provider delivery rs

abbrev pub new_delivery : (record_id : String) → EnqueueInput → Delivery
new_delivery record_id i = record {
  id = record_id;
  org_id = i.org_id;
  provider = i.provider;
  integration_kind = i.kind;
  delivery_id = i.delivery_id;
  event_type = i.event_type;
  status = queued;
  attempts = 0;
  payload = i.body;
  result = none;
  error = none;
  claimed_at = none;
  processed_at = none;
}

-- The transaction of `enqueue`.
unfoldable pub enqueue : (record_id : String) → EnqueueInput → Tables → Acceptance × Tables
enqueue record_id i t = elim (find_delivery i.org_id i.provider i.delivery_id t.deliveries) [
  | some r ↦ (record { duplicate = true; status = r.status }, t)
  | none ↦ (
    record { duplicate = false; status = queued },
    record {
      deliveries = t.deliveries ++ new_delivery record_id i ∷ [];
      events = t.events ++ (record_id, i.body) ∷ [];
    },
  )
]

unfoldable pub find_by_id : (id : String) → List Delivery → Option Delivery
find_by_id id [] = none
find_by_id id (r ∷ rs) = if str_eq r.id id then some r else find_by_id id rs

-- `UPDATE … WHERE id = $1`
unfoldable pub update_by_id : (id : String) → (Delivery → Delivery) → List Delivery → List Delivery
update_by_id id change [] = []
update_by_id id change (r ∷ rs) =
    let rest = update_by_id id change rs in if str_eq r.id id then change r ∷ rest else r ∷ rest

abbrev pub is_claimable : DeliveryStatus → Bool
is_claimable completed = false
is_claimable _ = true

abbrev pub take : (now : ℕ) → Delivery → Delivery
take now r = record r {
  status = processing;
  attempts = r.attempts + 1;
  claimed_at = some now;
  error = none;
}

-- The claim of `processEvent`. The ids are a primary key.
unfoldable pub claim_delivery :
    (now : ℕ) → (id : String) → List Delivery → Option Delivery × List Delivery
claim_delivery now id rows = elim (find_by_id id rows) [
  | none ↦ (none, rows)
  | some r ↦
      if is_claimable r.status
      then (some (take now r), update_by_id id (take now) rows)
      else (none, rows)
]

abbrev pub keep_body : (body : Option String) → Delivery → Delivery
keep_body none r = r
keep_body (some b) r = record r { payload = b }

-- `completeDelivery`
abbrev pub complete : (now : ℕ) → (result : String) → Delivery → Delivery
complete now res r = record r {
  status = completed;
  result = some res;
  error = none;
  processed_at = some now;
}

-- `failDelivery`
abbrev pub fail : (now : ℕ) → (message : String) → Delivery → Delivery
fail now message r = record r { status = failed; error = some message; processed_at = some now }

-- The UPDATE after an error, by the attempts of the claimed row.
abbrev pub put_back : (now attempts : ℕ) → (message : String) → Delivery → Delivery
put_back now attempts message r =
    if leb max_processing_attempts attempts
    then record r {
      status = failed;
      error = some message;
      claimed_at = none;
      processed_at = some now;
    }
    else record r { status = queued; error = some message; claimed_at = none; processed_at = none }

-- How a provider's handling goes: it throws, it completes the delivery and the publication of the
-- result then throws, or both succeed.
pub data Handling : Type 0 where
  throws : (message : String) → Handling
  completes_and_throws : (result message : String) → Handling
  succeeds : (result : String) → Handling

-- `processQueuedGitWebhook` and `processQueuedMonitoringWebhook`, with the `catch`.
abbrev pub handle : (now attempts : ℕ) → Handling → Delivery → Delivery
handle now attempts (throws message) r = put_back now attempts message r
handle now attempts (completes_and_throws res message) r =
    put_back now attempts message (complete now res r)
handle now attempts (succeeds res) r = complete now res r

abbrev pub thrown : Handling → Option String
thrown (throws message) = some message
thrown (completes_and_throws res message) = some message
thrown (succeeds res) = none

-- `processEvent`: the error that is thrown, if one is, and the table.
unfoldable pub process_event :
    (now : ℕ)
    → (record_id : String) → (body : Option String) → Handling
    → List Delivery
    → Option String × List Delivery
process_event now id body h rows =
    if str_eq id ""
    then (some "Inbound webhook event has no delivery_record_id", rows)
    else elim (claim_delivery now id rows).0 [
      | none ↦ (none, rows)
      | some r ↦ (
        thrown h,
        update_by_id id (handle now r.attempts h)
            (update_by_id id (keep_body body) (claim_delivery now id rows).1),
      )
    ]

abbrev pub is_processing : DeliveryStatus → Bool
is_processing processing = true
is_processing _ = false

abbrev pub requeue : Delivery → Delivery
requeue r = if is_processing r.status then record r { status = queued; claimed_at = none } else r

-- The UPDATE of `onApplicationBootstrap`.
unfoldable pub recover : List Delivery → List Delivery
recover [] = []
recover (r ∷ rs) = requeue r ∷ recover rs
