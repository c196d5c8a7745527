-- ===== src/Events/Envelope.antt =====
-- modules/events/event-bus.ts and tenant-resolution.ts: the envelope of an event, and the tenant that
-- it belongs to. The work items' table is a function from an id to its row's tenant.
use Prim.Native.Char.{code}
use Prim.Native.String.{String}
use text.Mathlib.Text.{◌==◌ as str_eq}
use cadena.Prelude.{
  ℕ, zero, suc, Bool, true, false, Option, none, some, ◌&&◌, ◌||◌, leb, ◌==◌, if◌then◌else◌,
}

-- A JSON value; arrays, Booleans and numbers, which no code here looks into, are `other`.
mutual
  pub data Json : Type 0 where
    null other : Json
    string : String → Json
    object : Fields → Json

  pub data Fields : Type 0 where
    empty : Fields
    field : String → Json → Fields → Fields

pub data ActorType : Type 0 where
  user system integration : ActorType

pub record Actor : Type 0 where
  pub kind : ActorType
  pub id : String

-- `DomainEventEnvelope`.
pub record Envelope : Type 0 where
  pub event_id : String
  pub event_type : String
  pub schema_version : ℕ
  pub timestamp : ℕ
  pub actor : Actor
  pub work_item_id : String
  pub payload : Json

-- A field, unless it is missing, undefined or null.
abbrev field_of : String → Fields → Option Json
field_of key empty = none
field_of key (field k v rest) =
    if str_eq key k then elim v [ null ↦ none | w ↦ some w ] else field_of key rest

-- `value?.[key]`
abbrev get : String → Option Json → Option Json
get key (some (object fields)) = field_of key fields
get key _ = none

-- The operator `??`.
infixr 3 ◌or◌
abbrev ◌or◌ : Option Json → Option Json → Option Json
none or b = b
some a or b = some a

unfoldable pub org_id_from_payload : Envelope → Option String
org_id_from_payload event =
    let payload = some event.payload in
    elim (get "org_id" payload
      or get "org_id" (get "work_item" payload)
      or get "org_id" (get "service" payload)
      or get "org_id" (get "result" payload)) [ some (string s) ↦ some s | _ ↦ none ]

abbrev is_hex_or_dash : ℕ → Bool
is_hex_or_dash c =
    (leb b'0' c && leb c b'9')
    || ((leb b'a' c && leb c b'f') || ((leb b'A' c && leb c b'F') || c == b'-'))

-- The regular expression `^[0-9a-f-]{36}$`, without regard to case: the length and the characters.
abbrev has_id_form : (left : ℕ) → String → Bool
has_id_form left String.[] = left == 0
has_id_form zero (String.◌∷◌ c s) = false
has_id_form (suc left) (String.◌∷◌ c s) = is_hex_or_dash (code c) && has_id_form left s

abbrev is_empty : String → Bool
is_empty String.[] = true
is_empty (String.◌∷◌ c s) = false

abbrev from_work_item : (String → Option String) → Envelope → Option String
from_work_item org_of event =
    if has_id_form 36 event.work_item_id then org_of event.work_item_id else none

unfoldable pub resolve_event_org_id : (org_of : String → Option String) → Envelope → Option String
resolve_event_org_id org_of event = elim (org_id_from_payload event) [
  | none ↦ from_work_item org_of event
  | some s ↦ if is_empty s then from_work_item org_of event else some s
]
