-- ===== src/Workflow/Commit.antt =====
-- `commitStateChange` and the calls that end in it, `transitionWorkItem` and `applySourceStateChange`, and
-- `getAvailableTransitions`. The checks read one state of the tables and the commit meets another,
-- which other calls may have changed in between. The chain of audit entries is left out.
use Prim.Native.String.{String}
use text.Mathlib.Text.{◌==◌ as str_eq}
use cadena.Sla.{calculate_elapsed_minutes}
use cadena.Events.Envelope.{Json, null, integration}
use cadena.Workflow.Guard.{RoleGuard}
use cadena.Workflow.Definition.{Rule}
use cadena.Workflow.Transition.{
  WorkItem, AuditEvent, field_at, StatePolicy, StateChanged, Db, Change, refused, change, Request,
  TransitionError, not_found, changed_before_commit, check_transition, find_item, transitions_of,
  get_workflow_definition,
}
use cadena.Prelude.{
  ℕ, ◌+◌, Bool, true, false, Option, none, some, List, [], ◌∷◌, ◌++◌, ◌&&◌, ◌||◌, if◌then◌else◌,
  or_else, is_some,
}

-- The map of the policies by their state: the last row counts.
unfoldable pub policy_of : (org_id item_type state : String) → List StatePolicy → Option StatePolicy
policy_of org t s [] = none
policy_of org t s (p ∷ ps) =
    let rest = policy_of org t s ps in
    if is_some rest
    then rest
    else if str_eq org p.org_id && (str_eq t p.item_type && str_eq s p.state)
    then some p
    else none

pub record Clock : Type 0 where
  pub elapsed : ℕ
  pub started_at : Option ℕ
  pub suspended : Bool

abbrev pub suspends : Option StatePolicy → Bool
suspends none = false
suspends (some p) = p.suspend_sla

-- `clockStartedAt || item.entered_state_at || item.created_at`
abbrev pub clock_start : WorkItem → ℕ
clock_start i = or_else i.sla_clock_started_at (or_else i.entered_state_at i.created_at)

abbrev pub accrued : (now : ℕ) → (from_policy : Option StatePolicy) → WorkItem → ℕ
accrued now none i = i.sla_elapsed_minutes
accrued now (some p) i =
    if i.sla_suspended
    then i.sla_elapsed_minutes
    else i.sla_elapsed_minutes + calculate_elapsed_minutes (clock_start i) now p.calendar

unfoldable pub next_clock :
    (now : ℕ) → (from_policy target_policy : Option StatePolicy) → WorkItem → Clock
next_clock now from target i =
    if suspends target
    then record { elapsed = accrued now from i; started_at = none; suspended = true }
    else if i.sla_suspended
    then record { elapsed = i.sla_elapsed_minutes; started_at = none; suspended = false }
    else record { elapsed = 0; started_at = none; suspended = false }

abbrev pub clock_for : Change → List StatePolicy → Clock
clock_for c ps =
    next_clock c.at (policy_of c.item.org_id c.item.item_type c.item.status ps)
      (policy_of c.item.org_id c.item.item_type c.to_state ps) c.item

-- `WHERE id = $8 AND org_id = $9 AND status = $10`
abbrev pub hits : Change → WorkItem → Bool
hits c x = str_eq c.item.id x.id && (str_eq c.item.org_id x.org_id && str_eq c.item.status x.status)

abbrev pub changed : Change → Clock → WorkItem → WorkItem
changed c k x = record x {
  status = c.to_state;
  entered_state_at = some c.at;
  custom_fields = c.merged;
  sla_elapsed_minutes = k.elapsed;
  sla_clock_started_at = k.started_at;
  sla_suspended = k.suspended;
}

unfoldable pub update_items : Change → Clock → List WorkItem → List WorkItem
update_items c k [] = []
update_items c k (x ∷ xs) = (if hits c x then changed c k x else x) ∷ update_items c k xs

unfoldable pub is_hit : Change → List WorkItem → Bool
is_hit c [] = false
is_hit c (x ∷ xs) = hits c x || is_hit c xs

abbrev or_null : Option Json → Json
or_null none = null
or_null (some v) = v

-- The values of the supplied fields' keys.
unfoldable pub values_of : (supplied fields : List (String × Json)) → List (String × Json)
values_of [] fs = []
values_of ((k, v) ∷ ss) fs = (k, or_null (field_at k fs)) ∷ values_of ss fs

-- `auditPayload`, with the columns of its row.
abbrev pub audit_of : Change → AuditEvent
audit_of c = record {
  work_item_id = c.item.id;
  actor_kind = c.actor_kind;
  actor_id = c.actor_id;
  from_state = c.item.status;
  to_state = c.to_state;
  fields = c.supplied;
  before = values_of c.supplied c.item.custom_fields;
  after = values_of c.supplied c.merged;
  at = c.at;
}

-- `eventPayload`, with the rest of its envelope.
abbrev pub event_of : Change → StateChanged
event_of c = record {
  work_item_id = c.item.id;
  org_id = c.item.org_id;
  item_type = c.item.item_type;
  actor_kind = c.actor_kind;
  actor_id = c.actor_id;
  from_state = c.item.status;
  to_state = c.to_state;
  fields = c.supplied;
  before = values_of c.supplied c.item.custom_fields;
  after = values_of c.supplied c.merged;
  at = c.at;
}

pub data Outcome : Type 0 where
  failed : TransitionError → Outcome
  unchanged : Outcome
  committed : StateChanged → Outcome

-- The transaction; an exception rolls it back.
unfoldable pub commit_state_change : Change → Db → Db × Outcome
commit_state_change c db =
    if is_hit c db.work_items
    then (
      record db {
        work_items = update_items c (clock_for c db.policies) db.work_items;
        audit_events = db.audit_events ++ (audit_of c ∷ []);
        outbox = db.outbox ++ (event_of c ∷ []);
      },
      committed (event_of c),
    )
    else (db, failed changed_before_commit)

-- The tables `seen` by the checks, and those that the commit meets.
unfoldable pub transition_work_item : (now : ℕ) → Request → (seen : Db) → Db → Db × Outcome
transition_work_item now r seen db = elim (check_transition now r seen) [
  | refused e ↦ (db, failed e)
  | change c ↦ commit_state_change c db
]

unfoldable pub find_twin : (id org_id : String) → List WorkItem → Option WorkItem
find_twin id org [] = none
find_twin id org (x ∷ xs) =
    if str_eq id x.id && (str_eq org x.org_id && x.from_connector)
    then some x
    else find_twin id org xs

unfoldable pub apply_source_state_change :
    (id org_id to_state actor_id : String) → (at : ℕ) → (seen : Db) → Db → Db × Outcome
apply_source_state_change id org to_state actor_id at seen db =
    elim (find_twin id org seen.work_items) [
      | none ↦ (db, failed not_found)
      | some item ↦
          if str_eq item.status to_state
          then (db, unchanged)
          else commit_state_change
              (record {
                item = item;
                to_state = to_state;
                at = at;
                actor_kind = integration;
                actor_id = actor_id;
                supplied = [];
                merged = item.custom_fields;
              })
              db
    ]

pub record Offer : Type 0 where
  pub to_state : String
  pub requires_fields : List String
  pub guard : Option RoleGuard

unfoldable pub offers_from : (state : String) → List Rule → List Offer
offers_from s [] = []
offers_from s (r ∷ rs) =
    if str_eq r.from s
    then record { to_state = r.to; requires_fields = r.requires_fields; guard = r.guard }
      ∷ offers_from s rs
    else offers_from s rs

unfoldable pub get_available_transitions : (id org_id : String) → Db → Option (List Offer)
get_available_transitions id org db = elim (find_item id org db.work_items) [
  | none ↦ none
  | some item ↦ some (
      offers_from item.status (
        transitions_of
          (get_workflow_definition item.item_type item.workflow_version db.definitions)))
]
