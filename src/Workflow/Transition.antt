-- ===== src/Workflow/Transition.antt =====
-- `publishWorkflow`, `getWorkflowDefinition` and the checks of `transitionWorkItem`. A clock reading is an
-- argument; random ids and the wait reason are left out. An audit row and an outbox row are the change
-- that both record.
use Prim.Native.String.{String}
use text.Mathlib.Text.{◌==◌ as str_eq}
use cadena.Sla.{SlaCalendar}
use cadena.Events.Envelope.{Json, null, string, ActorType, user}
use cadena.Workflow.Guard.{RoleGuard, text_guard, object_guard, evaluate_role_guard}
use cadena.Workflow.Definition.{
  Rule, Workflow, built_in, DefinitionError, validate_workflow_definition,
}
use cadena.Prelude.{
  ℕ, suc, max, Bool, true, false, Option, none, some, List, [], ◌∷◌, ◌++◌, ◌&&◌, ◌==◌,
  if◌then◌else◌, or_else,
}

-- An object of custom fields is a list of names and values.
abbrev pub field_at : String → List (String × Json) → Option Json
field_at k [] = none
field_at k ((l, v) ∷ fs) = if str_eq k l then some v else field_at k fs

abbrev set_field : String → Json → List (String × Json) → List (String × Json)
set_field k v [] = (k, v) ∷ []
set_field k v ((l, w) ∷ fs) = if str_eq k l then (l, v) ∷ fs else (l, w) ∷ set_field k v fs

-- `{ ...current, ...supplied }`
unfoldable pub merge_fields : (current supplied : List (String × Json)) → List (String × Json)
merge_fields current [] = current
merge_fields current ((k, v) ∷ fs) = merge_fields (set_field k v current) fs

pub record WorkItem : Type 0 where
  pub id : String
  pub org_id : String
  pub item_type : String
  pub status : String
  pub from_connector : Bool
  pub workflow_version : Option ℕ
  pub custom_fields : List (String × Json)
  pub entered_state_at : Option ℕ
  pub created_at : ℕ
  pub sla_elapsed_minutes : ℕ
  pub sla_clock_started_at : Option ℕ
  pub sla_suspended : Bool

-- A row of `sla_policies`.
pub record StatePolicy : Type 0 where
  pub org_id : String
  pub item_type : String
  pub state : String
  pub calendar : SlaCalendar
  pub suspend_sla : Bool

-- The outbox event of a change.
pub record StateChanged : Type 0 where
  pub work_item_id : String
  pub org_id : String
  pub item_type : String
  pub actor_kind : ActorType
  pub actor_id : String
  pub from_state : String
  pub to_state : String
  pub fields : List (String × Json)
  pub before : List (String × Json)
  pub after : List (String × Json)
  pub at : ℕ

-- A row of `audit_events`, which has no tenant and no item type. The wait reason and the source that some
-- callers add to both payloads are left out.
pub record AuditEvent : Type 0 where
  pub work_item_id : String
  pub actor_kind : ActorType
  pub actor_id : String
  pub from_state : String
  pub to_state : String
  pub fields : List (String × Json)
  pub before : List (String × Json)
  pub after : List (String × Json)
  pub at : ℕ

pub record Published : Type 0 where
  pub version : ℕ
  pub definition : Workflow

pub record Db : Type 0 where
  pub work_items : List WorkItem
  pub policies : List StatePolicy
  pub definitions : List Published
  pub audit_events : List AuditEvent
  pub outbox : List StateChanged

abbrev of_type : String → Published → Bool
of_type t p = str_eq t p.definition.item_type

-- `SELECT MAX(version)`, where a type without a row has 0.
unfoldable pub max_version : String → List Published → ℕ
max_version t [] = 0
max_version t (p ∷ ps) = if of_type t p then max p.version (max_version t ps) else max_version t ps

unfoldable pub row_of : String → (version : ℕ) → List Published → Option Published
row_of t v [] = none
row_of t v (p ∷ ps) = if of_type t p && v == p.version then some p else row_of t v ps

pub data PublishResult : Type 0 where
  invalid : List DefinitionError → PublishResult
  published : Published → PublishResult

unfoldable pub publish_workflow : Workflow → Db → Db × PublishResult
publish_workflow d db = elim (validate_workflow_definition d) [
  | e ∷ es ↦ (db, invalid (e ∷ es))
  | [] ↦
      let p : Published = record {
        version = suc (max_version d.item_type db.definitions);
        definition = d;
      } in
      (record db { definitions = db.definitions ++ (p ∷ []) }, published p)
]

abbrev asked : Option ℕ → Option ℕ
asked none = none
asked (some v) = if v == 0 then none else some v

abbrev built_in_version : String → Option Published
built_in_version t = elim (built_in t) [
  | none ↦ none
  | some d ↦ some (record { version = 1; definition = d })
]

-- A version of 0 counts as none.
unfoldable pub get_workflow_definition :
    String → (version : Option ℕ) → List Published → Option Published
get_workflow_definition t version ps = elim (asked version) [
  | none ↦ elim (row_of t (max_version t ps) ps) [ none ↦ built_in_version t | some p ↦ some p ]
  | some v ↦ elim (row_of t v ps) [
    | none ↦ if v == 1 then built_in_version t else none
    | some p ↦ some p
  ]
]

pub record Request : Type 0 where
  pub work_item_id : String
  pub org_id : String
  pub to_state : String
  pub actor_id : String
  pub actor_role : String
  pub actor_kind : Option ActorType
  pub fields : List (String × Json)

pub data TransitionError : Type 0 where
  not_found externally_owned not_allowed changed_before_commit : TransitionError
  guard_failed : (missing_role : String) → TransitionError
  missing_required_fields : List String → TransitionError

unfoldable pub find_item : (id org_id : String) → List WorkItem → Option WorkItem
find_item id org [] = none
find_item id org (x ∷ xs) =
    if str_eq id x.id && str_eq org x.org_id then some x else find_item id org xs

unfoldable pub find_rule : (from to : String) → List Rule → Option Rule
find_rule a b [] = none
find_rule a b (r ∷ rs) = if str_eq a r.from && str_eq b r.to then some r else find_rule a b rs

abbrev pub transitions_of : Option Published → List Rule
transitions_of none = []
transitions_of (some p) = p.definition.transitions

-- `undefined`, `null` or the empty text.
abbrev pub is_missing : Option Json → Bool
is_missing none = true
is_missing (some null) = true
is_missing (some (string s)) = str_eq s ""
is_missing (some _) = false

unfoldable pub missing_fields : List String → List (String × Json) → List String
missing_fields [] fs = []
missing_fields (k ∷ ks) fs =
    if is_missing (field_at k fs) then k ∷ missing_fields ks fs else missing_fields ks fs

-- An empty guard text is falsy.
abbrev pub refused_role : Option RoleGuard → String → Option String
refused_role none role = none
refused_role (some (object_guard r rs)) role = evaluate_role_guard (object_guard r rs) role
refused_role (some (text_guard g)) role =
    if str_eq g "" then none else evaluate_role_guard (text_guard g) role

-- What `commitStateChange` is called with.
pub record Change : Type 0 where
  pub item : WorkItem
  pub to_state : String
  pub at : ℕ
  pub actor_kind : ActorType
  pub actor_id : String
  pub supplied : List (String × Json)
  pub merged : List (String × Json)

pub data Checked : Type 0 where
  refused : TransitionError → Checked
  change : Change → Checked

unfoldable pub check_rule : (now : ℕ) → Request → WorkItem → Rule → Checked
check_rule now r item rule = elim (refused_role rule.guard r.actor_role) [
  | some role ↦ refused (guard_failed role)
  | none ↦
      let merged = merge_fields item.custom_fields r.fields in
      elim (missing_fields rule.requires_fields merged) [
        | k ∷ ks ↦ refused (missing_required_fields (k ∷ ks))
        | [] ↦ change (record {
          item = item;
          to_state = r.to_state;
          at = now;
          actor_kind = or_else r.actor_kind user;
          actor_id = r.actor_id;
          supplied = r.fields;
          merged = merged;
        })
      ]
]

-- The steps 1 to 4 of `transitionWorkItem`.
unfoldable pub check_transition : (now : ℕ) → Request → Db → Checked
check_transition now r db = elim (find_item r.work_item_id r.org_id db.work_items) [
  | none ↦ refused not_found
  | some item ↦
      if item.from_connector
      then refused externally_owned
      else elim (find_rule item.status r.to_state (
          transitions_of
            (get_workflow_definition item.item_type item.workflow_version db.definitions))) [
              | none ↦ refused not_allowed
              | some rule ↦ check_rule now r item rule
            ]
]
