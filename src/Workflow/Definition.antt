-- ===== src/Workflow/Definition.antt =====
-- A workflow definition, the built-in ones, and `validateWorkflowDefinition`. A `Set` of states is a list
-- in the order of insertion. A search has one unit of fuel for its start and one for each transition,
-- since a state is queued once and only as the target of a transition.
use Prim.Native.String.{String}
use text.Mathlib.Text.{◌==◌ as str_eq}
use cadena.Workflow.Guard.{RoleGuard, text_guard}
use cadena.Prelude.{
  ℕ, zero, suc, Bool, true, false, Option, none, some, List, [], ◌∷◌, ◌++◌, ◌&&◌, ◌||◌,
  if◌then◌else◌, length,
}

-- `WorkflowTransitionRule`; a missing list of required fields is empty.
pub record Rule : Type 0 where
  pub from : String
  pub to : String
  pub guard : Option RoleGuard
  pub requires_fields : List String

pub record Workflow : Type 0 where
  pub item_type : String
  pub states : List String
  pub initial_state : Option String
  pub terminal_states : List String
  pub transitions : List Rule

abbrev pub plain : String → String → Rule
plain a b = record { from = a; to = b; guard = none; requires_fields = [] }

abbrev delivery_rules : List Rule
delivery_rules =
    plain "Proposed" "Planned"
    ∷ plain "Planned" "In Progress"
    ∷ plain "In Progress" "In Review"
    ∷ plain "In Review" "Blocked"
    ∷ plain "Blocked" "In Progress"
    ∷ plain "In Review" "Done"
    ∷ plain "Done" "Verified"
    ∷ plain "Verified" "Closed"
    ∷ plain "Closed" "Reopened"
    ∷ plain "Reopened" "In Progress"
    ∷ []

abbrev pub delivery : (item_type : String) → Workflow
delivery t = record {
  item_type = t;
  states =
      "Proposed" ∷ "Planned" ∷ "In Progress" ∷ "In Review" ∷ "Blocked" ∷ "Done" ∷ "Verified"
      ∷ "Closed" ∷ "Reopened" ∷ [];
  initial_state = some "Proposed";
  terminal_states = "Closed" ∷ [];
  transitions = delivery_rules;
}

abbrev pub incident : Workflow
incident = record {
  item_type = "incident";
  states =
      "Triaged" ∷ "Investigating" ∷ "Mitigated" ∷ "Resolved" ∷ "Post-incident Review" ∷ "Closed"
      ∷ [];
  initial_state = some "Triaged";
  terminal_states = "Closed" ∷ [];
  transitions =
      record (plain "Triaged" "Investigating") {
        guard = some (text_guard "actor.role in [on_call, incident_commander]");
      }
      ∷ record (plain "Investigating" "Mitigated") { requires_fields = "mitigation_summary" ∷ [] }
      ∷ record (plain "Mitigated" "Resolved") { guard = some (text_guard "incident_commander") }
      ∷ plain "Resolved" "Post-incident Review"
      ∷ plain "Post-incident Review" "Closed"
      ∷ [];
}

abbrev pub release : Workflow
release = record {
  item_type = "release";
  states = "Draft" ∷ "Ready" ∷ "Deployed" ∷ "Closed" ∷ [];
  initial_state = some "Draft";
  terminal_states = "Closed" ∷ [];
  transitions = plain "Draft" "Ready" ∷ plain "Ready" "Deployed" ∷ plain "Deployed" "Closed" ∷ [];
}

unfoldable pub built_in : (item_type : String) → Option Workflow
built_in t =
    if str_eq t "epic" || str_eq t "story"
    then some (delivery t)
    else if str_eq t "incident"
    then some incident
    else if str_eq t "release"
    then some release
    else none

pub data DefinitionError : Type 0 where
  no_states missing_initial missing_terminal : DefinitionError
  initial_not_declared terminal_not_declared source_not_declared target_not_declared :
      String → DefinitionError
  unreachable : List String → DefinitionError
  no_terminal_from : String → DefinitionError

abbrev pub has : List String → String → Bool
has [] s = false
has (x ∷ xs) s = str_eq s x || has xs s

abbrev is_nil : List String → Bool
is_nil [] = true
is_nil (x ∷ xs) = false

abbrev undeclared_terminals : List String → List String → List DefinitionError
undeclared_terminals states [] = []
undeclared_terminals states (t ∷ ts) =
    if has states t
    then undeclared_terminals states ts
    else terminal_not_declared t ∷ undeclared_terminals states ts

abbrev initial_errors : List String → Option String → List DefinitionError
initial_errors states none = missing_initial ∷ []
initial_errors states (some String.[]) = missing_initial ∷ []
initial_errors states (some (String.◌∷◌ c s)) =
    if has states (String.◌∷◌ c s) then [] else initial_not_declared (String.◌∷◌ c s) ∷ []

-- The tests in front of the first `return`.
unfoldable pub shape_errors : Workflow → List DefinitionError
shape_errors d =
    (if is_nil d.states then no_states ∷ [] else [])
    ++ (initial_errors d.states d.initial_state
        ++ (if is_nil d.terminal_states
            then missing_terminal ∷ []
            else undeclared_terminals d.states d.terminal_states))

unfoldable pub endpoint_errors : List String → List Rule → List DefinitionError
endpoint_errors states [] = []
endpoint_errors states (r ∷ rs) =
    (if has states r.from then [] else source_not_declared r.from ∷ [])
    ++ ((if has states r.to then [] else target_not_declared r.to ∷ [])
        ++ endpoint_errors states rs)

-- `adjMap.get(curr) || []`: the map has the declared states as its keys.
unfoldable pub targets_of : List String → List Rule → String → List String
targets_of states [] s = []
targets_of states (r ∷ rs) s =
    if str_eq s r.from && has states s
    then r.to ∷ targets_of states rs s
    else targets_of states rs s

-- The inner loop: what is added to the visited states, which is also what is queued.
unfoldable pub fresh_ones : (visited targets : List String) → List String
fresh_ones visited [] = []
fresh_ones visited (t ∷ ts) =
    if has visited t then fresh_ones visited ts else t ∷ fresh_ones (visited ++ (t ∷ [])) ts

-- The search for all that can be reached.
unfoldable pub explore :
    (fuel : ℕ) → List String → List Rule → (queue visited : List String) → Option (List String)
explore fuel states rules [] visited = some visited
explore zero states rules (curr ∷ queue) visited = none
explore (suc fuel) states rules (curr ∷ queue) visited =
    let new = fresh_ones visited (targets_of states rules curr) in
    explore fuel states rules (queue ++ new) (visited ++ new)

-- The search for a terminal state.
unfoldable pub finds :
    (fuel : ℕ)
    → List String
    → List Rule
    → (terminal : List String) → (queue visited : List String) → Option Bool
finds fuel states rules terminal [] visited = some false
finds zero states rules terminal (curr ∷ queue) visited = none
finds (suc fuel) states rules terminal (curr ∷ queue) visited =
    let new = fresh_ones visited (targets_of states rules curr) in
    let rest = finds fuel states rules terminal (queue ++ new) (visited ++ new) in
    if has terminal curr then some true else rest

abbrev pub missing_from : List String → List String → List String
missing_from visited [] = []
missing_from visited (s ∷ ss) =
    if has visited s then missing_from visited ss else s ∷ missing_from visited ss

abbrev pub unreachable_errors : List String → List DefinitionError
unreachable_errors [] = []
unreachable_errors (s ∷ ss) = unreachable (s ∷ ss) ∷ []

abbrev pub reach_errors : List String → Option (List String) → List DefinitionError
reach_errors states none = []
reach_errors states (some visited) = unreachable_errors (missing_from visited states)

abbrev pub fuel_of : List Rule → ℕ
fuel_of rules = suc (length rules)

abbrev pub is_found : Option Bool → Bool
is_found none = false
is_found (some b) = b

unfoldable pub stuck_errors :
    List String → List Rule → (terminal : List String) → List String → List DefinitionError
stuck_errors states rules terminal [] = []
stuck_errors states rules terminal (s ∷ ss) =
    if has terminal s || is_found (finds (fuel_of rules) states rules terminal (s ∷ []) (s ∷ []))
    then stuck_errors states rules terminal ss
    else no_terminal_from s ∷ stuck_errors states rules terminal ss

abbrev pub graph_errors : Workflow → (initial : String) → List DefinitionError
graph_errors d s =
    endpoint_errors d.states d.transitions
    ++ (reach_errors d.states
          (explore (fuel_of d.transitions) d.states d.transitions (s ∷ []) (s ∷ []))
        ++ stuck_errors d.states d.transitions d.terminal_states d.states)

-- The errors; a definition is valid if there are none.
unfoldable pub validate_workflow_definition : Workflow → List DefinitionError
validate_workflow_definition d = elim (shape_errors d) [
  | e ∷ es ↦ e ∷ es
  | [] ↦ elim d.initial_state [ none ↦ [] | some s ↦ graph_errors d s ]
]
