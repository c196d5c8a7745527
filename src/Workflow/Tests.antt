-- ===== src/Workflow/Tests.antt =====
-- Workflow definitions and transitions at concrete inputs, and the theorems about them.
use cadena.Sla.{always}
use cadena.Events.Envelope.{string, user}
use cadena.Workflow.Guard.{text_guard, evaluate_role_guard, roles_of}
use cadena.Workflow.Definition.{
  plain, delivery, incident, release, validate_workflow_definition, built_in, shape_errors,
  endpoint_errors, targets_of, fresh_ones, explore, finds, stuck_errors, no_terminal_from,
  unreachable,
}
use cadena.Workflow.Transition.{
  WorkItem, StatePolicy, Db, Change, Request, changed_before_commit, missing_required_fields,
  find_item, find_rule, get_workflow_definition, check_transition, check_rule, merge_fields,
  missing_fields, max_version, row_of,
}
use cadena.Workflow.Commit.{
  is_hit, event_of, failed, committed, commit_state_change, transition_work_item,
}
use cadena.Workflow.Valid.{IsSound, validate_workflow_definition_iff}
use cadena.Workflow.Commits.{commit_state_change-once}
use cadena.Prelude.{◌≡◌, refl, false, none, some, [], ◌∷◌, ◌↔◌}

delivery-valid : validate_workflow_definition (delivery "epic") ≡ []
unfolding validate_workflow_definition shape_errors endpoint_errors targets_of fresh_ones explore
    finds stuck_errors
delivery-valid = refl

incident-valid : validate_workflow_definition incident ≡ []
unfolding validate_workflow_definition shape_errors endpoint_errors targets_of fresh_ones explore
    finds stuck_errors
incident-valid = refl

release-valid : validate_workflow_definition release ≡ []
unfolding validate_workflow_definition shape_errors endpoint_errors targets_of fresh_ones explore
    finds stuck_errors
release-valid = refl

delivery_shape : shape_errors (delivery "story") ≡ []
unfolding shape_errors
delivery_shape = refl

validate_workflow_definition_iff_example :
    (validate_workflow_definition (delivery "story") ≡ []) ↔ IsSound (delivery "story") "Proposed"
validate_workflow_definition_iff_example =
    validate_workflow_definition_iff (delivery "story") "Proposed" refl delivery_shape

-- Without its last rule no state of a release ends, and the last one cannot be reached.
cut_release :
    validate_workflow_definition
      (record release { transitions = plain "Draft" "Ready" ∷ plain "Ready" "Deployed" ∷ [] })
    ≡ unreachable ("Closed" ∷ [])
      ∷ no_terminal_from "Draft"
      ∷ no_terminal_from "Ready"
      ∷ no_terminal_from "Deployed"
      ∷ []
unfolding validate_workflow_definition shape_errors endpoint_errors targets_of fresh_ones explore
    finds stuck_errors
cut_release = refl

listed_role :
    evaluate_role_guard
      (text_guard "actor.role in [on_call, incident_commander]")
      "incident_commander"
    ≡ none
unfolding evaluate_role_guard roles_of
listed_role = refl

other_role :
    evaluate_role_guard (text_guard "actor.role in [on_call, incident_commander]") "developer"
    ≡ some "on_call or incident_commander"
unfolding evaluate_role_guard roles_of
other_role = refl

-- A list without its closing bracket lets every role pass.
open_list : evaluate_role_guard (text_guard "actor.role in [admin") "developer" ≡ none
unfolding evaluate_role_guard roles_of
open_list = refl

abbrev outage : WorkItem
outage = record {
  id = "i1";
  org_id = "acme";
  item_type = "incident";
  status = "Investigating";
  from_connector = false;
  workflow_version = some 1;
  custom_fields = [];
  entered_state_at = some 60_000;
  created_at = 0;
  sla_elapsed_minutes = 7;
  sla_clock_started_at = none;
  sla_suspended = false;
}

abbrev desk : Db
desk = record {
  work_items = outage ∷ [];
  policies = [];
  definitions = [];
  audit_events = [];
  outbox = [];
}

abbrev mitigate : Request
mitigate = record {
  work_item_id = "i1";
  org_id = "acme";
  to_state = "Mitigated";
  actor_id = "u1";
  actor_role = "developer";
  actor_kind = none;
  fields = ("mitigation_summary", string "rolled back") ∷ [];
}

abbrev mitigated : Change
mitigated = record {
  item = outage;
  to_state = "Mitigated";
  at = 120_000;
  actor_kind = user;
  actor_id = "u1";
  supplied = ("mitigation_summary", string "rolled back") ∷ [];
  merged = ("mitigation_summary", string "rolled back") ∷ [];
}

summary_missing :
    (transition_work_item 120_000 (record mitigate { fields = [] }) desk desk).1
    ≡ failed (missing_required_fields ("mitigation_summary" ∷ []))
unfolding transition_work_item check_transition find_item find_rule get_workflow_definition
    max_version row_of built_in check_rule merge_fields missing_fields
summary_missing = refl

first_commits : (commit_state_change mitigated desk).1 ≡ committed (event_of mitigated)
unfolding commit_state_change is_hit
first_commits = refl

commit_state_change-once_example :
    let left = (commit_state_change mitigated desk).0 in
    commit_state_change (record mitigated { to_state = "Closed" }) left
    ≡ (left, failed changed_before_commit)
commit_state_change-once_example =
    commit_state_change-once mitigated (record mitigated { to_state = "Closed" }) desk
      (event_of mitigated) refl refl refl refl first_commits

abbrev around_the_clock : StatePolicy
around_the_clock = record {
  org_id = "acme";
  item_type = "incident";
  state = "Investigating";
  calendar = always;
  suspend_sla = false;
}
