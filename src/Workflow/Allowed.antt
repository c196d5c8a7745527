-- ===== src/Workflow/Allowed.antt =====
-- What the checks of a transition establish, and what is offered.
use Prim.Native.String.{String}
use text.Mathlib.Text.{◌==◌ as str_eq}
use text.Mathlib.TextEquality.{eq_iff}
use cadena.Events.Envelope.{user}
use cadena.Workflow.Definition.{Rule}
use cadena.Workflow.Transition.{
  WorkItem, Db, Change, Request, find_item, find_rule, transitions_of, get_workflow_definition,
  refused_role, merge_fields, is_missing, field_at,
}
use cadena.Workflow.Commit.{Offer, offers_from}
use cadena.Prelude.{
  ℕ, ◌≡◌, refl, Bool, false, none, some, List, [], ◌∷◌, ◌||◌, or_else, is_some, arith, All,
}

-- What the checks of a transition have established of an item.
pub record IsAllowed (r : Request) (db : Db) (c : Change) : Type 0 where
  pub found : find_item r.work_item_id r.org_id db.work_items ≡ some c.item
  pub local : c.item.from_connector ≡ false
  pub rule : Rule
  pub in_workflow :
      find_rule c.item.status r.to_state (
        transitions_of
          (get_workflow_definition c.item.item_type c.item.workflow_version db.definitions))
      ≡ some rule
  pub role_accepted : refused_role rule.guard r.actor_role ≡ none
  pub fields_present : All (λ k. is_missing (field_at k c.merged) ≡ false) rule.requires_fields
  -- The merged fields are the item's own with the supplied ones.
  pub merged : c.merged ≡ merge_fields c.item.custom_fields r.fields
  pub supplied : c.supplied ≡ r.fields
  pub target : c.to_state ≡ r.to_state
  pub actor : c.actor_id ≡ r.actor_id

abbrev accepted : (now : ℕ) → Request → WorkItem → Change
accepted now r item = record {
  item = item;
  to_state = r.to_state;
  at = now;
  actor_kind = or_else r.actor_kind user;
  actor_id = r.actor_id;
  supplied = r.fields;
  merged = merge_fields item.custom_fields r.fields;
}

unfoldable pub offered : (to : String) → List Offer → Bool
offered to [] = false
offered to (o ∷ os) = str_eq to o.to_state || offered to os

-- The offers of an item are the targets of its rules: a state is offered exactly where a rule leads to
-- it from the item's state.
pub offers_from-find_rule :
    (from to : String) (rules : List Rule)
    → offered to (offers_from from rules) ≡ is_some (find_rule from to rules)
unfolding offers_from find_rule offered
offers_from-find_rule from to [] = refl
offers_from-find_rule from to (r ∷ rs) =
    ground (arith, eq_iff from r.from, eq_iff r.from from, offers_from-find_rule from to rs)
