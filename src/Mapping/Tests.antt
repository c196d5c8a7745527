-- ===== src/Mapping/Tests.antt =====
-- modules/connectors/mapping/field-mapping-evaluator.ts: mappings at concrete inputs.
use cadena.Prelude.{◌≡◌, refl, Bool, true, Option, none, some, List, [], ◌∷◌, map}
use cadena.Prelude.Text.{Text, codes, text_eq}
use cadena.Audit.Canonical.{Json, object, string, Fields, empty, field}
use cadena.Mapping.{
  Rule, Direction, source_to_target, target_to_source, held, Transform, direct, value_table,
  conditional, no_conditional_match, evaluate_field_mapping, evaluate_rules, outcome_of,
  resolve_transform, string_of, first_case, matches,
}
use cadena.Mapping.Path.{
  get_path, set_path, segments, split_from, get_from, set_in, field_at, put_field, is_own_path,
}
use cadena.Mapping.Written.{get_path-set_path}
use cadena.Mapping.Outcomes.{
  rules_of, some_held, AllWritten, evaluate_field_mapping_reports,
  evaluate_field_mapping-AllWritten,
}

abbrev rule : Direction → Text → Text → Transform → Rule
rule d from to t = record {
  direction = some d;
  source_field = from;
  target_field = to;
  transform = t;
}

abbrev priorities : Transform
priorities = value_table ((codes "High", string (codes "2")) ∷ []) none

abbrev record_fields : Fields
record_fields =
    field (codes "priority") (string (codes "hIGH"))
      (field (codes "team") (object (field (codes "name") (string (codes "Ops")) empty)) empty)

abbrev rules : List Rule
rules =
    rule source_to_target (codes "priority") (codes "fields.priority.id") priorities
    ∷ rule target_to_source (codes "team.name") (codes "fields.back") direct
    ∷ rule source_to_target (codes "team.name") (codes "fields.priority.owner") direct
    ∷ rule source_to_target (codes "team.lead") (codes "fields.lead") direct
    ∷ rule source_to_target (codes "team.name") (codes "urgency") priorities
    ∷ []

abbrev no_script : Text → Option Json
no_script code = none

abbrev always_there : Text → Bool
always_there path = true

abbrev result : Fields
result = (evaluate_field_mapping no_script always_there rules source_to_target record_fields).fields

case_folded : get_path result (codes "fields.priority.id") ≡ some (string (codes "2"))
unfolding evaluate_field_mapping evaluate_rules outcome_of resolve_transform string_of get_path
    set_path segments split_from get_from set_in field_at put_field text_eq
case_folded = refl

holds_the_whole :
    (evaluate_field_mapping no_script always_there rules source_to_target record_fields).is_held
    ≡ true
unfolding evaluate_field_mapping evaluate_rules outcome_of resolve_transform string_of get_path
    set_path segments split_from get_from set_in field_at put_field text_eq
holds_the_whole = refl

-- A case on `$value` reads the value, whole.
no_case_matches :
    resolve_transform no_script
      (conditional
        (record {
          when_field = codes "$value";
          equals = codes "low";
          then_value = string (codes "4");
        }
          ∷ [])
        none)
      (string (codes "LOWER"))
      empty
    ≡ held no_conditional_match
unfolding resolve_transform first_case matches string_of text_eq
no_case_matches = refl

get_path-set_path_example :
    (get_path
        (set_path record_fields (codes "team.name") (string (codes "Dev")))
        (codes "team.name")
      ≡ some (string (codes "Dev")))
    × (get_path
          (set_path record_fields (codes "team.name") (string (codes "Dev")))
          (codes "team.lead")
        ≡ get_path record_fields (codes "team.lead"))
unfolding segments split_from text_eq is_own_path
get_path-set_path_example =
    get_path-set_path record_fields (codes "team.name") (codes "team.lead") (string (codes "Dev"))
      refl refl refl

evaluate_field_mapping_reports_example :
    ((evaluate_field_mapping no_script always_there rules source_to_target record_fields).outcomes
      ≡ map
          (λ r. (r, outcome_of no_script always_there record_fields r))
          (rules_of source_to_target rules))
    × ((evaluate_field_mapping no_script always_there rules source_to_target record_fields).is_held
        ≡ some_held
            (evaluate_field_mapping no_script always_there rules source_to_target
              record_fields).outcomes)
evaluate_field_mapping_reports_example =
    evaluate_field_mapping_reports no_script always_there rules source_to_target record_fields

evaluate_field_mapping-AllWritten_example :
    AllWritten
      (outcome_of no_script always_there record_fields)
      result
      (rules_of source_to_target rules)
    × (get_path result (codes "summary") ≡ none)
unfolding segments split_from text_eq is_own_path
evaluate_field_mapping-AllWritten_example =
    evaluate_field_mapping-AllWritten no_script always_there rules source_to_target record_fields
      (codes "summary") (refl, (refl, (refl, (refl, tt)))) refl
      ((refl, (refl, (refl, tt))), ((refl, (refl, tt)), ((refl, tt), (tt, tt))))
      (refl, (refl, (refl, (refl, tt))))
