-- ===== src/Mapping.antt =====
-- modules/connectors/mapping/field-mapping-evaluator.ts: the translation of a record's fields by the rules of a
-- published mapping. A record's values are JSON values, and a value that is written is a copy; of the
-- paths see Mapping.Path. Lower case is that of Prelude.Text. The sandbox that runs a script is an
-- argument.
pub mod Path
pub mod Written
pub mod Outcomes
mod Tests
use cadena.Prelude.{
  Bool, true, false, Option, none, some, List, [], ◌∷◌, ◌++◌, ◌==◌, not, if◌then◌else◌,
}
use cadena.Prelude.Text.{Text, codes, text_eq, to_lower, join}
use cadena.Audit.Canonical.{
  Json, null, bool, number, string, array, object, Items, nothing, item, Fields, empty, field,
}
use cadena.Mapping.Path.{get_path, set_path}

pub data Direction : Type 0 where
  source_to_target target_to_source : Direction

abbrev pub same_direction : Direction → Direction → Bool
same_direction source_to_target source_to_target = true
same_direction target_to_source target_to_source = true
same_direction _ _ = false

pub record ConditionalCase : Type 0 where
  pub when_field : Text
  pub equals : Text
  pub then_value : Json

-- A default is there if `has_default` or `has_else` says so.
pub data Transform : Type 0 where
  direct : Transform
  constant : Json → Transform
  value_table : (table : List (Text × Json)) → (default : Option Json) → Transform
  conditional : (cases : List ConditionalCase) → (otherwise : Option Json) → Transform
  script : (code : Text) → Transform

pub record Rule : Type 0 where
  pub direction : Option Direction
  pub source_field : Text
  pub target_field : Text
  pub transform : Transform

pub data HoldReason : Type 0 where
  no_source_value no_table_entry no_conditional_match : HoldReason
  script_failed schema_drift missing_required_fields : HoldReason

pub data Outcome : Type 0 where
  applied : Json → Outcome
  unchanged : Outcome
  held : HoldReason → Outcome

-- `String(value)`
mutual
  string_of : Json → Text
  string_of null = codes "null"
  string_of (bool true) = codes "true"
  string_of (bool false) = codes "false"
  string_of (number t) = t
  string_of (string t) = t
  string_of (array items) = join (b',' ∷ []) (strings_of items)
  string_of (object fields) = codes "[object Object]"

  -- In an array null has no text.
  strings_of : Items → List Text
  strings_of nothing = []
  strings_of (item null vs) = [] ∷ strings_of vs
  strings_of (item v vs) = string_of v ∷ strings_of vs

abbrev same_text : Text → Text → Bool
same_text a b = text_eq (to_lower a) (to_lower b)

abbrev find_entry : (key : Text) → List (Text × Json) → Option Json
find_entry key [] = none
find_entry key (e ∷ es) = if text_eq (to_lower e.0) key then some e.1 else find_entry key es

abbrev candidate : (source : Fields) → (value : Json) → (path : Text) → Option Json
candidate source value path =
    if text_eq path (codes "$value") then some value else get_path source path

unfoldable pub matches : Option Json → (equals : Text) → Bool
unfolding string_of
matches none equals = false
matches (some null) equals = false
matches (some v) equals = same_text (string_of v) equals

unfoldable pub first_case : (source : Fields) → (value : Json) → List ConditionalCase → Option Json
first_case source value [] = none
first_case source value (c ∷ cs) =
    if matches (candidate source value c.when_field) c.equals
    then some c.then_value
    else first_case source value cs

abbrev or_held : HoldReason → Option Json → Outcome
or_held why none = held why
or_held why (some v) = applied v

abbrev or_default : Option Json → Option Json → Option Json
or_default none d = d
or_default (some v) d = some v

module _ (run_script : Text → Option Json) where
  unfoldable pub resolve_transform : Transform → (value : Json) → (source : Fields) → Outcome
  unfolding string_of
  resolve_transform direct value source = applied value
  resolve_transform (constant v) value source = applied v
  resolve_transform (value_table table default) value source =
      or_held no_table_entry (or_default (find_entry (to_lower (string_of value)) table) default)
  resolve_transform (conditional cases otherwise) value source =
      or_held no_conditional_match (or_default (first_case source value cases) otherwise)
  resolve_transform (script code) value source = or_held script_failed (run_script code)

  -- A missing, null or empty value is not set.
  abbrev on_value : Rule → Option Json → (source : Fields) → Outcome
  on_value r none source = unchanged
  on_value r (some null) source = unchanged
  on_value r (some (string [])) source = unchanged
  on_value r (some v) source = resolve_transform r.transform v source

  unfoldable pub outcome_of : (target_has : Text → Bool) → (source : Fields) → Rule → Outcome
  outcome_of target_has source r =
      if not (target_has r.target_field)
      then held schema_drift
      else on_value r (get_path source r.source_field) source

-- What the loop over the rules carries.
pub record Evaluation : Type 0 where
  pub is_held : Bool
  pub fields : Fields
  pub outcomes : List (Rule × Outcome)

abbrev record_outcome : Rule → Outcome → Evaluation → Evaluation
record_outcome r (held why) e = record e {
  is_held = true;
  outcomes = e.outcomes ++ (r, held why) ∷ [];
}
record_outcome r unchanged e = record e { outcomes = e.outcomes ++ (r, unchanged) ∷ [] }
record_outcome r (applied v) e = record e {
  fields = set_path e.fields r.target_field v;
  outcomes = e.outcomes ++ (r, applied v) ∷ [];
}

abbrev pub runs_in : Direction → Option Direction → Bool
runs_in d none = false
runs_in d (some e) = same_direction e d

unfoldable pub evaluate_rules :
    (outcome : Rule → Outcome) → Direction → List Rule → Evaluation → Evaluation
evaluate_rules outcome d [] e = e
evaluate_rules outcome d (r ∷ rs) e =
    let skipped = evaluate_rules outcome d rs e in
    let done = evaluate_rules outcome d rs (record_outcome r (outcome r) e) in
    if runs_in d r.direction then done else skipped

abbrev pub nothing_written : Evaluation
nothing_written = record { is_held = false; fields = empty; outcomes = [] }

unfoldable pub evaluate_field_mapping :
    (run_script : Text → Option Json)
    → (target_has : Text → Bool) → List Rule
    → Direction
    → (source : Fields) → Evaluation
evaluate_field_mapping run_script target_has rules d source =
    evaluate_rules (outcome_of run_script target_has source) d rules nothing_written
