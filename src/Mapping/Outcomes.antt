-- ===== src/Mapping/Outcomes.antt =====
-- modules/connectors/mapping/field-mapping-evaluator.ts: what `evaluateFieldMapping` returns.
use mathlib.Core.List.{append_assoc, append-nil}
use cadena.Prelude.{
  ◌&&◌, All, ◌≡◌, refl, sym, ◌∙◌, Bool, true, false, Bool-cases, Option, none, some, List, [], ◌∷◌,
  ◌++◌, if◌then◌else◌, inl, inr, arith, map,
}
use cadena.Prelude.Text.{Text, text_eq, text_eq_iff}
use cadena.Audit.Canonical.{Json, Fields, empty}
use cadena.Mapping.{
  ConditionalCase, conditional, Rule, Direction, Outcome, applied, unchanged, held, Evaluation,
  record_outcome, runs_in, evaluate_rules, nothing_written, outcome_of, evaluate_field_mapping,
}
use cadena.Mapping.Path.{is_own_path, get_path, segments, get_from, field_at}
use cadena.Mapping.Written.{part, all_segments, get_path-kept, get_path-written, get_from-none}

abbrev pub rules_of : Direction → List Rule → List Rule
rules_of d [] = []
rules_of d (r ∷ rs) = if runs_in d r.direction then r ∷ rules_of d rs else rules_of d rs

-- The value that an outcome gives its target.
abbrev pub written_of : Outcome → Option Json
written_of (applied v) = some v
written_of _ = none

abbrev pub holds_up : Outcome → Bool
holds_up (held why) = true
holds_up _ = false

abbrev pub some_held : List (Rule × Outcome) → Bool
some_held [] = false
some_held (o ∷ os) = if holds_up o.1 then true else some_held os

-- Each rule of a list writes apart from a path.
abbrev pub Apart : Text → List Rule → Type 0
Apart path = All (λ r. part (all_segments r.target_field) (all_segments path) ≡ true)

-- The targets of the rules part pairwise.
abbrev pub AreApart : List Rule → Type 0
AreApart [] = Unit
AreApart (r ∷ rs) = Apart r.target_field rs × AreApart rs

-- Each rule's target reads what the outcome wrote.
abbrev pub AllWritten : (outcome : Rule → Outcome) → Fields → List Rule → Type 0
AllWritten outcome fs = All (λ r. get_path fs r.target_field ≡ written_of (outcome r))

part_comm : (ss ts : List Text) → part ss ts ≡ true → part ts ss ≡ true
part_comm [] ts h = ground arith
part_comm (s ∷ ss) [] h = ground arith
part_comm (s ∷ ss) (t ∷ ts) h = elim (Bool-cases (text_eq t s)) [
  | inr n ↦ rw n refl
  | inl y ↦ rw y (part_comm ss ts (ground (arith, text_eq_iff s t, text_eq_iff t s)))
]

step_kept :
    (r : Rule) (o : Outcome) (e : Evaluation) (path : Text)
    → part (all_segments r.target_field) (all_segments path) ≡ true
    → get_path (record_outcome r o e).fields path ≡ get_path e.fields path
step_kept r (held why) e path h = refl
step_kept r unchanged e path h = refl
step_kept r (applied v) e path h = get_path-kept e.fields r.target_field path v h

step_written :
    (r : Rule) (o : Outcome) (e : Evaluation)
    → get_path e.fields r.target_field ≡ none
    → get_path (record_outcome r o e).fields r.target_field ≡ written_of o
step_written r (held why) e h = h
step_written r unchanged e h = h
step_written r (applied v) e h = get_path-written e.fields r.target_field v

run_kept :
    (outcome : Rule → Outcome) (d : Direction) (rs : List Rule) (e : Evaluation) (path : Text)
    → Apart path (rules_of d rs)
    → get_path (evaluate_rules outcome d rs e).fields path ≡ get_path e.fields path
unfolding evaluate_rules
run_kept outcome d [] e path h = refl
run_kept outcome d (r ∷ rs) e path h = elim (Bool-cases (runs_in d r.direction)) [
  | inr n ↦ rw n (run_kept outcome d rs e path (rw n at h))
  | inl y ↦
      let (first, others) = rw y at h in
      rw y (run_kept outcome d rs (record_outcome r (outcome r) e) path others)
      ∙ step_kept r (outcome r) e path first
]

-- No target of the rules is written yet.
abbrev AllMissing : Fields → List Rule → Type 0
AllMissing = AllWritten (λ r. unchanged)

missing_kept :
    (r : Rule) (o : Outcome) (e : Evaluation) (rs : List Rule)
    → Apart r.target_field rs
    → AllMissing e.fields rs
    → AllMissing (record_outcome r o e).fields rs
missing_kept r o e [] a m = m
missing_kept r o e (q ∷ rs) (p, a) (n, m) = (
  step_kept r o e q.target_field
        (part_comm (all_segments q.target_field) (all_segments r.target_field) p)
      ∙ n,
  missing_kept r o e rs a m,
)

run_written :
    (outcome : Rule → Outcome) (d : Direction) (rs : List Rule) (e : Evaluation)
    → AreApart (rules_of d rs)
    → AllMissing e.fields (rules_of d rs)
    → AllWritten outcome (evaluate_rules outcome d rs e).fields (rules_of d rs)
unfolding evaluate_rules
run_written outcome d [] e a m = m
run_written outcome d (r ∷ rs) e a m = elim (Bool-cases (runs_in d r.direction)) [
  | inr n ↦ rw n (run_written outcome d rs e (rw n at a) (rw n at m))
  | inl y ↦
      let (first, others) = rw y at a in
      let (missing, none_else) = rw y at m in
      let next = record_outcome r (outcome r) e in
      rw y (
        run_kept outcome d rs next r.target_field first ∙ step_written r (outcome r) e missing,
        run_written outcome d rs next others
            (missing_kept r (outcome r) e (rules_of d rs) first none_else),
      )
]

get_path-empty : (path : Text) → get_path empty path ≡ none
unfolding get_path get_from field_at
get_path-empty path = get_from-none (segments path).1

all_missing : (rs : List Rule) → AllMissing empty rs
all_missing [] = tt
all_missing (r ∷ rs) = (get_path-empty r.target_field, all_missing rs)

step_reports :
    (r : Rule) (o : Outcome) (e : Evaluation) (os : List (Rule × Outcome))
    → (record_outcome r o e).outcomes ++ os ≡ e.outcomes ++ (r, o) ∷ os
step_reports r (held why) e os = append_assoc e.outcomes ((r, held why) ∷ []) os
step_reports r unchanged e os = append_assoc e.outcomes ((r, unchanged) ∷ []) os
step_reports r (applied v) e os = append_assoc e.outcomes ((r, applied v) ∷ []) os

some_held-last :
    (os : List (Rule × Outcome)) (r : Rule) (o : Outcome)
    → some_held (os ++ (r, o) ∷ []) ≡ (if holds_up o then true else some_held os)
some_held-last [] r o = refl
some_held-last (q ∷ os) r o = ground (arith, some_held-last os r o)

step_told :
    (r : Rule) (o : Outcome) (e : Evaluation)
    → e.is_held ≡ some_held e.outcomes
    → (record_outcome r o e).is_held ≡ some_held (record_outcome r o e).outcomes
step_told r (held why) e h = sym (some_held-last e.outcomes r (held why))
step_told r unchanged e h = h ∙ sym (some_held-last e.outcomes r unchanged)
step_told r (applied v) e h = h ∙ sym (some_held-last e.outcomes r (applied v))

run_reports :
    (outcome : Rule → Outcome) (d : Direction) (rs : List Rule) (e : Evaluation)
    → e.is_held ≡ some_held e.outcomes
    → ((evaluate_rules outcome d rs e).outcomes
        ≡ e.outcomes ++ map (λ r. (r, outcome r)) (rules_of d rs))
      × ((evaluate_rules outcome d rs e).is_held
          ≡ some_held (evaluate_rules outcome d rs e).outcomes)
unfolding evaluate_rules
run_reports outcome d [] e h = (sym (append-nil e.outcomes), h)
run_reports outcome d (r ∷ rs) e h = elim (Bool-cases (runs_in d r.direction)) [
  | inr n ↦ rw n (run_reports outcome d rs e h)
  | inl y ↦
      let (reported, told) =
        run_reports outcome d rs (record_outcome r (outcome r) e) (step_told r (outcome r) e h) in
      rw y (reported ∙ step_reports r (outcome r) e _, told)
]

-- Each rule of the direction is reported with its outcome, in the order of the rules, and the
-- translation is held exactly if some outcome is.
pub evaluate_field_mapping_reports :
    (run_script : Text → Option Json) (target_has : Text → Bool) (rules : List Rule) (d : Direction)
    (source : Fields)
    → ((evaluate_field_mapping run_script target_has rules d source).outcomes
        ≡ map (λ r. (r, outcome_of run_script target_has source r)) (rules_of d rules))
      × ((evaluate_field_mapping run_script target_has rules d source).is_held
          ≡ some_held (evaluate_field_mapping run_script target_has rules d source).outcomes)
unfolding evaluate_field_mapping
evaluate_field_mapping_reports run_script target_has rules d source =
    run_reports (outcome_of run_script target_has source) d rules nothing_written refl

-- The paths of a rule: its two fields, and those that its cases read.
abbrev pub are_own_cases : List ConditionalCase → Bool
are_own_cases [] = true
are_own_cases (c ∷ cs) = is_own_path c.when_field && are_own_cases cs

abbrev pub is_own_rule : Rule → Bool
is_own_rule r =
    (is_own_path r.source_field && is_own_path r.target_field)
    && elim r.transform [ conditional cases otherwise ↦ are_own_cases cases | _ ↦ true ]

-- Where no path has a key of Object.prototype, and the targets of the rules of the direction part
-- pairwise, each target reads the value of its rule's outcome, and nothing where the rule was held or
-- left unchanged; a path that parts from all of the targets reads nothing.
pub evaluate_field_mapping-AllWritten :
    (run_script : Text → Option Json) (target_has : Text → Bool) (rules : List Rule) (d : Direction)
    (source : Fields) (path : Text)
    → All (λ r. is_own_rule r ≡ true) (rules_of d rules)
    → is_own_path path ≡ true
    → AreApart (rules_of d rules)
    → Apart path (rules_of d rules)
    → let fields = (evaluate_field_mapping run_script target_has rules d source).fields in
      AllWritten (outcome_of run_script target_has source) fields (rules_of d rules)
      × (get_path fields path ≡ none)
unfolding evaluate_field_mapping
evaluate_field_mapping-AllWritten run_script target_has rules d source path _ _ apart h =
    let outcome = outcome_of run_script target_has source in
    (
      run_written outcome d rules nothing_written apart (all_missing (rules_of d rules)),
      run_kept outcome d rules nothing_written path h ∙ get_path-empty path,
    )
