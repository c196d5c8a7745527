-- ===== src/Flow/Cost/Tests.antt =====
-- modules/flow/cost-of-delay.ts: choices at concrete inputs.
use cadena.Prelude.{◌≡◌, ◌↔◌, refl, none, some, List, [], ◌∷◌, inl, inr, arith}
use cadena.Prelude.Text.{codes, text_eq, text_lt}
use cadena.Flow.Cost.{
  CostRule, ItemScope, match_rule, candidates, applies, sort_rules, insert_rule, beats, specificity,
  remaining_minutes, sort_numbers, insert_number, median_halves,
}
use cadena.Flow.Cost.Sorting.{Among}
use cadena.Flow.Cost.Best.{HasOneIds, IsBest, match_rule_iff}

abbrev default_rule : CostRule
default_rule = record {
  id = codes "a";
  team_id = none;
  item_type = none;
  priority = none;
  service_id = none;
  rate_per_day = 900;
}

abbrev team_rule : CostRule
team_rule = record default_rule { id = codes "b"; team_id = some (codes "t-1"); rate_per_day = 100 }

abbrev item : ItemScope
item = record {
  team_id = codes "t-1";
  item_type = codes "story";
  priority = none;
  service_ids = [];
}

abbrev rules : List CostRule
rules = default_rule ∷ team_rule ∷ []

rules-HasOneIds : HasOneIds rules
rules-HasOneIds q r (inl e) (inl f) h = cc
rules-HasOneIds q r (inl e) (inr (inl f)) h = ground arith
rules-HasOneIds q r (inr (inl e)) (inl f) h = ground arith
rules-HasOneIds q r (inr (inl e)) (inr (inl f)) h = cc
rules-HasOneIds q r (inr (inr e)) m h = absurd e
rules-HasOneIds q r (inl e) (inr (inr f)) h = absurd f
rules-HasOneIds q r (inr (inl e)) (inr (inr f)) h = absurd f

team_rule_wins : match_rule rules item ≡ some team_rule
unfolding match_rule candidates applies sort_rules insert_rule beats specificity text_eq text_lt
team_rule_wins = refl

match_rule_iff_example : (match_rule rules item ≡ some team_rule) ↔ IsBest rules item team_rule
match_rule_iff_example = match_rule_iff rules item team_rule rules-HasOneIds

swapped : (r : CostRule) → Among r rules ↔ Among r (team_rule ∷ default_rule ∷ [])
swapped r = (
  λ m. elim m [ inl e ↦ inr (inl e) | inr (inl e) ↦ inl e | inr (inr e) ↦ absurd e ],
  λ m. elim m [ inl e ↦ inr (inl e) | inr (inl e) ↦ inl e | inr (inr e) ↦ absurd e ],
)

-- The median of an even number of visits.
median_remaining : remaining_minutes (30 ∷ 10 ∷ 60 ∷ 5 ∷ []) 8 ≡ some 44
unfolding remaining_minutes sort_numbers insert_number median_halves
median_remaining = refl
