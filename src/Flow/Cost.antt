-- ===== src/Flow/Cost.antt =====
-- modules/flow/cost-of-delay.ts: the cost assumption that applies to an item, and what is computed from it.
-- A rate is in whole units a day, a duration of a visit in whole minutes; the result of a rounding to
-- two or four decimals is the whole number of these. Ids are compared by their code points, as
-- `localeCompare` compares UUIDs.
pub mod Best
pub mod Sorting
mod Tests
use cadena.Prelude.{
  ℕ, zero, suc, ◌+◌, ◌-◌, ◌*◌, ◌/◌, ◌%◌, Bool, true, false, Option, none, some, List, [], ◌∷◌, ◌&&◌,
  ltb, leb, ◌==◌, if◌then◌else◌, length, round_div,
}
use cadena.Prelude.Text.{Text, text_eq, text_lt}
use cadena.Sla.{SlaCalendar, business_hours, always}

pub record CostRule : Type 0 where
  pub id : Text
  pub team_id : Option Text
  pub item_type : Option Text
  pub priority : Option Text
  pub service_id : Option Text
  pub rate_per_day : ℕ

pub record ItemScope : Type 0 where
  pub team_id : Text
  pub item_type : Text
  pub priority : Option Text
  pub service_ids : List Text

-- A dimension that is set counts once, with its weight.
abbrev set_dimension : (weight : ℕ) → Option Text → ℕ × ℕ → ℕ × ℕ
set_dimension weight none acc = acc
set_dimension weight (some t) (count, total) = (count + 1, total + weight)

unfoldable pub specificity : CostRule → ℕ × ℕ
specificity r =
    set_dimension 1 r.priority (
      set_dimension 2 r.item_type (set_dimension 4 r.team_id (set_dimension 8 r.service_id (0, 0))))

abbrev includes : Text → List Text → Bool
includes t [] = false
includes t (x ∷ xs) = if text_eq x t then true else includes t xs

-- `rule.field === null || rule.field === value`
abbrev admits : Option Text → (value : Text) → Bool
admits none value = true
admits (some t) value = text_eq t value

abbrev admits_optional : Option Text → Option Text → Bool
admits_optional none value = true
admits_optional (some t) none = false
admits_optional (some t) (some v) = text_eq t v

abbrev admits_any : Option Text → List Text → Bool
admits_any none values = true
admits_any (some t) values = includes t values

unfoldable pub applies : ItemScope → CostRule → Bool
applies s r =
    admits r.team_id s.team_id
    && (admits r.item_type s.item_type
        && (admits_optional r.priority s.priority && admits_any r.service_id s.service_ids))

-- The comparison of `sort` is negative.
unfoldable pub beats : CostRule → CostRule → Bool
beats a b =
    let (ca, wa) = specificity a in
    let (cb, wb) = specificity b in
    if ltb cb ca
    then true
    else if ltb ca cb
    then false
    else if ltb wb wa
    then true
    else if ltb wa wb
    then false
    else if ltb b.rate_per_day a.rate_per_day
    then true
    else if ltb a.rate_per_day b.rate_per_day
    then false
    else text_lt a.id b.id

unfoldable pub candidates : ItemScope → List CostRule → List CostRule
candidates s [] = []
candidates s (r ∷ rs) = let rest = candidates s rs in if applies s r then r ∷ rest else rest

-- `sort`, which is stable.
unfoldable pub insert_rule : CostRule → List CostRule → List CostRule
insert_rule r [] = r ∷ []
insert_rule r (x ∷ xs) = let rest = insert_rule r xs in if beats x r then x ∷ rest else r ∷ x ∷ xs

unfoldable pub sort_rules : List CostRule → List CostRule
sort_rules [] = []
sort_rules (r ∷ rs) = insert_rule r (sort_rules rs)

abbrev pub first {ℓ} : {A : Type ℓ} → List A → Option A
first [] = none
first (x ∷ xs) = some x

unfoldable pub match_rule : List CostRule → ItemScope → Option CostRule
match_rule rules s = first (sort_rules (candidates s rules))

-- A day is a day of the calendar.
abbrev pub minutes_per_day : SlaCalendar → ℕ
minutes_per_day always = 1_440
minutes_per_day business_hours = 480

-- In hundredths.
unfoldable pub interval_cost : CostRule → (ms : ℕ) → SlaCalendar → ℕ
interval_cost rule ms calendar =
    round_div (rule.rate_per_day * ms * 100) (60_000 * minutes_per_day calendar)

abbrev pub longer_by : (current : ℕ) → List ℕ → List ℕ
longer_by current [] = []
longer_by current (d ∷ ds) =
    let rest = longer_by current ds in if ltb current d then (d - current) ∷ rest else rest

unfoldable pub insert_number : ℕ → List ℕ → List ℕ
insert_number n [] = n ∷ []
insert_number n (m ∷ ms) = let rest = insert_number n ms in if ltb m n then m ∷ rest else n ∷ m ∷ ms

unfoldable pub sort_numbers : List ℕ → List ℕ
sort_numbers [] = []
sort_numbers (n ∷ ns) = insert_number n (sort_numbers ns)

abbrev pub nth : ℕ → List ℕ → ℕ
nth k [] = 0
nth zero (n ∷ ns) = n
nth (suc k) (n ∷ ns) = nth k ns

-- In halves of a minute.
unfoldable pub median_halves : List ℕ → ℕ
median_halves ns =
    let mid = length ns / 2 in
    if length ns % 2 == 1 then 2 * nth mid ns else nth (mid - 1) ns + nth mid ns

unfoldable pub remaining_minutes : (samples : List ℕ) → (current : ℕ) → Option ℕ
remaining_minutes samples current =
    let longer = sort_numbers (longer_by current samples) in
    elim longer [ [] ↦ none | n ∷ ns ↦ some (median_halves (n ∷ ns)) ]

-- In ten-thousandths, of a remaining time in halves of a minute.
unfoldable pub priority_score : (rate_per_day remaining : ℕ) → SlaCalendar → Option ℕ
priority_score rate remaining calendar =
    if remaining == 0
    then none
    else some (round_div (rate * minutes_per_day calendar * 2 * 10_000) remaining)
