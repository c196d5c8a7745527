-- ===== src/Flow/Cost/Best.antt =====
-- modules/flow/cost-of-delay.ts: the rule that `matchRule` chooses.
use mathlib.Core.Path.{subst}
use cadena.Prelude.{
  ◌≡◌, ◌↔◌, refl, sym, ◌∙◌, true, false, none, some, Option-cases, List, [], ◌∷◌, inl, inr, ◌≢◌, ap,
}
use cadena.Flow.Cost.{
  CostRule, ItemScope, applies, beats, candidates, sort_rules, first, match_rule,
}
use cadena.Flow.Cost.Sorting.{
  Among, beats_total, candidates_members, sorted_by_members, IsSorted, sort_rules-IsSorted,
  not_before,
}

-- The choice among rules: one of them, which applies, and which no other that applies beats.
pub record IsBest (rules : List CostRule) (s : ItemScope) (r : CostRule) : Type 0 where
  pub listed : Among r rules
  pub fits : applies s r ≡ true
  pub unbeaten : (q : CostRule) → Among q rules → applies s q ≡ true → beats q r ≡ false

-- An id stands for one rule.
abbrev pub HasOneIds : List CostRule → Type 0
HasOneIds rules = (q r : CostRule) → Among q rules → Among r rules → q.id ≡ r.id → q ≡ r

match_rule-IsBest :
    (rules : List CostRule) (s : ItemScope) (r : CostRule)
    → match_rule rules s ≡ some r
    → IsBest rules s r
unfolding match_rule
match_rule-IsBest rules s r e = best (sort_rules (candidates s rules)) refl e
  where
    best :
        (sorted : List CostRule)
        → sorted ≡ sort_rules (candidates s rules)
        → first sorted ≡ some r
        → IsBest rules s r
    best [] p e = cc
    best (x ∷ xs) p e =
        let same : x ≡ r = cc in
        let head = (sorted_by_members (candidates s rules) x).0 (subst (Among x) p (inl refl)) in
        let (listed, fits) = (candidates_members s rules x).0 head in
        let (unbeaten, _) : IsSorted (x ∷ xs) =
          subst IsSorted (sym p) (sort_rules-IsSorted (candidates s rules)) in
        rw (← same) (record {
          listed = listed;
          fits = fits;
          unbeaten = λ q m f. not_before x xs q unbeaten (
              subst (Among q) (sym p) (
                (sorted_by_members (candidates s rules) q).1
                  ((candidates_members s rules q).1 (m, f))));
        })

IsBest-unique :
    (rules : List CostRule) (s : ItemScope) (q r : CostRule)
    → HasOneIds rules
    → IsBest rules s q
    → IsBest rules s r
    → q ≡ r
IsBest-unique rules s q r one a b =
    one q r a.listed b.listed
      (beats_total q r (b.unbeaten q a.listed a.fits) (a.unbeaten r b.listed b.fits))

match_rule-found :
    (rules : List CostRule) (s : ItemScope) (r : CostRule)
    → Among r rules
    → applies s r ≡ true
    → match_rule rules s ≢ none
unfolding match_rule
match_rule-found rules s r m f e =
    no_first (sort_rules (candidates s rules))
      ((sorted_by_members (candidates s rules) r).1 ((candidates_members s rules r).1 (m, f))) e
  where
    no_first : (rs : List CostRule) → Among r rs → first rs ≢ none
    no_first [] n e = n
    no_first (x ∷ xs) n e = cc

-- The choice meets its contract: where an id stands for one rule, `matchRule` returns a rule exactly
-- if it is one of the rules, applies to the item, and is beaten by no other that applies, in
-- the number of its dimensions, their weight, the rate and the id.
pub match_rule_iff :
    (rules : List CostRule) (s : ItemScope) (r : CostRule)
    → HasOneIds rules
    → (match_rule rules s ≡ some r) ↔ IsBest rules s r
match_rule_iff rules s r one = (
  match_rule-IsBest rules s r,
  λ b. elim (Option-cases (match_rule rules s)) [
    | inl n ↦ absurd (match_rule-found rules s r b.listed b.fits n)
    | inr (q, e) ↦ e ∙ ap some (IsBest-unique rules s q r one (match_rule-IsBest rules s q e) b)
  ],
)

-- The order of the rules does not matter: two lists that hold the same rules, in whatever order and
-- however often, give the same choice, where an id stands for one rule.
pub match_rule_order :
    (rules others : List CostRule) (s : ItemScope)
    → HasOneIds rules
    → ((r : CostRule) → Among r rules ↔ Among r others)
    → match_rule rules s ≡ match_rule others s
match_rule_order rules others s one same = elim (Option-cases (match_rule rules s)) [
  | inl n ↦ elim (Option-cases (match_rule others s)) [
    | inl m ↦ n ∙ sym m
    | inr (q, e) ↦
        let b = match_rule-IsBest others s q e in
        absurd (match_rule-found rules s q ((same q).1 b.listed) b.fits n)
  ]
  | inr (r, e) ↦
      let b = match_rule-IsBest rules s r e in
      let there : IsBest others s r = record {
        listed = (same r).0 b.listed;
        fits = b.fits;
        unbeaten = λ q m f. b.unbeaten q ((same q).1 m) f;
      } in
      let ones : HasOneIds others = λ p q m n. one p q ((same p).1 m) ((same q).1 n) in
      e ∙ sym ((match_rule_iff others s r ones).1 there)
]
