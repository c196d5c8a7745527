-- ===== src/Flow/Cost/Sorting.antt =====
-- modules/flow/cost-of-delay.ts: the order of the rules, and lists sorted by it.
use cadena.Prelude.{◌≡◌, ◌↔◌, ◌⊎◌, true, false, Bool-cases, List, [], ◌∷◌, inl, inr, arith}
use cadena.Prelude.Text.{text_lt_asym, text_lt_total, text_lt_trans}
use cadena.Flow.Cost.{CostRule, ItemScope, applies, beats, candidates, insert_rule, sort_rules}

abbrev pub Among : CostRule → List CostRule → Type 0
Among r [] = ⊥
Among r (x ∷ xs) = (r ≡ x) ⊎ Among r xs

beats_asym : (a b : CostRule) → beats a b ≡ true → beats b a ≡ false
unfolding beats
beats_asym a b h = ground (arith, text_lt_asym a.id b.id)

-- Not to be beaten is transitive.
beats_negative : (a b c : CostRule) → beats a b ≡ false → beats b c ≡ false → beats a c ≡ false
unfolding beats
beats_negative a b c h k = ground (
  arith,
  text_lt_total a.id b.id,
  text_lt_total b.id c.id,
  text_lt_trans b.id a.id c.id,
  text_lt_trans a.id c.id b.id,
  text_lt_trans b.id c.id a.id,
  text_lt_asym a.id b.id,
  text_lt_asym a.id c.id,
  text_lt_asym b.id c.id,
)

pub beats_total : (a b : CostRule) → beats a b ≡ false → beats b a ≡ false → a.id ≡ b.id
unfolding beats
beats_total a b h k = ground (arith, text_lt_total a.id b.id)

pub candidates_members :
    (s : ItemScope) (rules : List CostRule) (r : CostRule)
    → Among r (candidates s rules) ↔ (Among r rules × (applies s r ≡ true))
unfolding candidates
candidates_members s [] r = (λ m. absurd m, λ p. absurd p.0)
candidates_members s (x ∷ rules) r = elim (Bool-cases (applies s x)) [
  | inl t ↦ rw t (
    λ m. elim m [
      | inl e ↦ (inl e, rw e t)
      | inr n ↦ let p = (candidates_members s rules r).0 n in (inr p.0, p.1)
    ],
    λ p. elim p.0 [ inl e ↦ inl e | inr n ↦ inr ((candidates_members s rules r).1 (n, p.1)) ],
  )
  | inr t ↦ rw t (
    λ m. let p = (candidates_members s rules r).0 m in (inr p.0, p.1),
    λ p. elim p.0 [
      | inl e ↦ let other : applies s r ≡ false = rw e t in cc
      | inr n ↦ (candidates_members s rules r).1 (n, p.1)
    ],
  )
]

inserted_members :
    (r : CostRule) (rs : List CostRule) (q : CostRule)
    → Among q (insert_rule r rs) ↔ ((q ≡ r) ⊎ Among q rs)
unfolding insert_rule
inserted_members r [] q = (λ m. m, λ m. m)
inserted_members r (x ∷ rs) q = elim (Bool-cases (beats x r)) [
  | inr t ↦ rw t (λ m. m, λ m. m)
  | inl t ↦ rw t (
    λ m. elim m [
      | inl e ↦ inr (inl e)
      | inr n ↦ elim ((inserted_members r rs q).0 n) [ inl e ↦ inl e | inr k ↦ inr (inr k) ]
    ],
    λ m. elim m [
      | inl e ↦ inr ((inserted_members r rs q).1 (inl e))
      | inr (inl e) ↦ inl e
      | inr (inr k) ↦ inr ((inserted_members r rs q).1 (inr k))
    ],
  )
]

pub sorted_by_members : (rs : List CostRule) (q : CostRule) → Among q (sort_rules rs) ↔ Among q rs
unfolding sort_rules
sorted_by_members [] q = (λ m. m, λ m. m)
sorted_by_members (r ∷ rs) q = (
  λ m. elim ((inserted_members r (sort_rules rs) q).0 m) [
    | inl e ↦ inl e
    | inr n ↦ inr ((sorted_by_members rs q).0 n)
  ],
  λ m. elim m [
    | inl e ↦ (inserted_members r (sort_rules rs) q).1 (inl e)
    | inr n ↦ (inserted_members r (sort_rules rs) q).1 (inr ((sorted_by_members rs q).1 n))
  ],
)

-- What stands first in a sorted list is not beaten.
abbrev pub IsSorted : List CostRule → Type 0
IsSorted [] = Unit
IsSorted (x ∷ xs) = ((q : CostRule) → Among q xs → beats q x ≡ false) × IsSorted xs

insert_rule-IsSorted :
    (r : CostRule) (rs : List CostRule) → IsSorted rs → IsSorted (insert_rule r rs)
unfolding insert_rule
insert_rule-IsSorted r [] s = ((λ q m. absurd m), tt)
insert_rule-IsSorted r (x ∷ rs) (s, ss) = elim (Bool-cases (beats x r)) [
  | inl t ↦ rw t (
    (λ q m. elim ((inserted_members r rs q).0 m) [
      | inl e ↦ rw e (beats_asym x r t)
      | inr n ↦ s q n
    ]),
    insert_rule-IsSorted r rs ss,
  )
  | inr t ↦
      rw t ((λ q m. elim m [ inl e ↦ rw e t | inr n ↦ beats_negative q x r (s q n) t ]), (s, ss))
]

pub sort_rules-IsSorted : (rs : List CostRule) → IsSorted (sort_rules rs)
unfolding sort_rules
sort_rules-IsSorted [] = tt
sort_rules-IsSorted (r ∷ rs) = insert_rule-IsSorted r (sort_rules rs) (sort_rules-IsSorted rs)

beats_irreflexive : (r : CostRule) → beats r r ≡ false
beats_irreflexive r = elim (Bool-cases (beats r r)) [
  | inl t ↦ let u = beats_asym r r t in cc
  | inr t ↦ t
]

pub not_before :
    (x : CostRule) (xs : List CostRule) (q : CostRule)
    → ((p : CostRule) → Among p xs → beats p x ≡ false)
    → Among q (x ∷ xs)
    → beats q x ≡ false
not_before x xs q u (inl e) = rw e (beats_irreflexive x)
not_before x xs q u (inr m) = u q m
