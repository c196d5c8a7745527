-- ===== src/Impact/Rounds.antt =====
-- modules/lineage/impact.service.ts: what every round of the traversal keeps.
use Prim.Native.String.{String}
use text.Mathlib.Text.{◌==◌ as str_eq}
use text.Mathlib.TextEquality.{eq_iff}
use cadena.Prelude.{
  ℕ, suc, ◌≤◌, ◌≡◌, sym, ◌∙◌, true, false, none, some, List, [], ◌∷◌, ◌++◌, leb, arith, Bool-cases,
  Option-cases, inl, inr, ◌⊎◌, All,
}
use cadena.Impact.{Link, Node, load_neighbours, includes, distance_of, fresh_nodes}
use cadena.Impact.Walk.{Walk, hop, adjacent, distance_of-append, distance_of-kept}
use cadena.Impact.Fresh.{fresh_nodes-IsFresh, fresh_nodes-covers, IsFresh, All-map}
use cadena.Impact.Measure.{IsFar, fresh_nodes-found}

-- The first of the queue is at most one hop nearer than a visited item.
abbrev pub NextIsNear : ℕ → List Node → Type 0
NextIsNear d [] = Unit
NextIsNear d (c ∷ q) = d ≤ suc c.distance

abbrev pub IsOrdered : List Node → Type 0
IsOrdered [] = Unit
IsOrdered (c ∷ q) = All (λ n. c.distance ≤ n.distance) q × IsOrdered q

abbrev pub IsQueued : String → ℕ → List Node → Type 0
IsQueued x d [] = ⊥
IsQueued x d (c ∷ q) = ((c.id ≡ x) × (c.distance ≡ d)) ⊎ IsQueued x d q

IsQueued-append : (x : String) (d : ℕ) (q w : List Node) → IsQueued x d q → IsQueued x d (q ++ w)
IsQueued-append x d [] w m = absurd m
IsQueued-append x d (c ∷ q) w (inl e) = inl e
IsQueued-append x d (c ∷ q) w (inr m) = inr (IsQueued-append x d q w m)

IsQueued-behind : (x : String) (d : ℕ) (q w : List Node) → IsQueued x d w → IsQueued x d (q ++ w)
IsQueued-behind x d [] w m = m
IsQueued-behind x d (c ∷ q) w m = inr (IsQueued-behind x d q w m)

All-append {ℓ κ} :
    {A : Type ℓ} (P : A → Type κ) (xs ys : List A) → All P xs → All P ys → All P (xs ++ ys)
All-append P [] ys h k = k
All-append P (x ∷ xs) ys (h, hs) k = (h, All-append P xs ys hs k)

-- A lookup finds a node of the list.
looked_up :
    (x : String) (d : ℕ) (w : List Node) (P : Node → Type 0)
    → All P w
    → distance_of x w ≡ some d
    → IsQueued x d w × ((n : Node) × (n.id ≡ x) × (n.distance ≡ d) × P n)
unfolding distance_of
looked_up x d [] P h e = cc
looked_up x d (n ∷ w) P (h, hs) e = elim (Bool-cases (str_eq n.id x)) [
  | inl t ↦
      let same = (eq_iff n.id x).0 t in
      let far : n.distance ≡ d = ground arith in (inl (same, far), (n, same, far, h))
  | inr t ↦ let (m, rest) = looked_up x d w P hs (rw t at e) in (inr m, rest)
]

NextIsNear-from :
    (d k : ℕ) (q : List Node) → d ≤ suc k → All (λ n. k ≤ n.distance) q → NextIsNear d q
NextIsNear-from d k [] h a = tt
NextIsNear-from d k (c ∷ q) h (a, rest) = omega (arith, h, a)

IsFar-above : (k l : ℕ) (w : List Node) → l ≤ k → IsFar k w → All (λ n. l ≤ n.distance) w
IsFar-above k l w h f = All-map (λ n e. omega (arith, e, h)) w f

pub IsFar-IsOrdered : (k : ℕ) (w : List Node) → IsFar k w → IsOrdered w
IsFar-IsOrdered k [] f = tt
IsFar-IsOrdered k (n ∷ w) (e, f) =
    (IsFar-above k n.distance w (omega (arith, e)) f, IsFar-IsOrdered k w f)

IsOrdered-append :
    (k : ℕ) (q w : List Node)
    → IsOrdered q
    → All (λ n. n.distance ≤ k) q
    → IsFar k w
    → IsOrdered (q ++ w)
IsOrdered-append k [] w o a f = IsFar-IsOrdered k w f
IsOrdered-append k (c ∷ q) w (o, os) (a, rest) f = (
  All-append (λ n. c.distance ≤ n.distance) q w o (IsFar-above k c.distance w a f),
  IsOrdered-append k q w os rest f,
)

visited_or_fresh :
    (v w : List Node) (x : String) (d : ℕ)
    → distance_of x (v ++ w) ≡ some d
    → (distance_of x v ≡ some d) ⊎ ((distance_of x v ≡ none) × (distance_of x w ≡ some d))
visited_or_fresh v w x d e = elim (Option-cases (distance_of x v)) [
  | inl n ↦ inr (n, (rw (distance_of-append, n) at e))
  | inr (k, f) ↦ inl (f ∙ sym (distance_of-kept x v w k f) ∙ e)
]

module _ (key_of : String → String) (types : List String) (links : List Link) (seeds : List String)
    (depth : ℕ) where
  -- All that one hop from an item leads to has been visited, at most one hop further.
  abbrev pub IsExpanded : String → ℕ → List Node → Type 0
  IsExpanded x d v =
      (suc d ≤ depth)
      → (y : String) → adjacent types links x y ≡ true
      → (e : ℕ) × (distance_of y v ≡ some e) × (e ≤ suc d)

  pub record IsState (v q : List Node) : Type 0 where
    pub seeded : (x : String) → includes seeds x ≡ true → distance_of x v ≡ some 1
    pub walked :
        (x : String) (d : ℕ) → distance_of x v ≡ some d → Walk types links seeds d x × (d ≤ depth)
    pub found : All (λ n. distance_of n.id v ≡ some n.distance) q
    pub near : (x : String) (d : ℕ) → distance_of x v ≡ some d → NextIsNear d q
    pub ordered : IsOrdered q
    pub expanded :
        (x : String) (d : ℕ) → distance_of x v ≡ some d → IsQueued x d q ⊎ IsExpanded x d v

  IsExpanded-kept :
      (x : String) (d : ℕ) (v w : List Node) → IsExpanded x d v → IsExpanded x d (v ++ w)
  IsExpanded-kept x d v w h l y a = let (e, f, g) = h l y a in (e, distance_of-kept y v w e f, g)

  too_far : (c : Node) (d : ℕ) → c.distance ≡ d → leb depth c.distance ≡ true → suc d ≤ depth → ⊥
  too_far c d k far l = ground arith

  not_too_far : (c : Node) → leb depth c.distance ≡ false → suc c.distance ≤ depth
  not_too_far c h = ground arith

  pub skip-IsState :
      (c : Node) (v q : List Node) → leb depth c.distance ≡ true → IsState v (c ∷ q) → IsState v q
  skip-IsState c v q far s = record {
    seeded = s.seeded;
    walked = s.walked;
    found = s.found.1;
    near = λ x d e. NextIsNear-from d c.distance q (s.near x d e) s.ordered.0;
    ordered = s.ordered.1;
    expanded = λ x d e. elim (s.expanded x d e) [
      | inl (inl (i, k)) ↦ inr (λ l y a. absurd (too_far c d k far l))
      | inl (inr m) ↦ inl m
      | inr h ↦ inr h
    ];
  }

  -- The current item is expanded by its round.
  round-IsExpanded :
      (c : Node) (v q : List Node)
      → IsState v (c ∷ q)
      → IsExpanded c.id c.distance (v ++ fresh_nodes key_of types c (load_neighbours c.id links) v)
  round-IsExpanded c v q s l y a = elim (Option-cases (distance_of y v)) [
    | inr (e, f) ↦ (e, distance_of-kept y v _ e f, s.near y e f)
    | inl f ↦ (
      suc c.distance,
      rw (distance_of-append, f)
          (fresh_nodes-covers key_of types c (load_neighbours c.id links) v y a f),
      omega arith,
    )
  ]

  pub round-IsState :
      (c : Node) (v q : List Node)
      → leb depth c.distance ≡ false
      → IsState v (c ∷ q)
      → IsState
          (v ++ fresh_nodes key_of types c (load_neighbours c.id links) v)
          (q ++ fresh_nodes key_of types c (load_neighbours c.id links) v)
  round-IsState c v q within s =
      let w = fresh_nodes key_of types c (load_neighbours c.id links) v in
      let fresh = fresh_nodes-IsFresh key_of types c (load_neighbours c.id links) v in
      let far : IsFar (suc c.distance) w = All-map (λ n f. f.far) w fresh in
      let above : All (λ n. c.distance ≤ n.distance) (q ++ w) =
        All-append (λ n. c.distance ≤ n.distance) q w s.ordered.0
          (IsFar-above (suc c.distance) c.distance w (omega arith) far) in
      let below : All (λ n. n.distance ≤ suc c.distance) q =
        All-map (λ n e. s.near n.id n.distance e) q s.found.1 in
      record {
        seeded = λ x m. distance_of-kept x v w 1 (s.seeded x m);
        walked = λ x d e. elim (visited_or_fresh v w x d e) [
          | inl f ↦ s.walked x d f
          | inr (_, f) ↦
              let (_, (n, i, k, new)) =
                looked_up x d w (IsFresh key_of types c (load_neighbours c.id links) v) fresh f in
              let (walk, _) = s.walked c.id c.distance s.found.0 in
              let step : d ≡ suc c.distance = sym k ∙ new.far in
              (rw (step, ← i) (hop n.id walk new.next), omega (arith, step, not_too_far c within))
        ];
        found =
            All-append (λ n. distance_of n.id (v ++ w) ≡ some n.distance) q w
              (All-map (λ n e. distance_of-kept n.id v w n.distance e) q s.found.1)
              (fresh_nodes-found key_of types c (load_neighbours c.id links) v);
        near = λ x d e. elim (visited_or_fresh v w x d e) [
          | inl f ↦ NextIsNear-from d c.distance (q ++ w) (s.near x d f) above
          | inr (_, f) ↦
              let (_, (n, i, k, new)) =
                looked_up x d w (IsFresh key_of types c (load_neighbours c.id links) v) fresh f in
              let step : d ≡ suc c.distance = sym k ∙ new.far in
              NextIsNear-from d c.distance (q ++ w) (omega (arith, step)) above
        ];
        ordered = IsOrdered-append (suc c.distance) q w s.ordered.1 below far;
        expanded = λ x d e. elim (visited_or_fresh v w x d e) [
          | inl f ↦ elim (s.expanded x d f) [
            | inl (inl (i, k)) ↦ inr (rw (← i, ← k) (round-IsExpanded c v q s))
            | inl (inr m) ↦ inl (IsQueued-append x d q w m)
            | inr h ↦ inr (IsExpanded-kept x d v w h)
          ]
          | inr (_, f) ↦
              let (m, _) =
                looked_up x d w (IsFresh key_of types c (load_neighbours c.id links) v) fresh f in
              inl (IsQueued-behind x d q w m)
        ];
      }
