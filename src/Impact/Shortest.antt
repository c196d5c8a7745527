-- ===== src/Impact/Shortest.antt =====
-- modules/lineage/impact.service.ts: the traversal ends, and what it finds is what can be reached, at the
-- length of a shortest walk.
use Prim.Native.String.{String}
use text.Mathlib.Text.{◌==◌ as str_eq}
use text.Mathlib.TextEquality.{eq_iff}
use cadena.Prelude.{
  leb→le, ap, ℕ, zero, suc, ◌+◌, ◌*◌, ◌≤◌, ◌≡◌, ◌↔◌, refl, ◌∙◌, Bool, true, false, Option, none,
  some, List, [], ◌∷◌, ◌++◌, leb, if◌then◌else◌, arith, Bool-cases, Option-cases, inl, inr, All,
  length, length-append,
}
use cadena.Impact.{
  Link, Node, load_neighbours, includes, distance_of, is_visited, fresh_nodes, traverse,
  seed_visited, seed_queue, seed_node, get_service_impact, clamp_depth, fuel_for,
}
use cadena.Impact.Walk.{IsShortest, Walk, first, hop, distance_of-append, distance_of-kept}
use cadena.Impact.Fresh.{pending, load_neighbours-ends}
use cadena.Impact.Measure.{IsFar, fresh_nodes-pending}
use cadena.Impact.Rounds.{
  IsState, IsQueued, NextIsNear, skip-IsState, round-IsState, IsFar-IsOrdered,
}

seed_distance : Option ℕ → (listed : Bool) → Option ℕ
seed_distance none listed = if listed then some 1 else none
seed_distance (some d) listed = some d

listed_before :
    (s x : String) (ss : List String) (v : List Node)
    → is_visited s v ≡ true
    → seed_distance (distance_of x v) (includes ss x)
      ≡ seed_distance (distance_of x v) (includes (s ∷ ss) x)
unfolding seed_distance
listed_before s x ss v t = elim (Bool-cases (str_eq s x)) [
  | inl h ↦
      let same = (eq_iff s x).0 h in
      let there : is_visited x v ≡ true = rw (← same) t in ground arith
  | inr h ↦ rw h refl
]

-- A seed that is appended is found at distance 1, and nothing else is found that was not there.
seed_step :
    (key_of : String → String) (sk s : String) (ss : List String) (v : List Node) (x : String)
    → is_visited s v ≡ false
    → seed_distance (distance_of x (v ++ seed_node key_of [] sk s ∷ [])) (includes ss x)
      ≡ seed_distance (distance_of x v) (includes (s ∷ ss) x)
unfolding distance_of seed_distance
seed_step key_of sk s ss v x n = elim (Option-cases (distance_of x v)) [
  | inr (d, e) ↦ ground (arith, distance_of-kept x v (seed_node key_of [] sk s ∷ []) d e)
  | inl e ↦
      let there : distance_of x (v ++ seed_node key_of [] sk s ∷ [])
          ≡ distance_of x (seed_node key_of [] sk s ∷ []) =
        rw (distance_of-append, e) refl in
      ground (arith, there)
]

module _ (key_of : String → String) (types : List String) where
  seed_visited-distance :
      (sk : String) (ss : List String) (v : List Node) (x : String)
      → distance_of x (seed_visited key_of types sk ss v)
        ≡ seed_distance (distance_of x v) (includes ss x)
  unfolding seed_visited seed_distance
  seed_visited-distance sk [] v x = ground arith
  seed_visited-distance sk (s ∷ ss) v x = elim (Bool-cases (is_visited s v)) [
    | inl t ↦ rw t (seed_visited-distance sk ss v x ∙ listed_before s x ss v t)
    | inr t ↦ rw t (
        seed_visited-distance sk ss (v ++ seed_node key_of types sk s ∷ []) x
        ∙ seed_step key_of sk s ss v x t)
  ]

module _ (key_of : String → String) (types : List String) (links : List Link) (seeds : List String)
    (depth : ℕ) where
  -- With enough fuel the loop ends with an empty queue.
  traverse-IsState :
      (fuel : ℕ) (v q : List Node)
      → length q + pending v links ≤ fuel
      → IsState key_of types links seeds depth v q
      → IsState key_of types links seeds depth (traverse key_of types fuel depth links v q) []
  unfolding traverse
  traverse-IsState zero v [] h s = s
  traverse-IsState zero v (c ∷ q) h s = absurd (omega (arith, h))
  traverse-IsState (suc fuel) v [] h s = s
  traverse-IsState (suc fuel) v (c ∷ q) h s = elim (Bool-cases (leb depth c.distance)) [
    | inl t ↦ rw t (
        traverse-IsState fuel v q (omega (arith, h))
          (skip-IsState key_of types links seeds depth c v q t s))
    | inr t ↦
        let w = fresh_nodes key_of types c (load_neighbours c.id links) v in
        let used =
          fresh_nodes-pending key_of types c (load_neighbours c.id links) v links
            (load_neighbours-ends c.id links links (λ y e. e)) in
        rw t (
          traverse-IsState fuel (v ++ w) (q ++ w) (rw length-append (omega (arith, h, used)))
            (round-IsState key_of types links seeds depth c v q t s))
  ]

  -- At the end, a walk within the depth leads to an item that was visited at no larger distance.
  walk-found :
      (v : List Node) (n : ℕ) (x : String)
      → IsState key_of types links seeds depth v []
      → Walk types links seeds n x
      → n ≤ depth
      → (d : ℕ) × (distance_of x v ≡ some d) × (d ≤ n)
  walk-found v n x s (first y m) h = (1, s.seeded y m, omega arith)
  walk-found v n x s (hop {n = k} {x = z} y w a) h =
      let (d, e, l) = walk-found v k z s w (omega (arith, h)) in
      elim (s.expanded z d e) [
        | inl m ↦ absurd m
        | inr more ↦ let (f, g, b) = more (omega (arith, h, l)) y a in (f, g, omega (arith, b, l))
      ]

one_distance : (o : Option ℕ) (d f : ℕ) → o ≡ some d → o ≡ some f → d ≡ f
one_distance o d f e g = ground arith

pending-le : (v : List Node) (links : List Link) → pending v links ≤ 2 * length links
unfolding pending
pending-le v [] = omega arith
pending-le v (l ∷ ls) = ground (arith, pending-le v ls)

clamp_depth-le : (depth : Option ℕ) → 1 ≤ clamp_depth depth
unfolding clamp_depth
clamp_depth-le none = omega arith
clamp_depth-le (some d) = ground arith

module _ (key_of : String → String) (types : List String) (links : List Link) (seeds : List String)
    (sk : String) where
  abbrev start_visited : List Node
  start_visited = seed_visited key_of types sk seeds []

  start_distance :
      (x : String) → distance_of x start_visited ≡ (if includes seeds x then some 1 else none)
  unfolding seed_distance distance_of
  start_distance x = seed_visited-distance key_of types sk seeds [] x

  start_seeded :
      (x : String) (d : ℕ)
      → distance_of x start_visited ≡ some d
      → (d ≡ 1) × (includes seeds x ≡ true)
  start_seeded x d e = ground (arith, start_distance x)

  seed_queue-found :
      (ss : List String)
      → ((x : String) → includes ss x ≡ true → includes seeds x ≡ true)
      → All (λ n. distance_of n.id start_visited ≡ some n.distance) (seed_queue key_of types sk ss)
  unfolding seed_queue
  seed_queue-found [] sub = tt
  seed_queue-found (s ∷ ss) sub = (
    rw (start_distance s, sub s (ground (arith, eq_iff s s))) refl,
    seed_queue-found ss (λ x m. sub x (ground (arith, m))),
  )

  seed_queue-IsFar : (ss : List String) → IsFar 1 (seed_queue key_of types sk ss)
  unfolding seed_queue
  seed_queue-IsFar [] = tt
  seed_queue-IsFar (s ∷ ss) = (refl, seed_queue-IsFar ss)

  seed_queue-IsQueued :
      (ss : List String) (x : String)
      → includes ss x ≡ true
      → IsQueued x 1 (seed_queue key_of types sk ss)
  unfolding seed_queue
  seed_queue-IsQueued [] x m = cc
  seed_queue-IsQueued (s ∷ ss) x m = elim (Bool-cases (str_eq s x)) [
    | inl t ↦ inl ((eq_iff s x).0 t, refl)
    | inr t ↦ inr (seed_queue-IsQueued ss x (rw t at m))
  ]

  length-seed_queue : (ss : List String) → length (seed_queue key_of types sk ss) ≡ length ss
  unfolding seed_queue
  length-seed_queue [] = refl
  length-seed_queue (s ∷ ss) = ap suc (length-seed_queue ss)

  seed_queue-NextIsNear : (ss : List String) → NextIsNear 1 (seed_queue key_of types sk ss)
  unfolding seed_queue
  seed_queue-NextIsNear [] = tt
  seed_queue-NextIsNear (s ∷ ss) = omega arith

  start-IsState :
      (depth : ℕ)
      → 1 ≤ depth
      → IsState key_of types links seeds depth start_visited (seed_queue key_of types sk seeds)
  start-IsState depth h = record {
    seeded = λ x m. rw (start_distance x, m) refl;
    walked =
        λ x d e. let (one, m) = start_seeded x d e in (rw one (first x m), omega (arith, one, h));
    found = seed_queue-found seeds (λ x m. m);
    near = λ x d e. let (one, _) = start_seeded x d e in rw one (seed_queue-NextIsNear seeds);
    ordered = IsFar-IsOrdered 1 (seed_queue key_of types sk seeds) (seed_queue-IsFar seeds);
    expanded =
        λ x d e. let (one, m) = start_seeded x d e in inl (rw one (seed_queue-IsQueued seeds x m));
  }

  impact-IsState :
      (depth : Option ℕ)
      → IsState key_of types links seeds
          (clamp_depth depth)
          (get_service_impact key_of types sk depth seeds links)
          []
  unfolding get_service_impact
  impact-IsState depth =
      traverse-IsState key_of types links seeds (clamp_depth depth)
        (fuel_for key_of types seeds links) start_visited (seed_queue key_of types sk seeds)
        (omega (arith, length-seed_queue seeds, pending-le start_visited links))
        (start-IsState (clamp_depth depth) (clamp_depth-le depth))

  no_longer :
      (result : List Node) (depth : ℕ) (x : String) (d n : ℕ)
      → IsState key_of types links seeds depth result []
      → distance_of x result ≡ some d
      → d ≤ depth
      → Walk types links seeds n x
      → d ≤ n
  no_longer result depth x d n s e within w = elim (Bool-cases (leb n depth)) [
    | inr t ↦ ground arith
    | inl t ↦
        let (f, g, h) =
          walk-found key_of types links seeds depth result n x s w (leb→le n depth t) in
        let same : d ≡ f = one_distance (distance_of x result) d f e g in omega (arith, same, h)
  ]

  -- The impact of an outage is complete and exact: the traversal, which ends within its fuel, lists an
  -- item at a distance exactly if a walk of so many hops leads to it from the service along
  -- links that pass the filter, no walk to it is shorter, and the distance is within the depth. The
  -- links are followed in either direction, and they may form cycles.
  pub get_service_impact_iff :
      (depth : Option ℕ) (x : String) (d : ℕ)
      → (distance_of x (get_service_impact key_of types sk depth seeds links) ≡ some d)
        ↔ (IsShortest types links seeds d x × (d ≤ clamp_depth depth))
  get_service_impact_iff depth x d =
      let s = impact-IsState depth in
      let result = get_service_impact key_of types sk depth seeds links in
      (
        λ e.
            let (walk, within) = s.walked x d e in
            (
              record {
                walk = walk;
                least = λ n w. no_longer result (clamp_depth depth) x d n s e within w;
              },
              within,
            ),
        λ p.
            let (f, g, h) =
              walk-found key_of types links seeds (clamp_depth depth) result d x s p.0.walk p.1 in
            let (shorter, _) = s.walked x f g in
            let same : f ≡ d = omega (arith, h, p.0.least f shorter) in g ∙ ap some same,
      )
