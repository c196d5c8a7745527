-- ===== src/Impact/Fresh.antt =====
-- modules/lineage/impact.service.ts: what one round of the traversal adds.
use Prim.Native.String.{String}
use text.Mathlib.Text.{◌==◌ as str_eq}
use text.Mathlib.TextEquality.{eq_iff}
use cadena.Prelude.{
  ℕ, suc, ◌+◌, ◌≤◌, ◌≡◌, refl, Bool, true, false, none, some, List, [], ◌∷◌, ◌++◌, ◌||◌,
  if◌then◌else◌, arith, Bool-cases, Option-cases, inl, inr, ◌⊎◌, All,
}
use cadena.Impact.{
  Link, Neighbour, Node, load_neighbours, neighbour, passes, distance_of, is_visited, fresh_nodes,
  node_of,
}
use cadena.Impact.Walk.{leads_to, distance_of-append, distance_of-kept}

-- The ends of the links that are still to be visited.
unfoldable pub pending : List Node → List Link → ℕ
pending v [] = 0
pending v (l ∷ ls) =
    let rest = pending v ls in
    (if is_visited l.source_id v then 0 else 1) + (if is_visited l.target_id v then 0 else 1) + rest

abbrev pub is_end : (id : String) → List Link → Bool
is_end id [] = false
is_end id (l ∷ ls) =
    if str_eq l.source_id id then true else if str_eq l.target_id id then true else is_end id ls

end_later : (y : String) (l : Link) (ls : List Link) → is_end y ls ≡ true → is_end y (l ∷ ls) ≡ true
end_later y l ls e = ground arith

pub load_neighbours-ends :
    (x : String) (links more : List Link)
    → ((y : String) → is_end y links ≡ true → is_end y more ≡ true)
    → All (λ n. is_end n.id more ≡ true) (load_neighbours x links)
unfolding load_neighbours
load_neighbours-ends x [] more h = tt
load_neighbours-ends x (l ∷ links) more h =
    let rest = load_neighbours-ends x links more (λ y e. h y (end_later y l links e)) in
    let here : is_end (neighbour x l).id more ≡ true =
      h (neighbour x l).id
        (ground (arith, eq_iff l.source_id l.source_id, eq_iff l.target_id l.target_id)) in
    elim (Bool-cases (str_eq l.source_id x || str_eq l.target_id x)) [
      | inl t ↦ rw t (here, rest)
      | inr t ↦ rw t rest
    ]

one_visited : (x : String) (n : Node) → is_visited x (n ∷ []) ≡ str_eq n.id x
unfolding distance_of
one_visited x n = ground arith

pub is_visited-append :
    (x : String) (v : List Node) (n : Node)
    → is_visited x (v ++ n ∷ []) ≡ (if is_visited x v then true else str_eq n.id x)
is_visited-append x v n = elim (Option-cases (distance_of x v)) [
  | inl e ↦
      let there : distance_of x (v ++ n ∷ []) ≡ distance_of x (n ∷ []) =
        rw (distance_of-append, e) refl in
      ground (arith, there, one_visited x n)
  | inr (d, e) ↦ ground (arith, distance_of-kept x v (n ∷ []) d e)
]

is_visited-same :
    (x y : String) (v : List Node) → str_eq x y ≡ true → is_visited x v ≡ is_visited y v
is_visited-same x y v h = let e = (eq_iff x y).0 h in rw e refl

-- A newly visited end is one less.
pending-visit :
    (v : List Node) (n : Node) (links : List Link) → pending (v ++ n ∷ []) links ≤ pending v links
unfolding pending
pending-visit v n [] = omega arith
pending-visit v n (l ∷ ls) = ground (
  arith,
  pending-visit v n ls,
  is_visited-append l.source_id v n,
  is_visited-append l.target_id v n,
)

pub pending-less :
    (v : List Node) (n : Node) (links : List Link)
    → is_visited n.id v ≡ false
    → is_end n.id links ≡ true
    → suc (pending (v ++ n ∷ []) links) ≤ pending v links
unfolding pending
pending-less v n [] f e = cc
pending-less v n (l ∷ ls) f e = ground (
  arith,
  f,
  pending-visit v n ls,
  pending-less v n ls f,
  is_visited-append l.source_id v n,
  is_visited-append l.target_id v n,
  is_visited-same l.source_id n.id v,
  is_visited-same l.target_id n.id v,
  eq_iff l.source_id n.id,
  eq_iff n.id l.source_id,
  eq_iff l.target_id n.id,
  eq_iff n.id l.target_id,
)

pub not_visited : (x : String) (v : List Node) → is_visited x v ≡ false → distance_of x v ≡ none
not_visited x v h = ground arith

pub All-map {ℓ κ μ} :
    {A : Type ℓ} {P : A → Type κ} {Q : A → Type μ}
    → ((x : A) → P x → Q x)
    → (xs : List A) → All P xs
    → All Q xs
All-map f [] h = tt
All-map f (x ∷ xs) (h, hs) = (f x h, All-map f xs hs)

pub distance_of-first :
    (n : Node) (w : List Node) (y : String)
    → str_eq n.id y ≡ true
    → distance_of y (n ∷ w) ≡ some n.distance
unfolding distance_of
distance_of-first n w y t = rw t refl

pub distance_of-later :
    (n : Node) (w : List Node) (y : String)
    → str_eq n.id y ≡ false
    → distance_of y (n ∷ w) ≡ distance_of y w
unfolding distance_of
distance_of-later n w y t = rw t refl

distance_of-one : (n : Node) (y : String) → str_eq n.id y ≡ false → distance_of y (n ∷ []) ≡ none
unfolding distance_of
distance_of-one n y t = rw t refl

module _ (key_of : String → String) (types : List String) where
  pub fresh_nodes-cases :
      (c : Node) (n : Neighbour) (ns : List Neighbour) (v : List Node)
      → ((fresh_nodes key_of types c (n ∷ ns) v ≡ fresh_nodes key_of types c ns v)
          × ((passes types n.link_type ≡ false) ⊎ (is_visited n.id v ≡ true)))
        ⊎ ((fresh_nodes key_of types c (n ∷ ns) v
              ≡ node_of key_of types c n
                ∷ fresh_nodes key_of types c ns (v ++ node_of key_of types c n ∷ []))
            × (passes types n.link_type ≡ true)
            × (is_visited n.id v ≡ false))
  unfolding fresh_nodes
  fresh_nodes-cases c n ns v = elim (Bool-cases (passes types n.link_type)) [
    | inr p ↦ inl (rw p refl, inl p)
    | inl p ↦ elim (Bool-cases (is_visited n.id v)) [
      | inl w ↦ inl (rw (p, w) refl, inr w)
      | inr w ↦ inr (rw (p, w) refl, p, w)
    ]
  ]

  led_elsewhere :
      (n : Neighbour) (ns : List Neighbour) (y : String)
      → leads_to types (n ∷ ns) y ≡ true
      → ((passes types n.link_type ≡ false) ⊎ (str_eq n.id y ≡ false))
      → leads_to types ns y ≡ true
  unfolding leads_to
  led_elsewhere n ns y l s = ground arith

  skipped_elsewhere :
      (n : Neighbour) (ns : List Neighbour) (v : List Node) (y : String)
      → leads_to types (n ∷ ns) y ≡ true
      → distance_of y v ≡ none
      → ((passes types n.link_type ≡ false) ⊎ (is_visited n.id v ≡ true))
      → leads_to types ns y ≡ true
  unfolding leads_to
  skipped_elsewhere n ns v y l e s = ground (arith, eq_iff n.id y, is_visited-same n.id y v)

  -- What is added is new, one hop further, and adjacent to the current item.
  pub record IsFresh (c : Node) (ns : List Neighbour) (v : List Node) (n : Node) : Type 0 where
    pub far : n.distance ≡ suc c.distance
    pub new : distance_of n.id v ≡ none
    pub next : leads_to types ns n.id ≡ true

  IsFresh-later :
      (c : Node) (n : Neighbour) (ns : List Neighbour) (v : List Node) (m : Node)
      → IsFresh c ns v m
      → IsFresh c (n ∷ ns) v m
  unfolding leads_to
  IsFresh-later c n ns v m f = record { far = f.far; new = f.new; next = ground (arith, f.next) }

  IsFresh-earlier :
      (c : Node) (n : Neighbour) (ns : List Neighbour) (v w : List Node) (m : Node)
      → IsFresh c ns (v ++ w) m
      → IsFresh c (n ∷ ns) v m
  unfolding leads_to
  IsFresh-earlier c n ns v w m f = record {
    far = f.far;
    new = ground (arith, f.new, distance_of-append m.id v w);
    next = ground (arith, f.next);
  }

  pub fresh_nodes-IsFresh :
      (c : Node) (ns : List Neighbour) (v : List Node)
      → All (IsFresh c ns v) (fresh_nodes key_of types c ns v)
  unfolding leads_to fresh_nodes
  fresh_nodes-IsFresh c [] v = tt
  fresh_nodes-IsFresh c (n ∷ ns) v = elim (fresh_nodes-cases c n ns v) [
    | inl (e, _) ↦ rw e (All-map (IsFresh-later c n ns v) _ (fresh_nodes-IsFresh c ns v))
    | inr (e, p, w) ↦ rw e (
      record { far = refl; new = not_visited n.id v w; next = ground (arith, p, eq_iff n.id n.id) },
      All-map (IsFresh-earlier c n ns v (node_of key_of types c n ∷ [])) _
          (fresh_nodes-IsFresh c ns (v ++ node_of key_of types c n ∷ [])),
    )
  ]

  -- Every adjacent item that was not visited is among them.
  pub fresh_nodes-covers :
      (c : Node) (ns : List Neighbour) (v : List Node) (y : String)
      → leads_to types ns y ≡ true
      → distance_of y v ≡ none
      → distance_of y (fresh_nodes key_of types c ns v) ≡ some (suc c.distance)
  unfolding leads_to
  fresh_nodes-covers c [] v y l e = cc
  fresh_nodes-covers c (n ∷ ns) v y l e = elim (fresh_nodes-cases c n ns v) [
    | inl (same, skip) ↦
        rw same (fresh_nodes-covers c ns v y (skipped_elsewhere n ns v y l e skip) e)
    | inr (same, p, w) ↦ elim (Bool-cases (str_eq n.id y)) [
      | inl t ↦ rw same (distance_of-first (node_of key_of types c n) _ y t)
      | inr t ↦
          let rest =
            fresh_nodes-covers c ns (v ++ node_of key_of types c n ∷ []) y
              (led_elsewhere n ns y l (inr t))
              (rw (distance_of-append, e) (distance_of-one (node_of key_of types c n) y t)) in
          rw (same, distance_of-later (node_of key_of types c n) _ y t) rest
    ]
  ]
