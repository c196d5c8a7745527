-- ===== src/Impact/Measure.antt =====
-- modules/lineage/impact.service.ts: what a round adds can be looked up, and uses up ends of links.
use Prim.Native.String.{String}
use text.Mathlib.TextEquality.{eq_iff}
use mathlib.Core.List.{append_assoc, append-nil}
use cadena.Prelude.{
  ap, ℕ, suc, ◌+◌, ◌≤◌, ◌≡◌, refl, true, some, List, [], ◌∷◌, ◌++◌, arith, inl, inr, All, length,
}
use cadena.Impact.{Link, Neighbour, Node, distance_of, is_visited, fresh_nodes, node_of}
use cadena.Impact.Walk.{distance_of-append}
use cadena.Impact.Fresh.{
  pending, pending-less, is_end, fresh_nodes-cases, fresh_nodes-IsFresh, IsFresh, All-map,
}

abbrev pub IsFar : ℕ → List Node → Type 0
IsFar k = All (λ n. n.distance ≡ k)

IsFar-append : (k : ℕ) (u w : List Node) → IsFar k u → IsFar k w → IsFar k (u ++ w)
IsFar-append k [] w hu hw = hw
IsFar-append k (x ∷ u) w (h, hu) hw = (h, IsFar-append k u w hu hw)

distance_of-IsFar :
    (k : ℕ) (w : List Node) (y : String)
    → IsFar k w
    → is_visited y w ≡ true
    → distance_of y w ≡ some k
unfolding distance_of
distance_of-IsFar k [] y h e = cc
distance_of-IsFar k (n ∷ w) y (h, hs) e = ground (arith, distance_of-IsFar k w y hs)

is_visited-in : (u w : List Node) (n : Node) → is_visited n.id (u ++ n ∷ w) ≡ true
unfolding distance_of
is_visited-in [] w n = ground (arith, eq_iff n.id n.id)
is_visited-in (x ∷ u) w n = ground (arith, is_visited-in u w n)

read_back :
    (k : ℕ) (u w : List Node)
    → IsFar k u
    → IsFar k w
    → All (λ n. distance_of n.id (u ++ w) ≡ some k) w
read_back k u [] hu hw = tt
read_back k u (n ∷ w) hu (h, hw) = (
  distance_of-IsFar k (u ++ n ∷ w) n.id (IsFar-append k u (n ∷ w) hu (h, hw)) (is_visited-in u w n),
  rw append_assoc at (read_back k (u ++ n ∷ []) w (IsFar-append k u (n ∷ []) hu (h, tt)) hw),
)

-- Two facts on every node of a list.
All-and :
    (p q : Node → Type 0) (r : Node → Type 0)
    → ((n : Node) → p n → q n → r n)
    → (w : List Node) → All p w
    → All q w
    → All r w
All-and p q r f [] h k = tt
All-and p q r f (n ∷ w) (h, hs) (k, ks) = (f n h k, All-and p q r f w hs ks)

module _ (key_of : String → String) (types : List String) where
  -- Behind what was visited before, each new state is found with its distance.
  pub fresh_nodes-found :
      (c : Node) (ns : List Neighbour) (v : List Node)
      → All
          (λ n. distance_of n.id (v ++ fresh_nodes key_of types c ns v) ≡ some n.distance)
          (fresh_nodes key_of types c ns v)
  fresh_nodes-found c ns v =
      let w = fresh_nodes key_of types c ns v in
      let fresh = fresh_nodes-IsFresh key_of types c ns v in
      All-and (IsFresh key_of types c ns v) (λ n. distance_of n.id w ≡ some (suc c.distance)) _
        (λ n f e. rw (distance_of-append, f.new, e, f.far) refl) w fresh
        (read_back (suc c.distance) [] w tt (All-map (λ n f. f.far) w fresh))

  no_pending :
      (c : Node) (v : List Node) (links : List Link)
      → length (fresh_nodes key_of types c [] v)
          + pending (v ++ fresh_nodes key_of types c [] v) links
        ≤ pending v links
  unfolding fresh_nodes
  no_pending c v links = rw append-nil (omega arith)

  -- Each new state visits an end of a link for the first time.
  pub fresh_nodes-pending :
      (c : Node) (ns : List Neighbour) (v : List Node) (links : List Link)
      → All (λ n. is_end n.id links ≡ true) ns
      → length (fresh_nodes key_of types c ns v)
          + pending (v ++ fresh_nodes key_of types c ns v) links
        ≤ pending v links
  fresh_nodes-pending c [] v links h = no_pending c v links
  fresh_nodes-pending c (n ∷ ns) v links (h, hs) = elim (fresh_nodes-cases key_of types c n ns v) [
    | inl (e, _) ↦ rw e (fresh_nodes-pending c ns v links hs)
    | inr (e, p, new) ↦
        let one = node_of key_of types c n in
        let rest = fresh_nodes-pending c ns (v ++ one ∷ []) links hs in
        let less = pending-less v one links new h in
        let w = fresh_nodes key_of types c ns (v ++ one ∷ []) in
        let moved : pending ((v ++ one ∷ []) ++ w) links ≡ pending (v ++ one ∷ w) links =
          ap (λ u. pending u links) (append_assoc v (one ∷ []) w) in
        rw e (omega (arith, rest, less, moved))
  ]
