-- ===== src/Impact.antt =====
-- modules/lineage/impact.service.ts: the work items that an outage of a service implicates. The links of the
-- tenant stand in the order of their creation; a key is a function of the item's id.
pub mod Walk
pub mod Fresh
pub mod Measure
pub mod Rounds
pub mod Shortest
mod Tests
use Prim.Native.String.{String}
use text.Mathlib.Text.{◌==◌ as str_eq}
use cadena.Prelude.{
  ℕ, zero, suc, ◌+◌, ◌*◌, min, max, Bool, true, false, Option, none, some, List, [], ◌∷◌, ◌++◌,
  ◌||◌, ltb, leb, not, if◌then◌else◌, length,
}

abbrev pub default_impact_depth : ℕ
default_impact_depth = 3

abbrev pub max_impact_depth : ℕ
max_impact_depth = 10

-- A row of `work_item_links`.
pub record Link : Type 0 where
  pub link_type : String
  pub source_id : String
  pub target_id : String

pub record ImpactEdge : Type 0 where
  pub link_type : String
  pub from_key : String
  pub to_key : String

-- `TraversalState`
pub record Node : Type 0 where
  pub id : String
  pub distance : ℕ
  pub via : List ImpactEdge

pub record Neighbour : Type 0 where
  pub id : String
  pub link_type : String
  pub reversed : Bool

-- A depth is a whole number here, or absent.
unfoldable pub clamp_depth : Option ℕ → ℕ
clamp_depth none = default_impact_depth
clamp_depth (some d) = max 1 (min max_impact_depth d)

abbrev neighbour : (id : String) → Link → Neighbour
neighbour id l = record {
  id = if str_eq l.source_id id then l.target_id else l.source_id;
  link_type = l.link_type;
  reversed = str_eq l.target_id id;
}

unfoldable pub load_neighbours : (id : String) → List Link → List Neighbour
load_neighbours id [] = []
load_neighbours id (l ∷ ls) =
    let rest = load_neighbours id ls in
    if str_eq l.source_id id || str_eq l.target_id id then neighbour id l ∷ rest else rest

abbrev pub includes : List String → String → Bool
includes [] t = false
includes (x ∷ xs) t = if str_eq x t then true else includes xs t

-- An empty list of edge types is no filter.
abbrev pub passes : List String → String → Bool
passes [] t = true
passes (x ∷ xs) t = includes (x ∷ xs) t

-- `visited.get(id)`, of which only the distance is read.
unfoldable pub distance_of : (id : String) → List Node → Option ℕ
distance_of id [] = none
distance_of id (n ∷ ns) = if str_eq n.id id then some n.distance else distance_of id ns

abbrev pub is_visited : (id : String) → List Node → Bool
is_visited id v = elim (distance_of id v) [ none ↦ false | some d ↦ true ]

module _ (key_of : String → String) (edge_types : List String) where
  abbrev pub node_of : Node → Neighbour → Node
  node_of c n = record {
    id = n.id;
    distance = suc c.distance;
    via =
        c.via
        ++ record {
          link_type = n.link_type;
          from_key = if n.reversed then key_of n.id else key_of c.id;
          to_key = if n.reversed then key_of c.id else key_of n.id;
        }
          ∷ [];
  }

  -- The states that one round of the loop adds to `visited` and to the queue.
  unfoldable pub fresh_nodes : Node → List Neighbour → (visited : List Node) → List Node
  fresh_nodes c [] v = []
  fresh_nodes c (n ∷ ns) v =
      let found = node_of c n ∷ fresh_nodes c ns (v ++ node_of c n ∷ []) in
      let skipped = fresh_nodes c ns v in
      if not (passes edge_types n.link_type)
      then skipped
      else if is_visited n.id v
      then skipped
      else found

  -- The loop over the queue.
  unfoldable pub traverse : (fuel depth : ℕ) → List Link → (visited queue : List Node) → List Node
  traverse zero depth links v q = v
  traverse (suc fuel) depth links v [] = v
  traverse (suc fuel) depth links v (c ∷ q) =
      let found = fresh_nodes c (load_neighbours c.id links) v in
      let skip = traverse fuel depth links v q in
      let go = traverse fuel depth links (v ++ found) (q ++ found) in
      if leb depth c.distance then skip else go

  abbrev seed_node : (service_key : String) → (id : String) → Node
  seed_node service_key id = record {
    id = id;
    distance = 1;
    via = record { link_type = "affects"; from_key = service_key; to_key = key_of id } ∷ [];
  }

  -- A seed that is there already is set to the same state again.
  unfoldable pub seed_visited :
      (service_key : String) → (seeds : List String) → List Node → List Node
  seed_visited sk [] v = v
  seed_visited sk (s ∷ ss) v =
      let kept = seed_visited sk ss v in
      let added = seed_visited sk ss (v ++ seed_node sk s ∷ []) in
      if is_visited s v then kept else added

  unfoldable pub seed_queue : (service_key : String) → (seeds : List String) → List Node
  seed_queue sk [] = []
  seed_queue sk (s ∷ ss) = seed_node sk s ∷ seed_queue sk ss

  -- A state is queued once for each seed, and once for each end of a link at most.
  abbrev pub fuel_for : List String → List Link → ℕ
  fuel_for seeds links = length seeds + 2 * length links

  unfoldable pub get_service_impact :
      (service_key : String) → (depth : Option ℕ) → (seeds : List String) → List Link → List Node
  get_service_impact sk depth seeds links =
      traverse (fuel_for seeds links) (clamp_depth depth) links (seed_visited sk seeds [])
        (seed_queue sk seeds)
