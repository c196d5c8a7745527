-- ===== src/Impact/Walk.antt =====
-- modules/lineage/impact.service.ts: the walks from a service to the work items.
use Prim.Native.String.{String}
use text.Mathlib.Text.{◌==◌ as str_eq}
use cadena.Prelude.{
  ℕ, suc, ◌≤◌, ◌≡◌, refl, Bool, true, false, none, some, List, [], ◌∷◌, ◌++◌, ◌&&◌, if◌then◌else◌,
  arith,
}
use cadena.Impact.{Link, Neighbour, Node, load_neighbours, includes, passes, distance_of}

-- Some link leads from one item to the other, against its direction or along it, and passes the filter.
unfoldable pub leads_to : (edge_types : List String) → List Neighbour → (y : String) → Bool
leads_to types [] y = false
leads_to types (n ∷ ns) y =
    if passes types n.link_type && str_eq n.id y then true else leads_to types ns y

abbrev pub adjacent : (edge_types : List String) → List Link → (x y : String) → Bool
adjacent types links x y = leads_to types (load_neighbours x links) y

-- A walk of so many hops from the service: the first along one of its `affects` edges.
pub data Walk (types : List String) (links : List Link) (seeds : List String)
    : ℕ → String → Type 0 where
  first : (x : String) → includes seeds x ≡ true → Walk types links seeds 1 x
  hop :
      {n : ℕ} {x : String} (y : String)
      → Walk types links seeds n x
      → adjacent types links x y ≡ true
      → Walk types links seeds (suc n) y

-- So many hops are needed.
pub record IsShortest (types : List String) (links : List Link) (seeds : List String) (d : ℕ)
    (x : String) : Type 0 where
  pub walk : Walk types links seeds d x
  pub least : (n : ℕ) → Walk types links seeds n x → d ≤ n

pub distance_of-append :
    (x : String) (v w : List Node)
    → distance_of x (v ++ w) ≡ elim (distance_of x v) [ none ↦ distance_of x w | some d ↦ some d ]
unfolding distance_of
distance_of-append x [] w = refl
distance_of-append x (n ∷ v) w = ground (arith, distance_of-append x v w)

pub distance_of-kept :
    (x : String) (v w : List Node) (d : ℕ)
    → distance_of x v ≡ some d
    → distance_of x (v ++ w) ≡ some d
distance_of-kept x v w d e = rw (distance_of-append, e) refl
