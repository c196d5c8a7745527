-- ===== src/Impact/Tests.antt =====
-- modules/lineage/impact.service.ts: an outage at a concrete input.
use Prim.Native.String.{String}
use cadena.Prelude.{◌≤◌, ◌≡◌, ◌↔◌, refl, none, some, List, [], ◌∷◌}
use cadena.Impact.{
  Link, get_service_impact, distance_of, clamp_depth, traverse, fresh_nodes, load_neighbours,
  seed_visited, seed_queue,
}
use cadena.Impact.Walk.{IsShortest}
use cadena.Impact.Shortest.{get_service_impact_iff}

abbrev same_key : String → String
same_key id = id

abbrev link : String → String → Link
link a b = record { link_type = "blocks"; source_id = a; target_id = b }

-- A cycle of four items.
abbrev cycle : List Link
cycle = link "a" "b" ∷ link "b" "c" ∷ link "c" "d" ∷ link "d" "a" ∷ []

two_hops_each_way :
    distance_of "c" (get_service_impact same_key [] "svc" none ("a" ∷ []) cycle) ≡ some 3
unfolding get_service_impact distance_of clamp_depth traverse fresh_nodes load_neighbours
    seed_visited seed_queue
two_hops_each_way = refl

get_service_impact_iff_example :
    (distance_of "c" (get_service_impact same_key [] "svc" none ("a" ∷ []) cycle) ≡ some 3)
    ↔ (IsShortest [] cycle ("a" ∷ []) 3 "c" × (3 ≤ clamp_depth none))
get_service_impact_iff_example =
    get_service_impact_iff same_key [] cycle ("a" ∷ []) "svc" none "c" 3
