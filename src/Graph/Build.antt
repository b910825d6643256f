-- ===== src/Graph/Build.antt =====
-- server/resourcegraph.cc: finding and adding nodes and edges.
use bigdataexpress_c.Base.{
  String, Bool, true, ◌++◌, Option, none, some, [], ◌∷◌, str_eq, if◌then◌else◌,
}
use bigdataexpress_c.Base.Int.{ℤ, pos}
use bigdataexpress_c.Base.Keyed.{Keyed, is_some, lookup, emplace, update}
use bigdataexpress_c.Outcome.{
  Outcome, ok, throw, ◌>>=◌, storage_not_found, dtn_not_found, general_not_found, not_a_dtn,
  edge_not_found, no_gateway, no_launcher, no_sdn,
}
use bigdataexpress_c.Graph.{
  StorageType, NodeRef, general, storage_own, dtn_own, general_own, Node, new_resource, new_node,
  Edge, RGraph, gateway_id, launcher_id, sdn_id, node_at, update_node, live, has_dtn_node,
  has_general_node, has_launcher, has_sdn, get_node,
}

-- The getters of one map throw where the key is not in it.
unfoldable pub get_storage_node : String → RGraph → Outcome Node
get_storage_node sid g = elim (lookup sid g.s_nodes) [
  | none ↦ throw (storage_not_found sid)
  | some n ↦ ok n
]

unfoldable pub get_dtn_node : String → RGraph → Outcome Node
get_dtn_node did g = elim (lookup did g.dtn_nodes) [
  | none ↦ throw (dtn_not_found did)
  | some n ↦ ok n
]

unfoldable pub get_general_node : String → RGraph → Outcome Node
get_general_node gid g = elim (lookup gid g.general_nodes) [
  | none ↦ throw (general_not_found gid)
  | some n ↦ ok n
]

unfoldable pub get_gateway : RGraph → Outcome Node
unfolding has_general_node get_general_node
get_gateway g =
    if has_general_node gateway_id g then get_general_node gateway_id g else throw no_gateway

unfoldable pub get_launcher : RGraph → Outcome Node
unfolding has_general_node get_general_node
get_launcher g = if has_launcher g then get_general_node launcher_id g else throw no_launcher

unfoldable pub get_sdn : RGraph → Outcome Node
unfolding has_general_node get_general_node
get_sdn g = if has_sdn g then get_general_node sdn_id g else throw no_sdn

-- The loop of `has_edge` and `get_edge`: the key of the first edge between nodes with these
-- identifiers, `rid`. The second end is looked at only where the first one fits.
unfoldable pub edge_between : RGraph → String → String → Keyed Edge → Outcome (Option String)
edge_between g s d [] = ok none
edge_between g s d ((k, e) ∷ m) =
    let rest = edge_between g s d m in
    do
      src ← live (node_at g e.src_node)
      if str_eq src.rid s
          then (do
            dst ← live (node_at g e.dst_node)
            if str_eq dst.rid d then ok (some k) else rest)
          else rest

unfoldable pub has_edge : String → String → RGraph → Outcome Bool
unfolding edge_between
has_edge s d g = do found ← edge_between g s d g.edges; ok (is_some found)

unfoldable pub get_edge : String → String → RGraph → Outcome String
unfolding edge_between
get_edge s d g = do
  found ← edge_between g s d g.edges
  elim found [ none ↦ throw (edge_not_found s d) | some k ↦ ok k ]

unfoldable pub add_storage_node : String → String → StorageType → ℤ → RGraph → RGraph
add_storage_node id name type capacity g = record g {
  s_nodes =
      emplace id (new_node (new_resource id name capacity) (storage_own type "/" none)) g.s_nodes;
}

unfoldable pub add_dtn_node : String → String → ℤ → RGraph → RGraph
add_dtn_node id name capacity g = record g {
  dtn_nodes = emplace id (new_node (new_resource id name capacity) (dtn_own "")) g.dtn_nodes;
}

-- The key of a general node is not its `rid`.
unfoldable pub add_general_node : String → String → String → ℤ → RGraph → RGraph
add_general_node id rid name capacity g = record g {
  general_nodes =
      emplace id (new_node (new_resource rid name capacity) general_own) g.general_nodes;
}

unfoldable pub set_queue : String → Node → Node
set_queue q n = record n { base = record n.base { queue = q } }

unfoldable pub add_gateway : RGraph → RGraph
unfolding add_general_node
add_gateway = add_general_node gateway_id "gateway" "Gateway" (pos 0)

unfoldable pub add_launcher : String → String → RGraph → RGraph
unfolding add_general_node set_queue update_node
add_launcher rid queue g =
    update_node (record { kind = general; key = launcher_id }) (set_queue queue)
      (add_general_node launcher_id rid "Launcher Agent" (pos 0) g)

unfoldable pub add_sdn : String → String → RGraph → RGraph
unfolding add_general_node set_queue update_node
add_sdn rid queue g =
    update_node (record { kind = general; key = sdn_id }) (set_queue queue)
      (add_general_node sdn_id rid "SDN Agent" (pos 0) g)

unfoldable pub add_out_edge : String → Node → Node
add_out_edge k n = record n {
  base = record n.base { connected = true };
  out_edges = n.out_edges ++ k ∷ [];
}

unfoldable pub add_in_edge : String → Node → Node
add_in_edge k n = record n {
  base = record n.base { connected = true };
  in_edges = n.in_edges ++ k ∷ [];
}

-- `REdge::connect`, of the edge under the key.
unfoldable pub connect : String → NodeRef → NodeRef → RGraph → RGraph
unfolding add_out_edge add_in_edge update_node
connect k src dst g = update_node dst (add_in_edge k) (
    update_node src (add_out_edge k) (record g {
      edges =
          update k
            (λ e. record e {
              base = record e.base { connected = true };
              src_node = src;
              dst_node = dst;
            })
            g.edges;
    }))

-- `guid` is the identifier that the edge's constructor draws. Where the map already holds it the
-- edge under it is connected anew.
unfoldable pub insert_edge : String → NodeRef → NodeRef → ℤ → RGraph → RGraph
unfolding connect
insert_edge guid src dst capacity g = connect guid src dst (record g {
  edges =
      emplace guid (record { base = new_resource guid "" capacity; src_node = src; dst_node = dst })
        g.edges;
})

unfoldable pub add_edge : String → String → String → ℤ → RGraph → Outcome RGraph
unfolding has_edge get_edge get_node insert_edge
add_edge guid s d capacity g = do
  known ← has_edge s d g
  if known
      then (do e ← get_edge s d g; ok g)
      else (do src ← get_node s g; dst ← get_node d g; ok (insert_edge guid src dst capacity g))

unfoldable pub add_edge_to_gateway : String → String → ℤ → RGraph → Outcome RGraph
unfolding has_dtn_node add_edge
add_edge_to_gateway guid s capacity g =
    if has_dtn_node s g then add_edge guid s gateway_id capacity g else throw (not_a_dtn s)
