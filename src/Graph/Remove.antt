-- ===== src/Graph/Remove.antt =====
-- server/resourcegraph.cc: deleting nodes with their edges.
use bigdataexpress_c.Base.{String, false, Option, none, some, List, [], ◌∷◌, str_eq, if◌then◌else◌}
use bigdataexpress_c.Base.Keyed.{lookup, erase}
use bigdataexpress_c.Outcome.{Outcome, ok, throw, ◌>>=◌, gateway_protected}
use bigdataexpress_c.Graph.{
  NodeKind, storage, dtn, general, Node, RGraph, launcher_id, sdn_id, node_at, update_node,
  with_nodes, live, has_node, has_launcher, has_general_node, has_storage_node, has_dtn_node,
  has_sdn, get_node,
}
use bigdataexpress_c.Graph.Build.{get_launcher, get_sdn}

-- `del_in_edge` and `del_out_edge` take the first pointer with this identifier out.
unfoldable pub del_first : String → List String → List String
del_first k [] = []
del_first k (j ∷ js) = if str_eq j k then js else j ∷ del_first k js

unfoldable pub del_in_edge : String → Node → Node
unfolding del_first
del_in_edge k n = record n { in_edges = del_first k n.in_edges }

unfoldable pub del_out_edge : String → Node → Node
unfolding del_first
del_out_edge k n = record n { out_edges = del_first k n.out_edges }

abbrev pub erase_edge : String → RGraph → RGraph
erase_edge k g = record g { edges = erase k g.edges }

-- The loop over `i_edges`: the node at the other end forgets the edge, and the edge goes.
unfoldable pub erase_in_edges : List String → RGraph → Outcome RGraph
unfolding del_out_edge
erase_in_edges [] g = ok g
erase_in_edges (k ∷ ks) g = do
  e ← live (lookup k g.edges)
  src ← live (node_at g e.src_node)
  erase_in_edges ks (erase_edge k (update_node e.src_node (del_out_edge k) g))

-- The loop over `o_edges`.
unfoldable pub erase_out_edges : List String → RGraph → Outcome RGraph
unfolding del_in_edge
erase_out_edges [] g = ok g
erase_out_edges (k ∷ ks) g = do
  e ← live (lookup k g.edges)
  dst ← live (node_at g e.dst_node)
  erase_out_edges ks (erase_edge k (update_node e.dst_node (del_in_edge k) g))

-- The key under which `del_node` finds the node: that of the launcher or the SDN agent if the
-- identifier is its `rid` and no node has it as a key. `none`: there is no such node.
unfoldable pub node_key : String → RGraph → Outcome (Option String)
unfolding has_node has_general_node get_launcher get_sdn
node_key id g = if has_node id g then ok (some id) else do
  launcher ← (if has_launcher g then (do n ← get_launcher g; ok (str_eq id n.rid)) else ok false)
  if launcher then ok (some launcher_id) else do
    sdn ← (if has_sdn g then (do n ← get_sdn g; ok (str_eq id n.rid)) else ok false)
    ok (if sdn then some sdn_id else none)

-- The map from which the node is erased at the end.
unfoldable pub kind_of : String → RGraph → NodeKind
unfolding has_storage_node has_dtn_node
kind_of nid g =
    if has_storage_node nid g then storage else if has_dtn_node nid g then dtn else general

unfoldable pub del_node_at : String → RGraph → Outcome RGraph
del_node_at nid g = do
  r ← get_node nid g
  n ← live (node_at g r)
  g₁ ← erase_in_edges n.in_edges g
  n₁ ← live (node_at g₁ r)
  g₂ ← erase_out_edges n₁.out_edges g₁
  ok (with_nodes (kind_of nid g₂) (erase nid) g₂)

unfoldable pub del_node : String → RGraph → Outcome RGraph
del_node id g =
    if str_eq id "gateway"
    then throw gateway_protected
    else do key ← node_key id g; elim key [ none ↦ ok g | some nid ↦ del_node_at nid g ]

unfoldable pub del_launcher : RGraph → Outcome RGraph
unfolding has_general_node
del_launcher g = if has_launcher g then del_node launcher_id g else ok g

unfoldable pub del_sdn : RGraph → Outcome RGraph
unfolding has_general_node
del_sdn g = if has_sdn g then del_node sdn_id g else ok g
