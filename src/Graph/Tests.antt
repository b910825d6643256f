-- ===== src/Graph/Tests.antt =====
-- Runs of the laws of the graph on a storage, a DTN and the gateway, joined by two edges.
use bigdataexpress_c.Base.{String, true, Option, none, ◌≡◌, refl}
use bigdataexpress_c.Base.Int.{pos}
use bigdataexpress_c.Base.Keyed.{lookup, emplace}
use bigdataexpress_c.Outcome.{ok}
use bigdataexpress_c.Graph.{RGraph, reset, internal, has_node, with_nodes}
use bigdataexpress_c.Graph.Build.{
  add_storage_node, add_dtn_node, add_gateway, add_edge, add_general_node,
}
use bigdataexpress_c.Graph.Remove.{del_node, node_key}
use bigdataexpress_c.Graph.Linked.{IsLinked, reset-IsLinked}
use bigdataexpress_c.Graph.Linked.Nodes.{
  add_storage_node-IsLinked, add_dtn_node-IsLinked, add_general_node-IsLinked,
}
use bigdataexpress_c.Graph.Linked.Edges.{add_edge-IsLinked}
use bigdataexpress_c.Graph.Linked.Deletes.Named.{Removes, del_node_total}

abbrev nodes : RGraph
nodes =
    add_dtn_node "dtn1" "DTN 1" (pos 0)
      (add_storage_node "s1" "Storage 1" internal (pos 1000000) (add_gateway reset))

nodes-IsLinked : IsLinked nodes
unfolding add_gateway
nodes-IsLinked = add_dtn_node-IsLinked "dtn1" "DTN 1" (pos 0) _ (
    add_storage_node-IsLinked "s1" "Storage 1" internal (pos 1000000) _
      (add_general_node-IsLinked _ _ _ _ reset reset-IsLinked))

no_edges : lookup "e1" nodes.edges ≡ none
unfolding lookup add_gateway add_general_node add_dtn_node add_storage_node with_nodes
no_edges = refl

storage_there : has_node "s1" nodes ≡ true
unfolding has_node add_gateway add_general_node add_dtn_node add_storage_node with_nodes lookup
    emplace
storage_there = refl

dtn_there : has_node "dtn1" nodes ≡ true
unfolding has_node add_gateway add_general_node add_dtn_node add_storage_node with_nodes lookup
    emplace
dtn_there = refl

joined : (g : RGraph) × (add_edge "e1" "s1" "dtn1" (pos 40000000000) nodes ≡ ok g) × IsLinked g
joined =
    add_edge-IsLinked "e1" "s1" "dtn1" (pos 40000000000) nodes nodes-IsLinked no_edges storage_there
      dtn_there

abbrev site : RGraph
site = joined.0

del_node_total_example :
    (key : Option String) × (h : RGraph) × (node_key "dtn1" site ≡ ok key)
    × (del_node "dtn1" site ≡ ok h)
    × Removes key site h
del_node_total_example = del_node_total "dtn1" site joined.2 refl
