-- ===== src/Graph/Linked/Nodes.antt =====
-- Adding nodes, and writing to them, keeps the graph of server/resourcegraph.cc linked.
use bigdataexpress_c.Base.{String, ◌≡◌, refl, ap, Option, none, some, arith, eq_iff, if◌then◌else◌}
use bigdataexpress_c.Base.Int.{ℤ}
use bigdataexpress_c.Base.Keyed.{Keyed, map_option, or_else, emplace, lookup-emplace}
use bigdataexpress_c.Graph.{
  NodeRef, NodeKind, storage, dtn, general, Node, Own, RGraph, StorageType, Resource, new_node,
  nodes_of, with_nodes, node_at, update_node,
}
use bigdataexpress_c.Graph.Build.{add_storage_node, add_dtn_node, add_general_node}
use bigdataexpress_c.Graph.Links.{kind_eq, ref_eq, IsSide-ext, IsSide-extend}
use bigdataexpress_c.Graph.Linked.{IsLinked, outs, ins, node_at-update_node, edges-update_node}

-- A write that leaves the two lists of a node alone.
pub update_node-IsLinked :
    (r : NodeRef) (f : Node → Node) (g : RGraph)
    → ((n : Node) → (f n).in_edges ≡ n.in_edges)
    → ((n : Node) → (f n).out_edges ≡ n.out_edges)
    → IsLinked g
    → IsLinked (update_node r f g)
update_node-IsLinked r f g same_in same_out v = record {
  outgoing =
      simp edges-update_node
        (IsSide-ext _ g.edges (λ s. rw (node_at-update_node r s f g) (outs_kept s)) v.outgoing);
  incoming =
      simp edges-update_node
        (IsSide-ext _ g.edges (λ s. rw (node_at-update_node r s f g) (ins_kept s)) v.incoming);
  keyed = simp edges-update_node v.keyed;
}
  where
    lists_kept :
        (o : Option Node)
        → map_option (λ (n : Node). n.out_edges) (map_option f o)
          ≡ map_option (λ (n : Node). n.out_edges) o
    lists_kept none = refl
    lists_kept (some n) = ap some (same_out n)

    ins_of :
        (o : Option Node)
        → map_option (λ (n : Node). n.in_edges) (map_option f o)
          ≡ map_option (λ (n : Node). n.in_edges) o
    ins_of none = refl
    ins_of (some n) = ap some (same_in n)

    outs_kept :
        (s : NodeRef)
        → map_option
            (λ (n : Node). n.out_edges)
            (if ref_eq r s then map_option f (node_at g s) else node_at g s)
          ≡ outs g s
    outs_kept s = ground (arith, lists_kept (node_at g s))

    ins_kept :
        (s : NodeRef)
        → map_option
            (λ (n : Node). n.in_edges)
            (if ref_eq r s then map_option f (node_at g s) else node_at g s)
          ≡ ins g s
    ins_kept s = ground (arith, ins_of (node_at g s))

node_at-with_nodes-emplace :
    (kind : NodeKind) (key : String) (n : Node) (g : RGraph) (s : NodeRef)
    → node_at (with_nodes kind (emplace key n) g) s ≡ (
        if ref_eq (record { kind = kind; key = key }) s
        then some (or_else (node_at g s) n)
        else node_at g s)
unfolding node_at with_nodes nodes_of ref_eq kind_eq
node_at-with_nodes-emplace kind key n g s = ground (
  arith,
  lookup-emplace key s.key n g.s_nodes,
  lookup-emplace key s.key n g.dtn_nodes,
  lookup-emplace key s.key n g.general_nodes,
  eq_iff key s.key,
)

edges-with_nodes :
    (kind : NodeKind) (f : Keyed Node → Keyed Node) (g : RGraph)
    → (with_nodes kind f g).edges ≡ g.edges
unfolding with_nodes
edges-with_nodes kind f g = ground arith

-- A node that is added has no edges; where the key is taken nothing changes.
emplace-IsLinked :
    (kind : NodeKind) (key : String) (b : Resource) (own : Own) (g : RGraph)
    → IsLinked g
    → IsLinked (with_nodes kind (emplace key (new_node b own)) g)
emplace-IsLinked kind key b own g v = record {
  outgoing = simp edges-with_nodes (
      IsSide-extend _ v.outgoing (record { kind = kind; key = key })
        (λ s. rw (node_at-with_nodes-emplace kind key (new_node b own) g s) (ground arith)));
  incoming = simp edges-with_nodes (
      IsSide-extend _ v.incoming (record { kind = kind; key = key })
        (λ s. rw (node_at-with_nodes-emplace kind key (new_node b own) g s) (ground arith)));
  keyed = simp edges-with_nodes v.keyed;
}

pub add_storage_node-IsLinked :
    (id name : String) (type : StorageType) (rate : ℤ) (g : RGraph)
    → IsLinked g
    → IsLinked (add_storage_node id name type rate g)
unfolding add_storage_node with_nodes
add_storage_node-IsLinked id name type rate g v = emplace-IsLinked storage id _ _ g v

pub add_dtn_node-IsLinked :
    (id name : String) (rate : ℤ) (g : RGraph) → IsLinked g → IsLinked (add_dtn_node id name rate g)
unfolding add_dtn_node with_nodes
add_dtn_node-IsLinked id name rate g v = emplace-IsLinked dtn id _ _ g v

pub add_general_node-IsLinked :
    (id rid name : String) (rate : ℤ) (g : RGraph)
    → IsLinked g
    → IsLinked (add_general_node id rid name rate g)
unfolding add_general_node with_nodes
add_general_node-IsLinked id rid name rate g v = emplace-IsLinked general id _ _ g v
