-- ===== src/Graph/Linked.antt =====
-- The invariant of server/resourcegraph.cc: the pointers of the graph match and none dangles.
-- Here it is kept by what adds nodes and edges.
pub mod Edges
pub mod Nodes
pub mod Deletes
use mathlib.Core.Path.{fun_ext}
use bigdataexpress_c.Base.{
  String, ◌≡◌, refl, ◌⊎◌, inl, inr, Bool, true, false, ◌&&◌, ◌++◌, Option, none, some, List, [],
  ◌∷◌, arith, str_eq, eq_iff, if◌then◌else◌, Bool-cases, Option-cases, All,
}
use bigdataexpress_c.Base.Int.{ℤ}
use bigdataexpress_c.Base.Keyed.{
  Keyed, Unique, Unique-emplace, Unique-update, All-of_lookup, is_some, map_option, or_else, lookup,
  emplace, erase, update, lookup-update, lookup-erase, lookup-emplace,
}
use bigdataexpress_c.Outcome.{Outcome, ok, throw, fault, ◌>>=◌}
use bigdataexpress_c.Graph.{
  NodeRef, NodeKind, storage, dtn, general, Node, Edge, RGraph, nodes_of, with_nodes, node_at,
  update_node, get_node, reset, StorageType, new_resource,
}
use bigdataexpress_c.Graph.Build.{
  add_out_edge, add_in_edge, connect, insert_edge, add_edge, edge_between, has_edge, get_edge,
  add_storage_node, add_dtn_node, add_general_node, add_gateway, add_launcher, add_sdn, set_queue,
}
use bigdataexpress_c.Graph.Links.{
  IsSide-extend, kind_eq, ref_eq, ref_eq_iff, has, Lists, IsSide, IsSide-ext, IsSide-add, at,
  ends_at,
}

abbrev pub outs : RGraph → Lists
outs g r = map_option (λ (n : Node). n.out_edges) (node_at g r)

abbrev pub ins : RGraph → Lists
ins g r = map_option (λ (n : Node). n.in_edges) (node_at g r)

pub record IsLinked (g : RGraph) : Type 0 where
  pub outgoing : IsSide (λ e. e.src_node) (outs g) g.edges
  pub incoming : IsSide (λ e. e.dst_node) (ins g) g.edges
  pub keyed : Unique g.edges

pub node_at-update_node :
    (r s : NodeRef) (f : Node → Node) (g : RGraph)
    → node_at (update_node r f g) s
      ≡ (if ref_eq r s then map_option f (node_at g s) else node_at g s)
unfolding node_at update_node nodes_of with_nodes ref_eq kind_eq
node_at-update_node r s f g = ground (
  arith,
  lookup-update r.key s.key f g.s_nodes,
  lookup-update r.key s.key f g.dtn_nodes,
  lookup-update r.key s.key f g.general_nodes,
)

pub edges-update_node :
    (r : NodeRef) (f : Node → Node) (g : RGraph) → (update_node r f g).edges ≡ g.edges
unfolding update_node with_nodes
edges-update_node r f g = ground arith

pub reset-IsLinked : IsLinked reset
unfolding node_at nodes_of lookup
reset-IsLinked = record {
  outgoing = record {
    holds = λ r ks k h. ground arith;
    once = λ r ks h. ground arith;
    alive = λ k e h. ground arith;
  };
  incoming = record {
    holds = λ r ks k h. ground arith;
    once = λ r ks h. ground arith;
    alive = λ k e h. ground arith;
  };
  keyed = tt;
}

-- A pointer that `get_node` returns leads to a node.
pub get_node_live :
    (id : String) (g : RGraph) {r : NodeRef} → get_node id g ≡ ok r → is_some (node_at g r) ≡ true
unfolding get_node node_at nodes_of
get_node_live id g h = ground arith

abbrev pub with_edges : Keyed Edge → RGraph → RGraph
with_edges es g = record g { edges = es }

pub node_at-with_edges :
    (es : Keyed Edge) (g : RGraph) (r : NodeRef) → node_at (with_edges es g) r ≡ node_at g r
unfolding node_at nodes_of
node_at-with_edges es g r = ground arith

abbrev new_edge : String → NodeRef → NodeRef → ℤ → Edge
new_edge guid src dst rate = record {
  base = record (new_resource guid "" rate) { connected = true };
  src_node = src;
  dst_node = dst;
}

abbrev edges_with : String → NodeRef → NodeRef → ℤ → Keyed Edge → Keyed Edge
edges_with guid src dst rate es =
    update guid
      (λ (e : Edge). record e {
        base = record e.base { connected = true };
        src_node = src;
        dst_node = dst;
      })
      (emplace guid (record { base = new_resource guid "" rate; src_node = src; dst_node = dst })
        es)

lookup-edges_with :
    (guid : String) (src dst : NodeRef) (rate : ℤ) (es : Keyed Edge)
    → lookup guid es ≡ none
    → (j : String)
    → lookup j (edges_with guid src dst rate es)
      ≡ (if str_eq guid j then some (new_edge guid src dst rate) else lookup j es)
lookup-edges_with guid src dst rate es fresh j =
    simp (lookup-update, lookup-emplace) (ground (arith, fresh))

insert_edge_lem :
    (guid : String) (src dst : NodeRef) (rate : ℤ) (g : RGraph)
    → insert_edge guid src dst rate g
      ≡ update_node dst (add_in_edge guid) (
          update_node src (add_out_edge guid) (with_edges (edges_with guid src dst rate g.edges) g))
unfolding insert_edge
insert_edge_lem guid src dst rate g = refl

module _ (guid : String) (src dst : NodeRef) (rate : ℤ) (g : RGraph) where
  insert_edge-outs :
      (r : NodeRef)
      → outs (insert_edge guid src dst rate g) r ≡ at src (λ ks. ks ++ guid ∷ []) (outs g) r
  insert_edge-outs r =
      simp (insert_edge_lem, node_at-update_node, node_at-with_edges)
        (unfold add_out_edge add_in_edge in ground arith)

  insert_edge-ins :
      (r : NodeRef)
      → ins (insert_edge guid src dst rate g) r ≡ at dst (λ ks. ks ++ guid ∷ []) (ins g) r
  insert_edge-ins r =
      simp (insert_edge_lem, node_at-update_node, node_at-with_edges)
        (unfold add_out_edge add_in_edge in ground arith)

  insert_edge-edges : (insert_edge guid src dst rate g).edges ≡ edges_with guid src dst rate g.edges
  insert_edge-edges = simp (insert_edge_lem, edges-update_node)

  pub lookup-insert_edge :
      lookup guid g.edges ≡ none
      → (j : String) → str_eq guid j ≡ false
      → lookup j (insert_edge guid src dst rate g).edges ≡ lookup j g.edges
  lookup-insert_edge fresh j other =
      simp (insert_edge-edges, lookup-edges_with guid src dst rate g.edges fresh j, other)

  pub insert_edge-IsLinked :
      lookup guid g.edges ≡ none
      → is_some (node_at g src) ≡ true
      → is_some (node_at g dst) ≡ true
      → IsLinked g
      → IsLinked (insert_edge guid src dst rate g)
  insert_edge-IsLinked fresh src_live dst_live v =
      let now = lookup-edges_with guid src dst rate g.edges fresh in
      let e = new_edge guid src dst rate in
      let es = edges_with guid src dst rate g.edges in
      record {
        outgoing = simp insert_edge-edges (
            IsSide-ext _ es insert_edge-outs
              (IsSide-add _ v.outgoing guid e es fresh now (ground (arith, src_live))));
        incoming = simp insert_edge-edges (
            IsSide-ext _ es insert_edge-ins
              (IsSide-add _ v.incoming guid e es fresh now (ground (arith, dst_live))));
        keyed =
            rw insert_edge-edges (Unique-update guid _ _ (Unique-emplace guid _ g.edges v.keyed));
      }

-- In a linked graph the search for an edge follows no dangling pointer.
pub edge_between_total :
    (g : RGraph) (s d : String) (m : Keyed Edge)
    → All (λ (e : String × Edge). is_some (outs g e.1.src_node) ≡ true) m
    → All (λ (e : String × Edge). is_some (ins g e.1.dst_node) ≡ true) m
    → (found : Option String) × (edge_between g s d m ≡ ok found)
unfolding edge_between
edge_between_total g s d [] h l = (none, refl)
edge_between_total g s d ((k, e) ∷ m) h l =
    let (rest, r) = edge_between_total g s d m h.1 l.1 in
    elim (Option-cases (node_at g e.src_node)) [
      | inl gone ↦ absurd (ground (arith, h.0, gone))
      | inr (src, at_src) ↦ elim (Option-cases (node_at g e.dst_node)) [
        | inl gone ↦ absurd (ground (arith, l.0, gone))
        | inr (dst, at_dst) ↦ (
          if str_eq src.rid s then if str_eq dst.rid d then some k else rest else rest,
          ground (arith, at_src, at_dst, r),
        )
      ]
    ]
