-- ===== src/Graph/Linked/Deletes/Whole.antt =====
-- `del_node` of server/resourcegraph.cc as a whole.
use bigdataexpress_c.Base.{
  String, ◌≡◌, ◌≢◌, sym, ap, ap₂, subst, ◌∙◌, inl, inr, true, false, none, some, List, [], arith,
  if◌then◌else◌, Bool-cases, Option-cases,
}
use bigdataexpress_c.Base.Keyed.{Keyed, is_some, lookup, erase, Unique, lookup-erase}
use bigdataexpress_c.Outcome.{ok}
use bigdataexpress_c.Graph.{
  NodeRef, storage, dtn, Node, Edge, RGraph, nodes_of, with_nodes, node_at, get_node,
}
use bigdataexpress_c.Graph.Remove.{del_node_at, kind_of, erase_in_edges, erase_out_edges}
use bigdataexpress_c.Graph.Links.{
  kind_eq, ref_eq, ref_eq_iff, has, Lists, IsSide, IsSide-ext, at, ends_at,
}
use bigdataexpress_c.Graph.Linked.{IsLinked, outs, ins, get_node_live}
use bigdataexpress_c.Graph.Linked.Deletes.{
  InPending, OutPending, Shrinks, Shrinks-trans, erase_in_edges_total, erase_out_edges_total, info,
  touches,
}

node_at-with_nodes-erase :
    (r : NodeRef) (g : RGraph) (s : NodeRef)
    → node_at (with_nodes r.kind (erase r.key) g) s ≡ (if ref_eq r s then none else node_at g s)
unfolding node_at with_nodes nodes_of ref_eq kind_eq
node_at-with_nodes-erase r g s = ground (
  arith,
  lookup-erase r.key s.key g.s_nodes,
  lookup-erase r.key s.key g.dtn_nodes,
  lookup-erase r.key s.key g.general_nodes,
)

edges-with_nodes-erase :
    (r : NodeRef) (g : RGraph) → (with_nodes r.kind (erase r.key) g).edges ≡ g.edges
unfolding with_nodes
edges-with_nodes-erase r g = ground arith

-- A node without edges can go.
IsSide-remove :
    (end_of : Edge → NodeRef) (r : NodeRef) (ls : Lists) {ls' : Lists} (es : Keyed Edge)
    → IsSide end_of (at r (λ _. []) ls) es
    → is_some (ls r) ≡ true
    → ((s : NodeRef) → ls' s ≡ (if ref_eq r s then none else ls s))
    → IsSide end_of ls' es
unfolding has
IsSide-remove end_of r ls es v there same = record {
  holds = λ s ks k h. ground (arith, same s, h, v.holds s ks k);
  once = λ s ks h. ground (arith, same s, h, v.once s ks);
  alive = λ k e h. ground (
    arith,
    h,
    same (end_of e),
    v.alive k e h,
    v.holds r [] k (ground (arith, ref_eq_iff r r, there)),
    ref_eq_iff r (end_of e),
    ref_eq_iff (end_of e) r,
  );
}

free_of :
    (end_of : Edge → NodeRef) (r : NodeRef) (ls : Lists) (es : Keyed Edge) (j : String)
    → IsSide end_of (at r (λ _. []) ls) es
    → is_some (ls r) ≡ true
    → ends_at end_of (lookup j es) r ≡ false
unfolding has
free_of end_of r ls es j v there =
    ground (arith, v.holds r [] j (ground (arith, ref_eq_iff r r, there)))

-- What deleting a node does to a linked graph: it is linked again, the node is gone, the other
-- nodes stay as they were but for their lists of edges, and so do the edges that did not touch it.
pub record Deleted (r : NodeRef) (g h : RGraph) : Type 0 where
  pub linked : IsLinked h
  pub gone : node_at h r ≡ none
  pub others : (s : NodeRef) → s ≢ r → info h s ≡ info g s
  pub edges :
      (j : String)
      → lookup j h.edges ≡ (if touches r (lookup j g.edges) then none else lookup j g.edges)

finish_delete :
    (r : NodeRef) (g h : RGraph)
    → OutPending r [] h
    → Shrinks r g h
    → Deleted r g (with_nodes r.kind (erase r.key) h)
finish_delete r g h v sh =
    let es = edges-with_nodes-erase r h in
    let h' = with_nodes r.kind (erase r.key) h in
    let linked : IsLinked h' = record {
      outgoing = subst (IsSide _ (outs h')) (sym es) (
          IsSide-remove _ r (outs h) h.edges v.outgoing (ground (arith, v.there))
            (λ s. rw (node_at-with_nodes-erase r h s) (ground arith)));
      incoming = subst (IsSide _ (ins h')) (sym es) (
          IsSide-remove _ r (ins h) h.edges v.incoming (ground (arith, v.there))
            (λ s. rw (node_at-with_nodes-erase r h s) (ground arith)));
      keyed = subst Unique (sym es) v.keyed;
    } in
    record {
      linked = linked;
      gone = ground (arith, node_at-with_nodes-erase r h r, ref_eq_iff r r);
      others = λ s ne. elim (Bool-cases (ref_eq r s)) [
        | inl same ↦ absurd (ne (sym ((ref_eq_iff r s).0 same)))
        | inr other ↦ ground (arith, node_at-with_nodes-erase r h s, sh.nodes s, other)
      ];
      edges = λ j. rw es (
          ground (
            arith,
            sh.edges j,
            free_of (λ e. e.src_node) r (outs h) h.edges j v.outgoing (ground (arith, v.there)),
            free_of (λ e. e.dst_node) r (ins h) h.edges j v.incoming (ground (arith, v.there)),
          ));
    }

-- A node's own list put in its place changes nothing.
own_list :
    (r s : NodeRef) (ls : Lists) {ks : List String} → ls r ≡ some ks → at r (λ _. ks) ls s ≡ ls s
own_list r s ls {ks} h = elim (Bool-cases (ref_eq r s)) [
  | inl same ↦ rw (← (ref_eq_iff r s).0 same) (ground (arith, h, ref_eq_iff r r))
  | inr other ↦ rw other
]

start_in :
    (r : NodeRef) (n : Node) (g : RGraph)
    → IsLinked g
    → node_at g r ≡ some n
    → InPending r n.in_edges g
start_in r n g v here = record {
  outgoing = v.outgoing;
  incoming = IsSide-ext _ g.edges (λ s. own_list r s (ins g) (ground (arith, here))) v.incoming;
  keyed = v.keyed;
  there = ground (arith, here);
}

start_out :
    (r : NodeRef) (n : Node) (g : RGraph)
    → InPending r [] g
    → node_at g r ≡ some n
    → OutPending r n.out_edges g
start_out r n g v here = record {
  outgoing = IsSide-ext _ g.edges (λ s. own_list r s (outs g) (ground (arith, here))) v.outgoing;
  incoming = v.incoming;
  keyed = v.keyed;
  there = v.there;
}

del_node_at_lem :
    (nid : String) (g g₁ g₂ : RGraph) (r : NodeRef) (n n₁ : Node)
    → get_node nid g ≡ ok r
    → node_at g r ≡ some n
    → erase_in_edges n.in_edges g ≡ ok g₁
    → node_at g₁ r ≡ some n₁
    → erase_out_edges n₁.out_edges g₁ ≡ ok g₂
    → del_node_at nid g ≡ ok (with_nodes (kind_of nid g₂) (erase nid) g₂)
unfolding del_node_at
del_node_at_lem nid g g₁ g₂ r n n₁ a b c d e = rw (a, b, c, d, e)

get_node-kind_of :
    (nid : String) (g : RGraph) (r : NodeRef)
    → get_node nid g ≡ ok r
    → r ≡ record { kind = kind_of nid g; key = nid }
unfolding get_node kind_of
get_node-kind_of nid g r h = ground arith

kind_of-Shrinks :
    (nid : String) (r : NodeRef) (g h : RGraph) → Shrinks r g h → kind_of nid h ≡ kind_of nid g
unfolding kind_of node_at nodes_of
kind_of-Shrinks nid r g h sh = ground (
  arith,
  sh.nodes (record { kind = storage; key = nid }),
  sh.nodes (record { kind = dtn; key = nid }),
)

-- Deleting the node that `get_node` finds under a key, in a linked graph, returns.
pub del_node_at_total :
    (nid : String) (g : RGraph) (r : NodeRef)
    → IsLinked g
    → get_node nid g ≡ ok r
    → (h : RGraph) × (del_node_at nid g ≡ ok h) × Deleted r g h
del_node_at_total nid g r v found = elim (Option-cases (node_at g r)) [
  | inl gone ↦ absurd (ground (arith, get_node_live nid g found, gone))
  | inr (n, here) ↦
      let (g₁, run₁, w₁, sh₁) = erase_in_edges_total r n.in_edges g (start_in r n g v here) in
      elim (Option-cases (node_at g₁ r)) [
        | inl gone ↦ absurd (ground (arith, w₁.there, gone))
        | inr (n₁, here₁) ↦
            let (g₂, run₂, w₂, sh₂) =
              erase_out_edges_total r n₁.out_edges g₁ (start_out r n₁ g₁ w₁ here₁) in
            let sh = Shrinks-trans r g g₁ g₂ sh₁ sh₂ in
            let at_r = get_node-kind_of nid g r found in
            let kind : kind_of nid g₂ ≡ r.kind =
              kind_of-Shrinks nid r g g₂ sh ∙ sym (ap (λ (x : NodeRef). x.kind) at_r) in
            let key : nid ≡ r.key = sym (ap (λ (x : NodeRef). x.key) at_r) in
            (
              with_nodes r.kind (erase r.key) g₂,
              del_node_at_lem nid g g₁ g₂ r n n₁ found here run₁ here₁ run₂
                  ∙ ap₂ (λ a b. ok (with_nodes a (erase b) g₂)) kind key,
              finish_delete r g g₂ w₂ sh,
            )
      ]
]
