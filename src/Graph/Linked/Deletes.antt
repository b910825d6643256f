-- ===== src/Graph/Linked/Deletes.antt =====
-- The two loops of `del_node` of server/resourcegraph.cc, on a linked graph. While a loop runs, the
-- node that is to go still lists the edges that are erased: its list counts as the edges to come.
pub mod Whole
pub mod Named
use bigdataexpress_c.Base.{
  String, ◌≡◌, refl, sym, subst, ap, ◌∙◌, ◌⊎◌, inl, inr, Bool, true, false, ◌||◌, Option, none,
  some, List, [], ◌∷◌, arith, str_eq, eq_iff, if◌then◌else◌, Option-cases,
}
use bigdataexpress_c.Base.Keyed.{
  Keyed, is_some, map_option, lookup, erase, Unique, Unique-erase, lookup-erase,
}
use bigdataexpress_c.Outcome.{Outcome, ok}
use bigdataexpress_c.Graph.{NodeRef, Node, Edge, Resource, Own, RGraph, node_at, update_node}
use bigdataexpress_c.Graph.Remove.{
  del_first, del_in_edge, del_out_edge, erase_edge, erase_in_edges, erase_out_edges,
}
use bigdataexpress_c.Graph.Links.{
  ref_eq, ref_eq_iff, has, Lists, IsSide, IsSide-ext, IsSide-drop, at, ends_at,
}
use bigdataexpress_c.Graph.Linked.{
  IsLinked, outs, ins, node_at-update_node, edges-update_node, node_at-with_edges,
}

-- What a node is, but for its lists of edges.
pub record Info : Type 0 where
  pub base : Resource
  pub own : Own

abbrev pub info : RGraph → NodeRef → Option Info
info g r = map_option (λ (n : Node). record { base = n.base; own = n.own }) (node_at g r)

abbrev pub touches : NodeRef → Option Edge → Bool
touches r o = ends_at (λ e. e.src_node) o r || ends_at (λ e. e.dst_node) o r

-- Only edges at the node are erased, and only lists of edges change.
pub record Shrinks (r : NodeRef) (g h : RGraph) : Type 0 where
  pub nodes : (s : NodeRef) → info h s ≡ info g s
  pub edges :
      (j : String)
      → (lookup j h.edges ≡ lookup j g.edges)
        ⊎ (touches r (lookup j g.edges) ≡ true) × (lookup j h.edges ≡ none)

Shrinks-refl : (r : NodeRef) (g : RGraph) → Shrinks r g g
Shrinks-refl r g = record { nodes = λ s. refl; edges = λ j. inl refl }

pub Shrinks-trans : (r : NodeRef) (f g h : RGraph) → Shrinks r f g → Shrinks r g h → Shrinks r f h
Shrinks-trans r f g h p q = record {
  nodes = λ s. q.nodes s ∙ p.nodes s;
  edges = λ j. ground (arith, p.edges j, q.edges j);
}

-- One round of a loop: the edge under `k` is erased, and a node at one of its ends forgets it.
module _ (k : String) (a : NodeRef) (g : RGraph) where
  out_round-outs :
      (s : NodeRef)
      → outs (erase_edge k (update_node a (del_out_edge k) g)) s ≡ at a (del_first k) (outs g) s
  out_round-outs s =
      simp (node_at-with_edges, node_at-update_node) (unfold del_out_edge in ground arith)

  out_round-ins : (s : NodeRef) → ins (erase_edge k (update_node a (del_out_edge k) g)) s ≡ ins g s
  out_round-ins s =
      simp (node_at-with_edges, node_at-update_node) (unfold del_out_edge in ground arith)

  out_round-info :
      (s : NodeRef) → info (erase_edge k (update_node a (del_out_edge k) g)) s ≡ info g s
  out_round-info s =
      simp (node_at-with_edges, node_at-update_node) (unfold del_out_edge in ground arith)

  in_round-ins :
      (s : NodeRef)
      → ins (erase_edge k (update_node a (del_in_edge k) g)) s ≡ at a (del_first k) (ins g) s
  in_round-ins s =
      simp (node_at-with_edges, node_at-update_node) (unfold del_in_edge in ground arith)

  in_round-outs : (s : NodeRef) → outs (erase_edge k (update_node a (del_in_edge k) g)) s ≡ outs g s
  in_round-outs s =
      simp (node_at-with_edges, node_at-update_node) (unfold del_in_edge in ground arith)

  in_round-info : (s : NodeRef) → info (erase_edge k (update_node a (del_in_edge k) g)) s ≡ info g s
  in_round-info s =
      simp (node_at-with_edges, node_at-update_node) (unfold del_in_edge in ground arith)

-- The state of the first loop, with the edges into `r` that are still to come.
pub record InPending (r : NodeRef) (ks : List String) (g : RGraph) : Type 0 where
  pub outgoing : IsSide (λ e. e.src_node) (outs g) g.edges
  pub incoming : IsSide (λ e. e.dst_node) (at r (λ _. ks) (ins g)) g.edges
  pub keyed : Unique g.edges
  pub there : is_some (node_at g r) ≡ true

-- The state of the second loop, with the edges out of `r` that are still to come.
pub record OutPending (r : NodeRef) (ks : List String) (g : RGraph) : Type 0 where
  pub outgoing : IsSide (λ e. e.src_node) (at r (λ _. ks) (outs g)) g.edges
  pub incoming : IsSide (λ e. e.dst_node) (at r (λ _. []) (ins g)) g.edges
  pub keyed : Unique g.edges
  pub there : is_some (node_at g r) ≡ true

-- The first edge to come is there, and ends at the node.
pending_edge :
    (end_of : Edge → NodeRef) (r : NodeRef) (k : String) (ks : List String) (ls : Lists)
    (es : Keyed Edge)
    → IsSide end_of (at r (λ _. k ∷ ks) ls) es
    → is_some (ls r) ≡ true
    → (e : Edge) × (lookup k es ≡ some e) × (end_of e ≡ r)
unfolding has
pending_edge end_of r k ks ls es v h =
    let here : at r (λ _. k ∷ ks) ls r ≡ some (k ∷ ks) = ground (arith, ref_eq_iff r r, h) in
    let listed = v.holds r (k ∷ ks) k here in
    elim (Option-cases (lookup k es)) [
      | inl gone ↦ absurd (ground (arith, gone, listed, eq_iff k k))
      | inr (e, there) ↦
          (e, there, ground (arith, there, listed, eq_iff k k, ref_eq_iff (end_of e) r))
    ]

-- After its round the edge is off the list.
pending_next :
    (end_of : Edge → NodeRef) (r : NodeRef) (k : String) (ks : List String) (ls : Lists)
    (es : Keyed Edge) (e : Edge)
    → IsSide end_of (at r (λ _. k ∷ ks) ls) es
    → lookup k es ≡ some e
    → end_of e ≡ r
    → IsSide end_of (at r (λ _. ks) ls) (erase k es)
unfolding del_first
pending_next end_of r k ks ls es e v there end =
    IsSide-ext end_of (erase k es) (λ s. rw end (ground (arith, eq_iff k k)))
      (IsSide-drop end_of v k e there)

round-Shrinks :
    (r : NodeRef) (k : String) (e : Edge) (g h : RGraph)
    → lookup k g.edges ≡ some e
    → touches r (some e) ≡ true
    → h.edges ≡ erase k g.edges
    → ((s : NodeRef) → info h s ≡ info g s)
    → Shrinks r g h
round-Shrinks r k e g h there end erased same = record {
  nodes = same;
  edges = λ j. rw erased (rw (lookup-erase k j g.edges) (ground (arith, eq_iff k j, there, end)));
}

-- The first loop comes to an end, and leaves no edge into the node.
pub erase_in_edges_total :
    (r : NodeRef) (ks : List String) (g : RGraph)
    → InPending r ks g
    → (h : RGraph) × (erase_in_edges ks g ≡ ok h) × InPending r [] h × Shrinks r g h
unfolding erase_in_edges
erase_in_edges_total r [] g v = (g, refl, v, Shrinks-refl r g)
erase_in_edges_total r (k ∷ ks) g v =
    let (e, there, end) =
      pending_edge (λ e. e.dst_node) r k ks (ins g) g.edges v.incoming (ground (arith, v.there)) in
    let g' = erase_edge k (update_node e.src_node (del_out_edge k) g) in
    let erased : g'.edges ≡ erase k g.edges =
      ap (erase k) (edges-update_node e.src_node (del_out_edge k) g) in
    let (h, run, w, sh) = erase_in_edges_total r ks g' (record {
      outgoing = subst (IsSide _ (outs g')) (sym erased) (
          IsSide-ext _ (erase k g.edges) (out_round-outs k e.src_node g)
            (IsSide-drop _ v.outgoing k e there));
      incoming = subst (IsSide _ (at r (λ _. ks) (ins g'))) (sym erased) (
          IsSide-ext _ (erase k g.edges) (λ s. rw (out_round-ins k e.src_node g s))
            (pending_next (λ e. e.dst_node) r k ks (ins g) g.edges e v.incoming there end));
      keyed = subst Unique (sym erased) (Unique-erase k g.edges v.keyed);
      there = ground (arith, out_round-ins k e.src_node g r, v.there);
    }) in
    (
      h,
      ground (arith, there, v.outgoing.alive k e there, run),
      w,
      Shrinks-trans r g g' h
          (round-Shrinks r k e g g' there (ground (arith, ref_eq_iff e.dst_node r, end)) erased
            (out_round-info k e.src_node g))
          sh,
    )

-- The second loop comes to an end, and leaves no edge out of the node.
pub erase_out_edges_total :
    (r : NodeRef) (ks : List String) (g : RGraph)
    → OutPending r ks g
    → (h : RGraph) × (erase_out_edges ks g ≡ ok h) × OutPending r [] h × Shrinks r g h
unfolding erase_out_edges
erase_out_edges_total r [] g v = (g, refl, v, Shrinks-refl r g)
erase_out_edges_total r (k ∷ ks) g v =
    let (e, there, end) =
      pending_edge (λ e. e.src_node) r k ks (outs g) g.edges v.outgoing (ground (arith, v.there)) in
    let g' = erase_edge k (update_node e.dst_node (del_in_edge k) g) in
    let erased : g'.edges ≡ erase k g.edges =
      ap (erase k) (edges-update_node e.dst_node (del_in_edge k) g) in
    let (h, run, w, sh) = erase_out_edges_total r ks g' (record {
      outgoing = subst (IsSide _ (at r (λ _. ks) (outs g'))) (sym erased) (
          IsSide-ext _ (erase k g.edges) (λ s. rw (in_round-outs k e.dst_node g s))
            (pending_next (λ e. e.src_node) r k ks (outs g) g.edges e v.outgoing there end));
      incoming = subst (IsSide _ (at r (λ _. []) (ins g'))) (sym erased) (
          IsSide-ext _ (erase k g.edges)
            (λ s. rw (in_round-ins k e.dst_node g s) (unfold del_first in ground arith))
            (IsSide-drop _ v.incoming k e there));
      keyed = subst Unique (sym erased) (Unique-erase k g.edges v.keyed);
      there = ground (arith, in_round-outs k e.dst_node g r, v.there);
    }) in
    (
      h,
      ground (arith, there, v.incoming.alive k e there, run),
      w,
      Shrinks-trans r g g' h
          (round-Shrinks r k e g g' there (ground (arith, ref_eq_iff e.src_node r, end)) erased
            (in_round-info k e.dst_node g))
          sh,
    )
