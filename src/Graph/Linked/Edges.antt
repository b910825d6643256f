-- ===== src/Graph/Linked/Edges.antt =====
-- `add_edge` of server/resourcegraph.cc on a linked graph.
use bigdataexpress_c.Base.{
  String, ◌≡◌, ◌∙◌, refl, true, false, Option, none, some, arith, str_eq, if◌then◌else◌,
}
use bigdataexpress_c.Base.Int.{ℤ}
use bigdataexpress_c.Base.Keyed.{is_some, lookup, All-of_lookup}
use bigdataexpress_c.Outcome.{Outcome, ok, ◌>>=◌, Safe, Safe-bind}
use bigdataexpress_c.Graph.{
  NodeRef, storage, dtn, general, RGraph, node_at, nodes_of, get_node, has_node, has_storage_node,
  has_dtn_node,
}
use bigdataexpress_c.Graph.Build.{insert_edge, add_edge, edge_between}
use bigdataexpress_c.Graph.Linked.{
  IsLinked, outs, ins, get_node_live, insert_edge-IsLinked, lookup-insert_edge, edge_between_total,
}

-- The search for an edge ends in a linked graph.
pub edge_between-ok :
    (g : RGraph) (s d : String)
    → IsLinked g
    → (found : Option String) × (edge_between g s d g.edges ≡ ok found)
edge_between-ok g s d v =
    edge_between_total g s d g.edges
      (All-of_lookup (λ e. is_some (outs g e.src_node) ≡ true) g.edges v.keyed v.outgoing.alive)
      (All-of_lookup (λ e. is_some (ins g e.dst_node) ≡ true) g.edges v.keyed v.incoming.alive)

module _ (guid s d : String) (rate : ℤ) (g : RGraph) where
  add_edge_known :
      {k : String} → edge_between g s d g.edges ≡ ok (some k) → add_edge guid s d rate g ≡ ok g
  unfolding add_edge
  add_edge_known e = rw e

  add_edge_new :
      edge_between g s d g.edges ≡ ok none
      → add_edge guid s d rate g
        ≡ (do src ← get_node s g; dst ← get_node d g; ok (insert_edge guid src dst rate g))
  unfolding add_edge
  add_edge_new e = rw e

get_node-Safe :
    (id : String) (g : RGraph) → Safe (λ r. is_some (node_at g r) ≡ true) (get_node id g)
unfolding get_node node_at nodes_of
get_node-Safe id g = ground arith

pub get_node-ok :
    (id : String) (g : RGraph) → has_node id g ≡ true → (r : NodeRef) × (get_node id g ≡ ok r)
unfolding get_node has_node
get_node-ok id g h = (
  if has_storage_node id g
      then record { kind = storage; key = id }
      else if has_dtn_node id g
      then record { kind = dtn; key = id }
      else record { kind = general; key = id },
  ground arith,
)

pub record Added (guid : String) (g h : RGraph) : Type 0 where
  pub linked : IsLinked h
  pub others : (j : String) → str_eq guid j ≡ false → lookup j h.edges ≡ lookup j g.edges

search_cases {ℓ κ} :
    {A : Type ℓ} {m : Outcome (Option A)} {B : Type κ}
    → (found : Option A) × (m ≡ ok found)
    → ((a : A) → m ≡ ok (some a) → B)
    → (m ≡ ok none → B)
    → B
search_cases (none, e) h k = k e
search_cases (some a, e) h k = h a e

module _ (guid s d : String) (rate : ℤ) (g : RGraph) (v : IsLinked g)
    (fresh : lookup guid g.edges ≡ none) where
  -- In a linked graph, between two nodes that are there and under a fresh identifier, `add_edge`
  -- returns, and the graph is linked again.
  pub add_edge-IsLinked :
      has_node s g ≡ true
      → has_node d g ≡ true
      → (g' : RGraph) × (add_edge guid s d rate g ≡ ok g') × IsLinked g'
  add_edge-IsLinked hs hd =
      let (src, p) = get_node-ok s g hs in
      let (dst, q) = get_node-ok d g hd in
      search_cases (edge_between-ok g s d v) (λ k e. (g, add_edge_known guid s d rate g e, v))
        (λ e. (
          insert_edge guid src dst rate g,
          add_edge_new guid s d rate g e ∙ rw (p, q),
          insert_edge-IsLinked guid src dst rate g fresh (get_node_live s g p) (get_node_live d g q)
              v,
        ))

  -- Whether the nodes are there or not, `add_edge` follows no dangling pointer; what it returns is
  -- linked, and every edge but the new one stays as it was.
  pub add_edge-Safe : Safe (Added guid g) (add_edge guid s d rate g)
  add_edge-Safe =
      search_cases (edge_between-ok g s d v)
        (λ k e. rw (add_edge_known guid s d rate g e) (record { linked = v; others = λ j h. refl }))
        (λ e. rw (add_edge_new guid s d rate g e) (
          Safe-bind _ (Added guid g) (get_node s g) _ (get_node-Safe s g) (λ src _ hs.
            Safe-bind _ (Added guid g) (get_node d g) _ (get_node-Safe d g) (λ dst _ hd. record {
              linked = insert_edge-IsLinked guid src dst rate g fresh hs hd v;
              others = lookup-insert_edge guid src dst rate g fresh;
            }))))
