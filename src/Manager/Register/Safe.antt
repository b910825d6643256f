-- ===== src/Manager/Register/Safe.antt =====
-- Agents that come and go leave the graph of server/resourcemanager.cc linked.
use bigdataexpress_c.Base.{
  ℕ, suc, ◌≤◌, String, ◌≡◌, ◌≢◌, refl, ◌∙◌, inl, inr, Bool, true, false, Option, none, some, arith,
  str_eq, eq_iff, if◌then◌else◌, Bool-cases,
}
use bigdataexpress_c.Base.Int.{ℤ, pos}
use bigdataexpress_c.Base.Keyed.{lookup}
use bigdataexpress_c.Outcome.{Outcome, ok, throw, fault, Safe}
use bigdataexpress_c.Graph.{
  NodeRef, Node, RGraph, StorageType, general, update_node, launcher_id, sdn_id,
}
use bigdataexpress_c.Graph.Build.{
  add_storage_node, add_dtn_node, add_general_node, add_launcher, add_sdn, add_edge, set_queue,
}
use bigdataexpress_c.Graph.Remove.{del_node}
use bigdataexpress_c.Graph.Linked.{IsLinked, edges-update_node}
use bigdataexpress_c.Graph.Linked.Edges.{Added, add_edge-Safe}
use bigdataexpress_c.Graph.Linked.Nodes.{
  update_node-IsLinked, add_storage_node-IsLinked, add_dtn_node-IsLinked, add_general_node-IsLinked,
}
use bigdataexpress_c.Graph.Linked.Deletes.Named.{del_node_total, del_node_gateway, Removes}
use bigdataexpress_c.Manager.Register.{Registry, Call, commit, and_then}

-- The graph is linked, and no identifier still to be drawn is that of an edge.
pub record IsSound (guid : ℕ → String) (r : Registry) : Type 0 where
  pub linked : IsLinked r.rg
  pub fresh : (i : ℕ) → r.drawn ≤ i → lookup (guid i) r.rg.edges ≡ none

-- The call followed no dangling pointer, and the registry is sound after it, also if it threw.
abbrev pub Keeps : (ℕ → String) → Call → Type 0
Keeps guid (o, r) = (o ≢ fault) × IsSound guid r

pub Keeps-and_then :
    (guid : ℕ → String) (c : Call) (f : Registry → Call)
    → Keeps guid c
    → ((r : Registry) → IsSound guid r → Keeps guid (f r))
    → Keeps guid (and_then c f)
Keeps-and_then guid (ok _, r) f h k = k r h.1
Keeps-and_then guid (throw e, r) f h k = h
Keeps-and_then guid (fault, r) f h k = absurd (h.0 refl)

-- A write to a node that leaves its lists of edges alone.
pub writes :
    (guid : ℕ → String) (ref : NodeRef) (f : Node → Node) (r : Registry)
    → ((n : Node) → (f n).in_edges ≡ n.in_edges)
    → ((n : Node) → (f n).out_edges ≡ n.out_edges)
    → IsSound guid r
    → IsSound guid (record r { rg = update_node ref f r.rg })
writes guid ref f r a b v = record {
  linked = update_node-IsLinked ref f r.rg a b v.linked;
  fresh = λ i h. simp edges-update_node (v.fresh i h);
}

pub deletes :
    (guid : ℕ → String) (id : String) (r : Registry)
    → IsSound guid r
    → Keeps guid (commit (del_node id r.rg) r)
deletes guid id r v = elim (Bool-cases (str_eq id "gateway")) [
  | inl special ↦ rw (del_node_gateway id r.rg special) (λ e. cc, v)
  | inr other ↦
      let (key, h, _, run, done) = del_node_total id r.rg v.linked other in
      rw run (λ e. cc, removed key h done)
]
  where
    removed :
        (key : Option String) (h : RGraph) → Removes key r.rg h → IsSound guid (record r { rg = h })
    removed none h same = rw same v
    removed (some nid) h (ref, _, d) = record {
      linked = d.linked;
      fresh = λ i l. ground (arith, d.edges (guid i), v.fresh i l);
    }

module _ (guid : ℕ → String) (inj : (i j : ℕ) → guid i ≡ guid j → i ≡ j) where
  pub still_fresh :
      (r : Registry) (h : RGraph)
      → IsSound guid r
      → Added (guid r.drawn) r.rg h
      → IsSound guid (record { rg = h; drawn = suc r.drawn })
  still_fresh r h v d = record {
    linked = d.linked;
    fresh = λ i l. elim (Bool-cases (str_eq (guid r.drawn) (guid i))) [
      | inl same ↦ absurd (omega (arith, inj r.drawn i ((eq_iff (guid r.drawn) (guid i)).0 same)))
      | inr other ↦ d.others (guid i) other ∙ v.fresh i (omega arith)
    ];
  }

  pub moved_on : (r : Registry) → IsSound guid r → IsSound guid (record r { drawn = suc r.drawn })
  moved_on r v = record { linked = v.linked; fresh = λ i l. v.fresh i (omega arith) }

  pub draws :
      (s d : String) (rate : ℤ) (r : Registry)
      → IsSound guid r
      → Keeps guid
          (commit (add_edge (guid r.drawn) s d rate r.rg) (record r { drawn = suc r.drawn }))
  draws s d rate r v =
      outcome (add_edge (guid r.drawn) s d rate r.rg)
        (add_edge-Safe (guid r.drawn) s d rate r.rg v.linked (v.fresh r.drawn (omega arith)))
    where
      outcome :
          (o : Outcome RGraph)
          → Safe (Added (guid r.drawn) r.rg) o
          → Keeps guid (commit o (record r { drawn = suc r.drawn }))
      outcome (ok h) d = (λ e. cc, still_fresh r h v d)
      outcome (throw e) d = (λ x. cc, moved_on r v)
      outcome fault d = absurd d

-- A node that is added.
adds :
    (guid : ℕ → String) (r : Registry) (g : RGraph)
    → IsSound guid r
    → IsLinked g
    → g.edges ≡ r.rg.edges
    → IsSound guid (record r { rg = g })
adds guid r g v l e = record { linked = l; fresh = λ i h. simp e (v.fresh i h) }

pub adds_dtn :
    (guid : ℕ → String) (id name : String) (rate : ℤ) (r : Registry)
    → IsSound guid r
    → IsSound guid (record r { rg = add_dtn_node id name rate r.rg })
adds_dtn guid id name rate r v =
    adds guid r (add_dtn_node id name rate r.rg) v
      (add_dtn_node-IsLinked id name rate r.rg v.linked) (unfold add_dtn_node in refl)

pub adds_storage :
    (guid : ℕ → String) (id name : String) (type : StorageType) (rate : ℤ) (r : Registry)
    → IsSound guid r
    → IsSound guid (record r { rg = add_storage_node id name type rate r.rg })
adds_storage guid id name type rate r v =
    adds guid r (add_storage_node id name type rate r.rg) v
      (add_storage_node-IsLinked id name type rate r.rg v.linked) (unfold add_storage_node in refl)

adds_general :
    (guid : ℕ → String) (id rid name : String) (rate : ℤ) (r : Registry)
    → IsSound guid r
    → IsSound guid (record r { rg = add_general_node id rid name rate r.rg })
adds_general guid id rid name rate r v =
    adds guid r (add_general_node id rid name rate r.rg) v
      (add_general_node-IsLinked id rid name rate r.rg v.linked) (unfold add_general_node in refl)

abbrev with_rg : (RGraph → RGraph) → Registry → Registry
with_rg f r = record r { rg = f r.rg }

adds_agent :
    (guid : ℕ → String) (key id name queue : String) (r : Registry)
    → IsSound guid r
    → IsSound guid (record r {
      rg =
          update_node
            (record { kind = general; key = key })
            (set_queue queue)
            (add_general_node key id name (pos 0) r.rg);
    })
adds_agent guid key id name queue r v =
    writes guid (record { kind = general; key = key }) (set_queue queue)
      (record r { rg = add_general_node key id name (pos 0) r.rg }) (λ n. unfold set_queue in refl)
      (λ n. unfold set_queue in refl) (adds_general guid key id name (pos 0) r v)

pub adds_launcher :
    (guid : ℕ → String) (id queue : String) (r : Registry)
    → IsSound guid r
    → IsSound guid (record r { rg = add_launcher id queue r.rg })
unfolding add_launcher
adds_launcher guid id queue r v = adds_agent guid launcher_id id "Launcher Agent" queue r v

pub adds_sdn :
    (guid : ℕ → String) (id queue : String) (r : Registry)
    → IsSound guid r
    → IsSound guid (record r { rg = add_sdn id queue r.rg })
unfolding add_sdn
adds_sdn guid id queue r v = adds_agent guid sdn_id id "SDN Agent" queue r v

-- A launcher or an SDN agent that is there already is deleted.
pub drops :
    (guid : ℕ → String) (b : Bool) (id : String) (r : Registry)
    → IsSound guid r
    → Keeps guid (if b then commit (del_node id r.rg) r else (ok tt, r))
drops guid true id r v = deletes guid id r v
drops guid false id r v = (λ e. cc, v)
