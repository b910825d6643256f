-- ===== src/Graph/Linked/Deletes/Named.antt =====
-- `del_node` of server/resourcegraph.cc by the identifier that it is given.
use bigdataexpress_c.Base.{
  String, ◌≡◌, refl, ◌⊎◌, inl, inr, Bool, true, false, Option, none, some, arith, str_eq,
  if◌then◌else◌, Bool-cases,
}
use bigdataexpress_c.Base.Keyed.{lookup}
use bigdataexpress_c.Outcome.{ok, throw, gateway_protected}
use bigdataexpress_c.Graph.{NodeRef, RGraph, get_node, has_node, launcher_id, sdn_id}
use bigdataexpress_c.Graph.Remove.{del_node, del_node_at, node_key}
use bigdataexpress_c.Graph.Linked.{IsLinked}
use bigdataexpress_c.Graph.Linked.Edges.{get_node-ok}
use bigdataexpress_c.Graph.Linked.Deletes.Whole.{Deleted, del_node_at_total}

-- The key that is found is that of a node.
node_key_total :
    (id : String) (g : RGraph)
    → (key : Option String) × (node_key id g ≡ ok key)
      × ((key ≡ none) ⊎ ((nid : String) × (key ≡ some nid) × (has_node nid g ≡ true)))
unfolding node_key has_node
node_key_total id g = elim (Bool-cases (has_node id g)) [
  | inl there ↦ (some id, ground (arith, there), inr (id, refl, there))
  | inr not_key ↦ (
    if is_rid launcher_id then some launcher_id else if is_rid sdn_id then some sdn_id else none,
    ground (arith, not_key),
    named,
  )
]
  where
    is_rid : String → Bool
    is_rid key = elim (lookup key g.general_nodes) [ none ↦ false | some n ↦ str_eq id n.rid ]

    present : (key : String) → is_rid key ≡ true → has_node key g ≡ true
    present key h = ground arith

    named :
        let key =
          (if is_rid launcher_id
            then some launcher_id
            else if is_rid sdn_id
            then some sdn_id
            else none) in
        (key ≡ none) ⊎ ((nid : String) × (key ≡ some nid) × (has_node nid g ≡ true))
    named = elim (Bool-cases (is_rid launcher_id)) [
      | inl l ↦ rw l (inr (launcher_id, refl, present launcher_id l))
      | inr nl ↦ elim (Bool-cases (is_rid sdn_id)) [
        | inl s ↦ rw (nl, s) (inr (sdn_id, refl, present sdn_id s))
        | inr ns ↦ rw (nl, ns) (inl refl)
      ]
    ]

-- What `del_node` is to do, for the key that it finds.
abbrev pub Removes : Option String → RGraph → RGraph → Type 0
Removes none g h = h ≡ g
Removes (some nid) g h = (r : NodeRef) × (get_node nid g ≡ ok r) × Deleted r g h

del_node_lem :
    (id : String) (g : RGraph) (nid : String) (h : RGraph)
    → str_eq id "gateway" ≡ false
    → node_key id g ≡ ok (some nid)
    → del_node_at nid g ≡ ok h
    → del_node id g ≡ ok h
unfolding del_node
del_node_lem id g nid h a b c = rw (a, b) c

del_node_missing :
    (id : String) (g : RGraph)
    → str_eq id "gateway" ≡ false
    → node_key id g ≡ ok none
    → del_node id g ≡ ok g
unfolding del_node
del_node_missing id g a b = rw (a, b)

pub del_node_gateway :
    (id : String) (g : RGraph)
    → str_eq id "gateway" ≡ true
    → del_node id g ≡ throw gateway_protected
unfolding del_node
del_node_gateway id g h = rw h

-- For every identifier but "gateway", `del_node` of a linked graph returns: where it finds no key
-- the graph stays, and otherwise the node under the key is deleted with its edges.
pub del_node_total :
    (id : String) (g : RGraph)
    → IsLinked g
    → str_eq id "gateway" ≡ false
    → (key : Option String) × (h : RGraph) × (node_key id g ≡ ok key)
      × (del_node id g ≡ ok h)
      × Removes key g h
del_node_total id g v other = delete (node_key_total id g)
  where
    delete :
        (key : Option String) × (node_key id g ≡ ok key)
          × ((key ≡ none) ⊎ ((nid : String) × (key ≡ some nid) × (has_node nid g ≡ true)))
        → (key : Option String) × (h : RGraph) × (node_key id g ≡ ok key)
          × (del_node id g ≡ ok h)
          × Removes key g h
    delete (none, e, _) = (none, g, e, del_node_missing id g other e, refl)
    delete (some nid, e, inl bad) = absurd (cc)
    delete (some nid, e, inr (m, same, there)) =
        let here : has_node nid g ≡ true = ground (arith, same, there) in
        let (r, found) = get_node-ok nid g here in
        let (h, run, d) = del_node_at_total nid g r v found in
        (some nid, h, e, del_node_lem id g nid h other e run, (r, found, d))
