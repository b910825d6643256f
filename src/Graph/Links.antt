-- ===== src/Graph/Links.antt =====
-- The links between the nodes and edges of server/resourcegraph.cc, seen apart from the maps: each
-- node has two lists of edges, and each edge two ends.
use mathlib.Core.Logic.{◌↔◌}
use bigdataexpress_c.Base.{
  String, ◌≡◌, refl, inl, inr, Bool, true, false, ◌&&◌, ◌||◌, ◌++◌, Option, none, some, List, [],
  ◌∷◌, arith, str_eq, eq_iff, if◌then◌else◌, Option-cases,
}
use bigdataexpress_c.Base.Keyed.{Keyed, is_some, map_option, or_else, lookup, erase, lookup-erase}
use bigdataexpress_c.Graph.{NodeRef, NodeKind, storage, dtn, general, Edge}
use bigdataexpress_c.Graph.Remove.{del_first}

unfoldable pub kind_eq : NodeKind → NodeKind → Bool
kind_eq storage storage = true
kind_eq dtn dtn = true
kind_eq general general = true
kind_eq _ _ = false

-- Two pointers are equal.
unfoldable pub ref_eq : NodeRef → NodeRef → Bool
unfolding kind_eq
ref_eq r s = kind_eq r.kind s.kind && str_eq r.key s.key

kind_eq_iff : (a b : NodeKind) → (kind_eq a b ≡ true) ↔ (a ≡ b)
unfolding kind_eq
kind_eq_iff a b = ground arith

pub ref_eq_iff : (r s : NodeRef) → (ref_eq r s ≡ true) ↔ (r ≡ s)
unfolding ref_eq
ref_eq_iff r s = ground (arith, kind_eq_iff r.kind s.kind, eq_iff r.key s.key)

unfoldable pub has : String → List String → Bool
has k [] = false
has k (j ∷ js) = str_eq j k || has k js

has_nil : (k : String) → has k [] ≡ false
unfolding has
has_nil k = refl

abbrev pub Distinct : List String → Type 0
Distinct [] = Unit
Distinct (j ∷ js) = (has j js ≡ false) × Distinct js

pub has-snoc : (k j : String) (js : List String) → has k (js ++ j ∷ []) ≡ has k js || str_eq j k
unfolding has
has-snoc k j [] = ground arith
has-snoc k j (i ∷ js) = ground (arith, has-snoc k j js)

pub Distinct-snoc :
    (j : String) (js : List String) → has j js ≡ false → Distinct js → Distinct (js ++ j ∷ [])
unfolding has
Distinct-snoc j [] h d = (refl, tt)
Distinct-snoc j (i ∷ js) h d = (
  ground (arith, has-snoc i j js, eq_iff i j, eq_iff j i, d.0),
  Distinct-snoc j js (ground arith) d.1,
)

pub has-del_first :
    (k j : String) (js : List String)
    → Distinct js
    → has j (del_first k js) ≡ (if str_eq k j then false else has j js)
unfolding has del_first
has-del_first k j [] d = ground arith
has-del_first k j (i ∷ js) d =
    ground (arith, has-del_first k j js d.1, eq_iff k j, eq_iff i k, eq_iff i j, d.0)

pub Distinct-del_first : (k : String) (js : List String) → Distinct js → Distinct (del_first k js)
unfolding has del_first
Distinct-del_first k [] d = tt
Distinct-del_first k (i ∷ js) d =
    ground (arith, has-del_first k i js d.1, Distinct-del_first k js d.1, d.0)

-- The edge, if there is one, has this node at the end that `end_of` tells.
abbrev pub ends_at : (Edge → NodeRef) → Option Edge → NodeRef → Bool
ends_at end_of none r = false
ends_at end_of (some e) r = ref_eq (end_of e) r

-- A function that gives a list of edges for each node that there is.
abbrev pub Lists : Type 0
Lists = NodeRef → Option (List String)

-- The lists of the nodes and the ends of the edges match: a node's list holds the edges that have
-- the node at this end, each once, and no edge ends at a node that is not there.
pub record IsSide (end_of : Edge → NodeRef) (ls : Lists) (edges : Keyed Edge) : Type 0 where
  pub holds :
      (r : NodeRef) (ks : List String) (k : String)
      → ls r ≡ some ks
      → has k ks ≡ ends_at end_of (lookup k edges) r
  pub once : (r : NodeRef) (ks : List String) → ls r ≡ some ks → Distinct ks
  pub alive : (k : String) (e : Edge) → lookup k edges ≡ some e → is_some (ls (end_of e)) ≡ true

-- The lists with that of one node changed.
abbrev pub at : NodeRef → (List String → List String) → Lists → Lists
at a f ls r = if ref_eq a r then map_option f (ls r) else ls r

module _ (end_of : Edge → NodeRef) where
  -- Only the values of the function matter.
  pub IsSide-ext :
      {ls ls' : Lists} (edges : Keyed Edge)
      → ((r : NodeRef) → ls' r ≡ ls r)
      → IsSide end_of ls edges
      → IsSide end_of ls' edges
  IsSide-ext edges same v = record {
    holds = λ r ks k h. v.holds r ks k (rw (same r) at h);
    once = λ r ks h. v.once r ks (rw (same r) at h);
    alive = λ k e h. rw (same (end_of e)) (v.alive k e h);
  }

  module _ {ls : Lists} {edges : Keyed Edge} (v : IsSide end_of ls edges) where
    -- Erasing an edge, and its key from the list at its end, keeps the match.
    pub IsSide-drop :
        (k : String) (e : Edge)
        → lookup k edges ≡ some e
        → IsSide end_of (at (end_of e) (del_first k) ls) (erase k edges)
    IsSide-drop k e there = record {
      holds = λ r ks j h. elim (Option-cases (ls r)) [
        | inl gone ↦ ground (arith, gone)
        | inr (js, old) ↦ ground (
          arith,
          old,
          there,
          v.holds r js j old,
          v.holds r js k old,
          has-del_first k j js (v.once r js old),
          lookup-erase k j edges,
          eq_iff k j,
        )
      ];
      once = λ r ks h. elim (Option-cases (ls r)) [
        | inl gone ↦ ground (arith, gone)
        | inr (js, old) ↦
            ground (arith, old, v.once r js old, Distinct-del_first k js (v.once r js old))
      ];
      alive = λ j d h. ground (arith, lookup-erase k j edges, v.alive j d);
    }

    -- A new edge is added under a fresh key, which goes to the end of the list at its end.
    pub IsSide-add :
        (k : String) (e : Edge) (edges' : Keyed Edge)
        → lookup k edges ≡ none
        → ((j : String) → lookup j edges' ≡ (if str_eq k j then some e else lookup j edges))
        → is_some (ls (end_of e)) ≡ true
        → IsSide end_of (at (end_of e) (λ ks. ks ++ k ∷ []) ls) edges'
    IsSide-add k e edges' fresh now end_live = record {
      holds = λ r ks j h. elim (Option-cases (ls r)) [
        | inl gone ↦ ground (arith, gone)
        | inr (js, old) ↦
            ground (arith, old, fresh, v.holds r js j old, has-snoc j k js, now j, eq_iff k j)
      ];
      once = λ r ks h. elim (Option-cases (ls r)) [
        | inl gone ↦ ground (arith, gone)
        | inr (js, old) ↦
            ground (arith, old, fresh, v.once r js old, v.holds r js k old, Distinct-snoc k js)
      ];
      alive = λ j d h. ground (arith, now j, v.alive j d, end_live);
    }

    -- A node that is added comes with an empty list; one that was there keeps its own.
    pub IsSide-extend :
        (a : NodeRef) {ls' : Lists}
        → ((r : NodeRef) → ls' r ≡ (if ref_eq a r then some (or_else (ls r) []) else ls r))
        → IsSide end_of ls' edges
    IsSide-extend a {ls'} same = record {
      holds = λ r ks k h. elim (Option-cases (ls r)) [
        | inl gone ↦ elim (Option-cases (lookup k edges)) [
          | inl absent ↦ ground (arith, gone, same r, absent, has_nil k)
          | inr (e, there) ↦
              ground
                (arith, gone, same r, there, v.alive k e there, ref_eq_iff (end_of e) r, has_nil k)
        ]
        | inr (js, old) ↦ ground (arith, old, same r, v.holds r js k old)
      ];
      once = λ r ks h. elim (Option-cases (ls r)) [
        | inl gone ↦ ground (arith, gone, same r)
        | inr (js, old) ↦ ground (arith, old, same r, v.once r js old)
      ];
      alive = λ k e h. ground (arith, same (end_of e), v.alive k e h);
    }
