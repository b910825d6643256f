-- ===== src/Manager/Register.antt =====
-- `add_modules` and `del_modules` of server/resourcemanager.cc: agents come and go with the modules
-- that they describe. The mutable graph comes back beside the outcome, since a call that throws
-- leaves what it has done. `guid` gives the identifiers that `utils::guid` draws, by their number;
-- the number may skip one where no edge is made.
pub mod Safe
pub mod Whole
use bigdataexpress_c.Base.{
  ℕ, suc, String, Bool, Option, none, some, ◌&&◌, List, [], ◌∷◌, str_eq, if◌then◌else◌,
}
use bigdataexpress_c.Base.Int.{ℤ, pos}
use bigdataexpress_c.Outcome.{Outcome, ok, throw, fault, ◌>>=◌}
use bigdataexpress_c.Graph.{
  NodeRef, NodeKind, storage, dtn, Own, storage_own, dtn_own, general_own, internal, Node, RGraph,
  Description, StorageLink, update_node, has_storage_node, has_dtn_node, has_launcher, has_sdn,
}
use bigdataexpress_c.Graph.Build.{
  add_storage_node, add_dtn_node, add_launcher, add_sdn, add_edge, add_edge_to_gateway, set_queue,
}
use bigdataexpress_c.Graph.Remove.{del_node, del_launcher, del_sdn}

-- The graph, and how many identifiers have been drawn.
pub record Registry : Type 0 where
  pub rg : RGraph
  pub drawn : ℕ

abbrev pub Call : Type 0
Call = Outcome (Unit {0}) × Registry

-- A step that replaces the graph, or throws and leaves it.
abbrev pub commit : Outcome RGraph → Registry → Call
commit (ok g) r = (ok tt, record r { rg = g })
commit (throw e) r = (throw e, r)
commit fault r = (fault, r)

-- The next step is made only after one that returns.
abbrev pub and_then : Call → (Registry → Call) → Call
and_then (ok _, r) f = f r
and_then (throw e, r) f = (throw e, r)
and_then (fault, r) f = (fault, r)

abbrev pub own_root_folder : String → Own → Own
own_root_folder f (storage_own st _ d) = storage_own st f d
own_root_folder f (dtn_own ip) = dtn_own ip
own_root_folder f general_own = general_own

abbrev pub own_one_dtn : String → Own → Own
own_one_dtn k (storage_own st f _) = storage_own st f (some k)
own_one_dtn k (dtn_own ip) = dtn_own ip
own_one_dtn k general_own = general_own

-- `set_queue` and `set_properties`, and `set_ctrl_ip` or `set_root_folder`.
unfoldable pub describe : String → Description → Own → Node → Node
describe queue m own n = record n {
  base = record n.base { queue = queue; properties = some m };
  own = own;
}

unfoldable pub describe_dtn : String → Description → Node → Node
unfolding describe
describe_dtn queue m n = describe queue m (dtn_own m.ctrl_ip) n

unfoldable pub describe_storage : String → Description → Node → Node
unfolding describe
describe_storage queue m n = describe queue m (own_root_folder m.root_folder n.own) n

unfoldable pub set_one_dtn_node : String → Node → Node
set_one_dtn_node k n = record n { own = own_one_dtn k n.own }

module _ (guid : ℕ → String) where
  unfoldable pub register_dtn : String → Description → Registry → Call
  register_dtn queue m r =
      let g =
        update_node (record { kind = dtn; key = m.id }) (describe_dtn queue m)
          (add_dtn_node m.id m.name (pos 0) r.rg) in
      commit (add_edge_to_gateway (guid r.drawn) m.id m.data_rate g)
        (record { rg = g; drawn = suc r.drawn })

  -- One round of the first loop.
  unfoldable pub register : String → Description → Registry → Call
  register queue m r =
      if str_eq m.type "DTN"
      then register_dtn queue m r
      else if str_eq m.type "LocalStorage"
      then (
        ok tt,
        record r {
          rg =
              update_node (record { kind = storage; key = m.id }) (describe_storage queue m)
                (add_storage_node m.id m.name internal (pos 1000000) r.rg);
        },
      )
      else if str_eq m.type "Launcher"
      then and_then (if has_launcher r.rg then commit (del_launcher r.rg) r else (ok tt, r))
          (λ s. (ok tt, record s { rg = add_launcher m.id queue s.rg }))
      else if str_eq m.type "SDN"
      then and_then (if has_sdn r.rg then commit (del_sdn r.rg) r else (ok tt, r))
          (λ s. (ok tt, record s { rg = add_sdn m.id queue s.rg }))
      else (ok tt, r)

  unfoldable pub register_all : String → List Description → Registry → Call
  register_all queue [] r = (ok tt, r)
  register_all queue (m ∷ ms) r = and_then (register queue m r) (register_all queue ms)

  -- The body of the `try` block: what it throws is caught. An edge that was added before the throw
  -- stays.
  unfoldable pub link_storage : String → StorageLink → Registry → Call
  link_storage id s r = elim (add_edge (guid r.drawn) s.id id (pos 40000000000) r.rg) [
    | throw e ↦ (ok tt, record r { drawn = suc r.drawn })
    | fault ↦ (fault, r)
    | ok g ↦ (
      ok tt,
      record {
        rg =
            if has_storage_node s.id g && has_dtn_node id g
            then update_node (record { kind = storage; key = s.id }) (set_one_dtn_node id) g
            else g;
        drawn = suc r.drawn;
      },
    )
  ]

  unfoldable pub link_storages : String → List StorageLink → Registry → Call
  link_storages id [] r = (ok tt, r)
  link_storages id (s ∷ ss) r = and_then (link_storage id s r) (link_storages id ss)

  -- The second loop.
  unfoldable pub link_all : List Description → Registry → Call
  link_all [] r = (ok tt, r)
  link_all (m ∷ ms) r =
      and_then (if str_eq m.type "DTN" then link_storages m.id m.storages r else (ok tt, r))
        (link_all ms)

  unfoldable pub add_modules : String → List Description → Registry → Call
  add_modules queue modules r = and_then (register_all queue modules r) (link_all modules)

unfoldable pub del_modules : List Description → Registry → Call
del_modules [] r = (ok tt, r)
del_modules (m ∷ ms) r = and_then (commit (del_node m.id r.rg) r) (del_modules ms)
