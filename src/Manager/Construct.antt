-- ===== src/Manager/Construct.antt =====
-- `construct` of server/resourcemanager.cc: the graph is built again from the site store. `guid` gives
-- the identifiers of the edges, by their number.
use bigdataexpress_c.Base.{ℕ, String, ◌≡◌, refl, List, [], ◌∷◌}
use bigdataexpress_c.Base.Int.{pos}
use bigdataexpress_c.Base.Keyed.{lookup}
use bigdataexpress_c.Outcome.{ok}
use bigdataexpress_c.Graph.{
  RGraph, NodeRef, Description, storage, internal, reset, update_node, gateway_id,
}
use bigdataexpress_c.Graph.Build.{add_gateway, add_general_node, add_storage_node}
use bigdataexpress_c.Graph.Linked.{reset-IsLinked}
use bigdataexpress_c.Graph.Linked.Nodes.{add_general_node-IsLinked}
use bigdataexpress_c.Manager.Register.{
  Registry, Call, and_then, describe_storage, register_dtn, link_storage,
}
use bigdataexpress_c.Manager.Register.Safe.{IsSound, Keeps, Keeps-and_then, writes, adds_storage}
use bigdataexpress_c.Manager.Register.Whole.{register_dtn-Keeps, link_storage-Keeps}

-- A round of the loop over the storages.
unfoldable pub construct_storage : Description → RGraph → RGraph
unfolding add_storage_node update_node describe_storage
construct_storage s g =
    update_node (record { kind = storage; key = s.id }) (describe_storage s.queue_name s)
      (add_storage_node s.id s.name internal s.io_capacity g)

unfoldable pub construct_storages : List Description → RGraph → RGraph
unfolding construct_storage
construct_storages [] g = g
construct_storages (s ∷ ss) g = construct_storages ss (construct_storage s g)

module _ (guid : ℕ → String) where
  -- A round of the loop over the DTNs is that of a DTN that registers.
  unfoldable pub construct_dtns : List Description → Registry → Call
  unfolding register_dtn
  construct_dtns [] r = (ok tt, r)
  construct_dtns (d ∷ ds) r = and_then (register_dtn guid d.queue_name d r) (construct_dtns ds)

  -- The pairs of a storage and a DTN; what a round throws is caught.
  unfoldable pub construct_edges : List (String × String) → Registry → Call
  unfolding link_storage
  construct_edges [] r = (ok tt, r)
  construct_edges ((s, d) ∷ sds) r =
      and_then (link_storage guid d (record { id = s; type = ""; name = "" }) r)
        (construct_edges sds)

  unfoldable pub construct :
      List Description → List Description → List (String × String) → Registry → Call
  unfolding construct_storages construct_dtns construct_edges add_gateway
  construct storages dtns sdmaps r =
      and_then
        (construct_dtns dtns (record r { rg = construct_storages storages (add_gateway reset) }))
        (construct_edges sdmaps)

  construct_storages-IsSound :
      (ss : List Description) (r : Registry)
      → IsSound guid r
      → IsSound guid (record r { rg = construct_storages ss r.rg })
  unfolding construct_storages construct_storage
  construct_storages-IsSound [] r v = v
  construct_storages-IsSound (s ∷ ss) r v =
      let ref : NodeRef = record { kind = storage; key = s.id } in
      construct_storages-IsSound ss (record r { rg = construct_storage s r.rg })
        (writes guid ref (describe_storage s.queue_name s)
          (record r { rg = add_storage_node s.id s.name internal s.io_capacity r.rg })
          (λ n. unfold describe_storage in refl) (λ n. unfold describe_storage in refl)
          (adds_storage guid s.id s.name internal s.io_capacity r v))

  fresh-IsSound : (r : Registry) → IsSound guid (record r { rg = add_gateway reset })
  unfolding add_gateway lookup add_general_node
  fresh-IsSound r = record {
    linked = add_general_node-IsLinked gateway_id "gateway" "Gateway" (pos 0) reset reset-IsLinked;
    fresh = λ i h. refl;
  }

  module _ (inj : (i j : ℕ) → guid i ≡ guid j → i ≡ j) where
    construct_dtns-Keeps :
        (ds : List Description) (r : Registry) → IsSound guid r → Keeps guid (construct_dtns ds r)
    unfolding construct_dtns
    construct_dtns-Keeps [] r v = (λ e. cc, v)
    construct_dtns-Keeps (d ∷ ds) r v =
        Keeps-and_then guid (register_dtn guid d.queue_name d r) (construct_dtns ds)
          (register_dtn-Keeps guid inj d.queue_name d r v) (construct_dtns-Keeps ds)

    construct_edges-Keeps :
        (sds : List (String × String)) (r : Registry)
        → IsSound guid r
        → Keeps guid (construct_edges sds r)
    unfolding construct_edges
    construct_edges-Keeps [] r v = (λ e. cc, v)
    construct_edges-Keeps ((s, d) ∷ sds) r v =
        Keeps-and_then guid (link_storage guid d (record { id = s; type = ""; name = "" }) r)
          (construct_edges sds)
          (link_storage-Keeps guid inj d (record { id = s; type = ""; name = "" }) r v)
          (construct_edges-Keeps sds)

-- Whatever the store says, and whatever graph there was, the graph that is built follows no dangling
-- pointer and is sound: its edges and nodes point to one another. The identifiers that are drawn
-- differ.
pub construct-Keeps :
    (guid : ℕ → String) (storages dtns : List Description) (sdmaps : List (String × String))
    (r : Registry)
    → ((i j : ℕ) → guid i ≡ guid j → i ≡ j)
    → Keeps guid (construct guid storages dtns sdmaps r)
unfolding construct
construct-Keeps guid storages dtns sdmaps r inj =
    Keeps-and_then guid
      (construct_dtns guid dtns (record r { rg = construct_storages storages (add_gateway reset) }))
      (construct_edges guid sdmaps)
      (construct_dtns-Keeps guid inj dtns
        (record r { rg = construct_storages storages (add_gateway reset) })
        (construct_storages-IsSound guid storages (record r { rg = add_gateway reset })
          (fresh-IsSound guid r)))
      (construct_edges-Keeps guid inj sdmaps)
