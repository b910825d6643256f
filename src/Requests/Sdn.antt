-- ===== src/Requests/Sdn.antt =====
-- server/scheduler.cc: `sdn_reserve_request` and `sdn_release_request`.
use bigdataexpress_c.Base.{String, Bool, Option, none, some}
use bigdataexpress_c.Base.Int.{ℤ, pos, ltb_ℤ}
use bigdataexpress_c.Graph.{Node, RGraph, has_dtn_node, has_general_node, has_sdn}
use bigdataexpress_c.Graph.Build.{get_dtn_node, get_general_node, get_sdn}
use bigdataexpress_c.Requests.{
  Agents, R, pure, lift, branch, ◌>>=◌, call, dtn_add_neighbor, dtn_add_route, dtn_delete_neighbor,
  dtn_delete_route, sdn_reserve, release_request,
}

-- The members read of `params["params"]`, which goes to the SDN agent as a whole.
pub record SdnParams (V : Type 0) : Type 0 where
  pub src_id : String
  pub src_ip : String
  pub dst_ip : String
  pub dst_mac : String
  pub sdn_setup : Bool
  pub body : V

pub record ReleaseParams : Type 0 where
  pub installed_path_id : ℤ
  pub dtn : String
  pub ip : String

-- The replies for ARP, the route and the path, as far as they are in the answer.
pub data Reserve (V : Type 0) : Type 0 where
  dtn_offline : Reserve V
  sdn_offline : (arp route : V) → Reserve V
  reserved : (arp route : V) → Option V → Reserve V

pub data Release (V : Type 0) : Type 0 where
  no_sdn_agent : Release V
  only_path : Option V → Release V
  released : Option V → (route arp : V) → Release V

module _ {V : Type 0} (env : Agents V) (g : RGraph) where
  abbrev pub ask_sdn : SdnParams V → V → V → R V (Reserve V)
  ask_sdn p arp route = do
    sdn ← lift (get_sdn g)
    r ← call env sdn.queue (sdn_reserve p.body)
    pure (reserved arp route (some r))

  abbrev pub reserve_at : SdnParams V → Node → R V (Reserve V)
  reserve_at p dtn = do
    arp ← call env dtn.queue (dtn_add_neighbor dtn.rid p.dst_ip p.dst_mac)
    route ← call env dtn.queue (dtn_add_route dtn.rid p.dst_ip p.src_ip)
    branch p.sdn_setup (branch (has_sdn g) (ask_sdn p arp route) (pure (sdn_offline arp route)))
        (pure (reserved arp route none))

  unfoldable pub sdn_reserve_request : SdnParams V → R V (Reserve V)
  unfolding has_dtn_node has_general_node get_dtn_node get_general_node get_sdn pure lift ◌>>=◌ call
  sdn_reserve_request p =
      branch (has_dtn_node p.src_id g) (do dtn ← lift (get_dtn_node p.src_id g); reserve_at p dtn)
        (pure dtn_offline)

  abbrev pub release_at : ReleaseParams → Option V → Node → R V (Release V)
  release_at p sdn dtn = do
    route ← call env dtn.queue (dtn_delete_route p.dtn p.ip)
    arp ← call env dtn.queue (dtn_delete_neighbor p.dtn p.ip)
    pure (released sdn route arp)

  abbrev pub release_entries : ReleaseParams → Option V → R V (Release V)
  release_entries p sdn =
      branch (has_dtn_node p.dtn g) (do dtn ← lift (get_dtn_node p.dtn g); release_at p sdn dtn)
        (pure (only_path sdn))

  abbrev pub release_path : ReleaseParams → R V (Release V)
  release_path p = do
    sdn ← lift (get_sdn g)
    r ← call env sdn.queue (release_request p.installed_path_id)
    release_entries p (some r)

  unfoldable pub sdn_release_request : ReleaseParams → R V (Release V)
  unfolding has_dtn_node has_general_node get_dtn_node get_general_node get_sdn pure lift ◌>>=◌ call
  sdn_release_request p =
      branch (ltb_ℤ (pos 0) p.installed_path_id)
        (branch (has_sdn g) (release_path p) (pure no_sdn_agent)) (release_entries p none)
