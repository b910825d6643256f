-- ===== src/Network/Handling.antt =====
-- server/scheduler.cc, the choice and the set-up of the path of a flow: `needs_sdn_setup`,
-- `find_dtn_stp`, `network_handling`, and the part of `schedule` from the chosen pair of DTNs to
-- the verified path. What the store keeps beside stages and states is not modelled.
use bigdataexpress_c.Base.{
  String, Bool, true, false, Option, none, some, List, [], ◌∷◌, str_eq, if◌then◌else◌, ◌||◌,
}
use bigdataexpress_c.Base.Int.{ℤ, pos, negsuc, eqb_ℤ}
use bigdataexpress_c.Network.{
  Label, any, constraints, number, Stp, StaticPath, Dtn, ErrorText, message, Net, M, pure, ◌>>=◌,
  ◌>>◌, update_stage, update_stage_if, update_state, working, success, pending, wan_setup,
  path_verification, PingReply,
}
use bigdataexpress_c.Network as Network
use bigdataexpress_c.Network.Wan
use bigdataexpress_c.Network.Setup
use bigdataexpress_c.Network.Teardown

-- `net_conf["lan"]["dtns"]`, the names of the DTNs that an SDN serves.
unfoldable pub needs_sdn_setup : List String → String → Bool
needs_sdn_setup [] dtn = false
needs_sdn_setup (d ∷ ds) dtn = str_eq d dtn || needs_sdn_setup ds dtn

-- `net_conf["wan_dynamic"]["stps"]`, with the DTNs behind each; the first that has the DTN.
unfoldable pub find_dtn_stp : List (Stp × List String) → String → Option Stp
unfolding needs_sdn_setup
find_dtn_stp [] dtn = none
find_dtn_stp ((stp, ds) ∷ stps) dtn =
    let rest = find_dtn_stp stps dtn in if needs_sdn_setup ds dtn then some stp else rest

unfoldable pub find_static : String → List StaticPath → Option StaticPath
find_static site [] = none
find_static site (p ∷ ps) =
    let rest = find_static site ps in if str_eq p.remote_site site then some p else rest

-- The member is absent, or holds the empty text.
unfoldable pub no_constraints : Option String → Bool
no_constraints none = true
no_constraints (some s) = str_eq s ""

unfoldable pub constraints_of : Option String → Label
constraints_of none = any
constraints_of (some s) = constraints s

unfoldable pub src_label : Dtn → Stp → Label
unfolding no_constraints constraints_of
src_label src stp =
    if src.sdn_setup
    then if no_constraints stp.local_vlan_constraints
      then any
      else constraints_of stp.local_vlan_constraints
    else number src.data_vlan_id

-- The text that is tested is the source's.
unfoldable pub dst_label : Dtn → Stp → Stp → Label
unfolding no_constraints constraints_of
dst_label dst src_stp dst_stp =
    if dst.sdn_setup
    then if no_constraints src_stp.local_vlan_constraints
      then any
      else constraints_of dst_stp.local_vlan_constraints
    else number dst.data_vlan_id

pub data Choice : Type 0 where
  static_path : StaticPath → Choice
  dynamic_path : Label → Label → Choice
  no_path : Choice

unfoldable pub choose_dynamic : Dtn → Dtn → Option Stp → Option Stp → Choice
unfolding src_label dst_label
choose_dynamic src dst none d = no_path
choose_dynamic src dst (some s) none = no_path
choose_dynamic src dst (some s) (some d) = dynamic_path (src_label src s) (dst_label dst s d)

unfoldable pub choose_path : Dtn → Dtn → Option StaticPath → Choice
unfolding choose_dynamic
choose_path src dst (some p) = static_path p
choose_path src dst none = choose_dynamic src dst src.stp dst.stp

-- The answer of `network_handling`
pub record Handled : Type 0 where
  pub code : ℤ
  pub error : ErrorText
  pub wan_uuid : String
  pub src_sdn_path_id : ℤ
  pub dst_sdn_path_id : ℤ

abbrev pub handling_failure : ℤ → ErrorText → Handled
handling_failure code error = record {
  code = code;
  error = error;
  wan_uuid = "";
  src_sdn_path_id = negsuc 0;
  dst_sdn_path_id = negsuc 0;
}

module _ (net : Net) where
  abbrev pub plan_stages : String → Network.SjobStage → Dtn → Dtn → M (Unit {0})
  plan_stages wan stage src dst =
      update_stage "network.planning" success
      >> update_stage wan stage
      >> update_stage "network.ping" pending
      >> update_stage_if src.sdn_setup "network.lan_src" pending
      >> update_stage_if dst.sdn_setup "network.lan_dst" pending

  abbrev pub sdn_result : String → Setup.SdnPaths → Handled
  sdn_result uuid paths = record {
    code = paths.code;
    error = if eqb_ℤ paths.code (pos 0) then message "success" else paths.error;
    wan_uuid = uuid;
    src_sdn_path_id = paths.src_path_id;
    dst_sdn_path_id = paths.dst_path_id;
  }

  unfoldable pub handle_sdn : Dtn → Dtn → String → ℤ → ℤ → ℤ → M Handled
  unfolding Setup.setup_sdn_path
  handle_sdn src dst uuid max_bw src_vlan dst_vlan = do
    update_state Network.SjobState.sdn_setup
    paths ← Setup.setup_sdn_path net src dst max_bw false src_vlan dst_vlan
    pure (sdn_result uuid paths)

  abbrev pub vlans : Option Wan.WanCreated → ℤ × ℤ
  vlans none = (pos 0, pos 0)
  vlans (some c) = (c.src_vlan, c.dst_vlan)

  unfoldable pub handle_wan : Dtn → Dtn → Setup.WanPath → M Handled
  unfolding handle_sdn
  handle_wan src dst wan =
      if eqb_ℤ wan.code (pos 0)
      then update_stage "network.wan_dynamic" success
        >> update_stage "teardown.wan_dynamic" pending
        >> handle_sdn src dst wan.wan_uuid (pos 10000) (vlans wan.created).0 (vlans wan.created).1
      else update_stage "network.wan_dynamic" Network.SjobStage.error
        >> pure (handling_failure wan.code wan.error)

  unfoldable pub handle_choice : Dtn → Dtn → Choice → M Handled
  unfolding handle_sdn handle_wan Setup.setup_wan_path
  handle_choice src dst (static_path p) = do
    plan_stages "network.wan_static" success src dst
    handle_sdn src dst "" p.bandwidth p.local_vlan_id p.remote_vlan_id
  handle_choice src dst (dynamic_path src_vlan dst_vlan) = do
    update_state wan_setup
    plan_stages "network.wan_dynamic" working src dst
    wan ← Setup.setup_wan_path net src dst src_vlan dst_vlan
    handle_wan src dst wan
  handle_choice src dst no_path = do
    update_stage "network.planning" Network.SjobStage.error
    pure (handling_failure (pos 101) (message "unable to find valid static or dynamic WAN path."))

  unfoldable pub network_handling : Dtn → Dtn → M Handled
  unfolding handle_choice choose_path find_static
  network_handling src dst =
      handle_choice src dst (choose_path src dst (find_static dst.site_abbrev src.wan_static))

  -- The DTNs of a flow, as `schedule` writes the answer into them.
  abbrev pub with_paths : Handled → Dtn → Dtn → Dtn × Dtn
  with_paths h src dst = (
    record src { wan_uuid = h.wan_uuid; path_id = h.src_sdn_path_id },
    record dst { wan_uuid = h.wan_uuid; path_id = h.dst_sdn_path_id },
  )

  abbrev pub abandon : Dtn × Dtn → M (Option (Dtn × Dtn))
  abandon (src, dst) =
      update_stage "network.general" Network.SjobStage.error
      >> Teardown.schedule_clean_up net src dst
      >> pure none

  unfoldable pub verified : Dtn × Dtn → PingReply → M (Option (Dtn × Dtn))
  unfolding Teardown.schedule_clean_up
  verified dtns reply =
      if eqb_ℤ reply.code (pos 0)
      then update_stage "network.ping" success
        >> update_stage "network.general" success
        >> pure (some dtns)
      else update_stage "network.ping" Network.SjobStage.error >> abandon dtns

  unfoldable pub verify : Dtn × Dtn → M (Option (Dtn × Dtn))
  unfolding verified Setup.verify_path
  verify dtns = do
    update_state path_verification
    update_stage "network.ping" working
    reply ← Setup.verify_path net dtns.0 dtns.1
    verified dtns reply

  unfoldable pub handled : Dtn → Dtn → Handled → M (Option (Dtn × Dtn))
  unfolding verify Teardown.schedule_clean_up
  handled src dst h =
      if eqb_ℤ h.code (pos 0) then verify (with_paths h src dst) else abandon (with_paths h src dst)

  abbrev pub public_paths : Handled
  public_paths = record {
    code = pos 0;
    error = message "success";
    wan_uuid = "";
    src_sdn_path_id = negsuc 0;
    dst_sdn_path_id = negsuc 0;
  }

  -- From the chosen pair of DTNs to the verified path, or `none` after the clean-up.
  unfoldable pub connect_flow : Bool → Dtn → Dtn → M (Option (Dtn × Dtn))
  unfolding network_handling handled verify
  connect_flow true src dst = do
    update_stage "network.general" working
    update_stage "network.planning" working
    h ← network_handling src dst
    handled src dst h
  connect_flow false src dst = do
    update_stage "network.general" working
    update_stage "network.planning" success
    update_stage "network.public" success
    update_stage "teardown.public" pending
    verify (with_paths public_paths src dst)
