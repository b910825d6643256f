-- ===== src/Network/Setup.antt =====
-- server/scheduler.cc, the set-up of a path: `setup_wan_path`, `setup_sdn_path`, `verify_path`.
-- The waits between tries are not modelled.
use bigdataexpress_c.Base.{
  ℕ, zero, suc, String, Bool, true, false, Option, none, some, str_eq, if◌then◌else◌,
}
use bigdataexpress_c.Base.Int.{ℤ, pos, negsuc, eqb_ℤ}
use bigdataexpress_c.Network.{
  Label, Stp, Dtn, SdnRequest, SdnReply, PingReply, ErrorText, message, at_site, Net, M, pure,
  ◌>>=◌, ◌>>◌, ask, update_stage, update_stage_if, working, success, error, pending, sdn_reserve,
  icmp_ping,
}
use bigdataexpress_c.Network.Wan

-- The answer of `setup_wan_path`; the VLANs are there once a path was created.
pub record WanPath : Type 0 where
  pub code : ℤ
  pub error : ErrorText
  pub wan_uuid : String
  pub created : Option Wan.WanCreated

abbrev pub stp_name : Option Stp → String
stp_name none = ""
stp_name (some stp) = stp.name

abbrev pub wan_failure : ℕ → String → Option Wan.WanCreated → WanPath
wan_failure code text created = record {
  code = pos code;
  error = message text;
  wan_uuid = "";
  created = created;
}

-- The answer of `setup_sdn_path`
pub record SdnPaths : Type 0 where
  pub src_path_id : ℤ
  pub dst_path_id : ℤ
  pub code : ℤ
  pub error : ErrorText

pub data Reserved : Type 0 where
  reserved : ℤ → Reserved
  refused : SdnReply → Reserved

-- A path is there when the code is 0 and the answer has its id.
unfoldable pub path_of : SdnReply → Option ℤ
path_of reply = if eqb_ℤ reply.code (pos 0) then reply.installed_path_id else none

-- A DTN's VLAN counts only where its site has an SDN.
unfoldable pub vlan_of : Dtn → ℤ
vlan_of dtn = if dtn.sdn_setup then dtn.data_vlan_id else pos 0

unfoldable pub sdn_rpc : Dtn → Dtn → ℤ → ℤ → SdnRequest
unfolding vlan_of
sdn_rpc here there rate oscars = record {
  sdn_setup = here.sdn_setup;
  vlan_id = vlan_of here;
  oscars_vlan_id = oscars;
  rate = rate;
  src_id = here.id;
  dst_id = there.id;
  src_ip = here.data_ip;
  dst_ip = there.data_ip;
  src_mac = here.data_mac;
  dst_mac = there.data_mac;
}

-- A path reserved ends the loop, whose other branch is given.
unfoldable pub on_reply : String → String → Bool → Option ℤ → M Reserved → M Reserved
on_reply network teardown sdn (some id) again = do
  update_stage_if sdn network success
  update_stage_if sdn teardown pending
  pure (reserved id)
on_reply network teardown sdn none again = again

module _ (net : Net) where
  -- A path that was created and cannot be used is deleted.
  unfoldable pub give_up : Wan.WanCreated → ℕ → String → M WanPath
  unfolding Wan.del
  give_up cres code text = do
    _ ← Wan.del net cres.uuid Wan.default_retry
    pure (wan_failure code text (some cres))

  unfoldable pub after_commit : Wan.WanCreated → Bool → M WanPath
  unfolding give_up
  after_commit cres true =
      pure (record { code = pos 0; error = message ""; wan_uuid = cres.uuid; created = some cres })
  after_commit cres false = give_up cres 302 "WAN path commit faiure"

  unfoldable pub after_reserve : Wan.WanCreated → Bool → M WanPath
  unfolding give_up after_commit Wan.commit
  after_reserve cres true = Wan.commit net cres.uuid >>= after_commit cres
  after_reserve cres false = give_up cres 301 "WAN path reservation faiure"

  unfoldable pub after_create : String → String → Wan.WanCreated → M WanPath
  unfolding Wan.reserve after_reserve
  after_create src_stp dst_stp cres =
      if str_eq cres.uuid ""
      then pure (wan_failure 300 "WAN path creation failure" none)
      else Wan.reserve net cres.uuid src_stp dst_stp cres.src_vlan cres.dst_vlan
        >>= after_reserve cres

  unfoldable pub setup_wan_path : Dtn → Dtn → Label → Label → M WanPath
  unfolding Wan.create after_create
  setup_wan_path src dst src_vlan dst_vlan = do
    cres ← Wan.create net (stp_name src.stp) (stp_name dst.stp) src_vlan dst_vlan
    after_create (stp_name src.stp) (stp_name dst.stp) cres

  abbrev attempt : String → Bool → String → SdnRequest → M SdnReply
  attempt network sdn url r =
      update_stage_if sdn network working >> ask net.sdn_reply (sdn_reserve url r)

  -- The loop at one site, by the retries that are left. The stage of an error is written whether
  -- or not the site has an SDN.
  unfoldable pub reserve_site : String → String → Bool → String → SdnRequest → ℕ → M Reserved
  unfolding on_reply path_of
  reserve_site network teardown sdn url r zero = do
    reply ← attempt network sdn url r
    on_reply network teardown sdn (path_of reply)
        (update_stage network error >> pure (refused reply))
  reserve_site network teardown sdn url r (suc left) = do
    let again = reserve_site network teardown sdn url r left
    reply ← attempt network sdn url r
    on_reply network teardown sdn (path_of reply) again

  -- The third failed try at a site is the last.
  abbrev sdn_retries : ℕ
  sdn_retries = 2

  abbrev ping : Dtn → Dtn → M PingReply
  ping src dst = ask net.ping_reply (icmp_ping src.site_url src.id dst.data_ip)

  unfoldable pub pre_pings : Bool → Dtn → Dtn → M (Unit {0})
  pre_pings true src dst = ping src dst >>= λ _. ping dst src >>= λ _. pure tt
  pre_pings false src dst = pure tt

  unfoldable pub at_destination : ℤ → Reserved → M SdnPaths
  at_destination src_id (reserved dst_id) =
      pure (record { src_path_id = src_id; dst_path_id = dst_id; code = pos 0; error = message "" })
  at_destination src_id (refused reply) = pure (record {
    src_path_id = src_id;
    dst_path_id = negsuc 0;
    code = negsuc 1;
    error = at_site "destination" reply;
  })

  unfoldable pub at_source : Dtn → Dtn → ℤ → ℤ → Reserved → M SdnPaths
  unfolding reserve_site sdn_rpc at_destination
  at_source src dst rate oscars_dst (reserved src_id) = do
    r ←
        reserve_site "network.lan_dst" "teardown.lan_dst" dst.sdn_setup dst.site_url
          (sdn_rpc dst src rate oscars_dst) sdn_retries
    at_destination src_id r
  at_source src dst rate oscars_dst (refused reply) = pure (record {
    src_path_id = negsuc 0;
    dst_path_id = negsuc 0;
    code = negsuc 0;
    error = at_site "source" reply;
  })

  unfoldable pub setup_sdn_path : Dtn → Dtn → ℤ → Bool → ℤ → ℤ → M SdnPaths
  unfolding reserve_site pre_pings sdn_rpc at_source
  setup_sdn_path src dst rate pre_ping oscars_src oscars_dst = do
    pre_pings pre_ping src dst
    r ←
        reserve_site "network.lan_src" "teardown.lan_src" src.sdn_setup src.site_url
          (sdn_rpc src dst rate oscars_src) sdn_retries
    at_source src dst rate oscars_dst r

  -- The tries of `verify_path`, by the retries that are left.
  unfoldable pub verify_tries : Dtn → Dtn → ℕ → M PingReply
  verify_tries src dst zero = ping src dst
  verify_tries src dst (suc left) = do
    let again = verify_tries src dst left
    reply ← ping src dst
    if eqb_ℤ reply.code (pos 0) then pure reply else again

  -- 5 tries, or 30 over a path that was just set up; the answer's code and error are the last
  -- ping's.
  unfoldable pub verify_path : Dtn → Dtn → M PingReply
  unfolding verify_tries
  verify_path src dst = verify_tries src dst (if str_eq src.wan_uuid "" then 4 else 29)
