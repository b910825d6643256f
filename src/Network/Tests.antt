-- ===== src/Network/Tests.antt =====
-- Runs of the laws of the network code, with a service that answers every request.
use bigdataexpress_c.Base.{
  String, true, false, some, none, [], ◌∷◌, ◌≡◌, ◌≢◌, refl, ◌⊎◌, arith, eq_iff,
}
use bigdataexpress_c.Base.Int.{pos}
use bigdataexpress_c.Network.{Dtn, Net, wan_release}
use bigdataexpress_c.Network.Wan
use bigdataexpress_c.Network.Wan.Laws.{Retried, retry_request_lem}
use bigdataexpress_c.Network.Setup
use bigdataexpress_c.Network.Handling
use bigdataexpress_c.Network.Accounts.{created, given_back, is_create}
use bigdataexpress_c.Network.Accounts.Kept.{no_path_is_lost}
use bigdataexpress_c.Network.Accounts.Private.{BothPrivate, replies, created_for_private}
use bigdataexpress_c.Network.Pairing.{
  SiteInfo, Portal, find_best_effort_dtn_pair, on_replies, choose_pair, on_pairing, match_flow,
}
use bigdataexpress_c.Network.Tries.{reserves}
use bigdataexpress_c.Network.Bounds.{IsTold, setup_sdn_path-IsTold}

-- A service that creates a path "p1", accepts all, and sites that set up path 7 and fail pings.
abbrev service : Net
service = record {
  create_reply = λ w. record { service_uuid = "p1"; queries = [] };
  status = λ w. 201;
  sdn_reply = λ w. record {
    code = pos 0;
    installed_path_id = some (pos 7);
    error_code = "";
    description = "";
  };
  ping_reply = λ w. record { code = pos 1; error = "no answer" };
}

abbrev dtn_at : String → Dtn
dtn_at name = record {
  id = name;
  site_url = name;
  site_abbrev = name;
  data_ip = "10.0.0.1";
  data_mac = "02:00";
  sdn_setup = true;
  data_vlan_id = pos 100;
  stp = some (record { name = name; local_vlan_constraints = none });
  wan_static = [];
  wan_uuid = "";
  path_id = pos 0;
}

-- The reservation is accepted and the commitment is not, so the path is deleted.
lost_creation :
    created service "p1" (Handling.connect_flow service true (dtn_at "a") (dtn_at "b") []).1 ≡ true
unfolding created is_create Handling.connect_flow
lost_creation = refl

abbrev path_name : String
path_name = "p1"

other_name : path_name ≢ ""
other_name e = absurd (ground (arith, (eq_iff path_name "").1 e))

no_path_is_lost_example :
    (created service "p1" [] ≡ true)
    ⊎ (given_back "p1" (Handling.connect_flow service true (dtn_at "a") (dtn_at "b") []).1 ≡ true)
    ⊎ ((d : Dtn × Dtn) × ((Handling.connect_flow service true (dtn_at "a") (dtn_at "b") []).0
          ≡ some d)
        × (d.0.wan_uuid ≡ "p1"))
no_path_is_lost_example =
    no_path_is_lost service "p1" true (dtn_at "a") (dtn_at "b") [] other_name lost_creation

retry_request_lem_example :
    Retried service 4 (wan_release "p1") [] (Wan.retry_request service 4 (wan_release "p1") [])
retry_request_lem_example = retry_request_lem service 4 (wan_release "p1") []

setup_sdn_path-IsTold_example :
    IsTold service
      (dtn_at "a")
      (dtn_at "b")
      (pos 10000)
      (pos 0)
      (pos 0)
      0
      (Setup.setup_sdn_path service
        (dtn_at "a")
        (dtn_at "b")
        (pos 10000)
        false
        (pos 0)
        (pos 0)
        []).0
      (Setup.setup_sdn_path service
        (dtn_at "a")
        (dtn_at "b")
        (pos 10000)
        false
        (pos 0)
        (pos 0)
        []).1
unfolding reserves
setup_sdn_path-IsTold_example =
    setup_sdn_path-IsTold service (dtn_at "a") (dtn_at "b") (pos 10000) (pos 0) (pos 0) false []

abbrev info_of : String → SiteInfo
info_of name = record { url = name; abbrev_name = name }

-- Both sites have one private DTN each, and answer so to every query.
abbrev portal : Portal
portal w qs = record {
  status = 200;
  storage = "disk";
  private_dtns = dtn_at "a" ∷ [];
  public_dtns = [];
}

creation :
    created service "p1" (match_flow service portal (info_of "a") (info_of "b") "s" "t" []).1 ≡ true
unfolding match_flow find_best_effort_dtn_pair on_replies choose_pair on_pairing
    Handling.connect_flow created is_create
creation = refl

created_for_private_example :
    (created service "p1" [] ≡ true)
    ⊎ BothPrivate
        (replies portal (info_of "a") (info_of "b") "s" "t" []).0
        (replies portal (info_of "a") (info_of "b") "s" "t" []).1
created_for_private_example =
    created_for_private service portal "p1" (info_of "a") (info_of "b") "s" "t" [] other_name
      creation
