-- ===== src/Requests/Tests.antt =====
-- Runs of the requests, and the theorem at a concrete input.
use bigdataexpress_c.Base.{ℕ, String, ◌≡◌, refl, sym, ap, true, Option, none, some, [], ◌∷◌, All}
use bigdataexpress_c.Base.Int.{pos}
use bigdataexpress_c.Base.Keyed.{lookup, is_some}
use bigdataexpress_c.Outcome.{throw, dtn_not_found}
use bigdataexpress_c.Graph.{
  Node, RGraph, new_node, new_resource, dtn_own, general_own, sdn_id, has_dtn_node,
}
use bigdataexpress_c.Graph.Build.{get_dtn_node}
use bigdataexpress_c.Requests.{Agents, pure, lift, ◌>>=◌, call_back, call, no_info}
use bigdataexpress_c.Requests.Files.{get_dtn_info}
use bigdataexpress_c.Requests.Sdn.{SdnParams, sdn_reserve_request, sdn_release_request}
use bigdataexpress_c.Requests.Undone.{Undone, no_log, release_of, sdn_release_request-Undone}

abbrev graph : RGraph
graph = record {
  s_nodes = [];
  dtn_nodes = ("d1", new_node (new_resource "d1" "dtn1" (pos 100)) (dtn_own "1.1.1.1")) ∷ [];
  general_nodes = (sdn_id, new_node (new_resource sdn_id "sdn" (pos 0)) general_own) ∷ [];
  edges = [];
}

abbrev agents : Agents ℕ
agents = record { reply = λ sent. 0; code = λ r. some (pos r); total_size = λ r. r; files = λ r. r }

abbrev params : SdnParams ℕ
params = record {
  src_id = "d1";
  src_ip = "10.0.0.1";
  dst_ip = "10.0.0.2";
  dst_mac = "aa";
  sdn_setup = true;
  body = 5;
}

-- An unknown DTN is answered, and then the request throws.
unknown_dtn :
    get_dtn_info agents graph "d2" "" no_log
    ≡ (throw (dtn_not_found "d2"), record { sent = []; answers = no_info ∷ [] })
unfolding get_dtn_info has_dtn_node get_dtn_node pure lift ◌>>=◌ call_back call lookup
unknown_dtn = refl

abbrev rid_of : Option Node → String
rid_of none = ""
rid_of (some n) = n.rid

own_id : (n : Node) → lookup "d1" graph.dtn_nodes ≡ some n → n.rid ≡ "d1"
unfolding lookup
own_id n e = sym (ap rid_of e)

sdn_there : is_some (lookup sdn_id graph.general_nodes) ≡ true
unfolding lookup
sdn_there = refl

sdn_release_request-Undone_example :
    All
      (Undone
        (pos 7)
        ((sdn_release_request agents graph (release_of params (pos 7)) no_log).1.sent))
      ((sdn_reserve_request agents graph params no_log).1.sent)
sdn_release_request-Undone_example =
    sdn_release_request-Undone agents graph params (pos 7) no_log own_id (λ e. refl)
      (λ e. sdn_there)
