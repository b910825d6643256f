-- ===== src/Manager/Tests.antt =====
-- Runs of the laws of server/resourcemanager.cc: a site that registers, and a storage with one
-- path to the gateway.
mod Streams
use bigdataexpress_c.Base.{
  ℕ, zero, suc, String, some, List, [], ◌∷◌, ◌≡◌, refl, eq_iff, ◌≢◌, ◌<◌, ap, ◌↔◌, arith,
}
use bigdataexpress_c.Base.Int.{ℤ, pos, ◌-ℤ◌, ◌+ℤ◌}
use bigdataexpress_c.Base.Keyed.{lookup}
use bigdataexpress_c.Outcome.{ok}
use bigdataexpress_c.Job.{BaseJob, JobGroup, JobState, is_running, is_extra, sum_re, sum_rb}
use bigdataexpress_c.Graph.{
  RGraph, reset, Description, new_resource, Node, Edge, NodeRef, NodeKind, internal, storage, dtn,
  general, storage_own, dtn_own, general_own, node_at, gateway_id, with_nodes,
}
use bigdataexpress_c.Graph.Build.{add_gateway, add_general_node, get_storage_node}
use bigdataexpress_c.Graph.Linked.{reset-IsLinked}
use bigdataexpress_c.Graph.Linked.Nodes.{add_general_node-IsLinked}
use bigdataexpress_c.Manager.Probe.{
  probe_path_rate, path_rates, rates_of, gateway_edge, min_ℤ, usable,
}
use bigdataexpress_c.Manager.Probe.Laws.{Reading, reading, Carries, probe_one_iff}
use bigdataexpress_c.Manager.Provision.{Manager, Room, make_room, provision}
use bigdataexpress_c.Manager.Provision.Suspend.{IsNamed, running_extra, make_room_total}
use bigdataexpress_c.Manager.Probe.Room.{HasRoom, probe_path_rate-HasRoom}
use bigdataexpress_c.Manager.Provision.Shares.{total, accepted_is_shared}
use bigdataexpress_c.Manager.Register.{Registry, add_modules, del_modules}
use bigdataexpress_c.Manager.Register.Safe.{IsSound, Keeps}
use bigdataexpress_c.Manager.Register.Whole.{add_modules-Keeps, del_modules-Keeps}

-- Identifiers by their length.
abbrev guid : ℕ → String
guid zero = ""
guid (suc n) = String.◌∷◌ "e" (guid n)

abbrev size : String → ℕ
size String.[] = zero
size (String.◌∷◌ c s) = suc (size s)

size-guid : (n : ℕ) → size (guid n) ≡ n
size-guid zero = refl
size-guid (suc n) = ap suc (size-guid n)

guid_inj : (i j : ℕ) → guid i ≡ guid j → i ≡ j
guid_inj i j e = cc (size-guid i, size-guid j, ap size e)

abbrev empty_registry : Registry
empty_registry = record { rg = add_gateway reset; drawn = 0 }

empty-IsSound : IsSound guid empty_registry
unfolding add_gateway add_general_node with_nodes lookup
empty-IsSound = record {
  linked = add_general_node-IsLinked gateway_id "gateway" "Gateway" (pos 0) reset reset-IsLinked;
  fresh = λ i h. refl;
}

abbrev description : String → String → Description
description id type = record {
  id = id;
  type = type;
  name = id;
  ctrl_ip = "10.0.0.1";
  data_rate = pos 40000000000;
  queue_name = "q";
  root_folder = "/data";
  root_folders = "";
  io_capacity = pos 1000000;
  storages = record { id = "s1"; type = "LocalStorage"; name = "s1" } ∷ [];
}

abbrev modules : List Description
modules = description "s1" "LocalStorage" ∷ description "dtn1" "DTN" ∷ []

add_modules-Keeps_example : Keeps guid (add_modules guid "queue" modules empty_registry)
add_modules-Keeps_example =
    add_modules-Keeps guid guid_inj "queue" modules empty_registry empty-IsSound

abbrev site : Registry
site = (add_modules guid "queue" modules empty_registry).1

site-IsSound : IsSound guid site
site-IsSound = (add_modules-Keeps guid guid_inj "queue" modules empty_registry empty-IsSound).1

del_modules-Keeps_example : Keeps guid (del_modules modules site)
del_modules-Keeps_example = del_modules-Keeps guid modules site site-IsSound

abbrev ref : NodeKind → String → NodeRef
ref kind key = record { kind = kind; key = key }

abbrev edge : String → NodeRef → NodeRef → Edge
edge id s d = record { base = new_resource id "" (pos 50000); src_node = s; dst_node = d }

abbrev storage_node : Node
storage_node = record {
  base = new_resource "s1" "Storage 1" (pos 40000);
  in_edges = [];
  out_edges = "e1" ∷ [];
  own = storage_own internal "/data" (some "dtn1");
}

abbrev path_graph : RGraph
path_graph = record {
  s_nodes = ("s1", storage_node) ∷ [];
  dtn_nodes =
      (
        "dtn1",
        record {
          base = new_resource "dtn1" "DTN 1" (pos 0);
          in_edges = "e1" ∷ [];
          out_edges = "e2" ∷ [];
          own = dtn_own "10.0.0.1";
        },
      )
      ∷ [];
  general_nodes =
      (
        gateway_id,
        record {
          base = new_resource "gateway" "Gateway" (pos 0);
          in_edges = "e2" ∷ [];
          out_edges = [];
          own = general_own;
        },
      )
      ∷ [];
  edges =
      ("e1", edge "e1" (ref storage "s1") (ref dtn "dtn1"))
      ∷ ("e2", edge "e2" (ref dtn "dtn1") (ref general gateway_id))
      ∷ [];
}

accepted : probe_path_rate path_graph [] "s1" (pos 30000) ≡ ok 1
unfolding probe_path_rate path_rates rates_of gateway_edge min_ℤ usable get_storage_node sum_re
    sum_rb lookup node_at ◌-ℤ◌ ◌+ℤ◌
accepted = refl

found : get_storage_node "s1" path_graph ≡ ok storage_node
unfolding get_storage_node lookup
found = refl

probe_path_rate-HasRoom_example :
    (probe_path_rate path_graph [] "s1" (pos 30000) ≡ ok 1) ↔ HasRoom path_graph [] "s1" (pos 30000)
probe_path_rate-HasRoom_example = probe_path_rate-HasRoom path_graph [] "s1" (pos 30000)

accepted_is_shared_example :
    (xs : List (String × ℤ)) × (provision path_graph [] (pos 30000) ("e1" ∷ []) ≡ ok xs)
    × (total xs ≡ pos 30000)
accepted_is_shared_example =
    accepted_is_shared path_graph [] "s1" (pos 30000) storage_node found (omega arith) accepted

abbrev extra_job : BaseJob
extra_job = record { id = "j1"; group = JobGroup.extra; state = JobState.running; rate = pos 20000 }

abbrev busy : Manager
busy = record { jm = ("j1", extra_job) ∷ []; rg = path_graph; writes = [] }

busy-IsNamed : IsNamed busy.jm
unfolding lookup
busy-IsNamed p job h = ground (arith, h, eq_iff "j1" p)

one_extra : running_extra busy.jm < 2
unfolding running_extra is_running is_extra
one_extra = omega arith

make_room_total_example :
    (make_room 2 "s1" (pos 30000) (("j1", "j1") ∷ []) busy).0 ≢ Room.out_of_fuel
make_room_total_example =
    make_room_total 2 "s1" (pos 30000) (("j1", "j1") ∷ []) busy busy-IsNamed one_extra
