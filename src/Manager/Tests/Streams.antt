-- ===== src/Manager/Tests/Streams.antt =====
-- Runs of the laws of server/resourcemanager.cc on matched DTNs, a graph that is built from the store,
-- and a job.
use bigdataexpress_c.Base.{String, none, [], ◌∷◌, ◌≡◌, refl, true, arith}
use bigdataexpress_c.Base.Int.{pos, ◌-ℤ◌}
use bigdataexpress_c.Base.Keyed.{lookup}
use bigdataexpress_c.Outcome.{Error, throw}
use bigdataexpress_c.Graph.{Description, reset}
use bigdataexpress_c.Manager.Provision.{Manager}
use bigdataexpress_c.Manager.Register.{Registry}
use bigdataexpress_c.Manager.Register.Safe.{Keeps}
use bigdataexpress_c.Manager.Construct.{construct, construct-Keeps}
use bigdataexpress_c.Manager.Streams.{Stream, create_job}
use bigdataexpress_c.Manager.Gateway.{LeavesJob, create_job-throws}
use bigdataexpress_c.Manager.Match.{
  Rated, paired, match_path_dtns, Ends, match_path_dtns-Ends, total_rated, total_paired,
  match_path_dtns-rate,
}
use bigdataexpress_c.Manager.Tests.{guid, guid_inj}

abbrev near : Rated
near = ("a", pos 5) ∷ ("b", pos 7) ∷ []

abbrev far : Rated
far = ("c", pos 4) ∷ ("d", pos 8) ∷ []

match_path_dtns-Ends_example : Ends (match_path_dtns near far)
match_path_dtns-Ends_example = match_path_dtns-Ends near far (omega arith) (omega arith)

near_matched :
    match_path_dtns near far
    ≡ paired (("a", "c", pos 4) ∷ ("a", "d", pos 1) ∷ ("b", "d", pos 7) ∷ [])
unfolding match_path_dtns ◌-ℤ◌
near_matched = refl

match_path_dtns-rate_example :
    total_paired (("a", "c", pos 4) ∷ ("a", "d", pos 1) ∷ ("b", "d", pos 7) ∷ []) ≡ total_rated far
match_path_dtns-rate_example =
    match_path_dtns-rate near far (("a", "c", pos 4) ∷ ("a", "d", pos 1) ∷ ("b", "d", pos 7) ∷ [])
      near_matched

abbrev described : String → Description
described id = record {
  id = id;
  type = "";
  name = id;
  ctrl_ip = "10.0.0.1";
  data_rate = pos 100;
  queue_name = "queue";
  root_folder = "/data";
  root_folders = "[]";
  io_capacity = pos 50;
  storages = [];
}

abbrev old_registry : Registry
old_registry = record { rg = reset; drawn = 3 }

construct-Keeps_example :
    Keeps guid
      (construct guid (described "s" ∷ []) (described "d" ∷ []) (("s", "d") ∷ []) old_registry)
construct-Keeps_example =
    construct-Keeps guid (described "s" ∷ []) (described "d" ∷ []) (("s", "d") ∷ []) old_registry
      guid_inj

-- The graph of a storage and a DTN, which it is connected to, and no job.
abbrev idle_manager : Manager
idle_manager = record {
  jm = [];
  rg =
      (construct guid (described "s" ∷ []) (described "d" ∷ []) (("s", "d") ∷ [])
        old_registry).1.rg;
  writes = [];
}

abbrev stream : Stream
stream = record {
  rawjob_id = "r";
  src_storage = "s";
  dst_storage = "t";
  src_dtn = "d";
  dst_dtn = "e";
  rate = pos 10;
  extra = true;
}

no_job : lookup "j" idle_manager.jm ≡ none
unfolding lookup
no_job = refl

create_job-throws_example :
    (e : Error) × ((create_job "j" stream idle_manager).0 ≡ throw e)
    × LeavesJob "j" stream idle_manager (create_job "j" stream idle_manager).1
create_job-throws_example =
    create_job-throws guid (described "s" ∷ []) (described "d" ∷ []) (("s", "d") ∷ []) old_registry
      "j" stream idle_manager refl no_job
