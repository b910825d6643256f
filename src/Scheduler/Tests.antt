-- ===== src/Scheduler/Tests.antt =====
-- Runs of the laws of `mld_status`: a job with two blocks, of which the first is on its way.
use bigdataexpress_c.Base.{◌≡◌, refl, inl, true, false, some, none, [], ◌∷◌}
use bigdataexpress_c.Base.Int.{ℤ, pos, ◌+ℤ◌}
use bigdataexpress_c.Network.{Dtn, Net, SjobState}
use bigdataexpress_c.Store.{
  Sjob, Flow, Block, BlockState, FlowState, RawjobState, any, find_one, has_id,
  get_sjob_from_task_id,
}
use bigdataexpress_c.Store.Laws.{FirstBoth}
use bigdataexpress_c.Store.Ledger.{Ledger}
use bigdataexpress_c.Scheduler.State.{State}
use bigdataexpress_c.Scheduler.Report.{Env, Subject, started, finished, failed}
use bigdataexpress_c.Scheduler.Finish.{next_block}
use bigdataexpress_c.Scheduler.Status.{subject_of, mld_status}
use bigdataexpress_c.Scheduler.Next.{Describes, next_block-Describes}
use bigdataexpress_c.Scheduler.Progress.{Goes, mld_status-Goes}
use bigdataexpress_c.Scheduler.Failed.{mld_status-ignored}
use bigdataexpress_c.Scheduler.Account.Finished.{mld_status-Ledger}
use bigdataexpress_c.Scheduler.Launch.{LaunchEnv, launch_flow}
use bigdataexpress_c.Scheduler.Launch.Laws.{Unused, launch_flow-FirstBoth}
use bigdataexpress_c.Scheduler.Poll.{
  PollEnv, answered, Sums, returns, unknown_task, on_rate, poll_flow,
}
use bigdataexpress_c.Scheduler.Poll.Laws.{poll_flow-ignored}

abbrev pub net : Net
net = record {
  create_reply = λ w. record { service_uuid = ""; queries = [] };
  status = λ w. 200;
  sdn_reply =
      λ w. record { code = pos 0; installed_path_id = none; error_code = ""; description = "" };
  ping_reply = λ w. record { code = pos 0; error = "" };
}

abbrev pub env : Env
env = record {
  net = net;
  ld_checksum = true;
  has_launcher = true;
  max_concurrent_flows_per_job = pos 1;
  epoch_ms = λ s. pos 1000;
  verify_checksum = λ s. true;
}

abbrev pub dtn : Dtn
dtn = record {
  id = "d1";
  site_url = "site";
  site_abbrev = "s";
  data_ip = "10.0.0.1";
  data_mac = "02:00";
  sdn_setup = true;
  data_vlan_id = pos 100;
  stp = none;
  wan_static = [];
  wan_uuid = "";
  path_id = pos 7;
}

abbrev flow : Flow
flow = record {
  task = "t1";
  block = "b1";
  state = FlowState.transferring;
  tx_bytes = pos 10;
  last_active = pos 0;
  src_dtn = dtn;
  dst_dtn = dtn;
}

abbrev pub first : Block
first = record {
  id = "b1";
  state = BlockState.transferring;
  size = pos 30;
  tx_bytes = pos 10;
  start = pos 0;
  end = none;
  avg_rate = none;
}

abbrev pub last : Block
last = record first { id = "b2"; state = BlockState.waiting; tx_bytes = pos 0 }

abbrev pub sjob : Sjob
sjob = record {
  id = "j1";
  rawjob = "r1";
  state = SjobState.transferring;
  stages = [];
  error = none;
  src_site = "s1";
  dst_site = "s2";
  src_storage = "d1|disk";
  dst_storage = "d2|disk";
  size = 60;
  transfer_retry = pos 0;
  max_flows = pos 1;
  tx_bytes = pos 10;
  flows = flow ∷ [];
  blocks = first ∷ last ∷ [];
}

abbrev pub state : State
state = record {
  store = record {
    sjobs = sjob ∷ [];
    rawjobs =
        record {
          id = "r1";
          request = record {
            user = "u1";
            src_file = "s1|d1|disk|/data";
            dst_file = "s2|d2|disk|/data";
            dataset = false;
            files = [];
            deadline = pos 100;
          };
          state = RawjobState.transferring;
          src_site = "s1";
          dst_site = "s2";
          error = none;
          tx_bytes = pos 10;
          size = some 60;
          src_certs = none;
          dst_certs = none;
        }
        ∷ [];
    sites = [];
    block_files = [];
    sjobevents = [];
    usercerts = [];
  };
  world = [];
  site_txrx = [];
  launched = [];
}

abbrev pub about : Subject
about = record { sjob = sjob; flow = flow; block = "b1" }

pub sjob_found : get_sjob_from_task_id "t1" state.store ≡ some sjob
unfolding get_sjob_from_task_id any find_one
sjob_found = refl

pub is_about : subject_of "t1" sjob ≡ some about
unfolding subject_of
is_about = refl

both : FirstBoth "t1" "j1" (sjob ∷ [])
unfolding any
both = inl (refl, refl)

books : Ledger "b1" "j1" state.store
unfolding any ◌+ℤ◌
books = record { balanced = (refl, tt); owns = inl (refl, refl) }

next_block-Describes_example :
    Describes "b1" (first ∷ last ∷ []) (next_block "b1" (first ∷ last ∷ []))
next_block-Describes_example = next_block-Describes "b1" (first ∷ last ∷ [])

mld_status-Goes_example : Goes env about [] [] (mld_status env "t1" finished state)
mld_status-Goes_example = mld_status-Goes env "t1" state sjob about sjob_found is_about

mld_status-ignored_example :
    mld_status env "t1" started (mld_status env "t1" (failed (pos 205)) state)
    ≡ mld_status env "t1" (failed (pos 205)) state
mld_status-ignored_example =
    mld_status-ignored env env "t1" (pos 205) started state sjob about sjob_found is_about both

mld_status-Ledger_example : Ledger "b1" "j1" (mld_status env "t1" finished state).store
mld_status-Ledger_example =
    mld_status-Ledger env "t1" finished state sjob about sjob_found is_about books

-- The launcher answers with this code, and that 25 bytes have been sent.
abbrev pub poll_env : ℤ → PollEnv
poll_env code = record {
  net = net;
  has_launcher = true;
  rate_reply = λ s task. answered code (pos 25);
  epoch_ms = λ s. pos 1000;
  inactive_timeout_ms = pos 900;
}

abbrev sums : Sums
sums = record { state = state; sjob_tx_bytes = pos 0; raw_tx_bytes = pos 0 }

abbrev not_known : State
not_known = unknown_task (poll_env (pos 1)) "r1" sjob flow state

is_returned : poll_flow (poll_env (pos 1)) "r1" sjob flow sums ≡ returns not_known
unfolding poll_flow on_rate
is_returned = refl

poll_flow-ignored_example : mld_status env "t1" finished not_known ≡ not_known
poll_flow-ignored_example =
    poll_flow-ignored (poll_env (pos 1)) env "r1" sjob flow sums not_known finished both is_returned

abbrev launch_env : LaunchEnv
launch_env = record {
  net = net;
  guid = λ s. "t2";
  epoch_ms = λ s. pos 1000;
  launch_reply = λ s. some "busy";
}

no_flow_yet : Unused "t2" (sjob ∷ [])
unfolding any
no_flow_yet = (refl, tt)

is_stored : any (has_id "j1") (sjob ∷ []) ≡ true
unfolding any
is_stored = refl

launch_flow-FirstBoth_example :
    FirstBoth "t2" "j1" (launch_flow launch_env sjob "b2" dtn dtn state).store.sjobs
    × ((j : Sjob) × (get_sjob_from_task_id "t2"
            (launch_flow launch_env sjob "b2" dtn dtn state).store
          ≡ some j)
        × (has_id "j1" j ≡ true))
launch_flow-FirstBoth_example =
    launch_flow-FirstBoth launch_env sjob "b2" dtn dtn state no_flow_yet is_stored
