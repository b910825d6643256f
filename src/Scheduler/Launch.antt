-- ===== src/Scheduler/Launch.antt =====
-- The launch of a flow by `schedule` of server/scheduler.cc, from the verified path on. Of the flow that
-- `prepare_flow` makes, the members that are read later are kept. The command files and a call of the
-- launcher that throws are left out.
pub mod Laws
use bigdataexpress_c.Base.{
  String, str_append, ◌≡◌, Bool, false, str_eq, Option, none, some, List, [], ◌∷◌, ◌++◌,
}
use bigdataexpress_c.Base.Int.{ℤ, pos}
use bigdataexpress_c.Network.{Dtn, Net, M, SjobState, SjobStage}
use bigdataexpress_c.Network.Teardown.{schedule_clean_up}
use bigdataexpress_c.Store.{
  Database, Sjob, Flow, FlowState, BlockState, RawjobState, JobError, message, get_block_files,
  insert_flow, update_sjob, update_sjob_state, update_sjob_stage, update_sjob_flow,
  update_sjob_flow_state, update_sjob_block_state, update_rawjob, update_rawjob_state,
}
use bigdataexpress_c.Scheduler.State.{State, run_network}
use bigdataexpress_c.Scheduler.Report.{on_store}

-- The launcher answers `none`, or with the text of an error.
pub record LaunchEnv : Type 0 where
  pub net : Net
  pub guid : State → String
  pub epoch_ms : State → ℤ
  pub launch_reply : State → Option String

abbrev pub prepare_flow : String → String → Dtn → Dtn → Flow
prepare_flow task block src dst = record {
  task = task;
  block = block;
  state = FlowState.scheduling;
  tx_bytes = pos 0;
  last_active = pos 0;
  src_dtn = src;
  dst_dtn = dst;
}

-- `schedule_clean_up` with DTNs, and what it writes to the jobs.
unfoldable pub clean_up : LaunchEnv → String → String → String → Dtn → Dtn → State → State
unfolding run_network schedule_clean_up
clean_up env rid sid error src dst s =
    on_store
      (λ db.
        update_rawjob rid (λ r. record r { error = some (message error) })
          (update_sjob sid (λ j. record j { error = some (message error) })
            (update_rawjob_state rid RawjobState.error db)))
      (run_network env.net sid (λ net. schedule_clean_up net src dst) s)

-- The answer of the launcher.
unfoldable pub on_launch : LaunchEnv → Sjob → Flow → Option String → State → State
unfolding clean_up
on_launch env sjob f (some error) s =
    clean_up env sjob.rawjob sjob.id (str_append "mdtm launch error: " error) f.src_dtn f.dst_dtn (
      on_store
        (λ db.
          update_sjob_stage sjob.id "transfer.general" SjobStage.error
            (update_sjob_stage sjob.id "transfer.launch" SjobStage.error db))
        s)
on_launch env sjob f none s =
    let now = env.epoch_ms s in
    on_store
      (λ db. update_rawjob_state sjob.rawjob RawjobState.transferring (
        update_sjob_flow f.task (λ g. record g { last_active = now })
          (update_sjob_flow_state f.task FlowState.setting
            (update_sjob_block_state f.block BlockState.transferring db))))
      s

-- The flow is stored, and the launcher gets the command with the files of the block.
unfoldable pub send_launch : Sjob → Flow → State → State
unfolding insert_flow get_block_files
send_launch sjob f s = record s {
  store = update_sjob_stage sjob.id "transfer.launch" SjobStage.working (
      update_sjob_stage sjob.id "transfer.general" SjobStage.working
        (update_sjob_state sjob.id SjobState.launching (insert_flow sjob.id f s.store)));
  launched =
      s.launched ++ record { task = f.task; block_files = get_block_files f.block s.store } ∷ [];
}

unfoldable pub launch_flow : LaunchEnv → Sjob → String → Dtn → Dtn → State → State
unfolding send_launch on_launch
launch_flow env sjob block src dst s =
    let f = prepare_flow (env.guid s) block src dst in
    let sent = send_launch sjob f s in on_launch env sjob f (env.launch_reply sent) sent
