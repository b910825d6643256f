-- ===== src/Scheduler/Report.antt =====
-- `mld_status` of server/scheduler.cc, its reports that a block has started or failed. The handler
-- works on the job as it was when the report came in; what it writes goes to the store.
use bigdataexpress_c.Base.{String, Bool, some, if◌then◌else◌}
use bigdataexpress_c.Base.Int.{ℤ, pos, eqb_ℤ}
use bigdataexpress_c.Network.{Net, SjobState, SjobStage}
use bigdataexpress_c.Store.{
  Database, BlockState, Flow, FlowState, Sjob, RawjobState, JobError, mdtm_error, update_sjob,
  update_sjob_state, update_sjob_stage, update_sjob_block, update_rawjob, update_sjob_flow_state,
  update_sjob_block_state, update_rawjob_state,
}
use bigdataexpress_c.Scheduler.State.{State, run_network, teardown_flow}

-- What a report says.
pub data Report : Type 0 where
  started finished : Report
  failed : (error_code : ℤ) → Report
  other : Report

-- What the handler finds around it: the network, the configuration, the clock, the launcher and the
-- verification of checksums at the destination.
pub record Env : Type 0 where
  pub net : Net
  pub ld_checksum : Bool
  pub has_launcher : Bool
  pub max_concurrent_flows_per_job : ℤ
  pub epoch_ms : State → ℤ
  pub verify_checksum : State → Bool

abbrev pub on_store : (Database → Database) → State → State
on_store f s = record s { store = f s.store }

-- The job, the flow and the block that a report is about.
pub record Subject : Type 0 where
  pub sjob : Sjob
  pub flow : Flow
  pub block : String

unfoldable pub explain : ℤ → String
explain ec =
    if eqb_ℤ ec (pos 201)
    then "no port available"
    else if eqb_ℤ ec (pos 202)
    then "authorization failed"
    else if eqb_ℤ ec (pos 203)
    then "error in reading proxy credential"
    else if eqb_ℤ ec (pos 204)
    then "certificate expired"
    else if eqb_ℤ ec (pos 205)
    then "operation aborted, maybe caused by connection failures"
    else if eqb_ℤ ec (pos 206)
    then "end of file reached"
    else "unknown error"

unfoldable pub job_fail : JobError → String → String → Database → Database
job_fail err sid rid db =
    update_rawjob rid (λ r. record r { error = some err })
      (update_sjob sid (λ s. record s { error = some err })
        (update_rawjob_state rid RawjobState.error (
          update_sjob_state sid SjobState.error
            (update_sjob_stage sid "transfer.general" SjobStage.error db))))

unfoldable pub teardown : Env → Subject → State → State
unfolding run_network teardown_flow
teardown env j = run_network env.net j.sjob.id (teardown_flow j.flow.src_dtn j.flow.dst_dtn)

unfoldable pub fail : Env → JobError → Subject → State → State
unfolding teardown job_fail
fail env err j s = on_store (job_fail err j.sjob.id j.sjob.rawjob) (teardown env j s)

unfoldable pub on_started : Env → Subject → State → State
on_started env j s =
    let now = env.epoch_ms s in
    on_store
      (λ db.
        update_sjob_block j.block (λ b. record b { start = now })
          (update_sjob_stage j.sjob.id "transfer.transfer" SjobStage.working (
            update_sjob_stage j.sjob.id "transfer.launch" SjobStage.success (
              update_sjob_state j.sjob.id SjobState.transferring
                (update_sjob_flow_state j.flow.task FlowState.transferring db)))))
      s

unfoldable pub on_failed : Env → ℤ → Subject → State → State
unfolding fail explain
on_failed env ec j s = fail env (mdtm_error ec (explain ec)) j (
    on_store
      (λ db. update_sjob_block_state j.block BlockState.waiting (
        update_sjob_flow_state j.flow.task FlowState.error (
          update_sjob_stage j.sjob.id "transfer.transfer" SjobStage.error
            (update_sjob_stage j.sjob.id "transfer.launch" SjobStage.success db))))
      s)
