-- ===== src/Scheduler/Failed.antt =====
-- What a report of `mld_status` that a block has failed leaves behind.
use bigdataexpress_c.Base.{String, ◌≡◌, refl, sym, subst, some, [], ◌∷◌, arith}
use bigdataexpress_c.Base.Int.{ℤ}
use bigdataexpress_c.Network.{Net, M, World, sends, stage_is, state_is, SjobState, SjobStage}
use bigdataexpress_c.Store.{
  Database, Sjob, FlowState, BlockState, JobError, RawjobState, mdtm_error, get_sjob_from_task_id,
  update_sjob_state, update_sjob_stage, update_rawjob, update_rawjob_state, update_sjob_flow_state,
  update_sjob_block_state,
}
use bigdataexpress_c.Store.Laws.{
  FirstBoth, update_sjob_stage-FirstBoth, update_sjob_state-FirstBoth, update_sjob_block-FirstBoth,
  update_sjob_flow-FirstBoth, get_sjob_from_task_id-error,
}
use bigdataexpress_c.Scheduler.State.{
  State, after, apply_event, apply_events, run_network, teardown_flow,
}
use bigdataexpress_c.Scheduler.Report.{
  Report, failed, Env, Subject, job_fail, teardown, fail, on_failed, explain,
}
use bigdataexpress_c.Scheduler.Status.{subject_of, report_on, mld_status}
use bigdataexpress_c.Scheduler.Progress.{mld_status_reported}

apply_events-FirstBoth :
    (task id sid : String) (w : World) (db : Database)
    → FirstBoth task id db.sjobs
    → FirstBoth task id (apply_events sid w db).sjobs
unfolding apply_events apply_event
apply_events-FirstBoth task id sid [] db h = h
apply_events-FirstBoth task id sid (sends r ∷ w) db h = apply_events-FirstBoth task id sid w db h
apply_events-FirstBoth task id sid (stage_is stage v ∷ w) db h =
    update_sjob_stage-FirstBoth task id _ (apply_events-FirstBoth task id sid w db h) sid stage v
apply_events-FirstBoth task id sid (state_is v ∷ w) db h =
    update_sjob_state-FirstBoth task id _ (apply_events-FirstBoth task id sid w db h) sid v

-- What is stored of a job whose error has been written is an error.
abbrev pub Ignored : String → Database → Type 0
Ignored task db =
    (s : Sjob) × (e : JobError) × (get_sjob_from_task_id task db ≡ some s) × (s.error ≡ some e)

job_fail-Ignored :
    (task : String) (err : JobError) (sid rid : String) (db : Database)
    → FirstBoth task sid db.sjobs
    → Ignored task (job_fail err sid rid db)
unfolding job_fail update_rawjob get_sjob_from_task_id
job_fail-Ignored task err sid rid db h =
    let staged = update_sjob_stage sid "transfer.general" SjobStage.error db in
    let stated = update_sjob_state sid SjobState.error staged in
    let (s, is_found, e) =
      get_sjob_from_task_id-error task sid err (update_rawjob_state rid RawjobState.error stated) (
        update_sjob_state-FirstBoth task sid staged
          (update_sjob_stage-FirstBoth task sid db h sid "transfer.general" SjobStage.error) sid
          SjobState.error) in
    (s, err, is_found, e)

pub run_network-FirstBoth :
    (task id : String) (net : Net) (m : Net → M (Unit {0})) (s : State)
    → FirstBoth task id s.store.sjobs
    → FirstBoth task id (run_network net id m s).store.sjobs
unfolding run_network
run_network-FirstBoth task id net m s h =
    apply_events-FirstBoth task id id (m (after s.world net) []).1 s.store h

fail-Ignored :
    (env : Env) (task : String) (err : JobError) (j : Subject) (s : State)
    → FirstBoth task j.sjob.id s.store.sjobs
    → Ignored task (fail env err j s).store
unfolding fail teardown
fail-Ignored env task err j s h =
    job_fail-Ignored task err j.sjob.id j.sjob.rawjob _ (
      run_network-FirstBoth task j.sjob.id env.net (teardown_flow j.flow.src_dtn j.flow.dst_dtn) s
        h)

on_failed-Ignored :
    (env : Env) (task : String) (ec : ℤ) (j : Subject) (s : State)
    → FirstBoth task j.sjob.id s.store.sjobs
    → Ignored task (on_failed env ec j s).store
unfolding on_failed
on_failed-Ignored env task ec j s h =
    let id = j.sjob.id in
    let launched = update_sjob_stage id "transfer.launch" SjobStage.success s.store in
    let moved = update_sjob_stage id "transfer.transfer" SjobStage.error launched in
    let flowed = update_sjob_flow_state j.flow.task FlowState.error moved in
    fail-Ignored env task (mdtm_error ec (explain ec)) j
      (record s { store = update_sjob_block_state j.block BlockState.waiting flowed })
      (update_sjob_block-FirstBoth task id flowed
        (update_sjob_flow-FirstBoth task id moved
          (update_sjob_stage-FirstBoth task id launched
            (update_sjob_stage-FirstBoth task id s.store h id "transfer.launch" SjobStage.success)
            id "transfer.transfer" SjobStage.error)
          j.flow.task (λ f. record f { state = FlowState.error }) (λ f. refl))
        j.block (λ b. record b { state = BlockState.waiting }))

pub ignored :
    (env : Env) (task : String) (r : Report) (s : State)
    → Ignored task s.store
    → mld_status env task r s ≡ s
unfolding mld_status subject_of
ignored env task r s (sjob, e, is_found, h) = ground (arith, is_found, h)

-- After a report that a block of a job has failed, where the job of the task is the first with its
-- identifier, no later report of any kind for that task changes anything.
pub mld_status-ignored :
    (env env' : Env) (task : String) (ec : ℤ) (r : Report) (s : State) (sjob : Sjob) (j : Subject)
    → get_sjob_from_task_id task s.store ≡ some sjob
    → subject_of task sjob ≡ some j
    → FirstBoth task j.sjob.id s.store.sjobs
    → mld_status env' task r (mld_status env task (failed ec) s) ≡ mld_status env task (failed ec) s
unfolding report_on
mld_status-ignored env env' task ec r s sjob j is_found is_subject h =
    let reported = mld_status_reported env task (failed ec) s sjob j is_found is_subject in
    ignored env' task r (mld_status env task (failed ec) s)
      (subst (λ t. Ignored task t.store) (sym reported) (on_failed-Ignored env task ec j s h))
