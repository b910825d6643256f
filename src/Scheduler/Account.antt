-- ===== src/Scheduler/Account.antt =====
-- The counters of `tx_bytes` through the parts of `mld_status` that count nothing.
pub mod Finished
use bigdataexpress_c.Base.{
  String, ◌≡◌, refl, sym, ap, subst, Bool, true, false, ◌&&◌, not, Option, none, some, List, [],
  ◌∷◌, if◌then◌else◌, if_cases,
}
use bigdataexpress_c.Base.Int.{ℤ, pos, ◌-ℤ◌, ltb_ℤ}
use bigdataexpress_c.Network.{
  Net, M, Net, M, World, sends, stage_is, state_is, SjobState, SjobStage,
}
use bigdataexpress_c.Store.{
  Database, Sjob, Flow, Block, BlockFiles, FlowState, BlockState, RawjobState, JobError, any,
  has_block_id, update_sjob_block_state, get_sjob_from_task_id, get_sjobs_from_rawjob_id,
  get_block_files, update_sjob_state, update_sjob_stage,
}
use bigdataexpress_c.Store.Ledger.{
  total_tx, Ledger, Idle, update_sjob-Ledger, update_sjob_stage-Ledger, update_sjob_state-Ledger,
  update_sjob_flow-Ledger, update_sjob_block-Ledger, update_rawjob-Ledger, update_site-Ledger,
  fields-Idle,
}
use bigdataexpress_c.Store.Counting.{increment-Ledger}
use bigdataexpress_c.Scheduler.State.{
  State, after, apply_event, apply_events, run_network, teardown_flow,
}
use bigdataexpress_c.Scheduler.Report.{
  Report, started, finished, failed, other, Env, Subject, on_store, job_fail, teardown, fail,
  on_started, on_failed, explain,
}
use bigdataexpress_c.Scheduler.Finish.{
  increment_tx, count_block, own_block, count, begin_finish, Next, all_finished, all_assigned,
  found, launch, finish_sjob, after_next, accept, retrogress, reject, has_checksum, is_finished,
  checking, verify, on_finished,
}
use bigdataexpress_c.Scheduler.Status.{subject_of, report_on, mld_status}
use bigdataexpress_c.Scheduler.Progress.{mld_status_reported}

module _ {block id : String} where
  apply_events-Ledger :
      (sid : String) (w : World) (db : Database)
      → Ledger block id db
      → Ledger block id (apply_events sid w db)
  unfolding apply_events apply_event
  apply_events-Ledger sid [] db h = h
  apply_events-Ledger sid (sends r ∷ w) db h = apply_events-Ledger sid w db h
  apply_events-Ledger sid (stage_is stage v ∷ w) db h =
      update_sjob_stage-Ledger sid stage v (apply_events-Ledger sid w db h)
  apply_events-Ledger sid (state_is v ∷ w) db h =
      update_sjob_state-Ledger sid v (apply_events-Ledger sid w db h)

  pub run_network-Ledger :
      (net : Net) (sid : String) (m : Net → M (Unit {0})) (s : State)
      → Ledger block id s.store
      → Ledger block id (run_network net sid m s).store
  unfolding run_network
  run_network-Ledger net sid m s h = apply_events-Ledger sid (m (after s.world net) []).1 s.store h

  teardown-Ledger :
      (env : Env) (j : Subject) (s : State)
      → Ledger block id s.store
      → Ledger block id (teardown env j s).store
  unfolding teardown
  teardown-Ledger env j s h =
      run_network-Ledger env.net j.sjob.id (teardown_flow j.flow.src_dtn j.flow.dst_dtn) s h

  job_fail-Ledger :
      (err : JobError) (sid rid : String) (db : Database)
      → Ledger block id db
      → Ledger block id (job_fail err sid rid db)
  unfolding job_fail
  job_fail-Ledger err sid rid db h = update_rawjob-Ledger rid _ (
      update_sjob-Ledger sid _ (fields-Idle _ (λ s. (refl, refl, refl))) (
        update_rawjob-Ledger rid _ (
          update_sjob_state-Ledger sid SjobState.error
            (update_sjob_stage-Ledger sid "transfer.general" SjobStage.error h))))

  pub fail-Ledger :
      (env : Env) (err : JobError) (j : Subject) (s : State)
      → Ledger block id s.store
      → Ledger block id (fail env err j s).store
  unfolding fail
  fail-Ledger env err j s h =
      job_fail-Ledger err j.sjob.id j.sjob.rawjob (teardown env j s).store
        (teardown-Ledger env j s h)

  block_state-Ledger :
      (own : String) (v : BlockState) (db : Database)
      → Ledger block id db
      → Ledger block id (update_sjob_block_state own v db)
  block_state-Ledger own v db h =
      update_sjob_block-Ledger own (λ b. record b { state = v }) (λ b. (refl, refl)) h

  pub on_started-Ledger :
      (env : Env) (j : Subject) (s : State)
      → Ledger block id s.store
      → Ledger block id (on_started env j s).store
  unfolding on_started
  on_started-Ledger env j s h =
      update_sjob_block-Ledger j.block _ (λ b. (refl, refl))
        (update_sjob_stage-Ledger j.sjob.id _ _ (
          update_sjob_stage-Ledger j.sjob.id _ _
            (update_sjob_state-Ledger j.sjob.id _ (update_sjob_flow-Ledger j.flow.task _ h))))

  pub on_failed-Ledger :
      (env : Env) (ec : ℤ) (j : Subject) (s : State)
      → Ledger block id s.store
      → Ledger block id (on_failed env ec j s).store
  unfolding on_failed
  on_failed-Ledger env ec j s h =
      fail-Ledger env _ j (record s { store = _ })
        (block_state-Ledger j.block BlockState.waiting _ (
          update_sjob_flow-Ledger j.flow.task _
            (update_sjob_stage-Ledger j.sjob.id _ _ (update_sjob_stage-Ledger j.sjob.id _ _ h))))

  pub launch-Ledger :
      (env : Env) (j : Subject) (fresh : Bool) (own : String) (files : Option BlockFiles)
      (s : State)
      → Ledger block id s.store
      → Ledger block id (launch env j fresh own files s).store
  unfolding launch
  launch-Ledger env j fresh own files s h =
      let prepared =
        if_cases (Ledger block id) (env.ld_checksum && fresh)
          (λ _. update_sjob_stage-Ledger j.sjob.id "transfer.checksum" SjobStage.pending (
            update_sjob_stage-Ledger j.sjob.id "transfer.transfer" SjobStage.pending
              (update_sjob_stage-Ledger j.sjob.id "transfer.launch" SjobStage.working h)))
          (λ _.
            update_sjob_stage-Ledger j.sjob.id "transfer.transfer" SjobStage.pending
              (update_sjob_stage-Ledger j.sjob.id "transfer.launch" SjobStage.working h)) in
      if_cases (λ (t : State). Ledger block id t.store) env.has_launcher
        (λ _. update_rawjob-Ledger j.sjob.rawjob _ (
          update_sjob_flow-Ledger j.flow.task _ (
            update_sjob_flow-Ledger j.flow.task _ (
              block_state-Ledger own BlockState.transferring _
                (update_sjob_state-Ledger j.sjob.id SjobState.launching prepared)))))
        (λ _.
          fail-Ledger env _ j (record s { store = _ })
            (update_sjob_stage-Ledger j.sjob.id "transfer.launch" SjobStage.error prepared))

  finish_sjob-Ledger :
      (j : Subject) (db : Database) → Ledger block id db → Ledger block id (finish_sjob j db)
  unfolding finish_sjob
  finish_sjob-Ledger j db h =
      let moved = update_sjob_state-Ledger j.sjob.id SjobState.finished h in
      if_cases (Ledger block id)
        (any (λ s. not (is_finished s.state))
          (get_sjobs_from_rawjob_id j.sjob.rawjob
            (update_sjob_state j.sjob.id SjobState.finished db)))
        (λ _. moved)
        (λ _.
          update_rawjob-Ledger j.sjob.rawjob (λ r. record r { state = RawjobState.finished }) moved)

  after_next-Ledger :
      (env : Env) (j : Subject) (n : Next) (s : State)
      → Ledger block id s.store
      → Ledger block id (after_next env j n s).store
  unfolding after_next
  after_next-Ledger env j (found b) s h =
      launch-Ledger env j true b.id (get_block_files b.id s.store) s h
  after_next-Ledger env j all_finished s h = finish_sjob-Ledger j _ (
      teardown-Ledger env j (record s { store = _ })
        (update_sjob_stage-Ledger j.sjob.id "transfer.general" SjobStage.success
          (update_sjob_flow-Ledger j.flow.task _ h)))
  after_next-Ledger env j all_assigned s h =
      let torn =
        teardown-Ledger env j (record s { store = _ }) (update_sjob_flow-Ledger j.flow.task _ h) in
      if_cases (λ (t : State). Ledger block id t.store)
        (ltb_ℤ j.sjob.max_flows env.max_concurrent_flows_per_job)
        (λ _. update_sjob-Ledger j.sjob.id _ (fields-Idle _ (λ s. (refl, refl, refl))) torn)
        (λ _. torn)

  pub accept-Ledger :
      (env : Env) (j : Subject) (s : State)
      → Ledger block id s.store
      → Ledger block id (accept env j s).store
  unfolding accept
  accept-Ledger env j s h = after_next-Ledger env j _ _ (
      update_sjob_block-Ledger j.block _ (λ b. (refl, refl))
        (block_state-Ledger j.block BlockState.finished s.store h))
