-- ===== src/Scheduler/Poll/Laws.antt =====
-- Laws of `poll_rate`: the task that the launcher does not know, and the counters of a job.
use bigdataexpress_c.Base.{String, ◌≡◌, refl, subst, if_cases}
use bigdataexpress_c.Base.Int.{pos, eqb_ℤ}
use bigdataexpress_c.Network.{SjobState}
use bigdataexpress_c.Store.{
  Database, Sjob, Flow, FlowState, BlockState, JobError, message, get_sjob_from_task_id,
  update_sjob_state, update_rawjob, update_sjob_flow_state,
}
use bigdataexpress_c.Store.Laws.{
  FirstBoth, update_sjob_state-FirstBoth, update_sjob_flow-FirstBoth, update_sjob_block-FirstBoth,
  get_sjob_from_task_id-error,
}
use bigdataexpress_c.Scheduler.State.{State}
use bigdataexpress_c.Scheduler.Report.{Report, Env}
use bigdataexpress_c.Scheduler.Status.{mld_status}
use bigdataexpress_c.Scheduler.Failed.{Ignored, ignored, run_network-FirstBoth}
use bigdataexpress_c.Scheduler.Poll.{
  RateReply, timed_out, answered, PollEnv, Sums, Polled, returns, goes_on, release_flow,
  release_paths, drop_flow, jobs_fail, unknown_task, is_polled, on_rate, poll_flow,
}

module _ (task id : String) where
  drop_flow-FirstBoth :
      (f : Flow) (db : Database)
      → FirstBoth task id db.sjobs
      → FirstBoth task id (drop_flow f db).sjobs
  unfolding drop_flow
  drop_flow-FirstBoth f db h =
      update_sjob_block-FirstBoth task id (update_sjob_flow_state f.task FlowState.error db)
        (update_sjob_flow-FirstBoth task id db h f.task (λ g. record g { state = FlowState.error })
          (λ g. refl))
        f.block (λ b. record b { state = BlockState.waiting })

  jobs_fail-Ignored :
      (err : JobError) (rid : String) (db : Database)
      → FirstBoth task id db.sjobs
      → Ignored task (jobs_fail err id rid db)
  unfolding jobs_fail update_rawjob get_sjob_from_task_id
  jobs_fail-Ignored err rid db h =
      let (s, is_found, e) =
        get_sjob_from_task_id-error task id err (update_sjob_state id SjobState.error db)
          (update_sjob_state-FirstBoth task id db h id SjobState.error) in
      (s, err, is_found, e)

unknown_task-Ignored :
    (env : PollEnv) (rid : String) (sjob : Sjob) (f : Flow) (s : State)
    → FirstBoth f.task sjob.id s.store.sjobs
    → Ignored f.task (unknown_task env rid sjob f s).store
unfolding unknown_task
unknown_task-Ignored env rid sjob f s h =
    jobs_fail-Ignored f.task sjob.id (message "invalid task at launching agent") rid
      (drop_flow f (release_flow env sjob.id f s).store)
      (drop_flow-FirstBoth f.task sjob.id f (release_flow env sjob.id f s).store
        (run_network-FirstBoth f.task sjob.id env.net (release_paths f.src_dtn f.dst_dtn) s h))

-- What holds of the state wherever a loop stands.
abbrev pub Whatever : (State → Type 0) → Polled → Type 0
Whatever P (returns s) = P s
Whatever P (goes_on u) = P u.state

-- What holds of the state where the function returns from within.
abbrev pub Returning : (State → Type 0) → Polled → Type 0
Returning P (returns s) = P s
Returning P (goes_on u) = Unit

on_rate-Returning :
    (env : PollEnv) (rid : String) (sjob : Sjob) (f : Flow) (v : RateReply) (u : Sums)
    → FirstBoth f.task sjob.id u.state.store.sjobs
    → Returning (λ s. Ignored f.task s.store) (on_rate env rid sjob f v u)
unfolding on_rate
on_rate-Returning env rid sjob f timed_out u h = tt
on_rate-Returning env rid sjob f (answered code transferred) u h =
    if_cases (Returning (λ s. Ignored f.task s.store)) (eqb_ℤ code (pos 1))
      (λ _. unknown_task-Ignored env rid sjob f u.state h)
      (λ _.
        if_cases (Returning (λ s. Ignored f.task s.store)) (eqb_ℤ code (pos 0)) (λ _. tt) (λ _. tt))

poll_flow-Returning :
    (env : PollEnv) (rid : String) (sjob : Sjob) (f : Flow) (u : Sums)
    → FirstBoth f.task sjob.id u.state.store.sjobs
    → Returning (λ s. Ignored f.task s.store) (poll_flow env rid sjob f u)
unfolding poll_flow
poll_flow-Returning env rid sjob f u h =
    if_cases (Returning (λ s. Ignored f.task s.store)) (is_polled f.state)
      (λ _. on_rate-Returning env rid sjob f (env.rate_reply u.state f.task) u h) (λ _. tt)

-- Where the poll of a flow makes the function return, and the job of its task is the first with its
-- identifier, no later report of any kind for the task changes anything.
pub poll_flow-ignored :
    (env : PollEnv) (env' : Env) (rid : String) (sjob : Sjob) (f : Flow) (u : Sums) (s : State)
    (r : Report)
    → FirstBoth f.task sjob.id u.state.store.sjobs
    → poll_flow env rid sjob f u ≡ returns s
    → mld_status env' f.task r s ≡ s
poll_flow-ignored env env' rid sjob f u s r h e =
    ignored env' f.task r s
      (subst (Returning (λ s. Ignored f.task s.store)) e (poll_flow-Returning env rid sjob f u h))
