-- ===== src/Scheduler/Launch/Laws.antt =====
-- The task of a launched flow in the site store.
use bigdataexpress_c.Base.{
  String, ◌≡◌, refl, inl, inr, true, false, Option, none, some, List, [], ◌∷◌, ◌++◌, All, if_cases,
  arith, eq_iff,
}
use bigdataexpress_c.Network.{Dtn, SjobState, SjobStage}
use bigdataexpress_c.Network.Teardown.{schedule_clean_up}
use bigdataexpress_c.Store.{
  Sjob, Flow, FlowState, BlockState, any, update_one, has_task, has_flow, has_id, insert_flow,
  find_one, get_sjob_from_task_id, update_sjob_state, update_sjob_stage, update_sjob_flow_state,
  update_sjob_block_state, update_rawjob,
}
use bigdataexpress_c.Store.Laws.{
  FirstBoth, update_sjob-FirstBoth, update_sjob_state-FirstBoth, update_sjob_stage-FirstBoth,
  update_sjob_flow-FirstBoth, update_sjob_block-FirstBoth,
}
use bigdataexpress_c.Scheduler.State.{State}
use bigdataexpress_c.Scheduler.Failed.{run_network-FirstBoth}
use bigdataexpress_c.Scheduler.Launch.{
  LaunchEnv, prepare_flow, clean_up, on_launch, send_launch, launch_flow,
}

-- No job has a flow of the task.
abbrev pub Unused : String → List Sjob → Type 0
Unused task ss = All (λ s. has_flow task s ≡ false) ss

any-last : (f : Flow) (fs : List Flow) → any (has_task f.task) (fs ++ f ∷ []) ≡ true
unfolding any
any-last f [] = ground (arith, eq_iff f.task f.task)
any-last f (g ∷ fs) = ground (arith, any-last f fs)

update_one-FirstBoth_new :
    (id : String) (f : Flow) (ss : List Sjob)
    → Unused f.task ss
    → any (has_id id) ss ≡ true
    → FirstBoth f.task id (update_one (has_id id) (λ s. record s { flows = s.flows ++ f ∷ [] }) ss)
unfolding update_one any
update_one-FirstBoth_new id f [] u h = ground arith
update_one-FirstBoth_new id f (s ∷ ss) u h =
    if_cases (FirstBoth f.task id) (has_id id s) (λ e. inl (any-last f s.flows, e))
      (λ e. inr (u.0, e, update_one-FirstBoth_new id f ss u.1 (ground (arith, e, h))))

module _ (sjob : Sjob) (f : Flow) where
  send_launch-FirstBoth :
      (s : State)
      → Unused f.task s.store.sjobs
      → any (has_id sjob.id) s.store.sjobs ≡ true
      → FirstBoth f.task sjob.id (send_launch sjob f s).store.sjobs
  unfolding send_launch insert_flow
  send_launch-FirstBoth s u h =
      let inserted = insert_flow sjob.id f s.store in
      let stated = update_sjob_state sjob.id SjobState.launching inserted in
      let staged = update_sjob_stage sjob.id "transfer.general" SjobStage.working stated in
      update_sjob_stage-FirstBoth f.task sjob.id staged
        (update_sjob_stage-FirstBoth f.task sjob.id stated
          (update_sjob_state-FirstBoth f.task sjob.id inserted
            (update_one-FirstBoth_new sjob.id f s.store.sjobs u h) sjob.id SjobState.launching)
          sjob.id "transfer.general" SjobStage.working)
        sjob.id "transfer.launch" SjobStage.working

  clean_up-FirstBoth :
      (env : LaunchEnv) (task rid error : String) (src dst : Dtn) (s : State)
      → FirstBoth task sjob.id s.store.sjobs
      → FirstBoth task sjob.id (clean_up env rid sjob.id error src dst s).store.sjobs
  unfolding clean_up update_rawjob
  clean_up-FirstBoth env task rid error src dst s h =
      update_sjob-FirstBoth task sjob.id _
        (run_network-FirstBoth task sjob.id env.net (λ net. schedule_clean_up net src dst) s h)
        sjob.id _ (λ j. (refl, refl))

  on_launch-FirstBoth :
      (env : LaunchEnv) (reply : Option String) (s : State)
      → FirstBoth f.task sjob.id s.store.sjobs
      → FirstBoth f.task sjob.id (on_launch env sjob f reply s).store.sjobs
  unfolding on_launch update_rawjob
  on_launch-FirstBoth env (some error) s h =
      let failed = update_sjob_stage sjob.id "transfer.launch" SjobStage.error s.store in
      clean_up-FirstBoth env f.task sjob.rawjob _ f.src_dtn f.dst_dtn
        (record s { store = update_sjob_stage sjob.id "transfer.general" SjobStage.error failed })
        (update_sjob_stage-FirstBoth f.task sjob.id failed
          (update_sjob_stage-FirstBoth f.task sjob.id s.store h sjob.id "transfer.launch"
            SjobStage.error)
          sjob.id "transfer.general" SjobStage.error)
  on_launch-FirstBoth env none s h =
      let blocked = update_sjob_block_state f.block BlockState.transferring s.store in
      let flowed = update_sjob_flow_state f.task FlowState.setting blocked in
      update_sjob_flow-FirstBoth f.task sjob.id flowed
        (update_sjob_flow-FirstBoth f.task sjob.id blocked
          (update_sjob_block-FirstBoth f.task sjob.id s.store h f.block _) f.task _ (λ g. refl))
        f.task _ (λ g. refl)

found :
    (task id : String) (ss : List Sjob)
    → FirstBoth task id ss
    → (j : Sjob) × (find_one (has_flow task) ss ≡ some j) × (has_id id j ≡ true)
unfolding find_one
found task id [] h = absurd h
found task id (s ∷ ss) (inl h) = (s, ground (arith, h.0), h.1)
found task id (s ∷ ss) (inr h) =
    let (j, is_found, is_it) = found task id ss h.2 in (j, ground (arith, h.0, is_found), is_it)

-- Where no job has a flow of the task that is drawn and the job is stored, after the launch, whether
-- the launcher accepts it or not, a report for the task finds a job with the identifier, and it
-- is the first with that identifier.
pub launch_flow-FirstBoth :
    (env : LaunchEnv) (sjob : Sjob) (block : String) (src dst : Dtn) (s : State)
    → Unused (env.guid s) s.store.sjobs
    → any (has_id sjob.id) s.store.sjobs ≡ true
    → FirstBoth (env.guid s) sjob.id (launch_flow env sjob block src dst s).store.sjobs
      × ((j : Sjob) × (get_sjob_from_task_id
              (env.guid s)
              (launch_flow env sjob block src dst s).store
            ≡ some j)
          × (has_id sjob.id j ≡ true))
unfolding launch_flow get_sjob_from_task_id
launch_flow-FirstBoth env sjob block src dst s unused stored =
    let f = prepare_flow (env.guid s) block src dst in
    let sent = send_launch sjob f s in
    let first =
      on_launch-FirstBoth sjob f env (env.launch_reply sent) sent
        (send_launch-FirstBoth sjob f s unused stored) in
    (first, found (env.guid s) sjob.id (launch_flow env sjob block src dst s).store.sjobs first)
