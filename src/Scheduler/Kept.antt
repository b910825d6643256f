-- ===== src/Scheduler/Kept.antt =====
-- The jobs' flows, the owners of blocks and the counters through the network code and the parts of
-- `poll_rate` that count nothing.
use bigdataexpress_c.Base.{String, refl, [], ◌∷◌}
use bigdataexpress_c.Network.{Net, M, World, sends, stage_is, state_is, SjobState}
use bigdataexpress_c.Store.{Database, Sjob, Flow, FlowState, JobError}
use bigdataexpress_c.Store.Profile.{
  Kept, Kept-refl, Kept-trans, update_sjob-Kept, update_sjob_stage-Kept, update_sjob_state-Kept,
  update_sjob_flow-Kept, update_sjob_block-Kept, update_rawjob-Kept,
}
use bigdataexpress_c.Scheduler.State.{State, after, apply_event, apply_events, run_network}
use bigdataexpress_c.Scheduler.Report.{on_store}
use bigdataexpress_c.Scheduler.Poll.{
  PollEnv, drop_flow, jobs_fail, unknown_task, inactive, release_paths,
}

pub apply_events-Kept : (sid : String) (w : World) (db : Database) → Kept db (apply_events sid w db)
unfolding apply_events apply_event
apply_events-Kept sid [] db = Kept-refl db
apply_events-Kept sid (sends r ∷ w) db = apply_events-Kept sid w db
apply_events-Kept sid (stage_is stage v ∷ w) db =
    Kept-trans (apply_events-Kept sid w db) (update_sjob_stage-Kept _ sid stage v)
apply_events-Kept sid (state_is v ∷ w) db =
    Kept-trans (apply_events-Kept sid w db) (update_sjob_state-Kept _ sid v)

pub run_network-Kept :
    (net : Net) (sid : String) (m : Net → M (Unit {0})) (s : State)
    → Kept s.store (run_network net sid m s).store
unfolding run_network
run_network-Kept net sid m s = apply_events-Kept sid (m (after s.world net) []).1 s.store

drop_flow-Kept : (f : Flow) (db : Database) → Kept db (drop_flow f db)
unfolding drop_flow
drop_flow-Kept f db =
    Kept-trans
      (update_sjob_flow-Kept db f.task (λ g. record g { state = FlowState.error }) (λ t. refl))
      (update_sjob_block-Kept _ f.block _ (λ b. (refl, refl)))

jobs_fail-Kept :
    (err : JobError) (sid rid : String) (db : Database) → Kept db (jobs_fail err sid rid db)
unfolding jobs_fail
jobs_fail-Kept err sid rid db = Kept-trans (update_sjob_state-Kept db sid SjobState.error) (
    Kept-trans (update_sjob-Kept _ sid _ (λ s. (refl, refl, refl, refl)))
      (Kept-trans (update_rawjob-Kept _ rid _) (update_rawjob-Kept _ rid _)))

module _ (env : PollEnv) (rid : String) (sjob : Sjob) (f : Flow) (s : State) where
  pub unknown_task-Kept : Kept s.store (unknown_task env rid sjob f s).store
  unfolding unknown_task
  unknown_task-Kept =
      Kept-trans (run_network-Kept env.net sjob.id (release_paths f.src_dtn f.dst_dtn) s)
        (Kept-trans (drop_flow-Kept f _) (jobs_fail-Kept _ sjob.id rid _))

  pub inactive-Kept : Kept s.store (inactive env rid sjob f s).store
  unfolding inactive
  inactive-Kept = Kept-trans (drop_flow-Kept f s.store) (
      Kept-trans
        (run_network-Kept env.net sjob.id (release_paths f.src_dtn f.dst_dtn)
          (on_store (drop_flow f) s))
        (jobs_fail-Kept _ sjob.id rid _))
