-- ===== src/Scheduler/Progress.antt =====
-- What a report of `mld_status` that a block has finished leads to.
use bigdataexpress_c.Base.{
  String, ◌≡◌, refl, ◌⊎◌, inl, inr, Bool, true, ◌&&◌, Option, some, List, [], ◌∷◌, ◌++◌, if_cases,
  sym, subst, arith,
}
use bigdataexpress_c.Base.Int.{ltb_ℤ, pos}
use bigdataexpress_c.Network.{World, SjobStage}
use bigdataexpress_c.Store.{
  Sjob, get_sjob_from_task_id, BlockFiles, get_block_files, update_sjob_stage,
}
use bigdataexpress_c.Scheduler.State.{State, Launch, after, run_network, teardown_flow}
use bigdataexpress_c.Scheduler.Report.{Report, finished, Env, Subject, on_store, teardown, fail}
use bigdataexpress_c.Scheduler.Status.{subject_of, report_on, mld_status}
use bigdataexpress_c.Scheduler.Finish.{
  Next, all_finished, all_assigned, found, launch, begin_finish, count_block, after_next, accept,
  reject, verify, count, has_checksum, checking, on_finished,
}

-- The traffic after the path of a flow has been torn down.
unfoldable pub torn_world : Env → Subject → World → World
torn_world env j w = (teardown_flow j.flow.src_dtn j.flow.dst_dtn (after w env.net) []).1 ++ w

-- One more launch on the flow of a report, and no traffic; or no launch, and the path torn down.
abbrev pub Goes : Env → Subject → List Launch → World → State → Type 0
Goes env j launches w s =
    ((files : Option BlockFiles) × (env.has_launcher ≡ true)
      × (s.launched ≡ launches ++ record { task = j.flow.task; block_files = files } ∷ [])
      × (s.world ≡ w))
    ⊎ ((s.launched ≡ launches) × (s.world ≡ torn_world env j w))

module _ (env : Env) (j : Subject) where
  launch-Goes :
      (fresh : Bool) (id : String) (files : Option BlockFiles) (s : State)
      → Goes env j s.launched s.world (launch env j fresh id files s)
  unfolding launch fail teardown run_network torn_world
  launch-Goes fresh id files s =
      if_cases (Goes env j s.launched s.world) env.has_launcher (λ e. inl (files, e, refl, refl))
        (λ _. inr (refl, refl))

  after_next-Goes : (n : Next) (s : State) → Goes env j s.launched s.world (after_next env j n s)
  unfolding after_next teardown run_network torn_world
  after_next-Goes (found b) s = launch-Goes true b.id (get_block_files b.id s.store) s
  after_next-Goes all_finished s = inr (refl, refl)
  after_next-Goes all_assigned s =
      if_cases (Goes env j s.launched s.world)
        (ltb_ℤ j.sjob.max_flows env.max_concurrent_flows_per_job) (λ _. inr (refl, refl))
        (λ _. inr (refl, refl))

  accept-Goes : (s : State) → Goes env j s.launched s.world (accept env j s)
  unfolding accept
  accept-Goes s = after_next-Goes _ _

  reject-Goes :
      (files : Option BlockFiles) (s : State) → Goes env j s.launched s.world (reject env j files s)
  unfolding reject fail teardown run_network torn_world
  reject-Goes files s =
      if_cases (Goes env j s.launched s.world) (ltb_ℤ j.sjob.transfer_retry (pos 2))
        (λ _. launch-Goes _ _ _ _) (λ _. inr (refl, refl))

  verify-Goes :
      (files : Option BlockFiles) (s : State) → Goes env j s.launched s.world (verify env j files s)
  unfolding verify
  verify-Goes files s =
      if_cases (Goes env j s.launched s.world) (env.verify_checksum (checking j s))
        (λ _. accept-Goes (
          on_store (update_sjob_stage j.sjob.id "transfer.checksum" SjobStage.success)
            (checking j s)))
        (λ _. reject-Goes files (checking j s))

  count_traffic :
      (s : State) → ((count env j s).launched ≡ s.launched) × ((count env j s).world ≡ s.world)
  unfolding count count_block
  count_traffic s = (ground arith, ground arith)

  on_finished-Goes : (s : State) → Goes env j s.launched s.world (on_finished env j s)
  unfolding on_finished
  on_finished-Goes s =
      let begun = on_store (begin_finish j) s in
      let (l, w) = count_traffic begun in
      let counted = count env j begun in
      subst (λ ls. Goes env j ls s.world (on_finished env j s)) l
        (subst (λ v. Goes env j counted.launched v (on_finished env j s)) w
          (if_cases (Goes env j counted.launched counted.world)
            (env.ld_checksum && has_checksum (get_block_files j.block counted.store))
            (λ _. verify-Goes _ _) (λ _. accept-Goes _)))

pub mld_status_reported :
    (env : Env) (task : String) (r : Report) (s : State) (sjob : Sjob) (j : Subject)
    → get_sjob_from_task_id task s.store ≡ some sjob
    → subject_of task sjob ≡ some j
    → mld_status env task r s ≡ report_on env r j s
unfolding mld_status
mld_status_reported env task r s sjob j found_sjob is_subject =
    ground (arith, found_sjob, is_subject)

-- A report that a block of a job has finished ends in one of two ways: the launcher is there and gets
-- one command for the flow, or it gets none and the path of the flow is torn down.
pub mld_status-Goes :
    (env : Env) (task : String) (s : State) (sjob : Sjob) (j : Subject)
    → get_sjob_from_task_id task s.store ≡ some sjob
    → subject_of task sjob ≡ some j
    → Goes env j s.launched s.world (mld_status env task finished s)
unfolding report_on
mld_status-Goes env task s sjob j found_sjob is_subject =
    subst (Goes env j s.launched s.world)
      (sym (mld_status_reported env task finished s sjob j found_sjob is_subject))
      (on_finished-Goes env j s)
