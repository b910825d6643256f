-- ===== src/Scheduler/Schedule/Advanced.antt =====
-- What one job of `schedule` leaves of the jobs' flows and counters.
use bigdataexpress_c.Base.{
  String, ◌≡◌, refl, ap, ◌∙◌, ◌⊎◌, inl, inr, Option, none, some, List, [], ◌∷◌, ◌++◌, All,
}
use bigdataexpress_c.Network.{Dtn, SjobState, SjobStage}
use bigdataexpress_c.Network.Pairing.{SiteInfo, match_flow}
use bigdataexpress_c.Network.Teardown.{schedule_clean_up}
use bigdataexpress_c.Store.{
  Database, Sjob, Block, Flow, FlowState, RawjobState, find_one, insert_flow, get_site_info,
}
use bigdataexpress_c.Store.Ledger.{Balanced, Owns}
use bigdataexpress_c.Store.Profile.{
  profile, bump, Kept, Kept-refl, Kept-trans, update_sjob-Kept, update_sjob_stage-Kept,
  update_sjob_state-Kept, update_sjob_flow-Kept, update_sjob_block-Kept, update_rawjob-Kept,
  profile-insert_flow, insert_flow-Balanced, insert_flow-Owns,
}
use bigdataexpress_c.Scheduler.Kept.{apply_events-Kept, run_network-Kept}
use bigdataexpress_c.Scheduler.State.{State, after}
use bigdataexpress_c.Scheduler.Launch.{
  LaunchEnv, prepare_flow, clean_up, on_launch, send_launch, launch_flow,
}
use bigdataexpress_c.Scheduler.Schedule.{
  ScheduleEnv, is_waiting, site_info, connect_sjob, abandon_sjob, on_connected, schedule_block,
  on_waiting, on_flows,
}

clean_up-Kept :
    (env : LaunchEnv) (rid sid error : String) (src dst : Dtn) (s : State)
    → Kept s.store (clean_up env rid sid error src dst s).store
unfolding clean_up
clean_up-Kept env rid sid error src dst s =
    Kept-trans (run_network-Kept env.net sid (λ net. schedule_clean_up net src dst) s) (
      Kept-trans (update_rawjob-Kept _ rid (λ r. record r { state = RawjobState.error })) (
        Kept-trans (update_sjob-Kept _ sid _ (λ j. (refl, refl, refl, refl)))
          (update_rawjob-Kept _ rid _)))

on_launch-Kept :
    (env : LaunchEnv) (sjob : Sjob) (f : Flow) (reply : Option String) (s : State)
    → Kept s.store (on_launch env sjob f reply s).store
unfolding on_launch
on_launch-Kept env sjob f (some error) s =
    Kept-trans (update_sjob_stage-Kept s.store sjob.id "transfer.launch" SjobStage.error) (
      Kept-trans (update_sjob_stage-Kept _ sjob.id "transfer.general" SjobStage.error)
        (clean_up-Kept env sjob.rawjob sjob.id _ f.src_dtn f.dst_dtn (record s { store = _ })))
on_launch-Kept env sjob f none s =
    Kept-trans (update_sjob_block-Kept s.store f.block _ (λ b. (refl, refl))) (
      Kept-trans
        (update_sjob_flow-Kept _ f.task (λ g. record g { state = FlowState.setting }) (λ t. refl))
        (Kept-trans (update_sjob_flow-Kept _ f.task _ (λ t. refl))
          (update_rawjob-Kept _ sjob.rawjob _)))

send_launch-Kept :
    (sjob : Sjob) (f : Flow) (s : State)
    → Kept (insert_flow sjob.id f s.store) (send_launch sjob f s).store
unfolding send_launch
send_launch-Kept sjob f s = Kept-trans (update_sjob_state-Kept _ sjob.id SjobState.launching) (
    Kept-trans (update_sjob_stage-Kept _ sjob.id "transfer.general" SjobStage.working)
      (update_sjob_stage-Kept _ sjob.id "transfer.launch" SjobStage.working))

-- The flows of all jobs stay, or the first job with the identifier has one more, for the first block
-- that waited.
pub record Advanced (sjob : Sjob) (db db' : Database) : Type 0 where
  pub flows :
      (profile db'.sjobs ≡ profile db.sjobs)
      ⊎ ((b : Block) × (find_one (λ c. is_waiting c.state) sjob.blocks ≡ some b)
          × (profile db'.sjobs ≡ bump sjob.id b.id (profile db.sjobs)))
  pub owns : (block id : String) → Owns block id db.sjobs → Owns block id db'.sjobs
  pub balanced : All Balanced db.sjobs → All Balanced db'.sjobs

Kept-Advanced : {sjob : Sjob} {db db' : Database} → Kept db db' → Advanced sjob db db'
Kept-Advanced k = record {
  flows = inl k.carried.same_profile;
  owns = k.carried.owns;
  balanced = k.balanced;
}

-- Updates before and after an insertion of a flow.
inserted-Advanced :
    (sjob : Sjob) (b : Block) (f : Flow) (x y z : Database)
    → find_one (λ c. is_waiting c.state) sjob.blocks ≡ some b
    → f.block ≡ b.id
    → Kept x y
    → Kept (insert_flow sjob.id f y) z
    → Advanced sjob x z
inserted-Advanced sjob b f x y z waits same p q = record {
  flows = inr (
    b,
    waits,
    q.carried.same_profile
        ∙ profile-insert_flow sjob.id f y
        ∙ ap (λ i. bump sjob.id i (profile y.sjobs)) same
        ∙ ap (bump sjob.id b.id) p.carried.same_profile,
  );
  owns = λ block id h.
      q.carried.owns block id (insert_flow-Owns sjob.id f y block id (p.carried.owns block id h));
  balanced = λ h. q.balanced (insert_flow-Balanced sjob.id f y (p.balanced h));
}

launch_flow-Advanced :
    (env : LaunchEnv) (sjob : Sjob) (b : Block) (src dst : Dtn) (db : Database) (s : State)
    → find_one (λ c. is_waiting c.state) sjob.blocks ≡ some b
    → Kept db s.store
    → Advanced sjob db (launch_flow env sjob b.id src dst s).store
unfolding launch_flow
launch_flow-Advanced env sjob b src dst db s waits k =
    let f = prepare_flow (env.guid s) b.id src dst in
    let sent = send_launch sjob f s in
    inserted-Advanced sjob b f db s.store _ waits refl k (
      Kept-trans (send_launch-Kept sjob f s)
        (on_launch-Kept env sjob f (env.launch_reply sent) sent))

connect_sjob-Kept :
    (env : ScheduleEnv) (sjob : Sjob) (src dst : SiteInfo) (s : State)
    → Kept s.store (connect_sjob env sjob src dst s).1.store
unfolding connect_sjob
connect_sjob-Kept env sjob src dst s =
    apply_events-Kept sjob.id
      (match_flow (after s.world env.launch.net) (λ w. env.portal (w ++ s.world)) src dst
        sjob.src_storage sjob.dst_storage []).1
      s.store

module _ (env : ScheduleEnv) (sjob : Sjob) (b : Block)
    (waits : find_one (λ c. is_waiting c.state) sjob.blocks ≡ some b) where
  on_connected-Advanced :
      (found : Option (Dtn × Dtn)) (db : Database) (s : State)
      → Kept db s.store
      → Advanced sjob db (on_connected env sjob b found s).store
  unfolding on_connected abandon_sjob
  on_connected-Advanced none db s k = Kept-Advanced (
      Kept-trans k (
        Kept-trans (update_rawjob-Kept _ sjob.rawjob (λ r. record r { state = RawjobState.error }))
          (Kept-trans (update_sjob-Kept _ sjob.id _ (λ j. (refl, refl, refl, refl)))
            (update_rawjob-Kept _ sjob.rawjob _))))
  on_connected-Advanced (some (src, dst)) db s k =
      launch_flow-Advanced env.launch sjob b src dst db s waits k

  schedule_block-Advanced : (s : State) → Advanced sjob s.store (schedule_block env sjob b s).store
  unfolding schedule_block
  schedule_block-Advanced s =
      let src = site_info (get_site_info sjob.src_site s.store) in
      let dst = site_info (get_site_info sjob.dst_site s.store) in
      let (found, t) = connect_sjob env sjob src dst s in
      on_connected-Advanced found s.store t (connect_sjob-Kept env sjob src dst s)

on_waiting-Advanced :
    (env : ScheduleEnv) (sjob : Sjob) (o : Option Block) (s : State)
    → find_one (λ c. is_waiting c.state) sjob.blocks ≡ o
    → Advanced sjob s.store (on_waiting env sjob o s).store
unfolding on_waiting
on_waiting-Advanced env sjob none s waits = Kept-Advanced (Kept-refl s.store)
on_waiting-Advanced env sjob (some b) s waits = schedule_block-Advanced env sjob b waits s

pub on_flows-Advanced :
    (env : ScheduleEnv) (sjob : Sjob) (fs : List Flow) (s : State)
    → (on_flows env sjob fs s ≡ s)
      ⊎ ((fs ≡ []) × Advanced sjob s.store (on_flows env sjob fs s).store)
unfolding on_flows
on_flows-Advanced env sjob (f ∷ fs) s = inl refl
on_flows-Advanced env sjob [] s =
    inr (refl, on_waiting-Advanced env sjob (find_one (λ b. is_waiting b.state) sjob.blocks) s refl)
