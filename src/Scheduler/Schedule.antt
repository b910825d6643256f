-- ===== src/Scheduler/Schedule.antt =====
-- `schedule` of server/scheduler.cc, with `get_active_best_effort_sjobs` of server/sitestore.cc: for
-- each active job with no flow, the first block that waits is launched. Every job that is
-- bootstrapped is of the type `best_effort`. The wait until the next run is left out.
pub mod Advanced
pub mod Limit
use bigdataexpress_c.Base.{Bool, true, false, Option, none, some, List, [], ◌∷◌, ◌++◌}
use bigdataexpress_c.Network.{Dtn, SjobState}
use bigdataexpress_c.Network.Pairing.{SiteInfo, Portal, match_flow}
use bigdataexpress_c.Store.{
  Database, Sjob, Block, Flow, BlockState, RawjobState, Site, unconnected, find_one, find_all,
  get_site_info, update_sjob, update_rawjob, update_rawjob_state,
}
use bigdataexpress_c.Scheduler.State.{State, after, apply_events}
use bigdataexpress_c.Scheduler.Report.{on_store}
use bigdataexpress_c.Scheduler.Launch.{LaunchEnv, launch_flow}

-- `by_submission` is the database's sort by the time of submission.
pub record ScheduleEnv : Type 0 where
  pub launch : LaunchEnv
  pub portal : Portal
  pub by_submission : List Sjob → List Sjob

unfoldable pub is_active : SjobState → Bool
is_active SjobState.bootstrap = true
is_active SjobState.transferring = true
is_active s = false

unfoldable pub get_active_best_effort_sjobs : ScheduleEnv → Database → List Sjob
unfolding find_all is_active
get_active_best_effort_sjobs env db = env.by_submission (find_all (λ s. is_active s.state) db.sjobs)

unfoldable pub is_waiting : BlockState → Bool
is_waiting BlockState.waiting = true
is_waiting BlockState.transferring = false
is_waiting BlockState.finished = false

-- The members of a document that is not found are empty.
abbrev pub site_info : Option Site → SiteInfo
site_info none = record { url = ""; abbrev_name = "" }
site_info (some s) = record { url = s.url; abbrev_name = s.abbrev_name }

-- From the query of the sites to the verified path, and what it writes to the store.
unfoldable pub connect_sjob :
    ScheduleEnv → Sjob → SiteInfo → SiteInfo → State → Option (Dtn × Dtn) × State
unfolding match_flow apply_events
connect_sjob env sjob src dst s =
    let (found, new) =
      match_flow (after s.world env.launch.net) (λ w. env.portal (w ++ s.world)) src dst
        sjob.src_storage sjob.dst_storage [] in
    (found, record s { store = apply_events sjob.id new s.store; world = new ++ s.world })

-- What `schedule_clean_up` writes to the jobs at the end.
unfoldable pub abandon_sjob : Sjob → Database → Database
unfolding update_rawjob update_sjob
abandon_sjob sjob db =
    update_rawjob sjob.rawjob (λ r. record r { error = some unconnected })
      (update_sjob sjob.id (λ j. record j { error = some unconnected })
        (update_rawjob_state sjob.rawjob RawjobState.error db))

unfoldable pub on_connected : ScheduleEnv → Sjob → Block → Option (Dtn × Dtn) → State → State
unfolding abandon_sjob launch_flow
on_connected env sjob b none s = on_store (abandon_sjob sjob) s
on_connected env sjob b (some (src, dst)) s = launch_flow env.launch sjob b.id src dst s

-- Of the raw job only the certificates are read, for the command.
unfoldable pub schedule_block : ScheduleEnv → Sjob → Block → State → State
unfolding connect_sjob on_connected get_site_info
schedule_block env sjob b s =
    let src = site_info (get_site_info sjob.src_site s.store) in
    let dst = site_info (get_site_info sjob.dst_site s.store) in
    let (found, t) = connect_sjob env sjob src dst s in on_connected env sjob b found t

-- The first block that waits.
unfoldable pub on_waiting : ScheduleEnv → Sjob → Option Block → State → State
unfolding schedule_block
on_waiting env sjob none s = s
on_waiting env sjob (some b) s = schedule_block env sjob b s

-- A job with a flow has reached the limit of one.
unfoldable pub on_flows : ScheduleEnv → Sjob → List Flow → State → State
unfolding on_waiting find_one is_waiting
on_flows env sjob [] s = on_waiting env sjob (find_one (λ b. is_waiting b.state) sjob.blocks) s
on_flows env sjob (f ∷ fs) s = s

abbrev pub schedule_sjob : ScheduleEnv → Sjob → State → State
schedule_sjob env sjob s = on_flows env sjob sjob.flows s

-- The jobs are those that were read at the start.
unfoldable pub schedule_sjobs : ScheduleEnv → List Sjob → State → State
unfolding on_flows
schedule_sjobs env [] s = s
schedule_sjobs env (j ∷ js) s = schedule_sjobs env js (schedule_sjob env j s)

unfoldable pub schedule : ScheduleEnv → State → State
unfolding get_active_best_effort_sjobs schedule_sjobs
schedule env s = schedule_sjobs env (get_active_best_effort_sjobs env s.store) s
