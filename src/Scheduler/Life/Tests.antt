-- ===== src/Scheduler/Life/Tests.antt =====
-- A job that has been bootstrapped is launched, and a transfer that is on its way goes on.
use bigdataexpress_c.Base.{refl, inl, inr, none, List, [], ◌∷◌, All}
use bigdataexpress_c.Base.Int.{pos, ◌+ℤ◌}
use bigdataexpress_c.Base.Shuffles.{unchanged}
use bigdataexpress_c.Network.{SjobState}
use bigdataexpress_c.Store.{
  Sjob, Site, BlockState, any, find_one, update_one, get_sjob_from_task_id, update_sjob_block,
  update_sjob_stage, update_sjob_state, update_sjob_flow,
}
use bigdataexpress_c.Store.Ledger.{Balanced, Owns}
use bigdataexpress_c.Bootstrap.Tests.{env as boot_env}
use bigdataexpress_c.Scheduler.State.{State}
use bigdataexpress_c.Scheduler.Report.{started}
use bigdataexpress_c.Store.Singles.{Singles}
use bigdataexpress_c.Scheduler.Status.{mld_status}
use bigdataexpress_c.Scheduler.Tests.{
  net, env, dtn, first, last, sjob, state, poll_env, about, sjob_found, is_about,
}
use bigdataexpress_c.Scheduler.Schedule.{ScheduleEnv, schedule}
use bigdataexpress_c.Scheduler.Schedule.Limit.{OwnsAll, schedule-Singles}
use bigdataexpress_c.Scheduler.Life.{
  SchedulerEvent, submits, schedules, reports, polls, Running, Life, goes_on, ends, server_of,
  handle_event, run_events, AllFit,
}
use bigdataexpress_c.Scheduler.Life.Books.{report-Fits, run_events-Balanced}

abbrev fresh : Sjob
fresh = record sjob {
  state = SjobState.bootstrap;
  tx_bytes = pos 0;
  flows = [];
  blocks = record first { state = BlockState.waiting; tx_bytes = pos 0 } ∷ last ∷ [];
}

abbrev site : Site
site = record { id = "s1"; url = "site"; abbrev_name = "s"; tx_bytes = pos 0; rx_bytes = pos 0 }

abbrev start : State
start = record state {
  store = record state.store { sjobs = fresh ∷ []; sites = site ∷ record site { id = "s2" } ∷ [] };
}

-- Each site lists one public DTN, and the launcher accepts the command.
abbrev schedule_env : ScheduleEnv
schedule_env = record {
  launch = record {
    net = net;
    guid = λ s. "t9";
    epoch_ms = λ s. pos 500;
    launch_reply = λ s. none;
  };
  portal = λ w asked. record {
    status = 200;
    storage = "disk";
    private_dtns = [];
    public_dtns = dtn ∷ [];
  };
  by_submission = λ js. js;
}

fresh_owned : All (OwnsAll (fresh ∷ [])) (fresh ∷ [])
unfolding any
fresh_owned = ((inl (refl, refl), (inl (refl, refl), tt)), tt)

schedule-Singles_example : Singles (schedule schedule_env start).store.sjobs
schedule-Singles_example =
    schedule-Singles schedule_env start (λ js. unchanged js) (tt, tt) fresh_owned (inl refl, tt)

-- The transfer of `state` begins, and is polled; a raw job that is not there is submitted, and
-- `schedule` runs.
abbrev server : Running
server = record { state = state; drawn = 0; asked = [] }

abbrev later : List SchedulerEvent
later = submits boot_env "r9" ∷ schedules schedule_env ∷ []

abbrev IsNoReport : SchedulerEvent → Type 0
IsNoReport (submits _ _) = Unit
IsNoReport (schedules _) = Unit
IsNoReport (reports _ _ _) = ⊥
IsNoReport (polls _) = ⊥

fit_after :
    (es : List SchedulerEvent) (l : Life)
    → ((w : Running) → AllFit es w)
    → elim l as (λ _. Type 0) [ goes_on w ↦ AllFit es w | ends w ↦ Unit ]
fit_after es (goes_on w) k = k w
fit_after es (ends w) k = tt

without_reports : (es : List SchedulerEvent) (v : Running) → All IsNoReport es → AllFit es v
unfolding AllFit
without_reports [] v h = tt
without_reports (reports _ task r ∷ es) v h = absurd h.0
without_reports (polls _ ∷ es) v h = absurd h.0
without_reports (submits boot id ∷ es) v h =
    (tt, fit_after es (handle_event (submits boot id) v) (λ w. without_reports es w h.1))
without_reports (schedules found ∷ es) v h =
    (tt, fit_after es (handle_event (schedules found) v) (λ w. without_reports es w h.1))

block_fits : Owns "b1" "j1" (sjob ∷ [])
unfolding any
block_fits = inl (refl, refl)

after_report : Running
after_report = server_of (handle_event (reports env "t1" started) server)

single : Singles (mld_status env "t1" started state).store.sjobs
unfolding mld_status any find_one update_one get_sjob_from_task_id update_sjob_block
    update_sjob_stage update_sjob_state update_sjob_flow
single = (inr ("b1", refl, inl (refl, refl)), tt)

after_poll : Running
after_poll = server_of (handle_event (polls (poll_env (pos 0))) after_report)

abbrev events : List SchedulerEvent
events = reports env "t1" started ∷ polls (poll_env (pos 0)) ∷ later

all_fit : AllFit events server
unfolding AllFit handle_event after_report after_poll
all_fit = (
  report-Fits env "t1" started server sjob about sjob_found is_about block_fits,
  (single, without_reports later after_poll (tt, (tt, tt))),
)

balanced : All Balanced (sjob ∷ [])
unfolding ◌+ℤ◌
balanced = (refl, tt)

run_events-Balanced_example : All Balanced (server_of (run_events events server)).state.store.sjobs
run_events-Balanced_example = run_events-Balanced events server all_fit balanced
