-- ===== src/Scheduler/Life.antt =====
-- What the threads of server/scheduler.cc work off, here each whole before the next: raw jobs that
-- are submitted (`add_raw_job`), the runs of `schedule` and of `poll_rate`, and the reports of
-- transfers (`mld_status`). A bootstrap that crashes ends the server.
pub mod Books
pub mod Tests
use bigdataexpress_c.Base.{ℕ, String, ◌≡◌, some, List, [], ◌∷◌}
use bigdataexpress_c.Store.{Sjob, get_sjob_from_task_id}
use bigdataexpress_c.Store.Ledger.{Owns}
use bigdataexpress_c.Store.Singles.{Singles}
use bigdataexpress_c.Bootstrap.{Ask, BootEnv, Boot}
use bigdataexpress_c.Bootstrap.Run.{Ending, bootstrap_transfer_job}
use bigdataexpress_c.Bootstrap.Run as Bootstrap
use bigdataexpress_c.Scheduler.State.{State}
use bigdataexpress_c.Scheduler.Report.{Report, Env, Subject}
use bigdataexpress_c.Scheduler.Poll.{PollEnv, poll_rate}
use bigdataexpress_c.Scheduler.Status.{subject_of, mld_status}
use bigdataexpress_c.Scheduler.Schedule.{ScheduleEnv, schedule}

-- What is submitted is answered by the sites as its environment says.
pub data SchedulerEvent : Type 0 where
  submits : BootEnv → String → SchedulerEvent
  schedules : ScheduleEnv → SchedulerEvent
  reports : Env → String → Report → SchedulerEvent
  polls : PollEnv → SchedulerEvent

-- The documents and the questions to other sites are counted for the bootstraps.
pub record Running : Type 0 where
  pub state : State
  pub drawn : ℕ
  pub asked : List Ask

pub data Life : Type 0 where
  goes_on : Running → Life
  ends : Running → Life

abbrev pub server_of : Life → Running
server_of (goes_on v) = v
server_of (ends v) = v

abbrev booted : Running → Boot → Running
booted v b = record { state = record v.state { store = b.store }; drawn = b.drawn; asked = b.asked }

unfoldable pub on_ending : Running → Ending → Life
on_ending v (Bootstrap.returns b) = goes_on (booted v b)
on_ending v (Bootstrap.dies b) = ends (booted v b)

unfoldable pub handle_event : SchedulerEvent → Running → Life
unfolding on_ending bootstrap_transfer_job schedule mld_status poll_rate
handle_event (submits env id) v = on_ending v (
    bootstrap_transfer_job env id
      (record { store = v.state.store; drawn = v.drawn; asked = v.asked }))
handle_event (schedules env) v = goes_on (record v { state = schedule env v.state })
handle_event (polls env) v = goes_on (record v { state = poll_rate env v.state })
handle_event (reports env task r) v = goes_on (record v { state = mld_status env task r v.state })

unfoldable pub run_events : List SchedulerEvent → Running → Life
unfolding handle_event
run_events [] v = goes_on v
run_events (e ∷ es) v = elim (handle_event e v) [ goes_on w ↦ run_events es w | ends w ↦ ends w ]

-- A report is about a block of its own job; for a poll, each job has at most one flow, whose block is
-- its own.
abbrev pub Fits : SchedulerEvent → Running → Type 0
Fits (submits env id) v = Unit
Fits (schedules env) v = Unit
Fits (polls env) v = Singles v.state.store.sjobs
Fits (reports env task r) v =
    (sjob : Sjob) (j : Subject)
    → get_sjob_from_task_id task v.state.store ≡ some sjob
    → subject_of task sjob ≡ some j
    → Owns j.block j.sjob.id v.state.store.sjobs

-- So it is for all of them, when they come.
unfoldable pub AllFit : List SchedulerEvent → Running → Type 0
unfolding handle_event
AllFit [] v = Unit
AllFit (e ∷ es) v = Fits e v × (elim (handle_event e v) [ goes_on w ↦ AllFit es w | ends w ↦ Unit ])
