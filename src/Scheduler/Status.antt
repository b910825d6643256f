-- ===== src/Scheduler/Status.antt =====
-- `mld_status` of server/scheduler.cc: a report is about the flow of a task, and about the block
-- that the flow carries. The bytes of all jobs stay below 2 ^ 63.
use bigdataexpress_c.Base.{String, Option, none, some, if◌then◌else◌, str_eq}
use bigdataexpress_c.Store.{Sjob, find_one, has_task, get_sjob_from_task_id}
use bigdataexpress_c.Scheduler.State.{State}
use bigdataexpress_c.Scheduler.Report.{
  Report, started, finished, failed, other, Env, Subject, on_started, on_failed,
}
use bigdataexpress_c.Scheduler.Finish.{on_finished}

-- A job with a member `error` counts as one that was not found, and so does a flow with no block.
unfoldable pub subject_of : String → Sjob → Option Subject
unfolding find_one
subject_of task sjob = elim sjob.error [
  | some e ↦ none
  | none ↦ (elim (find_one (has_task task) sjob.flows) [
    | none ↦ none
    | some f ↦
        if str_eq f.block "" then none else some (record { sjob = sjob; flow = f; block = f.block })
  ])
]

unfoldable pub report_on : Env → Report → Subject → State → State
unfolding on_started on_failed on_finished
report_on env started j s = on_started env j s
report_on env (failed ec) j s = on_failed env ec j s
report_on env finished j s = on_finished env j s
report_on env other j s = s

unfoldable pub mld_status : Env → String → Report → State → State
unfolding subject_of report_on
mld_status env task r s = elim (get_sjob_from_task_id task s.store) [
  | none ↦ s
  | some sjob ↦ (elim (subject_of task sjob) [ none ↦ s | some j ↦ report_on env r j s ])
]
