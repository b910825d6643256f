-- ===== src/Scheduler/Life/Books.antt =====
-- The counters of `tx_bytes` through whatever the scheduler works off.
use bigdataexpress_c.Base.{
  String, ◌≡◌, refl, sym, ap, ◌∙◌, subst, inl, inr, not, Option, none, some, List, [], ◌∷◌, str_eq,
  All, All-append, arith,
}
use bigdataexpress_c.Store.{Sjob, find_all, get_sjob_from_task_id}
use bigdataexpress_c.Store.Laws.{All-find_all}
use bigdataexpress_c.Store.Ledger.{Balanced, Owns}
use bigdataexpress_c.Bootstrap.{BootEnv, Boot}
use bigdataexpress_c.Bootstrap.Run.{Ending, bootstrap_transfer_job}
use bigdataexpress_c.Bootstrap.Run as Bootstrap
use bigdataexpress_c.Bootstrap.Ends.{NewJob, Told, bootstrap_transfer_job-Told}
use bigdataexpress_c.Scheduler.State.{State}
use bigdataexpress_c.Scheduler.Report.{Report, Env, Subject}
use bigdataexpress_c.Scheduler.Poll.Whole.{poll_rate-Balanced}
use bigdataexpress_c.Scheduler.Status.{subject_of, mld_status}
use bigdataexpress_c.Scheduler.Account.Finished.{mld_status-Ledger}
use bigdataexpress_c.Scheduler.Schedule.{
  ScheduleEnv, on_flows, schedule_sjob, schedule_sjobs, schedule, get_active_best_effort_sjobs,
}
use bigdataexpress_c.Scheduler.Schedule.Advanced.{on_flows-Advanced}
use bigdataexpress_c.Scheduler.Life.{
  SchedulerEvent, submits, schedules, reports, polls, Running, Life, goes_on, ends, server_of,
  on_ending, handle_event, run_events, Fits, AllFit,
}

abbrev Books : Running → Type 0
Books v = All Balanced v.state.store.sjobs

module _ (env : Env) (task : String) (r : Report) (s : State) where
  unknown : get_sjob_from_task_id task s.store ≡ none → mld_status env task r s ≡ s
  unfolding mld_status
  unknown e = ground (arith, e)

  no_subject :
      (sjob : Sjob)
      → get_sjob_from_task_id task s.store ≡ some sjob
      → subject_of task sjob ≡ none
      → mld_status env task r s ≡ s
  unfolding mld_status
  no_subject sjob found e = ground (arith, found, e)

some_same : {A : Type 0} {a b : A} → some a ≡ some b → a ≡ b
some_same e = ground (arith, e)

-- The job and the subject of a report are found once.
pub report-Fits :
    (env : Env) (task : String) (r : Report) (v : Running) (sjob : Sjob) (j : Subject)
    → get_sjob_from_task_id task v.state.store ≡ some sjob
    → subject_of task sjob ≡ some j
    → Owns j.block j.sjob.id v.state.store.sjobs
    → Fits (reports env task r) v
report-Fits env task r v sjob j found is_subject owns sjob' j' found' is_subject' =
    let same = some_same (sym found ∙ found') in
    subst (λ (k : Subject). Owns k.block k.sjob.id v.state.store.sjobs)
      (some_same (sym is_subject ∙ ap (subject_of task) same ∙ is_subject')) owns

module _ (env : Env) (task : String) (r : Report) (v : Running) where
  subject-Balanced :
      (sjob : Sjob) (o : Option Subject)
      → get_sjob_from_task_id task v.state.store ≡ some sjob
      → subject_of task sjob ≡ o
      → Fits (reports env task r) v
      → Books v
      → All Balanced (mld_status env task r v.state).store.sjobs
  subject-Balanced sjob none found e fits h =
      subst (λ (t : State). All Balanced t.store.sjobs)
        (sym (no_subject env task r v.state sjob found e)) h
  subject-Balanced sjob (some j) found e fits h =
      (mld_status-Ledger env task r v.state sjob j found e
        (record { balanced = h; owns = fits sjob j found e })).balanced

  report-Balanced :
      (o : Option Sjob)
      → get_sjob_from_task_id task v.state.store ≡ o
      → Fits (reports env task r) v
      → Books v
      → All Balanced (mld_status env task r v.state).store.sjobs
  report-Balanced none e fits h =
      subst (λ (t : State). All Balanced t.store.sjobs) (sym (unknown env task r v.state e)) h
  report-Balanced (some sjob) e fits h = subject-Balanced sjob (subject_of task sjob) e refl fits h

new_jobs : (id : String) (js : List Sjob) → All (NewJob id) js → All Balanced js
new_jobs id [] h = tt
new_jobs id (j ∷ js) h = (h.0.balanced, new_jobs id js h.1)

on_ending-Balanced :
    (F : Type 0) (id : String) (s : Boot) (e : Ending) (v : Running)
    → Told F id s e
    → All Balanced s.store.sjobs
    → Books (server_of (on_ending v e))
unfolding on_ending
on_ending-Balanced F id s (Bootstrap.dies t) v told h = subst (All Balanced) (sym told.0) h
on_ending-Balanced F id s (Bootstrap.returns t) v (inl kept) h = subst (All Balanced) (sym kept.0) h
on_ending-Balanced F id s (Bootstrap.returns t) v (inr (j, js, created, new)) h =
    let others = λ (x : Sjob). not (str_eq x.rawjob id) in
    subst (All Balanced) (sym created) (
      All-append Balanced (find_all others s.store.sjobs) (j ∷ js)
        (All-find_all Balanced others s.store.sjobs h) (new_jobs id (j ∷ js) new))

submits-Balanced :
    (env : BootEnv) (id : String) (s : Boot) (v : Running)
    → All Balanced s.store.sjobs
    → Books (server_of (on_ending v (bootstrap_transfer_job env id s)))
unfolding on_ending
submits-Balanced env id s v h = elim (bootstrap_transfer_job-Told env id s) [
  | inl (passed, same) ↦ subst (λ e. Books (server_of (on_ending v e))) (sym same) h
  | inr told ↦ on_ending-Balanced _ id s (bootstrap_transfer_job env id s) v told h
]

sjob-Balanced :
    (env : ScheduleEnv) (j : Sjob) (s : State)
    → All Balanced s.store.sjobs
    → All Balanced (on_flows env j j.flows s).store.sjobs
sjob-Balanced env j s h = elim (on_flows-Advanced env j j.flows s) [
  | inl same ↦ subst (λ (t : State). All Balanced t.store.sjobs) (sym same) h
  | inr (empty, advanced) ↦ advanced.balanced h
]

schedule_sjobs-Balanced :
    (env : ScheduleEnv) (js : List Sjob) (s : State)
    → All Balanced s.store.sjobs
    → All Balanced (schedule_sjobs env js s).store.sjobs
unfolding schedule_sjobs
schedule_sjobs-Balanced env [] s h = h
schedule_sjobs-Balanced env (j ∷ js) s h =
    schedule_sjobs-Balanced env js (schedule_sjob env j s) (sjob-Balanced env j s h)

handle_event-Balanced :
    (e : SchedulerEvent) (v : Running) → Fits e v → Books v → Books (server_of (handle_event e v))
unfolding handle_event schedule
handle_event-Balanced (submits env id) v fits h = submits-Balanced env id _ v h
handle_event-Balanced (schedules env) v fits h =
    schedule_sjobs-Balanced env (get_active_best_effort_sjobs env v.state.store) v.state h
handle_event-Balanced (polls env) v fits h = poll_rate-Balanced env v.state h fits
handle_event-Balanced (reports env task r) v fits h =
    report-Balanced env task r v (get_sjob_from_task_id task v.state.store) refl fits h

-- Whatever raw jobs are submitted, whenever `schedule` and `poll_rate` run and whatever reports of
-- transfers come, in whatever order: where every job has sent what its blocks have sent, this is
-- so again at the end, also where the server has ended. When a report comes, it is about a block of
-- its own job, and when a poll runs, each job has at most one flow, whose block is its own.
pub run_events-Balanced :
    (es : List SchedulerEvent) (v : Running)
    → AllFit es v
    → All Balanced v.state.store.sjobs
    → All Balanced (server_of (run_events es v)).state.store.sjobs
unfolding run_events AllFit
run_events-Balanced [] v fits h = h
run_events-Balanced (e ∷ es) v fits h =
    elim (handle_event e v)
        as (λ l.
          (elim l as (λ _. Type 0) [ goes_on w ↦ AllFit es w | ends w ↦ Unit ])
          → Books (server_of l)
          → Books (
              server_of
                (elim l as (λ _. Life) [ goes_on w ↦ run_events es w | ends w ↦ ends w ]))) [
                  | goes_on w ↦ (λ more k. run_events-Balanced es w more k)
                  | ends w ↦ (λ more k. k)
                ]
      fits.1 (handle_event-Balanced e v fits.0 h)
