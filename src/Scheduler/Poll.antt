-- ===== src/Scheduler/Poll.antt =====
-- `poll_rate` of server/scheduler.cc: the launcher is asked how much of each block has been sent. The
-- rates themselves and the statistics of jobs, which are only saved, are left out; so is a call of
-- the launcher that throws.
pub mod Laws
pub mod Books
pub mod Whole
use bigdataexpress_c.Base.{
  String, Bool, true, false, not, ◌&&◌, Option, none, some, List, [], ◌∷◌, if◌then◌else◌,
}
use bigdataexpress_c.Base.Int.{ℤ, pos, ◌+ℤ◌, ◌-ℤ◌, ltb_ℤ, eqb_ℤ}
use bigdataexpress_c.Network.{Dtn, Net, M, pure, ◌>>=◌, SjobState}
use bigdataexpress_c.Network.Teardown.{teardown_sdn_path, teardown_wan_path}
use bigdataexpress_c.Store.{
  Database, Sjob, Flow, FlowState, Block, BlockState, Rawjob, RawjobState, JobError, message,
  find_one, has_block_id, get_rawjobs_from_state, get_sjobs_from_rawjob_id, update_sjob,
  update_sjob_state, update_sjob_flow, update_sjob_flow_state, update_sjob_block_state,
  update_rawjob, update_rawjob_state, update_site, increment_sjob_block, increment_sjob_flow,
  increment_sjob, increment_rawjob,
}
use bigdataexpress_c.Scheduler.State.{State, run_network, add_txrx}
use bigdataexpress_c.Scheduler.Report.{on_store}

-- The members that are read of the launcher's answer.
pub data RateReply : Type 0 where
  timed_out : RateReply
  answered : (code transferred : ℤ) → RateReply

pub record PollEnv : Type 0 where
  pub net : Net
  pub has_launcher : Bool
  pub rate_reply : State → String → RateReply
  pub epoch_ms : State → ℤ
  pub inactive_timeout_ms : ℤ

-- What the loops carry: the sums of the bytes of a job and of a raw job.
pub record Sums : Type 0 where
  pub state : State
  pub sjob_tx_bytes : ℤ
  pub raw_tx_bytes : ℤ

-- The function returns from within the loops, or the loops go on.
pub data Polled : Type 0 where
  returns : State → Polled
  goes_on : Sums → Polled

abbrev pub then_poll : Polled → (Sums → Polled) → Polled
then_poll (returns s) f = returns s
then_poll (goes_on u) f = f u

-- `teardown_sdn_path` and `teardown_wan_path`, whose answers are not read.
unfoldable pub release_paths : Dtn → Dtn → Net → M (Unit {0})
unfolding teardown_sdn_path teardown_wan_path
release_paths src dst net = do
  _ ← teardown_sdn_path net src dst
  _ ← teardown_wan_path net src.wan_uuid
  pure tt

abbrev pub release_flow : PollEnv → String → Flow → State → State
release_flow env sid f = run_network env.net sid (release_paths f.src_dtn f.dst_dtn)

unfoldable pub drop_flow : Flow → Database → Database
drop_flow f db =
    update_sjob_block_state f.block BlockState.waiting
      (update_sjob_flow_state f.task FlowState.error db)

unfoldable pub jobs_fail : JobError → String → String → Database → Database
jobs_fail err sid rid db =
    update_rawjob rid (λ r. record r { error = some err })
      (update_rawjob_state rid RawjobState.error (
        update_sjob sid (λ s. record s { error = some err })
          (update_sjob_state sid SjobState.error db)))

-- The launcher does not know the task.
unfoldable pub unknown_task : PollEnv → String → Sjob → Flow → State → State
unfolding run_network release_paths drop_flow jobs_fail
unknown_task env rid sjob f s =
    on_store
      (λ db. jobs_fail (message "invalid task at launching agent") sjob.id rid (drop_flow f db))
      (release_flow env sjob.id f s)

-- Nothing has been sent for too long.
unfoldable pub inactive : PollEnv → String → Sjob → Flow → State → State
unfolding run_network release_paths drop_flow jobs_fail
inactive env rid sjob f s =
    on_store
      (jobs_fail
        (message "job failed due to no transferring progress for an extended period of time")
        sjob.id rid)
      (release_flow env sjob.id f (on_store (drop_flow f) s))

unfoldable pub last_tx_bytes : String → List Block → ℤ
unfolding find_one
last_tx_bytes id blocks = elim (find_one (has_block_id id) blocks) [
  | none ↦ pos 0
  | some b ↦ b.tx_bytes
]

-- The bytes since the last poll, `n`.
unfoldable pub active : PollEnv → String → Sjob → Flow → ℤ → State → State
unfolding inactive
active env rid sjob f n s =
    let now = env.epoch_ms s in
    let seen =
      if ltb_ℤ (pos 0) n
      then on_store (update_sjob_flow f.task (λ g. record g { last_active = now })) s
      else if ltb_ℤ env.inactive_timeout_ms (now -ℤ f.last_active)
      then inactive env rid sjob f s
      else s in
    on_store (λ db. increment_sjob_flow f.task n (increment_sjob_block f.block n db)) seen

abbrev pub is_polled : FlowState → Bool
is_polled FlowState.setting = true
is_polled FlowState.transferring = true
is_polled _ = false

-- An answer with another code than 0 and 1 is passed over.
unfoldable pub on_rate : PollEnv → String → Sjob → Flow → RateReply → Sums → Polled
unfolding unknown_task active last_tx_bytes
on_rate env rid sjob f timed_out u = goes_on u
on_rate env rid sjob f (answered code transferred) u =
    let n = transferred -ℤ last_tx_bytes f.block sjob.blocks in
    if eqb_ℤ code (pos 1)
    then returns (unknown_task env rid sjob f u.state)
    else if eqb_ℤ code (pos 0)
    then goes_on (record {
      state = active env rid sjob f n u.state;
      sjob_tx_bytes = u.sjob_tx_bytes +ℤ n;
      raw_tx_bytes = u.raw_tx_bytes +ℤ n;
    })
    else goes_on u

unfoldable pub poll_flow : PollEnv → String → Sjob → Flow → Sums → Polled
unfolding on_rate
poll_flow env rid sjob f u =
    if is_polled f.state
    then on_rate env rid sjob f (env.rate_reply u.state f.task) u
    else goes_on u

unfoldable pub poll_flows : PollEnv → String → Sjob → List Flow → Sums → Polled
unfolding poll_flow
poll_flows env rid sjob [] u = goes_on u
poll_flows env rid sjob (f ∷ fs) u =
    then_poll (poll_flow env rid sjob f u) (poll_flows env rid sjob fs)

-- The jobs of a raw job; the bytes of a job are counted when all its flows have been polled.
unfoldable pub poll_sjobs : PollEnv → String → List Sjob → Sums → Polled
unfolding poll_flows
poll_sjobs env rid [] u = goes_on u
poll_sjobs env rid (sjob ∷ sjobs) u =
    then_poll (poll_flows env rid sjob sjob.flows (record u { sjob_tx_bytes = pos 0 })) (λ v.
      poll_sjobs env rid sjobs
        (record v { state = on_store (increment_sjob sjob.id v.sjob_tx_bytes) v.state }))

unfoldable pub count_rawjob : Rawjob → Sums → State
unfolding add_txrx
count_rawjob r u =
    let n = u.raw_tx_bytes in
    let s = u.state in
    record s {
      store =
          update_site r.dst_site (λ t. record t { rx_bytes = t.rx_bytes +ℤ n })
            (update_site r.src_site (λ t. record t { tx_bytes = t.tx_bytes +ℤ n })
              (increment_rawjob r.id n s.store));
      site_txrx = add_txrx r.dst_site (pos 0) n (add_txrx r.src_site n (pos 0) s.site_txrx);
    }

abbrev pub end_rawjob : Polled → Rawjob → (State → State) → State
end_rawjob (returns s) r f = s
end_rawjob (goes_on u) r f = f (count_rawjob r u)

unfoldable pub poll_rawjobs : PollEnv → List Rawjob → State → State
unfolding poll_sjobs count_rawjob
poll_rawjobs env [] s = s
poll_rawjobs env (r ∷ rs) s =
    end_rawjob
      (poll_sjobs env r.id (get_sjobs_from_rawjob_id r.id s.store)
        (record { state = s; sjob_tx_bytes = pos 0; raw_tx_bytes = pos 0 }))
      r (poll_rawjobs env rs)

abbrev pub is_transferring : RawjobState → Bool
is_transferring RawjobState.transferring = true
is_transferring _ = false

unfoldable pub poll_rate : PollEnv → State → State
unfolding poll_rawjobs get_rawjobs_from_state
poll_rate env s =
    if env.has_launcher
    then poll_rawjobs env (get_rawjobs_from_state is_transferring s.store) s
    else s
