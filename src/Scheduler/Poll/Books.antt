-- ===== src/Scheduler/Poll/Books.antt =====
-- The counters of `tx_bytes` through `poll_rate`, for a job with one flow: no job has more of them
-- at a time (`max_concurrent_flows_per_job`).
use bigdataexpress_c.Base.{String, ◌≡◌, refl, sym, ap, subst, ◌∙◌, List, [], ◌∷◌, if_cases}
use bigdataexpress_c.Base.Int.{ℤ, pos, ◌+ℤ◌, ◌-ℤ◌, ltb_ℤ, eqb_ℤ, int_laws}
use bigdataexpress_c.Network.{SjobState}
use bigdataexpress_c.Store.{Database, Sjob, Flow, JobError, increment_sjob}
use bigdataexpress_c.Store.Ledger.{
  fields-Idle, Ledger, update_sjob-Ledger, update_sjob_state-Ledger, update_sjob_flow-Ledger,
  update_sjob_block-Ledger, update_rawjob-Ledger,
}
use bigdataexpress_c.Store.Counting.{increment-Ledger}
use bigdataexpress_c.Scheduler.State.{State}
use bigdataexpress_c.Scheduler.Report.{on_store}
use bigdataexpress_c.Scheduler.Account.{run_network-Ledger}
use bigdataexpress_c.Scheduler.Poll.{
  RateReply, timed_out, answered, PollEnv, Sums, Polled, returns, goes_on, then_poll, release_paths,
  drop_flow, jobs_fail, unknown_task, inactive, last_tx_bytes, active, is_polled, on_rate,
  poll_flow, poll_flows, poll_sjobs,
}
use bigdataexpress_c.Scheduler.Poll.Laws.{Whatever}

pub add_nothing : (n : ℤ) → n +ℤ pos 0 ≡ n
add_nothing n = omega int_laws

nothing_add : (n : ℤ) → pos 0 +ℤ n ≡ n
nothing_add n = omega int_laws

module _ {block id : String} where
  drop_flow-Ledger :
      (f : Flow) (db : Database) → Ledger block id db → Ledger block id (drop_flow f db)
  unfolding drop_flow
  drop_flow-Ledger f db h =
      update_sjob_block-Ledger f.block _ (λ b. (refl, refl)) (update_sjob_flow-Ledger f.task _ h)

  jobs_fail-Ledger :
      (err : JobError) (sid rid : String) (db : Database)
      → Ledger block id db
      → Ledger block id (jobs_fail err sid rid db)
  unfolding jobs_fail
  jobs_fail-Ledger err sid rid db h = update_rawjob-Ledger rid _ (
      update_rawjob-Ledger rid _ (
        update_sjob-Ledger sid _ (fields-Idle _ (λ s. (refl, refl, refl)))
          (update_sjob_state-Ledger sid SjobState.error h)))

  unknown_task-Ledger :
      (env : PollEnv) (rid : String) (sjob : Sjob) (f : Flow) (s : State)
      → Ledger block id s.store
      → Ledger block id (unknown_task env rid sjob f s).store
  unfolding unknown_task
  unknown_task-Ledger env rid sjob f s h = jobs_fail-Ledger _ sjob.id rid _ (
      drop_flow-Ledger f _
        (run_network-Ledger env.net sjob.id (release_paths f.src_dtn f.dst_dtn) s h))

  inactive-Ledger :
      (env : PollEnv) (rid : String) (sjob : Sjob) (f : Flow) (s : State)
      → Ledger block id s.store
      → Ledger block id (inactive env rid sjob f s).store
  unfolding inactive
  inactive-Ledger env rid sjob f s h = jobs_fail-Ledger _ sjob.id rid _ (
      run_network-Ledger env.net sjob.id (release_paths f.src_dtn f.dst_dtn)
        (on_store (drop_flow f) s) (drop_flow-Ledger f s.store h))

module _ (env : PollEnv) (rid : String) (sjob : Sjob) (f : Flow) where
  abbrev pub Books : Database → Type 0
  Books = Ledger f.block sjob.id

  -- The block and the flow are counted first, then the job.
  active-Ledger :
      (n : ℤ) (s : State)
      → Books s.store
      → Books (increment_sjob sjob.id n (active env rid sjob f n s).store)
  unfolding active
  active-Ledger n s h =
      increment-Ledger n f.task (λ g. record g { tx_bytes = g.tx_bytes +ℤ n })
        (if_cases (λ (t : State). Books t.store) (ltb_ℤ (pos 0) n)
          (λ _. update_sjob_flow-Ledger f.task _ h)
          (λ _.
            if_cases (λ (t : State). Books t.store)
              (ltb_ℤ env.inactive_timeout_ms (env.epoch_ms s -ℤ f.last_active))
              (λ _. inactive-Ledger env rid sjob f s h) (λ _. h)))

  nothing-Ledger : (db : Database) → Books db → Books (increment_sjob sjob.id (pos 0) db)
  nothing-Ledger db h =
      update_sjob-Ledger sjob.id _
        (λ s. record {
          named = record { same_id = refl; same_blocks = λ b. refl };
          same_tx = add_nothing s.tx_bytes;
          same_total = refl;
        })
        h

  -- The books once the sum of the job has been counted.
  abbrev pub Closes : Polled → Type 0
  Closes (returns s) = Books s.store
  Closes (goes_on u) = Books (increment_sjob sjob.id u.sjob_tx_bytes u.state.store)

  module _ (u : Sums) (none_yet : u.sjob_tx_bytes ≡ pos 0) (h : Books u.state.store) where
    idle-Closes : Closes (goes_on u)
    idle-Closes =
        subst (λ n. Books (increment_sjob sjob.id n u.state.store)) (sym none_yet)
          (nothing-Ledger u.state.store h)

    on_rate-Closes : (v : RateReply) → Closes (on_rate env rid sjob f v u)
    unfolding on_rate
    on_rate-Closes timed_out = idle-Closes
    on_rate-Closes (answered code transferred) =
        let n = transferred -ℤ last_tx_bytes f.block sjob.blocks in
        if_cases Closes (eqb_ℤ code (pos 1)) (λ _. unknown_task-Ledger env rid sjob f u.state h)
          (λ _.
            if_cases Closes (eqb_ℤ code (pos 0))
              (λ _.
                subst
                  (λ m. Books (increment_sjob sjob.id m (active env rid sjob f n u.state).store))
                  (sym (ap (λ m. m +ℤ n) none_yet ∙ nothing_add n)) (active-Ledger n u.state h))
              (λ _. idle-Closes))

    pub poll_flow-Closes : Closes (poll_flow env rid sjob f u)
    unfolding poll_flow
    poll_flow-Closes =
        if_cases Closes (is_polled f.state) (λ _. on_rate-Closes (env.rate_reply u.state f.task))
          (λ _. idle-Closes)

  then_poll-Whatever :
      (p : Polled)
      → Closes p
      → Whatever
          (λ s. Books s.store)
          (then_poll (then_poll p (poll_flows env rid sjob [])) (λ v.
            poll_sjobs env rid []
              (record v { state = on_store (increment_sjob sjob.id v.sjob_tx_bytes) v.state })))
  unfolding poll_flows poll_sjobs
  then_poll-Whatever (returns s) h = h
  then_poll-Whatever (goes_on u) h = h

-- For a job whose only flow sends a block of its own, while every job has sent what its blocks have
-- sent, this is so again after the job has been polled, whatever the launcher answers.
pub poll_sjobs-Ledger :
    (env : PollEnv) (rid : String) (sjob : Sjob) (f : Flow) (u : Sums)
    → sjob.flows ≡ f ∷ []
    → Ledger f.block sjob.id u.state.store
    → Whatever (λ s. Ledger f.block sjob.id s.store) (poll_sjobs env rid (sjob ∷ []) u)
unfolding poll_sjobs poll_flows
poll_sjobs-Ledger env rid sjob f u one h =
    let v = record u { sjob_tx_bytes = pos 0 } in
    let after = λ (fs : List Flow).
      Whatever (λ s. Ledger f.block sjob.id s.store)
        (then_poll (poll_flows env rid sjob fs v) (λ w.
          poll_sjobs env rid []
            (record w { state = on_store (increment_sjob sjob.id w.sjob_tx_bytes) w.state }))) in
    subst after (sym one) (
      then_poll-Whatever env rid sjob f (poll_flow env rid sjob f v)
        (poll_flow-Closes env rid sjob f v refl h))
