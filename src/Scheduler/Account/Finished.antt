-- ===== src/Scheduler/Account/Finished.antt =====
-- The counters of `tx_bytes` through a report that a block has finished, and through any report.
use bigdataexpress_c.Base.{String, ◌≡◌, refl, sym, subst, ◌&&◌, Option, none, some, if_cases}
use bigdataexpress_c.Base.Int.{ℤ, pos, ◌-ℤ◌, ltb_ℤ}
use bigdataexpress_c.Network.{SjobState, SjobStage}
use bigdataexpress_c.Store.{
  Database, Sjob, Block, BlockFiles, get_sjob_from_task_id, get_block_files,
}
use bigdataexpress_c.Store.Ledger.{
  fields-Idle, Ledger, update_sjob-Ledger, update_sjob_stage-Ledger, update_sjob_state-Ledger,
  update_sjob_flow-Ledger, update_sjob_block-Ledger, update_rawjob-Ledger, update_site-Ledger,
}
use bigdataexpress_c.Store.Counting.{increment-Ledger}
use bigdataexpress_c.Scheduler.State.{State}
use bigdataexpress_c.Scheduler.Report.{
  Report, started, finished, failed, other, Env, Subject, on_store,
}
use bigdataexpress_c.Scheduler.Finish.{
  increment_tx, count_block, own_block, count, begin_finish, retrogress, reject, has_checksum,
  checking, verify, on_finished,
}
use bigdataexpress_c.Scheduler.Status.{subject_of, report_on, mld_status}
use bigdataexpress_c.Scheduler.Progress.{mld_status_reported}
use bigdataexpress_c.Scheduler.Account.{
  fail-Ledger, on_started-Ledger, on_failed-Ledger, launch-Ledger, accept-Ledger,
}

-- The books of the job and the block that a report is about.
abbrev pub Books : Subject → Database → Type 0
Books j = Ledger j.block j.sjob.id

module _ (env : Env) (j : Subject) where
  increment_tx-Books : (n : ℤ) (db : Database) → Books j db → Books j (increment_tx j n db)
  unfolding increment_tx
  increment_tx-Books n db h =
      update_rawjob-Ledger j.sjob.rawjob _ (increment-Ledger n j.flow.task _ h)

  count_block-Books :
      (b : Block) (s : State) → Books j s.store → Books j (count_block env j b s).store
  unfolding count_block
  count_block-Books b s h = update_site-Ledger j.sjob.dst_site _ (
      update_site-Ledger j.sjob.src_site _ (
        increment_tx-Books (b.size -ℤ b.tx_bytes) _
          (update_sjob_block-Ledger j.block _ (λ c. (refl, refl)) h)))

  count-Books : (s : State) → Books j s.store → Books j (count env j s).store
  unfolding count
  count-Books s h =
      elim (own_block j)
        as (λ o.
          Books j (elim o as (λ _. State) [ none ↦ s | some b ↦ count_block env j b s ]).store) [
            | none ↦ h
            | some b ↦ count_block-Books b s h
          ]

  retrogress-Books : (db : Database) → Books j db → Books j (retrogress j db)
  unfolding retrogress
  retrogress-Books db h =
      elim (own_block j)
        as (λ o. Books j (elim o as (λ _. Database) [
          | none ↦ db
          | some b ↦ increment_tx j (pos 0 -ℤ b.size) db
        ])) [ none ↦ h | some b ↦ increment_tx-Books (pos 0 -ℤ b.size) db h ]

  reject-Books :
      (files : Option BlockFiles) (s : State)
      → Books j s.store
      → Books j (reject env j files s).store
  unfolding reject
  reject-Books files s h =
      let counted = update_sjob-Ledger j.sjob.id _ (fields-Idle _ (λ s. (refl, refl, refl))) (
        retrogress-Books _
          (update_sjob_stage-Ledger j.sjob.id "transfer.checksum" SjobStage.error h)) in
      if_cases (λ (t : State). Books j t.store) (ltb_ℤ j.sjob.transfer_retry (pos 2))
        (λ _. launch-Ledger env j _ _ _ (record s { store = _ }) counted)
        (λ _. fail-Ledger env _ j (record s { store = _ }) counted)

  verify-Books :
      (files : Option BlockFiles) (s : State)
      → Books j s.store
      → Books j (verify env j files s).store
  unfolding verify
  verify-Books files s h =
      let begun : Books j (checking j s).store =
        update_sjob_stage-Ledger j.sjob.id "transfer.checksum" SjobStage.working
          (update_sjob_state-Ledger j.sjob.id SjobState.checksum_verification h) in
      if_cases (λ (t : State). Books j t.store) (env.verify_checksum (checking j s))
        (λ _.
          accept-Ledger env j (record (checking j s) { store = _ })
            (update_sjob_stage-Ledger j.sjob.id "transfer.checksum" SjobStage.success begun))
        (λ _. reject-Books files (checking j s) begun)

  begin_finish-Books : (db : Database) → Books j db → Books j (begin_finish j db)
  unfolding begin_finish
  begin_finish-Books db h =
      update_sjob_flow-Ledger j.flow.task _
        (update_sjob_stage-Ledger j.sjob.id _ _ (update_sjob_stage-Ledger j.sjob.id _ _ h))

  on_finished-Books : (s : State) → Books j s.store → Books j (on_finished env j s).store
  unfolding on_finished
  on_finished-Books s h =
      let begun = on_store (begin_finish j) s in
      let counted = count env j begun in
      let books = count-Books begun (begin_finish-Books s.store h) in
      if_cases (λ (t : State). Books j t.store)
        (env.ld_checksum && has_checksum (get_block_files j.block counted.store))
        (λ _. verify-Books (get_block_files j.block counted.store) counted books)
        (λ _. accept-Ledger env j counted books)

  report_on-Books : (r : Report) (s : State) → Books j s.store → Books j (report_on env r j s).store
  unfolding report_on
  report_on-Books started s h = on_started-Ledger env j s h
  report_on-Books (failed ec) s h = on_failed-Ledger env ec j s h
  report_on-Books finished s h = on_finished-Books s h
  report_on-Books other s h = h

-- Where every job has sent what its blocks have sent, and the block of a report belongs to its job,
-- this is so again after the report, of whatever kind: the retries and the errors included.
pub mld_status-Ledger :
    (env : Env) (task : String) (r : Report) (s : State) (sjob : Sjob) (j : Subject)
    → get_sjob_from_task_id task s.store ≡ some sjob
    → subject_of task sjob ≡ some j
    → Ledger j.block j.sjob.id s.store
    → Ledger j.block j.sjob.id (mld_status env task r s).store
mld_status-Ledger env task r s sjob j is_found is_subject h =
    subst (λ t. Books j t.store) (sym (mld_status_reported env task r s sjob j is_found is_subject))
      (report_on-Books env j r s h)
