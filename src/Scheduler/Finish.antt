-- ===== src/Scheduler/Finish.antt =====
-- `mld_status` of server/scheduler.cc, its report that a block has finished: the bytes are counted,
-- the checksums verified, and another block is launched on the flow or the path is torn down.
use bigdataexpress_c.Base.{
  String, Bool, true, false, ◌&&◌, not, Option, none, some, List, [], ◌∷◌, ◌++◌, str_eq,
  if◌then◌else◌,
}
use bigdataexpress_c.Base.Int.{ℤ, pos, ◌+ℤ◌, ◌-ℤ◌, ltb_ℤ}
use bigdataexpress_c.Base.Keyed.{is_some}
use bigdataexpress_c.Network.{SjobState, SjobStage}
use bigdataexpress_c.Store.{
  Database, Block, BlockState, BlockFiles, FlowState, RawjobState, message, any, find_one,
  has_block_id, get_sjobs_from_rawjob_id, get_block_files, update_sjob, update_sjob_state,
  update_sjob_stage, update_sjob_flow, update_sjob_block, update_site, update_sjob_flow_state,
  update_sjob_block_state, update_rawjob_state, increment_sjob_block, increment_sjob_flow,
  increment_sjob, increment_rawjob,
}
use bigdataexpress_c.Scheduler.State.{State, add_txrx}
use bigdataexpress_c.Scheduler.Report.{Env, Subject, on_store, teardown, fail}

-- `tx_bytes` of the block, the flow, the job and the raw job.
unfoldable pub increment_tx : Subject → ℤ → Database → Database
increment_tx j n db = increment_rawjob j.sjob.rawjob n (
    increment_sjob j.sjob.id n
      (increment_sjob_flow j.flow.task n (increment_sjob_block j.block n db)))

-- The bytes of the block that poll has not counted, and its average rate.
unfoldable pub count_block : Env → Subject → Block → State → State
unfolding increment_tx add_txrx
count_block env j b s =
    let elapsed = env.epoch_ms s -ℤ b.start in
    let n = b.size -ℤ b.tx_bytes in
    record s {
      store =
          update_site j.sjob.dst_site (λ t. record t { rx_bytes = t.rx_bytes +ℤ n })
            (update_site j.sjob.src_site (λ t. record t { tx_bytes = t.tx_bytes +ℤ n })
              (increment_tx j n (
                update_sjob_block j.block (λ c. record c { avg_rate = some (b.size, elapsed) })
                  s.store)));
      site_txrx =
          add_txrx j.sjob.dst_site (pos 0) n (add_txrx j.sjob.src_site n (pos 0) s.site_txrx);
    }

-- The block of the report, among those of the job.
unfoldable pub own_block : Subject → Option Block
unfolding find_one
own_block j = find_one (has_block_id j.block) j.sjob.blocks

unfoldable pub count : Env → Subject → State → State
unfolding own_block count_block
count env j s = elim (own_block j) [ none ↦ s | some b ↦ count_block env j b s ]

unfoldable pub begin_finish : Subject → Database → Database
begin_finish j db = update_sjob_flow_state j.flow.task FlowState.waiting (
    update_sjob_stage j.sjob.id "transfer.transfer" SjobStage.success
      (update_sjob_stage j.sjob.id "transfer.launch" SjobStage.success db))

-- What the loop over the blocks finds.
pub data Next : Type 0 where
  all_finished all_assigned : Next
  found : Block → Next

abbrev pub assigned : Next → Next
assigned all_finished = all_assigned
assigned all_assigned = all_assigned
assigned (found b) = found b

abbrev pub by_state : BlockState → Block → Next → Next
by_state BlockState.finished b rest = rest
by_state BlockState.transferring b rest = assigned rest
by_state BlockState.waiting b rest = found b

unfoldable pub next_block : String → List Block → Next
next_block id [] = all_finished
next_block id (b ∷ bs) =
    let rest = next_block id bs in if str_eq b.id id then rest else by_state b.state b rest

-- A block is launched on the flow; `fresh` if it is not the one that has just been sent.
unfoldable pub launch : Env → Subject → Bool → String → Option BlockFiles → State → State
unfolding fail
launch env j fresh block files s =
    let prepared =
      on_store
        (λ db.
          let db' =
            update_sjob_stage j.sjob.id "transfer.transfer" SjobStage.pending
              (update_sjob_stage j.sjob.id "transfer.launch" SjobStage.working db) in
          if env.ld_checksum && fresh
          then update_sjob_stage j.sjob.id "transfer.checksum" SjobStage.pending db'
          else db')
        s in
    if env.has_launcher
    then on_store
        (λ db. update_rawjob_state j.sjob.rawjob RawjobState.transferring (
          update_sjob_flow_state j.flow.task FlowState.setting (
            update_sjob_flow j.flow.task (λ f. record f { block = block })
              (update_sjob_block_state block BlockState.transferring
                (update_sjob_state j.sjob.id SjobState.launching db)))))
        (record prepared {
          launched = prepared.launched ++ record { task = j.flow.task; block_files = files } ∷ [];
        })
    else fail env (message "launcher agent not avaialbe, job failed") j
        (on_store (update_sjob_stage j.sjob.id "transfer.launch" SjobStage.error) prepared)

abbrev pub is_finished : SjobState → Bool
is_finished SjobState.finished = true
is_finished _ = false

unfoldable pub finish_sjob : Subject → Database → Database
unfolding any
finish_sjob j db =
    let db' = update_sjob_state j.sjob.id SjobState.finished db in
    if any (λ s. not (is_finished s.state)) (get_sjobs_from_rawjob_id j.sjob.rawjob db')
    then db'
    else update_rawjob_state j.sjob.rawjob RawjobState.finished db'

unfoldable pub after_next : Env → Subject → Next → State → State
unfolding teardown finish_sjob launch
after_next env j (found b) s = launch env j true b.id (get_block_files b.id s.store) s
after_next env j all_finished s = on_store (finish_sjob j) (
    teardown env j (
      on_store
        (λ db.
          update_sjob_stage j.sjob.id "transfer.general" SjobStage.success
            (update_sjob_flow_state j.flow.task FlowState.waiting_to_be_teared db))
        s))
after_next env j all_assigned s =
    let torn =
      teardown env j
        (on_store (update_sjob_flow_state j.flow.task FlowState.waiting_to_be_teared) s) in
    if ltb_ℤ j.sjob.max_flows env.max_concurrent_flows_per_job
    then on_store
        (update_sjob j.sjob.id (λ q. record q { max_flows = env.max_concurrent_flows_per_job }))
        torn
    else torn

-- The block has arrived.
unfoldable pub accept : Env → Subject → State → State
unfolding next_block after_next
accept env j s =
    let now = env.epoch_ms s in
    after_next env j (next_block j.block j.sjob.blocks) (
      on_store
        (λ db.
          update_sjob_block j.block (λ b. record b { end = some now })
            (update_sjob_block_state j.block BlockState.finished db))
        s)

unfoldable pub retrogress : Subject → Database → Database
unfolding own_block increment_tx
retrogress j db = elim (own_block j) [ none ↦ db | some b ↦ increment_tx j (pos 0 -ℤ b.size) db ]

-- The block has arrived with other checksums. The count of retries is read from before the update.
unfoldable pub reject : Env → Subject → Option BlockFiles → State → State
unfolding fail launch retrogress
reject env j files s =
    let counted =
      on_store
        (λ db.
          update_sjob j.sjob.id (λ q. record q { transfer_retry = q.transfer_retry +ℤ pos 1 })
            (retrogress j (update_sjob_stage j.sjob.id "transfer.checksum" SjobStage.error db)))
        s in
    if ltb_ℤ j.sjob.transfer_retry (pos 2)
    then launch env j false j.block files counted
    else fail env (message "exceed maximum transfer retry, job failed") j counted

abbrev pub has_checksum : Option BlockFiles → Bool
has_checksum none = false
has_checksum (some files) = is_some files.checksum

abbrev pub checking : Subject → State → State
checking j = on_store (λ db.
    update_sjob_stage j.sjob.id "transfer.checksum" SjobStage.working
      (update_sjob_state j.sjob.id SjobState.checksum_verification db))

unfoldable pub verify : Env → Subject → Option BlockFiles → State → State
unfolding accept reject
verify env j files s =
    if env.verify_checksum (checking j s)
    then accept env j (
        on_store (update_sjob_stage j.sjob.id "transfer.checksum" SjobStage.success) (checking j s))
    else reject env j files (checking j s)

unfoldable pub on_finished : Env → Subject → State → State
unfolding begin_finish count accept verify
on_finished env j s =
    let counted = count env j (on_store (begin_finish j) s) in
    let files = get_block_files j.block counted.store in
    if env.ld_checksum && has_checksum files
    then verify env j files counted
    else accept env j counted
