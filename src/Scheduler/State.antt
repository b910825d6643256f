-- ===== src/Scheduler/State.antt =====
-- What the scheduler keeps while transfers run: the site store, the traffic with the network, the
-- traffic of the sites, and what it has asked the launcher to do.
use bigdataexpress_c.Base.{String, Option, List, [], ◌∷◌, ◌++◌, ◌&&◌, ◌==◌, if◌then◌else◌}
use bigdataexpress_c.Base.Int.{ℤ, pos, ◌+ℤ◌}
use bigdataexpress_c.Base.Keyed.{Keyed, emplace, update}
use bigdataexpress_c.Network.{
  Dtn, Net, World, Event, sends, stage_is, state_is, M, ◌>>=◌, ◌>>◌, update_stage, working,
  SjobStage,
}
use bigdataexpress_c.Network.Teardown.{teardown_sdn_path, teardown_wan_path}
use bigdataexpress_c.Store.{Database, BlockFiles, update_sjob_state, update_sjob_stage}

-- A command to the launcher: the flow's, with the files and the mode of a block.
pub record Launch : Type 0 where
  pub task : String
  pub block_files : Option BlockFiles

pub record State : Type 0 where
  pub store : Database
  pub world : World
  pub site_txrx : Keyed (ℤ × ℤ)
  pub launched : List Launch

-- The answers of the network after what has happened.
abbrev pub after : World → Net → Net
after w net = record {
  create_reply = λ v. net.create_reply (v ++ w);
  status = λ v. net.status (v ++ w);
  sdn_reply = λ v. net.sdn_reply (v ++ w);
  ping_reply = λ v. net.ping_reply (v ++ w);
}

-- What the network code writes to the store for a job.
unfoldable pub apply_event : String → Event → Database → Database
apply_event sid (sends r) db = db
apply_event sid (stage_is stage v) db = update_sjob_stage sid stage v db
apply_event sid (state_is v) db = update_sjob_state sid v db

unfoldable pub apply_events : String → World → Database → Database
unfolding apply_event
apply_events sid [] db = db
apply_events sid (e ∷ w) db = apply_event sid e (apply_events sid w db)

-- A run of the network code for a job.
unfoldable pub run_network : Net → String → (Net → M (Unit {0})) → State → State
unfolding apply_events
run_network net sid m s =
    let (done, new) = m (after s.world net) [] in
    record s { store = apply_events sid new s.store; world = new ++ s.world }

-- The function `teardown` of `mld_status`.
unfoldable pub teardown_flow : Dtn → Dtn → Net → M (Unit {0})
unfolding teardown_sdn_path teardown_wan_path
teardown_flow src dst net = do
  update_stage "teardown.general" working
  res_sdn ← teardown_sdn_path net src dst
  res_wan ← teardown_wan_path net src.wan_uuid
  update_stage "teardown.general"
      (if res_sdn == 0 && res_wan == 0 then SjobStage.success else SjobStage.error)

-- `site_txrx[id]`: a missing entry is made, with zeros.
unfoldable pub add_txrx : String → ℤ → ℤ → Keyed (ℤ × ℤ) → Keyed (ℤ × ℤ)
add_txrx id tx rx m = update id (λ (a, b). (a +ℤ tx, b +ℤ rx)) (emplace id (pos 0, pos 0) m)
