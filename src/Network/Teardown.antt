-- ===== src/Network/Teardown.antt =====
-- server/scheduler.cc, the way back: `teardown_sdn_path`, `teardown_wan_path` and
-- `schedule_clean_up`. The texts of errors that go to the store are not modelled.
use bigdataexpress_c.Base.{ℕ, String, Bool, true, false, str_eq, if◌then◌else◌, ◌==◌}
use bigdataexpress_c.Base.Int.{negsuc, eqb_ℤ}
use bigdataexpress_c.Network.{
  Dtn, Net, M, pure, ◌>>=◌, ◌>>◌, ask, update_stage, update_stage_if, update_state, working,
  success, SjobStage, sdn_release, sdn_teardown, wan_teardown,
}
use bigdataexpress_c.Network as Network
use bigdataexpress_c.Network.Wan

module _ (net : Net) where
  -- The release at one site; the answer is only logged.
  unfoldable pub release_site : String → Dtn → Dtn → M (Unit {0})
  release_site stage here there = if eqb_ℤ here.path_id (negsuc 0) then pure tt else do
    update_stage_if here.sdn_setup stage working
    _ ← ask net.sdn_reply (sdn_release here.site_url here.path_id here.id there.data_ip)
    update_stage_if here.sdn_setup stage success

  unfoldable pub teardown_sdn_path : Dtn → Dtn → M ℕ
  unfolding release_site
  teardown_sdn_path src dst = do
    update_state sdn_teardown
    release_site "teardown.lan_src" src dst
    release_site "teardown.lan_dst" dst src
    pure 0

  abbrev wan_error : ℕ → M ℕ
  wan_error code = update_stage "teardown.wan_dynamic" Network.SjobStage.error >> pure code

  unfoldable pub after_delete : Bool → M ℕ
  after_delete true = update_stage "teardown.wan_dynamic" success >> pure 0
  after_delete false = wan_error 3

  unfoldable pub after_terminate : String → Bool → M ℕ
  unfolding after_delete Wan.del
  after_terminate uuid true = Wan.del net uuid Wan.default_retry >>= after_delete
  after_terminate uuid false = wan_error 2

  unfoldable pub after_release : String → Bool → M ℕ
  unfolding after_terminate Wan.terminate
  after_release uuid true = Wan.terminate net uuid Wan.default_retry >>= after_terminate uuid
  after_release uuid false = wan_error 1

  unfoldable pub teardown_named : String → M ℕ
  unfolding Wan.release after_release
  teardown_named uuid = do
    update_state wan_teardown
    update_stage "teardown.wan_dynamic" working
    released ← Wan.release net uuid Wan.default_retry
    after_release uuid released

  -- There is nothing to do for an empty id.
  unfoldable pub teardown_wan_path : String → M ℕ
  unfolding teardown_named
  teardown_wan_path uuid = if str_eq uuid "" then pure 0 else teardown_named uuid

  -- For two DTNs that were chosen. The code of the SDN part is always 0.
  unfoldable pub schedule_clean_up : Dtn → Dtn → M (Unit {0})
  unfolding teardown_sdn_path teardown_wan_path
  schedule_clean_up src dst = do
    update_stage "teardown.general" working
    res_sdn ← teardown_sdn_path src dst
    res_wan ← teardown_wan_path src.wan_uuid
    update_stage "teardown.general" (
        if res_sdn == 0
        then if res_wan == 0 then success else Network.SjobStage.error
        else Network.SjobStage.error)
    update_state Network.SjobState.error
