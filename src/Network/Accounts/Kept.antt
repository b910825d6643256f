-- ===== src/Network/Accounts/Kept.antt =====
-- The WAN paths that a flow has the service create: who holds their ids, and what gives them back.
use bigdataexpress_c.Base.{
  String, Bool, true, false, some, ◌∷◌, ◌≡◌, ◌≢◌, refl, ◌⊎◌, inl, inr, arith, ◌∙◌, sym,
}
use bigdataexpress_c.Base.Int.{ℤ, pos, eqb_ℤ}
use bigdataexpress_c.Network.{
  Dtn, World, Net, stage_is, state_is, update_stage, success, pending, pure, ◌>>◌, working,
  wan_setup, SjobStage,
}
use bigdataexpress_c.Network.Accounts
use bigdataexpress_c.Network.Accounts.Giving
use bigdataexpress_c.Network.Accounts.{created, given_back, is_create, gives_back, Quiet}
use bigdataexpress_c.Network.Accounts.Creating.{
  Accounted, accounted-pass, quiet-accounted, setup_wan_path-accounted,
}
use bigdataexpress_c.Network.Setup
use bigdataexpress_c.Network.Handling

zero_code : (c : ℤ) → eqb_ℤ c (pos 0) ≡ false → ¬ (c ≡ pos 0)
zero_code c e h = ground arith

module _ (net : Net) (u : String) where
  handle_sdn-pass :
      (src dst : Dtn) (uuid : String) (bw a b : ℤ) (w : World)
      → Giving.Passes net u
          (uuid ≡ u)
          w
          (Handling.handle_sdn net src dst uuid bw a b w).1
          ((Handling.handle_sdn net src dst uuid bw a b w).0.wan_uuid ≡ u)
  unfolding Handling.handle_sdn is_create
  handle_sdn-pass src dst uuid bw a b w =
      Giving.pass-then net u
        (Giving.quiet-pass net u (Accounts.Quiet-step net u (state_is _) w refl))
        (Giving.quiet-pass net u (Accounts.setup_sdn_path-IsQuiet net u src dst bw false a b _))

  plan_stages-Quiet :
      (name : String) (s : SjobStage) (src dst : Dtn) (w : World)
      → Quiet net u w (Handling.plan_stages net name s src dst w).1
  unfolding is_create
  plan_stages-Quiet name s src dst w =
      Accounts.◌then◌ net u
        (Accounts.two-Quiet net u (stage_is "network.planning" success) (stage_is name s) w refl
          refl)
        (Accounts.◌then◌ net u (Accounts.Quiet-step net u (stage_is "network.ping" pending) _ refl)
          (Accounts.◌then◌ net u
            (Accounts.stage_if-IsQuiet net u src.sdn_setup "network.lan_src" pending _)
            (Accounts.stage_if-IsQuiet net u dst.sdn_setup "network.lan_dst" pending _)))

  handle_wan-pass :
      (src dst : Dtn) (wan : Setup.WanPath) (w : World)
      → Giving.Passes net u
          ((wan.code ≡ pos 0) × (wan.wan_uuid ≡ u))
          w
          (Handling.handle_wan net src dst wan w).1
          ((Handling.handle_wan net src dst wan w).0.wan_uuid ≡ u)
  unfolding Handling.handle_wan is_create
  handle_wan-pass src dst wan w =
      Giving.pass-if net u (λ (h : Handling.Handled). h.wan_uuid ≡ u) (eqb_ℤ wan.code (pos 0))
        (update_stage "network.wan_dynamic" success
          >> update_stage "teardown.wan_dynamic" pending
          >> Handling.handle_sdn net src dst wan.wan_uuid (pos 10000)
              (Handling.vlans net wan.created).0 (Handling.vlans net wan.created).1)
        (update_stage "network.wan_dynamic" SjobStage.error
          >> pure (Handling.handling_failure wan.code wan.error))
        w
        (λ _.
          Giving.pass-then net u
            (record {
              quiet = Accounts.two-Quiet net u (stage_is _ _) (stage_is _ _) w refl refl;
              holds = λ h. inr h.1;
            })
            (handle_sdn-pass src dst wan.wan_uuid (pos 10000) _ _ _))
        (λ e. record {
          quiet = Accounts.Quiet-step net u (stage_is _ _) w refl;
          holds = λ h. absurd (zero_code wan.code e h.0);
        })

  unchanged : {P : Type 0} {w w' : World} → Quiet net u w w' → Accounted net u w w' P
  unchanged q = record { account = λ c. inl (sym q.same ∙ c) }

  handle_choice-accounted :
      (src dst : Dtn) (c : Handling.Choice) (w : World)
      → u ≢ ""
      → Accounted net u w
          (Handling.handle_choice net src dst c w).1
          ((Handling.handle_choice net src dst c w).0.wan_uuid ≡ u)
  unfolding Handling.handle_choice is_create
  handle_choice-accounted src dst (Handling.static_path p) w named =
      quiet-accounted net u (plan_stages-Quiet "network.wan_static" success src dst w) (
        unchanged (handle_sdn-pass src dst "" p.bandwidth p.local_vlan_id p.remote_vlan_id _).quiet)
  handle_choice-accounted src dst (Handling.dynamic_path a b) w named =
      quiet-accounted net u (Accounts.Quiet-step net u (state_is wan_setup) w refl) (
        quiet-accounted net u (plan_stages-Quiet "network.wan_dynamic" working src dst _) (
          accounted-pass net u (setup_wan_path-accounted net u src dst a b _ named) (
            handle_wan-pass src dst
              (Setup.setup_wan_path net src dst a b
                (Handling.plan_stages net "network.wan_dynamic" working src dst
                  (state_is wan_setup ∷ w)).1).0
              _)))
  handle_choice-accounted src dst Handling.no_path w named =
      unchanged (Accounts.Quiet-step net u (stage_is "network.planning" SjobStage.error) w refl)

  connect_flow-accounted :
      (private : Bool) (src dst : Dtn) (w : World)
      → u ≢ ""
      → Accounted net u w
          (Handling.connect_flow net private src dst w).1
          ((Giving.Carries net u) (Handling.connect_flow net private src dst w).0)
  unfolding Handling.connect_flow Handling.network_handling is_create
  connect_flow-accounted true src dst w named =
      quiet-accounted net u
        (Accounts.two-Quiet net u (stage_is "network.general" working)
          (stage_is "network.planning" working) w refl refl)
        (accounted-pass net u (handle_choice-accounted src dst _ _ named) (
          Giving.handled-pass net u src dst
            (Handling.network_handling net src dst
              (stage_is "network.planning" working ∷ stage_is "network.general" working ∷ w)).0
            _ named))
  connect_flow-accounted false src dst w named =
      quiet-accounted net u
        (Accounts.two-Quiet net u (stage_is "network.general" working)
          (stage_is "network.planning" success) w refl refl)
        (quiet-accounted net u
          (Accounts.two-Quiet net u (stage_is "network.public" success)
            (stage_is "teardown.public" pending) _ refl refl)
          (unchanged (
            (Giving.verify-pass net u (Handling.with_paths net (Handling.public_paths net) src dst)
              _ named).quiet)))

-- From the chosen pair of DTNs to the verified path, no path of the WAN service is lost: a path
-- with a nonempty id that the service has answered to a creation by the end was answered before
-- the start, or its release or deletion has been requested, or the DTNs that are handed on carry
-- its id. This holds for every behaviour of the sites and of the service.
pub no_path_is_lost :
    (net : Net) (u : String) (private : Bool) (src dst : Dtn) (w : World)
    → u ≢ ""
    → created net u (Handling.connect_flow net private src dst w).1 ≡ true
    → (created net u w ≡ true)
      ⊎ (given_back u (Handling.connect_flow net private src dst w).1 ≡ true)
      ⊎ ((d : Dtn × Dtn) × ((Handling.connect_flow net private src dst w).0 ≡ some d)
          × (d.0.wan_uuid ≡ u))
no_path_is_lost net u private src dst w named =
    (connect_flow-accounted net u private src dst w named).account
