-- ===== src/Network/Accounts/Giving.antt =====
-- The teardown and the verification of a path, and the requests in them that give a path back.
use bigdataexpress_c.Base.{
  ℕ, suc, String, Bool, true, false, Option, some, ◌∷◌, ◌≡◌, ◌≢◌, refl, str_eq, if◌then◌else◌, ◌⊎◌,
  inl, inr, if_cases, eq_iff, arith, ◌==◌, ◌∙◌, sym, subst,
}
use bigdataexpress_c.Base.Int.{pos, eqb_ℤ}
use bigdataexpress_c.Network.{
  Dtn, Request, wan_release, wan_delete, sends, World, Net, M, get_token, stage_is, state_is,
  PingReply, update_stage, success, pure, ◌>>◌, working, path_verification, SjobStage,
}
use bigdataexpress_c.Network.Accounts
use bigdataexpress_c.Network.Accounts.{created, given_back, is_create, gives_back, Quiet}
use bigdataexpress_c.Network.Wan
use bigdataexpress_c.Network.Setup
use bigdataexpress_c.Network.Teardown
use bigdataexpress_c.Network.Handling

module _ (net : Net) (u : String) where
  -- The first of the requests gives the path back.
  pub given-request :
      (n : ℕ) (r : Request) (w : World)
      → gives_back u (sends r) ≡ true
      → is_create (sends r) ≡ false
      → given_back u (Wan.retry_request net (suc n) r w).1 ≡ true
  unfolding given_back Wan.retry_request
  given-request n r w back calm =
      let after : World = sends r ∷ sends get_token ∷ w in
      (Accounts.cond-Quiet net u (net.status after == 200) (λ x. (true, x))
          (Wan.retry_request net n r) after (Accounts.Quiet-refl net u after)
          (Accounts.retry-IsQuiet net u n r calm after)).kept
        (ground arith)

  pub given-release : (w : World) → given_back u (Wan.release net u Wan.default_retry w).1 ≡ true
  unfolding Wan.release gives_back is_create
  given-release w = given-request 3 (wan_release u) w (ground (arith, eq_iff u u)) refl

  pub given-del : (w : World) → given_back u (Wan.del net u Wan.default_retry w).1 ≡ true
  unfolding Wan.del gives_back is_create
  given-del w = given-request 3 (wan_delete u) w (ground (arith, eq_iff u u)) refl

  pub named-Quiet : (v : String) (w : World) → Quiet net u w (Teardown.teardown_named net v w).1
  unfolding Teardown.teardown_named Wan.release is_create
  named-Quiet v w =
      Accounts.◌then◌ net u (Accounts.two-Quiet net u (state_is _) (stage_is _ _) w refl refl) (
        Accounts.◌then◌ net u (Accounts.retry-IsQuiet net u 4 (wan_release v) refl _)
          (Accounts.after_release-IsQuiet net u v _ _))

  pub given-named : (w : World) → given_back u (Teardown.teardown_named net u w).1 ≡ true
  unfolding Teardown.teardown_named
  given-named w = (Accounts.after_release-IsQuiet net u u _ _).kept (given-release _)

  pub teardown_wan_path-Quiet :
      (v : String) (w : World) → Quiet net u w (Teardown.teardown_wan_path net v w).1
  unfolding Teardown.teardown_wan_path
  teardown_wan_path-Quiet v w =
      Accounts.cond-Quiet net u (str_eq v "") (λ x. (0, x)) (Teardown.teardown_named net v) w
        (Accounts.Quiet-refl net u w) (named-Quiet v w)

  pub given-teardown_wan_path :
      (v : String) (w : World)
      → v ≡ u
      → u ≢ ""
      → given_back u (Teardown.teardown_wan_path net v w).1 ≡ true
  unfolding Teardown.teardown_wan_path
  given-teardown_wan_path v w e named =
      if_cases {A = M ℕ} (λ m. given_back u (m w).1 ≡ true) (str_eq v "") {x = λ x. (0, x)}
        {y = Teardown.teardown_named net v} (λ f. absurd (named (sym e ∙ (eq_iff v "").0 f)))
        (λ _.
          subst (λ x. given_back u (Teardown.teardown_named net x w).1 ≡ true) (sym e)
            (given-named w))

  -- Between two worlds nothing was created, and from P on the path was given back or Q holds.
  pub record Passes (P : Type 0) (w w' : World) (Q : Type 0) : Type 0 where
    pub quiet : Quiet net u w w'
    pub holds : P → (given_back u w' ≡ true) ⊎ Q

  pub pass-then :
      {P Q R : Type 0} {w v x : World} → Passes P w v Q → Passes Q v x R → Passes P w x R
  pass-then p q = record {
    quiet = Accounts.◌then◌ net u p.quiet q.quiet;
    holds = λ h. elim (p.holds h) [ inl g ↦ inl (q.quiet.kept g) | inr k ↦ q.holds k ];
  }

  pub quiet-pass : {P : Type 0} {w v : World} → Quiet net u w v → Passes P w v P
  quiet-pass q = record { quiet = q; holds = λ h. inr h }

  pub give-pass :
      {P Q : Type 0} {w v : World} → Quiet net u w v → (P → given_back u v ≡ true) → Passes P w v Q
  give-pass q g = record { quiet = q; holds = λ h. inl (g h) }

  pub schedule_clean_up-pass :
      {Q : Type 0} (src dst : Dtn) (w : World)
      → u ≢ ""
      → Passes (src.wan_uuid ≡ u) w (Teardown.schedule_clean_up net src dst w).1 Q
  unfolding Teardown.schedule_clean_up is_create
  schedule_clean_up-pass src dst w named =
      pass-then (quiet-pass (Accounts.Quiet-step net u (stage_is _ _) w refl)) (
        pass-then (quiet-pass (Accounts.teardown_sdn_path-IsQuiet net u src dst _)) (
          pass-then
            (give-pass (teardown_wan_path-Quiet src.wan_uuid _)
              (λ e. given-teardown_wan_path src.wan_uuid _ e named))
            (quiet-pass (Accounts.two-Quiet net u (stage_is _ _) (state_is _) _ refl refl))))

  -- The outcome of a flow holds the path.
  abbrev pub Carries : Option (Dtn × Dtn) → Type 0
  Carries o = (d : Dtn × Dtn) × (o ≡ some d) × (d.0.wan_uuid ≡ u)

  pub pass-if :
      {A : Type 0} {P : Type 0} (Q : A → Type 0) (b : Bool) (m k : M A) (w : World)
      → (b ≡ true → Passes P w (m w).1 (Q (m w).0))
      → (b ≡ false → Passes P w (k w).1 (Q (k w).0))
      → Passes P w ((if b then m else k) w).1 (Q ((if b then m else k) w).0)
  pass-if Q true m k w p q = p refl
  pass-if Q false m k w p q = q refl

  pub abandon-pass :
      {Q : Type 0} (d : Dtn × Dtn) (w : World)
      → u ≢ ""
      → Passes (d.0.wan_uuid ≡ u) w (Handling.abandon net d w).1 Q
  unfolding is_create
  abandon-pass d w named =
      pass-then (quiet-pass (Accounts.Quiet-step net u (stage_is _ _) w refl))
        (schedule_clean_up-pass d.0 d.1 _ named)

  pub verified-pass :
      (d : Dtn × Dtn) (reply : PingReply) (w : World)
      → u ≢ ""
      → Passes
          (d.0.wan_uuid ≡ u)
          w
          (Handling.verified net d reply w).1
          (Carries (Handling.verified net d reply w).0)
  unfolding Handling.verified is_create
  verified-pass d reply w named =
      pass-if Carries (eqb_ℤ reply.code (pos 0))
        (update_stage "network.ping" success
          >> update_stage "network.general" success
          >> pure (some d))
        (update_stage "network.ping" SjobStage.error >> Handling.abandon net d) w
        (λ _. record {
          quiet = Accounts.two-Quiet net u (stage_is _ _) (stage_is _ _) w refl refl;
          holds = λ h. inr (d, refl, h);
        })
        (λ _.
          pass-then (quiet-pass (Accounts.Quiet-step net u (stage_is _ _) w refl))
            (abandon-pass d _ named))

  pub verify-pass :
      (d : Dtn × Dtn) (w : World)
      → u ≢ ""
      → Passes
          (d.0.wan_uuid ≡ u)
          w
          (Handling.verify net d w).1
          (Carries (Handling.verify net d w).0)
  unfolding Handling.verify is_create
  verify-pass d w named =
      let v : World = stage_is "network.ping" working ∷ state_is path_verification ∷ w in
      pass-then
        (quiet-pass (
          Accounts.two-Quiet net u (state_is path_verification) (stage_is "network.ping" working) w
            refl refl))
        (pass-then (quiet-pass (Accounts.verify_path-IsQuiet net u d.0 d.1 v)) (
          verified-pass d (Setup.verify_path net d.0 d.1 v).0 (Setup.verify_path net d.0 d.1 v).1
            named))

  pub handled-pass :
      (src dst : Dtn) (h : Handling.Handled) (w : World)
      → u ≢ ""
      → Passes
          (h.wan_uuid ≡ u)
          w
          (Handling.handled net src dst h w).1
          (Carries (Handling.handled net src dst h w).0)
  unfolding Handling.handled
  handled-pass src dst h w named =
      pass-if Carries (eqb_ℤ h.code (pos 0))
        (Handling.verify net (Handling.with_paths net h src dst))
        (Handling.abandon net (Handling.with_paths net h src dst)) w
        (λ _. verify-pass (Handling.with_paths net h src dst) w named)
        (λ _. abandon-pass (Handling.with_paths net h src dst) w named)
