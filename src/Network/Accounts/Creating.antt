-- ===== src/Network/Accounts/Creating.antt =====
-- The creation of a WAN path and what follows it: an id that is answered is handed on, or the path is
-- given back.
use bigdataexpress_c.Base.{
  ℕ, String, Bool, true, false, Option, none, List, [], ◌∷◌, ◌≡◌, ◌≢◌, refl, str_eq, ◌⊎◌, inl, inr,
  eq_iff, arith, ◌∙◌, sym,
}
use bigdataexpress_c.Base.Int.{ℤ, pos}
use bigdataexpress_c.Network.{
  Label, Dtn, Query, maximum_bandwidth, extract_result_values, other_query, wan_create, wan_reserve,
  wan_commit, wan_delete, sends, World, Net, get_token, pure, ◌>>=◌,
}
use bigdataexpress_c.Network.Accounts
use bigdataexpress_c.Network.Accounts.Giving
use bigdataexpress_c.Network.Accounts.{created, given_back, is_create, gives_back, Quiet}
use bigdataexpress_c.Network.Wan
use bigdataexpress_c.Network.Setup

read_vlans-uuid :
    (a b : String) (vs : List (String × Option ℤ)) (res : Wan.WanCreated)
    → (Wan.read_vlans a b res vs).uuid ≡ res.uuid
unfolding Wan.read_vlans Wan.read_vlan
read_vlans-uuid a b [] res = refl
read_vlans-uuid a b ((port, vlan) ∷ vs) res = read_vlans-uuid a b vs _ ∙ ground arith

module _ (net : Net) (u : String) where
  read_queries-uuid :
      (a b : String) (qs : List Query) (res : Wan.WanCreated)
      → (Wan.read_queries a b res qs).uuid ≡ res.uuid
  unfolding Wan.read_queries Wan.read_query
  read_queries-uuid a b [] res = refl
  read_queries-uuid a b (maximum_bandwidth bw ∷ qs) res = read_queries-uuid a b qs _
  read_queries-uuid a b (extract_result_values vs ∷ qs) res =
      read_queries-uuid a b qs _ ∙ read_vlans-uuid a b vs res
  read_queries-uuid a b (other_query ∷ qs) res = read_queries-uuid a b qs _

  -- A path that was not there before was given back, or P says who holds it.
  pub record Accounted (w w' : World) (P : Type 0) : Type 0 where
    pub account : created net u w' ≡ true → (created net u w ≡ true) ⊎ (given_back u w' ≡ true) ⊎ P

  pub accounted-pass :
      {P Q : Type 0} {w v x : World}
      → Accounted w v P
      → Giving.Passes net u P v x Q
      → Accounted w x Q
  accounted-pass a p = record {
    account = λ c. elim (a.account (sym p.quiet.same ∙ c)) [
      | inl before ↦ inl before
      | inr (inl back) ↦ inr (inl (p.quiet.kept back))
      | inr (inr h) ↦ inr (p.holds h)
    ];
  }

  pub quiet-accounted :
      {P : Type 0} {w v x : World} → Quiet net u w v → Accounted v x P → Accounted w x P
  quiet-accounted q a = record {
    account = λ c. elim (a.account c) [ inl before ↦ inl (sym q.same ∙ before) | inr r ↦ inr r ];
  }

  create-accounted :
      (a b : String) (c d : Label) (w : World)
      → Accounted w (Wan.create net a b c d w).1 ((Wan.create net a b c d w).0.uuid ≡ u)
  unfolding Wan.create created is_create
  create-accounted a b c d w =
      let v : World = sends (wan_create a b c d) ∷ sends get_token ∷ w in
      record {
        account = λ h. ground (
          arith,
          h,
          eq_iff (net.create_reply v).service_uuid u,
          read_queries-uuid a b (net.create_reply v).queries (record {
            uuid = (net.create_reply v).service_uuid;
            src_vlan = pos 0;
            dst_vlan = pos 0;
            max_bw = pos 0;
          }),
        );
      }

  give_up-pass :
      {Q : Type 0} (cres : Wan.WanCreated) (code : ℕ) (text : String) (w : World)
      → Giving.Passes net u (cres.uuid ≡ u) w (Setup.give_up net cres code text w).1 Q
  unfolding Setup.give_up Wan.del is_create gives_back
  give_up-pass cres code text w =
      Giving.give-pass net u (Accounts.retry-IsQuiet net u 4 (wan_delete cres.uuid) refl w) (λ e.
        Giving.given-request net u 3 (wan_delete cres.uuid) w (ground (arith, e, eq_iff u u)) refl)

  abbrev pub SetUp : Setup.WanPath → Type 0
  SetUp r = (r.code ≡ pos 0) × (r.wan_uuid ≡ u)

  after_commit-pass :
      (cres : Wan.WanCreated) (b : Bool) (w : World)
      → Giving.Passes net u
          (cres.uuid ≡ u)
          w
          (Setup.after_commit net cres b w).1
          (SetUp (Setup.after_commit net cres b w).0)
  unfolding Setup.after_commit
  after_commit-pass cres true w = record {
    quiet = Accounts.Quiet-refl net u w;
    holds = λ h. inr (refl, h);
  }
  after_commit-pass cres false w = give_up-pass cres 302 "WAN path commit faiure" w

  after_reserve-pass :
      (cres : Wan.WanCreated) (b : Bool) (w : World)
      → Giving.Passes net u
          (cres.uuid ≡ u)
          w
          (Setup.after_reserve net cres b w).1
          (SetUp (Setup.after_reserve net cres b w).0)
  unfolding Setup.after_reserve Wan.commit is_create
  after_reserve-pass cres true w =
      Giving.pass-then net u
        (Giving.quiet-pass net u
          (Accounts.two-Quiet net u (sends get_token) (sends (wan_commit cres.uuid)) w refl refl))
        (after_commit-pass cres _ _)
  after_reserve-pass cres false w = give_up-pass cres 301 "WAN path reservation faiure" w

  after_create-pass :
      (a b : String) (cres : Wan.WanCreated) (w : World)
      → u ≢ ""
      → Giving.Passes net u
          (cres.uuid ≡ u)
          w
          (Setup.after_create net a b cres w).1
          (SetUp (Setup.after_create net a b cres w).0)
  unfolding Setup.after_create Wan.reserve is_create
  after_create-pass a b cres w named =
      Giving.pass-if net u SetUp (str_eq cres.uuid "")
        (pure (Setup.wan_failure 300 "WAN path creation failure" none))
        (Wan.reserve net cres.uuid a b cres.src_vlan cres.dst_vlan >>= Setup.after_reserve net cres)
        w
        (λ e. record {
          quiet = Accounts.Quiet-refl net u w;
          holds = λ h. absurd (named (sym h ∙ (eq_iff cres.uuid "").0 e));
        })
        (λ _.
          Giving.pass-then net u
            (Giving.quiet-pass net u (
              Accounts.two-Quiet net u (sends get_token)
                (sends (
                  wan_reserve cres.uuid a b (Wan.vlan_label cres.src_vlan)
                    (Wan.vlan_label cres.dst_vlan)))
                w refl refl))
            (after_reserve-pass cres _ _))

  pub setup_wan_path-accounted :
      (src dst : Dtn) (a b : Label) (w : World)
      → u ≢ ""
      → Accounted w
          (Setup.setup_wan_path net src dst a b w).1
          (SetUp (Setup.setup_wan_path net src dst a b w).0)
  unfolding Setup.setup_wan_path
  setup_wan_path-accounted src dst a b w named =
      accounted-pass (create-accounted (Setup.stp_name src.stp) (Setup.stp_name dst.stp) a b w) (
        after_create-pass (Setup.stp_name src.stp) (Setup.stp_name dst.stp)
          (Wan.create net (Setup.stp_name src.stp) (Setup.stp_name dst.stp) a b w).0 _ named)
