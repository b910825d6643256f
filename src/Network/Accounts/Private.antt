-- ===== src/Network/Accounts/Private.antt =====
-- For which pairs of DTNs `schedule` has the WAN service create a path.
use bigdataexpress_c.Base.{
  ℕ, String, Bool, true, false, Option, none, some, [], ◌∷◌, ◌≡◌, ◌≢◌, refl, ◌∙◌, sym, ◌⊎◌, inl,
  inr, if_cases, arith, ◌==◌,
}
use bigdataexpress_c.Network.{
  Dtn, World, Net, stage_is, state_is, success, pending, working, SjobStage, SjobState,
}
use bigdataexpress_c.Network.Accounts
use bigdataexpress_c.Network.Accounts.Giving
use bigdataexpress_c.Network.Accounts.{created, is_create, Quiet, ◌then◌}
use bigdataexpress_c.Network.Handling
use bigdataexpress_c.Network.Pairing.{
  SiteInfo, DtnReply, Portal, Pairing, unpaired, paired, first_pair, pair_of, public_pair,
  choose_pair, on_replies, src_query, dst_query, find_best_effort_dtn_pair, on_pairing, match_flow,
}

-- Both portals are reached, and both sites have a private DTN.
abbrev pub BothPrivate : DtnReply → DtnReply → Type 0
BothPrivate r_src r_dst =
    (r_src.status ≡ 200)
    × (r_dst.status ≡ 200)
    × ((p : Dtn × Dtn) × (first_pair r_src.private_dtns r_dst.private_dtns ≡ some p))

reached : (status : ℕ) → (status == 200) ≡ true → status ≡ 200
reached status e = ground arith

-- A pair that is said to be private is one.
abbrev Honest : DtnReply → DtnReply → Pairing → Type 0
Honest r_src r_dst (unpaired code error) = Unit
Honest r_src r_dst (paired p) = p.is_private ≡ true → BothPrivate r_src r_dst

module _ (src_info dst_info : SiteInfo) (r_src r_dst : DtnReply) where
  public_pair-Honest :
      (found : Option (Dtn × Dtn))
      → Honest r_src r_dst (elim found [
        | none ↦ unpaired 201 "unable to find either private or public DTN pairs"
        | some p ↦ paired (pair_of src_info dst_info r_dst false p)
      ])
  public_pair-Honest none = tt
  public_pair-Honest (some p) = λ e. ground arith

  module _ (s : r_src.status ≡ 200) (d : r_dst.status ≡ 200) where
    private_pair-Honest :
        (found : Option (Dtn × Dtn))
        → first_pair r_src.private_dtns r_dst.private_dtns ≡ found
        → Honest r_src r_dst (elim found [
          | none ↦ public_pair src_info dst_info r_src r_dst
          | some p ↦ paired (pair_of src_info dst_info r_dst true p)
        ])
    unfolding public_pair
    private_pair-Honest none e = public_pair-Honest (first_pair r_src.public_dtns r_dst.public_dtns)
    private_pair-Honest (some p) e = λ yes. (s, d, (p, e))

    choose_pair-Honest : Honest r_src r_dst (choose_pair src_info dst_info r_src r_dst)
    unfolding choose_pair
    choose_pair-Honest = private_pair-Honest (first_pair r_src.private_dtns r_dst.private_dtns) refl

  on_replies-Honest : Honest r_src r_dst (on_replies src_info dst_info r_src r_dst)
  unfolding on_replies
  on_replies-Honest =
      if_cases (Honest r_src r_dst) (r_src.status == 200)
        (λ s.
          if_cases (Honest r_src r_dst) (r_dst.status == 200)
            (λ d. choose_pair-Honest (reached r_src.status s) (reached r_dst.status d)) (λ _. tt))
        (λ _. tt)

-- The answers of the two portals, after the first writes to the store.
abbrev pub replies : Portal → SiteInfo → SiteInfo → String → String → World → DtnReply × DtnReply
replies portal src_info dst_info src_storage dst_storage w =
    let asked = src_query src_info dst_info src_storage ∷ [] in
    let v : World =
      stage_is "bootstrap.match" working
      ∷ stage_is "bootstrap.query" success
      ∷ state_is SjobState.dtn_matching
      ∷ w in
    (portal v asked, portal v (dst_query src_info dst_info dst_storage ∷ asked))

module _ (net : Net) (u : String) (named : u ≢ "") where
  infixr 5 ◌and◌
  ◌and◌ : {w v x : World} → Quiet net u w v → Quiet net u v x → Quiet net u w x
  p and q = ◌then◌ net u p q

  -- Nothing is created for a public pair.
  public-Quiet :
      (src dst : Dtn) (w : World) → Quiet net u w (Handling.connect_flow net false src dst w).1
  unfolding Handling.connect_flow is_create
  public-Quiet src dst w =
      Accounts.two-Quiet net u (stage_is "network.general" working)
        (stage_is "network.planning" success) w refl refl
      and Accounts.two-Quiet net u (stage_is "network.public" success)
          (stage_is "teardown.public" pending) _ refl refl
      and (Giving.verify-pass net u (Handling.with_paths net (Handling.public_paths net) src dst) _
          named).quiet

  connect-created :
      {P : Type 0} (is_private : Bool) (src dst : Dtn) (w : World)
      → (is_private ≡ true → P)
      → created net u (Handling.connect_flow net is_private src dst w).1 ≡ true
      → (created net u w ≡ true) ⊎ P
  connect-created true src dst w h c = inr (h refl)
  connect-created false src dst w h c = inl (sym (public-Quiet src dst w).same ∙ c)

  on_pairing-created :
      (r_src r_dst : DtnReply) (q : Pairing) (w : World)
      → Honest r_src r_dst q
      → created net u (on_pairing net q w).1 ≡ true
      → (created net u w ≡ true) ⊎ BothPrivate r_src r_dst
  unfolding on_pairing is_create
  on_pairing-created r_src r_dst (unpaired code error) w h c = inl (
      sym
        (Accounts.two-Quiet net u (stage_is "bootstrap.match" SjobStage.error)
            (stage_is "bootstrap.general" SjobStage.error) w refl refl
          and Accounts.two-Quiet net u (stage_is "teardown.general" working)
              (stage_is "teardown.general" success) _ refl refl
          and Accounts.Quiet-step net u (state_is SjobState.error) _ refl).same
      ∙ c)
  on_pairing-created r_src r_dst (paired p) w h c =
      elim (connect-created p.is_private p.src_dtn p.dst_dtn _ h c) [
        | inl before ↦ inl (
            sym
              (Accounts.two-Quiet net u (stage_is "bootstrap.match" success)
                (stage_is "bootstrap.general" success) w refl refl).same
            ∙ before)
        | inr both ↦ inr both
      ]

-- From the query of the sites to the verified path, a path of the WAN service with a nonempty id
-- is created only where the portals of both sites answer with the status 200 and each lists a
-- private DTN. This holds for every behaviour of the sites and of the service.
pub created_for_private :
    (net : Net) (portal : Portal) (u : String) (src_info dst_info : SiteInfo)
    (src_storage dst_storage : String) (w : World)
    → u ≢ ""
    → created net u (match_flow net portal src_info dst_info src_storage dst_storage w).1 ≡ true
    → (created net u w ≡ true)
      ⊎ BothPrivate
          (replies portal src_info dst_info src_storage dst_storage w).0
          (replies portal src_info dst_info src_storage dst_storage w).1
unfolding match_flow find_best_effort_dtn_pair is_create
created_for_private net portal u src_info dst_info src_storage dst_storage w named c =
    let r = replies portal src_info dst_info src_storage dst_storage w in
    elim (on_pairing-created net u named r.0 r.1 (on_replies src_info dst_info r.0 r.1) _
      (on_replies-Honest src_info dst_info r.0 r.1) c) [
        | inl before ↦ inl (
            sym
              (Accounts.two-Quiet net u (state_is SjobState.dtn_matching)
                (stage_is "bootstrap.query" success) w refl refl).same
            ∙ (sym (Accounts.Quiet-step net u (stage_is "bootstrap.match" working) _ refl).same
                ∙ before))
        | inr both ↦ inr both
      ]
