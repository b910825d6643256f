-- ===== src/Network/Pairing.antt =====
-- server/scheduler.cc: `find_best_effort_dtn_pair`, and the part of `schedule` from the query of the
-- sites to the verified path. A site's DTNs and its storage are what its portal answers.
use bigdataexpress_c.Base.{
  ℕ, String, Bool, true, false, Option, none, some, List, [], ◌∷◌, if◌then◌else◌, ◌==◌,
}
use bigdataexpress_c.Network.{
  Dtn, Net, World, M, pure, ◌>>=◌, ◌>>◌, update_stage, update_state, working, success,
}
use bigdataexpress_c.Network as Network
use bigdataexpress_c.Network.Handling

pub record SiteInfo : Type 0 where
  pub url : String
  pub abbrev_name : String

-- The command `get_available_best_effort_dtn` to the portal of a site.
pub record DtnQuery : Type 0 where
  pub url : String
  pub storage : String
  pub remote : String

pub record DtnReply : Type 0 where
  pub status : ℕ
  pub storage : String
  pub private_dtns : List Dtn
  pub public_dtns : List Dtn

-- The answer to the latest of the queries, the first of the list.
abbrev pub Portal : Type 0
Portal = World → List DtnQuery → DtnReply

pub record Pair : Type 0 where
  pub src_dtn : Dtn
  pub dst_dtn : Dtn
  pub src_storage : String
  pub is_private : Bool

-- With a pair the code is 0.
pub data Pairing : Type 0 where
  unpaired : (code : ℕ) (error : String) → Pairing
  paired : Pair → Pairing

abbrev pub first_pair : List Dtn → List Dtn → Option (Dtn × Dtn)
first_pair [] ds = none
first_pair (c ∷ cs) [] = none
first_pair (c ∷ cs) (d ∷ ds) = some (c, d)

abbrev pub at_site : SiteInfo → Dtn → Dtn
at_site info d = record d { site_url = info.url; site_abbrev = info.abbrev_name }

module _ (src_info dst_info : SiteInfo) where
  -- The storage of the destination is written last, over that of the source.
  abbrev pub pair_of : DtnReply → Bool → Dtn × Dtn → Pair
  pair_of r_dst is_private (c, d) = record {
    src_dtn = at_site src_info c;
    dst_dtn = at_site dst_info d;
    src_storage = r_dst.storage;
    is_private = is_private;
  }

  unfoldable pub public_pair : DtnReply → DtnReply → Pairing
  public_pair r_src r_dst = elim (first_pair r_src.public_dtns r_dst.public_dtns) [
    | none ↦ unpaired 201 "unable to find either private or public DTN pairs"
    | some p ↦ paired (pair_of r_dst false p)
  ]

  unfoldable pub choose_pair : DtnReply → DtnReply → Pairing
  unfolding public_pair
  choose_pair r_src r_dst = elim (first_pair r_src.private_dtns r_dst.private_dtns) [
    | none ↦ public_pair r_src r_dst
    | some p ↦ paired (pair_of r_dst true p)
  ]

  -- Both sites are asked before an answer is tested.
  unfoldable pub on_replies : DtnReply → DtnReply → Pairing
  unfolding choose_pair
  on_replies r_src r_dst =
      if r_src.status == 200
      then if r_dst.status == 200
        then choose_pair r_src r_dst
        else unpaired 101 "destination site portal unreachable"
      else unpaired 100 "source site portal unreachable"

  abbrev pub src_query : String → DtnQuery
  src_query storage = record {
    url = src_info.url;
    storage = storage;
    remote = dst_info.abbrev_name;
  }

  abbrev pub dst_query : String → DtnQuery
  dst_query storage = record {
    url = dst_info.url;
    storage = storage;
    remote = src_info.abbrev_name;
  }

  unfoldable pub find_best_effort_dtn_pair : Portal → String → String → M Pairing
  unfolding on_replies
  find_best_effort_dtn_pair portal src_storage dst_storage w =
      let asked = src_query src_storage ∷ [] in
      (on_replies (portal w asked) (portal w (dst_query dst_storage ∷ asked)), w)

-- `schedule_clean_up` where there are no DTNs yet.
abbrev pub clean_up_without_dtns : M (Unit {0})
clean_up_without_dtns = do
  update_stage "teardown.general" working
  update_stage "teardown.general" success
  update_state Network.SjobState.error

unfoldable pub on_pairing : Net → Pairing → M (Option (Dtn × Dtn))
unfolding Handling.connect_flow
on_pairing net (unpaired code error) = do
  update_stage "bootstrap.match" Network.SjobStage.error
  update_stage "bootstrap.general" Network.SjobStage.error
  clean_up_without_dtns
  pure none
on_pairing net (paired p) = do
  update_stage "bootstrap.match" success
  update_stage "bootstrap.general" success
  Handling.connect_flow net p.is_private p.src_dtn p.dst_dtn

-- From the query of the sites to the verified path, or `none` after the clean-up.
unfoldable pub match_flow :
    Net → Portal → SiteInfo → SiteInfo → String → String → M (Option (Dtn × Dtn))
unfolding find_best_effort_dtn_pair on_pairing
match_flow net portal src_info dst_info src_storage dst_storage = do
  update_state Network.SjobState.dtn_matching
  update_stage "bootstrap.query" success
  update_stage "bootstrap.match" working
  p ← find_best_effort_dtn_pair src_info dst_info portal src_storage dst_storage
  on_pairing net p
