-- ===== src/Store/Profile.antt =====
-- The flows that each job of the site store has, the owners of blocks, and the counters, through the updates of the store
-- and an insertion of a flow.
use bigdataexpress_c.Base.{
  String, ◌≡◌, refl, sym, ap, subst, ◌∙◌, Bool, str_eq, List, [], ◌∷◌, ◌++◌, map, All, if_cases,
  if◌then◌else◌, arith,
}
use mathlib.Core.List.{map-append}
use bigdataexpress_c.Network.{SjobState, SjobStage}
use bigdataexpress_c.Store.Laws.{any-update_one}
use bigdataexpress_c.Store.{
  Sjob, Flow, Block, Rawjob, Site, Database, update_one, has_block, has_block_id, has_flow,
  has_task, has_id, insert_flow, update_sjob, update_sjob_state, update_sjob_stage,
  update_sjob_flow, update_sjob_block, update_rawjob, update_site,
}
use bigdataexpress_c.Store.Ledger.{
  Balanced, Owns, Named, Idle, fields-Idle, update_one-Balanced, update_one-Owns, total_tx_same,
}

-- The identifier of a job, and the blocks that its flows carry.
abbrev pub entry : Sjob → String × List String
entry s = (s.id, map (λ f. f.block) s.flows)

unfoldable pub profile : List Sjob → List (String × List String)
profile [] = []
profile (s ∷ ss) = entry s ∷ profile ss

-- The first entry of an identifier, with a flow more.
unfoldable pub bump : String → String → List (String × List String) → List (String × List String)
bump id block [] = []
bump id block (p ∷ ps) =
    let rest = bump id block ps in if str_eq p.0 id then (p.0, p.1 ++ block ∷ []) ∷ ps else p ∷ rest

-- An update that leaves the names of a job and of its blocks, and the blocks of its flows.
pub record Quiet (f : Sjob → Sjob) : Type 0 where
  pub named : (s : Sjob) → Named s (f s)
  pub same_flows : (s : Sjob) → (entry (f s)).1 ≡ (entry s).1

-- No job comes or goes, none has a flow more or less, and a block belongs to the job that it
-- belonged to.
pub record Carried (db db' : Database) : Type 0 where
  pub same_profile : profile db'.sjobs ≡ profile db.sjobs
  pub owns : (block id : String) → Owns block id db.sjobs → Owns block id db'.sjobs

-- And what was balanced is so again.
pub record Kept (db db' : Database) : Type 0 where
  pub carried : Carried db db'
  pub balanced : All Balanced db.sjobs → All Balanced db'.sjobs

pub Carried-refl : (db : Database) → Carried db db
Carried-refl db = record { same_profile = refl; owns = λ block id h. h }

pub Carried-trans : {a b c : Database} → Carried a b → Carried b c → Carried a c
Carried-trans p q = record {
  same_profile = q.same_profile ∙ p.same_profile;
  owns = λ block id h. q.owns block id (p.owns block id h);
}

pub Kept-refl : (db : Database) → Kept db db
Kept-refl db = record { carried = Carried-refl db; balanced = λ h. h }

pub Kept-trans : {a b c : Database} → Kept a b → Kept b c → Kept a c
Kept-trans p q = record {
  carried = Carried-trans p.carried q.carried;
  balanced = λ h. q.balanced (p.balanced h);
}

profile-update_one :
    (p : Sjob → Bool) (f : Sjob → Sjob) (ss : List Sjob)
    → Quiet f
    → profile (update_one p f ss) ≡ profile ss
unfolding profile update_one
profile-update_one p f [] q = refl
profile-update_one p f (s ∷ ss) q =
    if_cases (λ ts. profile ts ≡ entry s ∷ profile ss) (p s)
      (λ _.
        ap (λ x. x ∷ profile ss)
          (ap (λ i. (i, (entry (f s)).1)) (q.named s).same_id
            ∙ ap (λ bs. (s.id, bs)) (q.same_flows s)))
      (λ _. ap (λ ps. entry s ∷ ps) (profile-update_one p f ss q))

module _ (db : Database) (p : Sjob → Bool) (f : Sjob → Sjob) (q : Quiet f) where
  pub update_one-Carried : Carried db (record db { sjobs = update_one p f db.sjobs })
  update_one-Carried = record {
    same_profile = profile-update_one p f db.sjobs q;
    owns = λ block id h. update_one-Owns p f q.named block id db.sjobs h;
  }

  pub update_one-Kept :
      ((s : Sjob) → Idle s (f s)) → Kept db (record db { sjobs = update_one p f db.sjobs })
  update_one-Kept idle = record {
    carried = update_one-Carried;
    balanced = update_one-Balanced p f idle db.sjobs;
  }

blocks-update_one :
    (p : Flow → Bool) (f : Flow → Flow) (fs : List Flow)
    → ((t : Flow) → (f t).block ≡ t.block)
    → map (λ t. t.block) (update_one p f fs) ≡ map (λ t. t.block) fs
unfolding update_one
blocks-update_one p f [] k = refl
blocks-update_one p f (t ∷ fs) k = ground (arith, k t, blocks-update_one p f fs k)

pub in_flow-Quiet :
    (task : String) (f : Flow → Flow)
    → ((t : Flow) → (f t).block ≡ t.block)
    → Quiet (λ s. record s { flows = update_one (has_task task) f s.flows })
in_flow-Quiet task f k = record {
  named = λ s. record { same_id = refl; same_blocks = λ b. refl };
  same_flows = λ s. blocks-update_one (has_task task) f s.flows k;
}

pub in_block-Quiet :
    (own : String) (f : Block → Block)
    → ((b : Block) → (f b).id ≡ b.id)
    → Quiet (λ s. record s { blocks = update_one (has_block_id own) f s.blocks })
in_block-Quiet own f k = record {
  named = λ s. record {
    same_id = refl;
    same_blocks = λ b.
        any-update_one (has_block_id own) (has_block_id b) f s.blocks
          (λ c. ap (λ i. str_eq i b) (k c));
  };
  same_flows = λ s. refl;
}

module _ (db : Database) where
  pub update_sjob-Kept :
      (sid : String) (f : Sjob → Sjob)
      → ((s : Sjob)
          → ((f s).id ≡ s.id)
            × ((f s).blocks ≡ s.blocks)
            × ((f s).tx_bytes ≡ s.tx_bytes)
            × ((f s).flows ≡ s.flows))
      → Kept db (update_sjob sid f db)
  unfolding update_sjob
  update_sjob-Kept sid f h =
      let idle = fields-Idle f (λ s. ((h s).0, (h s).1, (h s).2)) in
      update_one-Kept db (has_id sid) f
        (record { named = λ s. (idle s).named; same_flows = λ s. ap (map (λ t. t.block)) (h s).3 })
        idle

  pub update_sjob_stage-Kept :
      (sid stage : String) (v : SjobStage) → Kept db (update_sjob_stage sid stage v db)
  unfolding update_sjob_stage
  update_sjob_stage-Kept sid stage v = update_sjob-Kept sid _ (λ s. (refl, refl, refl, refl))

  pub update_sjob_state-Kept : (sid : String) (v : SjobState) → Kept db (update_sjob_state sid v db)
  unfolding update_sjob_state
  update_sjob_state-Kept sid v =
      let k = update_sjob-Kept sid (λ s. record s { state = v }) (λ s. (refl, refl, refl, refl)) in
      record {
        carried = record { same_profile = k.carried.same_profile; owns = k.carried.owns };
        balanced = k.balanced;
      }

  pub update_sjob_flow-Kept :
      (task : String) (f : Flow → Flow)
      → ((t : Flow) → (f t).block ≡ t.block)
      → Kept db (update_sjob_flow task f db)
  unfolding update_sjob_flow
  update_sjob_flow-Kept task f k =
      update_one-Kept db (has_flow task) _ (in_flow-Quiet task f k)
        (fields-Idle _ (λ s. (refl, refl, refl)))

  pub update_sjob_block-Kept :
      (own : String) (f : Block → Block)
      → ((b : Block) → ((f b).id ≡ b.id) × ((f b).tx_bytes ≡ b.tx_bytes))
      → Kept db (update_sjob_block own f db)
  unfolding update_sjob_block
  update_sjob_block-Kept own f k =
      let quiet = in_block-Quiet own f (λ b. (k b).0) in
      update_one-Kept db (has_block own) _ quiet (λ s. record {
        named = quiet.named s;
        same_tx = refl;
        same_total = total_tx_same own f (λ c. (k c).1) s.blocks;
      })

  -- An update of another collection.
  other-Kept : (db' : Database) → db'.sjobs ≡ db.sjobs → Kept db db'
  other-Kept db' same = record {
    carried = record {
      same_profile = ap profile same;
      owns = λ block id h. subst (Owns block id) (sym same) h;
    };
    balanced = λ h. subst (All Balanced) (sym same) h;
  }

  pub update_rawjob-Kept : (rid : String) (f : Rawjob → Rawjob) → Kept db (update_rawjob rid f db)
  unfolding update_rawjob
  update_rawjob-Kept rid f = other-Kept (update_rawjob rid f db) refl

  pub update_site-Kept : (site : String) (f : Site → Site) → Kept db (update_site site f db)
  unfolding update_site
  update_site-Kept site f = other-Kept (update_site site f db) refl

insert_profile :
    (id : String) (f : Flow) (ss : List Sjob)
    → profile (update_one (has_id id) (λ s. record s { flows = s.flows ++ f ∷ [] }) ss)
      ≡ bump id f.block (profile ss)
unfolding profile update_one bump
insert_profile id f [] = refl
insert_profile id f (s ∷ ss) =
    ground (arith, insert_profile id f ss, map-append (λ t. t.block) s.flows (f ∷ []))

pub profile-insert_flow :
    (id : String) (f : Flow) (db : Database)
    → profile (insert_flow id f db).sjobs ≡ bump id f.block (profile db.sjobs)
unfolding insert_flow
profile-insert_flow id f db = insert_profile id f db.sjobs

pub insert_flow-Balanced :
    (id : String) (f : Flow) (db : Database)
    → All Balanced db.sjobs
    → All Balanced (insert_flow id f db).sjobs
unfolding insert_flow
insert_flow-Balanced id f db h =
    update_one-Balanced (has_id id) _ (fields-Idle _ (λ s. (refl, refl, refl))) db.sjobs h

pub insert_flow-Owns :
    (id : String) (f : Flow) (db : Database) (block own : String)
    → Owns block own db.sjobs
    → Owns block own (insert_flow id f db).sjobs
unfolding insert_flow
insert_flow-Owns id f db block own h =
    update_one-Owns (has_id id) _ (λ s. record { same_id = refl; same_blocks = λ b. refl }) block
      own db.sjobs h
