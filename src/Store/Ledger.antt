-- ===== src/Store/Ledger.antt =====
-- The counters `tx_bytes` of a job and of its blocks, and the updates of the site store.
use bigdataexpress_c.Base.{
  String, ◌≡◌, refl, sym, ap, ◌∙◌, ◌⊎◌, inl, inr, Bool, true, false, str_eq, List, [], ◌∷◌, All,
  if_cases,
}
use bigdataexpress_c.Base.Int.{ℤ, pos, ◌+ℤ◌}
use bigdataexpress_c.Network.{SjobState, SjobStage}
use bigdataexpress_c.Store.Laws.{any-update_one}
use bigdataexpress_c.Store.{
  Sjob, Flow, Block, Rawjob, Site, Database, any, update_one, has_block, has_block_id, has_flow,
  has_id, update_sjob, update_sjob_state, update_sjob_stage, update_sjob_flow, update_sjob_block,
  update_rawjob, update_site,
}

abbrev pub total_tx : List Block → ℤ
total_tx [] = pos 0
total_tx (b ∷ bs) = b.tx_bytes +ℤ total_tx bs

-- A job has sent what its blocks have sent.
abbrev pub Balanced : Sjob → Type 0
Balanced s = s.tx_bytes ≡ total_tx s.blocks

-- The first job with the block is the first with the identifier.
abbrev pub Owns : String → String → List Sjob → Type 0
Owns block id [] = ⊥
Owns block id (s ∷ ss) =
    ((has_block block s ≡ true) × (has_id id s ≡ true))
    ⊎ ((has_block block s ≡ false) × (has_id id s ≡ false) × Owns block id ss)

-- Every job is balanced, and the block belongs to the job.
pub record Ledger (block id : String) (db : Database) : Type 0 where
  pub balanced : All Balanced db.sjobs
  pub owns : Owns block id db.sjobs

-- An update of a job that changes neither its name nor those of its blocks.
pub record Named (s t : Sjob) : Type 0 where
  pub same_id : t.id ≡ s.id
  pub same_blocks : (block : String) → has_block block t ≡ has_block block s

-- One that does not change either what it and its blocks have sent.
pub record Idle (s t : Sjob) : Type 0 where
  pub named : Named s t
  pub same_tx : t.tx_bytes ≡ s.tx_bytes
  pub same_total : total_tx t.blocks ≡ total_tx s.blocks

-- A change of a job's fields that are no counters.
pub fields-Idle :
    (f : Sjob → Sjob)
    → ((s : Sjob) → ((f s).id ≡ s.id) × ((f s).blocks ≡ s.blocks) × ((f s).tx_bytes ≡ s.tx_bytes))
    → (s : Sjob) → Idle s (f s)
fields-Idle f h s = record {
  named = record {
    same_id = (h s).0;
    same_blocks = λ block. ap (any (has_block_id block)) (h s).1;
  };
  same_tx = (h s).2;
  same_total = ap total_tx (h s).1;
}

pub update_one-Balanced :
    (p : Sjob → Bool) (f : Sjob → Sjob)
    → ((s : Sjob) → Idle s (f s))
    → (ss : List Sjob) → All Balanced ss
    → All Balanced (update_one p f ss)
unfolding update_one
update_one-Balanced p f idle [] h = tt
update_one-Balanced p f idle (s ∷ ss) h =
    if_cases (All Balanced) (p s) (λ _. ((idle s).same_tx ∙ h.0 ∙ sym (idle s).same_total, h.1))
      (λ _. (h.0, update_one-Balanced p f idle ss h.1))

module _ (p : Sjob → Bool) (f : Sjob → Sjob) (named : (s : Sjob) → Named s (f s)) where
  pub update_one-Owns :
      (block id : String) (ss : List Sjob) → Owns block id ss → Owns block id (update_one p f ss)
  unfolding update_one
  update_one-Owns block id [] h = absurd h
  update_one-Owns block id (s ∷ ss) (inl h) =
      if_cases (Owns block id) (p s)
        (λ _.
          inl ((named s).same_blocks block ∙ h.0, ap (λ i. str_eq i id) (named s).same_id ∙ h.1))
        (λ _. inl h)
  update_one-Owns block id (s ∷ ss) (inr h) =
      if_cases (Owns block id) (p s)
        (λ _.
          inr
            ((named s).same_blocks block ∙ h.0, ap (λ i. str_eq i id) (named s).same_id ∙ h.1, h.2))
        (λ _. inr (h.0, h.1, update_one-Owns block id ss h.2))

pub total_tx_same :
    (own : String) (f : Block → Block)
    → ((b : Block) → (f b).tx_bytes ≡ b.tx_bytes)
    → (bs : List Block) → total_tx (update_one (has_block_id own) f bs) ≡ total_tx bs
unfolding update_one
total_tx_same own f k [] = refl
total_tx_same own f k (b ∷ bs) =
    if_cases (λ cs. total_tx cs ≡ b.tx_bytes +ℤ total_tx bs) (has_block_id own b)
      (λ _. ap (λ n. n +ℤ total_tx bs) (k b))
      (λ _. ap (λ n. b.tx_bytes +ℤ n) (total_tx_same own f k bs))

module _ {block id : String} {db : Database} where
  sjobs-Ledger :
      (p : Sjob → Bool) (f : Sjob → Sjob)
      → ((s : Sjob) → Idle s (f s))
      → Ledger block id db
      → Ledger block id (record db { sjobs = update_one p f db.sjobs })
  sjobs-Ledger p f idle h = record {
    balanced = update_one-Balanced p f idle db.sjobs h.balanced;
    owns = update_one-Owns p f (λ s. (idle s).named) block id db.sjobs h.owns;
  }

  pub update_sjob-Ledger :
      (sid : String) (f : Sjob → Sjob)
      → ((s : Sjob) → Idle s (f s))
      → Ledger block id db
      → Ledger block id (update_sjob sid f db)
  unfolding update_sjob
  update_sjob-Ledger sid f idle h = sjobs-Ledger (has_id sid) f idle h

  pub update_sjob_stage-Ledger :
      (sid stage : String) (v : SjobStage)
      → Ledger block id db
      → Ledger block id (update_sjob_stage sid stage v db)
  unfolding update_sjob_stage
  update_sjob_stage-Ledger sid stage v h =
      update_sjob-Ledger sid _
        (λ s. record {
          named = record { same_id = refl; same_blocks = λ b. refl };
          same_tx = refl;
          same_total = refl;
        })
        h

  pub update_sjob_state-Ledger :
      (sid : String) (v : SjobState)
      → Ledger block id db
      → Ledger block id (update_sjob_state sid v db)
  unfolding update_sjob_state
  update_sjob_state-Ledger sid v h =
      let moved =
        update_sjob-Ledger sid (λ s. record s { state = v })
          (λ s. record {
            named = record { same_id = refl; same_blocks = λ b. refl };
            same_tx = refl;
            same_total = refl;
          })
          h in
      record { balanced = moved.balanced; owns = moved.owns }

  pub update_sjob_flow-Ledger :
      (task : String) (f : Flow → Flow)
      → Ledger block id db
      → Ledger block id (update_sjob_flow task f db)
  unfolding update_sjob_flow
  update_sjob_flow-Ledger task f h =
      sjobs-Ledger (has_flow task) _
        (λ s. record {
          named = record { same_id = refl; same_blocks = λ b. refl };
          same_tx = refl;
          same_total = refl;
        })
        h

  pub update_sjob_block-Ledger :
      (own : String) (f : Block → Block)
      → ((b : Block) → ((f b).id ≡ b.id) × ((f b).tx_bytes ≡ b.tx_bytes))
      → Ledger block id db
      → Ledger block id (update_sjob_block own f db)
  unfolding update_sjob_block
  update_sjob_block-Ledger own f k h =
      sjobs-Ledger (has_block own) _
        (λ s. record {
          named = record {
            same_id = refl;
            same_blocks = λ b.
                any-update_one (has_block_id own) (has_block_id b) f s.blocks
                  (λ c. ap (λ i. str_eq i b) (k c).0);
          };
          same_tx = refl;
          same_total = total_tx_same own f (λ c. (k c).1) s.blocks;
        })
        h

  pub update_rawjob-Ledger :
      (rid : String) (f : Rawjob → Rawjob)
      → Ledger block id db
      → Ledger block id (update_rawjob rid f db)
  unfolding update_rawjob
  update_rawjob-Ledger rid f h = record { balanced = h.balanced; owns = h.owns }

  pub update_site-Ledger :
      (site : String) (f : Site → Site)
      → Ledger block id db
      → Ledger block id (update_site site f db)
  unfolding update_site
  update_site-Ledger site f h = record { balanced = h.balanced; owns = h.owns }
