-- ===== src/Store/Counting.antt =====
-- The counters of a block and of its job in the site store, counted up together.
use bigdataexpress_c.Base.{
  String, ◌≡◌, refl, sym, ap, ◌∙◌, inl, inr, ◌⊎◌, Bool, true, false, str_eq, List, [], ◌∷◌, All,
  if_cases, arith,
}
use bigdataexpress_c.Base.Int.{ℤ, ◌+ℤ◌, int_laws}
use bigdataexpress_c.Store.{
  Sjob, Flow, Block, Database, any, update_one, has_block, has_block_id, has_id, has_flow, has_task,
  update_sjob, update_sjob_flow, update_sjob_block, increment_sjob_block, increment_sjob,
}
use bigdataexpress_c.Store.Laws.{any-update_one}
use bigdataexpress_c.Store.Ledger.{
  total_tx, Balanced, Owns, Ledger, Named, Idle, update_one-Balanced, update_one-Owns,
}

abbrev more : ℤ → Block → Block
more n b = record b { tx_bytes = b.tx_bytes +ℤ n }

deeper : (a b n : ℤ) → a +ℤ (b +ℤ n) ≡ a +ℤ b +ℤ n
deeper a b n = omega int_laws

shift : (a b n : ℤ) → a +ℤ n +ℤ b ≡ a +ℤ b +ℤ n
shift a b n = omega int_laws

total_tx-more :
    (block : String) (n : ℤ) (bs : List Block)
    → any (has_block_id block) bs ≡ true
    → total_tx (update_one (has_block_id block) (more n) bs) ≡ total_tx bs +ℤ n
unfolding any update_one
total_tx-more block n [] h = absurd (cc)
total_tx-more block n (b ∷ bs) h =
    if_cases (λ cs. total_tx cs ≡ b.tx_bytes +ℤ total_tx bs +ℤ n) (has_block_id block b)
      (λ _. shift b.tx_bytes (total_tx bs) n)
      (λ e.
        ap (λ m. b.tx_bytes +ℤ m) (total_tx-more block n bs (ground (arith, e, h)))
        ∙ deeper b.tx_bytes (total_tx bs) n)

-- The job with the identifier has sent `n` less than its blocks; the others are balanced.
abbrev Ahead : String → ℤ → List Sjob → Type 0
Ahead id n [] = ⊥
Ahead id n (s ∷ ss) =
    ((has_id id s ≡ true) × (s.tx_bytes +ℤ n ≡ total_tx s.blocks) × All Balanced ss)
    ⊎ ((has_id id s ≡ false) × Balanced s × Ahead id n ss)

abbrev count_in_block : String → ℤ → Sjob → Sjob
count_in_block block n s = record s { blocks = update_one (has_block_id block) (more n) s.blocks }

abbrev count_in_job : ℤ → Sjob → Sjob
count_in_job n s = record s { tx_bytes = s.tx_bytes +ℤ n }

module _ (block id : String) (n : ℤ) where
  block-Ahead :
      (ss : List Sjob)
      → All Balanced ss
      → Owns block id ss
      → Ahead id n (update_one (has_block block) (count_in_block block n) ss)
  unfolding update_one
  block-Ahead [] h o = absurd o
  block-Ahead (s ∷ ss) h (inl o) =
      if_cases (Ahead id n) (has_block block s)
        (λ _. inl (o.1, ap (λ m. m +ℤ n) h.0 ∙ sym (total_tx-more block n s.blocks o.0), h.1))
        (λ e. absurd (ground (arith, e, o.0)))
  block-Ahead (s ∷ ss) h (inr o) =
      if_cases (Ahead id n) (has_block block s) (λ e. absurd (ground (arith, e, o.0)))
        (λ _. inr (o.1, h.0, block-Ahead ss h.1 o.2))

  flow-Ahead :
      (p : Sjob → Bool) (f : Sjob → Sjob)
      → ((s : Sjob) → Idle s (f s))
      → (ss : List Sjob) → Ahead id n ss
      → Ahead id n (update_one p f ss)
  unfolding update_one
  flow-Ahead p f idle [] h = absurd h
  flow-Ahead p f idle (s ∷ ss) (inl h) =
      let k = idle s in
      if_cases (Ahead id n) (p s)
        (λ _. inl (
          ap (λ i. str_eq i id) k.named.same_id ∙ h.0,
          ap (λ m. m +ℤ n) k.same_tx ∙ h.1 ∙ sym k.same_total,
          h.2,
        ))
        (λ _. inl (h.0, h.1, update_one-Balanced p f idle ss h.2))
  flow-Ahead p f idle (s ∷ ss) (inr h) =
      let k = idle s in
      if_cases (Ahead id n) (p s)
        (λ _.
          inr
            (ap (λ i. str_eq i id) k.named.same_id ∙ h.0, k.same_tx ∙ h.1 ∙ sym k.same_total, h.2))
        (λ _. inr (h.0, h.1, flow-Ahead p f idle ss h.2))

  job_levels :
      (ss : List Sjob) → Ahead id n ss → All Balanced (update_one (has_id id) (count_in_job n) ss)
  unfolding update_one
  job_levels [] h = absurd h
  job_levels (s ∷ ss) (inl h) =
      if_cases (All Balanced) (has_id id s) (λ _. (h.1, h.2)) (λ e. absurd (ground (arith, e, h.0)))
  job_levels (s ∷ ss) (inr h) =
      if_cases (All Balanced) (has_id id s) (λ e. absurd (ground (arith, e, h.0)))
        (λ _. (h.1, job_levels ss h.2))

count_in_block-Named : (block : String) (n : ℤ) (s : Sjob) → Named s (count_in_block block n s)
count_in_block-Named block n s = record {
  same_id = refl;
  same_blocks =
      λ b. any-update_one (has_block_id block) (has_block_id b) (more n) s.blocks (λ c. refl);
}

in_flow-Idle :
    (task : String) (f : Flow → Flow) (s : Sjob)
    → Idle s (record s { flows = update_one (has_task task) f s.flows })
in_flow-Idle task f s = record {
  named = record { same_id = refl; same_blocks = λ b. refl };
  same_tx = refl;
  same_total = refl;
}

module _ {block id : String} {db : Database} where
  -- The counters of a block, of a flow and of the job that owns them go up together.
  pub increment-Ledger :
      (n : ℤ) (task : String) (f : Flow → Flow)
      → Ledger block id db
      → Ledger block id
          (increment_sjob id n (update_sjob_flow task f (increment_sjob_block block n db)))
  unfolding update_sjob update_sjob_block update_sjob_flow
  increment-Ledger n task f h =
      let in_flow = λ (s : Sjob). record s { flows = update_one (has_task task) f s.flows } in
      let blocks = update_one (has_block block) (count_in_block block n) db.sjobs in
      let flows = update_one (has_flow task) in_flow blocks in
      record {
        balanced = job_levels block id n flows (
            flow-Ahead block id n (has_flow task) in_flow (in_flow-Idle task f) blocks
              (block-Ahead block id n db.sjobs h.balanced h.owns));
        owns =
            update_one-Owns (has_id id) (count_in_job n)
              (λ s. record { same_id = refl; same_blocks = λ b. refl }) block id flows
              (update_one-Owns (has_flow task) in_flow (λ s. (in_flow-Idle task f s).named) block id
                blocks
                (update_one-Owns (has_block block) (count_in_block block n)
                  (count_in_block-Named block n) block id db.sjobs h.owns));
      }
