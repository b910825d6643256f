-- ===== src/Scheduler/Next.antt =====
-- The search of `mld_status` for the next block of a job.
use bigdataexpress_c.Base.{
  String, ◌≡◌, ◌≢◌, refl, ap, ◌⊎◌, inl, inr, List, [], ◌∷◌, ◌++◌, All, str_eq, eq_iff, if_cases,
  arith,
}
use bigdataexpress_c.Store.{Block, BlockState}
use bigdataexpress_c.Scheduler.Finish.{
  Next, all_finished, all_assigned, found, assigned, by_state, next_block,
}

-- A block that needs no more: the one that has just arrived, or one that arrived before.
abbrev pub Arrived : String → Block → Type 0
Arrived id b = (b.id ≡ id) ⊎ (b.state ≡ BlockState.finished)

-- A block that is not to be launched.
abbrev pub Busy : String → Block → Type 0
Busy id b = Arrived id b ⊎ (b.state ≡ BlockState.transferring)

-- A block that is on its way, after some others.
pub record Moving (id : String) (bs : List Block) : Type 0 where
  pub before : List Block
  pub block : Block
  pub behind : List Block
  pub place : bs ≡ before ++ block ∷ behind
  pub not_own : block.id ≢ id
  pub moving : block.state ≡ BlockState.transferring

-- The first block that waits.
pub record FirstWaiting (id : String) (bs : List Block) (b : Block) : Type 0 where
  pub before : List Block
  pub behind : List Block
  pub place : bs ≡ before ++ b ∷ behind
  pub busy : All (Busy id) before
  pub not_own : b.id ≢ id
  pub waits : b.state ≡ BlockState.waiting

abbrev pub Describes : String → List Block → Next → Type 0
Describes id bs all_finished = All (Arrived id) bs
Describes id bs all_assigned = All (Busy id) bs × Moving id bs
Describes id bs (found b) = FirstWaiting id bs b

busy_all : (id : String) (bs : List Block) → All (Arrived id) bs → All (Busy id) bs
busy_all id [] h = tt
busy_all id (b ∷ bs) h = (inl h.0, busy_all id bs h.1)

Moving-cons : (id : String) (b : Block) (bs : List Block) → Moving id bs → Moving id (b ∷ bs)
Moving-cons id b bs m = record {
  before = b ∷ m.before;
  block = m.block;
  behind = m.behind;
  place = ap (λ cs. b ∷ cs) m.place;
  not_own = m.not_own;
  moving = m.moving;
}

-- A block that is passed over.
passed-Describes :
    (id : String) (b : Block) (bs : List Block) (n : Next)
    → Arrived id b
    → Describes id bs n
    → Describes id (b ∷ bs) n
passed-Describes id b bs all_finished a d = (a, d)
passed-Describes id b bs all_assigned a d = ((inl a, d.0), Moving-cons id b bs d.1)
passed-Describes id b bs (found c) a d = record {
  before = b ∷ d.before;
  behind = d.behind;
  place = ap (λ cs. b ∷ cs) d.place;
  busy = (inl a, d.busy);
  not_own = d.not_own;
  waits = d.waits;
}

moving-Describes :
    (id : String) (b : Block) (bs : List Block) (n : Next)
    → b.id ≢ id
    → b.state ≡ BlockState.transferring
    → Describes id bs n
    → Describes id (b ∷ bs) (assigned n)
moving-Describes id b bs all_finished o m d = (
  (inr m, busy_all id bs d),
  record { before = []; block = b; behind = bs; place = refl; not_own = o; moving = m },
)
moving-Describes id b bs all_assigned o m d = ((inr m, d.0), Moving-cons id b bs d.1)
moving-Describes id b bs (found c) o m d = record {
  before = b ∷ d.before;
  behind = d.behind;
  place = ap (λ cs. b ∷ cs) d.place;
  busy = (inr m, d.busy);
  not_own = d.not_own;
  waits = d.waits;
}

by_state-Describes :
    (id : String) (b : Block) (bs : List Block) (n : Next) (st : BlockState)
    → b.state ≡ st
    → b.id ≢ id
    → Describes id bs n
    → Describes id (b ∷ bs) (by_state st b n)
by_state-Describes id b bs n BlockState.finished e o d = passed-Describes id b bs n (inr e) d
by_state-Describes id b bs n BlockState.transferring e o d = moving-Describes id b bs n o e d
by_state-Describes id b bs n BlockState.waiting e o d = record {
  before = [];
  behind = bs;
  place = refl;
  busy = tt;
  not_own = o;
  waits = e;
}

-- The search says that all blocks but the own one have finished only where they have; that all are
-- assigned only where none waits and one is on its way; and it finds the first that waits.
pub next_block-Describes : (id : String) (bs : List Block) → Describes id bs (next_block id bs)
unfolding next_block
next_block-Describes id [] = tt
next_block-Describes id (b ∷ bs) =
    let n = next_block id bs in
    let d = next_block-Describes id bs in
    if_cases (Describes id (b ∷ bs)) (str_eq b.id id)
      (λ e. passed-Describes id b bs n (inl (ground (arith, e, eq_iff b.id id))) d)
      (λ e. by_state-Describes id b bs n b.state refl (ground (arith, e, eq_iff b.id id)) d)
