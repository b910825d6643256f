-- ===== src/Store/Laws.antt =====
-- Jobs are found by a task and by an identifier; what the updates of the site store leave of that.
use bigdataexpress_c.Base.{
  String, ◌≡◌, refl, ◌∙◌, ap, subst, ◌⊎◌, inl, inr, Bool, true, false, str_eq, some, List, [], ◌∷◌,
  arith, if_cases, All,
}
use bigdataexpress_c.Network.{SjobState, SjobStage}
use bigdataexpress_c.Store.{
  Sjob, Flow, Block, Database, JobError, any, find_one, find_all, update_one, has_task, has_flow,
  has_block, has_id, update_sjob, update_sjob_state, update_sjob_stage, update_sjob_flow,
  update_sjob_block, get_sjob_from_task_id,
}

pub any-update_one :
    {A : Type 0} (p q : A → Bool) (f : A → A) (xs : List A)
    → ((x : A) → q (f x) ≡ q x)
    → any q (update_one p f xs) ≡ any q xs
unfolding any update_one
any-update_one p q f [] h = refl
any-update_one p q f (x ∷ xs) h = ground (arith, h x, any-update_one p q f xs h)

pub All-find_all :
    (P : Sjob → Type 0) (p : Sjob → Bool) (js : List Sjob) → All P js → All P (find_all p js)
unfolding find_all
All-find_all P p [] h = tt
All-find_all P p (j ∷ js) h =
    if_cases (All P) (p j) (λ _. (h.0, All-find_all P p js h.1)) (λ _. All-find_all P p js h.1)

pub found-All :
    {A : Type 0} (P : A → Type 0) (p : A → Bool) (x : A) (xs : List A)
    → find_one p xs ≡ some x
    → All P xs
    → P x
unfolding find_one
found-All P p x [] e h = absurd (ground (arith, e))
found-All P p x (y ∷ xs) e h =
    if_cases (λ o. o ≡ some x → P x) (p y) (λ _ same. subst P (ground (arith, same)) h.0)
      (λ _ rest. found-All P p x xs rest h.1) e

-- The first job with a flow of the task is the first with the identifier.
abbrev pub FirstBoth : String → String → List Sjob → Type 0
FirstBoth task id [] = ⊥
FirstBoth task id (s ∷ ss) =
    ((has_flow task s ≡ true) × (has_id id s ≡ true))
    ⊎ ((has_flow task s ≡ false) × (has_id id s ≡ false) × FirstBoth task id ss)

-- An update that leaves the identifier and the tasks.
pub record Keeping (f : Sjob → Sjob) : Type 0 where
  pub same_id : (s : Sjob) → (f s).id ≡ s.id
  pub same_flow : (task : String) (s : Sjob) → has_flow task (f s) ≡ has_flow task s

module _ (task id : String) where
  kept :
      (f : Sjob → Sjob) (s : Sjob) (ss : List Sjob)
      → Keeping f
      → FirstBoth task id (s ∷ ss)
      → FirstBoth task id (f s ∷ ss)
  kept f s ss k (inl h) = inl (k.same_flow task s ∙ h.0, ap (λ i. str_eq i id) (k.same_id s) ∙ h.1)
  kept f s ss k (inr h) =
      inr (k.same_flow task s ∙ h.0, ap (λ i. str_eq i id) (k.same_id s) ∙ h.1, h.2)

  behind :
      (s : Sjob) (ss ts : List Sjob)
      → (FirstBoth task id ss → FirstBoth task id ts)
      → FirstBoth task id (s ∷ ss)
      → FirstBoth task id (s ∷ ts)
  behind s ss ts g (inl h) = inl h
  behind s ss ts g (inr h) = inr (h.0, h.1, g h.2)

  update_one-FirstBoth :
      (p : Sjob → Bool) (f : Sjob → Sjob) (ss : List Sjob)
      → Keeping f
      → FirstBoth task id ss
      → FirstBoth task id (update_one p f ss)
  unfolding update_one
  update_one-FirstBoth p f [] k h = absurd h
  update_one-FirstBoth p f (s ∷ ss) k h =
      if_cases (FirstBoth task id) (p s) (λ _. kept f s ss k h)
        (λ _. behind s ss (update_one p f ss) (update_one-FirstBoth p f ss k) h)

-- Updates of a job's own fields, of its flows and of its blocks.
record-Keeping :
    (f : Sjob → Sjob) → ((s : Sjob) → ((f s).id ≡ s.id) × ((f s).flows ≡ s.flows)) → Keeping f
record-Keeping f h = record {
  same_id = λ s. (h s).0;
  same_flow = λ task s. ap (any (has_task task)) (h s).1;
}

module _ (task id : String) (db : Database) (h : FirstBoth task id db.sjobs) where
  pub update_sjob-FirstBoth :
      (sid : String) (f : Sjob → Sjob)
      → ((s : Sjob) → ((f s).id ≡ s.id) × ((f s).flows ≡ s.flows))
      → FirstBoth task id (update_sjob sid f db).sjobs
  unfolding update_sjob
  update_sjob-FirstBoth sid f k =
      update_one-FirstBoth task id (has_id sid) f db.sjobs (record-Keeping f k) h

  pub update_sjob_stage-FirstBoth :
      (sid stage : String) (v : SjobStage)
      → FirstBoth task id (update_sjob_stage sid stage v db).sjobs
  unfolding update_sjob_stage
  update_sjob_stage-FirstBoth sid stage v = update_sjob-FirstBoth sid _ (λ s. (refl, refl))

  pub update_sjob_state-FirstBoth :
      (sid : String) (v : SjobState) → FirstBoth task id (update_sjob_state sid v db).sjobs
  unfolding update_sjob_state
  update_sjob_state-FirstBoth sid v = update_sjob-FirstBoth sid _ (λ s. (refl, refl))

  pub update_sjob_block-FirstBoth :
      (block : String) (f : Block → Block) → FirstBoth task id (update_sjob_block block f db).sjobs
  unfolding update_sjob_block
  update_sjob_block-FirstBoth block f =
      update_one-FirstBoth task id (has_block block) _ db.sjobs
        (record-Keeping _ (λ s. (refl, refl))) h

  pub update_sjob_flow-FirstBoth :
      (flow : String) (f : Flow → Flow)
      → ((t : Flow) → (f t).task ≡ t.task)
      → FirstBoth task id (update_sjob_flow flow f db).sjobs
  unfolding update_sjob_flow
  update_sjob_flow-FirstBoth flow f k =
      update_one-FirstBoth task id (has_flow flow) _ db.sjobs
        (record {
          same_id = λ s. refl;
          same_flow = λ t s.
              any-update_one (has_task flow) (has_task t) f s.flows
                (λ u. ap (λ i. str_eq i t) (k u));
        })
        h

-- The job of a task, once an error has been written to the job of the identifier.
found-error :
    (task id : String) (e : JobError) (ss : List Sjob)
    → FirstBoth task id ss
    → (s : Sjob) × (find_one
          (has_flow task)
          (update_one (has_id id) (λ q. record q { error = some e }) ss)
        ≡ some s)
      × (s.error ≡ some e)
unfolding find_one update_one
found-error task id e [] h = absurd h
found-error task id e (s ∷ ss) (inl h) =
    (record s { error = some e }, ground (arith, h.0, h.1), refl)
found-error task id e (s ∷ ss) (inr h) =
    let (q, is_found, failed) = found-error task id e ss h.2 in
    (q, ground (arith, h.0, h.1, is_found), failed)

pub get_sjob_from_task_id-error :
    (task id : String) (e : JobError) (db : Database)
    → FirstBoth task id db.sjobs
    → (s : Sjob) × (get_sjob_from_task_id task
          (update_sjob id (λ q. record q { error = some e }) db)
        ≡ some s)
      × (s.error ≡ some e)
unfolding get_sjob_from_task_id update_sjob
get_sjob_from_task_id-error task id e db h = found-error task id e db.sjobs h
