-- ===== src/Scheduler/Poll/Whole.antt =====
-- The counters of `tx_bytes` through `poll_rate`.
use bigdataexpress_c.Base.{
  String, ◌≡◌, refl, subst, inl, inr, str_eq, List, [], ◌∷◌, map, All, if_cases, arith,
}
use bigdataexpress_c.Base.Int.{ℤ, pos, ◌-ℤ◌, ltb_ℤ, eqb_ℤ}
use bigdataexpress_c.Store.{
  Database, Sjob, Flow, Rawjob, has_block, has_id, increment_sjob, increment_sjob_block,
  update_sjob, update_sjob_block, get_sjobs_from_rawjob_id, get_rawjobs_from_state,
}
use bigdataexpress_c.Store.Laws.{All-find_all}
use bigdataexpress_c.Store.Ledger.{Balanced, Owns, update_one-Balanced}
use bigdataexpress_c.Store.Profile.{
  entry, Carried, Carried-refl, Carried-trans, Kept, Kept-trans, update_one-Carried, in_block-Quiet,
  update_sjob_flow-Kept, update_rawjob-Kept, update_site-Kept,
}
use bigdataexpress_c.Store.Singles.{Single, Singles, Singles-Carried, store-Singles}
use bigdataexpress_c.Scheduler.State.{State}
use bigdataexpress_c.Scheduler.Report.{on_store}
use bigdataexpress_c.Scheduler.Kept.{unknown_task-Kept, inactive-Kept}
use bigdataexpress_c.Scheduler.Poll.{
  RateReply, timed_out, answered, PollEnv, Sums, Polled, returns, goes_on, then_poll, last_tx_bytes,
  active, is_polled, on_rate, poll_flow, poll_flows, poll_sjobs, count_rawjob, end_rawjob,
  poll_rawjobs, is_transferring, poll_rate,
}
use bigdataexpress_c.Scheduler.Poll.Laws.{Whatever}
use bigdataexpress_c.Scheduler.Poll.Books.{Closes, poll_flow-Closes, add_nothing}

module _ (db : Database) where
  increment_sjob-Carried : (id : String) (n : ℤ) → Carried db (increment_sjob id n db)
  unfolding update_sjob
  increment_sjob-Carried id n = update_one-Carried db (has_id id) _ (record {
    named = λ s. record { same_id = refl; same_blocks = λ b. refl };
    same_flows = λ s. refl;
  })

  increment_sjob_block-Carried : (own : String) (n : ℤ) → Carried db (increment_sjob_block own n db)
  unfolding update_sjob_block
  increment_sjob_block-Carried own n =
      update_one-Carried db (has_block own) _ (in_block-Quiet own _ (λ b. refl))

-- Where a loop stands, or the function has returned.
abbrev Carries : Database → Polled → Type 0
Carries db = Whatever (λ s. Carried db s.store)

module _ (env : PollEnv) (rid : String) (sjob : Sjob) (f : Flow) where
  active-Carried : (n : ℤ) (s : State) → Carried s.store (active env rid sjob f n s).store
  unfolding active
  active-Carried n s =
      Carried-trans
        (if_cases (λ (t : State). Carried s.store t.store) (ltb_ℤ (pos 0) n)
          (λ _. (update_sjob_flow-Kept s.store f.task _ (λ t. refl)).carried)
          (λ _.
            if_cases (λ (t : State). Carried s.store t.store)
              (ltb_ℤ env.inactive_timeout_ms (env.epoch_ms s -ℤ f.last_active))
              (λ _. (inactive-Kept env rid sjob f s).carried) (λ _. Carried-refl s.store)))
        (Carried-trans (increment_sjob_block-Carried _ f.block n)
          (update_sjob_flow-Kept _ f.task _ (λ t. refl)).carried)

  on_rate-Carried : (v : RateReply) (u : Sums) → Carries u.state.store (on_rate env rid sjob f v u)
  unfolding on_rate
  on_rate-Carried timed_out u = Carried-refl u.state.store
  on_rate-Carried (answered code transferred) u =
      let n = transferred -ℤ last_tx_bytes f.block sjob.blocks in
      if_cases (Carries u.state.store) (eqb_ℤ code (pos 1))
        (λ _. (unknown_task-Kept env rid sjob f u.state).carried)
        (λ _.
          if_cases (Carries u.state.store) (eqb_ℤ code (pos 0)) (λ _. active-Carried n u.state)
            (λ _. Carried-refl u.state.store))

  poll_flow-Carried : (u : Sums) → Carries u.state.store (poll_flow env rid sjob f u)
  unfolding poll_flow
  poll_flow-Carried u =
      if_cases (Carries u.state.store) (is_polled f.state)
        (λ _. on_rate-Carried (env.rate_reply u.state f.task) u) (λ _. Carried-refl u.state.store)

-- The counters are right again, and nothing else of what is asked of the jobs has changed.
abbrev Good : Database → State → Type 0
Good db s = All Balanced s.store.sjobs × Carried db s.store

then_sjobs-Good :
    (env : PollEnv) (rid : String) (sjob : Sjob) (f : Flow) (sjobs : List Sjob) (db : Database)
    (p : Polled)
    → Closes env rid sjob f p
    → Carries db p
    → ((w : Sums)
        → All Balanced w.state.store.sjobs
        → Carried db w.state.store
        → Whatever (Good db) (poll_sjobs env rid sjobs w))
    → Whatever (Good db) (
        then_poll (then_poll p (poll_flows env rid sjob [])) (λ v.
          poll_sjobs env rid sjobs
            (record v { state = on_store (increment_sjob sjob.id v.sjob_tx_bytes) v.state })))
unfolding poll_flows
then_sjobs-Good env rid sjob f sjobs db (returns s) h c k = (h.balanced, c)
then_sjobs-Good env rid sjob f sjobs db (goes_on u) h c k =
    k (record u { state = on_store (increment_sjob sjob.id u.sjob_tx_bytes) u.state }) h.balanced
      (Carried-trans c (increment_sjob-Carried u.state.store sjob.id u.sjob_tx_bytes))

Good-Carried :
    {a b : Database} (p : Polled) → Carried a b → Whatever (Good b) p → Whatever (Good a) p
Good-Carried (returns s) c h = (h.0, Carried-trans c h.1)
Good-Carried (goes_on u) c h = (h.0, Carried-trans c h.1)

nothing-Balanced :
    (id : String) (db : Database)
    → All Balanced db.sjobs
    → All Balanced (increment_sjob id (pos 0) db).sjobs
unfolding update_sjob
nothing-Balanced id db h =
    update_one-Balanced (has_id id) _
      (λ s. record {
        named = record { same_id = refl; same_blocks = λ b. refl };
        same_tx = add_nothing s.tx_bytes;
        same_total = refl;
      })
      db.sjobs h

more_than_one : {b c block : String} {bs : List String} → b ∷ c ∷ bs ≡ block ∷ [] → ⊥
more_than_one e = ground (arith, e)

same_head : {b block : String} → b ∷ [] ≡ block ∷ [] → block ≡ b
same_head e = ground (arith, e)

module _ (env : PollEnv) (rid : String) where
  flows-Good :
      (sjob : Sjob) (sjobs : List Sjob) (fs : List Flow) (s : State) (n : ℤ)
      → All Balanced s.store.sjobs
      → Single s.store.sjobs (sjob.id, map (λ t. t.block) fs)
      → ((w : Sums)
          → All Balanced w.state.store.sjobs
          → Carried s.store w.state.store
          → Whatever (Good s.store) (poll_sjobs env rid sjobs w))
      → Whatever (Good s.store) (
          then_poll
            (poll_flows env rid sjob fs
              (record { state = s; sjob_tx_bytes = pos 0; raw_tx_bytes = n }))
            (λ v.
              poll_sjobs env rid sjobs
                (record v { state = on_store (increment_sjob sjob.id v.sjob_tx_bytes) v.state })))
  unfolding poll_flows
  flows-Good sjob sjobs [] s n h o k =
      k
        (record {
          state = on_store (increment_sjob sjob.id (pos 0)) s;
          sjob_tx_bytes = pos 0;
          raw_tx_bytes = n;
        })
        (nothing-Balanced sjob.id s.store h) (increment_sjob-Carried s.store sjob.id (pos 0))
  flows-Good sjob sjobs (f ∷ []) s n h (inl e) k = absurd (ground (arith, e))
  flows-Good sjob sjobs (f ∷ []) s n h (inr (block, e, o)) k =
      let u : Sums = record { state = s; sjob_tx_bytes = pos 0; raw_tx_bytes = n } in
      then_sjobs-Good env rid sjob f sjobs s.store (poll_flow env rid sjob f u)
        (poll_flow-Closes env rid sjob f u refl (record {
          balanced = h;
          owns = subst (λ b. Owns b sjob.id s.store.sjobs) (same_head e) o;
        }))
        (poll_flow-Carried env rid sjob f u) k
  flows-Good sjob sjobs (f ∷ g ∷ fs) s n h (inl e) k = absurd (ground (arith, e))
  flows-Good sjob sjobs (f ∷ g ∷ fs) s n h (inr (block, e, o)) k = absurd (more_than_one e)

  poll_sjobs-Good :
      (js : List Sjob) (u : Sums)
      → All Balanced u.state.store.sjobs
      → All (λ j. Single u.state.store.sjobs (entry j)) js
      → Whatever (Good u.state.store) (poll_sjobs env rid js u)
  unfolding poll_sjobs
  poll_sjobs-Good [] u h o = (h, Carried-refl u.state.store)
  poll_sjobs-Good (j ∷ js) u h o =
      flows-Good j js j.flows u.state u.raw_tx_bytes h o.0 (λ w balanced c.
        Good-Carried (poll_sjobs env rid js w) c
          (poll_sjobs-Good js w balanced (Singles-Carried js c o.1)))

count_rawjob-Kept : (r : Rawjob) (u : Sums) → Kept u.state.store (count_rawjob r u).store
unfolding count_rawjob
count_rawjob-Kept r u =
    Kept-trans (update_rawjob-Kept u.state.store r.id _)
      (Kept-trans (update_site-Kept _ r.src_site _) (update_site-Kept _ r.dst_site _))

end_rawjob-Balanced :
    (db : Database) (p : Polled) (r : Rawjob) (f : State → State)
    → Whatever (Good db) p
    → Singles db.sjobs
    → ((s : State)
        → All Balanced s.store.sjobs
        → Singles s.store.sjobs
        → All Balanced (f s).store.sjobs)
    → All Balanced (end_rawjob p r f).store.sjobs
end_rawjob-Balanced db (returns s) r f h o k = h.0
end_rawjob-Balanced db (goes_on u) r f h o k =
    let counted = count_rawjob-Kept r u in
    k (count_rawjob r u) (counted.balanced h.0)
      (store-Singles (Carried-trans h.1 counted.carried) o)

poll_rawjobs-Balanced :
    (env : PollEnv) (rs : List Rawjob) (s : State)
    → All Balanced s.store.sjobs
    → Singles s.store.sjobs
    → All Balanced (poll_rawjobs env rs s).store.sjobs
unfolding poll_rawjobs get_sjobs_from_rawjob_id
poll_rawjobs-Balanced env [] s h o = h
poll_rawjobs-Balanced env (r ∷ rs) s h o =
    end_rawjob-Balanced s.store _ r (poll_rawjobs env rs)
      (poll_sjobs-Good env r.id (get_sjobs_from_rawjob_id r.id s.store)
        (record { state = s; sjob_tx_bytes = pos 0; raw_tx_bytes = pos 0 }) h
        (All-find_all (λ j. Single s.store.sjobs (entry j)) (λ j. str_eq j.rawjob r.id)
          s.store.sjobs o))
      o (poll_rawjobs-Balanced env rs)

-- Where each job has at most one flow, whose block is its own, and every job has sent what its
-- blocks have sent: the latter is so again after a poll, whatever the launcher answers.
pub poll_rate-Balanced :
    (env : PollEnv) (s : State)
    → All Balanced s.store.sjobs
    → Singles s.store.sjobs
    → All Balanced (poll_rate env s).store.sjobs
unfolding poll_rate
poll_rate-Balanced env s h o =
    if_cases (λ (t : State). All Balanced t.store.sjobs) env.has_launcher
      (λ _. poll_rawjobs-Balanced env (get_rawjobs_from_state is_transferring s.store) s h o)
      (λ _. h)
