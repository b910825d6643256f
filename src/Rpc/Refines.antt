-- ===== src/Rpc/Refines.antt =====
-- utils/rpcclient.cc: the events of a client as moves of its book.
use bigdataexpress_c.Base.{
  ℕ, String, ◌≡◌, ◌≢◌, refl, sym, inl, inr, none, some, List, [], ◌∷◌, ◌==◌, if_cases, subst,
  Option-cases, arith, eq_iff,
}
use bigdataexpress_c.Base.Keyed.{Keyed, lookup, erase, lookup-erase, is_some}
use bigdataexpress_c.Rpc.{Message}
use bigdataexpress_c.Rpc.Client.{
  find_number, Frame, Client, Action, begins, receives, ends, act, on_msg, on_promise, on_call,
  end_call, new_client, on_future, leave,
}
use bigdataexpress_c.Rpc.Book.{not_made, waiting, answered, finished, Book, write_status, Follows}
use bigdataexpress_c.Rpc.Implements.{
  Implements, find_number-drop_number, Open, Simulates, NoneWaits-lookup, begin_call-Simulates,
}

module _ {V : Type 0} where
  delivered-Implements :
      (k : String) (n : ℕ) (v : V) (c : Client V) (b : Book V)
      → Implements c b
      → lookup k c.promises ≡ some n
      → Implements
          (record c { values = (n, v) ∷ c.values; promises = erase k c.promises })
          (write_status n (answered v) b)
  unfolding find_number
  delivered-Implements k n v c b r h =
      let waits = r.promise_waits k n h in
      record {
        promise_waits = λ j m e.
            ground
              (arith, e, h, eq_iff k j, lookup-erase k j c.promises, waits, r.promise_waits j m);
        waits_promise = λ j m e.
            ground (arith, e, h, eq_iff k j, lookup-erase k j c.promises, r.waits_promise j m);
        value_answered = λ m w e. ground (arith, e, r.value_answered m w);
        answered_value = λ m w e. ground (arith, e, r.answered_value m w);
        call_open =
            λ m f e. if_cases (Open f) (n == m) (λ e. inr (v, refl)) (λ d. r.call_open m f e);
        later_not_made = λ m e. ground (arith, e, r.later_not_made m e, waits);
      }

  waits-no_value :
      (c : Client V) (b : Book V)
      → Implements c b
      → (n : ℕ) (k : String) → b n ≡ waiting k
      → find_number n c.values ≡ none
  waits-no_value c b r n k w = elim (Option-cases (find_number n c.values)) [
    | inl h ↦ h
    | inr (v, h) ↦ ground (arith, r.value_answered n v h, w)
  ]

  same_number :
      (c : Client V) (b : Book V)
      → Implements c b
      → (k : String) (m n : ℕ) → b m ≡ waiting k
      → b n ≡ waiting k
      → m ≡ n
  same_number c b r k m n v w = ground (arith, r.waits_promise k m v, r.waits_promise k n w)

  on_msg-Simulates :
      (msg : Message V) (c : Client V) (b : Book V) → Implements c b → Simulates b (on_msg msg c)
  unfolding on_msg
  on_msg-Simulates msg c b r = elim (Option-cases (lookup msg.corr_id c.promises)) [
    | inl h ↦
        subst (λ o. Simulates b (on_promise msg o c)) (sym h)
          (b, (NoneWaits-lookup msg.corr_id c b r h, refl), r)
    | inr (n, h) ↦
        let waits = r.promise_waits msg.corr_id n h in
        subst (λ o. Simulates b (on_promise msg o c)) (sym h)
          (if_cases (Simulates b) (is_some (find_number n c.values))
            (λ e. absurd (ground (arith, e, waits-no_value c b r n msg.corr_id waits)))
            (λ e. (
              _,
              (n, (waits, λ m w. same_number c b r msg.corr_id m n w waits), refl),
              delivered-Implements msg.corr_id n msg.body c b r h,
            )))
  ]

  -- The promise of the call is gone, and those of the other calls are there.
  abbrev Without : ℕ → Book V → Keyed ℕ → Type 0
  Without n b promises =
      ((k : String) (m : ℕ) → lookup k promises ≡ some m → (b m ≡ waiting k) × (m ≢ n))
      × ((k : String) (m : ℕ) → b m ≡ waiting k → m ≢ n → lookup k promises ≡ some m)

  leave-Implements :
      (n : ℕ) (promises : Keyed ℕ) (c : Client V) (b : Book V)
      → Implements c b
      → Without n b promises
      → b n ≢ not_made
      → Implements (leave n (record c { promises = promises })) (write_status n finished b)
  leave-Implements n promises c b r h made = record {
    promise_waits = λ k m e. ground (arith, h.0 k m e);
    waits_promise = λ k m e. ground (arith, e, h.1 k m);
    value_answered =
        λ m w e. ground (arith, e, find_number-drop_number m n c.values, r.value_answered m w);
    answered_value =
        λ m w e. ground (arith, e, find_number-drop_number m n c.values, r.answered_value m w);
    call_open = λ m f e.
        if_cases (Open f) (n == m)
          (λ d. absurd (ground (arith, d, e, find_number-drop_number m n c.calls)))
          (λ d. r.call_open m f (ground (arith, d, e, find_number-drop_number m n c.calls)));
    later_not_made = λ m e. ground (arith, e, r.later_not_made m e, made);
  }

  timed_out-Without :
      (n : ℕ) (k : String) (c : Client V) (b : Book V)
      → Implements c b
      → b n ≡ waiting k
      → Without n b (erase k c.promises)
  timed_out-Without n k c b r w = (
    (λ j m e. (
      ground (arith, e, eq_iff k j, lookup-erase k j c.promises, r.promise_waits j m),
      λ q. ground (arith, q, e, eq_iff k j, lookup-erase k j c.promises, r.promise_waits j m, w),
    )),
    (λ j m e q. ground (
      arith,
      e,
      q,
      eq_iff k j,
      lookup-erase k j c.promises,
      r.waits_promise j m,
      r.waits_promise k n w,
    )),
  )

  answered-Without :
      (n : ℕ) (v : V) (c : Client V) (b : Book V)
      → Implements c b
      → b n ≡ answered v
      → Without n b c.promises
  answered-Without n v c b r w = (
    (λ j m e. (r.promise_waits j m e, λ q. ground (arith, q, r.promise_waits j m e, w))),
    (λ j m e q. r.waits_promise j m e),
  )

  on_future-Simulates :
      (n : ℕ) (f : Frame V) (c : Client V) (b : Book V)
      → Implements c b
      → Open f (b n)
      → Simulates b (on_future n f (find_number n c.values) c)
  on_future-Simulates n f c b r (inl w) =
      subst (λ o. Simulates b (on_future n f o c)) (sym (waits-no_value c b r n f.corr_id w))
        (
          _,
          ((f.corr_id, w), refl),
          leave-Implements n _ c b r (timed_out-Without n f.corr_id c b r w)
              (λ e. ground (arith, e, w)),
        )
  on_future-Simulates n f c b r (inr (v, w)) =
      subst (λ o. Simulates b (on_future n f o c)) (sym (r.answered_value n v w))
        (if_cases (λ e. Simulates b (e, leave n c)) f.verbose
          (λ e. (
            _,
            ((v, w), refl),
            leave-Implements n _ c b r (answered-Without n v c b r w) (λ e. ground (arith, e, w)),
          ))
          (λ e. (
            _,
            (w, refl),
            leave-Implements n _ c b r (answered-Without n v c b r w) (λ e. ground (arith, e, w)),
          )))

  end_call-Simulates :
      (n : ℕ) (c : Client V) (b : Book V) → Implements c b → Simulates b (end_call n c)
  unfolding end_call
  end_call-Simulates n c b r = elim (Option-cases (find_number n c.calls)) [
    | inl h ↦ subst (λ o. Simulates b (on_call n o c)) (sym h) (b, refl, r)
    | inr (f, h) ↦
        subst (λ o. Simulates b (on_call n o c)) (sym h)
          (on_future-Simulates n f c b r (r.call_open n f h))
  ]

  -- Each action on a client that implements a book is a move of the book, after which the client
  -- implements it again.
  pub act-Simulates :
      (a : Action V) (c : Client V) (b : Book V) → Implements c b → Simulates b (act a c)
  unfolding act
  act-Simulates (begins k target p verbose) c b r = begin_call-Simulates k target p verbose c b r
  act-Simulates (receives msg) c b r = on_msg-Simulates msg c b r
  act-Simulates (ends n) c b r = end_call-Simulates n c b r

  act-Follows :
      (actions : List (Action V)) (c : Client V) (b : Book V) → Implements c b → Follows b c actions
  act-Follows [] c b r = tt
  act-Follows (a ∷ actions) c b r =
      let (b', moves, r') = act-Simulates a c b r in (b', moves, act-Follows actions _ b' r')

  pub new_client-Implements : (cid : String) → Implements (new_client {V = V} cid) (λ n. not_made)
  unfolding new_client lookup find_number
  new_client-Implements cid = record {
    promise_waits = λ k n e. ground (arith, e);
    waits_promise = λ k n e. ground (arith, e);
    value_answered = λ n v e. ground (arith, e);
    answered_value = λ n v e. ground (arith, e);
    call_open = λ n f e. ground (arith, e);
    later_not_made = λ n e. refl;
  }

  -- Whatever calls begin, messages arrive and waits end, in whatever order: from a new client on,
  -- each event is a move of the book of calls. So a call begins under an identifier that no other
  -- call waits for, a message is the answer of the only call that waits for its identifier or is
  -- ignored, no promise is given a value twice, and a call ends once, with the answer that was
  -- delivered to it, or with none after none was.
  pub new_client-Follows :
      (cid : String) (actions : List (Action V)) → Follows (λ n. not_made) (new_client cid) actions
  new_client-Follows cid actions = act-Follows actions _ _ (new_client-Implements cid)
