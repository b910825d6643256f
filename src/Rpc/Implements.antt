-- ===== src/Rpc/Implements.antt =====
-- utils/rpcclient.cc: when a client implements a book of calls; the start of a call.
use bigdataexpress_c.Base.{
  ℕ, String, ◌≡◌, refl, sym, ◌⊎◌, inl, inr, Bool, Option, none, some, List, [], ◌∷◌, ◌==◌, ◌≤◌,
  str_eq, if◌then◌else◌, if_cases, subst, Option-cases, arith, eq_iff,
}
use bigdataexpress_c.Base.Keyed.{lookup, lookup-emplace, is_some}
use bigdataexpress_c.Rpc.Client.{
  find_number, drop_number, Frame, Client, Event, begin_call, begin_new, publish_call, id_exists,
  empty_target, topic_of, with_promise,
}
use bigdataexpress_c.Rpc.Book.{
  Status, not_made, waiting, answered, Book, write_status, NoneWaits, Moves,
}

pub find_number-drop_number :
    {A : Type 0} (n m : ℕ) (list : List (ℕ × A))
    → find_number n (drop_number m list) ≡ (if m == n then none else find_number n list)
unfolding find_number drop_number
find_number-drop_number n m [] = ground arith
find_number-drop_number n m ((i, a) ∷ list) = ground (arith, find_number-drop_number n m list)

module _ {V : Type 0} where
  abbrev pub Open : Frame V → Status V → Type 0
  Open f s = (s ≡ waiting (f.corr_id)) ⊎ ((v : V) × (s ≡ answered v))

  -- A promise for each call that waits, a value for each that has its answer.
  pub record Implements (c : Client V) (b : Book V) : Type 0 where
    pub promise_waits : (k : String) (n : ℕ) → lookup k c.promises ≡ some n → b n ≡ waiting k
    pub waits_promise : (k : String) (n : ℕ) → b n ≡ waiting k → lookup k c.promises ≡ some n
    pub value_answered : (n : ℕ) (v : V) → find_number n c.values ≡ some v → b n ≡ answered v
    pub answered_value : (n : ℕ) (v : V) → b n ≡ answered v → find_number n c.values ≡ some v
    pub call_open : (n : ℕ) (f : Frame V) → find_number n c.calls ≡ some f → Open f (b n)
    pub later_not_made : (n : ℕ) → c.made ≤ n → b n ≡ not_made

  abbrev pub Simulates : Book V → Event V × Client V → Type 0
  Simulates b r = (b' : Book V) × Moves b (r.0) b' × Implements (r.1) b'

  pub unmade : (c : Client V) (b : Book V) → Implements c b → b c.made ≡ not_made
  unmade c b r = r.later_not_made c.made (omega arith)

  pub NoneWaits-lookup :
      (k : String) (c : Client V) (b : Book V)
      → Implements c b
      → lookup k c.promises ≡ none
      → NoneWaits k b
  NoneWaits-lookup k c b r h m e = ground (arith, r.waits_promise k m e, h)

  with_promise-Implements :
      (k : String) (c : Client V) (b : Book V)
      → Implements c b
      → lookup k c.promises ≡ none
      → Implements (with_promise k c) (write_status c.made (waiting k) b)
  with_promise-Implements k c b r h = record {
    promise_waits = λ j n e. ground (
      arith,
      e,
      h,
      eq_iff k j,
      lookup-emplace k j c.made c.promises,
      r.promise_waits j n,
      unmade c b r,
    );
    waits_promise = λ j n e. ground (
      arith,
      e,
      h,
      eq_iff k j,
      lookup-emplace k j c.made c.promises,
      r.waits_promise j n,
      unmade c b r,
    );
    value_answered = λ n v e. ground (arith, e, r.value_answered n v e, unmade c b r);
    answered_value = λ n v e. ground (arith, e, r.answered_value n v);
    call_open = λ n f e. ground (arith, r.call_open n f e, unmade c b r);
    later_not_made = λ n e. ground (arith, e, r.later_not_made n);
  }

  open_call-Implements :
      (n : ℕ) (f : Frame V) (c : Client V) (b : Book V)
      → b n ≡ waiting (f.corr_id)
      → Implements c b
      → Implements (record c { calls = (n, f) ∷ c.calls }) b
  unfolding find_number
  open_call-Implements n f c b h r = record {
    promise_waits = r.promise_waits;
    waits_promise = r.waits_promise;
    value_answered = r.value_answered;
    answered_value = r.answered_value;
    call_open = λ m g e. ground (arith, h, e, r.call_open m g);
    later_not_made = r.later_not_made;
  }

  begin_new-Simulates :
      (k topic : String) (p : V) (verbose : Bool) (c : Client V) (b : Book V)
      → Implements c b
      → lookup k c.promises ≡ none
      → Simulates b (begin_new k topic p verbose c)
  begin_new-Simulates k topic p verbose c b r h =
      let waits = NoneWaits-lookup k c b r h in
      let promised = with_promise-Implements k c b r h in
      if_cases (Simulates b) (str_eq topic "rpc/") {x = (empty_target c.made k, with_promise k c)}
        {y = publish_call k topic p verbose c} (λ e. (_, (unmade c b r, waits, refl), promised))
        (λ e. (
          _,
          (unmade c b r, waits, refl),
          open_call-Implements c.made _ _ _ (ground arith) promised,
        ))

  pub begin_call-Simulates :
      (k target : String) (p : V) (verbose : Bool) (c : Client V) (b : Book V)
      → Implements c b
      → Simulates b (begin_call k target p verbose c)
  unfolding begin_call
  begin_call-Simulates k target p verbose c b r =
      let topic = topic_of target in
      let Then = λ (o : Option ℕ).
        Simulates b (if is_some o then (id_exists k, c) else begin_new k topic p verbose c) in
      elim (Option-cases (lookup k c.promises)) [
        | inr (n, h) ↦ subst Then (sym h) (b, ((n, r.promise_waits k n h), refl), r)
        | inl h ↦ subst Then (sym h) (begin_new-Simulates k topic p verbose c b r h)
      ]
