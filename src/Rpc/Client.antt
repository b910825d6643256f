-- ===== src/Rpc/Client.antt =====
-- utils/rpcclient.cc: `RpcClient`. `call` is two steps, up to `publish` and from the return of
-- `wait_for`, since `on_msg` runs in another thread between them; each step is taken to be atomic,
-- which no lock in the code ensures. The shared state of a promise and its future has a number.
use bigdataexpress_c.Base.{
  ℕ, suc, String, str_append, Bool, Option, none, some, List, [], ◌∷◌, ◌==◌, str_eq, if◌then◌else◌,
}
use bigdataexpress_c.Base.Keyed.{Keyed, lookup, emplace, erase, is_some}
use bigdataexpress_c.GridMap.Text.{is_prefix}
use bigdataexpress_c.Rpc.{Message, Packet}

-- A map from the numbers of shared states.
module _ {A : Type 0} where
  unfoldable pub find_number : ℕ → List (ℕ × A) → Option A
  find_number n [] = none
  find_number n ((m, a) ∷ rest) = if m == n then some a else find_number n rest

  unfoldable pub drop_number : ℕ → List (ℕ × A) → List (ℕ × A)
  drop_number n [] = []
  drop_number n ((m, a) ∷ rest) =
      let others = drop_number n rest in if m == n then others else (m, a) ∷ others

-- The locals of a call that waits.
pub record Frame (V : Type 0) : Type 0 where
  pub corr_id : String
  pub params : V
  pub verbose : Bool

-- `promises` leads to the shared states, `values` holds the values that were set, `calls` the calls
-- that wait, each with the number of its future; `made` numbers the next shared state.
pub record Client (V : Type 0) : Type 0 where
  pub queue : String
  pub promises : Keyed ℕ
  pub values : List (ℕ × V)
  pub calls : List (ℕ × Frame V)
  pub made : ℕ

-- What `call` returns: a body, or the object with `timed_out` and the parameters.
pub data Reply (V : Type 0) : Type 0 where
  response : V → Reply V
  timed_out : V → Reply V

-- What a step shows. `bad_promise` is `set_value` on a state that has its value, `second_get` a
-- second `f.get()`, `no_call` a return with no call that waits.
pub data Event (V : Type 0) : Type 0 where
  published : ℕ → Packet V → Event V
  id_exists : String → Event V
  empty_target : ℕ → String → Event V
  delivered : String → V → Event V
  invalid_id : String → V → Event V
  bad_promise : Event V
  returned : ℕ → Reply V → Event V
  second_get : ℕ → Event V
  no_call : ℕ → Event V

unfoldable pub new_client : {V : Type 0} → String → Client V
new_client cid = record {
  queue = str_append "rpc-res/" cid;
  promises = [];
  values = [];
  calls = [];
  made = 0;
}

unfoldable pub topic_of : String → String
topic_of target = if is_prefix "rpc/" target then target else str_append "rpc/" target

module _ {V : Type 0} where
  abbrev message_of : Client V → String → V → Message V
  message_of c corrid params = record { corr_id = corrid; reply_to = c.queue; body = params }

  abbrev pub with_promise : String → Client V → Client V
  with_promise corrid c = record c {
    promises = emplace corrid c.made c.promises;
    made = suc c.made;
  }

  abbrev pub publish_call : String → String → V → Bool → Client V → Event V × Client V
  publish_call corrid topic params verbose c = (
    published c.made (record { topic = topic; message = message_of c corrid params }),
    record (with_promise corrid c) {
      calls = (c.made, record { corr_id = corrid; params = params; verbose = verbose }) ∷ c.calls;
    },
  )

  abbrev pub begin_new : String → String → V → Bool → Client V → Event V × Client V
  begin_new corrid topic params verbose c =
      if str_eq topic "rpc/"
      then (empty_target c.made corrid, with_promise corrid c)
      else publish_call corrid topic params verbose c

  -- `call` up to `publish`; `corrid` is the answer of `utils::guid`.
  unfoldable pub begin_call : String → String → V → Bool → Client V → Event V × Client V
  unfolding topic_of
  begin_call corrid target params verbose c =
      if is_some (lookup corrid c.promises)
      then (id_exists corrid, c)
      else begin_new corrid (topic_of target) params verbose c

  abbrev pub set_value : ℕ → String → V → Client V → Event V × Client V
  set_value n corr v c = if is_some (find_number n c.values) then (bad_promise, c) else (
    delivered corr v,
    record c { values = (n, v) ∷ c.values; promises = erase corr c.promises },
  )

  abbrev pub on_promise : Message V → Option ℕ → Client V → Event V × Client V
  on_promise msg none c = (invalid_id msg.corr_id msg.body, c)
  on_promise msg (some n) c = set_value n msg.corr_id msg.body c

  unfoldable pub on_msg : Message V → Client V → Event V × Client V
  on_msg msg c = on_promise msg (lookup msg.corr_id c.promises) c

  -- The future goes with its call.
  abbrev pub leave : ℕ → Client V → Client V
  leave n c = record c { calls = drop_number n c.calls; values = drop_number n c.values }

  abbrev pub on_future : ℕ → Frame V → Option V → Client V → Event V × Client V
  on_future n f none c = (
    returned n (timed_out f.params),
    leave n (record c { promises = erase f.corr_id c.promises }),
  )
  on_future n f (some v) c =
      (if f.verbose then second_get n else returned n (response v), leave n c)

  abbrev pub on_call : ℕ → Option (Frame V) → Client V → Event V × Client V
  on_call n none c = (no_call n, c)
  on_call n (some f) c = on_future n f (find_number n c.values) c

  -- `call` from the return of `wait_for`: with a value, or when the time is over.
  unfoldable pub end_call : ℕ → Client V → Event V × Client V
  end_call n c = on_call n (find_number n c.calls) c

-- What can happen to a client, in whatever order.
pub data Action (V : Type 0) : Type 0 where
  begins : (corrid target : String) (params : V) (verbose : Bool) → Action V
  receives : Message V → Action V
  ends : ℕ → Action V

unfoldable pub act : {V : Type 0} → Action V → Client V → Event V × Client V
act (begins corrid target params verbose) c = begin_call corrid target params verbose c
act (receives msg) c = on_msg msg c
act (ends n) c = end_call n c
