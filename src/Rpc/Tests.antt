-- ===== src/Rpc/Tests.antt =====
-- Runs of calls, and the theorems at concrete inputs.
use bigdataexpress_c.Base.{
  ℕ, ◌+◌, String, ◌≡◌, refl, ◌≢◌, true, false, eq_iff, none, some, List, [], ◌∷◌, arith,
}
use bigdataexpress_c.Base.Keyed.{lookup, emplace, erase, insert, str_lt}
use bigdataexpress_c.GridMap.Text.{is_prefix}
use bigdataexpress_c.Rpc.{Message}
use bigdataexpress_c.Rpc.Client.{
  Client, Event, Action, begins, receives, ends, act, new_client, find_number, drop_number,
  begin_call, on_msg, end_call, topic_of, published, delivered, invalid_id, returned, response,
  timed_out, second_get, id_exists, empty_target,
}
use bigdataexpress_c.Rpc.Server.{Bodies, Server, Mode, bypass, new_server}
use bigdataexpress_c.Rpc.Agents.{dispatches, get_agent, rpc_msg_handler}
use bigdataexpress_c.Rpc.Book.{not_made, Follows}
use bigdataexpress_c.Rpc.Refines.{new_client-Follows, new_client-Implements}
use bigdataexpress_c.Rpc.Trip.{exchange, exchange_lem}

abbrev bodies : Bodies ℕ
bodies = record {
  cmd = λ v. "get";
  params = λ v. v;
  target = λ v. some "a1";
  no_handler = λ v. 404;
  code_1 = λ e. 1;
}

-- The events of a list of actions.
abbrev events : List (Action ℕ) → Client ℕ → List (Event ℕ)
events [] c = []
events (a ∷ actions) c = (act a c).0 ∷ events actions (act a c).1

abbrev reply_to_call : String → ℕ → Message ℕ
reply_to_call k v = record { corr_id = k; reply_to = ""; body = v }

-- Two calls answered in the other order, a third that is not answered in time.
abbrev session : List (Action ℕ)
session =
    begins "k1" "s" 1 false
    ∷ begins "k2" "rpc/s" 2 true
    ∷ receives (reply_to_call "k2" 20)
    ∷ receives (reply_to_call "k2" 21)
    ∷ begins "k1" "s" 3 false
    ∷ begins "k3" "" 4 false
    ∷ ends 1
    ∷ ends 0
    ∷ receives (reply_to_call "k1" 10)
    ∷ []

session-events :
    events session (new_client "c")
    ≡ published 0 (record {
      topic = "rpc/s";
      message = record { corr_id = "k1"; reply_to = "rpc-res/c"; body = 1 };
    })
      ∷ published 1 (record {
        topic = "rpc/s";
        message = record { corr_id = "k2"; reply_to = "rpc-res/c"; body = 2 };
      })
      ∷ delivered "k2" 20
      ∷ invalid_id "k2" 21
      ∷ id_exists "k1"
      ∷ empty_target 2 "k3"
      ∷ second_get 1
      ∷ returned 0 (timed_out 1)
      ∷ invalid_id "k1" 10
      ∷ []
unfolding act new_client begin_call on_msg end_call topic_of is_prefix find_number drop_number
    lookup emplace erase insert str_lt
session-events = refl

new_client-Follows_example : Follows (λ n. not_made) (new_client {V = ℕ} "c") session
new_client-Follows_example = new_client-Follows "c" session

-- The server has no name of its own, so its queue is the topic that `call` refuses.
no_name : (new_server {V = ℕ} "guid" "" bypass).queue ≡ "rpc/"
unfolding new_server
no_name = refl

-- An agent that throws never responds.
agents_respond :
    rpc_msg_handler bodies (record { id = "a1"; command = λ cmd p. none } ∷ []) 5 ≡ dispatches none
unfolding rpc_msg_handler get_agent
agents_respond = refl

module _ (m : Mode ℕ) where
  abbrev server : Server ℕ
  server = record { cid = "s"; queue = "rpc/s"; mode = m }

no_call_yet : lookup "k1" (new_client {V = ℕ} "c").promises ≡ none
unfolding lookup new_client
no_call_yet = refl

not_refused : (server bypass).queue ≢ "rpc/"
not_refused e = ground (arith, e, eq_iff "rpc/s" "rpc/")

topic_of_s : topic_of "s" ≡ "rpc/s"
unfolding topic_of is_prefix
topic_of_s = refl

exchange_lem_example :
    exchange bodies (λ v. v + 1) "k1" "s" 5 (new_client "c") (server bypass)
    ≡ returned 0 (response 6)
unfolding new_client
exchange_lem_example =
    exchange_lem bodies (λ v. v + 1) "k1" "s" "c" 5 (new_client "c") (λ n. not_made) (server bypass)
      (new_client-Implements "c") no_call_yet refl not_refused topic_of_s
