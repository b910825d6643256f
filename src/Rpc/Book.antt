-- ===== src/Rpc/Book.antt =====
-- What `RpcClient` promises, without maps, promises and futures: a book of the calls by number, and
-- the move that each event of the client is.
use bigdataexpress_c.Base.{ℕ, String, ◌≡◌, ◌≢◌, List, [], ◌∷◌, ◌==◌, if◌then◌else◌}
use bigdataexpress_c.Rpc.Client.{
  Client, response, timed_out, Event, published, id_exists, empty_target, delivered, invalid_id,
  bad_promise, returned, second_get, no_call, Action, act,
}

pub data Status (V : Type 0) : Type 0 where
  not_made : Status V
  waiting : String → Status V
  answered : V → Status V
  finished : Status V

abbrev pub Book : Type 0 → Type 0
Book V = ℕ → Status V

module _ {V : Type 0} where
  abbrev pub write_status : ℕ → Status V → Book V → Book V
  write_status n s b m = if n == m then s else b m

  abbrev pub NoneWaits : String → Book V → Type 0
  NoneWaits k b = (m : ℕ) → b m ≢ waiting k

  abbrev pub OnlyWaits : ℕ → String → Book V → Type 0
  OnlyWaits n k b = (b n ≡ waiting k) × ((m : ℕ) → b m ≡ waiting k → m ≡ n)

  -- A call begins under an identifier that no other call waits for; a message is the answer of the
  -- one call that waits for its identifier, or of none; a call returns once, with the answer that
  -- was delivered, or with no answer after none was.
  abbrev pub Moves : Book V → Event V → Book V → Type 0
  Moves b (published n p) b' =
      (b n ≡ not_made)
      × NoneWaits (p.message.corr_id) b
      × (b' ≡ write_status n (waiting (p.message.corr_id)) b)
  Moves b (id_exists k) b' = ((n : ℕ) × (b n ≡ waiting k)) × (b' ≡ b)
  Moves b (empty_target n k) b' =
      (b n ≡ not_made) × NoneWaits k b × (b' ≡ write_status n (waiting k) b)
  Moves b (delivered k v) b' = (n : ℕ) × OnlyWaits n k b × (b' ≡ write_status n (answered v) b)
  Moves b (invalid_id k v) b' = NoneWaits k b × (b' ≡ b)
  Moves b bad_promise b' = ⊥
  Moves b (returned n (response v)) b' = (b n ≡ answered v) × (b' ≡ write_status n finished b)
  Moves b (returned n (timed_out p)) b' =
      ((k : String) × (b n ≡ waiting k)) × (b' ≡ write_status n finished b)
  Moves b (second_get n) b' = ((v : V) × (b n ≡ answered v)) × (b' ≡ write_status n finished b)
  Moves b (no_call n) b' = b' ≡ b

  -- The events of the client are moves of the book, from first to last.
  abbrev pub Follows : Book V → Client V → List (Action V) → Type 0
  Follows b c [] = Unit
  Follows b c (a ∷ later) =
      (b' : Book V) × Moves b ((act a c).0) b' × Follows b' ((act a c).1) later
