-- ===== src/Requests.antt =====
-- server/scheduler.cc, the requests that come by RPC from the portal and from other sites, over the
-- graph. Here the commands that they send to the agents, what they answer, and their state: the
-- commands sent and the answers given so far. `V` is the type of the agents' replies.
pub mod Files
pub mod Sdn
pub mod Undone
pub mod Tests
use bigdataexpress_c.Base.{ℕ, String, Bool, Option, List, [], ◌∷◌, if◌then◌else◌}
use bigdataexpress_c.Base.Int.{ℤ}
use bigdataexpress_c.Outcome.{Outcome, ok, throw, fault}
use bigdataexpress_c.Graph.{Node}

-- `rpc["cmd"]` with the members that the code writes.
pub data Command (V : Type 0) : Type 0 where
  dtn_get_disk_usage : (target path : String) → Command V
  dtn_expand : (target files : String) → Command V
  dtn_list : (target path : String) (checksum : Bool) → Command V
  dtn_mkdir : (target path user : String) → Command V
  dtn_expand_and_group_v2 : (target : String) (params : V) → Command V
  dtn_verify_checksums : (target algorithm : String) (checksums : V) → Command V
  dtn_add_neighbor : (target ip mac : String) → Command V
  dtn_add_route : (target destination via : String) → Command V
  dtn_delete_neighbor : (target ip : String) → Command V
  dtn_delete_route : (target destination : String) → Command V
  sdn_reserve : (params : V) → Command V
  release_request : (path : ℤ) → Command V
  icmp_ping : (target : String) (params : V) → Command V

pub record Sent (V : Type 0) : Type 0 where
  pub queue : String
  pub command : Command V

pub record FileSize : Type 0 where
  pub id : String
  pub bytes : ℕ
  pub number : ℕ

-- What is handed to the callback of a request.
pub data Response (V : Type 0) : Type 0 where
  no_info : Response V
  dtn_info : Node → Option V → Response V
  disk_error : Node → V → Response V
  sizes : List FileSize → Response V
  sizes_error : String → List FileSize → Response V
  passes_on : V → Response V
  no_entries : V → Response V
  invalid_dtn : ℤ → Response V

pub record Log (V : Type 0) : Type 0 where
  pub sent : List (Sent V)
  pub answers : List (Response V)

-- The reply to the latest command, the first of the list, and the members of a reply that are read:
-- a `code` that is not there is read as 0.
pub record Agents (V : Type 0) : Type 0 where
  pub reply : List (Sent V) → V
  pub code : V → Option ℤ
  pub total_size : V → ℕ
  pub files : V → ℕ

abbrev pub R : Type 0 → Type 0 → Type 0
R V A = Log V → Outcome A × Log V

module _ {V : Type 0} where
  unfoldable pub pure : {A : Type 0} → A → R V A
  pure a l = (ok a, l)

  unfoldable pub lift : {A : Type 0} → Outcome A → R V A
  lift o l = (o, l)

  abbrev pub on_outcome : {A C : Type 0} → Outcome A → Log V → (A → R V C) → Outcome C × Log V
  on_outcome (ok a) l f = f a l
  on_outcome (throw e) l f = (throw e, l)
  on_outcome fault l f = (fault, l)

  infixl 5 ◌>>=◌ ◌>>◌
  unfoldable pub ◌>>=◌ : {A C : Type 0} → R V A → (A → R V C) → R V C
  ◌>>=◌ m f l = let (o, l') = m l in on_outcome o l' f

  abbrev pub ◌>>◌ : {C : Type 0} → R V (Unit {0}) → R V C → R V C
  m >> k = m >>= λ done. k

  unfoldable pub call_back : Response V → R V (Unit {0})
  call_back a l = (ok tt, record l { answers = a ∷ l.answers })

  unfoldable pub call : Agents V → String → Command V → R V V
  call env q c l =
      let s : Sent V = record { queue = q; command = c } in
      (ok (env.reply (s ∷ l.sent)), record l { sent = s ∷ l.sent })

  abbrev pub branch : {A : Type 0} → Bool → R V A → R V A → R V A
  branch b m n l = if b then m l else n l
