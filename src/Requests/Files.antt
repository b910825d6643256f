-- ===== src/Requests/Files.antt =====
-- server/scheduler.cc: `get_dtn_info`, `get_total_size`, `get_file_list`, `create_folder`,
-- `expand_and_group`, `verify_checksum`, `dtn_icmp_ping`; and `get_user_from_cn` of
-- server/sitestore.cc.
use bigdataexpress_c.Base.{
  String, Bool, true, false, ◌&&◌, Option, none, some, List, [], ◌∷◌, ◌++◌, ◌==◌, str_eq,
  if◌then◌else◌,
}
use bigdataexpress_c.Base.Int.{ℤ, pos, negsuc}
use bigdataexpress_c.Base.Keyed.{lookup}
use bigdataexpress_c.Outcome.{Outcome, throw, no_associated_dtn}
use bigdataexpress_c.Store.{find_one}
use bigdataexpress_c.Graph.{
  Node, storage_own, dtn_own, general_own, Own, RGraph, has_dtn_node, live, get_node, node_at,
}
use bigdataexpress_c.Graph.Build.{get_storage_node, get_dtn_node}
use bigdataexpress_c.Bootstrap.Paths.{parse_id, storage_of}
use bigdataexpress_c.Requests.{
  FileSize, Agents, R, pure, lift, ◌>>=◌, ◌>>◌, call_back, call, dtn_get_disk_usage, dtn_expand,
  dtn_list, dtn_mkdir, dtn_expand_and_group_v2, dtn_verify_checksums, icmp_ping, no_info, dtn_info,
  disk_error, sizes, sizes_error, passes_on, no_entries, invalid_dtn,
}

-- A document of the collection `usercndtn`.
pub record UserCn : Type 0 where
  pub cn : String
  pub dtnid : String
  pub username : String

abbrev username_of : Option UserCn → String
username_of none = ""
username_of (some u) = u.username

unfoldable pub get_user_from_cn : String → String → List UserCn → String
unfolding find_one
get_user_from_cn cn dtnid us =
    username_of (find_one (λ u. str_eq u.cn cn && str_eq u.dtnid dtnid) us)

-- `asInt` of the member.
abbrev pub code_is_0 : Option ℤ → Bool
code_is_0 none = true
code_is_0 (some (pos n)) = n == 0
code_is_0 (some (negsuc n)) = false

abbrev pub has_code_0 : Option ℤ → Bool
has_code_0 none = false
has_code_0 (some c) = code_is_0 (some c)

unfoldable pub get_one_dtn_node : Own → RGraph → Outcome Node
get_one_dtn_node (storage_own st folder none) g = throw no_associated_dtn
get_one_dtn_node (storage_own st folder (some k)) g = live (lookup k g.dtn_nodes)
get_one_dtn_node (dtn_own ip) g = throw no_associated_dtn
get_one_dtn_node general_own g = throw no_associated_dtn

module _ {V : Type 0} (env : Agents V) (g : RGraph) where
  -- `ResourceManager::get_node_queue_name`.
  unfoldable pub get_node_queue_name : String → R V String
  unfolding get_node node_at pure lift ◌>>=◌
  get_node_queue_name nid = do
    r ← lift (get_node nid g)
    n ← lift (live (node_at g r))
    pure n.queue

  abbrev with_disk : Node → V → R V (Unit {0})
  with_disk dtn r =
      call_back (if code_is_0 (env.code r) then dtn_info dtn (some r) else disk_error dtn r)

  -- An unknown DTN is answered, and then looked up all the same.
  unfoldable pub get_dtn_info : String → String → R V (Unit {0})
  unfolding has_dtn_node get_dtn_node pure lift ◌>>=◌ call_back call
  get_dtn_info dtn_id path = do
    (if has_dtn_node dtn_id g then pure tt else call_back no_info)
    dtn ← lift (get_dtn_node dtn_id g)
    if str_eq path ""
        then call_back (dtn_info dtn none)
        else (do r ← call env dtn.queue (dtn_get_disk_usage dtn.rid path); with_disk dtn r)

  abbrev size_of : String → V → FileSize
  size_of id r = record { id = id; bytes = env.total_size r; number = env.files r }

  unfoldable pub total_sizes : List String → List FileSize → R V (Unit {0})
  unfolding parse_id get_storage_node get_one_dtn_node pure lift ◌>>=◌ call_back call
  total_sizes [] done = call_back (sizes done)
  total_sizes (id ∷ ids) done = elim (parse_id id) [
    | none ↦ call_back (sizes_error "invalid parameters" done)
    | some f ↦ do
      snode ← lift (get_storage_node (storage_of f) g)
      dnode ← lift (get_one_dtn_node snode.own g)
      r ← call env dnode.queue (dtn_expand dnode.rid f.path)
      if code_is_0 (env.code r)
          then total_sizes ids (done ++ size_of id r ∷ [])
          else call_back (sizes_error "error at expanding the files" done)
  ]

  abbrev pub get_total_size : List String → R V (Unit {0})
  get_total_size ids = total_sizes ids []

  -- The name of the user is replaced where it is empty, so it never is, and it is not sent.
  unfoldable pub get_file_list : String → String → Bool → R V (Unit {0})
  unfolding has_dtn_node get_dtn_node pure lift ◌>>=◌ call_back call
  get_file_list dtn_id path checksum =
      if has_dtn_node dtn_id g
      then (do
        dtn ← lift (get_dtn_node dtn_id g)
        r ← call env dtn.queue (dtn_list dtn_id path checksum)
        call_back (if has_code_0 (env.code r) then passes_on r else no_entries r))
      else call_back (invalid_dtn (pos 400))

  unfoldable pub create_folder : List UserCn → String → String → String → R V (Unit {0})
  unfolding get_user_from_cn has_dtn_node get_dtn_node pure lift ◌>>=◌ call_back call
  create_folder us dtn_id path cn =
      if has_dtn_node dtn_id g
      then (do
        dtn ← lift (get_dtn_node dtn_id g)
        r ← call env dtn.queue (dtn_mkdir dtn_id path (get_user_from_cn cn dtn_id us))
        call_back (passes_on r))
      else call_back (invalid_dtn (pos 2))

  unfoldable pub expand_and_group : String → V → R V (Unit {0})
  unfolding get_node_queue_name pure lift ◌>>=◌ call_back call
  expand_and_group target params = do
    q ← get_node_queue_name target
    r ← call env q (dtn_expand_and_group_v2 target params)
    call_back (passes_on r)

  unfoldable pub verify_checksum : String → String → V → R V (Unit {0})
  unfolding get_node_queue_name pure lift ◌>>=◌ call_back call
  verify_checksum dtn algorithm checksums = do
    q ← get_node_queue_name dtn
    r ← call env q (dtn_verify_checksums dtn algorithm checksums)
    call_back (passes_on r)

  unfoldable pub dtn_icmp_ping : String → V → R V V
  unfolding get_dtn_node lift ◌>>=◌ call
  dtn_icmp_ping dtn_id params = do
    dtn ← lift (get_dtn_node dtn_id g)
    call env dtn.queue (icmp_ping dtn_id params)
