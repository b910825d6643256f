-- ===== src/Bootstrap/Expand.antt =====
-- `parse_raw_job_src` and `parse_raw_job_src_ds`: the files of each storage become blocks, by a DTN
-- that expands and groups them, or for a data set by the scheduler itself.
use bigdataexpress_c.Base.{
  ℕ, ◌+◌, ◌-◌, ◌/◌, ◌%◌, ◌^◌, String, ◌&&◌, Option, none, some, List, [], ◌∷◌, length, ◌==◌, str_eq,
  str_append, if◌then◌else◌,
}
use bigdataexpress_c.Base.Int.{ℤ, pos, negsuc, eqb_ℤ}
use bigdataexpress_c.Base.Keyed.{Keyed, emplace}
use bigdataexpress_c.Store.{
  Block, BlockState, BlockFiles, FileItem, DatasetFile, Rawjob, get_site_info, update_rawjob_size,
}
use bigdataexpress_c.Bootstrap.{
  file_expand_and_group, Group, ExpandReply, BootEnv, Boot, Answer, gives, crashes, B, pure, refuse,
  crash, ◌>>=◌, ◌>>◌, write_store, get, ask, draw,
}
use bigdataexpress_c.Bootstrap.Paths.{split, is_bar, is_comma, cut_path, dst_dir}
use bigdataexpress_c.Bootstrap.Sources.{Source, no_sources, collect}

-- A job for a storage, as the parsing leaves it: an entry of `srcdoc`.
pub record Draft : Type 0 where
  pub src_site : String
  pub src_storage : String
  pub src_dtn : String
  pub src_dtn_addr : String
  pub size : ℕ
  pub base_rate : ℕ
  pub blocks : List Block
  pub files : ℕ

abbrev pub site_url : String → Boot → String
site_url id s = elim (get_site_info id s.store) [ none ↦ "" | some site ↦ site.url ]

-- `size / (time/1000)` where `time` is a thousand times the deadline: the quotient is unsigned.
unfoldable pub unsigned : ℤ → ℕ
unsigned (pos n) = n % 2 ^ 64
unsigned (negsuc n) = 2 ^ 64 - 1 - n % 2 ^ 64

unfoldable pub base_rate : ℕ → ℤ → B ℕ
unfolding unsigned
base_rate size deadline = if unsigned deadline == 0 then crash else pure (size / unsigned deadline)

unfoldable pub insert_block : BootEnv → BlockFiles → B String
insert_block env files = do
  id ← draw env
  write_store (λ db. record db { block_files = emplace id files db.block_files })
  pure id

abbrev pub new_block : String → ℕ → Block
new_block id size = record {
  id = id;
  state = BlockState.waiting;
  size = pos size;
  tx_bytes = pos 0;
  start = pos 0;
  end = none;
  avg_rate = none;
}

unfoldable pub mode_of : Group → ℕ
mode_of g = if g.parent_folder_list then 1 else if length g.files == 1 then 0 else 1

abbrev pub group_files : Group → BlockFiles
group_files g = record { files = g.files; mode = mode_of g; checksum = g.checksum }

unfoldable pub insert_groups : BootEnv → List Group → B (List Block)
unfolding insert_block mode_of
insert_groups env [] = pure []
insert_groups env (g ∷ gs) = do
  id ← insert_block env (group_files g)
  blocks ← insert_groups env gs
  pure (new_block id g.size ∷ blocks)

abbrev pub count_files : List Group → ℕ
count_files [] = 0
count_files (g ∷ gs) = length g.files + count_files gs

abbrev pub draft_of : {P : Type 0} → Source P → ℕ → ℕ → List Block → ℕ → Draft
draft_of src size rate blocks files = record {
  src_site = src.src_site;
  src_storage = src.storage;
  src_dtn = src.dtn;
  src_dtn_addr = src.dtn_addr;
  size = size;
  base_rate = rate;
  blocks = blocks;
  files = files;
}

unfoldable pub on_groups : BootEnv → ℤ → Source String → ExpandReply → B Draft
unfolding insert_groups base_rate
on_groups env deadline src r =
    if r.status == 200
    then if str_eq r.error "OK" && eqb_ℤ r.code (pos 0)
      then (do
        rate ← base_rate r.total_size deadline
        blocks ← insert_groups env r.groups
        pure (draft_of src r.total_size rate blocks (count_files r.groups)))
      else refuse "error expand_and_group response code"
    else refuse "error expand_and_group rest call"

unfoldable pub expand : BootEnv → String → String → ℤ → Source String → B Draft
unfolding on_groups
expand env url dst_path deadline src = do
  r ← ask env.expand_reply (file_expand_and_group url src.dtn dst_path src.paths)
  on_groups env deadline src r

-- An entry of a data set.
pub record Entry : Type 0 where
  pub spath : String
  pub sfile : String
  pub dpath : String
  pub size : ℕ

abbrev pub entry_in : DatasetFile → String → Option String → Answer Entry
entry_in file path none = crashes
entry_in file path (some dir) =
    gives (record {
      spath = (cut_path path).0;
      sfile = (cut_path path).1;
      dpath = dir;
      size = file.size;
    })

unfoldable pub entry_of : DatasetFile → String → Answer Entry
unfolding dst_dir split cut_path
entry_of file path = entry_in file path (dst_dir (split is_bar file.dst))

-- For each entry, the folder and the file.
abbrev pub entry_items : List Entry → List FileItem
entry_items [] = []
entry_items (e ∷ es) =
    record { src = e.spath; dst = e.dpath; size = 0 }
    ∷ record { src = str_append e.spath e.sfile; dst = str_append e.dpath e.sfile; size = e.size }
    ∷ entry_items es

abbrev pub entries_size : List Entry → ℕ
entries_size [] = 0
entries_size (e ∷ es) = e.size + entries_size es

-- The sum of the sizes is a `size_t`.
unfoldable pub single_block : BootEnv → ℤ → Source Entry → B Draft
unfolding insert_block base_rate
single_block env deadline src = do
  let size = entries_size src.paths % 2 ^ 64
  let items = entry_items src.paths
  id ← insert_block env (record { files = items; mode = 1; checksum = none })
  rate ← base_rate size deadline
  pure (draft_of src size rate (new_block id size ∷ []) (length items / 2))

-- The loop over `smap`.
unfoldable pub each : {P : Type 0} → (Source P → B Draft) → Keyed (Source P) → B (List Draft)
each f [] = pure []
each f ((storage, src) ∷ m) = do draft ← f src; drafts ← each f m; pure (draft ∷ drafts)

-- `total_size += size`, where `total_size` is a `double`.
abbrev pub total_size_from : BootEnv → ℕ → List Draft → ℕ
total_size_from env total [] = total
total_size_from env total (d ∷ ds) = total_size_from env (env.round (total + env.round d.size)) ds

abbrev pub total_size : BootEnv → List Draft → ℕ
total_size env ds = total_size_from env 0 ds

abbrev pub record_size : BootEnv → String → List Draft → B (List Draft)
record_size env id drafts =
    write_store (update_rawjob_size id (total_size env drafts)) >> pure drafts

unfoldable pub parse_raw_job_src : BootEnv → Rawjob → String → B (List Draft)
unfolding collect expand each split
parse_raw_job_src env r dst_path = do
  s ← get
  let url = site_url r.src_site s
  acc ←
      collect env url r.src_site (λ text. text) (λ text path. gives path)
        (split is_comma r.request.src_file) no_sources
  drafts ← each (expand env url dst_path r.request.deadline) acc.smap
  record_size env r.id drafts

unfoldable pub parse_raw_job_src_ds : BootEnv → Rawjob → B (List Draft)
unfolding collect single_block each entry_of
parse_raw_job_src_ds env r = do
  s ← get
  acc ←
      collect env (site_url r.src_site s) r.src_site (λ file. file.src) entry_of r.request.files
        no_sources
  drafts ← each (single_block env r.request.deadline) acc.smap
  record_size env r.id drafts
