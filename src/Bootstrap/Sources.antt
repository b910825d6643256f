-- ===== src/Bootstrap/Sources.antt =====
-- The loop that `parse_raw_job_src` and `parse_raw_job_src_ds` share: the files of a raw job are
-- gathered by their storages, `smap`, and each DTN is asked for once, `dtninfo`.
use bigdataexpress_c.Base.{
  String, Option, none, some, List, [], ◌∷◌, ◌++◌, ◌==◌, str_eq, if◌then◌else◌,
}
use bigdataexpress_c.Base.Keyed.{Keyed, lookup, emplace, update, is_some, or_else}
use bigdataexpress_c.Bootstrap.{
  src_dtn_info, BootEnv, Answer, gives, fails, crashes, B, pure, refuse, crash, ◌>>=◌, ask,
}
use bigdataexpress_c.Bootstrap.Paths.{FileId, parse_id, storage_of}

pub record Source (P : Type 0) : Type 0 where
  pub src_site : String
  pub storage : String
  pub dtn : String
  pub dtn_addr : String
  pub paths : List P

pub record Sources (P : Type 0) : Type 0 where
  pub smap : Keyed (Source P)
  pub dtninfo : Keyed String

abbrev pub no_sources : {P : Type 0} → Sources P
no_sources = record { smap = []; dtninfo = [] }

module _ (env : BootEnv) (url site : String) where
  unfoldable pub dtn_info : String → Keyed String → B (Keyed String)
  dtn_info dtn known = if is_some (lookup dtn known) then pure known else do
    r ← ask env.info_reply (src_dtn_info url dtn)
    if r.status == 200 then pure (emplace dtn r.ctrl_ip known) else refuse "error get_dtn_info()"

  module _ {P : Type 0} where
    abbrev pub new_source : FileId → Keyed String → Source P
    new_source f known = record {
      src_site = site;
      storage = storage_of f;
      dtn = f.dtn;
      dtn_addr = or_else (lookup f.dtn known) "";
      paths = [];
    }

    abbrev pub append_path : FileId → Keyed String → P → Keyed (Source P) → Keyed (Source P)
    append_path f known p m =
        update (storage_of f) (λ s. record s { paths = s.paths ++ p ∷ [] })
          (emplace (storage_of f) (new_source f known) m)

    -- The entry of a file is made last.
    abbrev pub put_entry : FileId → Answer P → Sources P → Keyed String → B (Sources P)
    put_entry f (gives p) acc known =
        pure (record { smap = append_path f known p acc.smap; dtninfo = known })
    put_entry f (fails e) acc known = refuse e
    put_entry f crashes acc known = crash

    unfoldable pub gather_file : FileId → Answer P → Sources P → B (Sources P)
    unfolding dtn_info
    gather_file f entry acc =
        if str_eq site f.site
        then dtn_info f.dtn acc.dtninfo >>= put_entry f entry acc
        else refuse "scheduler::parse_raw_job_src(): src path is not consisitent with the src site."

    unfoldable pub add_item : Option FileId → (String → Answer P) → Sources P → B (Sources P)
    unfolding gather_file
    add_item none entry acc = refuse "scheduler::parse_raw_job_src(): unknown src path"
    add_item (some f) entry acc = gather_file f (entry f.path) acc

    unfoldable pub collect :
        {A : Type 0} → (A → String) → (A → String → Answer P) → List A → Sources P → B (Sources P)
    unfolding add_item parse_id
    collect text entry [] acc = pure acc
    collect text entry (x ∷ xs) acc =
        add_item (parse_id (text x)) (entry x) acc >>= λ next. collect text entry xs next
