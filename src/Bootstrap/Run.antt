-- ===== src/Bootstrap/Run.antt =====
-- `bootstrap_transfer_job`, with `create_raw_job_proxy_cert`, `parse_raw_job_dst` and
-- `create_per_storage_job`. The members of a job that nothing reads later are left out.
use bigdataexpress_c.Base.{
  ℕ, suc, ◌+◌, ◌-◌, ◌*◌, String, Bool, ◌&&◌, Option, none, some, List, [], ◌∷◌, ◌++◌, ◌==◌, str_eq,
  if◌then◌else◌,
}
use bigdataexpress_c.Base.Int.{ℤ, pos, negsuc, ltb_ℤ}
use bigdataexpress_c.Base.Keyed.{Keyed, is_some}
use bigdataexpress_c.Network.{SjobState, SjobStage}
use bigdataexpress_c.Store.{
  Sjob, Rawjob, RawjobState, Certs, UserCert, message, get_rawjob_from_id, get_user_keys, set_stage,
  update_rawjob, update_rawjob_state, del_sjobs,
}
use bigdataexpress_c.Bootstrap.{
  dst_dtn_info, InfoReply, BootEnv, Boot, Answer, gives, fails, crashes, B, pure, refuse, crash,
  ◌>>=◌, ◌>>◌, write_store, get, ask,
}
use bigdataexpress_c.Bootstrap.Paths.{FileId, parse_id, storage_of}
use bigdataexpress_c.Bootstrap.Expand.{
  Draft, site_url, total_size, parse_raw_job_src, parse_raw_job_src_ds,
}

-- `job["dst"]`. The answer about the disk is written to `disk`; nothing writes `dist`.
pub record Dst : Type 0 where
  pub site : String
  pub storage : String
  pub dtn : String
  pub dtn_addr : String
  pub path : String
  pub disk : ℤ
  pub dist : Option ℤ

abbrev pub dst_of : FileId → InfoReply → Dst
dst_of f r = record {
  site = f.site;
  storage = storage_of f;
  dtn = f.dtn;
  dtn_addr = r.ctrl_ip;
  path = f.path;
  disk = r.available;
  dist = none;
}

-- The function returns, or the program ends at a division by 0, a read out of bounds, or an exception
-- that leaves the handler.
pub data Ending : Type 0 where
  returns : Boot → Ending
  dies : Boot → Ending

unfoldable pub job_error : String → String → Boot → Boot
job_error id error s = record s {
  store =
      update_rawjob id (λ r. record r { error = some (message error) })
        (update_rawjob_state id RawjobState.error s.store);
}

abbrev pub on_parsed : {A : Type 0} → String → Answer A → Boot → (A → Boot → Ending) → Ending
on_parsed id (gives a) s k = k a s
on_parsed id (fails e) s k = returns (job_error id e s)
on_parsed id crashes s k = dies s

abbrev pub parsed : {A : Type 0} → String → B A → Boot → (A → Boot → Ending) → Ending
parsed id m s k = let (a, s') = m s in on_parsed id a s' k

-- `n` hundredths, as the two sides of a comparison are multiplied.
abbrev pub hundredths : ℕ → ℤ → ℤ
hundredths n (pos k) = pos (n * k)
hundredths n (negsuc k) = negsuc (n * k + (n - 1))

-- More than 0.95 of what the disk has free; the test looks at `dist`.
unfoldable pub no_space : BootEnv → List Draft → Dst → Bool
no_space env drafts dst =
    is_some dst.dist && ltb_ℤ (hundredths 95 dst.disk) (pos (total_size env drafts * 100))

module _ (env : BootEnv) where
  abbrev pub certs_of : UserCert → String × String → Certs
  certs_of c (key, cert) = record {
    user_key = c.key;
    user_cert = c.cert;
    proxy_key = key;
    proxy_cert = cert;
  }

  abbrev pub no_keys : String
  no_keys = "error at getting source site user certificate from db: certificate not found"

  -- What `generate_proxy_cert` throws is caught by nothing in the handler.
  abbrev pub put_certs :
      String
      → UserCert
      → UserCert
      → Option (String × String)
      → Option (String × String)
      → B (Unit {0})
  put_certs id src dst none q = crash
  put_certs id src dst (some p) none = crash
  put_certs id src dst (some p) (some q) = do
    write_store (update_rawjob id (λ r. record r { src_certs = some (certs_of src p) }))
    write_store (update_rawjob id (λ r. record r { dst_certs = some (certs_of dst q) }))

  abbrev pub save_certs : String → Option UserCert → Option UserCert → B (Unit {0})
  save_certs id none dst = refuse no_keys
  save_certs id (some src) none = refuse no_keys
  save_certs id (some src) (some dst) =
      put_certs id src dst (env.proxy_cert src.key src.cert) (env.proxy_cert dst.key dst.cert)

  unfoldable pub create_raw_job_proxy_cert : Rawjob → B (Unit {0})
  unfolding get_user_keys
  create_raw_job_proxy_cert r = do
    s ← get
    save_certs r.id (get_user_keys r.request.user r.src_site s.store)
        (get_user_keys r.request.user r.dst_site s.store)

  abbrev pub on_info : FileId → InfoReply → B Dst
  on_info f r = if r.status == 200 then pure (dst_of f r) else refuse "error get_dtn_info()."

  unfoldable pub ask_dst : String → Option FileId → B Dst
  ask_dst dst_site none = refuse "scheduler::parse_raw_job_dst(): unknown dst path"
  ask_dst dst_site (some f) =
      if str_eq dst_site f.site
      then (do
        s ← get
        r ← ask env.info_reply (dst_dtn_info (site_url dst_site s) f.dtn (storage_of f) f.path)
        on_info f r)
      else refuse "scheduler::parse_raw_job_dst(): dst path is not consistent with dst site."

  unfoldable pub parse_raw_job_dst : Rawjob → B Dst
  unfolding parse_id ask_dst
  parse_raw_job_dst r = ask_dst r.dst_site (parse_id r.request.dst_file)

  unfoldable pub parse_source : Rawjob → Dst → B (List Draft)
  unfolding parse_raw_job_src parse_raw_job_src_ds
  parse_source r dst =
      if r.request.dataset then parse_raw_job_src_ds env r else parse_raw_job_src env r dst.path

  unfoldable pub initial_stages : Keyed SjobStage
  unfolding set_stage
  initial_stages =
      let base = set_stage "bootstrap.general" SjobStage.working (
        set_stage "bootstrap.query" SjobStage.working (
          set_stage "bootstrap.match" SjobStage.pending (
            set_stage "network.general" SjobStage.pending (
              set_stage "network.planning" SjobStage.pending (
                set_stage "transfer.general" SjobStage.pending (
                  set_stage "transfer.launch" SjobStage.pending (
                    set_stage "transfer.transfer" SjobStage.pending
                      (set_stage "teardown.general" SjobStage.pending [])))))))) in
      if env.ld_checksum then set_stage "transfer.checksum" SjobStage.pending base else base

  -- `create_per_storage_job` and the members that the loop over the jobs sets.
  abbrev pub sjob_of : String → Rawjob → Dst → Draft → Sjob
  sjob_of id r dst d = record {
    id = id;
    rawjob = r.id;
    state = SjobState.bootstrap;
    stages = initial_stages;
    error = none;
    src_site = d.src_site;
    dst_site = dst.site;
    src_storage = d.src_storage;
    dst_storage = dst.storage;
    size = d.size;
    transfer_retry = pos 0;
    max_flows = pos 1;
    tx_bytes = pos 0;
    flows = [];
    blocks = d.blocks;
  }

  unfoldable pub insert_sjobs : Rawjob → Dst → List Draft → Boot → Boot
  insert_sjobs r dst [] s = s
  insert_sjobs r dst (d ∷ ds) s = insert_sjobs r dst ds (record s {
    store = record (s.store) { sjobs = s.store.sjobs ++ sjob_of (env.oid s.drawn) r dst d ∷ [] };
    drawn = suc s.drawn;
  })

  unfoldable pub create_jobs : Rawjob → Dst → List Draft → Boot → Ending
  unfolding insert_sjobs job_error
  create_jobs r dst [] s = returns (job_error r.id "create_per_storage_job() failed" s)
  create_jobs r dst (d ∷ ds) s =
      returns (insert_sjobs r dst (d ∷ ds) (record s { store = del_sjobs r.id s.store }))

  unfoldable pub check_space : Rawjob → Dst → List Draft → Boot → Ending
  unfolding create_jobs no_space job_error
  check_space r dst drafts s =
      if no_space env drafts dst
      then returns (job_error r.id "insufficient disk space" s)
      else create_jobs r dst drafts s

  unfoldable pub bootstrap_job : Rawjob → Boot → Ending
  unfolding create_raw_job_proxy_cert parse_raw_job_dst parse_source check_space job_error
  bootstrap_job r s =
      if env.has_launcher
      then parsed r.id (create_raw_job_proxy_cert r) s (λ done s1.
        parsed r.id (parse_raw_job_dst r) s1 (λ dst s2.
          parsed r.id (parse_source r dst) s2 (λ drafts s3. check_space r dst drafts s3)))
      else returns (job_error r.id "no active launcher agent available" s)

  -- A raw job that has an error, from a failure before, is passed over.
  unfoldable pub bootstrap_transfer_job : String → Boot → Ending
  unfolding bootstrap_job get_rawjob_from_id
  bootstrap_transfer_job id s = elim (get_rawjob_from_id id s.store) [
    | none ↦ returns s
    | some r ↦ if is_some r.error then returns s else bootstrap_job r s
  ]
