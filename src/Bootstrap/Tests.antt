-- ===== src/Bootstrap/Tests.antt =====
-- A data set of three files on two storages becomes two jobs.
use bigdataexpress_c.Base.{
  ℕ, zero, suc, String, ◌≡◌, ◌≢◌, refl, true, false, none, some, [], ◌∷◌, All, arith, ◌⊎◌, List,
}
use bigdataexpress_c.Base.Int.{pos}
use bigdataexpress_c.Base.Keyed.{lookup, emplace, update}
use bigdataexpress_c.Store.{
  Sjob, Rawjob, RawjobState, DatasetFile, find_one, find_all, del_sjobs, update_one, update_rawjob,
}
use bigdataexpress_c.Bootstrap.{BootEnv, Boot, gives, pure, ◌>>=◌, write_store, get, ask, draw}
use bigdataexpress_c.Bootstrap.Paths.{parse_id}
use bigdataexpress_c.Bootstrap.Sources.{collect, no_sources}
use bigdataexpress_c.Bootstrap.Expand.{Draft, entry_of, unsigned, parse_raw_job_src_ds, total_size}
use bigdataexpress_c.Bootstrap.Run.{Ending, returns, dies, bootstrap_transfer_job}
use bigdataexpress_c.Bootstrap.Gathers.{Reached, IsFile, Adds, entries, collect-Yields}
use bigdataexpress_c.Bootstrap.Yields.{Yields}
use bigdataexpress_c.Bootstrap.Sizes.{parse_raw_job_src_ds-total_size}
use bigdataexpress_c.Bootstrap.Ends.{PassedOver, Told, IsFatal, bootstrap_transfer_job-Told}

abbrev file_of : String → ℕ → DatasetFile
file_of name size = record { src = name; dst = "s2|d2|disk|/to"; size = size }

abbrev files : List DatasetFile
files =
    file_of "s1|d1|disk|/data/a" 10
    ∷ file_of "s1|d1|tape|/data/b" 20
    ∷ file_of "s1|d1|disk|/data/c" 30
    ∷ []

abbrev rawjob : Rawjob
rawjob = record {
  id = "r1";
  request = record {
    user = "u1";
    src_file = "";
    dst_file = "s2|d2|disk|/to";
    dataset = true;
    files = files;
    deadline = pos 100;
  };
  state = RawjobState.waiting;
  src_site = "s1";
  dst_site = "s2";
  error = none;
  tx_bytes = pos 0;
  size = none;
  src_certs = none;
  dst_certs = none;
}

abbrev start : Boot
start = record {
  store = record {
    sjobs = [];
    rawjobs = rawjob ∷ [];
    sites = [];
    block_files = [];
    sjobevents = [];
    usercerts =
        record { user = "u1"; site = "s1"; key = "k1"; cert = "c1" }
        ∷ record { user = "u1"; site = "s2"; key = "k2"; cert = "c2" }
        ∷ [];
  };
  drawn = 0;
  asked = [];
}

abbrev oid_of : ℕ → String
oid_of zero = "oid0"
oid_of (suc zero) = "oid1"
oid_of (suc (suc n)) = "oid2"

abbrev pub env : BootEnv
env = record {
  info_reply = λ asked. record { status = 200; ctrl_ip = "10.0.0.1"; available = pos 5 };
  expand_reply =
      λ asked. record { status = 500; error = ""; code = pos 0; total_size = 0; groups = [] };
  oid = oid_of;
  proxy_cert = λ key cert. some ("proxy key", "proxy cert");
  round = λ n. n;
  has_launcher = true;
  ld_checksum = false;
}

portals_answer : Reached env
portals_answer asked = refl

valid : All (λ (f : DatasetFile). IsFile "s1" (parse_id f.src) (entry_of f)) files
unfolding parse_id entry_of
valid = ((refl, (_, refl)), ((refl, (_, refl)), ((refl, (_, refl)), tt)))

nonzero : unsigned (pos 100) ≢ 0
unfolding unsigned
nonzero e = absurd (omega arith)

collect-Yields_example :
    Yields
      (Adds env "" "s1" (λ k. entries k (λ f. f.src) entry_of files) [])
      (collect env "" "s1" (λ f. f.src) entry_of files no_sources)
collect-Yields_example =
    collect-Yields env "" "s1" (λ f. f.src) entry_of files no_sources portals_answer valid

parse_raw_job_src_ds-total_size_example :
    (drafts : List Draft) × ((parse_raw_job_src_ds env rawjob start).0 ≡ gives drafts)
    × (total_size env drafts ≡ 60)
parse_raw_job_src_ds-total_size_example =
    parse_raw_job_src_ds-total_size env rawjob start portals_answer nonzero valid (omega arith)
      (λ n h. refl)

bootstrap_transfer_job-Told_example :
    (PassedOver "r1" start × (bootstrap_transfer_job env "r1" start ≡ returns start))
    ⊎ Told (IsFatal env "r1" start) "r1" start (bootstrap_transfer_job env "r1" start)
bootstrap_transfer_job-Told_example = bootstrap_transfer_job-Told env "r1" start

abbrev list_jobs : List Sjob → List (String × ℕ)
list_jobs [] = []
list_jobs (j ∷ js) = (j.src_storage, j.size) ∷ list_jobs js

-- The disk has 5 bytes, and the job of 60 is not refused.
abbrev jobs_of : Ending → List (String × ℕ)
jobs_of (returns s) = list_jobs s.store.sjobs
jobs_of (dies s) = []

two_jobs : jobs_of (bootstrap_transfer_job env "r1" start) ≡ ("d1|disk", 40) ∷ ("d1|tape", 20) ∷ []
unfolding bootstrap_transfer_job ◌>>=◌ pure write_store get ask draw find_one find_all update_one
    update_rawjob lookup emplace update del_sjobs
two_jobs = refl
