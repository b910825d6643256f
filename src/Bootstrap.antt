-- ===== src/Bootstrap.antt =====
-- server/scheduler.cc, `bootstrap_transfer_job` and what it calls: a raw job that a user has submitted
-- becomes a job for each storage, with its blocks. Here the state that these functions share, what
-- they ask of other sites, and their ways to end. A sum in a `size_t` wraps at 2 ^ 64, one in a
-- `double` is rounded, and a division of integers by 0 is the end `crashes`.
pub mod Paths
pub mod Sources
pub mod Expand
pub mod Run
pub mod Keeps
pub mod Ends
pub mod Yields
pub mod Gathers
pub mod Sizes
pub mod Tests
use bigdataexpress_c.Base.{ℕ, suc, String, Bool, Option, List, ◌∷◌}
use bigdataexpress_c.Base.Int.{ℤ}
use bigdataexpress_c.Store.{Database, FileItem}

-- The commands to the portal of a site: `get_dtn_info` for the destination and for a source, and
-- `file_expand_and_group`.
pub data Ask : Type 0 where
  dst_dtn_info : (url dtn storage path : String) → Ask
  src_dtn_info : (url dtn : String) → Ask
  file_expand_and_group : (url target dst_path : String) (src_path : List String) → Ask

pub record InfoReply : Type 0 where
  pub status : ℕ
  pub ctrl_ip : String
  pub available : ℤ

-- A group of files; `checksum` is its algorithm and its sums.
pub record Group : Type 0 where
  pub files : List FileItem
  pub size : ℕ
  pub parent_folder_list : Bool
  pub checksum : Option (String × List String)

pub record ExpandReply : Type 0 where
  pub status : ℕ
  pub error : String
  pub code : ℤ
  pub total_size : ℕ
  pub groups : List Group

-- The answer to the latest command, the first of the list; the identifier of the next document; and
-- `generate_proxy_cert` of utils/proxy-cert.cc, which throws, here `none`, where OpenSSL does not
-- read the key or the certificate, or does not sign. `round` is the `double` nearest to a sum of
-- sizes.
pub record BootEnv : Type 0 where
  pub info_reply : List Ask → InfoReply
  pub expand_reply : List Ask → ExpandReply
  pub oid : ℕ → String
  pub proxy_cert : String → String → Option (String × String)
  pub round : ℕ → ℕ
  pub has_launcher : Bool
  pub ld_checksum : Bool

pub record Boot : Type 0 where
  pub store : Database
  pub drawn : ℕ
  pub asked : List Ask

-- `job["error"]`, or the program ends.
pub data Answer (A : Type 0) : Type 0 where
  gives : A → Answer A
  fails : String → Answer A
  crashes : Answer A

abbrev pub B : Type 0 → Type 0
B A = Boot → Answer A × Boot

unfoldable pub pure : {A : Type 0} → A → B A
pure a s = (gives a, s)

unfoldable pub refuse : {A : Type 0} → String → B A
refuse e s = (fails e, s)

unfoldable pub crash : {A : Type 0} → B A
crash s = (crashes, s)

abbrev pub on_answer : {A C : Type 0} → Answer A → Boot → (A → B C) → Answer C × Boot
on_answer (gives a) s f = f a s
on_answer (fails e) s f = (fails e, s)
on_answer crashes s f = (crashes, s)

infixl 5 ◌>>=◌ ◌>>◌
unfoldable pub ◌>>=◌ : {A C : Type 0} → B A → (A → B C) → B C
◌>>=◌ m f s = let (a, s') = m s in on_answer a s' f

abbrev pub ◌>>◌ : {C : Type 0} → B (Unit {0}) → B C → B C
m >> k = m >>= λ done. k

unfoldable pub write_store : (Database → Database) → B (Unit {0})
write_store f s = (gives tt, record s { store = f s.store })

unfoldable pub get : B Boot
get s = (gives s, s)

-- A command is sent and answered.
unfoldable pub ask : {R : Type 0} → (List Ask → R) → Ask → B R
ask reply a s = (gives (reply (a ∷ s.asked)), record s { asked = a ∷ s.asked })

unfoldable pub draw : BootEnv → B String
draw env s = (gives (env.oid s.drawn), record s { drawn = suc s.drawn })
