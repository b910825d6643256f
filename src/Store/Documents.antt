-- ===== src/Store/Documents.antt =====
-- The documents of server/sitestore.{h,cc} and server/typedefs.h, with the members that the server reads
-- and writes.
use bigdataexpress_c.Base.{ℕ, String, Bool, Option, List}
use bigdataexpress_c.Base.Int.{ℤ}
use bigdataexpress_c.Base.Keyed.{Keyed}
use bigdataexpress_c.Network.{Dtn, SjobStage, SjobState}

pub data RawjobState : Type 0 where
  waiting transferring finished error : RawjobState

pub data BlockState : Type 0 where
  waiting transferring finished : BlockState

pub data FlowState : Type 0 where
  scheduling setting transferring waiting waiting_to_be_teared tearing done error : FlowState

-- What a failed job says: the code of the data mover and its meaning, a message, or the text of a
-- failure before the launch of a flow, which is left out.
pub data JobError : Type 0 where
  mdtm_error : (code : ℤ) (meaning : String) → JobError
  message : String → JobError
  unconnected : JobError

-- `avg_rate` is the quotient of so many bytes by so many milliseconds.
pub record Block : Type 0 where
  pub id : String
  pub state : BlockState
  pub size : ℤ
  pub tx_bytes : ℤ
  pub start : ℤ
  pub end : Option ℤ
  pub avg_rate : Option (ℤ × ℤ)

pub record Flow : Type 0 where
  pub task : String
  pub block : String
  pub state : FlowState
  pub tx_bytes : ℤ
  pub last_active : ℤ
  pub src_dtn : Dtn
  pub dst_dtn : Dtn

pub record Sjob : Type 0 where
  pub id : String
  pub rawjob : String
  pub state : SjobState
  pub stages : Keyed SjobStage
  pub error : Option JobError
  pub src_site : String
  pub dst_site : String
  pub src_storage : String
  pub dst_storage : String
  pub size : ℕ
  pub transfer_retry : ℤ
  pub max_flows : ℤ
  pub tx_bytes : ℤ
  pub flows : List Flow
  pub blocks : List Block

-- A file of a data set: its identifiers at the two sites, and its size.
pub record DatasetFile : Type 0 where
  pub src : String
  pub dst : String
  pub size : ℕ

-- What a user asks for; a text of many files, or a data set.
pub record JobRequest : Type 0 where
  pub user : String
  pub src_file : String
  pub dst_file : String
  pub dataset : Bool
  pub files : List DatasetFile
  pub deadline : ℤ

-- A certificate of a user, and the proxy that is made of it.
pub record Certs : Type 0 where
  pub user_key : String
  pub user_cert : String
  pub proxy_key : String
  pub proxy_cert : String

pub record Rawjob : Type 0 where
  pub id : String
  pub request : JobRequest
  pub state : RawjobState
  pub src_site : String
  pub dst_site : String
  pub error : Option JobError
  pub tx_bytes : ℤ
  pub size : Option ℕ
  pub src_certs : Option Certs
  pub dst_certs : Option Certs

pub record Site : Type 0 where
  pub id : String
  pub url : String
  pub abbrev_name : String
  pub tx_bytes : ℤ
  pub rx_bytes : ℤ

pub record UserCert : Type 0 where
  pub user : String
  pub site : String
  pub key : String
  pub cert : String

-- An entry of a block: what is copied, and where to.
pub record FileItem : Type 0 where
  pub src : String
  pub dst : String
  pub size : ℕ

-- The files of a block, how they are launched, and their checksums.
pub record BlockFiles : Type 0 where
  pub files : List FileItem
  pub mode : ℕ
  pub checksum : Option (String × List String)

-- `sjobevents` has the insertions into the collection of events, the latest last.
pub record Database : Type 0 where
  pub sjobs : List Sjob
  pub rawjobs : List Rawjob
  pub sites : List Site
  pub block_files : Keyed BlockFiles
  pub sjobevents : List (String × SjobState)
  pub usercerts : List UserCert
