-- ===== src/Network.antt =====
-- What the server's network code sees and does: the DTNs that it connects, the requests that it
-- sends to the sites and to the WAN service, and the state of a job that it writes to the store.
pub mod Wan
pub mod Setup
pub mod Teardown
pub mod Handling
pub mod Pairing
pub mod Accounts
pub mod Tries
pub mod Bounds
pub mod Tests
use bigdataexpress_c.Base.{ℕ, String, Bool, true, false, Option, List, ◌∷◌, []}
use bigdataexpress_c.Base.Int.{ℤ}

-- The label of a VLAN in a WAN request: any, a site's constraints, or a number.
pub data Label : Type 0 where
  any : Label
  constraints : String → Label
  number : ℤ → Label

pub record Stp : Type 0 where
  pub name : String
  pub local_vlan_constraints : Option String

-- A path of the static configuration, with its first circuit.
pub record StaticPath : Type 0 where
  pub remote_site : String
  pub bandwidth : ℤ
  pub local_vlan_id : ℤ
  pub remote_vlan_id : ℤ

-- The members that are read of the JSON of a DTN.
pub record Dtn : Type 0 where
  pub id : String
  pub site_url : String
  pub site_abbrev : String
  pub data_ip : String
  pub data_mac : String
  pub sdn_setup : Bool
  pub data_vlan_id : ℤ
  pub stp : Option Stp
  pub wan_static : List StaticPath
  pub wan_uuid : String
  pub path_id : ℤ

-- What a reservation of a path inside a site asks for.
pub record SdnRequest : Type 0 where
  pub sdn_setup : Bool
  pub vlan_id : ℤ
  pub oscars_vlan_id : ℤ
  pub rate : ℤ
  pub src_id : String
  pub dst_id : String
  pub src_ip : String
  pub dst_ip : String
  pub src_mac : String
  pub dst_mac : String

pub data Request : Type 0 where
  get_token : Request
  wan_create : (src_stp dst_stp : String) (src_vlan dst_vlan : Label) → Request
  wan_reserve : (uuid src_stp dst_stp : String) (src_vlan dst_vlan : Label) → Request
  wan_commit wan_release wan_terminate wan_delete : (uuid : String) → Request
  sdn_reserve : (url : String) → SdnRequest → Request
  sdn_release : (url : String) (installed_path_id : ℤ) (dtn ip : String) → Request
  icmp_ping : (url dtn destination : String) → Request

pub data SjobStage : Type 0 where
  pending working success error : SjobStage

pub data SjobState : Type 0 where
  waiting transferring finished error bootstrap dtn_matching wan_setup sdn_setup : SjobState
  path_verification launching checksum_verification sdn_teardown wan_teardown : SjobState

pub data Event : Type 0 where
  sends : Request → Event
  stage_is : (stage : String) → SjobStage → Event
  state_is : SjobState → Event

-- The latest event is the first.
abbrev pub World : Type 0
World = List Event

-- One answer to the queries of a WAN creation. `none` is a value that is no number.
pub data Query : Type 0 where
  maximum_bandwidth : Option ℤ → Query
  extract_result_values : List (String × Option ℤ) → Query
  other_query : Query

pub record CreateReply : Type 0 where
  pub service_uuid : String
  pub queries : List Query

pub record SdnReply : Type 0 where
  pub code : ℤ
  pub installed_path_id : Option ℤ
  pub error_code : String
  pub description : String

-- The text of an error: a message, or the answer of a site whose code and description it quotes.
pub data ErrorText : Type 0 where
  message : String → ErrorText
  at_site : String → SdnReply → ErrorText

pub record PingReply : Type 0 where
  pub code : ℤ
  pub error : String

-- The sites and the WAN service: each answer may depend on all that happened before, the request
-- included.
pub record Net : Type 0 where
  pub create_reply : World → CreateReply
  pub status : World → ℕ
  pub sdn_reply : World → SdnReply
  pub ping_reply : World → PingReply

abbrev pub M : Type 0 → Type 0
M A = World → A × World

abbrev pub pure : {A : Type 0} → A → M A
pure a w = (a, w)

infixl 5 ◌>>◌ ◌>>=◌
abbrev pub ◌>>=◌ : {R S : Type 0} → M R → (R → M S) → M S
◌>>=◌ m f w = let (a, w') = m w in f a w'

abbrev pub ◌>>◌ : {S : Type 0} → M (Unit {0}) → M S → M S
first >> next = first >>= λ done. next

-- An event happens; for a request, the answer is read from the world after it.
abbrev pub emit : Event → M (Unit {0})
emit e w = (tt, e ∷ w)

abbrev pub ask : {A : Type 0} → (World → A) → Request → M A
ask reply r w = (reply (sends r ∷ w), sends r ∷ w)

abbrev pub update_stage : String → SjobStage → M (Unit {0})
update_stage name s = emit (stage_is name s)

-- A guarded write of a stage.
abbrev pub update_stage_if : Bool → String → SjobStage → M (Unit {0})
update_stage_if true name s = update_stage name s
update_stage_if false name s = pure tt

abbrev pub update_state : SjobState → M (Unit {0})
update_state s = emit (state_is s)
