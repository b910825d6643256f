-- ===== src/Graph.antt =====
-- server/resourcegraph.{h,cc}: the graph of storages, DTNs and agents. Nodes and edges stand in
-- `std::map`s, whose entries do not move, and point to one another. A pointer to a node is the map
-- that holds it with the key there; a pointer to an edge is the edge's key. A pointer whose entry
-- has been erased dangles, and following it is a `fault`.
pub mod Build
pub mod Remove
pub mod Links
pub mod Linked
pub mod Tests
use bigdataexpress_c.Base.{
  String, Bool, true, false, ◌&&◌, ◌||◌, ◌++◌, Option, none, some, List, [], ◌∷◌, str_eq,
  if◌then◌else◌,
}
use bigdataexpress_c.Base.Int.{ℤ, pos}
use bigdataexpress_c.Base.Keyed.{Keyed, is_some, lookup, emplace, update}
use bigdataexpress_c.Outcome.{
  Outcome, ok, throw, fault, ◌>>=◌, node_not_found, storage_not_found, dtn_not_found,
  general_not_found, not_a_dtn, edge_not_found, no_gateway, no_launcher, no_sdn,
}

pub data StorageType : Type 0 where
  internal cluster : StorageType

pub record StorageLink : Type 0 where
  pub id : String
  pub type : String
  pub name : String

-- The members that the server reads of the JSON by which an agent or the site store describes a
-- module. `root_folders` is passed on as it is.
pub record Description : Type 0 where
  pub id : String
  pub type : String
  pub name : String
  pub ctrl_ip : String
  pub data_rate : ℤ
  pub queue_name : String
  pub root_folder : String
  pub root_folders : String
  pub io_capacity : ℤ
  pub storages : List StorageLink

-- `RBase`: the pointers `jobs_` are keys of the job manager's map.
pub record Resource : Type 0 where
  pub rid : String
  pub name : String
  pub queue : String
  pub properties : Option Description
  pub capacity : ℤ
  pub connected : Bool
  pub jobs : Keyed String

abbrev pub new_resource : String → String → ℤ → Resource
new_resource id name rate = record {
  rid = id;
  name = name;
  queue = "";
  properties = none;
  capacity = rate;
  connected = false;
  jobs = [];
}

pub data NodeKind : Type 0 where
  storage dtn general : NodeKind

pub record NodeRef : Type 0 where
  pub kind : NodeKind
  pub key : String

-- What `StorageNode` and `DTNNode` add to `RNode`; `one_dtn` is the key that `p_dtn` points to.
pub data Own : Type 0 where
  storage_own : (st : StorageType) (root_folder : String) (one_dtn : Option String) → Own
  dtn_own : (ctrl_ip : String) → Own
  general_own : Own

pub record Node : Type 0 where
  pub base : Resource
  pub open base use *
  pub in_edges : List String
  pub out_edges : List String
  pub own : Own

abbrev pub new_node : Resource → Own → Node
new_node b own = record { base = b; in_edges = []; out_edges = []; own = own }

-- An edge is in the graph only once it is connected, so both its ends are set.
pub record Edge : Type 0 where
  pub base : Resource
  pub open base use *
  pub src_node : NodeRef
  pub dst_node : NodeRef

pub record RGraph : Type 0 where
  pub s_nodes : Keyed Node
  pub dtn_nodes : Keyed Node
  pub general_nodes : Keyed Node
  pub edges : Keyed Edge

abbrev pub gateway_id : String
gateway_id = "RGRAPH_ID_GATEWAY"

abbrev pub launcher_id : String
launcher_id = "RGRAPH_ID_LAUNCHER"

abbrev pub sdn_id : String
sdn_id = "RGRAPH_ID_SDN"

-- The constructor's graph, and the one that `reset` leaves.
abbrev pub reset : RGraph
reset = record { s_nodes = []; dtn_nodes = []; general_nodes = []; edges = [] }

unfoldable pub nodes_of : RGraph → NodeKind → Keyed Node
nodes_of g storage = g.s_nodes
nodes_of g dtn = g.dtn_nodes
nodes_of g general = g.general_nodes

unfoldable pub with_nodes : NodeKind → (Keyed Node → Keyed Node) → RGraph → RGraph
with_nodes storage f g = record g { s_nodes = f g.s_nodes }
with_nodes dtn f g = record g { dtn_nodes = f g.dtn_nodes }
with_nodes general f g = record g { general_nodes = f g.general_nodes }

-- The node that a pointer leads to, if it is still there.
unfoldable pub node_at : RGraph → NodeRef → Option Node
unfolding nodes_of
node_at g r = lookup r.key (nodes_of g r.kind)

-- A write through a pointer.
unfoldable pub update_node : NodeRef → (Node → Node) → RGraph → RGraph
unfolding with_nodes
update_node r f g = with_nodes r.kind (update r.key f) g

abbrev pub live {ℓ} : {A : Type ℓ} → Option A → Outcome A
live none = fault
live (some a) = ok a

unfoldable pub has_storage_node : String → RGraph → Bool
has_storage_node id g = is_some (lookup id g.s_nodes)

unfoldable pub has_dtn_node : String → RGraph → Bool
has_dtn_node id g = is_some (lookup id g.dtn_nodes)

unfoldable pub has_general_node : String → RGraph → Bool
has_general_node id g = is_some (lookup id g.general_nodes)

unfoldable pub has_node : String → RGraph → Bool
unfolding has_storage_node has_dtn_node has_general_node
has_node id g = has_storage_node id g || has_dtn_node id g || has_general_node id g

abbrev pub has_launcher : RGraph → Bool
has_launcher = has_general_node launcher_id

abbrev pub has_sdn : RGraph → Bool
has_sdn = has_general_node sdn_id

-- `get_node`: storages come first, then DTNs, then the others.
unfoldable pub get_node : String → RGraph → Outcome NodeRef
unfolding has_storage_node has_dtn_node has_general_node
get_node id g =
    if has_storage_node id g
    then ok (record { kind = storage; key = id })
    else if has_dtn_node id g
    then ok (record { kind = dtn; key = id })
    else if has_general_node id g
    then ok (record { kind = general; key = id })
    else throw (node_not_found id)
