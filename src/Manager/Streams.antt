-- ===== src/Manager/Streams.antt =====
-- `create_job` and `get_storage_connected_dtns` of server/resourcemanager.cc, and the jobs of a node or
-- an edge in server/resourcegraph.cc: `find_job`, `add_job`, `del_job`.
use bigdataexpress_c.Base.{String, Bool, none, some, List, [], ◌∷◌, ◌++◌, if◌then◌else◌}
use bigdataexpress_c.Base.Int.{ℤ}
use bigdataexpress_c.Base.Keyed.{lookup, emplace, erase, update}
use bigdataexpress_c.Outcome.{Outcome, ok, throw, fault, job_not_found, ◌>>=◌}
use bigdataexpress_c.Job.{BaseJob, BasicJobs, JobGroup, JobState, add_basic_job}
use bigdataexpress_c.Graph.{RGraph, Resource, NodeRef, storage, dtn, general, update_node, live}
use bigdataexpress_c.Graph.Build.{get_storage_node, get_dtn_node, get_general_node, get_edge}
use bigdataexpress_c.Manager.Provision.{Manager, insert_stream}

unfoldable pub find_job : BasicJobs → String → Resource → Outcome BaseJob
find_job jm id r = elim (lookup id r.jobs) [
  | none ↦ throw job_not_found
  | some p ↦ live (lookup p jm)
]

-- The pointer is to the job under its own identifier.
unfoldable pub add_job : String → Resource → Resource
add_job id r = record r { jobs = emplace id id r.jobs }

unfoldable pub del_job : String → Resource → Resource
del_job id r = record r { jobs = erase id r.jobs }

abbrev pub at_node : NodeRef → String → RGraph → RGraph
at_node ref id = update_node ref (λ n. record n { base = add_job id n.base })

abbrev pub at_edge : String → String → RGraph → RGraph
at_edge k id g = record g { edges = update k (λ e. record e { base = add_job id e.base }) g.edges }

abbrev pub Creation : Type 0
Creation = Outcome (Unit {0}) × Manager

-- A step that finds something, or throws and leaves what has been done.
abbrev pub and_with {ℓ} : {A : Type ℓ} → Outcome A → Manager → (A → Creation) → Creation
and_with (ok a) m f = f a
and_with (throw e) m f = (throw e, m)
and_with fault m f = (fault, m)

-- The arguments of `create_job`.
pub record Stream : Type 0 where
  pub rawjob_id : String
  pub src_storage : String
  pub dst_storage : String
  pub src_dtn : String
  pub dst_dtn : String
  pub rate : ℤ
  pub extra : Bool

abbrev pub group_of : Stream → JobGroup
group_of s = if s.extra then JobGroup.extra else JobGroup.base

-- The job is on the three nodes; the two edges and the store follow.
unfoldable pub on_edges : String → Stream → Manager → Creation
unfolding get_edge add_job
on_edges guid s m = and_with (get_edge s.src_storage s.src_dtn m.rg) m (λ k.
    let first = record m { rg = at_edge k guid m.rg } in
    and_with (get_edge s.src_dtn "gateway" first.rg) first (λ l. (
      ok tt,
      record first {
        rg = at_edge l guid first.rg;
        writes =
            m.writes
            ++ insert_stream s.rawjob_id guid s.src_storage s.dst_storage s.src_dtn s.dst_dtn s.rate
                (group_of s) JobState.running
              ∷ [];
      },
    )))

-- `guid` is the identifier that `utils::guid` draws.
unfoldable pub create_job : String → Stream → Manager → Creation
unfolding add_basic_job get_storage_node get_dtn_node get_general_node update_node add_job on_edges
create_job guid s m =
    let started = record m { jm = add_basic_job guid (group_of s) JobState.running s.rate m.jm } in
    and_with (get_storage_node s.src_storage m.rg) started (λ snode.
      and_with (get_dtn_node s.src_dtn m.rg) started (λ dnode.
        and_with (get_general_node "gateway" m.rg) started (λ gnode.
          on_edges guid s (record started {
            rg =
                at_node (record { kind = general; key = "gateway" }) guid
                  (at_node (record { kind = dtn; key = s.src_dtn }) guid
                    (at_node (record { kind = storage; key = s.src_storage }) guid m.rg));
          }))))

-- The pointers to the nodes that the edges out of a storage lead to.
unfoldable pub edge_ends : RGraph → List String → Outcome (List NodeRef)
edge_ends g [] = ok []
edge_ends g (k ∷ ks) = do e ← live (lookup k g.edges); refs ← edge_ends g ks; ok (e.dst_node ∷ refs)

unfoldable pub get_storage_connected_dtns : String → RGraph → Outcome (List NodeRef)
unfolding get_storage_node edge_ends
get_storage_connected_dtns id g = do snode ← get_storage_node id g; edge_ends g snode.out_edges
