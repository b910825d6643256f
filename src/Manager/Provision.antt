-- ===== src/Manager/Provision.antt =====
-- `query_path_dtns` of server/resourcemanager.cc: room is made for a job by suspending extra jobs,
-- and its rate is then shared out over the DTNs of the storage.
pub mod Shares
pub mod Suspend
use bigdataexpress_c.Base.{
  ℕ, zero, suc, ◌⊎◌, inl, inr, String, Bool, Option, none, some, List, [], ◌∷◌, ◌++◌, ◌==◌,
  if◌then◌else◌,
}
use bigdataexpress_c.Base.Int.{ℤ, pos, ◌-ℤ◌, ltb_ℤ}
use bigdataexpress_c.Base.Keyed.{Keyed, lookup}
use bigdataexpress_c.Outcome.{Outcome, Error, ok, throw, fault, ◌>>=◌}
use bigdataexpress_c.Job.{
  BaseJob, BasicJobs, JobState, JobGroup, marked_for_prealloc, set_state, find_largest_re_job,
}
use bigdataexpress_c.Graph.{RGraph, live, node_at}
use bigdataexpress_c.Graph.Build.{get_storage_node}
use bigdataexpress_c.Manager.Probe.{rates_of, min_ℤ, probe_path_rate}

-- What is written to the site store, in order.
pub data StoreWrite : Type 0 where
  update_stream_state : String → JobState → StoreWrite
  insert_stream :
      (rawjob guid src_storage dst_storage src_dtn dst_dtn : String)
      → ℤ
      → JobGroup
      → JobState
      → StoreWrite

pub record Manager : Type 0 where
  pub jm : BasicJobs
  pub rg : RGraph
  pub writes : List StoreWrite

-- A job is marked to be stopped, in memory and in the store.
unfoldable pub suspend : BaseJob → Manager → Manager
unfolding set_state
suspend job m = record m {
  jm = set_state job.id marked_for_prealloc m.jm;
  writes = m.writes ++ update_stream_state job.id marked_for_prealloc ∷ [];
}

-- How the `while` loop is left: there is room, the function returns an empty list, a call throws or
-- faults, or the fuel of the model is out.
pub data Room : Type 0 where
  enough gave_up out_of_fuel faulted : Room
  threw : Error → Room

-- The value of `int r = probe_path_rate(...) != 1`: the comparison binds before the assignment.
unfoldable pub loop_value : ℕ → ℕ
loop_value answer = if answer == 1 then 0 else 1

unfoldable pub next_job : BasicJobs → Keyed String → Room ⊎ BaseJob
next_job jm [] = inl gave_up
next_job jm (p ∷ ps) = elim (find_largest_re_job jm (p ∷ ps)) [
  | throw e ↦ inl (threw e)
  | fault ↦ inl faulted
  | ok job ↦ inr job
]

-- One round: the loop is left, or a job is to be suspended. `jobs` are the storage's pointers.
unfoldable pub room_step : String → ℤ → Keyed String → Manager → Room ⊎ BaseJob
unfolding loop_value
room_step storage rate jobs m = elim (probe_path_rate m.rg m.jm storage rate) [
  | throw e ↦ inl (threw e)
  | fault ↦ inl faulted
  | ok answer ↦
      let r = loop_value answer in
      if r == 0 then inl enough else if r == 3 then inl gave_up else next_job m.jm jobs
]

unfoldable pub make_room : ℕ → String → ℤ → Keyed String → Manager → Room × Manager
make_room zero storage rate jobs m = (out_of_fuel, m)
make_room (suc fuel) storage rate jobs m = elim (room_step storage rate jobs m) [
  | inl room ↦ (room, m)
  | inr job ↦ make_room fuel storage rate jobs (suspend job m)
]

-- The loop over the DTNs: each takes what its edges have free, until the rate is shared out.
unfoldable pub provision : RGraph → BasicJobs → ℤ → List String → Outcome (List (String × ℤ))
provision g jm remaining [] = ok []
provision g jm remaining (k ∷ ks) = do
  sd_edge ← live (lookup k g.edges)
  dtn ← live (node_at g sd_edge.dst_node)
  sd ← rates_of jm sd_edge.base
  dg_key ← elim dtn.out_edges [ [] ↦ fault | j ∷ _ ↦ ok j ]
  dg_edge ← live (lookup dg_key g.edges)
  dg ← rates_of jm dg_edge.base
  let edge_rate = min_ℤ dg.free sd.free
  let next = provision g jm (remaining -ℤ edge_rate) ks
  let skipped = provision g jm remaining ks
  if ltb_ℤ edge_rate (pos 1000)
      then skipped
      else if ltb_ℤ remaining edge_rate
      then ok ((dtn.rid, remaining) ∷ [])
      else (do rest ← next; ok ((dtn.rid, edge_rate) ∷ rest))

unfoldable pub query_path_dtns : ℕ → String → ℤ → Manager → Outcome (List (String × ℤ)) × Manager
query_path_dtns fuel storage rate m = elim (get_storage_node storage m.rg) [
  | throw e ↦ (throw e, m)
  | fault ↦ (fault, m)
  | ok snode ↦
      let (room, m') = make_room fuel storage rate snode.jobs m in
      (
        elim room [
          | enough ↦ provision m'.rg m'.jm rate snode.out_edges
          | gave_up ↦ ok []
          | out_of_fuel ↦ fault
          | faulted ↦ fault
          | threw e ↦ throw e
        ],
        m',
      )
]
