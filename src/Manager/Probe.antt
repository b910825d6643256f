-- ===== src/Manager/Probe.antt =====
-- `probe_path_rate` of server/resourcemanager.cc: can a storage carry a rate, as things are or with
-- the extra jobs suspended?
pub mod Laws
pub mod Spare
pub mod Room
use bigdataexpress_c.Base.{ℕ, String, Bool, List, [], ◌∷◌, ◌==◌, length, if◌then◌else◌}
use bigdataexpress_c.Base.Int.{ℤ, pos, ◌+ℤ◌, ◌-ℤ◌, ltb_ℤ}
use bigdataexpress_c.Base.Keyed.{lookup}
use bigdataexpress_c.Outcome.{Outcome, ok, throw, ◌>>=◌, gateway_edges}
use bigdataexpress_c.Job.{BasicJobs, sum_re, sum_rb}
use bigdataexpress_c.Graph.{RGraph, Resource, live, node_at}
use bigdataexpress_c.Graph.Build.{get_storage_node}

-- The rate that is free, and the rate that would be without the extra jobs.
pub record Rates : Type 0 where
  pub free : ℤ
  pub free_extra : ℤ

unfoldable pub min_ℤ : ℤ → ℤ → ℤ
min_ℤ a b = if ltb_ℤ a b then a else b

-- Less than 1000 bytes per second counts as nothing.
unfoldable pub usable : ℤ → ℤ
usable rate = if ltb_ℤ rate (pos 1000) then pos 0 else rate

unfoldable pub rates_of : BasicJobs → Resource → Outcome Rates
rates_of jm r = do
  sre ← sum_re jm r.jobs
  srb ← sum_rb jm r.jobs
  ok (record { free = r.capacity -ℤ sre -ℤ srb; free_extra = r.capacity -ℤ srb })

-- The edge from a DTN to the gateway, which must be its only one.
unfoldable pub gateway_edge : RGraph → List String → Outcome Resource
gateway_edge g (k ∷ []) = do e ← live (lookup k g.edges); ok e.base
gateway_edge g _ = throw gateway_edges

-- One round of the loop: a path from the storage through a DTN to the gateway.
unfoldable pub path_rates : RGraph → BasicJobs → String → Outcome Rates
path_rates g jm k = do
  sd_edge ← live (lookup k g.edges)
  sd ← rates_of jm sd_edge.base
  dtn ← live (node_at g sd_edge.dst_node)
  dg_edge ← gateway_edge g dtn.out_edges
  dg ← rates_of jm dg_edge
  ok (record {
    free = usable (min_ℤ sd.free dg.free);
    free_extra = usable (min_ℤ sd.free_extra dg.free_extra);
  })

-- The loop, with `avail_edge_rate` and `avail_edge_rate_extra`.
unfoldable pub edge_rates : RGraph → BasicJobs → Rates → List String → Outcome Rates
unfolding path_rates
edge_rates g jm sum [] = ok sum
edge_rates g jm sum (k ∷ ks) = do
  path ← path_rates g jm k
  edge_rates g jm
      (record { free = sum.free +ℤ path.free; free_extra = sum.free_extra +ℤ path.free_extra }) ks

-- The test of the storage: 4 and 3 are refusals, 1 and 2 go on to the network paths.
unfoldable pub storage_answer : ℤ → ℤ → ℤ → ℤ → ℕ
storage_answer capacity sre srb rate =
    if ltb_ℤ capacity rate
    then 4
    else if ltb_ℤ rate (capacity -ℤ srb -ℤ sre)
    then 1
    else if ltb_ℤ rate (capacity -ℤ srb)
    then 2
    else 3

unfoldable pub edges_answer : Rates → ℤ → ℕ
edges_answer sum rate =
    if ltb_ℤ rate sum.free then 1 else if ltb_ℤ rate sum.free_extra then 2 else 3

abbrev pub no_rates : Rates
no_rates = record { free = pos 0; free_extra = pos 0 }

-- The answers of the two tests together.
unfoldable pub combine : ℕ → ℕ → ℕ
combine res_storage res_edges =
    if res_edges == 3 then 3 else if res_storage == 1 then if res_edges == 1 then 1 else 2 else 2

unfoldable pub probe_path_rate : RGraph → BasicJobs → String → ℤ → Outcome ℕ
unfolding storage_answer edges_answer edge_rates combine
probe_path_rate g jm storage rate = do
  snode ← get_storage_node storage g
  sre ← sum_re jm snode.jobs
  srb ← sum_rb jm snode.jobs
  let res_storage = storage_answer snode.capacity sre srb rate
  if res_storage == 4 then ok 4 else if res_storage == 3 then ok 3 else (do
    sum ← edge_rates g jm no_rates snode.out_edges
    ok (combine res_storage (edges_answer sum rate)))
