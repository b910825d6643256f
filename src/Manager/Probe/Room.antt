-- ===== src/Manager/Probe/Room.antt =====
-- The room that an accepted rate finds: `probe_path_rate` of server/resourcemanager.cc against the
-- rates of the running jobs.
use bigdataexpress_c.Base.{◌↔◌, String, ◌≡◌, refl, ◌∙◌, sym, subst, true, List, arith}
use bigdataexpress_c.Base.Int.{ℤ, pos, ◌-ℤ◌, ◌≤ℤ◌, ltb_ℤ, -ℤ_parts, eq_of_parts}
use bigdataexpress_c.Outcome.{Outcome, ok, throw, fault, ◌>>=◌, >>=-eq-ok}
use bigdataexpress_c.Job.{BaseJob, BasicJobs, deref_jobs, sum_re, sum_rb, sum_re_from, sum_rb_from}
use bigdataexpress_c.Graph.{RGraph, Node}
use bigdataexpress_c.Graph.Build.{get_storage_node}
use bigdataexpress_c.Manager.Probe.{Rates, no_rates, edge_rates, probe_path_rate}
use bigdataexpress_c.Manager.Probe.Laws.{Reading, reading, probe_one_iff}
use bigdataexpress_c.Manager.Probe.Spare.{
  load, Both, sums-load, Spare, AllFree, zero_plus, edge_rates-AllFree, AllFree-edge_rates,
}

-- The storage has room for the rate beside its running jobs, and so have its paths to the gateway,
-- taken together.
pub record HasRoom (g : RGraph) (jm : BasicJobs) (storage : String) (rate : ℤ) : Type 0 where
  pub snode : Node
  pub spare : ℤ
  pub paths : ℤ
  pub found : get_storage_node storage g ≡ ok snode
  pub large : rate ≤ℤ snode.capacity
  pub at_storage : Spare jm snode.base spare
  pub storage_fits : ltb_ℤ rate spare ≡ true
  pub at_paths : AllFree g jm snode.out_edges paths
  pub paths_fit : ltb_ℤ rate paths ≡ true

room_lem :
    (capacity : ℤ) (jobs : List BaseJob)
    → capacity -ℤ sum_rb_from (pos 0) jobs -ℤ sum_re_from (pos 0) jobs ≡ capacity -ℤ load jobs
unfolding Both
room_lem capacity jobs =
    let re = sum_re_from (pos 0) jobs in
    let rb = sum_rb_from (pos 0) jobs in
    eq_of_parts (capacity -ℤ rb -ℤ re) (capacity -ℤ load jobs) (
      omega (
        arith,
        sums-load jobs (pos 0) (pos 0),
        -ℤ_parts capacity rb,
        -ℤ_parts (capacity -ℤ rb) re,
        -ℤ_parts capacity (load jobs),
      ))

-- What a reading says of the storage's jobs.
read_room :
    (o : Outcome (List BaseJob)) (capacity : ℤ) (paths : Outcome Rates) (r : Reading)
    → (do
      sre ← (do jobs ← o; ok (sum_re_from (pos 0) jobs))
      srb ← (do jobs ← o; ok (sum_rb_from (pos 0) jobs))
      ok (record { capacity = capacity; re = sre; rb = srb; paths = paths }))
      ≡ ok r
    → (jobs : List BaseJob) × (o ≡ ok jobs)
      × (r.capacity ≡ capacity)
      × (paths ≡ r.paths)
      × (r.capacity -ℤ r.rb -ℤ r.re ≡ capacity -ℤ load jobs)
read_room (ok jobs) capacity paths r h =
    (jobs, refl, ground (arith, h), ground (arith, h), ground (arith, h) ∙ room_lem capacity jobs)
read_room (throw e) capacity paths r h = absurd (cc)
read_room fault capacity paths r h = absurd (cc)

HasRoom-probe_path_rate :
    (g : RGraph) (jm : BasicJobs) (storage : String) (rate : ℤ)
    → HasRoom g jm storage rate
    → probe_path_rate g jm storage rate ≡ ok 1
unfolding reading sum_re sum_rb Spare
HasRoom-probe_path_rate g jm storage rate h =
    let (jobs, at, e) = h.at_storage in
    let (sum, read, total) =
      AllFree-edge_rates g jm h.snode.out_edges no_rates h.paths h.at_paths in
    let re = sum_re_from (pos 0) jobs in
    let rb = sum_rb_from (pos 0) jobs in
    (probe_one_iff g jm storage rate).1 (
      record { capacity = h.snode.capacity; re = re; rb = rb; paths = ok sum },
      rw (h.found, at, read) refl,
      record {
        storage_fits =
            subst (λ y. ltb_ℤ rate y ≡ true) (e ∙ sym (room_lem h.snode.capacity jobs))
              h.storage_fits;
        storage_large = h.large;
        sum = sum;
        paths_read = refl;
        paths_fit = subst (λ y. ltb_ℤ rate y ≡ true) (sym (total ∙ zero_plus h.paths)) h.paths_fit;
      },
    )

probe_room :
    (g : RGraph) (jm : BasicJobs) (storage : String) (rate : ℤ)
    → probe_path_rate g jm storage rate ≡ ok 1
    → HasRoom g jm storage rate
unfolding reading sum_re sum_rb
probe_room g jm storage rate accepted =
    let (r, read, c) = (probe_one_iff g jm storage rate).0 accepted in
    let (snode, found, more) = >>=-eq-ok (get_storage_node storage g) _ read in
    let (jobs, at, capacity, paths, left) =
      read_room (deref_jobs jm snode.jobs) snode.capacity (edge_rates g jm no_rates snode.out_edges)
        r more in
    let (x, all, sum) =
      edge_rates-AllFree g jm snode.out_edges no_rates c.sum (paths ∙ c.paths_read) in
    record {
      snode = snode;
      spare = snode.capacity -ℤ load jobs;
      paths = x;
      found = found;
      large = subst (λ y. rate ≤ℤ y) capacity c.storage_large;
      at_storage = unfold Spare in (jobs, at, refl);
      storage_fits = subst (λ y. ltb_ℤ rate y ≡ true) left c.storage_fits;
      at_paths = all;
      paths_fit = subst (λ y. ltb_ℤ rate y ≡ true) (sum ∙ zero_plus x) c.paths_fit;
    }

-- The probe answers 1 exactly where the storage is there, the rate is at most its capacity, and it is
-- less than what the storage's running jobs, extra or not, leave of that, and less than the sum over
-- the storage's edges of what is free on each path: each edge ends at a DTN with one edge, to the
-- gateway, and free is the smaller one of what the running jobs leave of the capacities of the two
-- edges, or nothing where that is less than 1000.
pub probe_path_rate-HasRoom :
    (g : RGraph) (jm : BasicJobs) (storage : String) (rate : ℤ)
    → (probe_path_rate g jm storage rate ≡ ok 1) ↔ HasRoom g jm storage rate
probe_path_rate-HasRoom g jm storage rate =
    (probe_room g jm storage rate, HasRoom-probe_path_rate g jm storage rate)
