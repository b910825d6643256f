-- ===== src/Manager/Probe/Laws.antt =====
-- What the answers of `probe_path_rate` of server/resourcemanager.cc mean.
use bigdataexpress_c.Base.{ℕ, String, ◌≡◌, refl, ◌∙◌, ◌↔◌, true, arith, ◌==◌, if◌then◌else◌}
use bigdataexpress_c.Base.Int.{ℤ, ◌-ℤ◌, ◌≤ℤ◌, ltb_ℤ}
use bigdataexpress_c.Outcome.{Outcome, ok, throw, fault, ◌>>=◌, >>=-eq-ok}
use bigdataexpress_c.Job.{BasicJobs, sum_re, sum_rb}
use bigdataexpress_c.Graph.{RGraph, Node}
use bigdataexpress_c.Graph.Build.{get_storage_node}
use bigdataexpress_c.Manager.Probe.{
  Rates, no_rates, edge_rates, storage_answer, edges_answer, combine, probe_path_rate,
}

-- What a probe reads of the graph, whatever the rate: the storage's capacity and the rates of its
-- jobs, and the free rates of the paths.
pub record Reading : Type 0 where
  pub capacity : ℤ
  pub re : ℤ
  pub rb : ℤ
  pub paths : Outcome Rates

unfoldable pub reading : RGraph → BasicJobs → String → Outcome Reading
reading g jm storage = do
  snode ← get_storage_node storage g
  sre ← sum_re jm snode.jobs
  srb ← sum_rb jm snode.jobs
  ok (record {
    capacity = snode.capacity;
    re = sre;
    rb = srb;
    paths = edge_rates g jm no_rates snode.out_edges;
  })

pub paths_of :
    (g : RGraph) (jm : BasicJobs) (storage : String) (snode : Node)
    → get_storage_node storage g ≡ ok snode
    → (r : Reading) → reading g jm storage ≡ ok r
    → edge_rates g jm no_rates snode.out_edges ≡ r.paths
unfolding reading
paths_of g jm storage snode found r h =
    let (n, a, h₁) = >>=-eq-ok (get_storage_node storage g) _ h in
    let (sre, b, h₂) = >>=-eq-ok (sum_re jm n.jobs) _ h₁ in
    let (srb, c, h₃) = >>=-eq-ok (sum_rb jm n.jobs) _ h₂ in ground (arith, found, a, h₃)

-- The answer from a reading.
abbrev pub answer : ℤ → Reading → Outcome ℕ
answer rate r =
    let res_storage = storage_answer r.capacity r.re r.rb rate in
    if res_storage == 4
    then ok 4
    else if res_storage == 3
    then ok 3
    else (do sum ← r.paths; ok (combine res_storage (edges_answer sum rate)))

pub probe_path_rate-reading :
    (g : RGraph) (jm : BasicJobs) (storage : String) (rate : ℤ)
    → probe_path_rate g jm storage rate ≡ (reading g jm storage >>= answer rate)
unfolding probe_path_rate reading
probe_path_rate-reading g jm storage rate = ground arith

-- The rate fits the storage beside all of its running jobs, and the paths beside all of theirs.
pub record Carries (rate : ℤ) (r : Reading) : Type 0 where
  pub storage_fits : ltb_ℤ rate (r.capacity -ℤ r.rb -ℤ r.re) ≡ true
  pub storage_large : rate ≤ℤ r.capacity
  pub sum : Rates
  pub paths_read : r.paths ≡ ok sum
  pub paths_fit : ltb_ℤ rate sum.free ≡ true

answer_one :
    (rate capacity re rb : ℤ) (paths : Outcome Rates)
    → let r : Reading = record { capacity = capacity; re = re; rb = rb; paths = paths } in
      answer rate r ≡ ok 1 → Carries rate r
unfolding storage_answer edges_answer combine
answer_one rate capacity re rb (ok sum) h = record {
  storage_fits = ground (arith, h);
  storage_large = ground (arith, h);
  sum = sum;
  paths_read = refl;
  paths_fit = ground (arith, h);
}
answer_one rate capacity re rb (throw e) h = absurd (ground (arith, h))
answer_one rate capacity re rb fault h = absurd (ground (arith, h))

answer-Carries : (rate : ℤ) (r : Reading) → Carries rate r → answer rate r ≡ ok 1
unfolding storage_answer edges_answer combine
answer-Carries rate r c = ground (arith, c.paths_read, c.paths_fit, c.storage_fits)

read_cases :
    (rate : ℤ) (o : Outcome Reading)
    → (o >>= answer rate) ≡ ok 1
    → (r : Reading) × (o ≡ ok r) × (answer rate r ≡ ok 1)
read_cases rate (ok r) h = (r, refl, h)
read_cases rate (throw e) h = absurd (cc)
read_cases rate fault h = absurd (cc)

module _ (g : RGraph) (jm : BasicJobs) (storage : String) where
  -- The probe answers 1 exactly where the storage's capacity is at least the rate and both the
  -- storage and the paths to the gateway have more than the rate left beside all running jobs.
  pub probe_one_iff :
      (rate : ℤ)
      → (probe_path_rate g jm storage rate ≡ ok 1)
        ↔ ((r : Reading) × (reading g jm storage ≡ ok r) × Carries rate r)
  probe_one_iff rate = (
    λ h.
        let (r, e, a) =
          read_cases rate (reading g jm storage)
            (rw (probe_path_rate-reading g jm storage rate) at h) in
        (r, e, answer_one rate r.capacity r.re r.rb r.paths a),
    λ (r, e, c). probe_path_rate-reading g jm storage rate ∙ rw e (answer-Carries rate r c),
  )

  -- Where a rate is accepted with no job suspended, so is every smaller rate.
  pub probe_mono :
      (rate less : ℤ)
      → less ≤ℤ rate
      → probe_path_rate g jm storage rate ≡ ok 1
      → probe_path_rate g jm storage less ≡ ok 1
  probe_mono rate less l h =
      let (r, e, c) = (probe_one_iff rate).0 h in
      (probe_one_iff less).1 (
        r,
        e,
        record {
          storage_fits = ground (arith, c.storage_fits);
          storage_large = omega (arith, c.storage_large);
          sum = c.sum;
          paths_read = c.paths_read;
          paths_fit = ground (arith, c.paths_fit);
        },
      )
