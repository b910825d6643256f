-- ===== src/Manager/Provision/Shares.antt =====
-- The shares of `query_path_dtns` of server/resourcemanager.cc against the probe's answer.
use bigdataexpress_c.Base.{
  String, ◌≡◌, refl, ap, ◌∙◌, inl, inr, true, false, Option, none, some, List, [], ◌∷◌, arith,
  if◌then◌else◌, Bool-cases,
}
use bigdataexpress_c.Base.Int.{ℤ, pos, ◌+ℤ◌, ◌-ℤ◌, ◌≤ℤ◌, ltb_ℤ, +ℤ_parts, -ℤ_parts, eq_of_parts}
use bigdataexpress_c.Base.Keyed.{lookup}
use bigdataexpress_c.Outcome.{ok, ◌>>=◌, >>=-eq-ok}
use bigdataexpress_c.Job.{BasicJobs}
use bigdataexpress_c.Graph.{RGraph, Node, Edge, Resource, live, node_at}
use bigdataexpress_c.Manager.Probe.{
  Rates, no_rates, rates_of, min_ℤ, usable, gateway_edge, path_rates, edge_rates,
}
use bigdataexpress_c.Graph.Build.{get_storage_node}
use bigdataexpress_c.Manager.Probe.{probe_path_rate}
use bigdataexpress_c.Manager.Probe.Laws.{probe_one_iff, paths_of}
use bigdataexpress_c.Manager.Provision.{provision}

pub total : List (String × ℤ) → ℤ
total [] = pos 0
total ((d, r) ∷ xs) = r +ℤ total xs

-- A path that the probe can read: its edge, its DTN, the one edge from there, and their rates.
pub record PathAt (g : RGraph) (jm : BasicJobs) (k : String) (path : Rates) : Type 0 where
  pub sd_edge : Edge
  pub dtn : Node
  pub dg_key : String
  pub dg_edge : Edge
  pub sd : Rates
  pub dg : Rates
  pub at_edge : lookup k g.edges ≡ some sd_edge
  pub at_dtn : node_at g sd_edge.dst_node ≡ some dtn
  pub only : dtn.out_edges ≡ dg_key ∷ []
  pub at_gateway : lookup dg_key g.edges ≡ some dg_edge
  pub sd_read : rates_of jm sd_edge.base ≡ ok sd
  pub dg_read : rates_of jm dg_edge.base ≡ ok dg
  pub free_read : path.free ≡ usable (min_ℤ sd.free dg.free)

live_inv {ℓ} : {A : Type ℓ} (o : Option A) {a : A} → live o ≡ ok a → o ≡ some a
live_inv none h = absurd (cc)
live_inv (some b) h = cc

gateway_edge_inv :
    (g : RGraph) (ks : List String) {r : Resource}
    → gateway_edge g ks ≡ ok r
    → (j : String) × (e : Edge) × (ks ≡ j ∷ []) × (lookup j g.edges ≡ some e) × (e.base ≡ r)
unfolding gateway_edge
gateway_edge_inv g [] h = absurd (cc)
gateway_edge_inv g (j ∷ []) h =
    let (e, a, b) = >>=-eq-ok (live (lookup j g.edges)) (λ e. ok e.base) h in
    (j, e, refl, live_inv (lookup j g.edges) a, ground (arith, b))
gateway_edge_inv g (j ∷ i ∷ ks) h = absurd (cc)

pub path_rates_inv :
    (g : RGraph) (jm : BasicJobs) (k : String) (path : Rates)
    → path_rates g jm k ≡ ok path
    → PathAt g jm k path
unfolding path_rates
path_rates_inv g jm k path h =
    let (sd_edge, a₁, h₁) = >>=-eq-ok (live (lookup k g.edges)) _ h in
    let (sd, a₂, h₂) = >>=-eq-ok (rates_of jm sd_edge.base) _ h₁ in
    let (dtn, a₃, h₃) = >>=-eq-ok (live (node_at g sd_edge.dst_node)) _ h₂ in
    let (dg_base, a₄, h₄) = >>=-eq-ok (gateway_edge g dtn.out_edges) _ h₃ in
    let (dg, a₅, h₅) = >>=-eq-ok (rates_of jm dg_base) _ h₄ in
    let (dg_key, dg_edge, only, at, same) = gateway_edge_inv g dtn.out_edges a₄ in
    record {
      sd_edge = sd_edge;
      dtn = dtn;
      dg_key = dg_key;
      dg_edge = dg_edge;
      sd = sd;
      dg = dg;
      at_edge = live_inv (lookup k g.edges) a₁;
      at_dtn = live_inv (node_at g sd_edge.dst_node) a₃;
      only = only;
      at_gateway = at;
      sd_read = a₂;
      dg_read = rw same a₅;
      free_read = ground (arith, h₅);
    }

-- The probe takes the smaller rate as the provision does.
min_ℤ_comm : (a b : ℤ) → min_ℤ a b ≡ min_ℤ b a
unfolding min_ℤ
min_ℤ_comm a b = ground (arith, eq_of_parts a b)

-- A round of `provision`, for the rate that the probe finds on the same path.
provision_round :
    (g : RGraph) (jm : BasicJobs) (remaining : ℤ) (k : String) (ks : List String) (path : Rates)
    → path_rates g jm k ≡ ok path
    → (rid : String) × (edge_rate : ℤ) × (path.free ≡ usable edge_rate)
      × (provision g jm remaining (k ∷ ks) ≡ (
          if ltb_ℤ edge_rate (pos 1000)
          then provision g jm remaining ks
          else if ltb_ℤ remaining edge_rate
          then ok ((rid, remaining) ∷ [])
          else (do
            rest ← provision g jm (remaining -ℤ edge_rate) ks
            ok ((rid, edge_rate) ∷ rest))))
unfolding provision
provision_round g jm remaining k ks path h =
    let p = path_rates_inv g jm k path h in
    (
      p.dtn.rid,
      min_ℤ p.dg.free p.sd.free,
      p.free_read ∙ ap usable (min_ℤ_comm p.sd.free p.dg.free),
      rw (p.at_edge, p.at_dtn, p.sd_read, p.only, p.at_gateway, p.dg_read) refl,
    )

skip_lem :
    (remaining acc free sum rate : ℤ)
    → free ≡ usable rate
    → ltb_ℤ rate (pos 1000) ≡ true
    → ltb_ℤ (remaining +ℤ acc) sum ≡ true
    → ltb_ℤ (remaining +ℤ (acc +ℤ free)) sum ≡ true
unfolding usable
skip_lem remaining acc free sum rate e low l =
    let none_free : free ≡ pos 0 = e ∙ rw low in
    ground (
      arith,
      l,
      none_free,
      +ℤ_parts remaining acc,
      +ℤ_parts acc free,
      +ℤ_parts remaining (acc +ℤ free),
    )

take_lem :
    (remaining acc free sum rate : ℤ)
    → free ≡ usable rate
    → ltb_ℤ rate (pos 1000) ≡ false
    → ltb_ℤ (remaining +ℤ acc) sum ≡ true
    → ltb_ℤ (remaining -ℤ rate +ℤ (acc +ℤ free)) sum ≡ true
unfolding usable
take_lem remaining acc free sum rate e useful l =
    let all_free : free ≡ rate = e ∙ rw useful in
    rw all_free (
      ground (
        arith,
        l,
        +ℤ_parts remaining acc,
        +ℤ_parts acc rate,
        -ℤ_parts remaining rate,
        +ℤ_parts (remaining -ℤ rate) (acc +ℤ rate),
      ))

rest_lem : (remaining rate : ℤ) → ltb_ℤ remaining rate ≡ false → pos 0 ≤ℤ remaining -ℤ rate
rest_lem remaining rate h = ground (arith, h, -ℤ_parts remaining rate)

total_lem : (remaining rate t : ℤ) → t ≡ remaining -ℤ rate → rate +ℤ t ≡ remaining
total_lem remaining rate t h =
    eq_of_parts (rate +ℤ t) remaining
      (ground (arith, h, -ℤ_parts remaining rate, +ℤ_parts rate (remaining -ℤ rate)))

one_lem : (r : ℤ) → r +ℤ pos 0 ≡ r
one_lem r = eq_of_parts (r +ℤ pos 0) r (omega (arith, +ℤ_parts r (pos 0)))

-- The probe's running sum exceeds what remains: then the shares make up exactly what remains.
provision_exact :
    (g : RGraph) (jm : BasicJobs) (acc sum : Rates) (remaining : ℤ) (ks : List String)
    → edge_rates g jm acc ks ≡ ok sum
    → pos 0 ≤ℤ remaining
    → ltb_ℤ (remaining +ℤ acc.free) sum.free ≡ true
    → (xs : List (String × ℤ)) × (provision g jm remaining ks ≡ ok xs) × (total xs ≡ remaining)
unfolding edge_rates total
provision_exact g jm acc sum remaining [] e h l =
    absurd (ground (arith, e, l, +ℤ_parts remaining acc.free))
provision_exact g jm acc sum remaining (k ∷ ks) e h l =
    let (path, read, more) = >>=-eq-ok (path_rates g jm k) _ e in
    let (rid, rate, free, round) = provision_round g jm remaining k ks path read in
    let acc' : Rates = record {
      free = acc.free +ℤ path.free;
      free_extra = acc.free_extra +ℤ path.free_extra;
    } in
    elim (Bool-cases (ltb_ℤ rate (pos 1000))) [
      | inl low ↦
          let (xs, run, t) =
            provision_exact g jm acc' sum remaining ks more h
              (skip_lem remaining acc.free path.free sum.free rate free low l) in
          (xs, round ∙ rw low run, t)
      | inr useful ↦ elim (Bool-cases (ltb_ℤ remaining rate)) [
        | inl last ↦ ((rid, remaining) ∷ [], round ∙ rw (useful, last), one_lem remaining)
        | inr not_last ↦
            let (xs, run, t) =
              provision_exact g jm acc' sum (remaining -ℤ rate) ks more
                (rest_lem remaining rate not_last)
                (take_lem remaining acc.free path.free sum.free rate free useful l) in
            (
              (rid, rate) ∷ xs,
              round ∙ rw (useful, not_last, run),
              total_lem remaining rate (total xs) t,
            )
      ]
    ]

-- Where the probe answers 1 for a rate that is not negative, the DTNs' shares make up exactly the
-- rate, in the graph and with the jobs that the probe saw.
pub accepted_is_shared :
    (g : RGraph) (jm : BasicJobs) (storage : String) (rate : ℤ) (snode : Node)
    → get_storage_node storage g ≡ ok snode
    → pos 0 ≤ℤ rate
    → probe_path_rate g jm storage rate ≡ ok 1
    → (xs : List (String × ℤ)) × (provision g jm rate snode.out_edges ≡ ok xs) × (total xs ≡ rate)
accepted_is_shared g jm storage rate snode found h accepted =
    let (r, read, c) = (probe_one_iff g jm storage rate).0 accepted in
    provision_exact g jm no_rates c.sum rate snode.out_edges
      (paths_of g jm storage snode found r read ∙ c.paths_read) h (rw (one_lem rate) c.paths_fit)
