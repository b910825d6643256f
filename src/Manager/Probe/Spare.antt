-- ===== src/Manager/Probe/Spare.antt =====
-- The rates that the loop of `probe_path_rate` of server/resourcemanager.cc finds free, against the
-- rates of the running jobs.
use bigdataexpress_c.Base.{
  ap, ◌+◌, ◌&&◌, some, String, ◌≡◌, refl, ◌∙◌, sym, subst, Bool, true, false, List, [], ◌∷◌, ◌⊎◌,
  inl, inr, arith, if◌then◌else◌, Bool-cases,
}
use bigdataexpress_c.Base.Int.{
  ℤ, pos, pos_part, neg_part, ◌+ℤ◌, ◌-ℤ◌, ◌≤ℤ◌, ltb_ℤ, +ℤ_parts, -ℤ_parts, eq_of_parts,
}
use bigdataexpress_c.Base.Keyed.{lookup}
use bigdataexpress_c.Outcome.{Outcome, ok, throw, fault, ◌>>=◌, >>=-eq-ok}
use bigdataexpress_c.Job.{
  BaseJob, BasicJobs, JobGroup, is_running, is_extra, is_base, deref_jobs, sum_re, sum_rb,
  sum_re_from, sum_rb_from,
}
use bigdataexpress_c.Graph.{RGraph, Node, Edge, Resource, node_at}
use bigdataexpress_c.Manager.Probe.{
  Rates, rates_of, gateway_edge, min_ℤ, usable, path_rates, edge_rates,
}
use bigdataexpress_c.Manager.Provision.Shares.{path_rates_inv}

-- The rates of the running jobs, of whatever group, together.
unfoldable pub load : List BaseJob → ℤ
unfolding is_running
load [] = pos 0
load (job ∷ jobs) = let rest = load jobs in if is_running job then job.rate +ℤ rest else rest

-- What both of the sums have come to.
unfoldable pub Both : ℤ → ℤ → ℤ → ℤ → ℤ → Type 0
Both a b x y rest =
    pos_part x + pos_part y + neg_part a + neg_part b + neg_part rest
    ≡ neg_part x + neg_part y + pos_part a + pos_part b + pos_part rest

step_lem :
    (running : Bool) (group : JobGroup) (a b rate rest x y : ℤ)
    → Both
        (if running && (elim group [ JobGroup.extra ↦ true | JobGroup.base ↦ false ])
          then a +ℤ rate
          else a)
        (if running && (elim group [ JobGroup.extra ↦ false | JobGroup.base ↦ true ])
          then b +ℤ rate
          else b)
        x
        y
        rest
    → Both a b x y (if running then rate +ℤ rest else rest)
unfolding Both
step_lem true JobGroup.extra a b rate rest x y h =
    omega (arith, h, +ℤ_parts a rate, +ℤ_parts rate rest)
step_lem true JobGroup.base a b rate rest x y h =
    omega (arith, h, +ℤ_parts b rate, +ℤ_parts rate rest)
step_lem false group a b rate rest x y h = h

pub sums-load :
    (jobs : List BaseJob) (a b : ℤ) → Both a b (sum_re_from a jobs) (sum_rb_from b jobs) (load jobs)
unfolding sum_re_from sum_rb_from load is_extra is_base
sums-load [] a b = unfold Both in omega arith
sums-load (job ∷ jobs) a b =
    step_lem (is_running job) job.group a b job.rate (load jobs) _ _ (sums-load jobs _ _)

-- What a resource's running jobs leave of its capacity.
unfoldable pub Spare : BasicJobs → Resource → ℤ → Type 0
Spare jm r x =
    (jobs : List BaseJob) × (deref_jobs jm r.jobs ≡ ok jobs) × (x ≡ r.capacity -ℤ load jobs)

-- The smaller one of two rates, or nothing where that is less than 1000.
unfoldable pub Narrower : ℤ → ℤ → ℤ → Type 0
Narrower a b x =
    ((x ≡ pos 0) × ((ltb_ℤ a (pos 1000) ≡ true) ⊎ (ltb_ℤ b (pos 1000) ≡ true)))
    ⊎ ((pos 1000 ≤ℤ x) × (x ≤ℤ a) × (x ≤ℤ b) × ((x ≡ a) ⊎ (x ≡ b)))

usable-Narrower : (a b : ℤ) → Narrower a b (usable (min_ℤ a b))
unfolding Narrower usable min_ℤ
usable-Narrower a b = elim (Bool-cases (ltb_ℤ a b)) [
  | inl l ↦ elim (Bool-cases (ltb_ℤ a (pos 1000))) [
    | inl low ↦ rw (l, low) (inl (refl, inl refl))
    | inr high ↦ rw (l, high) (inr (ground (arith, high), omega arith, ground (arith, l), inl refl))
  ]
  | inr l ↦ elim (Bool-cases (ltb_ℤ b (pos 1000))) [
    | inl low ↦ rw (l, low) (inl (refl, inr refl))
    | inr high ↦ rw (l, high) (inr (ground (arith, high), ground (arith, l), omega arith, inr refl))
  ]
]

-- The rate that is free on a path from a storage through a DTN to the gateway.
pub record Free (g : RGraph) (jm : BasicJobs) (k : String) (x : ℤ) : Type 0 where
  pub sd_edge : Edge
  pub dtn : Node
  pub dg_key : String
  pub dg_edge : Edge
  pub sd : ℤ
  pub dg : ℤ
  pub at_edge : lookup k g.edges ≡ some sd_edge
  pub at_dtn : node_at g sd_edge.dst_node ≡ some dtn
  pub only : dtn.out_edges ≡ dg_key ∷ []
  pub at_gateway : lookup dg_key g.edges ≡ some dg_edge
  pub sd_spare : Spare jm sd_edge.base sd
  pub dg_spare : Spare jm dg_edge.base dg
  pub narrower : Narrower sd dg x

-- And on all of the paths together.
unfoldable pub AllFree : RGraph → BasicJobs → List String → ℤ → Type 0
AllFree g jm [] x = x ≡ pos 0
AllFree g jm (k ∷ ks) x = (a b : ℤ) × Free g jm k a × AllFree g jm ks b × (x ≡ a +ℤ b)

pub spare_lem :
    (capacity : ℤ) (jobs : List BaseJob)
    → capacity -ℤ sum_re_from (pos 0) jobs -ℤ sum_rb_from (pos 0) jobs ≡ capacity -ℤ load jobs
unfolding Both
spare_lem capacity jobs =
    let re = sum_re_from (pos 0) jobs in
    let rb = sum_rb_from (pos 0) jobs in
    eq_of_parts (capacity -ℤ re -ℤ rb) (capacity -ℤ load jobs) (
      omega (
        arith,
        sums-load jobs (pos 0) (pos 0),
        -ℤ_parts capacity re,
        -ℤ_parts (capacity -ℤ re) rb,
        -ℤ_parts capacity (load jobs),
      ))

read-Spare :
    (o : Outcome (List BaseJob)) (capacity : ℤ) (rates : Rates)
    → (do
      sre ← (do jobs ← o; ok (sum_re_from (pos 0) jobs))
      srb ← (do jobs ← o; ok (sum_rb_from (pos 0) jobs))
      ok (record { free = capacity -ℤ sre -ℤ srb; free_extra = capacity -ℤ srb }))
      ≡ ok rates
    → (jobs : List BaseJob) × (o ≡ ok jobs) × (rates.free ≡ capacity -ℤ load jobs)
read-Spare (ok jobs) capacity rates h = (jobs, refl, ground (arith, h) ∙ spare_lem capacity jobs)
read-Spare (throw e) capacity rates h = absurd (cc)
read-Spare fault capacity rates h = absurd (cc)

pub rates_of-Spare :
    (jm : BasicJobs) (r : Resource) (rates : Rates)
    → rates_of jm r ≡ ok rates
    → Spare jm r rates.free
unfolding rates_of Spare sum_re sum_rb
rates_of-Spare jm r rates h = read-Spare (deref_jobs jm r.jobs) r.capacity rates h

path_rates-Free :
    (g : RGraph) (jm : BasicJobs) (k : String) (path : Rates)
    → path_rates g jm k ≡ ok path
    → Free g jm k path.free
path_rates-Free g jm k path h =
    let p = path_rates_inv g jm k path h in
    record {
      sd_edge = p.sd_edge;
      dtn = p.dtn;
      dg_key = p.dg_key;
      dg_edge = p.dg_edge;
      sd = p.sd.free;
      dg = p.dg.free;
      at_edge = p.at_edge;
      at_dtn = p.at_dtn;
      only = p.only;
      at_gateway = p.at_gateway;
      sd_spare = rates_of-Spare jm p.sd_edge.base p.sd p.sd_read;
      dg_spare = rates_of-Spare jm p.dg_edge.base p.dg p.dg_read;
      narrower =
          subst (Narrower p.sd.free p.dg.free) (sym p.free_read)
            (usable-Narrower p.sd.free p.dg.free);
    }

plus_assoc : (a b c : ℤ) → (a +ℤ b) +ℤ c ≡ a +ℤ (b +ℤ c)
plus_assoc a b c =
    eq_of_parts _ _
      (omega (arith, +ℤ_parts (a +ℤ b) c, +ℤ_parts a b, +ℤ_parts a (b +ℤ c), +ℤ_parts b c))

plus_zero : (a x : ℤ) → x ≡ pos 0 → a ≡ a +ℤ x
plus_zero a x h = eq_of_parts a (a +ℤ x) (ground (arith, h, +ℤ_parts a x))

pub zero_plus : (x : ℤ) → pos 0 +ℤ x ≡ x
zero_plus x = eq_of_parts (pos 0 +ℤ x) x (omega (arith, +ℤ_parts (pos 0) x))

pub edge_rates-AllFree :
    (g : RGraph) (jm : BasicJobs) (ks : List String) (acc sum : Rates)
    → edge_rates g jm acc ks ≡ ok sum
    → (x : ℤ) × AllFree g jm ks x × (sum.free ≡ acc.free +ℤ x)
unfolding edge_rates AllFree
edge_rates-AllFree g jm [] acc sum h =
    (pos 0, refl, ground (arith, h) ∙ plus_zero acc.free (pos 0) refl)
edge_rates-AllFree g jm (k ∷ ks) acc sum h =
    let (path, read, more) = >>=-eq-ok (path_rates g jm k) _ h in
    let (x, all, e) = edge_rates-AllFree g jm ks _ sum more in
    (
      path.free +ℤ x,
      (path.free, x, path_rates-Free g jm k path read, all, refl),
      e ∙ plus_assoc acc.free path.free x,
    )

Spare-rates_of :
    (jm : BasicJobs) (r : Resource) (x : ℤ)
    → Spare jm r x
    → (rates : Rates) × (rates_of jm r ≡ ok rates) × (rates.free ≡ x)
unfolding Spare rates_of sum_re sum_rb
Spare-rates_of jm r x (jobs, at, e) =
    let re = sum_re_from (pos 0) jobs in
    let rb = sum_rb_from (pos 0) jobs in
    (
      record { free = r.capacity -ℤ re -ℤ rb; free_extra = r.capacity -ℤ rb },
      rw at refl,
      spare_lem r.capacity jobs ∙ sym e,
    )

Narrower-only : (a b x : ℤ) → Narrower a b x → usable (min_ℤ a b) ≡ x
unfolding Narrower usable min_ℤ
Narrower-only a b x (inl (e, inl low)) = ground (arith, low, e)
Narrower-only a b x (inl (e, inr low)) = ground (arith, low, e)
Narrower-only a b x (inr (high, l, m, inl e)) = ground (arith, high, l, m, e, eq_of_parts a b)
Narrower-only a b x (inr (high, l, m, inr e)) = ground (arith, high, l, m, e, eq_of_parts a b)

Free-path_rates :
    (g : RGraph) (jm : BasicJobs) (k : String) (x : ℤ)
    → Free g jm k x
    → (path : Rates) × (path_rates g jm k ≡ ok path) × (path.free ≡ x)
unfolding path_rates gateway_edge
Free-path_rates g jm k x p =
    let (sd, sd_read, sd_free) = Spare-rates_of jm p.sd_edge.base p.sd p.sd_spare in
    let (dg, dg_read, dg_free) = Spare-rates_of jm p.dg_edge.base p.dg p.dg_spare in
    (
      record {
        free = usable (min_ℤ sd.free dg.free);
        free_extra = usable (min_ℤ sd.free_extra dg.free_extra);
      },
      rw (p.at_edge, sd_read, p.at_dtn, p.only, p.at_gateway, dg_read) refl,
      rw (sd_free, dg_free) (Narrower-only p.sd p.dg x p.narrower),
    )

pub AllFree-edge_rates :
    (g : RGraph) (jm : BasicJobs) (ks : List String) (acc : Rates) (x : ℤ)
    → AllFree g jm ks x
    → (sum : Rates) × (edge_rates g jm acc ks ≡ ok sum) × (sum.free ≡ acc.free +ℤ x)
unfolding edge_rates AllFree
AllFree-edge_rates g jm [] acc x e = (acc, refl, plus_zero acc.free x e)
AllFree-edge_rates g jm (k ∷ ks) acc x (a, b, first, rest, e) =
    let (path, read, free) = Free-path_rates g jm k a first in
    let (sum, more, total) =
      AllFree-edge_rates g jm ks
        (record { free = acc.free +ℤ path.free; free_extra = acc.free_extra +ℤ path.free_extra }) b
        rest in
    (
      sum,
      rw read more,
      total
          ∙ plus_assoc acc.free path.free b
          ∙ ap (λ y. acc.free +ℤ (y +ℤ b)) free
          ∙ ap (λ y. acc.free +ℤ y) (sym e),
    )
