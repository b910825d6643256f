-- ===== src/Scheduler/Schedule/Limit.antt =====
-- The number of flows of each job through `schedule`.
use bigdataexpress_c.Base.{
  String, ◌≡◌, sym, ap, subst, inl, inr, Bool, true, false, str_eq, List, [], ◌∷◌, ◌++◌, map, All,
  All-implies, if_cases, arith, eq_iff,
}
use bigdataexpress_c.Base.Shuffles.{Shuffled, ends, keeps, swaps, chain, All-Shuffled}
use bigdataexpress_c.Store.{Sjob, Block, Database, find_all}
use bigdataexpress_c.Store.Laws.{All-find_all, found-All}
use bigdataexpress_c.Store.Ledger.{Owns}
use bigdataexpress_c.Store.Singles.{Single, Single-Owns, Singles, All-profile, profile-All}
use bigdataexpress_c.Store.Profile.{entry, profile, bump}
use bigdataexpress_c.Scheduler.State.{State}
use bigdataexpress_c.Scheduler.Schedule.{
  ScheduleEnv, is_active, get_active_best_effort_sjobs, schedule_sjob, schedule_sjobs, schedule,
}
use bigdataexpress_c.Scheduler.Schedule.Advanced.{Advanced, on_flows-Advanced}

-- No two jobs have the same identifier.
abbrev pub Distinct : List Sjob → Type 0
Distinct [] = Unit
Distinct (j ∷ js) = All (λ k. str_eq k.id j.id ≡ false) js × Distinct js

differs_as : {x y u v : String} → x ≡ v → y ≡ u → str_eq y x ≡ false → str_eq v u ≡ false
differs_as {x} {y} {u} {v} e f h = ground (arith, e, f, h, eq_iff y x, eq_iff v u)

Distinct-Shuffled : {js ks : List Sjob} → Shuffled js ks → Distinct js → Distinct ks
Distinct-Shuffled ends d = tt
Distinct-Shuffled (keeps {x} {y} {xs} {ys} e s) d = (
  subst (λ (z : Sjob). All (λ k. str_eq k.id z.id ≡ false) ys) e
      (All-Shuffled (λ k. str_eq k.id x.id ≡ false) s d.0),
  Distinct-Shuffled s d.1,
)
Distinct-Shuffled (swaps {x} {y} {u} {v} {xs} e f) d =
    let away = λ (j : Sjob). All (λ k. str_eq k.id j.id ≡ false) xs in
    (
      (differs_as (ap (λ j. j.id) e) (ap (λ j. j.id) f) d.0.0, subst away f d.1.0),
      (subst away e d.0.1, d.1.1),
    )
Distinct-Shuffled (chain s t) d = Distinct-Shuffled t (Distinct-Shuffled s d)

Distinct-find_all : (p : Sjob → Bool) (js : List Sjob) → Distinct js → Distinct (find_all p js)
unfolding find_all
Distinct-find_all p [] d = tt
Distinct-find_all p (j ∷ js) d =
    if_cases Distinct (p j)
      (λ _. (All-find_all (λ k. str_eq k.id j.id ≡ false) p js d.0, Distinct-find_all p js d.1))
      (λ _. Distinct-find_all p js d.1)

-- No entry of the identifier has a flow.
abbrev Free : String → List (String × List String) → Type 0
Free id = All (λ p. str_eq p.0 id ≡ true → p.1 ≡ [])

module _ (ss : List Sjob) (id block : String) (o : Owns block id ss) where
  own_entry : (p : String × List String) → str_eq p.0 id ≡ true → Owns block p.0 ss
  own_entry p e = subst (λ i. Owns block i ss) (ground (arith, e, eq_iff p.0 id)) o

  bump-Single :
      (ps : List (String × List String))
      → Free id ps
      → All (Single ss) ps
      → All (Single ss) (bump id block ps)
  unfolding bump
  bump-Single [] free h = tt
  bump-Single (p ∷ ps) free h =
      if_cases (All (Single ss)) (str_eq p.0 id)
        (λ e. (inr (block, ap (λ bs. bs ++ block ∷ []) (free.0 e), own_entry p e), h.1))
        (λ _. (h.0, bump-Single ps free.1 h.1))

bump-Free :
    (id block own : String) (ps : List (String × List String))
    → str_eq id own ≡ false
    → Free own ps
    → Free own (bump id block ps)
unfolding bump
bump-Free id block own [] differ free = tt
bump-Free id block own (p ∷ ps) differ free =
    if_cases (Free own) (str_eq p.0 id)
      (λ e. (
        (λ k. absurd (ground (arith, e, k, differ, eq_iff p.0 id, eq_iff p.0 own, eq_iff id own))),
        free.1,
      ))
      (λ _. (free.0, bump-Free id block own ps differ free.1))

-- A job that had no flow when it was read has none yet.
abbrev Ready : List (String × List String) → Sjob → Type 0
Ready ps j = j.flows ≡ [] → Free j.id ps

cons-Ready :
    (s : Sjob) (ps : List (String × List String)) (js : List Sjob)
    → All (λ k. str_eq k.id s.id ≡ false) js
    → All (Ready ps) js
    → All (Ready (entry s ∷ ps)) js
cons-Ready s ps [] d h = tt
cons-Ready s ps (j ∷ js) d h = (
  (λ e. ((λ same. absurd (ground (arith, same, d.0, eq_iff s.id j.id, eq_iff j.id s.id))), h.0 e)),
  cons-Ready s ps js d.1 h.1,
)

profile-Free :
    (id : String) (js : List Sjob) → All (λ k. str_eq k.id id ≡ false) js → Free id (profile js)
unfolding profile
profile-Free id [] d = tt
profile-Free id (j ∷ js) d = ((λ e. absurd (ground (arith, e, d.0))), profile-Free id js d.1)

profile-Ready : (js : List Sjob) → Distinct js → All (Ready (profile js)) js
unfolding profile
profile-Ready [] d = tt
profile-Ready (j ∷ js) d = (
  (λ e. ((λ _. ap (map (λ t. t.block)) e), profile-Free j.id js d.0)),
  cons-Ready j (profile js) js d.0 (profile-Ready js d.1),
)

bump-Ready :
    (id block : String) (ps : List (String × List String)) (js : List Sjob)
    → All (λ k. str_eq k.id id ≡ false) js
    → All (Ready ps) js
    → All (Ready (bump id block ps)) js
bump-Ready id block ps [] d h = tt
bump-Ready id block ps (j ∷ js) d h = (
  (λ e. bump-Free id block j.id ps (ground (arith, d.0, eq_iff j.id id, eq_iff id j.id)) (h.0 e)),
  bump-Ready id block ps js d.1 h.1,
)

-- The blocks of a job belong to it.
abbrev pub OwnsAll : List Sjob → Sjob → Type 0
OwnsAll ss j = All (λ b. Owns b.id j.id ss) j.blocks

module _ (ss ts : List Sjob)
    (owns : (block id : String) → Owns block id ss → Owns block id ts) where
  OwnsAll-Owns : (js : List Sjob) → All (OwnsAll ss) js → All (OwnsAll ts) js
  OwnsAll-Owns [] h = tt
  OwnsAll-Owns (j ∷ js) h =
      (All-implies (λ (b : Block). owns b.id j.id) j.blocks h.0, OwnsAll-Owns js h.1)

-- What holds before a job of the list is served.
abbrev Limited : List Sjob → List Sjob → Type 0
Limited js ss =
    Distinct js × All (Ready (profile ss)) js × All (OwnsAll ss) js × All (Single ss) (profile ss)

Advanced-Limited :
    (j : Sjob) (js : List Sjob) (db db' : Database)
    → j.flows ≡ []
    → Advanced j db db'
    → Limited (j ∷ js) db.sjobs
    → Limited js db'.sjobs
Advanced-Limited j js db db' empty advanced h =
    let owned = OwnsAll-Owns db.sjobs db'.sjobs advanced.owns js h.2.1 in
    let singles =
      All-implies (Single-Owns db.sjobs db'.sjobs advanced.owns) (profile db.sjobs) h.3 in
    elim advanced.flows [
      | inl same ↦ (
        h.0.1,
        subst (λ ps. All (Ready ps) js) (sym same) h.1.1,
        owned,
        subst (All (Single db'.sjobs)) (sym same) singles,
      )
      | inr (b, waits, more) ↦ (
        h.0.1,
        subst (λ ps. All (Ready ps) js) (sym more) (bump-Ready j.id b.id _ js h.0.0 h.1.1),
        owned,
        subst (All (Single db'.sjobs)) (sym more) (
            bump-Single db'.sjobs j.id b.id
              (advanced.owns b.id j.id
                (found-All (λ (c : Block). Owns c.id j.id db.sjobs) _ b j.blocks waits h.2.0))
              (profile db.sjobs) (h.1.0 empty) singles),
      )
    ]

next-Limited :
    (env : ScheduleEnv) (j : Sjob) (js : List Sjob) (s : State)
    → Limited (j ∷ js) s.store.sjobs
    → Limited js (schedule_sjob env j s).store.sjobs
next-Limited env j js s h = elim (on_flows-Advanced env j j.flows s) [
  | inl same ↦ subst (λ (t : State). Limited js t.store.sjobs) (sym same) (h.0.1, h.1.1, h.2.1, h.3)
  | inr (empty, advanced) ↦ Advanced-Limited j js s.store _ empty advanced h
]

schedule_sjobs-Single :
    (env : ScheduleEnv) (js : List Sjob) (s : State)
    → Limited js s.store.sjobs
    → All
        (Single (schedule_sjobs env js s).store.sjobs)
        (profile (schedule_sjobs env js s).store.sjobs)
unfolding schedule_sjobs
schedule_sjobs-Single env [] s h = h.3
schedule_sjobs-Single env (j ∷ js) s h =
    schedule_sjobs-Single env js (schedule_sjob env j s) (next-Limited env j js s h)

-- Where no two jobs have the same identifier, the blocks of each job belong to it, and the
-- database's sort gives the jobs in some order: if each job has at most one flow, whose block belongs
-- to it, this is so again after `schedule`, whatever the sites, the service and the launcher answer.
pub schedule-Singles :
    (env : ScheduleEnv) (s : State)
    → ((js : List Sjob) → Shuffled js (env.by_submission js))
    → Distinct s.store.sjobs
    → All (OwnsAll s.store.sjobs) s.store.sjobs
    → Singles s.store.sjobs
    → Singles (schedule env s).store.sjobs
unfolding schedule get_active_best_effort_sjobs
schedule-Singles env s sorts distinct owned h =
    let ss = s.store.sjobs in
    let active = λ (j : Sjob). is_active j.state in
    let sorted = sorts (find_all active ss) in
    All-profile (Single (schedule env s).store.sjobs) (schedule env s).store.sjobs (
      schedule_sjobs-Single env (get_active_best_effort_sjobs env s.store) s (
        Distinct-Shuffled sorted (Distinct-find_all active ss distinct),
        All-Shuffled (Ready (profile ss)) sorted
            (All-find_all (Ready (profile ss)) active ss (profile-Ready ss distinct)),
        All-Shuffled (OwnsAll ss) sorted (All-find_all (OwnsAll ss) active ss owned),
        profile-All (Single ss) ss h,
      ))
