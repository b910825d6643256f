-- ===== src/Bootstrap/Ends.antt =====
-- How `bootstrap_transfer_job` ends.
use bigdataexpress_c.Base.{
  suc, String, ◌≡◌, refl, sym, ap, ◌∙◌, ◌⊎◌, inl, inr, true, not, Option, none, some, List, [], ◌∷◌,
  ◌++◌, str_eq, if_cases, All, arith, eq_iff, if◌then◌else◌, subst,
}
use mathlib.Core.List.{append-nil, append_assoc}
use bigdataexpress_c.Base.Keyed.{is_some}
use bigdataexpress_c.Network.{SjobState}
use bigdataexpress_c.Store.{
  Sjob, Rawjob, RawjobState, message, find_one, find_all, update_one, update_rawjob,
  get_rawjob_from_id, del_sjobs,
}
use bigdataexpress_c.Store.Ledger.{Balanced}
use bigdataexpress_c.Bootstrap.{BootEnv, Boot, Answer, gives, fails, crashes, B}
use bigdataexpress_c.Bootstrap.Expand.{Draft}
use bigdataexpress_c.Bootstrap.Run.{
  Dst, Ending, returns, dies, insert_sjobs, job_error, sjob_of, on_parsed, parsed, create_jobs,
  check_space, bootstrap_job, bootstrap_transfer_job, create_raw_job_proxy_cert, parse_raw_job_dst,
  parse_source, no_space,
}
use bigdataexpress_c.Bootstrap.Keeps.{Same, Same-refl, Same-trans, Holds, Keeps, Anything}
use bigdataexpress_c.Bootstrap.Keeps.Parsing.{
  Fresh, Fatal, NoProxy, create_raw_job_proxy_cert-Same, create_raw_job_proxy_cert-Holds,
  parse_raw_job_dst-Keeps, parse_source-Keeps,
}

-- The raw job says that it has failed, and why.
abbrev pub Refused : String → Boot → Type 0
Refused id t =
    (r : Rawjob) × (get_rawjob_from_id id t.store ≡ some r)
    × (r.state ≡ RawjobState.error)
    × (is_some r.error ≡ true)

-- A job of the raw job that has not begun: no flow, and nothing sent.
pub record NewJob (id : String) (j : Sjob) : Type 0 where
  pub of_rawjob : j.rawjob ≡ id
  pub no_flows : j.flows ≡ []
  pub balanced : Balanced j
  pub is_bootstrap : j.state ≡ SjobState.bootstrap

-- The jobs of the other raw jobs stay, and the new ones, one at least, come after them.
abbrev pub Created : String → Boot → Boot → Type 0
Created id s t =
    (j : Sjob) × (js : List Sjob) × (t.store.sjobs
      ≡ find_all (λ x. not (str_eq x.rawjob id)) s.store.sjobs ++ j ∷ js)
    × All (NewJob id) (j ∷ js)

abbrev pub Told : Type 0 → String → Boot → Ending → Type 0
Told F id s (dies t) = (t.store.sjobs ≡ s.store.sjobs) × F
Told F id s (returns t) = ((t.store.sjobs ≡ s.store.sjobs) × Refused id t) ⊎ Created id s t

found-updated :
    (id : String) (f : Rawjob → Rawjob) (r : Rawjob) (rs : List Rawjob)
    → ((x : Rawjob) → (f x).id ≡ x.id)
    → find_one (λ x. str_eq x.id id) rs ≡ some r
    → find_one (λ x. str_eq x.id id) (update_one (λ x. str_eq x.id id) f rs) ≡ some (f r)
unfolding find_one update_one
found-updated id f r [] k h = ground arith
found-updated id f r (x ∷ rs) k h = ground (arith, h, k x, found-updated id f r rs k)

module _ (id : String) where
  found_some : {A : Type 0} (o : Option A) → is_some o ≡ true → (a : A) × (o ≡ some a)
  found_some none h = absurd (ground arith)
  found_some (some a) h = (a, refl)

  job_error-Refused :
      (error : String) (s : Boot)
      → is_some (get_rawjob_from_id id s.store) ≡ true
      → Refused id (job_error id error s)
  unfolding job_error get_rawjob_from_id update_rawjob
  job_error-Refused error s h =
      let (r, found) = found_some (get_rawjob_from_id id s.store) h in
      let failed = record r { state = RawjobState.error } in
      let stated =
        found-updated id (λ x. record x { state = RawjobState.error }) r s.store.rawjobs (λ x. refl)
          found in
      (
        record failed { error = some (message error) },
        found-updated id (λ x. record x { error = some (message error) }) failed _ (λ x. refl)
            stated,
        refl,
        refl,
      )

refused-Told :
    (F : Type 0) (rid : String) (s : Boot)
    → is_some (get_rawjob_from_id rid s.store) ≡ true
    → (error : String) (t : Boot) → Same s t
    → Told F rid s (returns (job_error rid error t))
unfolding job_error update_rawjob
refused-Told F rid s found error t same =
    inl (same.same_sjobs, job_error-Refused rid error t (same.same_found rid ∙ found))

module _ (env : BootEnv) (r : Rawjob) (dst : Dst) where
  new-NewJob : (oid : String) (d : Draft) → Fresh d → NewJob r.id (sjob_of env oid r dst d)
  new-NewJob oid d h = record {
    of_rawjob = refl;
    no_flows = refl;
    balanced = sym h;
    is_bootstrap = refl;
  }

  abbrev next_state : Draft → Boot → Boot
  next_state d t = record t {
    store = record (t.store) {
      sjobs = t.store.sjobs ++ sjob_of env (env.oid t.drawn) r dst d ∷ [];
    };
    drawn = suc t.drawn;
  }

  insert_sjobs-NewJob :
      (ds : List Draft) (t : Boot)
      → All Fresh ds
      → (js : List Sjob) × ((insert_sjobs env r dst ds t).store.sjobs ≡ t.store.sjobs ++ js)
        × All (NewJob r.id) js
  unfolding insert_sjobs
  insert_sjobs-NewJob [] t h = ([], sym (append-nil t.store.sjobs), tt)
  insert_sjobs-NewJob (d ∷ ds) t h =
      let (js, added, new) = insert_sjobs-NewJob ds (next_state d t) h.1 in
      let j = sjob_of env (env.oid t.drawn) r dst d in
      (j ∷ js, added ∙ append_assoc t.store.sjobs (j ∷ []) js, (new-NewJob _ d h.0, new))

  -- The first of the new jobs, and the others.
  insert_sjobs-Created :
      (d : Draft) (ds : List Draft) (t : Boot)
      → All Fresh (d ∷ ds)
      → (j : Sjob) × (js : List Sjob) × ((insert_sjobs env r dst (d ∷ ds) t).store.sjobs
          ≡ t.store.sjobs ++ j ∷ js)
        × All (NewJob r.id) (j ∷ js)
  unfolding insert_sjobs
  insert_sjobs-Created d ds t h =
      let (js, added, new) = insert_sjobs-NewJob ds (next_state d t) h.1 in
      let j = sjob_of env (env.oid t.drawn) r dst d in
      (j, js, added ∙ append_assoc t.store.sjobs (j ∷ []) js, (new-NewJob _ d h.0, new))

  module _ (F : Type 0) (s : Boot) (found : is_some (get_rawjob_from_id r.id s.store) ≡ true) where
    create_jobs-Told :
        (ds : List Draft) (t : Boot)
        → Same s t
        → All Fresh ds
        → Told F r.id s (create_jobs env r dst ds t)
    unfolding create_jobs del_sjobs
    create_jobs-Told [] t same h = refused-Told F r.id s found _ t same
    create_jobs-Told (d ∷ ds) t same h =
        let (j, js, added, new) =
          insert_sjobs-Created d ds (record t { store = del_sjobs r.id t.store }) h in
        inr (
          j,
          js,
          added
              ∙ ap (λ xs. find_all (λ x. not (str_eq x.rawjob r.id)) xs ++ j ∷ js) same.same_sjobs,
          new,
        )

    check_space-Told :
        (ds : List Draft) (t : Boot)
        → Same s t
        → All Fresh ds
        → Told F r.id s (check_space env r dst ds t)
    unfolding check_space
    check_space-Told ds t same h =
        if_cases (Told F r.id s) (no_space env ds dst) (λ _. refused-Told F r.id s found _ t same)
          (λ _. create_jobs-Told ds t same h)

module _ (F : Type 0) (rid : String) (s : Boot)
    (found : is_some (get_rawjob_from_id rid s.store) ≡ true) where
  on_parsed-Told :
      {A : Type 0} (P : A → Type 0) (a : Answer A) (t : Boot) (k : A → Boot → Ending)
      → Same s t
      → Holds F P a
      → ((x : A) → P x → Told F rid s (k x t))
      → Told F rid s (on_parsed rid a t k)
  on_parsed-Told P (gives x) t k same h next = next x h
  on_parsed-Told P (fails e) t k same h next = refused-Told F rid s found e t same
  on_parsed-Told P crashes t k same h next = (same.same_sjobs, h)

  parsed-Told :
      {A : Type 0} (P : A → Type 0) (m : B A) (t : Boot) (k : A → Boot → Ending)
      → Same s t
      → Keeps F P m
      → ((x : A) (u : Boot) → Same s u → P x → Told F rid s (k x u))
      → Told F rid s (parsed rid m t k)
  parsed-Told P m t k same keeps next =
      let after = Same-trans same (keeps.same t) in
      on_parsed-Told P (m t).0 (m t).1 k after (keeps.holds t) (λ x h. next x (m t).1 after h)

Holds-map :
    {A : Type 0} (F G : Type 0) (P : A → Type 0) (a : Answer A)
    → (F → G)
    → Holds F P a
    → Holds G P a
Holds-map F G P (gives x) f h = h
Holds-map F G P (fails e) f h = h
Holds-map F G P crashes f h = f h

Keeps-map :
    {A : Type 0} (F G : Type 0) (P : A → Type 0) (m : B A) → (F → G) → Keeps F P m → Keeps G P m
Keeps-map F G P m f k = record { same = k.same; holds = λ s. Holds-map F G P (m s).0 f (k.holds s) }

-- The ways in which the program can end.
abbrev pub EndsFor : BootEnv → Rawjob → Boot → Type 0
EndsFor env r s = Fatal r ⊎ NoProxy env r s

bootstrap_job-Told :
    (env : BootEnv) (r : Rawjob) (s : Boot)
    → is_some (get_rawjob_from_id r.id s.store) ≡ true
    → Told (EndsFor env r s) r.id s (bootstrap_job env r s)
unfolding bootstrap_job
bootstrap_job-Told env r s found =
    let F = EndsFor env r s in
    if_cases (Told F r.id s) env.has_launcher
      (λ _.
        on_parsed-Told F r.id s found Anything (create_raw_job_proxy_cert env r s).0
          (create_raw_job_proxy_cert env r s).1 _ (create_raw_job_proxy_cert-Same env r s)
          (Holds-map (NoProxy env r s) F Anything (create_raw_job_proxy_cert env r s).0 inr
            (create_raw_job_proxy_cert-Holds env r s))
          (λ done h1.
            parsed-Told F r.id s found Anything (parse_raw_job_dst env r)
              (create_raw_job_proxy_cert env r s).1 _ (create_raw_job_proxy_cert-Same env r s)
              (parse_raw_job_dst-Keeps F env r)
              (λ dst s2 same2 h2.
                parsed-Told F r.id s found (All Fresh) (parse_source env r dst) s2 _ same2
                  (Keeps-map (Fatal r) F (All Fresh) (parse_source env r dst) inl
                    (parse_source-Keeps env r dst))
                  (λ drafts s3 same3 fresh.
                    check_space-Told env r dst F s found drafts s3 same3 fresh))))
      (λ _. refused-Told F r.id s found _ s (Same-refl s))

-- The raw job is not there, or has failed before.
abbrev pub PassedOver : String → Boot → Type 0
PassedOver id s =
    (get_rawjob_from_id id s.store ≡ none)
    ⊎ ((r : Rawjob) × (get_rawjob_from_id id s.store ≡ some r) × (is_some r.error ≡ true))

found_id :
    (id : String) (rs : List Rawjob) (r : Rawjob)
    → find_one (λ x. str_eq x.id id) rs ≡ some r
    → r.id ≡ id
unfolding find_one
found_id id [] r h = ground arith
found_id id (x ∷ rs) r h = ground (arith, h, eq_iff x.id id, found_id id rs r)

-- The program can end: the deadline is 0 as an unsigned number, a destination in a data set has
-- not four pieces or an empty path, or no proxy is made of a certificate of the user.
abbrev pub IsFatal : BootEnv → String → Boot → Type 0
IsFatal env id s = (r : Rawjob) × (get_rawjob_from_id id s.store ≡ some r) × EndsFor env r s

Told-map :
    {F G : Type 0} (id : String) (s : Boot) (e : Ending) → (F → G) → Told F id s e → Told G id s e
Told-map id s (returns t) f h = h
Told-map id s (dies t) f h = (h.0, f h.1)

started-Told :
    (env : BootEnv) (id : String) (r : Rawjob) (s : Boot)
    → get_rawjob_from_id id s.store ≡ some r
    → r.id ≡ id
    → Told (EndsFor env r s) id s (bootstrap_job env r s)
started-Told env id r s found is_id =
    subst (λ i. Told (EndsFor env r s) i s (bootstrap_job env r s)) is_id
      (bootstrap_job-Told env r s
        (subst (λ i. is_some (get_rawjob_from_id i s.store) ≡ true) (sym is_id) (ap is_some found)))

found-Told :
    (env : BootEnv) (id : String) (s : Boot) (o : Option Rawjob)
    → get_rawjob_from_id id s.store ≡ o
    → (PassedOver id s
        × ((elim o [
          | none ↦ returns s
          | some r ↦ if is_some r.error then returns s else bootstrap_job env r s
        ])
            ≡ returns s))
      ⊎ Told (IsFatal env id s) id s (elim o [
        | none ↦ returns s
        | some r ↦ if is_some r.error then returns s else bootstrap_job env r s
      ])
unfolding get_rawjob_from_id
found-Told env id s none e = inl (inl e, refl)
found-Told env id s (some r) e =
    if_cases
      (λ ending. (PassedOver id s × (ending ≡ returns s)) ⊎ Told (IsFatal env id s) id s ending)
      (is_some r.error) (λ failed. inl (inr (r, e, failed), refl))
      (λ _. inr (
        Told-map id s (bootstrap_job env r s) (λ h. (r, e, h))
          (started-Told env id r s e (found_id id s.store.rawjobs r e))))

-- A raw job that is not there, or has failed before, is passed over, and nothing changes. Otherwise
-- either the jobs stay as they are and the raw job says that it has failed, or its old jobs are
-- gone and new ones, one at least, come after those of the other raw jobs: they have no flow, and
-- have sent what their blocks have sent. If the program ends, the jobs stay as they are, and the
-- deadline is 0 as an unsigned number, a destination in a data set has not four pieces or an empty
-- path, or no proxy is made of a certificate that the store has of the user for one of the sites.
-- The documents have the members that are read, in their types, and no call of the store or of a
-- portal throws.
pub bootstrap_transfer_job-Told :
    (env : BootEnv) (id : String) (s : Boot)
    → (PassedOver id s × (bootstrap_transfer_job env id s ≡ returns s))
      ⊎ Told (IsFatal env id s) id s (bootstrap_transfer_job env id s)
unfolding bootstrap_transfer_job
bootstrap_transfer_job-Told env id s = found-Told env id s (get_rawjob_from_id id s.store) refl
