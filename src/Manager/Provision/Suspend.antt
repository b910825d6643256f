-- ===== src/Manager/Provision/Suspend.antt =====
-- The loop of `query_path_dtns` (server/resourcemanager.cc) that suspends extra jobs: how many
-- running extra jobs each of its rounds leaves.
use bigdataexpress_c.Base.{
  ℕ, zero, suc, ◌+◌, ◌≤◌, ◌<◌, ◌≡◌, ◌≢◌, refl, ◌⊎◌, inl, inr, String, true, ◌&&◌, Option, none,
  some, List, [], ◌∷◌, str_eq, if◌then◌else◌, arith, Option-cases, subst, Bool-cases, All,
}
use bigdataexpress_c.Base.Int.{ℤ, negsuc, ltb_ℤ}
use bigdataexpress_c.Base.Keyed.{Keyed, lookup, update, lookup-update}
use bigdataexpress_c.Outcome.{ok, throw, fault, ◌>>=◌, >>=-eq-ok, no_extra_job}
use bigdataexpress_c.Job.{
  BaseJob, BasicJobs, marked_for_prealloc, set_state, is_running, is_extra, deref_jobs,
  largest_from, find_largest_re_job,
}
use bigdataexpress_c.Manager.Provision.{
  Manager, Room, out_of_fuel, suspend, next_job, room_step, make_room,
}

abbrev weight : BaseJob → ℕ
weight job = if is_running job && is_extra job then 1 else 0

-- How many running extra jobs there are.
unfoldable pub running_extra : BasicJobs → ℕ
running_extra [] = 0
running_extra ((k, job) ∷ jm) = weight job + running_extra jm

-- Every job stands under its own identifier, as `add_basic_job` puts it.
abbrev pub IsNamed : BasicJobs → Type 0
IsNamed jm = (p : String) (job : BaseJob) → lookup p jm ≡ some job → job.id ≡ p

set_state-IsNamed :
    (id : String) (jm : BasicJobs) → IsNamed jm → IsNamed (set_state id marked_for_prealloc jm)
unfolding set_state
set_state-IsNamed id jm named p job h = elim (Option-cases (lookup p jm)) [
  | inl e ↦ absurd (ground (arith, h, e, lookup-update id p stopped jm))
  | inr (j, e) ↦ ground (arith, h, e, lookup-update id p stopped jm, named p j e)
]
  where
    stopped : BaseJob → BaseJob
    stopped job = record job { state = marked_for_prealloc }

running_extra-set_state :
    (id : String) (jm : BasicJobs)
    → running_extra (set_state id marked_for_prealloc jm) ≤ running_extra jm
unfolding running_extra set_state update is_running is_extra
running_extra-set_state id [] = omega arith
running_extra-set_state id ((k, job) ∷ jm) = ground (arith, running_extra-set_state id jm)

set_state_fewer :
    (id : String) (job : BaseJob) (jm : BasicJobs)
    → lookup id jm ≡ some job
    → is_running job ≡ true
    → is_extra job ≡ true
    → running_extra (set_state id marked_for_prealloc jm) < running_extra jm
unfolding running_extra set_state update lookup is_running is_extra
set_state_fewer id job [] h r x = absurd (cc)
set_state_fewer id job ((k, j) ∷ jm) h r x = elim (Bool-cases (str_eq k id)) [
  | inl e ↦ ground (arith, h, e, r, x, running_extra-set_state id jm)
  | inr e ↦ ground (arith, e, set_state_fewer id job jm (ground (arith, h, e)) r x)
]

-- A pointer leads to the job.
abbrev IsHeld : BasicJobs → BaseJob → Type 0
IsHeld jm job = (p : String) × (lookup p jm ≡ some job)

deref_jobs-IsHeld :
    (jm : BasicJobs) (ps : Keyed String) (jobs : List BaseJob)
    → deref_jobs jm ps ≡ ok jobs
    → All (IsHeld jm) jobs
unfolding deref_jobs
deref_jobs-IsHeld jm [] [] h = tt
deref_jobs-IsHeld jm [] (j ∷ jobs) h = absurd (cc)
deref_jobs-IsHeld jm ((id, p) ∷ ps) jobs h =
    let (job, e, rest) =
      >>=-eq-ok (elim (lookup p jm) [ none ↦ fault | some job ↦ ok job ])
        (λ job. deref_jobs jm ps >>= λ more. ok (job ∷ more)) h in
    let (more, e', last) = >>=-eq-ok (deref_jobs jm ps) (λ more. ok (job ∷ more)) rest in
    let whole : job ∷ more ≡ jobs = cc in
    subst (All (IsHeld jm)) whole ((p, ground (arith, e)), deref_jobs-IsHeld jm ps more e')

abbrev IsCandidate : BasicJobs → BaseJob → Type 0
IsCandidate jm job = IsHeld jm job × (is_running job ≡ true) × (is_extra job ≡ true)

largest_from-IsCandidate :
    (jm : BasicJobs) (rate : ℤ) (candidate : Option BaseJob) (jobs : List BaseJob) (job : BaseJob)
    → All (IsHeld jm) jobs
    → ((j : BaseJob) → candidate ≡ some j → IsCandidate jm j)
    → largest_from rate candidate jobs ≡ some job
    → IsCandidate jm job
unfolding largest_from
largest_from-IsCandidate jm rate candidate [] job held c h = c job h
largest_from-IsCandidate jm rate candidate (j ∷ jobs) job held c h =
    elim (Bool-cases (is_extra j && (is_running j && ltb_ℤ rate j.rate))) [
      | inl e ↦
          largest_from-IsCandidate jm j.rate (some j) jobs job held.1
            (λ i same. subst (IsCandidate jm) (cc) (held.0, ground (arith, e), ground (arith, e)))
            (ground (arith, h, e))
      | inr e ↦ largest_from-IsCandidate jm rate candidate jobs job held.1 c (ground (arith, h, e))
    ]

find_largest_re_job-IsCandidate :
    (jm : BasicJobs) (ps : Keyed String) (job : BaseJob)
    → find_largest_re_job jm ps ≡ ok job
    → IsCandidate jm job
unfolding find_largest_re_job
find_largest_re_job-IsCandidate jm [] job h = absurd (cc)
find_largest_re_job-IsCandidate jm (p ∷ ps) job h =
    let (jobs, e, rest) =
      >>=-eq-ok (deref_jobs jm (p ∷ ps))
        (λ jobs. elim (largest_from (negsuc 0) none jobs) [
          | none ↦ throw no_extra_job
          | some job ↦ ok job
        ])
        h in
    largest_from-IsCandidate jm (negsuc 0) none jobs job (deref_jobs-IsHeld jm (p ∷ ps) jobs e)
      (λ j bad. absurd (cc)) (ground (arith, rest))

next_job-IsCandidate :
    (jm : BasicJobs) (jobs : Keyed String) (job : BaseJob)
    → next_job jm jobs ≡ inr job
    → IsCandidate jm job
unfolding next_job
next_job-IsCandidate jm [] job h = absurd (cc)
next_job-IsCandidate jm (p ∷ ps) job h =
    find_largest_re_job-IsCandidate jm (p ∷ ps) job (ground (arith, h))

room_step-IsCandidate :
    (storage : String) (rate : ℤ) (jobs : Keyed String) (m : Manager) (job : BaseJob)
    → room_step storage rate jobs m ≡ inr job
    → IsCandidate m.jm job
unfolding room_step
room_step-IsCandidate storage rate jobs m job h =
    next_job-IsCandidate m.jm jobs job (ground (arith, h))

next_job-answers : (jm : BasicJobs) (jobs : Keyed String) → next_job jm jobs ≢ inl out_of_fuel
unfolding next_job
next_job-answers jm [] h = absurd (cc)
next_job-answers jm (p ∷ ps) h = absurd (ground (arith, h))

room_step-answers :
    (storage : String) (rate : ℤ) (jobs : Keyed String) (m : Manager)
    → room_step storage rate jobs m ≢ inl out_of_fuel
unfolding room_step
room_step-answers storage rate jobs m h = absurd (ground (arith, h, next_job-answers m.jm jobs))

step_cases :
    (o : Room ⊎ BaseJob) → ((room : Room) × (o ≡ inl room)) ⊎ ((job : BaseJob) × (o ≡ inr job))
step_cases (inl room) = inl (room, refl)
step_cases (inr job) = inr (job, refl)

suspend_fewer :
    (job : BaseJob) (m : Manager)
    → IsNamed m.jm
    → IsCandidate m.jm job
    → IsNamed (suspend job m).jm × (running_extra (suspend job m).jm < running_extra m.jm)
unfolding suspend
suspend_fewer job m named ((p, held), r, x) = (
  set_state-IsNamed job.id m.jm named,
  set_state_fewer job.id job m.jm (ground (arith, held, named p job held)) r x,
)

-- Where every job stands under its own identifier, the loop ends with a round for each running extra
-- job and one more, whatever the rates are.
pub make_room_total :
    (fuel : ℕ) (storage : String) (rate : ℤ) (jobs : Keyed String) (m : Manager)
    → IsNamed m.jm
    → running_extra m.jm < fuel
    → (make_room fuel storage rate jobs m).0 ≢ out_of_fuel
unfolding make_room
make_room_total zero storage rate jobs m named h out = absurd (omega (arith, h))
make_room_total (suc fuel) storage rate jobs m named h out =
    elim (step_cases (room_step storage rate jobs m)) [
      | inl (room, e) ↦ room_step-answers storage rate jobs m (ground (arith, e, out))
      | inr (job, e) ↦
          let (still, fewer) =
            suspend_fewer job m named (room_step-IsCandidate storage rate jobs m job e) in
          make_room_total fuel storage rate jobs (suspend job m) still (omega (arith, h, fewer))
            (ground (arith, e, out))
    ]
