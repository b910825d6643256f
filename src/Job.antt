-- ===== src/Job.antt =====
-- server/jobmanager.h: the jobs between DTNs. A rate is a whole number of bytes per second; the
-- `double`s of the source hold these exactly below 2 ^ 53.
use bigdataexpress_c.Base.{
  String, Bool, true, false, Option, none, some, List, [], ◌∷◌, ◌&&◌, if◌then◌else◌,
}
use bigdataexpress_c.Base.Int.{ℤ, pos, negsuc, ◌+ℤ◌, ltb_ℤ}
use bigdataexpress_c.Base.Keyed.{Keyed, lookup, emplace, update}
use bigdataexpress_c.Outcome.{Outcome, ok, throw, fault, no_job, no_extra_job, ◌>>=◌}

pub data JobState : Type 0 where
  running stopped finished reserved marked_for_prealloc : JobState

pub data JobGroup : Type 0 where
  base extra : JobGroup

pub record BaseJob : Type 0 where
  pub id : String
  pub group : JobGroup
  pub state : JobState
  pub rate : ℤ

-- `JobManager::basic_jobs`. Nothing is ever taken out of it.
abbrev pub BasicJobs : Type 0
BasicJobs = Keyed BaseJob

-- `add_basic_job`: the job under the identifier, which is the new one only if the key was free.
unfoldable pub add_basic_job : String → JobGroup → JobState → ℤ → BasicJobs → BasicJobs
add_basic_job id jg js r = emplace id (record { id = id; group = jg; state = js; rate = r })

unfoldable pub set_state : String → JobState → BasicJobs → BasicJobs
set_state id js = update id (λ job. record job { state = js })

unfoldable pub is_running : BaseJob → Bool
is_running job = elim job.state [ JobState.running ↦ true | _ ↦ false ]

unfoldable pub is_extra : BaseJob → Bool
is_extra job = elim job.group [ JobGroup.extra ↦ true | JobGroup.base ↦ false ]

unfoldable pub is_base : BaseJob → Bool
is_base job = elim job.group [ JobGroup.extra ↦ false | JobGroup.base ↦ true ]

-- The jobs that a component's pointers `jobs_` lead to, in the order of their identifiers.
unfoldable pub deref_jobs : BasicJobs → Keyed String → Outcome (List BaseJob)
deref_jobs jm [] = ok []
deref_jobs jm ((id, p) ∷ ps) = do
  job ← elim (lookup p jm) [ none ↦ fault | some job ↦ ok job ]
  jobs ← deref_jobs jm ps
  ok (job ∷ jobs)

-- The loop of `sum_re`, and of `sum_rb`.
unfoldable pub sum_re_from : ℤ → List BaseJob → ℤ
unfolding is_running is_extra
sum_re_from sum [] = sum
sum_re_from sum (job ∷ jobs) =
    sum_re_from (if is_running job && is_extra job then sum +ℤ job.rate else sum) jobs

unfoldable pub sum_rb_from : ℤ → List BaseJob → ℤ
unfolding is_running is_base
sum_rb_from sum [] = sum
sum_rb_from sum (job ∷ jobs) =
    sum_rb_from (if is_running job && is_base job then sum +ℤ job.rate else sum) jobs

unfoldable pub sum_re : BasicJobs → Keyed String → Outcome ℤ
unfolding deref_jobs sum_re_from
sum_re jm ps = do jobs ← deref_jobs jm ps; ok (sum_re_from (pos 0) jobs)

unfoldable pub sum_rb : BasicJobs → Keyed String → Outcome ℤ
unfolding deref_jobs sum_rb_from
sum_rb jm ps = do jobs ← deref_jobs jm ps; ok (sum_rb_from (pos 0) jobs)

-- The loop of `find_largest_re_job`, with `largest_rate` and `largest_job`.
unfoldable pub largest_from : ℤ → Option BaseJob → List BaseJob → Option BaseJob
unfolding is_running is_extra
largest_from rate job [] = job
largest_from rate job (j ∷ jobs) =
    let larger = is_extra j && (is_running j && ltb_ℤ rate j.rate) in
    largest_from (if larger then j.rate else rate) (if larger then some j else job) jobs

unfoldable pub find_largest_re_job : BasicJobs → Keyed String → Outcome BaseJob
unfolding deref_jobs largest_from
find_largest_re_job jm [] = throw no_job
find_largest_re_job jm (p ∷ ps) = do
  jobs ← deref_jobs jm (p ∷ ps)
  elim (largest_from (negsuc 0) none jobs) [ none ↦ throw no_extra_job | some job ↦ ok job ]
