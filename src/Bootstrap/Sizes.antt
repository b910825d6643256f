-- ===== src/Bootstrap/Sizes.antt =====
-- The sizes of the jobs of a data set.
use bigdataexpress_c.Base.{
  ℕ, ◌+◌, String, ◌≡◌, ◌≢◌, refl, sym, ap, ap₂, ◌∙◌, ◌≤◌, ◌%◌, ◌^◌, true, false, Option, none, some,
  List, [], ◌∷◌, ◌++◌, ◌==◌, All, arith, eq_iff, subst,
}
use bigdataexpress_c.Base.Int.{ℤ}
use bigdataexpress_c.Base.Keyed.{
  Keyed, lookup, emplace, insert, update, is_some, Unique, Unique-emplace, Unique-update,
  lookup-emplace,
}
use bigdataexpress_c.Store.{DatasetFile, Rawjob}
use bigdataexpress_c.Bootstrap.{BootEnv, Boot, gives}
use bigdataexpress_c.Bootstrap.Paths.{FileId, parse_id, storage_of, split, is_bar, dst_dir}
use bigdataexpress_c.Bootstrap.Sources.{Source, Sources, no_sources, new_source, collect}
use bigdataexpress_c.Bootstrap.Expand.{
  Draft, unsigned, base_rate, insert_block, Entry, entry_of, entry_in, entries_size, single_block,
  each, total_size, total_size_from, parse_raw_job_src_ds, site_url,
}
use bigdataexpress_c.Bootstrap.Yields.{
  Yields, Any, bind-Yields, pure-Yields, get-Yields, draw-Yields, write_store-Yields, false-Yields,
  weaker, answer_some,
}
use bigdataexpress_c.Bootstrap.Gathers.{Reached, IsFile, Appends, add_item-Yields}

abbrev pub files_size : List DatasetFile → ℕ
files_size [] = 0
files_size (f ∷ fs) = f.size + files_size fs

-- The size of all that has been gathered.
abbrev gathered : Keyed (Source Entry) → ℕ
gathered [] = 0
gathered ((k, s) ∷ m) = entries_size s.paths + gathered m

entries_size-snoc :
    (es : List Entry) (e : Entry) → entries_size (es ++ e ∷ []) ≡ entries_size es + e.size
entries_size-snoc [] e = omega arith
entries_size-snoc (d ∷ es) e = omega (arith, entries_size-snoc es e)

abbrev push : Entry → Source Entry → Source Entry
push e s = record s { paths = s.paths ++ e ∷ [] }

module _ (k : String) (e : Entry) where
  gathered-update_absent :
      (m : Keyed (Source Entry)) → lookup k m ≡ none → gathered (update k (push e) m) ≡ gathered m
  unfolding update lookup
  gathered-update_absent [] h = refl
  gathered-update_absent ((j, s) ∷ m) h = ground (arith, h, gathered-update_absent m)

  gathered-update :
      (m : Keyed (Source Entry))
      → Unique m
      → is_some (lookup k m) ≡ true
      → gathered (update k (push e) m) ≡ gathered m + e.size
  unfolding update lookup
  gathered-update [] u h = ground arith
  gathered-update ((j, s) ∷ m) u h = ground (
    arith,
    h,
    u.0,
    eq_iff j k,
    entries_size-snoc s.paths e,
    gathered-update m u.1,
    gathered-update_absent m,
  )

gathered-insert :
    (k : String) (s : Source Entry) (m : Keyed (Source Entry))
    → gathered (insert k s m) ≡ entries_size s.paths + gathered m
unfolding insert
gathered-insert k s [] = refl
gathered-insert k s ((j, t) ∷ m) = ground (arith, gathered-insert k s m)

gathered-emplace :
    (k : String) (s : Source Entry) (m : Keyed (Source Entry))
    → entries_size s.paths ≡ 0
    → gathered (emplace k s m) ≡ gathered m
unfolding emplace
gathered-emplace k s m h = ground (arith, h, gathered-insert k s m)

lookup-emplace_some :
    (k : String) (s : Source Entry) (m : Keyed (Source Entry))
    → is_some (lookup k (emplace k s m)) ≡ true
lookup-emplace_some k s m = ground (arith, lookup-emplace k k s m, eq_iff k k)

entry_in-size :
    (f : DatasetFile) (path : String) (dir : Option String) (e : Entry)
    → entry_in f path dir ≡ gives e
    → e.size ≡ f.size
entry_in-size f path none e h = ground arith
entry_in-size f path (some dir) e h = ground arith

entry_of-size :
    (f : DatasetFile) (path : String) (e : Entry) → entry_of f path ≡ gives e → e.size ≡ f.size
unfolding entry_of
entry_of-size f path e h = entry_in-size f path (dst_dir (split is_bar f.dst)) e h

module _ (env : BootEnv) (url site : String) where
  -- All that has been gathered, and what is left.
  abbrev Holds : ℕ → Sources Entry → Type 0
  Holds n acc = Unique acc.smap × (gathered acc.smap ≡ n)

  Appends-Holds :
      (id : Option FileId) (f : DatasetFile) (n : ℕ) (acc next : Sources Entry)
      → Appends env url site id (entry_of f) acc next
      → Holds n acc
      → Holds (n + f.size) next
  Appends-Holds none f n acc next h k = absurd h
  Appends-Holds (some id) f n acc next (known, e, made, is_next) k =
      let new = new_source env url site id known in
      let own = storage_of id in
      let m = emplace own new acc.smap in
      let u = Unique-emplace own new acc.smap k.0 in
      subst (Holds (n + f.size)) (sym is_next) (
        Unique-update own (push e) m u,
        omega (
          arith,
          gathered-update own e m u (lookup-emplace_some own new acc.smap),
          gathered-emplace own new acc.smap refl,
          entry_of-size f id.path e made,
          k.1,
        ),
      )

  collect-Holds :
      (fs : List DatasetFile) (n : ℕ) (acc : Sources Entry)
      → Reached env
      → All (λ (f : DatasetFile). IsFile site (parse_id f.src) (entry_of f)) fs
      → Holds n acc
      → Yields (Holds (n + files_size fs)) (collect env url site (λ f. f.src) entry_of fs acc)
  unfolding collect
  collect-Holds [] n acc reached h k = pure-Yields _ (k.0, omega (arith, k.1))
  collect-Holds (f ∷ fs) n acc reached h k =
      bind-Yields (add_item-Yields env url site (parse_id f.src) (entry_of f) acc reached h.0)
        (λ next it.
          weaker
            (collect-Holds fs (n + f.size) next reached h.1
              (Appends-Holds (parse_id f.src) f n acc next it k))
            (λ last rest. (rest.0, omega (arith, rest.1))))

differs : (n : ℕ) → n ≢ 0 → (n == 0) ≡ false
differs n h = ground arith

-- The sizes of the jobs, summed without rounding.
abbrev drafts_size : List Draft → ℕ
drafts_size [] = 0
drafts_size (d ∷ ds) = d.size + drafts_size ds

no_wrap : (n : ℕ) → n ≤ 2 ^ 53 → n % 2 ^ 64 ≡ n
no_wrap n h = omega arith

module _ (env : BootEnv) (deadline : ℤ) (nonzero : unsigned deadline ≢ 0) where
  single_block-Yields :
      (src : Source Entry)
      → entries_size src.paths ≤ 2 ^ 53
      → Yields (λ d. d.size ≡ entries_size src.paths) (single_block env deadline src)
  unfolding single_block insert_block base_rate
  single_block-Yields src small =
      bind-Yields
        (bind-Yields (draw-Yields env)
          (λ id h. bind-Yields (write_store-Yields _) (λ done k. pure-Yields {P = Any} id tt)))
        (λ id h.
          bind-Yields {P = Any}
            (false-Yields _ (unsigned deadline == 0) (differs (unsigned deadline) nonzero)
              (pure-Yields _ tt))
            (λ rate k. pure-Yields _ (no_wrap (entries_size src.paths) small)))

  each-Yields :
      (m : Keyed (Source Entry))
      → gathered m ≤ 2 ^ 53
      → Yields (λ ds. drafts_size ds ≡ gathered m) (each (single_block env deadline) m)
  unfolding each
  each-Yields [] small = pure-Yields _ refl
  each-Yields ((k, src) ∷ m) small =
      bind-Yields (single_block-Yields src (omega (arith, small))) (λ d h.
        bind-Yields (each-Yields m (omega (arith, small)))
          (λ ds rest. pure-Yields _ (ap₂ (λ a b. a + b) h rest)))

-- Numbers up to 2 ^ 53 are `double`s.
abbrev pub Exact : BootEnv → Type 0
Exact env = (n : ℕ) → n ≤ 2 ^ 53 → env.round n ≡ n

add_assoc : (a b c : ℕ) → a + b + c ≡ a + (b + c)
add_assoc a b c = omega arith

total_size-Exact :
    (env : BootEnv) (total : ℕ) (ds : List Draft)
    → Exact env
    → total + drafts_size ds ≤ 2 ^ 53
    → total_size_from env total ds ≡ total + drafts_size ds
total_size-Exact env total [] exact small = omega arith
total_size-Exact env total (d ∷ ds) exact small =
    let sum : env.round (total + env.round d.size) ≡ total + d.size =
      ap (λ n. env.round (total + n)) (exact d.size (omega (arith, small)))
      ∙ exact (total + d.size) (omega (arith, small)) in
    ap (λ n. total_size_from env n ds) sum
    ∙ total_size-Exact env (total + d.size) ds exact (omega (arith, small))
    ∙ add_assoc total d.size (drafts_size ds)

parse_raw_job_src_ds-Yields :
    (env : BootEnv) (r : Rawjob)
    → Reached env
    → unsigned r.request.deadline ≢ 0
    → All (λ (f : DatasetFile). IsFile r.src_site (parse_id f.src) (entry_of f)) r.request.files
    → files_size r.request.files ≤ 2 ^ 53
    → Yields (λ ds. drafts_size ds ≡ files_size r.request.files) (parse_raw_job_src_ds env r)
unfolding parse_raw_job_src_ds
parse_raw_job_src_ds-Yields env r reached nonzero valid small = bind-Yields get-Yields (λ t h.
    bind-Yields
      (collect-Holds env (site_url r.src_site t) r.src_site r.request.files 0 no_sources reached
        valid (tt, refl))
      (λ acc k.
        bind-Yields
          (each-Yields env r.request.deadline nonzero acc.smap (omega (arith, small, k.1)))
          (λ ds total.
            bind-Yields (write_store-Yields _)
              (λ done j. pure-Yields ds (omega (arith, total, k.1))))))

-- Where the portals answer with the status 200, the deadline is not 0, every file of a data set has an
-- identifier of the source site and a destination with a path, and the files have at most 2 ^ 53 bytes
-- together, which is as far as every number is a `double`: the parsing gives jobs, and their total
-- size, summed in a `size_t` for each job and in a `double` over the jobs, is that of the files.
pub parse_raw_job_src_ds-total_size :
    (env : BootEnv) (r : Rawjob) (s : Boot)
    → Reached env
    → unsigned r.request.deadline ≢ 0
    → All (λ (f : DatasetFile). IsFile r.src_site (parse_id f.src) (entry_of f)) r.request.files
    → files_size r.request.files ≤ 2 ^ 53
    → Exact env
    → (drafts : List Draft) × ((parse_raw_job_src_ds env r s).0 ≡ gives drafts)
      × (total_size env drafts ≡ files_size r.request.files)
parse_raw_job_src_ds-total_size env r s reached nonzero valid small exact =
    let yields = parse_raw_job_src_ds-Yields env r reached nonzero valid small in
    let (drafts, given, sum) =
      answer_some (λ ds. drafts_size ds ≡ files_size r.request.files)
        (parse_raw_job_src_ds env r s).0 (yields.answer s) in
    (
      drafts,
      given,
      total_size-Exact env 0 drafts exact (omega (arith, sum, small)) ∙ omega (arith, sum),
    )
