-- ===== src/Checksum/Same.antt =====
-- utils/checksum.cc: the parallel checksum of a directory beside the sequential one.
use bigdataexpress_c.Base.{
  ℕ, String, ◌≡◌, refl, sym, ◌∙◌, inl, inr, Bool-cases, ap, subst, Bool, true, false, Option, none,
  some, List, ◌++◌, length, ◌==◌, if◌then◌else◌, ==_iff,
}
use bigdataexpress_c.FilePath.{FilePath}
use bigdataexpress_c.PathGroups.{Paths}
use bigdataexpress_c.DirTree.{PathGroup}
use bigdataexpress_c.DirTree.Deal.{partition_evenly}
use bigdataexpress_c.Checksum.{
  sort, count_regular_files, and_then, deal_tasks, checksums_of, checksums_of_groups,
  checksum_of_checksums, sequential_directory_checksum, run_tasks, check_count,
  parallel_directory_checksum,
}
use bigdataexpress_c.Base.Shuffles.{Shuffled, chain}
use bigdataexpress_c.Checksum.Order.{sort-Shuffled}
use bigdataexpress_c.Checksum.Groups.{held, regular, Within-partition_evenly, Shuffled-deal_tasks}
use bigdataexpress_c.Checksum.Counts.{
  Within-whole, count_regular-Within, count_regular-Shuffled, count_regular-length,
}
use bigdataexpress_c.Checksum.Sums.{
  Alike, Alike-refl, Alike-trans, sums-Alike, joined, sums-append, sums-held, sums-regular,
  sums-length,
}

module _ (checksum_file : FilePath → Option String) (digest : List String → Option String) where
  abbrev finish_sums : Option (List String) → Option String
  finish_sums o = and_then o (checksum_of_checksums digest)

  checked :
      (n : ℕ) (b : Bool) (o u : Option (List String))
      → Alike o u
      → ((cs : List String) → o ≡ some cs → (length cs == n) ≡ b)
      → and_then o (λ cs. if length cs == n then checksum_of_checksums digest cs else none)
        ≡ (if b then finish_sums u else none)
  unfolding checksum_of_checksums
  checked n true none none h k = refl
  checked n false none u h k = refl
  checked n true (some xs) (some ys) h k =
      ap (λ b. if b then digest (sort xs) else none) (k xs refl) ∙ ap digest (sort-Shuffled h)
  checked n false (some xs) u h k = ap (λ b. if b then digest (sort xs) else none) (k xs refl)
  checked n true none (some ys) h k = absurd h
  checked n true (some xs) none h k = absurd h

  tasks_joined :
      (o u : Option (List String)) (f : List String → Option String)
      → and_then o (λ xs. and_then u (λ ys. f (xs ++ ys))) ≡ and_then (joined checksum_file o u) f
  tasks_joined none u f = refl
  tasks_joined (some xs) none f = refl
  tasks_joined (some xs) (some ys) f = refl

  abbrev whole : List PathGroup × List PathGroup → Paths
  whole tasks = held (tasks.1) ++ held (tasks.0)

  run_tasks-sums :
      (sorted : Paths) (tasks : List PathGroup × List PathGroup)
      → run_tasks checksum_file digest sorted tasks
        ≡ and_then
            (checksums_of checksum_file (whole tasks))
            (check_count checksum_file digest sorted)
  run_tasks-sums sorted tasks =
      tasks_joined (checksums_of_groups checksum_file (tasks.1))
        (checksums_of_groups checksum_file (tasks.0)) (check_count checksum_file digest sorted)
      ∙ ap (λ o. and_then o (check_count checksum_file digest sorted))
          (ap (λ o. joined checksum_file o (checksums_of_groups checksum_file (tasks.0)))
              (sums-held checksum_file (tasks.1))
            ∙ ap (joined checksum_file (checksums_of checksum_file (held (tasks.1))))
                (sums-held checksum_file (tasks.0))
            ∙ sym (sums-append checksum_file (held (tasks.1)) (held (tasks.0))))

  abbrev pub Agrees : Paths → Paths → ℕ → Option String → Type 0
  Agrees sorted paths dealt o = o ≡ (
      if dealt == count_regular_files sorted
      then sequential_directory_checksum checksum_file digest paths
      else none)

  -- Where the groups are made, from the paths of the directory in the order in which they were
  -- sorted: whichever groups run in threads of their own, and however many, the parallel checksum
  -- is the sequential one, exceptions included, if as many files were dealt to the groups as there
  -- are, and an exception otherwise.
  pub parallel-sequential :
      (below : ℕ → Bool) (max_threads size : ℕ) (sorted paths : Paths) (gs : List PathGroup)
      → Shuffled sorted paths
      → partition_evenly max_threads size sorted ≡ some gs
      → Agrees sorted paths
          (length (held gs))
          (parallel_directory_checksum checksum_file digest below max_threads size sorted)
  unfolding parallel_directory_checksum sequential_directory_checksum
  parallel-sequential below max_threads size sorted paths gs p e =
      let tasks = deal_tasks below 0 gs in
      let w = Within-partition_evenly max_threads size sorted gs e in
      let t = Shuffled-deal_tasks below 0 gs in
      let sums = checksums_of checksum_file in
      let n = count_regular_files sorted in
      let counted : (cs : List String)
          → sums (whole tasks) ≡ some cs
          → (length cs == n) ≡ (length (held gs) == n) =
        λ cs f.
          ap (λ m. m == n)
            (sums-length checksum_file (whole tasks) cs f
              ∙ count_regular-Shuffled t
              ∙ count_regular-Within (held gs) sorted w) in
      ap (λ o. and_then o (λ hs. run_tasks checksum_file digest sorted (deal_tasks below 0 hs))) e
      ∙ run_tasks-sums sorted tasks
      ∙ elim (Bool-cases (length (held gs) == n)) [
        | inl f ↦
            let q =
              Within-whole (held gs) (regular sorted) w
                ((==_iff _ n).0 f ∙ count_regular-length sorted) in
            let alike : Alike (sums (whole tasks)) (sums paths) =
              Alike-trans (sums (whole tasks)) (sums (regular sorted)) (sums paths)
                (sums-Alike checksum_file (chain t q))
                (subst (λ o. Alike o (sums paths)) (sym (sums-regular checksum_file sorted))
                  (sums-Alike checksum_file p)) in
            checked n true (sums (whole tasks)) (sums paths) alike (λ cs g. counted cs g ∙ f)
            ∙ ap (λ b. if b then finish_sums (sums paths) else none) (sym f)
        | inr f ↦
            checked n false (sums (whole tasks)) (sums (whole tasks)) (Alike-refl _)
              (λ cs g. counted cs g ∙ f)
            ∙ ap (λ b. if b then finish_sums (sums paths) else none) (sym f)
      ]
