-- ===== src/PathGroups/Counts.antt =====
-- `group_by_size` of utils/paths/pathgroups.cc: how many files the groups hold.
use bigdataexpress_c.Base.{
  ℕ, ◌≤◌, ◌<◌, ◌⊎◌, inl, inr, not, ◌&&◌, ◌||◌, [], ◌∷◌, ◌++◌, arith, length, length-append, All,
  All-snoc, ltb, leb, if_cases,
}
use bigdataexpress_c.FilePath.{FilePath}
use bigdataexpress_c.PathGroups.{
  Paths, Grouping, groupable, add_size, join_current, add_file, add_files, finish, no_groups,
  group_by_size,
}

-- A group that is opened by a file which did not fit holds that file before the limit is tested.
abbrev pub FitsCount : ℕ → Paths → Type 0
FitsCount k g = (length g ≤ k) ⊎ (length g ≤ 2)

record CountInv (k : ℕ) (g : Grouping) : Type 0 where
  closed : All (FitsCount k) g.result
  open_group : (length g.current < k) ⊎ (length g.current ≤ 1)

module _ (m k : ℕ) (limited : 0 < k) where
  join_current-CountInv :
      (g : Grouping) (p : FilePath) → CountInv k g → CountInv k (join_current m k g p)
  unfolding join_current
  join_current-CountInv g p v =
      if_cases (CountInv k)
        (leb m (add_size g.current_size p.size)
          || (ltb 0 k && leb k (length (g.current ++ p ∷ []))))
        (λ _. record {
          closed =
              All-snoc (FitsCount k) g.result (g.current ++ p ∷ []) v.closed
                (grind (arith, v.open_group, length-append g.current (p ∷ [])));
          open_group = inr (omega arith);
        })
        (λ e. record { closed = v.closed; open_group = inl (ground (arith, e)) })

  add_file-CountInv : (g : Grouping) (p : FilePath) → CountInv k g → CountInv k (add_file m k g p)
  unfolding add_file
  add_file-CountInv g p v =
      if_cases (CountInv k) (not (groupable p)) (λ _. v)
        (λ _.
          if_cases (CountInv k) (ltb m p.size)
            (λ _. record {
              closed = All-snoc (FitsCount k) g.result (p ∷ []) v.closed (inr (omega arith));
              open_group = v.open_group;
            })
            (λ _.
              if_cases (CountInv k) (leb (add_size p.size g.current_size) m)
                (λ _. join_current-CountInv g p v)
                (λ _. record {
                  closed =
                      All-snoc (FitsCount k) g.result g.current v.closed
                        (grind (arith, v.open_group));
                  open_group = inr (omega arith);
                })))

  add_files-CountInv : (g : Grouping) (ps : Paths) → CountInv k g → CountInv k (add_files m k g ps)
  unfolding add_files
  add_files-CountInv g [] v = v
  add_files-CountInv g (p ∷ ps) v =
      add_files-CountInv (add_file m k g p) ps (add_file-CountInv g p v)

  -- With a limit on the number of files that is not 0, no group has more files than the limit,
  -- or than 2 if the limit is 1.
  pub group_by_size-FitsCount : (interim : Paths) → All (FitsCount k) (group_by_size interim m k)
  unfolding group_by_size finish
  group_by_size-FitsCount interim =
      let v =
        add_files-CountInv no_groups interim
          (record { closed = tt; open_group = inr (omega arith) }) in
      let g = add_files m k no_groups interim in
      if_cases (All (FitsCount k)) (ltb 0 (length g.current))
        (λ _. All-snoc (FitsCount k) g.result g.current v.closed (grind (arith, v.open_group)))
        (λ _. v.closed)
