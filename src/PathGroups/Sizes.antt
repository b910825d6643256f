-- ===== src/PathGroups/Sizes.antt =====
-- `group_by_size` of utils/paths/pathgroups.cc: how large the groups are.
use bigdataexpress_c.Base.{
  ℕ, ◌+◌, ◌≤◌, ◌<◌, ◌≡◌, refl, ◌⊎◌, inl, inr, not, [], ◌∷◌, ◌++◌, arith, length, length-append, All,
  All-snoc, ltb, leb, if◌then◌else◌, if_cases,
}
use bigdataexpress_c.FilePath.{FilePath}
use bigdataexpress_c.PathGroups.{
  Paths, PathGroups, Grouping, groupable, add_size, size_mod, join_current, add_file, add_files,
  finish, no_groups, group_by_size,
}

-- The bytes of a group, with no wrap-around.
abbrev pub total : Paths → ℕ
total [] = 0
total (p ∷ ps) = p.size + total ps

total-append : (ps qs : Paths) → total (ps ++ qs) ≡ total ps + total qs
total-append [] qs = omega arith
total-append (p ∷ ps) qs = omega (arith, total-append ps qs)

-- A group is a single file, or fits the limit.
abbrev pub FitsSize : ℕ → Paths → Type 0
FitsSize m g = (0 < length g) × ((length g ≡ 1) ⊎ (total g ≤ m))

record SizeInv (m : ℕ) (g : Grouping) : Type 0 where
  closed : All (FitsSize m) g.result
  counted : total g.current ≡ g.current_size
  within : g.current_size ≤ m
  measured : (0 < length g.current) ⊎ (g.current_size ≡ 0)

module _ (m k : ℕ) (small : m + m < size_mod) where
  -- The sum is below the limit or not, as it would be with no wrap-around.
  add_size-small : (a b : ℕ) → a ≤ m → b ≤ m → add_size a b ≡ a + b
  unfolding add_size
  add_size-small a b h l = omega arith

  join_current-SizeInv :
      (g : Grouping) (p : FilePath)
      → SizeInv m g
      → p.size ≤ m
      → p.size + g.current_size ≤ m
      → SizeInv m (join_current m k g p)
  unfolding join_current
  join_current-SizeInv g p v h l =
      if_cases (SizeInv m) _
        (λ _. record {
          closed = All-snoc (FitsSize m) g.result (g.current ++ p ∷ []) v.closed (
            omega (arith, length-append g.current (p ∷ [])),
            inr (omega (arith, total-append g.current (p ∷ []), v.counted)),
          );
          counted = refl;
          within = omega arith;
          measured = inr refl;
        })
        (λ _. record {
          closed = v.closed;
          counted = omega (
            arith,
            total-append g.current (p ∷ []),
            add_size-small g.current_size p.size v.within h,
            v.counted,
          );
          within = omega (arith, add_size-small g.current_size p.size v.within h);
          measured = inl (omega (arith, length-append g.current (p ∷ [])));
        })

  add_file-SizeInv : (g : Grouping) (p : FilePath) → SizeInv m g → SizeInv m (add_file m k g p)
  unfolding add_file
  add_file-SizeInv g p v =
      if_cases (SizeInv m) (not (groupable p)) (λ _. v)
        (λ _.
          if_cases (SizeInv m) (ltb m p.size)
            (λ _. record {
              closed =
                  All-snoc (FitsSize m) g.result (p ∷ []) v.closed (omega arith, inl (omega arith));
              counted = v.counted;
              within = v.within;
              measured = v.measured;
            })
            (λ fits.
              let fits' : p.size ≤ m = ground arith in
              if_cases (SizeInv m) (leb (add_size p.size g.current_size) m)
                (λ room.
                  join_current-SizeInv g p v fits'
                    (ground (arith, add_size-small p.size g.current_size fits' v.within)))
                (λ full. record {
                  closed = All-snoc (FitsSize m) g.result g.current v.closed (
                    ground (arith, v.measured, add_size-small p.size g.current_size fits' v.within),
                    inr (omega (arith, v.counted, v.within)),
                  );
                  counted = omega arith;
                  within = fits';
                  measured = inl (omega arith);
                })))

  add_files-SizeInv : (g : Grouping) (ps : Paths) → SizeInv m g → SizeInv m (add_files m k g ps)
  unfolding add_files
  add_files-SizeInv g [] v = v
  add_files-SizeInv g (p ∷ ps) v = add_files-SizeInv (add_file m k g p) ps (add_file-SizeInv g p v)

  finish-sizes :
      (r : PathGroups) (c : Paths)
      → All (FitsSize m) r
      → total c ≤ m
      → All (FitsSize m) (if ltb 0 (length c) then r ++ c ∷ [] else r)
  finish-sizes r [] h l = h
  finish-sizes r (p ∷ c) h l =
      if_cases (All (FitsSize m)) (ltb 0 (length (p ∷ c)))
        (λ _. All-snoc (FitsSize m) r (p ∷ c) h (omega arith, inr l)) (λ _. h)

  -- Where twice the size limit is below 2 ^ 64, no group is empty, and each group is a single file
  -- or has at most `max_size` bytes, for any limit on the number of files.
  pub group_by_size-FitsSize : (interim : Paths) → All (FitsSize m) (group_by_size interim m k)
  unfolding group_by_size finish
  group_by_size-FitsSize interim =
      let v =
        add_files-SizeInv no_groups interim
          (record { closed = tt; counted = refl; within = omega arith; measured = inr refl }) in
      finish-sizes (add_files m k no_groups interim).result
        (add_files m k no_groups interim).current v.closed (omega (arith, v.counted, v.within))
