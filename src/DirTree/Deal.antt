-- ===== src/DirTree/Deal.antt =====
-- `DirectoryWalker::partition` of utils/paths/dirwalker.cc. `std::sort` gives the paths in an order
-- that their sizes leave open; the sorted paths are the argument.
use bigdataexpress_c.Base.{
  ℕ, zero, suc, ◌+◌, ◌/◌, ◌≤◌, ◌<◌, ◌≡◌, refl, ap, ◌⊎◌, inl, inr, Option, none, some, List, [], ◌∷◌,
  ◌++◌, All, length, ltb, leb, ◌==◌, if◌then◌else◌, if_cases, arith,
}
use bigdataexpress_c.Base.Keyed.{map_option}
use bigdataexpress_c.FilePath.{FilePath, is_regular_file}
use bigdataexpress_c.PathGroups.{Paths, add_size, size_mod}
use bigdataexpress_c.DirTree.{PathGroup, empty_group, insert_path}

-- `std::vector` of so many new groups.
unfoldable pub new_groups : ℕ → List PathGroup
new_groups zero = []
new_groups (suc n) = empty_group ∷ new_groups n

-- A path goes into the first group that is smaller than the limit, and nowhere if none is.
unfoldable pub place : ℕ → FilePath → List PathGroup → List PathGroup
unfolding insert_path
place limit p [] = []
place limit p (g ∷ gs) =
    let rest = place limit p gs in
    if ltb g.size limit then insert_path p p.size g ∷ gs else g ∷ rest

-- `add` does not throw, since the path is a regular file.
unfoldable pub place_all : ℕ → Paths → List PathGroup → List PathGroup
unfolding place is_regular_file
place_all limit [] gs = gs
place_all limit (p ∷ ps) gs =
    place_all limit ps (if is_regular_file p then place limit p gs else gs)

-- With a number of groups and their size.
unfoldable pub partition_by : ℕ → ℕ → Paths → List PathGroup
unfolding new_groups place_all
partition_by max_groups group_size sorted = place_all group_size sorted (new_groups max_groups)

-- The loop that readjusts the size of a group by the first `n` paths; `at` throws past the end.
unfoldable pub readjust : ℕ → ℕ → ℕ → Paths → Option ℕ
unfolding add_size
readjust group_size init zero ps = some group_size
readjust group_size init (suc n) [] = none
readjust group_size init (suc n) (p ∷ ps) =
    let sum = add_size init p.size in
    if leb group_size sum then some sum else readjust group_size sum n ps

-- With a number of groups only; `size` is that of the walker. `none` is an exception.
unfoldable pub partition_evenly : ℕ → ℕ → Paths → Option (List PathGroup)
unfolding readjust partition_by
partition_evenly max_groups size sorted =
    if max_groups == 0
    then none
    else map_option (λ group_size. partition_by max_groups group_size sorted)
        (readjust (size / max_groups) 0 (length sorted / max_groups) sorted)

abbrev pub Full : ℕ → PathGroup → Type 0
Full limit g = limit ≤ g.size

-- No group takes the path, or the first that is smaller than the limit does.
abbrev pub Placed : ℕ → FilePath → List PathGroup → List PathGroup → Type 0
Placed limit p gs gs' =
    (All (Full limit) gs × (gs' ≡ gs))
    ⊎ ((before : List PathGroup) × (g : PathGroup) × (behind : List PathGroup) × (gs
          ≡ before ++ g ∷ behind)
        × All (Full limit) before
        × (g.size < limit)
        × (gs' ≡ before ++ insert_path p p.size g ∷ behind))

cons-Placed :
    (limit : ℕ) (p : FilePath) (g : PathGroup) (gs gs' : List PathGroup)
    → Full limit g
    → Placed limit p gs gs'
    → Placed limit p (g ∷ gs) (g ∷ gs')
cons-Placed limit p g gs gs' h (inl (full, e)) = inl ((h, full), ap (λ hs. g ∷ hs) e)
cons-Placed limit p g gs gs' h (inr (before, k, behind, e, full, room, e')) =
    inr (g ∷ before, k, behind, ap (λ hs. g ∷ hs) e, (h, full), room, ap (λ hs. g ∷ hs) e')

-- A path is left out only where every group has reached the limit; else the first that has not
-- takes it, and no other group changes.
pub place-Placed :
    (limit : ℕ) (p : FilePath) (gs : List PathGroup) → Placed limit p gs (place limit p gs)
unfolding place
place-Placed limit p [] = inl (tt, refl)
place-Placed limit p (g ∷ gs) =
    if_cases (Placed limit p (g ∷ gs)) (ltb g.size limit)
      (λ e. inr ([], g, gs, refl, tt, ground (arith, e), refl))
      (λ e.
        cons-Placed limit p g gs (place limit p gs) (ground (arith, e)) (place-Placed limit p gs))

-- Every group is within the limit and one path.
abbrev pub Within : ℕ → ℕ → PathGroup → Type 0
Within limit most g = g.size ≤ limit + most

place-Within :
    (limit most : ℕ) (p : FilePath) (gs : List PathGroup)
    → p.size ≤ most
    → limit + most < size_mod
    → All (Within limit most) gs
    → All (Within limit most) (place limit p gs)
unfolding place insert_path add_size
place-Within limit most p [] h k v = tt
place-Within limit most p (g ∷ gs) h k v =
    if_cases (All (Within limit most)) (ltb g.size limit) (λ e. (ground (arith, e, h, k), v.1))
      (λ _. (v.0, place-Within limit most p gs h k v.1))

new_groups-Within : (limit most n : ℕ) → All (Within limit most) (new_groups n)
unfolding new_groups
new_groups-Within limit most zero = tt
new_groups-Within limit most (suc n) = (omega arith, new_groups-Within limit most n)

place_all-Within :
    (limit most : ℕ) (ps : Paths) (gs : List PathGroup)
    → All (λ p. p.size ≤ most) ps
    → limit + most < size_mod
    → All (Within limit most) gs
    → All (Within limit most) (place_all limit ps gs)
unfolding place_all
place_all-Within limit most [] gs h k v = v
place_all-Within limit most (p ∷ ps) gs h k v = place_all-Within limit most ps _ h.1 k (
    if_cases (All (Within limit most)) (is_regular_file p)
      (λ _. place-Within limit most p gs h.0 k v) (λ _. v))

-- No group of a partition is larger than the limit and the largest path together, where these two
-- are below 2 ^ 64.
pub partition_by-Within :
    (max_groups limit most : ℕ) (ps : Paths)
    → All (λ p. p.size ≤ most) ps
    → limit + most < size_mod
    → All (Within limit most) (partition_by max_groups limit ps)
unfolding partition_by
partition_by-Within n limit most ps h k =
    place_all-Within limit most ps (new_groups n) h k (new_groups-Within limit most n)
