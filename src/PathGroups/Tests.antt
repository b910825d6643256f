-- ===== src/PathGroups/Tests.antt =====
-- Runs of the laws of utils/paths/pathgroups.cc on two files, a directory and a link.
use bigdataexpress_c.Base.{◌+◌, ◌<◌, ◌≤◌, [], ◌∷◌, ◌≡◌, Perm, All, length, some, arith}
use bigdataexpress_c.FilePath.{FilePath, init, found, enoent}
use bigdataexpress_c.PathGroups.{Paths, PathGroups, ok, size_mod, group_by_size, group_into}
use mathlib.Core.List.{flatten}
use bigdataexpress_c.PathGroups.Pack.{grouped, group_by_size-perm}
use bigdataexpress_c.PathGroups.Sizes.{FitsSize, group_by_size-FitsSize}
use bigdataexpress_c.PathGroups.Counts.{FitsCount, group_by_size-FitsCount}
use bigdataexpress_c.PathGroups.Spread.{Survive, group_into_total}

abbrev files : Paths
files =
    init "/a" (found 70 0 0 33188)
    ∷ init "/b" (found 50 0 0 33188)
    ∷ init "/d" (found 4096 0 0 16877)
    ∷ init "/l" (found 3 0 0 41471)
    ∷ []

group_by_size-perm_example : Perm (flatten (group_by_size files 100 2)) (grouped files)
group_by_size-perm_example = group_by_size-perm files 100 2

small_limit : 100 + 100 < size_mod
small_limit = omega arith

group_by_size-FitsSize_example : All (FitsSize 100) (group_by_size files 100 2)
group_by_size-FitsSize_example = group_by_size-FitsSize 100 2 small_limit files

group_by_size-FitsCount_example : All (FitsCount 2) (group_by_size files 100 2)
group_by_size-FitsCount_example = group_by_size-FitsCount 100 2 (omega arith) files

-- A copy of a destroyed item finds nothing.
abbrev gone : FilePath → FilePath
gone f = init "" enoent

group_into_total_example :
    (gs : PathGroups) × (group_into gone files 2 ≡ ok (some gs))
    × (length gs ≤ 2)
    × Survive gone (flatten gs) (grouped files)
group_into_total_example = group_into_total gone files 2 (omega arith)
