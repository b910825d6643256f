-- ===== src/Checksum/Tests.antt =====
-- A directory with two files, in one group and in two.
use bigdataexpress_c.Base.{String, ◌≡◌, refl, true, Option, some, List, [], ◌∷◌}
use bigdataexpress_c.Base.Keyed.{insert, emplace, lookup, str_lt}
use bigdataexpress_c.FilePath.{FilePath, init, found, is_regular_file, type_of_mode}
use bigdataexpress_c.PathGroups.{add_size}
use bigdataexpress_c.DirTree.{PathGroup, insert_path}
use bigdataexpress_c.DirTree.Deal.{
  partition_evenly, partition_by, place_all, place, readjust, new_groups,
}
use bigdataexpress_c.Checksum.{parallel_directory_checksum, values, count_regular_files}
use bigdataexpress_c.Base.Shuffles.{swaps}
use bigdataexpress_c.Checksum.Same.{Agrees, parallel-sequential}

abbrev large : FilePath
large = init "/d/b" (found 12 0 0 33188)

abbrev small : FilePath
small = init "/d/a" (found 8 0 0 33188)

abbrev sum_of : FilePath → Option String
sum_of p = some p.name

abbrev join : List String → Option String
join [] = some ""
join (c ∷ cs) = some c

abbrev groups : List PathGroup
groups = record { size = 20; path_list = ("/d/a", small) ∷ ("/d/b", large) ∷ [] } ∷ []

dealt : partition_evenly 1 20 (large ∷ small ∷ []) ≡ some groups
unfolding partition_evenly partition_by place_all place readjust new_groups add_size insert_path
    emplace insert lookup str_lt is_regular_file init type_of_mode
dealt = refl

parallel-sequential_example :
    Agrees sum_of join
      (large ∷ small ∷ [])
      (small ∷ large ∷ [])
      2
      (parallel_directory_checksum sum_of join (λ n. true) 1 20 (large ∷ small ∷ []))
unfolding count_regular_files values
parallel-sequential_example =
    parallel-sequential sum_of join (λ n. true) 1 20 (large ∷ small ∷ []) (small ∷ large ∷ [])
      groups (swaps refl refl) dealt
