-- ===== src/DirTree/Tests.antt =====
-- Runs of the laws of the directory walker: a directory with a file, and one that does not open.
use bigdataexpress_c.Base.{◌≤◌, ◌≡◌, refl, ◌⊎◌, ◌&&◌, true, false, none, [], ◌∷◌, All, arith}
use bigdataexpress_c.FilePath.{FilePath, init, found, is_directory}
use bigdataexpress_c.DirTree.{PathGroup, Forest, none_left, entry}
use bigdataexpress_c.DirTree.Walker.{throws, walker, listing, blocked, Lists, walker-listing}
use bigdataexpress_c.DirTree.Deal.{place, Placed, place-Placed}
use bigdataexpress_c.DirTree.Partition.{
  search, Finds, partition_from, partition_from_forever, search_nonempty-Finds,
}

abbrev root : FilePath
root = init "/d" (found 4096 0 0 16877)

abbrev file : FilePath
file = init "/d/a" (found 70 0 0 33188)

abbrev empty_file : FilePath
empty_file = init "/d/e" (found 0 0 0 33188)

abbrev below : Forest
below = entry file true none_left (
    entry (init "/d/s" (found 4096 0 0 16877)) false (entry empty_file true none_left none_left)
      none_left)

root-directory : is_directory root ≡ true
unfolding is_directory init
root-directory = refl

walker-listing_example :
    ((true && blocked true below ≡ true) × (walker true true root true below ≡ throws))
    ⊎ ((true && blocked true below ≡ false)
        × Lists (listing true below) (walker true true root true below))
walker-listing_example = walker-listing true true root below root-directory

abbrev full_group : PathGroup
full_group = record { size = 70; path_list = ("/d/a", file) ∷ [] }

place-Placed_example : Placed 50 file (full_group ∷ []) (place 50 file (full_group ∷ []))
place-Placed_example = place-Placed 50 file (full_group ∷ [])

small_files : All (λ (p : FilePath). p.size ≤ 70) (file ∷ file ∷ [])
unfolding init
small_files = (omega arith, (omega arith, tt))

no_bytes : empty_file.size ≡ 0
unfolding init
no_bytes = refl

partition_from_forever_example :
    partition_from 1000 50 (full_group ∷ full_group ∷ []) (empty_file ∷ []) ≡ none
partition_from_forever_example =
    partition_from_forever 1000 50 full_group full_group [] empty_file [] (omega arith)
      (omega arith, (omega arith, tt)) no_bytes

search_nonempty-Finds_example :
    Finds 50 (search 144 70 50 (full_group ∷ full_group ∷ []) (full_group ∷ full_group ∷ []))
search_nonempty-Finds_example =
    search_nonempty-Finds 70 70 144 50 (full_group ∷ full_group ∷ []) (omega arith) (omega arith)
      (omega arith) (omega arith, (omega arith, tt)) (omega arith)
