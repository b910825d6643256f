-- ===== src/Checksum.antt =====
-- utils/checksum.cc: the checksum of a directory, from the checksums of its files, one after the other
-- or by groups in several threads. The checksum of a file and the digest of the sorted checksums, both
-- of OpenSSL, are parameters; `none` is an exception.
pub mod Order
pub mod Groups
pub mod Counts
pub mod Sums
pub mod Same
pub mod Tests
use bigdataexpress_c.Base.{
  ℕ, zero, suc, ◌+◌, String, Bool, Option, none, some, List, [], ◌∷◌, ◌++◌, length, ◌==◌,
  if◌then◌else◌,
}
use bigdataexpress_c.Base.Keyed.{Keyed, str_lt}
use bigdataexpress_c.FilePath.{FilePath, is_regular_file}
use bigdataexpress_c.PathGroups.{Paths}
use bigdataexpress_c.DirTree.{PathGroup}
use bigdataexpress_c.DirTree.Deal.{partition_evenly}

-- `std::sort` of strings.
unfoldable pub insert_sorted : String → List String → List String
unfolding str_lt
insert_sorted x [] = x ∷ []
insert_sorted x (y ∷ ys) = if str_lt y x then y ∷ insert_sorted x ys else x ∷ y ∷ ys

unfoldable pub sort : List String → List String
unfolding insert_sorted
sort [] = []
sort (x ∷ xs) = insert_sorted x (sort xs)

-- The paths of a set, in its order.
unfoldable pub values : Keyed FilePath → Paths
values [] = []
values ((k, p) ∷ m) = p ∷ values m

unfoldable pub count_regular_files : Paths → ℕ
unfolding is_regular_file
count_regular_files [] = 0
count_regular_files (p ∷ ps) =
    let rest = count_regular_files ps in if is_regular_file p then suc rest else rest

abbrev pub and_then {ℓ κ} : {A : Type ℓ} {B : Type κ} → Option A → (A → Option B) → Option B
and_then none f = none
and_then (some a) f = f a

-- Whether the group with this index finds the counter of tasks, which other threads change too, below
-- the limit, and so runs in a thread of its own. A group with no file is passed over.
unfoldable pub deal_tasks : (ℕ → Bool) → ℕ → List PathGroup → List PathGroup × List PathGroup
deal_tasks below n [] = ([], [])
deal_tasks below n (g ∷ gs) =
    let (futures, remainders) = deal_tasks below (suc n) gs in
    if length g.path_list == 0
    then (futures, remainders)
    else if below n
    then (g ∷ futures, remainders)
    else (futures, g ∷ remainders)

module _ (checksum_file : FilePath → Option String) where
  -- The loops of `checksum_group` and of `sequential_directory_checksum`.
  unfoldable pub checksums_of : Paths → Option (List String)
  unfolding is_regular_file
  checksums_of [] = some []
  checksums_of (p ∷ ps) =
      let rest = checksums_of ps in
      if is_regular_file p
      then and_then (checksum_file p) (λ c. and_then rest (λ cs. some (c ∷ cs)))
      else rest

  unfoldable pub checksums_of_groups : List PathGroup → Option (List String)
  unfolding checksums_of values
  checksums_of_groups [] = some []
  checksums_of_groups (g ∷ gs) =
      and_then (checksums_of (values g.path_list))
        (λ cs. and_then (checksums_of_groups gs) (λ rest. some (cs ++ rest)))

module _ (digest : List String → Option String) where
  unfoldable pub checksum_of_checksums : List String → Option String
  unfolding sort
  checksum_of_checksums cs = digest (sort cs)

module _ (checksum_file : FilePath → Option String) (digest : List String → Option String) where
  unfoldable pub sequential_directory_checksum : Paths → Option String
  unfolding checksums_of checksum_of_checksums
  sequential_directory_checksum paths =
      and_then (checksums_of checksum_file paths) (checksum_of_checksums digest)

  abbrev pub check_count : Paths → List String → Option String
  check_count paths cs =
      if length cs == count_regular_files paths then checksum_of_checksums digest cs else none

  abbrev pub run_tasks : Paths → List PathGroup × List PathGroup → Option String
  run_tasks paths tasks = and_then (checksums_of_groups checksum_file (tasks.1)) (λ remaining.
      and_then (checksums_of_groups checksum_file (tasks.0))
        (λ done. check_count paths (remaining ++ done)))

  -- `size` is that of the walker, and `sorted` are its paths as `partition` sorts them.
  unfoldable pub parallel_directory_checksum : (ℕ → Bool) → ℕ → ℕ → Paths → Option String
  unfolding checksums_of_groups checksum_of_checksums deal_tasks partition_evenly
      count_regular_files
  parallel_directory_checksum below max_threads size sorted =
      and_then (partition_evenly max_threads size sorted)
        (λ groups. run_tasks sorted (deal_tasks below 0 groups))
