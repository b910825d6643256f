-- ===== src/DirTree.antt =====
-- utils/paths/dirwalker.{h,cc} and utils/paths/dirtree.{h,cc}: what stands below a directory, and
-- its files dealt out over groups. What `readdir` lists is a parameter; a `size_t` is a number below
-- 2 ^ 64.
pub mod Walker
pub mod Deal
pub mod Partition
pub mod Tests
use bigdataexpress_c.Base.{
  ℕ, String, Bool, Option, none, some, List, [], ◌∷◌, if◌then◌else◌, str_eq,
}
use bigdataexpress_c.Base.Keyed.{Keyed, emplace}
use bigdataexpress_c.FilePath.{FilePath, is_regular_file, is_directory}
use bigdataexpress_c.PathGroups.{add_size}

-- The entries of a directory but `.` and `..`, in the order of `readdir`: a path, whether `opendir`
-- opens it, and what it lists if it is a directory.
pub data Forest : Type 0 where
  none_left : Forest
  entry : FilePath → (opens : Bool) → (children : Forest) → (rest : Forest) → Forest

-- `path_list_` is a `std::set`, ordered by the names.
pub record PathGroup : Type 0 where
  pub size : ℕ
  pub path_list : Keyed FilePath

abbrev pub empty_group : PathGroup
empty_group = record { size = 0; path_list = [] }

-- The body of both `add`s behind their tests. The size counts also for a path that is there.
unfoldable pub insert_path : FilePath → ℕ → PathGroup → PathGroup
insert_path p size g = record {
  size = add_size g.size size;
  path_list = emplace p.name p g.path_list;
}

-- Either `add` throws on a path of the other kind.
unfoldable pub add_file : FilePath → PathGroup → Option PathGroup
unfolding insert_path is_regular_file
add_file p g = if is_regular_file p then some (insert_path p p.size g) else none

unfoldable pub add_directory : FilePath → ℕ → PathGroup → Option PathGroup
unfolding insert_path is_directory
add_directory p size g = if is_directory p then some (insert_path p size g) else none
