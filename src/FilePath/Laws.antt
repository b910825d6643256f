-- ===== src/FilePath/Laws.antt =====
-- The two ways of utils/paths/path.cc to tell what a path is, its type and its mode, agree.
use bigdataexpress_c.Base.{String, ◌≡◌, ◌↔◌, ◌⊎◌, true, false, arith}
use bigdataexpress_c.FilePath.{
  FilePath, PathType, Stat, enoent, failed, found, init, exists, is_directory, is_regular_file,
}

-- What holds of every `Path` that its constructor makes: the mode and the type agree on regular
-- files and directories, a path that does not exist is neither, and a directory counts no bytes.
pub record IsPath (p : FilePath) : Type 0 where
  pub directory_type : (is_directory p ≡ true) ↔ (p.type ≡ PathType.directory)
  pub regular_type : (is_regular_file p ≡ true) ↔ (p.type ≡ PathType.regular_file)
  pub directory_size : (is_directory p ≡ false) ⊎ (p.size ≡ 0)
  pub missing_size : (exists p ≡ true) ⊎ (p.size ≡ 0)

-- For every outcome of `lstat`, the predicates of the path agree with the type that the constructor
-- wrote, and a directory and a path that does not exist count no bytes.
pub init-IsPath : (name : String) (st : Stat) → IsPath (init name st)
unfolding init exists is_directory is_regular_file
init-IsPath name enoent = ground arith
init-IsPath name failed = ground arith
init-IsPath name (found size uid gid mode) = ground arith
