-- ===== src/FilePath.antt =====
-- utils/paths/path.{h,cc}: what a `Path` keeps of the `lstat` that its constructor makes.
-- The system call is a parameter: its outcome is the argument of `init`.
pub mod Laws
pub mod Tests
use bigdataexpress_c.Base.{ℕ, ◌/◌, ◌%◌, String, Bool, true, false, ◌&&◌, ◌||◌, ◌==◌, if◌then◌else◌}

pub data PathType : Type 0 where
  path_error does_not_exist regular_file directory symbolic_link hard_link : PathType
  fifo character_file block_file socket unknown : PathType

pub record FilePath : Type 0 where
  pub name : String
  pub type : PathType
  pub size : ℕ
  pub uid : ℕ
  pub gid : ℕ
  pub mode : ℕ

-- The outcome of `lstat`: `errno` is `ENOENT`, another error, or the fields that are read.
pub data Stat : Type 0 where
  enoent : Stat
  failed : Stat
  found : (st_size st_uid st_gid st_mode : ℕ) → Stat

-- `mode & S_IFMT`, in units of 010000: the four bits from bit 12 up. The POSIX values are 1 for a
-- FIFO, 2 for a character device, 4 for a directory, 6 for a block device, 8 for a regular file,
-- 10 for a symbolic link and 12 for a socket.
unfoldable pub file_bits : ℕ → ℕ
file_bits mode = mode / 4096 % 16

-- The `switch` over the file's type.
unfoldable pub type_of_mode : ℕ → PathType
unfolding file_bits
type_of_mode mode =
    let bits = file_bits mode in
    if bits == 8
    then PathType.regular_file
    else if bits == 4
    then PathType.directory
    else if bits == 6
    then PathType.block_file
    else if bits == 2
    then PathType.character_file
    else if bits == 1
    then PathType.fifo
    else if bits == 10
    then PathType.symbolic_link
    else if bits == 12
    then PathType.socket
    else PathType.unknown

-- `Path::init`. A directory counts no bytes.
unfoldable pub init : String → Stat → FilePath
unfolding type_of_mode
init name enoent = record {
  name = name;
  type = PathType.does_not_exist;
  size = 0;
  uid = 0;
  gid = 0;
  mode = 0;
}
init name failed = record {
  name = name;
  type = PathType.path_error;
  size = 0;
  uid = 0;
  gid = 0;
  mode = 0;
}
init name (found st_size st_uid st_gid st_mode) = record {
  name = name;
  type = type_of_mode st_mode;
  size = elim (type_of_mode st_mode) [ PathType.directory ↦ 0 | _ ↦ st_size ];
  uid = st_uid;
  gid = st_gid;
  mode = st_mode;
}

unfoldable pub exists : FilePath → Bool
exists p = elim p.type [ PathType.does_not_exist ↦ false | _ ↦ true ]

unfoldable pub is_directory : FilePath → Bool
unfolding file_bits
is_directory p = file_bits p.mode == 4

unfoldable pub is_regular_file : FilePath → Bool
unfolding file_bits
is_regular_file p = file_bits p.mode == 8

-- One permission bit of a mode: `S_IRUSR` is bit 8, `S_IRGRP` bit 5 and `S_IROTH` bit 2.
unfoldable pub has_bit : ℕ → ℕ → Bool
has_bit mode unit = mode / unit % 2 == 1

unfoldable pub readable_by : FilePath → ℕ → ℕ → Bool
unfolding has_bit
readable_by p uid gid =
    (uid == p.uid && has_bit p.mode 256) || (gid == p.gid && has_bit p.mode 32) || has_bit p.mode 4
