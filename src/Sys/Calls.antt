-- ===== src/Sys/Calls.antt =====
-- The calls that src/exported-functions.c makes, their answers, and an operating system as a
-- function from all that was called before to the next answer.
use ioprocess.Base.{ℕ, ℤ, Bytes, List, Option}

-- Numbers stand for file descriptors and for DIR and FILE pointers.
pub data Call : Type 0 where
  rename link symlink : Bytes → Bytes → Call
  unlink rmdir stat lstat statvfs opendir glob : Bytes → Call
  mkdir chmod access : Bytes → ℕ → Call
  open_file : Bytes → ℕ → Option ℕ → Call
  close fsync futimens fstat fstatvfs closedir fdopendir : ℕ → Call
  ftruncate : ℕ → ℤ → Call
  write : ℕ → Bytes → Call
  pwrite : ℕ → Bytes → ℕ → Call
  read : ℕ → ℕ → Call
  sleep : ℕ → Call
  posix_memalign : ℕ → ℕ → Call
  malloc : ℕ → Call
  random_uuid : Call
  format_path : Bytes → Call
  open_statm scan_statm close_statm : Call

-- `done n` is a result of 0 or more, or a pointer that is not NULL; `failed e` is -1 or NULL, with
-- the error number that goes with it.
pub data Answer : Type 0 where
  done : ℕ → Answer
  failed : ℕ → Answer

pub record Event : Type 0 where
  pub call : Call
  pub answer : Answer

-- The calls so far, the last one first.
abbrev pub Trace : Type 0
Trace = List Event

-- `struct stat`; the unsigned fields are numbers.
pub record Stat : Type 0 where
  pub ino : ℕ
  pub dev : ℕ
  pub mode : ℕ
  pub nlink : ℕ
  pub uid : ℕ
  pub gid : ℕ
  pub size : ℤ
  pub atime : ℤ
  pub mtime : ℤ
  pub ctime : ℤ
  pub blocks : ℤ

-- `struct statvfs`
pub record StatVfs : Type 0 where
  pub bsize : ℕ
  pub frsize : ℕ
  pub blocks : ℕ
  pub bfree : ℕ
  pub bavail : ℕ
  pub files : ℕ
  pub ffree : ℕ
  pub favail : ℕ
  pub fsid : ℕ
  pub flag : ℕ
  pub namemax : ℕ

-- What `g_base64_encode_step` keeps between its calls: `state` and `save`.
pub record B64State : Type 0 where
  pub state : ℕ
  pub save : ℕ

-- The code that is called and not part of the repository.
pub record Os : Type 0 where
  pub answer : Trace → Call → Answer
  -- what a successful call leaves in its buffers
  pub data_of : Trace → Call → Bytes
  pub stat_of : Trace → Call → Stat
  pub statvfs_of : Trace → Call → StatVfs
  -- the three numbers that `fscanf` reads from /proc/self/statm
  pub statm_of : Trace → ℕ × ℕ × ℕ
  -- the names that `readdir` returns, one after the other, before NULL
  pub entries_of : Trace → ℕ → List Bytes
  pub paths_of : Trace → Bytes → List Bytes
  pub strerror : ℕ → Bytes
  pub base64_decode : Bytes → Bytes
  pub encode_step : Bytes → B64State → Bytes × B64State
  pub encode_close : B64State → Bytes
  -- the conversions to `double`, as bit patterns
  pub double_of_long : ℤ → ℕ
  pub double_of_u64 : ℕ → ℕ
