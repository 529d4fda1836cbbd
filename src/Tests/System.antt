-- ===== src/Tests/System.antt =====
-- A small system: files open as 7, streams as 5 and 6, a write takes two bytes at most.
use ioprocess.Base.{pos, Bytes, [], ◌∷◌, codes}
use ioprocess.Dom.{Fields, end, field, long, string, object, boolean}
use ioprocess.Sys.{
  Os, Sys, Call, Answer, done, failed, Trace, Stat, StatVfs, open_file, opendir, fdopendir, write,
  close,
}

abbrev pub answer : Trace → Call → Answer
answer t (open_file path flags mode) = done 7
answer t (opendir path) = done 5
answer t (fdopendir fd) = done 6
answer t (write fd (a ∷ b ∷ bs)) = done 2
answer t (write fd (a ∷ [])) = done 1
answer t (close fd) = failed 9
answer t c = done 0

abbrev pub no_stat : Stat
no_stat = record {
  ino = 1;
  dev = 2;
  mode = 0o644;
  nlink = 1;
  uid = 0;
  gid = 0;
  size = pos 0;
  atime = pos 0;
  mtime = pos 0;
  ctime = pos 0;
  blocks = pos 0;
}

abbrev pub no_statvfs : StatVfs
no_statvfs = record {
  bsize = 512;
  frsize = 512;
  blocks = 1;
  bfree = 1;
  bavail = 1;
  files = 1;
  ffree = 1;
  favail = 1;
  fsid = 0;
  flag = 0;
  namemax = 255;
}

abbrev pub small : Os
small = record {
  answer = answer;
  data_of = λ t c. [];
  stat_of = λ t c. no_stat;
  statvfs_of = λ t c. no_statvfs;
  statm_of = λ t. (1, 1, 1);
  entries_of = λ t dp. codes "." ∷ codes "3" ∷ codes "4" ∷ codes "7" ∷ [];
  paths_of = λ t p. [];
  strerror = λ e. codes "error";
  base64_decode = λ b. b;
  encode_step = λ b s. (b, s);
  encode_close = λ s. [];
  double_of_long = λ n. 0;
  double_of_u64 = λ n. n;
}

abbrev pub start : Sys
start = record { trace = []; errno = 0 }

-- { "path": "/a", "data": "abc", "direct": false }
abbrev pub file_args : Fields
file_args =
    field (codes "path") (string (codes "/a"))
      (field (codes "data") (string (codes "abc")) (field (codes "direct") (boolean (pos 0)) end))

-- A request with the id 4.
abbrev pub request : Bytes → Fields → Fields
request method args =
    field (codes "id") (long (pos 4))
      (field (codes "methodName") (string method) (field (codes "args") (object args) end))
