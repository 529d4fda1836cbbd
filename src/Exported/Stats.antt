-- ===== src/Exported/Stats.antt =====
-- `exp_stat`, `exp_lstat`, `stat_map` and `exp_statvfs`.
use ioprocess.Base.{ℕ, Option, none, some, List, [], ◌∷◌, codes, long_of_u64}
use ioprocess.Dom.{Json, long, double, jt_string}
use ioprocess.Sys.{
  Os, Stat, StatVfs, stat, lstat, statvfs, Act, pure, ◌>>=◌, Reply, sys, trace_of, stdapi_error,
}
use ioprocess.Args.{Wanted, null_pointer, get_args, c_text_at}
use ioprocess.Exported.Common.{reply, throw_errno, map_of}

abbrev path_arg : List Wanted
path_arg = record { name = codes "path"; type = jt_string; out = null_pointer } ∷ []

module _ (os : Os) where
  unfoldable pub stat_map : Stat → Json
  unfolding map_of long_of_u64
  stat_map st = map_of (
      (codes "st_ino", long (long_of_u64 st.ino))
      ∷ (codes "st_dev", long (long_of_u64 st.dev))
      ∷ (codes "st_mode", long (long_of_u64 st.mode))
      ∷ (codes "st_nlink", long (long_of_u64 st.nlink))
      ∷ (codes "st_uid", long (long_of_u64 st.uid))
      ∷ (codes "st_gid", long (long_of_u64 st.gid))
      ∷ (codes "st_size", long st.size)
      ∷ (codes "st_atime", double (os.double_of_long st.atime))
      ∷ (codes "st_mtime", double (os.double_of_long st.mtime))
      ∷ (codes "st_ctime", double (os.double_of_long st.ctime))
      ∷ (codes "st_blocks", long st.blocks)
      ∷ [])

  -- The end of `exp_stat` and `exp_lstat`, on the result of the call.
  abbrev stat_reply : Option ℕ → Stat → Act Reply
  stat_reply none st = throw_errno os stdapi_error
  stat_reply (some rv) st = pure (reply (stat_map st))

  unfoldable pub exp_stat : Option Json → Act Reply
  unfolding c_text_at throw_errno
  exp_stat args = do
    cells ← get_args args path_arg
    path ← c_text_at cells 0
    t ← trace_of
    rv ← sys os (stat path)
    stat_reply rv (os.stat_of t (stat path))

  unfoldable pub exp_lstat : Option Json → Act Reply
  unfolding c_text_at throw_errno
  exp_lstat args = do
    cells ← get_args args path_arg
    path ← c_text_at cells 0
    t ← trace_of
    rv ← sys os (lstat path)
    stat_reply rv (os.stat_of t (lstat path))

  unfoldable pub statvfs_map : StatVfs → Json
  unfolding map_of long_of_u64
  statvfs_map st = map_of (
      (codes "f_bsize", long (long_of_u64 st.bsize))
      ∷ (codes "f_frsize", long (long_of_u64 st.frsize))
      ∷ (codes "f_blocks", long (long_of_u64 st.blocks))
      ∷ (codes "f_bfree", long (long_of_u64 st.bfree))
      ∷ (codes "f_bavail", long (long_of_u64 st.bavail))
      ∷ (codes "f_files", long (long_of_u64 st.files))
      ∷ (codes "f_ffree", long (long_of_u64 st.ffree))
      ∷ (codes "f_favail", long (long_of_u64 st.favail))
      ∷ (codes "f_fsid", long (long_of_u64 st.fsid))
      ∷ (codes "f_flag", long (long_of_u64 st.flag))
      ∷ (codes "f_namemax", double (os.double_of_u64 st.namemax))
      ∷ [])

  abbrev statvfs_reply : Option ℕ → StatVfs → Act Reply
  statvfs_reply none st = throw_errno os stdapi_error
  statvfs_reply (some rv) st = pure (reply (statvfs_map st))

  unfoldable pub exp_statvfs : Option Json → Act Reply
  unfolding c_text_at throw_errno
  exp_statvfs args = do
    cells ← get_args args path_arg
    path ← c_text_at cells 0
    t ← trace_of
    rv ← sys os (statvfs path)
    statvfs_reply rv (os.statvfs_of t (statvfs path))
