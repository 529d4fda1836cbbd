-- ===== src/Exported/Simple.antt =====
-- The exported functions that make one call, and those for testing.
use ioprocess.Base.{
  ℕ, pos, Bool, true, Option, none, some, [], ◌∷◌, codes, ltb, if◌then◌else◌, is_positive,
  long_of_u64, u32,
}
use ioprocess.Dom.{Json, boolean, long, new_string, jt_long}
use ioprocess.Sys.{
  Os, Act, exited, pure, ◌>>=◌, ◌>>◌, Reply, sys, trace_of, general_error, rename, link, symlink,
  unlink, rmdir, mkdir, chmod, access, lstat, sleep, open_statm, scan_statm, close_statm,
}
use ioprocess.Args.{long_int, get_args, c_text_at, text_at, long_at, einval}
use ioprocess.Exported.Common.{reply, text_arg, long_arg, std_api_wrapper, throw_errno, map_of}

module _ (os : Os) where
  unfoldable pub exp_rename : Option Json → Act Reply
  unfolding c_text_at std_api_wrapper
  exp_rename args = do
    cells ← get_args args (text_arg "oldpath" ∷ text_arg "newpath" ∷ [])
    oldpath ← c_text_at cells 0
    newpath ← c_text_at cells 1
    rv ← sys os (rename oldpath newpath)
    std_api_wrapper os rv

  unfoldable pub exp_link : Option Json → Act Reply
  unfolding c_text_at std_api_wrapper
  exp_link args = do
    cells ← get_args args (text_arg "oldpath" ∷ text_arg "newpath" ∷ [])
    oldpath ← c_text_at cells 0
    newpath ← c_text_at cells 1
    rv ← sys os (link oldpath newpath)
    std_api_wrapper os rv

  unfoldable pub exp_symlink : Option Json → Act Reply
  unfolding c_text_at std_api_wrapper
  exp_symlink args = do
    cells ← get_args args (text_arg "oldpath" ∷ text_arg "newpath" ∷ [])
    oldpath ← c_text_at cells 0
    newpath ← c_text_at cells 1
    rv ← sys os (symlink oldpath newpath)
    std_api_wrapper os rv

  -- `safeGetArgValue` is `safeGetArgValues` with one argument.
  unfoldable pub exp_unlink : Option Json → Act Reply
  unfolding c_text_at std_api_wrapper
  exp_unlink args = do
    cells ← get_args args (text_arg "path" ∷ [])
    path ← c_text_at cells 0
    rv ← sys os (unlink path)
    std_api_wrapper os rv

  unfoldable pub exp_rmdir : Option Json → Act Reply
  unfolding c_text_at std_api_wrapper
  exp_rmdir args = do
    cells ← get_args args (text_arg "path" ∷ [])
    path ← c_text_at cells 0
    rv ← sys os (rmdir path)
    std_api_wrapper os rv

  -- `mode` is narrowed to a `mode_t`.
  unfoldable pub exp_mkdir : Option Json → Act Reply
  unfolding c_text_at long_at u32 std_api_wrapper
  exp_mkdir args = do
    cells ← get_args args (text_arg "path" ∷ long_arg "mode" ∷ [])
    path ← c_text_at cells 0
    mode ← long_at cells 1
    rv ← sys os (mkdir path (u32 mode))
    std_api_wrapper os rv

  unfoldable pub exp_chmod : Option Json → Act Reply
  unfolding c_text_at long_at u32 std_api_wrapper
  exp_chmod args = do
    cells ← get_args args (text_arg "path" ∷ long_arg "mode" ∷ [])
    path ← c_text_at cells 0
    mode ← long_at cells 1
    rv ← sys os (chmod path (u32 mode))
    std_api_wrapper os rv

  unfoldable pub exp_access : Option Json → Act Reply
  unfolding c_text_at long_at u32 std_api_wrapper
  exp_access args = do
    cells ← get_args args (text_arg "path" ∷ long_arg "mode" ∷ [])
    path ← c_text_at cells 0
    mode ← long_at cells 1
    rv ← sys os (access path (u32 mode))
    std_api_wrapper os rv

  abbrev existence : Option ℕ → Reply
  existence none = reply (boolean (pos 0))
  existence (some rv) = reply (boolean (pos 1))

  unfoldable pub exp_lexists : Option Json → Act Reply
  unfolding c_text_at
  exp_lexists args = do
    cells ← get_args args (text_arg "path" ∷ [])
    path ← c_text_at cells 0
    rv ← sys os (lstat path)
    pure (existence rv)

  unfoldable pub exp_ping : Option Json → Act Reply
  unfolding new_string
  exp_ping args = pure (reply (new_string (codes "pong")))

  -- `exit(1)`
  unfoldable pub exp_crash : Option Json → Act Reply
  exp_crash args s = (exited, s)

  -- `sleep` takes an `unsigned int`.
  unfoldable pub exp_echo : Option Json → Act Reply
  unfolding c_text_at long_at text_at u32 new_string
  exp_echo args = do
    cells ← get_args args (
        text_arg "text"
        ∷ record { name = codes "sleep"; type = jt_long; out = long_int (pos 0) }
        ∷ [])
    sleep_sec ← long_at cells 1
    if is_positive sleep_sec then sys os (sleep (u32 sleep_sec)) else pure none
    text ← text_at cells 0
    pure (reply (new_string text))

  abbrev memstat_map : ℕ × ℕ × ℕ → Json
  memstat_map (size, rss, shr) = map_of (
      (codes "size", long (long_of_u64 size))
      ∷ (codes "rss", long (long_of_u64 rss))
      ∷ (codes "shr", long (long_of_u64 shr))
      ∷ [])

  -- `fscanf(...) < 3`, for a result of -1 (`none`) or more.
  abbrev below_three : Option ℕ → Bool
  below_three none = true
  below_three (some n) = ltb n 3

  abbrev memstat_reply : Option ℕ → ℕ × ℕ × ℕ → Reply
  memstat_reply found numbers =
      if below_three found
      then record {
        result = none;
        error =
            some (record {
              domain = general_error;
              code = einval;
              message = codes "bad statm format";
            });
      }
      else reply (memstat_map numbers)

  unfoldable pub exp_memstat : Option Json → Act Reply
  unfolding throw_errno map_of long_of_u64
  exp_memstat args = do
    fd ← sys os open_statm
    elim fd [
      | none ↦ throw_errno os general_error
      | some _ ↦ do
        t ← trace_of
        found ← sys os scan_statm
        sys os close_statm
        pure (memstat_reply found (os.statm_of t))
    ]
