-- ===== src/Exported/Laws/Balance.antt =====
-- Every exported function that returns has closed what it opened.
use ioprocess.Base.{ℕ, Bool, true, Option, none, some, List, ◌≡◌, refl}
use ioprocess.Dom.{Json}
use ioprocess.Sys.{Os, Call, fsync, futimens, ftruncate, scan_statm, Domain}
use ioprocess.Args.{Cell}
use ioprocess.Exported.Common.{std_api_wrapper, throw_errno, errno_error, nonzero}
use ioprocess.Exported.Simple.{
  exp_ping, exp_echo, exp_memstat, exp_access, exp_rename, exp_unlink, exp_rmdir, exp_link,
  exp_symlink, exp_chmod, exp_lexists, exp_mkdir,
}
use ioprocess.Exported.Files.{
  exp_truncate, exp_fsync_path, exp_touch, call_and_close, truncate_opened,
}
use ioprocess.Exported.Stats.{exp_stat, exp_lstat, exp_statvfs}
use ioprocess.Exported.Laws.Handles.{
  Keeps, Closes, is_neutral, file, bind-Keeps, bind-Closes, then-Closes, pure-Keeps, throw-Keeps,
  errno_of-Keeps, trace_of-Keeps, get_args-Keeps, c_text_at-Keeps, long_at-Keeps, int_at-Keeps,
  sys-Keeps, close-Closes, open-Keeps, close_statm-Closes, open_statm-Keeps, getters, if-Keeps,
  option-Keeps,
}

module _ (os : Os) where
  std_api_wrapper-Keeps : {may : Bool} (rv : Option ℕ) → Keeps may (std_api_wrapper os rv)
  unfolding std_api_wrapper
  std_api_wrapper-Keeps none = bind-Keeps errno_of-Keeps (λ e. pure-Keeps _)
  std_api_wrapper-Keeps (some rv) = pure-Keeps _

  pub throw_errno-Keeps : {A : Type 0} (d : Domain) → Keeps {A = A} true (throw_errno os d)
  unfolding throw_errno
  throw_errno-Keeps d = bind-Keeps errno_of-Keeps (λ e. throw-Keeps _)

  pub errno_error-Keeps : {may : Bool} (d : Domain) → Keeps may (errno_error os d)
  unfolding errno_error
  errno_error-Keeps d = bind-Keeps errno_of-Keeps (λ e. pure-Keeps _)

ruleset calls = (
  sys-Keeps, refl, std_api_wrapper-Keeps, throw_errno-Keeps, if-Keeps, trace_of-Keeps, option-Keeps,
)

module _ (os : Os) where
  pub exp_rename-Keeps : (args : Option Json) → Keeps true (exp_rename os args)
  unfolding exp_rename
  exp_rename-Keeps args = search (getters, calls) depth 12

  pub exp_link-Keeps : (args : Option Json) → Keeps true (exp_link os args)
  unfolding exp_link
  exp_link-Keeps args = search (getters, calls) depth 12

  pub exp_symlink-Keeps : (args : Option Json) → Keeps true (exp_symlink os args)
  unfolding exp_symlink
  exp_symlink-Keeps args = search (getters, calls) depth 12

  pub exp_unlink-Keeps : (args : Option Json) → Keeps true (exp_unlink os args)
  unfolding exp_unlink
  exp_unlink-Keeps args = search (getters, calls) depth 12

  pub exp_rmdir-Keeps : (args : Option Json) → Keeps true (exp_rmdir os args)
  unfolding exp_rmdir
  exp_rmdir-Keeps args = search (getters, calls) depth 12

  pub exp_mkdir-Keeps : (args : Option Json) → Keeps true (exp_mkdir os args)
  unfolding exp_mkdir
  exp_mkdir-Keeps args = search (getters, calls) depth 12

  pub exp_chmod-Keeps : (args : Option Json) → Keeps true (exp_chmod os args)
  unfolding exp_chmod
  exp_chmod-Keeps args = search (getters, calls) depth 12

  pub exp_access-Keeps : (args : Option Json) → Keeps true (exp_access os args)
  unfolding exp_access
  exp_access-Keeps args = search (getters, calls) depth 12

  pub exp_lexists-Keeps : (args : Option Json) → Keeps true (exp_lexists os args)
  unfolding exp_lexists
  exp_lexists-Keeps args = search (getters, calls) depth 12

  pub exp_echo-Keeps : (args : Option Json) → Keeps true (exp_echo os args)
  unfolding exp_echo
  exp_echo-Keeps args = search (getters, calls) depth 12

  pub exp_memstat-Keeps : (args : Option Json) → Keeps true (exp_memstat os args)
  unfolding exp_memstat
  exp_memstat-Keeps args = open_statm-Keeps os _ (throw_errno-Keeps os _) λ n.
      bind-Closes trace_of-Keeps λ t.
        bind-Closes (sys-Keeps os scan_statm refl)
          λ found. close_statm-Closes os _ λ rv. pure-Keeps _

  pub exp_ping-Keeps : (args : Option Json) → Keeps true (exp_ping os args)
  unfolding exp_ping
  exp_ping-Keeps args = search (getters, calls) depth 12

  pub exp_stat-Keeps : (args : Option Json) → Keeps true (exp_stat os args)
  unfolding exp_stat
  exp_stat-Keeps args = search (getters, calls) depth 12

  pub exp_lstat-Keeps : (args : Option Json) → Keeps true (exp_lstat os args)
  unfolding exp_lstat
  exp_lstat-Keeps args = search (getters, calls) depth 12

  pub exp_statvfs-Keeps : (args : Option Json) → Keeps true (exp_statvfs os args)
  unfolding exp_statvfs
  exp_statvfs-Keeps args = search (getters, calls) depth 12

  call_and_close-Closes :
      {may : Bool} (c : ℕ → Call) (fd : ℕ)
      → is_neutral (c fd) ≡ true
      → Closes (file fd) may (call_and_close os c (some fd))
  unfolding call_and_close
  call_and_close-Closes c fd n =
      bind-Closes (sys-Keeps os (c fd) n) λ rv. close-Closes os fd _ λ r. pure-Keeps rv

  call_and_close-Keeps : {may : Bool} (c : ℕ → Call) → Keeps may (call_and_close os c none)
  unfolding call_and_close
  call_and_close-Keeps c = pure-Keeps none

  pub exp_touch-Keeps : (args : Option Json) → Keeps true (exp_touch os args)
  unfolding exp_touch
  exp_touch-Keeps args = bind-Keeps (get_args-Keeps args _) λ cells.
      bind-Keeps (long_at-Keeps cells 2) λ mode. bind-Keeps (long_at-Keeps cells 1) λ flags.
        bind-Keeps (c_text_at-Keeps cells 0) λ path.
          open-Keeps os _ (bind-Keeps (call_and_close-Keeps futimens) (std_api_wrapper-Keeps os))
            path _ _
            λ fd. then-Closes (call_and_close-Closes futimens fd refl) (std_api_wrapper-Keeps os)

  pub exp_fsync_path-Keeps : (args : Option Json) → Keeps true (exp_fsync_path os args)
  unfolding exp_fsync_path
  exp_fsync_path-Keeps args = bind-Keeps (get_args-Keeps args _) λ cells.
      bind-Keeps (c_text_at-Keeps cells 0) λ path.
        open-Keeps os _ (throw_errno-Keeps os _) path 0 none λ fd.
          bind-Closes (sys-Keeps os (fsync fd) refl) λ rv.
            bind-Closes (if-Keeps (nonzero rv) (errno_error-Keeps os _) (pure-Keeps none))
              λ e. close-Closes os fd _ λ r. pure-Keeps _

  truncate_opened-Closes :
      {may : Bool} (cells : List Cell) (fd : ℕ)
      → Closes (file fd) may (truncate_opened os cells (some fd))
  unfolding truncate_opened
  truncate_opened-Closes cells fd =
      bind-Closes (long_at-Keeps cells 1)
        λ size. call_and_close-Closes (λ f. ftruncate f size) fd refl

  truncate_opened-Keeps :
      {may : Bool} (cells : List Cell) → Keeps may (truncate_opened os cells none)
  unfolding truncate_opened
  truncate_opened-Keeps cells = pure-Keeps none

  pub exp_truncate-Keeps : (args : Option Json) → Keeps true (exp_truncate os args)
  unfolding exp_truncate
  exp_truncate-Keeps args = bind-Keeps (get_args-Keeps args _) λ cells.
      bind-Keeps (long_at-Keeps cells 2) λ mode. bind-Keeps (int_at-Keeps cells 3) λ excl.
        bind-Keeps (c_text_at-Keeps cells 0) λ path.
          open-Keeps os _ (bind-Keeps (truncate_opened-Keeps cells) (std_api_wrapper-Keeps os)) path
            _ _ λ fd. then-Closes (truncate_opened-Closes cells fd) (std_api_wrapper-Keeps os)
