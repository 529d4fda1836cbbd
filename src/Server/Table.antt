-- ===== src/Server/Table.antt =====
-- `exportedFunctions` and `getCallback`.
use ioprocess.Base.{ℕ, Bytes, Option, none, some, List, [], ◌∷◌, codes, bytes_eq, if◌then◌else◌}
use ioprocess.Dom.{Json}
use ioprocess.Sys.{Os, Act, Reply}
use ioprocess.Exported.Simple.{
  exp_ping, exp_echo, exp_memstat, exp_crash, exp_access, exp_rename, exp_unlink, exp_rmdir,
  exp_link, exp_symlink, exp_chmod, exp_lexists, exp_mkdir,
}
use ioprocess.Exported.Files.{exp_truncate, exp_fsync_path, exp_touch}
use ioprocess.Exported.Listing.{exp_glob, exp_listdir}
use ioprocess.Exported.Stats.{exp_stat, exp_lstat, exp_statvfs}
use ioprocess.Exported.Write.{exp_writefile}
use ioprocess.Exported.Read.{exp_readfile}
use ioprocess.Exported.Probe.{exp_probe_block_size}

-- `ExportedFunction`
abbrev pub Callback : Type 0
Callback = Option Json → Act Reply

-- The loop of `getCallback`.
unfoldable pub find_callback {ℓ} : {A : Type ℓ} → List (Bytes × A) → Bytes → Option A
find_callback [] name = none
find_callback ((entry, callback) ∷ more) name =
    if bytes_eq entry name then some callback else find_callback more name

module _ (os : Os) (fuel : ℕ) where
  unfoldable pub exported_functions : List (Bytes × Callback)
  exported_functions =
      (codes "ping", exp_ping os)
      ∷ (codes "echo", exp_echo os)
      ∷ (codes "memstat", exp_memstat os)
      ∷ (codes "crash", exp_crash os)
      ∷ (codes "stat", exp_stat os)
      ∷ (codes "lstat", exp_lstat os)
      ∷ (codes "statvfs", exp_statvfs os)
      ∷ (codes "access", exp_access os)
      ∷ (codes "rename", exp_rename os)
      ∷ (codes "unlink", exp_unlink os)
      ∷ (codes "rmdir", exp_rmdir os)
      ∷ (codes "link", exp_link os)
      ∷ (codes "symlink", exp_symlink os)
      ∷ (codes "chmod", exp_chmod os)
      ∷ (codes "readfile", exp_readfile os fuel)
      ∷ (codes "glob", exp_glob os)
      ∷ (codes "listdir", exp_listdir os)
      ∷ (codes "writefile", exp_writefile os fuel)
      ∷ (codes "lexists", exp_lexists os)
      ∷ (codes "truncate", exp_truncate os)
      ∷ (codes "mkdir", exp_mkdir os)
      ∷ (codes "fsyncPath", exp_fsync_path os)
      ∷ (codes "touch", exp_touch os)
      ∷ (codes "probe_block_size", exp_probe_block_size os fuel)
      ∷ []

  unfoldable pub get_callback : Bytes → Option Callback
  unfolding find_callback exported_functions
  get_callback name = find_callback exported_functions name
