-- ===== src/Exported/Laws/Refusals.antt =====
-- Requests that lack an argument, function by function of the table.
use ioprocess.Base.{
  ℕ, Bytes, some, List, [], ◌∷◌, codes, bytes_eq, ◌≡◌, refl, arith, Bool-cases, inl, inr,
}
use mathlib.Core.Path.{subst₂}
use ioprocess.Dom.{Fields, object}
use ioprocess.Sys.{Os, Sys, fail, Act, Reply, ◌>>=◌}
use ioprocess.Args.{Cell, Wanted, get_args, arg_missing}
use ioprocess.Args.Laws.{names, first_missing, get_args-missing}
use ioprocess.Server.Table.{Callback, find_callback, exported_functions, get_callback}
use ioprocess.Exported.Simple.{
  exp_ping, exp_echo, exp_memstat, exp_crash, exp_access, exp_rename, exp_unlink, exp_rmdir,
  exp_link, exp_symlink, exp_chmod, exp_lexists, exp_mkdir,
}
use ioprocess.Exported.Files.{exp_truncate, exp_fsync_path, exp_touch}
use ioprocess.Exported.Listing.{exp_glob, exp_listdir}
use ioprocess.Exported.Stats.{exp_stat, exp_lstat, exp_statvfs}
use ioprocess.Exported.Write.{exp_writefile}
use ioprocess.Exported.Read.{exp_readfile}
use ioprocess.Exported.Probe.{exp_probe_block_size}

-- The methods and their arguments, as a client has to give them.
abbrev pub path_only : List Bytes
path_only = codes "path" ∷ []

abbrev pub two_paths : List Bytes
two_paths = codes "oldpath" ∷ codes "newpath" ∷ []

abbrev pub path_mode : List Bytes
path_mode = codes "path" ∷ codes "mode" ∷ []

abbrev pub required : List (Bytes × List Bytes)
required =
    (codes "ping", [])
    ∷ (codes "echo", codes "text" ∷ codes "sleep" ∷ [])
    ∷ (codes "memstat", [])
    ∷ (codes "crash", [])
    ∷ (codes "stat", path_only)
    ∷ (codes "lstat", path_only)
    ∷ (codes "statvfs", path_only)
    ∷ (codes "access", path_mode)
    ∷ (codes "rename", two_paths)
    ∷ (codes "unlink", path_only)
    ∷ (codes "rmdir", path_only)
    ∷ (codes "link", two_paths)
    ∷ (codes "symlink", two_paths)
    ∷ (codes "chmod", path_mode)
    ∷ (codes "readfile", codes "path" ∷ codes "direct" ∷ [])
    ∷ (codes "glob", codes "pattern" ∷ [])
    ∷ (codes "listdir", path_only)
    ∷ (codes "writefile", codes "path" ∷ codes "data" ∷ codes "direct" ∷ [])
    ∷ (codes "lexists", path_only)
    ∷ (codes "truncate", codes "path" ∷ codes "size" ∷ codes "mode" ∷ codes "excl" ∷ [])
    ∷ (codes "mkdir", path_mode)
    ∷ (codes "fsyncPath", path_only)
    ∷ (codes "touch", codes "path" ∷ codes "flags" ∷ codes "mode" ∷ [])
    ∷ (codes "probe_block_size", codes "dir" ∷ [])
    ∷ []

-- A function that wants the arguments `ns` refuses a map that lacks one of them, with the first
-- that is missing, and makes no call.
abbrev pub Refuses : Callback → List Bytes → Type 0
Refuses c ns =
    (fs : Fields) (s : Sys) (n : Bytes)
    → first_missing fs ns ≡ some n
    → c (some (object fs)) s ≡ (fail (arg_missing n), s)

abbrev pub AllRefuse : List (Bytes × Callback) → List (Bytes × List Bytes) → Type 0
AllRefuse [] rs = Unit
AllRefuse (e ∷ es) [] = Unit
AllRefuse ((m, c) ∷ es) ((m', ns) ∷ rs) = ((m ≡ m') × Refuses c ns) × AllRefuse es rs

-- A function that begins with its arguments refuses.
refuses :
    (ws : List Wanted) (k : List Cell → Act Reply)
    → Refuses (λ args. get_args args ws >>= k) (names ws)
refuses ws k fs s n e = rw (get_args-missing fs ws s e)

nothing_missing-Refuses : (c : Callback) → Refuses c []
nothing_missing-Refuses c fs s n e = cc

module _ (os : Os) (fuel : ℕ) where
  -- Every exported function refuses an args map without one of its arguments.
  pub exported-AllRefuse : AllRefuse (exported_functions os fuel) required
  unfolding exported_functions exp_echo exp_access exp_rename exp_unlink exp_rmdir exp_link
      exp_symlink exp_chmod exp_lexists exp_mkdir exp_truncate exp_fsync_path exp_touch exp_glob
      exp_listdir exp_stat exp_lstat exp_statvfs exp_writefile exp_readfile exp_probe_block_size
  exported-AllRefuse = (
    (refl, nothing_missing-Refuses (exp_ping os)),
    (
      (refl, refuses _ _),
      (
        (refl, nothing_missing-Refuses (exp_memstat os)),
        (
          (refl, nothing_missing-Refuses (exp_crash os)),
          (
            (refl, refuses _ _),
            (
              (refl, refuses _ _),
              (
                (refl, refuses _ _),
                (
                  (refl, refuses _ _),
                  (
                    (refl, refuses _ _),
                    (
                      (refl, refuses _ _),
                      (
                        (refl, refuses _ _),
                        (
                          (refl, refuses _ _),
                          (
                            (refl, refuses _ _),
                            (
                              (refl, refuses _ _),
                              (
                                (refl, refuses _ _),
                                (
                                  (refl, refuses _ _),
                                  (
                                    (refl, refuses _ _),
                                    (
                                      (refl, refuses _ _),
                                      (
                                        (refl, refuses _ _),
                                        (
                                          (refl, refuses _ _),
                                          (
                                            (refl, refuses _ _),
                                            (
                                              (refl, refuses _ _),
                                              ((refl, refuses _ _), ((refl, refuses _ _), tt)),
                                            ),
                                          ),
                                        ),
                                      ),
                                    ),
                                  ),
                                ),
                              ),
                            ),
                          ),
                        ),
                      ),
                    ),
                  ),
                ),
              ),
            ),
          ),
        ),
      ),
    ),
  )

find_callback-Refuses :
    (es : List (Bytes × Callback)) (rs : List (Bytes × List Bytes)) (name : Bytes) {c : Callback}
    {ns : List Bytes}
    → AllRefuse es rs
    → find_callback es name ≡ some c
    → find_callback rs name ≡ some ns
    → Refuses c ns
unfolding find_callback
find_callback-Refuses [] rs name a e r = cc
find_callback-Refuses (x ∷ es) [] name a e r = cc
find_callback-Refuses ((m, d) ∷ es) ((m', ms) ∷ rs) name {c} {ns} a e r =
    elim (Bool-cases (bytes_eq m name)) [
      | inl here ↦
          let p : d ≡ c = ground (arith, a.0.0) in
          let q : ms ≡ ns = ground (arith, a.0.0) in subst₂ Refuses p q a.0.1
      | inr there ↦
          find_callback-Refuses es rs name {c = c} {ns = ns} a.1 (ground arith)
            (ground (arith, a.0.0))
    ]

-- Whatever method is called, if its args lack a name that it requires, the answer is the error for
-- the first such name, and no call is made.
pub callback_refuses :
    (os : Os) (fuel : ℕ) (name : Bytes) {c : Callback} {ns : List Bytes}
    → get_callback os fuel name ≡ some c
    → find_callback required name ≡ some ns
    → (fs : Fields) (s : Sys) (n : Bytes) → first_missing fs ns ≡ some n
    → c (some (object fs)) s ≡ (fail (arg_missing n), s)
unfolding get_callback
callback_refuses os fuel name e r =
    find_callback-Refuses (exported_functions os fuel) required name (exported-AllRefuse os fuel) e
      r
