-- ===== src/Exported/Laws/Release.antt =====
-- Every method of the table closes what it opened.
use ioprocess.Base.{
  ℕ, Bytes, true, Option, some, List, [], ◌∷◌, ◌≡◌, refl, arith, Bool-cases, inl, inr, bytes_eq,
}
use mathlib.Core.Path.{subst}
use ioprocess.Dom.{Json}
use ioprocess.Sys.{Os, Sys}
use ioprocess.Server.Table.{Callback, find_callback, exported_functions, get_callback}
use ioprocess.Exported.Simple.{exp_crash}
use ioprocess.Exported.Laws.Handles.{held, Balanced, Keeps}
use ioprocess.Exported.Laws.Balance
use ioprocess.Exported.Laws.Transfers
use ioprocess.Exported.Laws.ProbeFile

abbrev pub All {ℓ} : (Callback → Type ℓ) → List (Bytes × Callback) → Type ℓ
All P [] = Unit
All P ((m, c) ∷ es) = P c × All P es

-- What holds of every entry holds of the one that is found.
pub find_callback-All {ℓ} :
    (P : Callback → Type ℓ) (es : List (Bytes × Callback)) (name : Bytes) {c : Callback}
    → All P es
    → find_callback es name ≡ some c
    → P c
unfolding find_callback
find_callback-All P [] name a e = cc
find_callback-All P ((m, d) ∷ es) name {c} a e = elim (Bool-cases (bytes_eq m name)) [
  | inl here ↦ let p : d ≡ c = ground arith in subst P p a.0
  | inr there ↦ find_callback-All P es name {c = c} a.1 (ground arith)
]

abbrev Releases : Callback → Type 0
Releases c = (args : Option Json) → Keeps true (c args)

crash-Releases : (os : Os) → Releases (exp_crash os)
unfolding exp_crash
crash-Releases os args = record { keeps = λ hs s e. tt }

exported-Releases : (os : Os) (fuel : ℕ) → All Releases (exported_functions os fuel)
unfolding exported_functions
exported-Releases os fuel = (
  Balance.exp_ping-Keeps os,
  (
    Balance.exp_echo-Keeps os,
    (
      Balance.exp_memstat-Keeps os,
      (
        crash-Releases os,
        (
          Balance.exp_stat-Keeps os,
          (
            Balance.exp_lstat-Keeps os,
            (
              Balance.exp_statvfs-Keeps os,
              (
                Balance.exp_access-Keeps os,
                (
                  Balance.exp_rename-Keeps os,
                  (
                    Balance.exp_unlink-Keeps os,
                    (
                      Balance.exp_rmdir-Keeps os,
                      (
                        Balance.exp_link-Keeps os,
                        (
                          Balance.exp_symlink-Keeps os,
                          (
                            Balance.exp_chmod-Keeps os,
                            (
                              Transfers.exp_readfile-Keeps os fuel,
                              (
                                Transfers.exp_glob-Keeps os,
                                (
                                  Transfers.exp_listdir-Keeps os,
                                  (
                                    Transfers.exp_writefile-Keeps os fuel,
                                    (
                                      Balance.exp_lexists-Keeps os,
                                      (
                                        Balance.exp_truncate-Keeps os,
                                        (
                                          Balance.exp_mkdir-Keeps os,
                                          (
                                            Balance.exp_fsync_path-Keeps os,
                                            (
                                              Balance.exp_touch-Keeps os,
                                              (ProbeFile.exp_probe_block_size-Keeps os fuel, tt),
                                            ),
                                          ),
                                        ),
                                      ),
                                    ),
                                  ),
                                ),
                              ),
                            ),
                          ),
                        ),
                      ),
                    ),
                  ),
                ),
              ),
            ),
          ),
        ),
      ),
    ),
  ),
)

-- A method that returns, with a result or with an error, on whatever arguments and answers of the
-- system, leaves open exactly the descriptors and directory streams that were open before.
pub callback_releases :
    (os : Os) (fuel : ℕ) (name : Bytes) {c : Callback}
    → get_callback os fuel name ≡ some c
    → (args : Option Json) (s : Sys) → Balanced true (held s.trace) (c args s)
unfolding get_callback
callback_releases os fuel name e args s =
    (find_callback-All Releases (exported_functions os fuel) name (exported-Releases os fuel) e
        args).keeps
      (held s.trace) s refl
