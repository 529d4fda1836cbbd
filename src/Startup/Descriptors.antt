-- ===== src/Startup/Descriptors.antt =====
-- `closeUnrelatedFDs`. The `readlink` whose result is only logged is left out.
use ioprocess.Base.{
  ℕ, Bytes, Bool, false, ◌||◌, Option, none, some, List, [], ◌∷◌, codes, bytes_eq, ◌==◌,
  if◌then◌else◌,
}
use ioprocess.Sys.{
  Os, Act, pure, ◌>>=◌, sys, trace_of, errno_of, open_file, fdopendir, close, closedir,
}

abbrev pub ebadf : ℕ
ebadf = 9

-- The loop over the whitelist, up to its closing -1.
unfoldable pub contains : List ℕ → ℕ → Bool
contains [] fd = false
contains (w ∷ ws) fd = fd == w || contains ws fd

-- `scan_fd` is `sscanf(fname, "%d", &fdNum)`.
module _ (os : Os) (scan_fd : Bytes → Option ℕ) (whitelist : List ℕ) where
  -- The number of a descriptor that the loop goes on to close.
  unfoldable pub unrelated : ℕ → Bytes → Option ℕ
  unfolding contains bytes_eq
  unrelated dfd fname =
      if bytes_eq fname (codes ".") || bytes_eq fname (codes "..")
      then none
      else elim (scan_fd fname) [
        | none ↦ none
        | some fd ↦ if fd == dfd || contains whitelist fd then none else some fd
      ]

  -- One round of the loop: the error that it returns, if any.
  unfoldable pub close_entry : ℕ → Bytes → Act (Option ℕ)
  unfolding unrelated
  close_entry dfd fname = elim (unrelated dfd fname) [
    | none ↦ pure none
    | some fd ↦ do
      rv ← sys os (close fd)
      elim rv [
        | some _ ↦ pure none
        | none ↦ errno_of >>= λ e. if e == ebadf then pure none else pure (some e)
      ]
  ]

  unfoldable pub close_entries : ℕ → List Bytes → Act (Option ℕ)
  unfolding close_entry
  close_entries dfd [] = pure none
  close_entries dfd (fname ∷ more) = do
    failed ← close_entry dfd fname
    elim failed [ some e ↦ pure (some e) | none ↦ close_entries dfd more ]

  -- `none` is the result 0, `some e` the result -e.
  unfoldable pub close_unrelated_fds : Act (Option ℕ)
  unfolding close_entries
  close_unrelated_fds = do
    opened ← sys os (open_file (codes "/proc/self/fd/") 0 none)
    elim opened [
      | none ↦ errno_of >>= λ e. pure (some e)
      | some dfd ↦ do
        stream ← sys os (fdopendir dfd)
        elim stream [
          | none ↦ errno_of >>= λ e. pure (some e)
          | some dp ↦ do
            t ← trace_of
            failed ← close_entries dfd (os.entries_of t dp)
            elim failed [ some e ↦ pure (some e) | none ↦ sys os (closedir dp) >>= λ _. pure none ]
        ]
    ]
