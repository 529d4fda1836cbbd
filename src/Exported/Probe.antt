-- ===== src/Exported/Probe.antt =====
-- `exp_probe_block_size`, `create_probe` and `delete_probe`.
pub mod Laws
pub mod Found
use ioprocess.Base.{
  ℕ, zero, suc, pos, Bytes, Option, none, some, List, [], ◌∷◌, ◌++◌, bit_or, ◌==◌, if◌then◌else◌,
  codes, replicate,
}
use ioprocess.Dom.{Json, long, jt_string}
use ioprocess.Sys.{
  Os, Act, hang, pure, throw, ◌>>=◌, ◌>>◌, Reply, GError, sys, sys_quiet, trace_of, errno_of,
  general_error, error_from_errno, open_file, close, unlink, posix_memalign, pwrite, random_uuid,
  format_path,
}
use ioprocess.Args.{null_pointer, get_args, c_text_at, einval}
use ioprocess.Exported.Common.{reply, enomem, eintr}

-- O_WRONLY | O_DIRECT | O_DSYNC
abbrev pub probe_flags : ℕ
probe_flags = 0o50001

-- O_CREAT | O_EXCL
abbrev pub create_new : ℕ
create_new = 0o300

-- S_IRUSR | S_IWUSR
abbrev pub probe_mode : ℕ
probe_mode = 0o600

abbrev pub sizes : List ℕ
sizes = 1 ∷ 512 ∷ 4096 ∷ []

-- `struct probe`
pub record ProbeFile : Type 0 where
  pub fd : ℕ
  pub path : Bytes

pub data Created : Type 0 where
  refused : ℕ → Created
  created : ProbeFile → Created

-- What the loop over the sizes ends with: a block size, or the error that it sets.
pub data Probed : Type 0 where
  size : ℕ → Probed
  error : GError → Probed

unfoldable pub probe_path : Bytes → Bytes → Bytes
probe_path dir uuid = dir ++ (codes "/.prob-" ++ uuid)

abbrev pub probe_reply : Probed → Reply
probe_reply (size n) = reply (long (pos n))
probe_reply (error e) = record { result = none; error = some e }

module _ (os : Os) where
  -- The error number instead of -errno; 0 is `created`.
  unfoldable pub create_probe : Bytes → ℕ → Act Created
  unfolding probe_path
  create_probe dir flags = do
    t ← trace_of
    uuid ← sys os random_uuid
    elim uuid [
      | none ↦ pure (refused enomem)
      | some _ ↦ do
        let path = probe_path dir (os.data_of t random_uuid)
        formatted ← sys os (format_path path)
        elim formatted [
          | none ↦ pure (refused enomem)
          | some _ ↦ do
            opened ← sys os (open_file path (bit_or flags create_new) (some probe_mode))
            elim opened [
              | none ↦ errno_of >>= λ e. pure (refused e)
              | some fd ↦ pure (created (record { fd = fd; path = path }))
            ]
        ]
    ]

  -- The result is not used by the caller.
  unfoldable pub delete_probe : ProbeFile → Act (Option ℕ)
  delete_probe probe = do sys os (close probe.fd); sys os (unlink probe.path)

  -- `do { rv = pwrite(...); } while (rv < 0 && errno == EINTR);`
  unfoldable pub pwrite_retry : ℕ → ℕ → ℕ → Act (Option ℕ)
  pwrite_retry zero fd block_size = hang
  pwrite_retry (suc fuel) fd block_size = do
    rv ← sys os (pwrite fd (replicate block_size 0) 0)
    elim rv [
      | some n ↦ pure (some n)
      | none ↦ errno_of >>= λ e.
          let again = pwrite_retry fuel fd block_size in if e == eintr then again else pure none
    ]

  -- The `for` loop; behind it, no size was good.
  unfoldable pub probe_loop : ℕ → ℕ → List ℕ → Act Probed
  unfolding pwrite_retry error_from_errno
  probe_loop fuel fd [] = pure (error (error_from_errno os general_error einval))
  probe_loop fuel fd (block_size ∷ more) = do
    rv ← pwrite_retry fuel fd block_size
    elim rv [
      | some n ↦ pure (size block_size)
      | none ↦ errno_of >>= λ e.
          let next = probe_loop fuel fd more in
          if e == einval then next else pure (error (error_from_errno os general_error e))
    ]

  -- From the buffer to the label `out`.
  unfoldable pub probe_sizes : ℕ → ℕ → Act Probed
  unfolding error_from_errno probe_loop
  probe_sizes fuel fd = do
    rv ← sys_quiet os (posix_memalign 4096 4096)
    elim rv [
      | some e ↦ pure (error (error_from_errno os general_error e))
      | none ↦ probe_loop fuel fd sizes
    ]

  -- What follows `create_probe`: the probe file is deleted however the probing ends.
  unfoldable pub probe_created : ℕ → Created → Act Reply
  unfolding delete_probe probe_sizes error_from_errno
  probe_created fuel (refused e) = throw (error_from_errno os general_error e)
  probe_created fuel (created file) = do
    found ← probe_sizes fuel file.fd
    delete_probe file
    pure (probe_reply found)

  unfoldable pub exp_probe_block_size : ℕ → Option Json → Act Reply
  unfolding c_text_at create_probe probe_created
  exp_probe_block_size fuel args = do
    cells ← get_args args (record { name = codes "dir"; type = jt_string; out = null_pointer } ∷ [])
    dir ← c_text_at cells 0
    probe ← create_probe dir probe_flags
    probe_created fuel probe
