-- ===== src/Exported/Write.antt =====
-- `exp_writefile`.
pub mod Wrote
pub mod Laws
use ioprocess.Base.{
  ℕ, ℤ, zero, suc, Bytes, Bool, Option, none, some, List, [], ◌∷◌, bit_or, if◌then◌else◌, is_zero,
  length, drop,
}
use ioprocess.Dom.{Json}
use ioprocess.Sys.{
  Os, Act, hang, pure, ◌>>=◌, ◌>>◌, Reply, GError, sys, sys_quiet, general_error, open_file, close,
  write, fsync, posix_memalign,
}
use ioprocess.Args.{Cell, Wanted, get_args, c_text_at, int_at}
use ioprocess.Exported.Common.{text_arg, bool_arg, throw_errno, errno_error, nonzero}

-- O_WRONLY | O_CREAT | O_TRUNC
abbrev pub replace_flags : ℕ
replace_flags = 0o1101

abbrev pub o_direct : ℕ
o_direct = 0o40000

-- S_IRUSR | S_IWUSR | S_IRGRP | S_IWGRP | S_IROTH
abbrev pub replace_mode : ℕ
replace_mode = 0o664

abbrev pub safe_align : ℕ
safe_align = 4096

unfoldable pub direct_flags : ℕ → ℤ → ℕ
direct_flags flags direct = if is_zero direct then flags else bit_or flags o_direct

-- `goto clean` where a step has set the error.
abbrev pub unless_error : Option GError → Act (Option GError) → Act (Option GError)
unless_error none next = next
unless_error (some e) next = pure (some e)

abbrev pub writefile_args : List Wanted
writefile_args = text_arg "path" ∷ text_arg "data" ∷ bool_arg "direct" ∷ []

module _ (os : Os) where
  -- The `while` loop over what lies behind `data + bwritten`. Each round takes one unit of
  -- fuel, also a round in which `write` returns 0.
  unfoldable pub write_loop : ℕ → ℕ → Bytes → Act (Option GError)
  unfolding errno_error
  write_loop fuel fd [] = pure none
  write_loop zero fd (b ∷ bs) = hang
  write_loop (suc fuel) fd (b ∷ bs) = do
    rv ← sys os (write fd (b ∷ bs))
    elim rv [ none ↦ errno_error os general_error | some n ↦ write_loop fuel fd (drop n (b ∷ bs)) ]

  -- The aligned copy for direct I/O; the error is that of `errno`, whatever `posix_memalign` returns.
  unfoldable pub align_buffer : Bool → ℕ → Act (Option GError)
  unfolding errno_error
  align_buffer buffered len = if buffered then pure none else do
    rv ← sys_quiet os (posix_memalign safe_align len)
    elim rv [ none ↦ pure none | some e ↦ errno_error os general_error ]

  abbrev pub fsync_or_error : ℕ → Act (Option GError)
  fsync_or_error fd = do
    rv ← sys os (fsync fd)
    if nonzero rv then errno_error os general_error else pure none

  -- From the decoded data to the label `clean`.
  unfoldable pub write_decoded : ℕ → ℕ → Bool → Bytes → Act (Option GError)
  unfolding align_buffer write_loop errno_error
  write_decoded fuel fd buffered bytes = do
    aligned ← align_buffer buffered (length bytes)
    unless_error aligned
        (do written ← write_loop fuel fd bytes; unless_error written (fsync_or_error fd))

  -- What follows `open`.
  unfoldable pub write_opened : ℕ → List Cell → ℤ → Option ℕ → Act Reply
  unfolding c_text_at throw_errno write_decoded
  write_opened fuel cells direct none = throw_errno os general_error
  write_opened fuel cells direct (some fd) = do
    text ← c_text_at cells 1
    err ← write_decoded fuel fd (is_zero direct) (os.base64_decode text)
    sys os (close fd)
    pure (record { result = none; error = err })

  unfoldable pub exp_writefile : ℕ → Option Json → Act Reply
  unfolding c_text_at int_at direct_flags write_opened
  exp_writefile fuel args = do
    cells ← get_args args writefile_args
    direct ← int_at cells 2
    path ← c_text_at cells 0
    opened ← sys os (open_file path (direct_flags replace_flags direct) (some replace_mode))
    write_opened fuel cells direct opened
