-- ===== src/Exported/Files.antt =====
-- The exported functions that open a file, make one call on it, and close it: `exp_touch`,
-- `exp_truncate`, `exp_fsyncPath`.
use ioprocess.Base.{
  ℕ, ℤ, Bool, Option, none, some, List, [], ◌∷◌, bit_or, if◌then◌else◌, is_zero, u32,
}
use ioprocess.Dom.{Json, jt_string}
use ioprocess.Sys.{
  Os, Call, Act, pure, ◌>>=◌, ◌>>◌, Reply, GError, sys, general_error, stdapi_error, open_file,
  close, futimens, ftruncate, fsync,
}
use ioprocess.Args.{Cell, null_pointer, int, get_args, c_text_at, long_at, int_at}
use ioprocess.Exported.Common.{
  text_arg, long_arg, std_api_wrapper, throw_errno, errno_error, nonzero,
}
use ioprocess.Base.{codes, pos}
use ioprocess.Dom.{jt_boolean}

-- S_IRUSR | S_IWUSR | S_IRGRP | S_IROTH
abbrev pub def_mode : ℕ
def_mode = 0o644

-- O_WRONLY | O_CREAT
abbrev pub create_flags : ℕ
create_flags = 0o101

abbrev pub o_excl : ℕ
o_excl = 0o200

-- `if (!mode) mode = defMode;` and the narrowing to a `mode_t`.
unfoldable pub mode_or_default : ℤ → ℕ
unfolding u32
mode_or_default mode = if is_zero mode then def_mode else u32 mode

-- `allFlags`, with the request's flags if there are any: the low 32 bits are passed to `open`.
unfoldable pub touch_flags : ℤ → ℕ
unfolding u32
touch_flags flags = if is_zero flags then create_flags else bit_or create_flags (u32 flags)

unfoldable pub truncate_flags : ℤ → ℕ
truncate_flags excl = if is_zero excl then create_flags else bit_or create_flags o_excl

module _ (os : Os) where
  -- What follows `open` in `exp_touch` and `exp_truncate`: one call on the file if it is open, and
  -- `close` whatever that call returns.
  unfoldable pub call_and_close : (ℕ → Call) → Option ℕ → Act (Option ℕ)
  call_and_close c none = pure none
  call_and_close c (some fd) = do rv ← sys os (c fd); sys os (close fd); pure rv

  unfoldable pub exp_touch : Option Json → Act Reply
  unfolding c_text_at long_at std_api_wrapper call_and_close mode_or_default touch_flags
  exp_touch args = do
    cells ← get_args args (
        record { name = codes "path"; type = jt_string; out = null_pointer }
        ∷ long_arg "flags"
        ∷ long_arg "mode"
        ∷ [])
    mode ← long_at cells 2
    flags ← long_at cells 1
    path ← c_text_at cells 0
    fd ← sys os (open_file path (touch_flags flags) (some (mode_or_default mode)))
    rv ← call_and_close futimens fd
    std_api_wrapper os rv

  -- The part of `exp_truncate` behind `open`.
  unfoldable pub truncate_opened : List Cell → Option ℕ → Act (Option ℕ)
  unfolding long_at call_and_close
  truncate_opened cells none = pure none
  truncate_opened cells (some fd) = do
    size ← long_at cells 1
    call_and_close (λ f. ftruncate f size) (some fd)

  unfoldable pub exp_truncate : Option Json → Act Reply
  unfolding c_text_at long_at int_at std_api_wrapper truncate_opened mode_or_default truncate_flags
  exp_truncate args = do
    cells ← get_args args (
        record { name = codes "path"; type = jt_string; out = null_pointer }
        ∷ long_arg "size"
        ∷ long_arg "mode"
        ∷ record { name = codes "excl"; type = jt_boolean; out = int (pos 0) }
        ∷ [])
    mode ← long_at cells 2
    excl ← int_at cells 3
    path ← c_text_at cells 0
    fd ← sys os (open_file path (truncate_flags excl) (some (mode_or_default mode)))
    rv ← truncate_opened cells fd
    std_api_wrapper os rv

  -- `if (fsync(fd) != 0) set_error_from_errno(...)`
  abbrev fsync_error : Bool → Act (Option GError)
  fsync_error b = if b then errno_error os stdapi_error else pure none

  unfoldable pub exp_fsync_path : Option Json → Act Reply
  unfolding c_text_at throw_errno errno_error
  exp_fsync_path args = do
    cells ← get_args args (text_arg "path" ∷ [])
    path ← c_text_at cells 0
    opened ← sys os (open_file path 0 none)
    elim opened [
      | none ↦ throw_errno os general_error
      | some fd ↦ do
        rv ← sys os (fsync fd)
        err ← fsync_error (nonzero rv)
        sys os (close fd)
        pure (record { result = none; error = err })
    ]
