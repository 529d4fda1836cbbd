-- ===== src/Exported/Read.antt =====
-- `exp_readfile`.
pub mod Loop
pub mod Encoding
pub mod Laws
use ioprocess.Base.{
  ℕ, ℤ, pos, negsuc, zero, suc, ◌+◌, ◌-◌, ◌*◌, ◌/◌, ◌%◌, ◌^◌, Bytes, Bool, false, Option, none,
  List, some, [], ◌∷◌, ◌++◌, ltb, if◌then◌else◌, length, codes,
}
use ioprocess.Dom.{Json, new_string, jt_boolean}
use ioprocess.Sys.{
  Os, Act, hang, pure, undefined, ◌>>=◌, ◌>>◌, Reply, GError, sys, sys_quiet, sys_read, trace_of,
  general_error, error_from_errno, open_file, close, fstat, fstatvfs, posix_memalign, malloc,
  B64State,
}
use ioprocess.Args.{Wanted, int, get_args, c_text_at, int_at}
use ioprocess.Exported.Common.{reply, text_arg, throw_errno, errno_error}
use ioprocess.Exported.Write.{direct_flags, safe_align}

-- `(buffsize / 3 + 1) * 4 + 4` as the `int` that it is stored in, passed to `malloc`.
unfoldable pub b64_size : ℕ → ℕ
b64_size buffsize =
    let n = ((buffsize / 3 + 1) * 4 + 4) % 2 ^ 32 in
    if ltb n (2 ^ 31) then n else 2 ^ 64 - 2 ^ 32 + n

-- `total_rd < st.st_size`
unfoldable pub is_below : ℕ → ℤ → Bool
is_below total (pos size) = ltb total size
is_below total (negsuc size) = false

-- What one pass through the loop leaves: the text so far, the state of the encoder, `total_rd`.
pub record Progress : Type 0 where
  pub text : Bytes
  pub b64 : B64State
  pub total : ℕ

abbrev pub start : Progress
start = record { text = []; b64 = record { state = 0; save = 0 }; total = 0 }

-- How the loop ends: with an error set, or at its test.
pub data Outcome : Type 0 where
  broken : Option GError → Outcome
  complete : Progress → Outcome

abbrev pub readfile_args : List Wanted
readfile_args =
    text_arg "path" ∷ record { name = codes "direct"; type = jt_boolean; out = int (pos 0) } ∷ []

module _ (os : Os) where
  -- One `g_base64_encode_step` and the append of what it converts.
  unfoldable pub encode_chunk : Bytes → Progress → Progress
  encode_chunk chunk p =
      let (converted, b64) = os.encode_step chunk p.b64 in
      record { text = p.text ++ converted; b64 = b64; total = p.total + length chunk }

  -- The `while` loop. `total_rd` is an `int`: a sum that it cannot hold is undefined behaviour.
  unfoldable pub read_loop : ℕ → ℕ → ℕ → ℤ → Progress → Act Outcome
  unfolding is_below errno_error encode_chunk
  read_loop zero fd buffsize size p = if is_below p.total size then hang else pure (complete p)
  read_loop (suc fuel) fd buffsize size p =
      let again : Act Outcome = do
        rd ← sys_read os fd buffsize
        elim rd [
          | none ↦ errno_error os general_error >>= λ e. pure (broken e)
          | some chunk ↦
              let q = encode_chunk chunk p in
              let next = read_loop fuel fd buffsize size q in
              if ltb q.total (2 ^ 31) then next else undefined
        ]
      in if is_below p.total size then again else pure (complete p)

  -- Behind the loop: the final bytes of the encoding if anything was read.
  unfoldable pub encoded : Progress → Bytes
  encoded p = if ltb 0 p.total then p.text ++ os.encode_close p.b64 else p.text

  unfoldable pub read_reply : Outcome → Reply
  unfolding encoded new_string
  read_reply (broken e) = record { result = none; error = e }
  read_reply (complete p) = reply (new_string (encoded p))

  -- `set_error_from_errno` and `goto clean` with no result.
  unfoldable pub errno_reply : Act Reply
  unfolding errno_error
  errno_reply = do e ← errno_error os general_error; pure (record { result = none; error = e })

  -- From `malloc` on.
  unfoldable pub read_allocated : ℕ → ℕ → ℕ → ℤ → Act Reply
  unfolding errno_reply b64_size read_loop read_reply
  read_allocated fuel fd buffsize size = do
    b64buff ← sys os (malloc (b64_size buffsize))
    elim b64buff [
      | none ↦ errno_reply
      | some _ ↦ do out ← read_loop fuel fd buffsize size start; pure (read_reply out)
    ]

  -- From `posix_memalign` on.
  unfoldable pub read_aligned : ℕ → ℕ → ℕ → ℤ → Act Reply
  unfolding error_from_errno read_allocated
  read_aligned fuel fd buffsize size = do
    rv ← sys_quiet os (posix_memalign safe_align buffsize)
    elim rv [
      | some e ↦ pure (record { result = none; error = some (error_from_errno os general_error e) })
      | none ↦ read_allocated fuel fd buffsize size
    ]

  -- From `fstat` to the label `clean`.
  unfoldable pub read_opened : ℕ → ℕ → Act Reply
  unfolding errno_reply read_aligned
  read_opened fuel fd = do
    t ← trace_of
    stat_rv ← sys os (fstat fd)
    elim stat_rv [
      | none ↦ errno_reply
      | some _ ↦ do
        t' ← trace_of
        vfs_rv ← sys os (fstatvfs fd)
        elim vfs_rv [
          | none ↦ errno_reply
          | some _ ↦
              read_aligned fuel fd (os.statvfs_of t' (fstatvfs fd)).bsize
                (os.stat_of t (fstat fd)).size
        ]
    ]

  unfoldable pub exp_readfile : ℕ → Option Json → Act Reply
  unfolding c_text_at int_at direct_flags throw_errno read_opened
  exp_readfile fuel args = do
    cells ← get_args args readfile_args
    direct ← int_at cells 1
    path ← c_text_at cells 0
    opened ← sys os (open_file path (direct_flags 0 direct) none)
    elim opened [
      | none ↦ throw_errno os general_error
      | some fd ↦ do r ← read_opened fuel fd; sys os (close fd); pure r
    ]
