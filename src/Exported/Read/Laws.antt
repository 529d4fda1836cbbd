-- ===== src/Exported/Read/Laws.antt =====
-- What `exp_readfile` returns.
use ioprocess.Base.{
  ℕ, ℤ, pos, negsuc, ◌+◌, ◌≤◌, ◌^◌, Bytes, false, none, some, List, [], ◌∷◌, ◌++◌, ◌≡◌, refl, ap,
  ◌∙◌, arith, length, codes, c_str, sym,
}
use native.Mathlib.Nat.{zero-add, add-zero}
use mathlib.Core.Path.{subst}
use ioprocess.Dom.{Fields, object, string, boolean, map_lookup, new_string}
use ioprocess.Sys.{
  Os, Sys, Step, ok, fail, fault, exited, hung, and_then, sys, errno_of, done, ◌>>=◌, Reply, note,
  open_file, close, fstat, fstatvfs, malloc, pure, Trace, trace_of, StatVfs, ◌>>◌,
}
use ioprocess.Sys.Cases.{sys_cases, sys_quiet_cases}
use ioprocess.Args.{get_args, get_value, g_string, int}
use ioprocess.Args.Laws.{get_args-written}
use ioprocess.Exported.Write.{direct_flags}
use ioprocess.Exported.Common.{errno_error}
use ioprocess.Exported.Read.{
  start, Outcome, broken, complete, is_below, b64_size, encoded, read_loop, read_reply,
  read_allocated, read_aligned, read_opened, errno_reply, exp_readfile, readfile_args,
}
use ioprocess.Exported.Read.Loop.{
  size_of, received, ReadsProgress, bytes_of, Encoded, read_loop-Encoded,
}
use ioprocess.Exported.Read.Encoding.{joined, Incremental, total-encode_all, encoded-encode_all}

enough : (size : ℤ) (n : ℕ) → is_below n size ≡ false → size_of size ≤ n
unfolding is_below
enough (pos m) n h = ground arith
enough (negsuc m) n h = omega arith

module _ (os : Os) (encode : Bytes → Bytes) (fd : ℕ) where
  -- What a reply says of the reads behind `before` from a file with `size` bytes.
  abbrev pub ReadBack : ℤ → List Bytes → Step Reply × Sys → Type 0
  ReadBack size before (ok r, s) = elim r.error [
    | none ↦
        (chunks : List Bytes) × (received os fd s.trace ≡ before ++ chunks)
        × (r.result ≡ some (new_string (encode (joined chunks))))
        × (size_of size ≤ length (joined chunks))
    | some e ↦ r.result ≡ none
  ]
  ReadBack size before (fail e, s) = ⊥
  ReadBack size before (fault, s) = ⊥
  ReadBack size before (exited, s) = ⊥
  ReadBack size before (hung, s) = ⊥

module _ (os : Os) (encode : Bytes → Bytes) (spec : Incremental os encode) where
  module _ (fd : ℕ) where
    -- The loop's outcome, and what the reply makes of it.
    loop-ReadBack :
        (size : ℤ) (before : List Bytes) (r : Step Outcome × Sys)
        → Encoded os fd size before start r
        → ReadBack os encode fd size before (and_then r (λ out. pure (read_reply os out)))
    unfolding read_reply
    loop-ReadBack size before (ok (complete q), s) (chunks, e, f, g) = (
      chunks,
      e,
      ap some (ap new_string (ap (encoded os) f ∙ encoded-encode_all os encode spec chunks)),
      enough size (length (joined chunks)) (
          subst (λ n. is_below n size ≡ false)
            (ap (λ p. p.total) f ∙ total-encode_all os chunks start ∙ zero-add _) g),
    )
    loop-ReadBack size before (ok (broken none), s) w = elim w [ ]
    loop-ReadBack size before (ok (broken (some e)), s) w = refl
    loop-ReadBack size before (fail e, s) w = elim w [ ]
    loop-ReadBack size before (fault, s) w = elim w [ ]
    loop-ReadBack size before (exited, s) w = elim w [ ]
    loop-ReadBack size before (hung, s) w = elim w [ ]

    module _ (buffsize fuel : ℕ) (size : ℤ) (before : List Bytes)
        (progress : ReadsProgress os fd buffsize (bytes_of os fd before + size_of size))
        (room : size_of size + buffsize ≤ 2 ^ 31) (enough_fuel : size_of size ≤ fuel) where
      errno-ReadBack : (s : Sys) → ReadBack os encode fd size before (errno_reply os s)
      unfolding errno_reply errno_error errno_of
      errno-ReadBack s = refl

      run-ReadBack :
          (s : Sys)
          → received os fd s.trace ≡ before
          → ReadBack os encode fd size before
              ((read_loop os fuel fd buffsize size start >>= λ out. pure (read_reply os out)) s)
      run-ReadBack s e = loop-ReadBack size before (read_loop os fuel fd buffsize size start s) (
          subst (λ b. Encoded os fd size b start (read_loop os fuel fd buffsize size start s)) e
            (read_loop-Encoded os fd (bytes_of os fd before) buffsize size progress room fuel start
              s (omega arith) (ap (bytes_of os fd) e ∙ sym (add-zero _))))

      allocated-ReadBack :
          (s : Sys)
          → received os fd s.trace ≡ before
          → ReadBack os encode fd size before (read_allocated os fuel fd buffsize size s)
      unfolding read_allocated received
      allocated-ReadBack s e =
          sys_cases os (ReadBack os encode fd size before) _ _ s
            (λ n. run-ReadBack (note (malloc (b64_size buffsize)) (done n) s) e)
            (λ n. errno-ReadBack _)

      aligned-ReadBack :
          (s : Sys)
          → received os fd s.trace ≡ before
          → ReadBack os encode fd size before (read_aligned os fuel fd buffsize size s)
      unfolding read_aligned received
      aligned-ReadBack s e =
          sys_quiet_cases os (ReadBack os encode fd size before) _ _ s (λ n. allocated-ReadBack _ e)
            (λ n. refl)

    -- With room for every block in an `int` and fuel for every byte of the file.
    opened-ReadBack :
        (fuel : ℕ) (before : List Bytes) (s : Sys)
        → ((t : Trace)
            → ReadsProgress os fd
                (os.statvfs_of t (fstatvfs fd)).bsize
                (bytes_of os fd before + size_of (os.stat_of s.trace (fstat fd)).size))
        → ((t : Trace)
            → size_of (os.stat_of s.trace (fstat fd)).size + (os.statvfs_of t (fstatvfs fd)).bsize
              ≤ 2 ^ 31)
        → size_of (os.stat_of s.trace (fstat fd)).size ≤ fuel
        → received os fd s.trace ≡ before
        → ReadBack os encode fd
            (os.stat_of s.trace (fstat fd)).size
            before
            (read_opened os fuel fd s)
    unfolding read_opened trace_of received errno_reply errno_error errno_of
    opened-ReadBack fuel before s progress room enough_fuel e =
        sys_cases os (ReadBack os encode fd size before) _ _ s
          (λ n.
            sys_cases os (ReadBack os encode fd size before) _ _ (note (fstat fd) (done n) s)
              (λ m.
                aligned-ReadBack (vfs n).bsize fuel size before (progress (after n).trace)
                  (room (after n).trace) enough_fuel (note (fstatvfs fd) (done m) (after n)) e)
              (λ m. refl))
          (λ n. refl)
      where
        size : ℤ
        size = (os.stat_of s.trace (fstat fd)).size

        after : ℕ → Sys
        after n = note (fstat fd) (done n) s

        vfs : ℕ → StatVfs
        vfs n = os.statvfs_of (after n).trace (fstatvfs fd)

    close-ReadBack :
        (size : ℤ) (before : List Bytes) (r : Step Reply × Sys)
        → ReadBack os encode fd size before r
        → ReadBack os encode fd size before (and_then r (λ reply. sys os (close fd) >> pure reply))
    unfolding received
    close-ReadBack size before (ok r, s) w =
        sys_cases os (ReadBack os encode fd size before) (close fd) (λ rv. pure r) s (λ n. w)
          (λ n. w)
    close-ReadBack size before (fail e, s) w = elim w [ ]
    close-ReadBack size before (fault, s) w = elim w [ ]
    close-ReadBack size before (exited, s) w = elim w [ ]
    close-ReadBack size before (hung, s) w = elim w [ ]

-- The variables of `exp_readfile` for well-typed arguments.
readfile_cells :
    (fs : Fields) (s : Sys) (path : Bytes) (direct : ℤ)
    → map_lookup (object fs) (codes "path") ≡ some (string path)
    → map_lookup (object fs) (codes "direct") ≡ some (boolean direct)
    → get_args (some (object fs)) readfile_args s ≡ (ok (g_string path ∷ int direct ∷ []), s)
unfolding get_value
readfile_cells fs s path direct p b = get_args-written fs readfile_args s (rw (p, b)) ∙ rw (p, b)

-- Behind the `open` of a file.
abbrev pub opened : Bytes → ℤ → ℕ → Sys → Sys
opened path direct fd s = note (open_file path (direct_flags 0 direct) none) (done fd) s

-- With well-typed arguments, a file that opens, reads that give at least one byte as long as fewer
-- were read from the descriptor since than the file has, a file that fits an `int` with one block to
-- spare and fuel for each of its bytes, `readfile` returns. With an
-- error it returns no result; else the result is the text that encodes, as a whole, the bytes that
-- the reads gave, one behind the other, and these are at least as many as the file has.
pub exp_readfile_returns :
    (os : Os) (encode : Bytes → Bytes)
    → Incremental os encode
    → (fuel fd : ℕ) (fs : Fields) (s : Sys) (path : Bytes) (direct : ℤ)
    → map_lookup (object fs) (codes "path") ≡ some (string path)
    → map_lookup (object fs) (codes "direct") ≡ some (boolean direct)
    → os.answer s.trace (open_file (c_str path) (direct_flags 0 direct) none) ≡ done fd
    → ((t : Trace)
        → ReadsProgress os fd (os.statvfs_of t (fstatvfs fd)).bsize (
            bytes_of os fd (received os fd s.trace)
            + size_of (os.stat_of (opened (c_str path) direct fd s).trace (fstat fd)).size))
    → ((t t' : Trace)
        → size_of (os.stat_of t (fstat fd)).size + (os.statvfs_of t' (fstatvfs fd)).bsize ≤ 2 ^ 31)
    → ((t : Trace) → size_of (os.stat_of t (fstat fd)).size ≤ fuel)
    → ReadBack os encode fd
        (os.stat_of (opened (c_str path) direct fd s).trace (fstat fd)).size
        (received os fd s.trace)
        (exp_readfile os fuel (some (object fs)) s)
unfolding exp_readfile sys received
exp_readfile_returns os encode spec fuel fd fs s path direct p b e progress room enough_fuel =
    let after : Sys = opened (c_str path) direct fd s in
    rw (readfile_cells fs s path direct p b, e)
      (close-ReadBack os encode spec fd (os.stat_of after.trace (fstat fd)).size
        (received os fd s.trace) (read_opened os fuel fd after)
        (opened-ReadBack os encode spec fd fuel (received os fd s.trace) after progress
          (room after.trace) (enough_fuel after.trace) refl))
