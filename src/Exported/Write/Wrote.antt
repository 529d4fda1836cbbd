-- ===== src/Exported/Write/Wrote.antt =====
-- What the loop of `exp_writefile` and the steps around it write.
use ioprocess.Base.{
  ℕ, zero, suc, ◌≤◌, Bytes, Bool, true, false, Option, none, some, [], ◌∷◌, ◌++◌, ◌≡◌, ◌≢◌, refl,
  ◌∙◌, arith, ◌==◌, if◌then◌else◌, take, drop, length, length-drop, take-append-drop, append_assoc,
  append-nil, ap, sym, Bool-cases, inl, inr,
}
use mathlib.Core.Path.{subst}
use ioprocess.Sys.{
  Os, Sys, Step, ok, fail, fault, exited, hung, and_then, sys, sys_quiet, Call, Answer, done,
  failed, Trace, Act, GError, general_error, error_from_errno, errno_of, write, fsync, finish,
  finish_quiet, pure, note, posix_memalign,
}
use ioprocess.Exported.Common.{errno_error, nonzero}
use ioprocess.Exported.Write.{
  write_loop, align_buffer, write_decoded, unless_error, fsync_or_error, safe_align,
}

-- What one event adds to the bytes written to a descriptor.
abbrev pub added : ℕ → Call → Answer → Bytes → Bytes
added fd (write g bytes) (done n) w = if g == fd then w ++ take n bytes else w
added fd c a w = w

-- The bytes that the calls of a trace wrote to a descriptor.
unfoldable pub written_to : ℕ → Trace → Bytes
written_to fd [] = []
written_to fd (e ∷ t) = added fd e.call e.answer (written_to fd t)

written_to-write :
    (fd n : ℕ) (bytes : Bytes) (s : Sys)
    → written_to fd (note (write fd bytes) (done n) s).trace ≡ written_to fd s.trace ++ take n bytes
unfolding written_to
written_to-write fd n bytes s = ground arith

module _ (os : Os) (fd : ℕ) where
  -- A first part of `bytes` stands behind `base` in what was written.
  abbrev pub WrotePart : Bytes → Bytes → Trace → Type 0
  WrotePart base bytes t =
      (sent : Bytes) × (unsent : Bytes) × (sent ++ unsent ≡ bytes)
      × (written_to fd t ≡ base ++ sent)

  -- The end of a run that was to write `bytes` behind `base`.
  abbrev pub Wrote : Bytes → Bytes → Step (Option GError) × Sys → Type 0
  Wrote base bytes (ok none, s) = written_to fd s.trace ≡ base ++ bytes
  Wrote base bytes (ok (some e), s) =
      WrotePart base bytes s.trace × (e ≡ error_from_errno os general_error s.errno)
  Wrote base bytes (fail e, s) = ⊥
  Wrote base bytes (fault, s) = ⊥
  Wrote base bytes (exited, s) = ⊥
  Wrote base bytes (hung, s) = ⊥

  Wrote-append :
      (base xs ys : Bytes) (r : Step (Option GError) × Sys)
      → Wrote (base ++ xs) ys r
      → Wrote base (xs ++ ys) r
  Wrote-append base xs ys (ok none, s) w = w ∙ append_assoc base xs ys
  Wrote-append base xs ys (ok (some e), s) ((sent, unsent, p, q), m) = (
    (
      xs ++ sent,
      unsent,
      append_assoc xs sent unsent ∙ ap (λ t. xs ++ t) p,
      q ∙ append_assoc base xs sent,
    ),
    m,
  )
  Wrote-append base xs ys (fail e, s) w = w
  Wrote-append base xs ys (fault, s) w = w
  Wrote-append base xs ys (exited, s) w = w
  Wrote-append base xs ys (hung, s) w = w

  written_failed :
      (bytes more : Bytes) (e : ℕ) (s : Sys)
      → Wrote
          (written_to fd s.trace)
          more
          (and_then (finish (write fd bytes) (failed e) s) (λ rv. errno_error os general_error))
  unfolding written_to errno_error errno_of
  written_failed bytes more e s = (([], more, refl, sym (append-nil _)), refl)

  -- Every write of one byte or more takes at least one.
  abbrev pub WritesProgress : Type 0
  WritesProgress = (t : Trace) (b : ℕ) (bs : Bytes) → os.answer t (write fd (b ∷ bs)) ≢ done 0

  -- With fuel for every byte the loop ends: it wrote all the bytes or, if a write failed, the first
  -- of them.
  pub write_loop-Wrote :
      WritesProgress
      → (fuel : ℕ) (bytes : Bytes) (s : Sys) → length bytes ≤ fuel
      → Wrote (written_to fd s.trace) bytes (write_loop os fuel fd bytes s)
  unfolding write_loop sys
  write_loop-Wrote progress fuel [] s h = sym (append-nil _)
  write_loop-Wrote progress zero (b ∷ bs) s h = absurd (omega arith)
  write_loop-Wrote progress (suc fuel) (b ∷ bs) s h =
      go (os.answer s.trace (write fd (b ∷ bs))) (progress s.trace b bs)
        (λ n. write_loop-Wrote progress fuel (drop n bs))
    where
      k : Option ℕ → Act (Option GError)
      k rv = elim rv [
        | none ↦ errno_error os general_error
        | some n ↦ write_loop os fuel fd (drop n (b ∷ bs))
      ]

      after : ℕ → Sys
      after n = note (write fd (b ∷ bs)) (done n) s

      go :
          (a : Answer)
          → a ≢ done 0
          → ((n : ℕ) (t : Sys)
              → length (drop n bs) ≤ fuel
              → Wrote (written_to fd t.trace) (drop n bs) (write_loop os fuel fd (drop n bs) t))
          → Wrote (written_to fd s.trace) (b ∷ bs) (and_then (finish (write fd (b ∷ bs)) a s) k)
      go (done zero) ne ih = absurd (ne refl)
      go (done (suc n)) ne ih =
          let r = write_loop os fuel fd (drop n bs) (after (suc n)) in
          let w = ih n (after (suc n)) (omega (arith, length-drop n bs)) in
          subst (λ t. Wrote (written_to fd s.trace) t r) (take-append-drop (suc n) (b ∷ bs))
            (Wrote-append (written_to fd s.trace) (take (suc n) (b ∷ bs)) (drop n bs) r
              (rw written_to-write at w))
      go (failed e) ne ih = written_failed (b ∷ bs) (b ∷ bs) e s

  -- One part after another: an error of the first part ends both.
  Wrote-seq :
      (base xs ys : Bytes) (r : Step (Option GError) × Sys) (next : Act (Option GError))
      → Wrote base xs r
      → ((s : Sys) → Wrote (written_to fd s.trace) ys (next s))
      → Wrote base (xs ++ ys) (and_then r (λ o. unless_error o next))
  Wrote-seq base xs ys (ok none, s) next w n = Wrote-append base xs ys (next s) (rw w at (n s))
  Wrote-seq base xs ys (ok (some e), s) next ((sent, unsent, p, q), m) n =
      ((sent, unsent ++ ys, sym (append_assoc sent unsent ys) ∙ ap (λ t. t ++ ys) p, q), m)
  Wrote-seq base xs ys (fail e, s) next w n = w
  Wrote-seq base xs ys (fault, s) next w n = w
  Wrote-seq base xs ys (exited, s) next w n = w
  Wrote-seq base xs ys (hung, s) next w n = w

  -- A part that writes nothing.
  no_part : (t : Trace) → WrotePart (written_to fd t) [] t
  no_part t = ([], [], refl, sym (append-nil _))

  align_buffer-Wrote :
      (buffered : Bool) (len : ℕ) (s : Sys)
      → Wrote (written_to fd s.trace) [] (align_buffer os buffered len s)
  unfolding align_buffer sys_quiet errno_error errno_of written_to
  align_buffer-Wrote true len s = sym (append-nil _)
  align_buffer-Wrote false len s = go (os.answer s.trace (posix_memalign safe_align len))
    where
      go :
          (a : Answer)
          → Wrote (written_to fd s.trace) [] (
              and_then
                (finish_quiet (posix_memalign safe_align len) a s)
                (λ rv. elim rv [ none ↦ pure none | some e ↦ errno_error os general_error ]))
      go (done n) = sym (append-nil _)
      go (failed e) = (no_part s.trace, refl)

  fsync-Wrote : (s : Sys) → Wrote (written_to fd s.trace) [] (fsync_or_error os fd s)
  unfolding sys errno_error errno_of written_to
  fsync-Wrote s = go (os.answer s.trace (fsync fd))
    where
      go :
          (a : Answer)
          → Wrote (written_to fd s.trace) [] (
              and_then
                (finish (fsync fd) a s)
                (λ rv. if nonzero rv then errno_error os general_error else pure none))
      go (done n) = elim (Bool-cases (n == 0)) [
        | inl e ↦ rw e (sym (append-nil _))
        | inr e ↦ rw e (no_part s.trace, refl)
      ]
      go (failed e) = (no_part s.trace, refl)

  -- So does the whole body behind the opening of the file.
  pub write_decoded-Wrote :
      WritesProgress
      → (fuel : ℕ) (buffered : Bool) (bytes : Bytes) (s : Sys) → length bytes ≤ fuel
      → Wrote (written_to fd s.trace) bytes (write_decoded os fuel fd buffered bytes s)
  unfolding write_decoded
  write_decoded-Wrote progress fuel buffered bytes s h =
      subst (λ t. Wrote (written_to fd s.trace) t (write_decoded os fuel fd buffered bytes s))
        (append-nil bytes)
        (Wrote-seq (written_to fd s.trace) [] (bytes ++ [])
          (align_buffer os buffered (length bytes) s) _
          (align_buffer-Wrote buffered (length bytes) s)
          λ t.
            Wrote-seq (written_to fd t.trace) bytes [] (write_loop os fuel fd bytes t)
              (fsync_or_error os fd) (write_loop-Wrote progress fuel bytes t h) fsync-Wrote)
