-- ===== src/Exported/Probe/Laws.antt =====
-- `exp_probe_block_size` deletes its file.
use ioprocess.Base.{
  ℕ, suc, replicate, Option, none, some, List, [], ◌∷◌, ◌≡◌, ◌≢◌, refl, ap, ◌∙◌, if◌then◌else◌,
  ◌==◌, ==_iff, Bool-cases, inl, inr,
}
use ioprocess.Sys.{
  Call, Os, Sys, Step, ok, fail, fault, exited, hung, Act, and_then, sys, sys_quiet, errno_of, pure,
  ◌>>=◌, Answer, done, failed, Trace, finish, finish_quiet, pwrite, posix_memalign, close, unlink,
  error_from_errno, general_error, Reply,
}
use ioprocess.Args.{einval}
use ioprocess.Exported.Common.{eintr}
use ioprocess.Exported.Probe.{
  ProbeFile, created, Probed, size, error, probe_reply, delete_probe, pwrite_retry, probe_loop,
  probe_sizes, sizes, probe_created,
}

-- An action that returns a value.
abbrev Returns : {A : Type 0} → Step A × Sys → Type 0
Returns {A = A} r = (a : A) × (r.0 ≡ ok a)

module _ (os : Os) where
  -- A write to the probe file is never interrupted by a signal.
  abbrev pub NoInterrupt : Type 0
  NoInterrupt = (t : Trace) (fd n : ℕ) → os.answer t (pwrite fd (replicate n 0) 0) ≢ failed eintr

  pwrite-Returns :
      NoInterrupt → (fuel fd n : ℕ) (s : Sys) → Returns (pwrite_retry os (suc fuel) fd n s)
  unfolding pwrite_retry sys errno_of
  pwrite-Returns calm fuel fd n s =
      by_answer (os.answer s.trace (pwrite fd (replicate n 0) 0)) (calm s.trace fd n)
    where
      by_answer :
          (a : Answer)
          → a ≢ failed eintr
          → Returns (
              and_then (finish (pwrite fd (replicate n 0) 0) a s) (λ rv. elim rv [
                | some k ↦ pure (some k)
                | none ↦ errno_of >>= λ e.
                    let again = pwrite_retry os fuel fd n in if e == eintr then again else pure none
              ]))
      by_answer (done k) c = (some k, refl)
      by_answer (failed e) c = elim (Bool-cases (e == eintr)) [
        | inl q ↦ absurd (c (ap failed ((==_iff e eintr).0 q)))
        | inr q ↦ rw q (none, refl)
      ]

  and_then-Returns :
      {A B : Type 0} (r : Step A × Sys) (k : A → Act B)
      → Returns r
      → ((a : A) (s : Sys) → Returns (k a s))
      → Returns (and_then r k)
  and_then-Returns (ok a, s) k h f = f a s
  and_then-Returns (fail e, s) k (a, h) f = cc
  and_then-Returns (fault, s) k (a, h) f = cc
  and_then-Returns (exited, s) k (a, h) f = cc
  and_then-Returns (hung, s) k (a, h) f = cc

  abbrev after_write : ℕ → ℕ → ℕ → List ℕ → Option ℕ → Act Probed
  after_write fuel fd n ns rv = elim rv [
    | some k ↦ pure (size n)
    | none ↦ errno_of >>= λ e.
        let next = probe_loop os (suc fuel) fd ns in
        if e == einval then next else pure (error (error_from_errno os general_error e))
  ]

  probe_loop-Returns :
      NoInterrupt
      → (fuel fd : ℕ) (ns : List ℕ) (s : Sys) → Returns (probe_loop os (suc fuel) fd ns s)
  unfolding probe_loop errno_of
  probe_loop-Returns calm fuel fd [] s = (_, refl)
  probe_loop-Returns calm fuel fd (n ∷ ns) s =
      and_then-Returns (pwrite_retry os (suc fuel) fd n s) (after_write fuel fd n ns)
        (pwrite-Returns calm fuel fd n s)
        (λ rv t. by_result rv t (probe_loop-Returns calm fuel fd ns t))
    where
      by_result :
          (rv : Option ℕ) (t : Sys)
          → Returns (probe_loop os (suc fuel) fd ns t)
          → Returns (after_write fuel fd n ns rv t)
      by_result (some k) t r = (size n, refl)
      by_result none t r = elim (Bool-cases (t.errno == einval)) [
        | inl q ↦ rw q r
        | inr q ↦ rw q (_, refl)
      ]

  probe_sizes-Returns :
      NoInterrupt → (fuel fd : ℕ) (s : Sys) → Returns (probe_sizes os (suc fuel) fd s)
  unfolding probe_sizes sys_quiet
  probe_sizes-Returns calm fuel fd s = by_answer (os.answer s.trace (posix_memalign 4096 4096))
    where
      by_answer :
          (a : Answer)
          → Returns (
              and_then (finish_quiet (posix_memalign 4096 4096) a s) (λ rv. elim rv [
                | some e ↦ pure (error (error_from_errno os general_error e))
                | none ↦ probe_loop os (suc fuel) fd sizes
              ]))
      by_answer (done k) = probe_loop-Returns calm fuel fd sizes _
      by_answer (failed e) = (_, refl)

-- The two calls that end the run of the probe.
abbrev pub Deleted : Os → ProbeFile → Trace → Trace → Type 0
Deleted os file before after =
    (a : Answer) × (b : Answer) × (after
      ≡ record { call = unlink file.path; answer = a }
        ∷ (record { call = close file.fd; answer = b } ∷ before))

sys_event :
    (os : Os) (c : Call) (s : Sys)
    → (rv : Option ℕ) × (t : Sys) × (sys os c s ≡ (ok rv, t))
      × (t.trace ≡ record { call = c; answer = os.answer s.trace c } ∷ s.trace)
unfolding sys
sys_event os c s = by_answer (os.answer s.trace c)
  where
    by_answer :
        (a : Answer)
        → (rv : Option ℕ) × (t : Sys) × (finish c a s ≡ (ok rv, t))
          × (t.trace ≡ record { call = c; answer = a } ∷ s.trace)
    by_answer (done n) = (_, _, refl, refl)
    by_answer (failed e) = (_, _, refl, refl)

delete_probe-Deleted :
    (os : Os) (file : ProbeFile) (r : Reply) (s : Sys)
    → (let whole = (delete_probe os file >>= λ rv. pure r) s in
        (whole.0 ≡ ok r) × Deleted os file s.trace whole.1.trace)
unfolding delete_probe
delete_probe-Deleted os file r s =
    let (rv, t, e, f) = sys_event os (close file.fd) s in
    let (rv', t', e', f') = sys_event os (unlink file.path) t in
    rw (e, e')
      (
        refl,
        (
          os.answer t.trace (unlink file.path),
          os.answer s.trace (close file.fd),
          f'
              ∙ ap
                  (λ z.
                    record {
                      call = unlink file.path;
                      answer = os.answer t.trace (unlink file.path);
                    }
                    ∷ z)
                  f,
        ),
      )

probed-Deleted :
    (os : Os) (file : ProbeFile) (r : Step Probed × Sys)
    → Returns r
    → (let whole = and_then r (λ found. delete_probe os file >>= λ rv. pure (probe_reply found)) in
        (found : Probed) × (whole.0 ≡ ok (probe_reply found))
        × Deleted os file r.1.trace whole.1.trace)
probed-Deleted os file (ok found, s) h =
    let (e, deleted) = delete_probe-Deleted os file (probe_reply found) s in (found, e, deleted)
probed-Deleted os file (fail e, s) (a, h) = cc
probed-Deleted os file (fault, s) (a, h) = cc
probed-Deleted os file (exited, s) (a, h) = cc
probed-Deleted os file (hung, s) (a, h) = cc

-- Unless a signal interrupts its writes, the probing of a file that was created returns, with a
-- block size or with an error, and however it ends its last two calls close and delete that file.
pub probe_created-Deleted :
    (os : Os) (fuel : ℕ) (file : ProbeFile) (s : Sys)
    → NoInterrupt os
    → (found : Probed) × ((probe_created os (suc fuel) (created file) s).0 ≡ ok (probe_reply found))
      × Deleted os file
          (probe_sizes os (suc fuel) file.fd s).1.trace
          (probe_created os (suc fuel) (created file) s).1.trace
unfolding probe_created
probe_created-Deleted os fuel file s calm =
    probed-Deleted os file (probe_sizes os (suc fuel) file.fd s)
      (probe_sizes-Returns os calm fuel file.fd s)
