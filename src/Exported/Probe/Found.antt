-- ===== src/Exported/Probe/Found.antt =====
-- Which block size the probe finds.
use ioprocess.Base.{
  ℕ, suc, replicate, false, Option, none, some, List, [], ◌∷◌, ◌++◌, ◌≡◌, ◌≢◌, refl, ap, ◌∙◌,
  if◌then◌else◌, ◌==◌, ==_iff, Bool-cases, inl, inr, ◌⊎◌, arith,
}
use ioprocess.Sys.{
  Os, Sys, Step, ok, fail, fault, exited, hung, Act, and_then, sys, errno_of, pure, ◌>>=◌, Answer,
  done, failed, Trace, finish, pwrite, posix_memalign, sys_quiet, error_from_errno, general_error,
  note,
}
use ioprocess.Args.{einval}
use ioprocess.Exported.Common.{eintr}
use ioprocess.Exported.Probe.{Probed, size, error, pwrite_retry, probe_loop, probe_sizes, sizes}

module _ (os : Os) (fd : ℕ) (verdict : ℕ → Answer) where
  -- What a write of a block of some size to the file answers does not change while it is probed, and
  -- is no interruption by a signal.
  abbrev pub Steady : Type 0
  Steady =
      (n : ℕ)
      → (verdict n ≢ failed eintr)
        × ((t : Trace) → os.answer t (pwrite fd (replicate n 0) 0) ≡ verdict n)

  abbrev pub AllRefused : List ℕ → Type 0
  AllRefused [] = Unit
  AllRefused (n ∷ ns) = (verdict n ≡ failed einval) × AllRefused ns

  -- The first of some sizes that the file takes, or the first other answer than EINVAL.
  abbrev pub Found : List ℕ → Probed → Type 0
  Found ns (size n) =
      (smaller : List ℕ) × (larger : List ℕ) × (ns ≡ smaller ++ (n ∷ larger))
      × AllRefused smaller
      × ((k : ℕ) × (verdict n ≡ done k))
  Found ns (error e) =
      (AllRefused ns × (e ≡ error_from_errno os general_error einval))
      ⊎ ((smaller : List ℕ) × (n : ℕ) × (larger : List ℕ) × (ns ≡ smaller ++ (n ∷ larger))
          × AllRefused smaller
          × ((code : ℕ) × (verdict n ≡ failed code)
              × (code ≢ einval)
              × (e ≡ error_from_errno os general_error code)))

  abbrev pub Finds : List ℕ → Step Probed × Sys → Type 0
  Finds ns (ok r, s) = Found ns r
  Finds ns (fail e, s) = ⊥
  Finds ns (fault, s) = ⊥
  Finds ns (exited, s) = ⊥
  Finds ns (hung, s) = ⊥

  Found-later :
      (n : ℕ) (ns : List ℕ) (r : Probed) → verdict n ≡ failed einval → Found ns r → Found (n ∷ ns) r
  Found-later n ns (size m) v (smaller, larger, e, a, d) =
      (n ∷ smaller, larger, ap (λ z. n ∷ z) e, (v, a), d)
  Found-later n ns (error e) v (inl (a, f)) = inl ((v, a), f)
  Found-later n ns (error e) v (inr (smaller, m, larger, q, a, d)) =
      inr (n ∷ smaller, m, larger, ap (λ z. n ∷ z) q, (v, a), d)

  Finds-later :
      (n : ℕ) (ns : List ℕ) (r : Step Probed × Sys)
      → verdict n ≡ failed einval
      → Finds ns r
      → Finds (n ∷ ns) r
  Finds-later n ns (ok r, s) v w = Found-later n ns r v w
  Finds-later n ns (fail e, s) v w = w
  Finds-later n ns (fault, s) v w = w
  Finds-later n ns (exited, s) v w = w
  Finds-later n ns (hung, s) v w = w

  abbrev after_write : ℕ → ℕ → List ℕ → Option ℕ → Act Probed
  after_write fuel n ns rv = elim rv [
    | some k ↦ pure (size n)
    | none ↦ errno_of >>= λ e.
        let next = probe_loop os (suc fuel) fd ns in
        if e == einval then next else pure (error (error_from_errno os general_error e))
  ]

  abbrev write_then : ℕ → ℕ → Option ℕ → Act (Option ℕ)
  write_then fuel n rv = elim rv [
    | some k ↦ pure (some k)
    | none ↦ errno_of >>= λ e.
        let again = pwrite_retry os fuel fd n in if e == eintr then again else pure none
  ]

  one_size :
      (fuel n : ℕ) (ns : List ℕ) (s : Sys) (a : Answer)
      → verdict n ≡ a
      → a ≢ failed eintr
      → ((t : Sys) → Finds ns (probe_loop os (suc fuel) fd ns t))
      → Finds (n ∷ ns) (
          and_then
            (and_then (finish (pwrite fd (replicate n 0) 0) a s) (write_then fuel n))
            (after_write fuel n ns))
  unfolding errno_of
  one_size fuel n ns s (done k) v c later = ([], ns, refl, tt, (k, v))
  one_size fuel n ns s (failed e) v c later = elim (Bool-cases (e == eintr)) [
    | inl q ↦ absurd (c (ap failed ((==_iff e eintr).0 q)))
    | inr q ↦ elim (Bool-cases (e == einval)) [
      | inl i ↦ rw (q, i) (Finds-later n ns _ (v ∙ ap failed ((==_iff e einval).0 i)) (later _))
      | inr i ↦ rw (q, i) (inr ([], n, ns, refl, tt, (e, v, (λ z. other e i z), refl)))
    ]
  ]
    where
      other : (e : ℕ) → (e == einval) ≡ false → e ≡ einval → ⊥
      other e i z = ground arith

  probe_loop-Finds :
      Steady → (fuel : ℕ) (ns : List ℕ) (s : Sys) → Finds ns (probe_loop os (suc fuel) fd ns s)
  unfolding probe_loop pwrite_retry sys
  probe_loop-Finds steady fuel [] s = inl (tt, refl)
  probe_loop-Finds steady fuel (n ∷ ns) s =
      let (calm, same) = steady n in
      rw (same s.trace)
        (one_size fuel n ns s (verdict n) refl calm (λ t. probe_loop-Finds steady fuel ns t))

  -- When the buffer can be had, while the file answers each size in one way and no signal interrupts,
  -- the probe returns: with the first of the sizes that the file takes, where it refused all sizes
  -- before with EINVAL, or with the error of the first other refusal, or with EINVAL when the file
  -- refuses all sizes so.
  pub probe_sizes-Finds :
      Steady
      → (fuel k : ℕ) (s : Sys) → os.answer s.trace (posix_memalign 4096 4096) ≡ done k
      → Finds sizes (probe_sizes os (suc fuel) fd s)
  unfolding probe_sizes sys_quiet
  probe_sizes-Finds steady fuel k s e =
      rw e (probe_loop-Finds steady fuel sizes (note (posix_memalign 4096 4096) (done k) s))
