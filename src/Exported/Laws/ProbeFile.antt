-- ===== src/Exported/Laws/ProbeFile.antt =====
-- `exp_probe_block_size` closes its probe file.
use ioprocess.Base.{
  ℕ, zero, suc, Bytes, Bool, true, Option, none, some, List, [], ◌∷◌, ◌≡◌, refl, arith, ◌==◌,
}
use ioprocess.Dom.{Json}
use ioprocess.Sys.{
  Os, Sys, Step, ok, fail, fault, exited, hung, and_then, sys, trace_of, errno_of, Act, ◌>>=◌,
  posix_memalign, unlink, pwrite,
}
use ioprocess.Exported.Probe.{
  ProbeFile, Created, created, refused, sizes, pwrite_retry, probe_loop, probe_sizes, create_probe,
  delete_probe, probe_reply, probe_flags, probe_created, exp_probe_block_size,
}
use ioprocess.Exported.Laws.Handles.{
  Handle, held, Balanced, Keeps, Closes, file, bind-Keeps, bind-Closes, then-Closes, pure-Keeps,
  throw-Keeps, errno_of-Keeps, get_args-Keeps, c_text_at-Keeps, sys-Keeps, sys_quiet-Keeps,
  close-Closes, if-Keeps, option-Keeps, hung-Keeps,
}

module _ (os : Os) where
  -- What `create_probe` leaves open: the probe file, if it says that it created one.
  abbrev AfterCreate : List Handle → Step Created × Sys → Type 0
  AfterCreate hs (ok (created p), s) = held s.trace ≡ file p.fd ∷ hs
  AfterCreate hs (ok (refused e), s) = held s.trace ≡ hs
  AfterCreate hs (fail e, s) = ⊥
  AfterCreate hs (fault, s) = Unit
  AfterCreate hs (exited, s) = Unit
  AfterCreate hs (hung, s) = Unit

  create_probe-AfterCreate :
      (dir : Bytes) (flags : ℕ) (hs : List Handle) (s : Sys)
      → held s.trace ≡ hs
      → AfterCreate hs (create_probe os dir flags s)
  unfolding create_probe sys held trace_of errno_of
  create_probe-AfterCreate dir flags hs s e = ground arith

  create-Balanced :
      {A : Type 0} (may : Bool) (hs : List Handle) (r : Step Created × Sys) (k : Created → Act A)
      → AfterCreate hs r
      → ((e : ℕ) → Keeps may (k (refused e)))
      → ((p : ProbeFile) → Closes (file p.fd) may (k (created p)))
      → Balanced may hs (and_then r k)
  create-Balanced may hs (ok (created p), s) k a kr kc = (kc p).closes hs s a
  create-Balanced may hs (ok (refused e), s) k a kr kc = (kr e).keeps hs s a
  create-Balanced may hs (fail e, s) k a kr kc = absurd a
  create-Balanced may hs (fault, s) k a kr kc = tt
  create-Balanced may hs (exited, s) k a kr kc = tt
  create-Balanced may hs (hung, s) k a kr kc = tt

  create-Keeps :
      {A : Type 0} {may : Bool} (dir : Bytes) (flags : ℕ) (k : Created → Act A)
      → ((e : ℕ) → Keeps may (k (refused e)))
      → ((p : ProbeFile) → Closes (file p.fd) may (k (created p)))
      → Keeps may (create_probe os dir flags >>= k)
  create-Keeps {may} dir flags k kr kc = record {
    keeps = λ hs s e.
        create-Balanced may hs (create_probe os dir flags s) k
          (create_probe-AfterCreate dir flags hs s e) kr kc;
  }

  pwrite_retry-Keeps : {may : Bool} (fuel fd size : ℕ) → Keeps may (pwrite_retry os fuel fd size)
  unfolding pwrite_retry
  pwrite_retry-Keeps zero fd size = hung-Keeps
  pwrite_retry-Keeps (suc fuel) fd size = bind-Keeps (sys-Keeps os (pwrite fd _ 0) refl) (
      option-Keeps _
        (bind-Keeps errno_of-Keeps
          λ e. if-Keeps (e == _) (pwrite_retry-Keeps fuel fd size) (pure-Keeps none))
        (λ n. pure-Keeps (some n)))

  probe_loop-Keeps :
      {may : Bool} (fuel fd : ℕ) (sizes : List ℕ) → Keeps may (probe_loop os fuel fd sizes)
  unfolding probe_loop
  probe_loop-Keeps fuel fd [] = pure-Keeps _
  probe_loop-Keeps fuel fd (n ∷ more) = bind-Keeps (pwrite_retry-Keeps fuel fd n) (
      option-Keeps _
        (bind-Keeps errno_of-Keeps
          λ e. if-Keeps (e == _) (probe_loop-Keeps fuel fd more) (pure-Keeps _))
        (λ m. pure-Keeps _))

  probe_sizes-Keeps : {may : Bool} (fuel fd : ℕ) → Keeps may (probe_sizes os fuel fd)
  unfolding probe_sizes
  probe_sizes-Keeps fuel fd =
      bind-Keeps (sys_quiet-Keeps os (posix_memalign 4096 4096) refl)
        (option-Keeps _ (probe_loop-Keeps fuel fd sizes) (λ e. pure-Keeps _))

  delete_probe-Closes : {may : Bool} (p : ProbeFile) → Closes (file p.fd) may (delete_probe os p)
  unfolding delete_probe
  delete_probe-Closes p = close-Closes os p.fd _ λ r. sys-Keeps os (unlink p.path) refl

  refused-Keeps : (fuel e : ℕ) → Keeps true (probe_created os fuel (refused e))
  unfolding probe_created
  refused-Keeps fuel e = throw-Keeps _

  created-Closes :
      (fuel : ℕ) (p : ProbeFile) → Closes (file p.fd) true (probe_created os fuel (created p))
  unfolding probe_created
  created-Closes fuel p =
      bind-Closes (probe_sizes-Keeps fuel p.fd)
        λ found. then-Closes (delete_probe-Closes p) λ r. pure-Keeps (probe_reply found)

  pub exp_probe_block_size-Keeps :
      (fuel : ℕ) (args : Option Json) → Keeps true (exp_probe_block_size os fuel args)
  unfolding exp_probe_block_size
  exp_probe_block_size-Keeps fuel args = bind-Keeps (get_args-Keeps args _) λ cells.
      bind-Keeps (c_text_at-Keeps cells 0) λ dir.
        create-Keeps dir probe_flags (probe_created os fuel) (refused-Keeps fuel)
          (created-Closes fuel)
