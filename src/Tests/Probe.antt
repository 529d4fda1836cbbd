-- ===== src/Tests/Probe.antt =====
-- A probe of the small system.
use ioprocess.Base.{
  ℕ, zero, suc, ◌≡◌, ◌≢◌, refl, sym, ap, ◌∙◌, codes, length, replicate, if◌then◌else◌, ◌==◌,
  Bool-cases, inl, inr, arith,
}
use ioprocess.Args.{einval}
use ioprocess.Exported.Common.{eintr}
use ioprocess.Exported.Probe.Found.{Steady, Finds, probe_sizes-Finds}
use ioprocess.Sys.{Os, Answer, done, failed, pwrite, ok}
use ioprocess.Exported.Probe.{
  ProbeFile, Probed, created, probe_created, probe_reply, probe_sizes, sizes,
}
use ioprocess.Exported.Probe.Laws.{NoInterrupt, Deleted, probe_created-Deleted}
use ioprocess.Tests.System.{small, start}

abbrev probe_file : ProbeFile
probe_file = record { fd = 7; path = codes "/a/.prob-1" }

small-NoInterrupt : NoInterrupt small
small-NoInterrupt t fd n e = cc

probe_created-Deleted_example :
    (found : Probed) × ((probe_created small 1 (created probe_file) start).0
      ≡ ok (probe_reply found))
    × Deleted small probe_file
        (probe_sizes small 1 7 start).1.trace
        (probe_created small 1 (created probe_file) start).1.trace
probe_created-Deleted_example = probe_created-Deleted small 0 probe_file start small-NoInterrupt

-- A file that takes blocks of 4096 bytes.
abbrev verdict : ℕ → Answer
verdict n = if n == 4096 then done n else failed einval

abbrev large_blocks : Os
large_blocks = record small {
  answer = λ t c. elim c [ pwrite fd bytes n ↦ verdict (length bytes) | _ ↦ done 0 ];
}

abbrev code_of : Answer → ℕ
code_of (done n) = 0
code_of (failed e) = e

length-replicate : (n : ℕ) → length {A = ℕ} (replicate n 0) ≡ n
length-replicate zero = omega arith
length-replicate (suc n) = omega (arith, length-replicate n)

verdict-einval : (n : ℕ) → verdict n ≢ failed eintr
verdict-einval n e = elim (Bool-cases (n == 4096)) [
  | inl q ↦ let taken : verdict n ≡ done n = rw q refl in absurd (done_failed (sym taken ∙ e))
  | inr q ↦
      let refused : verdict n ≡ failed einval = rw q refl in absurd (einval_eintr (sym refused ∙ e))
]
  where
    done_failed : {a b : ℕ} → done a ≡ failed b → ⊥
    done_failed p = cc

    einval_eintr : failed einval ≡ failed eintr → ⊥
    einval_eintr p = let codes_equal : einval ≡ eintr = ap code_of p in omega arith

large_blocks-Steady : Steady large_blocks 7 verdict
large_blocks-Steady n = (verdict-einval n, λ t. ap verdict (length-replicate n))

probe_sizes-Finds_example : Finds large_blocks 7 verdict sizes (probe_sizes large_blocks 1 7 start)
probe_sizes-Finds_example =
    probe_sizes-Finds large_blocks 7 verdict large_blocks-Steady 0 0 start refl
