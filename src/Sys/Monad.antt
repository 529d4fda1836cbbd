-- ===== src/Sys/Monad.antt =====
-- Actions: state, and the ways in which a C function of this program can end.
use ioprocess.Base.{ℕ, Bytes, Option, none, some, ◌∷◌, length, take}
use ioprocess.Dom.{Json}
use ioprocess.Sys.Calls.{Call, read, Answer, done, failed, Trace, Os}

-- `GError` by its quark. `no_domain` is the domain 0 that some calls give.
pub data Domain : Type 0 where
  argument_error stdapi_error general_error no_domain : Domain

pub record GError : Type 0 where
  pub domain : Domain
  pub code : ℕ
  pub message : Bytes

-- The trace, and `errno`.
pub record Sys : Type 0 where
  pub trace : Trace
  pub errno : ℕ

-- `fail e` is a return of NULL with the error set. `fault` is a step that C leaves undefined, or
-- that reads a variable which holds a value of another kind. `hung` is a loop that ran out of fuel.
pub data Step (A : Type 0) : Type 0 where
  ok : A → Step A
  fail : GError → Step A
  fault : Step A
  exited : Step A
  hung : Step A

abbrev pub Act : Type 0 → Type 0
Act A = Sys → Step A × Sys

abbrev pub pure : {A : Type 0} → A → Act A
pure a s = (ok a, s)

abbrev pub throw : {A : Type 0} → GError → Act A
throw e s = (fail e, s)

abbrev pub undefined : {A : Type 0} → Act A
undefined s = (fault, s)

abbrev pub hang : {A : Type 0} → Act A
hang s = (hung, s)

abbrev pub and_then : {A B : Type 0} → Step A × Sys → (A → Act B) → Step B × Sys
and_then (ok a, s) f = f a s
and_then (fail e, s) f = (fail e, s)
and_then (fault, s) f = (fault, s)
and_then (exited, s) f = (exited, s)
and_then (hung, s) f = (hung, s)

infixl 5 ◌>>=◌ ◌>>◌
abbrev pub ◌>>=◌ : {A B : Type 0} → Act A → (A → Act B) → Act B
◌>>=◌ m f s = and_then (m s) f

abbrev pub ◌>>◌ : {A B : Type 0} → Act A → Act B → Act B
m >> k = m >>= λ _. k

-- What an exported function returns, and what it leaves in `*err`.
pub record Reply : Type 0 where
  pub result : Option Json
  pub error : Option GError

unfoldable pub errno_of : Act ℕ
errno_of s = (ok s.errno, s)

unfoldable pub trace_of : Act Trace
trace_of s = (ok s.trace, s)

abbrev pub note : Call → Answer → Sys → Sys
note c a s = record s { trace = record { call = c; answer = a } ∷ s.trace }

abbrev pub finish : Call → Answer → Act (Option ℕ)
finish c (done n) s = (ok (some n), note c (done n) s)
finish c (failed e) s = (ok none, record { trace = (note c (failed e) s).trace; errno = e })

abbrev pub finish_quiet : Call → Answer → Act (Option ℕ)
finish_quiet c (done n) s = (ok none, note c (done n) s)
finish_quiet c (failed e) s = (ok (some e), note c (failed e) s)

module _ (os : Os) where
  -- A call that returns -1 or NULL and sets `errno` when it fails: `none` is that case.
  unfoldable pub sys : Call → Act (Option ℕ)
  sys c s = finish c (os.answer s.trace c) s

  -- A call that returns its error number and leaves `errno` alone: `none` is the return of 0.
  unfoldable pub sys_quiet : Call → Act (Option ℕ)
  sys_quiet c s = finish_quiet c (os.answer s.trace c) s

  abbrev pub finish_read : Call → Bytes → Answer → Act (Option Bytes)
  finish_read c bytes (done n) s = (ok (some bytes), note c (done (length bytes)) s)
  finish_read c bytes (failed e) s =
      (ok none, record { trace = (note c (failed e) s).trace; errno = e })

  -- `read`: at most `count` bytes.
  unfoldable pub sys_read : ℕ → ℕ → Act (Option Bytes)
  sys_read fd count s =
      let c = read fd count in
      finish_read c (take count (os.data_of s.trace c)) (os.answer s.trace c) s

  -- `set_error_from_errno`
  unfoldable pub error_from_errno : Domain → ℕ → GError
  error_from_errno domain e = record { domain = domain; code = e; message = os.strerror e }
