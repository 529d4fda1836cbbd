-- ===== src/Sys/Cases.antt =====
-- The two cases of a call of the system.
use ioprocess.Base.{ℕ, Option, none, some}
use ioprocess.Sys.{
  Os, Sys, Step, and_then, finish, finish_quiet, Answer, sys, sys_quiet, done, failed, Call, Act,
  ◌>>=◌, note,
}

module _ (os : Os) where
  pub sys_cases :
      {B : Type 0} (P : Step B × Sys → Type 0) (c : Call) (k : Option ℕ → Act B) (s : Sys)
      → ((n : ℕ) → P (k (some n) (note c (done n) s)))
      → ((e : ℕ) → P (k none (record { trace = (note c (failed e) s).trace; errno = e })))
      → P ((sys os c >>= k) s)
  unfolding sys
  sys_cases {B} P c k s f g = by_answer (os.answer s.trace c)
    where
      by_answer : (a : Answer) → P (and_then (finish c a s) k)
      by_answer (done n) = f n
      by_answer (failed e) = g e

  pub sys_quiet_cases :
      {B : Type 0} (P : Step B × Sys → Type 0) (c : Call) (k : Option ℕ → Act B) (s : Sys)
      → ((n : ℕ) → P (k none (note c (done n) s)))
      → ((e : ℕ) → P (k (some e) (note c (failed e) s)))
      → P ((sys_quiet os c >>= k) s)
  unfolding sys_quiet
  sys_quiet_cases {B} P c k s f g = by_answer (os.answer s.trace c)
    where
      by_answer : (a : Answer) → P (and_then (finish_quiet c a s) k)
      by_answer (done n) = f n
      by_answer (failed e) = g e
