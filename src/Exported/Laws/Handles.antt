-- ===== src/Exported/Laws/Handles.antt =====
-- Which file descriptors, directory streams and streams of `fopen` a trace leaves open.
use ioprocess.Base.{
  ℕ, Bytes, Bool, true, false, Option, none, some, List, [], ◌∷◌, ◌==◌, if◌then◌else◌, ◌≡◌, refl,
  arith,
}
use ioprocess.Dom.{Json}
use ioprocess.Sys.{
  Os, Sys, sys, sys_quiet, sys_read, Call, Answer, done, failed, Trace, Step, ok, fail, fault,
  exited, hung, hang, Act, pure, and_then, ◌>>=◌, open_file, opendir, close, closedir, open_statm,
  close_statm, GError, throw, undefined, errno_of, trace_of, finish,
}
use ioprocess.Args.{Cell, Wanted, get_args, text_at, c_text_at, long_at, int_at}

pub data Handle : Type 0 where
  file : ℕ → Handle
  stream : ℕ → Handle
  -- the stream of /proc/self/statm
  statm : Handle

abbrev pub same : Handle → Handle → Bool
same (file a) (file b) = a == b
same (stream a) (stream b) = a == b
same statm statm = true
same g h = false

-- The last opened handle of a number goes.
abbrev pub release : Handle → List Handle → List Handle
release h [] = []
release h (g ∷ gs) = if same h g then gs else g ∷ release h gs

-- What one event does to the open handles.
abbrev pub effect : Call → Answer → List Handle → List Handle
effect (open_file path flags mode) (done fd) hs = file fd ∷ hs
effect (opendir path) (done dp) hs = stream dp ∷ hs
effect (close fd) a hs = release (file fd) hs
effect (closedir dp) a hs = release (stream dp) hs
effect open_statm (done n) hs = statm ∷ hs
effect close_statm a hs = release statm hs
effect c a hs = hs

unfoldable pub held : Trace → List Handle
held [] = []
held (e ∷ t) = effect e.call e.answer (held t)

-- Whether an action may end with `fail`, and then what is open.
abbrev pub AfterFail : Bool → List Handle → Trace → Type 0
AfterFail true hs t = held t ≡ hs
AfterFail false hs t = ⊥

-- An action that returns leaves open what was open before.
abbrev pub Balanced : {A : Type 0} → Bool → List Handle → Step A × Sys → Type 0
Balanced may hs (ok a, s) = held s.trace ≡ hs
Balanced may hs (fail e, s) = AfterFail may hs s.trace
Balanced may hs (fault, s) = Unit
Balanced may hs (exited, s) = Unit
Balanced may hs (hung, s) = Unit

pub record Keeps {A : Type 0} (may : Bool) (m : Act A) : Type 0 where
  pub keeps : (hs : List Handle) (s : Sys) → held s.trace ≡ hs → Balanced may hs (m s)

-- The same for the part of an action behind the opening of a handle, which it closes.
pub record Closes {A : Type 0} (h : Handle) (may : Bool) (m : Act A) : Type 0 where
  pub closes : (hs : List Handle) (s : Sys) → held s.trace ≡ h ∷ hs → Balanced may hs (m s)

abbrev pub is_neutral : Call → Bool
is_neutral (open_file path flags mode) = false
is_neutral (opendir path) = false
is_neutral (close fd) = false
is_neutral (closedir dp) = false
is_neutral open_statm = false
is_neutral close_statm = false
is_neutral c = true

and_then-Balanced :
    {A B : Type 0} (may : Bool) (hs : List Handle) (r : Step A × Sys) (k : A → Act B)
    → Balanced may hs r
    → ((a : A) → Keeps may (k a))
    → Balanced may hs (and_then r k)
and_then-Balanced may hs (ok a, s) k b kk = (kk a).keeps hs s b
and_then-Balanced may hs (fail e, s) k b kk = b
and_then-Balanced may hs (fault, s) k b kk = tt
and_then-Balanced may hs (exited, s) k b kk = tt
and_then-Balanced may hs (hung, s) k b kk = tt

and_then-Closes :
    {A B : Type 0} (h : Handle) (may : Bool) (hs : List Handle) (r : Step A × Sys) (k : A → Act B)
    → Balanced false (h ∷ hs) r
    → ((a : A) → Closes h may (k a))
    → Balanced may hs (and_then r k)
and_then-Closes h may hs (ok a, s) k b kk = (kk a).closes hs s b
and_then-Closes h may hs (fail e, s) k b kk = absurd b
and_then-Closes h may hs (fault, s) k b kk = tt
and_then-Closes h may hs (exited, s) k b kk = tt
and_then-Closes h may hs (hung, s) k b kk = tt

module _ {A B : Type 0} {may : Bool} {m : Act A} {k : A → Act B} where
  pub bind-Keeps : Keeps may m → ((a : A) → Keeps may (k a)) → Keeps may (m >>= k)
  bind-Keeps h kk = record {
    keeps = λ hs s e. and_then-Balanced may hs (m s) k (h.keeps hs s e) kk;
  }

module _ {A B : Type 0} {h : Handle} {may : Bool} {m : Act A} {k : A → Act B} where
  pub bind-Closes : Keeps false m → ((a : A) → Closes h may (k a)) → Closes h may (m >>= k)
  bind-Closes p kk = record {
    closes = λ hs s e. and_then-Closes h may hs (m s) k (p.keeps (h ∷ hs) s e) kk;
  }

  pub then-Closes : Closes h may m → ((a : A) → Keeps may (k a)) → Closes h may (m >>= k)
  then-Closes p kk = record {
    closes = λ hs s e. and_then-Balanced may hs (m s) k (p.closes hs s e) kk;
  }

module _ {A : Type 0} where
  pub pure-Keeps : {may : Bool} (a : A) → Keeps may (pure a)
  pure-Keeps a = record { keeps = λ hs s e. e }

  pub throw-Keeps : (e : GError) → Keeps {A = A} true (throw e)
  throw-Keeps g = record { keeps = λ hs s e. e }

  pub undefined-Keeps : {may : Bool} → Keeps {A = A} may undefined
  undefined-Keeps = record { keeps = λ hs s e. tt }

  -- An action that ran out of fuel does not return.
  pub hung-Keeps : {may : Bool} → Keeps {A = A} may hang
  hung-Keeps = record { keeps = λ hs s e. tt }

pub errno_of-Keeps : {may : Bool} → Keeps may errno_of
unfolding errno_of
errno_of-Keeps = record { keeps = λ hs s e. e }

pub trace_of-Keeps : {may : Bool} → Keeps may trace_of
unfolding trace_of
trace_of-Keeps = record { keeps = λ hs s e. e }

pub get_args-Keeps : (args : Option Json) (ws : List Wanted) → Keeps true (get_args args ws)
unfolding get_args
get_args-Keeps args ws = record { keeps = λ hs s e. ground arith }

pub text_at-Keeps : {may : Bool} (cells : List Cell) (i : ℕ) → Keeps may (text_at cells i)
unfolding text_at
text_at-Keeps cells i = record { keeps = λ hs s e. ground arith }

pub c_text_at-Keeps : {may : Bool} (cells : List Cell) (i : ℕ) → Keeps may (c_text_at cells i)
unfolding c_text_at
c_text_at-Keeps cells i = record { keeps = λ hs s e. ground arith }

pub long_at-Keeps : {may : Bool} (cells : List Cell) (i : ℕ) → Keeps may (long_at cells i)
unfolding long_at
long_at-Keeps cells i = record { keeps = λ hs s e. ground arith }

pub int_at-Keeps : {may : Bool} (cells : List Cell) (i : ℕ) → Keeps may (int_at cells i)
unfolding int_at
int_at-Keeps cells i = record { keeps = λ hs s e. ground arith }

module _ (os : Os) where
  -- A call that neither opens nor closes.
  pub sys-Keeps : {may : Bool} (c : Call) → is_neutral c ≡ true → Keeps may (sys os c)
  unfolding sys held
  sys-Keeps (open_file path flags mode) n = cc
  sys-Keeps c n = record { keeps = λ hs s e. ground arith }

  pub sys_quiet-Keeps : {may : Bool} (c : Call) → is_neutral c ≡ true → Keeps may (sys_quiet os c)
  unfolding sys_quiet held
  sys_quiet-Keeps (open_file path flags mode) n = cc
  sys_quiet-Keeps c n = record { keeps = λ hs s e. ground arith }

  pub sys_read-Keeps : {may : Bool} (fd count : ℕ) → Keeps may (sys_read os fd count)
  unfolding sys_read held
  sys_read-Keeps fd count = record { keeps = λ hs s e. ground arith }

  pub close-Closes :
      {B : Type 0} {may : Bool} (fd : ℕ) (k : Option ℕ → Act B)
      → ((rv : Option ℕ) → Keeps may (k rv))
      → Closes (file fd) may (sys os (close fd) >>= k)
  unfolding sys held
  close-Closes fd k kk = record {
    closes = λ hs s e. and_then-Balanced _ hs (sys os (close fd) s) k (ground arith) kk;
  }

  pub closedir-Closes :
      {B : Type 0} {may : Bool} (dp : ℕ) (k : Option ℕ → Act B)
      → ((rv : Option ℕ) → Keeps may (k rv))
      → Closes (stream dp) may (sys os (closedir dp) >>= k)
  unfolding sys held
  closedir-Closes dp k kk = record {
    closes = λ hs s e. and_then-Balanced _ hs (sys os (closedir dp) s) k (ground arith) kk;
  }

  pub close_statm-Closes :
      {B : Type 0} {may : Bool} (k : Option ℕ → Act B)
      → ((rv : Option ℕ) → Keeps may (k rv))
      → Closes statm may (sys os close_statm >>= k)
  unfolding sys held
  close_statm-Closes k kk = record {
    closes = λ hs s e. and_then-Balanced _ hs (sys os close_statm s) k (ground arith) kk;
  }

  module _ {B : Type 0} {may : Bool} (k : Option ℕ → Act B) (absent : Keeps may (k none)) where
    open_answer :
        (c : Call) (h : ℕ → Handle)
        → ((n : ℕ) (hs : List Handle) → effect c (done n) hs ≡ h n ∷ hs)
        → ((n : ℕ) (hs : List Handle) → effect c (failed n) hs ≡ hs)
        → ((fd : ℕ) → Closes (h fd) may (k (some fd)))
        → (a : Answer) (hs : List Handle) (s : Sys) → held s.trace ≡ hs
        → Balanced may hs (and_then (finish c a s) k)
    unfolding held
    open_answer c h opens fails present (done n) hs s e =
        (present n).closes hs _ (rw (← e) (opens n (held s.trace)))
    open_answer c h opens fails present (failed n) hs s e =
        absent.keeps hs _ (rw (← e) (fails n (held s.trace)))

    -- What is opened is closed by the part that gets it.
    pub open-Keeps :
        (path : Bytes) (flags : ℕ) (mode : Option ℕ)
        → ((fd : ℕ) → Closes (file fd) may (k (some fd)))
        → Keeps may (sys os (open_file path flags mode) >>= k)
    unfolding sys
    open-Keeps path flags mode present = record {
      keeps = λ hs s e.
          open_answer (open_file path flags mode) file (λ n gs. refl) (λ n gs. refl) present _ hs s
            e;
    }

    pub opendir-Keeps :
        (path : Bytes)
        → ((dp : ℕ) → Closes (stream dp) may (k (some dp)))
        → Keeps may (sys os (opendir path) >>= k)
    unfolding sys
    opendir-Keeps path present = record {
      keeps = λ hs s e.
          open_answer (opendir path) stream (λ n gs. refl) (λ n gs. refl) present _ hs s e;
    }

    pub open_statm-Keeps :
        ((n : ℕ) → Closes statm may (k (some n))) → Keeps may (sys os open_statm >>= k)
    unfolding sys
    open_statm-Keeps present = record {
      keeps = λ hs s e.
          open_answer open_statm (λ n. statm) (λ n gs. refl) (λ n gs. refl) present _ hs s e;
    }

-- A split on what an action goes on with.
module _ {A : Type 0} {may : Bool} where
  pub if-Keeps :
      (b : Bool) {m n : Act A} → Keeps may m → Keeps may n → Keeps may (if b then m else n)
  if-Keeps true p q = p
  if-Keeps false p q = q

  pub option-Keeps :
      {B : Type 0} (k : Option B → Act A)
      → Keeps may (k none)
      → ((b : B) → Keeps may (k (some b)))
      → (o : Option B) → Keeps may (k o)
  option-Keeps k p q none = p
  option-Keeps k p q (some b) = q b

pub ruleset getters = (
  bind-Keeps, pure-Keeps, get_args-Keeps, text_at-Keeps, c_text_at-Keeps, long_at-Keeps,
  int_at-Keeps,
)
