-- ===== src/Startup/Served.antt =====
-- `main` returns 0 only when all was made and joined.
use ioprocess.Base.{
  ℕ, suc, zero, ℤ, pos, negsuc, Bytes, codes, Bool, true, false, Option, none, some, List, [], ◌∷◌,
  ◌++◌, ◌≡◌, refl, sym, ap, Bool-cases, inl, inr, ◌==◌, if◌then◌else◌,
}
use mathlib.Core.Path.{subst}
use ioprocess.Sys.{
  Os, Sys, Step, ok, fail, fault, exited, hung, Act, and_then, pure, ◌>>=◌, sys, open_file,
  fdopendir, close, closedir, errno_of, trace_of, note, done,
}
use ioprocess.Sys.Cases.{sys_cases}
use ioprocess.Startup.Options.{Options, parse_cmd_line}
use ioprocess.Startup.Descriptors.{
  close_unrelated_fds, close_entries, close_entry, unrelated, ebadf,
}
use ioprocess.Startup.Threads.{
  Thread, request_reader, response_writer, request_handler, log_writer, Deed, created, joined,
  closed, returned, blocked, Run, World, first_do, join,
}
use ioprocess.Startup.Main.{
  stderr_fileno, descriptor, whitelist, stop_logging, and_stop, serve, start, main,
}
use ioprocess.Startup.Joins.{whole_session, Runs, workers, Session, communicate-Session}

-- What `main` can do, by its ending. With 0 the command line was good, the four threads could be
-- made, and each was joined: that of the log last, behind the close of the stream that it writes.
abbrev pub Served : World → Option Options → Run → Type 0
Served world none run = run ≡ ([], returned (negsuc 0))
Served world (some o) (ds, returned (pos ℕ.zero)) =
    (ds ≡ whole_session o)
    × (parse_cmd_line (some o) ≡ true)
    × Runs world (request_reader ∷ response_writer ∷ request_handler ∷ log_writer ∷ [])
Served world (some o) (ds, returned e) = Unit
Served world (some o) (ds, blocked t) = (world.ends t ≡ false) × (world.starts t ≡ true)

abbrev pub Returns : {A : Type 0} → (A → Type 0) → Step A × Sys → Type 0
Returns P (ok a, s) = P a
Returns P (fail e, s) = ⊥
Returns P (fault, s) = ⊥
Returns P (exited, s) = ⊥
Returns P (hung, s) = ⊥

bind-Returns :
    {A B : Type 0} (P : A → Type 0) (Q : B → Type 0) (r : Step A × Sys) (k : A → Act B)
    → Returns P r
    → ((a : A) (s : Sys) → P a → Returns Q (k a s))
    → Returns Q (and_then r k)
bind-Returns P Q (ok a, s) k w f = f a s w
bind-Returns P Q (fail e, s) k w f = w
bind-Returns P Q (fault, s) k w f = w
bind-Returns P Q (exited, s) k w f = w
bind-Returns P Q (hung, s) k w f = w

abbrev Anything : Option ℕ → Type 0
Anything e = Unit

module _ (os : Os) (scan_fd : Bytes → Option ℕ) (spared : List ℕ) where
  unless_ebadf :
      (e : ℕ) (s : Sys) → Returns Anything ((if e == ebadf then pure none else pure (some e)) s)
  unless_ebadf e s = elim (Bool-cases (e == ebadf)) [ inl t ↦ rw t tt | inr t ↦ rw t tt ]

  close-Returns :
      (fd : Option ℕ) (s : Sys)
      → Returns Anything (
          (elim fd as (λ z. Act (Option ℕ)) [
            | none ↦ pure none
            | some fd ↦ sys os (close fd) >>= λ rv. elim rv [
              | some _ ↦ pure none
              | none ↦ errno_of >>= λ e. if e == ebadf then pure none else pure (some e)
            ]
          ])
            s)
  unfolding errno_of
  close-Returns none s = tt
  close-Returns (some fd) s =
      sys_cases os (Returns Anything) (close fd) _ s (λ n. tt) (λ e. unless_ebadf e _)

  close_entry-Returns :
      (dfd : ℕ) (name : Bytes) (s : Sys)
      → Returns Anything (close_entry os scan_fd spared dfd name s)
  unfolding close_entry
  close_entry-Returns dfd name s = close-Returns (unrelated os scan_fd spared dfd name) s

  close_entries-Returns :
      (dfd : ℕ) (names : List Bytes) (s : Sys)
      → Returns Anything (close_entries os scan_fd spared dfd names s)
  unfolding close_entries
  close_entries-Returns dfd [] s = tt
  close_entries-Returns dfd (name ∷ names) s =
      bind-Returns Anything Anything _ _ (close_entry-Returns dfd name s)
        (λ e t w. by_error e t (close_entries-Returns dfd names t))
    where
      by_error :
          (e : Option ℕ) (t : Sys)
          → Returns Anything (close_entries os scan_fd spared dfd names t)
          → Returns Anything (
              (elim e as (λ z. Act (Option ℕ)) [
                | some n ↦ pure (some n)
                | none ↦ close_entries os scan_fd spared dfd names
              ])
                t)
      by_error (some n) t w = tt
      by_error none t w = w

  close_last :
      (dp : ℕ) (e : Option ℕ) (s : Sys)
      → Returns Anything (
          (elim e as (λ z. Act (Option ℕ)) [
            | some n ↦ pure (some n)
            | none ↦ sys os (closedir dp) >>= λ rv. pure none
          ])
            s)
  close_last dp (some n) s = tt
  close_last dp none s =
      sys_cases os (Returns Anything) (closedir dp) (λ rv. pure none) s (λ n. tt) (λ n. tt)

  close_unrelated_fds-Returns :
      (s : Sys) → Returns Anything (close_unrelated_fds os scan_fd spared s)
  unfolding close_unrelated_fds errno_of trace_of
  close_unrelated_fds-Returns s =
      sys_cases os (Returns Anything) _ _ s
        (λ dfd.
          sys_cases os (Returns Anything) (fdopendir dfd) _ _
            (λ dp.
              let u : Sys =
                note (fdopendir dfd) (done dp)
                  (note (open_file (codes "/proc/self/fd/") 0 none) (done dfd) s) in
              bind-Returns Anything Anything _ _
                (close_entries-Returns dfd (os.entries_of u.trace dp) u)
                (λ e t w. close_last dp e t))
            (λ e. tt))
        (λ e. tt)

and_stop-returned :
    (world : World) (ds : List Deed) (rv : ℤ)
    → and_stop world (ds, returned rv)
      ≡ (ds ++ (stop_logging world rv).0, (stop_logging world rv).1)
and_stop-returned world [] rv = refl
and_stop-returned world (d ∷ ds) rv = ap (first_do d) (and_stop-returned world ds rv)

and_stop-blocked :
    (world : World) (ds : List Deed) (t : Thread) → and_stop world (ds, blocked t) ≡ (ds, blocked t)
and_stop-blocked world [] t = refl
and_stop-blocked world (d ∷ ds) t = ap (first_do d) (and_stop-blocked world ds t)

module _ (world : World) (o : Options) (good : parse_cmd_line (some o) ≡ true)
    (log : world.starts log_writer ≡ true) where
  abbrev Good : Run → Type 0
  Good run = Served world (some o) (first_do (created log_writer) run)

  last : List Deed
  last = closed stderr_fileno ∷ joined log_writer ∷ []

  with_log :
      world.ends log_writer ≡ true
      → Runs world workers
      → Runs world (request_reader ∷ response_writer ∷ request_handler ∷ log_writer ∷ [])
  with_log e (a, b, (c, d, (f, g, u))) = (a, b, (c, d, (f, g, (log, e, tt))))

  stop-Served :
      (run : Run)
      → Session world (descriptor o.read_pipe_fd) (descriptor o.write_pipe_fd) run
      → Good (and_stop world run)
  unfolding stop_logging join last
  stop-Served (ds, blocked t) w = subst Good (sym (and_stop-blocked world ds t)) w
  stop-Served (ds, returned (negsuc n)) w =
      subst Good (sym (and_stop-returned world ds (negsuc n)))
        (elim (Bool-cases (world.ends log_writer)) [ inl e ↦ rw e tt | inr e ↦ rw e (e, log) ])
  stop-Served (ds, returned (pos n)) (z, d, runs) =
      subst Good (ap (λ m. and_stop world (ds, returned (pos m))) (sym z)) (
        subst Good (sym (and_stop-returned world ds (pos 0)))
          (elim (Bool-cases (world.ends log_writer)) [
            | inl e ↦ rw e (ap (λ ds'. created log_writer ∷ (ds' ++ last)) d, good, with_log e runs)
            | inr e ↦ rw e (e, log)
          ]))

  serve-Served : (failed : Option ℕ) → Good (serve world o failed)
  unfolding serve
  serve-Served (some (suc e)) = tt
  serve-Served (some zero) = stop-Served _ (communicate-Session world _ _)
  serve-Served none = stop-Served _ (communicate-Session world _ _)

  start-Returns :
      (os : Os) (scan_fd : Bytes → Option ℕ) (keep_fds : Bool) (s : Sys)
      → Returns Good (start world os scan_fd o keep_fds s)
  unfolding start
  start-Returns os scan_fd true s = serve-Served none
  start-Returns os scan_fd false s =
      bind-Returns Anything Good (close_unrelated_fds os scan_fd (whitelist o) s)
        (λ failed. pure (serve world o failed))
        (close_unrelated_fds-Returns os scan_fd (whitelist o) s) (λ e t w. serve-Served e)

-- `main` returns, unless it is blocked in the join of a thread that runs and does not end. It returns
-- 0 only for a good command line, when the four threads could be made and end: then it made and
-- joined them all, the threads of the pipes before both pipes were closed, and that of the log last,
-- behind the close of the stream that it writes.
pub main-Served :
    (world : World) (os : Os) (scan_fd : Bytes → Option ℕ) (options : Option Options)
    (keep_fds : Bool) (s : Sys)
    → Returns (Served world options) (main world os scan_fd options keep_fds s)
unfolding main
main-Served world os scan_fd none keep_fds s = refl
main-Served world os scan_fd (some o) keep_fds s = elim (Bool-cases (parse_cmd_line (some o))) [
  | inr p ↦ rw p tt
  | inl p ↦ elim (Bool-cases (world.starts log_writer)) [
    | inr q ↦ rw (p, q) tt
    | inl q ↦
        rw (p, q)
          (bind-Returns (Good world o p q) (Served world (some o))
            (start world os scan_fd o keep_fds s) (λ run. pure (first_do (created log_writer) run))
            (start-Returns world o p q os scan_fd keep_fds s) (λ run t w. w))
  ]
]
