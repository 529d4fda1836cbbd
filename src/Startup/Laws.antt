-- ===== src/Startup/Laws.antt =====
-- Which command lines are accepted, and which descriptors are closed at the start.
use ioprocess.Base.{
  ℕ, ℤ, pos, negsuc, Bytes, true, false, Option, none, some, List, [], ◌∷◌, ◌≡◌, ◌≢◌, refl, ◌∙◌, ap,
  arith, codes, ◌==◌, if◌then◌else◌, is_zero, ◌↔◌,
}
use ioprocess.Sys.{
  Os, Sys, Step, ok, fail, fault, exited, hung, Act, sys, trace_of, errno_of, Call, Answer, done,
  failed, Trace, open_file, fdopendir, close, closedir, finish, and_then, note, ◌>>=◌, pure,
}
use ioprocess.Startup.Options.{Options, parse_cmd_line, is_negative}
use ioprocess.Startup.Picks.{Picks, no_name, spared, picked, Choice, unrelated-Choice}
use ioprocess.Startup.Descriptors.{
  unrelated, close_entry, close_entries, close_unrelated_fds, ebadf,
}

-- `n` is 0 or more.
abbrev pub IsNatural : ℤ → Type 0
IsNatural n = is_negative n ≡ false

is_zero_iff : (n : ℤ) → (is_zero n ≡ true) ↔ (n ≡ pos 0)
is_zero_iff (pos n) = ground arith
is_zero_iff (negsuc n) = ground arith

-- A command line that glib can parse is accepted exactly when both pipes are given, the threads
-- are not negative, and a bound on the queue comes with a bound on the threads.
pub parse_cmd_line-accepts :
    (o : Options)
    → (parse_cmd_line (some o) ≡ true) ↔ (
        IsNatural o.read_pipe_fd
        × IsNatural o.write_pipe_fd
        × IsNatural o.max_threads
        × (IsNatural o.max_queued_requests → o.max_threads ≢ pos 0))
unfolding parse_cmd_line
parse_cmd_line-accepts o = ground (arith, is_zero_iff o.max_threads)

-- The descriptors that `close` was called on.
unfoldable pub closes : Trace → List ℕ
closes [] = []
closes (e ∷ t) = closed e.call (closes t)
  where
    closed : Call → List ℕ → List ℕ
    closed (close fd) fds = fd ∷ fds
    closed c fds = fds

abbrev pub put_first : Option ℕ → List ℕ → List ℕ
put_first none fds = fds
put_first (some fd) fds = fd ∷ fds

-- A `close` that fails finds the descriptor closed already.
abbrev pub OnlyClosed : Os → Type 0
OnlyClosed os = (t : Trace) (fd e : ℕ) → os.answer t (close fd) ≡ failed e → e ≡ ebadf

abbrev Closed : Option ℕ → Sys → Step (Option ℕ) × Sys → Type 0
Closed o s r = (r.0 ≡ ok none) × (closes r.1.trace ≡ put_first o (closes s.trace))

and_then-ok :
    {A B : Type 0} (r : Step A × Sys) (k : A → Act B) {a : A} → r.0 ≡ ok a → and_then r k ≡ k a r.1
and_then-ok r k e = ap (λ z. and_then (z, r.1) k) e

module _ (os : Os) (scan_fd : Bytes → Option ℕ) (whitelist : List ℕ) where
  -- The descriptors of a directory listing that are unrelated, the last one first.
  abbrev pub selected : ℕ → List Bytes → List ℕ → List ℕ
  selected dfd [] fds = fds
  selected dfd (name ∷ names) fds =
      selected dfd names (put_first (unrelated os scan_fd whitelist dfd name) fds)

  close_entry-Closed :
      OnlyClosed os
      → (dfd : ℕ) (name : Bytes) (s : Sys)
      → Closed
          (unrelated os scan_fd whitelist dfd name)
          s
          (close_entry os scan_fd whitelist dfd name s)
  unfolding close_entry sys errno_of closes
  close_entry-Closed only dfd name s = by_choice (unrelated os scan_fd whitelist dfd name) refl
    where
      by_answer :
          (fd : ℕ) (a : Answer)
          → os.answer s.trace (close fd) ≡ a
          → Closed (some fd) s (
              and_then (finish (close fd) a s) (λ rv. elim rv [
                | some _ ↦ pure none
                | none ↦ errno_of >>= λ e. if e == ebadf then pure none else pure (some e)
              ]))
      by_answer fd (done n) e = (refl, refl)
      by_answer fd (failed n) e = rw (only s.trace fd n e) (refl, refl)

      by_choice :
          (o : Option ℕ)
          → unrelated os scan_fd whitelist dfd name ≡ o
          → Closed o s (close_entry os scan_fd whitelist dfd name s)
      by_choice none e = rw (e, close_entry) (refl, refl)
      by_choice (some fd) e = rw (e, close_entry) (by_answer fd (os.answer s.trace (close fd)) refl)

  close_entries-step :
      (dfd : ℕ) (name : Bytes) (names : List Bytes) (s : Sys)
      → (close_entry os scan_fd whitelist dfd name s).0 ≡ ok none
      → close_entries os scan_fd whitelist dfd (name ∷ names) s
        ≡ close_entries os scan_fd whitelist dfd names
            (close_entry os scan_fd whitelist dfd name s).1
  unfolding close_entries
  close_entries-step dfd name names s e =
      and_then-ok (close_entry os scan_fd whitelist dfd name s)
        (λ failed_with. elim failed_with [
          | some e ↦ pure (some e)
          | none ↦ close_entries os scan_fd whitelist dfd names
        ])
        e

  close_entries-closes :
      OnlyClosed os
      → (dfd : ℕ) (names : List Bytes) (s : Sys)
      → ((close_entries os scan_fd whitelist dfd names s).0 ≡ ok none)
        × (closes (close_entries os scan_fd whitelist dfd names s).1.trace
            ≡ selected dfd names (closes s.trace))
  unfolding close_entries
  close_entries-closes only dfd [] s = (refl, refl)
  close_entries-closes only dfd (name ∷ names) s =
      let (p, q) = close_entry-Closed only dfd name s in
      let t = (close_entry os scan_fd whitelist dfd name s).1 in
      let (u, v) = close_entries-closes only dfd names t in
      let e = close_entries-step dfd name names s p in
      (ap (λ r. r.0) e ∙ u, ap (λ r. closes r.1.trace) e ∙ v ∙ ap (selected dfd names) q)

-- Some numbers in front of others, the last one first.
abbrev pub newest_first : List ℕ → List ℕ → List ℕ
newest_first [] closed_before = closed_before
newest_first (fd ∷ fds) closed_before = newest_first fds (fd ∷ closed_before)

selected-Picks :
    (os : Os) (scan_fd : Bytes → Option ℕ) (whitelist : List ℕ) (dfd : ℕ) (names : List Bytes)
    (before : List ℕ)
    → (fds : List ℕ) × Picks scan_fd whitelist dfd names fds
      × (selected os scan_fd whitelist dfd names before ≡ newest_first fds before)
selected-Picks os scan_fd whitelist dfd [] before = ([], no_name, refl)
selected-Picks os scan_fd whitelist dfd (name ∷ names) before =
    by_choice (unrelated os scan_fd whitelist dfd name)
      (unrelated-Choice os scan_fd whitelist dfd name)
      (λ more. selected-Picks os scan_fd whitelist dfd names more)
  where
    by_choice :
        (o : Option ℕ)
        → Choice os scan_fd whitelist dfd name o
        → ((more : List ℕ)
            → (fds : List ℕ) × Picks scan_fd whitelist dfd names fds
              × (selected os scan_fd whitelist dfd names more ≡ newest_first fds more))
        → (fds : List ℕ) × Picks scan_fd whitelist dfd (name ∷ names) fds
          × (selected os scan_fd whitelist dfd names (put_first o before) ≡ newest_first fds before)
    by_choice none c ih = let (fds, p, e) = ih before in (fds, spared c p, e)
    by_choice (some fd) c ih = let (fds, p, e) = ih (fd ∷ before) in (fd ∷ fds, picked c p, e)

-- After the directory was opened, and after its stream was.
abbrev pub opened : ℕ → Sys → Sys
opened dfd s = note (open_file (codes "/proc/self/fd/") 0 none) (done dfd) s

abbrev pub listed : ℕ → ℕ → Sys → Sys
listed dfd dp s = note (fdopendir dfd) (done dp) (opened dfd s)

after_entries :
    (os : Os) (dp : ℕ) (r : Step (Option ℕ) × Sys)
    → r.0 ≡ ok none
    → (let whole = and_then {B = Option ℕ} r (λ failed_with. elim failed_with [
      | some e ↦ pure (some e)
      | none ↦ sys os (closedir dp) >>= λ _. pure none
    ]) in
        (whole.0 ≡ ok none) × (closes whole.1.trace ≡ closes r.1.trace))
unfolding sys closes
after_entries os dp (ok none, s) e = ground arith
after_entries os dp (ok (some n), s) e = cc
after_entries os dp (fail g, s) e = cc
after_entries os dp (fault, s) e = cc
after_entries os dp (exited, s) e = cc
after_entries os dp (hung, s) e = cc

-- When /proc/self/fd opens and every `close` that fails finds its descriptor closed already, the
-- function returns 0, and the numbers that it has called `close` on are those of the names of the
-- listing, each once and in their order, less ".", "..", names that are no number, the descriptor of
-- the directory and the descriptors of the whitelist.
pub close_unrelated_fds-closes :
    (os : Os) (scan_fd : Bytes → Option ℕ) (whitelist : List ℕ) (dfd dp : ℕ) (s : Sys)
    → OnlyClosed os
    → os.answer s.trace (open_file (codes "/proc/self/fd/") 0 none) ≡ done dfd
    → os.answer (opened dfd s).trace (fdopendir dfd) ≡ done dp
    → ((close_unrelated_fds os scan_fd whitelist s).0 ≡ ok none)
      × ((fds : List ℕ) × Picks scan_fd whitelist dfd (os.entries_of (listed dfd dp s).trace dp) fds
          × (closes (close_unrelated_fds os scan_fd whitelist s).1.trace
              ≡ newest_first fds (closes s.trace)))
unfolding close_unrelated_fds sys trace_of closes
close_unrelated_fds-closes os scan_fd whitelist dfd dp s only e f =
    let names = os.entries_of (listed dfd dp s).trace dp in
    let (p, q) = close_entries-closes os scan_fd whitelist only dfd names (listed dfd dp s) in
    let (u, v) =
      after_entries os dp (close_entries os scan_fd whitelist dfd names (listed dfd dp s)) p in
    let (fds, picks, same) = selected-Picks os scan_fd whitelist dfd names (closes s.trace) in
    rw (e, f) (u, (fds, picks, v ∙ q ∙ same))
