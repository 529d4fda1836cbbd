-- ===== src/Startup/Main.antt =====
-- `main`, `setup_logging` and `stop_logging`.
use ioprocess.Base.{
  ℕ, suc, ℤ, pos, negsuc, Bytes, Bool, Option, none, some, List, [], ◌∷◌, if◌then◌else◌,
}
use ioprocess.Sys.{Os, Act, pure, ◌>>=◌}
use ioprocess.Startup.Options.{Options, parse_cmd_line}
use ioprocess.Startup.Descriptors.{close_unrelated_fds}
use ioprocess.Startup.Threads.{
  log_writer, created, closed, returned, blocked, Run, World, first_do, join, communicate,
}

abbrev pub stderr_fileno : ℕ
stderr_fileno = 2

-- A descriptor that was accepted on the command line.
abbrev pub descriptor : ℤ → ℕ
descriptor (pos n) = n
descriptor (negsuc n) = 0

-- The whitelist up to its -1: standard output and error, and the two pipes.
abbrev pub whitelist : Options → List ℕ
whitelist o = 1 ∷ stderr_fileno ∷ descriptor o.read_pipe_fd ∷ descriptor o.write_pipe_fd ∷ []

module _ (world : World) where
  -- `stop_logging`, and the return of `main`.
  unfoldable pub stop_logging : ℤ → Run
  unfolding join
  stop_logging rv = first_do (closed stderr_fileno) (join world log_writer ([], returned rv))

  abbrev pub and_stop : Run → Run
  and_stop ([], returned rv) = stop_logging rv
  and_stop ([], blocked t) = ([], blocked t)
  and_stop (d ∷ ds, e) = first_do d (and_stop (ds, e))

  -- From `closeUnrelatedFDs` on, with its error number: a 0 is no failure.
  unfoldable pub serve : Options → Option ℕ → Run
  unfolding communicate stop_logging
  serve o (some (suc e)) = ([], returned (pos (suc e)))
  serve o failed =
      and_stop (communicate world (descriptor o.read_pipe_fd) (descriptor o.write_pipe_fd))

  -- Behind `setup_logging`, where the thread of the log runs.
  unfoldable pub start : Os → (Bytes → Option ℕ) → Options → Bool → Act Run
  unfolding close_unrelated_fds serve
  start os scan_fd o keep_fds =
      if keep_fds
      then pure (serve o none)
      else (close_unrelated_fds os scan_fd (whitelist o) >>= λ failed. pure (serve o failed))

  -- `main`: `options` is what `g_option_context_parse` leaves, and `keep_fds` is KEEP_FDS.
  unfoldable pub main : Os → (Bytes → Option ℕ) → Option Options → Bool → Act Run
  unfolding parse_cmd_line start
  main os scan_fd none keep_fds = pure ([], returned (negsuc 0))
  main os scan_fd (some o) keep_fds =
      let logged : Act Run = do
        run ← start os scan_fd o keep_fds
        pure (first_do (created log_writer) run)
      in let begun = if world.starts log_writer then logged else pure ([], returned (pos 12)) in
        if parse_cmd_line (some o) then begun else pure ([], returned (negsuc 0))
