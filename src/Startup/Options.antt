-- ===== src/Startup/Options.antt =====
-- `parseCmdLine`, behind the parser of glib.
use ioprocess.Base.{
  ℤ, pos, negsuc, Bool, true, false, not, ◌&&◌, ◌||◌, Option, none, some, if◌then◌else◌, is_zero,
}

-- The globals that the options set.
pub record Options : Type 0 where
  pub read_pipe_fd : ℤ
  pub write_pipe_fd : ℤ
  pub max_threads : ℤ
  pub max_queued_requests : ℤ

-- `x < 0`
abbrev pub is_negative : ℤ → Bool
is_negative (pos n) = false
is_negative (negsuc n) = true

-- `parseCmdLine` on what `g_option_context_parse` leaves, `none` if that fails: true is the
-- result 0, false the result -1.
unfoldable pub parse_cmd_line : Option Options → Bool
parse_cmd_line none = false
parse_cmd_line (some o) =
    if is_negative o.read_pipe_fd || is_negative o.write_pipe_fd
    then false
    else if is_negative o.max_threads
    then false
    else if not (is_negative o.max_queued_requests) && is_zero o.max_threads
    then false
    else true

-- `(!MAX_THREADS) ? -1 : MAX_THREADS`, what the thread pool is given.
unfoldable pub pool_threads : ℤ → ℤ
pool_threads max_threads = if is_zero max_threads then negsuc 0 else max_threads
