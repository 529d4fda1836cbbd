-- ===== src/Tests/Startup.antt =====
-- The start of the program on the small system.
use ioprocess.Base.{
  ℕ, List, pos, negsuc, ◌-◌, Bytes, [], ◌∷◌, Option, none, some, ◌≡◌, ◌≢◌, refl, true, ◌↔◌,
}
use ioprocess.Sys.{ok}
use ioprocess.Startup.Options.{Options, parse_cmd_line}
use ioprocess.Startup.Descriptors.{close_unrelated_fds}
use ioprocess.Startup.Picks.{Picks}
use ioprocess.Startup.Laws.{
  IsNatural, parse_cmd_line-accepts, OnlyClosed, closes, newest_first, listed,
  close_unrelated_fds-closes,
}
use ioprocess.Tests.System.{small, start}

abbrev options : Options
options = record {
  read_pipe_fd = pos 3;
  write_pipe_fd = pos 4;
  max_threads = pos 0;
  max_queued_requests = negsuc 0;
}

parse_cmd_line-accepts_example : (parse_cmd_line (some options) ≡ true) ↔ (
    IsNatural options.read_pipe_fd
    × IsNatural options.write_pipe_fd
    × IsNatural options.max_threads
    × (IsNatural options.max_queued_requests → options.max_threads ≢ pos 0))
parse_cmd_line-accepts_example = parse_cmd_line-accepts options

-- One digit.
abbrev scan_digit : Bytes → Option ℕ
scan_digit (b ∷ []) = some (b - 48)
scan_digit b = none

small-OnlyClosed : OnlyClosed small
small-OnlyClosed t fd e h = cc

close_unrelated_fds-closes_example :
    ((close_unrelated_fds small scan_digit (4 ∷ []) start).0 ≡ ok none)
    × ((fds : List ℕ) × Picks scan_digit
          (4 ∷ [])
          7
          (small.entries_of (listed 7 6 start).trace 6)
          fds
        × (closes (close_unrelated_fds small scan_digit (4 ∷ []) start).1.trace
            ≡ newest_first fds (closes start.trace)))
close_unrelated_fds-closes_example =
    close_unrelated_fds-closes small scan_digit (4 ∷ []) 7 6 start small-OnlyClosed refl refl
