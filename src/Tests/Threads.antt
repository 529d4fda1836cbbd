-- ===== src/Tests/Threads.antt =====
-- The threads of the program, and the lines that the log prints.
use ioprocess.Base.{
  pos, Bytes, true, false, none, some, List, [], ◌∷◌, ◌++◌, codes, length, take_all, ap, sym, c_str,
  ◌<◌, arith, inl,
}
use ioprocess.Startup.Options.{Options}
use ioprocess.Startup.Threads.{World, request_handler, communicate}
use ioprocess.Startup.Main.{main}
use ioprocess.Startup.Joins.{Session, communicate-Session}
use ioprocess.Startup.Served.{Returns, Served, main-Served}
use ioprocess.Log.{Stream, no_text, log_writer}
use ioprocess.Log.Laws.{IsStream, all_lines, rounds, Printed, log_writer-Printed}
use ioprocess.Tests.System
use ioprocess.Tests.System.{small}

-- A world without a thread for the request handler.
abbrev two_threads : World
two_threads = record {
  starts = λ t. elim t [ request_handler ↦ false | _ ↦ true ];
  ends = λ t. true;
}

abbrev all_threads : World
all_threads = record { starts = λ t. true; ends = λ t. true }

abbrev pipes : Options
pipes = record {
  read_pipe_fd = pos 3;
  write_pipe_fd = pos 4;
  max_threads = pos 1;
  max_queued_requests = pos 0;
}

communicate-Session_example : Session two_threads 3 4 (communicate two_threads 3 4)
communicate-Session_example = communicate-Session two_threads 3 4

main-Served_example :
    Returns
      (Served all_threads (some pipes))
      (main all_threads small (λ b. none) (some pipes) false System.start)
main-Served_example = main-Served all_threads small (λ b. none) (some pipes) false System.start

abbrev list_stream : Stream
list_stream = record { State = Bytes; over = λ s. false; fwrite = λ s bs. (length bs, s ++ bs) }

list_stream-IsStream : IsStream list_stream
list_stream-IsStream = record {
  content = λ s. s;
  adds = λ s bs. ap (λ z. s ++ z) (sym (take_all (length bs) bs (omega arith)));
  at_most = λ s bs. omega arith;
  or_over = λ s b bs. inl (omega arith);
}

abbrev lines : List Bytes
lines = codes "WARNING|a|b" ∷ codes "INFO|a|c" ∷ []

few : rounds lines < 30
unfolding rounds c_str
few = omega arith

log_writer-Printed_example :
    Printed list_stream list_stream-IsStream []
      (all_lines lines)
      (log_writer list_stream 30 lines no_text [])
unfolding list_stream-IsStream
log_writer-Printed_example = log_writer-Printed list_stream list_stream-IsStream 30 lines [] few
