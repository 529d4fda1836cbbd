-- ===== src/Tests/Session.antt =====
-- A session of one request.
use ioprocess.Base.{◌+◌, Bool, [], ◌∷◌, ◌++◌, codes, ◌≡◌, refl, sym, ap, inr, arith}
use ioprocess.Dom.{Json, string, object}
use ioprocess.Pipe.Frame.{frames}
use ioprocess.Pipe.Reader.{reader, vars}
use ioprocess.Pipe.Requests.{Requests, reader_receives_documents}
use ioprocess.Parser.Laws.{parse_document}
use ioprocess.Pipe.Writer.{writer, stop_received}
use ioprocess.Pool.Slots.{take_slot, dec_and_test, initial_slots, give_slot}
use ioprocess.Pool.Handler.{
  Output, State, stopped, initial, admit, take, take_stop, push, begin, answered, stop, answer,
  release, finish, Steps, here, after,
}
use ioprocess.Pool.Handler.Account.{count, count_responses}
use ioprocess.Session.{entries, session_delivers}
use ioprocess.Parser.Events.{events}
use ioprocess.Tests.Pool.{one_thread}
use ioprocess.Tests.Pipes.{
  list_input, list_input-IsPipe, list_output, list_output-IsPipe, list_output-WritesAll, alloc_all,
  print_text,
}
use ioprocess.Tests.Documents.{small_fields, small_fields-Plain, malloc_all, lex_small}

abbrev asked : Json
asked = object small_fields

abbrev done : State Json
done = record {
  phase = stopped;
  slots = 2;
  waiting = [];
  running = [];
  finishing = 0;
  responses = answered asked ∷ stop ∷ [];
  taken = asked ∷ [];
  unanswered = [];
}

to_done : Steps one_thread (initial one_thread) done
unfolding initial initial_slots admit take_slot dec_and_test give_slot
to_done =
    let waits = after (after here (take asked refl)) (push asked refl) in
    let stopping = after waits (take_stop refl) in
    let served =
      after (after stopping (begin asked [] refl (inr (omega arith)))) (answer asked [] [] refl) in
    after (after served (release 0 refl)) (finish refl refl refl refl)

abbrev respond : Output Json → Json
respond o = string (codes "r")

one_request : Requests alloc_all lex_small (codes "text" ∷ []) (asked ∷ [])
one_request =
    ((omega arith, omega arith, refl, (events asked, [], refl, refl), small_fields-Plain), tt)

all_pushed :
    asked ∷ []
    ≡ (reader list_input
        (parse_document malloc_all lex_small)
        alloc_all
        5
        vars
        (frames (codes "text" ∷ []))).pushed
unfolding list_input-IsPipe
all_pushed =
    ap (λ r. r.pushed)
      (sym (
        reader_receives_documents list_input list_input-IsPipe malloc_all lex_small alloc_all
          (codes "text" ∷ []) (asked ∷ []) 5 (frames (codes "text" ∷ [])) (λ n. refl) refl
          one_request refl (omega arith)))

session_delivers_example :
    ((writer list_output print_text (entries respond done.responses) 2 0 []).0 ≡ stop_received)
    × ((writer list_output print_text (entries respond done.responses) 2 0 []).1
        ≡ [] ++ frames (codes "ab" ∷ []))
    × ((p : Json → Bool)
        → count p (asked ∷ []) ≡ count_responses p done.responses + count p done.unanswered)
unfolding list_input-IsPipe list_output-IsPipe
session_delivers_example =
    session_delivers list_input list_input-IsPipe list_output list_output-IsPipe one_thread
      malloc_all lex_small alloc_all print_text respond (codes "text" ∷ []) (codes "ab" ∷ [])
      (asked ∷ []) 5 2 0 done (frames (codes "text" ∷ [])) [] (λ n. refl) refl one_request refl
      (omega arith) to_done refl all_pushed (refl, omega arith, tt) list_output-WritesAll
      (omega arith)
