-- ===== src/Session.antt =====
-- src/ioprocess.c: the three threads behind one another, from the pipe of requests to the pipe of
-- responses.
use ioprocess.Base.{
  ℕ, ◌+◌, ◌≤◌, ◌<◌, Bytes, Bool, true, Option, none, List, [], ◌∷◌, ◌++◌, ◌≡◌, refl, sym, ap, ◌∙◌,
  arith,
}
use mathlib.Core.Path.{subst}
use ioprocess.Dom.{Json}
use ioprocess.Parser.Build.{Lexed}
use ioprocess.Parser.Laws.{parse_document}
use ioprocess.Pipe.Frame.{frames, total_length}
use ioprocess.Pipe.Reader
use ioprocess.Pipe.Requests.{Requests, reader_receives_documents}
use ioprocess.Pipe.Writer
use ioprocess.Pipe.Writer.Ends.{WritesAll, queue, Prints, writer_delivers}
use ioprocess.Pool.Slots.{Limits}
use ioprocess.Pool.Handler.{Output, answered, refused, stop, State, stopped, initial, Steps}
use ioprocess.Pool.Handler.Account.{count, count-append, count_responses, in_hand, taken-settled}
use ioprocess.Pool.Handler.Ends.{NoStop, Final, stopped-Final}

-- The requests in the order in which they were taken: the last one stands first in a state.
abbrev pub in_order : List Json → List Json
in_order [] = []
in_order (r ∷ rs) = in_order rs ++ (r ∷ [])

-- The documents that answer requests.
abbrev pub documents : (Output Json → Json) → List (Output Json) → List Json
documents respond [] = []
documents respond (stop ∷ os) = documents respond os
documents respond (answered r ∷ os) = respond (answered r) ∷ documents respond os
documents respond (refused r ∷ os) = respond (refused r) ∷ documents respond os

-- The response queue, as `responseWriter` finds it.
abbrev pub entries : (Output Json → Json) → List (Output Json) → List Writer.Entry
entries respond [] = []
entries respond (stop ∷ os) = Writer.stop ∷ entries respond os
entries respond (answered r ∷ os) = Writer.response (respond (answered r)) ∷ entries respond os
entries respond (refused r ∷ os) = Writer.response (respond (refused r)) ∷ entries respond os

entries-queue :
    (respond : Output Json → Json) (os : List (Output Json))
    → NoStop os
    → entries respond (os ++ (stop ∷ [])) ≡ queue (documents respond (os ++ (stop ∷ [])))
entries-queue respond [] w = refl
entries-queue respond (answered r ∷ os) w =
    ap (λ t. Writer.response (respond (answered r)) ∷ t) (entries-queue respond os w)
entries-queue respond (refused r ∷ os) w =
    ap (λ t. Writer.response (respond (refused r)) ∷ t) (entries-queue respond os w)
entries-queue respond (stop ∷ os) w = absurd w

count-in_order : (p : Json → Bool) (rs : List Json) → count p (in_order rs) ≡ count p rs
count-in_order p [] = refl
count-in_order p (r ∷ rs) =
    let rest = count-in_order p rs in omega (arith, count-append p (in_order rs) (r ∷ []))

stopped-queue :
    (respond : Output Json → Json) (s : State Json)
    → Final s
    → entries respond s.responses ≡ queue (documents respond s.responses)
stopped-queue respond s f =
    let (os, w, e) = f.last_stop in
    subst (λ z. entries respond z ≡ queue (documents respond z)) (sym e)
      (entries-queue respond os w)

-- In the end nothing waits, is served or is held: a request was answered, refused or given up.
stopped-settled :
    (limits : Limits) (p : Json → Bool) {s : State Json}
    → Steps limits (initial limits) s
    → s.phase ≡ stopped
    → count p s.taken ≡ count_responses p s.responses + count p s.unanswered
stopped-settled limits p {s} run e =
    let f = stopped-Final limits run e in
    let waiting : count p s.waiting ≡ 0 = ap (count p) f.none_waits in
    let running : count p s.running ≡ 0 = ap (count p) f.none_runs in
    let held : in_hand p s.phase ≡ 0 = ap (in_hand p) e in
    let all = taken-settled limits p run in omega arith

-- A session: the pipe of requests carries the frames of texts of 1 to 2^32 - 1 bytes that yajl reads
-- as documents with distinct keys without NUL and with texts shorter than 2 GiB, and a read of a
-- frame's size gives all eight bytes; the handler takes all that the reader pushes, in this order, and ends; every response
-- is printed, as a text that is not empty, the writes of sizes are whole, no write and no allocation of the reader fails, and there is fuel for each byte. Then
-- the responses are in the pipe of responses, each in a frame of its own, and the writer ends by
-- STOP_PTR; and for any test, of the documents that the texts are, as many pass it as of the
-- requests that were answered or refused in these frames or given up without a response.
pub session_delivers :
    (i : Reader.Input) (pipe : Reader.Parts.IsPipe i) (o : Writer.Output)
    (out : Writer.Laws.IsPipe o) (limits : Limits) (malloc_ok : ℕ → Bool) (lex : Bytes → Lexed)
    (alloc : ℕ → Option ℕ) (generate : Json → Option Bytes) (respond : Output Json → Json)
    (texts ms : List Bytes) (js : List Json) (fuel room errno : ℕ) (s : State Json) (from : i.State)
    (to : o.State)
    → ((n : ℕ) → malloc_ok n ≡ true)
    → alloc 1 ≡ none
    → Requests alloc lex texts js
    → pipe.content from ≡ frames texts
    → total_length texts < fuel
    → Steps limits (initial limits) s
    → s.phase ≡ stopped
    → in_order s.taken
      ≡ (Reader.reader i (parse_document malloc_ok lex) alloc fuel Reader.vars from).pushed
    → Prints generate (documents respond s.responses) ms
    → WritesAll o
    → total_length ms ≤ room
    → ((Writer.writer o generate (entries respond s.responses) room errno to).0
        ≡ Writer.stop_received)
      × (out.content (Writer.writer o generate (entries respond s.responses) room errno to).1
          ≡ out.content to ++ frames ms)
      × ((p : Json → Bool) → count p js ≡ count_responses p s.responses + count p s.unanswered)
session_delivers i pipe o out limits malloc_ok lex alloc generate respond texts ms js fuel room
      errno s from to always memory requests sent enough run ended taken printed all enough_room =
    let read =
      reader_receives_documents i pipe malloc_ok lex alloc texts js fuel from always memory requests
        sent enough in
    let queued = stopped-queue respond s (stopped-Final limits run ended) in
    let (e, c) =
      writer_delivers o out generate (documents respond s.responses) ms room errno to all printed
        enough_room in
    (
      ap (λ q. (Writer.writer o generate q room errno to).0) queued ∙ e,
      ap (λ q. out.content (Writer.writer o generate q room errno to).1) queued ∙ c,
      λ p.
          sym (ap (count p) (taken ∙ ap (λ r. r.pushed) read))
          ∙ count-in_order p s.taken
          ∙ stopped-settled limits p run ended,
    )
