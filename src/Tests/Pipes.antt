-- ===== src/Tests/Pipes.antt =====
-- The two pipe threads on pipes that are lists of bytes.
use ioprocess.Base.{
  ℕ, zero, suc, ◌<◌, Bytes, List, [], ◌∷◌, ◌++◌, codes, Option, none, some, ◌≡◌, refl, sym, ap,
  arith, length, take, drop, take-append-drop, length-take, take_all,
}
use ioprocess.Dom.{Json, string}
use ioprocess.Pipe.Frame.{frames}
use ioprocess.Pipe.Reader
use ioprocess.Pipe.Reader.{Input, Got, got, reader, vars, stopped, epipe}
use ioprocess.Pipe.Reader.Laws.{reader_receives}
use ioprocess.Pipe.Writer
use ioprocess.Pipe.Writer.{Output, Put, put, writer, stop_received, response, stop}
use ioprocess.Pipe.Writer.Laws.{outgoing, Sent, writer-Sent}
use ioprocess.Pipe.Writer.Ends.{WritesAll, queue, writer_delivers}

abbrev pub list_input : Input
list_input = record { State = Bytes; read = λ s n. (got (take n s), drop n s) }

abbrev messages : List Bytes
messages = codes "ab" ∷ codes "c" ∷ []

abbrev parse_text : Bytes → Option Json
parse_text b = some (string b)

abbrev pub alloc_all : ℕ → Option ℕ
alloc_all n = none

pub nothing_taken : (s : Bytes) (n : ℕ) → take n s ≡ [] → 0 < n → s ≡ []
nothing_taken [] n e h = refl
nothing_taken (b ∷ s) zero e h = absurd (omega arith)
nothing_taken (b ∷ s) (suc n) e h = cc

got_bytes : Got → Bytes
got_bytes (got b) = b
got_bytes (Reader.read_error n) = []

unfoldable pub list_input-IsPipe : Reader.Parts.IsPipe list_input
unfolding got_bytes
list_input-IsPipe = record {
  content = λ s. s;
  gives = λ s n.
      (take n s, refl, take-append-drop n s, omega (arith, length-take n s), nothing_taken s n);
  whole = λ s bs e h.
      let same : take 8 s ≡ bs = ap got_bytes e in
      let many : length (take 8 s) ≡ length bs = ap length same in omega (arith, length-take 8 s);
}

reader_receives_example :
    reader list_input parse_text alloc_all 4 vars (frames messages)
    ≡ record { pushed = string (codes "ab") ∷ string (codes "c") ∷ []; ending = stopped epipe }
unfolding list_input-IsPipe
reader_receives_example =
    reader_receives list_input list_input-IsPipe parse_text alloc_all messages
      (string (codes "ab") ∷ string (codes "c") ∷ []) 4 (frames messages) refl
      ((omega arith, omega arith, refl, refl), ((omega arith, omega arith, refl, refl), tt)) refl
      (omega arith)

abbrev pub list_output : Output
list_output = record { State = Bytes; write = λ s bs. (put (length bs), s ++ bs) }

abbrev pub put_count : Put → ℕ
put_count (put k) = k
put_count (Writer.write_error n) = 0

pub all_taken : (s bs : Bytes) (k : ℕ) → put (length bs) ≡ put k → s ++ bs ≡ s ++ take k bs
all_taken s bs k e =
    let n : length bs ≡ k = ap put_count e in ap (λ z. s ++ z) (sym (take_all k bs (omega arith)))

unfoldable pub list_output-IsPipe : Writer.Laws.IsPipe list_output
list_output-IsPipe = record {
  content = λ s. s;
  adds = all_taken;
  whole = λ s bs k h e. let n : length bs ≡ k = ap put_count e in omega arith;
  keeps = λ s bs e h. cc;
}

abbrev pub print_text : Json → Option Bytes
print_text r = some (codes "ab")

writer-Sent_example :
    Sent list_output list_output-IsPipe []
      (frames (outgoing print_text (response (string []) ∷ stop ∷ [])))
      (writer list_output print_text (response (string []) ∷ stop ∷ []) 1 0 [])
unfolding list_output-IsPipe
writer-Sent_example =
    writer-Sent list_output list_output-IsPipe print_text (response (string []) ∷ stop ∷ []) 1 0 []

pub list_output-WritesAll : WritesAll list_output
list_output-WritesAll s b bs = (length bs, refl)

writer_delivers_example :
    ((writer list_output print_text (queue (string [] ∷ [])) 2 0 []).0 ≡ stop_received)
    × ((writer list_output print_text (queue (string [] ∷ [])) 2 0 []).1
        ≡ [] ++ frames (codes "ab" ∷ []))
unfolding list_output-IsPipe
writer_delivers_example =
    writer_delivers list_output list_output-IsPipe print_text (string [] ∷ []) (codes "ab" ∷ []) 2 0
      [] list_output-WritesAll (refl, omega arith, tt) (omega arith)
