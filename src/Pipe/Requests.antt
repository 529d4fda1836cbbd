-- ===== src/Pipe/Requests.antt =====
-- `requestReader` with `jdParser_buildDom` behind it: texts on the pipe, documents in the queue.
use ioprocess.Base.{
  ℕ, ◌+◌, ◌<◌, ◌^◌, Bytes, Bool, true, Option, none, List, [], ◌∷◌, ◌≡◌, arith, length,
}
use ioprocess.Dom.{Json}
use ioprocess.Parser.Build.{Lexed}
use ioprocess.Parser.Events.{Plain}
use ioprocess.Parser.Laws.{ReadAs, parse_document, parse_document-ReadAs}
use ioprocess.Pipe.Frame.{frames, total_length}
use ioprocess.Pipe.Reader.{Input, vars, stopped, epipe, reader}
use ioprocess.Pipe.Reader.Parts.{IsPipe}
use ioprocess.Pipe.Reader.Laws.{AllReadable, reader_receives}

-- A text of 1 to 2^32 - 1 bytes, for which there is memory, and the document that yajl reads in it.
abbrev pub Request : (ℕ → Option ℕ) → (Bytes → Lexed) → Bytes → Json → Type 0
Request alloc lex text j =
    (0 < length text)
    × (length text < 2 ^ 32)
    × (alloc (length text + 1) ≡ none)
    × ReadAs lex text j
    × Plain j

abbrev pub Requests : (ℕ → Option ℕ) → (Bytes → Lexed) → List Bytes → List Json → Type 0
Requests alloc lex [] [] = Unit
Requests alloc lex [] (_ ∷ _) = ⊥
Requests alloc lex (_ ∷ _) [] = ⊥
Requests alloc lex (text ∷ texts) (j ∷ js) = Request alloc lex text j × Requests alloc lex texts js

module _ (i : Input) (pipe : IsPipe i) (malloc_ok : ℕ → Bool)
    (always : (n : ℕ) → malloc_ok n ≡ true) (lex : Bytes → Lexed) (alloc : ℕ → Option ℕ) where
  all_readable :
      (texts : List Bytes) (js : List Json)
      → Requests alloc lex texts js
      → AllReadable i pipe (parse_document malloc_ok lex) alloc texts js
  all_readable [] [] w = tt
  all_readable [] (j ∷ js) w = w
  all_readable (text ∷ texts) [] w = w
  all_readable (text ∷ texts) (j ∷ js) ((some_byte, short, memory, read, plain), w) = (
    (
      some_byte,
      omega arith,
      memory,
      parse_document-ReadAs malloc_ok lex text j always short read plain,
    ),
    all_readable texts js w,
  )

-- When the pipe carries nothing but the frames of texts of 1 to 2^32 - 1 bytes that yajl reads as
-- documents, whose maps have distinct keys without NUL and whose texts are shorter than 2 GiB, and
-- no allocation fails, the thread pushes these documents, in the order of the texts, however the
-- reads of a message are cut, as long as a read of its size gives all eight bytes, and then ends with EPIPE.
pub reader_receives_documents :
    (i : Input) (pipe : IsPipe i) (malloc_ok : ℕ → Bool) (lex : Bytes → Lexed)
    (alloc : ℕ → Option ℕ) (texts : List Bytes) (js : List Json) (fuel : ℕ) (s : i.State)
    → ((n : ℕ) → malloc_ok n ≡ true)
    → alloc 1 ≡ none
    → Requests alloc lex texts js
    → pipe.content s ≡ frames texts
    → total_length texts < fuel
    → reader i (parse_document malloc_ok lex) alloc fuel vars s
      ≡ record { pushed = js; ending = stopped epipe }
reader_receives_documents i pipe malloc_ok lex alloc texts js fuel s always one w c h =
    reader_receives i pipe (parse_document malloc_ok lex) alloc texts js fuel s one
      (all_readable i pipe malloc_ok always lex alloc texts js w) c h
