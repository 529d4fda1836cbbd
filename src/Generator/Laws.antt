-- ===== src/Generator/Laws.antt =====
-- What is printed is read back.
use ioprocess.Base.{ℕ, ◌<◌, ◌^◌, Bytes, Bool, true, some, List, [], ◌∷◌, ◌++◌, length, ◌≡◌, arith}
use mathlib.Core.Path.{subst}
use ioprocess.Dom.{
  Json, null, boolean, long, double, string, object, array, Fields, end, field, Items, nil, cons,
  lookup,
}
use ioprocess.Parser.Builder.{Event}
use ioprocess.Parser.Events.{events, Plain, PlainFields, PlainItems}
use ioprocess.Parser.Build.{Lexed}
use ioprocess.Parser.Laws.{ReadAs, parse_document, parse_document-ReadAs}
use ioprocess.Generator.Depth.{Nested, Shallow, generate_node-Shallow}
use ioprocess.Generator.Echo.{root, echoes, generate_node-echoes}
use ioprocess.Generator.{Emit, generate_node, walked, walked_fields, walked_items, generate}

-- A walk over a hash table visits each entry once.
pub record Walks (order : Fields → Fields) : Type 0 where
  pub keeps_plain : (fs : Fields) → PlainFields [] fs → PlainFields [] (order fs)
  pub keeps_entries :
      (fs : Fields) (k : Bytes) → PlainFields [] fs → lookup k (order fs) ≡ lookup k fs

module _ (order : Fields → Fields) (walks : Walks order) where
  mutual
    unfolding walked

    walked-Plain : (j : Json) → Plain j → Plain (walked order j)
    walked-Plain null w = w
    walked-Plain (boolean b) w = w
    walked-Plain (long l) w = w
    walked-Plain (double d) w = w
    walked-Plain (string s) w = w
    walked-Plain (object fs) w =
        walks.keeps_plain (walked_fields order fs) (walked-PlainFields [] fs w)
    walked-Plain (array xs) w = walked-PlainItems xs w

    walked-PlainFields :
        (keys : List Bytes) (fs : Fields)
        → PlainFields keys fs
        → PlainFields keys (walked_fields order fs)
    walked-PlainFields keys end w = w
    walked-PlainFields keys (field k v fs) (a, b, c, d, w) =
        (a, b, c, walked-Plain v d, walked-PlainFields (keys ++ (k ∷ [])) fs w)

    walked-PlainItems : (xs : Items) → PlainItems xs → PlainItems (walked_items order xs)
    walked-PlainItems nil w = w
    walked-PlainItems (cons x xs) (d, w) = (walked-Plain x d, walked-PlainItems xs w)

generated :
    (order : Fields → Fields) (print : List Emit → Bytes) (calloc_ok : Bool) (j : Json)
    (text : Bytes)
    → generate order print calloc_ok j ≡ some text
    → (print (generate_node (walked order j)) ≡ text) × (length text < 2 ^ 31)
unfolding generate
generated order print calloc_ok j text e = ground arith

abbrev pub AllFine : (Emit → Type 0) → List Emit → Type 0
AllFine fine [] = Unit
AllFine fine (e ∷ es) = fine e × AllFine fine es

-- What yajl says of its two halves: a text that is printed by calls in their places, with at most
-- `depth` containers open (`yajl_gen` refuses to open as many as YAJL_MAX_DEPTH, 128), each of which
-- is `fine` (a boolean is 0 or 1, a double is finite, a string is valid UTF-8), is read back with the
-- callbacks for these calls.
pub record ReadsBack (depth : ℕ) (fine : Emit → Type 0) (print : List Emit → Bytes)
    (lex : Bytes → Lexed) : Type 0 where
  pub reads_back :
      (es : List Emit) (vs : List Event)
      → AllFine fine es
      → Shallow depth es
      → echoes es (root ∷ []) ≡ some vs
      → (first : List Event) × (more : List Event) × (lex (print es)
          ≡ record { parsed = first; parsed_ok = true; completed = more; completed_ok = true })
        × (first ++ more ≡ vs)

-- Given that memory can be had and that yajl reads back what it prints of fine calls that nest no
-- deeper than `depth`: for a document that nests no deeper and makes only fine calls, whose texts are
-- shorter than 2 GiB and whose maps have distinct keys without NUL, the text that
-- `jdGenerator_generate` returns is parsed to that document again, with the entries of its maps in
-- the order in which they were walked.
pub parse_document-generate :
    (order : Fields → Fields) (depth : ℕ) (fine : Emit → Type 0) (print : List Emit → Bytes)
    (lex : Bytes → Lexed) (calloc_ok : Bool) (malloc_ok : ℕ → Bool) (j : Json) (text : Bytes)
    → Walks order
    → ReadsBack depth fine print lex
    → ((n : ℕ) → malloc_ok n ≡ true)
    → Plain j
    → Nested depth (walked order j)
    → AllFine fine (generate_node (walked order j))
    → generate order print calloc_ok j ≡ some text
    → parse_document malloc_ok lex text ≡ some (walked order j)
parse_document-generate order depth fine print lex calloc_ok malloc_ok j text walks yajl always w n
      f g =
    let (e, h) = generated order print calloc_ok j text g in
    let plain = walked-Plain order walks j w in
    let read =
      yajl.reads_back (generate_node (walked order j)) (events (walked order j)) f
        (generate_node-Shallow depth (walked order j) n)
        (generate_node-echoes (walked order j) plain) in
    parse_document-ReadAs malloc_ok lex text (walked order j) always (omega arith)
      (subst (λ t. ReadAs lex t (walked order j)) e read) plain
