-- ===== src/Tests/Texts.antt =====
-- A text of two numbers for each call, for integers of no sign and strings of one byte, and the
-- round trip of a document through it.
use ioprocess.Base.{
  ℕ, pos, negsuc, append-nil, c_str, Bytes, true, false, Option, none, some, List, [], ◌∷◌, ◌≡◌,
  refl, ap, ◌∙◌, ◌==◌, if◌then◌else◌,
}
use ioprocess.Dom.{object}
use ioprocess.Parser.Builder.{Event}
use ioprocess.Parser.Build.{Lexed}
use ioprocess.Parser.Events.{events}
use ioprocess.Parser.Laws.{parse_document}
use ioprocess.Generator.{
  Emit, gen_null, gen_bool, gen_integer, gen_double, gen_string, gen_map_open, gen_map_close,
  gen_array_open, gen_array_close, generate_node, walked, generate,
}
use ioprocess.Generator.Depth.{Nested}
use ioprocess.Generator.Echo.{root, echoes, generate_node-echoes}
use ioprocess.Generator.Laws.{AllFine, ReadsBack, parse_document-generate}
use ioprocess.Tests.Documents.{
  small_fields, small_fields-Plain, malloc_all, as_stored, as_stored-Walks,
}

abbrev Fine : Emit → Type 0
Fine (gen_integer (pos n)) = Unit
Fine (gen_string (b ∷ [])) = Unit
Fine gen_map_open = Unit
Fine gen_map_close = Unit
Fine gen_array_open = Unit
Fine gen_array_close = Unit
Fine e = ⊥

abbrev print_one : Emit → Bytes → Bytes
print_one (gen_integer (pos n)) rest = 1 ∷ n ∷ rest
print_one (gen_string (b ∷ [])) rest = 2 ∷ b ∷ rest
print_one gen_map_open rest = 3 ∷ 0 ∷ rest
print_one gen_map_close rest = 4 ∷ 0 ∷ rest
print_one gen_array_open rest = 5 ∷ 0 ∷ rest
print_one gen_array_close rest = 6 ∷ 0 ∷ rest
print_one e rest = 0 ∷ 0 ∷ rest

abbrev print : List Emit → Bytes
print [] = []
print (e ∷ es) = print_one e (print es)

abbrev read_one : ℕ → ℕ → Emit
read_one tag n =
    if tag == 1
    then gen_integer (pos n)
    else if tag == 2
    then gen_string (n ∷ [])
    else if tag == 3
    then gen_map_open
    else if tag == 4
    then gen_map_close
    else if tag == 5
    then gen_array_open
    else if tag == 6
    then gen_array_close
    else gen_null

abbrev read : Bytes → List Emit
read [] = []
read (tag ∷ []) = []
read (tag ∷ n ∷ rest) = read_one tag n ∷ read rest

read-print_one : (e : Emit) (rest : Bytes) → Fine e → read (print_one e rest) ≡ e ∷ read rest
read-print_one (gen_integer (pos n)) rest f = refl
read-print_one (gen_integer (negsuc n)) rest f = absurd f
read-print_one (gen_string []) rest f = absurd f
read-print_one (gen_string (b ∷ [])) rest f = refl
read-print_one (gen_string (b ∷ c ∷ bs)) rest f = absurd f
read-print_one gen_map_open rest f = refl
read-print_one gen_map_close rest f = refl
read-print_one gen_array_open rest f = refl
read-print_one gen_array_close rest f = refl
read-print_one gen_null rest f = absurd f
read-print_one (gen_bool b) rest f = absurd f
read-print_one (gen_double d) rest f = absurd f

read-print : (es : List Emit) → AllFine Fine es → read (print es) ≡ es
read-print [] f = refl
read-print (e ∷ es) (f, fs) = read-print_one e (print es) f ∙ ap (λ r. e ∷ r) (read-print es fs)

abbrev lexed : Option (List Event) → Lexed
lexed none = record { parsed = []; parsed_ok = false; completed = []; completed_ok = false }
lexed (some vs) = record { parsed = vs; parsed_ok = true; completed = []; completed_ok = true }

abbrev lex : Bytes → Lexed
lex text = lexed (echoes (read text) (root ∷ []))

print-ReadsBack : ReadsBack 127 Fine print lex
print-ReadsBack = record {
  reads_back = λ es vs f shallow e. (
    vs,
    [],
    ap (λ z. lexed (echoes z (root ∷ []))) (read-print es f) ∙ ap lexed e,
    append-nil vs,
  );
}

abbrev small_text : Bytes
small_text = 3 ∷ 0 ∷ 2 ∷ 97 ∷ 5 ∷ 0 ∷ 1 ∷ 1 ∷ 6 ∷ 0 ∷ 2 ∷ 98 ∷ 1 ∷ 2 ∷ 4 ∷ 0 ∷ []

small-Fine : AllFine Fine (generate_node (walked as_stored (object small_fields)))
unfolding generate_node walked c_str
small-Fine = (tt, (tt, (tt, (tt, (tt, (tt, (tt, (tt, tt))))))))

small-Nested : Nested 127 (walked as_stored (object small_fields))
unfolding walked
small-Nested = ((tt, tt), (tt, tt))

small_printed : generate as_stored print true (object small_fields) ≡ some small_text
unfolding generate generate_node walked c_str
small_printed = refl

parse_document-generate_example :
    parse_document malloc_all lex small_text ≡ some (walked as_stored (object small_fields))
parse_document-generate_example =
    parse_document-generate as_stored 127 Fine print lex true malloc_all (object small_fields)
      small_text as_stored-Walks print-ReadsBack (λ n. refl) small_fields-Plain small-Nested
      small-Fine small_printed

generate_node-echoes_example :
    echoes (generate_node (object small_fields)) (root ∷ []) ≡ some (events (object small_fields))
generate_node-echoes_example = generate_node-echoes (object small_fields) small_fields-Plain
