-- ===== src/Tests/Documents.antt =====
-- Documents in memory, parsed and printed.
use ioprocess.Base.{
  ℕ, ◌-◌, ◌≤◌, ◌<◌, pos, Bytes, Bool, true, false, none, some, [], ◌∷◌, codes, c_str, bytes_eq, ◌≡◌,
  refl, arith,
}
use ioprocess.Dom.{Items, long, array, object, Fields, field, end, cons, nil}
use ioprocess.Dom.Store.{Memory, Cells, update, array_node, long_node, free_node}
use ioprocess.Dom.Store.Tree.{read_node}
use ioprocess.Dom.Store.Owned.{Owns}
use ioprocess.Dom.Store.Release.{Emptied, free_node-Emptied}
use ioprocess.Parser.Events.{events, has, Plain}
use ioprocess.Parser.Builder.{
  on_start_map, on_map_key, on_start_array, on_long, on_end_array, on_end_map,
}
use ioprocess.Parser.Build.{Lexed, build_dom, built, rejected, einval}
use ioprocess.Parser.Laws.{parse_document, build_dom-reads}
use ioprocess.Parser.Rejects.{build_dom-rejects}
use ioprocess.Generator.Laws.{Walks}
use ioprocess.Pipe.Frame.{frames}
use ioprocess.Pipe.Reader.{reader, vars, stopped, epipe}
use ioprocess.Pipe.Requests.{reader_receives_documents}
use ioprocess.Tests.Pipes.{list_input, list_input-IsPipe, alloc_all}

-- { "a": [1], "b": 2 }
abbrev pub small_fields : Fields
small_fields =
    field (codes "a") (array (cons (long (pos 1)) nil)) (field (codes "b") (long (pos 2)) end)

pub small_fields-Plain : Plain (object small_fields)
unfolding has c_str bytes_eq
small_fields-Plain = (refl, refl, omega arith, (tt, tt), (refl, refl, omega arith, tt, tt))

abbrev pub malloc_all : ℕ → Bool
malloc_all n = true

abbrev pub lex_small : Bytes → Lexed
lex_small text = record {
  parsed = events (object small_fields);
  parsed_ok = true;
  completed = [];
  completed_ok = true;
}

-- A text that breaks off inside the array.
abbrev lex_cut : Bytes → Lexed
lex_cut text = record {
  parsed = on_start_map ∷ on_map_key (codes "a") ∷ on_start_array ∷ on_long (pos 1) ∷ [];
  parsed_ok = true;
  completed = [];
  completed_ok = false;
}

-- An array at 1 whose item is at 2.
abbrev two_cells : Cells
two_cells = update (update (λ q. none) 1 (some (array_node (2 ∷ [])))) 2 (some (long_node (pos 5)))

abbrev two_nodes : Memory
two_nodes = record { cell = two_cells; next = 3; mallocs = 2 }

-- An array at 5, made behind its items at 2 and 9.
abbrev far_cells : Cells
far_cells =
    update
      (update (update (λ q. none) 5 (some (array_node (9 ∷ 2 ∷ [])))) 2 (some (long_node (pos 5))))
      9 (some (long_node (pos 6)))

abbrev far_nodes : Memory
far_nodes = record { cell = far_cells; next = 12; mallocs = 3 }

abbrev far_items : Items
far_items = cons (long (pos 6)) (cons (long (pos 5)) nil)

far_nodes-Owns : Owns far_cells 5 (5 ∷ 9 ∷ 2 ∷ []) (array far_items)
far_nodes-Owns = (
  9 ∷ 2 ∷ [],
  9 ∷ 2 ∷ [],
  refl,
  refl,
  (
    9,
    2 ∷ [],
    9 ∷ [],
    2 ∷ [],
    refl,
    refl,
    (refl, refl),
    (2, [], 2 ∷ [], [], refl, refl, (refl, refl), (refl, refl)),
  ),
)

free_node-Emptied_example :
    (m' : Memory) × (free_node 3 5 far_nodes ≡ some m') × Emptied (5 ∷ 9 ∷ 2 ∷ []) far_nodes m'
free_node-Emptied_example =
    free_node-Emptied 3 far_nodes 5 (5 ∷ 9 ∷ 2 ∷ []) (array far_items) far_nodes-Owns
      ((λ e. omega arith, (λ e. omega arith, tt)), ((λ e. omega arith, tt), (tt, tt))) (omega arith)

build_dom-reads_example :
    (m' : Memory) × (build_dom malloc_all lex_small true (codes "text") two_nodes ≡ built 3 m')
    × (read_node (m'.next - 3) m'.cell 3 ≡ some (object small_fields))
    × ((q : ℕ) → q < 3 → m'.cell q ≡ two_nodes.cell q)
build_dom-reads_example =
    build_dom-reads malloc_all lex_small (codes "text") two_nodes (events (object small_fields)) []
      (object small_fields) (λ n. refl) (omega arith) refl refl small_fields-Plain

build_dom-rejects_example :
    (m' : Memory) × (build_dom malloc_all lex_cut true (codes "text") two_nodes
      ≡ rejected einval m')
    × ((q : ℕ) → q < 3 → m'.cell q ≡ two_nodes.cell q)
    × ((q : ℕ) → 3 ≤ q → q < m'.next → m'.cell q ≡ none)
build_dom-rejects_example =
    build_dom-rejects malloc_all lex_cut (codes "text") two_nodes
      (on_end_array ∷ on_map_key (codes "b") ∷ on_long (pos 2) ∷ on_end_map ∷ [])
      (object small_fields) (λ n. refl) (omega arith) refl refl small_fields-Plain

abbrev pub as_stored : Fields → Fields
as_stored fs = fs

pub as_stored-Walks : Walks as_stored
as_stored-Walks = record { keeps_plain = λ fs w. w; keeps_entries = λ fs k w. refl }

reader_receives_documents_example :
    reader list_input
      (parse_document malloc_all lex_small)
      alloc_all
      5
      vars
      (frames (codes "text" ∷ []))
    ≡ record { pushed = object small_fields ∷ []; ending = stopped epipe }
unfolding list_input-IsPipe
reader_receives_documents_example =
    reader_receives_documents list_input list_input-IsPipe malloc_all lex_small alloc_all
      (codes "text" ∷ []) (object small_fields ∷ []) 5 (frames (codes "text" ∷ [])) (λ n. refl) refl
      (
        (
          omega arith,
          omega arith,
          refl,
          (events (object small_fields), [], refl, refl),
          small_fields-Plain,
        ),
        tt,
      )
      refl (omega arith)
