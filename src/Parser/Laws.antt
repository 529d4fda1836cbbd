-- ===== src/Parser/Laws.antt =====
-- `jdParser_buildDom` builds the document that yajl reads.
use ioprocess.Base.{
  ℕ, suc, ◌-◌, ◌%◌, ◌<◌, ◌^◌, Bytes, Bool, true, Option, none, some, List, [], ◌∷◌, ◌++◌, length,
  take, take_all, ◌≡◌, refl, sym, ap, ◌∙◌, arith,
}
use mathlib.Core.Path.{subst}
use ioprocess.Dom.{Json, null, boolean, long, double, string, object, array}
use ioprocess.Dom.Store.{
  Node, null_node, boolean_node, long_node, double_node, string_node, map_node, array_node, Memory,
}
use ioprocess.Dom.Store.Tree.{Holds, HoldsFields, HoldsItems, Holds-bound, read_node, read_Holds}
use ioprocess.Parser.Builder.{
  Builder, Event, on_null, on_boolean, on_long, on_double, on_string, on_start_map, on_end_map,
  on_start_array, on_end_array, Outcome, proceed, cancel, crash, callback, resume, run, add_at,
  add_value, pop,
}
use ioprocess.Parser.Build.{
  Lexed, Built, built, rejected, crashed, peek_tail, finish, checked, complete, build_dom,
  empty_builder,
}
use ioprocess.Parser.Events.{events, field_events, item_events, Plain}
use ioprocess.Parser.Steps.{
  update_other, update_same, Makes, Opens, null-Makes, boolean-Makes, long-Makes, double-Makes,
  string-Makes, map-Opens, array-Opens, run_append, run-append, run-cons,
}
use ioprocess.Parser.Adds.{fields_adds, items_adds}

module _ (malloc_ok : ℕ → Bool) (always : (n : ℕ) → malloc_ok n ≡ true) where
  -- A document alone on the stack, and no other node touched.
  abbrev pub Roots : Json → Memory → Builder → Type 0
  Roots j m b =
      (b.stack ≡ m.next ∷ [])
      × Holds b.memory.cell m.next b.memory.next j
      × ((q : ℕ) → q < m.next → b.memory.cell q ≡ m.cell q)

  abbrev pub Builds : Json → Memory → Type 0
  Builds j m =
      (b : Builder) × (run malloc_ok (events j) (empty_builder m) ≡ proceed b) × Roots j m b

  pub root_leaf :
      (e : Event) (v : Node) (m : Memory)
      → Makes malloc_ok always e v
      → (b : Builder) × (run malloc_ok (e ∷ []) (empty_builder m) ≡ proceed b)
        × (b.stack ≡ m.next ∷ [])
        × (b.memory.cell m.next ≡ some v)
        × (b.memory.next ≡ suc m.next)
        × ((q : ℕ) → q < m.next → b.memory.cell q ≡ m.cell q)
  unfolding run add_value add_at
  root_leaf e v m makes =
      let (m', (p, q), run_e) = makes (empty_builder m) in
      (
        record { key = []; stack = m.next ∷ []; memory = m' },
        run-cons malloc_ok always e [] (empty_builder m) _ run_e,
        refl,
        ap (λ f. f m.next) p ∙ update_same m.cell m.next (some v),
        q,
        λ r h. ap (λ f. f r) p ∙ update_other m.cell m.next r (some v) (omega arith),
      )

  pub root_open :
      (e : Event) (v : Node) (m : Memory)
      → Opens malloc_ok always e v
      → (b : Builder) × (callback malloc_ok e (empty_builder m) ≡ proceed b)
        × (b.stack ≡ m.next ∷ (m.next ∷ []))
        × (b.memory.cell m.next ≡ some v)
        × (b.memory.next ≡ suc m.next)
        × ((q : ℕ) → q < m.next → b.memory.cell q ≡ m.cell q)
  unfolding add_value add_at
  root_open e v m opens =
      let (m', (p, q), run_e) = opens (empty_builder m) in
      (
        record { key = []; stack = m.next ∷ (m.next ∷ []); memory = m' },
        run_e,
        refl,
        ap (λ f. f m.next) p ∙ update_same m.cell m.next (some v),
        q,
        λ r h. ap (λ f. f r) p ∙ update_other m.cell m.next r (some v) (omega arith),
      )

  pub root-Builds : (j : Json) (m : Memory) → Plain j → Builds j m
  unfolding run callback pop
  root-Builds null m w =
      let (b, r, s, e, h, f) = root_leaf on_null null_node m (null-Makes malloc_ok always) in
      (b, r, (s, (e, h), f))
  root-Builds (boolean x) m w =
      let (b, r, s, e, h, f) =
        root_leaf (on_boolean x) (boolean_node x) m (boolean-Makes malloc_ok always x) in
      (b, r, (s, (e, h), f))
  root-Builds (long x) m w =
      let (b, r, s, e, h, f) =
        root_leaf (on_long x) (long_node x) m (long-Makes malloc_ok always x) in
      (b, r, (s, (e, h), f))
  root-Builds (double x) m w =
      let (b, r, s, e, h, f) =
        root_leaf (on_double x) (double_node x) m (double-Makes malloc_ok always x) in
      (b, r, (s, (e, h), f))
  root-Builds (string x) m w =
      let (b, r, s, e, h, f) =
        root_leaf (on_string x) (string_node x) m (string-Makes malloc_ok always x w) in
      (b, r, (s, (e, h), f))
  root-Builds (object fs) m w =
      let n = m.next in
      let (b2, start, s, e, one, f) =
        root_open on_start_map (map_node []) m (map-Opens malloc_ok always) in
      let (b3, qs, filled, u, h) =
        fields_adds malloc_ok always fs b2 n (n ∷ []) [] w s (omega arith) e in
      (
        record b3 { stack = pop b3.stack },
        run-cons malloc_ok always on_start_map (field_events fs ++ (on_end_map ∷ []))
              (empty_builder m) b2 start
            ∙ run-append malloc_ok always (field_events fs) (on_end_map ∷ []) b2 b3 filled,
        (
          ap pop (u.same_stack ∙ s),
          (qs, u.child, subst (λ z. HoldsFields b3.memory.cell z b3.memory.next qs fs) one h),
          λ q l. u.frame q (omega arith) (omega arith) ∙ f q l,
        ),
      )
  root-Builds (array xs) m w =
      let n = m.next in
      let (b2, start, s, e, one, f) =
        root_open on_start_array (array_node []) m (array-Opens malloc_ok always) in
      let (b3, qs, filled, u, h) =
        items_adds malloc_ok always xs b2 n (n ∷ []) [] w s (omega arith) e in
      (
        record b3 { stack = pop b3.stack },
        run-cons malloc_ok always on_start_array (item_events xs ++ (on_end_array ∷ []))
              (empty_builder m) b2 start
            ∙ run-append malloc_ok always (item_events xs) (on_end_array ∷ []) b2 b3 filled,
        (
          ap pop (u.same_stack ∙ s),
          (qs, u.child, subst (λ z. HoldsItems b3.memory.cell z b3.memory.next qs xs) one h),
          λ q l. u.frame q (omega arith) (omega arith) ∙ f q l,
        ),
      )

  pub resumed_from :
      (next : Builder → Outcome) (o : Outcome) (b : Builder)
      → resume next o ≡ proceed b
      → (b' : Builder) × (o ≡ proceed b') × (next b' ≡ proceed b)
  resumed_from next (proceed b') b e = (b', refl, e)
  resumed_from next (cancel b') b e = cc
  resumed_from next crash b e = cc

  -- The two calls of yajl, on the callbacks of a whole document.
  build_dom-built :
      (lex : Bytes → Lexed) (buffer : Bytes) (m : Memory) (first more : List Event) (b : Builder)
      → length buffer < 2 ^ 32
      → lex buffer
        ≡ record { parsed = first; parsed_ok = true; completed = more; completed_ok = true }
      → run malloc_ok (first ++ more) (empty_builder m) ≡ proceed b
      → build_dom malloc_ok lex true buffer m ≡ finish b
  unfolding build_dom checked complete
  build_dom-built lex buffer m first more b h l r =
      let (b1, p, q) =
        resumed_from (run malloc_ok more) (run malloc_ok first (empty_builder m)) b
          (sym (run_append malloc_ok always first more (empty_builder m)) ∙ r) in
      let all : take (length buffer % 2 ^ 32) buffer ≡ buffer =
        take_all (length buffer % 2 ^ 32) buffer (omega arith) in
      rw (all, l, p, q) refl

finish_root : (b : Builder) (p : ℕ) → b.stack ≡ p ∷ [] → finish b ≡ built p b.memory
unfolding finish peek_tail
finish_root b p s = ap (λ z. finish_at z b) s
  where
    finish_at : List ℕ → Builder → Built
    finish_at z b = finish (record b { stack = z })

-- When memory can be had, a text of less than 4 GiB that yajl reads as a document, whose maps have
-- distinct keys without NUL and whose texts are shorter than 2 GiB, is built: the result is the address at which memory was free, the document is read back from there, and no node
-- that was there before is changed.
pub build_dom-reads :
    (malloc_ok : ℕ → Bool) (lex : Bytes → Lexed) (buffer : Bytes) (m : Memory)
    (first more : List Event) (j : Json)
    → ((n : ℕ) → malloc_ok n ≡ true)
    → length buffer < 2 ^ 32
    → lex buffer
      ≡ record { parsed = first; parsed_ok = true; completed = more; completed_ok = true }
    → first ++ more ≡ events j
    → Plain j
    → (m' : Memory) × (build_dom malloc_ok lex true buffer m ≡ built m.next m')
      × (read_node (m'.next - m.next) m'.cell m.next ≡ some j)
      × ((q : ℕ) → q < m.next → m'.cell q ≡ m.cell q)
unfolding finish peek_tail
build_dom-reads malloc_ok lex buffer m first more j always h l e w =
    let (b, r, (s, t, f)) = root-Builds malloc_ok always j m w in
    let c = Holds-bound b.memory.cell m.next b.memory.next j t in
    (
      b.memory,
      build_dom-built malloc_ok always lex buffer m first more b h l
            (ap (λ z. run malloc_ok z (empty_builder m)) e ∙ r)
          ∙ finish_root b m.next s,
      read_Holds (b.memory.next - m.next) b.memory.cell m.next b.memory.next j t (omega arith),
      f,
    )

-- yajl reads a text as a document.
abbrev pub ReadAs : (Bytes → Lexed) → Bytes → Json → Type 0
ReadAs lex text j =
    (first : List Event) × (more : List Event) × (lex text
      ≡ record { parsed = first; parsed_ok = true; completed = more; completed_ok = true })
    × (first ++ more ≡ events j)

-- The document that a text gives, from empty memory.
abbrev pub document_of : Built → Option Json
document_of (built p m) = read_node (m.next - p) m.cell p
document_of (rejected e m) = none
document_of crashed = none

abbrev pub no_memory_used : Memory
no_memory_used = record { cell = λ q. none; next = 1; mallocs = 0 }

unfoldable pub parse_document : (ℕ → Bool) → (Bytes → Lexed) → Bytes → Option Json
unfolding build_dom
parse_document malloc_ok lex text = document_of (build_dom malloc_ok lex true text no_memory_used)

pub parse_document-ReadAs :
    (malloc_ok : ℕ → Bool) (lex : Bytes → Lexed) (text : Bytes) (j : Json)
    → ((n : ℕ) → malloc_ok n ≡ true)
    → length text < 2 ^ 32
    → ReadAs lex text j
    → Plain j
    → parse_document malloc_ok lex text ≡ some j
unfolding parse_document
parse_document-ReadAs malloc_ok lex text j always h (first, more, l, e) w =
    let (m, b, r, f) =
      build_dom-reads malloc_ok lex text no_memory_used first more j always h l e w in
    ap document_of b ∙ r
