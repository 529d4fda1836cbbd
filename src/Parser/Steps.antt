-- ===== src/Parser/Steps.antt =====
-- What one callback does inside an open container, when memory can be had.
use ioprocess.Base.{
  ℕ, ℤ, suc, ◌<◌, ◌^◌, Bytes, c_str, bytes_eq, Bool, true, false, Option, none, some, List, [], ◌∷◌,
  ◌++◌, length, take, drop, ◌≡◌, ◌≢◌, refl, sym, ap, ◌∙◌, arith, Bool-cases, inl, inr,
}
use ioprocess.Dom.Store.{
  Node, null_node, boolean_node, long_node, double_node, string_node, map_node, array_node, Cells,
  Memory, update, set, called, placed, new_node, new_from_data, find_entry, put_entry,
  array_append_node, map_insert_node,
}
use ioprocess.Parser.Builder.{
  Builder, Event, on_null, on_boolean, on_long, on_double, on_string, on_start_map, on_map_key,
  on_start_array, Outcome, proceed, cancel, crash, stored, add_under, add_at, add_value, safe_add,
  safe_container_add, push_container, overwrite_key, fits_int, with_new, add_string, callback,
  resume, run,
}
use ioprocess.Parser.Events.{has}

abbrev pub keys_of : List (Bytes × ℕ) → List Bytes
keys_of [] = []
keys_of ((k, p) ∷ es) = k ∷ keys_of es

-- A container with one more child.
abbrev pub Grows : Node → Bytes → ℕ → Node → Type 0
Grows (array_node ps) k p node = node ≡ array_node (ps ++ (p ∷ []))
Grows (map_node es) k p node =
    (has k (keys_of es) ≡ false) × (c_str k ≡ k) × (node ≡ map_node (es ++ ((k, p) ∷ [])))
Grows other k p node = ⊥

new_entry :
    (k : Bytes) (p : ℕ) (es : List (Bytes × ℕ))
    → has k (keys_of es) ≡ false
    → (find_entry k es ≡ none) × (put_entry k p es ≡ es ++ ((k, p) ∷ []))
unfolding find_entry put_entry has
new_entry k p [] h = (refl, refl)
new_entry k p ((j, q) ∷ es) h = elim (Bool-cases (bytes_eq j k)) [
  | inl e ↦ absurd (ground arith)
  | inr e ↦ let (u, v) = new_entry k p es (ground arith) in rw (e, u, v) (refl, refl)
]

array_append-Grows :
    (head p : ℕ) (ps : List ℕ) (m : Memory)
    → m.cell head ≡ some (array_node ps)
    → array_append_node head p m ≡ some (set head (some (array_node (ps ++ (p ∷ [])))) m)
unfolding array_append_node
array_append-Grows head p ps m e = rw (e, array_append_node) refl

map_insert-Grows :
    (head p : ℕ) (k : Bytes) (es : List (Bytes × ℕ)) (m : Memory)
    → m.cell head ≡ some (map_node es)
    → has k (keys_of es) ≡ false
    → c_str k ≡ k
    → map_insert_node head k p m ≡ some (set head (some (map_node (es ++ ((k, p) ∷ [])))) m)
unfolding map_insert_node
map_insert-Grows head p k es m e h c =
    let (u, v) = new_entry k p es h in rw (e, c, u, v, map_insert_node) refl

add_under-Grows :
    (head p : ℕ) (old new : Node) (b : Builder)
    → b.memory.cell head ≡ some old
    → Grows old b.key p new
    → add_under head p (b.memory.cell head) b
      ≡ proceed (record b { memory = set head (some new) b.memory })
unfolding add_under
add_under-Grows head p (array_node ps) new b e g =
    ap (λ o. add_under head p o b) e
    ∙ ap (stored b) (array_append-Grows head p ps b.memory e)
    ∙ ap (λ z. proceed (record b { memory = set head (some z) b.memory })) (sym g)
add_under-Grows head p (map_node es) new b e (h, c, g) =
    ap (λ o. add_under head p o b) e
    ∙ ap (stored b) (map_insert-Grows head p b.key es b.memory e h c)
    ∙ ap (λ z. proceed (record b { memory = set head (some z) b.memory })) (sym g)
add_under-Grows head p null_node new b e g = absurd g
add_under-Grows head p (boolean_node x) new b e g = absurd g
add_under-Grows head p (long_node x) new b e g = absurd g
add_under-Grows head p (double_node x) new b e g = absurd g
add_under-Grows head p (string_node x) new b e g = absurd g

pub update_other :
    (cell : Cells) (p q : ℕ) (node : Option Node) → p ≢ q → update cell p node q ≡ cell q
update_other cell p q value n = ground arith

pub update_same : (cell : Cells) (p : ℕ) (node : Option Node) → update cell p node p ≡ node
update_same cell p value = ground arith

overwrite_key_lem : (old val : Bytes) → overwrite_key old val ≡ val
unfolding overwrite_key
overwrite_key_lem old val = take_front val (drop (length val) old)
  where
    take_front : (xs ys : Bytes) → take (length xs) (xs ++ ys) ≡ xs
    take_front [] ys = refl
    take_front (x ∷ xs) ys = ap (λ t. x ∷ t) (take_front xs ys)

-- A new node under the head of the stack.
pub add_value-Grows :
    (b : Builder) (c : ℕ) (rest : List ℕ) (old new : Node) (p : ℕ)
    → b.stack ≡ c ∷ rest
    → b.memory.cell c ≡ some old
    → Grows old b.key p new
    → add_value p b ≡ proceed (record b { memory = set c (some new) b.memory })
unfolding add_value add_at
add_value-Grows b c rest old new p s e g =
    ap (λ z. add_at p z b) s ∙ add_under-Grows c p old new b e g

module _ (malloc_ok : ℕ → Bool) (always : (n : ℕ) → malloc_ok n ≡ true) where
  new_node-placed :
      (node : Node) (m : Memory) → new_node malloc_ok node m ≡ (some m.next, placed node m)
  unfolding new_node
  new_node-placed node m = rw (always m.mallocs, new_node) refl

  with_new-some :
      (alloc : Memory → Option ℕ × Memory) (add : Option ℕ → Builder → Outcome) (b : Builder)
      (p : ℕ) (m : Memory)
      → alloc b.memory ≡ (some p, m)
      → with_new malloc_ok alloc add b ≡ add (some p) (record b { memory = m })
  with_new-some alloc add b p m e = ap (λ r. add r.0 (record b { memory = r.1 })) e

  -- The memory with one more node at the next address, however often `malloc` was called.
  abbrev pub Places : Node → Memory → Memory → Type 0
  Places node m m' = (m'.cell ≡ update m.cell m.next (some node)) × (m'.next ≡ suc m.next)

  -- The event of a node without children.
  abbrev pub Makes : Event → Node → Type 0
  Makes e node =
      (b : Builder)
      → (m : Memory) × Places node b.memory m
        × (callback malloc_ok e b ≡ add_value b.memory.next (record b { memory = m }))

  pub null-Makes : Makes on_null null_node
  unfolding callback new_from_data safe_add
  null-Makes b = (
    placed null_node b.memory,
    (refl, refl),
    with_new-some (new_from_data malloc_ok null_node) safe_add b b.memory.next
        (placed null_node b.memory) (new_node-placed null_node b.memory),
  )

  pub boolean-Makes : (x : ℤ) → Makes (on_boolean x) (boolean_node x)
  unfolding callback new_from_data safe_add
  boolean-Makes x b = (
    placed (boolean_node x) (called b.memory),
    (refl, refl),
    with_new-some (new_from_data malloc_ok (boolean_node x)) safe_add b b.memory.next _ (
        rw (always b.memory.mallocs, new_from_data)
          (new_node-placed (boolean_node x) (called b.memory))),
  )

  pub long-Makes : (x : ℤ) → Makes (on_long x) (long_node x)
  unfolding callback new_from_data safe_add
  long-Makes x b = (
    placed (long_node x) (called b.memory),
    (refl, refl),
    with_new-some (new_from_data malloc_ok (long_node x)) safe_add b b.memory.next _ (
        rw (always b.memory.mallocs, new_from_data)
          (new_node-placed (long_node x) (called b.memory))),
  )

  pub double-Makes : (x : ℕ) → Makes (on_double x) (double_node x)
  unfolding callback new_from_data safe_add
  double-Makes x b = (
    placed (double_node x) (called b.memory),
    (refl, refl),
    with_new-some (new_from_data malloc_ok (double_node x)) safe_add b b.memory.next _ (
        rw (always b.memory.mallocs, new_from_data)
          (new_node-placed (double_node x) (called b.memory))),
  )

  pub string-Makes : (s : Bytes) → length s < 2 ^ 31 → Makes (on_string s) (string_node s)
  unfolding callback safe_add
  string-Makes s h b =
      let short : fits_int s ≡ true = ground arith in
      (
        placed (string_node s) b.memory,
        (refl, refl),
        rw (short, callback)
            (with_new-some (new_node malloc_ok (string_node s)) (add_string malloc_ok) b
              b.memory.next _ (new_node-placed (string_node s) b.memory)),
      )

  -- The event of an empty container: its node is added, and pushed on the stack.
  abbrev pub Opens : Event → Node → Type 0
  Opens e node =
      (b : Builder)
      → (m : Memory) × Places node b.memory m
        × (callback malloc_ok e b
            ≡ push_container b.memory.next (add_value b.memory.next (record b { memory = m })))

  pub map-Opens : Opens on_start_map (map_node [])
  unfolding callback safe_container_add safe_add
  map-Opens b = (
    placed (map_node []) b.memory,
    (refl, refl),
    with_new-some (new_node malloc_ok (map_node [])) safe_container_add b b.memory.next _
        (new_node-placed (map_node []) b.memory),
  )

  pub array-Opens : Opens on_start_array (array_node [])
  unfolding callback safe_container_add safe_add
  array-Opens b = (
    placed (array_node []) b.memory,
    (refl, refl),
    with_new-some (new_node malloc_ok (array_node [])) safe_container_add b b.memory.next _
        (new_node-placed (array_node []) b.memory),
  )

  pub map_key-callback :
      (k : Bytes) (b : Builder)
      → length k < 2 ^ 31
      → callback malloc_ok (on_map_key k) b ≡ proceed (record b { key = k })
  unfolding callback
  map_key-callback k b h =
      let short : fits_int k ≡ true = ground arith in
      rw (short, overwrite_key_lem b.key k, callback) refl

  resumed :
      (es fs : List Event) (o : Outcome)
      → ((b : Builder)
          → run malloc_ok (es ++ fs) b ≡ resume (run malloc_ok fs) (run malloc_ok es b))
      → resume (run malloc_ok (es ++ fs)) o
        ≡ resume (run malloc_ok fs) (resume (run malloc_ok es) o)
  resumed es fs (proceed b) h = h b
  resumed es fs (cancel b) h = refl
  resumed es fs crash h = refl

  pub run_append :
      (es fs : List Event) (b : Builder)
      → run malloc_ok (es ++ fs) b ≡ resume (run malloc_ok fs) (run malloc_ok es b)
  unfolding run
  run_append [] fs b = refl
  run_append (x ∷ es) fs b = resumed es fs (callback malloc_ok x b) (run_append es fs)

  pub run-append :
      (es fs : List Event) (b b' : Builder)
      → run malloc_ok es b ≡ proceed b'
      → run malloc_ok (es ++ fs) b ≡ run malloc_ok fs b'
  run-append es fs b b' e = run_append es fs b ∙ ap (resume (run malloc_ok fs)) e

  pub run-cons :
      (x : Event) (es : List Event) (b b' : Builder)
      → callback malloc_ok x b ≡ proceed b'
      → run malloc_ok (x ∷ es) b ≡ run malloc_ok es b'
  unfolding run
  run-cons x es b b' e = ap (resume (run malloc_ok es)) e
