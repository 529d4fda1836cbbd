-- ===== src/Dom/Store.antt =====
-- Nodes in memory: `JsonNode_new` and what stands on it, the containers with their pointers, and
-- `JsonNode_free`.
pub mod Tree
pub mod Free
pub mod Owned
pub mod Release
use ioprocess.Base.{
  ℕ, ℤ, zero, suc, Bytes, c_str, bytes_eq, Bool, Option, none, some, List, [], ◌∷◌, ◌++◌, ◌==◌,
  if◌then◌else◌,
}

-- `JsonNode` with its data. A container holds the addresses of its children: a map in the order of
-- their insertion, under distinct keys.
pub data Node : Type 0 where
  null_node : Node
  boolean_node : ℤ → Node
  long_node : ℤ → Node
  double_node : ℕ → Node
  string_node : Bytes → Node
  map_node : List (Bytes × ℕ) → Node
  array_node : List ℕ → Node

abbrev pub Cells : Type 0
Cells = ℕ → Option Node

-- The nodes, the next address, and how often `malloc` was called. An address is not used again.
pub record Memory : Type 0 where
  pub cell : Cells
  pub next : ℕ
  pub mallocs : ℕ

abbrev pub update : Cells → ℕ → Option Node → Cells
update cell p node q = if p == q then node else cell q

abbrev pub set : ℕ → Option Node → Memory → Memory
set p node m = record m { cell = update m.cell p node }

abbrev pub called : Memory → Memory
called m = record m { mallocs = suc m.mallocs }

abbrev pub placed : Node → Memory → Memory
placed node m = record {
  cell = update m.cell m.next (some node);
  next = suc m.next;
  mallocs = suc m.mallocs;
}

-- `malloc_ok n` says whether the call of `malloc` after `n` others succeeds.
module _ (malloc_ok : ℕ → Bool) where
  -- `JsonNode_new`: `none` is NULL.
  unfoldable pub new_node : Node → Memory → Option ℕ × Memory
  new_node node m = if malloc_ok m.mallocs then (some m.next, placed node m) else (none, called m)

  -- `JsonNode_newFromData`: a node other than a null has its data allocated first.
  unfoldable pub new_from_data : Node → Memory → Option ℕ × Memory
  unfolding new_node
  new_from_data null_node m = new_node null_node m
  new_from_data node m = if malloc_ok m.mallocs then new_node node (called m) else (none, called m)

-- `g_hash_table_lookup` on the entries.
unfoldable pub find_entry : Bytes → List (Bytes × ℕ) → Option ℕ
find_entry k [] = none
find_entry k ((j, p) ∷ es) = if bytes_eq j k then some p else find_entry k es

-- `g_hash_table_insert` on the entries: a key that is there keeps its place.
unfoldable pub put_entry : Bytes → ℕ → List (Bytes × ℕ) → List (Bytes × ℕ)
put_entry k p [] = (k, p) ∷ []
put_entry k p ((j, q) ∷ es) = if bytes_eq j k then (j, p) ∷ es else (j, q) ∷ put_entry k p es

abbrev pub addresses : List (Bytes × ℕ) → List ℕ
addresses [] = []
addresses ((k, p) ∷ es) = p ∷ addresses es

abbrev pub children : Node → List ℕ
children (map_node es) = addresses es
children (array_node ps) = ps
children node = []

abbrev pub free_all : (ℕ → Memory → Option Memory) → List ℕ → Memory → Option Memory
free_all free [] m = some m
free_all free (p ∷ ps) m = elim (free p m) [ none ↦ none | some m' ↦ free_all free ps m' ]

abbrev pub clear : ℕ → Option Memory → Option Memory
clear p none = none
clear p (some m) = some (set p none m)

-- `JsonNode_free` of a node that is not NULL: its children, and then itself. `none` is the use of an
-- address that holds no node, or a tree that is deeper than the fuel.
unfoldable pub free_node : ℕ → ℕ → Memory → Option Memory
free_node zero p m = none
free_node (suc fuel) p m = elim (m.cell p) [
  | none ↦ none
  | some node ↦ clear p (free_all (free_node fuel) (children node) m)
]

-- `JsonNode_array_append` with its GError ignored: `none` is a node of another type.
unfoldable pub array_append_node : ℕ → ℕ → Memory → Option Memory
array_append_node parent node m = elim (m.cell parent) [
  | some (array_node ps) ↦ some (set parent (some (array_node (ps ++ (node ∷ [])))) m)
  | _ ↦ none
]

abbrev pub drop_old : Option ℕ → Memory → Option Memory
drop_old none m = some m
drop_old (some old) m = free_node (suc m.next) old m

-- `JsonNode_map_insert` with its GError ignored: the value that a key had is freed.
unfoldable pub map_insert_node : ℕ → Bytes → ℕ → Memory → Option Memory
unfolding find_entry put_entry free_node
map_insert_node parent key node m = elim (m.cell parent) [
  | some (map_node es) ↦
      drop_old (find_entry (c_str key) es)
        (set parent (some (map_node (put_entry (c_str key) node es))) m)
  | none ↦ none
  | _ ↦ some m
]
