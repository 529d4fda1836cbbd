-- ===== src/Dom/Node.antt =====
-- The types of src/json-dom.h, the constructors, the accessors and the containers.
use ioprocess.Base.{
  ℕ, ℤ, Bytes, Bool, true, false, Option, none, some, c_str, bytes_eq, ◌==◌, if◌then◌else◌,
}

-- `JsonNodeType`
abbrev pub jt_long : ℕ
jt_long = 1

abbrev pub jt_string : ℕ
jt_string = 2

abbrev pub jt_map : ℕ
jt_map = 3

abbrev pub jt_array : ℕ
jt_array = 4

abbrev pub jt_null : ℕ
jt_null = 5

abbrev pub jt_boolean : ℕ
jt_boolean = 6

abbrev pub jt_double : ℕ
jt_double = 7

-- `JsonNode` with what its `data` points at. A double is its bit pattern. A map is its entries in
-- the order of their insertion, an array its elements before the closing NULL.
mutual
  pub data Json : Type 0 where
    null : Json
    boolean : ℤ → Json
    long : ℤ → Json
    double : ℕ → Json
    string : Bytes → Json
    object : Fields → Json
    array : Items → Json

  pub data Fields : Type 0 where
    end : Fields
    field : Bytes → Json → Fields → Fields

  pub data Items : Type 0 where
    nil : Items
    cons : Json → Items → Items

-- `JsonNode_getType`
unfoldable pub node_type : Json → ℕ
node_type null = jt_null
node_type (boolean b) = jt_boolean
node_type (long l) = jt_long
node_type (double d) = jt_double
node_type (string s) = jt_string
node_type (object fs) = jt_map
node_type (array xs) = jt_array

-- `JsonNode_isContainer`
unfoldable pub is_container : Json → Bool
unfolding node_type
is_container node =
    if node_type node == jt_map then true else if node_type node == jt_array then true else false

-- `JsonNode_newFromString`: the text up to its NUL. `string` itself is `JsonNode_newFromStringLen`.
unfoldable pub new_string : Bytes → Json
new_string s = string (c_str s)

-- `g_hash_table_insert` and `g_hash_table_lookup` on the entries: a key is held once, and its last
-- value stays.
unfoldable pub insert : Bytes → Json → Fields → Fields
insert k v end = field k v end
insert k v (field j w fs) = if bytes_eq j k then field j v fs else field j w (insert k v fs)

unfoldable pub lookup : Bytes → Fields → Option Json
lookup k end = none
lookup k (field j v fs) = if bytes_eq j k then some v else lookup k fs

unfoldable pub append : Items → Json → Items
append nil x = cons x nil
append (cons y ys) x = cons y (append ys x)

-- `JsonNode_map_insert` with its GError ignored: a parent of another type is left alone.
unfoldable pub map_insert : Json → Bytes → Json → Json
map_insert (object fs) key node = object (insert (c_str key) node fs)
map_insert parent key node = parent

-- `JsonNode_map_lookup` with its GError ignored: NULL for a node of another type.
unfoldable pub map_lookup : Json → Bytes → Option Json
map_lookup (object fs) key = lookup (c_str key) fs
map_lookup node key = none

-- `JsonNode_array_append` sets an error for a parent of another type and goes on to use its data
-- as an array: `none` stands for that undefined behaviour.
unfoldable pub array_append : Json → Json → Option Json
array_append (array xs) node = some (array (append xs node))
array_append parent node = none
