-- ===== src/Generator.antt =====
-- src/json-dom-generator.c: the calls of `yajl_gen` for a document.
pub mod Depth
pub mod Echo
pub mod Laws
use ioprocess.Base.{
  ℕ, ℤ, ◌%◌, ◌^◌, Bytes, c_str, Bool, Option, none, some, List, [], ◌∷◌, ◌++◌, length, take, ltb,
  ◌&&◌, if◌then◌else◌,
}
use ioprocess.Dom.{
  Json, null, boolean, long, double, string, object, array, Fields, end, field, Items, nil, cons,
}

-- One call of `yajl_gen`.
pub data Emit : Type 0 where
  gen_null : Emit
  gen_bool : ℤ → Emit
  gen_integer : ℤ → Emit
  gen_double : ℕ → Emit
  gen_string : Bytes → Emit
  gen_map_open : Emit
  gen_map_close : Emit
  gen_array_open : Emit
  gen_array_close : Emit

-- A text whose length is passed as an `unsigned int`.
abbrev pub counted : Bytes → Bytes
counted s = take (length s % 2 ^ 32) s

-- `jdGenerator_generate_node`, where the entries of a map stand in the order in which its hash table
-- is walked. Keys are C strings.
unfoldable mutual
  pub generate_node : Json → List Emit
  generate_node null = gen_null ∷ []
  generate_node (boolean b) = gen_bool b ∷ []
  generate_node (long l) = gen_integer l ∷ []
  generate_node (double d) = gen_double d ∷ []
  generate_node (string s) = gen_string (counted s) ∷ []
  generate_node (object fs) = gen_map_open ∷ (generate_fields fs ++ (gen_map_close ∷ []))
  generate_node (array xs) = gen_array_open ∷ (generate_items xs ++ (gen_array_close ∷ []))

  pub generate_fields : Fields → List Emit
  generate_fields end = []
  generate_fields (field k v fs) =
      gen_string (counted (c_str k)) ∷ (generate_node v ++ generate_fields fs)

  pub generate_items : Items → List Emit
  generate_items nil = []
  generate_items (cons x xs) = generate_node x ++ generate_items xs

-- `order` is the order in which `g_hash_table_iter_next` visits the entries of a map.
module _ (order : Fields → Fields) where
  -- A document with the entries of every map in that order.
  unfoldable mutual
    pub walked : Json → Json
    walked (object fs) = object (order (walked_fields fs))
    walked (array xs) = array (walked_items xs)
    walked null = null
    walked (boolean b) = boolean b
    walked (long l) = long l
    walked (double d) = double d
    walked (string s) = string s

    pub walked_fields : Fields → Fields
    walked_fields end = end
    walked_fields (field k v fs) = field k (walked v) (walked_fields fs)

    pub walked_items : Items → Items
    walked_items nil = nil
    walked_items (cons x xs) = cons (walked x) (walked_items xs)

  -- `jdGenerator_generate`: `print` is the text that `yajl_gen` makes of its calls. `none` is a copy
  -- to NULL, or with a length that is no `int`.
  unfoldable pub generate : (List Emit → Bytes) → Bool → Json → Option Bytes
  unfolding generate_node walked
  generate print calloc_ok node =
      let text = print (generate_node (walked node)) in
      if calloc_ok && ltb (length text) (2 ^ 31) then some text else none
