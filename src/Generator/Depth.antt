-- ===== src/Generator/Depth.antt =====
-- How deep the containers of a document, and the calls of `yajl_gen` for it, nest.
use ioprocess.Base.{ℕ, zero, suc, List, [], ◌∷◌, ◌++◌, sym, append_assoc, append-nil}
use mathlib.Core.Path.{subst}
use ioprocess.Dom.{
  Json, null, boolean, long, double, string, object, array, Fields, end, field, Items, nil, cons,
}
use ioprocess.Generator.{
  Emit, gen_null, gen_bool, gen_integer, gen_double, gen_string, gen_map_open, gen_map_close,
  gen_array_open, gen_array_close, generate_node, generate_fields, generate_items,
}

-- A document whose containers nest at most so deep.
abbrev mutual
  pub Nested : ℕ → Json → Type 0
  Nested zero (object fs) = ⊥
  Nested (suc room) (object fs) = NestedFields room fs
  Nested zero (array xs) = ⊥
  Nested (suc room) (array xs) = NestedItems room xs
  Nested room null = Unit
  Nested room (boolean b) = Unit
  Nested room (long l) = Unit
  Nested room (double d) = Unit
  Nested room (string s) = Unit

  pub NestedFields : ℕ → Fields → Type 0
  NestedFields room end = Unit
  NestedFields room (field k v fs) = Nested room v × NestedFields room fs

  pub NestedItems : ℕ → Items → Type 0
  NestedItems room nil = Unit
  NestedItems room (cons x xs) = Nested room x × NestedItems room xs

-- Calls that never have more containers open than there is room for.
abbrev pub Shallow : ℕ → List Emit → Type 0
Shallow room [] = Unit
Shallow zero (gen_map_open ∷ es) = ⊥
Shallow (suc room) (gen_map_open ∷ es) = Shallow room es
Shallow zero (gen_array_open ∷ es) = ⊥
Shallow (suc room) (gen_array_open ∷ es) = Shallow room es
Shallow room (gen_map_close ∷ es) = Shallow (suc room) es
Shallow room (gen_array_close ∷ es) = Shallow (suc room) es
Shallow room (gen_null ∷ es) = Shallow room es
Shallow room (gen_bool b ∷ es) = Shallow room es
Shallow room (gen_integer l ∷ es) = Shallow room es
Shallow room (gen_double d ∷ es) = Shallow room es
Shallow room (gen_string t ∷ es) = Shallow room es

mutual
  unfolding generate_node

  Shallow-node :
      (room : ℕ) (j : Json) (rest : List Emit)
      → Nested room j
      → Shallow room rest
      → Shallow room (generate_node j ++ rest)
  Shallow-node room null rest w s = s
  Shallow-node room (boolean b) rest w s = s
  Shallow-node room (long l) rest w s = s
  Shallow-node room (double d) rest w s = s
  Shallow-node room (string t) rest w s = s
  Shallow-node zero (object fs) rest w s = absurd w
  Shallow-node (suc room) (object fs) rest w s =
      subst (Shallow room) (sym (append_assoc (generate_fields fs) (gen_map_close ∷ []) rest))
        (Shallow-fields room fs (gen_map_close ∷ rest) w s)
  Shallow-node zero (array xs) rest w s = absurd w
  Shallow-node (suc room) (array xs) rest w s =
      subst (Shallow room) (sym (append_assoc (generate_items xs) (gen_array_close ∷ []) rest))
        (Shallow-items room xs (gen_array_close ∷ rest) w s)

  Shallow-fields :
      (room : ℕ) (fs : Fields) (rest : List Emit)
      → NestedFields room fs
      → Shallow room rest
      → Shallow room (generate_fields fs ++ rest)
  Shallow-fields room end rest w s = s
  Shallow-fields room (field k v fs) rest (a, w) s =
      subst (Shallow room) (sym (append_assoc (generate_node v) (generate_fields fs) rest))
        (Shallow-node room v (generate_fields fs ++ rest) a (Shallow-fields room fs rest w s))

  Shallow-items :
      (room : ℕ) (xs : Items) (rest : List Emit)
      → NestedItems room xs
      → Shallow room rest
      → Shallow room (generate_items xs ++ rest)
  Shallow-items room nil rest w s = s
  Shallow-items room (cons x xs) rest (a, w) s =
      subst (Shallow room) (sym (append_assoc (generate_node x) (generate_items xs) rest))
        (Shallow-node room x (generate_items xs ++ rest) a (Shallow-items room xs rest w s))

pub generate_node-Shallow : (room : ℕ) (j : Json) → Nested room j → Shallow room (generate_node j)
generate_node-Shallow room j w =
    subst (Shallow room) (append-nil (generate_node j)) (Shallow-node room j [] w tt)
