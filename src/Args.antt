-- ===== src/Args.antt =====
-- src/exported-functions.c: how an exported function takes its arguments from the request
-- (`safeGetArg`, `safeGetArgValue`, `safeGetArgValues`), and `JsonNode_getValue`.
pub mod Laws
use ioprocess.Base.{
  ℕ, zero, suc, ℤ, pos, Bytes, c_str, Bool, Option, none, some, List, [], ◌∷◌, ◌++◌, codes, ◌==◌,
  if◌then◌else◌,
}
use ioprocess.Dom.{
  Json, null, boolean, long, double, string, object, array, Fields, Items, node_type, map_lookup,
  jt_map,
}
use ioprocess.Sys.{GError, Act, ok, pure, throw, undefined, ◌>>=◌, argument_error}

-- What a local variable holds of which a getter was given the address: the kind of the last write
-- and its value. A variable of one kind that is read as another is a fault.
pub data Cell : Type 0 where
  uninit : Cell
  null_pointer : Cell
  int : ℤ → Cell
  long_int : ℤ → Cell
  g_string : Bytes → Cell
  hash_table : Fields → Cell
  g_array : Items → Cell

-- `JsonNode_getValue`: the write goes by the type of the node, and a double is not written at all.
unfoldable pub get_value : Json → Cell → Cell
get_value null out = int (pos 0)
get_value (boolean b) out = int b
get_value (object fs) out = hash_table fs
get_value (string s) out = g_string s
get_value (long l) out = long_int l
get_value (array xs) out = g_array xs
get_value (double d) out = out

abbrev pub einval : ℕ
einval = 22

abbrev argument_fault : Bytes → GError
argument_fault message = record { domain = argument_error; code = einval; message = message }

unfoldable pub args_empty : GError
args_empty = argument_fault (codes "args is empty")

unfoldable pub args_not_map : GError
args_not_map = argument_fault (codes "args must be a map")

unfoldable pub arg_missing : Bytes → GError
arg_missing name = argument_fault (codes "arg '" ++ (name ++ codes "' was not found in list"))

unfoldable pub arg_wrong_type : Bytes → GError
arg_wrong_type name = argument_fault (codes "Param '" ++ (name ++ codes "' has the wrong type"))

-- `safeGetArg`: the node that it returns, and what it leaves in `*err`.
unfoldable pub safe_get_arg : Option Json → Bytes → ℕ → Option Json × Option GError
unfolding node_type
safe_get_arg none name type = (none, some args_empty)
safe_get_arg (some args) name type =
    if node_type args == jt_map
    then elim (map_lookup args name) [
      | none ↦ (none, some (arg_missing name))
      | some tmp ↦ (some tmp, if node_type tmp == type then none else some (arg_wrong_type name))
    ]
    else (none, some args_not_map)

-- `safeGetArgValue`: the variable after the call, and the error that it propagates.
unfoldable pub safe_get_arg_value : Option Json → Bytes → ℕ → Cell → Cell × Option GError
unfolding safe_get_arg
safe_get_arg_value args name type out =
    let (tmp, tmp_error) = safe_get_arg args name type in
    elim tmp [ none ↦ (out, tmp_error) | some node ↦ (get_value node out, none) ]

-- One triple of the variable arguments of `safeGetArgValues`.
pub record Wanted : Type 0 where
  pub name : Bytes
  pub type : ℕ
  pub out : Cell

abbrev initial_cells : List Wanted → List Cell
initial_cells [] = []
initial_cells (w ∷ ws) = w.out ∷ initial_cells ws

-- `safeGetArgValues`: the variables in the order of the list, and the error that it propagates. The
-- loop stops at the first error.
unfoldable pub safe_get_arg_values : Option Json → List Wanted → List Cell × Option GError
safe_get_arg_values args [] = ([], none)
safe_get_arg_values args (w ∷ ws) =
    let rest = safe_get_arg_values args ws in
    let (cell, tmp_error) = safe_get_arg_value args w.name w.type w.out in
    elim tmp_error [ none ↦ (cell ∷ rest.0, rest.1) | some e ↦ (cell ∷ initial_cells ws, some e) ]

-- The beginning of an exported function: get the arguments, or return NULL with the error.
unfoldable pub get_args : Option Json → List Wanted → Act (List Cell)
unfolding safe_get_arg_values
get_args args ws =
    let (cells, tmp_error) = safe_get_arg_values args ws in
    elim tmp_error [ none ↦ pure cells | some e ↦ throw e ]

abbrev nth : List Cell → ℕ → Cell
nth [] i = uninit
nth (c ∷ cs) zero = c
nth (c ∷ cs) (suc i) = nth cs i

abbrev text_in : Cell → Act Bytes
text_in (g_string s) = pure s
text_in c = undefined

abbrev long_in : Cell → Act ℤ
long_in (long_int l) = pure l
long_in c = undefined

abbrev int_in : Cell → Act ℤ
int_in (int b) = pure b
int_in c = undefined

-- The use of the i-th variable: `v->str` and `v->len` of a `GString *`, a `long`, an `int`.
unfoldable pub text_at : List Cell → ℕ → Act Bytes
text_at cells i = text_in (nth cells i)

unfoldable pub long_at : List Cell → ℕ → Act ℤ
long_at cells i = long_in (nth cells i)

unfoldable pub int_at : List Cell → ℕ → Act ℤ
int_at cells i = int_in (nth cells i)

-- `path->str` as an argument of a call that takes a C string.
unfoldable pub c_text_at : List Cell → ℕ → Act Bytes
unfolding text_at
c_text_at cells i = do t ← text_at cells i; pure (c_str t)
