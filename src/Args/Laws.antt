-- ===== src/Args/Laws.antt =====
-- What the argument getters report, and what they do not.
use ioprocess.Base.{
  ℕ, Bytes, Option, none, some, List, [], ◌∷◌, ◌≡◌, ◌≢◌, refl, arith, if◌then◌else◌, Option-cases,
  inl, inr, is_some,
}
use ioprocess.Dom.{Json, Fields, object, node_type, map_lookup}
use ioprocess.Sys.{GError, Sys, ok, fail}
use ioprocess.Args.{
  Cell, Wanted, get_value, safe_get_arg, safe_get_arg_value, safe_get_arg_values, get_args,
  args_empty, arg_missing, arg_wrong_type,
}

-- The names that are asked for, in order.
abbrev pub names : List Wanted → List Bytes
names [] = []
names (w ∷ ws) = w.name ∷ names ws

-- The first of some names that a map does not hold.
abbrev pub first_missing : Fields → List Bytes → Option Bytes
first_missing fs [] = none
first_missing fs (n ∷ ns) =
    if is_some (map_lookup (object fs) n) then first_missing fs ns else some n

abbrev pub missing_error : Option Bytes → Option GError
missing_error none = none
missing_error (some n) = some (arg_missing n)

module _ (fs : Fields) (name : Bytes) (type : ℕ) (out : Cell) where
  pub value_found :
      {node : Json}
      → map_lookup (object fs) name ≡ some node
      → safe_get_arg_value (some (object fs)) name type out ≡ (get_value node out, none)
  unfolding safe_get_arg_value
  value_found e = ground arith

  pub value_missing :
      map_lookup (object fs) name ≡ none
      → safe_get_arg_value (some (object fs)) name type out ≡ (out, some (arg_missing name))
  unfolding safe_get_arg_value
  value_missing e = ground arith

  -- `safeGetArg` finds that an argument has the wrong type, and `safeGetArgValue` returns without an
  -- error all the same, with the variable written by the type that the node has.
  pub safe_get_arg_value-wrong_type :
      {node : Json}
      → map_lookup (object fs) name ≡ some node
      → node_type node ≢ type
      → ((safe_get_arg (some (object fs)) name type).1 ≡ some (arg_wrong_type name))
        × (safe_get_arg_value (some (object fs)) name type out ≡ (get_value node out, none))
  unfolding safe_get_arg
  safe_get_arg_value-wrong_type e ne = (ground arith, value_found e)

-- On a map, the error of `safeGetArgValues` is that of the first name that the map does not hold,
-- and there is none exactly when it holds every name: types play no part.
pub safe_get_arg_values-missing :
    (fs : Fields) (ws : List Wanted)
    → (safe_get_arg_values (some (object fs)) ws).1 ≡ missing_error (first_missing fs (names ws))
unfolding safe_get_arg_values
safe_get_arg_values-missing fs [] = refl
safe_get_arg_values-missing fs (w ∷ ws) = elim (Option-cases (map_lookup (object fs) w.name)) [
  | inl e ↦ ground (arith, value_missing fs w.name w.type w.out e)
  | inr (v, e) ↦
      ground (arith, value_found fs w.name w.type w.out e, safe_get_arg_values-missing fs ws)
]

-- Without an args node the first argument fails.
pub get_args-none :
    (w : Wanted) (ws : List Wanted) (s : Sys) → get_args none (w ∷ ws) s ≡ (fail args_empty, s)
unfolding get_args safe_get_arg_values safe_get_arg_value
get_args-none w ws s = refl

-- An exported function whose args lack a name fails with that name, before it does anything.
pub get_args-missing :
    (fs : Fields) (ws : List Wanted) (s : Sys) {n : Bytes}
    → first_missing fs (names ws) ≡ some n
    → get_args (some (object fs)) ws s ≡ (fail (arg_missing n), s)
unfolding get_args
get_args-missing fs ws s e = ground (arith, safe_get_arg_values-missing fs ws)

-- The variables after `safeGetArgValues` on a map that holds every name: each was written by its
-- node.
abbrev pub written : Fields → List Wanted → List Cell
written fs [] = []
written fs (w ∷ ws) =
    elim (map_lookup (object fs) w.name) [ none ↦ w.out | some v ↦ get_value v w.out ]
    ∷ written fs ws

pub safe_get_arg_values-written :
    (fs : Fields) (ws : List Wanted)
    → first_missing fs (names ws) ≡ none
    → safe_get_arg_values (some (object fs)) ws ≡ (written fs ws, none)
unfolding safe_get_arg_values
safe_get_arg_values-written fs [] e = refl
safe_get_arg_values-written fs (w ∷ ws) e = elim (Option-cases (map_lookup (object fs) w.name)) [
  | inl q ↦ ground arith
  | inr (v, q) ↦
      ground (arith, value_found fs w.name w.type w.out q, safe_get_arg_values-written fs ws)
]

pub get_args-written :
    (fs : Fields) (ws : List Wanted) (s : Sys)
    → first_missing fs (names ws) ≡ none
    → get_args (some (object fs)) ws s ≡ (ok (written fs ws), s)
unfolding get_args
get_args-written fs ws s e = ground (arith, safe_get_arg_values-written fs ws e)

-- Getting the arguments makes no call and leaves `errno` alone.
pub get_args-state : (args : Option Json) (ws : List Wanted) (s : Sys) → (get_args args ws s).1 ≡ s
unfolding get_args
get_args-state args ws s = ground arith
