-- ===== src/Generator/Echo.antt =====
-- The calls of `yajl_gen` for a document are those of one JSON text, the callbacks of which are
-- those for the document.
use ioprocess.Base.{
  ◌%◌, ◌^◌, ◌<◌, Bytes, c_str, Option, none, some, List, [], ◌∷◌, ◌++◌, length, take_all, ◌≡◌, refl,
  sym, ap, ◌∙◌, arith, append_assoc, append-nil,
}
use ioprocess.Dom.{
  Json, null, boolean, long, double, string, object, array, Fields, end, field, Items, nil, cons,
}
use ioprocess.Parser.Builder.{
  Event, on_null, on_boolean, on_long, on_double, on_string, on_start_map, on_map_key, on_end_map,
  on_start_array, on_end_array,
}
use ioprocess.Parser.Events.{events, field_events, item_events, Plain, PlainFields, PlainItems}
use ioprocess.Generator.{
  Emit, gen_null, gen_bool, gen_integer, gen_double, gen_string, gen_map_open, gen_map_close,
  gen_array_open, gen_array_close, counted, generate_node, generate_fields, generate_items,
}

-- What may come next: the only value of a text, a key, the value of a key, an item.
pub data Place : Type 0 where
  root key value item : Place

-- The places behind a value; none if there can be no value.
unfoldable pub behind : List Place → Option (List Place)
behind (root ∷ s) = some s
behind (key ∷ s) = none
behind (value ∷ s) = some (key ∷ s)
behind (item ∷ s) = some (item ∷ s)
behind [] = none

abbrev leaf : Event → Option (List Place) → Option (Event × List Place)
leaf v none = none
leaf v (some s) = some (v, s)

abbrev opens : Event → Place → Option (List Place) → Option (Event × List Place)
opens v inner none = none
opens v inner (some s) = some (v, inner ∷ s)

-- A call of `yajl_gen`, and the callback for what it prints; none for a call out of place.
unfoldable pub echo : Emit → List Place → Option (Event × List Place)
unfolding behind
echo gen_null s = leaf on_null (behind s)
echo (gen_bool b) s = leaf (on_boolean b) (behind s)
echo (gen_integer l) s = leaf (on_long l) (behind s)
echo (gen_double d) s = leaf (on_double d) (behind s)
echo (gen_string t) (key ∷ s) = some (on_map_key t, value ∷ s)
echo (gen_string t) s = leaf (on_string t) (behind s)
echo gen_map_open s = opens on_start_map key (behind s)
echo gen_map_close (key ∷ s) = some (on_end_map, s)
echo gen_map_close s = none
echo gen_array_open s = opens on_start_array item (behind s)
echo gen_array_close (item ∷ s) = some (on_end_array, s)
echo gen_array_close s = none

abbrev pub before : List Event → Option (List Event) → Option (List Event)
before vs none = none
before vs (some ws) = some (vs ++ ws)

-- The callbacks for a row of calls that print one JSON text.
unfoldable pub echoes : List Emit → List Place → Option (List Event)
unfolding echo
echoes [] [] = some []
echoes [] (p ∷ s) = none
echoes (e ∷ es) s = elim (echo e s) [ none ↦ none | some (v, s') ↦ before (v ∷ []) (echoes es s') ]

before_append :
    (vs ws : List Event) (o : Option (List Event)) → before vs (before ws o) ≡ before (vs ++ ws) o
before_append vs ws none = refl
before_append vs ws (some us) = ap some (sym (append_assoc vs ws us))

before_nothing : (o : Option (List Event)) → before [] o ≡ o
before_nothing none = refl
before_nothing (some ws) = refl

counted-short : (s : Bytes) → length s < 2 ^ 31 → counted s ≡ s
counted-short s h = take_all (length s % 2 ^ 32) s (omega arith)

echoes-step :
    (e : Emit) (es : List Emit) (s s' : List Place) (v : Event)
    → echo e s ≡ some (v, s')
    → echoes (e ∷ es) s ≡ before (v ∷ []) (echoes es s')
unfolding echoes
echoes-step e es s s' v h =
    ap (λ o. elim o [ none ↦ none | some (v', t) ↦ before (v' ∷ []) (echoes es t) ]) h

string-step :
    (t : Bytes) (s s' : List Place)
    → behind s ≡ some s'
    → echo (gen_string t) s ≡ some (on_string t, s')
unfolding echo behind
string-step t [] s' h = cc
string-step t (root ∷ s) s' h = ap (leaf (on_string t)) h
string-step t (key ∷ s) s' h = cc
string-step t (value ∷ s) s' h = ap (leaf (on_string t)) h
string-step t (item ∷ s) s' h = ap (leaf (on_string t)) h

behind_value : (s : List Place) → behind (value ∷ s) ≡ some (key ∷ s)
unfolding behind
behind_value s = refl

behind_item : (s : List Place) → behind (item ∷ s) ≡ some (item ∷ s)
unfolding behind
behind_item s = refl

mutual
  unfolding generate_node echo

  echoes-generate :
      (j : Json) (rest : List Emit) (s s' : List Place)
      → behind s ≡ some s'
      → Plain j
      → echoes (generate_node j ++ rest) s ≡ before (events j) (echoes rest s')
  echoes-generate null rest s s' h w = echoes-step gen_null rest s s' on_null (rw h refl)
  echoes-generate (boolean b) rest s s' h w =
      echoes-step (gen_bool b) rest s s' (on_boolean b) (rw h refl)
  echoes-generate (long l) rest s s' h w =
      echoes-step (gen_integer l) rest s s' (on_long l) (rw h refl)
  echoes-generate (double d) rest s s' h w =
      echoes-step (gen_double d) rest s s' (on_double d) (rw h refl)
  echoes-generate (string t) rest s s' h w =
      echoes-step (gen_string (counted t)) rest s s' (on_string t)
        (string-step (counted t) s s' h ∙ ap (λ u. some (on_string u, s')) (counted-short t w))
  echoes-generate (object fs) rest s s' h w =
      ap (λ r. echoes (gen_map_open ∷ r) s)
        (append_assoc (generate_fields fs) (gen_map_close ∷ []) rest)
      ∙ echoes-step gen_map_open (generate_fields fs ++ (gen_map_close ∷ rest)) s (key ∷ s')
          on_start_map (rw h refl)
      ∙ ap (before (on_start_map ∷ [])) (
          echoes-fields fs [] (gen_map_close ∷ rest) s' w
          ∙ ap (before (field_events fs))
              (echoes-step gen_map_close rest (key ∷ s') s' on_end_map refl)
          ∙ before_append (field_events fs) (on_end_map ∷ []) (echoes rest s'))
      ∙ before_append (on_start_map ∷ []) (field_events fs ++ (on_end_map ∷ [])) (echoes rest s')
  echoes-generate (array xs) rest s s' h w =
      ap (λ r. echoes (gen_array_open ∷ r) s)
        (append_assoc (generate_items xs) (gen_array_close ∷ []) rest)
      ∙ echoes-step gen_array_open (generate_items xs ++ (gen_array_close ∷ rest)) s (item ∷ s')
          on_start_array (rw h refl)
      ∙ ap (before (on_start_array ∷ [])) (
          echoes-items xs (gen_array_close ∷ rest) s' w
          ∙ ap (before (item_events xs))
              (echoes-step gen_array_close rest (item ∷ s') s' on_end_array refl)
          ∙ before_append (item_events xs) (on_end_array ∷ []) (echoes rest s'))
      ∙ before_append (on_start_array ∷ []) (item_events xs ++ (on_end_array ∷ [])) (echoes rest s')

  echoes-fields :
      (fs : Fields) (keys : List Bytes) (rest : List Emit) (s : List Place)
      → PlainFields keys fs
      → echoes (generate_fields fs ++ rest) (key ∷ s)
        ≡ before (field_events fs) (echoes rest (key ∷ s))
  echoes-fields end keys rest s w = sym (before_nothing _)
  echoes-fields (field k v fs) keys rest s (fresh, text, short, d, w) =
      ap (λ r. echoes (gen_string (counted (c_str k)) ∷ r) (key ∷ s))
        (append_assoc (generate_node v) (generate_fields fs) rest)
      ∙ echoes-step (gen_string (counted (c_str k)))
          (generate_node v ++ (generate_fields fs ++ rest)) (key ∷ s) (value ∷ s) (on_map_key k)
          (ap (λ u. some (on_map_key u, value ∷ s)) (ap counted text ∙ counted-short k short))
      ∙ ap (before (on_map_key k ∷ [])) (
          echoes-generate v (generate_fields fs ++ rest) (value ∷ s) (key ∷ s) (behind_value s) d
          ∙ ap (before (events v)) (echoes-fields fs (keys ++ (k ∷ [])) rest s w)
          ∙ before_append (events v) (field_events fs) (echoes rest (key ∷ s)))
      ∙ before_append (on_map_key k ∷ []) (events v ++ field_events fs) (echoes rest (key ∷ s))

  echoes-items :
      (xs : Items) (rest : List Emit) (s : List Place)
      → PlainItems xs
      → echoes (generate_items xs ++ rest) (item ∷ s)
        ≡ before (item_events xs) (echoes rest (item ∷ s))
  echoes-items nil rest s w = sym (before_nothing _)
  echoes-items (cons x xs) rest s (d, w) =
      ap (λ r. echoes r (item ∷ s)) (append_assoc (generate_node x) (generate_items xs) rest)
      ∙ echoes-generate x (generate_items xs ++ rest) (item ∷ s) (item ∷ s) (behind_item s) d
      ∙ ap (before (events x)) (echoes-items xs rest s w)
      ∙ before_append (events x) (item_events xs) (echoes rest (item ∷ s))

-- The calls for a document of short texts print one JSON text, each call in its place, and the
-- callbacks for it are those for the document.
pub generate_node-echoes :
    (j : Json) → Plain j → echoes (generate_node j) (root ∷ []) ≡ some (events j)
unfolding echoes behind
generate_node-echoes j w =
    ap (λ es. echoes es (root ∷ [])) (sym (append-nil (generate_node j)))
    ∙ echoes-generate j [] (root ∷ []) [] refl w
    ∙ ap some (append-nil (events j))
