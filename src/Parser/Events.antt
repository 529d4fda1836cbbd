-- ===== src/Parser/Events.antt =====
-- The callbacks for a document, and the documents that every callback takes whole.
use ioprocess.Base.{
  ◌<◌, ◌^◌, Bytes, c_str, bytes_eq, Bool, false, ◌||◌, List, [], ◌∷◌, ◌++◌, length, ◌≡◌,
}
use ioprocess.Dom.{
  Json, null, boolean, long, double, string, object, array, Fields, end, field, Items, nil, cons,
}
use ioprocess.Parser.Builder.{
  Event, on_null, on_boolean, on_long, on_double, on_string, on_start_map, on_map_key, on_end_map,
  on_start_array, on_end_array,
}

-- What yajl calls back for, from the first byte of a document to its last.
abbrev mutual
  pub events : Json → List Event
  events null = on_null ∷ []
  events (boolean b) = on_boolean b ∷ []
  events (long l) = on_long l ∷ []
  events (double d) = on_double d ∷ []
  events (string s) = on_string s ∷ []
  events (object fs) = on_start_map ∷ (field_events fs ++ (on_end_map ∷ []))
  events (array xs) = on_start_array ∷ (item_events xs ++ (on_end_array ∷ []))

  pub field_events : Fields → List Event
  field_events end = []
  field_events (field k v fs) = on_map_key k ∷ (events v ++ field_events fs)

  pub item_events : Items → List Event
  item_events nil = []
  item_events (cons x xs) = events x ++ item_events xs

unfoldable pub has : Bytes → List Bytes → Bool
has k [] = false
has k (j ∷ js) = bytes_eq j k || has k js

-- Texts are shorter than an `int` can count, and no map has a key twice or with a NUL. `keys` are
-- the keys that stand before some fields.
abbrev mutual
  pub Plain : Json → Type 0
  Plain null = Unit
  Plain (boolean b) = Unit
  Plain (long l) = Unit
  Plain (double d) = Unit
  Plain (string s) = length s < 2 ^ 31
  Plain (object fs) = PlainFields [] fs
  Plain (array xs) = PlainItems xs

  pub PlainFields : List Bytes → Fields → Type 0
  PlainFields keys end = Unit
  PlainFields keys (field k v fs) =
      (has k keys ≡ false)
      × (c_str k ≡ k)
      × (length k < 2 ^ 31)
      × Plain v
      × PlainFields (keys ++ (k ∷ [])) fs

  pub PlainItems : Items → Type 0
  PlainItems nil = Unit
  PlainItems (cons x xs) = Plain x × PlainItems xs
