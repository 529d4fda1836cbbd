-- ===== src/Parser/Adds.antt =====
-- The events of a document build its tree under the open container.
use ioprocess.Base.{
  ℕ, ◌<◌, Bytes, Bool, true, some, List, [], ◌∷◌, ◌++◌, ◌≡◌, refl, sym, ap, ◌∙◌, arith, append-nil,
  append_assoc,
}
use mathlib.Core.Path.{subst}
use ioprocess.Dom.{
  Json, null, boolean, long, double, string, object, array, Fields, end, field, Items, nil, cons,
}
use ioprocess.Dom.Store.{
  Node, null_node, boolean_node, long_node, double_node, string_node, map_node, array_node,
}
use ioprocess.Dom.Store.Tree.{HoldsFields, HoldsItems, Holds-local}
use ioprocess.Parser.Builder.{
  Builder, on_null, on_boolean, on_long, on_double, on_string, on_start_map, on_map_key, on_end_map,
  on_start_array, on_end_array, callback, run, pop,
}
use ioprocess.Parser.Events.{events, field_events, item_events, Plain, PlainFields, PlainItems}
use ioprocess.Parser.Steps.{
  Grows, keys_of, null-Makes, boolean-Makes, long-Makes, double-Makes, string-Makes, map-Opens,
  array-Opens, map_key-callback, run-append, run-cons,
}
use ioprocess.Parser.Moves.{
  Adds, leaf, Moved_trans, open_under, close_under, keys_of-append, AddsFields, AddsItems,
}

module _ (malloc_ok : ℕ → Bool) (always : (n : ℕ) → malloc_ok n ≡ true) where
  mutual
    unfolding run callback

    pub value-Adds :
        (j : Json) (b : Builder) (c : ℕ) (rest : List ℕ) (old new : Node)
        → Plain j
        → b.stack ≡ c ∷ rest
        → c < b.memory.next
        → b.memory.cell c ≡ some old
        → Grows old b.key b.memory.next new
        → Adds malloc_ok always c new j b (events j)
    value-Adds null b c rest old new w s l o g =
        let (b', r, m, e, h) =
          leaf malloc_ok always on_null null_node b c rest old new (null-Makes malloc_ok always) s l
            o g in
        (b', r, m, (e, h))
    value-Adds (boolean x) b c rest old new w s l o g =
        let (b', r, m, e, h) =
          leaf malloc_ok always (on_boolean x) (boolean_node x) b c rest old new
            (boolean-Makes malloc_ok always x) s l o g in
        (b', r, m, (e, h))
    value-Adds (long x) b c rest old new w s l o g =
        let (b', r, m, e, h) =
          leaf malloc_ok always (on_long x) (long_node x) b c rest old new
            (long-Makes malloc_ok always x) s l o g in
        (b', r, m, (e, h))
    value-Adds (double x) b c rest old new w s l o g =
        let (b', r, m, e, h) =
          leaf malloc_ok always (on_double x) (double_node x) b c rest old new
            (double-Makes malloc_ok always x) s l o g in
        (b', r, m, (e, h))
    value-Adds (string x) b c rest old new w s l o g =
        let (b', r, m, e, h) =
          leaf malloc_ok always (on_string x) (string_node x) b c rest old new
            (string-Makes malloc_ok always x w) s l o g in
        (b', r, m, (e, h))
    value-Adds (object fs) b c rest old new w s l o g =
        let n = b.memory.next in
        let (b2, start, u) =
          open_under malloc_ok always on_start_map (map_node []) b c rest old new
            (map-Opens malloc_ok always) s l o g in
        let one = u.one_more in
        let (b3, qs, filled, m, h) =
          fields_adds fs b2 n b.stack [] w u.on_top (omega arith) u.made in
        (
          record b3 { stack = pop b3.stack },
          run-cons malloc_ok always on_start_map (field_events fs ++ (on_end_map ∷ [])) b b2 start
              ∙ run-append malloc_ok always (field_events fs) (on_end_map ∷ []) b2 b3 filled,
          close_under malloc_ok always c new (map_node []) (map_node qs) b b2 b3 l u m,
          (qs, m.child, subst (λ z. HoldsFields b3.memory.cell z b3.memory.next qs fs) one h),
        )
    value-Adds (array xs) b c rest old new w s l o g =
        let n = b.memory.next in
        let (b2, start, u) =
          open_under malloc_ok always on_start_array (array_node []) b c rest old new
            (array-Opens malloc_ok always) s l o g in
        let one = u.one_more in
        let (b3, qs, filled, m, h) =
          items_adds xs b2 n b.stack [] w u.on_top (omega arith) u.made in
        (
          record b3 { stack = pop b3.stack },
          run-cons malloc_ok always on_start_array (item_events xs ++ (on_end_array ∷ [])) b b2
                start
              ∙ run-append malloc_ok always (item_events xs) (on_end_array ∷ []) b2 b3 filled,
          close_under malloc_ok always c new (array_node []) (array_node qs) b b2 b3 l u m,
          (qs, m.child, subst (λ z. HoldsItems b3.memory.cell z b3.memory.next qs xs) one h),
        )

    pub fields_adds :
        (fs : Fields) (b : Builder) (c : ℕ) (rest : List ℕ) (es : List (Bytes × ℕ))
        → PlainFields (keys_of es) fs
        → b.stack ≡ c ∷ rest
        → c < b.memory.next
        → b.memory.cell c ≡ some (map_node es)
        → AddsFields malloc_ok always c es fs b
    fields_adds end b c rest es w s l o = (
      b,
      [],
      refl,
      record {
        same_stack = refl;
        grows = omega arith;
        child = o ∙ ap (λ z. some (map_node z)) (sym (append-nil es));
        frame = λ q h d. refl;
      },
      (refl, refl),
    )
    fields_adds (field k v fs) b c rest es (fresh, whole, short, wv, w) s l o =
        let n = b.memory.next in
        let b1 : Builder = record b { key = k } in
        let (b2, r2, m2, h2) =
          value-Adds v b1 c rest (map_node es) (map_node (es ++ ((k, n) ∷ []))) wv s l o
            (fresh, whole, refl) in
        let g2 = m2.grows in
        let (b3, qs, r3, m3, h3) =
          fields_adds fs b2 c rest (es ++ ((k, n) ∷ []))
            (subst (λ z. PlainFields z fs) (sym (keys_of-append malloc_ok always es k n)) w)
            (m2.same_stack ∙ s) (omega arith) m2.child in
        (
          b3,
          (k, n) ∷ qs,
          run-cons malloc_ok always (on_map_key k) (events v ++ field_events fs) b b1
                (map_key-callback malloc_ok always k b short)
              ∙ run-append malloc_ok always (events v) (field_events fs) b1 b2 r2
              ∙ r3,
          record {
            same_stack = m3.same_stack ∙ m2.same_stack;
            grows = (Moved_trans malloc_ok always c _ _ b1 b2 b3 m2 m3).grows;
            child = m3.child ∙ ap (λ z. some (map_node z)) (append_assoc es ((k, n) ∷ []) qs);
            frame = (Moved_trans malloc_ok always c _ _ b1 b2 b3 m2 m3).frame;
          },
          (
            qs,
            b2.memory.next,
            refl,
            Holds-local b2.memory.cell b3.memory.cell n b2.memory.next v
                (λ q lo hi. m3.frame q hi (omega arith)) h2,
            h3,
          ),
        )

    pub items_adds :
        (xs : Items) (b : Builder) (c : ℕ) (rest : List ℕ) (ps : List ℕ)
        → PlainItems xs
        → b.stack ≡ c ∷ rest
        → c < b.memory.next
        → b.memory.cell c ≡ some (array_node ps)
        → AddsItems malloc_ok always c ps xs b
    items_adds nil b c rest ps w s l o = (
      b,
      [],
      refl,
      record {
        same_stack = refl;
        grows = omega arith;
        child = o ∙ ap (λ z. some (array_node z)) (sym (append-nil ps));
        frame = λ q h d. refl;
      },
      (refl, refl),
    )
    items_adds (cons x xs) b c rest ps (wx, w) s l o =
        let n = b.memory.next in
        let (b2, r2, m2, h2) =
          value-Adds x b c rest (array_node ps) (array_node (ps ++ (n ∷ []))) wx s l o refl in
        let g2 = m2.grows in
        let (b3, qs, r3, m3, h3) =
          items_adds xs b2 c rest (ps ++ (n ∷ [])) w (m2.same_stack ∙ s) (omega arith) m2.child in
        (
          b3,
          n ∷ qs,
          run-append malloc_ok always (events x) (item_events xs) b b2 r2 ∙ r3,
          record {
            same_stack = m3.same_stack ∙ m2.same_stack;
            grows = (Moved_trans malloc_ok always c _ _ b b2 b3 m2 m3).grows;
            child = m3.child ∙ ap (λ z. some (array_node z)) (append_assoc ps (n ∷ []) qs);
            frame = (Moved_trans malloc_ok always c _ _ b b2 b3 m2 m3).frame;
          },
          (
            qs,
            b2.memory.next,
            refl,
            Holds-local b2.memory.cell b3.memory.cell n b2.memory.next x
                (λ q lo hi. m3.frame q hi (omega arith)) h2,
            h3,
          ),
        )
