-- ===== src/Parser/Cuts.antt =====
-- The first events of a document build the tree of a smaller one.
use ioprocess.Base.{
  ℕ, ◌<◌, Bytes, Bool, true, some, List, [], ◌∷◌, ◌++◌, ◌≡◌, inl, inr, refl, sym, ap, ◌∙◌, arith,
  append-nil, append_assoc,
}
use mathlib.Core.Path.{subst}
use mathlib.Core.List.{tail-eq_of_cons-eq, head-eq_of_cons-eq}
use ioprocess.Dom.{
  Json, null, boolean, long, double, string, object, array, Fields, end, field, Items, nil, cons,
}
use ioprocess.Dom.Store.{Node, map_node, array_node}
use ioprocess.Dom.Store.Tree.{HoldsFields, HoldsItems, Holds-local}
use ioprocess.Parser.Builder.{
  Builder, Event, on_null, on_boolean, on_long, on_double, on_string, on_start_map, on_map_key,
  on_end_map, on_start_array, on_end_array, run,
}
use ioprocess.Parser.Events.{events, field_events, item_events, Plain, PlainFields, PlainItems}
use ioprocess.Parser.Steps.{
  Grows, keys_of, map-Opens, array-Opens, map_key-callback, run-append, run-cons,
}
use ioprocess.Parser.Moves.{open_under, keys_of-append}
use ioprocess.Parser.Adds.{value-Adds}
use ioprocess.Parser.Parts.{
  cut_append, one_event, no_events, CutValue, CutFields, CutItems, whole_value, leaf_cut, open-Part,
  next-Part, nothing-Part,
}

module _ (malloc_ok : ℕ → Bool) (always : (n : ℕ) → malloc_ok n ≡ true) where
  mutual
    unfolding run

    cut_value :
        (j : Json) (pre post : List Event) (b : Builder) (c : ℕ) (rest : List ℕ) (old new : Node)
        → Plain j
        → b.stack ≡ c ∷ rest
        → c < b.memory.next
        → b.memory.cell c ≡ some old
        → Grows old b.key b.memory.next new
        → pre ++ post ≡ events j
        → CutValue malloc_ok always c new b pre
    cut_value null pre post b c rest old new w s l o g e =
        leaf_cut malloc_ok always null on_null pre post b c rest old new w s l o g refl e
    cut_value (boolean x) pre post b c rest old new w s l o g e =
        leaf_cut malloc_ok always (boolean x) (on_boolean x) pre post b c rest old new w s l o g
          refl e
    cut_value (long x) pre post b c rest old new w s l o g e =
        leaf_cut malloc_ok always (long x) (on_long x) pre post b c rest old new w s l o g refl e
    cut_value (double x) pre post b c rest old new w s l o g e =
        leaf_cut malloc_ok always (double x) (on_double x) pre post b c rest old new w s l o g refl
          e
    cut_value (string x) pre post b c rest old new w s l o g e =
        leaf_cut malloc_ok always (string x) (on_string x) pre post b c rest old new w s l o g refl
          e
    cut_value (object fs) [] post b c rest old new w s l o g e = inl refl
    cut_value (object fs) (x ∷ pre) post b c rest old new w s l o g e =
        let n = b.memory.next in
        let first : x ≡ on_start_map = head-eq_of_cons-eq e in
        let (b2, start, u) =
          open_under malloc_ok always on_start_map (map_node []) b c rest old new
            (map-Opens malloc_ok always) s l o g in
        let one = u.one_more in
        let begun : run malloc_ok (x ∷ pre) b ≡ run malloc_ok pre b2 =
          ap (λ z. run malloc_ok (z ∷ pre) b) first
          ∙ run-cons malloc_ok always on_start_map pre b b2 start in
        let partly = λ (us : List Event) (q : pre ++ us ≡ field_events fs).
          (let (b3, qs, gs, r, m, h) =
              cut_fields fs pre us b2 n b.stack [] w u.on_top (omega arith) u.made q in
            inr (
              b3,
              object gs,
              begun ∙ r,
              open-Part malloc_ok always c new (map_node []) (map_node qs) b b2 b3 l u m,
              (qs, m.child, subst (λ z. HoldsFields b3.memory.cell z b3.memory.next qs gs) one h),
            )) in
        elim (cut_append pre post (field_events fs) (on_end_map ∷ []) (tail-eq_of_cons-eq e)) [
          | inl (us, q) ↦ partly us q
          | inr (us, q, t) ↦ elim (one_event us post on_end_map t) [
            | inl z ↦ partly [] (
                append-nil pre
                ∙ q
                ∙ ap (λ v. field_events fs ++ v) z
                ∙ append-nil (field_events fs))
            | inr z ↦
                whole_value malloc_ok always (object fs) (x ∷ pre) b c rest old new w s l o g (
                  ap (λ v. v ∷ pre) first
                  ∙ ap (λ v. on_start_map ∷ v) (q ∙ ap (λ v. field_events fs ++ v) z))
          ]
        ]
    cut_value (array xs) [] post b c rest old new w s l o g e = inl refl
    cut_value (array xs) (x ∷ pre) post b c rest old new w s l o g e =
        let n = b.memory.next in
        let first : x ≡ on_start_array = head-eq_of_cons-eq e in
        let (b2, start, u) =
          open_under malloc_ok always on_start_array (array_node []) b c rest old new
            (array-Opens malloc_ok always) s l o g in
        let one = u.one_more in
        let begun : run malloc_ok (x ∷ pre) b ≡ run malloc_ok pre b2 =
          ap (λ z. run malloc_ok (z ∷ pre) b) first
          ∙ run-cons malloc_ok always on_start_array pre b b2 start in
        let partly = λ (us : List Event) (q : pre ++ us ≡ item_events xs).
          (let (b3, qs, ys, r, m, h) =
              cut_items xs pre us b2 n b.stack [] w u.on_top (omega arith) u.made q in
            inr (
              b3,
              array ys,
              begun ∙ r,
              open-Part malloc_ok always c new (array_node []) (array_node qs) b b2 b3 l u m,
              (qs, m.child, subst (λ z. HoldsItems b3.memory.cell z b3.memory.next qs ys) one h),
            )) in
        elim (cut_append pre post (item_events xs) (on_end_array ∷ []) (tail-eq_of_cons-eq e)) [
          | inl (us, q) ↦ partly us q
          | inr (us, q, t) ↦ elim (one_event us post on_end_array t) [
            | inl z ↦
                partly [] (
                  append-nil pre
                  ∙ q
                  ∙ ap (λ v. item_events xs ++ v) z
                  ∙ append-nil (item_events xs))
            | inr z ↦ whole_value malloc_ok always (array xs) (x ∷ pre) b c rest old new w s l o g (
                ap (λ v. v ∷ pre) first
                ∙ ap (λ v. on_start_array ∷ v) (q ∙ ap (λ v. item_events xs ++ v) z))
          ]
        ]

    pub cut_fields :
        (fs : Fields) (pre post : List Event) (b : Builder) (c : ℕ) (rest : List ℕ)
        (es : List (Bytes × ℕ))
        → PlainFields (keys_of es) fs
        → b.stack ≡ c ∷ rest
        → c < b.memory.next
        → b.memory.cell c ≡ some (map_node es)
        → pre ++ post ≡ field_events fs
        → CutFields malloc_ok always c es b pre
    cut_fields end pre post b c rest es w s l o e = (
      b,
      [],
      end,
      ap (λ z. run malloc_ok z b) (no_events pre post e),
      nothing-Part malloc_ok always c _ b b.key
          (o ∙ ap (λ z. some (map_node z)) (sym (append-nil es))),
      (refl, refl),
    )
    cut_fields (field k v fs) [] post b c rest es w s l o e = (
      b,
      [],
      end,
      refl,
      nothing-Part malloc_ok always c _ b b.key
          (o ∙ ap (λ z. some (map_node z)) (sym (append-nil es))),
      (refl, refl),
    )
    cut_fields (field k v fs) (x ∷ pre) post b c rest es (fresh, whole, short, wv, w) s l o e =
        let n = b.memory.next in
        let b1 : Builder = record b { key = k } in
        let first : x ≡ on_map_key k = head-eq_of_cons-eq e in
        let begun : run malloc_ok (x ∷ pre) b ≡ run malloc_ok pre b1 =
          ap (λ z. run malloc_ok (z ∷ pre) b) first
          ∙ run-cons malloc_ok always (on_map_key k) pre b b1
              (map_key-callback malloc_ok always k b short) in
        let more : List (Bytes × ℕ) = es ++ ((k, n) ∷ []) in
        elim (cut_append pre post (events v) (field_events fs) (tail-eq_of_cons-eq e)) [
          | inl (us, q) ↦
              elim (cut_value v pre us b1 c rest (map_node es) (map_node more) wv s l o
                (fresh, whole, refl) q) [
                  | inl z ↦ (
                    b1,
                    [],
                    end,
                    begun ∙ ap (λ y. run malloc_ok y b1) z,
                    nothing-Part malloc_ok always c _ b k
                        (o ∙ ap (λ y. some (map_node y)) (sym (append-nil es))),
                    (refl, refl),
                  )
                  | inr (b2, j, r, m, h) ↦ (
                    b2,
                    (k, n) ∷ [],
                    field k j end,
                    begun ∙ r,
                    record {
                      path = m.path;
                      deeper = m.deeper;
                      grows = m.grows;
                      child = m.child;
                      frame = m.frame;
                    },
                    ([], b2.memory.next, refl, h, (refl, refl)),
                  )
                ]
          | inr (us, q, t) ↦
              let (b2, r2, m2, h2) =
                value-Adds malloc_ok always v b1 c rest (map_node es) (map_node more) wv s l o
                  (fresh, whole, refl) in
              let g2 = m2.grows in
              let (b3, qs, gs, r3, m3, h3) =
                cut_fields fs us post b2 c rest more
                  (subst (λ z. PlainFields z fs) (sym (keys_of-append malloc_ok always es k n)) w)
                  (m2.same_stack ∙ s) (omega arith) m2.child t in
              let both = next-Part malloc_ok always c _ _ b1 b2 b3 m2 m3 in
              (
                b3,
                (k, n) ∷ qs,
                field k v gs,
                begun
                    ∙ ap (λ z. run malloc_ok z b1) q
                    ∙ run-append malloc_ok always (events v) us b1 b2 r2
                    ∙ r3,
                record {
                  path = both.path;
                  deeper = both.deeper;
                  grows = both.grows;
                  child =
                      both.child ∙ ap (λ z. some (map_node z)) (append_assoc es ((k, n) ∷ []) qs);
                  frame = both.frame;
                },
                (
                  qs,
                  b2.memory.next,
                  refl,
                  Holds-local b2.memory.cell b3.memory.cell n b2.memory.next v
                      (λ z lo hi. m3.frame z hi (omega arith)) h2,
                  h3,
                ),
              )
        ]

    pub cut_items :
        (xs : Items) (pre post : List Event) (b : Builder) (c : ℕ) (rest : List ℕ) (ps : List ℕ)
        → PlainItems xs
        → b.stack ≡ c ∷ rest
        → c < b.memory.next
        → b.memory.cell c ≡ some (array_node ps)
        → pre ++ post ≡ item_events xs
        → CutItems malloc_ok always c ps b pre
    cut_items nil pre post b c rest ps w s l o e = (
      b,
      [],
      nil,
      ap (λ z. run malloc_ok z b) (no_events pre post e),
      nothing-Part malloc_ok always c _ b b.key
          (o ∙ ap (λ z. some (array_node z)) (sym (append-nil ps))),
      (refl, refl),
    )
    cut_items (cons x xs) pre post b c rest ps (wx, w) s l o e =
        let n = b.memory.next in
        let more : List ℕ = ps ++ (n ∷ []) in
        elim (cut_append pre post (events x) (item_events xs) e) [
          | inl (us, q) ↦
              elim (cut_value x pre us b c rest (array_node ps) (array_node more) wx s l o refl q) [
                | inl z ↦ (
                  b,
                  [],
                  nil,
                  ap (λ y. run malloc_ok y b) z,
                  nothing-Part malloc_ok always c _ b b.key
                      (o ∙ ap (λ y. some (array_node y)) (sym (append-nil ps))),
                  (refl, refl),
                )
                | inr (b2, j, r, m, h) ↦
                    (b2, n ∷ [], cons j nil, r, m, ([], b2.memory.next, refl, h, (refl, refl)))
              ]
          | inr (us, q, t) ↦
              let (b2, r2, m2, h2) =
                value-Adds malloc_ok always x b c rest (array_node ps) (array_node more) wx s l o
                  refl in
              let g2 = m2.grows in
              let (b3, qs, ys, r3, m3, h3) =
                cut_items xs us post b2 c rest more w (m2.same_stack ∙ s) (omega arith) m2.child
                  t in
              let both = next-Part malloc_ok always c _ _ b b2 b3 m2 m3 in
              (
                b3,
                n ∷ qs,
                cons x ys,
                ap (λ z. run malloc_ok z b) q
                    ∙ run-append malloc_ok always (events x) us b b2 r2
                    ∙ r3,
                record {
                  path = both.path;
                  deeper = both.deeper;
                  grows = both.grows;
                  child = both.child ∙ ap (λ z. some (array_node z)) (append_assoc ps (n ∷ []) qs);
                  frame = both.frame;
                },
                (
                  qs,
                  b2.memory.next,
                  refl,
                  Holds-local b2.memory.cell b3.memory.cell n b2.memory.next x
                      (λ z lo hi. m3.frame z hi (omega arith)) h2,
                  h3,
                ),
              )
        ]
