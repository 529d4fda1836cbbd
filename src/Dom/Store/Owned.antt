-- ===== src/Dom/Store/Owned.antt =====
-- `JsonNode_free` on a tree whose nodes stand at any addresses.
use ioprocess.Base.{ℕ, Bytes, some, List, [], ◌∷◌, ◌++◌, ◌≡◌, inl, inr, refl, ◌∙◌, In}
use mathlib.Core.Path.{subst}
use ioprocess.Dom.{
  Json, null, boolean, long, double, string, object, array, Fields, end, field, Items, nil, cons,
}
use ioprocess.Dom.Store.{
  null_node, boolean_node, long_node, double_node, string_node, map_node, array_node, Cells,
}

-- A tree of a document and the addresses of its nodes, each node before those below it.
abbrev mutual
  pub Owns : Cells → ℕ → List ℕ → Json → Type 0
  Owns cell p as' null = (cell p ≡ some null_node) × (as' ≡ p ∷ [])
  Owns cell p as' (boolean b) = (cell p ≡ some (boolean_node b)) × (as' ≡ p ∷ [])
  Owns cell p as' (long l) = (cell p ≡ some (long_node l)) × (as' ≡ p ∷ [])
  Owns cell p as' (double d) = (cell p ≡ some (double_node d)) × (as' ≡ p ∷ [])
  Owns cell p as' (string s) = (cell p ≡ some (string_node s)) × (as' ≡ p ∷ [])
  Owns cell p as' (object fs) =
      (es : List (Bytes × ℕ)) × (bs : List ℕ) × (cell p ≡ some (map_node es))
      × (as' ≡ p ∷ bs)
      × OwnsFields cell bs es fs
  Owns cell p as' (array xs) =
      (ps : List ℕ) × (bs : List ℕ) × (cell p ≡ some (array_node ps))
      × (as' ≡ p ∷ bs)
      × OwnsItems cell bs ps xs

  pub OwnsFields : Cells → List ℕ → List (Bytes × ℕ) → Fields → Type 0
  OwnsFields cell bs es end = (es ≡ []) × (bs ≡ [])
  OwnsFields cell bs es (field k v fs) =
      (q : ℕ) × (more : List (Bytes × ℕ)) × (cs : List ℕ) × (ds : List ℕ) × (es ≡ (k, q) ∷ more)
      × (bs ≡ cs ++ ds)
      × Owns cell q cs v
      × OwnsFields cell ds more fs

  pub OwnsItems : Cells → List ℕ → List ℕ → Items → Type 0
  OwnsItems cell bs ps nil = (ps ≡ []) × (bs ≡ [])
  OwnsItems cell bs ps (cons x xs) =
      (q : ℕ) × (more : List ℕ) × (cs : List ℕ) × (ds : List ℕ) × (ps ≡ q ∷ more)
      × (bs ≡ cs ++ ds)
      × Owns cell q cs x
      × OwnsItems cell ds more xs

abbrev pub Alike : Cells → Cells → List ℕ → Type 0
Alike cell cell' bs = (q : ℕ) → In q bs → cell' q ≡ cell q

Alike-parts :
    (cell cell' : Cells) (bs cs ds : List ℕ)
    → bs ≡ cs ++ ds
    → Alike cell cell' bs
    → Alike cell cell' cs × Alike cell cell' ds
Alike-parts cell cell' bs cs ds e a =
    let b = subst (Alike cell cell') e a in (λ q i. b q (front q cs i), λ q i. b q (back q cs i))
  where
    front : (q : ℕ) (xs : List ℕ) → In q xs → In q (xs ++ ds)
    front q (x ∷ xs) (inl p) = inl p
    front q (x ∷ xs) (inr i) = inr (front q xs i)
    front q [] i = absurd i

    back : (q : ℕ) (xs : List ℕ) → In q ds → In q (xs ++ ds)
    back q [] i = i
    back q (x ∷ xs) i = inr (back q xs i)

Alike-root :
    (cell cell' : Cells) (p : ℕ) (as' bs : List ℕ)
    → as' ≡ p ∷ bs
    → Alike cell cell' as'
    → cell' p ≡ cell p
Alike-root cell cell' p as' bs e a = subst (Alike cell cell') e a p (inl refl)

Alike-below :
    (cell cell' : Cells) (p : ℕ) (as' bs : List ℕ)
    → as' ≡ p ∷ bs
    → Alike cell cell' as'
    → Alike cell cell' bs
Alike-below cell cell' p as' bs e a q i = subst (Alike cell cell') e a q (inr i)

-- A tree is where its nodes are the same.
mutual
  Alike-Owns :
      (cell cell' : Cells) (p : ℕ) (as' : List ℕ) (j : Json)
      → Alike cell cell' as'
      → Owns cell p as' j
      → Owns cell' p as' j
  Alike-Owns cell cell' p as' null a (e, f) = (Alike-root cell cell' p as' [] f a ∙ e, f)
  Alike-Owns cell cell' p as' (boolean b) a (e, f) = (Alike-root cell cell' p as' [] f a ∙ e, f)
  Alike-Owns cell cell' p as' (long l) a (e, f) = (Alike-root cell cell' p as' [] f a ∙ e, f)
  Alike-Owns cell cell' p as' (double d) a (e, f) = (Alike-root cell cell' p as' [] f a ∙ e, f)
  Alike-Owns cell cell' p as' (string s) a (e, f) = (Alike-root cell cell' p as' [] f a ∙ e, f)
  Alike-Owns cell cell' p as' (object fs) a (es, bs, e, f, w) = (
    es,
    bs,
    Alike-root cell cell' p as' bs f a ∙ e,
    f,
    Alike-OwnsFields cell cell' bs es fs (Alike-below cell cell' p as' bs f a) w,
  )
  Alike-Owns cell cell' p as' (array xs) a (ps, bs, e, f, w) = (
    ps,
    bs,
    Alike-root cell cell' p as' bs f a ∙ e,
    f,
    Alike-OwnsItems cell cell' bs ps xs (Alike-below cell cell' p as' bs f a) w,
  )

  pub Alike-OwnsFields :
      (cell cell' : Cells) (bs : List ℕ) (es : List (Bytes × ℕ)) (fs : Fields)
      → Alike cell cell' bs
      → OwnsFields cell bs es fs
      → OwnsFields cell' bs es fs
  Alike-OwnsFields cell cell' bs es end a w = w
  Alike-OwnsFields cell cell' bs es (field k v fs) a (q, more, cs, ds, e, f, w, t) =
      let (b, c) = Alike-parts cell cell' bs cs ds f a in
      (
        q,
        more,
        cs,
        ds,
        e,
        f,
        Alike-Owns cell cell' q cs v b w,
        Alike-OwnsFields cell cell' ds more fs c t,
      )

  pub Alike-OwnsItems :
      (cell cell' : Cells) (bs ps : List ℕ) (xs : Items)
      → Alike cell cell' bs
      → OwnsItems cell bs ps xs
      → OwnsItems cell' bs ps xs
  Alike-OwnsItems cell cell' bs ps nil a w = w
  Alike-OwnsItems cell cell' bs ps (cons x xs) a (q, more, cs, ds, e, f, w, t) =
      let (b, c) = Alike-parts cell cell' bs cs ds f a in
      (
        q,
        more,
        cs,
        ds,
        e,
        f,
        Alike-Owns cell cell' q cs x b w,
        Alike-OwnsItems cell cell' ds more xs c t,
      )
