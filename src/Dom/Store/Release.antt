-- ===== src/Dom/Store/Release.antt =====
-- `JsonNode_free` on a tree whose nodes stand at any addresses.
use ioprocess.Base.{
  ℕ, zero, suc, ◌+◌, ◌≤◌, Bytes, Option, none, some, List, [], ◌∷◌, ◌++◌, length, length-append,
  ◌≡◌, inl, inr, refl, sym, ap, ◌∙◌, arith, In, NotIn, Distinct, NotIn-append, In-append,
  Distinct-append,
}
use mathlib.Core.Path.{subst}
use ioprocess.Dom.{
  Json, null, boolean, long, double, string, object, array, Fields, end, field, Items, nil, cons,
}
use ioprocess.Dom.Store.{
  Node, null_node, boolean_node, long_node, double_node, string_node, map_node, array_node, Memory,
  set, addresses, children, free_all, free_node,
}
use ioprocess.Dom.Store.Owned.{Owns, OwnsFields, OwnsItems, Alike-OwnsFields, Alike-OwnsItems}

-- The nodes at some addresses are gone, and all others are as they were.
pub record Emptied (as' : List ℕ) (m m' : Memory) : Type 0 where
  pub gone : (q : ℕ) → In q as' → m'.cell q ≡ none
  pub kept : (q : ℕ) → NotIn q as' → m'.cell q ≡ m.cell q

abbrev pub Empties : Option Memory → List ℕ → Memory → Type 0
Empties r as' m = (m' : Memory) × (r ≡ some m') × Emptied as' m m'

Emptied-nothing : (m : Memory) → Emptied [] m m
Emptied-nothing m = record { gone = λ q i. absurd i; kept = λ q n. refl }

Emptied-both :
    (cs ds : List ℕ) (m m1 m2 : Memory)
    → Distinct (cs ++ ds)
    → Emptied cs m m1
    → Emptied ds m1 m2
    → Emptied (cs ++ ds) m m2
Emptied-both cs ds m m1 m2 d f g =
    let (a, b, apart, apart') = Distinct-append cs ds d in
    record {
      gone = λ q i. elim (In-append q cs ds i) [
        | inl l ↦ g.kept q (apart q l) ∙ f.gone q l
        | inr r ↦ g.gone q r
      ];
      kept = λ q n. let (u, v) = NotIn-append q cs ds n in g.kept q v ∙ f.kept q u;
    }

cleared : (p q : ℕ) (m : Memory) → q ≡ p → (set p none m).cell q ≡ none
cleared p q m e = ground arith

cleared_too : (p q : ℕ) (m : Memory) → m.cell q ≡ none → (set p none m).cell q ≡ none
cleared_too p q m e = ground arith

uncleared : (p q : ℕ) (m : Memory) → (q ≡ p → ⊥) → (set p none m).cell q ≡ m.cell q
uncleared p q m n = ground arith

-- The root goes behind its children.
Emptied-root :
    (p : ℕ) (bs : List ℕ) (m m1 : Memory) → Emptied bs m m1 → Emptied (p ∷ bs) m (set p none m1)
Emptied-root p bs m m1 f = record {
  gone = λ q i. elim i [ inl e ↦ cleared p q m1 e | inr k ↦ cleared_too p q m1 (f.gone q k) ];
  kept = λ q (n, w). uncleared p q m1 n ∙ f.kept q w;
}

empty_root :
    (fuel p : ℕ) (as' bs : List ℕ) (m : Memory) (node : Node)
    → m.cell p ≡ some node
    → as' ≡ p ∷ bs
    → Empties (free_all (free_node fuel) (children node) m) bs m
    → Empties (free_node (suc fuel) p m) as' m
unfolding free_node
empty_root fuel p as' bs m node e f (m1, r, g) = (
  set p none m1,
  rw (e, r, free_node) refl,
  subst (λ z. Emptied z m (set p none m1)) (sym f) (Emptied-root p bs m m1 g),
)

empty_leaf :
    (fuel p : ℕ) (as' : List ℕ) (m : Memory) (node : Node)
    → m.cell p ≡ some node
    → as' ≡ p ∷ []
    → children node ≡ []
    → Empties (free_node (suc fuel) p m) as' m
empty_leaf fuel p as' m node e f c =
    empty_root fuel p as' [] m node e f
      (m, ap (λ z. free_all (free_node fuel) z m) c, Emptied-nothing m)

empty_first :
    (free : ℕ → Memory → Option Memory) (p : ℕ) (ps : List ℕ) (m m1 : Memory)
    → free p m ≡ some m1
    → free_all free (p ∷ ps) m ≡ free_all free ps m1
empty_first free p ps m m1 e = rw (e, free_all) refl

below_root : (as' bs : List ℕ) (p : ℕ) → as' ≡ p ∷ bs → Distinct as' → Distinct bs
below_root as' bs p f d = (subst Distinct f d).1

below_fuel :
    (as' bs : List ℕ) (p fuel : ℕ) → as' ≡ p ∷ bs → length as' ≤ suc fuel → length bs ≤ fuel
below_fuel as' bs p fuel f h = let e = ap length f in omega arith

no_fuel : (as' bs : List ℕ) (p : ℕ) → as' ≡ p ∷ bs → length as' ≤ 0 → ⊥
no_fuel as' bs p f h = let e = ap length f in omega arith

mutual
  empty_Owns :
      (fuel : ℕ) (m : Memory) (p : ℕ) (as' : List ℕ) (j : Json)
      → Owns m.cell p as' j
      → Distinct as'
      → length as' ≤ fuel
      → Empties (free_node fuel p m) as' m
  empty_Owns zero m p as' null (e, f) d h = absurd (no_fuel as' [] p f h)
  empty_Owns zero m p as' (boolean x) (e, f) d h = absurd (no_fuel as' [] p f h)
  empty_Owns zero m p as' (long x) (e, f) d h = absurd (no_fuel as' [] p f h)
  empty_Owns zero m p as' (double x) (e, f) d h = absurd (no_fuel as' [] p f h)
  empty_Owns zero m p as' (string x) (e, f) d h = absurd (no_fuel as' [] p f h)
  empty_Owns zero m p as' (object fs) (es, bs, e, f, w) d h = absurd (no_fuel as' bs p f h)
  empty_Owns zero m p as' (array xs) (ps, bs, e, f, w) d h = absurd (no_fuel as' bs p f h)
  empty_Owns (suc fuel) m p as' null (e, f) d h = empty_leaf fuel p as' m null_node e f refl
  empty_Owns (suc fuel) m p as' (boolean x) (e, f) d h =
      empty_leaf fuel p as' m (boolean_node x) e f refl
  empty_Owns (suc fuel) m p as' (long x) (e, f) d h = empty_leaf fuel p as' m (long_node x) e f refl
  empty_Owns (suc fuel) m p as' (double x) (e, f) d h =
      empty_leaf fuel p as' m (double_node x) e f refl
  empty_Owns (suc fuel) m p as' (string x) (e, f) d h =
      empty_leaf fuel p as' m (string_node x) e f refl
  empty_Owns (suc fuel) m p as' (object fs) (es, bs, e, f, w) d h =
      empty_root fuel p as' bs m (map_node es) e f (
        empty_OwnsFields fuel m bs es fs w (below_root as' bs p f d) (below_fuel as' bs p fuel f h))
  empty_Owns (suc fuel) m p as' (array xs) (ps, bs, e, f, w) d h =
      empty_root fuel p as' bs m (array_node ps) e f
        (empty_OwnsItems fuel m bs ps xs w (below_root as' bs p f d) (below_fuel as' bs p fuel f h))

  empty_OwnsFields :
      (fuel : ℕ) (m : Memory) (bs : List ℕ) (es : List (Bytes × ℕ)) (fs : Fields)
      → OwnsFields m.cell bs es fs
      → Distinct bs
      → length bs ≤ fuel
      → Empties (free_all (free_node fuel) (addresses es) m) bs m
  empty_OwnsFields fuel m bs es end (e, f) d h = (
    m,
    ap (λ z. free_all (free_node fuel) (addresses z) m) e,
    subst (λ z. Emptied z m m) (sym f) (Emptied-nothing m),
  )
  empty_OwnsFields fuel m bs es (field k v fs) (q, more, cs, ds, e, f, w, t) d h =
      let d' = subst Distinct f d in
      let (dc, dd, apart, apart') = Distinct-append cs ds d' in
      let n : length bs ≡ length cs + length ds = ap length f ∙ length-append cs ds in
      let (m1, r1, g1) = empty_Owns fuel m q cs v w dc (omega arith) in
      let (m2, r2, g2) =
        empty_OwnsFields fuel m1 ds more fs
          (Alike-OwnsFields m.cell m1.cell ds more fs (λ a i. g1.kept a (apart' a i)) t) dd
          (omega arith) in
      (
        m2,
        ap (λ z. free_all (free_node fuel) (addresses z) m) e
            ∙ empty_first (free_node fuel) q (addresses more) m m1 r1
            ∙ r2,
        subst (λ z. Emptied z m m2) (sym f) (Emptied-both cs ds m m1 m2 d' g1 g2),
      )

  empty_OwnsItems :
      (fuel : ℕ) (m : Memory) (bs ps : List ℕ) (xs : Items)
      → OwnsItems m.cell bs ps xs
      → Distinct bs
      → length bs ≤ fuel
      → Empties (free_all (free_node fuel) ps m) bs m
  empty_OwnsItems fuel m bs ps nil (e, f) d h = (
    m,
    ap (λ z. free_all (free_node fuel) z m) e,
    subst (λ z. Emptied z m m) (sym f) (Emptied-nothing m),
  )
  empty_OwnsItems fuel m bs ps (cons x xs) (q, more, cs, ds, e, f, w, t) d h =
      let d' = subst Distinct f d in
      let (dc, dd, apart, apart') = Distinct-append cs ds d' in
      let n : length bs ≡ length cs + length ds = ap length f ∙ length-append cs ds in
      let (m1, r1, g1) = empty_Owns fuel m q cs x w dc (omega arith) in
      let (m2, r2, g2) =
        empty_OwnsItems fuel m1 ds more xs
          (Alike-OwnsItems m.cell m1.cell ds more xs (λ a i. g1.kept a (apart' a i)) t) dd
          (omega arith) in
      (
        m2,
        ap (λ z. free_all (free_node fuel) z m) e
            ∙ empty_first (free_node fuel) q more m m1 r1
            ∙ r2,
        subst (λ z. Emptied z m m2) (sym f) (Emptied-both cs ds m m1 m2 d' g1 g2),
      )

-- `JsonNode_free` on a tree of a document, whose nodes stand at distinct addresses, anywhere in memory
-- and in any order, uses no node twice and none that is gone; it frees the nodes of the tree and
-- changes no other. A unit of fuel for each node is enough.
pub free_node-Emptied :
    (fuel : ℕ) (m : Memory) (p : ℕ) (as' : List ℕ) (j : Json)
    → Owns m.cell p as' j
    → Distinct as'
    → length as' ≤ fuel
    → (m' : Memory) × (free_node fuel p m ≡ some m') × Emptied as' m m'
free_node-Emptied fuel m p as' j w d h = empty_Owns fuel m p as' j w d h
