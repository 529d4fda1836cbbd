-- ===== src/Dom/Store/Free.antt =====
-- `JsonNode_free` gives back a whole tree and nothing else.
use ioprocess.Base.{
  ℕ, zero, suc, ◌+◌, ◌≤◌, ◌<◌, Bytes, Option, none, some, List, ◌∷◌, ◌≡◌, refl, sym, ap, ◌∙◌, arith,
}
use native.Mathlib.Decide.{dec_lt}
use ioprocess.Dom.{
  Json, null, boolean, long, double, string, object, array, Fields, end, field, Items, nil, cons,
}
use ioprocess.Dom.Store.{
  Node, null_node, boolean_node, long_node, double_node, string_node, map_node, array_node, Memory,
  set, addresses, children, free_all, free_node,
}
use ioprocess.Dom.Store.Tree.{
  Holds, HoldsFields, HoldsItems, Holds-bound, HoldsFields-bound, HoldsItems-bound,
  HoldsFields-local, HoldsItems-local,
}

-- The nodes between two addresses are gone, and all others are as they were.
pub record Freed (lo hi : ℕ) (m m' : Memory) : Type 0 where
  pub gone : (q : ℕ) → lo ≤ q → q < hi → m'.cell q ≡ none
  pub below : (q : ℕ) → q < lo → m'.cell q ≡ m.cell q
  pub above : (q : ℕ) → hi ≤ q → m'.cell q ≡ m.cell q
  pub same_next : m'.next ≡ m.next

abbrev pub Frees : Option Memory → ℕ → ℕ → Memory → Type 0
Frees r lo hi m = (m' : Memory) × (r ≡ some m') × Freed lo hi m m'

Freed-nothing : (lo hi : ℕ) (m : Memory) → lo ≡ hi → Freed lo hi m m
Freed-nothing lo hi m e = record {
  gone = λ q l u. absurd (omega arith);
  below = λ q l. refl;
  above = λ q l. refl;
  same_next = refl;
}

Freed-both :
    (lo mid hi : ℕ) (m m1 m2 : Memory)
    → lo ≤ mid
    → mid ≤ hi
    → Freed lo mid m m1
    → Freed mid hi m1 m2
    → Freed lo hi m m2
Freed-both lo mid hi m m1 m2 a b f g = record {
  gone = λ q l u. elim (dec_lt q mid) [
    | yes h ↦ g.below q h ∙ f.gone q l h
    | no h ↦ g.gone q (omega arith) u
  ];
  below = λ q l. g.below q (omega arith) ∙ f.below q l;
  above = λ q l. g.above q l ∙ f.above q (omega arith);
  same_next = g.same_next ∙ f.same_next;
}

-- The root goes behind its children.
Freed-root :
    (p hi : ℕ) (m m1 : Memory) → p < hi → Freed (suc p) hi m m1 → Freed p hi m (set p none m1)
Freed-root p hi m m1 b f = record {
  gone = λ q l u. elim (dec_lt p q) [
    | yes h ↦ ground (arith, f.gone q (omega arith) u)
    | no h ↦ ground arith
  ];
  below = λ q l. ground (arith, f.below q (omega arith));
  above = λ q l. ground (arith, f.above q l);
  same_next = f.same_next;
}

free_root :
    (fuel p hi : ℕ) (m : Memory) (node : Node)
    → m.cell p ≡ some node
    → p < hi
    → Frees (free_all (free_node fuel) (children node) m) (suc p) hi m
    → Frees (free_node (suc fuel) p m) p hi m
unfolding free_node
free_root fuel p hi m node e b (m1, r, f) =
    (set p none m1, rw (e, r, free_node) refl, Freed-root p hi m m1 b f)

free_first :
    (free : ℕ → Memory → Option Memory) (p : ℕ) (ps : List ℕ) (m m1 : Memory)
    → free p m ≡ some m1
    → free_all free (p ∷ ps) m ≡ free_all free ps m1
free_first free p ps m m1 e = rw (e, free_all) refl

mutual
  free_Holds :
      (fuel : ℕ) (m : Memory) (p hi : ℕ) (j : Json)
      → Holds m.cell p hi j
      → hi ≤ p + fuel
      → Frees (free_node fuel p m) p hi m
  free_Holds zero m p hi j h b = let c = Holds-bound m.cell p hi j h in absurd (omega arith)
  free_Holds (suc fuel) m p hi null (e, h) b =
      free_root fuel p hi m null_node e (omega arith) (m, refl, Freed-nothing (suc p) hi m (sym h))
  free_Holds (suc fuel) m p hi (boolean x) (e, h) b =
      free_root fuel p hi m (boolean_node x) e (omega arith)
        (m, refl, Freed-nothing (suc p) hi m (sym h))
  free_Holds (suc fuel) m p hi (long x) (e, h) b =
      free_root fuel p hi m (long_node x) e (omega arith)
        (m, refl, Freed-nothing (suc p) hi m (sym h))
  free_Holds (suc fuel) m p hi (double x) (e, h) b =
      free_root fuel p hi m (double_node x) e (omega arith)
        (m, refl, Freed-nothing (suc p) hi m (sym h))
  free_Holds (suc fuel) m p hi (string x) (e, h) b =
      free_root fuel p hi m (string_node x) e (omega arith)
        (m, refl, Freed-nothing (suc p) hi m (sym h))
  free_Holds (suc fuel) m p hi (object fs) (es, e, h) b =
      free_root fuel p hi m (map_node es) e
        (omega (arith, HoldsFields-bound m.cell (suc p) hi es fs h))
        (free_HoldsFields fuel m (suc p) hi es fs h (omega arith))
  free_Holds (suc fuel) m p hi (array xs) (ps, e, h) b =
      free_root fuel p hi m (array_node ps) e
        (omega (arith, HoldsItems-bound m.cell (suc p) hi ps xs h))
        (free_HoldsItems fuel m (suc p) hi ps xs h (omega arith))

  free_HoldsFields :
      (fuel : ℕ) (m : Memory) (lo hi : ℕ) (es : List (Bytes × ℕ)) (fs : Fields)
      → HoldsFields m.cell lo hi es fs
      → hi ≤ lo + fuel
      → Frees (free_all (free_node fuel) (addresses es) m) lo hi m
  free_HoldsFields fuel m lo hi es end (e, h) b =
      (m, ap (λ z. free_all (free_node fuel) (addresses z) m) e, Freed-nothing lo hi m h)
  free_HoldsFields fuel m lo hi es (field k v fs) (more, mid, e, h, t) b =
      let c = HoldsFields-bound m.cell mid hi more fs t in
      let d = Holds-bound m.cell lo mid v h in
      let (m1, r1, f1) = free_Holds fuel m lo mid v h (omega arith) in
      let (m2, r2, f2) =
        free_HoldsFields fuel m1 mid hi more fs
          (HoldsFields-local m.cell m1.cell mid hi more fs (λ q l u. f1.above q l) t)
          (omega arith) in
      (
        m2,
        ap (λ z. free_all (free_node fuel) (addresses z) m) e
            ∙ free_first (free_node fuel) lo (addresses more) m m1 r1
            ∙ r2,
        Freed-both lo mid hi m m1 m2 (omega arith) (omega arith) f1 f2,
      )

  free_HoldsItems :
      (fuel : ℕ) (m : Memory) (lo hi : ℕ) (ps : List ℕ) (xs : Items)
      → HoldsItems m.cell lo hi ps xs
      → hi ≤ lo + fuel
      → Frees (free_all (free_node fuel) ps m) lo hi m
  free_HoldsItems fuel m lo hi ps nil (e, h) b =
      (m, ap (λ z. free_all (free_node fuel) z m) e, Freed-nothing lo hi m h)
  free_HoldsItems fuel m lo hi ps (cons x xs) (more, mid, e, h, t) b =
      let c = HoldsItems-bound m.cell mid hi more xs t in
      let d = Holds-bound m.cell lo mid x h in
      let (m1, r1, f1) = free_Holds fuel m lo mid x h (omega arith) in
      let (m2, r2, f2) =
        free_HoldsItems fuel m1 mid hi more xs
          (HoldsItems-local m.cell m1.cell mid hi more xs (λ q l u. f1.above q l) t)
          (omega arith) in
      (
        m2,
        ap (λ z. free_all (free_node fuel) z m) e
            ∙ free_first (free_node fuel) lo more m m1 r1
            ∙ r2,
        Freed-both lo mid hi m m1 m2 (omega arith) (omega arith) f1 f2,
      )

-- `JsonNode_free` on a tree that the parser built, at consecutive addresses in the order of the
-- document, frees the nodes of the tree and changes no other.
pub free_node-Freed :
    (fuel : ℕ) (m : Memory) (p hi : ℕ) (j : Json)
    → Holds m.cell p hi j
    → hi ≤ p + fuel
    → (m' : Memory) × (free_node fuel p m ≡ some m') × Freed p hi m m'
free_node-Freed fuel m p hi j h b = free_Holds fuel m p hi j h b
