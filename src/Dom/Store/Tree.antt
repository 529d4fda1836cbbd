-- ===== src/Dom/Store/Tree.antt =====
-- Trees of nodes in memory.
use ioprocess.Base.{
  ℕ, zero, suc, ◌+◌, ◌≤◌, ◌<◌, Bytes, Option, none, some, List, [], ◌∷◌, ◌≡◌, ap, ◌∙◌, arith,
}
use mathlib.Core.Path.{ap₂}
use ioprocess.Dom.{
  Json, null, boolean, long, double, string, object, array, Fields, end, field, Items, nil, cons,
}
use ioprocess.Dom.Store.{
  Node, null_node, boolean_node, long_node, double_node, string_node, map_node, array_node, Cells,
}

-- A tree of a document fills the addresses from its root up to a bound, and a row of trees those
-- between two bounds, one after the other.
abbrev mutual
  pub Holds : Cells → ℕ → ℕ → Json → Type 0
  Holds cell p hi null = (cell p ≡ some null_node) × (hi ≡ suc p)
  Holds cell p hi (boolean b) = (cell p ≡ some (boolean_node b)) × (hi ≡ suc p)
  Holds cell p hi (long l) = (cell p ≡ some (long_node l)) × (hi ≡ suc p)
  Holds cell p hi (double d) = (cell p ≡ some (double_node d)) × (hi ≡ suc p)
  Holds cell p hi (string s) = (cell p ≡ some (string_node s)) × (hi ≡ suc p)
  Holds cell p hi (object fs) =
      (es : List (Bytes × ℕ)) × (cell p ≡ some (map_node es)) × HoldsFields cell (suc p) hi es fs
  Holds cell p hi (array xs) =
      (ps : List ℕ) × (cell p ≡ some (array_node ps)) × HoldsItems cell (suc p) hi ps xs

  pub HoldsFields : Cells → ℕ → ℕ → List (Bytes × ℕ) → Fields → Type 0
  HoldsFields cell lo hi es end = (es ≡ []) × (lo ≡ hi)
  HoldsFields cell lo hi es (field k v fs) =
      (more : List (Bytes × ℕ)) × (mid : ℕ) × (es ≡ (k, lo) ∷ more)
      × Holds cell lo mid v
      × HoldsFields cell mid hi more fs

  pub HoldsItems : Cells → ℕ → ℕ → List ℕ → Items → Type 0
  HoldsItems cell lo hi ps nil = (ps ≡ []) × (lo ≡ hi)
  HoldsItems cell lo hi ps (cons x xs) =
      (more : List ℕ) × (mid : ℕ) × (ps ≡ lo ∷ more)
      × Holds cell lo mid x
      × HoldsItems cell mid hi more xs

mutual
  pub Holds-bound : (cell : Cells) (p hi : ℕ) (j : Json) → Holds cell p hi j → p < hi
  Holds-bound cell p hi null (e, h) = omega arith
  Holds-bound cell p hi (boolean b) (e, h) = omega arith
  Holds-bound cell p hi (long l) (e, h) = omega arith
  Holds-bound cell p hi (double d) (e, h) = omega arith
  Holds-bound cell p hi (string s) (e, h) = omega arith
  Holds-bound cell p hi (object fs) (es, e, h) =
      omega (arith, HoldsFields-bound cell (suc p) hi es fs h)
  Holds-bound cell p hi (array xs) (ps, e, h) =
      omega (arith, HoldsItems-bound cell (suc p) hi ps xs h)

  pub HoldsFields-bound :
      (cell : Cells) (lo hi : ℕ) (es : List (Bytes × ℕ)) (fs : Fields)
      → HoldsFields cell lo hi es fs
      → lo ≤ hi
  HoldsFields-bound cell lo hi es end (e, h) = omega arith
  HoldsFields-bound cell lo hi es (field k v fs) (more, mid, e, h, t) =
      omega (arith, Holds-bound cell lo mid v h, HoldsFields-bound cell mid hi more fs t)

  pub HoldsItems-bound :
      (cell : Cells) (lo hi : ℕ) (ps : List ℕ) (xs : Items) → HoldsItems cell lo hi ps xs → lo ≤ hi
  HoldsItems-bound cell lo hi ps nil (e, h) = omega arith
  HoldsItems-bound cell lo hi ps (cons x xs) (more, mid, e, h, t) =
      omega (arith, Holds-bound cell lo mid x h, HoldsItems-bound cell mid hi more xs t)

-- Two memories are the same between two addresses.
abbrev pub Agree : Cells → Cells → ℕ → ℕ → Type 0
Agree cell cell' lo hi = (q : ℕ) → lo ≤ q → q < hi → cell' q ≡ cell q

mutual
  pub Holds-local :
      (cell cell' : Cells) (p hi : ℕ) (j : Json)
      → Agree cell cell' p hi
      → Holds cell p hi j
      → Holds cell' p hi j
  Holds-local cell cell' p hi null a (e, h) = (a p (omega arith) (omega arith) ∙ e, h)
  Holds-local cell cell' p hi (boolean b) a (e, h) = (a p (omega arith) (omega arith) ∙ e, h)
  Holds-local cell cell' p hi (long l) a (e, h) = (a p (omega arith) (omega arith) ∙ e, h)
  Holds-local cell cell' p hi (double d) a (e, h) = (a p (omega arith) (omega arith) ∙ e, h)
  Holds-local cell cell' p hi (string s) a (e, h) = (a p (omega arith) (omega arith) ∙ e, h)
  Holds-local cell cell' p hi (object fs) a (es, e, h) =
      let b = HoldsFields-bound cell (suc p) hi es fs h in
      (
        es,
        a p (omega arith) (omega arith) ∙ e,
        HoldsFields-local cell cell' (suc p) hi es fs (λ q l u. a q (omega arith) u) h,
      )
  Holds-local cell cell' p hi (array xs) a (ps, e, h) =
      let b = HoldsItems-bound cell (suc p) hi ps xs h in
      (
        ps,
        a p (omega arith) (omega arith) ∙ e,
        HoldsItems-local cell cell' (suc p) hi ps xs (λ q l u. a q (omega arith) u) h,
      )

  pub HoldsFields-local :
      (cell cell' : Cells) (lo hi : ℕ) (es : List (Bytes × ℕ)) (fs : Fields)
      → Agree cell cell' lo hi
      → HoldsFields cell lo hi es fs
      → HoldsFields cell' lo hi es fs
  HoldsFields-local cell cell' lo hi es end a h = h
  HoldsFields-local cell cell' lo hi es (field k v fs) a (more, mid, e, h, t) =
      let b = HoldsFields-bound cell mid hi more fs t in
      let c = Holds-bound cell lo mid v h in
      (
        more,
        mid,
        e,
        Holds-local cell cell' lo mid v (λ q l u. a q l (omega arith)) h,
        HoldsFields-local cell cell' mid hi more fs (λ q l u. a q (omega arith) u) t,
      )

  pub HoldsItems-local :
      (cell cell' : Cells) (lo hi : ℕ) (ps : List ℕ) (xs : Items)
      → Agree cell cell' lo hi
      → HoldsItems cell lo hi ps xs
      → HoldsItems cell' lo hi ps xs
  HoldsItems-local cell cell' lo hi ps nil a h = h
  HoldsItems-local cell cell' lo hi ps (cons x xs) a (more, mid, e, h, t) =
      let b = HoldsItems-bound cell mid hi more xs t in
      let c = Holds-bound cell lo mid x h in
      (
        more,
        mid,
        e,
        Holds-local cell cell' lo mid x (λ q l u. a q l (omega arith)) h,
        HoldsItems-local cell cell' mid hi more xs (λ q l u. a q (omega arith) u) t,
      )

-- The document of a tree, as it is read by following the pointers.
abbrev pub cons_of : Option Json → Option Items → Option Items
cons_of none xs = none
cons_of (some x) none = none
cons_of (some x) (some xs) = some (cons x xs)

abbrev pub field_of : Bytes → Option Json → Option Fields → Option Fields
field_of k none fs = none
field_of k (some v) none = none
field_of k (some v) (some fs) = some (field k v fs)

abbrev pub read_items : (ℕ → Option Json) → List ℕ → Option Items
read_items read [] = some nil
read_items read (p ∷ ps) = cons_of (read p) (read_items read ps)

abbrev pub read_fields : (ℕ → Option Json) → List (Bytes × ℕ) → Option Fields
read_fields read [] = some end
read_fields read ((k, p) ∷ es) = field_of k (read p) (read_fields read es)

abbrev pub object_of : Option Fields → Option Json
object_of none = none
object_of (some fs) = some (object fs)

abbrev pub array_of : Option Items → Option Json
array_of none = none
array_of (some xs) = some (array xs)

abbrev pub read_data : (ℕ → Option Json) → Option Node → Option Json
read_data read none = none
read_data read (some null_node) = some null
read_data read (some (boolean_node b)) = some (boolean b)
read_data read (some (long_node l)) = some (long l)
read_data read (some (double_node d)) = some (double d)
read_data read (some (string_node s)) = some (string s)
read_data read (some (map_node es)) = object_of (read_fields read es)
read_data read (some (array_node ps)) = array_of (read_items read ps)

unfoldable pub read_node : ℕ → Cells → ℕ → Option Json
read_node zero cell p = none
read_node (suc fuel) cell p = read_data (read_node fuel cell) (cell p)

mutual
  unfolding read_node

  pub read_Holds :
      (fuel : ℕ) (cell : Cells) (p hi : ℕ) (j : Json)
      → Holds cell p hi j
      → hi ≤ p + fuel
      → read_node fuel cell p ≡ some j
  read_Holds zero cell p hi j h b = let c = Holds-bound cell p hi j h in absurd (omega arith)
  read_Holds (suc fuel) cell p hi null (e, h) b = rw e
  read_Holds (suc fuel) cell p hi (boolean x) (e, h) b = rw e
  read_Holds (suc fuel) cell p hi (long l) (e, h) b = rw e
  read_Holds (suc fuel) cell p hi (double d) (e, h) b = rw e
  read_Holds (suc fuel) cell p hi (string s) (e, h) b = rw e
  read_Holds (suc fuel) cell p hi (object fs) (es, e, h) b =
      ap (read_data (read_node fuel cell)) e
      ∙ ap object_of (read_HoldsFields fuel cell (suc p) hi es fs h (omega arith))
  read_Holds (suc fuel) cell p hi (array xs) (ps, e, h) b =
      ap (read_data (read_node fuel cell)) e
      ∙ ap array_of (read_HoldsItems fuel cell (suc p) hi ps xs h (omega arith))

  pub read_HoldsFields :
      (fuel : ℕ) (cell : Cells) (lo hi : ℕ) (es : List (Bytes × ℕ)) (fs : Fields)
      → HoldsFields cell lo hi es fs
      → hi ≤ lo + fuel
      → read_fields (read_node fuel cell) es ≡ some fs
  read_HoldsFields fuel cell lo hi es end (e, h) b = rw e
  read_HoldsFields fuel cell lo hi es (field k v fs) (more, mid, e, h, t) b =
      let c = HoldsFields-bound cell mid hi more fs t in
      let d = Holds-bound cell lo mid v h in
      ap (read_fields (read_node fuel cell)) e
      ∙ ap₂ (field_of k) (read_Holds fuel cell lo mid v h (omega arith))
          (read_HoldsFields fuel cell mid hi more fs t (omega arith))

  pub read_HoldsItems :
      (fuel : ℕ) (cell : Cells) (lo hi : ℕ) (ps : List ℕ) (xs : Items)
      → HoldsItems cell lo hi ps xs
      → hi ≤ lo + fuel
      → read_items (read_node fuel cell) ps ≡ some xs
  read_HoldsItems fuel cell lo hi ps nil (e, h) b = rw e
  read_HoldsItems fuel cell lo hi ps (cons x xs) (more, mid, e, h, t) b =
      let c = HoldsItems-bound cell mid hi more xs t in
      let d = Holds-bound cell lo mid x h in
      ap (read_items (read_node fuel cell)) e
      ∙ ap₂ cons_of (read_Holds fuel cell lo mid x h (omega arith))
          (read_HoldsItems fuel cell mid hi more xs t (omega arith))
