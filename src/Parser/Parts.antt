-- ===== src/Parser/Parts.antt =====
-- What is left of a document when its events are cut off.
use ioprocess.Base.{
  ℕ, ◌≤◌, ◌<◌, Bytes, Bool, true, some, List, [], ◌∷◌, ◌++◌, length, append_split, ◌≡◌, ◌≢◌, ◌⊎◌,
  inl, inr, refl, sym, ap, ◌∙◌, arith, append_assoc,
}
use mathlib.Core.List.{head-eq_of_cons-eq}
use native.Mathlib.Decide.{dec_lt}
use ioprocess.Dom.{Json, Fields, Items}
use ioprocess.Dom.Store.{Node, map_node, array_node}
use ioprocess.Dom.Store.Tree.{Holds, HoldsFields, HoldsItems}
use ioprocess.Parser.Builder.{Builder, Event, proceed, run}
use ioprocess.Parser.Events.{events, Plain}
use ioprocess.Parser.Steps.{Grows}
use ioprocess.Parser.Moves.{Moved, Opened}
use ioprocess.Parser.Adds.{value-Adds}

-- A first part of two lists ends in the one or in the other.
pub cut_append :
    {A : Type 0} (pre post xs ys : List A)
    → pre ++ post ≡ xs ++ ys
    → ((us : List A) × (pre ++ us ≡ xs)) ⊎ ((us : List A) × (pre ≡ xs ++ us) × (us ++ post ≡ ys))
cut_append pre post xs ys e = elim (dec_lt (length xs) (length pre)) [
  | yes h ↦ let (us, p, q) = append_split xs ys pre post (sym e) (omega arith) in inr (us, p, sym q)
  | no h ↦ let (us, p, q) = append_split pre post xs ys e (omega arith) in inl (us, sym p)
]

pub one_event :
    (pre post : List Event) (e : Event) → pre ++ post ≡ e ∷ [] → (pre ≡ []) ⊎ (pre ≡ e ∷ [])
one_event [] post e h = inl refl
one_event (x ∷ []) post e h = inr (ap (λ z. z ∷ []) (head-eq_of_cons-eq h))
one_event (x ∷ y ∷ pre) post e h = cc

pub no_events : (pre post : List Event) → pre ++ post ≡ [] → pre ≡ []
no_events [] post h = refl
no_events (x ∷ pre) post h = cc

-- As `Moved`, with more containers open.
pub record Part (c : ℕ) (node : Node) (b b' : Builder) : Type 0 where
  pub path : List ℕ
  pub deeper : b'.stack ≡ path ++ b.stack
  pub grows : b.memory.next ≤ b'.memory.next
  pub child : b'.memory.cell c ≡ some node
  pub frame : (q : ℕ) → q < b.memory.next → q ≢ c → b'.memory.cell q ≡ b.memory.cell q

Part-of : (c : ℕ) (node : Node) (b b' : Builder) → Moved c node b b' → Part c node b b'
Part-of c node b b' m = record {
  path = [];
  deeper = m.same_stack;
  grows = m.grows;
  child = m.child;
  frame = m.frame;
}

module _ (malloc_ok : ℕ → Bool) (always : (n : ℕ) → malloc_ok n ≡ true) where
  abbrev pub CutValue : ℕ → Node → Builder → List Event → Type 0
  CutValue c node b pre =
      (pre ≡ [])
      ⊎ ((b' : Builder) × (j : Json) × (run malloc_ok pre b ≡ proceed b')
          × Part c node b b'
          × Holds b'.memory.cell b.memory.next b'.memory.next j)

  abbrev pub CutFields : ℕ → List (Bytes × ℕ) → Builder → List Event → Type 0
  CutFields c es b pre =
      (b' : Builder) × (qs : List (Bytes × ℕ)) × (fs : Fields) × (run malloc_ok pre b ≡ proceed b')
      × Part c (map_node (es ++ qs)) b b'
      × HoldsFields b'.memory.cell b.memory.next b'.memory.next qs fs

  abbrev pub CutItems : ℕ → List ℕ → Builder → List Event → Type 0
  CutItems c ps b pre =
      (b' : Builder) × (qs : List ℕ) × (xs : Items) × (run malloc_ok pre b ≡ proceed b')
      × Part c (array_node (ps ++ qs)) b b'
      × HoldsItems b'.memory.cell b.memory.next b'.memory.next qs xs

  pub whole_value :
      (j : Json) (pre : List Event) (b : Builder) (c : ℕ) (rest : List ℕ) (old new : Node)
      → Plain j
      → b.stack ≡ c ∷ rest
      → c < b.memory.next
      → b.memory.cell c ≡ some old
      → Grows old b.key b.memory.next new
      → pre ≡ events j
      → CutValue c new b pre
  whole_value j pre b c rest old new w s l o g e =
      let (b', r, m, h) = value-Adds malloc_ok always j b c rest old new w s l o g in
      inr (b', j, ap (λ z. run malloc_ok z b) e ∙ r, Part-of c new b b' m, h)

  pub leaf_cut :
      (j : Json) (e : Event) (pre post : List Event) (b : Builder) (c : ℕ) (rest : List ℕ)
      (old new : Node)
      → Plain j
      → b.stack ≡ c ∷ rest
      → c < b.memory.next
      → b.memory.cell c ≡ some old
      → Grows old b.key b.memory.next new
      → events j ≡ e ∷ []
      → pre ++ post ≡ events j
      → CutValue c new b pre
  leaf_cut j e pre post b c rest old new w s l o g one h = elim (one_event pre post e (h ∙ one)) [
    | inl p ↦ inl p
    | inr p ↦ whole_value j pre b c rest old new w s l o g (p ∙ sym one)
  ]

  -- A container that was opened and filled in part.
  pub open-Part :
      (c : ℕ) (new v full : Node) (b b2 b3 : Builder)
      → c < b.memory.next
      → Opened malloc_ok always c new v b b2
      → Part b.memory.next full b2 b3
      → Part c new b b3
  open-Part c new v full b b2 b3 l u w =
      let g = w.grows in
      let one = u.one_more in
      record {
        path = w.path ++ (b.memory.next ∷ []);
        deeper =
            w.deeper
            ∙ ap (λ z. w.path ++ z) u.on_top
            ∙ sym (append_assoc w.path (b.memory.next ∷ []) b.stack);
        grows = omega arith;
        child = w.frame c (omega arith) (omega arith) ∙ u.parent;
        frame = λ q h d. w.frame q (omega arith) (omega arith) ∙ u.rest_same q h d;
      }

  -- A whole child, and then a part of the others.
  pub next-Part :
      (c : ℕ) (node node' : Node) (b b2 b3 : Builder)
      → Moved c node b b2
      → Part c node' b2 b3
      → Part c node' b b3
  next-Part c node node' b b2 b3 m w =
      let g = m.grows in
      let h = w.grows in
      record {
        path = w.path;
        deeper = w.deeper ∙ ap (λ z. w.path ++ z) m.same_stack;
        grows = omega arith;
        child = w.child;
        frame = λ q l d. w.frame q (omega arith) d ∙ m.frame q l d;
      }

  pub nothing-Part :
      (c : ℕ) (node : Node) (b : Builder) (k : Bytes)
      → b.memory.cell c ≡ some node
      → Part c node b (record b { key = k })
  nothing-Part c node b k o = record {
    path = [];
    deeper = refl;
    grows = omega arith;
    child = o;
    frame = λ q h d. refl;
  }
