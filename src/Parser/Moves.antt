-- ===== src/Parser/Moves.antt =====
-- The state of the builder before and after the events of a document.
use ioprocess.Base.{
  ℕ, suc, ◌≤◌, ◌<◌, Bytes, Bool, true, some, List, [], ◌∷◌, ◌++◌, ◌≡◌, ◌≢◌, refl, sym, ap, ◌∙◌,
  arith,
}
use ioprocess.Dom.{Json, Fields, Items}
use ioprocess.Dom.Store.{Node, map_node, array_node, set}
use ioprocess.Dom.Store.Tree.{Holds, HoldsFields, HoldsItems}
use ioprocess.Parser.Builder.{Builder, Event, proceed, callback, run, push_container, pop}
use ioprocess.Parser.Events.{field_events, item_events}
use ioprocess.Parser.Steps.{
  Grows, keys_of, update_other, update_same, add_value-Grows, Makes, Opens, run-cons,
}

-- Between two states of the builder the open container `c` became `node`, and nothing else below
-- the next address changed.
pub record Moved (c : ℕ) (node : Node) (b b' : Builder) : Type 0 where
  pub same_stack : b'.stack ≡ b.stack
  pub grows : b.memory.next ≤ b'.memory.next
  pub child : b'.memory.cell c ≡ some node
  pub frame : (q : ℕ) → q < b.memory.next → q ≢ c → b'.memory.cell q ≡ b.memory.cell q

module _ (malloc_ok : ℕ → Bool) (always : (n : ℕ) → malloc_ok n ≡ true) where
  abbrev pub Adds : ℕ → Node → Json → Builder → List Event → Type 0
  Adds c node j b es =
      (b' : Builder) × (run malloc_ok es b ≡ proceed b')
      × Moved c node b b'
      × Holds b'.memory.cell b.memory.next b'.memory.next j

  -- A node without children.
  pub leaf :
      (e : Event) (v : Node) (b : Builder) (c : ℕ) (rest : List ℕ) (old new : Node)
      → Makes malloc_ok always e v
      → b.stack ≡ c ∷ rest
      → c < b.memory.next
      → b.memory.cell c ≡ some old
      → Grows old b.key b.memory.next new
      → (b' : Builder) × (run malloc_ok (e ∷ []) b ≡ proceed b')
        × Moved c new b b'
        × (b'.memory.cell b.memory.next ≡ some v)
        × (b'.memory.next ≡ suc b.memory.next)
  unfolding run
  leaf e v b c rest old new makes s l o g =
      let (m, (p, q), run_e) = makes b in
      let n = b.memory.next in
      let kept : m.cell c ≡ some old =
        ap (λ f. f c) p ∙ update_other b.memory.cell n c (some v) (omega arith) ∙ o in
      let added = add_value-Grows (record b { memory = m }) c rest old new n s kept g in
      (
        record b { memory = set c (some new) m },
        run-cons malloc_ok always e [] b _ (run_e ∙ added),
        record {
          same_stack = refl;
          grows = omega arith;
          child = update_same m.cell c (some new);
          frame = λ r h d.
              update_other m.cell c r (some new) (λ z. d (sym z))
              ∙ ap (λ f. f r) p
              ∙ update_other b.memory.cell n r (some v) (omega arith);
        },
        update_other m.cell c n (some new) (omega arith)
            ∙ ap (λ f. f n) p
            ∙ update_same b.memory.cell n (some v),
        q,
      )

  pub Moved_trans :
      (c : ℕ) (node node' : Node) (b b1 b2 : Builder)
      → Moved c node b b1
      → Moved c node' b1 b2
      → Moved c node' b b2
  Moved_trans c node node' b b1 b2 u v =
      let g = u.grows in
      let h = v.grows in
      record {
        same_stack = v.same_stack ∙ u.same_stack;
        grows = omega arith;
        child = v.child;
        frame = λ q l d. v.frame q (omega arith) d ∙ u.frame q l d;
      }

  -- The state behind the event that opens a container under `c`.
  pub record Opened (c : ℕ) (new v : Node) (b b' : Builder) : Type 0 where
    pub on_top : b'.stack ≡ b.memory.next ∷ b.stack
    pub one_more : b'.memory.next ≡ suc b.memory.next
    pub made : b'.memory.cell b.memory.next ≡ some v
    pub parent : b'.memory.cell c ≡ some new
    pub rest_same : (q : ℕ) → q < b.memory.next → q ≢ c → b'.memory.cell q ≡ b.memory.cell q

  pub open_under :
      (e : Event) (v : Node) (b : Builder) (c : ℕ) (rest : List ℕ) (old new : Node)
      → Opens malloc_ok always e v
      → b.stack ≡ c ∷ rest
      → c < b.memory.next
      → b.memory.cell c ≡ some old
      → Grows old b.key b.memory.next new
      → (b' : Builder) × (callback malloc_ok e b ≡ proceed b') × Opened c new v b b'
  open_under e v b c rest old new opens s l o g =
      let (m, (p, q), run_e) = opens b in
      let n = b.memory.next in
      let kept : m.cell c ≡ some old =
        ap (λ f. f c) p ∙ update_other b.memory.cell n c (some v) (omega arith) ∙ o in
      let added = add_value-Grows (record b { memory = m }) c rest old new n s kept g in
      (
        record b { stack = n ∷ b.stack; memory = set c (some new) m },
        run_e ∙ ap (push_container n) added,
        record {
          on_top = refl;
          one_more = q;
          made =
              update_other m.cell c n (some new) (omega arith)
              ∙ ap (λ f. f n) p
              ∙ update_same b.memory.cell n (some v);
          parent = update_same m.cell c (some new);
          rest_same = λ r h d.
              update_other m.cell c r (some new) (λ z. d (sym z))
              ∙ ap (λ f. f r) p
              ∙ update_other b.memory.cell n r (some v) (omega arith);
        },
      )

  -- The container is filled and closed.
  pub close_under :
      (c : ℕ) (new v full : Node) (b b2 b3 : Builder)
      → c < b.memory.next
      → Opened c new v b b2
      → Moved b.memory.next full b2 b3
      → Moved c new b (record b3 { stack = pop b3.stack })
  unfolding pop
  close_under c new v full b b2 b3 l u w =
      let g = w.grows in
      let one = u.one_more in
      record {
        same_stack = ap pop (w.same_stack ∙ u.on_top);
        grows = omega arith;
        child = w.frame c (omega arith) (omega arith) ∙ u.parent;
        frame = λ q h d. w.frame q (omega arith) (omega arith) ∙ u.rest_same q h d;
      }

  pub keys_of-append :
      (es : List (Bytes × ℕ)) (k : Bytes) (p : ℕ)
      → keys_of (es ++ ((k, p) ∷ [])) ≡ keys_of es ++ (k ∷ [])
  keys_of-append [] k p = refl
  keys_of-append ((j, q) ∷ es) k p = ap (λ t. j ∷ t) (keys_of-append es k p)

  abbrev pub AddsFields : ℕ → List (Bytes × ℕ) → Fields → Builder → Type 0
  AddsFields c es fs b =
      (b' : Builder) × (qs : List (Bytes × ℕ)) × (run malloc_ok (field_events fs) b ≡ proceed b')
      × Moved c (map_node (es ++ qs)) b b'
      × HoldsFields b'.memory.cell b.memory.next b'.memory.next qs fs

  abbrev pub AddsItems : ℕ → List ℕ → Items → Builder → Type 0
  AddsItems c ps xs b =
      (b' : Builder) × (qs : List ℕ) × (run malloc_ok (item_events xs) b ≡ proceed b')
      × Moved c (array_node (ps ++ qs)) b b'
      × HoldsItems b'.memory.cell b.memory.next b'.memory.next qs xs
