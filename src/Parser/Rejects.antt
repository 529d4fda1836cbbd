-- ===== src/Parser/Rejects.antt =====
-- A text that yajl gives up leaves nothing behind.
use ioprocess.Base.{
  ℕ, suc, ◌%◌, ◌≤◌, ◌<◌, ◌^◌, Bytes, Bool, true, false, ◌&&◌, none, some, List, [], ◌∷◌, ◌++◌,
  length, take, take_all, if◌then◌else◌, ◌≡◌, ◌≢◌, inl, inr, Bool-cases, refl, sym, ap, ◌∙◌, arith,
  append-nil,
}
use mathlib.Core.Path.{subst, ap₂}
use mathlib.Core.List.{tail-eq_of_cons-eq, head-eq_of_cons-eq}
use ioprocess.Dom.{Json, null, boolean, long, double, string, object, array}
use ioprocess.Dom.Store.{map_node, array_node, Memory}
use ioprocess.Dom.Store.Tree.{Holds, HoldsFields, HoldsItems}
use ioprocess.Dom.Store.Free.{free_node-Freed}
use ioprocess.Parser.Builder.{
  Builder, Event, on_null, on_boolean, on_long, on_double, on_string, on_start_map, on_end_map,
  on_start_array, on_end_array, proceed, run,
}
use ioprocess.Parser.Build.{
  Lexed, Built, rejected, peek_tail, finish, reject, checked, complete, build_dom, empty_builder,
  einval,
}
use ioprocess.Parser.Events.{events, field_events, item_events, Plain}
use ioprocess.Parser.Steps.{map-Opens, array-Opens, run_append, run-cons}
use ioprocess.Parser.Parts.{cut_append, one_event}
use ioprocess.Parser.Cuts.{cut_fields, cut_items}
use ioprocess.Parser.Laws.{root_open, root-Builds, resumed_from}

peek_tail-path : (path : List ℕ) (p q : ℕ) → peek_tail (path ++ (p ∷ (q ∷ []))) ≡ some q
unfolding peek_tail
peek_tail-path [] p q = refl
peek_tail-path (x ∷ []) p q = refl
peek_tail-path (x ∷ y ∷ path) p q = peek_tail-path (y ∷ path) p q

-- The callbacks that yajl makes for a text.
abbrev pub callbacks : Lexed → List Event
callbacks l = if l.parsed_ok then l.parsed ++ l.completed else l.parsed

module _ (malloc_ok : ℕ → Bool) (always : (n : ℕ) → malloc_ok n ≡ true) where
  -- A tree at the bottom of the stack holds all that was made.
  abbrev RootPart : Memory → List Event → Type 0
  RootPart m pre =
      (b : Builder) × (j : Json) × (run malloc_ok pre (empty_builder m) ≡ proceed b)
      × (peek_tail b.stack ≡ some m.next)
      × Holds b.memory.cell m.next b.memory.next j
      × ((q : ℕ) → q < m.next → b.memory.cell q ≡ m.cell q)

  whole_root :
      (j : Json) (m : Memory) (pre : List Event) → Plain j → pre ≡ events j → RootPart m pre
  unfolding peek_tail
  whole_root j m pre w e =
      let (b, r, (s, h, f)) = root-Builds malloc_ok always j m w in
      (b, j, ap (λ z. run malloc_ok z (empty_builder m)) e ∙ r, ap peek_tail s, h, f)

  leaf_root :
      (j : Json) (e : Event) (m : Memory) (pre post : List Event)
      → Plain j
      → events j ≡ e ∷ []
      → pre ≢ []
      → pre ++ post ≡ events j
      → RootPart m pre
  leaf_root j e m pre post w one some_event h = elim (one_event pre post e (h ∙ one)) [
    | inl p ↦ absurd (some_event p)
    | inr p ↦ whole_root j m pre w (p ∙ sym one)
  ]

  cut_root :
      (j : Json) (m : Memory) (pre post : List Event)
      → Plain j
      → pre ≢ []
      → pre ++ post ≡ events j
      → RootPart m pre
  cut_root null m pre post w s e = leaf_root null on_null m pre post w refl s e
  cut_root (boolean x) m pre post w s e = leaf_root (boolean x) (on_boolean x) m pre post w refl s e
  cut_root (long x) m pre post w s e = leaf_root (long x) (on_long x) m pre post w refl s e
  cut_root (double x) m pre post w s e = leaf_root (double x) (on_double x) m pre post w refl s e
  cut_root (string x) m pre post w s e = leaf_root (string x) (on_string x) m pre post w refl s e
  cut_root (object fs) m [] post w s e = absurd (s refl)
  cut_root (object fs) m (x ∷ pre) post w s e =
      let n = m.next in
      let first : x ≡ on_start_map = head-eq_of_cons-eq e in
      let (b2, start, on, made, one, f) =
        root_open malloc_ok always on_start_map (map_node []) m (map-Opens malloc_ok always) in
      let begun : run malloc_ok (x ∷ pre) (empty_builder m) ≡ run malloc_ok pre b2 =
        ap (λ z. run malloc_ok (z ∷ pre) (empty_builder m)) first
        ∙ run-cons malloc_ok always on_start_map pre (empty_builder m) b2 start in
      let partly : (us : List Event) → pre ++ us ≡ field_events fs → RootPart m (x ∷ pre) = λ us q.
        (let (b3, qs, gs, r, u, h) =
            cut_fields malloc_ok always fs pre us b2 n (n ∷ []) [] w on (omega arith) made q in
          (
            b3,
            object gs,
            begun ∙ r,
            ap peek_tail (u.deeper ∙ ap (λ z. u.path ++ z) on) ∙ peek_tail-path u.path n n,
            (qs, u.child, subst (λ z. HoldsFields b3.memory.cell z b3.memory.next qs gs) one h),
            λ q l. u.frame q (omega arith) (omega arith) ∙ f q l,
          )) in
      elim (cut_append pre post (field_events fs) (on_end_map ∷ []) (tail-eq_of_cons-eq e)) [
        | inl (us, q) ↦ partly us q
        | inr (us, q, t) ↦ elim (one_event us post on_end_map t) [
          | inl z ↦
              partly [] (
                append-nil pre
                ∙ q
                ∙ ap (λ v. field_events fs ++ v) z
                ∙ append-nil (field_events fs))
          | inr z ↦ whole_root (object fs) m (x ∷ pre) w (
              ap (λ v. v ∷ pre) first
              ∙ ap (λ v. on_start_map ∷ v) (q ∙ ap (λ v. field_events fs ++ v) z))
        ]
      ]
  cut_root (array xs) m [] post w s e = absurd (s refl)
  cut_root (array xs) m (x ∷ pre) post w s e =
      let n = m.next in
      let first : x ≡ on_start_array = head-eq_of_cons-eq e in
      let (b2, start, on, made, one, f) =
        root_open malloc_ok always on_start_array (array_node []) m
          (array-Opens malloc_ok always) in
      let begun : run malloc_ok (x ∷ pre) (empty_builder m) ≡ run malloc_ok pre b2 =
        ap (λ z. run malloc_ok (z ∷ pre) (empty_builder m)) first
        ∙ run-cons malloc_ok always on_start_array pre (empty_builder m) b2 start in
      let partly : (us : List Event) → pre ++ us ≡ item_events xs → RootPart m (x ∷ pre) = λ us q.
        (let (b3, qs, ys, r, u, h) =
            cut_items malloc_ok always xs pre us b2 n (n ∷ []) [] w on (omega arith) made q in
          (
            b3,
            array ys,
            begun ∙ r,
            ap peek_tail (u.deeper ∙ ap (λ z. u.path ++ z) on) ∙ peek_tail-path u.path n n,
            (qs, u.child, subst (λ z. HoldsItems b3.memory.cell z b3.memory.next qs ys) one h),
            λ q l. u.frame q (omega arith) (omega arith) ∙ f q l,
          )) in
      elim (cut_append pre post (item_events xs) (on_end_array ∷ []) (tail-eq_of_cons-eq e)) [
        | inl (us, q) ↦ partly us q
        | inr (us, q, t) ↦ elim (one_event us post on_end_array t) [
          | inl z ↦
              partly []
                (append-nil pre ∙ q ∙ ap (λ v. item_events xs ++ v) z ∙ append-nil (item_events xs))
          | inr z ↦ whole_root (array xs) m (x ∷ pre) w (
              ap (λ v. v ∷ pre) first
              ∙ ap (λ v. on_start_array ∷ v) (q ∙ ap (λ v. item_events xs ++ v) z))
        ]
      ]

  -- NULL with EINVAL; what was made is gone again, and what was there is as it was.
  abbrev pub RejectsClean : Memory → Built → Type 0
  RejectsClean m r =
      (m' : Memory) × (r ≡ rejected einval m')
      × ((q : ℕ) → q < m.next → m'.cell q ≡ m.cell q)
      × ((q : ℕ) → m.next ≤ q → q < m'.next → m'.cell q ≡ none)

  reject_root :
      (m : Memory) (b : Builder) (j : Json)
      → peek_tail b.stack ≡ some m.next
      → Holds b.memory.cell m.next b.memory.next j
      → ((q : ℕ) → q < m.next → b.memory.cell q ≡ m.cell q)
      → RejectsClean m (reject einval b)
  unfolding reject
  reject_root m b j p h f =
      let (m', r, g) =
        free_node-Freed (suc b.memory.next) b.memory m.next b.memory.next j h (omega arith) in
      let e = g.same_next in
      (m', rw (p, r, reject) refl, λ q l. g.below q l ∙ f q l, λ q l u. g.gone q l (omega arith))

  no_callbacks : (m : Memory) → RejectsClean m (reject einval (empty_builder m))
  unfolding reject peek_tail
  no_callbacks m = (m, refl, λ q l. refl, λ q l u. absurd (omega arith))

  rejects_after :
      (j : Json) (m : Memory) (pre post : List Event)
      → Plain j
      → pre ++ post ≡ events j
      → (b : Builder) × (run malloc_ok pre (empty_builder m) ≡ proceed b)
        × RejectsClean m (reject einval b)
  unfolding run
  rejects_after j m [] post w e = (empty_builder m, refl, no_callbacks m)
  rejects_after j m (x ∷ pre) post w e =
      let (b, j', r, p, h, f) = cut_root j m (x ∷ pre) post w (λ z. cc) e in
      (b, r, reject_root m b j' p h f)

  status_rejects :
      (lex : Bytes → Lexed) (l : Lexed) (j : Json) (m : Memory) (post : List Event)
      → Plain j
      → l.parsed_ok && l.completed_ok ≡ false
      → callbacks l ++ post ≡ events j
      → RejectsClean m (
          checked l.parsed_ok (complete malloc_ok lex l) (run malloc_ok l.parsed (empty_builder m)))
  unfolding checked complete
  status_rejects lex l j m post w bad e = elim (Bool-cases l.parsed_ok) [
    | inl t ↦
        let both : callbacks l ≡ l.parsed ++ l.completed = rw t in
        let f : l.completed_ok ≡ false = ground arith in
        let (b, r, clean) =
          rejects_after j m (l.parsed ++ l.completed) post w (ap (λ z. z ++ post) (sym both) ∙ e) in
        let (b1, p, q) =
          resumed_from malloc_ok always (run malloc_ok l.completed)
            (run malloc_ok l.parsed (empty_builder m)) b
            (sym (run_append malloc_ok always l.parsed l.completed (empty_builder m)) ∙ r) in
        subst (RejectsClean m)
          (sym (
            ap₂ (λ ok o. checked ok (complete malloc_ok lex l) o) t p
            ∙ ap₂ (λ ok o. checked ok finish o) f q))
          clean
    | inr t ↦
        let first : callbacks l ≡ l.parsed = rw t in
        let (b, r, clean) =
          rejects_after j m l.parsed post w (ap (λ z. z ++ post) (sym first) ∙ e) in
        subst (RejectsClean m) (sym (ap₂ (λ ok o. checked ok (complete malloc_ok lex l) o) t r))
          clean
  ]

-- When memory can be had, a text of less than 4 GiB that yajl finds bad, at its end or at any place,
-- where the callbacks so far are the first ones for some document, whose maps have distinct keys
-- without NUL and whose texts are shorter than 2 GiB, is rejected with EINVAL; all nodes that were made for it are freed, none of them
-- twice, and the nodes that were there before are as they were.
pub build_dom-rejects :
    (malloc_ok : ℕ → Bool) (lex : Bytes → Lexed) (buffer : Bytes) (m : Memory) (post : List Event)
    (j : Json)
    → ((n : ℕ) → malloc_ok n ≡ true)
    → length buffer < 2 ^ 32
    → (lex buffer).parsed_ok && (lex buffer).completed_ok ≡ false
    → callbacks (lex buffer) ++ post ≡ events j
    → Plain j
    → (m' : Memory) × (build_dom malloc_ok lex true buffer m ≡ rejected einval m')
      × ((q : ℕ) → q < m.next → m'.cell q ≡ m.cell q)
      × ((q : ℕ) → m.next ≤ q → q < m'.next → m'.cell q ≡ none)
unfolding build_dom
build_dom-rejects malloc_ok lex buffer m post j always h bad e w =
    let all : take (length buffer % 2 ^ 32) buffer ≡ buffer =
      take_all (length buffer % 2 ^ 32) buffer (omega arith) in
    rw all (status_rejects malloc_ok always lex (lex buffer) j m post w bad e)
