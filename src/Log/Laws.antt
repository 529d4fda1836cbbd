-- ===== src/Log/Laws.antt =====
-- What `logWriter` prints.
use ioprocess.Base.{
  ℕ, zero, suc, ◌+◌, ◌-◌, ◌≤◌, ◌<◌, Bytes, true, List, [], ◌∷◌, ◌++◌, c_str, length, drop, take,
  take-append-drop, length-drop, append_assoc, append-nil, ◌≡◌, ◌⊎◌, inl, inr, refl, sym, ap, ◌∙◌,
  arith, Bool-cases, ◌==◌,
}
use mathlib.Core.Path.{subst}
use ioprocess.Log.{Stream, Vars, popped, no_text, Ending, closed, waiting, out_of_fuel, log_writer}

-- What the thread relies on of `fwrite`: it writes first bytes of what it is given, and if it writes
-- none the stream is at its end or has failed.
pub record IsStream (stream : Stream) : Type 0 where
  pub content : stream.State → Bytes
  pub adds :
      (s : stream.State) (bs : Bytes)
      → content (stream.fwrite s bs).1 ≡ content s ++ take (stream.fwrite s bs).0 bs
  pub at_most : (s : stream.State) (bs : Bytes) → (stream.fwrite s bs).0 ≤ length bs
  pub or_over :
      (s : stream.State) (b : ℕ) (bs : Bytes)
      → (0 < (stream.fwrite s (b ∷ bs)).0) ⊎ (stream.over (stream.fwrite s (b ∷ bs)).1 ≡ true)

unfoldable pub all_lines : List Bytes → Bytes
all_lines [] = []
all_lines (line ∷ lines) = c_str line ++ all_lines lines

-- A round for each line, and one for each byte.
unfoldable pub rounds : List Bytes → ℕ
rounds [] = 0
rounds (line ∷ lines) = suc (length (c_str line) + rounds lines)

drop_nothing : (n : ℕ) → drop {A = ℕ} n [] ≡ []
drop_nothing zero = refl
drop_nothing (suc n) = refl

drop-drop : (n m : ℕ) (xs : Bytes) → drop (m + n) xs ≡ drop n (drop m xs)
drop-drop n zero xs = ap (λ k. drop k xs) (omega arith)
drop-drop n (suc m) [] = drop_nothing (suc m + n) ∙ sym (drop_nothing n)
drop-drop n (suc m) (x ∷ xs) =
    let e : suc m + n ≡ suc (m + n) = omega arith in ap (λ k. drop k (x ∷ xs)) e ∙ drop-drop n m xs

module _ (stream : Stream) (io : IsStream stream) where
  open io use {content, adds, at_most, or_over}

  -- How the thread ends that began with a stream holding `base` and with `bytes` to print.
  abbrev pub Printed : Bytes → Bytes → Ending × stream.State → Type 0
  Printed base bytes (waiting, s) = content s ≡ base ++ bytes
  Printed base bytes (closed, s) =
      (printed : Bytes) × (rest : Bytes) × (stream.over s ≡ true)
      × (printed ++ rest ≡ bytes)
      × (content s ≡ base ++ printed)
  Printed base bytes (out_of_fuel, s) = ⊥

  Printed-more :
      (base first rest : Bytes) (r : Ending × stream.State)
      → Printed (base ++ first) rest r
      → Printed base (first ++ rest) r
  Printed-more base first rest (waiting, s) w = w ∙ append_assoc base first rest
  Printed-more base first rest (closed, s) (printed, more, o, e, c) = (
    first ++ printed,
    more,
    o,
    append_assoc first printed more ∙ ap (λ z. first ++ z) e,
    c ∙ append_assoc base first printed,
  )
  Printed-more base first rest (out_of_fuel, s) w = w

  abbrev left : Vars → Bytes
  left v = drop v.n_written v.text

  abbrev Valid : Vars → Type 0
  Valid v = v.nchars ≡ v.n_written + length (left v)

  over_closes :
      (fuel : ℕ) (queue : List Bytes) (v : Vars) (s : stream.State)
      → stream.over s ≡ true
      → 0 < fuel
      → log_writer stream fuel queue v s ≡ (closed, s)
  unfolding log_writer
  over_closes zero queue v s o h = absurd (omega arith)
  over_closes (suc fuel) queue v s o h = rw o refl

  -- A round that writes.
  wrote : Vars → ℕ → Vars
  wrote v n = record v { n_written = v.n_written + n }

  left-wrote : (v : Vars) (n : ℕ) → left (wrote v n) ≡ drop n (left v)
  unfolding wrote
  left-wrote v n = drop-drop n v.n_written v.text

  wrote-Valid : (v : Vars) (n : ℕ) → Valid v → n ≤ length (left v) → Valid (wrote v n)
  unfolding wrote
  wrote-Valid v n e h =
      omega (arith, ap length (drop-drop n v.n_written v.text), length-drop n (left v))

  abbrev next : Vars → stream.State → Vars
  next v s = wrote v (stream.fwrite s (left v)).0

  -- What is printed behind a round that writes, and what is printed with it.
  round-Printed :
      (bytes : Bytes) (v : Vars) (s : stream.State) (r : Ending × stream.State)
      → Printed (content (stream.fwrite s (left v)).1) (left (next v s) ++ bytes) r
      → Printed (content s) (left v ++ bytes) r
  round-Printed bytes v s r w =
      let n : ℕ = (stream.fwrite s (left v)).0 in
      let w' : Printed (content s ++ take n (left v)) (drop n (left v) ++ bytes) r =
        subst (λ base. Printed base (drop n (left v) ++ bytes) r) (adds s (left v))
          (subst (λ z. Printed (content (stream.fwrite s (left v)).1) (z ++ bytes) r)
            (left-wrote v n) w) in
      subst (λ z. Printed (content s) z r)
        (sym (append_assoc (take n (left v)) (drop n (left v)) bytes)
          ∙ ap (λ z. z ++ bytes) (take-append-drop n (left v)))
        (Printed-more (content s) (take n (left v)) (drop n (left v) ++ bytes) r w')

  closed-Printed :
      (bytes : Bytes) (s : stream.State)
      → stream.over s ≡ true
      → Printed (content s) bytes (closed, s)
  closed-Printed bytes s o = ([], bytes, o, refl, sym (append-nil (content s)))

  popped-Valid : (line : Bytes) → Valid (popped line)
  popped-Valid line = omega arith

  -- What the loop does with some fuel.
  abbrev Prints : ℕ → Type 0
  Prints fuel =
      (queue : List Bytes) (v : Vars) (s : stream.State)
      → Valid v
      → length (left v) + rounds queue < fuel
      → Printed (content s) (left v ++ all_lines queue) (log_writer stream fuel queue v s)

  queue-Printed :
      (fuel : ℕ) (queue : List Bytes) (s : stream.State)
      → Prints fuel
      → rounds queue < suc fuel
      → Printed (content s) (all_lines queue) (elim queue [
        | [] ↦ (waiting, s)
        | line ∷ lines ↦ log_writer stream fuel lines (popped line) s
      ])
  unfolding rounds all_lines
  queue-Printed fuel [] s ih h = sym (append-nil (content s))
  queue-Printed fuel (line ∷ lines) s ih h =
      ih lines (popped line) s (popped-Valid line) (omega arith)

  write-Printed :
      (fuel : ℕ) (queue : List Bytes) (v : Vars) (s : stream.State)
      → Prints fuel
      → Valid v
      → length (left v) + rounds queue < suc fuel
      → 0 < length (left v)
      → (0 < (stream.fwrite s (left v)).0) ⊎ (stream.over (stream.fwrite s (left v)).1 ≡ true)
      → Printed
          (content s)
          (left v ++ all_lines queue)
          (log_writer stream fuel queue (next v s) (stream.fwrite s (left v)).1)
  write-Printed fuel queue v s ih e h some_byte (inl k) =
      let n : ℕ = (stream.fwrite s (left v)).0 in
      let most = at_most s (left v) in
      let fewer : length (left (next v s)) ≡ length (left v) - n =
        ap length (left-wrote v n) ∙ length-drop n (left v) in
      round-Printed (all_lines queue) v s _
        (ih queue (next v s) (stream.fwrite s (left v)).1 (wrote-Valid v n e most) (omega arith))
  write-Printed fuel queue v s ih e h some_byte (inr o) =
      let t : stream.State = (stream.fwrite s (left v)).1 in
      round-Printed (all_lines queue) v s _ (
        subst (Printed (content t) (left (next v s) ++ all_lines queue))
          (sym (over_closes fuel queue (next v s) t o (omega arith)))
          (closed-Printed (left (next v s) ++ all_lines queue) t o))

  written_or_over :
      (s : stream.State) (bs : Bytes)
      → 0 < length bs
      → (0 < (stream.fwrite s bs).0) ⊎ (stream.over (stream.fwrite s bs).1 ≡ true)
  written_or_over s [] h = absurd (omega arith)
  written_or_over s (b ∷ bs) h = or_over s b bs

  nothing-left : (bs rest : Bytes) → length bs ≡ 0 → bs ++ rest ≡ rest
  nothing-left [] rest h = refl
  nothing-left (b ∷ bs) rest h = absurd (omega arith)

  loop-Printed : (fuel : ℕ) → Prints fuel
  unfolding log_writer wrote
  loop-Printed zero queue v s e h = absurd (omega arith)
  loop-Printed (suc fuel) queue v s e h = elim (Bool-cases (stream.over s)) [
    | inl o ↦ rw o (closed-Printed (left v ++ all_lines queue) s o)
    | inr o ↦ elim (Bool-cases (v.n_written == v.nchars)) [
      | inl q ↦
          let none_left : length (left v) ≡ 0 = ground arith in
          rw (o, q)
            (subst
              (λ z. Printed (content s) z (elim queue [
                | [] ↦ (waiting, s)
                | line ∷ lines ↦ log_writer stream fuel lines (popped line) s
              ]))
              (sym (nothing-left (left v) (all_lines queue) none_left))
              (queue-Printed fuel queue s (loop-Printed fuel) (omega arith)))
      | inr q ↦
          let some_left : 0 < length (left v) = ground arith in
          rw (o, q)
            (write-Printed fuel queue v s (loop-Printed fuel) e h some_left
              (written_or_over s (left v) some_left))
    ]
  ]

-- With a round for each line and each byte of the queue, `logWriter` ends or waits. When it waits
-- it has printed all lines of the queue, in their order; when it ends the stream is at its end or
-- has failed, and a first part of them is printed.
pub log_writer-Printed :
    (stream : Stream) (io : IsStream stream) (fuel : ℕ) (queue : List Bytes) (s : stream.State)
    → rounds queue < fuel
    → Printed stream io (io.content s) (all_lines queue) (log_writer stream fuel queue no_text s)
log_writer-Printed stream io fuel queue s h =
    loop-Printed stream io fuel queue no_text s (omega arith) (omega arith)
