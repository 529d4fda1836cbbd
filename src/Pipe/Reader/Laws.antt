-- ===== src/Pipe/Reader/Laws.antt =====
-- `requestReader` on a pipe that carries frames.
use ioprocess.Base.{
  ℕ, zero, suc, ◌+◌, ◌%◌, ◌^◌, ◌<◌, Bytes, Option, none, some, List, [], ◌∷◌, ◌++◌, ◌≡◌, refl, sym,
  ap, ◌∙◌, arith, length, append_assoc, length-append,
}
use ioprocess.Dom.{Json}
use ioprocess.Pipe.Frame.{
  le_bytes, length-le_bytes, overwrite, overwrite-le_bytes, frame, frames, size_bytes, total_length,
}
use ioprocess.Pipe.Reader.{
  Input, got, Vars, vars, stopped, Run, ends, push, epipe, sized, allocate, header, body,
  open_frame, reader,
}
use ioprocess.Pipe.Reader.Parts.{IsPipe, append_cut, append-empty, idle, body_message, body_end}

module _ (i : Input) (pipe : IsPipe i) (parse : Bytes → Option Json) (alloc : ℕ → Option ℕ) where
  open pipe use {content, gives, whole}

  allocate_sized :
      (n : ℕ)
      → n + 1 < 2 ^ 64
      → alloc (n + 1) ≡ none
      → allocate i parse alloc n ≡ sized (record { pending = n; req_size = n; buffer = [] })
  unfolding allocate
  allocate_sized n h a =
      let fits : (n + 1) % 2 ^ 64 ≡ n + 1 = omega arith in rw (fits, a, allocate) (ground arith)

  header-sized :
      (size n : ℕ) (bs : Bytes)
      → overwrite bs size ≡ n
      → n + 1 < 2 ^ 64
      → alloc (n + 1) ≡ none
      → header i parse alloc (idle size) (got bs)
        ≡ sized (record { pending = n; req_size = n; buffer = [] })
  unfolding header
  header-sized size n bs o h a = ap (allocate i parse alloc) o ∙ allocate_sized n h a

  open_frame-sized :
      (again : Vars → i.State → Run) (v w : Vars) (s : i.State)
      → header i parse alloc v (i.read s size_bytes).0 ≡ sized w
      → open_frame i parse alloc again v s ≡ body i parse alloc again w (i.read s size_bytes).1
  unfolding open_frame
  open_frame-sized again v w s e = rw (e, open_frame) refl

  reader-sized :
      (fuel size : ℕ) (s : i.State) (bs : Bytes) (n : ℕ)
      → (i.read s size_bytes).0 ≡ got bs
      → overwrite bs size ≡ n
      → n + 1 < 2 ^ 64
      → alloc (n + 1) ≡ none
      → reader i parse alloc (suc fuel) (idle size) s
        ≡ body i parse alloc
            (reader i parse alloc fuel)
            (record { pending = n; req_size = n; buffer = [] })
            (i.read s size_bytes).1
  unfolding reader
  reader-sized fuel size s bs n e o h a =
      open_frame-sized (reader i parse alloc fuel) (idle size) _ s
        (ap (header i parse alloc (idle size)) e ∙ header-sized size n bs o h a)

  -- The size of a message, read whole.
  open_frame-frame :
      (fuel size : ℕ) (s : i.State) (m tail : Bytes)
      → size < 2 ^ 64
      → length m + 1 < 2 ^ 64
      → alloc (length m + 1) ≡ none
      → content s ≡ frame m ++ tail
      → (content (i.read s size_bytes).1 ≡ m ++ tail)
        × (reader i parse alloc (suc fuel) (idle size) s
            ≡ body i parse alloc
                (reader i parse alloc fuel)
                (record { pending = length m; req_size = length m; buffer = [] })
                (i.read s size_bytes).1)
  unfolding frame
  open_frame-frame fuel size s m tail hs hm ha hc =
      let (bs, e, f, l, z) = gives s size_bytes in
      let digits = le_bytes size_bytes (length m) in
      let held : content s ≡ digits ++ (m ++ tail) = hc ∙ append_assoc digits m tail in
      let many : length (content s) ≡ 8 + length (m ++ tail) =
        ap length held
        ∙ length-append digits (m ++ tail)
        ∙ ap (λ n. n + length (m ++ tail)) (length-le_bytes 8 (length m)) in
      let eight : length bs ≡ 8 = whole s bs e (omega arith) in
      let (same, rest) =
        append_cut bs (content (i.read s size_bytes).1) digits (m ++ tail) (f ∙ held)
          (eight ∙ sym (length-le_bytes 8 (length m))) in
      (
        rest,
        reader-sized fuel size s bs (length m) e
            (ap (λ z. overwrite z size) same ∙ overwrite-le_bytes (length m) size (omega arith) hs)
            hm ha,
      )

  -- The end of the stream.
  reader-end :
      (fuel size : ℕ) (s : i.State)
      → size + 1 < 2 ^ 64
      → alloc (size + 1) ≡ none
      → content s ≡ []
      → reader i parse alloc (suc fuel) (idle size) s ≡ ends (stopped epipe)
  unfolding overwrite
  reader-end fuel size s hs ha hc =
      let (bs, e, f, l, z) = gives s size_bytes in
      let t = (i.read s size_bytes).1 in
      let (cs, e', f', l', z') = gives t size in
      let (none_got, none_left) = append-empty bs (content t) (f ∙ hc) in
      let (none_more, r) = append-empty cs (content (i.read t size).1) (f' ∙ none_left) in
      reader-sized fuel size s bs size e (ap (λ z. overwrite z size) none_got) hs ha
      ∙ body_end i pipe parse alloc (reader i parse alloc fuel) _ t (e' ∙ ap got none_more)

  -- What a message needs for its request to be pushed.
  abbrev Readable : Bytes → Json → Type 0
  Readable m r =
      (0 < length m) × (length m + 1 < 2 ^ 64) × (alloc (length m + 1) ≡ none) × (parse m ≡ some r)

  abbrev pub AllReadable : List Bytes → List Json → Type 0
  AllReadable [] [] = Unit
  AllReadable [] (r ∷ rs) = ⊥
  AllReadable (m ∷ ms) [] = ⊥
  AllReadable (m ∷ ms) (r ∷ rs) = Readable m r × AllReadable ms rs

  reader_loop :
      (ms : List Bytes) (rs : List Json) (fuel size : ℕ) (s : i.State)
      → size + 1 < 2 ^ 64
      → alloc (size + 1) ≡ none
      → AllReadable ms rs
      → content s ≡ frames ms
      → total_length ms < fuel
      → reader i parse alloc fuel (idle size) s ≡ record { pushed = rs; ending = stopped epipe }
  unfolding frames
  reader_loop ms rs zero size s hs ha p hc hf = absurd (omega arith)
  reader_loop [] [] (suc fuel) size s hs ha p hc hf = reader-end fuel size s hs ha hc
  reader_loop [] (r ∷ rs) (suc fuel) size s hs ha p hc hf = absurd p
  reader_loop (m ∷ ms) [] (suc fuel) size s hs ha p hc hf = absurd p
  reader_loop (m ∷ ms) (r ∷ rs) (suc fuel) size s hs ha ((h0, h1, h2, h3), p) hc hf =
      let (q, run) = open_frame-frame fuel size s m (frames ms) (omega arith) h1 h2 hc in
      let (fuel', t', k, c, pushed) =
        body_message i pipe parse alloc (length m) (suc (total_length ms)) fuel _
          (i.read s size_bytes).1 r m (frames ms) q refl h0 (omega arith) h3 (omega arith) in
      run ∙ pushed ∙ ap (push r) (reader_loop ms rs fuel' (length m) t' h1 h2 p c (omega arith))

-- When the pipe carries nothing but frames, none of an empty message, every message parses and no
-- allocation fails, the thread pushes the request of each frame, in their order, however the reads
-- of a message are cut, as long as a read of its size gives all eight bytes, and then ends with EPIPE.
pub reader_receives :
    (i : Input) (pipe : IsPipe i) (parse : Bytes → Option Json) (alloc : ℕ → Option ℕ)
    (ms : List Bytes) (rs : List Json) (fuel : ℕ) (s : i.State)
    → alloc 1 ≡ none
    → AllReadable i pipe parse alloc ms rs
    → pipe.content s ≡ frames ms
    → total_length ms < fuel
    → reader i parse alloc fuel vars s ≡ record { pushed = rs; ending = stopped epipe }
reader_receives i pipe parse alloc ms rs fuel s a p c h =
    reader_loop i pipe parse alloc ms rs fuel 0 s (omega arith) a p c h
