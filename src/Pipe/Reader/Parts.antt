-- ===== src/Pipe/Reader/Parts.antt =====
-- A message that `requestReader` receives in parts.
use ioprocess.Base.{
  ℕ, zero, suc, ◌+◌, ◌-◌, ◌≤◌, ◌<◌, Bytes, Option, some, [], ◌∷◌, ◌++◌, ◌≡◌, ◌≢◌, refl, sym, ap,
  ◌∙◌, arith, length, append_assoc, append-nil, append_split, length-append,
}
use mathlib.Core.Path.{ap₂}
use mathlib.Core.List.{tail-eq_of_cons-eq, head-eq_of_cons-eq}
use ioprocess.Dom.{Json}
use ioprocess.Pipe.Frame.{size_bytes}
use ioprocess.Pipe.Reader.{
  Input, got, Vars, stopped, Run, ends, push, epipe, more, request, receive, body, reader,
}

-- What the reader relies on of `read` on a pipe whose writer has closed its end: it gives the first
-- bytes that the pipe holds, at most `n` of them, none only if the pipe is empty, and all eight of
-- the size if there are so many.
pub record IsPipe (i : Input) : Type 0 where
  pub content : i.State → Bytes
  pub gives :
      (s : i.State) (n : ℕ)
      → (bs : Bytes) × ((i.read s n).0 ≡ got bs)
        × (bs ++ content (i.read s n).1 ≡ content s)
        × (length bs ≤ n)
        × (bs ≡ [] → 0 < n → content s ≡ [])
  pub whole :
      (s : i.State) (bs : Bytes)
      → (i.read s size_bytes).0 ≡ got bs
      → size_bytes ≤ length (content s)
      → length bs ≡ size_bytes

pub append_cut :
    (xs ys zs ws : Bytes) → xs ++ ys ≡ zs ++ ws → length xs ≡ length zs → (xs ≡ zs) × (ys ≡ ws)
append_cut [] ys [] ws e h = (refl, e)
append_cut [] ys (z ∷ zs) ws e h = absurd (omega arith)
append_cut (x ∷ xs) ys [] ws e h = absurd (omega arith)
append_cut (x ∷ xs) ys (z ∷ zs) ws e h =
    let (p, q) = append_cut xs ys zs ws (tail-eq_of_cons-eq e) (omega arith) in
    (ap₂ ◌∷◌ (head-eq_of_cons-eq e) p, q)

pub append-empty : (xs ys : Bytes) → xs ++ ys ≡ [] → (xs ≡ []) × (ys ≡ [])
append-empty [] ys e = (refl, e)
append-empty (x ∷ xs) ys e = cc

-- The variables between two messages.
abbrev pub idle : ℕ → Vars
idle size = record { pending = 0; req_size = size; buffer = [] }

module _ (i : Input) (pipe : IsPipe i) (parse : Bytes → Option Json) (alloc : ℕ → Option ℕ) where
  open pipe use {content, gives, whole}

  receive_last :
      (w : Vars) (b : ℕ) (bs : Bytes) {r : Json}
      → w.pending ≡ length (b ∷ bs)
      → parse (w.buffer ++ (b ∷ bs)) ≡ some r
      → receive i parse alloc w (got (b ∷ bs)) ≡ request r
  unfolding receive
  receive_last w b bs e p = ground arith

  receive_more :
      (w : Vars) (b : ℕ) (bs : Bytes)
      → length (b ∷ bs) < w.pending
      → receive i parse alloc w (got (b ∷ bs))
        ≡ more (record w { pending = w.pending - length (b ∷ bs); buffer = w.buffer ++ (b ∷ bs) })
  unfolding receive
  receive_more w b bs h = ground arith

  -- The rest of a message, read in parts of any length, gives the request.
  abbrev pub Gives : ℕ → ℕ → Vars → i.State → Json → Bytes → Type 0
  Gives extra fuel w t r tail =
      (fuel' : ℕ) × (t' : i.State) × (extra ≤ fuel')
      × (content t' ≡ tail)
      × (body i parse alloc (reader i parse alloc fuel) w t
          ≡ push r (reader i parse alloc fuel' (idle w.req_size) t'))

  reader-body :
      (fuel : ℕ) (w : Vars) (t : i.State)
      → 0 < w.pending
      → reader i parse alloc (suc fuel) w t ≡ body i parse alloc (reader i parse alloc fuel) w t
  unfolding reader
  reader-body fuel w t h = ground arith

  pub body_end :
      (again : Vars → i.State → Run) (w : Vars) (t : i.State)
      → (i.read t w.pending).0 ≡ got []
      → body i parse alloc again w t ≡ ends (stopped epipe)
  unfolding body receive
  body_end again w t e = rw (e, body, receive) refl

  body_last :
      (fuel : ℕ) (w : Vars) (t : i.State) (r : Json)
      → receive i parse alloc w (i.read t w.pending).0 ≡ request r
      → body i parse alloc (reader i parse alloc fuel) w t
        ≡ push r (reader i parse alloc fuel (idle w.req_size) (i.read t w.pending).1)
  unfolding body
  body_last fuel w t r e = rw (e, body) refl

  body_more :
      (fuel : ℕ) (w w' : Vars) (t : i.State)
      → receive i parse alloc w (i.read t w.pending).0 ≡ more w'
      → body i parse alloc (reader i parse alloc fuel) w t
        ≡ reader i parse alloc fuel w' (i.read t w.pending).1
  unfolding body
  body_more fuel w w' t e = rw (e, body) refl

  pub body_message :
      (bound extra fuel : ℕ) (w : Vars) (t : i.State) (r : Json) (rest tail : Bytes)
      → content t ≡ rest ++ tail
      → length rest ≡ w.pending
      → 0 < length rest
      → length rest ≤ bound
      → parse (w.buffer ++ rest) ≡ some r
      → length rest + extra ≤ suc fuel
      → Gives extra fuel w t r tail
  body_message zero extra fuel w t r rest tail hc hl hp hb parsed hf = absurd (omega arith)
  body_message (suc bound) extra fuel w t r rest tail hc hl hp hb parsed hf =
      let (bs, e, f, l, z) = gives t w.pending in
      step fuel bs e hf
        (append_split bs (content (i.read t w.pending).1) rest tail (f ∙ hc) (omega arith))
        (λ n. not_empty (z n (omega arith)))
        (λ g v us b c h k p m.
          body_message bound extra g v (i.read t w.pending).1 r us tail c h k b p m)
    where
      t' : i.State
      t' = (i.read t w.pending).1

      not_empty : content t ≡ [] → ⊥
      not_empty e =
          let total : length rest + length tail ≡ 0 =
            sym (length-append rest tail) ∙ ap length (sym hc ∙ e) in
          omega arith

      step :
          (fuel : ℕ) (bs : Bytes)
          → (i.read t w.pending).0 ≡ got bs
          → length rest + extra ≤ suc fuel
          → (us : Bytes) × (rest ≡ bs ++ us) × (content t' ≡ us ++ tail)
          → bs ≢ []
          → ((f : ℕ) (w' : Vars) (us : Bytes)
              → length us ≤ bound
              → content t' ≡ us ++ tail
              → length us ≡ w'.pending
              → 0 < length us
              → parse (w'.buffer ++ us) ≡ some r
              → length us + extra ≤ suc f
              → Gives extra f w' t' r tail)
          → Gives extra fuel w t r tail
      step fuel [] e hf (us, p, q) n ih = absurd (n refl)
      step fuel (b ∷ bs) e hf ([], p, q) n ih =
          let whole : rest ≡ b ∷ bs = p ∙ append-nil _ in
          (
            fuel,
            t',
            omega arith,
            q,
            body_last fuel w t r (
                ap (receive i parse alloc w) e
                ∙ receive_last w b bs (sym hl ∙ ap length whole)
                    (ap (λ z. parse (w.buffer ++ z)) (sym whole) ∙ parsed)),
          )
      step zero (b ∷ bs) e hf (c ∷ us, p, q) n ih =
          let total : length rest ≡ length (b ∷ bs) + length (c ∷ us) =
            ap length p ∙ length-append (b ∷ bs) (c ∷ us) in
          absurd (omega arith)
      step (suc f) (b ∷ bs) e hf (c ∷ us, p, q) n ih =
          let total : length rest ≡ length (b ∷ bs) + length (c ∷ us) =
            ap length p ∙ length-append (b ∷ bs) (c ∷ us) in
          let v : Vars = record w {
            pending = w.pending - length (b ∷ bs);
            buffer = w.buffer ++ (b ∷ bs);
          } in
          let parses : parse (v.buffer ++ (c ∷ us)) ≡ some r =
            ap parse (append_assoc w.buffer (b ∷ bs) (c ∷ us) ∙ ap (λ z. w.buffer ++ z) (sym p))
            ∙ parsed in
          let (f', s', k, o, run) =
            ih f v (c ∷ us) (omega arith) q (omega arith) (omega arith) parses (omega arith) in
          (
            f',
            s',
            k,
            o,
            body_more (suc f) w v t
                  (ap (receive i parse alloc w) e ∙ receive_more w b bs (omega arith))
                ∙ reader-body f v t' (omega arith)
                ∙ run,
          )
