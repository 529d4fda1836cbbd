-- ===== src/Pipe/Writer/Ends.antt =====
-- `responseWriter` ends, and delivers all of its queue, when no write fails.
use ioprocess.Base.{
  ℕ, zero, suc, ◌+◌, ◌≤◌, ◌<◌, Bytes, Option, some, List, [], ◌∷◌, ◌++◌, ◌≡◌, refl, ap, ◌/◌, ◌%◌,
  ◌∙◌, arith, length, drop, length-drop,
}
use ioprocess.Dom.{Json}
use ioprocess.Pipe.Frame.{le_bytes, frames, total_length}
use ioprocess.Pipe.Writer.{
  Output, put, Ending, stop_received, broken, waiting, out_of_fuel, Entry, response, stop, send,
  send_body, send_frame, writer,
}
use ioprocess.Pipe.Writer.Laws.{IsPipe, outgoing, Sent, writer-Sent}

stopped_content :
    (o : Output) (pipe : IsPipe o) (base bytes : Bytes) (r : Ending × o.State)
    → r.0 ≡ stop_received
    → Sent o pipe base bytes r
    → pipe.content r.1 ≡ base ++ bytes
stopped_content o pipe base bytes (stop_received, s) e w = w
stopped_content o pipe base bytes (waiting, s) e w = w
stopped_content o pipe base bytes (broken n, s) e w = cc
stopped_content o pipe base bytes (out_of_fuel, s) e w = cc

-- Every write of one byte or more succeeds, and takes at least one.
abbrev pub WritesAll : Output → Type 0
WritesAll o = (s : o.State) (b : ℕ) (bs : Bytes) → (k : ℕ) × ((o.write s (b ∷ bs)).0 ≡ put (suc k))

-- The queue of some responses and STOP_PTR.
abbrev pub queue : List Json → List Entry
queue [] = stop ∷ []
queue (r ∷ rs) = response r ∷ queue rs

-- What each response is printed as, which is not empty: the text of a map has two bytes or more.
abbrev pub Prints : (Json → Option Bytes) → List Json → List Bytes → Type 0
Prints generate [] [] = Unit
Prints generate [] (m ∷ ms) = ⊥
Prints generate (r ∷ rs) [] = ⊥
Prints generate (r ∷ rs) (m ∷ ms) = (generate r ≡ some m) × (0 < length m) × Prints generate rs ms

module _ (o : Output) (all : WritesAll o) where
  -- A message is sent within a unit of fuel for each byte.
  send_ends :
      (next : ℕ → ℕ → o.State → Ending × o.State) (need : ℕ)
      → ((fuel errno : ℕ) (s : o.State) → need ≤ fuel → (next fuel errno s).0 ≡ stop_received)
      → (fuel errno : ℕ) (m : Bytes) (s : o.State) → length m + need ≤ fuel
      → (send o next fuel errno m s).0 ≡ stop_received
  unfolding send
  send_ends next need c fuel errno [] s h = c fuel errno s (omega arith)
  send_ends next need c zero errno (b ∷ bs) s h = absurd (omega arith)
  send_ends next need c (suc fuel) errno (b ∷ bs) s h =
      let (k, e) = all s b bs in
      rw (e, send)
        (send_ends next need c fuel errno (drop k bs) (o.write s (b ∷ bs)).1
          (omega (arith, length-drop k bs)))

  send_body_ends :
      (next : ℕ → ℕ → o.State → Ending × o.State) (need : ℕ)
      → ((fuel errno : ℕ) (s : o.State) → need ≤ fuel → (next fuel errno s).0 ≡ stop_received)
      → (fuel errno : ℕ) (m : Bytes) (s : o.State) → length m + need ≤ fuel
      → 0 < length m
      → (send_body o next fuel errno m s).0 ≡ stop_received
  unfolding send_body
  send_body_ends next need c fuel errno [] s h some_byte = absurd (omega arith)
  send_body_ends next need c fuel errno (b ∷ bs) s h some_byte =
      send_ends next need c fuel errno (b ∷ bs) s h

  send_frame_ends :
      (next : ℕ → ℕ → o.State → Ending × o.State) (need : ℕ)
      → ((fuel errno : ℕ) (s : o.State) → need ≤ fuel → (next fuel errno s).0 ≡ stop_received)
      → (fuel errno : ℕ) (m : Bytes) (s : o.State) → length m + need ≤ fuel
      → 0 < length m
      → (send_frame o next fuel errno m s).0 ≡ stop_received
  unfolding send_frame
  send_frame_ends next need c fuel errno m s h some_byte =
      let (k, e) = all s (length m % 256) (le_bytes 7 (length m / 256)) in
      rw (e, send_frame) (send_body_ends next need c fuel errno m _ h some_byte)

  writer_ends :
      (generate : Json → Option Bytes) (rs : List Json) (ms : List Bytes) (fuel errno : ℕ)
      (s : o.State)
      → Prints generate rs ms
      → total_length ms ≤ fuel
      → (writer o generate (queue rs) fuel errno s).0 ≡ stop_received
  unfolding writer
  writer_ends generate [] [] fuel errno s p h = refl
  writer_ends generate [] (m ∷ ms) fuel errno s p h = absurd p
  writer_ends generate (r ∷ rs) [] fuel errno s p h = absurd p
  writer_ends generate (r ∷ rs) (m ∷ ms) fuel errno s (e, l, p) h =
      rw (e, writer)
        (send_frame_ends (writer o generate (queue rs)) (total_length ms)
          (λ f n t. writer_ends generate rs ms f n t p) fuel errno m s h l)

outgoing-queue :
    (generate : Json → Option Bytes) (rs : List Json) (ms : List Bytes)
    → Prints generate rs ms
    → outgoing generate (queue rs) ≡ ms
outgoing-queue generate [] [] p = refl
outgoing-queue generate [] (m ∷ ms) p = absurd p
outgoing-queue generate (r ∷ rs) [] p = absurd p
outgoing-queue generate (r ∷ rs) (m ∷ ms) (e, l, p) =
    rw e (ap (λ t. m ∷ t) (outgoing-queue generate rs ms p))

-- When no write fails and no printed response is empty, some responses followed by STOP_PTR are all in the pipe, each in a frame of
-- its own and in their order, when the thread ends, and it ends by STOP_PTR.
pub writer_delivers :
    (o : Output) (pipe : IsPipe o) (generate : Json → Option Bytes) (rs : List Json)
    (ms : List Bytes) (fuel errno : ℕ) (s : o.State)
    → WritesAll o
    → Prints generate rs ms
    → total_length ms ≤ fuel
    → ((writer o generate (queue rs) fuel errno s).0 ≡ stop_received)
      × (pipe.content (writer o generate (queue rs) fuel errno s).1 ≡ pipe.content s ++ frames ms)
writer_delivers o pipe generate rs ms fuel errno s all p h =
    let e = writer_ends o all generate rs ms fuel errno s p h in
    let w = writer-Sent o pipe generate (queue rs) fuel errno s in
    let c =
      stopped_content o pipe (pipe.content s) (frames (outgoing generate (queue rs)))
        (writer o generate (queue rs) fuel errno s) e w in
    (e, c ∙ ap (λ t. pipe.content s ++ frames t) (outgoing-queue generate rs ms p))
