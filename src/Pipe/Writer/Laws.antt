-- ===== src/Pipe/Writer/Laws.antt =====
-- What `responseWriter` leaves in the pipe.
use ioprocess.Base.{
  ℕ, zero, suc, Bytes, Bool, true, false, Option, none, some, List, [], ◌∷◌, ◌++◌, ◌≡◌, refl, sym,
  ap, ◌∙◌, arith, length, take, drop, take-append-drop, take_all, append_assoc, append-nil, ◌==◌,
  if◌then◌else◌,
}
use mathlib.Core.Path.{subst}
use ioprocess.Dom.{Json}
use ioprocess.Args.{einval}
use ioprocess.Server.Response.{eagain}
use ioprocess.Pipe.Frame.{le_bytes, length-le_bytes, frame, frames, size_bytes}
use ioprocess.Pipe.Writer.{
  Output, Put, put, write_error, Ending, stop_received, broken, waiting, out_of_fuel, Entry,
  response, stop, send, send_body, send_frame, writer,
}

-- What the writer relies on of `write`: a success adds the first bytes of the buffer to the pipe,
-- and all of them if they are eight (a pipe takes up to PIPE_BUF bytes whole); a failure adds none.
pub record IsPipe (o : Output) : Type 0 where
  pub content : o.State → Bytes
  pub adds :
      (s : o.State) (bs : Bytes) (k : ℕ)
      → (o.write s bs).0 ≡ put k
      → content (o.write s bs).1 ≡ content s ++ take k bs
  pub whole :
      (s : o.State) (bs : Bytes) (k : ℕ)
      → length bs ≡ size_bytes
      → (o.write s bs).0 ≡ put k
      → k ≡ size_bytes
  pub keeps :
      (s : o.State) (bs : Bytes) (e : ℕ)
      → (o.write s bs).0 ≡ write_error e
      → content (o.write s bs).1 ≡ content s

-- The messages of the queue, up to STOP_PTR or a response that cannot be generated.
abbrev pub outgoing : (Json → Option Bytes) → List Entry → List Bytes
outgoing generate [] = []
outgoing generate (stop ∷ es) = []
outgoing generate (response r ∷ es) = elim (generate r) [
  | none ↦ []
  | some m ↦ m ∷ outgoing generate es
]

module _ (o : Output) (pipe : IsPipe o) where
  open pipe use {content, adds, whole, keeps}

  -- A first part of `bytes` follows `base` in the pipe.
  abbrev pub Part : Bytes → Bytes → o.State → Type 0
  Part base bytes s =
      (sent : Bytes) × (unsent : Bytes) × (sent ++ unsent ≡ bytes) × (content s ≡ base ++ sent)

  -- The pipe after a run that was to write `bytes` behind `base`.
  abbrev pub Sent : Bytes → Bytes → Ending × o.State → Type 0
  Sent base bytes (stop_received, s) = content s ≡ base ++ bytes
  Sent base bytes (waiting, s) = content s ≡ base ++ bytes
  Sent base bytes (broken e, s) = Part base bytes s
  Sent base bytes (out_of_fuel, s) = Part base bytes s

  Sent-append :
      (base xs ys : Bytes) (r : Ending × o.State) → Sent (base ++ xs) ys r → Sent base (xs ++ ys) r
  Sent-append base xs ys (stop_received, s) w = w ∙ append_assoc base xs ys
  Sent-append base xs ys (waiting, s) w = w ∙ append_assoc base xs ys
  Sent-append base xs ys (broken e, s) (a, b, p, q) =
      (xs ++ a, b, append_assoc xs a b ∙ ap (λ t. xs ++ t) p, q ∙ append_assoc base xs a)
  Sent-append base xs ys (out_of_fuel, s) (a, b, p, q) =
      (xs ++ a, b, append_assoc xs a b ∙ ap (λ t. xs ++ t) p, q ∙ append_assoc base xs a)

  none_sent : (bytes : Bytes) (s : o.State) → Part (content s) bytes s
  none_sent bytes s = ([], bytes, refl, sym (append-nil _))

  retry-Sent :
      (base bytes : Bytes) (b : Bool) (again : Ending × o.State) (e : ℕ) (t : o.State)
      → content t ≡ base
      → Sent base bytes again
      → Sent base bytes (if b then again else (broken e, t))
  retry-Sent base bytes true again e t same w = w
  retry-Sent base bytes false again e t same w = ([], bytes, refl, same ∙ sym (append-nil base))

  rejoin : (n : ℕ) (m ys : Bytes) → take n m ++ (drop n m ++ ys) ≡ m ++ ys
  rejoin n m ys =
      sym (append_assoc (take n m) (drop n m) ys) ∙ ap (λ t. t ++ ys) (take-append-drop n m)

  module _ (next : ℕ → ℕ → o.State → Ending × o.State) (ys : Bytes) where
    abbrev Continues : Type 0
    Continues = (fuel errno : ℕ) (s : o.State) → Sent (content s) ys (next fuel errno s)

    send-Sent :
        Continues
        → (fuel errno : ℕ) (m : Bytes) (s : o.State)
        → Sent (content s) (m ++ ys) (send o next fuel errno m s)
    unfolding send
    send-Sent c fuel errno [] s = c fuel errno s
    send-Sent c zero errno (b ∷ bs) s = none_sent _ s
    send-Sent c (suc fuel) errno (b ∷ bs) s =
        step (o.write s (b ∷ bs)).0 (o.write s (b ∷ bs)).1 refl refl (λ e. send-Sent c fuel e)
      where
        step :
            (p : Put) (t : o.State)
            → (o.write s (b ∷ bs)).0 ≡ p
            → (o.write s (b ∷ bs)).1 ≡ t
            → ((e : ℕ) (m : Bytes) (t : o.State)
                → Sent (content t) (m ++ ys) (send o next fuel e m t))
            → Sent (content s) (b ∷ (bs ++ ys)) (elim p [
              | put k ↦ elim k [
                | zero ↦
                    let again = send o next fuel errno (b ∷ bs) t in
                    if errno == eagain then again else (broken errno, t)
                | suc k' ↦ send o next fuel errno (drop (suc k') (b ∷ bs)) t
              ]
              | write_error e ↦
                  let again = send o next fuel e (b ∷ bs) t in
                  if e == eagain then again else (broken e, t)
            ])
        step (put zero) t e f ih =
            let same : content t ≡ content s = rw (← f) (adds s (b ∷ bs) 0 e ∙ append-nil _) in
            retry-Sent (content s) (b ∷ (bs ++ ys)) (errno == eagain)
              (send o next fuel errno (b ∷ bs) t) errno t same
              (subst (λ z. Sent z (b ∷ (bs ++ ys)) (send o next fuel errno (b ∷ bs) t)) same
                (ih errno (b ∷ bs) t))
        step (put (suc k)) t e f ih =
            let r = send o next fuel errno (drop k bs) t in
            let more : content t ≡ content s ++ (b ∷ take k bs) =
              rw (← f) (adds s (b ∷ bs) (suc k) e) in
            let w = subst (λ z. Sent z (drop k bs ++ ys) r) more (ih errno (drop k bs) t) in
            subst (λ z. Sent (content s) z r) (rejoin (suc k) (b ∷ bs) ys)
              (Sent-append (content s) (b ∷ take k bs) (drop k bs ++ ys) r w)
        step (write_error n) t e f ih =
            let same : content t ≡ content s = rw (← f) (keeps s (b ∷ bs) n e) in
            retry-Sent (content s) (b ∷ (bs ++ ys)) (n == eagain) (send o next fuel n (b ∷ bs) t) n
              t same
              (subst (λ z. Sent z (b ∷ (bs ++ ys)) (send o next fuel n (b ∷ bs) t)) same
                (ih n (b ∷ bs) t))

    send_body-Sent :
        Continues
        → (fuel errno : ℕ) (m : Bytes) (s : o.State)
        → Sent (content s) (m ++ ys) (send_body o next fuel errno m s)
    unfolding send_body
    send_body-Sent c fuel errno (b ∷ bs) s = send-Sent c fuel errno (b ∷ bs) s
    send_body-Sent c fuel errno [] s = step (o.write s []).0 (o.write s []).1 refl refl
      where
        given_up :
            (e : ℕ) (t : o.State)
            → content t ≡ content s
            → Sent (content s) ys (if e == eagain then next fuel e t else (broken e, t))
        given_up e t same =
            retry-Sent (content s) ys (e == eagain) (next fuel e t) e t same
              (subst (λ z. Sent z ys (next fuel e t)) same (c fuel e t))

        step :
            (p : Put) (t : o.State)
            → (o.write s []).0 ≡ p
            → (o.write s []).1 ≡ t
            → Sent (content s) ys (elim p [
              | put k ↦ if errno == eagain then next fuel errno t else (broken errno, t)
              | write_error e ↦ if e == eagain then next fuel e t else (broken e, t)
            ])
        step (put zero) t e f = given_up errno t (rw (← f) (adds s [] 0 e ∙ append-nil _))
        step (put (suc k)) t e f = given_up errno t (rw (← f) (adds s [] (suc k) e ∙ append-nil _))
        step (write_error n) t e f = given_up n t (rw (← f) (keeps s [] n e))

    send_frame-Sent :
        Continues
        → (fuel errno : ℕ) (m : Bytes) (s : o.State)
        → Sent (content s) (frame m ++ ys) (send_frame o next fuel errno m s)
    unfolding send_frame frame
    send_frame-Sent c fuel errno m s = step (o.write s size_of).0 (o.write s size_of).1 refl refl
      where
        size_of : Bytes
        size_of = le_bytes size_bytes (length m)

        step :
            (p : Put) (t : o.State)
            → (o.write s size_of).0 ≡ p
            → (o.write s size_of).1 ≡ t
            → Sent
                (content s)
                ((size_of ++ m) ++ ys)
                (elim p [ put k ↦ send_body o next fuel errno m t | write_error e ↦ (broken e, t) ])
        step (put k) t e f =
            let r = send_body o next fuel errno m t in
            let all : k ≡ size_bytes = whole s size_of k (length-le_bytes 8 (length m)) e in
            let taken : take k size_of ≡ size_of =
              take_all k size_of (omega (arith, length-le_bytes 8 (length m))) in
            let more : content t ≡ content s ++ size_of =
              rw (← f) (adds s size_of k e ∙ ap (λ z. content s ++ z) taken) in
            subst (λ z. Sent (content s) z r) (sym (append_assoc size_of m ys))
              (Sent-append (content s) size_of (m ++ ys) r
                (subst (λ z. Sent z (m ++ ys) r) more (send_body-Sent c fuel errno m t)))
        step (write_error n) t e f =
            ([], _, refl, rw (← f) (keeps s size_of n e ∙ sym (append-nil _)))

  -- However the writes are cut, fail or are retried, the pipe holds, behind what it held, the frames
  -- of the messages of the queue in order: all of them when the thread ends by STOP_PTR or waits for
  -- more, and a first part of them when it ends by an error.
  pub writer-Sent :
      (generate : Json → Option Bytes) (es : List Entry) (fuel errno : ℕ) (s : o.State)
      → Sent (content s) (frames (outgoing generate es)) (writer o generate es fuel errno s)
  unfolding writer frames
  writer-Sent generate [] fuel errno s = sym (append-nil _)
  writer-Sent generate (stop ∷ es) fuel errno s = sym (append-nil _)
  writer-Sent generate (response r ∷ es) fuel errno s = step (generate r) (writer-Sent generate es)
    where
      Rest : Type 0
      Rest =
          (fuel errno : ℕ) (t : o.State)
          → Sent (content t) (frames (outgoing generate es)) (writer o generate es fuel errno t)

      step :
          (g : Option Bytes)
          → Rest
          → Sent
              (content s)
              (frames (elim g [ none ↦ [] | some m ↦ m ∷ outgoing generate es ]))
              (elim g [
                | none ↦ (broken einval, s)
                | some message ↦ send_frame o (writer o generate es) fuel errno message s
              ])
      step none ih = none_sent [] s
      step (some m) ih =
          send_frame-Sent (writer o generate es) (frames (outgoing generate es)) ih fuel errno m s
