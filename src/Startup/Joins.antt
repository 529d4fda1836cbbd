-- ===== src/Startup/Joins.antt =====
-- Which threads `communicate` and `main` leave behind.
use ioprocess.Base.{
  ℕ, pos, negsuc, true, false, List, [], ◌∷◌, ◌++◌, ◌≡◌, refl, Bool-cases, inl, inr,
}
use ioprocess.Startup.Options.{Options}
use ioprocess.Startup.Threads.{
  Thread, request_reader, response_writer, request_handler, log_writer, Deed, created, joined,
  closed, released, returned, blocked, Run, World, clean, join, communicate,
}
use ioprocess.Startup.Main.{stderr_fileno, descriptor}

-- The threads of a session, made and joined.
abbrev pub session : ℕ → ℕ → List Deed
session read_pipe write_pipe =
    created request_reader
    ∷ created response_writer
    ∷ created request_handler
    ∷ joined request_reader
    ∷ joined request_handler
    ∷ joined response_writer
    ∷ closed read_pipe
    ∷ closed write_pipe
    ∷ released
    ∷ []

abbrev pub whole_session : Options → List Deed
whole_session o =
    created log_writer
    ∷ (session (descriptor o.read_pipe_fd) (descriptor o.write_pipe_fd)
        ++ (closed stderr_fileno ∷ joined log_writer ∷ []))

-- Every thread can be made, and ends.
abbrev pub Runs : World → List Thread → Type 0
Runs world [] = Unit
Runs world (t ∷ ts) = (world.starts t ≡ true) × (world.ends t ≡ true) × Runs world ts

abbrev pub workers : List Thread
workers = request_reader ∷ response_writer ∷ request_handler ∷ []

-- What `communicate` can do, by its ending: with 0 it has made all three threads and joined them,
-- the reader first; with an error it could not make one of them.
abbrev pub Session : World → ℕ → ℕ → Run → Type 0
Session world r w (ds, returned (pos n)) = (n ≡ 0) × (ds ≡ session r w) × Runs world workers
Session world r w (ds, returned (negsuc n)) =
    (t : Thread) × (world.starts t ≡ false)
    × ((before : List Deed) × (ds ≡ before ++ (closed r ∷ closed w ∷ released ∷ [])))
Session world r w (ds, blocked t) = (world.ends t ≡ false) × (world.starts t ≡ true)

module _ (world : World) (r w : ℕ) where
  all_started :
      world.starts request_reader ≡ true
      → world.starts response_writer ≡ true
      → world.starts request_handler ≡ true
      → Session world r w (communicate world r w)
  unfolding communicate clean join
  all_started a b c = elim (Bool-cases (world.ends request_reader)) [
    | inr x ↦ rw (a, b, c, x) (x, a)
    | inl x ↦ elim (Bool-cases (world.ends request_handler)) [
      | inr y ↦ rw (a, b, c, x, y) (y, c)
      | inl y ↦ elim (Bool-cases (world.ends response_writer)) [
        | inr z ↦ rw (a, b, c, x, y, z) (z, b)
        | inl z ↦ rw (a, b, c, x, y, z) (refl, refl, (a, x, (b, z, (c, y, tt))))
      ]
    ]
  ]

  not_started :
      world.starts request_reader ≡ true
      → world.starts response_writer ≡ true
      → world.starts request_handler ≡ false
      → Session world r w (communicate world r w)
  unfolding communicate clean join
  not_started a b c = elim (Bool-cases (world.ends response_writer)) [
    | inr z ↦ rw (a, b, c, z) (z, b)
    | inl z ↦
        rw (a, b, c, z)
          (
            request_handler,
            c,
            (created request_reader ∷ created response_writer ∷ joined response_writer ∷ [], refl),
          )
  ]

  pub communicate-Session : Session world r w (communicate world r w)
  unfolding communicate clean join
  communicate-Session = elim (Bool-cases (world.starts request_reader)) [
    | inr a ↦ rw a (request_reader, a, ([], refl))
    | inl a ↦ elim (Bool-cases (world.starts response_writer)) [
      | inr b ↦ rw (a, b) (response_writer, b, (created request_reader ∷ [], refl))
      | inl b ↦ elim (Bool-cases (world.starts request_handler)) [
        | inr c ↦ not_started a b c
        | inl c ↦ all_started a b c
      ]
    ]
  ]
