-- ===== src/Pipe/Writer.antt =====
-- `responseWriter`.
pub mod Laws
pub mod Ends
use ioprocess.Base.{
  ℕ, zero, suc, Bytes, Option, none, some, List, [], ◌∷◌, length, drop, ◌==◌, if◌then◌else◌,
}
use ioprocess.Dom.{Json}
use ioprocess.Args.{einval}
use ioprocess.Pipe.Frame.{le_bytes, size_bytes}
use ioprocess.Server.Response.{eagain}

-- What `write` answers: how many bytes it took, or an error number.
pub data Put : Type 0 where
  put : ℕ → Put
  write_error : ℕ → Put

pub record Output : Type 1 where
  pub State : Type 0
  pub write : State → Bytes → Put × State

-- How the thread ends: on STOP_PTR, with the error number of `new_thread_result`, or, in the
-- model, without fuel. `waiting` is a `g_async_queue_pop` with nothing in the queue.
pub data Ending : Type 0 where
  stop_received : Ending
  broken : ℕ → Ending
  waiting : Ending
  out_of_fuel : Ending

-- An entry of the response queue.
pub data Entry : Type 0 where
  response : Json → Entry
  stop : Entry

module _ (o : Output) where
  abbrev pub Result : Type 0
  Result = Ending × o.State

  -- The writes of one message, from `buffer + bytesWritten` on, until all of it is written. `errno` is what the last failure
  -- left: a result of 0 is taken for a failure with that number. `next` is the next message.
  unfoldable pub send : (ℕ → ℕ → o.State → Result) → ℕ → ℕ → Bytes → o.State → Result
  send next fuel errno [] s = next fuel errno s
  send next zero errno (b ∷ bs) s = (out_of_fuel, s)
  send next (suc fuel) errno (b ∷ bs) s =
      let (n, t) = o.write s (b ∷ bs) in
      elim n [
        | put k ↦ elim k [
          | zero ↦
              let again = send next fuel errno (b ∷ bs) t in
              if errno == eagain then again else (broken errno, t)
          | suc k' ↦ send next fuel errno (drop (suc k') (b ∷ bs)) t
        ]
        | write_error e ↦
            let again = send next fuel e (b ∷ bs) t in if e == eagain then again else (broken e, t)
      ]

  -- A message without bytes is not noticed before a write of none, whose result of 0 is taken for a
  -- failure with the `errno` that was left.
  unfoldable pub send_body : (ℕ → ℕ → o.State → Result) → ℕ → ℕ → Bytes → o.State → Result
  unfolding send
  send_body next fuel errno (b ∷ bs) s = send next fuel errno (b ∷ bs) s
  send_body next fuel errno [] s =
      let (n, t) = o.write s [] in
      elim n [
        | put k ↦ if errno == eagain then next fuel errno t else (broken errno, t)
        | write_error e ↦ if e == eagain then next fuel e t else (broken e, t)
      ]

  -- The size, and then the message.
  unfoldable pub send_frame : (ℕ → ℕ → o.State → Result) → ℕ → ℕ → Bytes → o.State → Result
  unfolding send_body le_bytes
  send_frame next fuel errno message s =
      let (n, t) = o.write s (le_bytes size_bytes (length message)) in
      elim n [ put k ↦ send_body next fuel errno message t | write_error e ↦ (broken e, t) ]

-- `generate` is `jdGenerator_generate`, `none` where it returns NULL.
module _ (o : Output) (generate : Json → Option Bytes) where
  -- The loop over the entries of the queue.
  unfoldable pub writer : List Entry → ℕ → ℕ → o.State → Result o
  unfolding send_frame
  writer [] fuel errno s = (waiting, s)
  writer (stop ∷ entries) fuel errno s = (stop_received, s)
  writer (response r ∷ entries) fuel errno s = elim (generate r) [
    | none ↦ (broken einval, s)
    | some message ↦ send_frame o (writer entries) fuel errno message s
  ]

-- READ_PIPE_FD, `none` for -1, and the descriptors that were closed, the last one first.
pub record Pipes : Type 0 where
  pub read_pipe_fd : Option ℕ
  pub closed : List ℕ

unfoldable pub stop_request_reader : Pipes → Pipes
stop_request_reader p = elim p.read_pipe_fd [
  | none ↦ p
  | some fd ↦ record { read_pipe_fd = none; closed = fd ∷ p.closed }
]

abbrev pub close_pipe : ℕ → Pipes → Pipes
close_pipe fd p = record p { closed = fd ∷ p.closed }

-- Behind the loop: the reader is stopped unless the result is NULL, as it is for the number 0.
unfoldable pub end_writer : ℕ → Ending → Pipes → Pipes
unfolding stop_request_reader
end_writer write_pipe_fd stop_received p = close_pipe write_pipe_fd p
end_writer write_pipe_fd (broken zero) p = close_pipe write_pipe_fd p
end_writer write_pipe_fd (broken (suc e)) p = close_pipe write_pipe_fd (stop_request_reader p)
end_writer write_pipe_fd waiting p = p
end_writer write_pipe_fd out_of_fuel p = p
