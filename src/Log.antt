-- ===== src/Log.antt =====
-- src/ioprocess.c: `logfunc`, which puts lines into a queue, and `logWriter`, the thread that prints
-- them.
pub mod Laws
use ioprocess.Base.{
  ℕ, zero, suc, ◌+◌, ◌-◌, ◌^◌, Bytes, Bool, Option, none, some, List, [], ◌∷◌, ◌++◌, codes, c_str,
  length, drop, ltb, ◌==◌, if◌then◌else◌,
}

-- `GLogLevelFlags`: `other` is any other level, or a level with further bits.
pub data Level : Type 0 where
  warning debug message info other : Level

unfoldable pub level_text : Level → Bytes
level_text warning = codes "WARNING"
level_text debug = codes "DEBUG"
level_text message = codes "INFO"
level_text info = codes "INFO"
level_text other = codes "ERROR"

-- The format "%s|%s|%s\n".
unfoldable pub log_line : Level → Bytes → Bytes → Bytes
unfolding level_text
log_line level domain text =
    level_text level ++ (codes "|" ++ (c_str domain ++ (codes "|" ++ (c_str text ++ (10 ∷ [])))))

-- `logfunc`: the queue that it leaves. `domain` is what `%s` prints for the domain. `none` is a line
-- whose length `snprintf` cannot return.
unfoldable pub logfunc : Bool → Level → Bytes → Bytes → List Bytes → Option (List Bytes)
unfolding log_line
logfunc malloc_ok level domain text queue =
    let line = log_line level domain text in
    let pushed = if malloc_ok then queue ++ (line ∷ []) else queue in
    if ltb (length line) (2 ^ 31) then some pushed else none

-- A stream: whether it is at its end or has failed, and `fwrite`, with how many bytes it wrote.
pub record Stream : Type 1 where
  pub State : Type 0
  pub over : State → Bool
  pub fwrite : State → Bytes → ℕ × State

-- The local variables of `logWriter`.
pub record Vars : Type 0 where
  pub text : Bytes
  pub n_written : ℕ
  pub nchars : ℕ

-- Both counters begin as `(size_t) -1`.
abbrev pub no_text : Vars
no_text = record { text = []; n_written = 2 ^ 64 - 1; nchars = 2 ^ 64 - 1 }

abbrev pub popped : Bytes → Vars
popped line = record { text = c_str line; n_written = 0; nchars = length (c_str line) }

-- How the thread ends. `waiting` is a `g_async_queue_pop` with nothing in the queue.
pub data Ending : Type 0 where
  closed waiting out_of_fuel : Ending

module _ (stream : Stream) where
  unfoldable pub log_writer : ℕ → List Bytes → Vars → stream.State → Ending × stream.State
  log_writer zero queue v s = (out_of_fuel, s)
  log_writer (suc fuel) queue v s =
      let next_line : Ending × stream.State = elim queue [
        | [] ↦ (waiting, s)
        | line ∷ lines ↦ log_writer fuel lines (popped line) s
      ] in
      let (n, t) = stream.fwrite s (drop v.n_written v.text) in
      let more = log_writer fuel queue (record v { n_written = v.n_written + n }) t in
      if stream.over s then (closed, s) else if v.n_written == v.nchars then next_line else more
