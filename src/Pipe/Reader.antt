-- ===== src/Pipe/Reader.antt =====
-- `requestReader`.
pub mod Parts
pub mod Laws
use ioprocess.Base.{
  ℕ, zero, suc, ◌+◌, ◌-◌, ◌%◌, ◌^◌, Bytes, Option, none, some, List, [], ◌∷◌, ◌++◌, length, ◌==◌,
  if◌then◌else◌,
}
use ioprocess.Dom.{Json}
use ioprocess.Args.{einval}
use ioprocess.Pipe.Frame.{overwrite, size_bytes}

-- What `read` answers: bytes, none at the end of the stream, or an error number.
pub data Got : Type 0 where
  got : Bytes → Got
  read_error : ℕ → Got

-- The input pipe: `read` of at most so many bytes.
pub record Input : Type 1 where
  pub State : Type 0
  pub read : State → ℕ → Got × State

-- The local variables of the loop; `buffer` is what was received of the current message.
pub record Vars : Type 0 where
  pub pending : ℕ
  pub req_size : ℕ
  pub buffer : Bytes

abbrev pub vars : Vars
vars = record { pending = 0; req_size = 0; buffer = [] }

-- How the thread ends. `stopped rv` is the result of `done:`, behind which STOP_PTR is pushed.
-- `overrun` is a read into a buffer that is smaller than its count.
pub data Ending : Type 0 where
  stopped : ℕ → Ending
  overrun : Ending
  out_of_fuel : Ending

-- The requests that were pushed, and the ending.
pub record Run : Type 0 where
  pub pushed : List Json
  pub ending : Ending

abbrev pub ends : Ending → Run
ends e = record { pushed = []; ending = e }

abbrev pub push : Json → Run → Run
push r run = record run { pushed = r ∷ run.pushed }

abbrev pub epipe : ℕ
epipe = 32

-- `parse` is `jdParser_buildDom`; `alloc` is `malloc`, with the error number of a failure.
module _ (i : Input) (parse : Bytes → Option Json) (alloc : ℕ → Option ℕ) where
  -- The second half of the loop, behind the `read` of the message: the variables for the next round
  -- and the request that is pushed, or the ending.
  pub data Round : Type 0 where
    more : Vars → Round
    request : Json → Round
    finish : Ending → Round

  unfoldable pub receive : Vars → Got → Round
  receive v (read_error e) = finish (stopped e)
  receive v (got []) = finish (stopped epipe)
  receive v (got (b ∷ bs)) =
      let chunk = b ∷ bs in
      let buffer = v.buffer ++ chunk in
      if v.pending - length chunk == 0
      then elim (parse buffer) [ none ↦ finish (stopped einval) | some r ↦ request r ]
      else more (record v { pending = v.pending - length chunk; buffer = buffer })

  -- The first half, `bytesPending == 0`: the size, and the buffer of `reqSize + 1` bytes.
  pub data Header : Type 0 where
    sized : Vars → Header
    halt : Ending → Header

  unfoldable pub allocate : ℕ → Header
  allocate req_size = elim (alloc ((req_size + 1) % 2 ^ 64)) [
    | some e ↦ halt (stopped e)
    | none ↦
        if req_size + 1 == 2 ^ 64
        then halt overrun
        else sized (record { pending = req_size; req_size = req_size; buffer = [] })
  ]

  unfoldable pub header : Vars → Got → Header
  unfolding allocate overwrite
  header v (read_error e) = halt (stopped e)
  header v (got bs) = allocate (overwrite bs v.req_size)

  -- The second half of a round; `again` is the next round.
  unfoldable pub body : (Vars → i.State → Run) → Vars → i.State → Run
  unfolding receive
  body again w t =
      let (g, t') = i.read t w.pending in
      elim (receive w g) [
        | more w' ↦ again w' t'
        | request r ↦ push r (again (record w { pending = 0; buffer = [] }) t')
        | finish e ↦ ends e
      ]

  -- A whole round, for a new message.
  unfoldable pub open_frame : (Vars → i.State → Run) → Vars → i.State → Run
  unfolding header body
  open_frame again v s =
      let (g, t) = i.read s size_bytes in
      elim (header v g) [ sized w ↦ body again w t | halt e ↦ ends e ]

  -- The loop; a round takes one unit of fuel.
  unfoldable pub reader : ℕ → Vars → i.State → Run
  unfolding body open_frame
  reader zero v s = ends out_of_fuel
  reader (suc fuel) v s =
      let start = open_frame (reader fuel) v s in
      let continued = body (reader fuel) v s in if v.pending == 0 then start else continued
