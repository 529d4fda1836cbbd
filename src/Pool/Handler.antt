-- ===== src/Pool/Handler.antt =====
-- The states of `requestHandler` and of the pool, and their steps.
pub mod Laws
pub mod Account
pub mod Ends
use ioprocess.Base.{ℕ, zero, suc, ◌+◌, ◌<◌, List, [], ◌∷◌, ◌++◌, length, ◌≡◌, ◌⊎◌}
use ioprocess.Pool.Slots.{Limits, Slot, free, last, underflow, initial_slots, take_slot, give_slot}

-- An entry of the response queue: the answer of `servRequest`, that of `servQueueFull`, STOP_PTR.
pub data Output (R : Type 0) : Type 0 where
  answered : R → Output R
  refused : R → Output R
  stop : Output R

-- Where the handler is: at `g_async_queue_pop`, before `g_thread_pool_push`, before the push of
-- `servQueueFull`, before the increment behind it, in `g_thread_pool_free`, at its end. `broken` is
-- a counter below 0.
pub data Phase (R : Type 0) : Type 0 where
  idle : Phase R
  admitting : R → Phase R
  refusing : R → Phase R
  returning : Phase R
  draining : Phase R
  stopped : Phase R
  broken : R → Phase R

pub record State (R : Type 0) : Type 0 where
  pub phase : Phase R
  pub slots : ℕ
  -- the requests of the pool that no thread has begun
  pub waiting : List R
  -- those that a thread serves
  pub running : List R
  -- threads that have pushed their response, or pushed none, and not yet given their slot back
  pub finishing : ℕ
  -- the response queue, the first entry first
  pub responses : List (Output R)
  -- the requests taken from the request queue, the last one first, and those that end without a
  -- response
  pub taken : List R
  pub unanswered : List R

module _ {R : Type 0} (limits : Limits) where
  unfoldable pub initial : State R
  unfolding initial_slots
  initial = record {
    phase = idle;
    slots = initial_slots limits;
    waiting = [];
    running = [];
    finishing = 0;
    responses = [];
    taken = [];
    unanswered = [];
  }

  -- A request is taken and its parameters are allocated.
  unfoldable pub admit : R → State R → State R
  unfolding take_slot
  admit r s = elim (take_slot limits s.slots) [
    | free n ↦ record s { phase = admitting r; slots = n; taken = r ∷ s.taken }
    | last ↦ record s { phase = refusing r; slots = 0; taken = r ∷ s.taken }
    | underflow ↦ record s { phase = broken r; taken = r ∷ s.taken }
  ]

  -- One step of the handler or of a thread of the pool.
  pub data Step : State R → State R → Type 0 where
    take : {s : State R} → (r : R) → s.phase ≡ idle → Step s (admit r s)
    -- `malloc` fails
    no_memory :
        {s : State R}
        → (r : R) → s.phase ≡ idle
        → Step s (record s { phase = draining; taken = r ∷ s.taken; unanswered = r ∷ s.unanswered })
    take_stop : {s : State R} → s.phase ≡ idle → Step s (record s { phase = draining })
    push :
        {s : State R}
        → (r : R) → s.phase ≡ admitting r
        → Step s (record s { phase = idle; waiting = s.waiting ++ (r ∷ []) })
    -- no thread could be created: the request is queued all the same
    push_failed :
        {s : State R}
        → (r : R) → s.phase ≡ admitting r
        → Step s (record s { phase = draining; waiting = s.waiting ++ (r ∷ []) })
    refuse :
        {s : State R}
        → (r : R) → s.phase ≡ refusing r
        → Step s (record s { phase = returning; responses = s.responses ++ (refused r ∷ []) })
    return_slot :
        {s : State R}
        → s.phase ≡ returning
        → Step s (record s { phase = idle; slots = suc s.slots })
    begin :
        {s : State R}
        → (r : R) (rs : List R) → s.waiting ≡ r ∷ rs
        → (limits.threads ≡ 0) ⊎ (length s.running + s.finishing < limits.threads)
        → Step s (record s { waiting = rs; running = r ∷ s.running })
    answer :
        {s : State R}
        → (r : R) (xs ys : List R) → s.running ≡ xs ++ (r ∷ ys)
        → Step s (record s {
          running = xs ++ ys;
          finishing = suc s.finishing;
          responses = s.responses ++ (answered r ∷ []);
        })
    -- the request lacks its id or its method
    drop :
        {s : State R}
        → (r : R) (xs ys : List R) → s.running ≡ xs ++ (r ∷ ys)
        → Step s (record s {
          running = xs ++ ys;
          finishing = suc s.finishing;
          unanswered = r ∷ s.unanswered;
        })
    release :
        {s : State R}
        → (n : ℕ) → s.finishing ≡ suc n
        → Step s (record s { finishing = n; slots = give_slot limits s.slots })
    finish :
        {s : State R}
        → s.phase ≡ draining
        → s.waiting ≡ []
        → s.running ≡ []
        → s.finishing ≡ 0
        → Step s (record s { phase = stopped; responses = s.responses ++ (stop ∷ []) })

  -- Any number of steps.
  pub data Steps : State R → State R → Type 0 where
    here : {s : State R} → Steps s s
    after : {s t u : State R} → Steps s t → Step t u → Steps s u
