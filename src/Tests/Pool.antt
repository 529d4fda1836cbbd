-- ===== src/Tests/Pool.antt =====
-- One thread, no queue, and requests that are numbers.
use ioprocess.Base.{ℕ, ◌+◌, ◌≤◌, [], ◌∷◌, ◌≡◌, ◌≢◌, ◌↔◌, refl, inr, ◌==◌, arith}
use ioprocess.Pool.Slots.{Limits, take_slot, last, dec_and_test, initial_slots, give_slot}
use ioprocess.Pool.Handler.{
  State, idle, draining, stopped, broken, initial, admit, take, take_stop, push, begin, answered,
  stop, answer, release, finish, Steps, here, after,
}
use ioprocess.Pool.Handler.Laws.{bounded, in_flight, in_flight-bounded, take_slot-full}
use ioprocess.Pool.Handler.Account.{count, settled, taken-settled}
use ioprocess.Pool.Handler.Ends.{Final, stopped-Final, draining-stops}

abbrev pub one_thread : Limits
one_thread = bounded 1 0

-- The request 7 waits for the thread.
abbrev waits : State ℕ
waits = record {
  phase = idle;
  slots = 1;
  waiting = 7 ∷ [];
  running = [];
  finishing = 0;
  responses = [];
  taken = 7 ∷ [];
  unanswered = [];
}

to_waits : Steps one_thread (initial one_thread) waits
unfolding initial initial_slots admit take_slot dec_and_test
to_waits = after (after here (take 7 refl)) (push 7 refl)

in_flight-bounded_example : (in_flight waits ≤ 1 + 0) × ((r : ℕ) → waits.phase ≢ broken r)
in_flight-bounded_example = in_flight-bounded 1 0 to_waits

take_slot-full_example : (take_slot (bounded 1 0) waits.slots ≡ last) ↔ (in_flight waits ≡ 1 + 0)
take_slot-full_example = take_slot-full 1 0 to_waits refl

taken-settled_example : count (λ r. r == 7) waits.taken ≡ settled (λ r. r == 7) waits
taken-settled_example = taken-settled one_thread (λ r. r == 7) to_waits

-- The handler was stopped while a request waits.
abbrev leaving : State ℕ
leaving = record waits { phase = draining }

draining-stops_example : (u : State ℕ) × Steps one_thread leaving u × (u.phase ≡ stopped)
draining-stops_example = draining-stops one_thread leaving refl

-- All is done: the request was answered, and the handler was stopped.
abbrev ended : State ℕ
ended = record {
  phase = stopped;
  slots = 2;
  waiting = [];
  running = [];
  finishing = 0;
  responses = answered 7 ∷ stop ∷ [];
  taken = 7 ∷ [];
  unanswered = [];
}

to_end : Steps one_thread (initial one_thread) ended
unfolding give_slot
to_end =
    let stopping = after to_waits (take_stop refl) in
    let served =
      after (after stopping (begin 7 [] refl (inr (omega arith)))) (answer 7 [] [] refl) in
    after (after served (release 0 refl)) (finish refl refl refl refl)

stopped-Final_example : Final ended
stopped-Final_example = stopped-Final one_thread to_end refl
