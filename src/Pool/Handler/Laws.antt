-- ===== src/Pool/Handler/Laws.antt =====
-- The bound on the requests in flight.
use ioprocess.Base.{
  ℕ, zero, suc, ◌+◌, ◌≤◌, List, [], ◌∷◌, ◌++◌, length, length-append, ◌≡◌, ◌≢◌, ◌↔◌, refl, ap,
  arith, some,
}
use ioprocess.Pool.Slots.{Limits, last, initial_slots, take_slot, give_slot, dec_and_test}
use ioprocess.Pool.Handler.{
  Phase, idle, admitting, refusing, returning, draining, stopped, broken, State, initial, admit,
  Step, take, no_memory, take_stop, push, push_failed, refuse, return_slot, begin, answer, drop,
  release, finish, Steps, here, after,
}

-- The slot that the handler holds, and the one of them that it gives back itself.
abbrev held : {R : Type 0} → Phase R → ℕ
held (admitting r) = 1
held (refusing r) = 1
held returning = 1
held p = 0

abbrev lent : {R : Type 0} → Phase R → ℕ
lent (refusing r) = 1
lent returning = 1
lent p = 0

lent_le_held : {R : Type 0} → (p : Phase R) → lent p ≤ held p
lent_le_held idle = omega arith
lent_le_held (admitting r) = omega arith
lent_le_held (refusing r) = omega arith
lent_le_held returning = omega arith
lent_le_held draining = omega arith
lent_le_held stopped = omega arith
lent_le_held (broken r) = omega arith

-- The requests that were handed to the pool and have not given their slot back.
abbrev pub in_flight : {R : Type 0} → State R → ℕ
in_flight s = length s.waiting + length s.running + s.finishing

abbrev pub bounded : ℕ → ℕ → Limits
bounded threads queued = record { threads = threads; queued = some queued }

last_slot : (t q n : ℕ) → (take_slot (bounded t q) n ≡ last) ↔ (n ≡ 1)
unfolding take_slot dec_and_test
last_slot t q zero = ((λ e. cc), (λ e. absurd (omega arith)))
last_slot t q (suc zero) = ((λ e. refl), (λ e. refl))
last_slot t q (suc (suc n)) = ((λ e. cc), (λ e. absurd (omega arith)))

module _ {R : Type 0} (t q : ℕ) where
  record Bounded (s : State R) : Type 0 where
    total : s.slots + in_flight s + held s.phase ≡ t + q + 1
    left : 1 ≤ s.slots + lent s.phase
    sound : (r : R) → s.phase ≢ broken r

  admit-Bounded :
      (r : R) (s : State R) (n : ℕ)
      → s.slots ≡ n
      → s.phase ≡ idle
      → Bounded s
      → Bounded (admit (bounded t q) r s)
  unfolding admit take_slot dec_and_test
  admit-Bounded r s zero e p b =
      let l : lent s.phase ≡ 0 = ap lent p in let u = b.left in absurd (omega arith)
  admit-Bounded r s (suc zero) e p b =
      let h : held s.phase ≡ 0 = ap held p in
      let u = b.total in
      rw (e, admit) (record { total = omega arith; left = omega arith; sound = λ r' f. cc })
  admit-Bounded r s (suc (suc n)) e p b =
      let h : held s.phase ≡ 0 = ap held p in
      let u = b.total in
      rw (e, admit) (record { total = omega arith; left = omega arith; sound = λ r' f. cc })

  split_length :
      (r : R) (xs ys zs : List R) → zs ≡ xs ++ (r ∷ ys) → length zs ≡ suc (length (xs ++ ys))
  split_length r xs ys zs e =
      let u = length-append xs (r ∷ ys) in
      let v = length-append xs ys in
      let w : length zs ≡ length (xs ++ (r ∷ ys)) = ap length e in omega arith

  step-Bounded : {s u : State R} → Step (bounded t q) s u → Bounded s → Bounded u
  unfolding give_slot
  step-Bounded (take {s} r p) b = admit-Bounded r s s.slots refl p b
  step-Bounded (no_memory {s} r p) b =
      let h : held s.phase ≡ 0 = ap held p in
      let l : lent s.phase ≡ 0 = ap lent p in
      let x = b.total in
      let y = b.left in record { total = omega arith; left = omega arith; sound = λ r' f. cc }
  step-Bounded (take_stop {s} p) b =
      let h : held s.phase ≡ 0 = ap held p in
      let l : lent s.phase ≡ 0 = ap lent p in
      let x = b.total in
      let y = b.left in record { total = omega arith; left = omega arith; sound = λ r' f. cc }
  step-Bounded (push {s} r p) b =
      let h : held s.phase ≡ 1 = ap held p in
      let l : lent s.phase ≡ 0 = ap lent p in
      let x = b.total in
      let y = b.left in
      let n = length-append s.waiting (r ∷ []) in
      record { total = omega arith; left = omega arith; sound = λ r' f. cc }
  step-Bounded (push_failed {s} r p) b =
      let h : held s.phase ≡ 1 = ap held p in
      let l : lent s.phase ≡ 0 = ap lent p in
      let x = b.total in
      let y = b.left in
      let n = length-append s.waiting (r ∷ []) in
      record { total = omega arith; left = omega arith; sound = λ r' f. cc }
  step-Bounded (refuse {s} r p) b =
      let h : held s.phase ≡ 1 = ap held p in
      let x = b.total in record { total = omega arith; left = omega arith; sound = λ r' f. cc }
  step-Bounded (return_slot {s} p) b =
      let h : held s.phase ≡ 1 = ap held p in
      let x = b.total in record { total = omega arith; left = omega arith; sound = λ r' f. cc }
  step-Bounded (begin {s} r rs e c) b =
      let n : length s.waiting ≡ suc (length rs) = ap length e in
      let x = b.total in record { total = omega arith; left = b.left; sound = b.sound }
  step-Bounded (answer {s} r xs ys e) b =
      let n = split_length r xs ys s.running e in
      let x = b.total in record { total = omega arith; left = b.left; sound = b.sound }
  step-Bounded (drop {s} r xs ys e) b =
      let n = split_length r xs ys s.running e in
      let x = b.total in record { total = omega arith; left = b.left; sound = b.sound }
  step-Bounded (release {s} n e) b =
      let x = b.total in
      let y = b.left in record { total = omega arith; left = omega arith; sound = b.sound }
  step-Bounded (finish {s} p w r f) b =
      let h : held s.phase ≡ 0 = ap held p in
      let l : lent s.phase ≡ 0 = ap lent p in
      let x = b.total in
      let y = b.left in record { total = omega arith; left = omega arith; sound = λ r' g. cc }

  initial-Bounded : Bounded (initial (bounded t q))
  unfolding initial initial_slots
  initial-Bounded = record { total = omega arith; left = omega arith; sound = λ r e. cc }

  steps-Bounded : {s u : State R} → Steps (bounded t q) s u → Bounded s → Bounded u
  steps-Bounded here b = b
  steps-Bounded (after run step) b = step-Bounded step (steps-Bounded run b)

  -- However the handler and the threads of the pool take turns, no more requests are in flight than
  -- the threads and the queue have room for, and the counter does not go below 0.
  pub in_flight-bounded :
      {s : State R}
      → Steps (bounded t q) (initial (bounded t q)) s
      → (in_flight s ≤ t + q) × ((r : R) → s.phase ≢ broken r)
  in_flight-bounded {s} run =
      let b = steps-Bounded run initial-Bounded in
      let x = b.total in let y = b.left in (omega (arith, lent_le_held s.phase), b.sound)

  -- A request is refused exactly when the threads and the queue have no room left: when the handler
  -- takes it, as many requests are in flight as there are threads and places in the queue.
  pub take_slot-full :
      {s : State R}
      → Steps (bounded t q) (initial (bounded t q)) s
      → s.phase ≡ idle
      → (take_slot (bounded t q) s.slots ≡ last) ↔ (in_flight s ≡ t + q)
  take_slot-full {s} run p =
      let b = steps-Bounded run initial-Bounded in
      let x = b.total in
      let h : held s.phase ≡ 0 = ap held p in
      (
        (λ e. let n = (last_slot t q s.slots).0 e in omega arith),
        (λ e. (last_slot t q s.slots).1 (omega arith)),
      )
