-- ===== src/Pool/Handler/Account.antt =====
-- What becomes of each request.
use ioprocess.Base.{ℕ, ◌+◌, Bool, List, [], ◌∷◌, ◌++◌, ◌≡◌, refl, ap, arith, if◌then◌else◌}
use ioprocess.Pool.Slots.{Limits, Slot, free, last, underflow, take_slot}
use ioprocess.Pool.Handler.{
  Output, answered, refused, stop, Phase, idle, admitting, refusing, broken, State, initial, admit,
  Step, take, no_memory, take_stop, push, push_failed, refuse, return_slot, begin, answer, drop,
  release, finish, Steps, here, after,
}

module _ {R : Type 0} (p : R → Bool) where
  abbrev pub one : R → ℕ
  one r = if p r then 1 else 0

  -- How many of some requests `p` holds of.
  abbrev pub count : List R → ℕ
  count [] = 0
  count (r ∷ rs) = one r + count rs

  abbrev pub count_responses : List (Output R) → ℕ
  count_responses [] = 0
  count_responses (answered r ∷ os) = one r + count_responses os
  count_responses (refused r ∷ os) = one r + count_responses os
  count_responses (stop ∷ os) = count_responses os

  -- The request in the hands of the handler.
  abbrev pub in_hand : Phase R → ℕ
  in_hand (admitting r) = one r
  in_hand (refusing r) = one r
  in_hand (broken r) = one r
  in_hand phase = 0

  abbrev pub settled : State R → ℕ
  settled s =
      count_responses s.responses
      + count s.unanswered
      + (count s.waiting + count s.running + in_hand s.phase)

  pub count-append : (xs ys : List R) → count (xs ++ ys) ≡ count xs + count ys
  count-append [] ys = omega arith
  count-append (x ∷ xs) ys = omega (arith, count-append xs ys)

  responses-append :
      (xs ys : List (Output R))
      → count_responses (xs ++ ys) ≡ count_responses xs + count_responses ys
  responses-append [] ys = omega arith
  responses-append (answered r ∷ xs) ys = omega (arith, responses-append xs ys)
  responses-append (refused r ∷ xs) ys = omega (arith, responses-append xs ys)
  responses-append (stop ∷ xs) ys = responses-append xs ys

  split_count :
      (r : R) (xs ys zs : List R) → zs ≡ xs ++ (r ∷ ys) → count zs ≡ one r + count (xs ++ ys)
  split_count r xs ys zs e =
      let w : count zs ≡ count (xs ++ (r ∷ ys)) = ap count e in
      omega (arith, count-append xs (r ∷ ys), count-append xs ys)

  abbrev Accounted : State R → Type 0
  Accounted s = count s.taken ≡ settled s

  module _ (limits : Limits) where
    admit-Accounted :
        (r : R) (s : State R) (slot : Slot)
        → take_slot limits s.slots ≡ slot
        → s.phase ≡ idle
        → Accounted s
        → Accounted (admit limits r s)
    unfolding admit
    admit-Accounted r s (free n) e i a =
        let h : in_hand s.phase ≡ 0 = ap in_hand i in rw (e, admit) (omega arith)
    admit-Accounted r s last e i a =
        let h : in_hand s.phase ≡ 0 = ap in_hand i in rw (e, admit) (omega arith)
    admit-Accounted r s underflow e i a =
        let h : in_hand s.phase ≡ 0 = ap in_hand i in rw (e, admit) (omega arith)

    step-Accounted : {s u : State R} → Step limits s u → Accounted s → Accounted u
    step-Accounted (take {s} r i) a = admit-Accounted r s (take_slot limits s.slots) refl i a
    step-Accounted (no_memory {s} r i) a = let h : in_hand s.phase ≡ 0 = ap in_hand i in omega arith
    step-Accounted (take_stop {s} i) a = let h : in_hand s.phase ≡ 0 = ap in_hand i in omega arith
    step-Accounted (push {s} r i) a =
        let h : in_hand s.phase ≡ one r = ap in_hand i in
        omega (arith, count-append s.waiting (r ∷ []))
    step-Accounted (push_failed {s} r i) a =
        let h : in_hand s.phase ≡ one r = ap in_hand i in
        omega (arith, count-append s.waiting (r ∷ []))
    step-Accounted (refuse {s} r i) a =
        let h : in_hand s.phase ≡ one r = ap in_hand i in
        omega (arith, responses-append s.responses (refused r ∷ []))
    step-Accounted (return_slot {s} i) a = let h : in_hand s.phase ≡ 0 = ap in_hand i in omega arith
    step-Accounted (begin {s} r rs e c) a =
        let h : count s.waiting ≡ one r + count rs = ap count e in omega arith
    step-Accounted (answer {s} r xs ys e) a =
        omega
          (arith, split_count r xs ys s.running e, responses-append s.responses (answered r ∷ []))
    step-Accounted (drop {s} r xs ys e) a = omega (arith, split_count r xs ys s.running e)
    step-Accounted (release n e) a = a
    step-Accounted (finish {s} i w e f) a =
        let h : in_hand s.phase ≡ 0 = ap in_hand i in
        omega (arith, responses-append s.responses (stop ∷ []))

    steps-Accounted : {s u : State R} → Steps limits s u → Accounted s → Accounted u
    steps-Accounted here a = a
    steps-Accounted (after run step) a = step-Accounted step (steps-Accounted run a)

-- However the handler and the threads take turns, each request that was taken has exactly one fate:
-- it has one response, or it was given up without one, or it waits, or a thread serves it, or the
-- handler holds it. For any test `p`, as many requests that pass it were taken as have these fates.
pub taken-settled :
    {R : Type 0} (limits : Limits) (p : R → Bool) {s : State R}
    → Steps limits (initial limits) s
    → count p s.taken ≡ settled p s
unfolding initial
taken-settled limits p run = steps-Accounted p limits run refl
