-- ===== src/Pool/Handler/Ends.antt =====
-- The end of the handler: STOP_PTR is the last response.
use ioprocess.Base.{
  ℕ, zero, suc, ◌+◌, ◌*◌, ◌<◌, List, [], ◌∷◌, ◌++◌, length, length-append, ◌≡◌, ◌≢◌, refl, sym, ap,
  ◌∙◌, arith, inl, inr, ◌⊎◌,
}
use mathlib.Core.Path.{subst}
use ioprocess.Pool.Slots.{Limits, Slot, free, last, underflow, take_slot}
use ioprocess.Pool.Handler.{
  Output, answered, refused, stop, idle, draining, stopped, State, initial, admit, Step, take,
  no_memory, take_stop, push, push_failed, refuse, return_slot, begin, answer, drop, release,
  finish, Steps, here, after,
}

module _ {R : Type 0} where
  abbrev pub NoStop : List (Output R) → Type 0
  NoStop [] = Unit
  NoStop (answered r ∷ os) = NoStop os
  NoStop (refused r ∷ os) = NoStop os
  NoStop (stop ∷ os) = ⊥

  -- Nothing is left in the pool, and STOP_PTR follows all the responses.
  pub record Final (s : State R) : Type 0 where
    pub none_waits : s.waiting ≡ []
    pub none_runs : s.running ≡ []
    pub none_finishes : s.finishing ≡ 0
    pub last_stop :
        (replies : List (Output R)) × NoStop replies × (s.responses ≡ replies ++ (stop ∷ []))

  record Ended (s : State R) : Type 0 where
    open_queue : s.phase ≢ stopped → NoStop s.responses
    closed : s.phase ≡ stopped → Final s

  NoStop-append : (xs ys : List (Output R)) → NoStop xs → NoStop ys → NoStop (xs ++ ys)
  NoStop-append [] ys a b = b
  NoStop-append (answered r ∷ xs) ys a b = NoStop-append xs ys a b
  NoStop-append (refused r ∷ xs) ys a b = NoStop-append xs ys a b
  NoStop-append (stop ∷ xs) ys a b = absurd a

  one_more : (r : R) (xs ys zs : List R) → zs ≡ xs ++ (r ∷ ys) → zs ≢ []
  one_more r xs ys zs e n =
      let w : length (xs ++ (r ∷ ys)) ≡ 0 = ap length (sym e) ∙ ap length n in
      let v = length-append xs (r ∷ ys) in omega arith

  module _ (limits : Limits) where
    -- A step of the handler from a phase that is not the last to another such phase.
    moved :
        (s u : State R)
        → s.phase ≢ stopped
        → u.phase ≢ stopped
        → u.responses ≡ s.responses
        → Ended s
        → Ended u
    moved s u p q e w = record {
      open_queue = λ n. subst NoStop (sym e) (w.open_queue p);
      closed = λ c. absurd (q c);
    }

    admit-Ended :
        (r : R) (s : State R) (slot : Slot)
        → take_slot limits s.slots ≡ slot
        → s.phase ≡ idle
        → Ended s
        → Ended (admit limits r s)
    unfolding admit
    admit-Ended r s (free n) e p w =
        rw (e, admit) (record { open_queue = λ c. w.open_queue (λ d. cc); closed = λ c. cc })
    admit-Ended r s last e p w =
        rw (e, admit) (record { open_queue = λ c. w.open_queue (λ d. cc); closed = λ c. cc })
    admit-Ended r s underflow e p w =
        rw (e, admit) (record { open_queue = λ c. w.open_queue (λ d. cc); closed = λ c. cc })

    step-Ended : {s u : State R} → Step limits s u → Ended s → Ended u
    step-Ended (take {s} r p) w = admit-Ended r s (take_slot limits s.slots) refl p w
    step-Ended (no_memory {s} r p) w = moved s _ (λ c. cc) (λ c. cc) refl w
    step-Ended (take_stop {s} p) w = moved s _ (λ c. cc) (λ c. cc) refl w
    step-Ended (push {s} r p) w = moved s _ (λ c. cc) (λ c. cc) refl w
    step-Ended (push_failed {s} r p) w = moved s _ (λ c. cc) (λ c. cc) refl w
    step-Ended (refuse {s} r p) w = record {
      open_queue = λ n. NoStop-append s.responses (refused r ∷ []) (w.open_queue (λ c. cc)) tt;
      closed = λ c. cc;
    }
    step-Ended (return_slot {s} p) w = moved s _ (λ c. cc) (λ c. cc) refl w
    step-Ended (begin {s} r rs e c) w = record {
      open_queue = w.open_queue;
      closed = λ p. let n = (w.closed p).none_waits in cc;
    }
    step-Ended (answer {s} r xs ys e) w = record {
      open_queue = λ n. NoStop-append s.responses (answered r ∷ []) (w.open_queue n) tt;
      closed = λ p. absurd (one_more r xs ys s.running e (w.closed p).none_runs);
    }
    step-Ended (drop {s} r xs ys e) w = record {
      open_queue = w.open_queue;
      closed = λ p. absurd (one_more r xs ys s.running e (w.closed p).none_runs);
    }
    step-Ended (release {s} n e) w = record {
      open_queue = w.open_queue;
      closed = λ p. let f = (w.closed p).none_finishes in absurd (omega arith);
    }
    step-Ended (finish {s} p a b c) w = record {
      open_queue = λ n. absurd (n refl);
      closed = λ q. record {
        none_waits = a;
        none_runs = b;
        none_finishes = c;
        last_stop = (s.responses, w.open_queue (λ d. cc), refl);
      };
    }

    steps-Ended : {s u : State R} → Steps limits s u → Ended s → Ended u
    steps-Ended here w = w
    steps-Ended (after run step) w = step-Ended step (steps-Ended run w)

-- When the handler has ended, no request is left in the pool, every thread has given its slot back,
-- and STOP_PTR is the last entry of the response queue and the only one of its kind.
pub stopped-Final :
    {R : Type 0} (limits : Limits) {s : State R}
    → Steps limits (initial limits) s
    → s.phase ≡ stopped
    → Final s
unfolding initial
stopped-Final limits run p =
    (steps-Ended limits run (record { open_queue = λ n. tt; closed = λ c. cc })).closed p

free_thread : (n t : ℕ) → n ≡ 0 → (t ≡ 0) ⊎ (n < t)
free_thread n zero e = inl refl
free_thread n (suc t) e = inr (omega arith)

module _ {R : Type 0} (limits : Limits) where
  joined : {s t u : State R} → Steps limits s t → Steps limits t u → Steps limits s u
  joined a here = a
  joined a (after b step) = after (joined a b) step

  abbrev pub work : State R → ℕ
  work s = length s.waiting * 3 + length s.running * 2 + s.finishing

  Empty : State R → Type 0
  Empty s = (s.waiting ≡ []) × (s.running ≡ []) × (s.finishing ≡ 0)

  Progress : State R → Type 0
  Progress s = (u : State R) × Step limits s u × (u.phase ≡ draining) × (work u < work s)

  drain_step :
      (s : State R) (ws rs : List R) (f : ℕ)
      → s.phase ≡ draining
      → s.waiting ≡ ws
      → s.running ≡ rs
      → s.finishing ≡ f
      → Empty s ⊎ Progress s
  unfolding Empty Progress
  drain_step s ws rs (suc m) p a b c = inr (_, release m c, p, omega arith)
  drain_step s ws (r ∷ rs) zero p a b c =
      let n : length s.running ≡ suc (length rs) = ap length b in
      inr (_, answer r [] rs b, p, omega arith)
  drain_step s (w ∷ ws) [] zero p a b c =
      let n : length s.waiting ≡ suc (length ws) = ap length a in
      let m : length s.running ≡ 0 = ap length b in
      inr (
        _,
        begin w ws a (free_thread (length s.running + s.finishing) limits.threads (omega arith)),
        p,
        omega arith,
      )
  drain_step s [] [] zero p a b c = inl (a, b, c)

  draining-ends :
      (n : ℕ) (s : State R)
      → work s < n
      → s.phase ≡ draining
      → (u : State R) × Steps limits s u × (u.phase ≡ stopped)
  unfolding Empty Progress
  draining-ends zero s h p = absurd (omega arith)
  draining-ends (suc n) s h p =
      elim (drain_step s s.waiting s.running s.finishing p refl refl refl) [
        | inl (a, b, c) ↦ (_, after here (finish p a b c), refl)
        | inr (v, step, q, less) ↦
            let (u, steps, e) = draining-ends n v (omega arith) q in
            (u, joined (after here step) steps, e)
      ]

-- Once the handler has left its loop, wherever the requests of the pool are and however many threads
-- there may be, there are steps that empty the pool and end the handler.
pub draining-stops :
    {R : Type 0} (limits : Limits) (s : State R)
    → s.phase ≡ draining
    → (u : State R) × Steps limits s u × (u.phase ≡ stopped)
draining-stops limits s p = draining-ends limits (suc (work limits s)) s (omega arith) p
