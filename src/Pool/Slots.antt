-- ===== src/Pool/Slots.antt =====
-- `queueSlotsLeft`.
use ioprocess.Base.{ℕ, zero, suc, ◌+◌, Option, none, some}

-- MAX_THREADS, 0 for no limit, and MAX_QUEUED_REQUESTS, `none` where it is negative.
pub record Limits : Type 0 where
  pub threads : ℕ
  pub queued : Option ℕ

-- `MAX_THREADS + MAX_QUEUED_REQUESTS + 1`, for limits whose sum fits in a `gint`. Without a bound on the queue the counter is not used.
unfoldable pub initial_slots : Limits → ℕ
initial_slots limits = elim limits.queued [ none ↦ 0 | some q ↦ limits.threads + q + 1 ]

-- What `MAX_QUEUED_REQUESTS >= 0 && g_atomic_int_dec_and_test(&queueSlotsLeft)` finds and leaves.
-- `underflow` is a counter that goes below 0.
pub data Slot : Type 0 where
  free : ℕ → Slot
  last : Slot
  underflow : Slot

unfoldable pub dec_and_test : ℕ → Slot
dec_and_test zero = underflow
dec_and_test (suc zero) = last
dec_and_test (suc (suc n)) = free (suc n)

unfoldable pub take_slot : Limits → ℕ → Slot
unfolding dec_and_test
take_slot limits slots = elim limits.queued [ none ↦ free slots | some q ↦ dec_and_test slots ]

-- The increment at the end of `servRequest`.
unfoldable pub give_slot : Limits → ℕ → ℕ
give_slot limits slots = elim limits.queued [ none ↦ slots | some q ↦ suc slots ]
