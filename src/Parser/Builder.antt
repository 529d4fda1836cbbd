-- ===== src/Parser/Builder.antt =====
-- The callbacks and the state that they share.
use ioprocess.Base.{
  ℕ, ℤ, suc, ◌^◌, Bytes, Bool, Option, none, some, List, [], ◌∷◌, ◌++◌, length, take, drop, ltb,
  if◌then◌else◌,
}
use ioprocess.Dom.Store.{
  Node, null_node, boolean_node, long_node, double_node, string_node, map_node, array_node, Memory,
  new_node, new_from_data, free_node, array_append_node, map_insert_node,
}

-- `JsonDomBuilderCtx`, with the memory. The head of the stack is the innermost open container.
pub record Builder : Type 0 where
  pub key : Bytes
  pub stack : List ℕ
  pub memory : Memory

-- What yajl calls back for.
pub data Event : Type 0 where
  on_null : Event
  on_boolean : ℤ → Event
  on_long : ℤ → Event
  on_double : ℕ → Event
  on_string : Bytes → Event
  on_start_map : Event
  on_map_key : Bytes → Event
  on_end_map : Event
  on_start_array : Event
  on_end_array : Event

-- How a callback ends: with 1, with 0, or with a use of memory that C leaves undefined.
pub data Outcome : Type 0 where
  proceed : Builder → Outcome
  cancel : Builder → Outcome
  crash : Outcome

abbrev pub stored : Builder → Option Memory → Outcome
stored b none = crash
stored b (some m) = proceed (record b { memory = m })

-- `jdBuilder_addValue` and the test of its result in `cb_build_safeAdd`: a head that is no container
-- has the node freed.
unfoldable pub add_under : ℕ → ℕ → Option Node → Builder → Outcome
unfolding array_append_node map_insert_node free_node
add_under head node none b = crash
add_under head node (some (array_node ps)) b = stored b (array_append_node head node b.memory)
add_under head node (some (map_node es)) b = stored b (map_insert_node head b.key node b.memory)
add_under head node (some other) b = elim (free_node (suc b.memory.next) node b.memory) [
  | none ↦ crash
  | some m ↦ cancel (record b { memory = m })
]

unfoldable pub add_at : ℕ → List ℕ → Builder → Outcome
unfolding add_under
add_at node [] b = proceed (record b { stack = node ∷ [] })
add_at node (head ∷ rest) b = add_under head node (b.memory.cell head) b

unfoldable pub add_value : ℕ → Builder → Outcome
unfolding add_at
add_value node b = add_at node b.stack b

-- `cb_build_safeAdd`
unfoldable pub safe_add : Option ℕ → Builder → Outcome
unfolding add_value
safe_add none b = cancel b
safe_add (some node) b = add_value node b

abbrev pub push_container : ℕ → Outcome → Outcome
push_container node (proceed b) = proceed (record b { stack = node ∷ b.stack })
push_container node o = o

-- `cb_build_safeContainerAdd`
unfoldable pub safe_container_add : Option ℕ → Builder → Outcome
unfolding safe_add
safe_container_add none b = safe_add none b
safe_container_add (some node) b = push_container node (safe_add (some node) b)

-- `g_string_overwrite_len(key, 0, val, len)` and `g_string_truncate(key, len)`.
unfoldable pub overwrite_key : Bytes → Bytes → Bytes
overwrite_key old val = take (length val) (val ++ drop (length val) old)

-- `jdBuilder_popContainerStack`
unfoldable pub pop : List ℕ → List ℕ
pop [] = []
pop (p ∷ ps) = ps

-- A length that survives its conversion to `int`.
abbrev pub fits_int : Bytes → Bool
fits_int s = ltb (length s) (2 ^ 31)

abbrev pub resume : (Builder → Outcome) → Outcome → Outcome
resume next (proceed b) = next b
resume next (cancel b) = cancel b
resume next crash = crash

module _ (malloc_ok : ℕ → Bool) where
  -- A new node is passed on.
  abbrev pub with_new :
      (Memory → Option ℕ × Memory) → (Option ℕ → Builder → Outcome) → Builder → Outcome
  with_new alloc add b = let (node, m) = alloc b.memory in add node (record b { memory = m })

  -- `JsonNode_getString(node)` in `cb_build_string` reads the node before the test for NULL.
  abbrev pub add_string : Option ℕ → Builder → Outcome
  add_string none b = crash
  add_string (some node) b = safe_add (some node) b

  -- One callback.
  unfoldable pub callback : Event → Builder → Outcome
  unfolding safe_add safe_container_add new_node new_from_data overwrite_key pop
  callback on_null b = with_new (new_from_data malloc_ok null_node) safe_add b
  callback (on_boolean x) b = with_new (new_from_data malloc_ok (boolean_node x)) safe_add b
  callback (on_long x) b = with_new (new_from_data malloc_ok (long_node x)) safe_add b
  callback (on_double x) b = with_new (new_from_data malloc_ok (double_node x)) safe_add b
  callback (on_string s) b =
      if fits_int s then with_new (new_node malloc_ok (string_node s)) add_string b else crash
  callback on_start_map b = with_new (new_node malloc_ok (map_node [])) safe_container_add b
  callback (on_map_key k) b =
      if fits_int k then proceed (record b { key = overwrite_key b.key k }) else crash
  callback on_end_map b = proceed (record b { stack = pop b.stack })
  callback on_start_array b = with_new (new_node malloc_ok (array_node [])) safe_container_add b
  callback on_end_array b = proceed (record b { stack = pop b.stack })

  -- The callbacks that yajl makes, up to one that returns 0.
  unfoldable pub run : List Event → Builder → Outcome
  unfolding callback
  run [] b = proceed b
  run (e ∷ es) b = resume (run es) (callback e b)
