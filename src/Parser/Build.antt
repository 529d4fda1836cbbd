-- ===== src/Parser/Build.antt =====
-- `jdParser_buildDom`.
use ioprocess.Base.{
  ℕ, suc, ◌%◌, ◌^◌, Bytes, Bool, Option, none, some, List, [], ◌∷◌, length, take, if◌then◌else◌,
}
use ioprocess.Dom.Store.{Memory, free_node}
use ioprocess.Parser.Builder.{Builder, Event, Outcome, proceed, cancel, crash, run}

-- What yajl does with a text, as long as the callbacks return 1: the callbacks of `yajl_parse` and
-- whether it finds the text good so far, and the same for `yajl_complete_parse`.
pub record Lexed : Type 0 where
  pub parsed : List Event
  pub parsed_ok : Bool
  pub completed : List Event
  pub completed_ok : Bool

pub data Built : Type 0 where
  built : ℕ → Memory → Built
  -- NULL. The error number is 0 where no error is set.
  rejected : ℕ → Memory → Built
  crashed : Built

-- `g_queue_peek_tail`
unfoldable pub peek_tail : List ℕ → Option ℕ
peek_tail [] = none
peek_tail (p ∷ []) = some p
peek_tail (p ∷ q ∷ ps) = peek_tail (q ∷ ps)

-- The label `clean`, without a result: what was built is freed.
unfoldable pub reject : ℕ → Builder → Built
unfolding peek_tail free_node
reject code b = elim (peek_tail b.stack) [
  | none ↦ rejected code b.memory
  | some root ↦ elim (free_node (suc b.memory.next) root b.memory) [
    | none ↦ crashed
    | some m ↦ rejected code m
  ]
]

unfoldable pub finish : Builder → Built
unfolding peek_tail
finish b = elim (peek_tail b.stack) [ none ↦ rejected 0 b.memory | some root ↦ built root b.memory ]

abbrev pub einval : ℕ
einval = 22

abbrev pub enomem : ℕ
enomem = 12

-- The status of one of the two calls, and what follows if it is good.
unfoldable pub checked : Bool → (Builder → Built) → Outcome → Built
unfolding reject
checked good next (proceed b) = if good then next b else reject einval b
checked good next (cancel b) = reject einval b
checked good next crash = crashed

abbrev pub empty_builder : Memory → Builder
empty_builder m = record { key = []; stack = []; memory = m }

module _ (malloc_ok : ℕ → Bool) (lex : Bytes → Lexed) where
  unfoldable pub complete : Lexed → Builder → Built
  unfolding checked finish run
  complete l b = checked l.completed_ok finish (run malloc_ok l.completed b)

  -- `alloc_ok` is whether `yajl_alloc` gives a parser. The length is passed as an `unsigned int`.
  unfoldable pub build_dom : Bool → Bytes → Memory → Built
  unfolding checked complete run reject
  build_dom alloc_ok buffer m =
      let l = lex (take (length buffer % 2 ^ 32) buffer) in
      let parsing = checked l.parsed_ok (complete l) (run malloc_ok l.parsed (empty_builder m)) in
      if alloc_ok then parsing else reject enomem (empty_builder m)
