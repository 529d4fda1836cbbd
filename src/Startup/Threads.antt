-- ===== src/Startup/Threads.antt =====
-- `communicate`: its threads are made and joined.
use ioprocess.Base.{ℕ, ℤ, pos, negsuc, Bool, true, false, List, [], ◌∷◌, if◌then◌else◌}

pub data Thread : Type 0 where
  request_reader response_writer request_handler log_writer : Thread

-- What is done, in the order in which it is done. `released` is the release of the two queues.
pub data Deed : Type 0 where
  created : Thread → Deed
  joined : Thread → Deed
  closed : ℕ → Deed
  released : Deed

-- A return with a result, or a join of a thread that does not end.
pub data Ending : Type 0 where
  returned : ℤ → Ending
  blocked : Thread → Ending

abbrev pub Run : Type 0
Run = List Deed × Ending

-- Whether `create_thread` gives a thread, and whether a thread that runs ends.
pub record World : Type 0 where
  pub starts : Thread → Bool
  pub ends : Thread → Bool

abbrev pub first_do : Deed → Run → Run
first_do d (ds, e) = (d ∷ ds, e)

-- `-ENOMEM`
abbrev pub minus_enomem : ℤ
minus_enomem = negsuc 11

module _ (world : World) where
  -- `g_thread_join`
  unfoldable pub join : Thread → Run → Run
  join t rest = if world.ends t then first_do (joined t) rest else ([], blocked t)

  -- From the label `clean` on. `handler` and `writer` say which of the pointers are not NULL.
  unfoldable pub clean : ℕ → ℕ → Bool → Bool → ℤ → Run
  unfolding join
  clean read_pipe write_pipe handler writer rv =
      let last : Run = (closed read_pipe ∷ closed write_pipe ∷ released ∷ [], returned rv) in
      let behind_handler = if writer then join response_writer last else last in
      if handler then join request_handler behind_handler else behind_handler

  unfoldable pub communicate : ℕ → ℕ → Run
  unfolding clean join
  communicate read_pipe write_pipe =
      let stop = clean read_pipe write_pipe in
      let all = join request_reader (stop true true (pos 0)) in
      let with_writer =
        if world.starts request_handler
        then first_do (created request_handler) all
        else stop false true minus_enomem in
      let with_reader =
        if world.starts response_writer
        then first_do (created response_writer) with_writer
        else stop false false minus_enomem in
      if world.starts request_reader
      then first_do (created request_reader) with_reader
      else stop false false minus_enomem
