-- ===== src/Exported/Common.antt =====
-- `stdApiWrapper`, and what the exported functions share.
use ioprocess.Base.{ℕ, pos, Bytes, Bool, true, not, Option, none, some, List, [], ◌∷◌, codes, ◌==◌}
use Prim.Native.String.{String}
use ioprocess.Dom.{Json, boolean, object, end, map_insert, jt_string, jt_long, jt_boolean}
use ioprocess.Sys.{
  Os, Act, pure, throw, ◌>>=◌, Reply, GError, Domain, stdapi_error, errno_of, error_from_errno,
}
use ioprocess.Args.{Wanted, uninit}

abbrev pub reply : Json → Reply
reply node = record { result = some node; error = none }

-- One argument of `safeGetArgValues`, with a variable that was not initialised.
abbrev pub text_arg : String → Wanted
text_arg name = record { name = codes name; type = jt_string; out = uninit }

abbrev pub long_arg : String → Wanted
long_arg name = record { name = codes name; type = jt_long; out = uninit }

abbrev pub bool_arg : String → Wanted
bool_arg name = record { name = codes name; type = jt_boolean; out = uninit }

abbrev pub enomem : ℕ
enomem = 12

abbrev pub eio : ℕ
eio = 5

abbrev pub eintr : ℕ
eintr = 4

-- `rv != 0`, for a result of -1 (`none`) or more.
abbrev pub nonzero : Option ℕ → Bool
nonzero none = true
nonzero (some n) = not (n == 0)

-- A row of `JsonNode_map_insert` calls.
unfoldable pub insert_all : Json → List (Bytes × Json) → Json
insert_all node [] = node
insert_all node ((key, value) ∷ rows) = insert_all (map_insert node key value) rows

-- A new map with a row of insertions.
unfoldable pub map_of : List (Bytes × Json) → Json
unfolding insert_all
map_of rows = insert_all (object end) rows

module _ (os : Os) where
  -- `stdApiWrapper`: FALSE with the error of `errno`, or TRUE.
  unfoldable pub std_api_wrapper : Option ℕ → Act Reply
  unfolding error_from_errno
  std_api_wrapper none = do
    e ← errno_of
    pure (record {
      result = some (boolean (pos 0));
      error = some (error_from_errno os stdapi_error e);
    })
  std_api_wrapper (some rv) = pure (reply (boolean (pos 1)))

  -- `set_error_from_errno(err, domain, errno)` and a return of NULL.
  unfoldable pub throw_errno : {A : Type 0} → Domain → Act A
  unfolding error_from_errno
  throw_errno domain = do e ← errno_of; throw (error_from_errno os domain e)

  -- `set_error_from_errno(err, domain, errno)` on the way to a clean-up.
  unfoldable pub errno_error : Domain → Act (Option GError)
  unfolding error_from_errno
  errno_error domain = do e ← errno_of; pure (some (error_from_errno os domain e))
