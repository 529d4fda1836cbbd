-- ===== src/Exported/Listing.antt =====
-- `exp_listdir` and `exp_glob`.
pub mod Laws
use ioprocess.Base.{
  ℕ, zero, suc, Bytes, Option, none, some, List, [], ◌∷◌, codes, ◌||◌, if◌then◌else◌, bytes_eq,
}
use ioprocess.Dom.{Json, array, nil, array_append, new_string}
use ioprocess.Sys.{
  Os, Act, pure, undefined, ◌>>=◌, ◌>>◌, Reply, sys, sys_quiet, trace_of, general_error,
  error_from_errno, opendir, closedir, glob,
}
use ioprocess.Args.{get_args, c_text_at}
use ioprocess.Exported.Common.{reply, text_arg, throw_errno, enomem, eio}

abbrev pub append_or_fault : Option Json → Act Json
append_or_fault none = undefined
append_or_fault (some node) = pure node

-- The body of the loop of `exp_listdir`: "." and ".." are passed over.
unfoldable pub list_entry : Bytes → Json → Act Json
unfolding array_append new_string bytes_eq
list_entry fname result =
    if bytes_eq fname (codes ".") || bytes_eq fname (codes "..")
    then pure result
    else append_or_fault (array_append result (new_string fname))

unfoldable pub list_entries : List Bytes → Json → Act Json
unfolding list_entry
list_entries [] result = pure result
list_entries (fname ∷ more) result = do result' ← list_entry fname result; list_entries more result'

-- The loop of `exp_glob` over `gl_pathv`.
unfoldable pub glob_entries : List Bytes → Json → Act Json
unfolding array_append new_string
glob_entries [] result = pure result
glob_entries (path ∷ more) result = do
  result' ← append_or_fault (array_append result (new_string path))
  glob_entries more result'

-- What `glob` returns.
abbrev pub glob_nospace : ℕ
glob_nospace = 1

abbrev pub glob_aborted : ℕ
glob_aborted = 2

abbrev pub glob_nomatch : ℕ
glob_nomatch = 3

module _ (os : Os) where
  unfoldable pub exp_listdir : Option Json → Act Reply
  unfolding c_text_at throw_errno list_entries
  exp_listdir args = do
    cells ← get_args args (text_arg "path" ∷ [])
    path ← c_text_at cells 0
    opened ← sys os (opendir path)
    elim opened [
      | none ↦ throw_errno os general_error
      | some dp ↦ do
        t ← trace_of
        result ← list_entries (os.entries_of t dp) (array nil)
        sys os (closedir dp)
        pure (reply result)
    ]

  abbrev pub glob_failed : ℕ → Act Reply
  glob_failed e =
      pure
        (record { result = some (array nil); error = some (error_from_errno os general_error e) })

  abbrev pub glob_found : Bytes → Act Reply
  glob_found pattern = do
    t ← trace_of
    result ← glob_entries (os.paths_of t pattern) (array nil)
    pure (reply result)

  -- The `switch` on the result of `glob`, 0 as `none`: any other code falls through to the loop.
  abbrev pub glob_switch : Bytes → Option ℕ → Act Reply
  glob_switch pattern none = glob_found pattern
  glob_switch pattern (some zero) = glob_found pattern
  glob_switch pattern (some (suc zero)) = glob_failed enomem
  glob_switch pattern (some (suc (suc zero))) = glob_failed eio
  glob_switch pattern (some (suc (suc (suc zero)))) = pure (reply (array nil))
  glob_switch pattern (some (suc (suc (suc (suc n))))) = glob_found pattern

  unfoldable pub exp_glob : Option Json → Act Reply
  unfolding c_text_at glob_entries error_from_errno
  exp_glob args = do
    cells ← get_args args (text_arg "pattern" ∷ [])
    pattern_text ← c_text_at cells 0
    rv ← sys_quiet os (glob pattern_text)
    glob_switch pattern_text rv
