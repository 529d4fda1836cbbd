-- ===== src/Tests/Methods.antt =====
-- Requests to the methods of the small system.
use ioprocess.Base.{pos, [], ◌∷◌, codes, c_str, bytes_eq, none, some, ◌≡◌, ◌≢◌, refl, arith, true}
use ioprocess.Dom.{
  Fields, end, field, long, string, object, boolean, map_lookup, lookup, node_type, jt_string,
}
use ioprocess.Args.{
  uninit, get_value, safe_get_arg, safe_get_arg_value, safe_get_arg_values, arg_missing,
  arg_wrong_type,
}
use ioprocess.Args.Laws.{
  first_missing, missing_error, names, written, safe_get_arg_value-wrong_type,
  safe_get_arg_values-missing, safe_get_arg_values-written,
}
use ioprocess.Exported.Listing.{exp_listdir}
use ioprocess.Exported.Listing.Laws.{visible, texts, exp_listdir-visible}
use ioprocess.Exported.Common.{reply}
use ioprocess.Dom.{array}
use ioprocess.Sys.{ok, fail, done, note, opendir, closedir, sys}
use ioprocess.Exported.Simple.{exp_unlink}
use ioprocess.Exported.Write.{exp_writefile, writefile_args}
use ioprocess.Exported.Write.Wrote.{WritesProgress, written_to}
use ioprocess.Exported.Write.Laws.{Delivered, exp_writefile_delivers}
use ioprocess.Exported.Laws.Handles.{held, Balanced}
use ioprocess.Exported.Laws.Refusals.{required, callback_refuses}
use ioprocess.Exported.Laws.Release.{callback_releases}
use ioprocess.Server.Table.{get_callback, find_callback, exported_functions}
use ioprocess.Tests.System.{small, start, file_args}

unlink_found : get_callback small 9 (codes "unlink") ≡ some (exp_unlink small)
unfolding get_callback find_callback exported_functions bytes_eq
unlink_found = refl

writefile_found : get_callback small 9 (codes "writefile") ≡ some (exp_writefile small 9)
unfolding get_callback find_callback exported_functions bytes_eq
writefile_found = refl

unlink_required : find_callback required (codes "unlink") ≡ some (codes "path" ∷ [])
unfolding find_callback bytes_eq
unlink_required = refl

unlink_path_missing : first_missing end (codes "path" ∷ []) ≡ some (codes "path")
unfolding lookup map_lookup
unlink_path_missing = refl

callback_refuses_example :
    exp_unlink small (some (object end)) start ≡ (fail (arg_missing (codes "path")), start)
callback_refuses_example =
    callback_refuses small 9 (codes "unlink") unlink_found unlink_required end start (codes "path")
      unlink_path_missing

callback_releases_example :
    Balanced true (held start.trace) (exp_writefile small 9 (some (object file_args)) start)
callback_releases_example =
    callback_releases small 9 (codes "writefile") writefile_found (some (object file_args)) start

small_progress : WritesProgress small 7
small_progress t b [] = cc
small_progress t b (c ∷ bs) = cc

pub path_given : map_lookup (object file_args) (codes "path") ≡ some (string (codes "/a"))
unfolding map_lookup lookup bytes_eq c_str
path_given = refl

data_given : map_lookup (object file_args) (codes "data") ≡ some (string (codes "abc"))
unfolding map_lookup lookup bytes_eq c_str
data_given = refl

pub direct_given : map_lookup (object file_args) (codes "direct") ≡ some (boolean (pos 0))
unfolding map_lookup lookup bytes_eq c_str
direct_given = refl

exp_writefile_delivers_example :
    Delivered small 7
      (written_to 7 start.trace)
      (codes "abc")
      (exp_writefile small 3 (some (object file_args)) start)
unfolding c_str
exp_writefile_delivers_example =
    exp_writefile_delivers small 3 7 file_args start (codes "/a") (codes "abc") (pos 0) path_given
      data_given direct_given refl small_progress (omega arith)

-- A path that is a number.
abbrev number_args : Fields
number_args = field (codes "path") (long (pos 3)) end

number_given : map_lookup (object number_args) (codes "path") ≡ some (long (pos 3))
unfolding map_lookup lookup bytes_eq c_str
number_given = refl

long_is_no_string : node_type (long (pos 3)) ≢ jt_string
unfolding node_type
long_is_no_string = cc

safe_get_arg_value-wrong_type_example :
    ((safe_get_arg (some (object number_args)) (codes "path") jt_string).1
      ≡ some (arg_wrong_type (codes "path")))
    × (safe_get_arg_value (some (object number_args)) (codes "path") jt_string uninit
        ≡ (get_value (long (pos 3)) uninit, none))
safe_get_arg_value-wrong_type_example =
    safe_get_arg_value-wrong_type number_args (codes "path") jt_string uninit number_given
      long_is_no_string

safe_get_arg_values-missing_example :
    (safe_get_arg_values (some (object number_args)) writefile_args).1
    ≡ missing_error (first_missing number_args (names writefile_args))
safe_get_arg_values-missing_example = safe_get_arg_values-missing number_args writefile_args

all_given : first_missing file_args (names writefile_args) ≡ none
unfolding map_lookup lookup bytes_eq c_str
all_given = refl

safe_get_arg_values-written_example :
    safe_get_arg_values (some (object file_args)) writefile_args
    ≡ (written file_args writefile_args, none)
safe_get_arg_values-written_example = safe_get_arg_values-written file_args writefile_args all_given

-- The small system lists ".", "3", "4" and "7".
exp_listdir-visible_example : exp_listdir small (some (object file_args)) start ≡ (
  ok (
      reply (
        array (
          texts (
            visible
              (small.entries_of (note (opendir (c_str (codes "/a"))) (done 5) start).trace 5))))),
  (sys small (closedir 5) (note (opendir (c_str (codes "/a"))) (done 5) start)).1,
)
exp_listdir-visible_example =
    exp_listdir-visible small file_args start (codes "/a") 5 path_given refl
