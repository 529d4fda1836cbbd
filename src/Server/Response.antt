-- ===== src/Server/Response.antt =====
-- `buildResponse` and `servQueueFull`.
use ioprocess.Base.{ℕ, ℤ, pos, negsuc, Bytes, Option, none, some, [], ◌∷◌, codes}
use ioprocess.Dom.{Json, long, object, end, new_string, jt_long}
use ioprocess.Sys.{Os, Act, pure, ◌>>=◌, GError, general_error, error_from_errno}
use ioprocess.Args.{Wanted, long_int, safe_get_arg_values, long_at}
use ioprocess.Exported.Common.{map_of}

-- `err->code` and `err->message`, 0 and "SUCCESS" without an error.
abbrev pub code_of : Option GError → ℕ
code_of none = 0
code_of (some e) = e.code

abbrev pub text_of : Option GError → Bytes
text_of none = codes "SUCCESS"
text_of (some e) = e.message

abbrev pub or_empty_map : Option Json → Json
or_empty_map none = object end
or_empty_map (some node) = node

unfoldable pub build_response : ℤ → Option GError → Option Json → Json
unfolding map_of new_string
build_response id err result = map_of (
    (codes "id", long id)
    ∷ (codes "errcode", long (pos (code_of err)))
    ∷ (codes "errstr", new_string (text_of err))
    ∷ (codes "result", or_empty_map result)
    ∷ [])

abbrev pub eagain : ℕ
eagain = 11

-- `long reqId = -1`, of which `safeGetArgValues` is given the address.
abbrev pub id_arg : Wanted
id_arg = record { name = codes "id"; type = jt_long; out = long_int (negsuc 0) }

module _ (os : Os) where
  -- `servQueueFull`: the response that it pushes.
  unfoldable pub serv_queue_full : Json → Act Json
  unfolding build_response safe_get_arg_values long_at error_from_errno
  serv_queue_full req_obj = do
    req_id ← long_at (safe_get_arg_values (some req_obj) (id_arg ∷ [])).0 0
    pure (build_response req_id (some (error_from_errno os general_error eagain)) none)
