-- ===== src/Server/Serve.antt =====
-- `extractRequestInfo` and `servRequest`.
use ioprocess.Base.{ℕ, ℤ, Bytes, Option, none, some, List, [], ◌∷◌, ◌++◌, codes}
use ioprocess.Dom.{Json, map_lookup}
use ioprocess.Sys.{Os, Step, ok, fail, Act, pure, ◌>>=◌, Reply, GError, no_domain}
use ioprocess.Args.{Cell, safe_get_arg_values, c_text_at, long_at, einval}
use ioprocess.Exported.Common.{text_arg}
use ioprocess.Server.Response.{build_response, or_empty_map, id_arg}
use ioprocess.Server.Table.{Callback, get_callback}

pub record RequestInfo : Type 0 where
  pub method_name : Bytes
  pub req_id : ℤ
  pub args : Option Json

-- What follows `safeGetArgValues` in `extractRequestInfo`.
unfoldable pub read_info : Json → List Cell × Option GError → Act (Option RequestInfo)
unfolding c_text_at long_at map_lookup
read_info req_info (cells, some e) = pure none
read_info req_info (cells, none) = do
  method_name ← c_text_at cells 1
  req_id ← long_at cells 0
  pure (
      some (record {
        method_name = method_name;
        req_id = req_id;
        args = map_lookup req_info (codes "args");
      }))

-- `extractRequestInfo`: `none` where it returns an error.
unfoldable pub extract_request_info : Json → Act (Option RequestInfo)
unfolding safe_get_arg_values read_info
extract_request_info req_info =
    read_info req_info (safe_get_arg_values (some req_info) (id_arg ∷ text_arg "methodName" ∷ []))

-- `result = callback(args, &err)`: a return of NULL with an error is a result like any other.
abbrev pub caught : Step Reply → Step Reply
caught (fail e) = ok (record { result = none; error = some e })
caught r = r

unfoldable pub call : Callback → Option Json → Act Reply
call callback args s = let (r, s') = callback args s in (caught r, s')

abbrev pub no_such_method : Bytes → GError
no_such_method name = record {
  domain = no_domain;
  code = einval;
  message = codes "No such method '" ++ (name ++ codes "'");
}

module _ (os : Os) (fuel : ℕ) where
  abbrev pub dispatch : Option Callback → RequestInfo → Act Reply
  dispatch none info =
      pure (record { result = none; error = some (no_such_method info.method_name) })
  dispatch (some callback) info = call callback info.args

  abbrev pub respond : Option RequestInfo → Act (Option Json)
  respond none = pure none
  respond (some info) = do
    r ← dispatch (get_callback os fuel info.method_name) info
    pure (some (build_response info.req_id r.error (some (or_empty_map r.result))))

  -- `servRequest`: the response that it pushes, if any.
  unfoldable pub serv_request : Json → Act (Option Json)
  unfolding extract_request_info call get_callback build_response
  serv_request req_info = do info ← extract_request_info req_info; respond info
