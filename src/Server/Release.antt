-- ===== src/Server/Release.antt =====
-- The whole server around a method releases what it opens.
use ioprocess.Base.{ℕ, true, Option, none, some, List, [], ◌∷◌, refl, codes, ◌≡◌}
use mathlib.Core.Path.{subst}
use ioprocess.Dom.{Json, map_lookup}
use ioprocess.Sys.{Os, Sys, Step, ok, fail, fault, exited, hung, Reply, GError}
use ioprocess.Args.{Cell, safe_get_arg_values}
use ioprocess.Exported.Laws.Handles.{
  Handle, held, Balanced, Keeps, bind-Keeps, pure-Keeps, long_at-Keeps, c_text_at-Keeps,
}
use ioprocess.Exported.Laws.Release.{callback_releases}
use ioprocess.Exported.Common.{text_arg}
use ioprocess.Server.Response.{id_arg}
use ioprocess.Server.Table.{Callback, get_callback}
use ioprocess.Server.Serve.{
  RequestInfo, read_info, extract_request_info, call, caught, dispatch, respond, serv_request,
}

call-Balanced :
    (c : Callback) (args : Option Json) (hs : List Handle) (s : Sys)
    → Balanced true hs (c args s)
    → Balanced true hs (call c args s)
unfolding call
call-Balanced c args hs s b = ends_caught (c args s) b
  where
    ends_caught : (r : Step Reply × Sys) → Balanced true hs r → Balanced true hs (caught r.0, r.1)
    ends_caught (ok a, t) b = b
    ends_caught (fail e, t) b = b
    ends_caught (fault, t) b = b
    ends_caught (exited, t) b = b
    ends_caught (hung, t) b = b

module _ (os : Os) (fuel : ℕ) where
  found-Keeps :
      (info : RequestInfo) (found : Option Callback)
      → get_callback os fuel info.method_name ≡ found
      → Keeps true (dispatch os fuel found info)
  found-Keeps info none q = pure-Keeps _
  found-Keeps info (some c) q = record {
    keeps = λ hs s e. call-Balanced c info.args hs s (
        subst (λ z. Balanced true z (c info.args s)) e
          (callback_releases os fuel info.method_name q info.args s));
  }

  dispatch-Keeps :
      (info : RequestInfo)
      → Keeps true (dispatch os fuel (get_callback os fuel info.method_name) info)
  dispatch-Keeps info = found-Keeps info _ refl

  read_info-Keeps :
      (req : Json) (cells : List Cell × Option GError) → Keeps true (read_info req cells)
  unfolding read_info
  read_info-Keeps req (cs, none) = bind-Keeps (c_text_at-Keeps cs 1) (λ name.
      bind-Keeps (long_at-Keeps cs 0) (λ id.
        pure-Keeps (
          some (record { method_name = name; req_id = id; args = map_lookup req (codes "args") }))))
  read_info-Keeps req (cs, some e) = pure-Keeps _

  respond-Keeps : (info : Option RequestInfo) → Keeps true (respond os fuel info)
  respond-Keeps none = pure-Keeps _
  respond-Keeps (some info) = bind-Keeps (dispatch-Keeps info) (λ r. pure-Keeps _)

  -- Whatever request is served, and whatever the system answers, when `servRequest` returns exactly
  -- the descriptors and directory streams are open that were open before.
  pub serv_request_releases :
      (req : Json) (s : Sys) → Balanced true (held s.trace) (serv_request os fuel req s)
  unfolding serv_request extract_request_info
  serv_request_releases req s =
      (bind-Keeps
          (read_info-Keeps req
            (safe_get_arg_values (some req) (id_arg ∷ text_arg "methodName" ∷ [])))
          (λ info. respond-Keeps info)).keeps
        (held s.trace) s refl
