-- ===== src/Tests/Requests.antt =====
-- Requests to the server on the small system.
use ioprocess.Base.{
  ◌++◌, ◌≢◌, bytes_eq_iff, Bool, List, if◌then◌else◌, Bool-cases, inl, inr, true, false, sym, ◌∙◌,
  pos, Bytes, [], ◌∷◌, codes, c_str, bytes_eq, none, some, ◌≡◌, refl, ap,
}
use ioprocess.Dom.{Json, Fields, end, long, string, object, map_lookup, lookup, new_string}
use ioprocess.Sys.{ok}
use ioprocess.Args.{arg_missing}
use ioprocess.Args.Laws.{first_missing}
use ioprocess.Exported.Simple.{exp_unlink, exp_ping}
use ioprocess.Exported.Common.{reply}
use ioprocess.Exported.Laws.Handles.{held, Balanced}
use ioprocess.Exported.Laws.Refusals.{required}
use ioprocess.Server.Table.{get_callback, find_callback, exported_functions}
use ioprocess.Server.Response.{build_response, serv_queue_full}
use ioprocess.Server.Serve.{caught, serv_request}
use ioprocess.Server.Laws.{
  IsRequest, serv_request-dropped, serv_request-answers, serv_request-refuses, Refused,
  serv_queue_full-Refused,
}
use ioprocess.Server.Unknown.{methods, Differs, serv_request-unknown}
use ioprocess.Server.Release.{serv_request_releases}
use ioprocess.Tests.System.{small, start, file_args, request}

request-IsRequest :
    (method : Bytes) (args : Fields) → IsRequest (request method args) (pos 4) method
unfolding map_lookup lookup bytes_eq c_str
request-IsRequest method args = record { id_is = refl; name_is = refl }

ping_found : get_callback small 9 (c_str (codes "ping")) ≡ some (exp_ping small)
unfolding get_callback find_callback exported_functions bytes_eq c_str
ping_found = refl

pong :
    exp_ping small (map_lookup (object (request (codes "ping") end)) (codes "args")) start
    ≡ (ok (reply (new_string (codes "pong"))), start)
unfolding exp_ping
pong = refl

serv_request-answers_example : serv_request small 9 (object (request (codes "ping") end)) start ≡ (
  ok (some (build_response (pos 4) none (some (new_string (codes "pong"))))),
  (exp_ping small (map_lookup (object (request (codes "ping") end)) (codes "args")) start).1,
)
serv_request-answers_example =
    serv_request-answers small 9 (request (codes "ping") end) (pos 4) (codes "ping") start
      (request-IsRequest (codes "ping") end) ping_found (ap (λ r. caught r.0) pong)

apart : (a b : Bytes) → bytes_eq a b ≡ false → a ≢ b
apart a b e p = let same = (bytes_eq_iff a b).1 p in cc

abbrev none_equal : Bytes → List Bytes → Bool
none_equal name [] = true
none_equal name (m ∷ ms) = if bytes_eq m name then false else none_equal name ms

none_equal-Differs : (name : Bytes) (ms : List Bytes) → none_equal name ms ≡ true → Differs name ms
none_equal-Differs name [] e = tt
none_equal-Differs name (m ∷ ms) e = elim (Bool-cases (bytes_eq m name)) [
  | inl q ↦ absurd (taken (rw (← e, q) refl))
  | inr q ↦ (apart m name q, none_equal-Differs name ms (sym (skip q) ∙ e))
]
  where
    taken : false ≡ true → ⊥
    taken p = cc

    skip : bytes_eq m name ≡ false → none_equal name (m ∷ ms) ≡ none_equal name ms
    skip q = rw q refl

pong-Differs : Differs (c_str (codes "pong")) methods
unfolding c_str bytes_eq
pong-Differs = none_equal-Differs (codes "pong") methods refl

serv_request-unknown_example :
    (response : Json) × (serv_request small 9 (object (request (codes "pong") end)) start
      ≡ (ok (some response), start))
    × (map_lookup response (codes "id") ≡ some (long (pos 4)))
    × (map_lookup response (codes "errcode") ≡ some (long (pos 22)))
    × (map_lookup response (codes "errstr")
        ≡ some (string (codes "No such method '" ++ (c_str (codes "pong") ++ codes "'"))))
    × (map_lookup response (codes "result") ≡ some (object end))
serv_request-unknown_example =
    serv_request-unknown small 9 (request (codes "pong") end) (pos 4) (codes "pong") start
      (request-IsRequest (codes "pong") end) pong-Differs

id_missing : first_missing file_args (codes "id" ∷ codes "methodName" ∷ []) ≡ some (codes "id")
unfolding map_lookup lookup bytes_eq c_str
id_missing = refl

serv_request-dropped_example : serv_request small 9 (object file_args) start ≡ (ok none, start)
serv_request-dropped_example = serv_request-dropped small 9 file_args start id_missing

unlink_args : map_lookup (object (request (codes "unlink") end)) (codes "args") ≡ some (object end)
unfolding map_lookup lookup bytes_eq c_str
unlink_args = refl

unlink_found : get_callback small 9 (c_str (codes "unlink")) ≡ some (exp_unlink small)
unfolding get_callback find_callback exported_functions bytes_eq c_str
unlink_found = refl

unlink_required : find_callback required (c_str (codes "unlink")) ≡ some (codes "path" ∷ [])
unfolding find_callback bytes_eq c_str
unlink_required = refl

path_missing : first_missing end (codes "path" ∷ []) ≡ some (codes "path")
unfolding lookup map_lookup
path_missing = refl

serv_request-refuses_example :
    serv_request small 9 (object (request (codes "unlink") end)) start ≡ (
      ok (some (build_response (pos 4) (some (arg_missing (codes "path"))) (some (object end)))),
      start,
    )
serv_request-refuses_example =
    serv_request-refuses small 9 (request (codes "unlink") end) end (pos 4) (codes "unlink") start
      (request-IsRequest (codes "unlink") end) unlink_args unlink_found unlink_required path_missing

serv_request_releases_example :
    Balanced true
      (held start.trace)
      (serv_request small 9 (object (request (codes "writefile") file_args)) start)
serv_request_releases_example =
    serv_request_releases small 9 (object (request (codes "writefile") file_args)) start

serv_queue_full-Refused_example :
    Refused small
      (map_lookup (object (request (codes "ping") end)) (codes "id"))
      (serv_queue_full small (object (request (codes "ping") end)) start).0
    × ((serv_queue_full small (object (request (codes "ping") end)) start).1 ≡ start)
serv_queue_full-Refused_example = serv_queue_full-Refused small (request (codes "ping") end) start
