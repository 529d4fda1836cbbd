-- ===== src/Server/Laws.antt =====
-- What `servRequest` and `servQueueFull` answer.
use ioprocess.Base.{
  bytes_eq, ℕ, ℤ, pos, negsuc, Bytes, c_str, codes, Option, none, some, List, [], ◌∷◌, ◌≡◌, refl,
  ◌∙◌, ap,
}
use ioprocess.Dom.{
  Json, Fields, object, end, long, string, map_lookup, map_insert, insert, lookup, new_string, null,
  boolean, double, array, jt_long,
}
use ioprocess.Sys.{Os, Sys, Step, ok, fail, fault, Reply, GError, general_error, error_from_errno}
use ioprocess.Args.{get_value, safe_get_arg_values, arg_missing, long_at, c_text_at, text_at}
use ioprocess.Args.{Cell, long_int, g_string}
use ioprocess.Exported.Common.{text_arg, map_of, insert_all}
use ioprocess.Args.Laws.{
  value_missing, value_found, missing_error, first_missing, safe_get_arg_values-missing,
  safe_get_arg_values-written,
}
use ioprocess.Exported.Laws.Refusals.{required, callback_refuses}
use ioprocess.Server.Response.{
  build_response, serv_queue_full, code_of, text_of, eagain, or_empty_map, id_arg,
}
use ioprocess.Server.Table.{Callback, find_callback, get_callback}
use ioprocess.Server.Serve.{
  RequestInfo, read_info, extract_request_info, call, caught, no_such_method, serv_request,
}

-- A request with an id and the name of a method.
pub record IsRequest (fs : Fields) (id : ℤ) (name : Bytes) : Type 0 where
  pub id_is : map_lookup (object fs) (codes "id") ≡ some (long id)
  pub name_is : map_lookup (object fs) (codes "methodName") ≡ some (string name)

abbrev pub info_of : Fields → ℤ → Bytes → RequestInfo
info_of fs id name = record {
  method_name = c_str name;
  req_id = id;
  args = map_lookup (object fs) (codes "args");
}

request_cells :
    {fs : Fields} {id : ℤ} {name : Bytes}
    → IsRequest fs id name
    → safe_get_arg_values (some (object fs)) (id_arg ∷ text_arg "methodName" ∷ [])
      ≡ (long_int id ∷ g_string name ∷ [], none)
unfolding get_value
request_cells {fs} r =
    safe_get_arg_values-written fs (id_arg ∷ text_arg "methodName" ∷ [])
      (rw (r.id_is, r.name_is) refl)
    ∙ rw (r.id_is, r.name_is) refl

extract-IsRequest :
    {fs : Fields} {id : ℤ} {name : Bytes}
    → IsRequest fs id name
    → (s : Sys) → extract_request_info (object fs) s ≡ (ok (some (info_of fs id name)), s)
unfolding extract_request_info read_info c_text_at long_at text_at
extract-IsRequest {fs} r s = ap (λ cells. read_info (object fs) cells s) (request_cells r)

read_info_error :
    (req : Json) (s : Sys) (cells : List Cell × Option GError) {e : GError}
    → cells.1 ≡ some e
    → read_info req cells s ≡ (ok none, s)
unfolding read_info
read_info_error req s (cs, none) e = cc
read_info_error req s (cs, some g) e = refl

-- A request that lacks its id or the name of the method is dropped: nothing is called and no
-- response is pushed.
pub serv_request-dropped :
    (os : Os) (fuel : ℕ) (fs : Fields) (s : Sys) {n : Bytes}
    → first_missing fs (codes "id" ∷ codes "methodName" ∷ []) ≡ some n
    → serv_request os fuel (object fs) s ≡ (ok none, s)
unfolding serv_request extract_request_info
serv_request-dropped os fuel fs s e =
    let m : (safe_get_arg_values (some (object fs)) (id_arg ∷ text_arg "methodName" ∷ [])).1
        ≡ some (arg_missing _) =
      safe_get_arg_values-missing fs (id_arg ∷ text_arg "methodName" ∷ []) ∙ ap missing_error e in
    rw
      (
        read_info_error (object fs) s
            (safe_get_arg_values (some (object fs)) (id_arg ∷ text_arg "methodName" ∷ [])) m,
        serv_request,
        extract_request_info,
      )
      refl

pub serv_request-none :
    (os : Os) (fuel : ℕ) (fs : Fields) (id : ℤ) (name : Bytes) (s : Sys)
    → IsRequest fs id name
    → get_callback os fuel (c_str name) ≡ none
    → serv_request os fuel (object fs) s
      ≡ (ok (some (build_response id (some (no_such_method (c_str name))) (some (object end)))), s)
unfolding serv_request
serv_request-none os fuel fs id name s r e = rw (extract-IsRequest r s, e) refl

-- A request for a method of the table is answered under its id with what the method returned: its
-- result, an empty map if that is NULL, and its error.
pub serv_request-answers :
    (os : Os) (fuel : ℕ) (fs : Fields) (id : ℤ) (name : Bytes) (s : Sys) {c : Callback}
    {reply : Reply}
    → IsRequest fs id name
    → get_callback os fuel (c_str name) ≡ some c
    → caught (c (map_lookup (object fs) (codes "args")) s).0 ≡ ok reply
    → serv_request os fuel (object fs) s ≡ (
      ok (some (build_response id reply.error (some (or_empty_map reply.result)))),
      (c (map_lookup (object fs) (codes "args")) s).1,
    )
unfolding serv_request call
serv_request-answers os fuel fs id name s r e o = rw (extract-IsRequest r s, e, o) refl

-- A request for a method whose args lack a name that it requires is answered under its id with
-- EINVAL and the message for the first such name, and nothing is called.
pub serv_request-refuses :
    (os : Os) (fuel : ℕ) (fs args : Fields) (id : ℤ) (name : Bytes) (s : Sys) {c : Callback}
    {ns : List Bytes} {n : Bytes}
    → IsRequest fs id name
    → map_lookup (object fs) (codes "args") ≡ some (object args)
    → get_callback os fuel (c_str name) ≡ some c
    → find_callback required (c_str name) ≡ some ns
    → first_missing args ns ≡ some n
    → serv_request os fuel (object fs) s
      ≡ (ok (some (build_response id (some (arg_missing n)) (some (object end)))), s)
serv_request-refuses os fuel fs args id name s {c} {ns} {n} r a e q m =
    let refused : c (map_lookup (object fs) (codes "args")) s ≡ (fail (arg_missing n), s) =
      ap (λ z. c z s) a ∙ callback_refuses os fuel (c_str name) e q args s n m in
    serv_request-answers os fuel fs id name s
      {reply = record { result = none; error = some (arg_missing n) }} r e
      (ap (λ z. caught z.0) refused)
    ∙ ap (λ z. (ok (some (build_response id (some (arg_missing n)) (some (object end)))), z.1))
        refused

pub build_response-fields :
    (id : ℤ) (err : Option GError) (result : Option Json)
    → (map_lookup (build_response id err result) (codes "id") ≡ some (long id))
      × (map_lookup (build_response id err result) (codes "errcode")
          ≡ some (long (pos (code_of err))))
      × (map_lookup (build_response id err result) (codes "errstr")
          ≡ some (string (c_str (text_of err))))
      × (map_lookup (build_response id err result) (codes "result") ≡ some (or_empty_map result))
unfolding build_response map_lookup map_of insert_all map_insert insert lookup new_string c_str
    bytes_eq
build_response-fields id err result = (refl, refl, refl, refl)

-- What the refusal of a request says, by what its id is.
abbrev pub Refused : Os → Option Json → Step Json → Type 0
Refused os none r =
    r ≡ ok (build_response (negsuc 0) (some (error_from_errno os general_error eagain)) none)
Refused os (some (long id)) r =
    r ≡ ok (build_response id (some (error_from_errno os general_error eagain)) none)
Refused os (some (double d)) r =
    r ≡ ok (build_response (negsuc 0) (some (error_from_errno os general_error eagain)) none)
Refused os (some null) r = r ≡ fault
Refused os (some (boolean b)) r = r ≡ fault
Refused os (some (string t)) r = r ≡ fault
Refused os (some (object fs)) r = r ≡ fault
Refused os (some (array xs)) r = r ≡ fault

id_cell : Option Json → Cell
id_cell none = long_int (negsuc 0)
id_cell (some v) = get_value v (long_int (negsuc 0))

id_cells :
    (fs : Fields) (o : Option Json)
    → map_lookup (object fs) (codes "id") ≡ o
    → (safe_get_arg_values (some (object fs)) (id_arg ∷ [])).0 ≡ id_cell o ∷ []
unfolding safe_get_arg_values id_cell
id_cells fs none e =
    rw (value_missing fs (codes "id") jt_long (long_int (negsuc 0)) e, safe_get_arg_values)
      (ap (λ z. z.0 ∷ []) (value_missing fs (codes "id") jt_long (long_int (negsuc 0)) e))
id_cells fs (some v) e =
    rw (value_found fs (codes "id") jt_long (long_int (negsuc 0)) e, safe_get_arg_values)
      (ap (λ z. z.0 ∷ []) (value_found fs (codes "id") jt_long (long_int (negsuc 0)) e))

-- The response to a request that finds the queue full has the code EAGAIN and the id of the
-- request, -1 if it has none or one that is a double; an id of another type is read as a `long`
-- that was not written as one. Nothing is called.
pub serv_queue_full-Refused :
    (os : Os) (fs : Fields) (s : Sys)
    → Refused os (map_lookup (object fs) (codes "id")) (serv_queue_full os (object fs) s).0
      × ((serv_queue_full os (object fs) s).1 ≡ s)
unfolding serv_queue_full long_at id_cell get_value
serv_queue_full-Refused os fs s = by_id (map_lookup (object fs) (codes "id")) refl
  where
    by_id :
        (o : Option Json)
        → map_lookup (object fs) (codes "id") ≡ o
        → Refused os o (serv_queue_full os (object fs) s).0
          × ((serv_queue_full os (object fs) s).1 ≡ s)
    by_id none e = rw (id_cells fs none e, serv_queue_full, long_at) (refl, refl)
    by_id (some (long id)) e =
        rw (id_cells fs (some (long id)) e, serv_queue_full, long_at) (refl, refl)
    by_id (some (double d)) e =
        rw (id_cells fs (some (double d)) e, serv_queue_full, long_at) (refl, refl)
    by_id (some null) e = rw (id_cells fs (some null) e, serv_queue_full, long_at) (refl, refl)
    by_id (some (boolean b)) e =
        rw (id_cells fs (some (boolean b)) e, serv_queue_full, long_at) (refl, refl)
    by_id (some (string t)) e =
        rw (id_cells fs (some (string t)) e, serv_queue_full, long_at) (refl, refl)
    by_id (some (object m)) e =
        rw (id_cells fs (some (object m)) e, serv_queue_full, long_at) (refl, refl)
    by_id (some (array xs)) e =
        rw (id_cells fs (some (array xs)) e, serv_queue_full, long_at) (refl, refl)
