-- ===== src/Server/Unknown.antt =====
-- A request for a method that does not exist.
use ioprocess.Base.{
  ℕ, ℤ, pos, Bytes, c_str, codes, bytes_eq, bytes_eq_iff, none, some, List, [], ◌∷◌, ◌++◌, ◌≡◌, ◌≢◌,
  refl, ap, ◌∙◌, arith, Bool-cases, inl, inr,
}
use ioprocess.Dom.{Json, Fields, object, end, long, string, map_lookup}
use ioprocess.Sys.{Os, Sys, ok}
use ioprocess.Server.Response.{build_response}
use ioprocess.Server.Table.{Callback, find_callback, exported_functions, get_callback}
use ioprocess.Server.Serve.{serv_request, no_such_method}
use ioprocess.Server.Laws.{IsRequest, serv_request-none, build_response-fields}

-- The methods that a client can name.
abbrev pub methods : List Bytes
methods =
    codes "ping"
    ∷ codes "echo"
    ∷ codes "memstat"
    ∷ codes "crash"
    ∷ codes "stat"
    ∷ codes "lstat"
    ∷ codes "statvfs"
    ∷ codes "access"
    ∷ codes "rename"
    ∷ codes "unlink"
    ∷ codes "rmdir"
    ∷ codes "link"
    ∷ codes "symlink"
    ∷ codes "chmod"
    ∷ codes "readfile"
    ∷ codes "glob"
    ∷ codes "listdir"
    ∷ codes "writefile"
    ∷ codes "lexists"
    ∷ codes "truncate"
    ∷ codes "mkdir"
    ∷ codes "fsyncPath"
    ∷ codes "touch"
    ∷ codes "probe_block_size"
    ∷ []

abbrev pub Differs : Bytes → List Bytes → Type 0
Differs name [] = Unit
Differs name (m ∷ ms) = (m ≢ name) × Differs name ms

abbrev names_of : List (Bytes × Callback) → List Bytes
names_of [] = []
names_of ((m, c) ∷ es) = m ∷ names_of es

find-none :
    (es : List (Bytes × Callback)) (name : Bytes)
    → Differs name (names_of es)
    → find_callback es name ≡ none
unfolding find_callback
find-none [] name d = refl
find-none ((m, c) ∷ es) name (n, d) = elim (Bool-cases (bytes_eq m name)) [
  | inl e ↦ absurd (n ((bytes_eq_iff m name).0 e))
  | inr e ↦ rw e (find-none es name d)
]

unknown-none :
    (os : Os) (fuel : ℕ) (name : Bytes) → Differs name methods → get_callback os fuel name ≡ none
unfolding get_callback exported_functions
unknown-none os fuel name d = find-none (exported_functions os fuel) name d

quote_end : (name : Bytes) → c_str (c_str name ++ codes "'") ≡ c_str name ++ codes "'"
unfolding c_str
quote_end [] = refl
quote_end (b ∷ bs) = ground (arith, quote_end bs)

unknown_text :
    (name : Bytes)
    → c_str (codes "No such method '" ++ (c_str name ++ codes "'"))
      ≡ codes "No such method '" ++ (c_str name ++ codes "'")
unfolding c_str
unknown_text name = ap (λ z. codes "No such method '" ++ z) (quote_end name)

-- A request whose method, up to a NUL, is none of the 24 methods is answered, and nothing is called:
-- the response carries the id of the request, the code 22 (EINVAL), a text that names the method, and
-- an empty map for the result.
pub serv_request-unknown :
    (os : Os) (fuel : ℕ) (fs : Fields) (id : ℤ) (name : Bytes) (s : Sys)
    → IsRequest fs id name
    → Differs (c_str name) methods
    → (response : Json) × (serv_request os fuel (object fs) s ≡ (ok (some response), s))
      × (map_lookup response (codes "id") ≡ some (long id))
      × (map_lookup response (codes "errcode") ≡ some (long (pos 22)))
      × (map_lookup response (codes "errstr")
          ≡ some (string (codes "No such method '" ++ (c_str name ++ codes "'"))))
      × (map_lookup response (codes "result") ≡ some (object end))
serv_request-unknown os fuel fs id name s r d =
    let err = some (no_such_method (c_str name)) in
    let (a, b, c, e) = build_response-fields id err (some (object end)) in
    (
      build_response id err (some (object end)),
      serv_request-none os fuel fs id name s r (unknown-none os fuel (c_str name) d),
      a,
      b,
      c ∙ ap (λ z. some (string z)) (unknown_text name),
      e,
    )
