-- ===== src/Exported/Listing/Laws.antt =====
-- What `exp_listdir` lists.
use ioprocess.Base.{
  ℕ, Bytes, c_str, codes, Bool, ◌||◌, bytes_eq, some, List, [], ◌∷◌, ◌≡◌, refl, sym, ap, ◌∙◌, arith,
  if◌then◌else◌, Bool-cases, inl, inr,
}
use ioprocess.Dom.{
  Json, Fields, Items, nil, cons, object, array, string, append, array_append, new_string,
  map_lookup,
}
use ioprocess.Sys.{Os, Sys, ok, sys, done, note, opendir, closedir, trace_of, ◌>>=◌, pure}
use ioprocess.Args.{get_args, get_value, g_string, c_text_at, text_at}
use ioprocess.Args.Laws.{get_args-written}
use ioprocess.Exported.Common.{reply, text_arg}
use ioprocess.Exported.Listing.{list_entry, list_entries, exp_listdir}

abbrev pub is_dots : Bytes → Bool
is_dots name = bytes_eq name (codes ".") || bytes_eq name (codes "..")

-- The names that are neither of the two links to directories, in their order.
abbrev pub visible : List Bytes → List Bytes
visible [] = []
visible (name ∷ names) = if is_dots name then visible names else name ∷ visible names

abbrev pub texts : List Bytes → Items
texts [] = nil
texts (name ∷ names) = cons (string (c_str name)) (texts names)

abbrev joined : Items → Items → Items
joined nil ys = ys
joined (cons x xs) ys = cons x (joined xs ys)

append-joined :
    (xs : Items) (x : Json) (ys : Items) → joined (append xs x) ys ≡ joined xs (cons x ys)
unfolding append
append-joined nil x ys = refl
append-joined (cons z xs) x ys = ap (cons z) (append-joined xs x ys)

joined-nil : (xs : Items) → joined xs nil ≡ xs
joined-nil nil = refl
joined-nil (cons x xs) = ap (cons x) (joined-nil xs)

list_entries-visible :
    (names : List Bytes) (xs : Items) (s : Sys)
    → list_entries names (array xs) s ≡ (ok (array (joined xs (texts (visible names)))), s)
unfolding list_entries list_entry array_append new_string
list_entries-visible [] xs s = ap (λ z. (ok (array z), s)) (sym (joined-nil xs))
list_entries-visible (name ∷ names) xs s = elim (Bool-cases (is_dots name)) [
  | inl e ↦ rw (e, list_entries, list_entry) (list_entries-visible names xs s)
  | inr e ↦
      rw (e, list_entries, list_entry)
        (list_entries-visible names (append xs (string (c_str name))) s
          ∙ ap (λ z. (ok (array z), s))
              (append-joined xs (string (c_str name)) (texts (visible names))))
]

listdir_cells :
    (fs : Fields) (s : Sys) (path : Bytes)
    → map_lookup (object fs) (codes "path") ≡ some (string path)
    → get_args (some (object fs)) (text_arg "path" ∷ []) s ≡ (ok (g_string path ∷ []), s)
unfolding get_value
listdir_cells fs s path p = get_args-written fs (text_arg "path" ∷ []) s (rw p refl) ∙ rw p refl

closed_reply :
    (os : Os) (dp : ℕ) (result : Json) (s : Sys)
    → (sys os (closedir dp) >>= λ rv. pure (reply result)) s
      ≡ (ok (reply result), (sys os (closedir dp) s).1)
unfolding sys
closed_reply os dp result s = ground arith

-- With a path that opens as a directory, `listdir` returns the texts of exactly the names that the
-- directory lists and that are neither "." nor "..", in their order, and the directory is closed.
pub exp_listdir-visible :
    (os : Os) (fs : Fields) (s : Sys) (path : Bytes) (dp : ℕ)
    → map_lookup (object fs) (codes "path") ≡ some (string path)
    → os.answer s.trace (opendir (c_str path)) ≡ done dp
    → (let opened = note (opendir (c_str path)) (done dp) s in
        exp_listdir os (some (object fs)) s ≡ (
          ok (reply (array (texts (visible (os.entries_of opened.trace dp))))),
          (sys os (closedir dp) opened).1,
        ))
unfolding exp_listdir sys c_text_at text_at trace_of
exp_listdir-visible os fs s path dp p e =
    let opened = note (opendir (c_str path)) (done dp) s in
    rw
      (
        listdir_cells fs s path p,
        e,
        list_entries-visible (os.entries_of opened.trace dp) nil opened,
      )
      (closed_reply os dp (array (texts (visible (os.entries_of opened.trace dp)))) opened)
