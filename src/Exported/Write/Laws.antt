-- ===== src/Exported/Write/Laws.antt =====
-- What `exp_writefile` has written when it returns.
use ioprocess.Base.{
  ℕ, ℤ, ◌≤◌, Bytes, Option, none, some, [], ◌∷◌, ◌++◌, ◌≡◌, refl, ◌∙◌, arith, length, codes, c_str,
  is_zero,
}
use ioprocess.Dom.{Fields, object, string, boolean, map_lookup}
use ioprocess.Sys.{
  Os, Sys, Step, ok, fail, fault, exited, hung, and_then, sys, done, Act, ◌>>=◌, Reply, GError,
  open_file, close, pure,
}
use ioprocess.Args.{get_args, get_value, g_string, int}
use ioprocess.Args.Laws.{get_args-written}
use ioprocess.Exported.Write.{
  write_decoded, write_opened, writefile_args, exp_writefile, direct_flags, replace_flags,
  replace_mode,
}
use ioprocess.Exported.Write.Wrote.{
  WrotePart, Wrote, WritesProgress, written_to, write_decoded-Wrote,
}

module _ (os : Os) (fd : ℕ) where
  -- What a reply says of the bytes behind `base`.
  abbrev pub Delivered : Bytes → Bytes → Step Reply × Sys → Type 0
  Delivered base bytes (ok r, s) = (r.result ≡ none) × elim r.error [
    | none ↦ written_to fd s.trace ≡ base ++ bytes
    | some e ↦ WrotePart os fd base bytes s.trace
  ]
  Delivered base bytes (fail e, s) = ⊥
  Delivered base bytes (fault, s) = ⊥
  Delivered base bytes (exited, s) = ⊥
  Delivered base bytes (hung, s) = ⊥

  close-written : (s : Sys) → written_to fd (sys os (close fd) s).1.trace ≡ written_to fd s.trace
  unfolding sys written_to
  close-written s = ground arith

  close_then :
      (r : Reply) (s : Sys)
      → (sys os (close fd) >>= λ rv. pure r) s ≡ (ok r, (sys os (close fd) s).1)
  unfolding sys
  close_then r s = ground arith

  abbrev closing : Option GError → Act Reply
  closing err = sys os (close fd) >>= λ rv. pure (record { result = none; error = err })

  closing-Delivered :
      (base bytes : Bytes) (r : Step (Option GError) × Sys)
      → Wrote os fd base bytes r
      → Delivered base bytes (and_then r closing)
  closing-Delivered base bytes (ok none, s) w =
      rw (close_then (record { result = none; error = none }) s) (refl, close-written s ∙ w)
  closing-Delivered base bytes (ok (some e), s) ((sent, unsent, p, q), m) =
      rw (close_then (record { result = none; error = some e }) s)
        (refl, (sent, unsent, p, close-written s ∙ q))
  closing-Delivered base bytes (fail e, s) w = w
  closing-Delivered base bytes (fault, s) w = w
  closing-Delivered base bytes (exited, s) w = w
  closing-Delivered base bytes (hung, s) w = w

-- The variables of `exp_writefile` for well-typed arguments.
writefile_cells :
    (fs : Fields) (s : Sys) (path text : Bytes) (direct : ℤ)
    → map_lookup (object fs) (codes "path") ≡ some (string path)
    → map_lookup (object fs) (codes "data") ≡ some (string text)
    → map_lookup (object fs) (codes "direct") ≡ some (boolean direct)
    → get_args (some (object fs)) writefile_args s
      ≡ (ok (g_string path ∷ g_string text ∷ int direct ∷ []), s)
unfolding get_value
writefile_cells fs s path text direct p d b =
    get_args-written fs writefile_args s (rw (p, d, b)) ∙ rw (p, d, b)

write_opened_delivers :
    (os : Os) (fuel fd : ℕ) (path text : Bytes) (direct : ℤ) (s : Sys)
    → WritesProgress os fd
    → length (os.base64_decode (c_str text)) ≤ fuel
    → Delivered os fd
        (written_to fd s.trace)
        (os.base64_decode (c_str text))
        (write_opened os fuel (g_string path ∷ g_string text ∷ int direct ∷ []) direct (some fd) s)
unfolding write_opened
write_opened_delivers os fuel fd path text direct s progress h =
    closing-Delivered os fd (written_to fd s.trace) (os.base64_decode (c_str text))
      (write_decoded os fuel fd (is_zero direct) (os.base64_decode (c_str text)) s)
      (write_decoded-Wrote os fd progress fuel (is_zero direct) (os.base64_decode (c_str text)) s h)

-- With well-typed arguments, a file that opens, writes that make progress and fuel for every byte,
-- `writefile` returns. Without an error it has written the decoded data to the file, behind what
-- was written to that descriptor before; with one it has written a first part of them.
pub exp_writefile_delivers :
    (os : Os) (fuel fd : ℕ) (fs : Fields) (s : Sys) (path text : Bytes) (direct : ℤ)
    → map_lookup (object fs) (codes "path") ≡ some (string path)
    → map_lookup (object fs) (codes "data") ≡ some (string text)
    → map_lookup (object fs) (codes "direct") ≡ some (boolean direct)
    → os.answer s.trace
        (open_file (c_str path) (direct_flags replace_flags direct) (some replace_mode))
      ≡ done fd
    → WritesProgress os fd
    → length (os.base64_decode (c_str text)) ≤ fuel
    → Delivered os fd
        (written_to fd s.trace)
        (os.base64_decode (c_str text))
        (exp_writefile os fuel (some (object fs)) s)
unfolding exp_writefile sys written_to
exp_writefile_delivers os fuel fd fs s path text direct p d b opened progress h =
    rw (writefile_cells fs s path text direct p d b, opened)
      (write_opened_delivers os fuel fd path text direct _ progress h)
