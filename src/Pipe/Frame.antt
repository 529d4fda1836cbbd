-- ===== src/Pipe/Frame.antt =====
-- `uint64_t` in memory, and frames.
use ioprocess.Base.{
  ℕ, zero, suc, ◌+◌, ◌*◌, ◌/◌, ◌%◌, ◌^◌, ◌<◌, Bytes, List, [], ◌∷◌, ◌++◌, length, ◌≡◌, refl, arith,
  ap, append_assoc, sym,
}

-- The `n` low bytes of a number, the low byte first.
unfoldable pub le_bytes : ℕ → ℕ → Bytes
le_bytes zero x = []
le_bytes (suc n) x = (x % 256) ∷ le_bytes n (x / 256)

-- `read(fd, &x, 8)` that gives the bytes `bs`: the low bytes of `x` are overwritten.
unfoldable pub overwrite : Bytes → ℕ → ℕ
overwrite [] x = x
overwrite (b ∷ bs) x = b + 256 * overwrite bs (x / 256)

-- `sizeof(uint64_t)`
abbrev pub size_bytes : ℕ
size_bytes = 8

unfoldable pub frame : Bytes → Bytes
unfolding le_bytes
frame message = le_bytes size_bytes (length message) ++ message

unfoldable pub frames : List Bytes → Bytes
unfolding frame
frames [] = []
frames (m ∷ ms) = frame m ++ frames ms

abbrev pub total_length : List Bytes → ℕ
total_length [] = 0
total_length (m ∷ ms) = length m + total_length ms

pub length-le_bytes : (n x : ℕ) → length (le_bytes n x) ≡ n
unfolding le_bytes
length-le_bytes zero x = refl
length-le_bytes (suc n) x = ap suc (length-le_bytes n (x / 256))

-- What is written of a number is read back, whatever the variable held.
pub overwrite-le_bytes :
    (x y : ℕ) → x < 2 ^ 64 → y < 2 ^ 64 → overwrite (le_bytes size_bytes x) y ≡ x
unfolding le_bytes overwrite
overwrite-le_bytes x y h k = omega arith

pub frames-append : (ms ns : List Bytes) → frames (ms ++ ns) ≡ frames ms ++ frames ns
unfolding frames
frames-append [] ns = refl
frames-append (m ∷ ms) ns =
    rw (frames-append ms ns) (sym (append_assoc (frame m) (frames ms) (frames ns)))
