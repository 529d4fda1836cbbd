-- ===== src/Exported/Read/Loop.antt =====
-- What the loop of `exp_readfile` reads and encodes.
use ioprocess.Base.{
  ℕ, ℤ, pos, negsuc, zero, suc, ◌+◌, ◌≤◌, ◌<◌, ◌^◌, Bytes, true, false, Option, none, some, List,
  [], ◌∷◌, ◌++◌, ◌≡◌, refl, sym, ◌∙◌, arith, ◌==◌, ltb, if◌then◌else◌, take, length, length-take,
  append_assoc, append-nil, Bool-cases, inl, inr, ap,
}
use mathlib.Core.Path.{subst}
use ioprocess.Sys.{
  Os, Sys, Step, ok, fail, fault, exited, hung, and_then, sys_read, finish_read, Call, Answer, done,
  failed, Trace, Act, general_error, error_from_errno, errno_of, read, pure, note, undefined, ◌>>=◌,
}
use ioprocess.Exported.Common.{errno_error}
use ioprocess.Exported.Read.{Progress, Outcome, broken, complete, is_below, encode_chunk, read_loop}

abbrev pub size_of : ℤ → ℕ
size_of (pos n) = n
size_of (negsuc n) = 0

module _ (os : Os) where
  -- The loop's encoding of chunks that were read.
  abbrev pub encode_all : Progress → List Bytes → Progress
  encode_all p [] = p
  encode_all p (c ∷ cs) = encode_all (encode_chunk os c p) cs

module _ (os : Os) (fd : ℕ) where
  abbrev pub received_by : Trace → Call → Answer → List Bytes → List Bytes
  received_by t (read g count) (done n) chunks =
      if g == fd then chunks ++ (take count (os.data_of t (read g count)) ∷ []) else chunks
  received_by t c a chunks = chunks

  -- What the calls of `read` on a descriptor gave, one after the other.
  unfoldable pub received : Trace → List Bytes
  received [] = []
  received (e ∷ t) = received_by t e.call e.answer (received t)

  abbrev pub bytes_of : List Bytes → ℕ
  bytes_of [] = 0
  bytes_of (c ∷ cs) = length c + bytes_of cs

  -- While fewer bytes than some limit were read, a successful read gives at least one.
  abbrev pub ReadsProgress : ℕ → ℕ → Type 0
  ReadsProgress buffsize limit =
      (t : Trace) (n : ℕ)
      → bytes_of (received t) < limit
      → os.answer t (read fd buffsize) ≡ done n
      → 0 < length (take buffsize (os.data_of t (read fd buffsize)))

  -- How the loop ends that began with progress `p` and with the chunks `before`.
  abbrev pub Encoded : ℤ → List Bytes → Progress → Step Outcome × Sys → Type 0
  Encoded size before p (ok (complete q), s) =
      (chunks : List Bytes) × (received s.trace ≡ before ++ chunks)
      × (q ≡ encode_all os p chunks)
      × (is_below q.total size ≡ false)
  Encoded size before p (ok (broken none), s) = ⊥
  Encoded size before p (ok (broken (some e)), s) = e ≡ error_from_errno os general_error s.errno
  Encoded size before p (fail e, s) = ⊥
  Encoded size before p (fault, s) = ⊥
  Encoded size before p (exited, s) = ⊥
  Encoded size before p (hung, s) = ⊥

  Encoded-more :
      (size : ℤ) (before : List Bytes) (p : Progress) (c : Bytes) (r : Step Outcome × Sys)
      → Encoded size (before ++ (c ∷ [])) (encode_chunk os c p) r
      → Encoded size before p r
  Encoded-more size before p c (ok (complete q), s) (cs, e, f, g) =
      (c ∷ cs, e ∙ append_assoc before (c ∷ []) cs, f, g)
  Encoded-more size before p c (ok (broken none), s) w = w
  Encoded-more size before p c (ok (broken (some e)), s) w = w
  Encoded-more size before p c (fail e, s) w = w
  Encoded-more size before p c (fault, s) w = w
  Encoded-more size before p c (exited, s) w = w
  Encoded-more size before p c (hung, s) w = w

  loop_done :
      (size : ℤ) (p : Progress) (s : Sys)
      → is_below p.total size ≡ false
      → Encoded size (received s.trace) p (ok (complete p), s)
  loop_done size p s b = ([], sym (append-nil _), refl, b)

  not_below : (n : ℕ) (size : ℤ) → size_of size ≤ n → is_below n size ≡ false
  unfolding is_below
  not_below n (pos m) h = ground arith
  not_below n (negsuc m) h = refl

  below : (n : ℕ) (size : ℤ) → is_below n size ≡ true → n < size_of size
  unfolding is_below
  below n (pos m) h = ground arith
  below n (negsuc m) h = cc

  -- What follows one `read` in the loop.
  abbrev after_read : ℕ → ℕ → ℤ → Progress → Option Bytes → Act Outcome
  after_read fuel buffsize size p rd = elim rd [
    | none ↦ errno_error os general_error >>= λ e. pure (broken e)
    | some chunk ↦
        let q = encode_chunk os chunk p in
        let next = read_loop os fuel fd buffsize size q in
        if ltb q.total (2 ^ 31) then next else undefined
  ]

  chunk_read :
      (fuel buffsize : ℕ) (size : ℤ) (p : Progress) (chunk : Bytes) (s : Sys)
      → p.total + length chunk < 2 ^ 31
      → after_read fuel buffsize size p (some chunk) s
        ≡ read_loop os fuel fd buffsize size (encode_chunk os chunk p) s
  unfolding encode_chunk
  chunk_read fuel buffsize size p chunk s h =
      let small : ltb (p.total + length chunk) (2 ^ 31) ≡ true = ground arith in rw small refl

  more_total :
      (p : Progress) (chunk : Bytes) (fuel : ℕ) {size : ℕ}
      → 0 < length chunk
      → size ≤ suc fuel + p.total
      → size ≤ fuel + (encode_chunk os chunk p).total
  unfolding encode_chunk
  more_total p chunk fuel l h = omega arith

  same_fd : (n : ℕ) → (n == n) ≡ true
  same_fd n = ground arith

  read_received :
      (count n : ℕ) (t : Trace)
      → received (record { call = read fd count; answer = done n } ∷ t)
        ≡ received t ++ (take count (os.data_of t (read fd count)) ∷ [])
  unfolding received
  read_received count n t = rw (same_fd fd) refl

  bytes_of-append :
      (cs : List Bytes) (c : Bytes) → bytes_of (cs ++ (c ∷ [])) ≡ bytes_of cs + length c
  bytes_of-append [] c = omega arith
  bytes_of-append (d ∷ cs) c = omega (arith, bytes_of-append cs c)

  bytes_read :
      (base buffsize : ℕ) (p : Progress) (s : Sys)
      → bytes_of (received s.trace) ≡ base + p.total
      → (let chunk : Bytes = take buffsize (os.data_of s.trace (read fd buffsize)) in
          bytes_of (received (note (read fd buffsize) (done (length chunk)) s).trace)
          ≡ base + (encode_chunk os chunk p).total)
  unfolding encode_chunk
  bytes_read base buffsize p s e =
      let chunk : Bytes = take buffsize (os.data_of s.trace (read fd buffsize)) in
      let r = ap bytes_of (read_received buffsize (length chunk) s.trace) in
      let a = bytes_of-append (received s.trace) chunk in omega arith

  -- With fuel for every byte of the file and a size that leaves room in an `int`, the loop ends: it
  -- has encoded the chunks that were read, until there were as many bytes as the file had, or a read
  -- failed.
  pub read_loop-Encoded :
      (base buffsize : ℕ) (size : ℤ)
      → ReadsProgress buffsize (base + size_of size)
      → size_of size + buffsize ≤ 2 ^ 31
      → (fuel : ℕ) (p : Progress) (s : Sys) → size_of size ≤ fuel + p.total
      → bytes_of (received s.trace) ≡ base + p.total
      → Encoded size (received s.trace) p (read_loop os fuel fd buffsize size p s)
  unfolding read_loop is_below sys_read errno_error errno_of
  read_loop-Encoded base buffsize size progress room zero p s h c =
      let b = not_below p.total size (omega arith) in rw b (loop_done size p s b)
  read_loop-Encoded base buffsize size progress room (suc fuel) p s h c =
      elim (Bool-cases (is_below p.total size)) [
        | inr b ↦ rw b (loop_done size p s b)
        | inl b ↦ rw b (
            by_answer (os.answer s.trace (read fd buffsize)) refl (below p.total size b) (λ t.
              read_loop-Encoded base buffsize size progress room fuel (encode_chunk os chunk p) t))
      ]
    where
      chunk : Bytes
      chunk = take buffsize (os.data_of s.trace (read fd buffsize))

      by_error :
          (e : ℕ)
          → Encoded size (received s.trace) p (
              and_then
                (finish_read os (read fd buffsize) chunk (failed e) s)
                (after_read fuel buffsize size p))
      by_error e = refl

      by_more :
          (before : List Bytes)
          → before ≡ received s.trace ++ (chunk ∷ [])
          → Encoded size before (encode_chunk os chunk p) (
              read_loop os fuel fd buffsize size
                (encode_chunk os chunk p)
                (note (read fd buffsize) (done (length chunk)) s))
          → Encoded size (received s.trace ++ (chunk ∷ [])) (encode_chunk os chunk p) (
              read_loop os fuel fd buffsize size
                (encode_chunk os chunk p)
                (note (read fd buffsize) (done (length chunk)) s))
      by_more before e w =
          subst
            (λ b. Encoded size b (encode_chunk os chunk p) (
              read_loop os fuel fd buffsize size (encode_chunk os chunk p)
                (note (read fd buffsize) (done (length chunk)) s)))
            e w

      by_answer :
          (a : Answer)
          → os.answer s.trace (read fd buffsize) ≡ a
          → p.total < size_of size
          → ((t : Sys)
              → size_of size ≤ fuel + (encode_chunk os chunk p).total
              → bytes_of (received t.trace) ≡ base + (encode_chunk os chunk p).total
              → Encoded size
                  (received t.trace)
                  (encode_chunk os chunk p)
                  (read_loop os fuel fd buffsize size (encode_chunk os chunk p) t))
          → Encoded size (received s.trace) p (
              and_then
                (finish_read os (read fd buffsize) chunk a s)
                (after_read fuel buffsize size p))
      by_answer (failed e) q l ih = by_error e
      by_answer (done n) q l ih =
          let some_byte = progress s.trace n (omega arith) q in
          let most = length-take buffsize (os.data_of s.trace (read fd buffsize)) in
          let t = note (read fd buffsize) (done (length chunk)) s in
          subst (Encoded size (received s.trace) p)
            (sym (chunk_read fuel buffsize size p chunk t (omega arith)))
            (Encoded-more size (received s.trace) p chunk
              (read_loop os fuel fd buffsize size (encode_chunk os chunk p) t)
              (by_more (received t.trace) (read_received buffsize (length chunk) s.trace)
                (ih t (more_total p chunk fuel some_byte h) (bytes_read base buffsize p s c))))
