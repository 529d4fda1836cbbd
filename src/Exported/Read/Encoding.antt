-- ===== src/Exported/Read/Encoding.antt =====
-- What `exp_readfile` makes of the chunks that it reads, and the whole encoding.
use ioprocess.Base.{
  ℕ, zero, suc, ◌+◌, ◌<◌, Bytes, true, List, [], ◌∷◌, ◌++◌, ◌≡◌, refl, sym, ap, ◌∙◌, arith, length,
  length-append, ltb, append-nil,
}
use native.Mathlib.Nat.{zero-add}
use ioprocess.Sys.{Os}
use ioprocess.Exported.Read.{Progress, start, encode_chunk, encoded}
use ioprocess.Exported.Read.Loop.{encode_all}

-- The bytes of a list of chunks.
unfoldable pub joined : List Bytes → Bytes
joined [] = []
joined (c ∷ cs) = c ++ joined cs

-- What glib says of `g_base64_encode_step` and `g_base64_encode_close`: a text that is encoded in
-- steps is the encoding of the whole, and no bytes have no encoding.
pub record Incremental (os : Os) (encode : Bytes → Bytes) : Type 0 where
  pub in_steps :
      (chunks : List Bytes)
      → 0 < length (joined chunks)
      → (encode_all os start chunks).text ++ os.encode_close (encode_all os start chunks).b64
        ≡ encode (joined chunks)
  pub of_nothing : encode [] ≡ []
  pub step_nothing : (p : Progress) → os.encode_step [] p.b64 ≡ ([], p.b64)

module _ (os : Os) where
  pub total-encode_all :
      (chunks : List Bytes) (p : Progress)
      → (encode_all os p chunks).total ≡ p.total + length (joined chunks)
  unfolding encode_chunk joined
  total-encode_all [] p = omega arith
  total-encode_all (c ∷ cs) p =
      let rest = total-encode_all cs (encode_chunk os c p) in
      let split = length-append c (joined cs) in omega arith

module _ (os : Os) (encode : Bytes → Bytes) (spec : Incremental os encode) where
  text-nothing :
      (chunks : List Bytes) (p : Progress)
      → length (joined chunks) ≡ 0
      → (encode_all os p chunks).text ≡ p.text
  unfolding encode_chunk joined
  text-nothing [] p h = refl
  text-nothing ([] ∷ cs) p h =
      text-nothing cs (encode_chunk os [] p) h ∙ rw (spec.step_nothing p) (append-nil p.text)
  text-nothing ((b ∷ c) ∷ cs) p h = ground arith

  joined-nothing : (bytes : Bytes) → length bytes ≡ 0 → bytes ≡ []
  joined-nothing [] h = refl
  joined-nothing (b ∷ bytes) h = ground arith

  pub encoded-encode_all :
      (chunks : List Bytes) → encoded os (encode_all os start chunks) ≡ encode (joined chunks)
  unfolding encoded
  encoded-encode_all chunks =
      by_total (length (joined chunks)) refl (total-encode_all os chunks start ∙ zero-add _)
    where
      by_total :
          (n : ℕ)
          → length (joined chunks) ≡ n
          → (encode_all os start chunks).total ≡ length (joined chunks)
          → encoded os (encode_all os start chunks) ≡ encode (joined chunks)
      by_total zero e t =
          rw (t, e)
            (text-nothing chunks start e
              ∙ sym (ap encode (joined-nothing (joined chunks) e) ∙ spec.of_nothing))
      by_total (suc n) e t =
          let some_byte : ltb 0 (encode_all os start chunks).total ≡ true = ground arith in
          rw some_byte (spec.in_steps chunks (omega arith))
