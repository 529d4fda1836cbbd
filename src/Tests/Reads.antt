-- ===== src/Tests/Reads.antt =====
-- A system whose file has three bytes, of which a read gives two, and whose encoding is the text
-- itself.
use ioprocess.Base.{
  pos, Bytes, some, List, [], ◌∷◌, ◌++◌, codes, ◌≡◌, refl, sym, ◌∙◌, arith, append_assoc,
  append-nil,
}
use ioprocess.Dom.{object}
use ioprocess.Sys.{Os, fstat}
use ioprocess.Exported.Read.{Progress, start, encode_chunk, exp_readfile}
use ioprocess.Exported.Read.Loop.{encode_all, received}
use ioprocess.Exported.Read.Encoding.{joined, Incremental}
use ioprocess.Exported.Read.Laws.{ReadBack, opened, exp_readfile_returns}
use ioprocess.Tests.Methods.{path_given, direct_given}
use ioprocess.Tests.System
use ioprocess.Tests.System.{small, no_stat, file_args}

abbrev three_bytes : Os
three_bytes = record small {
  data_of = λ t c. codes "ab";
  stat_of = λ t c. record no_stat { size = pos 3 };
}

abbrev same_text : Bytes → Bytes
same_text b = b

text_joined :
    (chunks : List Bytes) (p : Progress)
    → (encode_all three_bytes p chunks).text ≡ p.text ++ joined chunks
unfolding joined encode_chunk
text_joined [] p = sym (append-nil p.text)
text_joined (c ∷ cs) p =
    text_joined cs (encode_chunk three_bytes c p) ∙ append_assoc p.text c (joined cs)

three_bytes-Incremental : Incremental three_bytes same_text
three_bytes-Incremental = record {
  in_steps = λ chunks h. append-nil _ ∙ text_joined chunks start;
  of_nothing = refl;
  step_nothing = λ p. refl;
}

exp_readfile_returns_example :
    ReadBack three_bytes same_text 7
      (three_bytes.stat_of (opened (codes "/a") (pos 0) 7 System.start).trace (fstat 7)).size
      (received three_bytes 7 System.start.trace)
      (exp_readfile three_bytes 3 (some (object file_args)) System.start)
exp_readfile_returns_example =
    exp_readfile_returns three_bytes same_text three_bytes-Incremental 3 7 file_args System.start
      (codes "/a") (pos 0) path_given direct_given refl (λ t n l e. omega arith)
      (λ t t'. omega arith) (λ t. omega arith)
