-- ===== src/Lz4.antt =====
-- The LZ4 frame codec (github.com/pierrec/lz4, not part of the repository) as csenc uses it.
-- The compressor answers each `Write`, and `Close`, with the writes that it makes to the writer
-- below it. The decompressor takes its input byte by byte from a pipe; after each byte it is either
-- waiting for more or its copy loop has ended.
use cloudsync_decrypt_go.Common.{ℕ, List, [], ◌∷◌, ◌++◌, Option, Error, concat}

pub record Lz4 : Type 1 where
  pub Enc : Type 0
  pub enc_new : Enc
  pub enc_write : Enc → List ℕ → Enc × List (List ℕ)
  pub enc_close : Enc → List (List ℕ)
  pub Decoder : Type 0
  pub dec_new : Decoder
  -- One byte of input, and the plaintext that becomes available with it.
  pub dec_take : Decoder → ℕ → Decoder × List ℕ
  -- `some` once the reader has ended: cleanly behind the frame, or with an error.
  pub dec_ended : Decoder → Option (Option Error)
  -- What the reader returns if its input ends where it waits; `none` is a clean end.
  pub dec_at_eof : Decoder → Option Error

module _ (L : Lz4) where
  open L use {Enc, enc_write, enc_close}

  -- All bytes that the compressor writes for these calls of `Write`, and for `Close` behind them.
  unfoldable pub frame_from : Enc → List (List ℕ) → List ℕ
  frame_from z [] = concat (enc_close z)
  frame_from z (p ∷ ps) =
      let rest = frame_from (enc_write z p).0 ps in concat (enc_write z p).1 ++ rest
