-- ===== src/Payload.antt =====
-- csenc/decrypt.go: `decryptPipe`, which turns data blocks into plaintext. In the LZ4 case a goroutine
-- copies from a pipe. A `Write` to a pipe returns when its reader has taken every byte, or fails once
-- the reader has closed; so the bytes that the goroutine has taken, and whether its copy loop has
-- ended, determine every result, whatever the scheduling.
pub mod Direct
pub mod Plaintext
pub mod Receives
use cloudsync_decrypt_go.Common.{ℕ, ◌+◌, Bool, List, [], ◌∷◌, ◌++◌}
use cloudsync_decrypt_go.Common.{Option, none, some, ◌==◌, if◌then◌else◌, length}
use cloudsync_decrypt_go.Common.{Error, closed_pipe, not_aes_aligned, final_padding}
use cloudsync_decrypt_go.Common.{inl, inr, Result, ok, err, out_of_fuel}
use cloudsync_decrypt_go.Common.Action.{Action, ◌>>◌, result_of}
use cloudsync_decrypt_go.Io.{Out}
use cloudsync_decrypt_go.Crypto.{Crypto}
use cloudsync_decrypt_go.Lz4.{Lz4}
use cloudsync_decrypt_go.Keys.{evp_kdf}
use cloudsync_decrypt_go.Padding.{unpad_pkcs7, is_unaligned, block_size}

-- `io.MultiWriter(out, plaintextMD5)`: the output, and the bytes that the hash has been fed.
pub record Plain (W : Type 0) : Type 0 where
  pub out : W
  pub md5 : List ℕ

-- The goroutine: its decompressor, the result of its copy loop once that has ended, and its output.
pub record Copier (W Decoder : Type 0) : Type 0 where
  pub dec : Decoder
  pub ended : Option (Option Error)
  pub plain : Plain W

-- Exactly one of `direct` and `pipeW` is set.
pub data Stage (W Decoder : Type 0) : Type 0 where
  direct : Plain W → Stage W Decoder
  piped : Copier W Decoder → Stage W Decoder

-- `doneCh` holds one value: nil from the start where the stage is direct, or what the goroutine sends
-- when its copy loop has ended. `received` counts the receives from it; a second one would never return.
pub record DecryptPipe (W Decoder Mode : Type 0) : Type 0 where
  pub dec : Mode
  pub pending : Option (List ℕ)
  pub stage : Stage W Decoder
  pub received : ℕ

-- What a `Write` to a pipe returns once its reader has closed, `pr.Close()` or `pr.CloseWithError(e)`.
abbrev pub write_error : Option Error → Error
write_error none = closed_pipe
write_error (some e) = e

abbrev pub plain_of : {W Decoder : Type 0} → Stage W Decoder → Plain W
plain_of (direct p) = p
plain_of (piped g) = g.plain

module _ (O : Out) where
  open O use {W, write}

  unfoldable pub multi_write : List ℕ → Plain W → Plain W × Option Error
  multi_write b p = elim (write p.out b).1 [
    | none ↦ (record { out = (write p.out b).0; md5 = p.md5 ++ b }, none)
    | some e ↦ (record p { out = (write p.out b).0 }, some e)
  ]

module _ (O : Out) (L : Lz4) where
  open O use {W}
  open L use {Decoder, dec_new, dec_take, dec_ended, dec_at_eof}

  -- The goroutine takes one byte, and passes on the plaintext that it makes available.
  unfoldable pub copier_take : ℕ → Copier W Decoder → Copier W Decoder
  copier_take b g =
      let t = dec_take g.dec b in
      let m = multi_write O t.1 g.plain in
      if length t.1 == 0 then record g { dec = t.0; ended = dec_ended t.0 } else elim m.1 [
        | none ↦ record { dec = t.0; ended = dec_ended t.0; plain = m.0 }
        | some e ↦ record { dec = t.0; ended = some (some e); plain = m.0 }
      ]

  -- The bytes of one `Write` that are still to be taken; at its end the `Write` has succeeded.
  unfoldable pub copier_feed : List ℕ → Copier W Decoder → Copier W Decoder × Option Error
  copier_feed [] g = (g, none)
  copier_feed (b ∷ bs) g = elim g.ended [
    | some r ↦ (g, some (write_error r))
    | none ↦ copier_feed bs (copier_take b g)
  ]

  -- `pipeW.Write`: an empty slice too waits for the reader, and fails if it has closed.
  unfoldable pub pipe_write : List ℕ → Copier W Decoder → Copier W Decoder × Option Error
  pipe_write b g = elim g.ended [ some r ↦ (g, some (write_error r)) | none ↦ copier_feed b g ]

  -- `writeSink`
  unfoldable pub write_sink : List ℕ → Stage W Decoder → Stage W Decoder × Option Error
  write_sink b (direct p) = (direct (multi_write O b p).0, (multi_write O b p).1)
  write_sink b (piped g) = (piped (pipe_write b g).0, (pipe_write b g).1)

  -- The value of `doneCh` behind `pipeW.Close()`: the result of the copy loop, or the nil of the direct
  -- stage.
  unfoldable pub close_stage : Stage W Decoder → Option Error
  close_stage (direct p) = none
  close_stage (piped g) = elim g.ended [ some r ↦ r | none ↦ dec_at_eof g.dec ]

  -- `abort`: the goroutine, if it still runs, ends with the error.
  unfoldable pub abort_stage : Error → Stage W Decoder → Stage W Decoder
  abort_stage e (direct p) = direct p
  abort_stage e (piped g) = elim g.ended [
    | some r ↦ piped g
    | none ↦ piped (record g { ended = some (some e) })
  ]

module _ (O : Out) (C : Crypto) (L : Lz4) where
  open O use {W}
  open C use {Mode, new_cipher, cbc_decrypter, crypt_blocks}
  open L use {Decoder, dec_new}

  abbrev pub Pipe : Type 0
  Pipe = DecryptPipe W Decoder Mode

  unfoldable pub new_stage : Bool → Plain W → Stage W Decoder
  new_stage use_lz4 p =
      if use_lz4 then piped (record { dec = dec_new; ended = none; plain = p }) else direct p

  unfoldable pub new_decrypt_pipe : List ℕ → Plain W → Bool → Result Pipe
  new_decrypt_pipe session_key p use_lz4 =
      let k = evp_kdf C session_key [] 1 32 block_size in
      elim (new_cipher k.0) [
        | inl e ↦ err e
        | inr block ↦ ok (record {
          dec = cbc_decrypter block k.1;
          pending = none;
          stage = new_stage use_lz4 p;
          received = 0;
        })
      ]

  -- The buffered block, which is not the last one, is written as it is.
  unfoldable pub flush_pending : Action Pipe (Unit {0})
  flush_pending p = elim p.pending [
    | none ↦ (p, ok tt)
    | some b ↦ let r = write_sink O L b p.stage in (record p { stage = r.0 }, result_of r.1)
  ]

  unfoldable pub hold : List ℕ → Action Pipe (Unit {0})
  hold plain p = (record p { pending = some plain }, ok tt)

  unfoldable pub feed : List ℕ → Action Pipe (Unit {0})
  feed cipher_block p =
      let c = crypt_blocks p.dec cipher_block in
      if is_unaligned cipher_block
      then (p, err (not_aes_aligned (length cipher_block)))
      else (flush_pending >> hold c.0) (record p { dec = c.1 })

  -- `<-p.doneCh`
  abbrev pub receive : Pipe → Pipe
  receive p = record p { received = p.received + 1 }

  -- The same under `if p.pipeW != nil`.
  abbrev pub receive_piped : Pipe → Pipe
  receive_piped p = elim p.stage [ direct q ↦ p | piped g ↦ receive p ]

  unfoldable pub abort : Error → Pipe → Pipe
  abort e p = receive_piped (record p { stage = abort_stage O L e p.stage })

  -- The last write of `finish`, and what follows if it fails.
  unfoldable pub write_tail : List ℕ → Action Pipe (Unit {0})
  write_tail tail p =
      let r = write_sink O L tail p.stage in
      elim r.1 [
        | none ↦ (record p { stage = r.0 }, ok tt)
        | some e ↦ (receive_piped (record p { stage = r.0 }), err e)
      ]

  -- The last block loses its padding and is written.
  unfoldable pub finish_pending : Action Pipe (Unit {0})
  finish_pending p = elim p.pending [
    | none ↦ (p, ok tt)
    | some b ↦ elim (unpad_pkcs7 b) [
      | err e ↦ (abort e p, err (final_padding e))
      | out_of_fuel ↦ (p, out_of_fuel)
      | ok tail ↦ write_tail tail p
    ]
  ]

  -- `pipeW.Close()` never fails.
  unfoldable pub finish : Action Pipe (Unit {0})
  finish = finish_pending >> (λ p. (receive p, result_of (close_stage O L p.stage)))
