-- ===== src/Payload/Plaintext.antt =====
-- csenc/decrypt.go: what `decryptPipe` without the LZ4 stage has written once it has finished.
use cloudsync_decrypt_go.Common.{
  ℕ, ◌≡◌, sym, ap, ◌∙◌, List, [], ◌∷◌, ◌++◌, arith, Result, length, All, concat,
}
use cloudsync_decrypt_go.Common.Action.{◌>>◌, seq_run}
use mathlib.Core.Path.{subst}
use cloudsync_decrypt_go.Io.{Out}
use cloudsync_decrypt_go.Crypto.{Crypto}
use cloudsync_decrypt_go.Lz4.{Lz4}
use cloudsync_decrypt_go.Padding.{pkcs7_pad}
use cloudsync_decrypt_go.Padding.RoundTrip.{length-pad, length-pad_mod}
use cloudsync_decrypt_go.Encoder.Emits.{Reliable}
use cloudsync_decrypt_go.Pipeline.Sink.{IsChunk}
use cloudsync_decrypt_go.Payload.{Plain, Pipe, finish}
use cloudsync_decrypt_go.Payload.Direct.{
  Completes, feed_blocks, waiting_pipe, feed_first_blocks, finish-Holds,
}

module _ (O : Out) (C : Crypto) (L : Lz4) (reliable : Reliable O) where
  open O use {W}
  open C use {Block, cbc_encrypter, cbc_decrypter, crypt_blocks, length-crypt, decrypt-encrypt}

  -- On an output that never fails, a pipe without the LZ4 stage that is fed the blocks of an encrypted
  -- padded plaintext, cut into chunks of whole AES blocks in any way, and then finished returns no
  -- error, and the output and the hash have received exactly the plaintext.
  pub finish-feed_blocks :
      (block : Block) (iv plain : List ℕ) (cs : List (List ℕ)) (p : Plain W)
      → All IsChunk cs
      → concat cs ≡ (crypt_blocks (cbc_encrypter block iv) (pkcs7_pad plain 16)).0
      → Completes O C L reliable (cbc_decrypter block iv) p plain (
          (feed_blocks O C L reliable (cbc_decrypter block iv) cs >> finish O C L)
            (waiting_pipe O C L reliable (cbc_decrypter block iv) p))
  finish-feed_blocks block iv plain [] p g e = absurd (
      omega (
        arith,
        ap (λ (x : List ℕ). length x) e,
        length-crypt (cbc_encrypter block iv) (pkcs7_pad plain 16) (length-pad_mod plain),
        length-pad plain,
      ))
  finish-feed_blocks block iv plain (c ∷ cs) p g e =
      let start = cbc_decrypter block iv in
      let blocks = feed_blocks O C L reliable start (c ∷ cs) in
      let (b, now, run, v) = feed_first_blocks O C L reliable start p c cs g.0 g.1 in
      let clear : (crypt_blocks start (c ++ concat cs)).0 ≡ pkcs7_pad plain 16 =
        ap (λ (x : List ℕ). (crypt_blocks start x).0) e
        ∙ decrypt-encrypt block iv (pkcs7_pad plain 16) (length-pad_mod plain) in
      let whole =
        seq_run blocks (finish O C L) (waiting_pipe O C L reliable start p)
          (ap (λ (r : Pipe O C L × Result (Unit {0})). r.1) run)
        ∙ ap (λ (r : Pipe O C L × Result (Unit {0})). finish O C L r.0) run in
      subst (Completes O C L reliable start p plain) (sym whole)
        (finish-Holds O C L reliable start p (c ++ concat cs) b plain now v clear)
