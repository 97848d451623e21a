-- ===== src/Decrypt/OfEncrypt.antt =====
-- csenc/decrypt.go against csenc/encrypt.go: `Decrypt` of an uncompressed stream that `Encrypt` wrote.
use cloudsync_decrypt_go.Common.{
  ℕ, ◌<◌, ◌≡◌, sym, ap, ◌∙◌, false, List, [], ◌++◌, append_assoc, length, concat, eof, ok, Option,
  some, All,
}
use cloudsync_decrypt_go.Wire.{Source}
use cloudsync_decrypt_go.Wire.Emit.{emit}
use cloudsync_decrypt_go.Wire.RoundTrip.{source}
use cloudsync_decrypt_go.Io.{Out}
use cloudsync_decrypt_go.Hex.{IsByte, hex_encode}
use cloudsync_decrypt_go.Crypto.{Crypto}
use cloudsync_decrypt_go.Lz4.{Lz4}
use cloudsync_decrypt_go.Padding.{pkcs7_pad}
use cloudsync_decrypt_go.Session.{EncryptOptions, SessionKeys, compress_on, rand, prepare}
use cloudsync_decrypt_go.Recover.{Options}
use cloudsync_decrypt_go.Encoder.Dicts.{HasNumbers, leading_value, final_value}
use cloudsync_decrypt_go.Encoder.Emits.{Reliable}
use cloudsync_decrypt_go.Pipeline.Sink.{data_bytes}
use cloudsync_decrypt_go.Writer.{handed, concat-handed, Input, leading_metadata, encrypt}
use cloudsync_decrypt_go.Writer.Encrypt.{
  HasMinor, encrypt-Stream, encrypt_accepted, numbers_of, new_writer_ok,
}
use mathlib.Core.Path.{subst}
use cloudsync_decrypt_go.Writer.Start.{data_key, head_bytes, magic_bytes}
use cloudsync_decrypt_go.Writer.Complete.{Stream, payload_plain}
use cloudsync_decrypt_go.Decrypt.{start_state, decrypt_stream, decrypt}
use cloudsync_decrypt_go.Decrypt.Magic.{consume_magic_lem}
use cloudsync_decrypt_go.Decrypt.Restore.{meta_of, Restores}
use cloudsync_decrypt_go.Decrypt.Stream.{decrypt_stream-Restores}

-- `Decrypt` under the same password, of what `Encrypt` without compression wrote to an empty output.
module _ (W₂ : Out) (O : Out) (C : Crypto) (L : Lz4) (crand : Source)
    (o : EncryptOptions C.PublicKey) (reliable : Reliable O) where
  open O use {W}
  open C use {PrivateKey}

  pub Stream-decrypt :
      (ps : List (List ℕ)) (out out' : W₂.W) (sink : W) (rsa_key : Option PrivateKey)
      → (s : Stream W₂ C L crand o out ps out') → HasNumbers (leading_metadata W₂ C L o s.keys)
      → compress_on o ≡ false
      → 0 < length o.password
      → All IsByte (rand crand o).bytes
      → W₂.written out ≡ []
      → Restores O C L sink (concat ps) (meta_of W₂ C L o s.keys) (
          decrypt O C L
            (source (W₂.written out') eof)
            sink
            (record { password = some o.password; private_key = rsa_key }))
  Stream-decrypt ps out out' sink rsa_key s numbers plain_mode has_password random_bytes empty =
      let asked : Options PrivateKey = record {
        password = some o.password;
        private_key = rsa_key;
      } in
      let tail = data_bytes s.chunks ++ emit (final_value (hex_encode (C.md5 (concat ps)))) in
      let lead = emit (leading_value C.base64_encode (leading_metadata W₂ C L o s.keys)) in
      let input : W₂.written out' ≡ magic_bytes C.md5 ++ (lead ++ tail) =
        s.wrote
        ∙ ap (λ (b : List ℕ). (b ++ head_bytes W₂ C L o s.keys) ++ tail) empty
        ∙ append_assoc (magic_bytes C.md5) lead tail in
      let payload =
        s.holds
        ∙ ap
            (λ (b : List ℕ).
              (C.crypt_blocks (C.cbc_encrypter s.block (data_key W₂ C L s.keys.raw).1)
                (pkcs7_pad b 16)).0)
            (payload_plain L (compress_on o) ps plain_mode) in
      subst
        (λ (b : List ℕ).
          Restores O C L sink (concat ps) (meta_of W₂ C L o s.keys)
            (decrypt O C L (source b eof) sink asked))
        (sym input)
        (subst (Restores O C L sink (concat ps) (meta_of W₂ C L o s.keys))
          (sym (behind_magic (lead ++ tail) asked))
          (decrypt_stream-Restores O C L reliable W₂ crand o s.keys s.block ps sink rsa_key
            s.prepared s.cipher numbers plain_mode has_password random_bytes s.chunks s.head_fits
            s.final_fits s.good payload))
    where
      behind_magic :
          (b : List ℕ) (asked : Options PrivateKey)
          → decrypt O C L (source (magic_bytes C.md5 ++ b) eof) sink asked
            ≡ decrypt_stream O C L asked (source b eof) (start_state O C L sink)
      behind_magic b asked = unfold decrypt in rw (consume_magic_lem C b eof, decrypt)

  -- For options with a password and no compression, a minor version that is an int64 value and not
  -- negative, a random source of bytes and an output that starts empty: if `Encrypt` returned no
  -- error, then `Decrypt` of what it has written, under the same password, returns no error on a sink
  -- that never fails, has written exactly the plaintext, and has
  -- announced once the metadata that records the key material.
  pub decrypt-encrypt :
      (inp : Input) (out : W₂.W) (sink : W) (rsa_key : Option PrivateKey)
      → HasMinor o
      → compress_on o ≡ false
      → 0 < length o.password
      → All IsByte (rand crand o).bytes
      → W₂.written out ≡ []
      → (encrypt W₂ C L crand inp out o).1 ≡ ok tt
      → (s : SessionKeys) × (prepare C o (rand crand o) ≡ ok s)
        × Restores O C L sink (concat inp.reads) (meta_of W₂ C L o s) (
            decrypt O C L
              (source (W₂.written (encrypt W₂ C L crand inp out o).0) eof)
              sink
              (record { password = some o.password; private_key = rsa_key }))
  decrypt-encrypt inp out sink rsa_key m plain_mode has_password random_bytes empty h =
      let s = encrypt-Stream W₂ C L crand inp out o m h in
      let (w, accepted) = encrypt_accepted W₂ C L crand inp out o h in
      let numbers =
        numbers_of W₂ C L crand out o m (new_writer_ok W₂ C L crand out o w accepted).1 in
      (
        s.keys,
        s.prepared,
        subst
            (λ (b : List ℕ). Restores O C L sink b (meta_of W₂ C L o s.keys) (
              decrypt O C L (source (W₂.written (encrypt W₂ C L crand inp out o).0) eof) sink
                (record { password = some o.password; private_key = rsa_key })))
            (concat-handed inp.reads)
            (Stream-decrypt (handed inp.reads) out (encrypt W₂ C L crand inp out o).0 sink rsa_key s
              (numbers s.keys) plain_mode has_password random_bytes empty),
      )
