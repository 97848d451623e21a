-- ===== src/Recover/RoundTrip.antt =====
-- csenc/decrypt.go against csenc/encrypt.go: `recoverSessionKey` undoes the wrapping of `start`.
use cloudsync_decrypt_go.Common.{
  ℕ, ◌<◌, ◌≡◌, ◌∙◌, true, false, List, arith, ltb, if◌then◌else◌, length, All, codes, ok,
  ok_injective, Option, none, some, map_error, session_not_hex,
}
use cloudsync_decrypt_go.Common.{lt→ltb}
use cloudsync_decrypt_go.Wire.{Source}
use cloudsync_decrypt_go.Crypto.{Crypto}
use cloudsync_decrypt_go.Hex.{IsByte, hex_decode, hex_decode-encode}
use cloudsync_decrypt_go.Padding.{pkcs7_pad, is_unaligned, block_size}
use cloudsync_decrypt_go.Padding.RoundTrip.{unpad-pad, pad-aligned, length-pad, length-pad_mod}
use cloudsync_decrypt_go.Keys.{evp_kdf, verify_key_hash}
use cloudsync_decrypt_go.Keys.Laws.{evp_kdf_lengths, verify-salted_digest}
use cloudsync_decrypt_go.Session.{
  EncryptOptions, SessionKeys, kdf_rounds, wrap_with_password, prepare_key1, prepare,
}
use cloudsync_decrypt_go.Session.Prepared.{
  WireForm, plain_key, hex_key, IsDigest, Prepared, prepare-Prepared,
}
use cloudsync_decrypt_go.Metadata.{Metadata}
use cloudsync_decrypt_go.Recover.{unwrap_with_password, unwrap, recover_session_key}

module _ (C : Crypto) where
  open C use {
    PublicKey, PrivateKey, Block, new_cipher, new_cipher_32, cbc_encrypter, cbc_decrypter,
    crypt_blocks, length-crypt, decrypt-encrypt,
  }

  IsDigest-verify :
      (secret h label : List ℕ) → IsDigest C secret h → verify_key_hash C h secret label ≡ none
  IsDigest-verify secret h label d = rw d.same (verify-salted_digest C d.prefix secret label d.ten)

  same_alignment : (a b : List ℕ) → length a ≡ length b → is_unaligned a ≡ is_unaligned b
  same_alignment a b e = rw e

  -- What a password has wrapped, the same password and salt unwrap, if the recorded hash passes.
  unwrap-wrap :
      (password on_wire key1 : List ℕ) (m : Metadata)
      → wrap_with_password C password m.salt on_wire ≡ ok key1
      → verify_key_hash C m.key1_hash password (codes "password") ≡ none
      → unwrap_with_password C password key1 m ≡ ok on_wire
  unfolding wrap_with_password unwrap_with_password
  unwrap-wrap password on_wire key1 m h v =
      let k = evp_kdf C password m.salt (kdf_rounds m.salt) 32 block_size in
      let (block, e) =
        new_cipher_32 k.0 (evp_kdf_lengths C password m.salt (kdf_rounds m.salt) 32 block_size).0 in
      let padded = pkcs7_pad on_wire block_size in
      let same : (crypt_blocks (cbc_encrypter block k.1) padded).0 ≡ key1 =
        ok_injective (rw e at h) in
      let aligned : is_unaligned key1 ≡ false =
        same_alignment key1 padded
          (rw (← same) (length-crypt (cbc_encrypter block k.1) padded (length-pad_mod on_wire)))
        ∙ pad-aligned on_wire in
      rw (
        v,
        e,
        aligned,
        ← same,
        decrypt-encrypt block k.1 padded (length-pad_mod on_wire),
        unpad-pad on_wire,
        unwrap_with_password,
      )

  -- A wrapped key has a block at least.
  pub wrapped_nonempty :
      (password salt on_wire key1 : List ℕ)
      → wrap_with_password C password salt on_wire ≡ ok key1
      → ltb 0 (length key1) ≡ true
  unfolding wrap_with_password
  wrapped_nonempty password salt on_wire key1 h =
      let k = evp_kdf C password salt (kdf_rounds salt) 32 block_size in
      let (block, e) =
        new_cipher_32 k.0 (evp_kdf_lengths C password salt (kdf_rounds salt) 32 block_size).0 in
      let padded = pkcs7_pad on_wire block_size in
      let same : (crypt_blocks (cbc_encrypter block k.1) padded).0 ≡ key1 =
        ok_injective (rw e at h) in
      lt→ltb 0 (length key1) (
        rw (← same, length-crypt (cbc_encrypter block k.1) padded (length-pad_mod on_wire))
          (omega (arith, length-pad on_wire)))

  -- The metadata has recorded what `start` prepared.
  pub record Records (m : Metadata) (s : SessionKeys) : Type 0 where
    pub salt_is : m.salt ≡ s.salt
    pub key1_is : m.enc_key1 ≡ some s.enc_key1
    pub key1_hash_is : m.key1_hash ≡ s.key1_hash
    pub session_hash_is : m.session_key_hash ≡ s.sess_key_hash

  pub password_wrap :
      (o : EncryptOptions PublicKey) (s : SessionKeys)
      → Prepared C o s
      → 0 < length o.password
      → wrap_with_password C o.password s.salt s.on_wire ≡ ok s.enc_key1
  unfolding prepare_key1
  password_wrap o s p n =
      let long : ltb 0 (length o.password) ≡ true = ground arith in
      let h = p.key1 in rw (prepare_key1, long) at h

  -- The last step of `recoverSessionKey` gives the raw key, whichever form it was wrapped in.
  decode_wire :
      (raw salt on_wire : List ℕ)
      → WireForm raw salt on_wire
      → All IsByte raw
      → (if ltb 0 (length salt) then map_error session_not_hex (hex_decode on_wire) else ok on_wire)
        ≡ ok raw
  decode_wire raw salt on_wire (plain_key e w) b = rw (e, w)
  decode_wire raw salt on_wire (hex_key n w) b =
      let long : ltb 0 (length salt) ≡ true = ground arith in rw (long, w, hex_decode-encode raw b)

  -- For options with a password, `recoverSessionKey` on metadata that recorded the key material of
  -- `start` returns, under the same password, the raw session key that `start` drew, in version 1
  -- and in version 3. The raw key has to consist of bytes.
  pub recover-prepare :
      (o : EncryptOptions PublicKey) (rnd : Source) (s : SessionKeys) (rsa_key : Option PrivateKey)
      (m : Metadata)
      → prepare C o rnd ≡ ok s
      → 0 < length o.password
      → All IsByte s.raw
      → Records m s
      → recover_session_key C (record { password = some o.password; private_key = rsa_key }) m
        ≡ ok s.raw
  unfolding recover_session_key unwrap unwrap_with_password
  recover-prepare o rnd s rsa_key m h n b r =
      let p = prepare-Prepared C o rnd s h in
      let wrapped = rw (← r.salt_is) at (password_wrap o s p n) in
      let v₁ =
        rw (← r.key1_hash_is) at
          (IsDigest-verify o.password s.key1_hash (codes "password") (p.password_digest n)) in
      let v₂ =
        rw (← r.session_hash_is) at
          (IsDigest-verify s.on_wire s.sess_key_hash (codes "session_key") p.session_digest) in
      rw
        (
          recover_session_key,
          r.key1_is,
          unwrap,
          unwrap-wrap o.password s.on_wire s.enc_key1 m wrapped v₁,
          v₂,
          r.salt_is,
        )
        (decode_wire s.raw s.salt s.on_wire p.form b)
