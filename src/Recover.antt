-- ===== src/Recover.antt =====
-- csenc/decrypt.go: the magic, and the recovery of the session key.
pub mod RoundTrip
use cloudsync_decrypt_go.Common.{ℕ, List}
use cloudsync_decrypt_go.Common.{Option, none, some, eqb, ltb, if◌then◌else◌, codes, length}
use cloudsync_decrypt_go.Common.{
  Error, read_magic, bad_magic, read_magic_checksum, magic_checksum_mismatch, no_recovery_secret,
  key1_not_aligned, key1_padding, rsa_failed, session_not_hex,
}
use cloudsync_decrypt_go.Common.{Result, ok, err, call, map_error, ◌>>=◌, ◌>>◌}
use cloudsync_decrypt_go.Wire.{Source, read_full}
use cloudsync_decrypt_go.Crypto.{Crypto}
use cloudsync_decrypt_go.Hex.{hex_encode, hex_decode}
use cloudsync_decrypt_go.Encoder.{file_magic, magic_checksum_len}
use cloudsync_decrypt_go.Padding.{unpad_pkcs7, is_unaligned, block_size}
use cloudsync_decrypt_go.Keys.{evp_kdf, verify_key_hash}
use cloudsync_decrypt_go.Session.{kdf_rounds}
use cloudsync_decrypt_go.Metadata.{Metadata}

-- `Options`; the password is `none` while nil. The hooks are described where they are called.
pub record Options (PrivateKey : Type 0) : Type 0 where
  pub password : Option (List ℕ)
  pub private_key : Option PrivateKey

-- `if err != nil { return err }` on a check.
abbrev pub require : Option Error → Result (Unit {0})
require none = ok tt
require (some e) = err e

module _ (C : Crypto) where
  open C use {md5, new_cipher, cbc_decrypter, crypt_blocks, oaep_decrypt, PrivateKey}

  -- The reader behind the magic and its checksum.
  unfoldable pub consume_magic : Source → Result Source
  consume_magic r = do
    (head, r) ← map_error read_magic (read_full (length (codes file_magic)) r)
    require (if eqb head (codes file_magic) then none else some bad_magic)
    (tail, r) ← map_error read_magic_checksum (read_full magic_checksum_len r)
    require (
        if eqb (hex_encode (md5 (codes file_magic))) tail
        then none
        else some magic_checksum_mismatch)
    ok r

  -- The case of a password and an `enc_key1`.
  unfoldable pub unwrap_with_password : List ℕ → List ℕ → Metadata → Result (List ℕ)
  unwrap_with_password password key1 m = do
    require (verify_key_hash C m.key1_hash password (codes "password"))
    let k = evp_kdf C password m.salt (kdf_rounds m.salt) 32 block_size
    block ← call (new_cipher k.0)
    require (if is_unaligned key1 then some (key1_not_aligned (length key1)) else none)
    map_error key1_padding (unpad_pkcs7 (crypt_blocks (cbc_decrypter block k.1) key1).0)

  unfoldable pub unwrap_with_rsa : PrivateKey → List ℕ → Result (List ℕ)
  unwrap_with_rsa key key2 = map_error rsa_failed (call (oaep_decrypt key key2))

  -- The switch on what the caller and the stream supply; the password comes first.
  unfoldable pub unwrap :
      Option (List ℕ)
      → Option (List ℕ)
      → Option PrivateKey
      → Option (List ℕ)
      → Metadata
      → Result (List ℕ)
  unwrap (some password) (some key1) rsa_key key2 m = unwrap_with_password password key1 m
  unwrap (some password) none (some key) (some key2) m = unwrap_with_rsa key key2
  unwrap (some password) none (some key) none m = err no_recovery_secret
  unwrap (some password) none none key2 m = err no_recovery_secret
  unwrap none key1 (some key) (some key2) m = unwrap_with_rsa key key2
  unwrap none key1 (some key) none m = err no_recovery_secret
  unwrap none key1 none key2 m = err no_recovery_secret

  unfoldable pub recover_session_key : Options PrivateKey → Metadata → Result (List ℕ)
  recover_session_key o m = do
    sk ← unwrap o.password m.enc_key1 o.private_key m.enc_key2 m
    require (verify_key_hash C m.session_key_hash sk (codes "session_key"))
    if ltb 0 (length m.salt) then map_error session_not_hex (hex_decode sk) else ok sk
