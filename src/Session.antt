-- ===== src/Session.antt =====
-- csenc/encrypt.go: the encryption options, and the key material that `start` prepares before it
-- writes anything. The random source is the reader of csenc/wire.go's model.
pub mod Prepared
use cloudsync_decrypt_go.Common.{
  ℕ, zero, suc, ◌+◌, ◌/◌, ◌%◌, Bool, true, false, List, [], ◌∷◌, ◌&&◌,
}
use cloudsync_decrypt_go.Common.{Option, none, some, ltb, leb, if◌then◌else◌, length, take, codes}
use cloudsync_decrypt_go.Common.{random_session_key, rsa_failed, Result, ok, map_error, call, ◌>>=◌}
use cloudsync_decrypt_go.Common.Signed.{ℤ, pos, negsuc, is_pos}
use cloudsync_decrypt_go.Wire.{Source, read_full}
use cloudsync_decrypt_go.Crypto.{Crypto}
use cloudsync_decrypt_go.Hex.{hex_encode}
use cloudsync_decrypt_go.Keys.{evp_kdf, salted_digest}
use cloudsync_decrypt_go.Padding.{pkcs7_pad, block_size}

pub record EncryptOptions (PublicKey : Type 0) : Type 0 where
  pub password : List ℕ
  pub public_key : Option PublicKey
  pub opt_major : ℤ
  pub opt_minor : ℤ
  pub filename : List ℕ
  pub compress : Option Bool
  pub opt_rand : Option Source

-- `z >= n` for a constant that is not negative.
abbrev pub at_least : ℤ → ℕ → Bool
at_least (pos m) n = leb n m
at_least (negsuc m) n = false

module _ {K : Type 0} where
  unfoldable pub major : EncryptOptions K → ℤ
  major o = if is_pos o.opt_major 0 then pos 3 else o.opt_major

  unfoldable pub minor : EncryptOptions K → ℤ
  minor o = if is_pos o.opt_major 0 && is_pos o.opt_minor 0 then pos 1 else o.opt_minor

  -- `crand` is crypto/rand.Reader.
  unfoldable pub rand : Source → EncryptOptions K → Source
  rand crand o = elim o.opt_rand [ some r ↦ r | none ↦ crand ]

  unfoldable pub compress_on : EncryptOptions K → Bool
  compress_on o = elim o.compress [ none ↦ true | some b ↦ b ]

unfoldable pub bool_as_int : Bool → ℤ
bool_as_int true = pos 1
bool_as_int false = pos 0

abbrev pub at : List ℕ → ℕ → ℕ
at [] i = 0
at (x ∷ xs) zero = x
at (x ∷ xs) (suc i) = at xs i

abbrev pub alphabet : List ℕ
unfolding codes
alphabet = codes "ABCDEFGHIJKLMNOPQRSTUVWXYZabcdefghijklmnopqrstuvwxyz0123456789"

unfoldable pub pick_letters : List ℕ → List ℕ
pick_letters [] = []
pick_letters (b ∷ bs) = at alphabet (b % 62) ∷ pick_letters bs

unfoldable pub random_alnum : Source → ℕ → Result (List ℕ × Source)
random_alnum r n = do (buf, r) ← read_full n r; ok (pick_letters buf, r)

unfoldable pub random_hex : Source → ℕ → Result (List ℕ × Source)
random_hex r n = do (raw, r) ← read_full ((n + 1) / 2) r; ok (take n (hex_encode raw), r)

-- What `start` has prepared when it comes to write: `on_wire` is `sessionKeyOnWire` and `raw` is
-- `dataKDFInput`.
pub record SessionKeys : Type 0 where
  pub raw : List ℕ
  pub on_wire : List ℕ
  pub salt : List ℕ
  pub enc_key1 : List ℕ
  pub enc_key2 : List ℕ
  pub key1_hash : List ℕ
  pub sess_key_hash : List ℕ

-- `len(salt) > 0` selects 1000 rounds.
abbrev pub kdf_rounds : List ℕ → ℕ
kdf_rounds salt = if ltb 0 (length salt) then 1000 else 1

module _ (C : Crypto) where
  open C use {new_cipher, cbc_encrypter, crypt_blocks, oaep_encrypt, PublicKey}

  -- `enc_key1`: the session key under the password.
  unfoldable pub wrap_with_password : List ℕ → List ℕ → List ℕ → Result (List ℕ)
  wrap_with_password password salt on_wire = do
    let k = evp_kdf C password salt (kdf_rounds salt) 32 block_size
    block ← call (new_cipher k.0)
    ok (crypt_blocks (cbc_encrypter block k.1) (pkcs7_pad on_wire block_size)).0

  unfoldable pub prepare_salt : Bool → Source → Result (List ℕ × Source)
  prepare_salt v3 rnd = if v3 then random_alnum rnd 8 else ok ([], rnd)

  unfoldable pub prepare_key1 : EncryptOptions PublicKey → List ℕ → List ℕ → Result (List ℕ)
  prepare_key1 o salt on_wire =
      if ltb 0 (length o.password) then wrap_with_password o.password salt on_wire else ok []

  unfoldable pub prepare_key2 : Option PublicKey → List ℕ → Source → Result (List ℕ × Source)
  prepare_key2 none on_wire rnd = ok ([], rnd)
  prepare_key2 (some k) on_wire rnd = map_error rsa_failed (call (oaep_encrypt rnd k on_wire))

  -- A salted digest under a fresh prefix.
  unfoldable pub prepare_digest : List ℕ → Source → Result (List ℕ × Source)
  prepare_digest secret rnd = do
    (prefix, rnd) ← random_hex rnd 10
    ok (salted_digest C prefix secret, rnd)

  unfoldable pub prepare_key1_hash : List ℕ → Source → Result (List ℕ × Source)
  prepare_key1_hash password rnd =
      if ltb 0 (length password) then prepare_digest password rnd else ok ([], rnd)

  -- Steps 1 to 4 of `start`.
  unfoldable pub prepare : EncryptOptions PublicKey → Source → Result SessionKeys
  prepare o rnd = do
    (raw, rnd) ← map_error random_session_key (read_full 32 rnd)
    let v3 = at_least (major o) 3
    let on_wire = if v3 then hex_encode raw else raw
    (salt, rnd) ← prepare_salt v3 rnd
    enc_key1 ← prepare_key1 o salt on_wire
    (enc_key2, rnd) ← prepare_key2 o.public_key on_wire rnd
    (key1_hash, rnd) ← prepare_key1_hash o.password rnd
    (sess_key_hash, rnd) ← prepare_digest on_wire rnd
    ok (record {
      raw = raw;
      on_wire = on_wire;
      salt = salt;
      enc_key1 = enc_key1;
      enc_key2 = enc_key2;
      key1_hash = key1_hash;
      sess_key_hash = sess_key_hash;
    })
