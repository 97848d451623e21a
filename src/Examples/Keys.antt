-- ===== src/Examples/Keys.antt =====
-- The session key at concrete inputs: prepared by the writer, and recovered by the reader.
use cloudsync_decrypt_go.Common.{
  ℕ, ◌≡◌, refl, [], ◌++◌, none, some, codes, ok, arith, replicate, All,
}
use cloudsync_decrypt_go.Common.Signed.{pos}
use cloudsync_decrypt_go.Wire.{read_full}
use cloudsync_decrypt_go.Hex.{IsByte, hex_encode, hex_digit}
use cloudsync_decrypt_go.Padding.{pkcs7_pad}
use cloudsync_decrypt_go.Keys.{evp_kdf, kdf_loop, rehash, salted_digest}
use cloudsync_decrypt_go.Session.{
  EncryptOptions, SessionKeys, major, wrap_with_password, prepare, prepare_salt, prepare_key1,
  prepare_key2, prepare_digest, prepare_key1_hash, random_hex,
}
use cloudsync_decrypt_go.Metadata.{Metadata, new_metadata}
use cloudsync_decrypt_go.Recover.{recover_session_key}
use cloudsync_decrypt_go.Recover.RoundTrip.{Records, recover-prepare}
use cloudsync_decrypt_go.Examples.Toy.{toy_crypto, toy_rand}

abbrev o : EncryptOptions ℕ
o = record {
  password = codes "secret";
  public_key = none;
  opt_major = pos 1;
  opt_minor = pos 0;
  filename = [];
  compress = none;
  opt_rand = none;
}

abbrev keys : SessionKeys
keys = record {
  raw = replicate 32 0xa5;
  on_wire = replicate 32 0xa5;
  salt = [];
  enc_key1 = replicate 32 0xa4 ++ replicate 16 17;
  enc_key2 = [];
  key1_hash = codes "a5a5a5a5a5" ++ hex_encode (replicate 16 16);
  sess_key_hash = codes "a5a5a5a5a5" ++ hex_encode (replicate 16 42);
}

keys_prepared : prepare toy_crypto o toy_rand ≡ ok keys
unfolding major prepare prepare_salt prepare_key1 prepare_key2 prepare_digest prepare_key1_hash
    random_hex read_full salted_digest hex_encode hex_digit codes wrap_with_password evp_kdf
    kdf_loop rehash pkcs7_pad
keys_prepared = refl

abbrev recorded : Metadata
recorded = record new_metadata {
  salt = [];
  enc_key1 = some keys.enc_key1;
  key1_hash = keys.key1_hash;
  session_key_hash = keys.sess_key_hash;
}

recorded-Records : Records toy_crypto recorded keys
recorded-Records = record {
  salt_is = refl;
  key1_is = refl;
  key1_hash_is = refl;
  session_hash_is = refl;
}

raw-IsByte : All IsByte keys.raw
raw-IsByte = omega arith

recover-prepare_example :
    recover_session_key toy_crypto
      (record { password = some (codes "secret"); private_key = none })
      recorded
    ≡ ok keys.raw
unfolding codes
recover-prepare_example =
    recover-prepare toy_crypto o toy_rand keys none recorded keys_prepared (omega arith) raw-IsByte
      recorded-Records
