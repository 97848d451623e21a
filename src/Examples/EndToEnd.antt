-- ===== src/Examples/EndToEnd.antt =====
-- `Encrypt` and then `Decrypt`, at a concrete input.
use cloudsync_decrypt_go.Common.{
  ℕ, ◌≡◌, refl, false, [], ◌∷◌, none, some, codes, ok, eof, arith, All,
}
use cloudsync_decrypt_go.Common.Signed.{pos}
use cloudsync_decrypt_go.Io.{buffer}
use cloudsync_decrypt_go.Wire.{read_full}
use cloudsync_decrypt_go.Wire.RoundTrip.{source}
use cloudsync_decrypt_go.Hex.{IsByte, hex_encode, hex_digit}
use cloudsync_decrypt_go.Keys.{evp_kdf, kdf_loop, rehash, salted_digest}
use cloudsync_decrypt_go.Padding.{pkcs7_pad}
use cloudsync_decrypt_go.Encoder.{
  write_magic, write_leading_metadata, write_final_metadata, write_data_dict, leading_body,
  dict_end, write_all, str_pair, write_short_blob, key, int_pair, write_int_body, version_pair,
  dict_start, data_body, bytes_value, final_body,
}
use cloudsync_decrypt_go.Session.{
  EncryptOptions, SessionKeys, major, minor, rand, compress_on, bool_as_int, prepare, prepare_salt,
  prepare_key1, prepare_key2, prepare_digest, prepare_key1_hash, random_hex, wrap_with_password,
}
use cloudsync_decrypt_go.Pipeline.{sink_write, feeder_write, feeder_finish, sink_loop, sink_flush}
use cloudsync_decrypt_go.Writer.{
  Input, encrypt, new_writer, encrypt_with, copy, close, close_when, write, write_when,
  ensure_started, start_unless, start, wire_pipeline, feed_all, write_to, write_payload, add_md5,
  close_compressor, close_lz4, flush, write_trailer, close_steps, abort,
}
use cloudsync_decrypt_go.Decrypt.{decrypt}
use cloudsync_decrypt_go.Decrypt.Restore.{Restores, meta_of}
use cloudsync_decrypt_go.Decrypt.Halts.{Halts}
use cloudsync_decrypt_go.Decrypt.Total.{decrypt-Halts}
use cloudsync_decrypt_go.Decrypt.Receives.{After, Once}
use cloudsync_decrypt_go.Decrypt.Joined.{decrypt-After}
use cloudsync_decrypt_go.Decrypt.OfEncrypt.{decrypt-encrypt}
use cloudsync_decrypt_go.Examples.Toy.{toy_crypto, toy_lz4, toy_rand}

abbrev pub o : EncryptOptions ℕ
o = record {
  password = 115 ∷ 101 ∷ [];
  public_key = none;
  opt_major = pos 1;
  opt_minor = pos 0;
  filename = 97 ∷ [];
  compress = some false;
  opt_rand = some toy_rand;
}

abbrev pub inp : Input
inp = record { reads = (1 ∷ 2 ∷ 3 ∷ []) ∷ (4 ∷ []) ∷ []; fin = eof }

pub encrypted : (encrypt buffer toy_crypto toy_lz4 toy_rand inp [] o).1 ≡ ok tt
unfolding encrypt new_writer encrypt_with copy close close_when write write_when ensure_started
    start_unless start wire_pipeline feed_all write_to write_payload add_md5 close_compressor
    close_lz4 flush write_trailer close_steps abort major minor rand compress_on bool_as_int prepare
    prepare_salt prepare_key1 prepare_key2 prepare_digest prepare_key1_hash random_hex read_full
    write_magic write_leading_metadata write_final_metadata write_data_dict sink_loop sink_write
    sink_flush feeder_write feeder_finish evp_kdf kdf_loop rehash salted_digest hex_encode hex_digit
    codes leading_body dict_end write_all str_pair write_short_blob key int_pair write_int_body
    version_pair dict_start data_body bytes_value final_body wrap_with_password pkcs7_pad
encrypted = refl

pub no_compression : compress_on o ≡ false
unfolding compress_on
no_compression = refl

pub random-IsByte : All IsByte (rand toy_rand o).bytes
unfolding rand
random-IsByte = omega arith

decrypt-encrypt_example :
    (s : SessionKeys) × (prepare toy_crypto o (rand toy_rand o) ≡ ok s)
    × Restores buffer toy_crypto toy_lz4 []
        (1 ∷ 2 ∷ 3 ∷ 4 ∷ [])
        (meta_of buffer toy_crypto toy_lz4 o s)
        (decrypt buffer toy_crypto toy_lz4
          (source (encrypt buffer toy_crypto toy_lz4 toy_rand inp [] o).0 eof)
          []
          (record { password = some o.password; private_key = none }))
decrypt-encrypt_example =
    decrypt-encrypt buffer buffer toy_crypto toy_lz4 toy_rand o (λ w b. refl) inp [] [] none
      (record { number = 0; minor_is = refl; in_range = omega arith }) no_compression (omega arith)
      random-IsByte refl encrypted

decrypt-After_example : After buffer toy_crypto toy_lz4 (Once buffer toy_crypto toy_lz4) (
    decrypt buffer toy_crypto toy_lz4
      (source (encrypt buffer toy_crypto toy_lz4 toy_rand inp [] o).0 eof)
      []
      (record { password = some o.password; private_key = none }))
decrypt-After_example =
    decrypt-After buffer toy_crypto toy_lz4
      (source (encrypt buffer toy_crypto toy_lz4 toy_rand inp [] o).0 eof) []
      (record { password = some o.password; private_key = none })

decrypt-Halts_example :
    Halts
      (decrypt buffer toy_crypto toy_lz4
        (source (1 ∷ 2 ∷ []) eof)
        []
        (record { password = some o.password; private_key = none })).1
decrypt-Halts_example =
    decrypt-Halts buffer toy_crypto toy_lz4 (source (1 ∷ 2 ∷ []) eof) []
      (record { password = some o.password; private_key = none })
