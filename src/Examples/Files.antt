-- ===== src/Examples/Files.antt =====
-- The operations on files at concrete inputs.
use cloudsync_decrypt_go.Common.{
  ℕ, ◌≡◌, ◌≢◌, refl, inl, inr, true, eqb, take, length, [], ◌∷◌, none, some, codes, ok, arith,
}
use cloudsync_decrypt_go.Recover.{Options, consume_magic}
use cloudsync_decrypt_go.Decrypt.{decrypt}
use cloudsync_decrypt_go.Wire.{read_full}
use cloudsync_decrypt_go.Hex.{hex_encode, hex_digit}
use cloudsync_decrypt_go.Keys.{evp_kdf, kdf_loop, rehash, salted_digest}
use cloudsync_decrypt_go.Padding.{pkcs7_pad}
use cloudsync_decrypt_go.Encoder.{
  file_magic, write_magic, write_leading_metadata, write_final_metadata, write_data_dict,
  leading_body, dict_end, write_all, str_pair, write_short_blob, key, int_pair, write_int_body,
  version_pair, dict_start, data_body, bytes_value, final_body,
}
use cloudsync_decrypt_go.Session.{
  major, minor, rand, compress_on, bool_as_int, prepare, prepare_salt, prepare_key1, prepare_key2,
  prepare_digest, prepare_key1_hash, random_hex, wrap_with_password,
}
use cloudsync_decrypt_go.Pipeline.{sink_write, feeder_write, feeder_finish, sink_loop, sink_flush}
use cloudsync_decrypt_go.Writer.{
  encrypt, new_writer, encrypt_with, copy, close, close_when, write, write_when, ensure_started,
  start_unless, start, wire_pipeline, feed_all, write_to, write_payload, add_md5, close_compressor,
  close_lz4, flush, write_trailer, close_steps, abort,
}
use cloudsync_decrypt_go.File.{
  is_csenc_file, decrypt_file, encrypt_file, make_parent, with_temp, fill_and_rename, fill,
  decrypt_to, encrypt_to, default_name,
}
use cloudsync_decrypt_go.File.Magic.{is_csenc_file_lem, is_csenc_file-encrypt_file}
use cloudsync_decrypt_go.File.Atomic.{decrypt_file-content, encrypt_file-content}
use cloudsync_decrypt_go.File.RoundTrip.{decrypt_file-encrypt_file}
use cloudsync_decrypt_go.Examples.Toy.{toy_crypto, toy_lz4, toy_rand}
use cloudsync_decrypt_go.Examples.Disk.{Tree, toy_os, toy-Works, toy-IsReadable}
use cloudsync_decrypt_go.Examples.EndToEnd.{o, no_compression, random-IsByte}

-- A note, and a file that is no stream.
abbrev pub tree : Tree
tree = (1 ∷ [], 7 ∷ 8 ∷ 9 ∷ []) ∷ (2 ∷ [], 0 ∷ []) ∷ []

abbrev asked : Options ℕ
asked = record { password = some (115 ∷ 101 ∷ []); private_key = none }

-- Decrypting the file that is no stream fails, and keeps what the target had.
refused : (decrypt_file toy_os toy_crypto toy_lz4 (2 ∷ []) (1 ∷ []) asked tree).1 ≢ ok tt
unfolding decrypt_file make_parent with_temp fill_and_rename fill decrypt_to decrypt consume_magic
    read_full codes
refused e = cc

decrypt_file-content_example :
    toy_os.content (decrypt_file toy_os toy_crypto toy_lz4 (2 ∷ []) (1 ∷ []) asked tree).0 (1 ∷ [])
    ≡ some (7 ∷ 8 ∷ 9 ∷ [])
decrypt_file-content_example =
    decrypt_file-content toy_os toy_crypto toy_lz4 (2 ∷ []) (1 ∷ []) (1 ∷ []) asked tree
      (7 ∷ 8 ∷ 9 ∷ []) refl (inr refused)

encrypt_file-content_example :
    toy_os.content
      (encrypt_file toy_os toy_crypto toy_lz4 toy_rand (1 ∷ []) (3 ∷ []) o tree).0
      (1 ∷ [])
    ≡ some (7 ∷ 8 ∷ 9 ∷ [])
encrypt_file-content_example =
    encrypt_file-content toy_os toy_crypto toy_lz4 toy_rand (1 ∷ []) (3 ∷ []) (1 ∷ []) o tree
      (7 ∷ 8 ∷ 9 ∷ []) refl (inl (λ e. cc))

encrypted : (encrypt_file toy_os toy_crypto toy_lz4 toy_rand (1 ∷ []) (3 ∷ []) o tree).1 ≡ ok tt
unfolding encrypt new_writer encrypt_with copy close close_when write write_when ensure_started
    start_unless start wire_pipeline feed_all write_to write_payload add_md5 close_compressor
    close_lz4 flush write_trailer close_steps abort major minor rand compress_on bool_as_int prepare
    prepare_salt prepare_key1 prepare_key2 prepare_digest prepare_key1_hash random_hex read_full
    write_magic write_leading_metadata write_final_metadata write_data_dict sink_loop sink_write
    sink_flush feeder_write feeder_finish evp_kdf kdf_loop rehash salted_digest hex_encode hex_digit
    codes leading_body dict_end write_all str_pair write_short_blob key int_pair write_int_body
    version_pair dict_start data_body bytes_value final_body wrap_with_password pkcs7_pad
    encrypt_file make_parent with_temp fill_and_rename fill encrypt_to default_name
encrypted = refl

decrypt_file-encrypt_file_example :
    ((decrypt_file toy_os toy_crypto toy_lz4
        (3 ∷ [])
        (4 ∷ [])
        asked
        (encrypt_file toy_os toy_crypto toy_lz4 toy_rand (1 ∷ []) (3 ∷ []) o tree).0).1
      ≡ ok tt)
    × (toy_os.content
          (decrypt_file toy_os toy_crypto toy_lz4
            (3 ∷ [])
            (4 ∷ [])
            asked
            (encrypt_file toy_os toy_crypto toy_lz4 toy_rand (1 ∷ []) (3 ∷ []) o tree).0).0
          (4 ∷ [])
        ≡ some (7 ∷ 8 ∷ 9 ∷ []))
decrypt_file-encrypt_file_example =
    decrypt_file-encrypt_file toy_os toy_crypto toy_lz4 toy_rand (1 ∷ []) (3 ∷ []) (4 ∷ []) o none
      tree (7 ∷ 8 ∷ 9 ∷ []) (record { number = 0; minor_is = refl; in_range = omega arith })
      no_compression (omega arith) random-IsByte (λ f. (λ e. cc, λ e. cc)) refl
      (toy-IsReadable tree (1 ∷ [])) encrypted
      (toy-IsReadable (encrypt_file toy_os toy_crypto toy_lz4 toy_rand (1 ∷ []) (3 ∷ []) o tree).0
        (3 ∷ []))
      (toy-Works (codes ".csenc-*") (4 ∷ [])
        (encrypt_file toy_os toy_crypto toy_lz4 toy_rand (1 ∷ []) (3 ∷ []) o tree).0)

is_csenc_file_lem_example :
    is_csenc_file toy_os tree (1 ∷ [])
    ≡ ok (eqb (take (length (codes file_magic)) (7 ∷ 8 ∷ 9 ∷ [])) (codes file_magic))
is_csenc_file_lem_example = is_csenc_file_lem toy_os tree (1 ∷ []) (7 ∷ 8 ∷ 9 ∷ []) refl

is_csenc_file-encrypt_file_example :
    is_csenc_file toy_os
      (encrypt_file toy_os toy_crypto toy_lz4 toy_rand (1 ∷ []) (3 ∷ []) o tree).0
      (3 ∷ [])
    ≡ ok true
is_csenc_file-encrypt_file_example =
    is_csenc_file-encrypt_file toy_os toy_crypto toy_lz4 toy_rand (1 ∷ []) (3 ∷ []) o tree
      (7 ∷ 8 ∷ 9 ∷ []) (record { number = 0; minor_is = refl; in_range = omega arith }) (λ f e. cc)
      (toy-IsReadable tree (1 ∷ [])) refl encrypted
      (toy-IsReadable (encrypt_file toy_os toy_crypto toy_lz4 toy_rand (1 ∷ []) (3 ∷ []) o tree).0
        (3 ∷ []))
