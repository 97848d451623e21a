-- ===== src/Examples/Writing.antt =====
-- The stages of the writer, and `Encrypt` as a whole, at concrete inputs.
use cloudsync_decrypt_go.Common.{
  ℕ, ◌≡◌, ◌<◌, refl, false, List, [], ◌∷◌, ◌++◌, some, codes, ok, eof, arith, length, replicate,
}
use cloudsync_decrypt_go.Common.Signed.{pos}
use cloudsync_decrypt_go.Io.{buffer}
use cloudsync_decrypt_go.Padding.{pkcs7_pad}
use cloudsync_decrypt_go.Wire.{read_full}
use cloudsync_decrypt_go.Keys.{evp_kdf, kdf_loop, rehash, salted_digest}
use cloudsync_decrypt_go.Hex.{hex_encode, hex_digit}
use cloudsync_decrypt_go.Encoder.{
  write_magic, write_leading_metadata, write_final_metadata, write_data_dict, leading_body,
  dict_end, write_all, str_pair, write_short_blob, key, int_pair, write_int_body, version_pair,
  dict_start, data_body, bytes_value, final_body,
}
use cloudsync_decrypt_go.Session.{
  EncryptOptions, major, minor, rand, compress_on, bool_as_int, prepare, prepare_salt, prepare_key1,
  prepare_key2, prepare_digest, prepare_key1_hash, random_hex,
}
use cloudsync_decrypt_go.Pipeline.{
  PendingSink, AesFeeder, sink_write, feeder_write, feeder_finish, sink_loop, sink_flush,
}
use cloudsync_decrypt_go.Pipeline.Sink.{SinkView, sink_write-View, sink_write_total, view_start}
use cloudsync_decrypt_go.Pipeline.Feeder.{
  FeederView, feeder_start, feeder_write-View, feeder_finish-View, feeder_write_total,
  feeder_finish_total,
}
use cloudsync_decrypt_go.Writer.{
  Input, handed, encrypt, new_writer, encrypt_with, copy, close, close_when, write, write_when,
  ensure_started, start_unless, start, wire_pipeline, feed_all, write_to, write_payload, add_md5,
  close_compressor, close_lz4, flush, write_trailer, close_steps, abort,
}
use cloudsync_decrypt_go.Writer.{leading_metadata}
use cloudsync_decrypt_go.Writer.Succeeds.{CanStart, encrypt_ok}
use cloudsync_decrypt_go.Writer.Encrypt.{fresh_writer}
use cloudsync_decrypt_go.Wire.Emit.{Fits}
use cloudsync_decrypt_go.Encoder.Dicts.{leading_value, leading_members}
use cloudsync_decrypt_go.Session.{SessionKeys}
use cloudsync_decrypt_go.Writer.Complete.{Stream}
use cloudsync_decrypt_go.Writer.Encrypt.{encrypt-Stream}
use cloudsync_decrypt_go.Examples.Toy.{toy_crypto, toy_lz4, toy_rand}

-- A sink for chunks of 16 bytes.
abbrev sink : PendingSink (List ℕ)
sink = record { out = 1 ∷ []; buf = []; chunk_size = 16 }

abbrev forty : List ℕ
forty = replicate 40 5

sink_write-View_example :
    SinkView buffer (1 ∷ []) ([] ++ forty) (sink_write buffer forty sink).0
    × (length (sink_write buffer forty sink).0.buf < (sink_write buffer forty sink).0.chunk_size)
sink_write-View_example =
    sink_write-View buffer (1 ∷ []) forty sink []
      (view_start buffer (1 ∷ []) (1 ∷ []) 16 refl (omega arith) refl (omega arith))
      (sink_write_total buffer (1 ∷ []) forty sink (λ w b. refl) (omega arith))

abbrev feeder : AesFeeder (List ℕ) (List ℕ)
feeder = record { enc = []; buf = []; sink = sink }

feeder_write-View_example :
    FeederView buffer toy_crypto
      (1 ∷ [])
      []
      ([] ++ forty)
      (feeder_write buffer toy_crypto forty feeder).0
feeder_write-View_example =
    feeder_write-View buffer toy_crypto (1 ∷ []) [] forty feeder []
      (feeder_start buffer toy_crypto (1 ∷ []) [] (1 ∷ []) 16 refl (omega arith) refl (omega arith))
      (feeder_write_total buffer toy_crypto (1 ∷ []) [] forty feeder (λ w b. refl) (omega arith))

feeder_finish-View_example :
    SinkView buffer
      (1 ∷ [])
      (toy_crypto.crypt_blocks [] (pkcs7_pad [] 16)).0
      (feeder_finish buffer toy_crypto feeder).0.sink
    × (length (feeder_finish buffer toy_crypto feeder).0.sink.buf
        < (feeder_finish buffer toy_crypto feeder).0.sink.chunk_size)
feeder_finish-View_example =
    feeder_finish-View buffer toy_crypto (1 ∷ []) [] feeder []
      (feeder_start buffer toy_crypto (1 ∷ []) [] (1 ∷ []) 16 refl (omega arith) refl (omega arith))
      (feeder_finish_total buffer toy_crypto (1 ∷ []) [] feeder (λ w b. refl) (omega arith))

abbrev o : EncryptOptions ℕ
o = record {
  password = [];
  public_key = some 7;
  opt_major = pos 1;
  opt_minor = pos 2;
  filename = codes "a.txt";
  compress = some false;
  opt_rand = some toy_rand;
}

abbrev inp : Input
inp = record { reads = (1 ∷ 2 ∷ 3 ∷ []) ∷ [] ∷ (4 ∷ []) ∷ []; fin = eof }

encrypt_sample : (encrypt buffer toy_crypto toy_lz4 toy_rand inp [] o).1 ≡ ok tt
unfolding encrypt new_writer encrypt_with copy close close_when write write_when ensure_started
    start_unless start wire_pipeline feed_all write_to write_payload add_md5 close_compressor
    close_lz4 flush write_trailer close_steps abort major minor rand compress_on bool_as_int prepare
    prepare_salt prepare_key1 prepare_key2 prepare_digest prepare_key1_hash random_hex read_full
    write_magic write_leading_metadata write_final_metadata write_data_dict sink_loop sink_write
    sink_flush feeder_write feeder_finish evp_kdf kdf_loop rehash salted_digest hex_encode hex_digit
    codes leading_body dict_end write_all str_pair write_short_blob key int_pair write_int_body
    version_pair dict_start data_body bytes_value final_body
encrypt_sample = refl

encrypt-Stream_example :
    Stream buffer toy_crypto toy_lz4 toy_rand o []
      (handed inp.reads)
      (encrypt buffer toy_crypto toy_lz4 toy_rand inp [] o).0
encrypt-Stream_example =
    encrypt-Stream buffer toy_crypto toy_lz4 toy_rand inp [] o
      (record { number = 2; minor_is = refl; in_range = omega arith }) encrypt_sample

-- The key material of the sample, as `start` prepares it.
abbrev sample_keys : SessionKeys
sample_keys = record {
  raw = replicate 32 0xa5;
  on_wire = replicate 32 0xa5;
  salt = [];
  enc_key1 = [];
  enc_key2 = replicate 32 0xa5;
  key1_hash = [];
  sess_key_hash = codes "a5a5a5a5a5" ++ hex_encode (replicate 16 42);
}

sample_prepared : prepare toy_crypto o toy_rand ≡ ok sample_keys
unfolding major prepare prepare_salt prepare_key1 prepare_key2 prepare_digest prepare_key1_hash
    random_hex read_full salted_digest hex_encode hex_digit codes
sample_prepared = refl

sample-Fits :
    Fits (leading_value (λ b. b) (leading_metadata buffer toy_crypto toy_lz4 o sample_keys))
unfolding Fits leading_members major minor compress_on bool_as_int codes hex_encode
sample-Fits = omega arith

sample_starts : CanStart buffer toy_crypto toy_lz4 toy_rand o
unfolding rand
sample_starts = record { keys = sample_keys; prepared = sample_prepared; fits = sample-Fits }

sample_accepted :
    new_writer buffer toy_crypto toy_lz4 [] o
    ≡ ok (fresh_writer buffer toy_crypto toy_lz4 toy_rand [] o)
unfolding new_writer major
sample_accepted = refl

encrypt_ok_example : (encrypt buffer toy_crypto toy_lz4 toy_rand inp [] o).1 ≡ ok tt
encrypt_ok_example =
    encrypt_ok buffer toy_crypto toy_lz4 toy_rand inp [] o
      (fresh_writer buffer toy_crypto toy_lz4 toy_rand [] o) (λ w b. refl)
      (record { number = 2; minor_is = refl; in_range = omega arith }) sample_accepted sample_starts
      refl
