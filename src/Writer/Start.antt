-- ===== src/Writer/Start.antt =====
-- csenc/encrypt.go: what `start` has written and wired when it returns no error.
use cloudsync_decrypt_go.Common.{
  ℕ, ◌≡◌, refl, sym, ap, ◌∙◌, true, List, [], ◌++◌, append_assoc, inl, inr, arith,
}
use cloudsync_decrypt_go.Common.{
  none, some, codes, Result, ok, if◌then◌else◌, Option-cases, Fallible,
}
use cloudsync_decrypt_go.Common.Action.{◌>>◌, lift, seq_ok, seq_run, bind_ok, result_of_ok}
use cloudsync_decrypt_go.Wire.{Source}
use cloudsync_decrypt_go.Wire.Emit.{emit, Fits}
use cloudsync_decrypt_go.Io.{Out}
use cloudsync_decrypt_go.Crypto.{Crypto}
use cloudsync_decrypt_go.Hex.{hex_encode}
use cloudsync_decrypt_go.Lz4.{Lz4}
use cloudsync_decrypt_go.Keys.{evp_kdf}
use cloudsync_decrypt_go.Padding.{block_size}
use cloudsync_decrypt_go.Session.{EncryptOptions, rand, compress_on, SessionKeys, prepare}
use cloudsync_decrypt_go.Encoder.{file_magic, write_magic, write_leading_metadata}
use cloudsync_decrypt_go.Encoder.Dicts.{HasNumbers, leading_value, write_leading_metadata_lem}
use cloudsync_decrypt_go.Pipeline.{AesFeeder, data_chunk_size}
use cloudsync_decrypt_go.Pipeline.Feeder.{FeederView, feeder_start}
use cloudsync_decrypt_go.Writer.{WriterState, leading_metadata, on_out, wire_pipeline, start}

-- The magic and its checksum.
abbrev pub magic_bytes : (List ℕ → List ℕ) → List ℕ
magic_bytes md5 = codes file_magic ++ hex_encode (md5 (codes file_magic))

module _ (O : Out) where
  open O use {W, write, written, write-written}

  -- `writeMagic` without an error has written all of it.
  pub write_magic_lem :
      (md5 : List ℕ → List ℕ) (w : W)
      → (write_magic O md5 w).1 ≡ none
      → written (write_magic O md5 w).0 ≡ written w ++ magic_bytes md5
  unfolding write_magic
  write_magic_lem md5 w h = elim (Option-cases (write w (codes file_magic)).1) [
    | inr (x, e) ↦ cc (e, rw (e, write_magic) at h)
    | inl e ↦
        rw (e, write_magic)
          (write-written _ _ (rw (e, write_magic) at h)
            ∙ rw (write-written w (codes file_magic) e)
                (append_assoc (written w) (codes file_magic) _))
  ]

module _ (O : Out) (C : Crypto) (L : Lz4) where
  open O use {W, written}
  open C use {Block, PublicKey, new_cipher, cbc_encrypter, base64_encode}
  open L use {enc_new}

  -- The key and the initialisation vector of the payload cipher.
  abbrev pub data_key : List ℕ → List ℕ × List ℕ
  data_key raw = evp_kdf C raw [] 1 32 block_size

  -- What stands before the data dicts.
  abbrev pub head_bytes : EncryptOptions PublicKey → SessionKeys → List ℕ
  head_bytes o s =
      magic_bytes C.md5 ++ emit (leading_value base64_encode (leading_metadata O C L o s))

  -- The state behind `start`: key material, the head of the stream, and an empty pipeline.
  pub record Started (crand : Source) (before w : WriterState O C L) : Type 0 where
    pub keys : SessionKeys
    pub prepared : prepare C before.opts (rand crand before.opts) ≡ ok keys
    pub block : Block
    pub cipher : new_cipher (data_key keys.raw).0 ≡ inr block
    pub head_fits : Fits (leading_value base64_encode (leading_metadata O C L before.opts keys))
    pub feeder : AesFeeder C.Mode W
    pub view :
        FeederView O C
          (written before.out ++ head_bytes before.opts keys)
          (cbc_encrypter block (data_key keys.raw).1)
          []
          feeder
    pub same : w ≡ record before {
      started = true;
      out = feeder.sink.out;
      aes = some feeder;
      lz4_w = if compress_on before.opts then some enc_new else none;
    }

  wire_pipeline_lem :
      (raw : List ℕ) (w : WriterState O C L)
      → (wire_pipeline O C L raw w).1 ≡ ok tt
      → (block : Block) × (new_cipher (data_key raw).0 ≡ inr block)
        × ((wire_pipeline O C L raw w).0 ≡ record w {
          aes = some (record {
            enc = cbc_encrypter block (data_key raw).1;
            buf = [];
            sink = record { out = w.out; buf = []; chunk_size = data_chunk_size };
          });
          lz4_w = if compress_on w.opts then some enc_new else none;
        })
  unfolding wire_pipeline
  wire_pipeline_lem raw w h = go (new_cipher (data_key raw).0) refl
    where
      go :
          (r : Fallible Block)
          → new_cipher (data_key raw).0 ≡ r
          → (block : Block) × (new_cipher (data_key raw).0 ≡ inr block)
            × ((wire_pipeline O C L raw w).0 ≡ record w {
              aes = some (record {
                enc = cbc_encrypter block (data_key raw).1;
                buf = [];
                sink = record { out = w.out; buf = []; chunk_size = data_chunk_size };
              });
              lz4_w = if compress_on w.opts then some enc_new else none;
            })
      go (inl e) p = cc (rw (p, wire_pipeline) at h)
      go (inr block) p = (block, p, rw (p, wire_pipeline))

  -- `start` that returns no error has written the head of the stream and wired an empty pipeline.
  -- The four numbers of the metadata have to be representable.
  pub start-Started :
      (crand : Source) (w : WriterState O C L)
      → ((s : SessionKeys) → HasNumbers (leading_metadata O C L w.opts s))
      → (start O C L crand w).1 ≡ ok tt
      → Started crand w (start O C L crand w).0
  unfolding start
  start-Started crand w numbers h =
      let w₀ : WriterState O C L = record w { started = true } in
      let magic = on_out O C L (write_magic O C.md5) in
      let lead = λ (s : SessionKeys).
        on_out O C L (write_leading_metadata O base64_encode (leading_metadata O C L w.opts s)) in
      let tail = λ (s : SessionKeys). lead s >> wire_pipeline O C L s.raw in
      let body = λ (s : SessionKeys). magic >> tail s in
      let (s, prepared, e₀) = bind_ok (lift (prepare C w.opts (rand crand w.opts))) body w₀ h in
      let h₀ : (body s w₀).1 ≡ ok tt =
        sym (ap (λ (r : WriterState O C L × Result (Unit {0})). r.1) e₀) ∙ h in
      let (hm, h₁) = seq_ok magic (tail s) w₀ h₀ in
      let e₁ = seq_run magic (tail s) w₀ hm in
      let w₁ = (magic w₀).0 in
      let (hl, h₂) = seq_ok (lead s) (wire_pipeline O C L s.raw) w₁ h₁ in
      let e₂ = seq_run (lead s) (wire_pipeline O C L s.raw) w₁ hl in
      let w₂ = (lead s w₁).0 in
      let (block, cipher, e₃) = wire_pipeline_lem s.raw w₂ h₂ in
      let wrote_magic = write_magic_lem O C.md5 w.out (result_of_ok _ hm) in
      let (fits, wrote_lead) =
        (write_leading_metadata_lem O base64_encode (leading_metadata O C L w.opts s) w₁.out
            (numbers s)).0
          (result_of_ok _ hl) in
      record {
        keys = s;
        prepared = prepared;
        block = block;
        cipher = cipher;
        head_fits = fits;
        feeder = record {
          enc = cbc_encrypter block (data_key s.raw).1;
          buf = [];
          sink = record { out = w₂.out; buf = []; chunk_size = data_chunk_size };
        };
        view =
            feeder_start O C _ _ w₂.out data_chunk_size
              (wrote_lead ∙ rw wrote_magic (append_assoc (written w.out) (magic_bytes C.md5) _))
              (omega arith) refl (omega arith);
        same = ap (λ (r : WriterState O C L × Result (Unit {0})). r.0) (e₀ ∙ e₁ ∙ e₂) ∙ e₃;
      }
