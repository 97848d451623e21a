-- ===== src/Writer/Complete.antt =====
-- csenc/encrypt.go: `Close` and `Encrypt`. What a finished writer has put out is one whole stream.
use cloudsync_decrypt_go.Common.{
  ℕ, ◌%◌, ◌≡◌, sym, ap, ◌∙◌, Bool, true, false, List, [], ◌++◌, append_assoc, append-nil, inr,
  arith,
}
use cloudsync_decrypt_go.Common.{
  Option, none, some, Error, Result, ok, if◌then◌else◌, concat, All, length,
}
use cloudsync_decrypt_go.Common.Action.{Action, ◌>>◌, seq_ok, seq_run, result_of_ok}
use cloudsync_decrypt_go.Wire.{Source}
use cloudsync_decrypt_go.Io.{Out}
use cloudsync_decrypt_go.Crypto.{Crypto}
use cloudsync_decrypt_go.Lz4.{Lz4, frame_from}
use cloudsync_decrypt_go.Session.{EncryptOptions, compress_on, rand, SessionKeys, prepare}
use cloudsync_decrypt_go.Pipeline.{AesFeeder}
use cloudsync_decrypt_go.Pipeline.Feeder.{FeederView}
use cloudsync_decrypt_go.Writer.{WriterState, leading_metadata, on_aes}
use cloudsync_decrypt_go.Writer.Run.{Packed, plainly, framed, Running}
use cloudsync_decrypt_go.Writer.Start.{data_key, head_bytes}
use cloudsync_decrypt_go.Writer.Ready.{recording_ok}
use mathlib.Core.Path.{subst}
use cloudsync_decrypt_go.Wire.Emit.{emit, Fits}
use cloudsync_decrypt_go.Hex.{hex_encode}
use cloudsync_decrypt_go.Padding.{pkcs7_pad}
use cloudsync_decrypt_go.Padding.RoundTrip.{length-pad_mod}
use cloudsync_decrypt_go.Encoder.Dicts.{final_value, leading_value, write_final_metadata_lem}
use cloudsync_decrypt_go.Pipeline.{feeder_finish}
use cloudsync_decrypt_go.Pipeline.Sink.{IsChunk, data_bytes, sink_flush-View, rest_aligned}
use cloudsync_decrypt_go.Pipeline.Feeder.{feeder_finish-View}
use cloudsync_decrypt_go.Writer.{close_compressor, close_lz4, flush, write_trailer, close_steps}
use cloudsync_decrypt_go.Writer.Run.{Fed, feed_all-Fed, on_aes_lem, base_of, mode_of}

-- What goes through the block cipher: the LZ4 frame of the writes, or the plaintext itself.
abbrev pub payload_of : (L : Lz4) → Bool → List (List ℕ) → List ℕ
payload_of L on ps = if on then frame_from L L.enc_new ps else concat ps

pub payload_plain :
    (L : Lz4) (on : Bool) (ps : List (List ℕ)) → on ≡ false → payload_of L on ps ≡ concat ps
payload_plain L on ps h = rw h

pub payload_framed :
    (L : Lz4) (on : Bool) (ps : List (List ℕ))
    → on ≡ true
    → payload_of L on ps ≡ frame_from L L.enc_new (ps ++ [])
payload_framed L on ps h = rw (h, append-nil)

module _ (O : Out) (C : Crypto) (L : Lz4) (crand : Source) where
  open O use {W, written}
  open C use {Block, PublicKey, cbc_encrypter, crypt_blocks, base64_encode}

  -- `out'` is `out` with the whole stream for the writes `ps`: the head, data dicts whose payloads
  -- make up the encryption of the padded payload, and the hash of the plaintext.
  pub record Stream (o : EncryptOptions PublicKey) (out : W) (ps : List (List ℕ)) (out' : W)
      : Type 0 where
    pub keys : SessionKeys
    pub prepared : prepare C o (rand crand o) ≡ ok keys
    pub block : Block
    pub cipher : C.new_cipher (data_key O C L keys.raw).0 ≡ inr block
    pub head_fits : Fits (leading_value base64_encode (leading_metadata O C L o keys))
    pub chunks : List (List ℕ)
    pub good : All IsChunk chunks
    pub holds :
        concat chunks
        ≡ (crypt_blocks
            (cbc_encrypter block (data_key O C L keys.raw).1)
            (pkcs7_pad (payload_of L (compress_on o) ps) 16)).0
    pub final_fits : Fits (final_value (hex_encode (C.md5 (concat ps))))
    pub wrote :
        written out'
        ≡ (written out ++ head_bytes O C L o keys)
          ++ (data_bytes chunks ++ emit (final_value (hex_encode (C.md5 (concat ps)))))

module _ (O : Out) (C : Crypto) (L : Lz4) (crand : Source) (before : WriterState O C L) where
  open O use {W, written}
  open C use {Mode, Block, PublicKey, cbc_encrypter, crypt_blocks, base64_encode}
  open L use {Enc, enc_new, enc_write, enc_close}

  -- Closing the compressor completes the payload.
  pub close_lz4-Fed :
      (closed : Bool) (ps : List (List ℕ)) (w : WriterState O C L)
      → (r : Running O C L crand before closed ps w) → (close_lz4 O C L w).1 ≡ ok tt
      → Fed O C L crand before
          (base_of O C L crand before r.st)
          (mode_of O C L crand before r.st)
          (payload_of L (compress_on before.opts) ps)
          w
          (close_lz4 O C L w).0
  unfolding close_lz4 frame_from
  close_lz4-Fed closed ps w r h = go w.lz4_w r.packed h
    where
      base : List ℕ
      base = base_of O C L crand before r.st

      mode : Mode
      mode = mode_of O C L crand before r.st

      go :
          (z : Option Enc)
          → Packed L (compress_on before.opts) ps r.payload z
          → (close_compressor O C L z w).1 ≡ ok tt
          → Fed O C L crand before base mode
              (payload_of L (compress_on before.opts) ps)
              w
              (close_compressor O C L z w).0
      go none (plainly t q) k = (
        r.feeder,
        subst (λ (x : List ℕ). FeederView O C base mode x r.feeder)
            (q ∙ sym (payload_plain L _ ps t)) r.view,
        rw (← r.aes_is, ← r.out_is),
      )
      go (some z) (framed t _ q) k =
          let (a, v, e) =
            feed_all-Fed O C L crand before base mode (enc_close z) r.payload w r.feeder r.aes_is
              r.out_is r.view k in
          (
            a,
            subst (λ (x : List ℕ). FeederView O C base mode x a)
                (sym (payload_framed L _ ps t ∙ q [])) v,
            e,
          )

  -- The sink behind `aesFeeder.finish` and `flush`: all of the ciphertext is in data dicts.
  flushed :
      (base : List ℕ) (mode : Mode) (payload : List ℕ) (a : AesFeeder Mode W)
      → FeederView O C base mode payload a
      → (feeder_finish O C a).1 ≡ none
      → (flush O C L (feeder_finish O C a).0).1 ≡ none
      → (chunks : List (List ℕ)) × All IsChunk chunks
        × (concat chunks ≡ (crypt_blocks mode (pkcs7_pad payload 16)).0)
        × (written (flush O C L (feeder_finish O C a).0).0.sink.out ≡ base ++ data_bytes chunks)
  unfolding flush
  flushed base mode payload a v h k =
      let b = (feeder_finish O C a).0 in
      let total = (crypt_blocks mode (pkcs7_pad payload 16)).0 in
      let (sunk, small) = feeder_finish-View O C base mode a payload v h in
      let whole : length total % 16 ≡ 0 =
        rw (C.length-crypt mode (pkcs7_pad payload 16) (length-pad_mod payload))
          (length-pad_mod payload) in
      let aligned : length b.sink.buf % 16 ≡ 0 =
        rest_aligned sunk.chunks b.sink.buf sunk.good (rw sunk.holds whole) in
      let (end, empty) =
        sink_flush-View O base b.sink total sunk aligned (omega (arith, sunk.size_fits)) k in
      (
        end.chunks,
        end.good,
        sym (append-nil (concat end.chunks))
            ∙ ap (λ (t : List ℕ). concat end.chunks ++ t) (sym empty)
            ∙ end.holds,
        end.wrote,
      )

  -- A call on the feeder that succeeds.
  pub on_aes_ok :
      (f : AesFeeder Mode W → AesFeeder Mode W × Option Error) (w : WriterState O C L)
      (a : AesFeeder Mode W)
      → w.aes ≡ some a
      → (on_aes O C L f w).1 ≡ ok tt
      → ((f a).1 ≡ none)
        × ((on_aes O C L f w).0 ≡ record w { aes = some (f a).0; out = (f a).0.sink.out })
  on_aes_ok f w a e h =
      let step = on_aes_lem O C L crand before f w a e in
      (
        result_of_ok _ (sym (ap (λ (r : WriterState O C L × Result (Unit {0})). r.1) step) ∙ h),
        ap (λ (r : WriterState O C L × Result (Unit {0})). r.0) step,
      )

  -- The steps of `Close` behind `start`.
  abbrev pub close_body : Action (WriterState O C L) (Unit {0})
  close_body =
      close_lz4 O C L
      >> (on_aes O C L (feeder_finish O C) >> (on_aes O C L (flush O C L) >> write_trailer O C L))

  close_body-Stream :
      (closed : Bool) (ps : List (List ℕ)) (w : WriterState O C L)
      → Running O C L crand before closed ps w
      → (close_body w).1 ≡ ok tt
      → Stream O C L crand before.opts before.out ps (close_body w).0.out
  unfolding write_trailer
  close_body-Stream closed ps w r h =
      let fin = on_aes O C L (feeder_finish O C) in
      let fl = on_aes O C L (flush O C L) in
      let tail₂ = fl >> write_trailer O C L in
      let tail₁ = fin >> tail₂ in
      let (h₁, k₁) = seq_ok (close_lz4 O C L) tail₁ w h in
      let (a, view, e₁) = close_lz4-Fed closed ps w r h₁ in
      let w₁ = (close_lz4 O C L w).0 in
      let (h₂, k₂) = seq_ok fin tail₂ w₁ k₁ in
      let (finished, e₂) =
        on_aes_ok (feeder_finish O C) w₁ a (ap (λ (x : WriterState O C L). x.aes) e₁) h₂ in
      let w₂ = (fin w₁).0 in
      let b = (feeder_finish O C a).0 in
      let (h₃, k₃) = seq_ok fl (write_trailer O C L) w₂ k₂ in
      let (sunk, e₃) = on_aes_ok (flush O C L) w₂ b (ap (λ (x : WriterState O C L). x.aes) e₂) h₃ in
      let w₃ = (fl w₂).0 in
      let (chunks, good, holds, wrote) = flushed _ _ _ a view finished sunk in
      let md5_is : w₃.md5 ≡ concat ps =
        ap (λ (x : WriterState O C L). x.md5) (e₃)
        ∙ ap (λ (x : WriterState O C L). x.md5) (e₂)
        ∙ ap (λ (x : WriterState O C L). x.md5) (e₁)
        ∙ r.hashed in
      let (fits, trailer) =
        (write_final_metadata_lem O (hex_encode (C.md5 w₃.md5)) w₃.out).0 (result_of_ok _ k₃) in
      let run =
        seq_run (close_lz4 O C L) tail₁ w h₁
        ∙ seq_run fin tail₂ w₁ h₂
        ∙ seq_run fl (write_trailer O C L) w₂ h₃ in
      let base = base_of O C L crand before r.st in
      record {
        keys = r.st.keys;
        prepared = r.st.prepared;
        block = r.st.block;
        cipher = r.st.cipher;
        head_fits = r.st.head_fits;
        chunks = chunks;
        good = good;
        holds = holds;
        final_fits = subst (λ (t : List ℕ). Fits (final_value (hex_encode (C.md5 t)))) md5_is fits;
        wrote =
            ap (λ (x : WriterState O C L × Result (Unit {0})). written x.0.out) run
            ∙ trailer
            ∙ ap (λ (t : List ℕ). t ++ emit (final_value (hex_encode (C.md5 w₃.md5))))
                (ap (λ (x : WriterState O C L). written x.out) e₃ ∙ wrote)
            ∙ append_assoc base (data_bytes chunks) (emit (final_value (hex_encode (C.md5 w₃.md5))))
            ∙ ap
                (λ (t : List ℕ).
                  base ++ (data_bytes chunks ++ emit (final_value (hex_encode (C.md5 t)))))
                md5_is;
      }

  -- `Close` behind `start`, with its error recorded.
  pub close_steps-Stream :
      (closed : Bool) (ps : List (List ℕ)) (w : WriterState O C L)
      → Running O C L crand before closed ps w
      → (close_steps O C L w).1 ≡ ok tt
      → Stream O C L crand before.opts before.out ps (close_steps O C L w).0.out
  unfolding close_steps
  close_steps-Stream closed ps w r h =
      let (h₁, e) = recording_ok O C L crand before close_body w h in
      rw e (close_body-Stream closed ps w r h₁)
