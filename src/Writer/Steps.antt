-- ===== src/Writer/Steps.antt =====
-- csenc/encrypt.go: the steps of `start`, `Write` and `Close` on a writer whose output never fails.
use cloudsync_decrypt_go.Common.{
  ℕ, ◌≡◌, refl, ap, ◌∙◌, Bool, true, List, [], ◌∷◌, ◌++◌, arith, Option, none, some, Error, Result,
  ok, codes,
}
use cloudsync_decrypt_go.Common.Action.{Action, ◌>>◌, lift, result_of, seq_run, bind_run}
use cloudsync_decrypt_go.Wire.{Source}
use cloudsync_decrypt_go.Wire.Emit.{Fits}
use cloudsync_decrypt_go.Io.{Out}
use cloudsync_decrypt_go.Crypto.{Crypto}
use cloudsync_decrypt_go.Hex.{hex_encode, length-hex_encode}
use cloudsync_decrypt_go.Lz4.{Lz4}
use cloudsync_decrypt_go.Keys.Laws.{evp_kdf_lengths}
use cloudsync_decrypt_go.Padding.{block_size}
use cloudsync_decrypt_go.Session.{rand, SessionKeys, prepare}
use cloudsync_decrypt_go.Encoder.{file_magic, write_magic, write_leading_metadata}
use cloudsync_decrypt_go.Encoder.Emits.{Reliable}
use cloudsync_decrypt_go.Encoder.Dicts.{
  HasNumbers, leading_value, final_value, write_leading_metadata_lem, write_final_metadata_lem,
}
use cloudsync_decrypt_go.Pipeline.{AesFeeder, feeder_write, feeder_finish}
use cloudsync_decrypt_go.Pipeline.Sink.{sink_flush_total}
use cloudsync_decrypt_go.Pipeline.Feeder.{
  FeederView, feeder_write_total, feeder_finish_total, feeder_finish-View,
}
use cloudsync_decrypt_go.Writer.{
  WriterState, leading_metadata, on_out, on_aes, wire_pipeline, start, recording, feed_all,
  write_to, write_payload, add_md5, close_compressor, close_lz4, flush, write_trailer, close_steps,
}
use cloudsync_decrypt_go.Writer.Start.{data_key}
use cloudsync_decrypt_go.Writer.Run.{Running, on_aes_lem, on_aes-Fed, base_of, mode_of}
use cloudsync_decrypt_go.Writer.Ready.{}
use cloudsync_decrypt_go.Writer.Complete.{close_lz4-Fed, close_body, on_aes_ok}
use cloudsync_decrypt_go.Writer.Encrypt.{}

final-Fits : (C : Crypto) (b : List ℕ) → Fits (final_value (hex_encode (C.md5 b)))
unfolding Fits final_value codes
final-Fits C b = omega (arith, length-hex_encode (C.md5 b), C.length-md5 b)

module _ (O : Out) (C : Crypto) (L : Lz4) (reliable : Reliable O) where
  open O use {W}
  open C use {Mode, PublicKey, new_cipher, new_cipher_32, base64_encode}

  wire_pipeline_total :
      (raw : List ℕ) (w : WriterState O C L) → (wire_pipeline O C L raw w).1 ≡ ok tt
  unfolding wire_pipeline
  wire_pipeline_total raw w =
      let (block, e) =
        new_cipher_32 (data_key O C L raw).0 (evp_kdf_lengths C raw [] 1 32 block_size).0 in
      rw (e, wire_pipeline)

  write_magic_total : (w : W) → (write_magic O C.md5 w).1 ≡ none
  unfolding write_magic
  write_magic_total w = rw (reliable w (codes file_magic), write_magic) (reliable _ _)

  -- `start` succeeds on every writer whose key material can be prepared and whose metadata fits.
  pub start_total :
      (crand : Source) (w : WriterState O C L) (s : SessionKeys)
      → prepare C w.opts (rand crand w.opts) ≡ ok s
      → HasNumbers (leading_metadata O C L w.opts s)
      → Fits (leading_value base64_encode (leading_metadata O C L w.opts s))
      → (start O C L crand w).1 ≡ ok tt
  unfolding start
  start_total crand w s prepared numbers fits =
      let w₀ : WriterState O C L = record w { started = true } in
      let magic = on_out O C L (write_magic O C.md5) in
      let lead = λ (s : SessionKeys).
        on_out O C L (write_leading_metadata O base64_encode (leading_metadata O C L w.opts s)) in
      let tail = λ (s : SessionKeys). lead s >> wire_pipeline O C L s.raw in
      let body = λ (s : SessionKeys). magic >> tail s in
      let w₁ = (magic w₀).0 in
      let wrote =
        (write_leading_metadata_lem O base64_encode (leading_metadata O C L w.opts s) w₁.out
            numbers).1
          reliable fits in
      let run =
        bind_run (lift (prepare C w.opts (rand crand w.opts))) body w₀ s prepared
        ∙ seq_run magic (tail s) w₀ (ap result_of (write_magic_total w.out))
        ∙ seq_run (lead s) (wire_pipeline O C L s.raw) w₁ (ap result_of wrote) in
      ap (λ (r : WriterState O C L × Result (Unit {0})). r.1) run
      ∙ wire_pipeline_total s.raw (lead s w₁).0

module _ (O : Out) (C : Crypto) (L : Lz4) (crand : Source) (before : WriterState O C L)
    (reliable : Reliable O) where
  open O use {W}
  open C use {Mode}
  open L use {Enc, enc_write, enc_close}

  on_aes_total :
      (f : AesFeeder Mode W → AesFeeder Mode W × Option Error) (w : WriterState O C L)
      (a : AesFeeder Mode W)
      → w.aes ≡ some a
      → (f a).1 ≡ none
      → (on_aes O C L f w).1 ≡ ok tt
  on_aes_total f w a e h =
      ap (λ (r : WriterState O C L × Result (Unit {0})). r.1)
        (on_aes_lem O C L crand before f w a e)
      ∙ ap result_of h

  module _ (base : List ℕ) (mode : Mode) where
    on_aes-feeder :
        (p payload : List ℕ) (w : WriterState O C L) (a : AesFeeder Mode W)
        → w.aes ≡ some a
        → FeederView O C base mode payload a
        → (on_aes O C L (feeder_write O C p) w).1 ≡ ok tt
    on_aes-feeder p payload w a e v =
        on_aes_total (feeder_write O C p) w a e
          (feeder_write_total O C base mode p a reliable v.sunk.size_fits)

    feed_all_total :
        (cs : List (List ℕ)) (payload : List ℕ) (w : WriterState O C L) (a : AesFeeder Mode W)
        → w.aes ≡ some a
        → FeederView O C base mode payload a
        → (feed_all O C L cs w).1 ≡ ok tt
    unfolding feed_all
    feed_all_total [] payload w a e v = refl
    feed_all_total (c ∷ cs) payload w a e v =
        let m = on_aes O C L (feeder_write O C c) in
        let h = on_aes-feeder c payload w a e v in
        let (a₁, v₁, e₁) = on_aes-Fed O C L crand before base mode c payload w a e v h in
        rw (seq_run m (feed_all O C L cs) w h) (
          feed_all_total cs (payload ++ c) (m w).0 a₁ (ap (λ (x : WriterState O C L). x.aes) e₁) v₁)

    write_to_total :
        (z : Option Enc) (p payload : List ℕ) (w : WriterState O C L) (a : AesFeeder Mode W)
        → w.aes ≡ some a
        → FeederView O C base mode payload a
        → (write_to O C L z p w).1 ≡ ok tt
    unfolding write_to
    write_to_total none p payload w a e v = on_aes-feeder p payload w a e v
    write_to_total (some z) p payload w a e v =
        feed_all_total (enc_write z p).1 payload (record w { lz4_w = some (enc_write z p).0 }) a e v

    close_compressor_total :
        (z : Option Enc) (payload : List ℕ) (w : WriterState O C L) (a : AesFeeder Mode W)
        → w.aes ≡ some a
        → FeederView O C base mode payload a
        → (close_compressor O C L z w).1 ≡ ok tt
    unfolding close_compressor
    close_compressor_total none payload w a e v = refl
    close_compressor_total (some z) payload w a e v = feed_all_total (enc_close z) payload w a e v

    flush_total :
        (payload : List ℕ) (a : AesFeeder Mode W)
        → FeederView O C base mode payload a
        → (flush O C L (feeder_finish O C a).0).1 ≡ none
    unfolding flush
    flush_total payload a v =
        let done = feeder_finish_total O C base mode a reliable v.sunk.size_fits in
        let (sunk, small) = feeder_finish-View O C base mode a payload v done in
        sink_flush_total O base (feeder_finish O C a).0.sink reliable
          (omega (arith, sunk.size_fits))

  -- The part of `Write` behind `start`.
  pub push_total :
      (closed : Bool) (ps : List (List ℕ)) (w : WriterState O C L) (p : List ℕ)
      → Running O C L crand before closed ps w
      → ((add_md5 O C L p >> write_payload O C L p) w).1 ≡ ok tt
  unfolding add_md5 write_payload
  push_total closed ps w p r =
      write_to_total _ _ w.lz4_w p r.payload (record w { md5 = w.md5 ++ p }) r.feeder r.aes_is
        r.view

  trailer_total : (w : WriterState O C L) → (write_trailer O C L w).1 ≡ ok tt
  unfolding write_trailer
  trailer_total w = ap result_of (
      (write_final_metadata_lem O (hex_encode (C.md5 w.md5)) w.out).1 reliable (final-Fits C w.md5))

  close_body_total :
      (closed : Bool) (ps : List (List ℕ)) (w : WriterState O C L)
      → Running O C L crand before closed ps w
      → (close_body O C L crand before w).1 ≡ ok tt
  unfolding close_lz4
  close_body_total closed ps w r =
      let base = base_of O C L crand before r.st in
      let mode = mode_of O C L crand before r.st in
      let fin = on_aes O C L (feeder_finish O C) in
      let fl = on_aes O C L (flush O C L) in
      let tail₂ = fl >> write_trailer O C L in
      let tail₁ = fin >> tail₂ in
      let h₁ = close_compressor_total base mode w.lz4_w r.payload w r.feeder r.aes_is r.view in
      let (a, view, e₁) = close_lz4-Fed O C L crand before closed ps w r h₁ in
      let w₁ = (close_lz4 O C L w).0 in
      let h₂ =
        on_aes_total (feeder_finish O C) w₁ a (ap (λ (x : WriterState O C L). x.aes) e₁)
          (feeder_finish_total O C base mode a reliable view.sunk.size_fits) in
      let (_, e₂) =
        on_aes_ok O C L crand before (feeder_finish O C) w₁ a
          (ap (λ (x : WriterState O C L). x.aes) e₁) h₂ in
      let w₂ = (fin w₁).0 in
      let h₃ =
        on_aes_total (flush O C L) w₂ (feeder_finish O C a).0
          (ap (λ (x : WriterState O C L). x.aes) e₂) (flush_total base mode _ a view) in
      let run =
        seq_run (close_lz4 O C L) tail₁ w h₁
        ∙ seq_run fin tail₂ w₁ h₂
        ∙ seq_run fl (write_trailer O C L) w₂ h₃ in
      ap (λ (x : WriterState O C L × Result (Unit {0})). x.1) run ∙ trailer_total (fl w₂).0

  pub recording_total :
      (m : Action (WriterState O C L) (Unit {0})) (w : WriterState O C L)
      → (m w).1 ≡ ok tt
      → (recording O C L m w).1 ≡ ok tt
  recording_total m w h = rw (h, recording)

  pub close_steps_total :
      (closed : Bool) (ps : List (List ℕ)) (w : WriterState O C L)
      → Running O C L crand before closed ps w
      → (close_steps O C L w).1 ≡ ok tt
  unfolding close_steps
  close_steps_total closed ps w r =
      recording_total (close_body O C L crand before) w (close_body_total closed ps w r)
