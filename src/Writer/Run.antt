-- ===== src/Writer/Run.antt =====
-- csenc/encrypt.go: the writer between `start` and `Close`. However the plaintext is cut into calls of
-- `Write`, the pipeline has been fed the same payload: the plaintext itself, or what the compressor
-- makes of these calls.
use cloudsync_decrypt_go.Common.{
  ℕ, ◌≡◌, sym, ap, ◌∙◌, Bool, true, false, List, [], ◌∷◌, ◌++◌, append_assoc, append-nil,
}
use cloudsync_decrypt_go.Common.{Option, none, some, Error, Result, ok, concat, concat_snoc}
use cloudsync_decrypt_go.Common.Action.{result_of, seq_ok, seq_run, result_of_ok}
use cloudsync_decrypt_go.Wire.{Source}
use cloudsync_decrypt_go.Io.{Out}
use cloudsync_decrypt_go.Crypto.{Crypto}
use cloudsync_decrypt_go.Lz4.{Lz4, frame_from}
use cloudsync_decrypt_go.Session.{compress_on}
use cloudsync_decrypt_go.Pipeline.{AesFeeder, feeder_write}
use cloudsync_decrypt_go.Pipeline.Feeder.{FeederView, feeder_write-View}
use cloudsync_decrypt_go.Writer.{WriterState, on_aes, feed_all, write_to, write_payload}
use cloudsync_decrypt_go.Writer.Start.{data_key, head_bytes, Started}

-- `payload` is what the calls `ps` of `Write` have put into the pipeline so far, by way of the
-- compressor if there is one.
pub data Packed (L : Lz4) (on : Bool) (ps : List (List ℕ)) (payload : List ℕ)
    : Option L.Enc → Type 0 where
  plainly : on ≡ false → payload ≡ concat ps → Packed L on ps payload none
  framed :
      on ≡ true
      → (z : L.Enc)
      → ((qs : List (List ℕ)) → frame_from L L.enc_new (ps ++ qs) ≡ payload ++ frame_from L z qs)
      → Packed L on ps payload (some z)

module _ (O : Out) (C : Crypto) (L : Lz4) (crand : Source) (before : WriterState O C L) where
  open O use {W, written}
  open C use {Mode, Block, PublicKey, cbc_encrypter}
  open L use {Enc, enc_new, enc_write}

  -- The bytes before the data dicts, and the payload cipher, of a writer that has started.
  abbrev pub base_of : {w : WriterState O C L} → Started O C L crand before w → List ℕ
  base_of st = written before.out ++ head_bytes O C L before.opts st.keys

  abbrev pub mode_of : {w : WriterState O C L} → Started O C L crand before w → Mode
  mode_of st = cbc_encrypter st.block (data_key O C L st.keys.raw).1

  -- The writer has started, and the calls `ps` of `Write` have succeeded.
  pub record Running (closed : Bool) (ps : List (List ℕ)) (w : WriterState O C L) : Type 0 where
    pub origin : WriterState O C L
    pub st : Started O C L crand before origin
    pub feeder : AesFeeder Mode W
    pub payload : List ℕ
    pub view : FeederView O C (base_of st) (mode_of st) payload feeder
    pub packed : Packed L (compress_on before.opts) ps payload w.lz4_w
    pub aes_is : w.aes ≡ some feeder
    pub out_is : w.out ≡ feeder.sink.out
    pub hashed : w.md5 ≡ concat ps
    pub opts_are : w.opts ≡ before.opts
    pub is_started : w.started ≡ true
    pub is_closed : w.closed ≡ closed
    pub not_failed : w.failed ≡ none

  pub on_aes_lem :
      (f : AesFeeder Mode W → AesFeeder Mode W × Option Error) (w : WriterState O C L)
      (a : AesFeeder Mode W)
      → w.aes ≡ some a
      → on_aes O C L f w
        ≡ (record w { aes = some (f a).0; out = (f a).0.sink.out }, result_of (f a).1)
  on_aes_lem f w a e = rw (e, on_aes)

  -- Only the pipeline has changed, and it has been fed `b` more.
  abbrev pub Fed : List ℕ → Mode → List ℕ → WriterState O C L → WriterState O C L → Type 0
  Fed base mode payload w w' =
      (a : AesFeeder Mode W) × FeederView O C base mode payload a
      × (w' ≡ record w { aes = some a; out = a.sink.out })

  pub on_aes-Fed :
      (base : List ℕ) (mode : Mode) (p payload : List ℕ) (w : WriterState O C L)
      (a : AesFeeder Mode W)
      → w.aes ≡ some a
      → FeederView O C base mode payload a
      → (on_aes O C L (feeder_write O C p) w).1 ≡ ok tt
      → Fed base mode (payload ++ p) w (on_aes O C L (feeder_write O C p) w).0
  on_aes-Fed base mode p payload w a e v h =
      let step = on_aes_lem (feeder_write O C p) w a e in
      let clean =
        result_of_ok _ (sym (ap (λ (r : WriterState O C L × Result (Unit {0})). r.1) step) ∙ h) in
      (
        (feeder_write O C p a).0,
        feeder_write-View O C base mode p a payload v clean,
        ap (λ (r : WriterState O C L × Result (Unit {0})). r.0) step,
      )

  pub feed_all-Fed :
      (base : List ℕ) (mode : Mode) (cs : List (List ℕ)) (payload : List ℕ) (w : WriterState O C L)
      (a : AesFeeder Mode W)
      → w.aes ≡ some a
      → w.out ≡ a.sink.out
      → FeederView O C base mode payload a
      → (feed_all O C L cs w).1 ≡ ok tt
      → Fed base mode (payload ++ concat cs) w (feed_all O C L cs w).0
  unfolding feed_all
  feed_all-Fed base mode [] payload w a e o v h = (a, rw (append-nil payload) v, rw (← e, ← o))
  feed_all-Fed base mode (c ∷ cs) payload w a e o v h =
      let m = on_aes O C L (feeder_write O C c) in
      let (h₁, h₂) = seq_ok m (feed_all O C L cs) w h in
      let run = seq_run m (feed_all O C L cs) w h₁ in
      let (a₁, v₁, e₁) = on_aes-Fed base mode c payload w a e v h₁ in
      let (a₂, v₂, e₂) =
        feed_all-Fed base mode cs (payload ++ c) (m w).0 a₁
          (ap (λ (x : WriterState O C L). x.aes) e₁) (ap (λ (x : WriterState O C L). x.out) e₁) v₁
          h₂ in
      (
        a₂,
        rw (← append_assoc payload c (concat cs)) v₂,
        ap (λ (r : WriterState O C L × Result (Unit {0})). r.0) run
            ∙ e₂
            ∙ ap (λ (x : WriterState O C L). record x { aes = some a₂; out = a₂.sink.out }) e₁,
      )

  -- One `dst.Write(p)`: the pipeline as it is then, what it has been fed, and the compressor.
  abbrev pub Pushed :
      Bool → List ℕ → Mode → List (List ℕ) → WriterState O C L → WriterState O C L → Type 0
  Pushed on base mode ps w w' =
      (a : AesFeeder Mode W) × (z : Option Enc) × (payload : List ℕ) × FeederView O C base mode
        payload a
      × Packed L on ps payload z
      × (w' ≡ record w { aes = some a; out = a.sink.out; lz4_w = z })

  Packed-more :
      (on : Bool) (ps : List (List ℕ)) (p payload : List ℕ) (z : Enc)
      → on ≡ true
      → ((qs : List (List ℕ)) → frame_from L enc_new (ps ++ qs) ≡ payload ++ frame_from L z qs)
      → Packed L on (ps ++ (p ∷ [])) (payload ++ concat (enc_write z p).1) (some (enc_write z p).0)
  unfolding frame_from
  Packed-more on ps p payload z t h = framed t _ λ qs.
      ap (frame_from L enc_new) (append_assoc ps (p ∷ []) qs)
      ∙ h (p ∷ qs)
      ∙ sym (append_assoc payload (concat (enc_write z p).1) (frame_from L (enc_write z p).0 qs))

  pub write_payload-Pushed :
      (on : Bool) (base : List ℕ) (mode : Mode) (ps : List (List ℕ)) (p payload : List ℕ)
      (w : WriterState O C L) (a : AesFeeder Mode W) (z : Option Enc)
      → w.lz4_w ≡ z
      → w.aes ≡ some a
      → w.out ≡ a.sink.out
      → FeederView O C base mode payload a
      → Packed L on ps payload z
      → (write_payload O C L p w).1 ≡ ok tt
      → Pushed on base mode (ps ++ (p ∷ [])) w (write_payload O C L p w).0
  unfolding write_payload
  write_payload-Pushed on base mode ps p payload w a none ez e o v (plainly t q) h =
      let run : write_payload O C L p w ≡ on_aes O C L (feeder_write O C p) w =
        ap (λ (y : Option Enc). write_to O C L y p w) ez in
      let (a₁, v₁, e₁) = on_aes-Fed base mode p payload w a e v (rw run at h) in
      (
        a₁,
        none,
        payload ++ p,
        v₁,
        plainly t (rw q (sym (concat_snoc ps p))),
        ap (λ (r : WriterState O C L × Result (Unit {0})). r.0) run
            ∙ e₁
            ∙ ap (λ (y : Option Enc). record w { aes = some a₁; out = a₁.sink.out; lz4_w = y }) ez,
      )
  write_payload-Pushed on base mode ps p payload w a (some z) ez e o v (framed t _ q) h =
      let w₁ : WriterState O C L = record w { lz4_w = some (enc_write z p).0 } in
      let run : write_payload O C L p w ≡ feed_all O C L (enc_write z p).1 w₁ =
        ap (λ (y : Option Enc). write_to O C L y p w) ez in
      let (a₁, v₁, e₁) =
        feed_all-Fed base mode (enc_write z p).1 payload w₁ a e o v (rw run at h) in
      (
        a₁,
        some (enc_write z p).0,
        payload ++ concat (enc_write z p).1,
        v₁,
        Packed-more on ps p payload z t q,
        ap (λ (r : WriterState O C L × Result (Unit {0})). r.0) run ∙ e₁,
      )
