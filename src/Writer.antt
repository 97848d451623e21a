-- ===== src/Writer.antt =====
-- csenc/encrypt.go: the streaming `Writer` and `Encrypt`. A method is an action on the writer's state.
-- `md5` holds the bytes that the plaintext hash has been fed. Once the pipeline is wired, its sink
-- holds the state of the output that `w.out` points to.
pub mod Start
pub mod Run
pub mod Ready
pub mod Complete
pub mod Encrypt
pub mod Steps
pub mod Succeeds
use cloudsync_decrypt_go.Common.{ℕ, Bool, true, false, List, [], ◌∷◌, ◌++◌, ◌&&◌, ◌||◌, not}
use cloudsync_decrypt_go.Common.{◌≡◌, refl, ap, concat}
use cloudsync_decrypt_go.Common.{Option, none, some, ◌==◌, if◌then◌else◌, length}
use cloudsync_decrypt_go.Common.{Error, eof, no_secret, bad_major, write_on_closed, nil_pointer}
use cloudsync_decrypt_go.Common.{inl, inr, Result, ok, err, out_of_fuel, is_eof}
use cloudsync_decrypt_go.Common.Action.{Action, ◌>>=◌, ◌>>◌, lift, result_of}
use cloudsync_decrypt_go.Common.Signed.{ℤ, pos, negsuc, is_pos}
use cloudsync_decrypt_go.Wire.{Source}
use cloudsync_decrypt_go.Io.{Out}
use cloudsync_decrypt_go.Crypto.{Crypto}
use cloudsync_decrypt_go.Hex.{hex_encode}
use cloudsync_decrypt_go.Lz4.{Lz4}
use cloudsync_decrypt_go.Keys.{evp_kdf}
use cloudsync_decrypt_go.Padding.{block_size}
use cloudsync_decrypt_go.Session.{
  EncryptOptions, major, minor, rand, compress_on, bool_as_int, SessionKeys, prepare,
}
use cloudsync_decrypt_go.Encoder.{
  LeadingMetadata, write_leading_metadata, write_final_metadata, write_magic,
}
use cloudsync_decrypt_go.Pipeline.{
  PendingSink, AesFeeder, feeder_write, feeder_finish, sink_flush, data_chunk_size,
}

abbrev pub is_none : {A : Type 0} → Option A → Bool
is_none none = true
is_none (some a) = false

pub record Writer (W Mode Enc K : Type 0) : Type 0 where
  pub out : W
  pub opts : EncryptOptions K
  pub md5 : List ℕ
  pub lz4_w : Option Enc
  pub aes : Option (AesFeeder Mode W)
  pub started : Bool
  pub closed : Bool
  pub failed : Option Error

-- What an `io.Reader` delivers to `io.Copy`: its reads, and the error that ends them.
pub record Input : Type 0 where
  pub reads : List (List ℕ)
  pub fin : Error

-- The reads that `io.Copy` hands on to `Write`: those that returned bytes.
abbrev pub handed : List (List ℕ) → List (List ℕ)
handed [] = []
handed ([] ∷ ps) = handed ps
handed ((b ∷ bs) ∷ ps) = (b ∷ bs) ∷ handed ps

pub concat-handed : (ps : List (List ℕ)) → concat (handed ps) ≡ concat ps
concat-handed [] = refl
concat-handed ([] ∷ ps) = concat-handed ps
concat-handed ((b ∷ bs) ∷ ps) = ap (λ (t : List ℕ). b ∷ (bs ++ t)) (concat-handed ps)

module _ (O : Out) (C : Crypto) (L : Lz4) where
  open O use {W}
  open C use {Mode, PublicKey, new_cipher, cbc_encrypter}
  open L use {Enc, enc_new, enc_write, enc_close}

  abbrev pub WriterState : Type 0
  WriterState = Writer W Mode Enc PublicKey

  unfoldable pub new_writer : W → EncryptOptions PublicKey → Result WriterState
  new_writer out o =
      if length o.password == 0 && is_none o.public_key
      then err no_secret
      else if not (is_pos (major o) 1) && not (is_pos (major o) 3)
      then err bad_major
      else ok (record {
        out = out;
        opts = o;
        md5 = [];
        lz4_w = none;
        aes = none;
        started = false;
        closed = false;
        failed = none;
      })

  -- A write to the output before the pipeline is wired.
  abbrev pub on_out : (W → W × Option Error) → Action WriterState (Unit {0})
  on_out f w = let r = f w.out in (record w { out = r.0 }, result_of r.1)

  -- A call on the feeder.
  abbrev pub on_aes :
      (AesFeeder Mode W → AesFeeder Mode W × Option Error) → Action WriterState (Unit {0})
  on_aes f w = elim w.aes [
    | none ↦ (w, err nil_pointer)
    | some a ↦ let r = f a in (record w { aes = some r.0; out = r.0.sink.out }, result_of r.1)
  ]

  abbrev pub leading_metadata : EncryptOptions PublicKey → SessionKeys → LeadingMetadata
  leading_metadata o s = record {
    major = major o;
    minor = minor o;
    salt = s.salt;
    enc_key1 = s.enc_key1;
    enc_key2 = s.enc_key2;
    key1_hash = s.key1_hash;
    sess_key_hash = s.sess_key_hash;
    compress = bool_as_int (compress_on o);
    encrypt = pos 1;
    filename = o.filename;
  }

  -- Step 6 of `start`, on the block cipher of the data key.
  unfoldable pub wire_pipeline : List ℕ → Action WriterState (Unit {0})
  wire_pipeline data_input w =
      let k = evp_kdf C data_input [] 1 32 block_size in
      elim (new_cipher k.0) [
        | inl e ↦ (w, err e)
        | inr block ↦ (
          record w {
            aes = some (record {
              enc = cbc_encrypter block k.1;
              buf = [];
              sink = record { out = w.out; buf = []; chunk_size = data_chunk_size };
            });
            lz4_w = if compress_on w.opts then some enc_new else none;
          },
          ok tt,
        )
      ]

  -- `start`; `crand` is crypto/rand.Reader.
  unfoldable pub start : Source → Action WriterState (Unit {0})
  start crand w = after (record w { started = true })
    where
      after : Action WriterState (Unit {0})
      after = do
        s ← lift (prepare C w.opts (rand crand w.opts))
        on_out (write_magic O C.md5)
        on_out (write_leading_metadata O C.base64_encode (leading_metadata w.opts s))
        wire_pipeline s.raw

  -- `w.failed = err` on an error.
  abbrev pub recording : Action WriterState (Unit {0}) → Action WriterState (Unit {0})
  recording m w = elim (m w).1 [
    | err e ↦ (record (m w).0 { failed = some e }, err e)
    | ok u ↦ ((m w).0, ok tt)
    | out_of_fuel ↦ ((m w).0, out_of_fuel)
  ]

  unfoldable pub start_unless : Bool → Source → Action WriterState (Unit {0})
  start_unless true crand w = (w, ok tt)
  start_unless false crand w = recording (start crand) w

  -- `if !w.started { ... }`
  unfoldable pub ensure_started : Source → Action WriterState (Unit {0})
  unfolding start_unless
  ensure_started crand w = start_unless w.started crand w

  -- The writes that the compressor makes to the feeder, up to the first error.
  unfoldable pub feed_all : List (List ℕ) → Action WriterState (Unit {0})
  feed_all [] w = (w, ok tt)
  feed_all (c ∷ cs) w = (on_aes (feeder_write O C c) >> feed_all cs) w

  -- `dst.Write(p)` on the compressor, if there is one, and else on the feeder.
  unfoldable pub write_to : Option Enc → List ℕ → Action WriterState (Unit {0})
  write_to (some z) p w = feed_all (enc_write z p).1 (record w { lz4_w = some (enc_write z p).0 })
  write_to none p w = on_aes (feeder_write O C p) w

  unfoldable pub write_payload : List ℕ → Action WriterState (Unit {0})
  unfolding write_to
  write_payload p w = write_to w.lz4_w p w

  unfoldable pub add_md5 : List ℕ → Action WriterState (Unit {0})
  add_md5 p w = (record w { md5 = w.md5 ++ p }, ok tt)

  -- What `Write` does, by the flags `closed` and `failed`.
  unfoldable pub write_when : Bool → Option Error → Source → List ℕ → Action WriterState (Unit {0})
  write_when true x crand p w = (w, err write_on_closed)
  write_when false (some e) crand p w = (w, err e)
  write_when false none crand p w = (ensure_started crand >> (add_md5 p >> write_payload p)) w

  unfoldable pub write : Source → List ℕ → Action WriterState (Unit {0})
  unfolding write_when
  write crand p w = write_when w.closed w.failed crand p w

  -- `w.lz4W.Close()`, if there is one.
  unfoldable pub close_compressor : Option Enc → Action WriterState (Unit {0})
  close_compressor (some z) w = feed_all (enc_close z) w
  close_compressor none w = (w, ok tt)

  unfoldable pub close_lz4 : Action WriterState (Unit {0})
  unfolding close_compressor
  close_lz4 w = close_compressor w.lz4_w w

  -- `w.sink.flush()`: the sink is the one that the feeder writes to.
  unfoldable pub flush : AesFeeder Mode W → AesFeeder Mode W × Option Error
  flush a = let r = sink_flush O a.sink in (record a { sink = r.0 }, r.1)

  unfoldable pub write_trailer : Action WriterState (Unit {0})
  write_trailer w = on_out (write_final_metadata O (hex_encode (C.md5 w.md5))) w

  -- The steps of `Close` behind `start`, each of which records its error.
  unfoldable pub close_steps : Action WriterState (Unit {0})
  close_steps =
      recording (close_lz4 >> (on_aes (feeder_finish O C) >> (on_aes flush >> write_trailer)))

  -- What `Close` does, by the flags `closed` and `failed`.
  unfoldable pub close_when : Bool → Option Error → Source → Action WriterState (Unit {0})
  close_when true x crand w = (w, result_of x)
  close_when false (some e) crand w = (record w { closed = true }, err e)
  close_when false none crand w = (ensure_started crand >> close_steps) (record w { closed = true })

  unfoldable pub close : Source → Action WriterState (Unit {0})
  unfolding close_when
  close crand w = close_when w.closed w.failed crand w

  unfoldable pub abort : WriterState → WriterState
  abort w = record w { closed = true }

  -- `io.Copy(w, in)`, which passes over a read of no bytes.
  unfoldable pub copy : Source → List (List ℕ) → Error → Action WriterState (Unit {0})
  copy crand [] fin w = (w, if is_eof fin then ok tt else err fin)
  copy crand ([] ∷ ps) fin w = copy crand ps fin w
  copy crand ((b ∷ bs) ∷ ps) fin w = (write crand (b ∷ bs) >> copy crand ps fin) w

  -- `Encrypt` on the writer that `NewWriter` returned.
  unfoldable pub encrypt_with : Source → Input → Action WriterState (Unit {0})
  encrypt_with crand inp w =
      let c = copy crand inp.reads inp.fin w in
      elim c.1 [
        | ok u ↦ close crand c.0
        | err e ↦ (abort c.0, err e)
        | out_of_fuel ↦ (c.0, out_of_fuel)
      ]

  -- `Encrypt`: the output as it is left, and the error.
  unfoldable pub encrypt : Source → Input → W → EncryptOptions PublicKey → W × Result (Unit {0})
  encrypt crand inp out o = elim (new_writer out o) [
    | ok w ↦ let r = encrypt_with crand inp w in (r.0.out, r.1)
    | err e ↦ (out, err e)
    | out_of_fuel ↦ (out, out_of_fuel)
  ]
