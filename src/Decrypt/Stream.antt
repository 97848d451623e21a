-- ===== src/Decrypt/Stream.antt =====
-- csenc/decrypt.go: `Decrypt` behind the magic, on the dicts of a stream without compression.
use cloudsync_decrypt_go.Common.{
  ℕ, suc, ◌+◌, ◌-◌, ◌≤◌, ◌<◌, ◌≡◌, refl, sym, ap, ◌∙◌, false, List, [], ◌∷◌, ◌++◌, append_assoc,
  arith, length, length-append, codes, concat, eof, Result, ok, Option, some, All, inr,
}
use cloudsync_decrypt_go.Common.Action.{seq_run, seq_ok}
use cloudsync_decrypt_go.Common.Signed.{is_pos}
use cloudsync_decrypt_go.Wire.{Value, Source, str, lookup_members}
use cloudsync_decrypt_go.Wire.Emit.{emit, Fits, length-emit_pos}
use cloudsync_decrypt_go.Wire.RoundTrip.{source}
use cloudsync_decrypt_go.Io.{Out}
use cloudsync_decrypt_go.Hex.{IsByte, hex_encode}
use cloudsync_decrypt_go.Crypto.{Crypto}
use cloudsync_decrypt_go.Lz4.{Lz4}
use cloudsync_decrypt_go.Padding.{pkcs7_pad}
use cloudsync_decrypt_go.Session.{EncryptOptions, SessionKeys, compress_on, rand, prepare}
use cloudsync_decrypt_go.Session.Prepared.{prepare-All}
use cloudsync_decrypt_go.Metadata.{Metadata}
use cloudsync_decrypt_go.Metadata.RoundTrip.{absorb-leading_members}
use cloudsync_decrypt_go.Recover.{Options, recover_session_key}
use cloudsync_decrypt_go.Recover.RoundTrip.{recover-prepare}
use cloudsync_decrypt_go.Encoder.Dicts.{
  HasNumbers, leading_members, leading_value, data_value, final_value,
}
use cloudsync_decrypt_go.Encoder.Emits.{Reliable}
use cloudsync_decrypt_go.Pipeline.Sink.{IsChunk, IsChunk-Fits, data_bytes}
use cloudsync_decrypt_go.Payload.{
  Stage, Pipe, direct, plain_of, new_decrypt_pipe, new_stage, feed, finish,
}
use cloudsync_decrypt_go.Payload.Direct.{feed_blocks, waiting_pipe}
use cloudsync_decrypt_go.Payload.Plaintext.{finish-feed_blocks}
use cloudsync_decrypt_go.Writer.{leading_metadata}
use cloudsync_decrypt_go.Writer.Start.{data_key}
use cloudsync_decrypt_go.Decrypt.{
  State, handle, decrypt_loop, loop_fuel, start_state, decrypt_stream, current, finish_pipe,
  check_md5,
}
use cloudsync_decrypt_go.Decrypt.Steps.{loop_step, handle_metadata, handle_first}
use cloudsync_decrypt_go.Decrypt.Chunks.{loop_chunks, loop_end}
use cloudsync_decrypt_go.Decrypt.Restore.{
  length-data_bytes, no_chunks, three_steps, meta_of, modes_ok, direct_mode, meta_of-Records,
  Restores, after_loop,
}

module _ (O : Out) (C : Crypto) (L : Lz4) (reliable : Reliable O) where
  open O use {W, written}
  open C use {PrivateKey, Block, cbc_encrypter, cbc_decrypter, crypt_blocks, base64_encode}

  -- The loop of `Decrypt`, and what follows it, on a stream behind its magic.
  module _ (W₂ : Out) (crand : Source) (o : EncryptOptions C.PublicKey) (keys : SessionKeys)
      (block : Block) (ps : List (List ℕ)) (sink : W) (rsa_key : Option PrivateKey)
      (prepared : prepare C o (rand crand o) ≡ ok keys)
      (cipher : C.new_cipher (data_key W₂ C L keys.raw).0 ≡ inr block)
      (numbers : HasNumbers (leading_metadata W₂ C L o keys)) (plain_mode : compress_on o ≡ false)
      (has_password : 0 < length o.password) (random_bytes : All IsByte (rand crand o).bytes) where
    abbrev opts : Options PrivateKey
    opts = record { password = some o.password; private_key = rsa_key }

    abbrev lead : Value
    lead = leading_value base64_encode (leading_metadata W₂ C L o keys)

    abbrev trail : List ℕ
    trail = hex_encode (C.md5 (concat ps))

    abbrev mode : C.Mode
    mode = cbc_decrypter block (data_key W₂ C L keys.raw).1

    abbrev meta : Metadata
    meta = meta_of W₂ C L o keys

    -- The state behind the leading dict.
    abbrev led : State O C L
    led = record (start_state O C L sink) { meta = meta }

    lead_step : handle O C L opts lead (start_state O C L sink) ≡ (led, ok tt)
    lead_step =
        handle_metadata O C L opts (leading_members base64_encode (leading_metadata W₂ C L o keys))
          (start_state O C L sink) meta t
          (absorb-leading_members C (leading_metadata W₂ C L o keys) numbers)
      where
        t :
            lookup_members
              (leading_members base64_encode (leading_metadata W₂ C L o keys))
              (codes "type")
            ≡ some (str (codes "metadata"))
        t = unfold lookup_members leading_members codes in refl

    opened_direct :
        new_decrypt_pipe O C L keys.raw led.plain false
        ≡ ok (waiting_pipe O C L reliable mode led.plain)
    unfolding new_decrypt_pipe new_stage
    opened_direct = rw (cipher, new_decrypt_pipe)

    opened :
        new_decrypt_pipe O C L keys.raw led.plain (is_pos led.meta.compress 1)
        ≡ ok (waiting_pipe O C L reliable mode led.plain)
    opened =
        ap (new_decrypt_pipe O C L keys.raw led.plain) (direct_mode W₂ C L o keys plain_mode)
        ∙ opened_direct

    recovered : recover_session_key C opts meta ≡ ok keys.raw
    recovered =
        recover-prepare C o (rand crand o) keys rsa_key meta prepared has_password
          (prepare-All C IsByte o (rand crand o) keys prepared random_bytes)
          (meta_of-Records W₂ C L o keys (rand crand o) prepared has_password)

    -- The bytes behind the magic.
    abbrev rest_of : List (List ℕ) → List ℕ
    rest_of cs = emit lead ++ (data_bytes cs ++ emit (final_value trail))

    -- Fuel for the two metadata dicts, one for each data dict, and some that is left over.
    fuel_shape :
        (c : List ℕ) (cs : List (List ℕ))
        → (f : ℕ) × (loop_fuel (source (rest_of (c ∷ cs)) eof)
            ≡ suc (suc (length cs + suc (suc f))))
    fuel_shape c cs =
        let n = length (rest_of (c ∷ cs)) in
        let enough : length cs + 3 ≤ n = omega (
          arith,
          length-append (emit lead) (data_bytes (c ∷ cs) ++ emit (final_value trail)),
          length-append (data_bytes (c ∷ cs)) (emit (final_value trail)),
          length-emit_pos lead,
          length-emit_pos (final_value trail),
          length-data_bytes (c ∷ cs),
        ) in
        (n - (length cs + 3), omega arith)

    loop_whole :
        (f : ℕ) (c : List ℕ) (cs : List (List ℕ)) (p : Pipe O C L)
        → Fits lead
        → Fits (final_value trail)
        → All IsChunk (c ∷ cs)
        → feed_blocks O C L reliable mode (c ∷ cs) (waiting_pipe O C L reliable mode led.plain)
          ≡ (p, ok tt)
        → decrypt_loop O C L
            (suc (suc (length cs + suc (suc f))))
            opts
            (source (rest_of (c ∷ cs)) eof)
            (start_state O C L sink)
          ≡ (
            record led {
              meta = record meta { plaintext_md5 = trail };
              pipe = some p;
              announced = meta ∷ [];
            },
            ok tt,
          )
    unfolding data_bytes
    loop_whole f c cs p lead_fits trail_fits g h =
        let w = waiting_pipe O C L reliable mode led.plain in
        let (h₁, h₂) =
          seq_ok (feed O C L c) (feed_blocks O C L reliable mode cs) w
            (ap (λ (r : Pipe O C L × Result (Unit {0})). r.1) h) in
        let p₁ = (feed O C L c w).0 in
        let first : feed O C L c w ≡ (p₁, ok tt) = ap (λ (x : Result (Unit {0})). (p₁, x)) h₁ in
        let later = sym (seq_run (feed O C L c) (feed_blocks O C L reliable mode cs) w h₁) ∙ h in
        let st₂ : State O C L = record led { announced = meta ∷ [] } in
        let tail = emit (final_value trail) in
        let open_step =
          handle_first O C L opts c keys.raw led w p₁ (modes_ok W₂ C L o keys plain_mode) recovered
            opened first in
        loop_step O C L (suc (length cs + suc (suc f))) opts lead (data_bytes (c ∷ cs) ++ tail) eof
          (start_state O C L sink) led lead_fits lead_step
        ∙ ap
            (λ (b : List ℕ).
              decrypt_loop O C L (suc (length cs + suc (suc f))) opts (source b eof) led)
            (append_assoc (emit (data_value c)) (data_bytes cs) tail)
        ∙ loop_step O C L (length cs + suc (suc f)) opts (data_value c) (data_bytes cs ++ tail) eof
            led (record st₂ { pipe = some p₁ }) (IsChunk-Fits c g.0.fits) open_step
        ∙ loop_chunks O C L reliable mode opts eof cs (suc (suc f)) tail st₂ p₁ p g.1 later
        ∙ loop_end O C L opts f trail (record st₂ { pipe = some p }) trail_fits

    -- `Decrypt` behind the magic.
    pub decrypt_stream-Restores :
        (cs : List (List ℕ))
        → Fits lead
        → Fits (final_value trail)
        → All IsChunk cs
        → concat cs
          ≡ (crypt_blocks
              (cbc_encrypter block (data_key W₂ C L keys.raw).1)
              (pkcs7_pad (concat ps) 16)).0
        → Restores O C L sink
            (concat ps)
            meta
            (decrypt_stream O C L opts (source (rest_of cs) eof) (start_state O C L sink))
    unfolding decrypt_stream
    decrypt_stream-Restores [] lead_fits trail_fits g e =
        absurd (no_chunks C block (data_key W₂ C L keys.raw).1 (concat ps) e)
    decrypt_stream-Restores (c ∷ cs) lead_fits trail_fits g e =
        let w = waiting_pipe O C L reliable mode led.plain in
        let blocks = feed_blocks O C L reliable mode (c ∷ cs) in
        let done =
          finish-feed_blocks O C L reliable block (data_key W₂ C L keys.raw).1 (concat ps) (c ∷ cs)
            led.plain g e in
        let (h₁, h₂) = seq_ok blocks (finish O C L) w done.succeeds in
        let p = (blocks w).0 in
        let p' = (finish O C L p).0 in
        let fed : blocks w ≡ (p, ok tt) = ap (λ (x : Result (Unit {0})). (p, x)) h₁ in
        let finished : finish O C L p ≡ (p', ok tt) = ap (λ (x : Result (Unit {0})). (p', x)) h₂ in
        let same = seq_run blocks (finish O C L) w h₁ in
        let stage_is : p'.stage ≡ direct done.now =
          sym (ap (λ (r : Pipe O C L × Result (Unit {0})). r.0.stage) same) ∙ done.stage_is in
        let st : State O C L = record led {
          meta = record meta { plaintext_md5 = trail };
          announced = meta ∷ [];
        } in
        let (f, fuel) = fuel_shape c cs in
        let loop =
          decrypt_loop O C L (loop_fuel (source (rest_of (c ∷ cs)) eof)) opts
            (source (rest_of (c ∷ cs)) eof) in
        let looped : loop (start_state O C L sink) ≡ (record st { pipe = some p }, ok tt) =
          ap
            (λ (n : ℕ).
              decrypt_loop O C L n opts (source (rest_of (c ∷ cs)) eof) (start_state O C L sink))
            fuel
          ∙ loop_whole f c cs p lead_fits trail_fits g fed in
        let hash : st.meta.plaintext_md5 ≡ hex_encode (C.md5 done.now.md5) =
          ap (λ (b : List ℕ). hex_encode (C.md5 b)) (sym done.hashed) in
        let whole =
          three_steps loop (finish_pipe O C L) (check_md5 O C L) (start_state O C L sink) _ _ looped
            (after_loop O C L reliable st p p' done.now finished stage_is hash) in
        record {
          succeeds = ap (λ (r : State O C L × Result (Unit {0})). r.1) whole;
          wrote =
              ap (λ (r : State O C L × Result (Unit {0})). written (current O C L r.0).out) whole
              ∙ ap (λ (x : Stage W L.Decoder). written (plain_of x).out) stage_is
              ∙ done.wrote;
          announced_once = ap (λ (r : State O C L × Result (Unit {0})). r.0.announced) whole;
        }
