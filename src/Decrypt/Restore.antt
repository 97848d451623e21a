-- ===== src/Decrypt/Restore.antt =====
-- csenc/decrypt.go: the metadata of a stream without compression, and the end of `Decrypt`.
use cloudsync_decrypt_go.Common.{
  ℕ, ◌≤◌, ◌<◌, ◌≡◌, ◌≢◌, refl, sym, ap, ◌∙◌, true, false, List, [], ◌∷◌, ◌++◌, arith, length,
  length-append, Result, ok, some, eqb, eqb_refl, Bool-cases, inl, inr,
}
use cloudsync_decrypt_go.Common.Action.{Action, ◌>>◌, seq_run, seq_ok}
use cloudsync_decrypt_go.Common.Signed.{is_pos}
use cloudsync_decrypt_go.Wire.{Source}
use cloudsync_decrypt_go.Wire.Emit.{emit, length-emit_pos}
use cloudsync_decrypt_go.Io.{Out}
use cloudsync_decrypt_go.Hex.{hex_encode}
use cloudsync_decrypt_go.Crypto.{Crypto}
use cloudsync_decrypt_go.Lz4.{Lz4}
use cloudsync_decrypt_go.Padding.{pkcs7_pad}
use cloudsync_decrypt_go.Padding.RoundTrip.{length-pad, length-pad_mod}
use cloudsync_decrypt_go.Session.{EncryptOptions, SessionKeys, compress_on, bool_as_int, prepare}
use cloudsync_decrypt_go.Session.Prepared.{prepare-Prepared}
use cloudsync_decrypt_go.Metadata.{Metadata, check_modes}
use cloudsync_decrypt_go.Metadata.RoundTrip.{recorded}
use cloudsync_decrypt_go.Recover.RoundTrip.{Records, password_wrap, wrapped_nonempty}
use cloudsync_decrypt_go.Encoder.Dicts.{data_value}
use cloudsync_decrypt_go.Encoder.Emits.{Reliable}
use cloudsync_decrypt_go.Pipeline.Sink.{data_bytes}
use cloudsync_decrypt_go.Payload.{Plain, Pipe, direct, plain_of, finish}
use cloudsync_decrypt_go.Writer.{leading_metadata}
use cloudsync_decrypt_go.Decrypt.{State, current, finish_pipe, check_md5}

pub length-data_bytes : (cs : List (List ℕ)) → length cs ≤ length (data_bytes cs)
unfolding data_bytes
length-data_bytes [] = omega arith
length-data_bytes (c ∷ cs) = omega (
  arith,
  length-data_bytes cs,
  length-append (emit (data_value c)) (data_bytes cs),
  length-emit_pos (data_value c),
)

-- What the metadata of a stream without compression allows.
module _ (O : Out) (C : Crypto) (L : Lz4) (o : EncryptOptions C.PublicKey) where
  open C use {PrivateKey, base64_encode}

  abbrev pub meta_of : SessionKeys → Metadata
  meta_of s = recorded (leading_metadata O C L o s)

  pub modes_ok : (s : SessionKeys) → compress_on o ≡ false → check_modes (meta_of s) ≡ ok tt
  unfolding check_modes bool_as_int
  modes_ok s h = rw h

  pub direct_mode :
      (s : SessionKeys) → compress_on o ≡ false → is_pos (meta_of s).compress 1 ≡ false
  unfolding bool_as_int
  direct_mode s h = rw h

  pub meta_of-Records :
      (s : SessionKeys) (rnd : Source)
      → prepare C o rnd ≡ ok s
      → 0 < length o.password
      → Records C (meta_of s) s
  meta_of-Records s rnd h n =
      let w =
        wrapped_nonempty C o.password s.salt s.on_wire s.enc_key1
          (password_wrap C o s (prepare-Prepared C o rnd s h) n) in
      record { salt_is = refl; key1_is = rw w; key1_hash_is = refl; session_hash_is = refl }

-- A padded plaintext has a block at least.
pub no_chunks :
    (C : Crypto) (block : C.Block) (iv plain : List ℕ)
    → [] ≢ (C.crypt_blocks (C.cbc_encrypter block iv) (pkcs7_pad plain 16)).0
no_chunks C block iv plain e = omega (
  arith,
  ap (λ (x : List ℕ). length x) e,
  C.length-crypt (C.cbc_encrypter block iv) (pkcs7_pad plain 16) (length-pad_mod plain),
  length-pad plain,
)

pub three_steps :
    {S : Type 0} (m k l : Action S (Unit {0})) (s t u : S)
    → m s ≡ (t, ok tt)
    → (k >> l) t ≡ (u, ok tt)
    → ((m >> k) >> l) s ≡ (u, ok tt)
three_steps {S} m k l s t u h g =
    let h₁ = ap (λ (r : S × Result (Unit {0})). r.1) h in
    let (k₁, k₂) = seq_ok k l t (ap (λ (r : S × Result (Unit {0})). r.1) g) in
    let mk : (m >> k) s ≡ k t = seq_run m k s h₁ ∙ ap (λ (r : S × Result (Unit {0})). k r.0) h in
    seq_run (m >> k) l s (ap (λ (r : S × Result (Unit {0})). r.1) mk ∙ k₁)
    ∙ ap (λ (r : S × Result (Unit {0})). l r.0) mk
    ∙ sym (seq_run k l t k₁)
    ∙ g

-- `Decrypt` has succeeded: it has written the plaintext, and announced the leading metadata once.
pub record Restores (O : Out) (C : Crypto) (L : Lz4) (sink : O.W) (plain : List ℕ) (m : Metadata)
    (r : State O C L × Result (Unit {0})) : Type 0 where
  pub succeeds : r.1 ≡ ok tt
  pub wrote : O.written (current O C L r.0).out ≡ O.written sink ++ plain
  pub announced_once : r.0.announced ≡ m ∷ []

module _ (O : Out) (C : Crypto) (L : Lz4) (reliable : Reliable O) where
  open O use {W, written}
  open C use {PrivateKey, Block, cbc_encrypter, cbc_decrypter, crypt_blocks, base64_encode}

  -- The steps behind the loop, on a pipe that finishes with the plaintext.
  pub after_loop :
      (st : State O C L) (p p' : Pipe O C L) (now : Plain W)
      → finish O C L p ≡ (p', ok tt)
      → p'.stage ≡ direct now
      → st.meta.plaintext_md5 ≡ hex_encode (C.md5 now.md5)
      → (finish_pipe O C L >> check_md5 O C L) (record st { pipe = some p })
        ≡ (record st { pipe = some p' }, ok tt)
  unfolding finish_pipe check_md5
  after_loop st p p' now f s h =
      let st' : State O C L = record st { pipe = some p' } in
      let finished : finish_pipe O C L (record st { pipe = some p }) ≡ (st', ok tt) =
        ap (λ (r : Pipe O C L × Result (Unit {0})). (record st { pipe = some r.0 }, r.1)) f in
      let same : eqb (hex_encode (C.md5 (plain_of p'.stage).md5)) st.meta.plaintext_md5 ≡ true =
        rw (s, h) (eqb_refl (hex_encode (C.md5 now.md5))) in
      let checked : check_md5 O C L st' ≡ (st', ok tt) =
        elim (Bool-cases (eqb st.meta.plaintext_md5 [])) [
          | inl e ↦ rw (e, check_md5)
          | inr e ↦ rw (e, same, check_md5)
        ] in
      seq_run (finish_pipe O C L) (check_md5 O C L) (record st { pipe = some p })
        (ap (λ (r : State O C L × Result (Unit {0})). r.1) finished)
      ∙ ap (λ (r : State O C L × Result (Unit {0})). check_md5 O C L r.0) finished
      ∙ checked
