-- ===== src/Decrypt/Chunks.antt =====
-- csenc/decrypt.go: the loop of `Decrypt` over the data dicts and the trailing dict of a stream.
use cloudsync_decrypt_go.Common.{
  ℕ, suc, ◌+◌, ◌≡◌, refl, sym, ap, ◌∙◌, List, [], ◌∷◌, ◌++◌, append_assoc, append-nil, arith,
  length, codes, Error, eof, Result, ok, some, All,
}
use cloudsync_decrypt_go.Common.Action.{seq_run, seq_ok}
use cloudsync_decrypt_go.Wire.{str, member, no_members, lookup_members}
use cloudsync_decrypt_go.Wire.Emit.{emit, Fits}
use cloudsync_decrypt_go.Wire.RoundTrip.{source, next_at_eof}
use cloudsync_decrypt_go.Io.{Out}
use cloudsync_decrypt_go.Crypto.{Crypto}
use cloudsync_decrypt_go.Lz4.{Lz4}
use cloudsync_decrypt_go.Metadata.RoundTrip.{absorb-final_members}
use cloudsync_decrypt_go.Recover.{Options}
use cloudsync_decrypt_go.Encoder.Dicts.{data_value, final_value}
use cloudsync_decrypt_go.Encoder.Emits.{Reliable}
use cloudsync_decrypt_go.Pipeline.Sink.{IsChunk, IsChunk-Fits, data_bytes}
use cloudsync_decrypt_go.Payload.{Pipe, feed}
use cloudsync_decrypt_go.Payload.Direct.{feed_blocks}
use cloudsync_decrypt_go.Decrypt.{State, handle, decrypt_loop}
use cloudsync_decrypt_go.Decrypt.Steps.{loop_step, handle_metadata, handle_data}

module _ (O : Out) (C : Crypto) (L : Lz4) (reliable : Reliable O) (start : C.Mode)
    (o : Options C.PrivateKey) (e : Error) where
  -- An open pipe is fed one block after another.
  pub loop_chunks :
      (cs : List (List ℕ)) (f : ℕ) (rest : List ℕ) (st : State O C L) (p p' : Pipe O C L)
      → All IsChunk cs
      → feed_blocks O C L reliable start cs p ≡ (p', ok tt)
      → decrypt_loop O C L
          (length cs + f)
          o
          (source (data_bytes cs ++ rest) e)
          (record st { pipe = some p })
        ≡ decrypt_loop O C L f o (source rest e) (record st { pipe = some p' })
  unfolding data_bytes
  loop_chunks [] f rest st p p' g h =
      let same : 0 + f ≡ f = omega arith in
      rw same (
        ap
          (λ (q : Pipe O C L). decrypt_loop O C L f o (source rest e) (record st { pipe = some q }))
          (ap (λ (r : Pipe O C L × Result (Unit {0})). r.0) h))
  loop_chunks (c ∷ cs) f rest st p p' g h =
      let (h₁, h₂) =
        seq_ok (feed O C L c) (feed_blocks O C L reliable start cs) p
          (ap (λ (r : Pipe O C L × Result (Unit {0})). r.1) h) in
      let p₁ = (feed O C L c p).0 in
      let first : feed O C L c p ≡ (p₁, ok tt) = ap (λ (x : Result (Unit {0})). (p₁, x)) h₁ in
      let later = sym (seq_run (feed O C L c) (feed_blocks O C L reliable start cs) p h₁) ∙ h in
      let same : suc (length cs) + f ≡ suc (length cs + f) = omega arith in
      rw (same, append_assoc (emit (data_value c)) (data_bytes cs) rest)
        (loop_step O C L (length cs + f) o (data_value c) (data_bytes cs ++ rest) e
            (record st { pipe = some p }) (record st { pipe = some p₁ }) (IsChunk-Fits c g.0.fits)
            (handle_data O C L o c st p p₁ first)
          ∙ loop_chunks cs f rest st p₁ p' g.1 later)

module _ (O : Out) (C : Crypto) (L : Lz4) (o : Options C.PrivateKey) where
  handle_final :
      (h : List ℕ) (st : State O C L)
      → handle O C L o (final_value h) st
        ≡ (record st { meta = record st.meta { plaintext_md5 = h } }, ok tt)
  unfolding final_value
  handle_final h st =
      let ms =
        member (str (codes "type")) (str (codes "metadata"))
          (member (str (codes "file_md5")) (str h) no_members) in
      let t : lookup_members ms (codes "type") ≡ some (str (codes "metadata")) =
        unfold lookup_members codes in refl in
      handle_metadata O C L o ms st (record st.meta { plaintext_md5 = h }) t
        (absorb-final_members C h st.meta)

  at_end : (f : ℕ) (s : State O C L) → decrypt_loop O C L (suc f) o (source [] eof) s ≡ (s, ok tt)
  unfolding decrypt_loop
  at_end f s = rw (next_at_eof, decrypt_loop)

  -- Behind the trailing dict the reader is at its end.
  pub loop_end :
      (f : ℕ) (h : List ℕ) (st : State O C L)
      → Fits (final_value h)
      → decrypt_loop O C L (suc (suc f)) o (source (emit (final_value h)) eof) st
        ≡ (record st { meta = record st.meta { plaintext_md5 = h } }, ok tt)
  loop_end f h st fits =
      let m = record st.meta { plaintext_md5 = h } in
      ap (λ (b : List ℕ). decrypt_loop O C L (suc (suc f)) o (source b eof) st)
        (sym (append-nil (emit (final_value h))))
      ∙ loop_step O C L (suc f) o (final_value h) [] eof st (record st { meta = m }) fits
          (handle_final h st)
      ∙ at_end f (record st { meta = m })
