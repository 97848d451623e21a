-- ===== src/Decrypt/Steps.antt =====
-- csenc/decrypt.go: one round of the loop of `Decrypt` on each of the dicts that `Encrypt` writes.
use cloudsync_decrypt_go.Common.{
  ℕ, suc, ◌≡◌, refl, ap, ◌∙◌, List, [], ◌∷◌, ◌++◌, codes, Error, Result, ok, none, some,
}
use cloudsync_decrypt_go.Common.Action.{◌>>◌, seq_run}
use cloudsync_decrypt_go.Common.Signed.{is_pos}
use cloudsync_decrypt_go.Wire.{Value, Members, dict, str, lookup_members}
use cloudsync_decrypt_go.Wire.Emit.{emit, Fits}
use cloudsync_decrypt_go.Wire.RoundTrip.{source, next-emit}
use cloudsync_decrypt_go.Io.{Out}
use cloudsync_decrypt_go.Crypto.{Crypto}
use cloudsync_decrypt_go.Lz4.{Lz4}
use cloudsync_decrypt_go.Metadata.{Metadata, absorb_members, check_modes}
use cloudsync_decrypt_go.Recover.{Options, recover_session_key}
use cloudsync_decrypt_go.Encoder.Dicts.{data_value}
use cloudsync_decrypt_go.Payload.{Pipe, new_decrypt_pipe, feed}
use cloudsync_decrypt_go.Decrypt.{
  State, merge, announce, open_pipe, ensure_pipe, feed_pipe, feed_member, handle_typed, handle,
  decrypt_loop,
}

module _ (O : Out) (C : Crypto) (L : Lz4) where
  open C use {PrivateKey}

  -- A value that is handled without an error.
  pub loop_step :
      (f : ℕ) (o : Options PrivateKey) (v : Value) (rest : List ℕ) (e : Error)
      (st st' : State O C L)
      → Fits v
      → handle O C L o v st ≡ (st', ok tt)
      → decrypt_loop O C L (suc f) o (source (emit v ++ rest) e) st
        ≡ decrypt_loop O C L f o (source rest e) st'
  unfolding decrypt_loop
  loop_step f o v rest e st st' h k =
      let m = handle O C L o v in
      let loop = decrypt_loop O C L f o (source rest e) in
      rw (next-emit v h rest e, decrypt_loop)
        (seq_run m loop st (ap (λ (r : State O C L × Result (Unit {0})). r.1) k)
          ∙ ap (λ (r : State O C L × Result (Unit {0})). loop r.0) k)

  -- A metadata dict is merged.
  pub handle_metadata :
      (o : Options PrivateKey) (ms : Members) (st : State O C L) (m : Metadata)
      → lookup_members ms (codes "type") ≡ some (str (codes "metadata"))
      → absorb_members C ms st.meta ≡ ok m
      → handle O C L o (dict ms) st ≡ (record st { meta = m }, ok tt)
  unfolding handle handle_typed merge codes
  handle_metadata o ms st m t a = rw (t, a, handle, merge)

  -- A data dict is handled by these two steps.
  data_steps :
      (o : Options PrivateKey) (c : List ℕ) (st : State O C L)
      → handle O C L o (data_value c) st ≡ (ensure_pipe O C L o >> feed_member O C L (some c)) st
  unfolding handle handle_typed data_value lookup_members codes
  data_steps o c st = refl

  feed_open :
      (c : List ℕ) (st : State O C L) (p p' : Pipe O C L)
      → feed O C L c p ≡ (p', ok tt)
      → feed_member O C L (some c) (record st { pipe = some p })
        ≡ (record st { pipe = some p' }, ok tt)
  unfolding feed_member feed_pipe
  feed_open c st p p' k = rw (k, feed_pipe) (ap after k)
    where
      after : Pipe O C L × Result (Unit {0}) → State O C L × Result (Unit {0})
      after r = (record st { pipe = some r.0 }, ok tt)

  ensure_open :
      (o : Options PrivateKey) (st : State O C L) (p : Pipe O C L)
      → ensure_pipe O C L o (record st { pipe = some p }) ≡ (record st { pipe = some p }, ok tt)
  unfolding ensure_pipe
  ensure_open o st p = refl

  ensure_first :
      (o : Options PrivateKey) (key : List ℕ) (st : State O C L) (p : Pipe O C L)
      → check_modes st.meta ≡ ok tt
      → recover_session_key C o st.meta ≡ ok key
      → new_decrypt_pipe O C L key st.plain (is_pos st.meta.compress 1) ≡ ok p
      → ensure_pipe O C L o (record st { pipe = none })
        ≡ (record st { pipe = some p; announced = st.announced ++ (st.meta ∷ []) }, ok tt)
  unfolding ensure_pipe announce open_pipe
  ensure_first o key st p modes k new = rw (modes, k, new, open_pipe)

  two_steps :
      (o : Options PrivateKey) (c : List ℕ) (st₀ st₁ st₂ : State O C L)
      → ensure_pipe O C L o st₀ ≡ (st₁, ok tt)
      → feed_member O C L (some c) st₁ ≡ (st₂, ok tt)
      → handle O C L o (data_value c) st₀ ≡ (st₂, ok tt)
  two_steps o c st₀ st₁ st₂ e k =
      data_steps o c st₀
      ∙ seq_run (ensure_pipe O C L o) (feed_member O C L (some c)) st₀
          (ap (λ (r : State O C L × Result (Unit {0})). r.1) e)
      ∙ ap (λ (r : State O C L × Result (Unit {0})). feed_member O C L (some c) r.0) e
      ∙ k

  -- A data dict for an open pipe is fed to it.
  pub handle_data :
      (o : Options PrivateKey) (c : List ℕ) (st : State O C L) (p p' : Pipe O C L)
      → feed O C L c p ≡ (p', ok tt)
      → handle O C L o (data_value c) (record st { pipe = some p })
        ≡ (record st { pipe = some p' }, ok tt)
  handle_data o c st p p' k =
      two_steps o c (record st { pipe = some p }) (record st { pipe = some p })
        (record st { pipe = some p' }) (ensure_open o st p) (feed_open c st p p' k)

  -- The first data dict opens the pipe.
  pub handle_first :
      (o : Options PrivateKey) (c key : List ℕ) (st : State O C L) (p p' : Pipe O C L)
      → check_modes st.meta ≡ ok tt
      → recover_session_key C o st.meta ≡ ok key
      → new_decrypt_pipe O C L key st.plain (is_pos st.meta.compress 1) ≡ ok p
      → feed O C L c p ≡ (p', ok tt)
      → handle O C L o (data_value c) (record st { pipe = none })
        ≡ (record st { pipe = some p'; announced = st.announced ++ (st.meta ∷ []) }, ok tt)
  handle_first o c key st p p' modes k new fed =
      let opened : State O C L = record st { announced = st.announced ++ (st.meta ∷ []) } in
      two_steps o c (record st { pipe = none }) (record opened { pipe = some p })
        (record opened { pipe = some p' }) (ensure_first o key st p modes k new)
        (feed_open c opened p p' fed)
