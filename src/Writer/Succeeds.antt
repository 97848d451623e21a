-- ===== src/Writer/Succeeds.antt =====
-- csenc/encrypt.go: when `Encrypt` returns no error.
use cloudsync_decrypt_go.Common.{
  ℕ, ◌≡◌, refl, ap, ◌∙◌, Bool, true, false, List, [], ◌∷◌, ◌++◌, Option, Error, is_eof, Result, ok,
}
use cloudsync_decrypt_go.Common.Action.{◌>>◌, seq_run}
use cloudsync_decrypt_go.Wire.{Source}
use cloudsync_decrypt_go.Wire.Emit.{Fits}
use cloudsync_decrypt_go.Io.{Out}
use cloudsync_decrypt_go.Crypto.{Crypto}
use cloudsync_decrypt_go.Lz4.{Lz4}
use cloudsync_decrypt_go.Session.{EncryptOptions, rand, SessionKeys, prepare}
use cloudsync_decrypt_go.Encoder.Emits.{Reliable}
use cloudsync_decrypt_go.Encoder.Dicts.{leading_value}
use cloudsync_decrypt_go.Writer.{
  WriterState, Input, leading_metadata, start, start_unless, ensure_started, write_payload, add_md5,
  write, handed, copy, close_steps, close_when, close, encrypt_with, encrypt, new_writer,
}
use cloudsync_decrypt_go.Writer.Ready.{
  Ready, waiting, running, Numbers, ensure-Running, ensure-waiting, ensure-Ready, write_run,
  write-Running, copy-Ready,
}
use cloudsync_decrypt_go.Writer.Encrypt.{
  HasMinor, fresh_writer, new_writer_ok, numbers_of, marked, marked-Fresh, closed-Running,
  close-Running,
}
use cloudsync_decrypt_go.Writer.Steps.{start_total, push_total, recording_total, close_steps_total}

-- The key material can be prepared, and the metadata fits the wire format.
pub record CanStart (O : Out) (C : Crypto) (L : Lz4) (crand : Source)
    (o : EncryptOptions C.PublicKey) : Type 0 where
  pub keys : SessionKeys
  pub prepared : prepare C o (rand crand o) ≡ ok keys
  pub fits : Fits (leading_value C.base64_encode (leading_metadata O C L o keys))

module _ (O : Out) (C : Crypto) (L : Lz4) (crand : Source) (before : WriterState O C L)
    (reliable : Reliable O) (n : Numbers O C L crand before)
    (can : CanStart O C L crand before.opts) where
  -- The first call that starts the writer succeeds, whether or not the writer is marked as closed.
  start_fresh :
      (w : WriterState O C L)
      → w.started ≡ false
      → w.opts ≡ before.opts
      → (ensure_started O C L crand w).1 ≡ ok tt
  unfolding ensure_started start_unless start
  start_fresh w e same = rw e (
      recording_total O C L crand before reliable (start O C L crand) w (
        start_total O C L reliable crand w can.keys (rw same can.prepared) (rw same (n can.keys))
          (rw same can.fits)))

  ensure_total :
      (ps : List (List ℕ)) (w : WriterState O C L)
      → Ready O C L crand before ps w
      → (ensure_started O C L crand w).1 ≡ ok tt
  ensure_total ps w (waiting f e p c) = rw e (start_fresh before f.not_started refl)
  ensure_total ps w (running r) = rw (ensure-Running O C L crand before r)

  write_total :
      (ps : List (List ℕ)) (w : WriterState O C L) (p : List ℕ)
      → Ready O C L crand before ps w
      → (write O C L crand p w).1 ≡ ok tt
  write_total ps w p r =
      let ensure = ensure_started O C L crand in
      let push = add_md5 O C L p >> write_payload O C L p in
      let h = ensure_total ps w r in
      rw (write_run O C L crand before p r ∙ seq_run ensure push w h) (
        push_total O C L crand before reliable false ps (ensure w).0 p
          (ensure-Ready O C L crand before n r h))

  copy_total :
      (qs ps : List (List ℕ)) (fin : Error) (w : WriterState O C L)
      → is_eof fin ≡ true
      → Ready O C L crand before ps w
      → (copy O C L crand qs fin w).1 ≡ ok tt
  unfolding copy
  copy_total [] ps fin w e r = rw e
  copy_total ([] ∷ qs) ps fin w e r = copy_total qs ps fin w e r
  copy_total ((b ∷ bs) ∷ qs) ps fin w e r =
      let q = b ∷ bs in
      let first = write O C L crand q in
      let h = write_total ps w q r in
      rw (seq_run first (copy O C L crand qs fin) w h) (
        copy_total qs (ps ++ (q ∷ [])) fin (first w).0 e
          (running (write-Running O C L crand before ps w q n r h)))

  close_total :
      (ps : List (List ℕ)) (w : WriterState O C L)
      → Ready O C L crand before ps w
      → (close O C L crand w).1 ≡ ok tt
  unfolding close
  close_total ps w (running r) = rw (close-Running O C L crand before r) (
      close_steps_total O C L crand before reliable true ps _ (closed-Running O C L crand before r))
  close_total ps w (waiting f e p c) =
      let ensure = ensure_started O C L crand in
      let m = marked O C L crand before in
      let h = start_fresh m f.not_started refl in
      let run : close O C L crand before ≡ (ensure >> close_steps O C L) m =
        ap (λ (b : Bool). close_when O C L b before.failed crand before) c
        ∙ ap (λ (x : Option Error). close_when O C L false x crand before) f.unfailed in
      rw (e, run ∙ seq_run ensure (close_steps O C L) m h)
        (close_steps_total O C L crand m reliable true [] (ensure m).0
          (ensure-waiting O C L crand m (marked-Fresh O C L crand before f) n h))

  encrypt_with_total :
      (inp : Input)
      → is_eof inp.fin ≡ true
      → Ready O C L crand before [] before
      → (encrypt_with O C L crand inp before).1 ≡ ok tt
  unfolding encrypt_with
  encrypt_with_total inp e r =
      let h = copy_total inp.reads [] inp.fin before e r in
      rw (h, encrypt_with)
        (close_total (handed inp.reads) (copy O C L crand inp.reads inp.fin before).0
          (copy-Ready O C L crand before inp.reads [] inp.fin before n r h))

module _ (O : Out) (C : Crypto) (L : Lz4) (crand : Source) where
  open O use {W}
  open C use {PublicKey}

  -- `Encrypt` returns no error for options that `NewWriter` accepts, with a minor version that is an
  -- int64 value and not negative, if the output never fails, the input ends cleanly, the key material
  -- can be prepared from the random source and the leading metadata fits the wire format.
  pub encrypt_ok :
      (inp : Input) (out : W) (o : EncryptOptions PublicKey) (w : WriterState O C L)
      → Reliable O
      → HasMinor o
      → new_writer O C L out o ≡ ok w
      → CanStart O C L crand o
      → is_eof inp.fin ≡ true
      → (encrypt O C L crand inp out o).1 ≡ ok tt
  unfolding encrypt
  encrypt_ok inp out o w reliable m accepted can e =
      let (same, version) = new_writer_ok O C L crand out o w accepted in
      let w₀ = fresh_writer O C L crand out o in
      let accepted₀ : new_writer O C L out o ≡ ok w₀ =
        accepted ∙ ap {B = Result (WriterState O C L)} ok same in
      rw (accepted₀, encrypt)
        (encrypt_with_total O C L crand w₀ reliable (numbers_of O C L crand out o m version) can inp
          e
          (waiting (record { not_started = refl; no_md5 = refl; unfailed = refl }) refl refl refl))
