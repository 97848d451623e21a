-- ===== src/Writer/Ready.antt =====
-- csenc/encrypt.go: `Write` and the loop of `io.Copy`, from a fresh writer on.
use cloudsync_decrypt_go.Common.{
  ℕ, ◌≡◌, refl, sym, ap, ◌∙◌, Bool, true, false, List, [], ◌∷◌, ◌++◌, append_assoc, append-nil,
}
use cloudsync_decrypt_go.Common.{
  Option, none, some, Error, Result, ok, err, out_of_fuel, if◌then◌else◌, concat_snoc,
}
use cloudsync_decrypt_go.Common.Action.{Action, ◌>>◌, seq_ok, seq_run}
use cloudsync_decrypt_go.Wire.{Source}
use cloudsync_decrypt_go.Io.{Out}
use cloudsync_decrypt_go.Crypto.{Crypto}
use cloudsync_decrypt_go.Lz4.{Lz4}
use cloudsync_decrypt_go.Session.{compress_on, SessionKeys}
use cloudsync_decrypt_go.Encoder.Dicts.{HasNumbers}
use cloudsync_decrypt_go.Writer.{
  start_unless, write_when, WriterState, leading_metadata, recording, start, ensure_started,
  write_payload, add_md5, write, handed, copy,
}
use cloudsync_decrypt_go.Writer.Run.{Packed, plainly, framed, Running, write_payload-Pushed}
use cloudsync_decrypt_go.Writer.Start.{Started, start-Started}

module _ (O : Out) (C : Crypto) (L : Lz4) (crand : Source) (before : WriterState O C L) where
  open O use {W, written}
  open C use {Mode, Block, PublicKey, cbc_encrypter}
  open L use {Enc, enc_new, enc_write}

  -- A writer as `NewWriter` returns it.
  pub record Fresh : Type 0 where
    pub not_started : before.started ≡ false
    pub no_md5 : before.md5 ≡ []
    pub unfailed : before.failed ≡ none

  abbrev Recorded : (m : Action (WriterState O C L) (Unit {0})) (w : WriterState O C L) → Type 0
  Recorded m w =
      (recording O C L m w).1 ≡ ok tt → ((m w).1 ≡ ok tt) × ((recording O C L m w).0 ≡ (m w).0)

  pub recording_ok :
      (m : Action (WriterState O C L) (Unit {0})) (w : WriterState O C L) → Recorded m w
  recording_ok m w h = go (m w).1 refl
    where
      go :
          (r : Result (Unit {0}))
          → (m w).1 ≡ r
          → ((m w).1 ≡ ok tt) × ((recording O C L m w).0 ≡ (m w).0)
      go (ok u) e = (e, rw (e, recording))
      go (err x) e = cc (rw (e, recording) at h)
      go out_of_fuel e = cc (rw (e, recording) at h)

  Packed-start : (b : Bool) → Packed L b [] [] (if b then some enc_new else none)
  Packed-start true = framed refl enc_new (λ qs. refl)
  Packed-start false = plainly refl refl

  -- A fresh writer that has started is running, and nothing has been written to it.
  Started-Running :
      {w : WriterState O C L}
      → Fresh
      → (st : Started O C L crand before w) → Running O C L crand before before.closed [] w
  Started-Running {w} f st = record {
    origin = w;
    st = st;
    feeder = st.feeder;
    payload = [];
    view = st.view;
    packed = rw st.same (Packed-start (compress_on before.opts));
    aes_is = ap (λ (x : WriterState O C L). x.aes) st.same;
    out_is = ap (λ (x : WriterState O C L). x.out) st.same;
    hashed = ap (λ (x : WriterState O C L). x.md5) st.same ∙ f.no_md5;
    opts_are = ap (λ (x : WriterState O C L). x.opts) st.same;
    is_started = ap (λ (x : WriterState O C L). x.started) st.same;
    is_closed = ap (λ (x : WriterState O C L). x.closed) st.same;
    not_failed = ap (λ (x : WriterState O C L). x.failed) st.same ∙ f.unfailed;
  }

  abbrev ending : {A : Type 0} {r s : WriterState O C L × A} → r ≡ s → r.0 ≡ s.0
  ending e = ap (λ r. r.0) e

  -- Before the first `Write` nothing has happened; behind it the writer runs.
  pub data Ready (ps : List (List ℕ)) (w : WriterState O C L) : Type 0 where
    waiting : Fresh → w ≡ before → ps ≡ [] → before.closed ≡ false → Ready ps w
    running : Running O C L crand before false ps w → Ready ps w

  abbrev pub Numbers : Type 0
  Numbers = (s : SessionKeys) → HasNumbers (leading_metadata O C L before.opts s)

  pub ensure-waiting :
      Fresh
      → Numbers
      → (ensure_started O C L crand before).1 ≡ ok tt
      → Running O C L crand before before.closed [] (ensure_started O C L crand before).0
  unfolding ensure_started
  ensure-waiting f n h =
      let run : start_unless O C L before.started crand before
          ≡ recording O C L (start O C L crand) before =
        ap (λ (b : Bool). start_unless O C L b crand before) f.not_started in
      let (h₁, e₁) = recording_ok (start O C L crand) before (rw run at h) in
      rw (run, e₁) (Started-Running f (start-Started O C L crand before n h₁))

  pub ensure-Running :
      {closed : Bool} {ps : List (List ℕ)} {w : WriterState O C L}
      → Running O C L crand before closed ps w
      → ensure_started O C L crand w ≡ (w, ok tt)
  unfolding ensure_started
  ensure-Running {w} r = ap (λ (b : Bool). start_unless O C L b crand w) r.is_started

  -- `ensure_started` that succeeds on a ready writer leaves it running.
  pub ensure-Ready :
      {ps : List (List ℕ)} {w : WriterState O C L}
      → Numbers
      → Ready ps w
      → (ensure_started O C L crand w).1 ≡ ok tt
      → Running O C L crand before false ps (ensure_started O C L crand w).0
  ensure-Ready n (waiting f e p c) h = rw (e, p, ← c) (ensure-waiting f n (rw e at h))
  ensure-Ready n (running r) h = rw (ensure-Running r) r

  pub write_run :
      {ps : List (List ℕ)} {w : WriterState O C L} (p : List ℕ)
      → Ready ps w
      → write O C L crand p w
        ≡ (ensure_started O C L crand >> (add_md5 O C L p >> write_payload O C L p)) w
  unfolding write
  write_run {ps} {w} p r =
      ap (λ (b : Bool). write_when O C L b w.failed crand p w) (open_now r)
      ∙ ap (λ (x : Option Error). write_when O C L false x crand p w) (unfailed_now r)
    where
      open_now : Ready ps w → w.closed ≡ false
      open_now (waiting f e q c) = ap (λ (x : WriterState O C L). x.closed) e ∙ c
      open_now (running r) = r.is_closed

      unfailed_now : Ready ps w → w.failed ≡ none
      unfailed_now (waiting f e q c) = ap (λ (x : WriterState O C L). x.failed) e ∙ f.unfailed
      unfailed_now (running r) = r.not_failed

  -- The part of `Write` behind `start`, on a running writer.
  pub push-Running :
      (closed : Bool) (ps : List (List ℕ)) (w : WriterState O C L) (p : List ℕ)
      → Running O C L crand before closed ps w
      → ((add_md5 O C L p >> write_payload O C L p) w).1 ≡ ok tt
      → Running O C L crand before closed
          (ps ++ (p ∷ []))
          ((add_md5 O C L p >> write_payload O C L p) w).0
  unfolding add_md5
  push-Running closed ps w p r h =
      let w₂ : WriterState O C L = record w { md5 = w.md5 ++ p } in
      let (a, z, payload, view, packed, same) =
        write_payload-Pushed O C L crand before _ _ _ ps p r.payload w₂ r.feeder w₂.lz4_w refl
          r.aes_is r.out_is r.view r.packed h in
      record {
        origin = r.origin;
        st = r.st;
        feeder = a;
        payload = payload;
        view = view;
        packed = rw same packed;
        aes_is = ap (λ (x : WriterState O C L). x.aes) same;
        out_is = ap (λ (x : WriterState O C L). x.out) same;
        hashed =
            ap (λ (x : WriterState O C L). x.md5) same
            ∙ ap (λ (t : List ℕ). t ++ p) r.hashed
            ∙ sym (concat_snoc ps p);
        opts_are = ap (λ (x : WriterState O C L). x.opts) same ∙ r.opts_are;
        is_started = ap (λ (x : WriterState O C L). x.started) same ∙ r.is_started;
        is_closed = ap (λ (x : WriterState O C L). x.closed) same ∙ r.is_closed;
        not_failed = ap (λ (x : WriterState O C L). x.failed) same ∙ r.not_failed;
      }

  -- `Write` that returns no error, on a ready writer.
  pub write-Running :
      (ps : List (List ℕ)) (w : WriterState O C L) (p : List ℕ)
      → Numbers
      → Ready ps w
      → (write O C L crand p w).1 ≡ ok tt
      → Running O C L crand before false (ps ++ (p ∷ [])) (write O C L crand p w).0
  write-Running ps w p n ready h =
      let ensure = ensure_started O C L crand in
      let push = add_md5 O C L p >> write_payload O C L p in
      let run = write_run p ready in
      let (h₁, h₂) =
        seq_ok ensure push w
          (sym (ap (λ (r : WriterState O C L × Result (Unit {0})). r.1) run) ∙ h) in
      rw (run ∙ seq_run ensure push w h₁)
        (push-Running false ps (ensure w).0 p (ensure-Ready n ready h₁) h₂)

  -- The loop of `io.Copy` that returns no error has written every read that is not empty.
  pub copy-Ready :
      (qs ps : List (List ℕ)) (fin : Error) (w : WriterState O C L)
      → Numbers
      → Ready ps w
      → (copy O C L crand qs fin w).1 ≡ ok tt
      → Ready (ps ++ handed qs) (copy O C L crand qs fin w).0
  unfolding copy
  copy-Ready [] ps fin w n ready h = rw (append-nil ps) ready
  copy-Ready ([] ∷ qs) ps fin w n ready h = copy-Ready qs ps fin w n ready h
  copy-Ready ((b ∷ bs) ∷ qs) ps fin w n ready h =
      let q = b ∷ bs in
      let first = write O C L crand q in
      let rest = copy O C L crand qs fin in
      let (h₁, h₂) = seq_ok first rest w h in
      let next : Ready (ps ++ (q ∷ [])) (first w).0 = running (write-Running ps w q n ready h₁) in
      rw (seq_run first rest w h₁, ← append_assoc ps (q ∷ []) (handed qs))
        (copy-Ready qs (ps ++ (q ∷ [])) fin (first w).0 n next h₂)
