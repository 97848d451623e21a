-- ===== src/Writer/Encrypt.antt =====
-- csenc/encrypt.go: `Close` and `Encrypt` as a whole.
use cloudsync_decrypt_go.Common.{
  ℕ, ◌<◌, ◌≡◌, refl, sym, ap, ◌∙◌, Bool, true, false, List, [], ◌⊎◌, inl, inr, arith,
}
use cloudsync_decrypt_go.Common.{
  Option, none, Error, Result, ok, err, out_of_fuel, Bool-cases, length,
}
use cloudsync_decrypt_go.Common.Action.{◌>>◌, seq_ok, seq_run}
use cloudsync_decrypt_go.Wire.{Source}
use cloudsync_decrypt_go.Io.{Out}
use cloudsync_decrypt_go.Crypto.{Crypto}
use cloudsync_decrypt_go.Lz4.{Lz4}
use cloudsync_decrypt_go.Common.{◌^◌, ◌==◌, ◌&&◌}
use cloudsync_decrypt_go.Common.Signed.{pos, is_pos, is_pos→eq}
use cloudsync_decrypt_go.Writer.{Input, is_none}
use cloudsync_decrypt_go.Session.{major, minor, bool_as_int, EncryptOptions, compress_on}
use cloudsync_decrypt_go.Writer.{WriterState, ensure_started, handed, copy}
use cloudsync_decrypt_go.Writer.Run.{Running}
use cloudsync_decrypt_go.Writer.Ready.{
  Ready, waiting, running, Fresh, Numbers, ensure-Running, ensure-waiting, copy-Ready,
}
use cloudsync_decrypt_go.Writer.{close_steps, close, close_when, encrypt_with, encrypt, new_writer}
use cloudsync_decrypt_go.Writer.Complete.{Stream, close_steps-Stream}

module _ (O : Out) (C : Crypto) (L : Lz4) (crand : Source) (before : WriterState O C L) where
  open O use {W, written}

  -- Marking a writer as closed is no matter to what it has written.
  pub closed-Running :
      {ps : List (List ℕ)} {w : WriterState O C L}
      → Running O C L crand before false ps w
      → Running O C L crand before true ps (record w { closed = true })
  closed-Running r = record {
    origin = r.origin;
    st = r.st;
    feeder = r.feeder;
    payload = r.payload;
    view = r.view;
    packed = r.packed;
    aes_is = r.aes_is;
    out_is = r.out_is;
    hashed = r.hashed;
    opts_are = r.opts_are;
    is_started = r.is_started;
    is_closed = refl;
    not_failed = r.not_failed;
  }

  pub close-Running :
      {ps : List (List ℕ)} {w : WriterState O C L}
      → Running O C L crand before false ps w
      → close O C L crand w ≡ close_steps O C L (record w { closed = true })
  unfolding close
  close-Running {w} r =
      let w' : WriterState O C L = record w { closed = true } in
      ap (λ (b : Bool). close_when O C L b w.failed crand w) r.is_closed
      ∙ ap (λ (x : Option Error). close_when O C L false x crand w) r.not_failed
      ∙ seq_run (ensure_started O C L crand) (close_steps O C L) w' (
          ap (λ (x : WriterState O C L × Result (Unit {0})). x.1)
            (ensure-Running O C L crand before (closed-Running r)))
      ∙ ap (λ (x : WriterState O C L × Result (Unit {0})). close_steps O C L x.0)
          (ensure-Running O C L crand before (closed-Running r))

-- The outcome of `Close` on a ready writer.
module _ (O : Out) (C : Crypto) (L : Lz4) (crand : Source) (before : WriterState O C L) where
  abbrev pub marked : WriterState O C L
  marked = record before { closed = true }

  pub marked-Fresh : Fresh O C L crand before → Fresh O C L crand marked
  marked-Fresh f = record { not_started = f.not_started; no_md5 = f.no_md5; unfailed = f.unfailed }

  close_waiting-Stream :
      Fresh O C L crand before
      → before.closed ≡ false
      → Numbers O C L crand before
      → (close O C L crand before).1 ≡ ok tt
      → Stream O C L crand before.opts before.out [] (close O C L crand before).0.out
  unfolding close
  close_waiting-Stream f c n h =
      let ensure = ensure_started O C L crand in
      let run : close O C L crand before ≡ (ensure >> close_steps O C L) marked =
        ap (λ (b : Bool). close_when O C L b before.failed crand before) c
        ∙ ap (λ (x : Option Error). close_when O C L false x crand before) f.unfailed in
      let (h₁, h₂) =
        seq_ok ensure (close_steps O C L) marked
          (sym (ap (λ (x : WriterState O C L × Result (Unit {0})). x.1) run) ∙ h) in
      let r = ensure-waiting O C L crand marked (marked-Fresh f) n h₁ in
      rw (run ∙ seq_run ensure (close_steps O C L) marked h₁)
        (close_steps-Stream O C L crand marked true [] (ensure marked).0 r h₂)

  -- `Close` that returns no error, on a writer that nothing or all of `ps` was written to.
  pub close-Stream :
      (ps : List (List ℕ)) (w : WriterState O C L)
      → Numbers O C L crand before
      → Ready O C L crand before ps w
      → (close O C L crand w).1 ≡ ok tt
      → Stream O C L crand before.opts before.out ps (close O C L crand w).0.out
  close-Stream ps w n (waiting f e p c) h = rw (e, p) (close_waiting-Stream f c n (rw e at h))
  close-Stream ps w n (running r) h =
      let run = close-Running O C L crand before r in
      rw run (
        close_steps-Stream O C L crand before true ps _ (closed-Running O C L crand before r)
          (rw run at h))

-- The minor version is a number that the wire format has.
pub record HasMinor {K : Type 0} (o : EncryptOptions K) : Type 0 where
  pub number : ℕ
  pub minor_is : o.opt_minor ≡ pos number
  pub in_range : number < 2 ^ 63

minor_lem :
    {K : Type 0} (o : EncryptOptions K) → HasMinor o → (n : ℕ) × (minor o ≡ pos n) × (n < 2 ^ 63)
unfolding minor
minor_lem o h = elim (Bool-cases (is_pos o.opt_major 0 && is_pos o.opt_minor 0)) [
  | inl e ↦ (1, rw e, omega arith)
  | inr e ↦ (h.number, rw e h.minor_is, h.in_range)
]

compress_number : (b : Bool) → (n : ℕ) × (bool_as_int b ≡ pos n) × (n < 2 ^ 63)
unfolding bool_as_int
compress_number true = (1, refl, omega arith)
compress_number false = (0, refl, omega arith)

module _ (O : Out) (C : Crypto) (L : Lz4) (crand : Source) where
  open O use {W, written}
  open C use {PublicKey}

  -- A writer that has been given nothing.
  abbrev pub fresh_writer : W → EncryptOptions PublicKey → WriterState O C L
  fresh_writer out o = record {
    out = out;
    opts = o;
    md5 = [];
    lz4_w = none;
    aes = none;
    started = false;
    closed = false;
    failed = none;
  }

  -- `NewWriter` returns a fresh writer, and only for the major versions 1 and 3.
  pub new_writer_ok :
      (out : W) (o : EncryptOptions PublicKey) (w : WriterState O C L)
      → new_writer O C L out o ≡ ok w
      → (w ≡ fresh_writer out o) × ((major o ≡ pos 1) ⊎ (major o ≡ pos 3))
  unfolding new_writer
  new_writer_ok out o w h = elim (Bool-cases (length o.password == 0 && is_none o.public_key)) [
    | inl e ↦ cc (rw e at h)
    | inr e ↦ elim (Bool-cases (is_pos (major o) 1)) [
      | inl one ↦ (sym (ok_injective (rw (e, one) at h)), inl (is_pos→eq (major o) 1 one))
      | inr other ↦ elim (Bool-cases (is_pos (major o) 3)) [
        | inl three ↦
            (sym (ok_injective (rw (e, other, three) at h)), inr (is_pos→eq (major o) 3 three))
        | inr bad ↦ cc (rw (e, other, bad) at h)
      ]
    ]
  ]
    where
      ok_injective : {a b : WriterState O C L} → ok a ≡ ok b → a ≡ b
      ok_injective p = cc

  pub numbers_of :
      (out : W) (o : EncryptOptions PublicKey)
      → HasMinor o
      → (major o ≡ pos 1) ⊎ (major o ≡ pos 3)
      → Numbers O C L crand (fresh_writer out o)
  numbers_of out o h m s = record {
    major_ok = elim m [ inl e ↦ (1, e, omega arith) | inr e ↦ (3, e, omega arith) ];
    minor_ok = minor_lem o h;
    compress_ok = compress_number (compress_on o);
    encrypt_ok = (1, refl, omega arith);
  }

  encrypt_with-Stream :
      (inp : Input) (out : W) (o : EncryptOptions PublicKey)
      → Numbers O C L crand (fresh_writer out o)
      → (encrypt_with O C L crand inp (fresh_writer out o)).1 ≡ ok tt
      → Stream O C L crand o out
          (handed inp.reads)
          (encrypt_with O C L crand inp (fresh_writer out o)).0.out
  unfolding encrypt_with
  encrypt_with-Stream inp out o n h = go (copied.1) refl
    where
      w : WriterState O C L
      w = fresh_writer out o

      copied : WriterState O C L × Result (Unit {0})
      copied = copy O C L crand inp.reads inp.fin w

      start_ready : Ready O C L crand w [] w
      start_ready =
          waiting (record { not_started = refl; no_md5 = refl; unfailed = refl }) refl refl refl

      go :
          (r : Result (Unit {0}))
          → copied.1 ≡ r
          → Stream O C L crand o out (handed inp.reads) (encrypt_with O C L crand inp w).0.out
      go (ok u) e =
          let ready = copy-Ready O C L crand w inp.reads [] inp.fin w n start_ready e in
          rw (e, encrypt_with)
            (close-Stream O C L crand w (handed inp.reads) copied.0 n ready
              (rw (e, encrypt_with) at h))
      go (err x) e = cc (rw (e, encrypt_with) at h)
      go out_of_fuel e = cc (rw (e, encrypt_with) at h)

  -- `Encrypt` that returns no error has been given options that `NewWriter` accepts.
  pub encrypt_accepted :
      (inp : Input) (out : W) (o : EncryptOptions PublicKey)
      → (encrypt O C L crand inp out o).1 ≡ ok tt
      → (w : WriterState O C L) × (new_writer O C L out o ≡ ok w)
  unfolding encrypt
  encrypt_accepted inp out o h = go (new_writer O C L out o) refl
    where
      go :
          (r : Result (WriterState O C L))
          → new_writer O C L out o ≡ r
          → (w : WriterState O C L) × (new_writer O C L out o ≡ ok w)
      go (ok w) e = (w, e)
      go (err x) e = cc (rw (e, encrypt) at h)
      go out_of_fuel e = cc (rw (e, encrypt) at h)

  -- `Encrypt` that returns no error, for a minor version that is an int64 value and not negative, has
  -- put out one whole csenc stream: the magic, the leading metadata, data dicts of whole blocks and at
  -- most 65535 bytes whose payloads make up the AES-CBC encryption of the padded payload under the
  -- session key, and the plaintext's MD5. The payload is the plaintext or, with compression, the LZ4
  -- frame of the reads that are not empty. It does so however the reader cuts the plaintext into reads.
  pub encrypt-Stream :
      (inp : Input) (out : W) (o : EncryptOptions PublicKey)
      → HasMinor o
      → (encrypt O C L crand inp out o).1 ≡ ok tt
      → Stream O C L crand o out (handed inp.reads) (encrypt O C L crand inp out o).0
  unfolding encrypt
  encrypt-Stream inp out o m h = go (new_writer O C L out o) refl
    where
      go :
          (r : Result (WriterState O C L))
          → new_writer O C L out o ≡ r
          → Stream O C L crand o out (handed inp.reads) (encrypt O C L crand inp out o).0
      go (ok w) e =
          let (same, version) = new_writer_ok out o w e in
          let w₀ = fresh_writer out o in
          let e₀ : new_writer O C L out o ≡ ok w₀ =
            e ∙ ap {B = Result (WriterState O C L)} ok same in
          let run : encrypt O C L crand inp out o
              ≡ ((encrypt_with O C L crand inp w₀).0.out, (encrypt_with O C L crand inp w₀).1) =
            rw (e₀, encrypt) in
          rw run (
            encrypt_with-Stream inp out o (numbers_of out o m version)
              (sym (ap (λ (x : W × Result (Unit {0})). x.1) run) ∙ h))
      go (err x) e = cc (rw (e, encrypt) at h)
      go out_of_fuel e = cc (rw (e, encrypt) at h)
