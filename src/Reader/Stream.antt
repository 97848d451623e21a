-- ===== src/Reader/Stream.antt =====
-- csenc/reader.go: `Close`, and a reader on a stream that `Encrypt` wrote.
use cloudsync_decrypt_go.Common.{
  ℕ, ◌≡◌, ◌<◌, ◌≤◌, ◌+◌, refl, ap, ◌∙◌, false, List, [], Option, none, some, Error, eof, Result, ok,
  err, out_of_fuel, true, Bool-cases, inl, inr, closed_pipe, ok_injective, err_ne, out_of_fuel_ne,
  arith, All, length, concat,
}
use cloudsync_decrypt_go.Hex.{IsByte}
use cloudsync_decrypt_go.Io.{Out}
use cloudsync_decrypt_go.Wire.{Source}
use cloudsync_decrypt_go.Wire.RoundTrip.{source}
use cloudsync_decrypt_go.Crypto.{Crypto}
use cloudsync_decrypt_go.Lz4.{Lz4}
use cloudsync_decrypt_go.Session.{EncryptOptions, compress_on, rand}
use cloudsync_decrypt_go.Writer.{Input, encrypt}
use cloudsync_decrypt_go.Writer.Encrypt.{HasMinor}
use cloudsync_decrypt_go.Decrypt.OfEncrypt.{decrypt-encrypt}
use cloudsync_decrypt_go.Reader.{
  Reader, new_reader_with_closer, new_reader, pipe_out, pipe_write, run, read_all, close,
  close_once, extra_count, set_closed, merge_close, suppress, is_closed_pipe, end_of,
}

-- io.ErrClosedPipe, in any number of the errors that wrap another.
pub data Wraps : Error → Type 0 where
  itself : Wraps closed_pipe
  in_field : {name : List ℕ} {e : Error} → Wraps e → Wraps (Error.in_field name e)
  read_magic : {e : Error} → Wraps e → Wraps (Error.read_magic e)
  read_magic_checksum : {e : Error} → Wraps e → Wraps (Error.read_magic_checksum e)
  key1_padding : {e : Error} → Wraps e → Wraps (Error.key1_padding e)
  rsa_failed : {e : Error} → Wraps e → Wraps (Error.rsa_failed e)
  session_not_hex : {e : Error} → Wraps e → Wraps (Error.session_not_hex e)
  final_padding : {e : Error} → Wraps e → Wraps (Error.final_padding e)
  random_session_key : {e : Error} → Wraps e → Wraps (Error.random_session_key e)
  bad_pem_passphrase : {e : Error} → Wraps e → Wraps (Error.bad_pem_passphrase e)
  password_file : {e : Error} → Wraps e → Wraps (Error.password_file e)
  private_key_file : {e : Error} → Wraps e → Wraps (Error.private_key_file e)
  public_key_file : {e : Error} → Wraps e → Wraps (Error.public_key_file e)
  version_major : {e : Error} → Wraps e → Wraps (Error.version_major e)
  version_minor : {e : Error} → Wraps e → Wraps (Error.version_minor e)

pub Wraps-closed_pipe : {e : Error} → Wraps e → is_closed_pipe e ≡ true
Wraps-closed_pipe itself = refl
Wraps-closed_pipe (in_field w) = Wraps-closed_pipe w
Wraps-closed_pipe (read_magic w) = Wraps-closed_pipe w
Wraps-closed_pipe (read_magic_checksum w) = Wraps-closed_pipe w
Wraps-closed_pipe (key1_padding w) = Wraps-closed_pipe w
Wraps-closed_pipe (rsa_failed w) = Wraps-closed_pipe w
Wraps-closed_pipe (session_not_hex w) = Wraps-closed_pipe w
Wraps-closed_pipe (final_padding w) = Wraps-closed_pipe w
Wraps-closed_pipe (random_session_key w) = Wraps-closed_pipe w
Wraps-closed_pipe (bad_pem_passphrase w) = Wraps-closed_pipe w
Wraps-closed_pipe (password_file w) = Wraps-closed_pipe w
Wraps-closed_pipe (private_key_file w) = Wraps-closed_pipe w
Wraps-closed_pipe (public_key_file w) = Wraps-closed_pipe w
Wraps-closed_pipe (version_major w) = Wraps-closed_pipe w
Wraps-closed_pipe (version_minor w) = Wraps-closed_pipe w

closed_pipe-Wraps : (e : Error) → is_closed_pipe e ≡ true → Wraps e
closed_pipe-Wraps closed_pipe h = itself
closed_pipe-Wraps (Error.in_field b e) h = in_field (closed_pipe-Wraps e h)
closed_pipe-Wraps (Error.read_magic e) h = read_magic (closed_pipe-Wraps e h)
closed_pipe-Wraps (Error.read_magic_checksum e) h = read_magic_checksum (closed_pipe-Wraps e h)
closed_pipe-Wraps (Error.key1_padding e) h = key1_padding (closed_pipe-Wraps e h)
closed_pipe-Wraps (Error.rsa_failed e) h = rsa_failed (closed_pipe-Wraps e h)
closed_pipe-Wraps (Error.session_not_hex e) h = session_not_hex (closed_pipe-Wraps e h)
closed_pipe-Wraps (Error.final_padding e) h = final_padding (closed_pipe-Wraps e h)
closed_pipe-Wraps (Error.random_session_key e) h = random_session_key (closed_pipe-Wraps e h)
closed_pipe-Wraps (Error.bad_pem_passphrase e) h = bad_pem_passphrase (closed_pipe-Wraps e h)
closed_pipe-Wraps (Error.password_file e) h = password_file (closed_pipe-Wraps e h)
closed_pipe-Wraps (Error.private_key_file e) h = private_key_file (closed_pipe-Wraps e h)
closed_pipe-Wraps (Error.public_key_file e) h = public_key_file (closed_pipe-Wraps e h)
closed_pipe-Wraps (Error.version_major e) h = version_major (closed_pipe-Wraps e h)
closed_pipe-Wraps (Error.version_minor e) h = version_minor (closed_pipe-Wraps e h)
closed_pipe-Wraps _ h = cc

-- What `Close` is to return where the goroutine has ended without an error: nothing without an error
-- of the extra closer or for one that wraps io.ErrClosedPipe, and any other one as it is.
pub data Closing : Option Error → Option Error → Type 0 where
  closes : Closing none none
  walks_away : {e : Error} → Wraps e → Closing (some e) none
  surfaces : {e : Error} → (Wraps e → ⊥) → Closing (some e) (some e)

suppress-Closing : (extra : Option Error) → Closing extra (suppress extra)
suppress-Closing none = closes
suppress-Closing (some e) = elim (Bool-cases (is_closed_pipe e)) [
  | inl t ↦ rw t (walks_away (closed_pipe-Wraps e t))
  | inr t ↦ rw t (surfaces (λ w. cc (t, Wraps-closed_pipe w)))
]

module _ (C : Crypto) (L : Lz4) where
  open C use {PrivateKey, PublicKey}

  -- The record that `Close` leaves behind, by what it was before and what the goroutine returned.
  abbrev Final :
      Option ℕ
      → Reader PrivateKey
      → Option Error
      → Reader PrivateKey × Result (Option Error)
      → Type 0
  Final limit r e (r', result) =
      result ≡ ok e → (r'.closed ≡ some e) × (r'.extra_closes ≤ r.extra_closes + 1)

  set_closed-Final :
      (limit : Option ℕ) (r : Reader PrivateKey) (e : Option Error) (x : Result (Option Error))
      → Final limit r e (set_closed C L r x)
  set_closed-Final limit r e (ok y) h = (ap some (ok_injective h), count r.extra_close)
    where
      count : (c : Option (Option Error)) → r.extra_closes + extra_count C L c ≤ r.extra_closes + 1
      count none = omega arith
      count (some c) = omega arith
  set_closed-Final limit r e (err y) h = absurd (err_ne h)
  set_closed-Final limit r e out_of_fuel h = absurd (out_of_fuel_ne h)

  close_once-Final :
      (limit : Option ℕ) (r : Reader PrivateKey) (e : Option Error) (c : Option (Option Error))
      → r.closed ≡ c
      → Final limit r e (close_once C L limit r c)
  close_once-Final limit r e none k h = set_closed-Final limit r e _ h
  close_once-Final limit r e (some y) k h = (k ∙ ap some (ok_injective h), omega arith)

  -- A `Close` that has returned is final: a later one, whatever was read in between, changes nothing
  -- and returns the same. The first calls the extra closer once at most.
  pub close-close :
      (limit limit' : Option ℕ) (r : Reader PrivateKey) (e : Option Error)
      → (close C L limit r).1 ≡ ok e
      → (close C L limit' (close C L limit r).0 ≡ ((close C L limit r).0, ok e))
        × ((close C L limit r).0.extra_closes ≤ r.extra_closes + 1)
  unfolding close
  close-close limit limit' r e h =
      let (is_closed, calls) = close_once-Final limit r e r.closed refl h in
      (ap (close_once C L limit' (close C L limit r).0) is_closed, calls)

  module _ (W₂ : Out) (crand : Source) (o : EncryptOptions PublicKey) where
    -- For options with a password and no compression, a minor version that is an int64 value and not
    -- negative, a random source of bytes and an output that starts empty: if `Encrypt` returned no
    -- error, then a `Reader` with an extra closer on what it has written, under the same password,
    -- yields exactly the plaintext and then io.EOF. `Close` then returns no error if the extra closer
    -- succeeds, or fails with an error that wraps io.ErrClosedPipe; any other error of it is what
    -- `Close` returns.
    pub read_all-encrypt :
        (inp : Input) (out : W₂.W) (rsa_key : Option PrivateKey) (extra : Option Error)
        → HasMinor o
        → compress_on o ≡ false
        → 0 < length o.password
        → All IsByte (rand crand o).bytes
        → W₂.written out ≡ []
        → (encrypt W₂ C L crand inp out o).1 ≡ ok tt
        → let r =
            new_reader_with_closer
              (source (W₂.written (encrypt W₂ C L crand inp out o).0) eof)
              extra
              (record { password = some o.password; private_key = rsa_key }) in
          (read_all C L r ≡ (concat inp.reads, ok eof))
          × ((e : Option Error) × Closing extra e × ((close C L none r).1 ≡ ok e))
    unfolding read_all close run new_reader_with_closer new_reader pipe_write
    read_all-encrypt inp out rsa_key extra m plain_mode has_password random_bytes empty h =
        let (s, prepared, restored) =
          decrypt-encrypt W₂ (pipe_out none) C L crand o (λ w b. refl) inp out [] rsa_key m
            plain_mode has_password random_bytes empty h in
        let inp' = source (W₂.written (encrypt W₂ C L crand inp out o).0) eof in
        let r : Reader PrivateKey =
          new_reader_with_closer inp' extra
            (record { password = some o.password; private_key = rsa_key }) in
        (
          pair_of restored.wrote (ap end_of restored.succeeds),
          (
            suppress extra,
            suppress-Closing extra,
            ap (λ (x : Result (Unit {0})). (set_closed C L r (merge_close x extra)).1)
                restored.succeeds,
          ),
        )
      where
        pair_of :
            {a b : List ℕ} {x y : Result Error}
            → a ≡ b
            → x ≡ y
            → ◌≡◌ {A = List ℕ × Result Error} (a, x) (b, y)
        pair_of e k = cc
