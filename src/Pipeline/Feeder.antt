-- ===== src/Pipeline/Feeder.antt =====
-- `aesFeeder`: however its input is cut, what reaches the sink is the encryption of the whole input,
-- padded once at the end.
use cloudsync_decrypt_go.Common.{
  ℕ, ◌+◌, ◌-◌, ◌*◌, ◌/◌, ◌%◌, ◌<◌, ◌≡◌, inl, inr, refl, sym, ap, ◌∙◌, List, [], ◌++◌, append_assoc,
}
use cloudsync_decrypt_go.Common.{
  none, arith, ◌==◌, Bool-cases, Option-cases, length, take, drop, length-append, length-take,
  length-drop, length-replicate, take-append-drop,
}
use cloudsync_decrypt_go.Io.{Out}
use cloudsync_decrypt_go.Crypto.{Crypto}
use cloudsync_decrypt_go.Padding.{padding, pkcs7_pad}
use cloudsync_decrypt_go.Encoder.Emits.{Reliable}
use cloudsync_decrypt_go.Pipeline.{AesFeeder, sink_write, feeder_write, feeder_finish}
use cloudsync_decrypt_go.Pipeline.Sink.{SinkView, sink_write-View, sink_write_total, view_start}

length-residual : (xs ys : List ℕ) → length (xs ++ ys) ≡ length xs + length ys
length-residual = length-append

module _ (O : Out) (C : Crypto) (base : List ℕ) (start : C.Mode) where
  open O use {W}
  open C use {Mode, crypt_blocks, crypt-append, crypt-nil}

  -- `plain` is all that was given to the feeder: whole blocks, encrypted and passed on, and less
  -- than a block that waits.
  pub record FeederView (plain : List ℕ) (a : AesFeeder Mode W) : Type 0 where
    pub front : List ℕ
    pub aligned : length front % 16 ≡ 0
    pub splits : front ++ a.buf ≡ plain
    pub residual : length a.buf < 16
    pub mode : a.enc ≡ (crypt_blocks start front).1
    pub sunk : SinkView O base (crypt_blocks start front).0 a.sink
    pub small : length a.sink.buf < a.sink.chunk_size

  feeder_wait :
      (p : List ℕ) (a : AesFeeder Mode W) (plain : List ℕ)
      → FeederView plain a
      → length (a.buf ++ p) < 16
      → FeederView (plain ++ p) (record a { buf = a.buf ++ p })
  feeder_wait p a plain v h = record {
    front = v.front;
    aligned = v.aligned;
    splits = sym (append_assoc v.front a.buf p) ∙ rw v.splits;
    residual = h;
    mode = v.mode;
    sunk = v.sunk;
    small = v.small;
  }

  -- What is encrypted in one go extends the encryption of the front.
  crypt_more :
      (a : AesFeeder Mode W) (plain b : List ℕ)
      → (v : FeederView plain a) → length b % 16 ≡ 0
      → crypt_blocks start (v.front ++ b)
        ≡ ((crypt_blocks start v.front).0 ++ (crypt_blocks a.enc b).0, (crypt_blocks a.enc b).1)
  crypt_more a plain b v h = rw v.mode (crypt-append start v.front b v.aligned h)

  feeder_pass :
      (p : List ℕ) (a : AesFeeder Mode W) (plain : List ℕ)
      → FeederView plain a
      → let buf = a.buf ++ p in
        let full = length buf / 16 * 16 in
        let c = crypt_blocks a.enc (take full buf) in
        (sink_write O c.0 a.sink).1 ≡ none
        → FeederView
            (plain ++ p)
            (record { enc = c.1; buf = drop full buf; sink = (sink_write O c.0 a.sink).0 })
  feeder_pass p a plain v h =
      let buf = a.buf ++ p in
      let full = length buf / 16 * 16 in
      let b = take full buf in
      let n : length b ≡ full = omega (arith, length-take full buf) in
      let e = crypt_more a plain b v (rw n (omega arith)) in
      let (sunk, small) = sink_write-View O base _ _ _ v.sunk h in
      record {
        front = v.front ++ b;
        aligned = rw (length-residual v.front b, n) (omega (arith, v.aligned));
        splits =
            append_assoc v.front b (drop full buf)
            ∙ rw (take-append-drop full buf) (sym (append_assoc v.front a.buf p) ∙ rw v.splits);
        residual = rw (length-drop full buf) (omega arith);
        mode = rw e;
        sunk = rw e sunk;
        small = small;
      }

  -- A `Write` that returns no error, on a feeder that has encrypted the whole blocks of what it was
  -- given into the sink and holds the rest, less than a block, leaves such a feeder for the longer input.
  pub feeder_write-View :
      (p : List ℕ) (a : AesFeeder Mode W) (plain : List ℕ)
      → FeederView plain a
      → (feeder_write O C p a).1 ≡ none
      → FeederView (plain ++ p) (feeder_write O C p a).0
  unfolding feeder_write
  feeder_write-View p a plain v h =
      let buf = a.buf ++ p in
      let full = length buf / 16 * 16 in
      elim (Bool-cases (full == 0)) [
        | inl z ↦ rw z (feeder_wait p a plain v (ground arith))
        | inr z ↦
            elim (Option-cases (sink_write O (crypt_blocks a.enc (take full buf)).0 a.sink).1) [
              | inr (x, e) ↦ cc (rw (z, e) at h)
              | inl e ↦ rw (z, e) (feeder_pass p a plain v e)
            ]
      ]

  pub feeder_write_total :
      (p : List ℕ) (a : AesFeeder Mode W)
      → Reliable O
      → a.sink.chunk_size < 65536
      → (feeder_write O C p a).1 ≡ none
  unfolding feeder_write
  feeder_write_total p a r h =
      let full = length (a.buf ++ p) / 16 * 16 in
      elim (Bool-cases (full == 0)) [
        | inl z ↦ rw z
        | inr z ↦
            rw (
              z,
              sink_write_total O base (crypt_blocks a.enc (take full (a.buf ++ p))).0 a.sink r h,
            )
      ]

  -- Padding the residual pads the whole input.
  pad_residual :
      (front buf : List ℕ)
      → length front % 16 ≡ 0
      → front ++ (buf ++ padding 16 (length buf)) ≡ pkcs7_pad (front ++ buf) 16
  unfolding pkcs7_pad
  pad_residual front buf h =
      let same : 16 - length (front ++ buf) % 16 ≡ 16 - length buf % 16 =
        omega (arith, length-residual front buf) in
      rw same (sym (append_assoc front buf _))

  -- `finish` that returns no error, on a feeder that has encrypted the whole blocks of its input into
  -- the sink and holds the rest, less than a block: the sink's data dicts and buffer then make up the
  -- encryption of the whole input, padded once at its end, with less than one chunk in the buffer.
  pub feeder_finish-View :
      (a : AesFeeder Mode W) (plain : List ℕ)
      → FeederView plain a
      → (feeder_finish O C a).1 ≡ none
      → SinkView O base (crypt_blocks start (pkcs7_pad plain 16)).0 (feeder_finish O C a).0.sink
        × (length (feeder_finish O C a).0.sink.buf < (feeder_finish O C a).0.sink.chunk_size)
  unfolding feeder_finish
  feeder_finish-View a plain v h =
      let b = a.buf ++ padding 16 (length a.buf) in
      let n : length b % 16 ≡ 0 =
        omega (
          arith,
          length-residual a.buf (padding 16 (length a.buf)),
          length-padding (length a.buf),
        ) in
      let whole : pkcs7_pad plain 16 ≡ v.front ++ b =
        sym (pad_residual v.front a.buf v.aligned ∙ ap (λ (t : List ℕ). pkcs7_pad t 16) v.splits) in
      elim (Option-cases (sink_write O (crypt_blocks a.enc b).0 a.sink).1) [
        | inr (x, e) ↦ cc (rw (e, feeder_finish) at h)
        | inl e ↦
            rw (e, feeder_finish, whole, crypt_more a plain b v n)
              (sink_write-View O base _ _ _ v.sunk e)
      ]
    where
      length-padding : (n : ℕ) → length (padding 16 n) ≡ 16 - n % 16
      length-padding n = length-replicate _ _

  pub feeder_finish_total :
      (a : AesFeeder Mode W)
      → Reliable O
      → a.sink.chunk_size < 65536
      → (feeder_finish O C a).1 ≡ none
  unfolding feeder_finish
  feeder_finish_total a r h =
      let b = a.buf ++ padding 16 (length a.buf) in
      rw (sink_write_total O base (crypt_blocks a.enc b).0 a.sink r h, feeder_finish)

  -- A feeder that has been given nothing.
  pub feeder_start :
      (w : W) (size : ℕ)
      → O.written w ≡ base
      → 0 < size
      → size % 16 ≡ 0
      → size < 65536
      → FeederView []
          (record { enc = start; buf = []; sink = record { out = w; buf = []; chunk_size = size } })
  feeder_start w size e p a f = record {
    front = [];
    aligned = refl;
    splits = refl;
    residual = omega arith;
    mode = rw (crypt-nil start);
    sunk = rw (crypt-nil start) (view_start O base w size e p a f);
    small = p;
  }
