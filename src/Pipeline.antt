-- ===== src/Pipeline.antt =====
-- The streaming stages of csenc/encrypt.go behind the compressor: `aesFeeder` and `pendingSink`.
-- A method returns the new state and its error. The writer holds one sink, which its feeder shares;
-- it is a field of the feeder here.
pub mod Sink
pub mod Feeder
use cloudsync_decrypt_go.Common.{
  ℕ, zero, suc, ◌+◌, ◌-◌, ◌*◌, ◌/◌, ◌%◌, Bool, true, false, List, [], ◌∷◌, ◌++◌,
}
use cloudsync_decrypt_go.Common.{
  Option, none, some, ◌==◌, leb, if◌then◌else◌, length, take, drop, Error,
}
use cloudsync_decrypt_go.Io.{Out}
use cloudsync_decrypt_go.Crypto.{Crypto}
use cloudsync_decrypt_go.Padding.{block_size, padding}
use cloudsync_decrypt_go.Encoder.{write_data_dict}

-- `dataChunkSize`
abbrev pub data_chunk_size : ℕ
data_chunk_size = 32 * 1024

pub record PendingSink (W : Type 0) : Type 0 where
  pub out : W
  pub buf : List ℕ
  pub chunk_size : ℕ

module _ (O : Out) where
  open O use {W}

  -- `for len(s.buf) >= s.chunkSize`, on fuel.
  unfoldable pub sink_loop : ℕ → PendingSink W → PendingSink W × Option Error
  sink_loop zero s = (s, none)
  sink_loop (suc fuel) s =
      let d = write_data_dict O (take s.chunk_size s.buf) s.out in
      let after = sink_loop fuel (record s { out = d.0; buf = drop s.chunk_size s.buf }) in
      if leb s.chunk_size (length s.buf)
      then elim d.1 [ none ↦ after | some x ↦ (record s { out = d.0 }, some x) ]
      else (s, none)

  -- `Write`; every round of its loop takes a byte at least.
  unfoldable pub sink_write : List ℕ → PendingSink W → PendingSink W × Option Error
  sink_write p s =
      let filled = record s { buf = s.buf ++ p } in sink_loop (length filled.buf) filled

  unfoldable pub sink_flush : PendingSink W → PendingSink W × Option Error
  sink_flush s =
      let d = write_data_dict O s.buf s.out in
      if length s.buf == 0 then (s, none) else elim d.1 [
        | none ↦ (record s { out = d.0; buf = [] }, none)
        | some x ↦ (record s { out = d.0 }, some x)
      ]

pub record AesFeeder (Mode W : Type 0) : Type 0 where
  pub enc : Mode
  pub buf : List ℕ
  pub sink : PendingSink W

module _ (O : Out) (C : Crypto) where
  open O use {W}
  open C use {Mode, crypt_blocks}

  unfoldable pub feeder_write : List ℕ → AesFeeder Mode W → AesFeeder Mode W × Option Error
  feeder_write p a =
      let buf = a.buf ++ p in
      let full = length buf / block_size * block_size in
      let (cipher_buf, enc) = crypt_blocks a.enc (take full buf) in
      let (sink, x) = sink_write O cipher_buf a.sink in
      if full == 0 then (record a { buf = buf }, none) else elim x [
        | none ↦ (record { enc = enc; buf = drop full buf; sink = sink }, none)
        | some e ↦ (record { enc = enc; buf = buf; sink = sink }, some e)
      ]

  -- `finish`: the residual with its padding is encrypted as the last block.
  unfoldable pub feeder_finish : AesFeeder Mode W → AesFeeder Mode W × Option Error
  feeder_finish a =
      let buf = a.buf ++ padding block_size (length a.buf) in
      let (cipher_buf, enc) = crypt_blocks a.enc buf in
      let (sink, x) = sink_write O cipher_buf a.sink in
      elim x [
        | none ↦ (record { enc = enc; buf = []; sink = sink }, none)
        | some e ↦ (record { enc = enc; buf = buf; sink = sink }, some e)
      ]
