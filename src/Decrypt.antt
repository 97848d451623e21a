-- ===== src/Decrypt.antt =====
-- csenc/decrypt.go: `Decrypt` and `Inspect`, the loops over the values of a stream. `announced` holds
-- the snapshots that `OnMetadata`, where it is set, was called with. The loops take fuel: each value that `Next` yields
-- takes a byte at least, so one unit for each byte and one more are enough.
pub mod Inspect
pub mod Halts
pub mod Total
pub mod Receives
pub mod Joined
pub mod Steps
pub mod Magic
pub mod Chunks
pub mod Restore
pub mod Stream
pub mod OfEncrypt
use cloudsync_decrypt_go.Common.{ℕ, zero, suc, Bool, true, false, List, [], ◌∷◌, ◌++◌, not}
use cloudsync_decrypt_go.Common.{Option, none, some, eqb, if◌then◌else◌, codes, length}
use cloudsync_decrypt_go.Common.{
  Error, top_level_not_dict, missing_type, unknown_type, bad_data_dict, missing_payload,
  no_data_blocks, plaintext_md5_mismatch,
}
use cloudsync_decrypt_go.Common.{Result, ok, err, out_of_fuel}
use cloudsync_decrypt_go.Common.Action.{Action, ◌>>=◌, ◌>>◌, lift}
use cloudsync_decrypt_go.Common.Signed.{is_pos}
use cloudsync_decrypt_go.Wire.{
  Value, Members, nil, dict, bytes, str, int, Source, next, lookup_members,
}
use cloudsync_decrypt_go.Io.{Out}
use cloudsync_decrypt_go.Crypto.{Crypto}
use cloudsync_decrypt_go.Lz4.{Lz4}
use cloudsync_decrypt_go.Hex.{hex_encode}
use cloudsync_decrypt_go.Metadata.{Metadata, new_metadata, check_modes, absorb_members}
use cloudsync_decrypt_go.Recover.{Options, consume_magic, recover_session_key}
use cloudsync_decrypt_go.Payload.{
  Plain, DecryptPipe, plain_of, new_decrypt_pipe, feed, finish, abort,
}

-- The state of `Decrypt`; `plain` is the output and the hash before the pipe takes them over.
pub record Decryptor (W Decoder Mode : Type 0) : Type 0 where
  pub meta : Metadata
  pub plain : Plain W
  pub pipe : Option (DecryptPipe W Decoder Mode)
  pub announced : List Metadata

-- `v, ok := obj.Lookup(name); ok && v.Kind == KindString`, and the same for bytes.
abbrev pub as_str : Option Value → Option (List ℕ)
as_str (some (str s)) = some s
as_str (some nil) = none
as_str (some (dict ms)) = none
as_str (some (bytes b)) = none
as_str (some (int n)) = none
as_str none = none

abbrev pub as_bytes : Option Value → Option (List ℕ)
as_bytes (some (bytes b)) = some b
as_bytes (some nil) = none
as_bytes (some (dict ms)) = none
as_bytes (some (str s)) = none
as_bytes (some (int n)) = none
as_bytes none = none

abbrev pub loop_fuel : Source → ℕ
loop_fuel s = suc (length s.bytes)

module _ (O : Out) (C : Crypto) (L : Lz4) where
  open O use {W}
  open C use {Mode, PrivateKey, md5}
  open L use {Decoder}

  abbrev pub State : Type 0
  State = Decryptor W Decoder Mode

  -- The output and the hash, wherever they are.
  abbrev pub current : State → Plain W
  current st = elim st.pipe [ none ↦ st.plain | some p ↦ plain_of p.stage ]

  unfoldable pub merge : Members → Action State (Unit {0})
  merge ms st = elim (absorb_members C ms st.meta) [
    | ok m ↦ (record st { meta = m }, ok tt)
    | err e ↦ (st, err e)
    | out_of_fuel ↦ (st, out_of_fuel)
  ]

  unfoldable pub announce : Action State (Unit {0})
  announce st = (record st { announced = st.announced ++ (st.meta ∷ []) }, ok tt)

  unfoldable pub open_pipe : List ℕ → Action State (Unit {0})
  open_pipe session_key st =
      elim (new_decrypt_pipe O C L session_key st.plain (is_pos st.meta.compress 1)) [
        | ok p ↦ (record st { pipe = some p }, ok tt)
        | err e ↦ (st, err e)
        | out_of_fuel ↦ (st, out_of_fuel)
      ]

  -- What the first data dict sets up.
  unfoldable pub ensure_pipe : Options PrivateKey → Action State (Unit {0})
  ensure_pipe o st = elim st.pipe [
    | some p ↦ (st, ok tt)
    | none ↦
        (do
          lift (check_modes st.meta)
          announce
          sk ← lift (recover_session_key C o st.meta)
          open_pipe sk)
          st
  ]

  -- An error of the pipe aborts it.
  unfoldable pub feed_pipe : List ℕ → Action State (Unit {0})
  feed_pipe ct st = elim st.pipe [
    | none ↦ (st, ok tt)
    | some p ↦
        let r = feed O C L ct p in
        elim r.1 [
          | ok u ↦ (record st { pipe = some r.0 }, ok tt)
          | err e ↦ (record st { pipe = some (abort O C L e r.0) }, err e)
          | out_of_fuel ↦ (record st { pipe = some r.0 }, out_of_fuel)
        ]
  ]

  unfoldable pub abort_pipe : Error → State → State
  abort_pipe e st = elim st.pipe [
    | none ↦ st
    | some p ↦ record st { pipe = some (abort O C L e p) }
  ]

  unfoldable pub feed_member : Option (List ℕ) → Action State (Unit {0})
  feed_member (some ct) st = feed_pipe ct st
  feed_member none st = (abort_pipe bad_data_dict st, err missing_payload)

  unfoldable pub handle_typed : Options PrivateKey → List ℕ → Members → Action State (Unit {0})
  handle_typed o t ms =
      if eqb t (codes "metadata")
      then merge ms
      else if eqb t (codes "data")
      then ensure_pipe o >> feed_member (as_bytes (lookup_members ms (codes "data")))
      else lift (err (unknown_type t))

  -- One top-level value.
  unfoldable pub handle : Options PrivateKey → Value → Action State (Unit {0})
  handle o (dict ms) st = elim (as_str (lookup_members ms (codes "type"))) [
    | some t ↦ handle_typed o t ms st
    | none ↦ (st, err missing_type)
  ]
  handle o _ st = (st, err top_level_not_dict)

  unfoldable pub decrypt_loop : ℕ → Options PrivateKey → Source → Action State (Unit {0})
  decrypt_loop zero o src st = (st, out_of_fuel)
  decrypt_loop (suc fuel) o src st = elim (next src) [
    | err e ↦ (abort_pipe e st, err e)
    | out_of_fuel ↦ (st, out_of_fuel)
    | ok none ↦ (st, ok tt)
    | ok (some (v, src')) ↦ (handle o v >> decrypt_loop fuel o src') st
  ]

  unfoldable pub finish_pipe : Action State (Unit {0})
  finish_pipe st = elim st.pipe [
    | none ↦ (st, err no_data_blocks)
    | some p ↦ let r = finish O C L p in (record st { pipe = some r.0 }, r.1)
  ]

  -- `file_md5`, if the stream has one, must be the hash of what was written.
  unfoldable pub check_md5 : Action State (Unit {0})
  check_md5 st =
      let got = hex_encode (md5 (current st).md5) in
      let want = st.meta.plaintext_md5 in
      if eqb want []
      then (st, ok tt)
      else if eqb got want
      then (st, ok tt)
      else (st, err (plaintext_md5_mismatch got want))

  unfoldable pub decrypt_stream : Options PrivateKey → Source → Action State (Unit {0})
  decrypt_stream o src = decrypt_loop (loop_fuel src) o src >> finish_pipe >> check_md5

  abbrev pub start_state : W → State
  start_state out = record {
    meta = new_metadata;
    plain = record { out = out; md5 = [] };
    pipe = none;
    announced = [];
  }

  -- `Decrypt`: the state as it is left, with the output in it, and the error.
  unfoldable pub decrypt : Source → W → Options PrivateKey → State × Result (Unit {0})
  decrypt inp out o = elim (consume_magic C inp) [
    | ok src ↦ decrypt_stream o src (start_state out)
    | err e ↦ (start_state out, err e)
    | out_of_fuel ↦ (start_state out, out_of_fuel)
  ]
