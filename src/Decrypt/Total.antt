-- ===== src/Decrypt/Total.antt =====
-- csenc/decrypt.go: the termination of `Decrypt`.
use cloudsync_decrypt_go.Common.{
  ℕ, zero, suc, ◌<◌, ◌≡◌, refl, inl, inr, Bool, List, [], Option, none, some, Option-cases,
  Bool-cases, Fallible-cases, Error, Result, ok, err, out_of_fuel, Post, value, failure, Post-ne,
  length, codes, eqb, arith,
}
use cloudsync_decrypt_go.Common.Action.{Action, ◌>>=◌, ◌>>◌, result_of, lift}
use cloudsync_decrypt_go.Common.Signed.{is_pos}
use cloudsync_decrypt_go.Wire.{
  Value, Members, dict, bytes, str, int, nil, Source, next, lookup_members,
}
use cloudsync_decrypt_go.Wire.Total.{NextPost, next-Post}
use cloudsync_decrypt_go.Hex.{hex_encode}
use cloudsync_decrypt_go.Io.{Out}
use cloudsync_decrypt_go.Crypto.{Crypto}
use cloudsync_decrypt_go.Lz4.{Lz4}
use cloudsync_decrypt_go.Keys.{evp_kdf}
use cloudsync_decrypt_go.Padding.{unpad_pkcs7, is_unaligned, block_size}
use cloudsync_decrypt_go.Metadata.{Metadata, check_modes, absorb_members}
use cloudsync_decrypt_go.Recover.{Options, consume_magic, recover_session_key}
use cloudsync_decrypt_go.Payload.{
  Plain, Pipe, new_decrypt_pipe, flush_pending, hold, feed, finish_pending, write_tail, write_sink,
  receive, finish, close_stage,
}
use cloudsync_decrypt_go.Decrypt.{
  current, State, merge, announce, open_pipe, ensure_pipe, feed_pipe, feed_member, handle_typed,
  handle, decrypt_loop, finish_pipe, check_md5, decrypt_stream, decrypt, start_state, as_str,
  as_bytes, loop_fuel,
}
use cloudsync_decrypt_go.Decrypt.Halts.{
  Halts, check_modes-Halts, unpad-Halts, absorb_members-Halts, consume_magic-Halts,
  recover_session_key-Halts,
}

pub bind-Halts :
    {S A B : Type 0} (m : Action S A) (k : A → Action S B) (s : S)
    → Halts (m s).1
    → ((a : A) (t : S) → Halts (k a t).1)
    → Halts ((m >>= k) s).1
bind-Halts {A} m k s h hk = go (m s).1 refl
  where
    go : (r : Result A) → (m s).1 ≡ r → Halts ((m >>= k) s).1
    go (ok a) e = rw (e, ◌>>=◌) (hk a (m s).0)
    go (err x) e = rw (e, ◌>>=◌) failure
    go out_of_fuel e = absurd (Post-ne h e)

pub seq-Halts :
    {S B : Type 0} (m : Action S (Unit {0})) (k : Action S B) (s : S)
    → Halts (m s).1
    → ((t : S) → Halts (k t).1)
    → Halts ((m >> k) s).1
seq-Halts m k s h hk = bind-Halts m (λ u. k) s h (λ u t. hk t)

pub result_of-Halts : (x : Option Error) → Halts (result_of x)
result_of-Halts none = value tt
result_of-Halts (some e) = failure

module _ (O : Out) (C : Crypto) (L : Lz4) where
  open C use {PrivateKey}

  new_decrypt_pipe-Halts :
      (key : List ℕ) (p : Plain O.W) (b : Bool) → Halts (new_decrypt_pipe O C L key p b)
  unfolding new_decrypt_pipe
  new_decrypt_pipe-Halts key p b =
      elim (Fallible-cases (C.new_cipher (evp_kdf C key [] 1 32 block_size).0)) [
        | inl (e, k) ↦ rw (new_decrypt_pipe, k) failure
        | inr (a, k) ↦ rw (new_decrypt_pipe, k) (value tt)
      ]

  flush_pending-Halts : (p : Pipe O C L) → Halts (flush_pending O C L p).1
  unfolding flush_pending
  flush_pending-Halts p = elim (Option-cases p.pending) [
    | inl e ↦ rw (flush_pending, e) (value tt)
    | inr (b, e) ↦ rw (flush_pending, e) (result_of-Halts _)
  ]

  feed-Halts : (ct : List ℕ) (p : Pipe O C L) → Halts (feed O C L ct p).1
  unfolding feed hold
  feed-Halts ct p = elim (Bool-cases (is_unaligned ct)) [
    | inl e ↦ rw (feed, e) failure
    | inr e ↦
        rw (feed, e)
          (seq-Halts (flush_pending O C L) (hold O C L (C.crypt_blocks p.dec ct).0) _
            (flush_pending-Halts _) (λ t. value tt))
  ]

  write_tail-Halts : (b : List ℕ) (p : Pipe O C L) → Halts (write_tail O C L b p).1
  unfolding write_tail
  write_tail-Halts b p = elim (Option-cases (write_sink O L b p.stage).1) [
    | inl e ↦ rw (write_tail, e) (value tt)
    | inr (x, e) ↦ rw (write_tail, e) failure
  ]

  finish_pending-Halts : (p : Pipe O C L) → Halts (finish_pending O C L p).1
  unfolding finish_pending
  finish_pending-Halts p = elim (Option-cases p.pending) [
    | inl e ↦ rw (finish_pending, e) (value tt)
    | inr (b, e) ↦ go b e (unpad_pkcs7 b) refl
  ]
    where
      go :
          (b : List ℕ)
          → p.pending ≡ some b
          → (r : Result (List ℕ)) → unpad_pkcs7 b ≡ r
          → Halts (finish_pending O C L p).1
      go b e (ok x) k = rw (finish_pending, e, k) (write_tail-Halts x p)
      go b e (err x) k = rw (finish_pending, e, k) failure
      go b e out_of_fuel k = absurd (Post-ne (unpad-Halts b) k)

  finish-Halts : (p : Pipe O C L) → Halts (finish O C L p).1
  unfolding finish
  finish-Halts p =
      seq-Halts (finish_pending O C L) (λ q. (receive O C L q, result_of (close_stage O L q.stage)))
        p (finish_pending-Halts p) (λ t. result_of-Halts (close_stage O L t.stage))

  merge-Halts : (ms : Members) (st : State O C L) → Halts (merge O C L ms st).1
  unfolding merge
  merge-Halts ms st = go (absorb_members C ms st.meta) refl
    where
      go : (r : Result Metadata) → absorb_members C ms st.meta ≡ r → Halts (merge O C L ms st).1
      go (ok m) k = rw (merge, k) (value tt)
      go (err x) k = rw (merge, k) failure
      go out_of_fuel k = absurd (Post-ne (absorb_members-Halts C ms st.meta) k)

  open_pipe-Halts : (key : List ℕ) (st : State O C L) → Halts (open_pipe O C L key st).1
  unfolding open_pipe
  open_pipe-Halts key st = go (new_decrypt_pipe O C L key st.plain (is_pos st.meta.compress 1)) refl
    where
      go :
          (r : Result (Pipe O C L))
          → new_decrypt_pipe O C L key st.plain (is_pos st.meta.compress 1) ≡ r
          → Halts (open_pipe O C L key st).1
      go (ok m) k = rw (open_pipe, k) (value tt)
      go (err x) k = rw (open_pipe, k) failure
      go out_of_fuel k =
          absurd (Post-ne (new_decrypt_pipe-Halts key st.plain (is_pos st.meta.compress 1)) k)

  ensure_pipe-Halts : (o : Options PrivateKey) (st : State O C L) → Halts (ensure_pipe O C L o st).1
  unfolding ensure_pipe announce
  ensure_pipe-Halts o st = elim (Option-cases st.pipe) [
    | inr (p, e) ↦ rw (ensure_pipe, e) (value tt)
    | inl e ↦
        rw (ensure_pipe, e)
          (let recover : Action (State O C L) (Unit {0}) =
              lift (recover_session_key C o st.meta) >>= open_pipe O C L in
            seq-Halts (lift (check_modes st.meta)) (announce O C L >> recover) st
              (check_modes-Halts st.meta)
              (λ t. seq-Halts (announce O C L) recover t (value tt) (λ t'.
                bind-Halts (lift (recover_session_key C o st.meta)) (open_pipe O C L) t'
                  (recover_session_key-Halts C o st.meta) open_pipe-Halts)))
  ]

  feed_pipe-Halts : (ct : List ℕ) (st : State O C L) → Halts (feed_pipe O C L ct st).1
  unfolding feed_pipe
  feed_pipe-Halts ct st = elim (Option-cases st.pipe) [
    | inl e ↦ rw (feed_pipe, e) (value tt)
    | inr (p, e) ↦ go p e (feed O C L ct p).1 refl
  ]
    where
      go :
          (p : Pipe O C L)
          → st.pipe ≡ some p
          → (r : Result (Unit {0})) → (feed O C L ct p).1 ≡ r
          → Halts (feed_pipe O C L ct st).1
      go p e (ok x) k = rw (feed_pipe, e, k) (value tt)
      go p e (err x) k = rw (feed_pipe, e, k) failure
      go p e out_of_fuel k = absurd (Post-ne (feed-Halts ct p) k)

  feed_member-Halts : (ct : Option (List ℕ)) (st : State O C L) → Halts (feed_member O C L ct st).1
  unfolding feed_member
  feed_member-Halts (some ct) st = feed_pipe-Halts ct st
  feed_member-Halts none st = failure

  handle_typed-Halts :
      (o : Options PrivateKey) (t : List ℕ) (ms : Members) (st : State O C L)
      → Halts (handle_typed O C L o t ms st).1
  unfolding handle_typed
  handle_typed-Halts o t ms st = elim (Bool-cases (eqb t (codes "metadata"))) [
    | inl e ↦ rw (handle_typed, e) (merge-Halts ms st)
    | inr e ↦ elim (Bool-cases (eqb t (codes "data"))) [
      | inr e' ↦ rw (handle_typed, e, e') failure
      | inl e' ↦
          rw (handle_typed, e, e')
            (seq-Halts (ensure_pipe O C L o)
              (feed_member O C L (as_bytes (lookup_members ms (codes "data")))) st
              (ensure_pipe-Halts o st)
              (feed_member-Halts (as_bytes (lookup_members ms (codes "data")))))
    ]
  ]

  handle-Halts :
      (o : Options PrivateKey) (v : Value) (st : State O C L) → Halts (handle O C L o v st).1
  unfolding handle
  handle-Halts o (dict ms) st = elim (Option-cases (as_str (lookup_members ms (codes "type")))) [
    | inl e ↦ rw (handle, e) failure
    | inr (t, e) ↦ rw (handle, e) (handle_typed-Halts o t ms st)
  ]
  handle-Halts o nil st = failure
  handle-Halts o (bytes b) st = failure
  handle-Halts o (str b) st = failure
  handle-Halts o (int n) st = failure

  loop-Halts :
      (fuel : ℕ) (o : Options PrivateKey) (src : Source) (st : State O C L)
      → length src.bytes < fuel
      → Halts (decrypt_loop O C L fuel o src st).1
  unfolding decrypt_loop
  loop-Halts zero o src st h = absurd (omega arith)
  loop-Halts (suc fuel) o src st h =
      go (next src) refl (next-Post src) (λ src' t k. loop-Halts fuel o src' t k)
    where
      go :
          (r : Result (Option (Value × Source)))
          → next src ≡ r
          → Post (NextPost src) r
          → ((src' : Source) (t : State O C L)
              → length src'.bytes < fuel
              → Halts (decrypt_loop O C L fuel o src' t).1)
          → Halts (decrypt_loop O C L (suc fuel) o src st).1
      go (ok none) k post again = rw (decrypt_loop, k) (value tt)
      go (ok (some (v, src'))) k (value past) again =
          rw (decrypt_loop, k)
            (seq-Halts (handle O C L o v) (decrypt_loop O C L fuel o src') st (handle-Halts o v st)
              (λ t. again src' t (omega (arith, past.taken))))
      go (err e) k post again = rw (decrypt_loop, k) failure
      go out_of_fuel k post again = absurd (Post-ne post refl)

  finish_pipe-Halts : (st : State O C L) → Halts (finish_pipe O C L st).1
  unfolding finish_pipe
  finish_pipe-Halts st = elim (Option-cases st.pipe) [
    | inl e ↦ rw (finish_pipe, e) failure
    | inr (p, e) ↦ rw (finish_pipe, e) (finish-Halts p)
  ]

  check_md5-Halts : (st : State O C L) → Halts (check_md5 O C L st).1
  unfolding check_md5
  check_md5-Halts st = elim (Bool-cases (eqb st.meta.plaintext_md5 [])) [
    | inl e ↦ rw (check_md5, e) (value tt)
    | inr e ↦
        elim (Bool-cases (eqb (hex_encode (C.md5 (current O C L st).md5)) st.meta.plaintext_md5)) [
          | inl e' ↦ rw (check_md5, e, e') (value tt)
          | inr e' ↦ rw (check_md5, e, e') failure
        ]
  ]

  -- `Decrypt` ends on every input, whatever the secrets and the output: it returns nil or an error, and
  -- the fuel of its loop, which depends on the length of the input only, is never used up.
  pub decrypt-Halts :
      (inp : Source) (out : O.W) (o : Options PrivateKey) → Halts (decrypt O C L inp out o).1
  unfolding decrypt decrypt_stream
  decrypt-Halts inp out o = go (consume_magic C inp) refl
    where
      go : (r : Result Source) → consume_magic C inp ≡ r → Halts (decrypt O C L inp out o).1
      go (ok src) k =
          rw (decrypt, k)
            (seq-Halts (decrypt_loop O C L (loop_fuel src) o src >> finish_pipe O C L)
              (check_md5 O C L) _
              (seq-Halts (decrypt_loop O C L (loop_fuel src) o src) (finish_pipe O C L) _
                (loop-Halts (loop_fuel src) o src (start_state O C L out) (omega arith))
                finish_pipe-Halts)
              check_md5-Halts)
      go (err e) k = rw (decrypt, k) failure
      go out_of_fuel k = absurd (Post-ne (consume_magic-Halts C inp) k)
