-- ===== src/Payload/Receives.antt =====
-- csenc/decrypt.go: the receives of `decryptPipe` from `doneCh`.
use cloudsync_decrypt_go.Common.{
  ℕ, ◌+◌, ◌≤◌, ◌≡◌, refl, inl, inr, List, Option, none, some, Option-cases, Bool-cases, Error,
  Result, ok, err, out_of_fuel, arith,
}
use cloudsync_decrypt_go.Common.Action.{◌>>=◌, ◌>>◌, result_of}
use cloudsync_decrypt_go.Io.{Out}
use cloudsync_decrypt_go.Crypto.{Crypto}
use cloudsync_decrypt_go.Lz4.{Lz4}
use cloudsync_decrypt_go.Padding.{unpad_pkcs7, is_unaligned}
use cloudsync_decrypt_go.Payload.{
  Stage, direct, piped, Pipe, flush_pending, hold, feed, finish_pending, write_tail, write_sink,
  receive_piped, abort, abort_stage, finish, close_stage,
}

module _ (O : Out) (C : Crypto) (L : Lz4) where
  open C use {PrivateKey}

  -- What an action on a pipe has received: nothing if it has returned, and once at most if it has
  -- failed.
  abbrev PipeAfter : ℕ → ℕ → Result (Unit {0}) → Type 0
  PipeAfter n m (ok u) = m ≡ n
  PipeAfter n m (err e) = m ≤ n + 1
  PipeAfter n m out_of_fuel = m ≤ n + 1

  receive_piped-le :
      (s : Stage O.W L.Decoder) (p : Pipe O C L)
      → (receive_piped O C L (record p { stage = s })).received ≤ p.received + 1
  receive_piped-le (direct q) p = omega arith
  receive_piped-le (piped g) p = omega arith

  pub abort-le : (e : Error) (p : Pipe O C L) → (abort O C L e p).received ≤ p.received + 1
  unfolding abort
  abort-le e p = receive_piped-le (abort_stage O L e p.stage) p

  flush_pending-received : (p : Pipe O C L) → (flush_pending O C L p).0.received ≡ p.received
  unfolding flush_pending
  flush_pending-received p = elim (Option-cases p.pending) [
    | inl e ↦ rw (flush_pending, e) refl
    | inr (b, e) ↦ rw (flush_pending, e) refl
  ]

  pub feed-received : (ct : List ℕ) (p : Pipe O C L) → (feed O C L ct p).0.received ≡ p.received
  unfolding feed hold
  feed-received ct p = elim (Bool-cases (is_unaligned ct)) [
    | inl e ↦ rw (feed, e) refl
    | inr e ↦
        rw (feed, e)
          (held (record p { dec = (C.crypt_blocks p.dec ct).1 }) (C.crypt_blocks p.dec ct).0)
  ]
    where
      held :
          (q : Pipe O C L) (b : List ℕ)
          → ((flush_pending O C L >> hold O C L b) q).0.received ≡ q.received
      held q b = go (flush_pending O C L q).1 refl
        where
          go :
              (r : Result (Unit {0}))
              → (flush_pending O C L q).1 ≡ r
              → ((flush_pending O C L >> hold O C L b) q).0.received ≡ q.received
          go (ok u) k = rw (k, ◌>>=◌) (flush_pending-received q)
          go (err x) k = rw (k, ◌>>=◌) (flush_pending-received q)
          go out_of_fuel k = rw (k, ◌>>=◌) (flush_pending-received q)

  write_tail-PipeAfter :
      (b : List ℕ) (p : Pipe O C L)
      → PipeAfter p.received (write_tail O C L b p).0.received (write_tail O C L b p).1
  unfolding write_tail
  write_tail-PipeAfter b p = elim (Option-cases (write_sink O L b p.stage).1) [
    | inl e ↦ rw (write_tail, e) refl
    | inr (x, e) ↦ rw (write_tail, e) (receive_piped-le (write_sink O L b p.stage).0 p)
  ]

  finish_pending-PipeAfter :
      (p : Pipe O C L)
      → PipeAfter p.received (finish_pending O C L p).0.received (finish_pending O C L p).1
  unfolding finish_pending
  finish_pending-PipeAfter p = elim (Option-cases p.pending) [
    | inl e ↦ rw (finish_pending, e) refl
    | inr (b, e) ↦ go b e (unpad_pkcs7 b) refl
  ]
    where
      go :
          (b : List ℕ)
          → p.pending ≡ some b
          → (r : Result (List ℕ)) → unpad_pkcs7 b ≡ r
          → PipeAfter p.received (finish_pending O C L p).0.received (finish_pending O C L p).1
      go b e (ok x) k = rw (finish_pending, e, k) (write_tail-PipeAfter x p)
      go b e (err x) k = rw (finish_pending, e, k) (abort-le x p)
      go b e out_of_fuel k = rw (finish_pending, e, k) (omega arith)

  -- The same for a pipe that has finished, where a success has received exactly once.
  abbrev pub Spent : ℕ → Result (Unit {0}) → Type 0
  Spent m (ok u) = m ≡ 1
  Spent m (err e) = m ≤ 1
  Spent m out_of_fuel = m ≤ 1

  result_of-Spent : (m : ℕ) (x : Option Error) → m ≡ 1 → Spent m (result_of x)
  result_of-Spent m none h = h
  result_of-Spent m (some e) h = omega arith

  pub finish-Spent :
      (p : Pipe O C L) → p.received ≡ 0 → Spent (finish O C L p).0.received (finish O C L p).1
  unfolding finish
  finish-Spent p z = go (finish_pending O C L p).1 refl
    where
      go :
          (r : Result (Unit {0}))
          → (finish_pending O C L p).1 ≡ r
          → Spent (finish O C L p).0.received (finish O C L p).1
      go (ok u) k =
          let kept = rw k at (finish_pending-PipeAfter p) in
          rw (k, ◌>>=◌)
            (result_of-Spent ((finish_pending O C L p).0.received + 1)
              (close_stage O L (finish_pending O C L p).0.stage) (omega arith))
      go (err x) k = let kept = rw k at (finish_pending-PipeAfter p) in rw (k, ◌>>=◌) (omega arith)
      go out_of_fuel k =
          let kept = rw k at (finish_pending-PipeAfter p) in rw (k, ◌>>=◌) (omega arith)
