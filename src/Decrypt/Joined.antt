-- ===== src/Decrypt/Joined.antt =====
-- csenc/decrypt.go: the loop of `Decrypt`, its end, and `doneCh`, to which one value is sent: a second
-- receive would wait forever, and the first waits for the end of the goroutine, if there is one.
use cloudsync_decrypt_go.Common.{
  ℕ, zero, suc, ◌≡◌, refl, inl, inr, [], Option, none, some, Option-cases, Bool-cases, Result, ok,
  err, out_of_fuel, eqb,
}
use cloudsync_decrypt_go.Common.Action.{◌>>◌}
use cloudsync_decrypt_go.Wire.{Value, Source, next}
use cloudsync_decrypt_go.Hex.{hex_encode}
use cloudsync_decrypt_go.Io.{Out}
use cloudsync_decrypt_go.Crypto.{Crypto}
use cloudsync_decrypt_go.Lz4.{Lz4}
use cloudsync_decrypt_go.Recover.{Options, consume_magic}
use cloudsync_decrypt_go.Payload.{Pipe, finish}
use cloudsync_decrypt_go.Decrypt.{
  current, State, handle, decrypt_loop, finish_pipe, check_md5, decrypt_stream, decrypt,
  start_state, loop_fuel,
}
use cloudsync_decrypt_go.Payload.Receives.{Spent, finish-Spent}
use cloudsync_decrypt_go.Decrypt.Receives.{
  Fresh, Once, After, Fresh-AtMostOnce, Once-AtMostOnce, bind-After, abort_pipe-AtMostOnce,
  handle-After,
}

module _ (O : Out) (C : Crypto) (L : Lz4) where
  open C use {PrivateKey}

  loop-After :
      (fuel : ℕ) (o : Options PrivateKey) (src : Source) (st : State O C L)
      → Fresh O C L st.pipe
      → After O C L (Fresh O C L) (decrypt_loop O C L fuel o src st)
  unfolding decrypt_loop
  loop-After zero o src st h = Fresh-AtMostOnce O C L st.pipe h
  loop-After (suc fuel) o src st h = go (loop-After fuel o) (next src) refl
    where
      go :
          ((rest : Source) (t : State O C L)
            → Fresh O C L t.pipe
            → After O C L (Fresh O C L) (decrypt_loop O C L fuel o rest t))
          → (r : Result (Option (Value × Source))) → next src ≡ r
          → After O C L (Fresh O C L) (decrypt_loop O C L (suc fuel) o src st)
      go ih (ok none) k = rw (decrypt_loop, k) h
      go ih (err x) k = rw (decrypt_loop, k) (abort_pipe-AtMostOnce O C L x st h)
      go ih out_of_fuel k = rw (decrypt_loop, k) (Fresh-AtMostOnce O C L st.pipe h)
      go ih (ok (some (v, src'))) k =
          rw (decrypt_loop, k)
            (bind-After O C L (Fresh O C L) (Fresh O C L) (handle O C L o v)
              (λ u. decrypt_loop O C L fuel o src') st (handle-After O C L o v st h)
              (λ u t g. ih src' t g))

  finish_pipe-After :
      (st : State O C L) → Fresh O C L st.pipe → After O C L (Once O C L) (finish_pipe O C L st)
  unfolding finish_pipe
  finish_pipe-After st h = elim (Option-cases st.pipe) [
    | inl e ↦ rw (finish_pipe, e) (Fresh-AtMostOnce O C L st.pipe h)
    | inr (p, e) ↦
        rw (finish_pipe, e)
          (spent (finish O C L p).0 (finish O C L p).1 (finish-Spent O C L p (rw e at h)))
  ]
    where
      spent :
          (q : Pipe O C L) (r : Result (Unit {0}))
          → Spent O C L q.received r
          → After O C L (Once O C L) (record st { pipe = some q }, r)
      spent q (ok u) g = g
      spent q (err x) g = g
      spent q out_of_fuel g = g

  check_md5-After :
      (st : State O C L) → Once O C L st.pipe → After O C L (Once O C L) (check_md5 O C L st)
  unfolding check_md5
  check_md5-After st h = elim (Bool-cases (eqb st.meta.plaintext_md5 [])) [
    | inl e ↦ rw (check_md5, e) h
    | inr e ↦
        elim (Bool-cases (eqb (hex_encode (C.md5 (current O C L st).md5)) st.meta.plaintext_md5)) [
          | inl e' ↦ rw (check_md5, e, e') h
          | inr e' ↦ rw (check_md5, e, e') (Once-AtMostOnce O C L st.pipe h)
        ]
  ]

  decrypt_stream-After :
      (o : Options PrivateKey) (src : Source) (st : State O C L)
      → Fresh O C L st.pipe
      → After O C L (Once O C L) (decrypt_stream O C L o src st)
  unfolding decrypt_stream
  decrypt_stream-After o src st h =
      bind-After O C L (Once O C L) (Once O C L)
        (decrypt_loop O C L (loop_fuel src) o src >> finish_pipe O C L) (λ u. check_md5 O C L) st
        (bind-After O C L (Fresh O C L) (Once O C L) (decrypt_loop O C L (loop_fuel src) o src)
          (λ u. finish_pipe O C L) st (loop-After (loop_fuel src) o src st h)
          (λ u. finish_pipe-After))
        (λ u. check_md5-After)

  -- On every input and for all options `Decrypt` receives from `doneCh` once at most, and where it
  -- returns no error it has made the pipe and has received exactly once.
  pub decrypt-After :
      (inp : Source) (out : O.W) (o : Options PrivateKey)
      → After O C L (Once O C L) (decrypt O C L inp out o)
  unfolding decrypt
  decrypt-After inp out o = go (consume_magic C inp) refl
    where
      go :
          (r : Result Source)
          → consume_magic C inp ≡ r
          → After O C L (Once O C L) (decrypt O C L inp out o)
      go (ok src) k = rw (decrypt, k) (decrypt_stream-After o src (start_state O C L out) tt)
      go (err x) k = rw (decrypt, k) tt
      go out_of_fuel k = rw (decrypt, k) tt
